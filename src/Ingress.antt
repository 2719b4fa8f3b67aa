-- ===== src/Ingress.antt =====
-- pkg/traffic: the Ingress accessor (ingress.go) and its interface (traffic.go).
-- `networkingv1.HTTPIngressRuleValue` and its comparison are not of this repository: the type is
-- a parameter `Http`, and `equality.Semantic.DeepEqual` on it is the parameter `deep_equal`.
pub mod KnownHost
pub mod Hosts
pub mod ManagedHost
pub mod Annotation
pub mod Tls
pub mod RemoveTls
pub mod WebhookConfigurations
use Prim.Native.String.{◌++◌ as ◌+++◌}
use multi_cluster_traffic_co.Prelude.{
  String, Bool, true, false, not, ◌||◌, none, some, List, [], ◌∷◌, ◌++◌, ◌==◌, any, map,
  if◌then◌else◌,
}
use multi_cluster_traffic_co.Prelude.StringMap.{StringMap, lookup, insert}
use multi_cluster_traffic_co.Text.{split}
use multi_cluster_traffic_co.Slice.{contains_string}
use multi_cluster_traffic_co.Api.Types.{
  ObjectMeta, NamespacedName, Target, target_type_host, target_type_ip,
}

pub record IngressRule (Http : Type 0) : Type 0 where
  pub host : String
  pub http : Http

-- `networkingv1.IngressTLS`, and `TLSConfig`, which has the same fields.
pub record TlsConfig : Type 0 where
  pub hosts : List String
  pub secret_name : String

pub record LoadBalancerIngress : Type 0 where
  pub ip : String
  pub hostname : String

pub record Ingress (Http : Type 0) : Type 0 where
  pub metadata : ObjectMeta
  pub rules : List (IngressRule Http)
  pub tls : List TlsConfig
  pub load_balancer : List LoadBalancerIngress

-- AnnotationManagedHosts
abbrev pub annotation_managed_hosts : String
annotation_managed_hosts = "kuadrant.io/managed-hosts"

module _ {Http : Type 0} where
  -- The loop of `GetHosts`.
  unfoldable pub collect_hosts : List (IngressRule Http) → List String → List String
  collect_hosts [] hosts = hosts
  collect_hosts (rule ∷ rules) hosts =
      collect_hosts rules
        (if contains_string hosts rule.host then hosts else hosts ++ rule.host ∷ [])

  -- GetHosts
  unfoldable pub get_hosts : Ingress Http → List String
  unfolding collect_hosts
  get_hosts a = collect_hosts a.rules []

  -- The first loop of `AddManagedHost`: what the rules of host `h` serve.
  unfoldable pub covered_rules : String → List (IngressRule Http) → List Http
  covered_rules h [] = []
  covered_rules h (existing ∷ rules) =
      let rest = covered_rules h rules in if existing.host == h then existing.http ∷ rest else rest

module _ {Http : Type 0} (deep_equal : Http → Http → Bool) where
  -- isCovered
  unfoldable pub is_covered : List Http → Http → Bool
  is_covered covered val = any (λ ar. deep_equal ar val) covered

  -- The second loop of `AddManagedHost`: `additionalRules`.
  unfoldable pub additional_rules :
      String → List (IngressRule Http) → List Http → List (IngressRule Http)
  unfolding is_covered
  additional_rules h [] covered = []
  additional_rules h (existing ∷ rules) covered =
      let skip = additional_rules h rules covered in
      let add =
        record { host = h; http = existing.http }
        ∷ additional_rules h rules (covered ++ existing.http ∷ []) in
      if existing.host == h || is_covered covered existing.http then skip else add

-- What `AddManagedHost` does to the annotations; an early `return nil` leaves them as they are.
unfoldable pub record_managed_host : String → StringMap → StringMap
record_managed_host h annotations = elim (lookup annotation_managed_hosts annotations) [
  | none ↦ insert annotation_managed_hosts h annotations
  | some v ↦
      if v == ""
      then insert annotation_managed_hosts v annotations
      else if any (λ mh. mh == h) (split v)
      then annotations
      else insert annotation_managed_hosts (v +++ ("," +++ h)) annotations
]

-- `a.Annotations`, made an empty map if it is nil.
abbrev pub annotations_of : ObjectMeta → StringMap
annotations_of m = elim m.annotations [ none ↦ [] | some annotations ↦ annotations ]

module _ {Http : Type 0} (deep_equal : Http → Http → Bool) where
  -- AddManagedHost, which returns no error on any path.
  unfoldable pub add_managed_host : Ingress Http → String → Ingress Http
  add_managed_host a h = record a {
    rules = a.rules ++ additional_rules deep_equal h a.rules (covered_rules h a.rules);
    metadata = record a.metadata {
      annotations = some (record_managed_host h (annotations_of a.metadata));
    };
  }

-- The section that `AddTLS` writes.
abbrev pub tls_section : String → String → TlsConfig
tls_section host secret_name = record { hosts = host ∷ []; secret_name = secret_name }

-- The loop of `AddTLS` and the `append` behind it: the first section that holds the host is
-- replaced, and a new one is added if there is none.
unfoldable pub put_tls : String → String → List TlsConfig → List TlsConfig
put_tls host secret_name [] = tls_section host secret_name ∷ []
put_tls host secret_name (tls ∷ sections) =
    if contains_string tls.hosts host
    then tls_section host secret_name ∷ sections
    else tls ∷ put_tls host secret_name sections

module _ {Http : Type 0} where
  -- HasTLS
  unfoldable pub has_tls : Ingress Http → Bool
  has_tls a = elim a.tls [ [] ↦ false | _ ∷ _ ↦ true ]

  -- GetTLS
  unfoldable pub get_tls : Ingress Http → List TlsConfig
  get_tls a = a.tls

  -- AddTLS, at a secret of which it reads the name.
  unfoldable pub add_tls : Ingress Http → String → String → Ingress Http
  unfolding put_tls
  add_tls a host secret_name = record a { tls = put_tls host secret_name a.tls }

  -- GetNamespaceName
  unfoldable pub get_namespace_name : Ingress Http → NamespacedName
  get_namespace_name a = record { namespace = a.metadata.namespace; name = a.metadata.name }

  -- ExposesOwnController
  unfoldable pub exposes_own_controller : Ingress Http → Bool
  exposes_own_controller a = elim a.metadata.annotations [
    | none ↦ false
    | some annotations ↦ elim (lookup "mctc-component" annotations) [
      | none ↦ false
      | some component ↦ component == "webhook"
    ]
  ]

-- One round of `GetDNSTargets`.
unfoldable pub dns_target : LoadBalancerIngress → Target
dns_target lb =
    if not (lb.hostname == "")
    then record { cluster = ""; target_type = target_type_host; value = lb.hostname }
    else if not (lb.ip == "")
    then record { cluster = ""; target_type = target_type_ip; value = lb.ip }
    else record { cluster = ""; target_type = ""; value = "" }

module _ {Http : Type 0} where
  -- GetDNSTargets, which returns no error.
  unfoldable pub get_dns_targets : Ingress Http → List Target
  unfolding dns_target
  get_dns_targets a = map dns_target a.load_balancer
