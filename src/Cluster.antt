-- ===== src/Cluster.antt =====
-- pkg/controllers/cluster/reconciler.go: the webhook configurations that are written to a workload
-- cluster once the ingress of the webhook server has a host and a certificate.
pub mod PrivateKey
pub mod Readiness
pub mod Configured
use Prim.Native.String.{◌++◌ as ◌+++◌}
use multi_cluster_traffic_co.Prelude.{
  ℕ, String, Bool, true, false, Option, none, some, List, [], ◌∷◌, ◌==◌, if◌then◌else◌, Error,
  Result, ok, Exec, pure, lift, fail, ◌>>=◌, err, panic,
}
use multi_cluster_traffic_co.Prelude.StringMap.{StringMap, lookup}
use multi_cluster_traffic_co.Text.{split}
use multi_cluster_traffic_co.Slice.{contains_string, find}
use multi_cluster_traffic_co.Api.Types.{NamespacedName}
use multi_cluster_traffic_co.Client.{ObjectClient, RestConfig}
use multi_cluster_traffic_co.Certificates.{Secret}
use multi_cluster_traffic_co.Ingress.{Ingress, TlsConfig, annotation_managed_hosts, get_tls}
use multi_cluster_traffic_co.Ingress.WebhookConfigurations.{
  WebhookConfiguration, MutatingWebhook, get_webhook_configurations,
}

-- Object
pub record Object : Type 0 where
  pub name : String
  pub rest_config : RestConfig

-- `controllerutil.CreateOrUpdate` with the client of a workload cluster, for the two kinds of
-- configurations: it takes the object and the function that changes it.
pub record WorkloadClient (S : Type 0) : Type 0 where
  pub create_or_update_validating :
      WebhookConfiguration
      → (WebhookConfiguration → Result WebhookConfiguration)
      → Exec S WebhookConfiguration
  pub create_or_update_mutating :
      WebhookConfiguration
      → (WebhookConfiguration → Result WebhookConfiguration)
      → Exec S WebhookConfiguration

-- AdmissionReconciler, with `client.New` and the answer of `IsRunningLocally`.
pub record AdmissionReconciler (S Http : Type 0) : Type 0 where
  pub ingresses : ObjectClient S (Ingress Http)
  pub secrets : ObjectClient S Secret
  pub new_client : RestConfig → Exec S (WorkloadClient S)
  pub running_locally : Bool

-- IsRunningLocally of pkg/_internal/controller/run.go, over `os.Stat` with its error, if any, and the
-- test of an error for `os.ErrNotExist`.
unfoldable pub is_running_locally : (String → Option Error) → (Error → Bool) → Bool
is_running_locally stat is_not_exist = elim (stat "/manager") [
  | none ↦ false
  | some e ↦ is_not_exist e
]

-- The key that `getWebhookTraffic` reads.
abbrev pub webhook_key : NamespacedName
webhook_key = record {
  namespace = "multi-cluster-traffic-controller-system";
  name = "mctc-ingress-mctc";
}

-- bundleCA, over the entries of the secret in the order in which the `range` visits them.
unfoldable pub bundle_ca : StringMap → String
bundle_ca [] = String.[]
bundle_ca (entry ∷ entries) =
    let rest = bundle_ca entries in if entry.0 == "tls.key" then rest else entry.1 +++ rest

-- `annotations[traffic.AnnotationManagedHosts]`, which is empty if the key is missing.
unfoldable pub managed_hosts_text : {Http : Type 0} → Ingress Http → String
managed_hosts_text a = elim a.metadata.annotations [
  | none ↦ String.[]
  | some annotations ↦ elim (lookup annotation_managed_hosts annotations) [
    | none ↦ String.[]
    | some text ↦ text
  ]
]

-- What `getWebhookTraffic` does with the ingress.
unfoldable pub checked_traffic : {Http : Type 0} → Ingress Http → Option (Ingress Http)
unfolding managed_hosts_text
checked_traffic a = elim a.metadata.annotations [
  | none ↦ none
  | some _ ↦ if managed_hosts_text a == "" then none else elim a.tls [ [] ↦ none | _ ∷ _ ↦ some a ]
]

-- The lookup of `getTLSSecret`.
unfoldable pub tls_config_of : {Http : Type 0} → String → Ingress Http → Option TlsConfig
unfolding get_tls
tls_config_of managed_host a = find (get_tls a) (λ t. contains_string t.hosts managed_host)

-- The function that `CreateOrUpdate` gets.
unfoldable pub set_webhooks :
    List MutatingWebhook → WebhookConfiguration → Result WebhookConfiguration
set_webhooks webhooks g = ok (record g { webhooks = webhooks })

module _ {S : Type 0} where
  -- One of the two loops of `Reconcile`, over the configurations, with the `CreateOrUpdate` of their kind.
  unfoldable pub write_webhooks :
      (WebhookConfiguration
        → (WebhookConfiguration → Result WebhookConfiguration)
        → Exec S WebhookConfiguration)
      → List WebhookConfiguration
      → Exec S (Unit {0})
  unfolding set_webhooks
  write_webhooks create_or_update [] = pure tt
  write_webhooks create_or_update (webhook ∷ configurations) =
      create_or_update (record webhook { webhooks = [] }) (set_webhooks webhook.webhooks) >>= λ _.
      write_webhooks create_or_update configurations

module _ {S Http : Type 0} (r : AdmissionReconciler S Http) where
  open r use {ingresses, secrets, new_client, running_locally}

  -- getWebhookTraffic
  unfoldable pub get_webhook_traffic : Exec S (Option (Ingress Http))
  unfolding checked_traffic
  get_webhook_traffic = ingresses.get webhook_key >>= λ a. pure (checked_traffic a)

  -- getTLSSecret
  unfoldable pub get_tls_secret : String → Ingress Http → Exec S (Option Secret)
  unfolding tls_config_of
  get_tls_secret managed_host a = elim (tls_config_of managed_host a) [
    | none ↦ pure none
    | some tls_config ↦
        secrets.get (record { name = tls_config.secret_name; namespace = a.metadata.namespace })
        >>= λ secret. pure (some secret)
  ]

  -- The end of `Reconcile`, from the client of the workload cluster on.
  unfoldable pub write_configurations : Object → String → Secret → Exec S (Option ℕ)
  unfolding get_webhook_configurations write_webhooks bundle_ca
  write_configurations obj managed_host tls_secret = do
    workload_client ← new_client obj.rest_config
    let (validating, mutating) =
        get_webhook_configurations running_locally managed_host (bundle_ca tls_secret.data_entries)
    _ ← write_webhooks workload_client.create_or_update_validating validating
    _ ← write_webhooks workload_client.create_or_update_mutating mutating
    pure none

  -- `Reconcile` after `getTLSSecret`, whose errors it does not return.
  unfoldable pub with_tls_secret : Object → String → Result (Option Secret) → Exec S (Option ℕ)
  unfolding write_configurations
  with_tls_secret obj managed_host (ok none) = pure (some 60)
  with_tls_secret obj managed_host (ok (some tls_secret)) =
      write_configurations obj managed_host tls_secret
  with_tls_secret obj managed_host (err e) = pure none
  with_tls_secret obj managed_host panic = lift panic

  -- `Reconcile` after `getWebhookTraffic`; `strings.Split` gives one part at least.
  unfoldable pub with_traffic : Object → Option (Ingress Http) → Exec S (Option ℕ)
  unfolding get_tls_secret with_tls_secret managed_hosts_text
  with_traffic obj none = pure (some 60)
  with_traffic obj (some a) = elim (split (managed_hosts_text a)) [
    | [] ↦ lift panic
    | managed_host ∷ _ ↦ λ s.
        let (found, s') = get_tls_secret managed_host a s in
        with_tls_secret obj managed_host found s'
  ]

  -- Reconcile; the result is the number of seconds of a requeue, if there is one.
  unfoldable pub reconcile : Object → Exec S (Option ℕ)
  unfolding get_webhook_traffic with_traffic
  reconcile obj = get_webhook_traffic >>= with_traffic obj
