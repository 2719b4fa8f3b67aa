-- ===== src/SecretController.antt =====
-- pkg/controllers/secret/secret_controller.go: a secret of Argo CD that registers a cluster starts the
-- watch of the cluster and the reconciliation of its webhook configurations.
pub mod Registration
use multi_cluster_traffic_co.Prelude.{
  ℕ, String, Bool, false, ◌&&◌, Option, none, some, List, ◌==◌, Result, Exec, lift, ◌>>=◌,
}
use Prim.Native.Char.{code}
use multi_cluster_traffic_co.Prelude.{nat_eq, if◌then◌else◌}
use multi_cluster_traffic_co.Prelude.StringMap.{lookup}
use multi_cluster_traffic_co.Api.Types.{NamespacedName, ObjectMeta}
use multi_cluster_traffic_co.Client.{ObjectClient, RestConfig}
use multi_cluster_traffic_co.Certificates.{Secret}
use multi_cluster_traffic_co.Metadata.{has_label}
use multi_cluster_traffic_co.Cluster.{Object}

pub record TlsClientConfig : Type 0 where
  pub insecure : Bool
  pub ca_data : String
  pub cert_data : String
  pub key_data : String

pub record ProviderConfig : Type 0 where
  pub command : String
  pub args : List String
  pub api_version : String

pub record ArgoClusterConfig : Type 0 where
  pub bearer_token : String
  pub username : String
  pub password : String
  pub tls_client_config : TlsClientConfig
  pub exec_provider_config : ProviderConfig

-- CLUSTER__SECRET_LABEL and ARGO_CLUSTER_LABEL_VALUE
abbrev pub cluster_secret_label : String
cluster_secret_label = "argocd.argoproj.io/secret-type"

abbrev pub argo_cluster_label_value : String
argo_cluster_label_value = "cluster"

-- SecretReconciler: its client, the interface of the watch and of the cluster reconciler, and the
-- functions `json.Unmarshal` and `url.Parse`, of which the latter gives the field Host.
pub record SecretReconciler (S Watcher : Type 0) : Type 0 where
  pub secrets : ObjectClient S Secret
  pub unmarshal : String → Result ArgoClusterConfig
  pub parse_url : String → Result String
  pub watch_cluster : RestConfig → Exec S Watcher
  pub reconcile_cluster : Object → Exec S (Option ℕ)

-- `secret.Data[key]` as a text.
unfoldable pub data_of : Secret → String → String
data_of secret key = elim (lookup key secret.data_entries) [ none ↦ "" | some value ↦ value ]

-- `strings.SplitN(s, ":", 2)[0]`
unfoldable pub before_colon : String → String
before_colon String.[] = String.[]
before_colon (String.◌∷◌ c s) =
    let rest = before_colon s in if nat_eq (code c) b':' then String.[] else String.◌∷◌ c rest

-- The `restConfig` of `Reconcile`.
unfoldable pub rest_config_of : ArgoClusterConfig → String → RestConfig
unfolding before_colon
rest_config_of config host = record {
  host = host;
  username = config.username;
  password = config.password;
  bearer_token = config.bearer_token;
  server_name = before_colon host;
  cert_data = config.tls_client_config.cert_data;
  key_data = config.tls_client_config.key_data;
  ca_data = config.tls_client_config.ca_data;
}

-- The three functions of the event filter, which are the same test of the object.
unfoldable pub registers_cluster : ObjectMeta → Bool
unfolding has_label
registers_cluster m = has_label m cluster_secret_label && (elim m.labels [
  | none ↦ false
  | some labels ↦ elim (lookup cluster_secret_label labels) [
    | none ↦ false
    | some value ↦ value == argo_cluster_label_value
  ]
])

module _ {S Watcher : Type 0} (r : SecretReconciler S Watcher) where
  open r use {secrets, unmarshal, parse_url, watch_cluster, reconcile_cluster}

  -- The end of `Reconcile`: a result with a requeue is handed on, and any other is the zero result.
  unfoldable pub register : Object → Exec S (Option ℕ)
  register obj = watch_cluster obj.rest_config >>= λ _. reconcile_cluster obj

  -- What `Reconcile` does with the secret.
  unfoldable pub register_secret : Secret → Exec S (Option ℕ)
  unfolding data_of rest_config_of register
  register_secret secret = do
    config ← lift (unmarshal (data_of secret "config"))
    host ← lift (parse_url (data_of secret "server"))
    register (record { name = secret.metadata.name; rest_config = rest_config_of config host })

  -- Reconcile; the result is the number of seconds of a requeue, if there is one.
  unfoldable pub reconcile : NamespacedName → Exec S (Option ℕ)
  unfolding register_secret
  reconcile req = secrets.get req >>= register_secret

-- SetupWithManager, over the rest of the builder: `Complete` for secrets with an event filter.
unfoldable pub setup_with_manager :
    {S Watcher A : Type 0}
    → ((ObjectMeta → Bool) → SecretReconciler S Watcher → A)
    → SecretReconciler S Watcher
    → A
setup_with_manager complete r = complete registers_cluster r
