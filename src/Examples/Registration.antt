-- ===== src/Examples/Registration.antt =====
-- A secret that registers a cluster, the watch of it, the labels of an object, and a name server.
use Prim.Native.String.{◌++◌ as ◌+++◌}
use multi_cluster_traffic_co.Prelude.{
  ℕ, String, false, some, List, [], ◌∷◌, ◌==◌, ◌≡◌, refl, Result, ok, err, errorf, if◌then◌else◌,
}
use multi_cluster_traffic_co.Slice.{find}
use multi_cluster_traffic_co.Api.Types.{object_key, object_meta}
use multi_cluster_traffic_co.Client.{RestConfig}
use multi_cluster_traffic_co.Certificates.{Secret}
use multi_cluster_traffic_co.Watch.Clusters.{
  Watcher, Watchers, WatchController, watch_cluster, watcher_of, new_cluster_watcher, keep_watcher,
  add_watcher,
}
use multi_cluster_traffic_co.Watch.Clusters.Once.{IsOnce, watcher_for, watch_cluster_unstarted}
use multi_cluster_traffic_co.SecretController.{
  SecretReconciler, ArgoClusterConfig, reconcile, register_secret, register, rest_config_of,
  before_colon,
}
use multi_cluster_traffic_co.SecretController.Registration.{SharesMap, reconcile-IsOnce}
use multi_cluster_traffic_co.Metadata.{trim_space}
use multi_cluster_traffic_co.DnsService.Resolver.{
  Answer, a_record, other_record, DefaultHostResolver, lookup_ip_addr, lookup_ip_addr-settled,
  settled,
}

-- The state is the list of the clusters whose watchers were to be started; the manager takes none.
abbrev refusing : WatchController (List String) String String
refusing = record {
  new_for_config = λ c s. (ok c.host, s);
  factory = λ c s. (ok c.bearer_token, s);
  add_to_manager = λ x s. (err (errorf "stopped"), x.cluster_name ∷ s);
}

abbrev pub argo : ArgoClusterConfig
argo = record {
  bearer_token = "t";
  username = "";
  password = "";
  tls_client_config = record { insecure = false; ca_data = ""; cert_data = ""; key_data = "" };
  exec_provider_config = record { command = ""; args = []; api_version = "" };
}

abbrev address : RestConfig
address = record {
  host = "10.0.0.2:6443";
  username = "";
  password = "";
  bearer_token = "t";
  server_name = "10.0.0.2";
  cert_data = "";
  key_data = "";
  ca_data = "";
}

rest_config_of_test : rest_config_of argo "10.0.0.2:6443" ≡ address
unfolding rest_config_of before_colon
rest_config_of_test = refl

watch_cluster_unstarted_example :
    (watch_cluster refusing address ([], []) ≡ (
      ok (watcher_for refusing address "10.0.0.2:6443" "t"),
      (
        ("10.0.0.2:6443", watcher_for refusing address "10.0.0.2:6443" "t") ∷ [],
        "10.0.0.2:6443" ∷ [],
      ),
    ))
    × (watch_cluster refusing
          (record address { bearer_token = "new" })
          (("10.0.0.2:6443", watcher_for refusing address "10.0.0.2:6443" "t") ∷ [], [])
        ≡ (
          ok (watcher_for refusing address "10.0.0.2:6443" "t"),
          (("10.0.0.2:6443", watcher_for refusing address "10.0.0.2:6443" "t") ∷ [], []),
        ))
unfolding watcher_of
watch_cluster_unstarted_example =
    watch_cluster_unstarted refusing address (record address { bearer_token = "new" }) [] [] [] []
      ("10.0.0.2:6443" ∷ []) [] "10.0.0.2:6443" "t" (errorf "stopped") refl refl refl refl refl

abbrev pub registration : Secret
registration = record {
  metadata = object_meta "east" "argocd";
  data_entries = ("config", "{}") ∷ ("server", "https://10.0.0.2:6443") ∷ [];
}

abbrev Map : Type 0
Map = Watchers String String × List String

-- Every secret is the one above, and the cluster reconciler is called again after a minute.
abbrev secret_reconciler : SecretReconciler Map (Watcher String String)
secret_reconciler = record {
  secrets = record {
    get = λ k s. (ok registration, s);
    create = λ o s. (ok o, s);
    update = λ o s. (ok o, s);
    update_status = λ o s. (ok o, s);
    delete = λ o s. (ok tt, s);
  };
  unmarshal = λ text. ok argo;
  parse_url = λ text. ok "10.0.0.2:6443";
  watch_cluster = watch_cluster refusing;
  reconcile_cluster = λ obj s. (ok (some 60), s);
}

shared : SharesMap refusing secret_reconciler
shared = record {
  watches = λ config st. refl;
  get_keeps = λ k st. refl;
  reconcile_keeps = λ obj st. refl;
}

reconcile-IsOnce_example :
    IsOnce refusing (reconcile secret_reconciler (object_key registration.metadata) ([], [])).1.0
reconcile-IsOnce_example =
    reconcile-IsOnce refusing secret_reconciler shared (object_key registration.metadata) ([], [])
      (tt, tt)

abbrev watching : Map
watching =
    (("10.0.0.2:6443", watcher_for refusing address "10.0.0.2:6443" "t") ∷ [], "10.0.0.2:6443" ∷ [])

reconcile_run :
    reconcile secret_reconciler (object_key registration.metadata) ([], [])
    ≡ (ok (some 60), watching)
unfolding reconcile register_secret register watch_cluster new_cluster_watcher keep_watcher
    add_watcher watcher_of rest_config_of before_colon
reconcile_run = refl

trim_space_test : trim_space " key " ≡ "key"
unfolding trim_space
trim_space_test = refl

-- The first server has an answer without records, the second one an answer of two.
abbrev answers : String → Result (List (Answer String))
answers server =
    if server == "192.0.2.1:53" then ok [] else ok (other_record ∷ a_record "10.0.0.9" 60 ∷ [])

abbrev resolver : DefaultHostResolver ℕ String
resolver = record {
  servers = λ s. (ok ("192.0.2.1" ∷ "192.0.2.2" ∷ []), s);
  exchange = λ question server s. (answers server, s);
}

abbrev answer_of : String → Result (List (Answer String))
answer_of server = answers (server +++ ":53")

lookup_ip_addr-settled_example :
    lookup_ip_addr resolver "shop.test" 0 ≡ (settled "shop.test" answer_of (some "192.0.2.2"), 0)
unfolding find
lookup_ip_addr-settled_example =
    lookup_ip_addr-settled resolver "shop.test" answer_of (λ server s. refl)
      ("192.0.2.1" ∷ "192.0.2.2" ∷ []) 0 0 refl
