-- ===== src/Watch/Clusters.antt =====
-- pkg/multiClusterWatch/watch.go: one watcher for each cluster, made when its secret is first seen.
pub mod Once
use Prim.Native.String.{◌++◌ as ◌+++◌}
use multi_cluster_traffic_co.Prelude.{
  String, Option, none, some, List, [], ◌∷◌, ◌==◌, if◌then◌else◌, Result, ok, err, panic, Exec,
  pure, lift, proceed, ◌>>=◌,
}
use multi_cluster_traffic_co.Client.{ObjectClient, RestConfig}
use multi_cluster_traffic_co.Certificates.{Secret}
use multi_cluster_traffic_co.TrafficController.{TrafficReconciler, HostService, CertificateService}

-- The fields of a ClusterWatcher as `NewClusterWatcher` sets them; a queue is told by its name. The
-- clients and the handlers are of any type.
pub record Watcher (Client Handler : Type 0) : Type 0 where
  pub client : Client
  pub cluster_name : String
  pub handler : Handler
  pub queue_name : String

-- The fields of WatchController but the map, and what it calls: `kubernetes.NewForConfig`, and
-- `Add` of the manager. `factory` is the HandlerFactory, at the client of the manager.
pub record WatchController (S Client Handler : Type 0) : Type 0 where
  pub new_for_config : RestConfig → Exec S Client
  pub factory : RestConfig → Exec S Handler
  pub add_to_manager : Watcher Client Handler → Exec S (Unit {0})

-- The map of watchers; nil and empty are the same here.
abbrev pub Watchers : Type 0 → Type 0 → Type 0
Watchers Client Handler = List (String × Watcher Client Handler)

module _ {Client Handler : Type 0} where
  -- `w.watchers[host]`; no watcher in the map is nil.
  unfoldable pub watcher_of : String → Watchers Client Handler → Option (Watcher Client Handler)
  watcher_of host [] = none
  watcher_of host (entry ∷ watchers) =
      let later = watcher_of host watchers in if entry.0 == host then some entry.1 else later

-- NewTrafficHandlerFactory: `client.New`, the two services, and what else the handler calls.
unfoldable pub traffic_handler_factory :
    {S Http : Type 0}
    → (RestConfig → Exec S (ObjectClient S Secret))
    → TrafficReconciler S Http
    → RestConfig
    → Exec S (TrafficReconciler S Http)
traffic_handler_factory new_client services config =
    new_client config >>= λ c. pure (record services { workload_client = c })

module _ {S Client Handler : Type 0} (w : WatchController S Client Handler) where
  open w use {new_for_config, factory, add_to_manager}

  -- The end of `NewClusterWatcher`: an error of `Add` is only logged.
  unfoldable pub add_watcher :
      Watcher Client Handler → Result (Unit {0}) → Exec S (Watcher Client Handler)
  add_watcher watcher (ok done) = pure watcher
  add_watcher watcher (err e) = pure watcher
  add_watcher watcher panic = lift panic

  -- NewClusterWatcher
  unfoldable pub new_cluster_watcher : RestConfig → Exec S (Watcher Client Handler)
  unfolding add_watcher
  new_cluster_watcher config = do
    watcher_client ← new_for_config config
    handler ← factory config
    let watcher : Watcher Client Handler = record {
      client = watcher_client;
      cluster_name = config.host;
      handler = handler;
      queue_name = config.server_name +++ "/ingress";
    }
    λ s. let (added, s') = add_to_manager watcher s in add_watcher watcher added s'

  -- The end of `WatchCluster`: a new watcher goes into the map.
  unfoldable pub keep_watcher :
      String
      → Watchers Client Handler
      → Result (Watcher Client Handler) × S
      → Result (Watcher Client Handler) × (Watchers Client Handler × S)
  keep_watcher host watchers (ok watcher, s) = (ok watcher, ((host, watcher) ∷ watchers, s))
  keep_watcher host watchers (err e, s) = (err e, (watchers, s))
  keep_watcher host watchers (panic, s) = (panic, (watchers, s))

  -- WatchCluster
  unfoldable pub watch_cluster :
      RestConfig → Exec (Watchers Client Handler × S) (Watcher Client Handler)
  unfolding new_cluster_watcher keep_watcher watcher_of
  watch_cluster config (watchers, s) = elim (watcher_of config.host watchers) [
    | some watcher ↦ (ok watcher, (watchers, s))
    | none ↦ keep_watcher config.host watchers (new_cluster_watcher config s)
  ]
