-- ===== src/Watch/Starting.antt =====
-- WatchIngress and Start of the watcher of a cluster. The informer of client-go is a parameter.
use multi_cluster_traffic_co.Prelude.{ℕ, Option, Result, ok, err, panic, Exec}
use multi_cluster_traffic_co.Watch.{ClusterWatcher, IngressEvent, handle_event, start_worker}

-- The informer of ingresses: `AddEventHandler` with the function that takes the events, `Start` and
-- `WaitForCacheSync` of its factory, and `ShutDown` of the queue. `until_done` runs the worker, again
-- whenever it returns, for as long as the context is not done.
pub record Informer (S Http : Type 0) : Type 0 where
  pub add_event_handler : (IngressEvent Http → S → S) → Exec S (Unit {0})
  pub start_informers : S → S
  pub wait_for_cache_sync : S → S
  pub until_done : (ℕ → S → Option (Result (Unit {0}) × S)) → Exec S (Unit {0})
  pub shut_down : S → S

module _ {S Http : Type 0} (watcher : ClusterWatcher S Http) (informer : Informer S Http) where
  open informer use {add_event_handler, start_informers, wait_for_cache_sync, until_done, shut_down}

  -- WatchIngress
  unfoldable pub watch_ingress : Exec S (Unit {0})
  unfolding handle_event
  watch_ingress = add_event_handler (handle_event watcher)

  -- `Start` after WatchIngress.
  unfoldable pub run_worker : Result (Unit {0}) → Exec S (Unit {0})
  run_worker (ok done) s =
      until_done (start_worker watcher) (wait_for_cache_sync (start_informers s))
  run_worker (err e) s = (err e, s)
  run_worker panic s = (panic, s)

  -- Start; the deferred ShutDown of the queue runs on every way out.
  unfoldable pub start : Exec S (Unit {0})
  unfolding watch_ingress run_worker
  start s =
      let (registered, s1) = watch_ingress s in
      let (outcome, s2) = run_worker registered s1 in (outcome, shut_down s2)
