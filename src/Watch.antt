-- ===== src/Watch.antt =====
-- pkg/multiClusterWatch/watch.go: what the watcher of a cluster does with a key of its queue. The
-- indexer, the queue and the client of client-go are parameters.
pub mod Retry
pub mod Worker
pub mod Clusters
pub mod Starting
use multi_cluster_traffic_co.Prelude.{
  ℕ, zero, suc, String, Bool, true, false, not, Option, none, some, if◌then◌else◌, ltb,
  is_not_found, Result, ok, err, panic, Exec, pure, lift, fail, ◌>>=◌,
}
use multi_cluster_traffic_co.Ingress.{Ingress}
use multi_cluster_traffic_co.TrafficController.{Handled}

-- The events of the informer that `WatchIngress` handles, with the objects they carry.
pub data IngressEvent (Http : Type 0) : Type 0 where
  added : Ingress Http → IngressEvent Http
  updated : Ingress Http → Ingress Http → IngressEvent Http
  deleted : Ingress Http → IngressEvent Http

-- `workqueue.RateLimitingInterface`, with how often a key was put back; durations are in seconds,
-- and `get` gives no key when it says to quit.
pub record Queue (S : Type 0) : Type 0 where
  pub get : S → Option String × S
  pub add : String → S → S
  pub add_after : String → ℕ → S → S
  pub num_requeues : String → S → ℕ
  pub add_rate_limited : String → S → S
  pub forget : String → S → S
  pub finish : String → S → S

-- ClusterWatcher; `handler` is the Handle of its ResourceHandler, `same` is
-- `equality.Semantic.DeepEqual`, `namespace_key` is `cache.MetaNamespaceKeyFunc`, and `deletion_key` is
-- `cache.DeletionHandlingMetaNamespaceKeyFunc`.
pub record ClusterWatcher (S Http : Type 0) : Type 0 where
  pub queue : Queue S
  pub get_by_key : String → Exec S (Option (Ingress Http))
  pub handler : Ingress Http → Exec S (Handled Http)
  pub same : Ingress Http → Ingress Http → Bool
  pub update : Ingress Http → Exec S (Ingress Http)
  pub namespace_key : Ingress Http → Result String
  pub deletion_key : Ingress Http → Result String

module _ {S Http : Type 0} (watcher : ClusterWatcher S Http) where
  open watcher use {queue, get_by_key, handler, same, update, namespace_key, deletion_key}

  -- Enqueue; an error of the key is only logged.
  unfoldable pub enqueue : Ingress Http → S → S
  enqueue t s = elim (deletion_key t) [ ok key ↦ queue.add key s | _ ↦ s ]

  -- The handlers that `WatchIngress` gives to the informer.
  unfoldable pub handle_event : IngressEvent Http → S → S
  unfolding enqueue
  handle_event (added t) s = enqueue t s
  handle_event (updated old t) s = enqueue t s
  handle_event (deleted t) s = enqueue t s

  -- EnqueueAfter
  unfoldable pub enqueue_after : Ingress Http → ℕ → S → S
  enqueue_after t seconds s = elim (namespace_key t) [
    | ok key ↦ queue.add_after key seconds s
    | _ ↦ s
  ]

  -- The end of `process`.
  unfoldable pub requeue : Ingress Http → Option ℕ → Exec S (Unit {0})
  unfolding enqueue_after
  requeue t none s = (ok tt, s)
  requeue t (some seconds) s = (ok tt, enqueue_after t seconds s)

  -- What `process` does after Handle: the object is written back if it was changed.
  unfoldable pub write_back : Ingress Http → Handled Http → Exec S (Unit {0})
  unfolding requeue
  write_back t handled =
      let written =
        if same t handled.traffic then pure tt else (update handled.traffic >>= λ _. pure tt) in
      elim handled.error [
        | some e ↦ fail e
        | none ↦ written >>= λ _. requeue t handled.requeue_after
      ]

  -- What `process` does with what the indexer holds.
  unfoldable pub process_found : Result (Option (Ingress Http)) → Exec S (Unit {0})
  unfolding write_back
  process_found (ok none) = pure tt
  process_found (ok (some t)) = handler t >>= write_back t
  process_found (err e) = if is_not_found e then pure tt else fail e
  process_found panic = lift panic

  -- process
  unfoldable pub process : String → Exec S (Unit {0})
  unfolding process_found
  process key s = let (found, s') = get_by_key key s in process_found found s'

  -- What `processNextWorkItem` does with the outcome of `process`.
  unfoldable pub settle : String → Result (Unit {0}) → S → S
  settle key (ok done) s = queue.finish key (queue.forget key s)
  settle key (err e) s =
      if ltb (queue.num_requeues key s) 5
      then queue.finish key (queue.add_rate_limited key s)
      else queue.finish key (queue.forget key s)
  settle key panic s = queue.finish key s

  -- `processNextWorkItem` from the key on that the queue gave; a panic goes on after the deferred `Done`.
  unfoldable pub process_key : String → Exec S (Unit {0})
  unfolding process settle
  process_key key s =
      let (outcome, s') = process key s in
      (elim outcome [ panic ↦ panic | _ ↦ ok tt ], settle key outcome s')

  -- processNextWorkItem
  unfoldable pub process_next_work_item : Exec S Bool
  unfolding process_key
  process_next_work_item s =
      let (next, s') = queue.get s in
      elim next [ none ↦ (ok false, s') | some key ↦ (process_key key >>= λ _. pure true) s' ]

  -- startWorker, for `rounds` rounds of its loop at most; `none` if these are not enough.
  unfoldable pub start_worker : ℕ → S → Option (Result (Unit {0}) × S)
  unfolding process_next_work_item
  start_worker zero s = none
  start_worker (suc rounds) s =
      let (more, s') = process_next_work_item s in
      elim more [
        | ok more_items ↦ elim more_items [
          | true ↦ start_worker rounds s'
          | false ↦ some (ok tt, s')
        ]
        | err e ↦ some (err e, s')
        | panic ↦ some (panic, s')
      ]
