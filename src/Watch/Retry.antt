-- ===== src/Watch/Retry.antt =====
-- How often a key that fails is tried again.
use multi_cluster_traffic_co.Prelude.{
  ℕ, zero, suc, ◌≤◌, ◌<◌, ◌≡◌, ap, ◌∙◌, arith, String, Error, err,
}
use multi_cluster_traffic_co.Watch.{Queue, ClusterWatcher, process, settle, process_key}

-- The queue counts for each key how often it was put back since it was forgotten.
pub record QueueLaws {S : Type 0} (queue : Queue S) : Type 0 where
  pub counted :
      (k : String) (s : S)
      → queue.num_requeues k (queue.add_rate_limited k s) ≡ suc (queue.num_requeues k s)
  pub forgotten : (k : String) (s : S) → queue.num_requeues k (queue.forget k s) ≡ 0
  pub finished :
      (k : String) (s : S) → queue.num_requeues k (queue.finish k s) ≡ queue.num_requeues k s

module _ {S Http : Type 0} (watcher : ClusterWatcher S Http) (laws : QueueLaws watcher.queue)
    (key : String) (e : Error) where
  open watcher use {queue}

  -- The state after `n` rounds with the key.
  abbrev pub rounds : ℕ → S → S
  rounds zero s = s
  rounds (suc n) s = (process_key watcher key (rounds n s)).1

  -- The key fails in every round, and a failure does not change its count.
  abbrev pub Fails : Type 0
  Fails =
      (s : S)
      → ((process watcher key s).0 ≡ err e)
        × (queue.num_requeues key (process watcher key s).1 ≡ queue.num_requeues key s)

  round_counts :
      (s : S)
      → Fails
      → queue.num_requeues key s < 5
      → queue.num_requeues key (process_key watcher key s).1 ≡ suc (queue.num_requeues key s)
  unfolding process_key settle
  round_counts s fails few =
      let (failed, count) = fails s in
      rw failed (
        ground (
          arith,
          count,
          laws.counted key (process watcher key s).1,
          laws.finished key (queue.add_rate_limited key (process watcher key s).1),
        ))

  round_forgets :
      (s : S)
      → Fails
      → queue.num_requeues key s ≡ 5
      → (process_key watcher key s).1
        ≡ queue.finish key (queue.forget key (process watcher key s).1)
  unfolding process_key settle
  round_forgets s fails full = let (failed, count) = fails s in rw failed (ground (arith, count))

  rounds_count :
      (n : ℕ) (s : S)
      → Fails
      → queue.num_requeues key s ≡ 0
      → n ≤ 5
      → queue.num_requeues key (rounds n s) ≡ n
  rounds_count zero s fails fresh few = fresh
  rounds_count (suc n) s fails fresh few =
      let before : queue.num_requeues key (rounds n s) ≡ n =
        rounds_count n s fails fresh (omega (arith, few)) in
      round_counts (rounds n s) fails (omega (arith, before, few)) ∙ ap suc before

  -- A key that fails in every round is put back after each of the first five rounds, counted by the
  -- queue, and is forgotten in the sixth, so that it is tried six times in all.
  pub rounds_forget :
      (n : ℕ) (s : S)
      → Fails
      → queue.num_requeues key s ≡ 0
      → n ≤ 5
      → (queue.num_requeues key (rounds n s) ≡ n)
        × (rounds 6 s ≡ queue.finish key (queue.forget key (process watcher key (rounds 5 s)).1))
        × (queue.num_requeues key (rounds 6 s) ≡ 0)
  rounds_forget n s fails fresh few =
      let last : rounds 6 s
          ≡ queue.finish key (queue.forget key (process watcher key (rounds 5 s)).1) =
        round_forgets (rounds 5 s) fails (rounds_count 5 s fails fresh (omega arith)) in
      (
        rounds_count n s fails fresh few,
        last,
        ap (queue.num_requeues key) last ∙ laws.finished key _ ∙ laws.forgotten key _,
      )
