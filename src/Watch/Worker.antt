-- ===== src/Watch/Worker.antt =====
-- startWorker, when the queue is shut down: no key is taken in any more, and those that wait are
-- handed out.
use multi_cluster_traffic_co.Prelude.{
  ℕ, zero, suc, ◌≤◌, ◌<◌, String, Bool, true, false, Option, none, some, ◌≡◌, refl, arith, Result,
  ok, err, panic, Exec, pure, proceed, ◌>>=◌, if◌then◌else◌, Bool-cases, Option-cases, inl, inr,
  subst, sym,
}
use multi_cluster_traffic_co.Ingress.{Ingress}
use multi_cluster_traffic_co.TrafficController.{Handled}
use multi_cluster_traffic_co.Watch.{
  ClusterWatcher, enqueue_after, requeue, write_back, process_found, process, settle, process_key,
  process_next_work_item, start_worker,
}

-- After ShutDown the queue hands out the keys that wait, then tells to quit, and nothing that the
-- watcher calls makes more keys wait.
pub record ShutDown {S Http : Type 0} (watcher : ClusterWatcher S Http) (waiting : S → ℕ)
    : Type 0 where
  pub quits : (s : S) → waiting s ≡ 0 → (watcher.queue.get s).0 ≡ none
  pub hands_out :
      (s : S) (key : String)
      → (watcher.queue.get s).0 ≡ some key
      → waiting (watcher.queue.get s).1 < waiting s
  pub add_after_ignored :
      (key : String) (seconds : ℕ) (s : S)
      → waiting (watcher.queue.add_after key seconds s) ≤ waiting s
  pub add_rate_limited_ignored :
      (key : String) (s : S) → waiting (watcher.queue.add_rate_limited key s) ≤ waiting s
  pub forget_adds_none : (key : String) (s : S) → waiting (watcher.queue.forget key s) ≤ waiting s
  pub finish_adds_none : (key : String) (s : S) → waiting (watcher.queue.finish key s) ≤ waiting s
  pub get_by_key_adds_none :
      (key : String) (s : S) → waiting (watcher.get_by_key key s).1 ≤ waiting s
  pub handler_adds_none : (t : Ingress Http) (s : S) → waiting (watcher.handler t s).1 ≤ waiting s
  pub update_adds_none : (t : Ingress Http) (s : S) → waiting (watcher.update t s).1 ≤ waiting s

module _ {S Http : Type 0} (watcher : ClusterWatcher S Http) (waiting : S → ℕ)
    (laws : ShutDown watcher waiting) where
  proceed_adds_none :
      {A B : Type 0} (r : Result A) (f : A → Exec S B) (s : S)
      → ((a : A) (s' : S) → waiting (f a s').1 ≤ waiting s')
      → waiting (proceed r f s).1 ≤ waiting s
  proceed_adds_none (ok a) f s h = h a s
  proceed_adds_none (err e) f s h = omega arith
  proceed_adds_none panic f s h = omega arith

  enqueue_after_adds_none :
      (t : Ingress Http) (seconds : ℕ) (s : S)
      → waiting (enqueue_after watcher t seconds s) ≤ waiting s
  unfolding enqueue_after
  enqueue_after_adds_none t seconds s = by_key (watcher.namespace_key t)
    where
      by_key :
          (r : Result String)
          → waiting (elim r [ ok key ↦ watcher.queue.add_after key seconds s | _ ↦ s ]) ≤ waiting s
      by_key (ok key) = laws.add_after_ignored key seconds s
      by_key (err e) = omega arith
      by_key panic = omega arith

  requeue_adds_none :
      (t : Ingress Http) (after : Option ℕ) (s : S)
      → waiting (requeue watcher t after s).1 ≤ waiting s
  unfolding requeue
  requeue_adds_none t none s = omega arith
  requeue_adds_none t (some seconds) s = enqueue_after_adds_none t seconds s

  settle_adds_none :
      (key : String) (outcome : Result (Unit {0})) (s : S)
      → waiting (settle watcher key outcome s) ≤ waiting s
  unfolding settle
  settle_adds_none key (ok done) s =
      omega
        (arith, laws.finish_adds_none key (watcher.queue.forget key s), laws.forget_adds_none key s)
  settle_adds_none key (err e) s = ground (
    arith,
    laws.finish_adds_none key (watcher.queue.forget key s),
    laws.finish_adds_none key (watcher.queue.add_rate_limited key s),
    laws.forget_adds_none key s,
    laws.add_rate_limited_ignored key s,
  )
  settle_adds_none key panic s = laws.finish_adds_none key s

  written_adds_none :
      (t target : Ingress Http) (s : S)
      → waiting
          ((if watcher.same t target then pure tt else (watcher.update target >>= λ _. pure tt))
            s).1
        ≤ waiting s
  written_adds_none t target s = elim (Bool-cases (watcher.same t target)) [
    | inl e ↦ rw e (omega arith)
    | inr e ↦ rw e (
        let rest =
          proceed_adds_none (watcher.update target s).0 (λ _. pure (tt {0}))
            (watcher.update target s).1 (λ a s'. omega arith) in
        omega (arith, rest, laws.update_adds_none target s))
  ]

  write_back_adds_none :
      (t : Ingress Http) (handled : Handled Http) (s : S)
      → waiting (write_back watcher t handled s).1 ≤ waiting s
  unfolding write_back
  write_back_adds_none t handled s = elim (Option-cases handled.error) [
    | inr (e, failed) ↦ rw failed (omega arith)
    | inl fine ↦ rw fine (
        let written : Exec S (Unit {0}) =
          if watcher.same t handled.traffic
          then pure tt
          else (watcher.update handled.traffic >>= λ _. pure tt) in
        let rest =
          proceed_adds_none (written s).0 (λ _. requeue watcher t handled.requeue_after)
            (written s).1 (λ _ s'. requeue_adds_none t handled.requeue_after s') in
        omega (arith, rest, written_adds_none t handled.traffic s))
  ]

  process_found_adds_none :
      (found : Result (Option (Ingress Http))) (s : S)
      → waiting (process_found watcher found s).1 ≤ waiting s
  unfolding process_found
  process_found_adds_none (ok none) s = omega arith
  process_found_adds_none (ok (some t)) s =
      let rest =
        proceed_adds_none (watcher.handler t s).0 (write_back watcher t) (watcher.handler t s).1
          (write_back_adds_none t) in
      omega (arith, rest, laws.handler_adds_none t s)
  process_found_adds_none (err e) s = ground arith
  process_found_adds_none panic s = omega arith

  process_key_adds_none : (key : String) (s : S) → waiting (process_key watcher key s).1 ≤ waiting s
  unfolding process_key process
  process_key_adds_none key s =
      let (found, s1) = watcher.get_by_key key s in
      let (outcome, s2) = process_found watcher found s1 in
      omega (
        arith,
        settle_adds_none key outcome s2,
        process_found_adds_none found s1,
        laws.get_by_key_adds_none key s,
      )

  -- What the loop does after a round with a key.
  abbrev continued : ℕ → Result Bool → S → Option (Result (Unit {0}) × S)
  continued rounds more s = elim more [
    | ok more_items ↦ elim more_items [
      | true ↦ start_worker watcher rounds s
      | false ↦ some (ok tt, s)
    ]
    | err e ↦ some (err e, s)
    | panic ↦ some (panic, s)
  ]

  after_key :
      (rounds : ℕ) (done : Result (Unit {0})) (s : S)
      → ((outcome : Result (Unit {0}) × S) × (start_worker watcher rounds s ≡ some outcome))
      → (outcome : Result (Unit {0}) × S) × (continued rounds
            (proceed done (λ _. pure true) s).0
            (proceed done (λ _. pure true) s).1
          ≡ some outcome)
  after_key rounds (ok done) s ends = ends
  after_key rounds (err e) s ends = ((err e, s), refl)
  after_key rounds panic s ends = ((panic, s), refl)

  round-quits :
      (s : S)
      → (watcher.queue.get s).0 ≡ none
      → process_next_work_item watcher s ≡ (ok false, (watcher.queue.get s).1)
  unfolding process_next_work_item
  round-quits s quit = rw (process_next_work_item, quit) refl

  round-key :
      (s : S) (key : String)
      → (watcher.queue.get s).0 ≡ some key
      → process_next_work_item watcher s
        ≡ (process_key watcher key >>= λ _. pure true) (watcher.queue.get s).1
  unfolding process_next_work_item
  round-key s key next = rw (process_next_work_item, next) refl

  -- The loop returns after a round that gave this.
  abbrev Ends : ℕ → Result Bool × S → Type 0
  Ends rounds round =
      (outcome : Result (Unit {0}) × S) × (continued rounds round.0 round.1 ≡ some outcome)

  -- Once the queue is shut down, `rounds` rounds are enough for startWorker to return, if there are
  -- more of them than keys that wait, whatever the handling of the keys gives.
  pub start_worker-ends :
      (rounds : ℕ) (s : S)
      → waiting s < rounds
      → (outcome : Result (Unit {0}) × S) × (start_worker watcher rounds s ≡ some outcome)
  unfolding start_worker
  start_worker-ends zero s enough = absurd (omega (arith, enough))
  start_worker-ends (suc rounds) s enough = elim (Option-cases (watcher.queue.get s).0) [
    | inl quit ↦
        subst (Ends rounds) (sym (round-quits s quit)) ((ok tt, (watcher.queue.get s).1), refl)
    | inr (key, next) ↦
        let s1 = (watcher.queue.get s).1 in
        let fewer = process_key_adds_none key s1 in
        subst (Ends rounds) (sym (round-key s key next)) (
          after_key rounds (process_key watcher key s1).0 (process_key watcher key s1).1 (
            start_worker-ends rounds (process_key watcher key s1).1
              (omega (arith, enough, laws.hands_out s key next, fewer))))
  ]
