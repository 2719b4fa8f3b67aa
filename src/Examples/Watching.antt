-- ===== src/Examples/Watching.antt =====
-- A watcher whose queue counts in its state, and the webhook, with the controller of the examples.
use multi_cluster_traffic_co.Prelude.{
  ℕ, zero, suc, ◌<◌, Result, String, true, false, none, some, List, [], ◌∷◌, ◌≡◌, refl, arith, Kind,
  errorf, ok, err, if◌then◌else◌, nat_eq, length,
}
use multi_cluster_traffic_co.Ingress.{Ingress}
use multi_cluster_traffic_co.TrafficController.{Handled, handle, returns}
use multi_cluster_traffic_co.TrafficController.Requeue.{hosted, handle_waits}
use multi_cluster_traffic_co.Watch.{
  ClusterWatcher, start_worker, process, process_found, write_back,
}
use multi_cluster_traffic_co.Watch.Retry.{QueueLaws, rounds, rounds_forget}
use multi_cluster_traffic_co.Watch.Worker.{ShutDown, start_worker-ends}
use multi_cluster_traffic_co.Webhook.{WebhookHandler}
use multi_cluster_traffic_co.Examples.Server.{ingress}
use multi_cluster_traffic_co.Examples.Endpoints.{record_with}
use multi_cluster_traffic_co.Examples.Controller.{controller, managed, missing}

abbrev failing : ClusterWatcher ℕ String
failing = record {
  queue = record {
    get = λ s. (some "web/shop", s);
    add = λ k s. s;
    add_after = λ k seconds s. s;
    num_requeues = λ k s. s;
    add_rate_limited = λ k s. suc s;
    forget = λ k s. 0;
    finish = λ k s. s;
  };
  get_by_key = λ k s. (ok (some ingress), s);
  handler =
      λ t s. (ok (record { traffic = t; requeue_after = none; error = some (errorf "down") }), s);
  same = λ a b. true;
  update = λ t s. (ok t, s);
  namespace_key = λ t. ok "web/shop";
  deletion_key = λ t. ok "web/shop";
}

counting : QueueLaws failing.queue
counting = record { counted = λ k s. refl; forgotten = λ k s. refl; finished = λ k s. refl }

rounds_forget_example :
    (failing.queue.num_requeues "web/shop" (rounds failing counting "web/shop" (errorf "down") 3 0)
      ≡ 3)
    × (rounds failing counting "web/shop" (errorf "down") 6 0 ≡ 0)
    × (failing.queue.num_requeues "web/shop"
          (rounds failing counting "web/shop" (errorf "down") 6 0)
        ≡ 0)
unfolding process process_found write_back
rounds_forget_example =
    rounds_forget failing counting "web/shop" (errorf "down") 3 0 (λ s. (refl, refl)) refl
      (omega arith)

-- A watcher with the traffic controller, while the secret is missing.
abbrev waiting : ClusterWatcher (List String) String
waiting = record {
  queue = record {
    get = λ s. (none, s);
    add = λ k s. s;
    add_after = λ k seconds s. "enqueue" ∷ s;
    num_requeues = λ k s. 0;
    add_rate_limited = λ k s. s;
    forget = λ k s. s;
    finish = λ k s. s;
  };
  get_by_key = λ k s. (ok (some ingress), s);
  handler = handle (controller (err missing));
  same = λ a b. nat_eq (length a.rules) (length b.rules);
  update = λ t s. (ok t, "update" ∷ s);
  namespace_key = λ t. ok "web/shop";
  deletion_key = λ t. ok "web/shop";
}

abbrev waited : Handled String
waited =
    returns (controller (err missing))
      (hosted (controller (err missing)) ingress "shop.test" (record_with [])) (some 10) none

abbrev calls : List String
calls = "get secret" ∷ "ensure certificate" ∷ "ensure host" ∷ []

waiting_run : handle (controller (err missing)) ingress [] ≡ (ok waited, calls)
waiting_run =
    handle_waits (controller (err missing)) ingress "shop.test" (record_with []) managed [] []
      (err (record { kind = Kind.already_exists; message = "exists" })) missing []
      ("ensure host" ∷ []) ("ensure certificate" ∷ "ensure host" ∷ []) calls refl refl refl refl
      refl refl refl refl refl

abbrev webhook : WebhookHandler (List String) String (Ingress String)
webhook = record {
  host_service = (controller (err missing)).hosts;
  cert_service = (controller (err missing)).certificates;
  deep_equal = (controller (err missing)).deep_equal;
  is_dry_run = λ request. false;
  decode = λ request. ok request;
  same = λ a b. nat_eq (length a.tls) (length b.tls);
  encode = λ t. ok (if nat_eq (length t.tls) 0 then "without" else "with");
}

-- A queue that was shut down with two keys in it; the state is how many wait.
abbrev closing : ClusterWatcher ℕ String
closing = record failing {
  queue = record {
    get = λ s. elim s [ zero ↦ (none, zero) | suc n ↦ (some "web/shop", n) ];
    add = λ k s. s;
    add_after = λ k seconds s. s;
    num_requeues = λ k s. 0;
    add_rate_limited = λ k s. s;
    forget = λ k s. s;
    finish = λ k s. s;
  };
}

closing_quits : (s : ℕ) → s ≡ 0 → (closing.queue.get s).0 ≡ none
closing_quits zero e = refl
closing_quits (suc n) e = absurd (omega (arith, e))

closing_hands_out :
    (s : ℕ) (key : String) → (closing.queue.get s).0 ≡ some key → (closing.queue.get s).1 < s
closing_hands_out zero key e = cc
closing_hands_out (suc n) key e = omega arith

closed : ShutDown closing (λ s. s)
closed = record {
  quits = closing_quits;
  hands_out = closing_hands_out;
  add_after_ignored = λ k seconds s. omega arith;
  add_rate_limited_ignored = λ k s. omega arith;
  forget_adds_none = λ k s. omega arith;
  finish_adds_none = λ k s. omega arith;
  get_by_key_adds_none = λ k s. omega arith;
  handler_adds_none = λ t s. omega arith;
  update_adds_none = λ t s. omega arith;
}

start_worker-ends_example :
    (outcome : Result (Unit {0}) × ℕ) × (start_worker closing 3 2 ≡ some outcome)
start_worker-ends_example = start_worker-ends closing (λ s. s) closed 3 2 (omega arith)
