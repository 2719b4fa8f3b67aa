-- ===== src/TrafficController/Deletion.antt =====
-- Handle on a traffic object that is to be deleted.
use multi_cluster_traffic_co.Prelude.{String, true, Option, none, some, List, ◌≡◌, refl, Error, ok}
use multi_cluster_traffic_co.Ingress.{Ingress}
use multi_cluster_traffic_co.TrafficController.{
  TrafficReconciler, traffic_finalizer, with_finalizers, returns, handle_deleted, is_being_deleted,
  handle,
}
use multi_cluster_traffic_co.TrafficController.Requeue.{marked}
use multi_cluster_traffic_co.DnsRecord.Deletion.{answer}

-- What is left of the finalizers: without an error the finalizer is gone.
abbrev pub left_by :
    {S Http : Type 0} → TrafficReconciler S Http → Option Error → List String → List String
left_by reconciler none fs = reconciler.remove_finalizer fs traffic_finalizer
left_by reconciler (some e) fs = fs

-- On a traffic object that is to be deleted Handle calls RemoveEndpoints, and nothing else; it drops
-- the finalizer if the call succeeds, and returns the call's error with the finalizer kept if not.
pub handle-deleted :
    {S Http : Type 0} (reconciler : TrafficReconciler S Http) (t : Ingress Http)
    (outcome : Option Error) (s s' : S)
    → is_being_deleted t ≡ true
    → reconciler.hosts.remove_endpoints (marked reconciler t) s ≡ (answer outcome, s')
    → handle reconciler t s ≡ (
      ok (
          returns reconciler
            (with_finalizers reconciler t (
              left_by reconciler outcome
                (reconciler.add_finalizer t.metadata.finalizers traffic_finalizer)))
            none
            outcome),
      s',
    )
unfolding handle handle_deleted
handle-deleted reconciler t none s s' deleted removed = rw (deleted, removed) refl
handle-deleted reconciler t (some e) s s' deleted removed = rw (deleted, removed) refl
