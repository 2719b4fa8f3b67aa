-- ===== src/Wiring/Withdrawn.antt =====
-- The handler of a cluster as `main` makes it, on an ingress that is to be deleted.
use multi_cluster_traffic_co.Prelude.{
  String, true, not, ◌&&◌, Option, none, some, List, [], ◌∷◌, ◌==◌, ◌≡◌, refl, ap, ◌∙◌, ok,
}
use multi_cluster_traffic_co.Api.Types.{DnsRecord, Endpoint, NamespacedName, object_key}
use multi_cluster_traffic_co.Client.{ObjectClient, ClientLaws}
use multi_cluster_traffic_co.Certificates.{Secret}
use multi_cluster_traffic_co.Ingress.{Ingress, get_hosts, get_dns_targets}
use multi_cluster_traffic_co.DnsService.Records.{resolve_ips, get_dns_records}
use multi_cluster_traffic_co.DnsService.Lookup.{stored}
use multi_cluster_traffic_co.DnsService.Endpoints.{remaining}
use multi_cluster_traffic_co.DnsService.Actions.{remove_endpoints}
use multi_cluster_traffic_co.DnsService.Addresses.Runs.{served, with_remaining}
use multi_cluster_traffic_co.DnsService.Addresses.Stored.{served-remove_endpoints}
use multi_cluster_traffic_co.TrafficController.{
  TrafficReconciler, handle, is_being_deleted, returns, traffic_finalizer, with_finalizers,
}
use multi_cluster_traffic_co.TrafficController.Requeue.{marked}
use multi_cluster_traffic_co.TrafficController.Deletion.{handle-deleted}
use multi_cluster_traffic_co.Wiring.{Platform, dns_service}
use multi_cluster_traffic_co.Wiring.Published.{handler_of}

module _ {S Ip Http Client Session Aws : Type 0} (p : Platform S Ip Http Client Session Aws)
    (view : S → NamespacedName → Option DnsRecord)
    (laws : ClientLaws (λ r. r.metadata) p.dns.control_client view)
    (workload_client : ObjectClient S Secret) (t : Ingress Http) where
  abbrev handler : TrafficReconciler S Http
  handler = handler_of p workload_client

  -- The ingress without the finalizer, as Handle returns it.
  abbrev pub released : Ingress Http
  released = with_finalizers handler t (
      p.traffic.remove_finalizer (p.traffic.add_finalizer t.metadata.finalizers traffic_finalizer)
        traffic_finalizer)

  remove_endpoints-marked :
      remove_endpoints (dns_service p) (marked handler t) ≡ remove_endpoints (dns_service p) t
  unfolding remove_endpoints get_dns_records get_hosts resolve_ips get_dns_targets
  remove_endpoints-marked = refl

  -- Where, for an ingress that is to be deleted, with one address, one record is stored for its hosts,
  -- which has another address, and the server accepts the update and keeps the spec: Handle, with the
  -- services of `main`, returns the ingress without the finalizer, with no error, and not to be queued
  -- again, and the stored record has the addresses that it had, but that of the ingress.
  pub handle_withdraws :
      (ip : String) (r updated : DnsRecord) (e : Endpoint) (es : List Endpoint) (s s1 s2 : S)
      → is_being_deleted t ≡ true
      → stored (dns_service p) view s (get_hosts t) ≡ r ∷ []
      → resolve_ips (dns_service p) t s ≡ (ok (ip ∷ []), s1)
      → remaining (ip ∷ []) r.spec.endpoints [] ≡ e ∷ es
      → p.dns.control_client.update (with_remaining (ip ∷ []) r) s1 ≡ (ok updated, s2)
      → updated.spec ≡ (with_remaining (ip ∷ []) r).spec
      → (handle handler t s ≡ (ok (returns handler released none none), s2))
        × (view s2 (object_key r.metadata) ≡ some updated)
        × ((a : String) → served updated a ≡ (served r a && not (a == ip)))
  handle_withdraws ip r updated e es s s1 s2 deleted one resolved others accepted spec =
      let (removed, there, reads) =
        served-remove_endpoints (dns_service p) view laws t ip r updated e es s s1 s2 one resolved
          others accepted spec in
      (
        handle-deleted handler t none s s2 deleted
            (ap (λ f. f s) remove_endpoints-marked ∙ removed),
        there,
        reads,
      )
