-- ===== src/Wiring/Zone.antt =====
-- From an ingress to the zone of its host: the handler of a cluster as `main` makes it, and rounds of
-- the DNSRecord reconciler after it.
use multi_cluster_traffic_co.Prelude.{
  String, true, false, ◌||◌, Option, none, some, List, [], ◌∷◌, ◌≡◌, ap, ◌∙◌, Result, ok, is_ok,
  is_already_exists, Exec, subst, fun_ext,
}
use multi_cluster_traffic_co.Slice.{contains_string}
use multi_cluster_traffic_co.Api.Types.{
  DnsRecord, DnsRecordSpec, DnsZone, NamespacedName, object_key, object_meta,
}
use multi_cluster_traffic_co.Client.{ObjectClient, ClientLaws}
use multi_cluster_traffic_co.Certificates.{Secret, ensure_certificate}
use multi_cluster_traffic_co.Ingress.{Ingress, get_hosts}
use multi_cluster_traffic_co.Ingress.Hosts.{Distinct}
use multi_cluster_traffic_co.DnsService.Records.{resolve_ips}
use multi_cluster_traffic_co.DnsService.Lookup.{stored}
use multi_cluster_traffic_co.DnsService.Addresses.{IsAddressed, addresses}
use multi_cluster_traffic_co.DnsService.Addresses.Extended.{
  extended, extended-IsAddressed, contains_string-extended,
}
use multi_cluster_traffic_co.DnsService.Addresses.Runs.{served}
use multi_cluster_traffic_co.Aws.{Change}
use multi_cluster_traffic_co.Aws.Zone.{Zone, RecordKey, Named}
use multi_cluster_traffic_co.DnsRecord.Status.{zone_equal}
use multi_cluster_traffic_co.DnsRecord.Reconcile.{Reconciler, skips}
use multi_cluster_traffic_co.DnsRecord.Comparison.{CmpLaws}
use multi_cluster_traffic_co.DnsRecord.Route53.{Route53Laws}
use multi_cluster_traffic_co.DnsRecord.Convergence.{World, Reach}
use multi_cluster_traffic_co.DnsRecord.Convergence.Reachable.{Reach-Exact}
use multi_cluster_traffic_co.DnsRecord.Convergence.Served.{
  is_address_key, ServesIf, Exact-Serves, IsAddressed-same,
}
use multi_cluster_traffic_co.TrafficController.{
  handle, is_being_deleted, ignoring, returns, copy_secret_to_workload_cluster,
}
use multi_cluster_traffic_co.TrafficController.Requeue.{hosted}
use multi_cluster_traffic_co.Wiring.{Platform, default_ctrl_ns, dns_service, cert_service}
use multi_cluster_traffic_co.Wiring.Published.{handler_of, handle_publishes}

module _ {S : Type 0} (base : Reconciler S) (call : String → List Change → Exec S (Unit {0}))
    (zone_of : S → Zone) (zone : DnsZone) (naming : String → RecordKey)
    (own : zone_equal zone zone ≡ true) (equal : CmpLaws base.cmp_equal)
    (route53_laws : Route53Laws call zone_of zone.id) (start u : World S)
    (fresh : start.dns_record.status.zones ≡ [])
    (all_named : Named naming start.dns_record.spec.endpoints)
    (empty : (k : RecordKey) → zone_of start.state k ≡ none)
    (reach : Reach base call zone_of zone naming start u)
    (skip : skips u.dns_record zone ≡ true) where
  -- Where the record of a reached state has the endpoints that AddEndPoints gave to one of its host.
  pub Reach-extended :
      (r : DnsRecord) (ips : List String)
      → IsAddressed r
      → Distinct ips
      → u.dns_record.metadata.name ≡ r.metadata.name
      → u.dns_record.spec ≡ (extended ips r).spec
      → (k : RecordKey)
      → ServesIf
          (is_address_key r.metadata.name (λ a. served r a || contains_string ips a) k)
          (zone_of u.state)
          k
  Reach-extended r ips addressed distinct named spec k =
      let endpoints = ap (λ (x : DnsRecordSpec). x.endpoints) spec in
      let here : IsAddressed u.dns_record =
        IsAddressed-same (extended ips r) u.dns_record named endpoints
          (extended-IsAddressed ips r addressed distinct) in
      let reads : served u.dns_record ≡ (λ b. served r b || contains_string ips b) = fun_ext (λ b.
        ap (λ es. contains_string (addresses es) b) endpoints
        ∙ contains_string-extended ips r addressed b) in
      subst (λ f. ServesIf (is_address_key r.metadata.name f k) (zone_of u.state) k) reads
        (Exact-Serves r.metadata.name (zone_of u.state) u.dns_record
          (Reach-Exact base call zone_of zone naming own equal route53_laws start u fresh all_named
            empty reach skip)
          here named k)

  -- An ingress that is not to be deleted, with one record stored for its hosts, which has endpoints of
  -- its own host only and one for each address: where the certificate is created or exists, its secret
  -- is there and copied, the addresses of the ingress are resolved, to each once, these calls leave the
  -- record alone, and the server accepts the update and keeps the spec, Handle, with the services of
  -- `main`, succeeds. In every state that is then reached from a fresh record over an empty zone, by
  -- edits, changes elsewhere and rounds that do not fail, where in the first record and in every edit a
  -- SetID goes with the same name, type and set identifier, and statuses for which `cmp.Equal` holds
  -- agree, and in which the record of the host has the spec that Handle stored and the zone would be
  -- skipped: the zone has an A record of the host for each address of the ingress and each address that
  -- the record had, and nothing else.
  pub handle_reaches_zone :
      {C Ip Http Client Session Aws : Type 0} (p : Platform C Ip Http Client Session Aws)
      (view : C → NamespacedName → Option DnsRecord)
      (laws : ClientLaws (λ r. r.metadata) p.dns.control_client view)
      (workload_client : ObjectClient C Secret) (t : Ingress Http) (r updated : DnsRecord)
      (ensured : Result (Unit {0})) (secret : Secret) (ips : List String) (s s1 s2 s3 s4 s5 : C)
      → ((v : Http) → p.traffic.deep_equal v v ≡ true)
      → is_being_deleted t ≡ false
      → stored (dns_service p) view s (get_hosts t) ≡ r ∷ []
      → IsAddressed r
      → ensure_certificate (cert_service p) r.metadata.name r s ≡ (ensured, s1)
      → is_ok (ignoring is_already_exists ensured) ≡ true
      → p.tls.secrets.get (object_key (object_meta r.metadata.name default_ctrl_ns)) s1
        ≡ (ok secret, s2)
      → copy_secret_to_workload_cluster
          (handler_of p workload_client)
          (hosted (handler_of p workload_client) t r.metadata.name r)
          secret
          r.metadata.name
          s2
        ≡ (ok tt, s3)
      → resolve_ips (dns_service p) t s3 ≡ (ok ips, s4)
      → Distinct ips
      → stored (dns_service p) view s4 (get_hosts t) ≡ r ∷ []
      → p.dns.control_client.update (extended ips r) s4 ≡ (ok updated, s5)
      → updated.spec ≡ (extended ips r).spec
      → u.dns_record.metadata.name ≡ r.metadata.name
      → u.dns_record.spec ≡ updated.spec
      → (k : RecordKey)
      → (t' : Ingress Http) × (handle (handler_of p workload_client) t s
          ≡ (ok (returns (handler_of p workload_client) t' none none), s5))
        × (view s5 (object_key r.metadata) ≡ some updated)
        × ServesIf
            (is_address_key r.metadata.name (λ a. served r a || contains_string ips a) k)
            (zone_of u.state)
            k
  handle_reaches_zone p view laws workload_client t r updated ensured secret ips s s1 s2 s3 s4 s5
        deep_equal_refl live one addressed cert fine kept copied resolved distinct still accepted
        spec named same k =
      let (t', done, _, there, _) =
        handle_publishes p view laws workload_client t r ensured secret ips updated s s1 s2 s3 s4 s5
          deep_equal_refl live one addressed cert fine kept copied resolved still accepted spec in
      (t', done, there, Reach-extended r ips addressed distinct named (same ∙ spec) k)
