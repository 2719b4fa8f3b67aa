-- ===== src/Wiring/Published.antt =====
-- The handler of a cluster as `main` makes it, on an ingress whose host has a record.
use multi_cluster_traffic_co.Prelude.{
  String, true, false, ◌||◌, Option, none, some, List, [], ◌∷◌, ◌==◌, ◌≡◌, refl, ap, ◌∙◌, arith,
  Result, ok, is_ok, is_already_exists, Bool-cases, Option-cases, inl, inr, eq_iff, eq_refl,
}
use multi_cluster_traffic_co.Slice.{contains_string}
use multi_cluster_traffic_co.Api.Types.{DnsRecord, NamespacedName, object_key, object_meta}
use multi_cluster_traffic_co.Client.{ObjectClient, ClientLaws}
use multi_cluster_traffic_co.Certificates.{Secret, ensure_certificate, get_certificate_secret}
use multi_cluster_traffic_co.Ingress.{
  Ingress, get_hosts, get_dns_targets, add_managed_host, add_tls, get_tls, tls_section,
}
use multi_cluster_traffic_co.Ingress.KnownHost.{get_hosts-add_managed_host}
use multi_cluster_traffic_co.Ingress.Tls.{section_of}
use multi_cluster_traffic_co.DnsService.Records.{resolve_ips}
use multi_cluster_traffic_co.DnsService.Lookup.{stored, host_key, get_dns_records-stored}
use multi_cluster_traffic_co.DnsService.Actions.{
  Managed, already_assigned_err, ensure_managed_host, assign,
}
use multi_cluster_traffic_co.DnsService.Addresses.{IsAddressed}
use multi_cluster_traffic_co.DnsService.Addresses.Extended.{extended}
use multi_cluster_traffic_co.DnsService.Addresses.Runs.{served}
use multi_cluster_traffic_co.DnsService.Addresses.Stored.{served-add_endpoints}
use multi_cluster_traffic_co.TrafficController.{
  TrafficReconciler, handle, is_being_deleted, ignoring, returns, copy_secret_to_workload_cluster,
}
use multi_cluster_traffic_co.TrafficController.Requeue.{marked, hosted, handle_completes}
use multi_cluster_traffic_co.Wiring.{
  Platform, default_ctrl_ns, dns_service, cert_service, traffic_services,
}

-- The handler of the cluster that the client reaches.
abbrev pub handler_of :
    {S Ip Http Client Session Aws : Type 0}
    → Platform S Ip Http Client Session Aws
    → ObjectClient S Secret
    → TrafficReconciler S Http
handler_of p workload_client = record (traffic_services p) { workload_client = workload_client }

module _ {S Ip Http Client Session Aws : Type 0} (p : Platform S Ip Http Client Session Aws)
    (view : S → NamespacedName → Option DnsRecord)
    (laws : ClientLaws (λ r. r.metadata) p.dns.control_client view)
    (workload_client : ObjectClient S Secret) where
  abbrev handler : TrafficReconciler S Http
  handler = handler_of p workload_client

  -- The one record that is stored for hosts is that of one of them.
  stored-contains :
      (hosts : List String) (s : S) (r : DnsRecord)
      → stored (dns_service p) view s hosts ≡ r ∷ []
      → contains_string hosts r.metadata.name ≡ true
  unfolding contains_string
  stored-contains [] s r one = cc
  stored-contains (host ∷ hosts) s r one = elim (Bool-cases (host == "")) [
    | inl e ↦ ground (arith, rw e at one, stored-contains hosts s r)
    | inr e ↦ elim (Option-cases (view s (host_key (dns_service p) view host))) [
      | inl gone ↦ ground (arith, rw (e, gone) at one, stored-contains hosts s r)
      | inr (x, there) ↦
          let found : x ∷ stored (dns_service p) view s hosts ≡ r ∷ [] = rw (e, there) at one in
          let same : x ≡ r = ground arith in
          let named : x.metadata.name ≡ host =
            ap (λ k. k.name) (laws.view_key s (host_key (dns_service p) view host) x there) in
          ground (arith, same, named, eq_iff host r.metadata.name, eq_refl host)
    ]
  ]

  module _ (t : Ingress Http) (r : DnsRecord) where
    -- The record as what EnsureManagedHost returns for the ingress.
    abbrev pub assigned : Managed
    assigned = record {
      hosts = r.metadata.name ∷ [];
      records = r ∷ [];
      error = some already_assigned_err;
    }

    ensure_managed_host-assigned :
        (s : S)
        → stored (dns_service p) view s (get_hosts t) ≡ r ∷ []
        → ensure_managed_host (dns_service p) (marked handler t) s ≡ (ok assigned, s)
    unfolding ensure_managed_host assign get_hosts
    ensure_managed_host-assigned s one =
        rw (get_dns_records-stored (dns_service p) view laws (marked handler t) s, one) refl

    -- The ingress as Handle publishes it.
    abbrev pub published : String → Ingress Http
    published secret_name = add_tls (hosted handler t r.metadata.name r) r.metadata.name secret_name

    resolve_ips-published :
        (secret_name : String)
        → resolve_ips (dns_service p) (published secret_name) ≡ resolve_ips (dns_service p) t
    unfolding resolve_ips get_dns_targets add_tls add_managed_host
    resolve_ips-published secret_name = refl

    get_hosts-published :
        ((v : Http) → p.traffic.deep_equal v v ≡ true)
        → contains_string (get_hosts t) r.metadata.name ≡ true
        → (secret_name : String) → get_hosts (published secret_name) ≡ get_hosts t
    get_hosts-published deep_equal_refl known secret_name =
        let added : get_hosts (hosted handler t r.metadata.name r) ≡ get_hosts t =
          unfold get_hosts in
          get_hosts-add_managed_host p.traffic.deep_equal r.metadata.name deep_equal_refl
            (marked handler t) known in
        unfold add_tls get_hosts in added

    -- Where, for an ingress that is not to be deleted, one record is stored for its hosts, with
    -- endpoints of its own host only and one for each address, the certificate is created or exists,
    -- its secret is there and copied, the addresses of the ingress are resolved, these calls leave the
    -- record alone, and the server accepts the update and keeps the spec: Handle, with the services of
    -- `main`, returns the ingress with a TLS section of the host for the secret, with no error, and not
    -- to be queued again, and the stored record has the addresses of the ingress beside those that it
    -- had.
    pub handle_publishes :
        (ensured : Result (Unit {0})) (secret : Secret) (ips : List String) (updated : DnsRecord)
        (s s1 s2 s3 s4 s5 : S)
        → ((v : Http) → p.traffic.deep_equal v v ≡ true)
        → is_being_deleted t ≡ false
        → stored (dns_service p) view s (get_hosts t) ≡ r ∷ []
        → IsAddressed r
        → ensure_certificate (cert_service p) r.metadata.name r s ≡ (ensured, s1)
        → is_ok (ignoring is_already_exists ensured) ≡ true
        → p.tls.secrets.get (object_key (object_meta r.metadata.name default_ctrl_ns)) s1
          ≡ (ok secret, s2)
        → copy_secret_to_workload_cluster handler
            (hosted handler t r.metadata.name r)
            secret
            r.metadata.name
            s2
          ≡ (ok tt, s3)
        → resolve_ips (dns_service p) t s3 ≡ (ok ips, s4)
        → stored (dns_service p) view s4 (get_hosts t) ≡ r ∷ []
        → p.dns.control_client.update (extended ips r) s4 ≡ (ok updated, s5)
        → updated.spec ≡ (extended ips r).spec
        → (t' : Ingress Http) × (handle handler t s ≡ (ok (returns handler t' none none), s5))
          × (section_of r.metadata.name (get_tls t')
              ≡ some (tls_section r.metadata.name secret.metadata.name))
          × (view s5 (object_key r.metadata) ≡ some updated)
          × ((a : String) → served updated a ≡ (served r a || contains_string ips a))
    unfolding get_certificate_secret
    handle_publishes ensured secret ips updated s s1 s2 s3 s4 s5 deep_equal_refl live one addressed
          cert fine kept copied resolved still accepted spec =
        let (added, there, reads) =
          served-add_endpoints (dns_service p) view laws (published secret.metadata.name) ips r
            updated [] s3 s4 s5
            (ap (λ f. f s3) (resolve_ips-published secret.metadata.name) ∙ resolved)
            (ap (stored (dns_service p) view s4) (
                get_hosts-published deep_equal_refl (stored-contains (get_hosts t) s r one)
                  secret.metadata.name)
              ∙ still)
            addressed accepted spec in
        let (t', done, _, section) =
          handle_completes handler t r.metadata.name r assigned ensured secret s s s1 s2 s3 s5 live
            (ensure_managed_host-assigned s one) refl refl refl cert fine (rw kept refl) copied
            added in
        (t', done, section, there, reads)
