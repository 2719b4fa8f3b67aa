-- ===== src/Wiring/Assigned.antt =====
-- The handler of a cluster as `main` makes it, on an ingress that has no host yet: the first two
-- times that it handles the ingress.
use multi_cluster_traffic_co.Prelude.{
  String, true, false, Option, none, some, List, [], ◌∷◌, ◌==◌, ◌≡◌, refl, ap, sym, ◌∙◌, subst,
  Error, Result, ok, err, is_ok, is_already_exists, is_not_found, All, ◌||◌,
}
use multi_cluster_traffic_co.Slice.{contains_string}
use multi_cluster_traffic_co.Api.Types.{DnsRecord, NamespacedName, object_key, object_meta}
use multi_cluster_traffic_co.Client.{ObjectClient, ClientLaws}
use multi_cluster_traffic_co.Certificates.{Secret, ensure_certificate, get_certificate_secret}
use multi_cluster_traffic_co.Ingress.{Ingress, get_hosts, get_tls, tls_section, add_managed_host}
use multi_cluster_traffic_co.Ingress.Hosts.{Distinct}
use multi_cluster_traffic_co.Ingress.Tls.{section_of}
use multi_cluster_traffic_co.DnsService.Records.{resolve_ips}
use multi_cluster_traffic_co.DnsService.Lookup.{stored}
use multi_cluster_traffic_co.DnsService.Created.{
  new_host, new_record, created_for, ensure_managed_host-created, created_key,
}
use multi_cluster_traffic_co.DnsService.Addresses.{IsAddressed, IsManaged, addresses}
use multi_cluster_traffic_co.DnsService.Addresses.Extended.{extended}
use multi_cluster_traffic_co.DnsService.Addresses.Runs.{served}
use multi_cluster_traffic_co.TrafficController.{
  TrafficReconciler, handle, is_being_deleted, ignoring, returns, copy_secret_to_workload_cluster,
}
use multi_cluster_traffic_co.TrafficController.Requeue.{marked, hosted, handle_waits}
use multi_cluster_traffic_co.Wiring.{Platform, default_ctrl_ns, dns_service, cert_service}
use multi_cluster_traffic_co.Wiring.Published.{handler_of, handle_publishes}

module _ {S Ip Http Client Session Aws : Type 0} (p : Platform S Ip Http Client Session Aws)
    (view : S → NamespacedName → Option DnsRecord)
    (laws : ClientLaws (λ r. r.metadata) p.dns.control_client view)
    (workload_client : ObjectClient S Secret) (t : Ingress Http) where
  abbrev handler : TrafficReconciler S Http
  handler = handler_of p workload_client

  -- The host and the record that EnsureManagedHost gives to the ingress.
  abbrev pub host_of : String
  host_of = new_host (dns_service p) t

  abbrev pub record_of : DnsRecord
  record_of = new_record (dns_service p) t

  -- The ingress as the first Handle returns it.
  abbrev pub with_host : DnsRecord → Ingress Http
  with_host created = hosted handler t host_of created

  created-IsAddressed : (created : DnsRecord) → created.spec ≡ record_of.spec → IsAddressed created
  created-IsAddressed created empty = record {
    managed = subst (λ spec. All (IsManaged created.metadata.name) spec.endpoints) (sym empty) tt;
    once = subst (λ spec. Distinct (addresses spec.endpoints)) (sym empty) tt;
  }

  -- An ingress that is not to be deleted and for whose hosts no record is stored, with a zone
  -- configured: where the server accepts the record with its spec, the certificate is created or
  -- exists and its secret is not there yet, Handle returns the ingress with the new host, to be queued
  -- again after 10 seconds, without an error. Where that ingress is then handled with the new record
  -- the one of its hosts, and the certificate exists, its secret is there and copied, the addresses of
  -- the ingress are resolved, these calls leave the record alone, and the server accepts the update and
  -- keeps the spec: Handle returns the ingress with a TLS section of the new host for the secret, with
  -- no error, and not to be queued again, and the stored record of the new host has the addresses of
  -- the ingress and no others.
  pub handle_twice :
      (created updated : DnsRecord) (ensured ensured_again : Result (Unit {0})) (missing : Error)
      (secret : Secret) (ips : List String) (s s1 s2 s3 s4 s5 s6 s7 s8 s9 : S)
      → ((v : Http) → p.traffic.deep_equal v v ≡ true)
      → is_being_deleted t ≡ false
      → stored (dns_service p) view s (get_hosts t) ≡ []
      → (p.dns.getenv "AWS_DNS_PUBLIC_ZONE_ID" == "") ≡ false
      → p.dns.control_client.create record_of s ≡ (ok created, s1)
      → created.spec ≡ record_of.spec
      → ensure_certificate (cert_service p) host_of created s1 ≡ (ensured, s2)
      → is_ok (ignoring is_already_exists ensured) ≡ true
      → p.tls.secrets.get (object_key (object_meta host_of default_ctrl_ns)) s2 ≡ (err missing, s3)
      → is_not_found missing ≡ true
      → stored (dns_service p) view s4 (get_hosts (with_host created)) ≡ created ∷ []
      → ensure_certificate (cert_service p) host_of created s4 ≡ (ensured_again, s5)
      → is_ok (ignoring is_already_exists ensured_again) ≡ true
      → p.tls.secrets.get (object_key (object_meta host_of default_ctrl_ns)) s5 ≡ (ok secret, s6)
      → copy_secret_to_workload_cluster handler
          (hosted handler (with_host created) host_of created)
          secret
          host_of
          s6
        ≡ (ok tt, s7)
      → resolve_ips (dns_service p) (with_host created) s7 ≡ (ok ips, s8)
      → stored (dns_service p) view s8 (get_hosts (with_host created)) ≡ created ∷ []
      → p.dns.control_client.update (extended ips created) s8 ≡ (ok updated, s9)
      → updated.spec ≡ (extended ips created).spec
      → (handle handler t s ≡ (ok (returns handler (with_host created) (some 10) none), s3))
        × ((t' : Ingress Http) × (handle handler (with_host created) s4
              ≡ (ok (returns handler t' none none), s9))
            × (section_of host_of (get_tls t') ≡ some (tls_section host_of secret.metadata.name))
            × (view s9 (object_key record_of.metadata) ≡ some updated)
            × ((a : String) → served updated a ≡ contains_string ips a))
  unfolding get_certificate_secret add_managed_host contains_string
  handle_twice created updated ensured ensured_again missing secret ips s s1 s2 s3 s4 s5 s6 s7 s8 s9
        deep_equal_refl live fresh zone accepted empty cert fine absent gone one cert_again
        fine_again kept copied resolved still written spec =
      let key = created_key (dns_service p) t view laws created s s1 accepted in
      let named : created.metadata.name ≡ host_of = ap (λ k. k.name) key in
      let (t', done, section, there, reads) =
        handle_publishes p view laws workload_client (with_host created) created ensured_again
          secret ips updated s4 s5 s6 s7 s8 s9 deep_equal_refl live one
          (created-IsAddressed created empty)
          (subst (λ h. ensure_certificate (cert_service p) h created s4 ≡ (ensured_again, s5))
            (sym named) cert_again)
          fine_again
          (subst
            (λ h.
              p.tls.secrets.get (object_key (object_meta h default_ctrl_ns)) s5 ≡ (ok secret, s6))
            (sym named) kept)
          (subst
            (λ h.
              copy_secret_to_workload_cluster handler (hosted handler (with_host created) h created)
                secret h s6
              ≡ (ok tt, s7))
            (sym named) copied)
          resolved still written spec in
      (
        handle_waits handler t host_of created (created_for (dns_service p) t created) [] [] ensured
            missing s s1 s2 s3 live
            (unfold get_hosts in
              ensure_managed_host-created (dns_service p) (marked handler t) view laws created s s1
                accepted fresh zone)
            refl refl refl cert fine (rw absent refl) gone,
        (
          t',
          done,
          subst (λ h. section_of h (get_tls t') ≡ some (tls_section h secret.metadata.name)) named
              section,
          subst (λ k. view s9 k ≡ some updated) key there,
          λ a.
              reads a
              ∙ ap (λ spec. contains_string (addresses spec.endpoints) a || contains_string ips a)
                  empty,
        ),
      )
