-- ===== src/DnsService/Addresses/Stored.antt =====
-- AddEndPoints and RemoveEndpoints on a server, as visits of traffic objects.
use multi_cluster_traffic_co.Prelude.{
  String, not, ◌&&◌, ◌||◌, Option, none, some, Exec, pure, ◌>>=◌, List, [], ◌∷◌, ◌==◌, ◌≡◌, refl,
  ap, ◌∙◌, ok,
}
use multi_cluster_traffic_co.Slice.{contains_string}
use multi_cluster_traffic_co.Api.Types.{
  DnsRecordSpec, Endpoint, DnsRecord, NamespacedName, object_key,
}
use multi_cluster_traffic_co.Client.{ClientLaws}
use multi_cluster_traffic_co.Ingress.{Ingress, get_hosts}
use multi_cluster_traffic_co.DnsService.Endpoints.{remaining}
use multi_cluster_traffic_co.DnsService.Records.{Service, resolve_ips}
use multi_cluster_traffic_co.DnsService.Actions.{
  update_first, add_endpoints, remove_endpoints, remove_from_records, write_remaining,
}
use multi_cluster_traffic_co.DnsService.Lookup.{stored, get_dns_records-stored}
use multi_cluster_traffic_co.DnsService.Addresses.{addresses, IsAddressed}
use multi_cluster_traffic_co.DnsService.Addresses.Extended.{
  extended, with_addresses-extended, contains_string-extended,
}
use multi_cluster_traffic_co.DnsService.Addresses.Runs.{
  with_remaining, kept_with, served, served-with_remaining,
}

module _ {S Ip Http : Type 0} (service : Service S Ip)
    (view : S → NamespacedName → Option DnsRecord)
    (laws : ClientLaws (λ r. r.metadata) service.control_client view) (t : Ingress Http) where
  open service use {control_client}

  -- A record that is kept is updated, and one that is not is deleted.
  abbrev pub update_or_delete : DnsRecord → Option DnsRecord → Exec S (Unit {0})
  update_or_delete r none = control_client.delete (record r { spec = record { endpoints = [] } })
  update_or_delete r (some kept) = control_client.update kept >>= λ _. pure tt

  write_remaining-kept_with :
      (r : DnsRecord) (es : List Endpoint) (s : S)
      → write_remaining service r es (pure tt) s ≡ update_or_delete r (kept_with r es) s
  unfolding write_remaining
  write_remaining-kept_with r [] s = refl
  write_remaining-kept_with r (e ∷ es) s = refl

  -- Where the addresses of a traffic object can be resolved, the first of its hosts that has a record
  -- has one with endpoints of its own, one for each address, and the server accepts the update and
  -- keeps the spec: AddEndPoints succeeds, and the stored record of that host is served by the
  -- addresses that served it before and those of the traffic object.
  pub served-add_endpoints :
      (ips : List String) (first updated : DnsRecord) (rest : List DnsRecord) (s s1 s2 : S)
      → resolve_ips service t s ≡ (ok ips, s1)
      → stored service view s1 (get_hosts t) ≡ first ∷ rest
      → IsAddressed first
      → control_client.update (extended ips first) s1 ≡ (ok updated, s2)
      → updated.spec ≡ (extended ips first).spec
      → (add_endpoints service t s ≡ (ok tt, s2))
        × (view s2 (object_key first.metadata) ≡ some updated)
        × ((a : String) → served updated a ≡ (served first a || contains_string ips a))
  unfolding add_endpoints update_first
  served-add_endpoints ips first updated rest s s1 s2 resolved found addressed accepted kept = (
    rw
        (
          resolved,
          get_dns_records-stored service view laws t s1,
          found,
          with_addresses-extended ips first addressed,
          accepted,
        )
        refl,
    laws.update_stored (extended ips first) updated s1 s2 accepted,
    λ a.
        ap (λ (spec : DnsRecordSpec). contains_string (addresses spec.endpoints) a) kept
        ∙ contains_string-extended ips first addressed a,
  )

  -- Where a traffic object with one address has one host with a record, and the record has another
  -- address, RemoveEndpoints updates the record so that the address serves the host no more, and the
  -- others as before, if the server accepts the update and keeps the spec.
  pub served-remove_endpoints :
      (ip : String) (r updated : DnsRecord) (e : Endpoint) (es : List Endpoint) (s s1 s2 : S)
      → stored service view s (get_hosts t) ≡ r ∷ []
      → resolve_ips service t s ≡ (ok (ip ∷ []), s1)
      → remaining (ip ∷ []) r.spec.endpoints [] ≡ e ∷ es
      → control_client.update (with_remaining (ip ∷ []) r) s1 ≡ (ok updated, s2)
      → updated.spec ≡ (with_remaining (ip ∷ []) r).spec
      → (remove_endpoints service t s ≡ (ok tt, s2))
        × (view s2 (object_key r.metadata) ≡ some updated)
        × ((a : String) → served updated a ≡ (served r a && not (a == ip)))
  unfolding remove_endpoints remove_from_records write_remaining
  served-remove_endpoints ip r updated e es s s1 s2 found resolved others accepted kept = (
    rw
        (
          get_dns_records-stored service view laws t s,
          found,
          resolved,
          others,
          rw others at accepted,
        )
        refl,
    laws.update_stored (with_remaining (ip ∷ []) r) updated s1 s2 accepted,
    λ a.
        ap (λ (spec : DnsRecordSpec). contains_string (addresses spec.endpoints) a) kept
        ∙ served-with_remaining ip r a,
  )

  -- Where it has no other, RemoveEndpoints deletes the record.
  pub remove_endpoints_last :
      (ip : String) (r : DnsRecord) (s s1 : S)
      → stored service view s (get_hosts t) ≡ r ∷ []
      → resolve_ips service t s ≡ (ok (ip ∷ []), s1)
      → remaining (ip ∷ []) r.spec.endpoints [] ≡ []
      → remove_endpoints service t s
        ≡ control_client.delete (record r { spec = record { endpoints = [] } }) s1
  unfolding remove_endpoints remove_from_records write_remaining
  remove_endpoints_last ip r s s1 found resolved none_left =
      rw (get_dns_records-stored service view laws t s, found, resolved, none_left) refl

  -- What RemoveEndpoints makes of the one record that is stored for the hosts, whatever the addresses:
  -- the record that is kept is updated, and one that is not kept is deleted.
  pub remove_endpoints-kept_with :
      (ips : List String) (r : DnsRecord) (s s1 : S)
      → stored service view s (get_hosts t) ≡ r ∷ []
      → resolve_ips service t s ≡ (ok ips, s1)
      → remove_endpoints service t s
        ≡ update_or_delete r (kept_with r (remaining ips r.spec.endpoints [])) s1
  unfolding remove_endpoints remove_from_records
  remove_endpoints-kept_with ips r s s1 found resolved =
      rw (get_dns_records-stored service view laws t s, found, resolved)
        (write_remaining-kept_with r (remaining ips r.spec.endpoints []) s1)
