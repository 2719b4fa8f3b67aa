-- ===== src/DnsService/Lookup.antt =====
-- GetDNSRecords against what the server stores.
use multi_cluster_traffic_co.Prelude.{
  String, List, [], ◌∷◌, ◌==◌, ◌≡◌, refl, Option, none, some, ok, if◌then◌else◌, Bool-cases,
  Option-cases, inl, inr,
}
use multi_cluster_traffic_co.Api.Types.{DnsRecord, NamespacedName}
use multi_cluster_traffic_co.Ingress.{Ingress, get_hosts}
use multi_cluster_traffic_co.Client.{ClientLaws}
use multi_cluster_traffic_co.DnsService.Records.{Service, records_of_hosts, get_dns_records}

module _ {S Ip : Type 0} (service : Service S Ip)
    (view : S → NamespacedName → Option DnsRecord) where
  -- The key of a host's DNSRecord.
  abbrev pub host_key : String → NamespacedName
  host_key host = record { namespace = service.default_ctrl_ns; name = host }

  abbrev pub add_stored : Option DnsRecord → List DnsRecord → List DnsRecord
  add_stored none rest = rest
  add_stored (some r) rest = r ∷ rest

  -- The stored records of the hosts that are not empty, in the order of the hosts.
  abbrev pub stored : S → List String → List DnsRecord
  stored s [] = []
  stored s (host ∷ hosts) =
      let rest = stored s hosts in
      if host == "" then rest else add_stored (view s (host_key host)) rest

  module _ (laws : ClientLaws (λ r. r.metadata) service.control_client view) where
    records_of_hosts-stored :
        (hosts : List String) (s : S) → records_of_hosts service hosts s ≡ (ok (stored s hosts), s)
    unfolding records_of_hosts
    records_of_hosts-stored [] s = refl
    records_of_hosts-stored (host ∷ hosts) s = elim (Bool-cases (host == "")) [
      | inl e ↦ rw e (records_of_hosts-stored hosts s)
      | inr e ↦ rw e (elim (Option-cases (view s (host_key host))) [
        | inl gone ↦
            let (x, got, kind) = laws.get_missing (host_key host) s gone in
            rw (got, gone, kind) (records_of_hosts-stored hosts s)
        | inr (r, there) ↦
            rw (laws.get_found (host_key host) s r there, there, records_of_hosts-stored hosts s)
      ])
    ]

    -- On a server that keeps the client's laws, GetDNSRecords returns the stored records of the
    -- hosts of the traffic object, in the order of the hosts, skips the empty hosts and those
    -- without a record, and changes nothing.
    pub get_dns_records-stored :
        {Http : Type 0} (t : Ingress Http) (s : S)
        → get_dns_records service t s ≡ (ok (stored s (get_hosts t)), s)
    unfolding get_dns_records
    get_dns_records-stored t s = records_of_hosts-stored (get_hosts t) s
