-- ===== src/DnsRecord/Convergence/Served.antt =====
-- The zone of a host, end to end: from the traffic objects that come and go, through the endpoints of
-- the host's DNSRecord, to the record sets in Route 53.
use multi_cluster_traffic_co.Prelude.{
  String, Bool, true, false, ◌&&◌, Option, none, some, List, [], ◌∷◌, ◌==◌, ◌≡◌, refl, sym, ap, ◌∙◌,
  arith, map, All, Bool-cases, inl, inr, Exec, subst, ok,
}
use multi_cluster_traffic_co.Text.{pos}
use multi_cluster_traffic_co.Slice.{contains_string}
use multi_cluster_traffic_co.Ingress.Hosts.{Distinct}
use multi_cluster_traffic_co.Api.Types.{Endpoint, DnsRecord, DnsZone}
use multi_cluster_traffic_co.Api.Endpoint.{set_provider_specific}
use multi_cluster_traffic_co.DnsService.Endpoints.{address_endpoint}
use multi_cluster_traffic_co.DnsService.Adding.{weighted}
use multi_cluster_traffic_co.DnsService.Addresses.{addresses, IsManaged, IsAddressed}
use multi_cluster_traffic_co.DnsService.Addresses.Runs.{
  Visit, run, replay, served, listed, AreOrderly, StaysAddressed, run_refines,
}
use multi_cluster_traffic_co.Aws.{Change, ResourceRecordSet, upsert_action, record_set_of}
use multi_cluster_traffic_co.Aws.Zone.{
  Zone, RecordKey, Named, record_key, id_of, same_key, same_key-eq, apply, apply_all, change_to,
  has_key,
}
use multi_cluster_traffic_co.Aws.Zone.Effects.{apply_at, upserts_absent}
use multi_cluster_traffic_co.DnsRecord.Status.{zone_equal}
use multi_cluster_traffic_co.DnsRecord.Reconcile.{Reconciler, skips}
use multi_cluster_traffic_co.DnsRecord.Comparison.{CmpLaws}
use multi_cluster_traffic_co.DnsRecord.Route53.{Route53Laws, Exact}
use multi_cluster_traffic_co.DnsRecord.Convergence.{World, Reach}
use multi_cluster_traffic_co.DnsRecord.Convergence.Reachable.{Reach-Exact}

-- The key of an A record of the host at one of the addresses.
abbrev pub is_address_key : String → (String → Bool) → RecordKey → Bool
is_address_key host serving k = host == k.name && "A" == k.type && serving k.set_identifier

-- The zone has, under the key, an A record of the key's name, with the key's set identifier as its
-- address and a TTL of 60.
abbrev pub Serves : Zone → RecordKey → Type 0
Serves z k =
    (rs : ResourceRecordSet) × (z k ≡ some rs)
    × (rs.name ≡ k.name)
    × (rs.type ≡ "A")
    × (rs.ttl ≡ pos 60)
    × (rs.resource_records ≡ k.set_identifier ∷ [])

-- The zone has such a record under the key, or nothing.
abbrev pub ServesIf : Bool → Zone → RecordKey → Type 0
ServesIf true z k = Serves z k
ServesIf false z k = z k ≡ none

record_set_of-managed :
    (host : String) (e : Endpoint)
    → IsManaged host e
    → (record_key e ≡ record { name = host; type = "A"; set_identifier = e.set_identifier })
      × ((record_set_of e).name ≡ host)
      × ((record_set_of e).type ≡ "A")
      × ((record_set_of e).ttl ≡ pos 60)
      × ((record_set_of e).resource_records ≡ e.set_identifier ∷ [])
record_set_of-managed host e (n, _, same) = subst Fields (sym same) made_fields
  where
    Fields : Endpoint → Type 0
    Fields x =
        (record_key x ≡ record { name = host; type = "A"; set_identifier = x.set_identifier })
        × ((record_set_of x).name ≡ host)
        × ((record_set_of x).type ≡ "A")
        × ((record_set_of x).ttl ≡ pos 60)
        × ((record_set_of x).resource_records ≡ x.set_identifier ∷ [])

    made_fields : Fields (weighted n (address_endpoint host e.set_identifier))
    made_fields = unfold record_set_of set_provider_specific in (refl, refl, refl, refl, refl)

module _ (host : String) (k : RecordKey) where
  same_key-managed :
      (e : Endpoint)
      → IsManaged host e
      → same_key (record_key e) k ≡ is_address_key host (λ a. e.set_identifier == a) k
  same_key-managed e m = ap (λ own. same_key own k) (record_set_of-managed host e m).0

  has_key-addresses :
      (es : List Endpoint)
      → All (IsManaged host) es
      → has_key k es ≡ is_address_key host (contains_string (addresses es)) k
  unfolding contains_string
  has_key-addresses [] managed = ground arith
  has_key-addresses (e ∷ es) (m, managed) =
      ground (arith, same_key-managed e m, has_key-addresses es managed)

  -- Of endpoints with different addresses, each puts its own record set into the zone.
  upserts_present :
      (es : List Endpoint) (z : Zone)
      → All (IsManaged host) es
      → Distinct (addresses es)
      → has_key k es ≡ true
      → Serves (apply_all (map (change_to upsert_action) es) z) k
  unfolding apply_all contains_string
  upserts_present [] z managed once there = cc
  upserts_present (e ∷ es) z (m, managed) (fresh, once) there =
      elim (Bool-cases (same_key (record_key e) k)) [
        | inl own ↦
            let key : record_key e ≡ k = same_key-eq (record_key e) k own in
            let same : e.set_identifier ≡ k.set_identifier = ap (λ x. x.set_identifier) key in
            let absent : has_key k es ≡ false =
              has_key-addresses es managed
              ∙ ap (λ b. host == k.name && "A" == k.type && b)
                  (ap (λ x. contains_string (addresses es) x) (sym same) ∙ fresh)
              ∙ ground arith in
            let (_, named, typed, lived, records) = record_set_of-managed host e m in
            (
              record_set_of e,
              upserts_absent k es (apply (change_to upsert_action e) z) absent
                  ∙ apply_at k upsert_action e z
                  ∙ rw own refl,
              named
                  ∙ sym (ap (λ x. x.name) (record_set_of-managed host e m).0)
                  ∙ ap (λ x. x.name) key,
              typed,
              lived,
              records ∙ ap (λ x. x ∷ []) same,
            )
        | inr other ↦
            upserts_present es (apply (change_to upsert_action e) z) managed once
              (rw other at there)
      ]

-- A zone that is exact for a record with endpoints of its own host only, one for each address, serves the
-- host at these addresses and holds nothing else.
pub Exact-Serves :
    (host : String) (z : Zone) (r : DnsRecord)
    → Exact z r
    → IsAddressed r
    → r.metadata.name ≡ host
    → (k : RecordKey) → ServesIf (is_address_key host (served r) k) z k
Exact-Serves host z r exact addressed named k =
    let managed = subst (λ h. All (IsManaged h) r.spec.endpoints) named addressed.managed in
    let reads = has_key-addresses host k r.spec.endpoints managed in
    elim (Bool-cases (has_key k r.spec.endpoints)) [
      | inl there ↦
          let (rs, found, host_named, typed, lived, records) =
            upserts_present host k r.spec.endpoints (λ _. none) managed addressed.once there in
          subst (λ b. ServesIf b z k) (sym there ∙ reads)
            (rs, exact k ∙ found, host_named, typed, lived, records)
      | inr gone ↦
          subst (λ b. ServesIf b z k) (sym gone ∙ reads)
            (exact k ∙ upserts_absent k r.spec.endpoints (λ _. none) gone)
    ]

-- The naming of the endpoints that AddEndPoints makes for a host: the SetID is the address.
abbrev pub host_naming : String → String → RecordKey
host_naming host a = record { name = host; type = "A"; set_identifier = a }

-- Endpoints of one host, none of them with an empty address, keep to that naming, so that the edits of
-- AddEndPoints and RemoveEndpoints do.
pub IsManaged-Named :
    (host : String) (es : List Endpoint)
    → All (IsManaged host) es
    → contains_string (addresses es) "" ≡ false
    → Named (host_naming host) es
unfolding contains_string
IsManaged-Named host [] managed set = tt
IsManaged-Named host (e ∷ es) (m, managed) set =
    let key : record_key e ≡ host_naming host e.set_identifier =
      (record_set_of-managed host e m).0 in
    let own : (e.set_identifier == "") ≡ false = ground arith in
    let later : contains_string (addresses es) "" ≡ false = ground arith in
    (
      key ∙ ap (host_naming host) (sym (ap id_of key ∙ rw own refl)),
      IsManaged-Named host es managed later,
    )

-- The addresses that serve the host, where there may be none left.
abbrev pub serving : Option (List String) → String → Bool
serving none a = false
serving (some published) a = contains_string published a

IsAddressed-empty : (r : DnsRecord) → r.spec.endpoints ≡ [] → IsAddressed r
IsAddressed-empty r bare = record { managed = rw bare tt; once = rw bare tt }

pub IsAddressed-same :
    (r r' : DnsRecord)
    → r'.metadata.name ≡ r.metadata.name
    → r'.spec.endpoints ≡ r.spec.endpoints
    → IsAddressed r
    → IsAddressed r'
IsAddressed-same r r' name spec addressed = record {
  managed = rw (name, spec) addressed.managed;
  once = rw spec addressed.once;
}

module _ {S : Type 0} (base : Reconciler S) (call : String → List Change → Exec S (Unit {0}))
    (zone_of : S → Zone) (zone : DnsZone) (naming : String → RecordKey)
    (own : zone_equal zone zone ≡ true) (equal : CmpLaws base.cmp_equal)
    (laws : Route53Laws call zone_of zone.id) where
  -- Traffic objects, each with its addresses once when it comes and with one address when it goes, come
  -- and go from a record of the host without endpoints, and the record is there in the end. In every
  -- state that is reached from a fresh record over an empty zone, by edits, changes elsewhere and rounds
  -- that do not fail, where in the first record and in every edit a SetID goes with the same name, type
  -- and set identifier, and statuses for which `cmp.Equal` holds agree, and in which the record has the
  -- endpoints that the visits leave and the zone would be skipped: the zone has an A record of the host
  -- for each address that has come and not gone, and nothing else.
  pub Reach-Serves :
      (host : String) (visits : List Visit) (empty_record final : DnsRecord) (start u : World S)
      → empty_record.metadata.name ≡ host
      → empty_record.spec.endpoints ≡ []
      → AreOrderly visits
      → run visits (some empty_record) ≡ ok (some final)
      → start.dns_record.status.zones ≡ []
      → Named naming start.dns_record.spec.endpoints
      → ((k : RecordKey) → zone_of start.state k ≡ none)
      → Reach base call zone_of zone naming start u
      → u.dns_record.metadata.name ≡ host
      → u.dns_record.spec.endpoints ≡ final.spec.endpoints
      → skips u.dns_record zone ≡ true
      → (k : RecordKey)
      → ServesIf (is_address_key host (serving (replay visits (some []))) k) (zone_of u.state) k
  Reach-Serves host visits empty_record final start u named bare orderly ran fresh all_named empty
        reach host_named spec skip k =
      let (stored', done, stays, reads) =
        run_refines visits empty_record (IsAddressed-empty empty_record bare) orderly in
      let left : stored' ≡ some final =
        let both : ok stored' ≡ ok (some final) = sym done ∙ ran in cc in
      let (addressed, metadata) = subst (StaysAddressed empty_record) left stays in
      let name : u.dns_record.metadata.name ≡ final.metadata.name =
        host_named ∙ sym named ∙ ap (λ m. m.name) (sym metadata) in
      let here : IsAddressed u.dns_record =
        IsAddressed-same final u.dns_record name spec addressed in
      let reading : some (addresses u.dns_record.spec.endpoints) ≡ replay visits (some []) =
        ap (λ es. some (addresses es)) spec
        ∙ ap listed (sym left)
        ∙ reads
        ∙ ap (λ es. replay visits (some (addresses es))) bare in
      subst (λ published. ServesIf (is_address_key host (serving published) k) (zone_of u.state) k)
        reading
        (Exact-Serves host (zone_of u.state) u.dns_record
          (Reach-Exact base call zone_of zone naming own equal laws start u fresh all_named empty
            reach skip)
          here host_named k)
