-- ===== src/Examples/Batch.antt =====
-- The batches of Route 53 changes, for a record that was published with another address.
use multi_cluster_traffic_co.Prelude.{
  suc, String, true, false, none, some, List, [], ◌∷◌, ◌≡◌, refl, arith, ok, is_ok, map,
  if◌then◌else◌, ◌⊎◌,
}
use multi_cluster_traffic_co.Text.{ℤ}
use multi_cluster_traffic_co.Api.Types.{DnsRecord}
use multi_cluster_traffic_co.Api.Endpoint.{set_id}
use multi_cluster_traffic_co.DnsService.Endpoints.{address_endpoint}
use multi_cluster_traffic_co.DnsService.Adding.{weighted}
use multi_cluster_traffic_co.Aws.{
  Change, upsert_action, delete_action, changes_of, is_expected, endpoints_from_zone_status,
  change_for_endpoint, change, record_set_of,
}
use multi_cluster_traffic_co.Aws.Zone.{
  Zone, RecordKey, record_key, same_key, change_to, has_key, apply_all,
}
use multi_cluster_traffic_co.Aws.Batch.{
  changes_of-ok, changes_of-Zone, changes_of-renamed, change_invalid,
}
use multi_cluster_traffic_co.Aws.Weights.{change_for_endpoint-weighted}
use multi_cluster_traffic_co.DnsRecord.Convergence.Served.{host_naming}
use multi_cluster_traffic_co.Examples.Server.{differ}
use multi_cluster_traffic_co.Examples.Endpoints.{at}
use multi_cluster_traffic_co.Examples.Publication.{seen_at, zone}

-- The record wants 10.0.0.2, and 10.0.0.1 was published.
abbrev r : DnsRecord
r = seen_at 1 "False"

abbrev batch : List Change
batch =
    change_to upsert_action (at "10.0.0.2" "120")
    ∷ change_to delete_action (at "10.0.0.1" "120")
    ∷ []

sent : changes_of r "Z1" upsert_action ≡ ok batch
unfolding endpoints_from_zone_status is_expected set_id
sent = (changes_of-ok r "Z1" (refl, tt) (refl, tt)).0

-- What Route 53 holds: the record set of 10.0.0.1.
abbrev published : Zone
published k =
    if same_key (record_key (at "10.0.0.1" "120")) k
    then some (record_set_of (at "10.0.0.1" "120"))
    else none

-- The SetIDs of the host's endpoints are its addresses.
abbrev pub shop_naming : String → RecordKey
shop_naming = host_naming "shop.test"

published_before :
    (k : RecordKey)
    → (has_key k (endpoints_from_zone_status r.status.zones "Z1") ≡ true) ⊎ (published k ≡ none)
unfolding endpoints_from_zone_status
published_before k = ground arith

changes_of-Zone_example :
    apply_all batch published (record_key (at "10.0.0.1" "120"))
    ≡ apply_all
        (map (change_to upsert_action) r.spec.endpoints)
        (λ _. none)
        (record_key (at "10.0.0.1" "120"))
unfolding endpoints_from_zone_status
changes_of-Zone_example =
    changes_of-Zone shop_naming r "Z1" batch published (refl, tt) (refl, tt) sent published_before
      (record_key (at "10.0.0.1" "120"))

-- The endpoint of 10.0.0.2, under another name.
abbrev moved : DnsRecord
moved = record r {
  spec = record { endpoints = record (at "10.0.0.2" "120") { dns_name = "new.test" } ∷ [] };
}

abbrev moved_batch : List Change
moved_batch =
    change_to upsert_action (record (at "10.0.0.2" "120") { dns_name = "new.test" })
    ∷ change_to delete_action (at "10.0.0.1" "120")
    ∷ []

moved_sent : changes_of moved "Z1" upsert_action ≡ ok moved_batch
unfolding endpoints_from_zone_status is_expected set_id
moved_sent = (changes_of-ok moved "Z1" (refl, tt) (refl, tt)).0

-- What Route 53 holds: the record set of 10.0.0.2 under the old name.
abbrev before_move : Zone
before_move = apply_all (change_to upsert_action (at "10.0.0.2" "120") ∷ []) (λ k. none)

changes_of-renamed_example :
    apply_all moved_batch before_move (shop_naming "10.0.0.2")
    ≡ before_move (shop_naming "10.0.0.2")
unfolding set_id
changes_of-renamed_example =
    changes_of-renamed moved "Z1" moved_batch before_move (shop_naming "10.0.0.2") moved_sent refl
      refl

-- A record with an endpoint of a type that Route 53 is not sent.
abbrev text_record : DnsRecord
text_record = record r {
  spec = record { endpoints = record (at "10.0.0.2" "120") { record_type = "TXT" } ∷ [] };
}

change_invalid_example :
    (is_ok (change (λ id changes s. (ok tt, suc s)) text_record zone upsert_action 3).0 ≡ false)
    × ((change (λ id changes s. (ok tt, suc s)) text_record zone upsert_action 3).1 ≡ 3)
change_invalid_example =
    change_invalid (λ id changes s. (ok tt, suc s)) text_record zone upsert_action 3 refl

change_for_endpoint-weighted_example :
    (c : Change) × (change_for_endpoint
        (weighted 2 (address_endpoint "shop.test" "10.0.0.1"))
        "UPSERT"
      ≡ ok c)
    × (c.action ≡ "UPSERT")
    × (c.resource_record_set.name ≡ "shop.test")
    × (c.resource_record_set.type ≡ "A")
    × (c.resource_record_set.ttl ≡ ℤ.pos 60)
    × (c.resource_record_set.resource_records ≡ "10.0.0.1" ∷ [])
    × (c.resource_record_set.set_identifier ≡ some "10.0.0.1")
    × (c.resource_record_set.weight ≡ some (ℤ.pos 60))
change_for_endpoint-weighted_example =
    change_for_endpoint-weighted 2 "shop.test" "10.0.0.1" "UPSERT" (omega arith)
      (differ "shop.test" "" refl) (differ "10.0.0.1" "" refl)
