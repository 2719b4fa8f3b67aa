-- ===== src/DnsRecord/Route53.antt =====
-- The AWS provider on Route 53, seen from the reconciler: what a call of Ensure leaves in the zone.
use multi_cluster_traffic_co.Prelude.{
  String, true, List, [], ◌∷◌, ◌≡◌, ◌⊎◌, refl, ap, ◌∙◌, arith, map, none, Bool-cases, inl, inr,
  Result, ok, err, panic, is_ok, Exec, Result-cases,
}
use multi_cluster_traffic_co.Api.Types.{DnsRecord, DnsZone, DnsZoneStatus}
use multi_cluster_traffic_co.Aws.{
  Change, upsert_action, changes_of, submit, update_record, change, endpoints_from_zone_status,
  wrap,
}
use multi_cluster_traffic_co.Aws.Zone.{Zone, RecordKey, Named, keys, apply_all, change_to, has_key}
use multi_cluster_traffic_co.Aws.Zone.Effects.{upserts_absent}
use multi_cluster_traffic_co.Aws.Batch.{changes_of-Zone, submit-err}

-- What Route 53 holds for the record, and what a call of ChangeResourceRecordSets does with it: a
-- batch is applied whole, or the call returns an error. A record set is created, replaced or deleted
-- under its name, type and set identifier.
pub record Route53Laws {S : Type 0} (call : String → List Change → Exec S (Unit {0}))
    (zone_of : S → Zone) (zone_id : String) : Type 0 where
  pub applied :
      (batch : List Change) (s s' : S) (k : RecordKey)
      → call zone_id batch s ≡ (ok tt, s')
      → zone_of s' k ≡ apply_all batch (zone_of s) k

-- What is in the zone is recorded in the statuses: each key is that of an endpoint in the status of
-- the zone, or it is free.
abbrev pub Covered : Zone → List DnsZoneStatus → String → Type 0
Covered z statuses zone_id =
    (k : RecordKey)
    → (has_key k (endpoints_from_zone_status statuses zone_id) ≡ true) ⊎ (z k ≡ none)

-- The zone holds what the endpoints of the record put into an empty one, and nothing else.
abbrev pub Exact : Zone → DnsRecord → Type 0
Exact z r =
    (k : RecordKey) → z k ≡ apply_all (map (change_to upsert_action) r.spec.endpoints) (λ _. none) k

-- An exact zone holds no key but those of the endpoints.
pub Exact-Covered :
    (z : Zone) (r : DnsRecord) (statuses : List DnsZoneStatus) (zone_id : String)
    → Exact z r
    → keys (endpoints_from_zone_status statuses zone_id) ≡ keys r.spec.endpoints
    → Covered z statuses zone_id
Exact-Covered z r statuses zone_id exact held k = elim (Bool-cases (has_key k r.spec.endpoints)) [
  | inl own ↦ inl (rw held own)
  | inr other ↦ inr (exact k ∙ upserts_absent k r.spec.endpoints (λ _. none) other)
]

module _ {S : Type 0} (call : String → List Change → Exec S (Unit {0})) (zone_of : S → Zone)
    (r : DnsRecord) (zone : DnsZone) (laws : Route53Laws call zone_of zone.id) where
  wrap_ok :
      (text : String) (done : Result (Unit {0})) → is_ok (wrap text done) ≡ true → done ≡ ok tt
  wrap_ok text (ok tt) h = refl
  wrap_ok text (err e) h = cc
  wrap_ok text panic h = cc

  pub wrap_fine :
      (text : String) (done : Result (Unit {0})) → is_ok (wrap text done) ≡ true → is_ok done ≡ true
  wrap_fine text done fine = rw (wrap_ok text done fine) refl

  pub submit_applied :
      (batch : List Change) (s : S) (k : RecordKey)
      → is_ok (submit call r zone.id (ok batch) s).0 ≡ true
      → zone_of (submit call r zone.id (ok batch) s).1 k ≡ apply_all batch (zone_of s) k
  unfolding submit apply_all
  submit_applied [] s k fine = refl
  submit_applied (c ∷ batch) s k fine = laws.applied (c ∷ batch) s _ k (
      ap (λ done. (done, (call zone.id (c ∷ batch) s).1))
        (wrap_ok _ (call zone.id (c ∷ batch) s).0 fine))

  -- After a call of Ensure that succeeds, the zone is exact, if the statuses covered it and a SetID
  -- always goes with the same key.
  pub change-Exact :
      (naming : String → RecordKey) (s : S)
      → Named naming r.spec.endpoints
      → Named naming (endpoints_from_zone_status r.status.zones zone.id)
      → Covered (zone_of s) r.status.zones zone.id
      → is_ok (change call r zone upsert_action s).0 ≡ true
      → Exact (zone_of (change call r zone upsert_action s).1) r
  unfolding change update_record
  change-Exact naming s spec_named old_named covered fine k =
      elim (Result-cases (changes_of r zone.id upsert_action)) [
        | inl (batch, sent) ↦ rw sent (
            submit_applied batch s k (sent_ok batch sent)
            ∙ changes_of-Zone naming r zone.id batch (zone_of s) spec_named old_named sent covered
                k)
        | inr bad ↦
            absurd
              (ground (arith, submit-err call r zone.id (changes_of r zone.id upsert_action) s bad))
      ]
    where
      sent_ok :
          (batch : List Change)
          → changes_of r zone.id upsert_action ≡ ok batch
          → is_ok (submit call r zone.id (ok batch) s).0 ≡ true
      sent_ok batch sent = wrap_fine _ (submit call r zone.id (ok batch) s).0 (rw sent at fine)
