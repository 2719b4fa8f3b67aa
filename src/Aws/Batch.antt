-- ===== src/Aws/Batch.antt =====
-- updateRecord: the batch of changes that it sends, and what the batch makes of a zone.
use multi_cluster_traffic_co.Prelude.{
  String, ◌==◌, true, false, not, List, [], ◌∷◌, ◌++◌, ◌≡◌, refl, arith, any, keep, map, All,
  Result, ok, err, panic, is_ok, Exec, Result-cases, ◌⊎◌, ap, ◌∙◌, none, Bool-cases, inl, inr,
}
use multi_cluster_traffic_co.Api.Types.{Endpoint, DnsRecord, DnsZone}
use multi_cluster_traffic_co.Api.Endpoint.{set_id}
use multi_cluster_traffic_co.Aws.{
  Change, upsert_action, delete_action, changes_for, deletes_for, is_expected, changes_of,
  endpoints_from_zone_status, submit, update_record, change,
}
use multi_cluster_traffic_co.Aws.Zone.{
  Zone, RecordKey, Named, change_to, stale, has_key, apply_all, id_of,
}
use multi_cluster_traffic_co.Aws.Zone.Effects.{
  batch-Zone, has_key-expected, apply_all-append, deletes_absent, upserts_absent,
}
use multi_cluster_traffic_co.Aws.Validation.{
  is_publishable, change_for_endpoint-ok, change_for_endpoint-err,
}

abbrev pub ArePublishable : List Endpoint → Type 0
ArePublishable = All (λ e. is_publishable e ≡ true)

changes_for-ok :
    (es : List Endpoint) (action : String)
    → ArePublishable es
    → changes_for es action ≡ ok (map (change_to action) es)
unfolding changes_for
changes_for-ok [] action h = refl
changes_for-ok (e ∷ es) action (p, h) =
    ground (arith, change_for_endpoint-ok e action p, changes_for-ok es action h)

changes_for-err :
    (es : List Endpoint) (action : String)
    → any (λ e. not (is_publishable e)) es ≡ true
    → is_ok (changes_for es action) ≡ false
unfolding changes_for
changes_for-err [] action h = cc
changes_for-err (e ∷ es) action h = elim (Bool-cases (is_publishable e)) [
  | inl p ↦ ground (arith, change_for_endpoint-ok e action p, changes_for-err es action)
  | inr p ↦ ground (arith, change_for_endpoint-err e action p)
]

deletes_for-ok :
    (expected es : List Endpoint)
    → ArePublishable (keep (λ e. not (is_expected expected e)) es)
    → deletes_for expected es
      ≡ ok (map (change_to delete_action) (keep (λ e. not (is_expected expected e)) es))
unfolding deletes_for
deletes_for-ok expected [] h = refl
deletes_for-ok expected (e ∷ es) h = elim (Bool-cases (is_expected expected e)) [
  | inl known ↦ rw known (deletes_for-ok expected es (rw known at h))
  | inr gone ↦
      let both : (is_publishable e ≡ true)
          × ArePublishable (keep (λ x. not (is_expected expected x)) es) =
        rw gone at h in
      rw (gone, change_for_endpoint-ok e delete_action both.0, deletes_for-ok expected es both.1)
]

-- Where the endpoints are publishable, the batch of Ensure is an UPSERT for each endpoint of the
-- record, in order, then a DELETE for each stale one, and that of Delete is a DELETE for each
-- endpoint of the record.
pub changes_of-ok :
    (r : DnsRecord) (zone_id : String)
    → ArePublishable r.spec.endpoints
    → ArePublishable (stale r zone_id)
    → (changes_of r zone_id upsert_action
        ≡ ok (
            map (change_to upsert_action) r.spec.endpoints
            ++ map (change_to delete_action) (stale r zone_id)))
      × (changes_of r zone_id delete_action ≡ ok (map (change_to delete_action) r.spec.endpoints))
unfolding changes_of
changes_of-ok r zone_id valid old = (
  ground (
    arith,
    changes_for-ok r.spec.endpoints upsert_action valid,
    deletes_for-ok r.spec.endpoints (endpoints_from_zone_status r.status.zones zone_id) old,
  ),
  ground (arith, changes_for-ok r.spec.endpoints delete_action valid),
)

changes_of-err :
    (r : DnsRecord) (zone_id action : String)
    → any (λ e. not (is_publishable e)) r.spec.endpoints ≡ true
    → is_ok (changes_of r zone_id action) ≡ false
unfolding changes_of
changes_of-err r zone_id action h = ground (arith, changes_for-err r.spec.endpoints action h)

pub changes_for_inv :
    (es : List Endpoint) (action : String) {cs : List Change}
    → changes_for es action ≡ ok cs
    → cs ≡ map (change_to action) es
unfolding changes_for
changes_for_inv [] action h = ground arith
changes_for_inv (e ∷ es) action h = elim (Bool-cases (is_publishable e)) [
  | inr bad ↦ absurd (ground (arith, change_for_endpoint-err e action bad))
  | inl good ↦ elim (Result-cases (changes_for es action)) [
    | inr bad ↦ absurd (ground (arith, change_for_endpoint-ok e action good))
    | inl (rest, done) ↦
        ground (arith, change_for_endpoint-ok e action good, changes_for_inv es action done)
  ]
]

deletes_for_inv :
    (expected es : List Endpoint) {cs : List Change}
    → deletes_for expected es ≡ ok cs
    → cs ≡ map (change_to delete_action) (keep (λ e. not (is_expected expected e)) es)
unfolding deletes_for
deletes_for_inv expected [] h = ground arith
deletes_for_inv expected (e ∷ es) h = elim (Result-cases (deletes_for expected es)) [
  | inr bad ↦ elim (Bool-cases (is_publishable e)) [
    | inr no_change ↦ absurd (ground (arith, change_for_endpoint-err e delete_action no_change))
    | inl good ↦ absurd (ground (arith, change_for_endpoint-ok e delete_action good))
  ]
  | inl (rest, done) ↦ elim (Bool-cases (is_publishable e)) [
    | inr no_change ↦
        ground (
          arith,
          change_for_endpoint-err e delete_action no_change,
          deletes_for_inv expected es done,
        )
    | inl good ↦
        ground
          (arith, change_for_endpoint-ok e delete_action good, deletes_for_inv expected es done)
  ]
]

changes_of_inv :
    (r : DnsRecord) (zone_id : String) {batch : List Change}
    → changes_of r zone_id upsert_action ≡ ok batch
    → batch
      ≡ map (change_to upsert_action) r.spec.endpoints
        ++ map (change_to delete_action) (stale r zone_id)
unfolding changes_of
changes_of_inv r zone_id h = elim (Result-cases (changes_for r.spec.endpoints upsert_action)) [
  | inr bad ↦ absurd (ground arith)
  | inl (changes, done) ↦
      elim (Result-cases
        (deletes_for r.spec.endpoints (endpoints_from_zone_status r.status.zones zone_id))) [
          | inr bad ↦ absurd (ground arith)
          | inl (deletes, gone) ↦ ground (
            arith,
            changes_for_inv r.spec.endpoints upsert_action done,
            deletes_for_inv r.spec.endpoints (endpoints_from_zone_status r.status.zones zone_id)
                gone,
          )
        ]
]

-- Where a SetID goes with the same name, type and set identifier in the endpoints of the record and in
-- those published last: the batch that Ensure sends, applied to a zone that holds nothing but what was
-- published last, leaves what the endpoints of the record put into an empty zone: each of them under
-- its name, type and set identifier, and nothing else.
pub changes_of-Zone :
    (naming : String → RecordKey) (r : DnsRecord) (zone_id : String) (batch : List Change)
    (z : Zone)
    → Named naming r.spec.endpoints
    → Named naming (endpoints_from_zone_status r.status.zones zone_id)
    → changes_of r zone_id upsert_action ≡ ok batch
    → ((k : RecordKey)
        → (has_key k (endpoints_from_zone_status r.status.zones zone_id) ≡ true) ⊎ (z k ≡ none))
    → (k : RecordKey)
    → apply_all batch z k ≡ apply_all (map (change_to upsert_action) r.spec.endpoints) (λ _. none) k
changes_of-Zone naming r zone_id batch z spec_named old_named sent published k =
    ap (λ b. apply_all b z k) (changes_of_inv r zone_id sent)
    ∙ batch-Zone naming r zone_id z spec_named old_named published k

-- Where an endpoint of the record has the SetID of a record set of the zone, and none has its name, type
-- and set identifier, the batch that Ensure sends leaves that record set as it is, so that the old one
-- stays when the name or the type of an endpoint is edited under the same set identifier.
pub changes_of-renamed :
    (r : DnsRecord) (zone_id : String) (batch : List Change) (z : Zone) (k : RecordKey)
    → changes_of r zone_id upsert_action ≡ ok batch
    → any (λ e. set_id e == id_of k) r.spec.endpoints ≡ true
    → has_key k r.spec.endpoints ≡ false
    → apply_all batch z k ≡ z k
changes_of-renamed r zone_id batch z k sent taken other =
    ap (λ b. apply_all b z k) (changes_of_inv r zone_id sent)
    ∙ ap (λ w. w k) (apply_all-append (map (change_to upsert_action) r.spec.endpoints) _ z)
    ∙ deletes_absent k (stale r zone_id)
        (apply_all (map (change_to upsert_action) r.spec.endpoints) z)
        (inl (
          has_key-expected k r.spec.endpoints (endpoints_from_zone_status r.status.zones zone_id)
            taken))
    ∙ upserts_absent k r.spec.endpoints z other

module _ {S : Type 0} (call : String → List Change → Exec S (Unit {0})) where
  pub submit-err :
      (r : DnsRecord) (zone_id : String) (changes : Result (List Change)) (s : S)
      → is_ok changes ≡ false
      → (is_ok (submit call r zone_id changes s).0 ≡ false)
        × ((submit call r zone_id changes s).1 ≡ s)
  unfolding submit
  submit-err r zone_id (ok changes) s h = cc
  submit-err r zone_id (err e) s h = (refl, refl)
  submit-err r zone_id panic s h = (refl, refl)

  -- One endpoint of the record that is not publishable makes Ensure and Delete fail as a whole: no
  -- call is made, so that nothing of the zone changes.
  pub change_invalid :
      (r : DnsRecord) (zone : DnsZone) (action : String) (s : S)
      → any (λ e. not (is_publishable e)) r.spec.endpoints ≡ true
      → (is_ok (change call r zone action s).0 ≡ false) × ((change call r zone action s).1 ≡ s)
  unfolding change update_record
  change_invalid r zone action s h = ground (
    arith,
    changes_of-err r zone.id action h,
    submit-err r zone.id (changes_of r zone.id action) s,
  )
