-- ===== src/DnsRecord/Removal.antt =====
-- The zone of a record that is deleted.
use multi_cluster_traffic_co.Prelude.{
  String, true, none, List, [], ◌∷◌, ◌≡◌, refl, arith, ap, sym, ◌∙◌, map, if◌then◌else◌, Bool-cases,
  inl, inr, ok, is_ok, Exec, Result-cases, pure, ◌>>=◌,
}
use multi_cluster_traffic_co.Api.Types.{
  Endpoint, DnsRecord, DnsRecordStatus, DnsRecordSpec, DnsZone, DnsZoneStatus, NamespacedName,
}
use multi_cluster_traffic_co.Aws.{
  Change, delete_action, upsert_action, changes_for, changes_of, submit, update_record, change,
}
use multi_cluster_traffic_co.Aws.Zone.{Zone, RecordKey, Named, apply_all, change_to, has_key}
use multi_cluster_traffic_co.Aws.Zone.Effects.{upserts_absent, deletes_absent, deletes_gone}
use multi_cluster_traffic_co.Aws.Batch.{changes_for_inv, submit-err}
use multi_cluster_traffic_co.DnsRecord.Status.{
  zone_equal, published_in, record_is_already_published_to_zone,
}
use multi_cluster_traffic_co.DnsRecord.Reconcile.{
  Reconciler, skips, append_error, delete_from_zones, finish_delete, reconcile_deleted,
  without_finalizer, reconcile, reconcile_found, is_deleted,
}
use multi_cluster_traffic_co.DnsRecord.Comparison.{CmpLaws}
use multi_cluster_traffic_co.DnsRecord.Route53.{Route53Laws, Exact, submit_applied, wrap_fine}
use multi_cluster_traffic_co.DnsRecord.Convergence.{World, Reach, with_aws}
use multi_cluster_traffic_co.DnsRecord.Convergence.Reachable.{Reach-Exact}

changes_of-delete :
    (r : DnsRecord) (zone_id : String) (batch : List Change)
    → changes_of r zone_id delete_action ≡ ok batch
    → batch ≡ map (change_to delete_action) r.spec.endpoints
unfolding changes_of
changes_of-delete r zone_id batch sent =
    elim (Result-cases (changes_for r.spec.endpoints delete_action)) [
      | inl (cs, done) ↦ ground (arith, changes_for_inv r.spec.endpoints delete_action done)
      | inr bad ↦ absurd (ground arith)
    ]

-- The zone without what stands under the keys of the endpoints.
abbrev pub without : List Endpoint → Zone → Zone
without es z k = if has_key k es then none else z k

deletes-without :
    (es : List Endpoint) (z : Zone) (k : RecordKey)
    → apply_all (map (change_to delete_action) es) z k ≡ without es z k
deletes-without es z k = elim (Bool-cases (has_key k es)) [
  | inl own ↦ rw own (deletes_gone k es z own)
  | inr other ↦ rw other (deletes_absent k es z (inl other))
]

Exact-without :
    (z : Zone) (r : DnsRecord) → Exact z r → (k : RecordKey) → without r.spec.endpoints z k ≡ none
Exact-without z r exact k = elim (Bool-cases (has_key k r.spec.endpoints)) [
  | inl own ↦ rw own refl
  | inr other ↦ rw other (exact k ∙ upserts_absent k r.spec.endpoints (λ _. none) other)
]

module _ {S : Type 0} (call : String → List Change → Exec S (Unit {0})) (zone_of : S → Zone)
    (r : DnsRecord) (zone : DnsZone) (laws : Route53Laws call zone_of zone.id) where
  -- A call of Delete that succeeds takes out of the zone what stands under the name, type and set
  -- identifier of each of the record's endpoints, and nothing else, so that what was published under
  -- another name, type or identifier stays.
  pub change-without :
      (s : S) (k : RecordKey)
      → is_ok (change call r zone delete_action s).0 ≡ true
      → zone_of (change call r zone delete_action s).1 k ≡ without r.spec.endpoints (zone_of s) k
  unfolding change update_record
  change-without s k fine = elim (Result-cases (changes_of r zone.id delete_action)) [
    | inl (batch, sent) ↦ rw sent (
        submit_applied call zone_of r zone laws batch s k (
          wrap_fine call zone_of r zone laws _ (submit call r zone.id (ok batch) s).0
            (rw sent at fine))
        ∙ ap (λ b. apply_all b (zone_of s) k) (changes_of-delete r zone.id batch sent)
        ∙ deletes-without r.spec.endpoints (zone_of s) k)
    | inr bad ↦
        absurd
          (ground (arith, submit-err call r zone.id (changes_of r zone.id delete_action) s bad))
  ]

delete_from_zones-one :
    {S : Type 0} (base : Reconciler S) (call : String → List Change → Exec S (Unit {0}))
    (r : DnsRecord) (status : DnsZoneStatus) (s s1 : S)
    → record_is_already_published_to_zone r status.dns_zone ≡ true
    → change call r status.dns_zone delete_action s ≡ (ok tt, s1)
    → delete_from_zones (with_aws base call) r (status ∷ []) s ≡ (ok [], s1)
unfolding delete_from_zones append_error
delete_from_zones-one base call r status s s1 published done = rw (published, done) refl

module _ {S : Type 0} (base : Reconciler S) (call : String → List Change → Exec S (Unit {0}))
    (zone_of : S → Zone) (zone : DnsZone) (naming : String → RecordKey)
    (own : zone_equal zone zone ≡ true) (equal : CmpLaws base.cmp_equal)
    (laws : Route53Laws call zone_of zone.id) where
  -- In a state that is reached from a fresh record over an empty zone, by edits, changes elsewhere and
  -- rounds that do not fail, where in the first record and in every edit a SetID goes with the same name,
  -- type and set identifier, statuses for which `cmp.Equal` holds agree, and in which the zone would be
  -- skipped: where the record, with the same spec, and a status for the zone alone, is read as one to be
  -- deleted, and Delete succeeds, Reconcile calls Delete once, after which the zone is empty, and then
  -- takes the finalizer out of the record.
  pub Reach-removed :
      (start u : World S) (request : NamespacedName) (r : DnsRecord) (status : DnsZoneStatus)
      (s s1 : S)
      → start.dns_record.status.zones ≡ []
      → Named naming start.dns_record.spec.endpoints
      → ((k : RecordKey) → zone_of start.state k ≡ none)
      → Reach base call zone_of zone naming start u
      → skips u.dns_record zone ≡ true
      → base.client.get request s ≡ (ok r, u.state)
      → is_deleted r ≡ true
      → r.spec ≡ u.dns_record.spec
      → r.status ≡ u.dns_record.status
      → r.status.zones ≡ status ∷ []
      → status.dns_zone ≡ zone
      → change call r zone delete_action u.state ≡ (ok tt, s1)
      → (reconcile (with_aws base call) request s
          ≡ (base.client.update (
                  without_finalizer (with_aws base call) (without_finalizer (with_aws base call) r))
                >>= λ _. pure tt)
              s1)
        × ((k : RecordKey) → zone_of s1 k ≡ none)
  unfolding reconcile reconcile_found reconcile_deleted finish_delete skips
      record_is_already_published_to_zone
  Reach-removed start u request r status s s1 fresh all_named empty reach skip got deleted spec
        statuses one here done =
      let published_zone : record_is_already_published_to_zone r zone ≡ true =
        ap (λ (x : DnsRecordStatus). published_in x.zones zone) statuses ∙ ground arith in
      let published : record_is_already_published_to_zone r status.dns_zone ≡ true =
        ap (λ z. record_is_already_published_to_zone r z) here ∙ published_zone in
      let deleted_there : change call r status.dns_zone delete_action u.state ≡ (ok tt, s1) =
        ap (λ z. change call r z delete_action u.state) here ∙ done in
      let exact : Exact (zone_of u.state) r = λ k.
        Reach-Exact base call zone_of zone naming own equal laws start u fresh all_named empty reach
          skip k
        ∙ ap
            (λ (x : DnsRecordSpec).
              apply_all (map (change_to upsert_action) x.endpoints) (λ _. none) k)
            (sym spec) in
      (
        rw
            (
              got,
              deleted,
              ap (λ zones. delete_from_zones (with_aws base call) r zones u.state) one
                  ∙ delete_from_zones-one base call r status u.state s1 published deleted_there,
            )
            refl,
        λ k.
            sym (ap (λ x. zone_of x.1 k) done)
            ∙ change-without call zone_of r zone laws u.state k (ap (λ x. is_ok x.0) done)
            ∙ Exact-without (zone_of u.state) r exact k,
      )
