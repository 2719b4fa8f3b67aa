-- ===== src/DnsRecord/Convergence/Tracking.antt =====
-- The steps of a DNSRecord and its zone, and what each keeps.
use multi_cluster_traffic_co.Prelude.{
  ℕ, String, true, false, not, ◌||◌, List, [], ◌∷◌, ◌==◌, ◌≡◌, ◌≢◌, refl, sym, ap, ◌∙◌, arith,
  nat_eq, eq_refl, Bool-cases, inl, inr, All, any, ◌⊎◌, subst, none, Result, ok, panic, is_ok, Exec,
}
use multi_cluster_traffic_co.Api.Types.{Endpoint, DnsRecord, DnsZone, DnsZoneStatus}
use multi_cluster_traffic_co.Aws.{Change, upsert_action, change, endpoints_from_zone_status}
use multi_cluster_traffic_co.Aws.Zone.{Zone, RecordKey, Named, keys, id_of, same_key}
use multi_cluster_traffic_co.DnsRecord.Status.{zone_equal, published_in, merge_statuses}
use multi_cluster_traffic_co.DnsRecord.Reconcile.{
  Reconciler, status_of, skips, publish_record_to_zones, with_statuses,
  dns_zone_status_slices_equal,
}
use multi_cluster_traffic_co.DnsRecord.Conditions.{HoldEndpoints, merge_statuses-HoldEndpoints}
use multi_cluster_traffic_co.DnsRecord.Publication.{
  publish_record_to_zones_quiet, publish_record_to_zones_once, published_in-publish_record_to_zones,
}
use multi_cluster_traffic_co.DnsRecord.Comparison.{
  ById, ById-merge_statuses, CmpLaws, Agree-keys, by_type,
}
use multi_cluster_traffic_co.DnsRecord.Route53.{Route53Laws, Exact, Exact-Covered, change-Exact}
use multi_cluster_traffic_co.DnsRecord.Convergence.{
  World, edited, with_aws, Step, edit, elsewhere, skip_round, round, Reach, here, next, IsTracked,
}

-- A status of the zone, where there is one, holds the endpoints.
endpoints_published :
    (zone : DnsZone) (es : List Endpoint) (statuses : List DnsZoneStatus)
    → ById zone statuses
    → HoldEndpoints zone es statuses
    → published_in statuses zone ≡ true
    → endpoints_from_zone_status statuses zone.id ≡ es
unfolding endpoints_from_zone_status published_in
endpoints_published zone es [] by_id hold published = cc
endpoints_published zone es (status ∷ statuses) (i, by_id) (h, hold) published =
    elim (Bool-cases (status.dns_zone.id == zone.id)) [
      | inl own ↦ rw own (h (i ∙ own))
      | inr other ↦
          rw other (endpoints_published zone es statuses by_id hold (rw (i ∙ other) at published))
    ]

module _ {S : Type 0} (base : Reconciler S) (call : String → List Change → Exec S (Unit {0}))
    (zone_of : S → Zone) (zone : DnsZone) (naming : String → RecordKey) where
  module _ (equal : CmpLaws base.cmp_equal) (r : DnsRecord) (statuses : List DnsZoneStatus) where
    with_statuses_keeps :
        ((with_statuses (with_aws base call) r statuses).spec ≡ r.spec)
        × (keys (
              endpoints_from_zone_status
                (with_statuses (with_aws base call) r statuses).status.zones
                zone.id)
            ≡ keys (endpoints_from_zone_status statuses zone.id))
    unfolding with_statuses dns_zone_status_slices_equal
    with_statuses_keeps = elim (Bool-cases (base.cmp_equal by_type statuses r.status.zones)) [
      | inl eq ↦ (
        ground arith,
        elim (Bool-cases (nat_eq r.status.observed_generation r.metadata.generation)) [
          | inl seen ↦
              rw (eq, seen)
                (sym (
                  Agree-keys zone.id statuses r.status.zones
                    (equal.agree statuses r.status.zones eq)))
          | inr unseen ↦ rw (eq, unseen) refl
        ],
      )
      | inr ne ↦ (ground arith, ground arith)
    ]

    with_statuses-ById :
        ById zone r.status.zones
        → ById zone statuses
        → ById zone (with_statuses (with_aws base call) r statuses).status.zones
    unfolding with_statuses
    with_statuses-ById old new =
        elim (Bool-cases (
          not (dns_zone_status_slices_equal (with_aws base call) statuses r.status.zones)
          || not (nat_eq r.status.observed_generation r.metadata.generation))) [
            | inl changed ↦ rw changed new
            | inr kept ↦ rw kept old
          ]

    -- A record whose new statuses hold its endpoints, over an exact zone, is tracked.
    IsTracked-Exact :
        (s : S)
        → ById zone r.status.zones
        → ById zone statuses
        → Named naming r.spec.endpoints
        → endpoints_from_zone_status statuses zone.id ≡ r.spec.endpoints
        → Exact (zone_of s) r
        → IsTracked base call zone_of zone naming
            (record { dns_record = with_statuses (with_aws base call) r statuses; state = s })
    IsTracked-Exact s old new named held exact =
        let (spec, endpoints) = with_statuses_keeps in
        let same : Exact (zone_of s) (with_statuses (with_aws base call) r statuses) =
          λ k. rw spec (exact k) in
        let published : keys (
              endpoints_from_zone_status
                (with_statuses (with_aws base call) r statuses).status.zones zone.id)
            ≡ keys (with_statuses (with_aws base call) r statuses).spec.endpoints =
          endpoints ∙ ap keys held ∙ sym (ap (λ x. keys x.endpoints) spec) in
        let still : Named naming (with_statuses (with_aws base call) r statuses).spec.endpoints =
          subst (λ x. Named naming x.endpoints) (sym spec) named in
        record {
          by_id = with_statuses-ById old new;
          named = still;
          named_before = subst (All (λ k. k ≡ naming (id_of k))) (sym published) still;
          covered =
              Exact-Covered (zone_of s) (with_statuses (with_aws base call) r statuses) _ zone.id
                same published;
          exact = λ _. same;
        }

  module _ (own : zone_equal zone zone ≡ true) (equal : CmpLaws base.cmp_equal)
      (laws : Route53Laws call zone_of zone.id) where
    round-IsTracked :
        (w : World S) (statuses : List DnsZoneStatus) (s : S)
        → IsTracked base call zone_of zone naming w
        → skips w.dns_record zone ≡ false
        → is_ok (change call w.dns_record zone upsert_action w.state).0 ≡ true
        → publish_record_to_zones (with_aws base call) (zone ∷ []) w.dns_record w.state
          ≡ (ok statuses, s)
        → IsTracked base call zone_of zone naming (record {
          dns_record = with_statuses (with_aws base call) w.dns_record statuses;
          state = s;
        })
    round-IsTracked w statuses s tracked go fine published =
        let r = w.dns_record in
        let outcome = (change call r zone upsert_action w.state).0 in
        let s' = (change call r zone upsert_action w.state).1 in
        let settled : outcome ≢ panic = λ panics. ground (arith, panics) in
        let update = status_of r zone outcome (base.now 0) in
        let merged = merge_statuses base.clock 0 (zone ∷ []) r.status.zones (update ∷ []) in
        let once : publish_record_to_zones (with_aws base call) (zone ∷ []) r w.state
            ≡ (ok merged, s') =
          publish_record_to_zones_once (with_aws base call) r zone w.state s' outcome go settled
            refl in
        let same : ◌≡◌ {A = Result (List DnsZoneStatus) × S} (ok statuses, s) (ok merged, s') =
          sym published ∙ once in
        let same_statuses : statuses ≡ merged = ground arith in
        let same_state : s ≡ s' = ground arith in
        let by_id : ById zone merged =
          ById-merge_statuses base.clock (zone ∷ []) zone update r.status.zones
            (own ∙ sym (eq_refl zone.id)) tracked.by_id in
        let held : endpoints_from_zone_status merged zone.id ≡ r.spec.endpoints =
          endpoints_published zone r.spec.endpoints merged by_id
            (merge_statuses-HoldEndpoints base.clock (zone ∷ []) zone _ r.spec.endpoints
              r.status.zones)
            (published_in-publish_record_to_zones (with_aws base call) r zone outcome (base.now 0)
                own settled
              ∙ fine) in
        rw (same_statuses, same_state)
          (IsTracked-Exact equal r merged s' tracked.by_id by_id tracked.named held (
            change-Exact call zone_of r zone laws naming w.state tracked.named tracked.named_before
              tracked.covered fine))

    skip_round-IsTracked :
        (w : World S) (statuses : List DnsZoneStatus) (s : S)
        → IsTracked base call zone_of zone naming w
        → skips w.dns_record zone ≡ true
        → publish_record_to_zones (with_aws base call) (zone ∷ []) w.dns_record w.state
          ≡ (ok statuses, s)
        → IsTracked base call zone_of zone naming (record {
          dns_record = with_statuses (with_aws base call) w.dns_record statuses;
          state = s;
        })
    skip_round-IsTracked w statuses s tracked skip published =
        let r = w.dns_record in
        let quiet : ◌≡◌ {A = Result (List DnsZoneStatus) × S} (ok statuses, s)
            (ok r.status.zones, w.state) =
          sym published
          ∙ publish_record_to_zones_quiet (with_aws base call) r (zone ∷ []) w.state (skip, tt) in
        let same_statuses : statuses ≡ r.status.zones = ground arith in
        let same_state : s ≡ w.state = ground arith in
        let (spec, endpoints) = with_statuses_keeps equal r r.status.zones in
        rw (same_statuses, same_state)
          (record {
            by_id = with_statuses-ById equal r r.status.zones tracked.by_id tracked.by_id;
            named = subst (λ x. Named naming x.endpoints) (sym spec) tracked.named;
            named_before =
                subst (All (λ k. k ≡ naming (id_of k))) (sym endpoints) tracked.named_before;
            covered = λ k.
                subst (λ ks. (any (λ x. same_key x k) ks ≡ true) ⊎ (zone_of w.state k ≡ none))
                  (sym endpoints) (tracked.covered k);
            exact = λ _ k. rw spec (tracked.exact skip k);
          })

    edited-IsTracked :
        (w : World S) (es : List Endpoint) (generation : ℕ)
        → IsTracked base call zone_of zone naming w
        → nat_eq generation w.dns_record.status.observed_generation ≡ false
        → Named naming es
        → IsTracked base call zone_of zone naming
            (record w { dns_record = edited w.dns_record es generation })
    unfolding skips
    edited-IsTracked w es generation tracked unseen all_named = record {
      by_id = tracked.by_id;
      named = all_named;
      named_before = tracked.named_before;
      covered = tracked.covered;
      exact = λ skip. absurd (ground (arith, unseen, skip));
    }

    elsewhere-IsTracked :
        (w : World S) (s : S)
        → IsTracked base call zone_of zone naming w
        → ((k : RecordKey) → zone_of s k ≡ zone_of w.state k)
        → IsTracked base call zone_of zone naming (record w { state = s })
    elsewhere-IsTracked w s tracked same = record {
      by_id = tracked.by_id;
      named = tracked.named;
      named_before = tracked.named_before;
      covered = λ k. rw (same k) (tracked.covered k);
      exact = λ skip k. same k ∙ tracked.exact skip k;
    }

    Step-IsTracked :
        {w u : World S}
        → Step base call zone_of zone naming w u
        → IsTracked base call zone_of zone naming w
        → IsTracked base call zone_of zone naming u
    Step-IsTracked {w} (edit es generation unseen all_named) tracked =
        edited-IsTracked w es generation tracked unseen all_named
    Step-IsTracked {w} (elsewhere s same) tracked = elsewhere-IsTracked w s tracked same
    Step-IsTracked {w} (skip_round statuses s skip published) tracked =
        skip_round-IsTracked w statuses s tracked skip published
    Step-IsTracked {w} (round statuses s go fine published) tracked =
        round-IsTracked w statuses s tracked go fine published

    pub Reach-IsTracked :
        {start w : World S}
        → IsTracked base call zone_of zone naming start
        → Reach base call zone_of zone naming start w
        → IsTracked base call zone_of zone naming w
    Reach-IsTracked tracked here = tracked
    Reach-IsTracked tracked (next reach step) = Step-IsTracked step (Reach-IsTracked tracked reach)
