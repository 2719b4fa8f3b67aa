-- ===== src/DnsRecord/Stale.antt =====
-- What the status of a zone records after a call of the provider that failed.
use multi_cluster_traffic_co.Prelude.{
  sym, true, false, not, List, [], ◌∷◌, ◌==◌, ◌≡◌, refl, arith, eq_refl, keep, Bool-cases, inl, inr,
  All, Result, ok, panic, ◌≢◌, All-map, ◌⊎◌, ◌∙◌,
}
use multi_cluster_traffic_co.Api.Types.{DnsRecord, DnsZone, DnsZoneStatus, Endpoint}
use multi_cluster_traffic_co.Api.Endpoint.{set_id}
use multi_cluster_traffic_co.Aws.{is_expected, endpoints_from_zone_status}
use multi_cluster_traffic_co.Aws.Zone.{stale}
use multi_cluster_traffic_co.DnsRecord.Status.{zone_equal}
use multi_cluster_traffic_co.DnsRecord.Reconcile.{
  Reconciler, status_of, skips, publish_record_to_zones,
}
use multi_cluster_traffic_co.DnsRecord.Conditions.{HoldEndpoints, merge_statuses-HoldEndpoints}
use multi_cluster_traffic_co.DnsRecord.Comparison.{ById, ById-merge_statuses}
use multi_cluster_traffic_co.DnsRecord.Publication.{publish_record_to_zones_once}

endpoints_held :
    (zone : DnsZone) (es : List Endpoint) (statuses : List DnsZoneStatus)
    → ById zone statuses
    → HoldEndpoints zone es statuses
    → (endpoints_from_zone_status statuses zone.id ≡ es)
      ⊎ (endpoints_from_zone_status statuses zone.id ≡ [])
unfolding endpoints_from_zone_status
endpoints_held zone es [] by_id hold = inr refl
endpoints_held zone es (status ∷ statuses) (i, by_id) (h, hold) =
    elim (Bool-cases (status.dns_zone.id == zone.id)) [
      | inl own ↦ rw own (inl (h (i ∙ own)))
      | inr other ↦ rw other (endpoints_held zone es statuses by_id hold)
    ]

All-expected : (es : List Endpoint) → All (λ e. is_expected es e ≡ true) es
unfolding is_expected
All-expected [] = tt
All-expected (e ∷ es) =
    (ground (arith, eq_refl (set_id e)), All-map (λ x h. ground (arith, h)) es (All-expected es))

keep_nothing :
    (expected es : List Endpoint)
    → All (λ e. is_expected expected e ≡ true) es
    → keep (λ e. not (is_expected expected e)) es ≡ []
keep_nothing expected [] h = refl
keep_nothing expected (e ∷ es) (known, h) = rw known (keep_nothing expected es h)

module _ {S : Type 0} (reconciler : Reconciler S) (r : DnsRecord) (zone : DnsZone) where
  -- Where the zones of the statuses are told apart by their ids, and the zone is not skipped:
  -- once a round has called the provider for the zone, also when the call failed, the statuses
  -- hold no endpoint of the zone that the next batch would delete.
  pub stale-publish_record_to_zones :
      (s s' : S) (outcome : Result (Unit {0}))
      → zone_equal zone zone ≡ true
      → ById zone r.status.zones
      → skips r zone ≡ false
      → outcome ≢ panic
      → reconciler.dns_provider.ensure r zone s ≡ (outcome, s')
      → (statuses : List DnsZoneStatus) × (publish_record_to_zones reconciler (zone ∷ []) r s
          ≡ (ok statuses, s'))
        × (stale (record r { status = record r.status { zones = statuses } }) zone.id ≡ [])
  stale-publish_record_to_zones s s' outcome same by_id go settled called = (
    _,
    publish_record_to_zones_once reconciler r zone s s' outcome go settled called,
    elim (endpoints_held zone r.spec.endpoints _
        (ById-merge_statuses reconciler.clock (zone ∷ []) zone
          (status_of r zone outcome (reconciler.now 0)) r.status.zones
          (same ∙ sym (eq_refl zone.id)) by_id)
        (merge_statuses-HoldEndpoints reconciler.clock (zone ∷ []) zone _ r.spec.endpoints
          r.status.zones)) [
            | inl held ↦
                rw held
                  (keep_nothing r.spec.endpoints r.spec.endpoints (All-expected r.spec.endpoints))
            | inr empty ↦ rw empty refl
          ],
  )
