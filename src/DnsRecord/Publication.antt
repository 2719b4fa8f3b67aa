-- ===== src/DnsRecord/Publication.antt =====
-- publishRecordToZones: when a zone is published, and what the status says afterwards.
use multi_cluster_traffic_co.Prelude.{
  ℕ, Bool, true, sym, eq_refl, false, List, [], ◌∷◌, ◌==◌, ◌≡◌, ◌≢◌, refl, arith, nat_eq,
  Bool-cases, inl, inr, ◌∙◌, All, append-nil, Result, ok, err, panic, is_ok, pure, ◌>>=◌,
}
use multi_cluster_traffic_co.Api.Types.{
  DnsRecord, DnsZone, DnsZoneStatus, NamespacedName, failed_condition_type,
}
use multi_cluster_traffic_co.DnsRecord.Status.{
  condition_false, published_in, zone_equal, merge_all, merge_statuses,
  record_is_already_published_to_zone,
}
use multi_cluster_traffic_co.DnsRecord.Reconcile.{
  Reconciler, condition_of, status_of, skips, append_status, publish_zones, publish_record_to_zones,
  with_statuses, dns_zone_status_slices_equal, dns_record_finalizer, is_deleted, ensure_finalizer,
  reconcile_live, reconcile_found, reconcile,
}
use multi_cluster_traffic_co.DnsRecord.Comparison.{
  CmpLaws, ById, ById-merge_statuses, Agree-published_in,
}
use multi_cluster_traffic_co.DnsRecord.Conditions.{published_in-merge_statuses}

module _ {S : Type 0} (reconciler : Reconciler S) (r : DnsRecord) where
  open reconciler use {dns_provider, clock, cmp_equal}

  publish_zones_skipped :
      (calls : ℕ) (zones : List DnsZone) (s : S)
      → All (λ zone. skips r zone ≡ true) zones
      → publish_zones reconciler r calls zones s ≡ (ok [], s)
  unfolding publish_zones
  publish_zones_skipped calls [] s h = refl
  publish_zones_skipped calls (zone ∷ zones) s (skip, h) =
      rw skip (publish_zones_skipped calls zones s h)

  -- Where every zone is published and the generation observed, no call of the provider is made, and
  -- the statuses stay as they are.
  pub publish_record_to_zones_quiet :
      (zones : List DnsZone) (s : S)
      → All (λ zone. skips r zone ≡ true) zones
      → publish_record_to_zones reconciler zones r s ≡ (ok r.status.zones, s)
  unfolding publish_record_to_zones merge_statuses merge_all
  publish_record_to_zones_quiet zones s h = rw (publish_zones_skipped 0 zones s h, append-nil) refl

  -- A zone that is not skipped gets one call of the provider, and its round is merged.
  pub publish_record_to_zones_once :
      (zone : DnsZone) (s s' : S) (outcome : Result (Unit {0}))
      → skips r zone ≡ false
      → outcome ≢ panic
      → dns_provider.ensure r zone s ≡ (outcome, s')
      → publish_record_to_zones reconciler (zone ∷ []) r s ≡ (
        ok (
            merge_statuses clock 0
              (zone ∷ [])
              r.status.zones
              (status_of r zone outcome (reconciler.now 0) ∷ [])),
        s',
      )
  unfolding publish_record_to_zones publish_zones append_status
  publish_record_to_zones_once zone s s' (ok done) go settled called = rw (go, called) refl
  publish_record_to_zones_once zone s s' (err e) go settled called = rw (go, called) refl
  publish_record_to_zones_once zone s s' panic go settled called = elim (settled refl) [ ]

  settled_condition :
      (published : Bool) (outcome : Result (Unit {0})) (time : ℕ)
      → outcome ≢ panic
      → ((condition_of published outcome time).type ≡ failed_condition_type)
        × (((condition_of published outcome time).status == condition_false) ≡ is_ok outcome)
  unfolding condition_of
  settled_condition published (ok done) time settled = (refl, refl)
  settled_condition published (err e) time settled = (refl, refl)
  settled_condition published panic time settled = elim (settled refl) [ ]

  -- The zone then counts as published if and only if the call succeeded.
  pub published_in-publish_record_to_zones :
      (zone : DnsZone) (outcome : Result (Unit {0})) (time : ℕ)
      → zone_equal zone zone ≡ true
      → outcome ≢ panic
      → published_in
          (merge_statuses clock 0 (zone ∷ []) r.status.zones (status_of r zone outcome time ∷ []))
          zone
        ≡ is_ok outcome
  published_in-publish_record_to_zones zone outcome time same settled =
      let condition = condition_of (record_is_already_published_to_zone r zone) outcome time in
      let (failed, status) =
        settled_condition (record_is_already_published_to_zone r zone) outcome time settled in
      published_in-merge_statuses clock (zone ∷ []) zone condition r.spec.endpoints r.status.zones
        same failed
      ∙ status

  -- A record that takes such statuses is skipped in the next round if and only if the call
  -- succeeded, so that a failed call is made again.
  skips-with_statuses :
      (zone : DnsZone) (statuses : List DnsZoneStatus) (b : Bool)
      → published_in statuses zone ≡ b
      → (dns_zone_status_slices_equal reconciler statuses r.status.zones ≡ true
          → published_in statuses zone ≡ published_in r.status.zones zone)
      → skips (with_statuses reconciler r statuses) zone ≡ b
  unfolding skips with_statuses record_is_already_published_to_zone
  skips-with_statuses zone statuses b published same =
      elim (Bool-cases (dns_zone_status_slices_equal reconciler statuses r.status.zones)) [
        | inl eq ↦ ground (arith, published, same eq)
        | inr ne ↦ ground (arith, published, ne)
      ]

  -- What one round makes of a zone that is not skipped, where the zones of the statuses are told apart
  -- by their ids, and `cmp.Equal` holds of statuses only if they agree on the ids of the zones and on
  -- the conditions up to their order: the provider is called once, and the record with the new statuses
  -- is skipped from then on if the call succeeded, and is not skipped, so that the call is made again,
  -- if it failed.
  pub skips-publish_record_to_zones :
      (zone : DnsZone) (s s' : S) (outcome : Result (Unit {0}))
      → CmpLaws cmp_equal
      → zone_equal zone zone ≡ true
      → ById zone r.status.zones
      → skips r zone ≡ false
      → outcome ≢ panic
      → dns_provider.ensure r zone s ≡ (outcome, s')
      → (statuses : List DnsZoneStatus) × (publish_record_to_zones reconciler (zone ∷ []) r s
          ≡ (ok statuses, s'))
        × (skips (with_statuses reconciler r statuses) zone ≡ is_ok outcome)
  unfolding dns_zone_status_slices_equal
  skips-publish_record_to_zones zone s s' outcome laws same by_id go settled called =
      let merged =
        merge_statuses clock 0 (zone ∷ []) r.status.zones
          (status_of r zone outcome (reconciler.now 0) ∷ []) in
      (
        merged,
        publish_record_to_zones_once zone s s' outcome go settled called,
        skips-with_statuses zone merged (is_ok outcome)
            (published_in-publish_record_to_zones zone outcome (reconciler.now 0) same settled)
            (λ equal.
              Agree-published_in zone merged r.status.zones (laws.agree merged r.status.zones equal)
                (ById-merge_statuses clock (zone ∷ []) zone
                  (status_of r zone outcome (reconciler.now 0)) r.status.zones
                  (same ∙ sym (eq_refl zone.id)) by_id)
                by_id),
      )

-- Reconcile on a record that is stored, not deleted, has the finalizer, and is published to every
-- zone at its generation calls no provider and writes the record back as it is.
pub reconcile_quiet :
    {S : Type 0} (reconciler : Reconciler S) (k : NamespacedName) (r : DnsRecord) (s s' : S)
    → reconciler.client.get k s ≡ (ok r, s')
    → is_deleted r ≡ false
    → reconciler.contains_finalizer r.metadata.finalizers dns_record_finalizer ≡ true
    → All (λ zone. skips r zone ≡ true) reconciler.dns_zones
    → dns_zone_status_slices_equal reconciler r.status.zones r.status.zones ≡ true
    → nat_eq r.status.observed_generation r.metadata.generation ≡ true
    → reconcile reconciler k s ≡ (reconciler.client.update_status r >>= λ _. pure tt) s'
unfolding reconcile reconcile_found reconcile_live ensure_finalizer with_statuses
reconcile_quiet reconciler k r s s' found live has_finalizer skip same observed =
    rw
      (
        found,
        live,
        has_finalizer,
        publish_record_to_zones_quiet reconciler r reconciler.dns_zones s' skip,
        same,
        observed,
      )
      refl
