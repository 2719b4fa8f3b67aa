-- ===== src/DnsRecord/Deletion.antt =====
-- deleteRecord and the branch of Reconcile on a record that is to be deleted.
use multi_cluster_traffic_co.Prelude.{
  String, Bool, true, false, Option, none, some, List, [], ◌∷◌, ◌≡◌, refl, if◌then◌else◌,
  Bool-cases, inl, inr, ◌⊎◌, any, Option-cases, Error, Result, ok, err, pure, ◌>>=◌,
}
use multi_cluster_traffic_co.Text.{contains_text}
use multi_cluster_traffic_co.Api.Types.{DnsRecord, DnsZone, DnsZoneStatus}
use multi_cluster_traffic_co.DnsRecord.Status.{record_is_already_published_to_zone}
use multi_cluster_traffic_co.DnsRecord.Reconcile.{
  Reconciler, dns_record_finalizer, append_error, delete_from_zones, without_finalizer,
  finish_delete, reconcile_deleted,
}

-- What the provider answers for a zone: an error, or `none`.
abbrev pub answer : Option Error → Result (Unit {0})
answer none = ok tt
answer (some e) = err e

-- The errors for the zones to which the record is published, in order.
abbrev pub errors_of : DnsRecord → (DnsZone → Option Error) → List DnsZoneStatus → List Error
errors_of r outcome [] = []
errors_of r outcome (status ∷ zones) =
    let rest = errors_of r outcome zones in
    if record_is_already_published_to_zone r status.dns_zone
    then (elim (outcome status.dns_zone) [ none ↦ rest | some e ↦ e ∷ rest ])
    else rest

abbrev pub says_not_found : Error → Bool
says_not_found e = contains_text e.message "was not found"

module _ {S : Type 0} (reconciler : Reconciler S) (r : DnsRecord)
    (outcome : DnsZone → Option Error) where
  open reconciler use {client, dns_provider, new_aggregate}

  -- The provider's answers are fixed by `outcome`, and its calls are not part of the state.
  abbrev pub Answers : Type 0
  Answers = (zone : DnsZone) (s : S) → dns_provider.delete r zone s ≡ (answer (outcome zone), s)

  pub delete_from_zones-errors_of :
      (zones : List DnsZoneStatus) (s : S)
      → Answers
      → delete_from_zones reconciler r zones s ≡ (ok (errors_of r outcome zones), s)
  unfolding delete_from_zones append_error
  delete_from_zones-errors_of [] s answers = refl
  delete_from_zones-errors_of (status ∷ zones) s answers =
      elim (Bool-cases (record_is_already_published_to_zone r status.dns_zone)) [
        | inl published ↦ elim (Option-cases (outcome status.dns_zone)) [
          | inl fine ↦
              rw
                (
                  published,
                  answers status.dns_zone s,
                  fine,
                  delete_from_zones-errors_of zones s answers,
                )
                refl
          | inr (e, failed) ↦
              rw
                (
                  published,
                  answers status.dns_zone s,
                  failed,
                  delete_from_zones-errors_of zones s answers,
                )
                refl
        ]
        | inr free ↦ rw free (delete_from_zones-errors_of zones s answers)
      ]

  -- The aggregate of errors has "was not found" in its text if one of the errors has it.
  abbrev pub AggregatesText : Type 0
  AggregatesText =
      (e : Error) (errs : List Error)
      → says_not_found (new_aggregate (e ∷ errs)) ≡ any says_not_found (e ∷ errs)

  -- With fixed answers of the provider, and an aggregate that has "was not found" in its text if
  -- one of its errors has it: if an error of a zone says "was not found", or if there is no
  -- error, the finalizer is dropped, whatever the errors of the other zones are.
  pub reconcile_deleted_drops :
      (s : S)
      → Answers
      → AggregatesText
      → ((fs : List String) (f : String)
          → reconciler.remove_finalizer (reconciler.remove_finalizer fs f) f
            ≡ reconciler.remove_finalizer fs f)
      → (errors_of r outcome r.status.zones ≡ [])
        ⊎ (any says_not_found (errors_of r outcome r.status.zones) ≡ true)
      → reconcile_deleted reconciler r s
        ≡ (client.update (without_finalizer reconciler r) >>= λ _. pure tt) s
  unfolding reconcile_deleted finish_delete
  reconcile_deleted_drops s answers aggregates once h =
      rw (delete_from_zones-errors_of r.status.zones s answers)
        (drops (errors_of r outcome r.status.zones) h)
    where
      drops :
          (errs : List Error)
          → (errs ≡ []) ⊎ (any says_not_found errs ≡ true)
          → finish_delete reconciler r errs s
            ≡ (client.update (without_finalizer reconciler r) >>= λ _. pure tt) s
      drops [] h' = rw (once r.metadata.finalizers dns_record_finalizer) refl
      drops (e ∷ errs) (inl empty) = cc
      drops (e ∷ errs) (inr says) = rw (aggregates e errs, says) refl

  -- With the same answers and the same aggregates: if there are errors and none of them says "was
  -- not found", Reconcile returns their aggregate, so that it is called again, and leaves the
  -- record and its finalizer alone.
  pub reconcile_deleted_keeps :
      (s : S) (e : Error) (errs : List Error)
      → Answers
      → AggregatesText
      → errors_of r outcome r.status.zones ≡ e ∷ errs
      → any says_not_found (e ∷ errs) ≡ false
      → reconcile_deleted reconciler r s ≡ (err (new_aggregate (e ∷ errs)), s)
  unfolding reconcile_deleted finish_delete
  reconcile_deleted_keeps s e errs answers aggregates errors silent =
      rw (delete_from_zones-errors_of r.status.zones s answers, errors, aggregates e errs, silent)
        refl
