-- ===== src/DnsRecord/Conditions.antt =====
-- mergeConditions and mergeStatuses: what the status of a zone says after an update.
use multi_cluster_traffic_co.Prelude.{
  ℕ, ◌+◌, Bool, true, some, List, [], ◌∷◌, ◌++◌, ◌==◌, ◌≡◌, refl, arith, eq_iff, eq_refl, nat_eq,
  if◌then◌else◌, Bool-cases, inl, inr, All, All-append,
}
use multi_cluster_traffic_co.Api.Types.{
  Endpoint, DnsZone, DnsZoneCondition, DnsZoneStatus, failed_condition_type,
}
use multi_cluster_traffic_co.DnsRecord.Status.{
  condition_false, condition_changed, failed_is_false, published_in, zone_equal, merge_into,
  is_addition, merge_updates, merge_conditions, merge_status, count_zone, merge_all, merge_statuses,
}

is_failed : DnsZoneCondition → Bool
is_failed c = c.type == failed_condition_type

merged_failed :
    (now : ℕ) (update : DnsZoneCondition) (conditions : List DnsZoneCondition)
    → update.type ≡ failed_condition_type
    → failed_is_false (
        merge_into now update conditions
        ++ (if is_addition update conditions
            then [] ++ (record update { last_transition_time = now }) ∷ []
            else []))
      ≡ some (update.status == condition_false)
unfolding failed_is_false merge_into is_addition condition_changed
merged_failed now update [] failed = rw failed refl
merged_failed now update (cond ∷ conditions) failed = ground (
  arith,
  merged_failed now update conditions failed,
  eq_refl failed_condition_type,
  eq_iff cond.status update.status,
)

-- After a merge of one condition of the type "Failed", whatever conditions there were, the first
-- condition of that type is False if and only if the merged one is.
pub failed_is_false-merge_conditions :
    (now : ℕ) (conditions : List DnsZoneCondition) (update : DnsZoneCondition)
    → update.type ≡ failed_condition_type
    → failed_is_false (merge_conditions now conditions (update ∷ []))
      ≡ some (update.status == condition_false)
unfolding merge_conditions merge_updates
failed_is_false-merge_conditions now conditions update failed =
    merged_failed now update conditions failed

-- The status of a round of publication, with one "Failed" condition.
abbrev pub round : DnsZone → DnsZoneCondition → List Endpoint → DnsZoneStatus
round zone c es = record { dns_zone = zone; conditions = c ∷ []; endpoints = es }

published_merged :
    (clock : ℕ → ℕ) (calls : ℕ) (zone : DnsZone) (c : DnsZoneCondition) (es : List Endpoint)
    (statuses : List DnsZoneStatus)
    → zone_equal zone zone ≡ true
    → c.type ≡ failed_condition_type
    → published_in
        (merge_status clock calls (round zone c es) statuses
          ++ (if nat_eq (count_zone zone statuses) 0 then [] ++ round zone c es ∷ [] else []))
        zone
      ≡ (c.status == condition_false)
unfolding published_in merge_status count_zone failed_is_false
published_merged clock calls zone c es [] same failed = rw (same, failed) refl
published_merged clock calls zone c es (status ∷ statuses) same failed =
    elim (Bool-cases (zone_equal status.dns_zone zone)) [
      | inl own ↦
          rw (own, failed_is_false-merge_conditions (clock calls) status.conditions c failed, own)
            refl
      | inr other ↦ ground (arith, published_merged clock calls zone c es statuses same failed)
    ]

-- After a merge of one zone's round, the zone counts as published if and only if the round's
-- condition has the status "False".
pub published_in-merge_statuses :
    (clock : ℕ → ℕ) (zones : List DnsZone) (zone : DnsZone) (c : DnsZoneCondition)
    (es : List Endpoint) (statuses : List DnsZoneStatus)
    → zone_equal zone zone ≡ true
    → c.type ≡ failed_condition_type
    → published_in (merge_statuses clock 0 zones statuses (round zone c es ∷ [])) zone
      ≡ (c.status == condition_false)
unfolding merge_statuses merge_all
published_in-merge_statuses clock zones zone c es statuses same failed =
    published_merged clock 0 zone c es statuses same failed

-- The statuses of the zone after a merge of its round.
abbrev pub HoldEndpoints : DnsZone → List Endpoint → List DnsZoneStatus → Type 0
HoldEndpoints zone es =
    All (λ status. zone_equal status.dns_zone zone ≡ true → status.endpoints ≡ es)

hold_merged :
    (clock : ℕ → ℕ) (calls : ℕ) (zone : DnsZone) (c : DnsZoneCondition) (es : List Endpoint)
    (statuses : List DnsZoneStatus)
    → HoldEndpoints zone es (merge_status clock calls (round zone c es) statuses)
unfolding merge_status
hold_merged clock calls zone c es [] = tt
hold_merged clock calls zone c es (status ∷ statuses) =
    elim (Bool-cases (zone_equal status.dns_zone zone)) [
      | inl own ↦ rw own ((λ _. refl), hold_merged clock (calls + 1) zone c es statuses)
      | inr other ↦ rw other ((λ own. ground arith), hold_merged clock calls zone c es statuses)
    ]

pub merge_statuses-HoldEndpoints :
    (clock : ℕ → ℕ) (zones : List DnsZone) (zone : DnsZone) (c : DnsZoneCondition)
    (es : List Endpoint) (statuses : List DnsZoneStatus)
    → HoldEndpoints zone es (merge_statuses clock 0 zones statuses (round zone c es ∷ []))
unfolding merge_statuses merge_all
merge_statuses-HoldEndpoints clock zones zone c es statuses =
    All-append _ (merge_status clock 0 (round zone c es) statuses) _
      (hold_merged clock 0 zone c es statuses)
      (elim (Bool-cases (nat_eq (count_zone zone statuses) 0)) [
        | inl none_yet ↦ rw none_yet ((λ _. refl), tt)
        | inr some_yet ↦ rw some_yet tt
      ])
