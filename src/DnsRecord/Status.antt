-- ===== src/DnsRecord/Status.antt =====
-- The status of a DNSRecord in its zones: `recordIsAlreadyPublishedToZone`, `mergeStatuses` and
-- `mergeConditions`.
use multi_cluster_traffic_co.Prelude.{
  ℕ, ◌+◌, String, Bool, true, false, not, ◌&&◌, ◌||◌, Option, none, some, List, [], ◌∷◌, ◌++◌, ◌==◌,
  length, nat_eq, if◌then◌else◌,
}
use multi_cluster_traffic_co.Prelude.StringMap.{StringMap, lookup}
use multi_cluster_traffic_co.Api.Types.{
  DnsRecord, DnsZone, DnsZoneCondition, DnsZoneStatus, failed_condition_type,
}

abbrev pub condition_true : String
condition_true = "True"

abbrev pub condition_false : String
condition_false = "False"

abbrev pub condition_unknown : String
condition_unknown = "Unknown"

-- Every entry of the first map is in the second.
unfoldable pub map_within : StringMap → StringMap → Bool
map_within [] m = true
map_within ((k, v) ∷ rest) m =
    (elim (lookup k m) [ none ↦ false | some w ↦ w == v ]) && map_within rest m

-- `reflect.DeepEqual` and `cmp.Equal` on the tags: two nil maps, or two maps of as many entries, each
-- of which is in the other.
unfoldable pub tags_equal : Option StringMap → Option StringMap → Bool
unfolding map_within
tags_equal none none = true
tags_equal (some m) (some n) = nat_eq (length m) (length n) && map_within m n
tags_equal _ _ = false

-- The same on zones.
unfoldable pub zone_equal : DnsZone → DnsZone → Bool
unfolding tags_equal
zone_equal a b = a.id == b.id && tags_equal a.tags b.tags

-- The inner loop of `recordIsAlreadyPublishedToZone`: the answer of the first "Failed" condition.
unfoldable pub failed_is_false : List DnsZoneCondition → Option Bool
failed_is_false [] = none
failed_is_false (condition ∷ conditions) =
    if condition.type == failed_condition_type
    then some (condition.status == condition_false)
    else failed_is_false conditions

-- The outer loop: a zone without such a condition is passed over.
unfoldable pub published_in : List DnsZoneStatus → DnsZone → Bool
unfolding failed_is_false
published_in [] zone = false
published_in (zone_in_status ∷ zones) zone =
    let rest = published_in zones zone in
    if zone_equal zone_in_status.dns_zone zone
    then (elim (failed_is_false zone_in_status.conditions) [ none ↦ rest | some b ↦ b ])
    else rest

-- recordIsAlreadyPublishedToZone
unfoldable pub record_is_already_published_to_zone : DnsRecord → DnsZone → Bool
unfolding published_in
record_is_already_published_to_zone r zone = published_in r.status.zones zone

-- conditionChanged
unfoldable pub condition_changed : DnsZoneCondition → DnsZoneCondition → Bool
condition_changed a b = not (a.status == b.status) || not (a.reason == b.reason)

-- The inner loop of `mergeConditions`: a changed condition of the update's type is overwritten, and
-- the loop ends there.
unfoldable pub merge_into : ℕ → DnsZoneCondition → List DnsZoneCondition → List DnsZoneCondition
unfolding condition_changed
merge_into now update [] = []
merge_into now update (cond ∷ conditions) =
    let rest = cond ∷ merge_into now update conditions in
    if cond.type == update.type && condition_changed cond update
    then record cond {
      status = update.status;
      reason = update.reason;
      message = update.message;
      last_transition_time = now;
    }
      ∷ conditions
    else rest

-- `add` after the inner loop: no condition has the type of the update.
unfoldable pub is_addition : DnsZoneCondition → List DnsZoneCondition → Bool
is_addition update [] = true
is_addition update (cond ∷ conditions) =
    if cond.type == update.type then false else is_addition update conditions

-- The outer loop of `mergeConditions`, at the clock reading `now`.
unfoldable pub merge_updates :
    ℕ
    → List DnsZoneCondition
    → List DnsZoneCondition
    → List DnsZoneCondition
    → List DnsZoneCondition
unfolding merge_into is_addition
merge_updates now conditions [] additions = conditions ++ additions
merge_updates now conditions (update ∷ updates) additions =
    merge_updates now (merge_into now update conditions) updates (
      if is_addition update conditions
      then additions ++ (record update { last_transition_time = now }) ∷ []
      else additions)

-- mergeConditions
unfoldable pub merge_conditions :
    ℕ → List DnsZoneCondition → List DnsZoneCondition → List DnsZoneCondition
unfolding merge_updates
merge_conditions now conditions updates = merge_updates now conditions updates []

-- The inner loop of `mergeStatuses`: every status of the update's zone takes its conditions and its
-- endpoints. The clock is read once for each; `calls` counts the readings so far.
unfoldable pub merge_status : (ℕ → ℕ) → ℕ → DnsZoneStatus → List DnsZoneStatus → List DnsZoneStatus
merge_status clock calls update [] = []
merge_status clock calls update (status ∷ statuses) =
    let taken =
      record status {
        conditions = merge_conditions (clock calls) status.conditions update.conditions;
        endpoints = update.endpoints;
      }
      ∷ merge_status clock (calls + 1) update statuses in
    let kept = status ∷ merge_status clock calls update statuses in
    if zone_equal status.dns_zone update.dns_zone then taken else kept

-- How many statuses are of the zone.
unfoldable pub count_zone : DnsZone → List DnsZoneStatus → ℕ
count_zone zone [] = 0
count_zone zone (status ∷ statuses) =
    (if zone_equal status.dns_zone zone then 1 else 0) + count_zone zone statuses

-- The outer loop of `mergeStatuses`: an update that no status takes is added at the end.
unfoldable pub merge_all :
    (ℕ → ℕ) → ℕ → List DnsZoneStatus → List DnsZoneStatus → List DnsZoneStatus → List DnsZoneStatus
unfolding merge_status count_zone
merge_all clock calls statuses [] additions = statuses ++ additions
merge_all clock calls statuses (update ∷ updates) additions =
    merge_all clock (calls + count_zone update.dns_zone statuses)
      (merge_status clock calls update statuses) updates
      (if nat_eq (count_zone update.dns_zone statuses) 0
        then additions ++ update ∷ []
        else additions)

-- mergeStatuses, which does not read its first argument.
unfoldable pub merge_statuses :
    (ℕ → ℕ) → ℕ → List DnsZone → List DnsZoneStatus → List DnsZoneStatus → List DnsZoneStatus
unfolding merge_all
merge_statuses clock calls zones statuses updates = merge_all clock calls statuses updates []
