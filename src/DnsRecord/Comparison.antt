-- ===== src/DnsRecord/Comparison.antt =====
-- `cmp.Equal` on statuses, as `dnsZoneStatusSlicesEqual` calls it: what equal statuses have in common.
use text.Mathlib.TextPositions.{compare_refl}
use multi_cluster_traffic_co.Prelude.{
  String, Bool, true, false, List, [], ◌∷◌, ◌==◌, ◌≡◌, refl, sym, ap, ◌∙◌, eq_iff, Bool-cases, inl,
  inr, if◌then◌else◌, Option, none, some, All, ℕ, ◌+◌, nat_eq, All-append,
}
use multi_cluster_traffic_co.Text.{text_less}
use multi_cluster_traffic_co.Api.Types.{
  DnsZone, DnsZoneCondition, DnsZoneStatus, failed_condition_type,
}
use multi_cluster_traffic_co.Aws.{endpoints_from_zone_status}
use multi_cluster_traffic_co.Aws.Zone.{keys}
use multi_cluster_traffic_co.DnsRecord.Status.{
  zone_equal, failed_is_false, published_in, condition_false, merge_status, merge_statuses,
  merge_all, count_zone,
}

-- Statuses whose zones are told apart by their id alone, as those without tags are.
abbrev pub ById : DnsZone → List DnsZoneStatus → Type 0
ById zone = All (λ status. zone_equal status.dns_zone zone ≡ (status.dns_zone.id == zone.id))

-- A stable sort by a comparison, as `SortSlices` sorts.
abbrev pub insert_by :
    (DnsZoneCondition → DnsZoneCondition → Bool)
    → DnsZoneCondition
    → List DnsZoneCondition
    → List DnsZoneCondition
insert_by less c [] = c ∷ []
insert_by less c (d ∷ ds) = if less d c then d ∷ insert_by less c ds else c ∷ d ∷ ds

abbrev pub sort_by :
    (DnsZoneCondition → DnsZoneCondition → Bool) → List DnsZoneCondition → List DnsZoneCondition
sort_by less [] = []
sort_by less (c ∷ cs) = insert_by less c (sort_by less cs)

-- What two equal statuses have in common: the id of the zone, the sorted conditions, and the names,
-- types and set identifiers of the endpoints. Their tags, and the labels and targets of an endpoint, may
-- be nil in one and empty in the other.
abbrev pub Agree :
    (DnsZoneCondition → DnsZoneCondition → Bool) → List DnsZoneStatus → List DnsZoneStatus → Type 0
Agree less [] [] = Unit
Agree less (a ∷ xs) (b ∷ ys) =
    (a.dns_zone.id ≡ b.dns_zone.id)
    × (sort_by less a.conditions ≡ sort_by less b.conditions)
    × (keys a.endpoints ≡ keys b.endpoints)
    × Agree less xs ys
Agree less _ _ = ⊥

-- The comparison that `dnsZoneStatusSlicesEqual` gives to `SortSlices`.
abbrev pub by_type : DnsZoneCondition → DnsZoneCondition → Bool
by_type c d = text_less c.type d.type

-- `cmp.Equal` holds, with the options of `dnsZoneStatusSlicesEqual`, only of statuses that agree.
pub record CmpLaws
    (cmp_equal : (DnsZoneCondition → DnsZoneCondition → Bool)
      → List DnsZoneStatus
      → List DnsZoneStatus
      → Bool)
    : Type 0 where
  pub agree : (a b : List DnsZoneStatus) → cmp_equal by_type a b ≡ true → Agree by_type a b

by_type_apart :
    (c d : DnsZoneCondition)
    → by_type d c ≡ true
    → c.type ≡ failed_condition_type
    → (d.type == failed_condition_type) ≡ false
by_type_apart c d less failed = elim (Bool-cases (d.type == failed_condition_type)) [
  | inr other ↦ other
  | inl own ↦
      let same : d.type ≡ c.type = (eq_iff d.type failed_condition_type).0 own ∙ sym failed in
      let both : text_less c.type c.type ≡ true = ap (λ x. text_less x c.type) (sym same) ∙ less in
      let never : false ≡ true = rw (text_less, compare_refl c.type) at both in cc
]

failed_is_false-insert_by :
    (c : DnsZoneCondition) (ds : List DnsZoneCondition)
    → failed_is_false (insert_by by_type c ds) ≡ failed_is_false (c ∷ ds)
unfolding failed_is_false
failed_is_false-insert_by c [] = refl
failed_is_false-insert_by c (d ∷ ds) = elim (Bool-cases (by_type d c)) [
  | inr before ↦ rw before refl
  | inl after ↦ elim (Bool-cases (c.type == failed_condition_type)) [
    | inl own ↦
        let apart = by_type_apart c d after ((eq_iff c.type failed_condition_type).0 own) in
        rw (after, apart, failed_is_false-insert_by c ds, own) refl
    | inr other ↦ rw (after, failed_is_false-insert_by c ds, other) refl
  ]
]

failed_is_false-sort_by :
    (cs : List DnsZoneCondition) → failed_is_false (sort_by by_type cs) ≡ failed_is_false cs
unfolding failed_is_false
failed_is_false-sort_by [] = refl
failed_is_false-sort_by (c ∷ cs) =
    failed_is_false-insert_by c (sort_by by_type cs)
    ∙ ap
        (λ rest.
          if c.type == failed_condition_type then some (c.status == condition_false) else rest)
        (failed_is_false-sort_by cs)

-- A round of the outer loop of `recordIsAlreadyPublishedToZone`.
abbrev published_round : Bool → Option Bool → Bool → Bool
published_round own failed rest = if own then (elim failed [ none ↦ rest | some b ↦ b ]) else rest

pub Agree-published_in :
    (zone : DnsZone) (a b : List DnsZoneStatus)
    → Agree by_type a b
    → ById zone a
    → ById zone b
    → published_in a zone ≡ published_in b zone
unfolding published_in
Agree-published_in zone [] [] h i j = refl
Agree-published_in zone [] (b ∷ ys) h i j = elim h [ ]
Agree-published_in zone (a ∷ xs) [] h i j = elim h [ ]
Agree-published_in zone (a ∷ xs) (b ∷ ys) (id, conditions, _, h) (i, is_a) (j, is_b) =
    let own : zone_equal a.dns_zone zone ≡ zone_equal b.dns_zone zone =
      i ∙ ap (λ x. x == zone.id) id ∙ sym j in
    let failed : failed_is_false a.conditions ≡ failed_is_false b.conditions =
      sym (failed_is_false-sort_by a.conditions)
      ∙ ap failed_is_false conditions
      ∙ failed_is_false-sort_by b.conditions in
    ap (λ x. published_round x (failed_is_false a.conditions) (published_in xs zone)) own
    ∙ ap (λ x. published_round (zone_equal b.dns_zone zone) x (published_in xs zone)) failed
    ∙ ap (published_round (zone_equal b.dns_zone zone) (failed_is_false b.conditions))
        (Agree-published_in zone xs ys h is_a is_b)

pub Agree-keys :
    (zone_id : String) (a b : List DnsZoneStatus)
    → Agree by_type a b
    → keys (endpoints_from_zone_status a zone_id) ≡ keys (endpoints_from_zone_status b zone_id)
unfolding endpoints_from_zone_status
Agree-keys zone_id [] [] h = refl
Agree-keys zone_id [] (b ∷ ys) h = elim h [ ]
Agree-keys zone_id (a ∷ xs) [] h = elim h [ ]
Agree-keys zone_id (a ∷ xs) (b ∷ ys) (id, _, endpoints, h) =
    elim (Bool-cases (b.dns_zone.id == zone_id)) [
      | inl own ↦ rw (id, own) endpoints
      | inr other ↦ rw (id, other) (Agree-keys zone_id xs ys h)
    ]

ById-merge_status :
    (clock : ℕ → ℕ) (calls : ℕ) (zone : DnsZone) (update : DnsZoneStatus)
    (statuses : List DnsZoneStatus)
    → ById zone statuses
    → ById zone (merge_status clock calls update statuses)
unfolding merge_status
ById-merge_status clock calls zone update [] h = tt
ById-merge_status clock calls zone update (status ∷ statuses) (i, h) =
    elim (Bool-cases (zone_equal status.dns_zone update.dns_zone)) [
      | inl own ↦ rw own (i, ById-merge_status clock (calls + 1) zone update statuses h)
      | inr other ↦ rw other (i, ById-merge_status clock calls zone update statuses h)
    ]

pub ById-merge_statuses :
    (clock : ℕ → ℕ) (zones : List DnsZone) (zone : DnsZone) (update : DnsZoneStatus)
    (statuses : List DnsZoneStatus)
    → zone_equal update.dns_zone zone ≡ (update.dns_zone.id == zone.id)
    → ById zone statuses
    → ById zone (merge_statuses clock 0 zones statuses (update ∷ []))
unfolding merge_statuses merge_all
ById-merge_statuses clock zones zone update statuses own h =
    All-append _ (merge_status clock 0 update statuses) _
      (ById-merge_status clock 0 zone update statuses h)
      (elim (Bool-cases (nat_eq (count_zone update.dns_zone statuses) 0)) [
        | inl none_yet ↦ rw none_yet (own, tt)
        | inr some_yet ↦ rw some_yet tt
      ])
