-- ===== src/Examples/Compared.antt =====
-- A comparison of statuses that looks at the ids of the zones, at the conditions up to their order, and at
-- the names, types and set identifiers of the endpoints.
use multi_cluster_traffic_co.Prelude.{
  Bool, true, false, ◌&&◌, List, [], ◌∷◌, ◌==◌, ◌≡◌, refl, ap, ◌∙◌, arith, eq_iff, nat_eq,
}
use multi_cluster_traffic_co.Api.Types.{DnsZoneCondition, DnsZoneStatus}
use multi_cluster_traffic_co.Aws.Zone.{keys, same_key, same_key-eq}
use multi_cluster_traffic_co.DnsRecord.Comparison.{Agree, CmpLaws, by_type, sort_by}

abbrev lists_equal : {A : Type 0} → (A → A → Bool) → List A → List A → Bool
lists_equal equal [] [] = true
lists_equal equal (x ∷ xs) (y ∷ ys) = equal x y && lists_equal equal xs ys
lists_equal equal _ _ = false

lists_equal-eq :
    {A : Type 0} (equal : A → A → Bool)
    → ((x y : A) → equal x y ≡ true → x ≡ y)
    → (xs ys : List A) → lists_equal equal xs ys ≡ true
    → xs ≡ ys
lists_equal-eq equal sound [] [] h = refl
lists_equal-eq equal sound [] (y ∷ ys) h = cc
lists_equal-eq equal sound (x ∷ xs) [] h = cc
lists_equal-eq equal sound (x ∷ xs) (y ∷ ys) h =
    let head : equal x y ≡ true = ground arith in
    let tail : lists_equal equal xs ys ≡ true = ground arith in
    ap (λ z. z ∷ xs) (sound x y head) ∙ ap (λ zs. y ∷ zs) (lists_equal-eq equal sound xs ys tail)

abbrev condition_equal : DnsZoneCondition → DnsZoneCondition → Bool
condition_equal c d =
    c.type == d.type
    && c.status == d.status
    && nat_eq c.last_transition_time d.last_transition_time
    && c.reason == d.reason
    && c.message == d.message

condition_equal-eq : (c d : DnsZoneCondition) → condition_equal c d ≡ true → c ≡ d
condition_equal-eq c d h =
    let type : c.type ≡ d.type = (eq_iff c.type d.type).0 (ground arith) in
    let status : c.status ≡ d.status = (eq_iff c.status d.status).0 (ground arith) in
    let time : c.last_transition_time ≡ d.last_transition_time = ground arith in
    let reason : c.reason ≡ d.reason = (eq_iff c.reason d.reason).0 (ground arith) in
    let message : c.message ≡ d.message = (eq_iff c.message d.message).0 (ground arith) in
    ap (λ x. record c { type = x }) type
    ∙ ap (λ x. record c { type = d.type; status = x }) status
    ∙ ap (λ x. record c { type = d.type; status = d.status; last_transition_time = x }) time
    ∙ ap (λ x. record d { reason = x; message = c.message }) reason
    ∙ ap (λ x. record d { message = x }) message

abbrev pub cmp_equal :
    (DnsZoneCondition → DnsZoneCondition → Bool) → List DnsZoneStatus → List DnsZoneStatus → Bool
cmp_equal less [] [] = true
cmp_equal less (a ∷ xs) (b ∷ ys) =
    a.dns_zone.id == b.dns_zone.id
    && lists_equal condition_equal (sort_by less a.conditions) (sort_by less b.conditions)
    && lists_equal same_key (keys a.endpoints) (keys b.endpoints)
    && cmp_equal less xs ys
cmp_equal less _ _ = false

cmp_equal-Agree :
    (less : DnsZoneCondition → DnsZoneCondition → Bool) (a b : List DnsZoneStatus)
    → cmp_equal less a b ≡ true
    → Agree less a b
cmp_equal-Agree less [] [] h = tt
cmp_equal-Agree less [] (b ∷ ys) h = cc
cmp_equal-Agree less (a ∷ xs) [] h = cc
cmp_equal-Agree less (a ∷ xs) (b ∷ ys) h = (
  (eq_iff a.dns_zone.id b.dns_zone.id).0 (ground arith),
  lists_equal-eq condition_equal condition_equal-eq (sort_by less a.conditions)
      (sort_by less b.conditions) (ground arith),
  lists_equal-eq same_key same_key-eq (keys a.endpoints) (keys b.endpoints) (ground arith),
  cmp_equal-Agree less xs ys (ground arith),
)

pub cmp_laws : CmpLaws cmp_equal
cmp_laws = record { agree = cmp_equal-Agree by_type }
