-- ===== src/Ingress/Hosts.antt =====
-- `GetHosts`: which hosts it lists.
use multi_cluster_traffic_co.Prelude.{
  String, false, ◌||◌, List, [], ◌∷◌, ◌++◌, ◌==◌, ◌≡◌, refl, arith, eq_iff, any, Bool-cases, inl,
  inr,
}
use multi_cluster_traffic_co.Slice.{contains_string}
use multi_cluster_traffic_co.Slice.Properties.{contains_string-append}
use multi_cluster_traffic_co.Ingress.{Ingress, IngressRule, collect_hosts, get_hosts}

-- No text stands in the list twice.
abbrev pub Distinct : List String → Type 0
Distinct [] = Unit
Distinct (x ∷ xs) = (contains_string xs x ≡ false) × Distinct xs

contains_string_one : (x h : String) → contains_string (x ∷ []) h ≡ (x == h)
unfolding contains_string
contains_string_one x h = ground arith

Distinct-snoc :
    (xs : List String) (x : String)
    → Distinct xs
    → contains_string xs x ≡ false
    → Distinct (xs ++ x ∷ [])
unfolding contains_string
Distinct-snoc [] x d h = (refl, tt)
Distinct-snoc (y ∷ xs) x d h = (
  ground (arith, contains_string-append xs (x ∷ []) y, eq_iff x y, eq_iff y x),
  Distinct-snoc xs x d.1 (ground arith),
)

module _ {Http : Type 0} where
  collect_hosts-Distinct :
      (rules : List (IngressRule Http)) (hosts : List String)
      → Distinct hosts
      → Distinct (collect_hosts rules hosts)
  unfolding collect_hosts
  collect_hosts-Distinct [] hosts d = d
  collect_hosts-Distinct (rule ∷ rules) hosts d =
      elim (Bool-cases (contains_string hosts rule.host)) [
        | inl e ↦ rw e (collect_hosts-Distinct rules hosts d)
        | inr e ↦ rw e (
            collect_hosts-Distinct rules (hosts ++ rule.host ∷ [])
              (Distinct-snoc hosts rule.host d e))
      ]

  collect_hosts-contains :
      (rules : List (IngressRule Http)) (hosts : List String) (h : String)
      → contains_string (collect_hosts rules hosts) h
        ≡ (contains_string hosts h || any (λ rule. rule.host == h) rules)
  unfolding collect_hosts
  collect_hosts-contains [] hosts h = ground arith
  collect_hosts-contains (rule ∷ rules) hosts h = ground (
    arith,
    collect_hosts-contains rules hosts h,
    collect_hosts-contains rules (hosts ++ rule.host ∷ []) h,
    contains_string-append hosts (rule.host ∷ []) h,
    contains_string_one rule.host h,
    eq_iff rule.host h,
  )

  -- GetHosts lists no host twice, and lists exactly the hosts of the rules.
  pub get_hosts-Distinct :
      (a : Ingress Http)
      → Distinct (get_hosts a)
        × ((h : String) → contains_string (get_hosts a) h ≡ any (λ rule. rule.host == h) a.rules)
  unfolding get_hosts
  get_hosts-Distinct a = (
    collect_hosts-Distinct a.rules [] tt,
    λ h. unfold contains_string in collect_hosts-contains a.rules [] h,
  )
