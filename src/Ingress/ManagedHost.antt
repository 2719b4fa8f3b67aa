-- ===== src/Ingress/ManagedHost.antt =====
-- `AddManagedHost`: the rules that it adds.
use multi_cluster_traffic_co.Prelude.{
  String, Bool, true, false, ◌||◌, ◌&&◌, List, [], ◌∷◌, ◌++◌, ◌==◌, ◌≡◌, refl, arith, eq_iff, any,
  Bool-cases, inl, inr, All, any-append, append_assoc, append-nil, subst, sym, ap, ◌∙◌, ◌⊎◌,
  eq_refl, All-append, All-map,
}
use multi_cluster_traffic_co.Ingress.{
  Ingress, IngressRule, covered_rules, is_covered, additional_rules, add_managed_host,
}

module _ {Http : Type 0} (deep_equal : Http → Http → Bool) where
  -- The rules of host `h` serve the value.
  abbrev pub Serves : String → List (IngressRule Http) → Http → Type 0
  Serves h rules val = any (λ r. r.host == h && deep_equal r.http val) rules ≡ true

  -- Every rule is of host `h`, and serves what nothing in the list, nor a rule before it, serves.
  abbrev pub AreNew : String → List Http → List (IngressRule Http) → Type 0
  AreNew h covered [] = Unit
  AreNew h covered (r ∷ rules) =
      (r.host ≡ h)
      × (is_covered deep_equal covered r.http ≡ false)
      × AreNew h (covered ++ r.http ∷ []) rules

  module _ (h : String) where
    additional_rules_skip :
        (r : IngressRule Http) (rules : List (IngressRule Http)) (covered : List Http)
        → (r.host == h || is_covered deep_equal covered r.http) ≡ true
        → additional_rules deep_equal h (r ∷ rules) covered
          ≡ additional_rules deep_equal h rules covered
    unfolding additional_rules
    additional_rules_skip r rules covered e = rw e

    additional_rules_add :
        (r : IngressRule Http) (rules : List (IngressRule Http)) (covered : List Http)
        → (r.host == h || is_covered deep_equal covered r.http) ≡ false
        → additional_rules deep_equal h (r ∷ rules) covered
          ≡ record { host = h; http = r.http }
            ∷ additional_rules deep_equal h rules (covered ++ r.http ∷ [])
    unfolding additional_rules
    additional_rules_add r rules covered e = rw e

    additional_rules-AreNew :
        (rules : List (IngressRule Http)) (covered : List Http)
        → AreNew h covered (additional_rules deep_equal h rules covered)
    unfolding additional_rules
    additional_rules-AreNew [] covered = tt
    additional_rules-AreNew (r ∷ rules) covered =
        elim (Bool-cases (r.host == h || is_covered deep_equal covered r.http)) [
          | inl e ↦ rw e (additional_rules-AreNew rules covered)
          | inr e ↦
              rw e (refl, ground arith, additional_rules-AreNew rules (covered ++ r.http ∷ []))
        ]

    is_covered-append :
        (xs ys : List Http) (v : Http)
        → is_covered deep_equal (xs ++ ys) v
          ≡ (is_covered deep_equal xs v || is_covered deep_equal ys v)
    unfolding is_covered
    is_covered-append xs ys v = any-append (λ ar. deep_equal ar v) xs ys

    -- A rule that `AddManagedHost` has nothing to add for.
    abbrev IsDone : List Http → IngressRule Http → Type 0
    IsDone covered r = (r.host == h || is_covered deep_equal covered r.http) ≡ true

    IsDone-append :
        (covered more : List Http) (r : IngressRule Http)
        → IsDone covered r
        → IsDone (covered ++ more) r
    IsDone-append covered more r d = ground (arith, is_covered-append covered more r.http)

    additional_rules-none :
        (rules : List (IngressRule Http)) (covered : List Http)
        → All (IsDone covered) rules
        → additional_rules deep_equal h rules covered ≡ []
    unfolding additional_rules
    additional_rules-none [] covered _ = refl
    additional_rules-none (r ∷ rules) covered (d, ds) =
        rw d (additional_rules-none rules covered ds)

    covered_rules-append :
        (rules more : List (IngressRule Http))
        → covered_rules h (rules ++ more) ≡ covered_rules h rules ++ covered_rules h more
    unfolding covered_rules
    covered_rules-append [] more = refl
    covered_rules-append (r ∷ rules) more = ground (arith, covered_rules-append rules more)

    covered_rules_own :
        (v : Http) (rules : List (IngressRule Http))
        → covered_rules h (record { host = h; http = v } ∷ rules) ≡ v ∷ covered_rules h rules
    unfolding covered_rules
    covered_rules_own v rules = rw eq_refl

    Serves-is_covered :
        (rules : List (IngressRule Http)) (v : Http)
        → is_covered deep_equal (covered_rules h rules) v
          ≡ any (λ r. r.host == h && deep_equal r.http v) rules
    unfolding is_covered covered_rules
    Serves-is_covered [] v = refl
    Serves-is_covered (r ∷ rules) v = ground (arith, Serves-is_covered rules v)

    module _ (deep_equal_refl : (v : Http) → deep_equal v v ≡ true) where
      is_covered_self :
          (xs ys : List Http) (v : Http) → is_covered deep_equal (xs ++ v ∷ ys) v ≡ true
      is_covered_self xs ys v =
          rw (is_covered-append xs (v ∷ ys) v)
            (unfold is_covered in ground (arith, deep_equal_refl v))

      IsDone-self : (xs ys : List Http) (r : IngressRule Http) → IsDone (xs ++ r.http ∷ ys) r
      IsDone-self xs ys r = ground (arith, is_covered_self xs ys r.http)

      -- After the loop every rule is of host `h` or covered, by what was covered or is added.
      additional_rules-IsDone :
          (rules : List (IngressRule Http)) (covered : List Http)
          → All
              (IsDone (covered ++ covered_rules h (additional_rules deep_equal h rules covered)))
              rules
      additional_rules-IsDone [] covered = tt
      additional_rules-IsDone (r ∷ rules) covered =
          elim (Bool-cases (r.host == h || is_covered deep_equal covered r.http)) [
            | inl e ↦
                subst (λ l. All (IsDone (covered ++ covered_rules h l)) (r ∷ rules))
                  (sym (additional_rules_skip r rules covered e))
                  (IsDone-append covered _ r e, additional_rules-IsDone rules covered)
            | inr e ↦
                subst (λ l. All (IsDone (covered ++ l)) (r ∷ rules))
                  (sym (
                    ap (covered_rules h) (additional_rules_add r rules covered e)
                    ∙ covered_rules_own r.http _))
                  (
                    IsDone-self covered _ r,
                    subst (λ l. All (IsDone l) rules) (append_assoc covered (r.http ∷ []) _)
                        (additional_rules-IsDone rules (covered ++ r.http ∷ [])),
                  )
          ]

  module _ (deep_equal_refl : (v : Http) → deep_equal v v ≡ true) (a : Ingress Http)
      (h : String) where
    extra : List (IngressRule Http)
    extra = additional_rules deep_equal h a.rules (covered_rules h a.rules)

    IsDone-after : All (IsDone h (covered_rules h (a.rules ++ extra))) a.rules
    unfolding extra
    IsDone-after =
        subst (λ l. All (IsDone h l) a.rules) (sym (covered_rules-append h a.rules _))
          (additional_rules-IsDone h deep_equal_refl a.rules (covered_rules h a.rules))

    IsDone-Serves :
        (rules : List (IngressRule Http)) (r : IngressRule Http)
        → IsDone h (covered_rules h rules) r
        → (r.host ≡ h) ⊎ Serves h rules r.http
    IsDone-Serves rules r d = ground (arith, Serves-is_covered h rules r.http, eq_iff r.host h)

    AreNew-IsDone :
        (covered done : List Http) (rules : List (IngressRule Http))
        → AreNew h covered rules
        → All (IsDone h done) rules
    AreNew-IsDone covered done [] n = tt
    AreNew-IsDone covered done (r ∷ rules) n =
        (ground (arith, eq_iff r.host h), AreNew-IsDone (covered ++ r.http ∷ []) done rules n.2)

    -- AddManagedHost keeps the rules that there are and appends rules of the new host: each of
    -- these serves what no rule of that host serves yet, and afterwards every rule of the ingress is
    -- of that host, or what it serves is served by a rule of that host.
    pub rules-add_managed_host :
        (extra : List (IngressRule Http)) × ((add_managed_host deep_equal a h).rules
          ≡ a.rules ++ extra)
        × AreNew h (covered_rules h a.rules) extra
        × All (λ r. (r.host ≡ h) ⊎ Serves h (add_managed_host deep_equal a h).rules r.http) a.rules
    unfolding add_managed_host extra
    rules-add_managed_host = (
      extra,
      refl,
      additional_rules-AreNew h a.rules (covered_rules h a.rules),
      All-map (IsDone-Serves (a.rules ++ extra)) a.rules IsDone-after,
    )

    -- A second AddManagedHost of the same host adds no rule.
    pub rules-add_managed_host_twice :
        (add_managed_host deep_equal (add_managed_host deep_equal a h) h).rules
        ≡ (add_managed_host deep_equal a h).rules
    unfolding add_managed_host extra
    rules-add_managed_host_twice =
        ap (λ l. (a.rules ++ extra) ++ l)
          (additional_rules-none h (a.rules ++ extra) _ (
            All-append _ a.rules extra IsDone-after (
              AreNew-IsDone (covered_rules h a.rules) _ extra
                (additional_rules-AreNew h a.rules (covered_rules h a.rules)))))
        ∙ append-nil (a.rules ++ extra)
