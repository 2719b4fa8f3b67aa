-- ===== src/Ingress/Annotation.antt =====
-- `AddManagedHost`: the annotation that lists the managed hosts.
use Prim.Native.String.{◌++◌ as ◌+++◌}
use text.Mathlib.TextLemmas.{append-ne-nil_of_right_ne-nil, cons-append, cons-ne-nil}
use multi_cluster_traffic_co.Prelude.{
  String, Bool, true, List, [], ◌∷◌, ◌++◌, ◌==◌, ◌≡◌, ◌≢◌, arith, eq_iff, eq_refl, any,
  if◌then◌else◌, inl, inr, none, some, Option-cases, any-append, sym, ap, ◌∙◌,
}
use multi_cluster_traffic_co.Prelude.StringMap.{
  StringMap, lookup, lookup-insert, insert-insert, insert-lookup,
}
use multi_cluster_traffic_co.Text.{split}
use multi_cluster_traffic_co.Text.Split.{LacksComma, split-LacksComma, split-append}
use multi_cluster_traffic_co.Ingress.{
  Ingress, annotation_managed_hosts, annotations_of, record_managed_host, add_managed_host,
}

-- The hosts that the annotation lists.
abbrev pub listed : StringMap → List String
listed m = elim (lookup annotation_managed_hosts m) [ none ↦ [] | some v ↦ split v ]

append-comma-ne : (v h : String) → (v +++ ("," +++ h)) ≢ ""
append-comma-ne v h =
    append-ne-nil_of_right_ne-nil v
      (λ e. cons-ne-nil _ (String.[] +++ h) (sym (cons-append _ String.[] h) ∙ e))

any_last : (xs : List String) (h : String) → any (λ mh. mh == h) (xs ++ h ∷ []) ≡ true
any_last xs h = ground (arith, any-append (λ mh. mh == h) xs (h ∷ []), eq_refl h)

module _ (h : String) (m : StringMap) (plain : LacksComma h) where
  listed-record_managed_host :
      lookup annotation_managed_hosts m ≢ some ""
      → listed (record_managed_host h m)
        ≡ (if any (λ mh. mh == h) (listed m) then listed m else listed m ++ h ∷ [])
  unfolding record_managed_host
  listed-record_managed_host n = elim (Option-cases (lookup annotation_managed_hosts m)) [
    | inl e ↦ ground (
      arith,
      lookup-insert annotation_managed_hosts annotation_managed_hosts h m,
      eq_refl annotation_managed_hosts,
      split-LacksComma h plain,
    )
    | inr (v, e) ↦ ground (
      arith,
      lookup-insert annotation_managed_hosts annotation_managed_hosts (v +++ ("," +++ h)) m,
      eq_refl annotation_managed_hosts,
      split-LacksComma h plain,
      split-append v h,
      eq_iff v "",
    )
  ]

  record_managed_host_twice :
      record_managed_host h (record_managed_host h m) ≡ record_managed_host h m
  unfolding record_managed_host
  record_managed_host_twice = elim (Option-cases (lookup annotation_managed_hosts m)) [
    | inl e ↦ ground (
      arith,
      lookup-insert annotation_managed_hosts annotation_managed_hosts h m,
      insert-insert annotation_managed_hosts h h m,
      eq_refl annotation_managed_hosts,
      split-LacksComma h plain,
      eq_refl h,
    )
    | inr (v, e) ↦ ground (
      arith,
      lookup-insert annotation_managed_hosts annotation_managed_hosts (v +++ ("," +++ h)) m,
      insert-lookup annotation_managed_hosts v m,
      eq_refl annotation_managed_hosts,
      split-LacksComma h plain,
      split-append v h,
      any_last (split v) h,
      eq_iff v "",
      eq_iff (v +++ ("," +++ h)) "",
      append-comma-ne v h,
    )
  ]

module _ {Http : Type 0} (deep_equal : Http → Http → Bool) (a : Ingress Http) (h : String) where
  -- The hosts that the annotation of an ingress lists.
  abbrev pub managed_hosts : Ingress Http → List String
  managed_hosts i = listed (annotations_of i.metadata)

  -- AddManagedHost of a host without a comma puts the host at the end of the annotation's list, if
  -- it is not there, and keeps the list otherwise, unless the annotation is there and empty. A
  -- second AddManagedHost of the host leaves the annotations as they are.
  pub managed_hosts-add_managed_host :
      LacksComma h
      → lookup annotation_managed_hosts (annotations_of a.metadata) ≢ some ""
      → (managed_hosts (add_managed_host deep_equal a h) ≡ (
          if any (λ mh. mh == h) (managed_hosts a)
          then managed_hosts a
          else managed_hosts a ++ h ∷ []))
        × ((add_managed_host deep_equal (add_managed_host deep_equal a h) h).metadata
            ≡ (add_managed_host deep_equal a h).metadata)
  unfolding add_managed_host
  managed_hosts-add_managed_host plain n = (
    listed-record_managed_host h (annotations_of a.metadata) plain n,
    ap (λ m. record a.metadata { annotations = some m })
        (record_managed_host_twice h (annotations_of a.metadata) plain),
  )

  -- Where the annotation is there and empty, AddManagedHost does not list the host: it lists the
  -- empty text alone, as before.
  pub managed_hosts-add_managed_host_empty :
      lookup annotation_managed_hosts (annotations_of a.metadata) ≡ some ""
      → managed_hosts (add_managed_host deep_equal a h) ≡ "" ∷ []
  unfolding add_managed_host record_managed_host split
  managed_hosts-add_managed_host_empty e = ground (
    arith,
    lookup-insert annotation_managed_hosts annotation_managed_hosts "" (annotations_of a.metadata),
    eq_refl annotation_managed_hosts,
  )
