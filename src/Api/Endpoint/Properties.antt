-- ===== src/Api/Endpoint/Properties.antt =====
-- What the provider-specific properties of an endpoint hold after one is set or deleted.
use multi_cluster_traffic_co.Prelude.{
  String, Bool, true, false, not, ◌||◌, ◌&&◌, Option, none, some, List, [], ◌∷◌, ◌++◌, ◌==◌, ◌≡◌,
  ◌≢◌, refl, arith, eq_iff, any, keep, append_assoc, append-nil, Bool-cases, inl, inr, ◌↔◌,
  if◌then◌else◌,
}
use multi_cluster_traffic_co.Api.Types.{Endpoint, ProviderSpecificProperty}
use multi_cluster_traffic_co.Api.Endpoint.{
  find_property, get_provider_specific, pair_copy, set_provider_specific, drop_property,
  delete_provider_specific,
}

-- Whether a value was found.
abbrev pub found {ℓ} : {A : Type ℓ} → Option A → Bool
found none = false
found (some a) = true

module _ (name : String) where
  -- The pairs of another name.
  abbrev pub others : List ProviderSpecificProperty → List ProviderSpecificProperty
  others = keep (λ p. not (p.name == name))

  pair_copy-some :
      (ps : List ProviderSpecificProperty) (p : ProviderSpecificProperty)
      → pair_copy name ps (some p) ≢ none
  unfolding pair_copy
  pair_copy-some [] p = λ h. cc
  pair_copy-some (q ∷ ps) p = ground (arith, pair_copy-some ps p, pair_copy-some ps q)

  pair_copy-find_property :
      (ps : List ProviderSpecificProperty)
      → (pair_copy name ps none ≡ none) ↔ (find_property name ps ≡ none)
  unfolding pair_copy find_property
  pair_copy-find_property [] = ground arith
  pair_copy-find_property (q ∷ ps) = ground (arith, pair_copy-some ps q, pair_copy-find_property ps)

  find_property-append :
      (ps : List ProviderSpecificProperty) (p : ProviderSpecificProperty)
      → find_property name (ps ++ p ∷ []) ≡ (
          if found (find_property name ps)
          then find_property name ps
          else if p.name == name
          then some p
          else none)
  unfolding find_property
  find_property-append [] p = refl
  find_property-append (q ∷ ps) p = ground (arith, find_property-append ps p)

  find_property-any :
      (ps : List ProviderSpecificProperty)
      → any (λ p. p.name == name) ps ≡ found (find_property name ps)
  unfolding find_property
  find_property-any [] = refl
  find_property-any (q ∷ ps) = ground (arith, find_property-any ps)

  find_property-others :
      (key : String) (ps : List ProviderSpecificProperty)
      → find_property key (others ps) ≡ (if name == key then none else find_property key ps)
  unfolding find_property
  find_property-others key [] = ground arith
  find_property-others key (q ∷ ps) =
      ground
        (arith, find_property-others key ps, eq_iff name key, eq_iff q.name key, eq_iff q.name name)

  drop_property_lem :
      (ps kept : List ProviderSpecificProperty) (deleted : Bool)
      → drop_property name ps deleted kept
        ≡ (kept ++ others ps, any (λ p. p.name == name) ps || deleted)
  unfolding drop_property
  drop_property_lem [] kept deleted = rw append-nil
  drop_property_lem (q ∷ ps) kept deleted = elim (Bool-cases (q.name == name)) [
    | inl e ↦ rw (e, drop_property_lem ps kept true) (ground arith)
    | inr e ↦ rw (e, drop_property_lem ps (kept ++ q ∷ []) deleted, append_assoc)
  ]

-- SetProviderSpecific adds the value under a name that the endpoint does not have, and changes no
-- other name. Under a name that the endpoint has it leaves the old value.
pub get-set_provider_specific :
    (e : Endpoint) (name value key : String)
    → get_provider_specific (set_provider_specific e name value) key ≡ (
        if name == key && not (found (get_provider_specific e name))
        then some value
        else get_provider_specific e key)
unfolding get_provider_specific set_provider_specific
get-set_provider_specific e name value key = ground (
  arith,
  pair_copy-find_property name e.provider_specific,
  find_property-append key e.provider_specific (record { name = name; value = value }),
  eq_iff name key,
)

-- SetProviderSpecific on an endpoint that has the name already changes nothing.
pub set_provider_specific_present :
    (e : Endpoint) (name value old : String)
    → get_provider_specific e name ≡ some old
    → set_provider_specific e name value ≡ e
unfolding get_provider_specific set_provider_specific
set_provider_specific_present e name value old h =
    ground (arith, pair_copy-find_property name e.provider_specific)

-- DeleteProviderSpecific drops the name, keeps what the other names read, and tells whether the
-- name was there.
pub get-delete_provider_specific :
    (e : Endpoint) (name key : String)
    → (get_provider_specific (delete_provider_specific e name).0 key
        ≡ (if name == key then none else get_provider_specific e key))
      × ((delete_provider_specific e name).1 ≡ found (get_provider_specific e name))
unfolding get_provider_specific delete_provider_specific
get-delete_provider_specific e name key = ground (
  arith,
  drop_property_lem name e.provider_specific [] false,
  find_property-others name key e.provider_specific,
  find_property-any name e.provider_specific,
)
