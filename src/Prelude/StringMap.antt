-- ===== src/Prelude/StringMap.antt =====
-- Go's `map[string]string`, as an association list: `none` is a nil map where one may be nil.
-- A `range` over a map visits the entries in the order of the list.
use Prim.Native.String.{String}
use mathlib.Core.List.{List, [], ◌∷◌}
use mathlib.Core.Option.{Option, none, some}
use mathlib.Core.Path.{◌≡◌, refl}
use native.Mathlib.Omega.{arith}
use text.Mathlib.Text.{◌==◌}
use text.Mathlib.TextEquality.{eq_iff}
use multi_cluster_traffic_co.Prelude.Tests.{if◌then◌else◌}

abbrev pub StringMap : Type 0
StringMap = List (String × String)

-- `m[key] = value`
unfoldable pub insert : String → String → StringMap → StringMap
insert key value [] = (key, value) ∷ []
insert key value (entry ∷ entries) =
    let kept = entry ∷ insert key value entries in
    if entry.0 == key then (key, value) ∷ entries else kept

-- `value, found := m[key]`
unfoldable pub lookup : String → StringMap → Option String
lookup key [] = none
lookup key (entry ∷ entries) =
    let later = lookup key entries in if entry.0 == key then some entry.1 else later

-- The second write to a key is what counts.
pub insert-insert :
    (key old new : String) (entries : StringMap)
    → insert key new (insert key old entries) ≡ insert key new entries
unfolding insert
insert-insert key old new [] = ground (arith, eq_iff key key)
insert-insert key old new (entry ∷ entries) =
    ground (arith, insert-insert key old new entries, eq_iff key key, eq_iff entry.0 key)

-- Writing what is there already changes nothing.
pub insert-lookup :
    (key value : String) (entries : StringMap)
    → lookup key entries ≡ some value
    → insert key value entries ≡ entries
unfolding insert lookup
insert-lookup key value [] present = cc
insert-lookup key value ((name, text) ∷ entries) present =
    ground (arith, insert-lookup key value entries, eq_iff name key)

-- Each other key reads what it read before.
pub lookup-insert :
    (other key value : String) (entries : StringMap)
    → lookup other (insert key value entries)
      ≡ (if key == other then some value else lookup other entries)
unfolding insert lookup
lookup-insert other key value [] = refl
lookup-insert other key value (entry ∷ entries) = ground (
  arith,
  lookup-insert other key value entries,
  eq_iff entry.0 other,
  eq_iff entry.0 key,
  eq_iff key other,
)
