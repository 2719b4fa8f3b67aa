-- ===== src/Slice.antt =====
-- pkg/_internal/slice/slice.go.
pub mod Properties
use multi_cluster_traffic_co.Prelude.{
  String, Bool, true, false, Option, none, some, List, [], ◌∷◌, ◌==◌, if◌then◌else◌,
}

-- RemoveString
unfoldable pub remove_string : List String → String → List String
remove_string [] s = []
remove_string (item ∷ items) s =
    let rest = remove_string items s in if item == s then rest else item ∷ rest

-- ContainsString, and `slices.Contains` at strings.
unfoldable pub contains_string : List String → String → Bool
contains_string [] s = false
contains_string (item ∷ items) s = if item == s then true else contains_string items s

-- Find; `none` is the zero value and `false`.
unfoldable pub find {ℓ} : {T : Type ℓ} → List T → (T → Bool) → Option T
find [] predicate = none
find (elem ∷ elems) predicate = if predicate elem then some elem else find elems predicate
