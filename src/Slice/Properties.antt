-- ===== src/Slice/Properties.antt =====
-- Membership, removal and search on slices.
use multi_cluster_traffic_co.Prelude.{
  String, Bool, true, not, ◌||◌, ◌&&◌, List, [], ◌∷◌, ◌++◌, ◌==◌, ◌≡◌, refl, arith, eq_iff, any,
  some,
}
use multi_cluster_traffic_co.Slice.{remove_string, contains_string, find}

pub contains_string-any :
    (xs : List String) (s : String) → contains_string xs s ≡ any (λ x. x == s) xs
unfolding contains_string
contains_string-any [] s = refl
contains_string-any (x ∷ xs) s = ground (arith, contains_string-any xs s)

pub contains_string-append :
    (xs ys : List String) (s : String)
    → contains_string (xs ++ ys) s ≡ (contains_string xs s || contains_string ys s)
unfolding contains_string
contains_string-append [] ys s = refl
contains_string-append (x ∷ xs) ys s = ground (arith, contains_string-append xs ys s)

-- RemoveString takes out every occurrence of the string, and nothing else.
pub contains_string-remove_string :
    (xs : List String) (s t : String)
    → contains_string (remove_string xs s) t ≡ (not (s == t) && contains_string xs t)
unfolding contains_string remove_string
contains_string-remove_string [] s t = ground arith
contains_string-remove_string (x ∷ xs) s t =
    ground (arith, contains_string-remove_string xs s t, eq_iff x s, eq_iff x t, eq_iff s t)

-- What Find returns passes the test.
pub find-passes :
    {T : Type 0} (xs : List T) (predicate : T → Bool) (x : T)
    → find xs predicate ≡ some x
    → predicate x ≡ true
unfolding find
find-passes [] predicate x h = cc
find-passes (y ∷ xs) predicate x h = ground (arith, find-passes xs predicate x)
