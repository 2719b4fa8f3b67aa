-- ===== src/Text/Split.antt =====
-- `strings.Split` at a comma: the parts of a text that ends in one more part.
use Prim.Native.Char.{Char, code}
use text.Mathlib.TextLemmas.{nil-append, cons-append}
use Prim.Native.String.{◌++◌ as ◌+++◌}
use multi_cluster_traffic_co.Prelude.{
  String, List, [], ◌∷◌, ◌++◌, ◌≡◌, ◌≢◌, refl, false, nat_eq, Bool-cases, inl, inr,
}
use multi_cluster_traffic_co.Text.{split, onto_first}

-- No character of the text is a comma.
abbrev pub LacksComma : String → Type 0
LacksComma String.[] = Unit
LacksComma (String.◌∷◌ c s) = (nat_eq (code c) b',' ≡ false) × LacksComma s

pub split-LacksComma : (h : String) → LacksComma h → split h ≡ h ∷ []
unfolding split
split-LacksComma String.[] _ = refl
split-LacksComma (String.◌∷◌ c s) (plain, rest) = rw (plain, split-LacksComma s rest)

onto_first-ne-nil : (c : Char) (ps : List String) → onto_first c ps ≢ []
unfolding onto_first
onto_first-ne-nil c [] = λ h. cc
onto_first-ne-nil c (p ∷ ps) = λ h. cc

onto_first-append :
    (c : Char) (ps qs : List String) → ps ≢ [] → onto_first c (ps ++ qs) ≡ onto_first c ps ++ qs
unfolding onto_first
onto_first-append c [] qs h = absurd (h refl)
onto_first-append c (p ∷ ps) qs h = refl

split-ne-nil : (s : String) → split s ≢ []
unfolding split
split-ne-nil String.[] = cc
split-ne-nil (String.◌∷◌ c s) = elim (Bool-cases (nat_eq (code c) b',')) [
  | inl e ↦ rw e (λ h. cc)
  | inr e ↦ rw e (onto_first-ne-nil c (split s))
]

-- A text, a comma and one more text: the parts of the one, then those of the other.
pub split-append : (v h : String) → split (v +++ ("," +++ h)) ≡ split v ++ split h
unfolding split
split-append String.[] h = rw (nil-append, cons-append, nil-append)
split-append (String.◌∷◌ c v) h = rw cons-append (elim (Bool-cases (nat_eq (code c) b',')) [
  | inl e ↦ rw (e, split-append v h)
  | inr e ↦ rw (e, split-append v h) (onto_first-append c (split v) (split h) (split-ne-nil v))
])
