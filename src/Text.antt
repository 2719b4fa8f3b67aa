-- ===== src/Text.antt =====
-- What the program uses of Go's `strings` and `strconv`: `strings.Split` at a comma,
-- `strings.Contains`, `strconv.Itoa` and `strconv.ParseInt(s, 10, 64)`. The proofs are in the
-- modules below.
pub mod Split
pub mod Decimal
use Prim.Native.Char.{Char, code}
use Prim.Native.Nat.{Ordering}
use Prim.Native.String.{compare}
use text.Mathlib.Text.{starts_with}
use multi_cluster_traffic_co.Prelude.{
  ℕ, zero, suc, ◌+◌, ◌-◌, ◌*◌, ◌/◌, ◌%◌, ◌^◌, String, Bool, true, false, ◌&&◌, ◌||◌, Option, none,
  some, List, [], ◌∷◌, ◌==◌, leb, ltb, nat_eq, if◌then◌else◌,
}

-- An `int64`, as a sign and a magnitude: `negsuc n` is -(n + 1).
pub data ℤ : Type 0 where
  pos : ℕ → ℤ
  negsuc : ℕ → ℤ

-- The first part of a split text gets one more character in front.
onto_first : Char → List String → List String
onto_first c [] = String.◌∷◌ c String.[] ∷ []
onto_first c (part ∷ parts) = String.◌∷◌ c part ∷ parts

-- `strings.Split(s, ",")`: an empty text has one part, the empty one.
unfoldable pub split : String → List String
unfolding onto_first
split String.[] = String.[] ∷ []
split (String.◌∷◌ c s) =
    let rest = split s in if nat_eq (code c) b',' then String.[] ∷ rest else onto_first c rest

-- `strings.Contains(s, part)`
unfoldable pub contains_text : String → String → Bool
contains_text String.[] part = part == ""
contains_text (String.◌∷◌ c s) part = starts_with (String.◌∷◌ c s) part || contains_text s part

-- `<` on texts
abbrev pub text_less : String → String → Bool
text_less a b = elim (compare a b) [ Ordering.lt ↦ true | _ ↦ false ]

-- The character of a digit; a number above nine does not come here.
digit : ℕ → Char
digit zero = "0"
digit (suc zero) = "1"
digit (suc (suc zero)) = "2"
digit (suc (suc (suc zero))) = "3"
digit (suc (suc (suc (suc zero)))) = "4"
digit (suc (suc (suc (suc (suc zero))))) = "5"
digit (suc (suc (suc (suc (suc (suc zero)))))) = "6"
digit (suc (suc (suc (suc (suc (suc (suc zero))))))) = "7"
digit (suc (suc (suc (suc (suc (suc (suc (suc zero)))))))) = "8"
digit n = "9"

-- The digits of `n` in front of `out`; one round for each digit, and `n + 1` rounds are enough.
emit : ℕ → ℕ → String → String
unfolding digit
emit zero n out = out
emit (suc rounds) n out =
    let longer = emit rounds (n / 10) (String.◌∷◌ (digit (n % 10)) out) in
    if ltb n 10 then String.◌∷◌ (digit (n % 10)) out else longer

-- `strconv.Itoa`, at the numbers that are not negative
unfoldable pub itoa : ℕ → String
unfolding emit
itoa n = emit (n + 1) n String.[]

is_digit : Char → Bool
is_digit c = leb b'0' (code c) && leb (code c) b'9'

scan : String → ℕ → Option ℕ
unfolding is_digit
scan String.[] n = some n
scan (String.◌∷◌ c s) n =
    let rest = scan s (n * 10 + (code c - b'0')) in if is_digit c then rest else none

-- At least one digit, and nothing else.
magnitude : String → Option ℕ
unfolding scan
magnitude String.[] = none
magnitude (String.◌∷◌ c s) = scan (String.◌∷◌ c s) 0

-- The range check at 2^63 - 1, and at -2^63.
positive : Option ℕ → Option ℤ
positive none = none
positive (some n) = if ltb n (2 ^ 63) then some (pos n) else none

negative : Option ℕ → Option ℤ
negative none = none
negative (some zero) = some (pos 0)
negative (some (suc n)) = if ltb n (2 ^ 63) then some (negsuc n) else none

-- `strconv.ParseInt(s, 10, 64)`; `none` is an error, of syntax or of range.
unfoldable pub parse_int : String → Option ℤ
unfolding magnitude positive negative
parse_int String.[] = none
parse_int (String.◌∷◌ c s) =
    if nat_eq (code c) b'+'
    then positive (magnitude s)
    else if nat_eq (code c) b'-'
    then negative (magnitude s)
    else positive (magnitude (String.◌∷◌ c s))
