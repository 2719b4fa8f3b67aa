-- ===== src/Text/Decimal.antt =====
-- `strconv.ParseInt` on what `strconv.Itoa` prints.
use Prim.Native.Char.{code}
use multi_cluster_traffic_co.Prelude.{
  ℕ, zero, suc, ◌+◌, ◌*◌, ◌/◌, ◌%◌, ◌^◌, ◌<◌, ◌≤◌, String, true, ◌≡◌, refl, ap, ◌∙◌, some, arith,
  ltb, Bool-cases, inl, inr,
}
use multi_cluster_traffic_co.Text.{pos, digit, emit, is_digit, scan, itoa, parse_int}

code-digit : (n : ℕ) → n < 10 → code (digit n) ≡ 48 + n
unfolding digit
code-digit zero h = refl
code-digit (suc zero) h = refl
code-digit (suc (suc zero)) h = refl
code-digit (suc (suc (suc zero))) h = refl
code-digit (suc (suc (suc (suc zero)))) h = refl
code-digit (suc (suc (suc (suc (suc zero))))) h = refl
code-digit (suc (suc (suc (suc (suc (suc zero)))))) h = refl
code-digit (suc (suc (suc (suc (suc (suc (suc zero))))))) h = refl
code-digit (suc (suc (suc (suc (suc (suc (suc (suc zero)))))))) h = refl
code-digit (suc (suc (suc (suc (suc (suc (suc (suc (suc zero))))))))) h = refl
code-digit (suc (suc (suc (suc (suc (suc (suc (suc (suc (suc n)))))))))) h = absurd (omega arith)

is_digit-digit : (n : ℕ) → n < 10 → is_digit (digit n) ≡ true
unfolding is_digit
is_digit-digit n h = ground (arith, code-digit n h)

scan-digit : (n a : ℕ) (s : String) → n < 10 → scan (String.◌∷◌ (digit n) s) a ≡ scan s (a * 10 + n)
unfolding scan
scan-digit n a s h =
    rw (is_digit-digit n h, code-digit n h) (ap (λ k. scan s (a * 10 + k)) (omega arith))

scan-emit : (rounds n : ℕ) (out : String) → n < rounds → scan (emit rounds n out) 0 ≡ scan out n
unfolding emit
scan-emit zero n out h = absurd (omega arith)
scan-emit (suc rounds) n out h = elim (Bool-cases (ltb n 10)) [
  | inl e ↦
      let small : n < 10 = ground arith in
      rw e (scan-digit (n % 10) 0 out (omega arith) ∙ ap (scan out) (omega arith))
  | inr e ↦
      let large : 10 ≤ n = ground arith in
      rw e (
        scan-emit rounds (n / 10) (String.◌∷◌ (digit (n % 10)) out) (omega arith)
        ∙ scan-digit (n % 10) (n / 10) out (omega arith)
        ∙ ap (scan out) (omega arith))
]

-- The text begins with a digit.
StartsWithDigit : String → Type 0
StartsWithDigit String.[] = ⊥
StartsWithDigit (String.◌∷◌ c s) = is_digit c ≡ true

emit-StartsWithDigit :
    (rounds n : ℕ) (out : String) → n < rounds → StartsWithDigit (emit rounds n out)
unfolding emit StartsWithDigit
emit-StartsWithDigit zero n out h = absurd (omega arith)
emit-StartsWithDigit (suc rounds) n out h = elim (Bool-cases (ltb n 10)) [
  | inl e ↦ rw e (is_digit-digit (n % 10) (omega arith))
  | inr e ↦
      let large : 10 ≤ n = ground arith in
      rw e (emit-StartsWithDigit rounds (n / 10) (String.◌∷◌ (digit (n % 10)) out) (omega arith))
]

parse_int-StartsWithDigit :
    (s : String) (n : ℕ)
    → StartsWithDigit s
    → scan s 0 ≡ some n
    → n < 2 ^ 63
    → parse_int s ≡ some (pos n)
unfolding parse_int StartsWithDigit is_digit
parse_int-StartsWithDigit String.[] n d e h = absurd d
parse_int-StartsWithDigit (String.◌∷◌ c s) n d e h = ground arith

-- Every number of an `int64` that is not negative is read back as it was printed.
pub parse_int-itoa : (n : ℕ) → n < 2 ^ 63 → parse_int (itoa n) ≡ some (pos n)
unfolding itoa
parse_int-itoa n h =
    parse_int-StartsWithDigit (emit (n + 1) n String.[]) n
      (emit-StartsWithDigit (n + 1) n String.[] (omega arith))
      (scan-emit (n + 1) n String.[] (omega arith) ∙ unfold scan in refl) h
