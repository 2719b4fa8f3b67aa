-- ===== src/DnsService/Weight.antt =====
-- The weight that an endpoint gets: awsEndpointWeight.
use multi_cluster_traffic_co.Prelude.{
  ℕ, zero, suc, ◌*◌, ◌/◌, ◌^◌, ◌≤◌, ◌<◌, ◌≡◌, refl, ok, arith, ltb, leb, if◌then◌else◌, some,
  Bool-cases, inl, inr,
}
use multi_cluster_traffic_co.Text.{itoa, parse_int, ℤ}
use multi_cluster_traffic_co.Text.Decimal.{parse_int-itoa}
use multi_cluster_traffic_co.DnsService.Endpoints.{max_weight, aws_endpoint_weight}

-- The weight as a number.
abbrev pub weight_of : ℕ → ℕ
weight_of n = max_weight / (if ltb max_weight n then max_weight else n)

div_le : (n : ℕ) → 0 < n → n ≤ 120 → (120 / n) * n ≤ 120
div_le n h k = grind arith

div_pos : (n : ℕ) → 0 < n → n ≤ 120 → 1 ≤ 120 / n
div_pos n h k = grind arith

div_bound : (n : ℕ) → 0 < n → 120 / n ≤ 120
div_bound n h = grind arith

sum_bound : (n : ℕ) → 0 < n → weight_of n * n ≤ (if leb n 120 then 120 else n)
sum_bound n h = elim (Bool-cases (ltb 120 n)) [
  | inl many ↦ rw many (ground arith)
  | inr few ↦ rw few (ground (arith, div_le n h (ground arith)))
]

le_lt_trans : {w : ℕ} → w ≤ 120 → w < 2 ^ 63
le_lt_trans h = omega arith

-- For any number of addresses but 0 the weight is a decimal text that `ParseInt` reads back, of a
-- number from 1 to 120; the weights of up to 120 addresses do not add up to more than 120, and those
-- of more addresses to no more than their number.
pub aws_endpoint_weight_bounds :
    (n : ℕ)
    → 0 < n
    → (aws_endpoint_weight n ≡ ok (itoa (weight_of n)))
      × (parse_int (itoa (weight_of n)) ≡ some (ℤ.pos (weight_of n)))
      × (1 ≤ weight_of n)
      × (weight_of n ≤ 120)
      × (weight_of n * n ≤ (if leb n 120 then 120 else n))
unfolding aws_endpoint_weight
aws_endpoint_weight_bounds zero h = absurd (omega arith)
aws_endpoint_weight_bounds (suc n) h =
    let m : ℕ = if ltb max_weight (suc n) then max_weight else suc n in
    let pos_m : 0 < m = ground arith in
    let small_m : m ≤ 120 = ground arith in
    (
      refl,
      parse_int-itoa (120 / m) (le_lt_trans (div_bound m pos_m)),
      div_pos m pos_m small_m,
      div_bound m pos_m,
      sum_bound (suc n) h,
    )
