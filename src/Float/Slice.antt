-- ===== src/Float/Slice.antt =====
-- `(pool as f64 * (part as f64 / total as f64)).floor() as u64`: how far rounding can lift it above
-- the exact slice.
use native.Mathlib.Nat.{
  mul-le-mul, mul-le-mul_right, le_of_mul-le-mul_right, div-mul-le_self, zero-mul,
  le-div_iff_mul-le,
}
use native.Mathlib.Decide.{dec_le}
use smallgateway.Prelude.{
  ℕ, zero, suc, ◌+◌, ◌-◌, ◌*◌, ◌/◌, ◌^◌, ◌≤◌, ◌<◌, ◌≡◌, ap, refl, inl, inr, arith, min,
}
use smallgateway.Float.{F64, one, u64_max, of_u64, ◌*f◌, ◌/f◌, floor_u64}
use smallgateway.Float.Round.{round-zero, round_error}

unfoldable pub weighted_slice : ℕ → ℕ → ℕ → ℕ
weighted_slice pool part total = floor_u64 (of_u64 pool *f (of_u64 part /f of_u64 total))

pub one-eq : one ≡ 2 ^ 1074
unfolding one
one-eq = refl

-- a conversion is within 2^-53 of the number
pub of_u64_error :
    (n : ℕ)
    → (of_u64 n * 2 ^ 53 ≤ n * one * (2 ^ 53 + 1)) × (n * one * (2 ^ 53 - 1) ≤ of_u64 n * 2 ^ 53)
unfolding of_u64
of_u64_error n = omega (arith, round_error (n * one) 1 (omega arith) (inr refl))

pub one-pos : 0 < one
one-pos = omega (arith, one-eq)

pub le_div : (k a b : ℕ) → 0 < b → k * b ≤ a → k ≤ a / b
le_div k a b pos h = (le-div_iff_mul-le pos).1 h

module _ (n : ℕ) (pos : 0 < n) where
  pub of_u64-ge : 2 ^ 1073 ≤ of_u64 n
  of_u64-ge = omega (arith, of_u64_error n, one-eq, mul-le-mul_right one pos)

  pub of_u64-le : n < 2 ^ 64 → of_u64 n ≤ 2 ^ 65 * one
  of_u64-le h = omega (arith, of_u64_error n, one-eq, mul-le-mul_right one h)

module _ (part total : ℕ) (part_pos : 0 < part) (total_pos : 0 < total)
    (fits : total < 2 ^ 64) where
  ratio_large : 2 ^ 53 * of_u64 total ≤ of_u64 part * one
  ratio_large = omega (
    arith,
    one-eq,
    of_u64-ge part part_pos,
    of_u64-le total total_pos fits,
    ap (λ (k : ℕ). of_u64 part * k) one-eq,
  )

  ratio_error :
      ((of_u64 part /f of_u64 total) * of_u64 total * 2 ^ 53 ≤ of_u64 part * one * (2 ^ 53 + 1))
      × (of_u64 part * one * (2 ^ 53 - 1) ≤ (of_u64 part /f of_u64 total) * of_u64 total * 2 ^ 53)
  unfolding ◌/f◌
  ratio_error =
      let t_pos : 0 < of_u64 total = omega (arith, of_u64-ge total total_pos) in
      round_error (of_u64 part * one) (of_u64 total) t_pos (inl (le_div _ _ _ t_pos ratio_large))

  ratio-ge : 2 ^ 1000 ≤ of_u64 part /f of_u64 total
  ratio-ge = elim (dec_le (2 ^ 1000) (of_u64 part /f of_u64 total)) [
    | yes h ↦ h
    | no h ↦ absurd (
        omega (
          arith,
          one-eq,
          ap (λ (k : ℕ). of_u64 part * k) one-eq,
          ratio_error,
          of_u64-ge part part_pos,
          of_u64-le total total_pos fits,
          mul-le-mul_right {m = of_u64 part /f of_u64 total} {n = 2 ^ 1000} (of_u64 total)
              (omega arith),
        ))
  ]

  module _ (pool : ℕ) (pool_pos : 0 < pool) where
    product_error :
        (of_u64 pool *f (of_u64 part /f of_u64 total)) * one * 2 ^ 53
        ≤ of_u64 pool * (of_u64 part /f of_u64 total) * (2 ^ 53 + 1)
    unfolding ◌*f◌
    product_error =
        let q = of_u64 part /f of_u64 total in
        let one_pos : 0 < one = omega (arith, one-eq) in
        let large : 2 ^ 53 * one ≤ of_u64 pool * q =
          omega (arith, one-eq, mul-le-mul (of_u64-ge pool pool_pos) ratio-ge) in
        (round_error (of_u64 pool * q) one one_pos (inl (le_div _ _ _ one_pos large))).0

-- The five roundings together, as one chain of products.
module _ (u p s t q m f pool part total : ℕ) (u_pos : 0 < u)
    (hp : p * 2 ^ 53 ≤ pool * u * (2 ^ 53 + 1)) (hs : s * 2 ^ 53 ≤ part * u * (2 ^ 53 + 1))
    (ht : total * u * (2 ^ 53 - 1) ≤ t * 2 ^ 53) (hq : q * t * 2 ^ 53 ≤ s * u * (2 ^ 53 + 1))
    (hm : m * u * 2 ^ 53 ≤ p * q * (2 ^ 53 + 1)) (hf : f * u ≤ m) where
  floor_step : f * u * u * 2 ^ 53 ≤ p * q * (2 ^ 53 + 1)
  floor_step = omega (arith, hm, mul-le-mul_right u hf)

  divide_step : f * u * t * 2 ^ 106 ≤ p * s * (2 ^ 53 + 1) ^ 2
  divide_step =
      le_of_mul-le-mul_right {k = u}
        (omega (arith, mul-le-mul_right t floor_step, mul-le-mul_right p hq)) u_pos

  convert_step : f * t * 2 ^ 212 ≤ pool * part * u * (2 ^ 53 + 1) ^ 4
  convert_step = le_of_mul-le-mul_right {k = u} (omega (arith, divide_step, mul-le-mul hp hs)) u_pos

  total_step : f * total * (2 ^ 159 * (2 ^ 53 - 1)) ≤ pool * part * (2 ^ 53 + 1) ^ 4
  total_step =
      le_of_mul-le-mul_right {k = u} (omega (arith, convert_step, mul-le-mul_right f ht)) u_pos

  slice_chain : f * total * 2 ^ 50 ≤ pool * part * (2 ^ 50 + 1)
  slice_chain = omega (arith, total_step)

-- nothing to divide
pub zero-product : (q : F64) → of_u64 0 *f q ≡ 0
unfolding of_u64 ◌*f◌
zero-product q = rw (zero-mul q)

pub zero-quotient : (y : F64) → 0 < y → 0 /f y ≡ 0
unfolding ◌/f◌
zero-quotient y pos = rw zero-mul (round-zero y pos)

pub floor-zero : floor_u64 0 ≡ 0
unfolding floor_u64
floor-zero = refl

pub floor-le : (x : F64) → floor_u64 x * one ≤ x
unfolding floor_u64
floor-le x = omega (
  arith,
  div-mul-le_self x one,
  mul-le-mul_right {m = min (x / one) u64_max} {n = x / one} one (omega arith),
)

-- A slice passes the exact one by at most its 2^50th part, for all counts below 2^64.
pub weighted_slice_error :
    (pool part total : ℕ)
    → 0 < part
    → part ≤ total
    → total < 2 ^ 64
    → weighted_slice pool part total * total * 2 ^ 50 ≤ pool * part * (2 ^ 50 + 1)
unfolding weighted_slice
weighted_slice_error zero part total h le fits = rw (zero-product, floor-zero) (omega arith)
weighted_slice_error (suc pool) part total h le fits =
    let t_pos : 0 < total = omega arith in
    slice_chain _ _ _ _ _ _ _ _ _ _ (omega (arith, one-eq)) (of_u64_error (suc pool)).0
      (of_u64_error part).0 (of_u64_error total).1 (ratio_error part total h t_pos fits).0
      (product_error part total h t_pos fits (suc pool) (omega arith)) (floor-le _)
