-- ===== src/Ledger/Floor.antt =====
-- crates/gatewayctl/src/budget.rs, `floor_slice`: its rounding, and the slices of all nodes.
use native.Mathlib.Nat.{mul-le-mul, mul-le-mul_right, le_of_mul-le-mul_right}
use smallgateway.Prelude.{ℕ, zero, suc, ◌+◌, ◌-◌, ◌*◌, ◌^◌, ◌≤◌, ◌<◌, ap, inl, arith}
use smallgateway.Float.{one, of_u64, ◌*f◌, ◌/f◌, literal}
use smallgateway.Float.Round.{round_error}
use smallgateway.Float.Slice.{
  one-eq, one-pos, of_u64_error, of_u64-ge, of_u64-le, le_div, floor-le, zero-product,
  zero-quotient, floor-zero,
}
use smallgateway.Ledger.{cold_node_floor_fraction, floor_slice}

-- the literal 0.10 lies between a sixteenth and a ninth
tenth_bounds : (cold_node_floor_fraction * 9 ≤ one) × (one ≤ cold_node_floor_fraction * 16)
unfolding cold_node_floor_fraction literal one
tenth_bounds = omega arith

module _ (amount n : ℕ) (amount_pos : 0 < amount) (n_pos : 0 < n) (fits : n < 2 ^ 64) where
  scaled_large : 2 ^ 53 * one ≤ of_u64 amount * cold_node_floor_fraction
  scaled_large =
      omega (arith, one-eq, tenth_bounds, mul-le-mul (of_u64-ge amount amount_pos) (tenth_bounds.1))

  scaled_error :
      ((of_u64 amount *f cold_node_floor_fraction) * one * 2 ^ 53
        ≤ of_u64 amount * cold_node_floor_fraction * (2 ^ 53 + 1))
      × (of_u64 amount * cold_node_floor_fraction * (2 ^ 53 - 1)
          ≤ (of_u64 amount *f cold_node_floor_fraction) * one * 2 ^ 53)
  unfolding ◌*f◌
  scaled_error =
      round_error (of_u64 amount * cold_node_floor_fraction) one one-pos
        (inl (le_div _ _ _ one-pos scaled_large))

  share_large : 2 ^ 53 * of_u64 n ≤ (of_u64 amount *f cold_node_floor_fraction) * one
  share_large = omega (
    arith,
    one-eq,
    tenth_bounds,
    scaled_error,
    of_u64-le n n_pos fits,
    mul-le-mul (of_u64-ge amount amount_pos) (tenth_bounds.1),
    ap (λ (k : ℕ). (of_u64 amount *f cold_node_floor_fraction) * k) one-eq,
  )

  share_error :
      ((of_u64 amount *f cold_node_floor_fraction) /f of_u64 n) * of_u64 n * 2 ^ 53
      ≤ (of_u64 amount *f cold_node_floor_fraction) * one * (2 ^ 53 + 1)
  unfolding ◌/f◌
  share_error =
      let n_large : 0 < of_u64 n = omega (arith, of_u64-ge n n_pos) in
      (round_error ((of_u64 amount *f cold_node_floor_fraction) * one) (of_u64 n) n_large
        (inl (le_div _ _ _ n_large share_large))).0

-- The roundings together: `p` and `k` convert, `a` scales by `tenth`, `c` divides, `f` rounds down.
module _ (u p k a c f tenth amount n : ℕ) (u_pos : 0 < u) (ht : tenth * 9 ≤ u)
    (hp : p * 2 ^ 53 ≤ amount * u * (2 ^ 53 + 1)) (hk : n * u * (2 ^ 53 - 1) ≤ k * 2 ^ 53)
    (ha : a * u * 2 ^ 53 ≤ p * tenth * (2 ^ 53 + 1)) (hc : c * k * 2 ^ 53 ≤ a * u * (2 ^ 53 + 1))
    (hf : f * u ≤ c) where
  scale_step : a * 9 * 2 ^ 53 ≤ p * (2 ^ 53 + 1)
  scale_step = le_of_mul-le-mul_right {k = u} (omega (arith, ha, mul-le-mul_right p ht)) u_pos

  divide_step : f * k * 9 * 2 ^ 106 ≤ p * (2 ^ 53 + 1) ^ 2
  divide_step =
      le_of_mul-le-mul_right {k = u}
        (omega (arith, hc, mul-le-mul_right k hf, mul-le-mul_right u scale_step)) u_pos

  count_step : f * n * 8 ≤ amount
  count_step =
      le_of_mul-le-mul_right {k = u} (omega (arith, divide_step, hp, mul-le-mul_right f hk)) u_pos

-- `n` floor slices take at most an eighth of what is divided.
pub floor_slice_bound : (amount n : ℕ) → 0 < n → n < 2 ^ 64 → floor_slice amount n * n * 8 ≤ amount
unfolding floor_slice
floor_slice_bound zero n pos fits =
    rw (zero-product, zero-quotient (of_u64 n) (omega (arith, of_u64-ge n pos)), floor-zero)
      (omega arith)
floor_slice_bound (suc amount) n pos fits =
    let amount_pos : 0 < suc amount = omega arith in
    count_step _ _ _ _ _ _ _ _ _ one-pos tenth_bounds.0 (of_u64_error (suc amount)).0
      (of_u64_error n).1 (scaled_error (suc amount) n amount_pos pos fits).0
      (share_error (suc amount) n amount_pos pos fits) (floor-le _)
