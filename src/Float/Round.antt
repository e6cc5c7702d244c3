-- ===== src/Float/Round.antt =====
-- How `round` chooses its exponent, and how far the result lies from the fraction.
use native.Mathlib.Nat.{pow-suc, div-add-mod', div-add-mod, mod-lt, mul-le-mul_left}
use smallgateway.Prelude.{
  ℕ, zero, suc, ◌+◌, ◌-◌, ◌*◌, ◌/◌, ◌%◌, ◌^◌, ◌≤◌, ◌<◌, ◌≡◌, ap, ◌⊎◌, inl, inr, refl, ltb, arith,
  Bool-cases,
}
use smallgateway.Float.{extra_bits, nearest, round}

pub mul_pos : (a b : ℕ) → 0 < a → 0 < b → 0 < a * b
mul_pos a b ha hb = grind arith

pub pow_step : (s : ℕ) → 2 ^ suc s ≡ 2 * 2 ^ s
pow_step s = rw pow-suc (omega arith)

-- the significand fits into 53 bits
pub extra_bits_fit : (f q : ℕ) → q < 2 ^ 53 + f → q < 2 ^ 53 * 2 ^ extra_bits f q
unfolding extra_bits
extra_bits_fit zero q h = omega arith
extra_bits_fit (suc f) q h = elim (Bool-cases (ltb q (2 ^ 53))) [
  | inl small ↦ rw (small, extra_bits) (ground arith)
  | inr large ↦
      rw (large, extra_bits)
        (omega (arith, pow_step (extra_bits f (q / 2)), extra_bits_fit f (q / 2) (ground arith)))
]

-- and uses all of them, unless nothing was dropped
pub extra_bits_full : (f q : ℕ) → (extra_bits f q ≡ 0) ⊎ (2 ^ 52 * 2 ^ extra_bits f q ≤ q)
unfolding extra_bits
extra_bits_full zero q = inl refl
extra_bits_full (suc f) q = elim (Bool-cases (ltb q (2 ^ 53))) [
  | inl small ↦ rw (small, extra_bits) (inl refl)
  | inr large ↦
      rw (large, extra_bits)
        (inr (elim (extra_bits_full f (q / 2)) [
          | inl none_dropped ↦ rw none_dropped (ground arith)
          | inr full ↦ omega (arith, pow_step (extra_bits f (q / 2)))
        ]))
]

-- the exponent that `round` takes for the fraction `num / den`
abbrev pub ulp_of : ℕ → ℕ → ℕ
ulp_of num den = 2 ^ extra_bits (num / den) (num / den)

ulp-pos : (s : ℕ) → 0 < 2 ^ s
ulp-pos zero = omega arith
ulp-pos (suc s) = omega (arith, pow_step s, ulp-pos s)

pub ulp_of-pos : (num den : ℕ) → 0 < ulp_of num den
ulp_of-pos num den = ulp-pos (extra_bits (num / den) (num / den))

pub ulp_of_fit : (num den : ℕ) → num / den < 2 ^ 53 * ulp_of num den
ulp_of_fit num den = extra_bits_fit (num / den) (num / den) (omega arith)

pub ulp_of_full : (num den : ℕ) → (ulp_of num den ≡ 1) ⊎ (2 ^ 52 * ulp_of num den ≤ num / den)
ulp_of_full num den = elim (extra_bits_full (num / den) (num / den)) [
  | inl e ↦ inl (rw e)
  | inr h ↦ inr h
]

nearest-cases :
    (m r d : ℕ) → ((nearest m r d ≡ m) × (2 * r ≤ d)) ⊎ ((nearest m r d ≡ m + 1) × (d ≤ 2 * r))
unfolding nearest
nearest-cases m r d = ground arith

nearest_bounds :
    (m r d : ℕ)
    → r ≤ d
    → (2 * (nearest m r d * d) ≤ 2 * (m * d + r) + d)
      × (2 * (m * d + r) ≤ 2 * (nearest m r d * d) + d)
nearest_bounds m r d small = elim (nearest-cases m r d) [
  | inl (e, h) ↦ rw e (omega arith)
  | inr (e, h) ↦ rw e (omega arith)
]

regroup : (k u den : ℕ) → k * u * den ≡ k * (den * u)
regroup k u den = omega arith

-- The result lies within half a unit of the last place of the fraction.
pub round_bounds :
    (num den : ℕ)
    → 0 < den
    → (2 * (round num den * den) ≤ 2 * num + den * ulp_of num den)
      × (2 * num ≤ 2 * (round num den * den) + den * ulp_of num den)
unfolding round
round_bounds num den pos =
    let u = ulp_of num den in
    let d = den * u in
    let m = num / d in
    let r = num % d in
    let d_pos : 0 < d = mul_pos den u pos (ulp_of-pos num den) in
    omega (
      arith,
      nearest_bounds m r d (omega (arith, mod-lt num d_pos)),
      regroup (nearest m r d) u den,
      div-add-mod' num d,
    )

full_le : (num den : ℕ) → 2 ^ 52 * ulp_of num den ≤ num / den → den * ulp_of num den * 2 ^ 52 ≤ num
full_le num den h = omega (arith, mul-le-mul_left den h, div-add-mod num den)

-- The relative error is at most 2^-53, where the fraction has 54 bits or is a whole number.
pub round_error :
    (num den : ℕ)
    → 0 < den
    → (2 ^ 53 ≤ num / den) ⊎ (den ≡ 1)
    → (round num den * den * 2 ^ 53 ≤ num * (2 ^ 53 + 1))
      × (num * (2 ^ 53 - 1) ≤ round num den * den * 2 ^ 53)
round_error num den pos h = elim (ulp_of_full num den) [
  | inr full ↦ omega (arith, round_bounds num den pos, full_le num den full)
  | inl whole ↦ elim h [
    | inl large ↦ absurd (omega (arith, ulp_of_fit num den))
    | inr unit ↦ omega (
      arith,
      round_bounds num den pos,
      ap (λ (n : ℕ). n * ulp_of num den) unit,
      ap (λ (n : ℕ). round num den * n) unit,
    )
  ]
]

-- A fraction of nothing is 0.
pub round-zero : (den : ℕ) → 0 < den → round 0 den ≡ 0
round-zero den pos = elim (ulp_of_full 0 den) [
  | inr full ↦ absurd (omega (arith, ulp_of-pos 0 den))
  | inl whole ↦ grind (arith, round_bounds 0 den pos, ap (λ (n : ℕ). den * n) whole)
]
