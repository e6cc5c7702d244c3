-- ===== src/Float/Signed.antt =====
-- The operations of `f64` that crates/gatewayctl/src/canary.rs needs besides: sums, differences, squares
-- and square roots. A difference that is negative is kept as its absolute value with a sign.
use smallgateway.Prelude.{
  ℕ, zero, suc, ◌+◌, ◌-◌, ◌*◌, ◌/◌, ◌%◌, ◌^◌, Bool, true, false, ◌&&◌, ◌||◌, not, List, [], ◌∷◌,
  min, leb, ltb, ◌==◌, if◌then◌else◌,
}
use smallgateway.Float.{F64, one, extra_bits, round, ◌*f◌, ◌/f◌, u64_max}

-- `x + y`
infixl 65 ◌+f◌
unfoldable pub ◌+f◌ : F64 → F64 → F64
x +f y = round (x + y) 1

-- `iter().sum()`
unfoldable pub sum_from : F64 → List F64 → F64
sum_from acc [] = acc
sum_from acc (x ∷ xs) = sum_from (acc +f x) xs

-- a value with its sign; what is zero counts as not negative
pub record Signed : Type 0 where
  pub negative : Bool
  pub size : F64

-- `x - y`
infixl 65 ◌-f◌
unfoldable pub ◌-f◌ : F64 → F64 → Signed
x -f y = record { negative = ltb x y; size = round ((x - y) + (y - x)) 1 }

-- `d > y`, for `y` that is not negative
unfoldable pub above : Signed → F64 → Bool
above d y = not d.negative && ltb y d.size

-- `d / y`
unfoldable pub over : Signed → F64 → Signed
over d y = record d { size = d.size /f y }

-- `d.powi(2)`
unfoldable pub square : Signed → F64
square d = d.size *f d.size

-- the whole part of the root of `n`; `n` is fuel enough, since `n / 4` is below `n`
unfoldable pub whole_root : ℕ → ℕ → ℕ
whole_root zero n = 0
whole_root (suc fuel) n = elim (n == 0) [
  | true ↦ 0
  | false ↦
      let half = 2 * whole_root fuel (n / 4) in
      if leb ((half + 1) * (half + 1)) n then half + 1 else half
]

-- `x.sqrt()`: the root of `n = x * one` units, rounded to 53 significant bits
unfoldable pub sqrt : F64 → F64
sqrt x =
    let n = x * one in
    let r = whole_root n n in
    let ulp = 2 ^ extra_bits r r in
    let m = r / ulp in
    let edge = (2 * m + 1) * ulp in
    if ltb (edge * edge) (4 * n) || (edge * edge == 4 * n && m % 2 == 1)
    then (m + 1) * ulp
    else m * ulp

-- `x.round() as usize`
unfoldable pub round_u64 : F64 → ℕ
round_u64 x = min ((2 * x + one) / (2 * one)) u64_max
