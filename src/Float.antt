-- ===== src/Float.antt =====
-- The part of `f64` that the program uses: values that are not negative and far below overflow,
-- with the rounding of IEEE 754 (to nearest, ties to even). Such a value is a multiple of
-- 2^-1074, so it is kept as the number of these units.
pub mod Round
pub mod Slice
pub mod Signed
use smallgateway.Prelude.{
  ℕ, zero, suc, ◌+◌, ◌-◌, ◌*◌, ◌/◌, ◌%◌, ◌^◌, Bool, true, false, ◌&&◌, ◌||◌, ltb, leb, ◌==◌, min,
  if◌then◌else◌,
}

abbrev pub F64 : Type 0
F64 = ℕ

-- the number 1.0
unfoldable pub one : F64
one = 2 ^ 1074

abbrev pub u64_max : ℕ
u64_max = 2 ^ 64 - 1

-- How many low bits of `q` do not fit into the 53 bits of a significand. `q` itself is fuel
-- enough, since `q` has at most `q` bits.
unfoldable pub extra_bits : ℕ → ℕ → ℕ
extra_bits zero q = 0
extra_bits (suc fuel) q = elim (ltb q (2 ^ 53)) [ true ↦ 0 | false ↦ suc (extra_bits fuel (q / 2)) ]

-- the fraction `m + r / d` rounded to a whole number, a tie to the even one
unfoldable pub nearest : ℕ → ℕ → ℕ → ℕ
nearest m r d = if ltb d (2 * r) || (2 * r == d && m % 2 == 1) then m + 1 else m

-- the fraction `num / den`, in units, rounded to 53 significant bits
unfoldable pub round : ℕ → ℕ → F64
unfolding extra_bits nearest
round num den =
    let ulp = 2 ^ extra_bits (num / den) (num / den) in
    let d = den * ulp in nearest (num / d) (num % d) d * ulp

-- `n as f64`
unfoldable pub of_u64 : ℕ → F64
unfolding round one
of_u64 n = round (n * one) 1

-- `x * y`
infixl 70 ◌*f◌ ◌/f◌
unfoldable pub ◌*f◌ : F64 → F64 → F64
unfolding round one
x *f y = round (x * y) one

-- `x / y`, for `y` other than 0
unfoldable pub ◌/f◌ : F64 → F64 → F64
unfolding round one
x /f y = round (x * one) y

-- `x >= y`
abbrev pub ge : F64 → F64 → Bool
ge x y = leb y x

-- `x.floor() as u64`, which saturates
unfoldable pub floor_u64 : F64 → ℕ
unfolding one
floor_u64 x = min (x / one) u64_max

-- `x.ceil() as u64`
unfoldable pub ceil_u64 : F64 → ℕ
unfolding one
ceil_u64 x = min ((x + one - 1) / one) u64_max

-- the literal `num / den`, as 0.90 is 9 / 10
unfoldable pub literal : ℕ → ℕ → F64
unfolding round one
literal num den = round (num * one) den
