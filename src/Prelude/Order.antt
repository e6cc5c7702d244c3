-- ===== src/Prelude/Order.antt =====
-- `Ord` of Rust: a three-way comparison with its laws, for texts and for pairs.
use Prim.Native.Nat.{ℕ, compare as compare_ℕ, Ordering}
use Prim.Native.Nat.Ordering.{lt, eq, gt}
use Prim.Native.Char.{Char, code}
use Prim.Native.String.{String, [], ◌∷◌, compare}
use Prim.Native.String.compare
use mathlib.Core.Path.{◌≡◌, ◌∙◌}
use native.Mathlib.Omega.{arith}
use text.Mathlib.TextEquality.{path_by_compare}
use text.Mathlib.TextPositions.{compare_refl}

pub record Ord {ℓ} (K : Type ℓ) : Type ℓ where
  pub cmp : K → K → Ordering
  pub lt_trans : (x y z : K) → cmp x y ≡ lt → cmp y z ≡ lt → cmp x z ≡ lt
  pub lt_of_gt : (x y : K) → cmp x y ≡ gt → cmp y x ≡ lt
  pub eq_of_cmp : (x y : K) → cmp x y ≡ eq → x ≡ y
  pub cmp_refl : (x : K) → cmp x x ≡ eq

-- the second comparison decides where the first finds no difference
abbrev pub and_then : Ordering → Ordering → Ordering
and_then eq second = second
and_then first _ = first

text_cons :
    (c d : Char) (s t : String)
    → compare (c ∷ s) (d ∷ t) ≡ and_then (compare_ℕ (code c) (code d)) (compare s t)
text_cons c d s t = compare.cons-cons c d s t ∙ ground arith

pub text_lt_of_gt : (a b : String) → compare a b ≡ gt → compare b a ≡ lt
text_lt_of_gt [] [] h = cc
text_lt_of_gt [] (d ∷ t) h = cc (compare.nil-cons d t)
text_lt_of_gt (c ∷ s) [] h = compare.nil-cons c s
text_lt_of_gt (c ∷ s) (d ∷ t) h =
    ground (arith, text_cons c d s t, text_cons d c t s, text_lt_of_gt s t)

pub text_lt_trans : (a b c : String) → compare a b ≡ lt → compare b c ≡ lt → compare a c ≡ lt
text_lt_trans [] [] c p q = cc
text_lt_trans [] (d ∷ t) [] p q = cc (compare.cons-nil d t)
text_lt_trans [] (d ∷ t) (e ∷ u) p q = compare.nil-cons e u
text_lt_trans (c ∷ s) [] b p q = cc (compare.cons-nil c s)
text_lt_trans (c ∷ s) (d ∷ t) [] p q = cc (compare.cons-nil d t)
text_lt_trans (c ∷ s) (d ∷ t) (e ∷ u) p q =
    ground (arith, text_cons c d s t, text_cons d e t u, text_cons c e s u, text_lt_trans s t u)

instance unfoldable pub text_ord : Ord String
text_ord = record {
  cmp = compare;
  cmp_refl = compare_refl;
  eq_of_cmp = path_by_compare;
  lt_of_gt = text_lt_of_gt;
  lt_trans = text_lt_trans;
}

pub nat_refl : (x : ℕ) → compare_ℕ x x ≡ eq
nat_refl x = ground arith

pub nat_eq_of_cmp : (x y : ℕ) → compare_ℕ x y ≡ eq → x ≡ y
nat_eq_of_cmp x y h = ground arith

pub nat_lt_of_gt : (x y : ℕ) → compare_ℕ x y ≡ gt → compare_ℕ y x ≡ lt
nat_lt_of_gt x y h = ground arith

pub nat_lt_trans : (x y z : ℕ) → compare_ℕ x y ≡ lt → compare_ℕ y z ≡ lt → compare_ℕ x z ≡ lt
nat_lt_trans x y z p q = ground arith

instance unfoldable pub nat_ord : Ord ℕ
nat_ord = record {
  cmp = compare_ℕ;
  cmp_refl = nat_refl;
  eq_of_cmp = nat_eq_of_cmp;
  lt_of_gt = nat_lt_of_gt;
  lt_trans = nat_lt_trans;
}
