-- ===== src/Frames/Bytes.antt =====
-- crates/gateway-core/src/eventstream.rs, `encode_frame` and `decode_frame`: slices and big-endian
-- numbers.
use smallgateway.Prelude.{
  ℕ, ◌+◌, ◌-◌, ◌<◌, ◌≡◌, refl, ap, sym, ◌∙◌, List, [], ◌∷◌, ◌++◌, length, arith,
}
use smallgateway.Frames.{take, drop, slice, be16, be32, from_be}

pub take-append : (xs ys : List ℕ) → take (length xs) (xs ++ ys) ≡ xs
take-append [] ys = refl
take-append (x ∷ xs) ys = ground (arith, take-append xs ys)

pub from_be-be16 : (n : ℕ) → n < 65536 → from_be 0 (be16 n) ≡ n
from_be-be16 n h = omega arith

pub from_be-be32 : (n : ℕ) → n < 4294967296 → from_be 0 (be32 n) ≡ n
from_be-be32 n h = omega arith

pub drop_all : (xs ys : List ℕ) → drop (length xs) (xs ++ ys) ≡ ys
drop_all [] ys = refl
drop_all (x ∷ xs) ys = drop_all xs ys

-- the same with the length and the list as they stand elsewhere
pub take_of : (i : ℕ) (a c bytes : List ℕ) → bytes ≡ a ++ c → length a ≡ i → take i bytes ≡ a
take_of i a c bytes e h = rw (e, sym h) (take-append a c)

pub drop_of : (i : ℕ) (a c bytes : List ℕ) → bytes ≡ a ++ c → length a ≡ i → drop i bytes ≡ c
drop_of i a c bytes e h = rw (e, sym h) (drop_all a c)

pub slice_of :
    (i j : ℕ) (a b c bytes : List ℕ)
    → bytes ≡ a ++ (b ++ c)
    → length a ≡ i
    → i + length b ≡ j
    → slice i j bytes ≡ b
slice_of i j a b c bytes e h k =
    ap (take (j - i)) (drop_of i a (b ++ c) bytes e h)
    ∙ take_of (j - i) b c (b ++ c) refl (ground (arith, k))
