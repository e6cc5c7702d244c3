-- ===== src/Prelude/Lists.antt =====
-- Lists measured by native numbers, and predicates on lists.
use Prim.Native.Nat.{ℕ, zero, suc, ◌+◌}
use Prim.Native.String.{String}
use mathlib.Core.Path.{◌≡◌, refl}
use mathlib.Core.Bool.{Bool, true, false, ◌||◌}
use mathlib.Core.Option.{Option, none, some}
use mathlib.Core.List.{List, [], ◌∷◌, ◌++◌}
use native.Mathlib.Omega.{arith}
use text.Mathlib.Text.{◌==◌ as text_eq}

module _ {ℓ} {A : Type ℓ} where
  abbrev pub length : List A → ℕ
  length [] = 0
  length (x ∷ xs) = suc (length xs)

  abbrev pub get_elem? : List A → ℕ → Option A
  get_elem? [] i = none
  get_elem? (x ∷ xs) zero = some x
  get_elem? (x ∷ xs) (suc i) = get_elem? xs i

  pub length-append : (xs ys : List A) → length (xs ++ ys) ≡ length xs + length ys
  length-append [] ys = omega arith
  length-append (x ∷ xs) ys = omega (arith, length-append xs ys)

abbrev pub sum : List ℕ → ℕ
sum [] = 0
sum (x ∷ xs) = x + sum xs

abbrev pub All {ℓ κ} : {A : Type ℓ} → (A → Type κ) → List A → Type κ
All P [] = Unit
All P (x ∷ xs) = P x × All P xs

-- `xs.contains(&x)` on texts
abbrev pub str_mem : String → List String → Bool
str_mem k [] = false
str_mem k (x ∷ xs) = text_eq x k || str_mem k xs

module _ {ℓ} {A : Type ℓ} where
  -- `Iterator::position`
  unfoldable pub position : (A → Bool) → List A → Option ℕ
  position p [] = none
  position p (x ∷ xs) =
      let later = position p xs in
      elim (p x) [ true ↦ some 0 | false ↦ elim later [ none ↦ none | some i ↦ some (suc i) ] ]

  -- `xss[i].push(x)`
  unfoldable pub push_at : ℕ → A → List (List A) → List (List A)
  push_at i x [] = []
  push_at zero x (ys ∷ yss) = (ys ++ x ∷ []) ∷ yss
  push_at (suc i) x (ys ∷ yss) = ys ∷ push_at i x yss

pub str_mem-append :
    (k : String) (xs ys : List String) → str_mem k (xs ++ ys) ≡ (str_mem k xs || str_mem k ys)
str_mem-append k [] ys = refl
str_mem-append k (x ∷ xs) ys = ground (arith, str_mem-append k xs ys)
