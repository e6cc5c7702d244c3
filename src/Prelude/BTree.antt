-- ===== src/Prelude/BTree.antt =====
-- `BTreeMap` of Rust: the entries in the order of their keys, each key once.
pub mod Sorted
use Prim.Native.Nat.{ℕ, ◌+◌}
use Prim.Native.Nat.Ordering.{lt, eq, gt}
use mathlib.Core.Path.{◌≡◌, refl}
use mathlib.Core.Option.{Option, none, some}
use mathlib.Core.List.{List, [], ◌∷◌, map}
use native.Mathlib.Omega.{arith}
use smallgateway.Prelude.Order.{Ord}

abbrev pub BTreeMap {ℓ κ} : Type ℓ → Type κ → Type (ℓ ⊔ κ)
BTreeMap K V = List (K × V)

module _ {ℓ κ} {K : Type ℓ} {V : Type κ} where
  unfoldable pub map_values : (V → V) → BTreeMap K V → BTreeMap K V
  map_values f [] = []
  map_values f ((k, v) ∷ m) = (k, f v) ∷ map_values f m

  -- the sum of `f` over the values
  unfoldable pub total : (V → ℕ) → BTreeMap K V → ℕ
  total f [] = 0
  total f ((k, v) ∷ m) = f v + total f m

module _ {ℓ κ} {K : Type ℓ} {V : Type κ} ⦃o : Ord K⦄ where
  unfoldable pub get : K → BTreeMap K V → Option V
  get k [] = none
  get k ((j, v) ∷ m) = elim (o.cmp k j) [ eq ↦ some v | _ ↦ get k m ]

  unfoldable pub insert : K → V → BTreeMap K V → BTreeMap K V
  insert k v [] = (k, v) ∷ []
  insert k v ((j, w) ∷ m) = elim (o.cmp k j) [
    | lt ↦ (k, v) ∷ (j, w) ∷ m
    | eq ↦ (k, v) ∷ m
    | gt ↦ (j, w) ∷ insert k v m
  ]

  unfoldable pub remove : K → BTreeMap K V → BTreeMap K V
  remove k [] = []
  remove k ((j, w) ∷ m) = elim (o.cmp k j) [ eq ↦ m | _ ↦ (j, w) ∷ remove k m ]

  abbrev pub keys : BTreeMap K V → List K
  keys m = map (λ e. e.0) m

  abbrev pub values : BTreeMap K V → List V
  values m = map (λ e. e.1) m

  -- `for (k, v) in other { m.insert(k, v) }`
  unfoldable pub insert_all : BTreeMap K V → BTreeMap K V → BTreeMap K V
  insert_all m [] = m
  insert_all m ((k, v) ∷ rest) = insert_all (insert k v m) rest

  -- A write is seen at its key, and nowhere else.
  pub get-insert :
      (k j : K) (v : V) (m : BTreeMap K V)
      → get j (insert k v m) ≡ elim (o.cmp j k) [ eq ↦ some v | _ ↦ get j m ]
  unfolding get insert
  get-insert k j v [] = refl
  get-insert k j v ((i, w) ∷ m) =
      ground (arith, o.eq_of_cmp k i, o.eq_of_cmp j i, o.eq_of_cmp j k, get-insert k j v m)

  pub get-insert_self : (k : K) (v : V) (m : BTreeMap K V) → get k (insert k v m) ≡ some v
  get-insert_self k v m = ground (arith, get-insert k k v m, o.cmp_refl k)
