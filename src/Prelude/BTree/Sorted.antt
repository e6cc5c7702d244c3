-- ===== src/Prelude/BTree/Sorted.antt =====
-- The order of the keys, and what it gives: a removed key is gone, and sums over the values.
use Prim.Native.Nat.{ℕ, ◌+◌, Ordering}
use Prim.Native.Nat.Ordering.{lt, eq, gt}
use mathlib.Core.Path.{◌≡◌, refl, subst}
use mathlib.Core.Option
use mathlib.Core.Option.{Option, none, some, some-injective}
use mathlib.Core.List.{[], ◌∷◌}
use native.Mathlib.Omega.{arith}
use smallgateway.Prelude.Tests.{or_else}
use smallgateway.Prelude.Order.{Ord}
use smallgateway.Prelude.BTree.{
  BTreeMap, get, insert, remove, total, map_values, insert_all, get-insert,
}

-- `f` of the value that was found, 0 where there was none
abbrev pub at_or_zero {κ} : {V : Type κ} → (V → ℕ) → Option V → ℕ
at_or_zero f none = 0
at_or_zero f (some v) = f v

module _ {ℓ κ ρ} {K : Type ℓ} {V : Type κ} where
  -- a property of every value
  abbrev pub Every : (V → Type ρ) → BTreeMap K V → Type ρ
  Every P [] = Unit
  Every P ((k, v) ∷ m) = P v × Every P m

module _ {ℓ κ} {K : Type ℓ} {V : Type κ} ⦃o : Ord K⦄ where
  -- every key of the map comes after `k`
  abbrev pub Above : K → BTreeMap K V → Type 0
  Above k [] = Unit
  Above k ((j, v) ∷ m) = (o.cmp k j ≡ lt) × Above k m

  abbrev pub IsSorted : BTreeMap K V → Type 0
  IsSorted [] = Unit
  IsSorted ((k, v) ∷ m) = Above k m × IsSorted m

  Above-trans : (k j : K) (m : BTreeMap K V) → o.cmp k j ≡ lt → Above j m → Above k m
  Above-trans k j [] h a = tt
  Above-trans k j ((i, v) ∷ m) h a = (o.lt_trans k j i h a.0, Above-trans k j m h a.1)

  Above-insert :
      (i k : K) (v : V) (m : BTreeMap K V) → o.cmp i k ≡ lt → Above i m → Above i (insert k v m)
  unfolding insert
  Above-insert i k v [] h a = (h, tt)
  Above-insert i k v ((j, w) ∷ m) h a = ground (arith, Above-insert i k v m h a.1)

  pub insert-IsSorted : (k : K) (v : V) (m : BTreeMap K V) → IsSorted m → IsSorted (insert k v m)
  unfolding insert
  insert-IsSorted k v [] h = (tt, tt)
  insert-IsSorted k v ((j, w) ∷ m) h = ground (
    arith,
    Above-trans k j m,
    o.eq_of_cmp k j,
    o.lt_of_gt k j,
    Above-insert j k v m,
    insert-IsSorted k v m h.1,
  )

  Above-remove : (i k : K) (m : BTreeMap K V) → Above i m → Above i (remove k m)
  unfolding remove
  Above-remove i k [] a = tt
  Above-remove i k ((j, w) ∷ m) a = ground (arith, Above-remove i k m a.1)

  pub remove-IsSorted : (k : K) (m : BTreeMap K V) → IsSorted m → IsSorted (remove k m)
  unfolding remove
  remove-IsSorted k [] h = tt
  remove-IsSorted k ((j, w) ∷ m) h = ground (arith, Above-remove j k m h.0, remove-IsSorted k m h.1)

  -- a key below all others is not in the map
  pub get-Above : (k : K) (m : BTreeMap K V) → Above k m → get k m ≡ none
  unfolding get
  get-Above k [] a = refl
  get-Above k ((j, w) ∷ m) a = ground (arith, get-Above k m a.1)

  -- of two maps that are merged, the inserted one is read first
  pub get-insert_all :
      (j : K) (m other : BTreeMap K V)
      → IsSorted other
      → get j (insert_all m other) ≡ or_else (get j other) (get j m)
  unfolding get insert_all
  get-insert_all j m [] h = refl
  get-insert_all j m ((k, v) ∷ rest) h = ground (
    arith,
    get-insert_all j (insert k v m) rest h.1,
    get-insert k j v m,
    get-Above k rest h.0,
    o.eq_of_cmp j k,
  )

  pub insert_all-IsSorted : (m other : BTreeMap K V) → IsSorted m → IsSorted (insert_all m other)
  unfolding insert_all
  insert_all-IsSorted m [] h = h
  insert_all-IsSorted m ((k, v) ∷ rest) h =
      insert_all-IsSorted (insert k v m) rest (insert-IsSorted k v m h)

  pub get-remove :
      (k j : K) (m : BTreeMap K V)
      → IsSorted m
      → get j (remove k m) ≡ elim (o.cmp j k) [ eq ↦ none | _ ↦ get j m ]
  unfolding get remove
  get-remove k j [] h = ground arith
  get-remove k j ((i, w) ∷ m) h = ground (
    arith,
    o.eq_of_cmp k i,
    o.eq_of_cmp j i,
    o.eq_of_cmp j k,
    o.cmp_refl k,
    get-Above i m h.0,
    get-remove k j m h.1,
  )

  module _ (f : V → ℕ) where
    pub total-insert :
        (k : K) (v : V) (m : BTreeMap K V)
        → IsSorted m
        → total f (insert k v m) + at_or_zero f (get k m) ≡ f v + total f m
    unfolding total insert get
    total-insert k v [] h = omega arith
    total-insert k v ((j, w) ∷ m) h =
        ground (arith, total-insert k v m h.1, get-Above k m, Above-trans k j m)

    pub total-remove :
        (k : K) (m : BTreeMap K V) → total f (remove k m) + at_or_zero f (get k m) ≡ total f m
    unfolding total remove get
    total-remove k [] = omega arith
    total-remove k ((j, w) ∷ m) = ground (arith, total-remove k m)

  module _ {ρ} (P : V → Type ρ) where
    pub Every-insert : (k : K) (v : V) (m : BTreeMap K V) → P v → Every P m → Every P (insert k v m)
    unfolding insert
    Every-insert k v [] p h = (p, tt)
    Every-insert k v ((j, w) ∷ m) p h = ground (arith, Every-insert k v m p h.1)

    pub Every-remove : (k : K) (m : BTreeMap K V) → Every P m → Every P (remove k m)
    unfolding remove
    Every-remove k [] h = tt
    Every-remove k ((j, w) ∷ m) h = ground (arith, Every-remove k m h.1)

    pub Every-get : (k : K) (m : BTreeMap K V) {v : V} → Every P m → get k m ≡ some v → P v
    unfolding get
    Every-get k [] h e = cc
    Every-get k ((j, w) ∷ m) {v} h e = found (o.cmp k j) (λ p. Every-get k m h.1 p) e
      where
        found :
            (r : Ordering)
            → (get k m ≡ some v → P v)
            → elim r [ eq ↦ some w | _ ↦ get k m ] ≡ some v
            → P v
        found eq tail e = subst P (some-injective w v e) h.0
        found lt tail e = tail e
        found gt tail e = tail e

module _ {ℓ κ ρ} {K : Type ℓ} {V : Type κ} (P : V → Type ρ) (f : V → V) where
  pub Every-map_values :
      (m : BTreeMap K V) → ((v : V) → P v → P (f v)) → Every P m → Every P (map_values f m)
  unfolding map_values
  Every-map_values [] step h = tt
  Every-map_values ((k, v) ∷ m) step h = (step v h.0, Every-map_values m step h.1)

module _ {ℓ κ} {K : Type ℓ} {V : Type κ} ⦃o : Ord K⦄ (f : V → V) where
  Above-map_values : (k : K) (m : BTreeMap K V) → Above k m → Above k (map_values f m)
  unfolding map_values
  Above-map_values k [] a = tt
  Above-map_values k ((j, v) ∷ m) a = (a.0, Above-map_values k m a.1)

  pub map_values-IsSorted : (m : BTreeMap K V) → IsSorted m → IsSorted (map_values f m)
  unfolding map_values
  map_values-IsSorted [] h = tt
  map_values-IsSorted ((k, v) ∷ m) h = (Above-map_values k m h.0, map_values-IsSorted m h.1)

  pub get-map_values : (k : K) (m : BTreeMap K V) → get k (map_values f m) ≡ Option.map f (get k m)
  unfolding get map_values
  get-map_values k [] = refl
  get-map_values k ((j, v) ∷ m) = ground (arith, get-map_values k m)
