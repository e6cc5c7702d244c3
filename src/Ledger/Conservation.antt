-- ===== src/Ledger/Conservation.antt =====
-- crates/gatewayctl/src/budget.rs, `share_for_node`: the shares of all nodes of one capped value.
use native.Mathlib.Nat.{mul-le-mul_right, mul-le-mul_left, le_of_mul-le-mul_right}
use native.Mathlib.Decide.{dec_lt}
use smallgateway.Prelude.{
  ℕ, zero, suc, ◌+◌, ◌-◌, ◌*◌, ◌^◌, ◌≤◌, ◌<◌, ◌≡◌, refl, ap, inl, inr, String, some, false, [], ◌∷◌,
  map, arith, sum, length, unwrap_or, if◌then◌else◌, ◌==◌, min, max, Bool-cases,
}
use smallgateway.Prelude.Order.{text_ord}
use smallgateway.Prelude.BTree.{BTreeMap, get, keys, total}
use smallgateway.Prelude.BTree.Sorted.{Above, IsSorted}
use smallgateway.Float.{u64_max}
use smallgateway.Float.Slice.{weighted_slice, weighted_slice_error}
use smallgateway.Ledger.{
  CapState, total_spend_of, cold_count, floor_slice, share_of, share_for_node,
}
use smallgateway.Ledger.Floor.{floor_slice_bound}

-- what all nodes of the value are granted
pub granted : CapState → ℕ
granted e = sum (map (λ node. share_for_node node e) (keys e.per_node_spend))

-- every entry of `m` is the entry of its key in `full`
abbrev Agrees : BTreeMap String ℕ → BTreeMap String ℕ → Type 0
Agrees full [] = Unit
Agrees full ((k, s) ∷ m) = (get k full ≡ some s) × Agrees full m

Agrees-cons :
    (k : String) (s : ℕ) (full m : BTreeMap String ℕ)
    → Above k m
    → Agrees full m
    → Agrees ((k, s) ∷ full) m
unfolding get
Agrees-cons k s full [] a h = tt
Agrees-cons k s full ((j, t) ∷ m) a h = (
  ground (arith, text_ord.lt_of_gt j k, text_ord.eq_of_cmp j k, text_ord.cmp_refl k, h.0),
  Agrees-cons k s full m a.1 h.1,
)

Agrees-self : (m : BTreeMap String ℕ) → IsSorted m → Agrees m m
unfolding get
Agrees-self [] h = tt
Agrees-self ((k, s) ∷ m) h =
    (ground (arith, text_ord.cmp_refl k), Agrees-cons k s m m h.0 (Agrees-self m h.1))

shares_by_spend :
    (g : ℕ → ℕ) (full m : BTreeMap String ℕ)
    → Agrees full m
    → sum (map (λ k. g (unwrap_or (get k full) 0)) (keys m)) ≡ total g m
unfolding total
shares_by_spend g full [] h = refl
shares_by_spend g full ((k, s) ∷ m) h = rw (h.0, shares_by_spend g full m h.1)

granted-eq-total :
    (e : CapState) → IsSorted e.per_node_spend → granted e ≡ total (share_of e) e.per_node_spend
unfolding granted share_for_node
granted-eq-total e h =
    shares_by_spend (share_of e) e.per_node_spend e.per_node_spend (Agrees-self _ h)

total_even : (c : ℕ) (m : BTreeMap String ℕ) → total (λ _. c) m ≡ c * length m
unfolding total
total_even c [] = omega arith
total_even c ((k, s) ∷ m) = omega (arith, total_even c m)

-- a hot node's slice or a cold node's floor
abbrev portion : ℕ → ℕ → ℕ → ℕ → ℕ → ℕ
portion limit floor_each pool spend s =
    if s == 0 then min floor_each limit else min (weighted_slice pool s spend) limit

suc-eq-zero : (s : ℕ) → (suc s == 0) ≡ false
suc-eq-zero s = ground arith

portions_bound :
    (limit floor_each pool spend : ℕ) (m : BTreeMap String ℕ)
    → spend < 2 ^ 64
    → total (λ s. s) m ≤ spend
    → total (portion limit floor_each pool spend) m * spend * 2 ^ 50
      ≤ pool * total (λ s. s) m * (2 ^ 50 + 1) + floor_each * cold_count m * spend * 2 ^ 50
unfolding total cold_count
portions_bound limit floor_each pool spend [] fits h = omega arith
portions_bound limit floor_each pool spend ((k, zero) ∷ m) fits h = omega (
  arith,
  portions_bound limit floor_each pool spend m fits (omega arith),
  mul-le-mul_right {m = min floor_each limit} {n = floor_each} spend (omega arith),
)
portions_bound limit floor_each pool spend ((k, suc s) ∷ m) fits h = rw suc-eq-zero (
    omega (
      arith,
      portions_bound limit floor_each pool spend m fits (omega arith),
      weighted_slice_error pool (suc s) spend (omega arith) (omega arith) fits,
      mul-le-mul_right {m = min (weighted_slice pool (suc s) spend) limit}
          {n = weighted_slice pool (suc s) spend} spend (omega arith),
    ))

total-le : (f g : ℕ → ℕ) (m : BTreeMap String ℕ) → ((s : ℕ) → f s ≤ g s) → total f m ≤ total g m
unfolding total
total-le f g [] h = omega arith
total-le f g ((k, s) ∷ m) h = omega (arith, h s, total-le f g m h)

cold_count-le-length : (m : BTreeMap String ℕ) → cold_count m ≤ length m
unfolding cold_count
cold_count-le-length [] = omega arith
cold_count-le-length ((k, s) ∷ m) = ground (arith, cold_count-le-length m)

-- the floor of each cold node, and what is left to the hot ones
abbrev floor_of : CapState → ℕ
floor_of e =
    if cold_count e.per_node_spend == 0
    then 0
    else floor_slice (e.cap - total_spend_of e) (max (length e.per_node_spend) 1)

abbrev reserved_of : CapState → ℕ
reserved_of e = floor_of e * cold_count e.per_node_spend

abbrev pool_of : CapState → ℕ
pool_of e = e.cap - min (reserved_of e) u64_max

share_of_cold :
    (e : CapState) (s : ℕ)
    → total_spend_of e ≡ 0
    → share_of e s ≤ floor_slice e.cap (max (length e.per_node_spend) 1)
unfolding share_of
share_of_cold e s h = ground arith

share_of_hot :
    (e : CapState) (s : ℕ)
    → 0 < total_spend_of e
    → share_of e s ≤ portion e.cap (floor_of e) (pool_of e) (total_spend_of e) s
unfolding share_of
share_of_hot e s h = ground arith

reserved-le : (e : CapState) → length e.per_node_spend < 2 ^ 64 → reserved_of e ≤ e.cap
reserved-le e nodes = elim (Bool-cases (cold_count e.per_node_spend == 0)) [
  | inl none_cold ↦ rw none_cold (omega arith)
  | inr some_cold ↦
      let n = max (length e.per_node_spend) 1 in
      let f = floor_slice (e.cap - total_spend_of e) n in
      rw some_cold (
        omega (
          arith,
          floor_slice_bound (e.cap - total_spend_of e) n (omega arith) (omega arith),
          mul-le-mul_left {m = cold_count e.per_node_spend} {n = n} f
              (omega (arith, cold_count-le-length e.per_node_spend)),
        ))
]

module _ (e : CapState) (small : e.cap < 2 ^ 50)
    (reported : total (λ s. s) e.per_node_spend < 2 ^ 64)
    (nodes : length e.per_node_spend < 2 ^ 64) where
  spend-eq : total_spend_of e ≡ total (λ s. s) e.per_node_spend
  unfolding total_spend_of
  spend-eq = omega arith

  cold_fleet : total_spend_of e ≡ 0 → total (share_of e) e.per_node_spend ≤ e.cap
  cold_fleet h =
      let n = max (length e.per_node_spend) 1 in
      let f = floor_slice e.cap n in
      omega (
        arith,
        total-le (share_of e) (λ _. f) e.per_node_spend (λ s. share_of_cold e s h),
        total_even f e.per_node_spend,
        floor_slice_bound e.cap n (omega arith) (omega arith),
        mul-le-mul_left {m = length e.per_node_spend} {n = n} f (omega arith),
      )

  hot_fleet : 0 < total_spend_of e → total (share_of e) e.per_node_spend ≤ e.cap
  hot_fleet h =
      let t = total_spend_of e in
      let p = portion e.cap (floor_of e) (pool_of e) t in
      let bound : total p e.per_node_spend * 2 ^ 50
          ≤ pool_of e * (2 ^ 50 + 1) + reserved_of e * 2 ^ 50 =
        le_of_mul-le-mul_right {k = t}
          (omega (
            arith,
            portions_bound e.cap (floor_of e) (pool_of e) t e.per_node_spend
                (omega (arith, spend-eq)) (omega (arith, spend-eq)),
            ap (λ (k : ℕ). pool_of e * k) spend-eq,
          ))
          h in
      omega (
        arith,
        bound,
        reserved-le e nodes,
        total-le (share_of e) p e.per_node_spend (λ s. share_of_hot e s h),
      )

-- All nodes together are granted at most the cap, for every number of nodes and every mix of hot and
-- cold ones, also where they have already spent more than the cap: for caps below 2^50 tokens, where
-- the reported spend does not overflow `u64`. The rounding of the `f64` divisions is included.
pub granted-le-cap :
    (e : CapState)
    → IsSorted e.per_node_spend
    → e.cap < 2 ^ 50
    → total (λ s. s) e.per_node_spend < 2 ^ 64
    → length e.per_node_spend < 2 ^ 64
    → granted e ≤ e.cap
granted-le-cap e sorted small reported nodes =
    rw (granted-eq-total e sorted) (elim (dec_lt 0 (total_spend_of e)) [
      | yes hot ↦ hot_fleet e small reported nodes hot
      | no cold ↦ cold_fleet e small reported nodes (omega arith)
    ])
