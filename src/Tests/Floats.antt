-- ===== src/Tests/Floats.antt =====
-- The arithmetic of `f64` on known values, and a cap beyond the bound of the conservation theorem.
use smallgateway.Prelude.{◌+◌, ◌^◌, ◌≡◌, refl, [], ◌∷◌, false}
use smallgateway.Prelude.BTree.{total}
use smallgateway.Float.{literal, ◌*f◌, ◌/f◌, of_u64, floor_u64}
use smallgateway.Float.Slice.{weighted_slice}
use smallgateway.Ledger.{CapState, share_of, total_spend_of, cold_count}

tenth_thrice : literal 1 10 *f of_u64 3 ≡ literal 30000000000000004 100000000000000000
unfolding literal ◌*f◌ of_u64
tenth_thrice = refl

slice_test : floor_u64 (of_u64 100000 *f (of_u64 55000 /f of_u64 75000)) ≡ 73333
unfolding floor_u64 ◌/f◌ ◌*f◌ of_u64
slice_test = refl

-- two nodes that spent alike under a cap of 2^53 + 3
abbrev huge : CapState
huge = record {
  cap = 2 ^ 53 + 3;
  per_node_spend = ("n1", 1) ∷ ("n2", 1) ∷ [];
  soft_fired = false;
  hard_fired = false;
}

-- their shares sum to one token more than the cap
huge_cap_overgrants : share_of huge 1 + share_of huge 1 ≡ 2 ^ 53 + 4
unfolding share_of total_spend_of total cold_count weighted_slice floor_u64 ◌/f◌ ◌*f◌ of_u64
huge_cap_overgrants = refl
