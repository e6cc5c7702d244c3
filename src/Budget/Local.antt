-- ===== src/Budget/Local.antt =====
-- crates/gateway-core/src/budget.rs, `LocalBudget`: the decisions and the records of one node.
use smallgateway.Prelude.{
  ℕ, ◌+◌, ◌≤◌, ◌<◌, ◌≡◌, ◌↔◌, true, some, List, [], ◌∷◌, arith, min, max, sum, if◌then◌else◌,
}
use smallgateway.Float.{u64_max}
use smallgateway.Budget.{
  LocalBudget, deny, is_deny, sat_add, check, check_partitioned, commit, reconcile,
}

-- A spend is refused exactly when the value is capped and the new total would pass the cap, and
-- the refusal names the cap.
pub check-deny_iff :
    (b : LocalBudget) (tokens limit : ℕ)
    → (check b tokens ≡ deny limit) ↔ ((b.cap ≡ some limit) × (limit < sat_add b.spent tokens))
unfolding check
check-deny_iff b tokens limit = (λ h. ground arith, λ h. ground arith)

-- Cut off from the control plane, a spend is refused exactly when the new total would pass the
-- share that the node holds or the cap.
pub check_partitioned-deny_iff :
    (b : LocalBudget) (tokens limit : ℕ)
    → (check_partitioned b tokens ≡ deny limit)
      ↔ ((b.cap ≡ some limit) × (min b.share limit < sat_add b.spent tokens))
unfolding check_partitioned
check_partitioned-deny_iff b tokens limit = (λ h. ground arith, λ h. ground arith)

-- The partition admits no spend that the connected check refuses.
pub check_partitioned-stricter :
    (b : LocalBudget) (tokens : ℕ)
    → is_deny (check b tokens) ≡ true
    → is_deny (check_partitioned b tokens) ≡ true
unfolding check check_partitioned is_deny
check_partitioned-stricter b tokens h = ground arith

-- the spends that a node serves while it is cut off: each one that is not refused is recorded
unfoldable pub serve_partitioned : LocalBudget → List ℕ → LocalBudget
serve_partitioned b [] = b
serve_partitioned b (tokens ∷ rest) =
    serve_partitioned (if is_deny (check_partitioned b tokens) then b else commit b tokens) rest

serve_one :
    (b : LocalBudget) (tokens limit : ℕ)
    → b.cap ≡ some limit
    → let b' = if is_deny (check_partitioned b tokens) then b else commit b tokens in
      (b'.cap ≡ some limit) × (b'.share ≡ b.share) × (b'.spent ≤ max b.spent (min b.share limit))
unfolding check_partitioned commit is_deny
serve_one b tokens limit h = ground arith

pub partition_bound :
    (b : LocalBudget) (spends : List ℕ) (limit : ℕ)
    → b.cap ≡ some limit
    → (serve_partitioned b spends).spent ≤ max b.spent (min b.share limit)
unfolding serve_partitioned
partition_bound b [] limit h = omega arith
partition_bound b (tokens ∷ rest) limit h =
    let b' = if is_deny (check_partitioned b tokens) then b else commit b tokens in
    let (same_cap, same_share, bound) = serve_one b tokens limit h in
    omega (arith, partition_bound b' rest limit same_cap, same_share, bound)

-- an estimate that is recorded in pieces
unfoldable pub commit_all : LocalBudget → List ℕ → LocalBudget
commit_all b [] = b
commit_all b (tokens ∷ rest) = commit_all (commit b tokens) rest

commit_all-spent :
    (b : LocalBudget) (pieces : List ℕ)
    → b.spent + sum pieces ≤ u64_max
    → (commit_all b pieces).spent ≡ b.spent + sum pieces
unfolding commit_all commit
commit_all-spent b [] h = omega arith
commit_all-spent b (tokens ∷ rest) h =
    omega (arith, commit_all-spent (commit b tokens) rest (omega arith))

-- The authoritative count replaces the estimate that was recorded, also if the estimate was
-- recorded in pieces: where nothing saturates, the total rises by exactly the authoritative count.
pub reconcile-commit :
    (b : LocalBudget) (pieces : List ℕ) (authoritative : ℕ)
    → b.spent + sum pieces ≤ u64_max
    → b.spent + authoritative ≤ u64_max
    → (reconcile (commit_all b pieces) (sum pieces) authoritative).spent ≡ b.spent + authoritative
unfolding reconcile
reconcile-commit b pieces authoritative fits fits' = ground (arith, commit_all-spent b pieces fits)

-- the running total stays a `u64`
pub spent-le-max :
    (b : LocalBudget) (tokens authoritative : ℕ)
    → b.spent ≤ u64_max
    → ((commit b tokens).spent ≤ u64_max) × ((reconcile b tokens authoritative).spent ≤ u64_max)
unfolding commit reconcile
spent-le-max b tokens authoritative h = ground arith
