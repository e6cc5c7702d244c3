-- ===== src/Ledger/Alerts.antt =====
-- crates/gatewayctl/src/budget.rs: the alerts of `report_spend`, and the spend that is counted for
-- a node.
use Prim.Native.Nat.Ordering.{eq}
use smallgateway.Prelude.{
  ℕ, ◌+◌, ◌-◌, ◌≤◌, ◌≡◌, ap, ◌⊎◌, true, String, some, List, [], ◌∷◌, ◌++◌, arith, unwrap_or, ltb,
  inl, str_mem, eq_iff,
}
use smallgateway.Prelude.Order.{text_ord}
use smallgateway.Prelude.BTree.{
  BTreeMap, get, insert, remove, map_values, total, get-insert, get-insert_self,
}
use smallgateway.Prelude.BTree.Sorted.{IsSorted, get-remove, Every}
use smallgateway.Budget.{CapId, cap_id_ord, Alert}
use smallgateway.Budget.Latch.{flag, soft_count, hard_count, soft_count-append, hard_count-append}
use smallgateway.Ledger.{
  CapState, FleetBudgets, entry_of, fleet_alerts, replace_spend, total_spend_of, report_spend,
  forget_node, node_total_spend, open_spend_window, open_each, node_windowed_spend,
}

pub fleet_counts :
    (id : CapId) (e : CapState)
    → let (e', alerts) = fleet_alerts id e in
      (soft_count alerts + flag e.soft_fired ≡ flag e'.soft_fired)
      × (hard_count alerts + flag e.hard_fired ≡ flag e'.hard_fired)
unfolding fleet_alerts
fleet_counts id e = ground arith

-- one `UsageReport` for a capped value
pub record Report : Type 0 where
  pub node : String
  pub limit : ℕ
  pub spent : ℕ

module _ (id : CapId) where
  -- 1 where the report makes the fleet's total smaller
  abbrev fall : CapState → Report → ℕ
  fall e r = flag (ltb (total_spend_of (replace_spend e r.node r.limit r.spent)) (total_spend_of e))

  abbrev after : FleetBudgets → Report → FleetBudgets
  after b r = (report_spend b r.node id r.limit r.spent).0

  pub report_alerts : FleetBudgets → List Report → List Alert
  report_alerts b [] = []
  report_alerts b (r ∷ rs) =
      (report_spend b r.node id r.limit r.spent).1 ++ report_alerts (after b r) rs

  pub falls : FleetBudgets → List Report → ℕ
  falls b [] = 0
  falls b (r ∷ rs) = fall (entry_of b id) r + falls (after b r) rs

  replace_flags :
      (e : CapState) (r : Report)
      → let e' = replace_spend e r.node r.limit r.spent in
        (flag e.soft_fired ≤ flag e'.soft_fired + fall e r)
        × (flag e.hard_fired ≤ flag e'.hard_fired + fall e r)
  unfolding replace_spend total_spend_of
  replace_flags e r = ground arith

  entry_of-report :
      (b : FleetBudgets) (r : Report)
      → entry_of (after b r) id
        ≡ (fleet_alerts id (replace_spend (entry_of b id) r.node r.limit r.spent)).0
  unfolding report_spend
  entry_of-report b r = rw get-insert_self

  step_counts :
      (b : FleetBudgets) (r : Report)
      → let alerts = (report_spend b r.node id r.limit r.spent).1 in
        (soft_count alerts + flag (entry_of b id).soft_fired
          ≤ flag (entry_of (after b r) id).soft_fired + fall (entry_of b id) r)
        × (hard_count alerts + flag (entry_of b id).hard_fired
            ≤ flag (entry_of (after b r) id).hard_fired + fall (entry_of b id) r)
  unfolding report_spend
  step_counts b r = omega (
    arith,
    fleet_counts id (replace_spend (entry_of b id) r.node r.limit r.spent),
    replace_flags (entry_of b id) r,
    ap (λ (e : CapState). flag e.soft_fired) (entry_of-report b r),
    ap (λ (e : CapState). flag e.hard_fired) (entry_of-report b r),
  )

  -- Over any row of reports for a capped value each fleet alert fires at most once, and once more
  -- for each report that made the fleet's total fall, as a node does that has entered a new window.
  pub fleet_alerts_once :
      (b : FleetBudgets) (reports : List Report)
      → (soft_count (report_alerts b reports) + flag (entry_of b id).soft_fired
          ≤ 1 + falls b reports)
        × (hard_count (report_alerts b reports) + flag (entry_of b id).hard_fired
            ≤ 1 + falls b reports)
  unfolding report_alerts falls
  fleet_alerts_once b [] = ground arith
  fleet_alerts_once b (r ∷ rs) =
      let alerts = (report_spend b r.node id r.limit r.spent).1 in
      omega (
        arith,
        step_counts b r,
        fleet_alerts_once (after b r) rs,
        soft_count-append alerts (report_alerts (after b r) rs),
        hard_count-append alerts (report_alerts (after b r) rs),
      )

spend_after_forget :
    (node other : String) (e : CapState)
    → IsSorted e.per_node_spend
    → unwrap_or (get other (remove node e.per_node_spend)) 0
      ≡ elim (text_ord.cmp other node) [ eq ↦ 0 | _ ↦ unwrap_or (get other e.per_node_spend) 0 ]
spend_after_forget node other e h = ground (arith, get-remove node other e.per_node_spend h)

forget_total :
    (node other : String) (m : BTreeMap CapId CapState)
    → Every (λ e. IsSorted e.per_node_spend) m
    → total
        (λ (e : CapState). unwrap_or (get other e.per_node_spend) 0)
        (map_values (λ e. record e { per_node_spend = remove node e.per_node_spend }) m)
      ≡ elim (text_ord.cmp other node) [
        | eq ↦ 0
        | _ ↦ total (λ (e : CapState). unwrap_or (get other e.per_node_spend) 0) m
      ]
unfolding total map_values
forget_total node other [] h = ground arith
forget_total node other ((k, e) ∷ m) h =
    ground (arith, forget_total node other m h.1, spend_after_forget node other e h.0)

-- A departed node is no longer counted at any capped value, and every other node is counted as
-- before.
pub node_total_spend-forget :
    (b : FleetBudgets) (node other : String)
    → Every (λ e. IsSorted e.per_node_spend) b.caps
    → node_total_spend (forget_node b node) other
      ≡ elim (text_ord.cmp other node) [ eq ↦ 0 | _ ↦ node_total_spend b other ]
unfolding node_total_spend forget_node
node_total_spend-forget b node other h = ground (arith, forget_total node other b.caps h)

-- the zero point of a window is the node's total when it was opened
opened_at :
    (b : FleetBudgets) (nodes : List String) (opened : BTreeMap String ℕ) (node : String)
    → (str_mem node nodes ≡ true) ⊎ (get node opened ≡ some (node_total_spend b node))
    → get node (open_each b nodes opened) ≡ some (node_total_spend b node)
unfolding open_each
opened_at b [] opened node h = ground arith
opened_at b (n ∷ nodes) opened node h =
    opened_at b nodes (insert n (node_total_spend b n) opened) node (
      ground (
        arith,
        eq_iff n node,
        text_ord.cmp_refl node,
        text_ord.eq_of_cmp node n,
        get-insert n node (node_total_spend b n) opened,
      ))

-- An analysis window that was opened for a node shows the spend since then, and nothing before:
-- whatever the ledger of caps becomes, it is the node's total less the total at the opening.
pub windowed_spend :
    (b later : FleetBudgets) (nodes : List String) (node : String)
    → str_mem node nodes ≡ true
    → later.spend_window_open ≡ (open_spend_window b nodes).spend_window_open
    → node_windowed_spend later node ≡ node_total_spend later node - node_total_spend b node
unfolding node_windowed_spend open_spend_window
windowed_spend b later nodes node h same =
    rw (same, opened_at b nodes b.spend_window_open node (inl h))
