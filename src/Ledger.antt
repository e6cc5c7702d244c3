-- ===== src/Ledger.antt =====
-- crates/gatewayctl/src/budget.rs: the control plane's ledger of spend, the shares it grants from
-- it, and the alerts it raises. A method under the lock is one function on the state.
pub mod Floor
pub mod Conservation
pub mod Reports
pub mod Alerts
use smallgateway.Prelude.{
  ℕ, ◌-◌, ◌*◌, ◌%◌, ◌^◌, String, Bool, true, false, ◌&&◌, not, none, some, List, [], ◌∷◌, ◌++◌, ltb,
  leb, ◌==◌, min, max, length, if◌then◌else◌, unwrap_or, suc,
}
use smallgateway.Prelude.Order.{text_ord}
use smallgateway.Prelude.BTree.{BTreeMap, get, insert, remove, map_values, total}
use smallgateway.Float.{F64, u64_max, of_u64, ◌*f◌, ◌/f◌, literal, floor_u64}
use smallgateway.Float.Slice.{weighted_slice}
use smallgateway.Budget.{
  cap_id_ord, CapId, Alert, alert, soft_threshold, hard_cap, past_soft, soft_alert_fraction,
}

unfoldable pub cold_node_floor_fraction : F64
cold_node_floor_fraction = literal 1 10

abbrev pub fleet_node : String
fleet_node = "<control-plane>"

pub record CapState : Type 0 where
  pub cap : ℕ
  pub per_node_spend : BTreeMap String ℕ
  pub soft_fired : Bool
  pub hard_fired : Bool

-- `CapState::default()`
abbrev pub default_state : CapState
default_state = record { cap = 0; per_node_spend = []; soft_fired = false; hard_fired = false }

-- `sum()` on `u64` wraps in a release build
unfoldable pub total_spend_of : CapState → ℕ
total_spend_of e = total (λ s. s) e.per_node_spend % 2 ^ 64

pub record FleetBudgets : Type 0 where
  pub caps : BTreeMap CapId CapState
  pub spend_window_open : BTreeMap String ℕ

pub record ShareAllocation : Type 0 where
  pub id : CapId
  pub cap : ℕ
  pub share : ℕ

abbrev pub new : FleetBudgets
new = record { caps = []; spend_window_open = [] }

-- `entry(id).or_default()`
abbrev pub entry_of : FleetBudgets → CapId → CapState
entry_of b id = unwrap_or (get id b.caps) default_state

unfoldable pub observe_cap : FleetBudgets → CapId → ℕ → FleetBudgets
observe_cap b id limit =
    let e = entry_of b id in
    record b { caps = insert id (record e { cap = max e.cap limit }) b.caps }

unfoldable pub fleet_alerts : CapId → CapState → CapState × List Alert
fleet_alerts id e =
    let spend = total_spend_of e in
    let soft = not e.soft_fired && past_soft e.cap spend soft_alert_fraction in
    let hard = not e.hard_fired && leb e.cap spend in
    if e.cap == 0 then (e, []) else (
      record e {
        soft_fired = if soft then true else e.soft_fired;
        hard_fired = if hard then true else e.hard_fired;
      },
      (if soft
            then alert (soft_threshold soft_alert_fraction) id e.cap spend fleet_node ∷ []
            else [])
          ++ (if hard then alert hard_cap id e.cap spend fleet_node ∷ [] else []),
    )

-- the new figure of the node, and the latches armed again where the total fell
unfoldable pub replace_spend : CapState → String → ℕ → ℕ → CapState
replace_spend e node limit spent =
    let next = record e {
      cap = max e.cap limit;
      per_node_spend = insert node spent e.per_node_spend;
    } in
    if ltb (total_spend_of next) (total_spend_of e)
    then record next { soft_fired = false; hard_fired = false }
    else next

unfoldable pub report_spend : FleetBudgets → String → CapId → ℕ → ℕ → FleetBudgets × List Alert
report_spend b node id limit spent =
    let (e, alerts) = fleet_alerts id (replace_spend (entry_of b id) node limit spent) in
    (record b { caps = insert id e b.caps }, alerts)

unfoldable pub forget_node : FleetBudgets → String → FleetBudgets
forget_node b node = record b {
  caps = map_values (λ e. record e { per_node_spend = remove node e.per_node_spend }) b.caps;
}

-- `values().filter(|&&s| s == 0).count()`
unfoldable pub cold_count : BTreeMap String ℕ → ℕ
cold_count [] = 0
cold_count ((k, s) ∷ m) = let rest = cold_count m in if s == 0 then suc rest else rest

-- `(amount as f64 * COLD_NODE_FLOOR_FRACTION / node_count as f64).floor() as u64`
unfoldable pub floor_slice : ℕ → ℕ → ℕ
floor_slice amount node_count =
    floor_u64 ((of_u64 amount *f cold_node_floor_fraction) /f of_u64 node_count)

-- `share_for_node`, from the spend of the node on
unfoldable pub share_of : CapState → ℕ → ℕ
share_of e node_spent =
    let spend = total_spend_of e in
    let node_count = max (length e.per_node_spend) 1 in
    if e.cap == 0
    then 0
    else if spend == 0
    then floor_slice e.cap node_count
    else let cold = cold_count e.per_node_spend in
      let floor_each = if cold == 0 then 0 else floor_slice (e.cap - spend) node_count in
      if node_spent == 0
      then min floor_each e.cap
      else let hot_pool = e.cap - min (floor_each * cold) u64_max in
        min (weighted_slice hot_pool node_spent spend) e.cap

unfoldable pub share_for_node : String → CapState → ℕ
share_for_node node e = share_of e (unwrap_or (get node e.per_node_spend) 0)

shares_from : String → BTreeMap CapId CapState → List ShareAllocation
shares_from node [] = []
shares_from node ((id, e) ∷ m) =
    let rest = shares_from node m in
    if e.cap == 0
    then rest
    else record { id = id; cap = e.cap; share = share_for_node node e } ∷ rest

unfoldable pub shares_for : FleetBudgets → String → List ShareAllocation
unfolding shares_from
shares_for b node = shares_from node b.caps

unfoldable pub total_spend : FleetBudgets → CapId → ℕ
total_spend b id = elim (get id b.caps) [ none ↦ 0 | some e ↦ total_spend_of e ]

unfoldable pub node_total_spend : FleetBudgets → String → ℕ
node_total_spend b node =
    total (λ (e : CapState). unwrap_or (get node e.per_node_spend) 0) b.caps % 2 ^ 64

pub open_each : FleetBudgets → List String → BTreeMap String ℕ → BTreeMap String ℕ
open_each b [] opened = opened
open_each b (node ∷ nodes) opened = open_each b nodes (insert node (node_total_spend b node) opened)

-- The source collects the totals first; they do not depend on the map that it writes to.
unfoldable pub open_spend_window : FleetBudgets → List String → FleetBudgets
unfolding open_each
open_spend_window b nodes = record b { spend_window_open = open_each b nodes b.spend_window_open }

unfoldable pub node_windowed_spend : FleetBudgets → String → ℕ
node_windowed_spend b node = node_total_spend b node - unwrap_or (get node b.spend_window_open) 0

ledger_from : BTreeMap CapId CapState → List (CapId × ℕ × ℕ)
ledger_from [] = []
ledger_from ((id, e) ∷ m) =
    let rest = ledger_from m in if ltb 0 e.cap then (id, e.cap, total_spend_of e) ∷ rest else rest

unfoldable pub ledger : FleetBudgets → List (CapId × ℕ × ℕ)
unfolding ledger_from
ledger b = ledger_from b.caps
