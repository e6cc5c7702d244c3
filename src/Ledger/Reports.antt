-- ===== src/Ledger/Reports.antt =====
-- crates/gatewayctl/src/budget.rs: the ledger over any sequence of its operations.
use smallgateway.Prelude.{
  ℕ, ◌^◌, ◌≤◌, ◌<◌, ◌≡◌, String, some, List, [], ◌∷◌, arith, length, Option-cases, inl, inr,
}
use smallgateway.Prelude.Order.{text_ord}
use smallgateway.Prelude.BTree.{get, insert, total}
use smallgateway.Prelude.BTree.Sorted.{
  IsSorted, Every, insert-IsSorted, remove-IsSorted, map_values-IsSorted, Every-insert, Every-get,
  Every-map_values,
}
use smallgateway.Budget.{CapId, cap_id_ord}
use smallgateway.Ledger.{
  CapState, FleetBudgets, new, entry_of, observe_cap, fleet_alerts, replace_spend, report_spend,
  forget_node, open_spend_window,
}
use smallgateway.Ledger.Conservation.{granted, granted-le-cap}

abbrev SpendIsSorted : CapState → Type 0
SpendIsSorted e = IsSorted e.per_node_spend

-- what the maps of the ledger keep
pub record IsOrdered (b : FleetBudgets) : Type 0 where
  pub caps : IsSorted b.caps
  pub spends : Every SpendIsSorted b.caps

pub data Op : Type 0 where
  observe : CapId → ℕ → Op
  report : String → CapId → ℕ → ℕ → Op
  forget : String → Op
  open_window : List String → Op

unfoldable pub apply : FleetBudgets → Op → FleetBudgets
apply b (observe id limit) = observe_cap b id limit
apply b (report node id limit spent) = (report_spend b node id limit spent).0
apply b (forget node) = forget_node b node
apply b (open_window nodes) = open_spend_window b nodes

unfoldable pub run : FleetBudgets → List Op → FleetBudgets
run b [] = b
run b (op ∷ ops) = run (apply b op) ops

entry_of-IsSorted : (b : FleetBudgets) (id : CapId) → IsOrdered b → SpendIsSorted (entry_of b id)
entry_of-IsSorted b id h = elim (Option-cases (get id b.caps)) [
  | inl absent ↦ rw absent tt
  | inr (e, present) ↦ rw present (Every-get SpendIsSorted id b.caps h.spends present)
]

put-IsOrdered :
    (b : FleetBudgets) (id : CapId) (e : CapState)
    → IsOrdered b
    → SpendIsSorted e
    → IsOrdered (record b { caps = insert id e b.caps })
put-IsOrdered b id e h s = record {
  caps = insert-IsSorted id e b.caps h.caps;
  spends = Every-insert SpendIsSorted id e b.caps s h.spends;
}

spend-fleet_alerts :
    (id : CapId) (e : CapState) → (fleet_alerts id e).0.per_node_spend ≡ e.per_node_spend
unfolding fleet_alerts
spend-fleet_alerts id e = ground arith

spend-replace_spend :
    (e : CapState) (node : String) (limit spent : ℕ)
    → (replace_spend e node limit spent).per_node_spend ≡ insert node spent e.per_node_spend
unfolding replace_spend
spend-replace_spend e node limit spent = ground arith

apply-IsOrdered : (b : FleetBudgets) (op : Op) → IsOrdered b → IsOrdered (apply b op)
unfolding apply observe_cap report_spend forget_node open_spend_window
apply-IsOrdered b (observe id limit) h = put-IsOrdered b id _ h (entry_of-IsSorted b id h)
apply-IsOrdered b (report node id limit spent) h = put-IsOrdered b id _ h (
    rw (spend-fleet_alerts, spend-replace_spend)
      (insert-IsSorted node spent _ (entry_of-IsSorted b id h)))
apply-IsOrdered b (forget node) h = record {
  caps = map_values-IsSorted _ b.caps h.caps;
  spends =
      Every-map_values SpendIsSorted _ b.caps (λ e s. remove-IsSorted node e.per_node_spend s)
        h.spends;
}
apply-IsOrdered b (open_window nodes) h = record { caps = h.caps; spends = h.spends }

run-IsOrdered : (b : FleetBudgets) (ops : List Op) → IsOrdered b → IsOrdered (run b ops)
unfolding run
run-IsOrdered b [] h = h
run-IsOrdered b (op ∷ ops) h = run-IsOrdered (apply b op) ops (apply-IsOrdered b op h)

-- After any operations on a new ledger, the shares that all known nodes are granted of one capped
-- value sum to at most its cap, whatever was reported: for a cap below 2^50 tokens, where the sum of
-- the reported spend and the number of nodes fit into 64 bits. The grants are computed in `f64`.
pub shares_conserve_cap :
    (ops : List Op) (id : CapId) (e : CapState)
    → get id (run new ops).caps ≡ some e
    → e.cap < 2 ^ 50
    → total (λ s. s) e.per_node_spend < 2 ^ 64
    → length e.per_node_spend < 2 ^ 64
    → granted e ≤ e.cap
shares_conserve_cap ops id e found small reported nodes =
    let ordered = run-IsOrdered new ops (record { caps = tt; spends = tt }) in
    granted-le-cap e (Every-get SpendIsSorted id _ ordered.spends found) small reported nodes
