-- ===== src/Tests/Budgets.antt =====
-- Caps, counters, alerts and the ledger at concrete inputs.
use smallgateway.Prelude.{◌+◌, ◌≤◌, ◌≡◌, refl, false, none, some, List, [], ◌∷◌, min, max}
use smallgateway.Prelude.Order.{text_ord}
use smallgateway.Prelude.BTree.{get, insert, total, remove, map_values}
use smallgateway.Float.{literal, of_u64, ◌/f◌}
use smallgateway.Budget.{
  CapId, cap_id_ord, KeyCap, LocalBudget, past_soft, soft_alert_fraction, hour,
}
use smallgateway.Budget.Local.{partition_bound, serve_partitioned}
use smallgateway.Budget.Latch.{Reading, flag, soft_count, hard_count}
use smallgateway.Ledger
use smallgateway.Ledger.{
  CapState, FleetBudgets, entry_of, forget_node, report_spend, total_spend_of, observe_cap,
  fleet_alerts, replace_spend,
}
use smallgateway.Ledger.Reports.{Op, observe, report, forget, apply, run}
use smallgateway.Ledger.Alerts.{Report, report_alerts, falls, fleet_alerts_once}

abbrev acme : CapId
acme = record { key = "team"; value = "acme" }

-- a counter with a cap of 100 and a share of 60
abbrev counter : LocalBudget
counter = record { id = acme; cap = some 100; share = 60; spent = 10 }

partition_bound_example :
    (serve_partitioned counter (30 ∷ 30 ∷ 15 ∷ [])).spent ≤ max 10 (min 60 100)
partition_bound_example = partition_bound counter (30 ∷ 30 ∷ 15 ∷ []) 100 refl

abbrev global : KeyCap
global = record {
  default = some 100;
  overrides = ("acme", some 500) ∷ [];
  window = some hour;
  alert_fraction = none;
}

abbrev region : KeyCap
region = record {
  default = none;
  overrides = ("acme", some 300) ∷ ("beta", none) ∷ [];
  window = none;
  alert_fraction = none;
}

abbrev readings : List Reading
readings =
    record { limit = 100; spend = 85; fraction = literal 8 10 }
    ∷ record { limit = 100; spend = 120; fraction = literal 8 10 }
    ∷ []

-- two nodes that spent, one of them past the cap, and a third that departed
abbrev operations : List Op
operations =
    observe acme 1000
    ∷ report "n1" acme 1000 700
    ∷ report "n2" acme 1000 0
    ∷ report "n3" acme 1000 90
    ∷ forget "n3"
    ∷ []

abbrev acme_state : CapState
acme_state = record {
  cap = 1000;
  per_node_spend = ("n1", 700) ∷ ("n2", 0) ∷ [];
  soft_fired = false;
  hard_fired = false;
}

state_after : get acme (run Ledger.new operations).caps ≡ some acme_state
unfolding run apply observe_cap report_spend forget_node replace_spend fleet_alerts total_spend_of
    past_soft soft_alert_fraction literal of_u64 ◌/f◌ get insert remove map_values total cap_id_ord
    text_ord
state_after = refl

abbrev one_cap : FleetBudgets
one_cap = record { caps = (acme, acme_state) ∷ []; spend_window_open = [] }

abbrev reports : List Report
reports =
    record { node = "n1"; limit = 1000; spent = 900 }
    ∷ record { node = "n1"; limit = 1000; spent = 10 }
    ∷ []

fleet_alerts_once_example :
    (soft_count (report_alerts acme one_cap reports) + flag (entry_of one_cap acme).soft_fired
      ≤ 1 + falls acme one_cap reports)
    × (hard_count (report_alerts acme one_cap reports) + flag (entry_of one_cap acme).hard_fired
        ≤ 1 + falls acme one_cap reports)
fleet_alerts_once_example = fleet_alerts_once acme one_cap reports
