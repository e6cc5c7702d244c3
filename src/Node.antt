-- ===== src/Node.antt =====
-- crates/gatewayd/src/budget.rs: the counters of one data plane, as the proxy and the
-- control-plane client use them. A method under the lock is one function on the state. What the
-- alert sink was handed is the list `emitted`; log lines are left out.
pub mod Rollover
pub mod Admission
pub mod Stream
use smallgateway.Prelude.{
  ℕ, String, Bool, false, Option, none, some, List, [], ◌∷◌, ◌++◌, ltb, ◌==◌, min, if◌then◌else◌,
  unwrap_or,
}
use smallgateway.Prelude.BTree.{BTreeMap, get, insert, map_values}
use smallgateway.Float.{F64, ge}
use smallgateway.Budget.{cap_id_ord}
use smallgateway.Budget.{
  CapId, Window, minute, hour, day, month, Date, id_at, CapTerms, LocalBudget, Verdict, Alert,
  AlertLatch, new_latch, cross, check, check_partitioned, commit, reconcile, set_share,
  reset_window_spend, overspend as local_overspend, consumed_fraction, escalation_fraction,
  soft_alert_fraction,
}
use smallgateway.Budget

pub record Entry : Type 0 where
  pub budget : LocalBudget
  pub latch : AlertLatch
  pub window : Option Window
  pub window_id : ℕ
  pub alert_fraction : F64

pub record NodeBudgets : Type 0 where
  pub node_id : String
  pub inner : BTreeMap CapId Entry
  pub partitioned : Bool
  pub emitted : List Alert

abbrev pub new : String → NodeBudgets
new node = record { node_id = node; inner = []; partitioned = false; emitted = [] }

pub data MeterOutcome : Type 0 where
  continue : MeterOutcome
  cut : CapId → ℕ → MeterOutcome

abbrev pub rank : Option Window → ℕ
rank none = 0
rank (some minute) = 1
rank (some hour) = 2
rank (some day) = 3
rank (some month) = 4

-- `==` on `Option<Window>`
abbrev pub same_window : Option Window → Option Window → Bool
same_window v w = rank v == rank w

unfoldable pub set_partitioned : NodeBudgets → Bool → NodeBudgets
set_partitioned b on = record b { partitioned = on }

unfoldable pub ensure : BTreeMap CapId Entry → CapId → Option ℕ → Entry
ensure inner id limit = unwrap_or (get id inner) (record {
  budget = Budget.new id limit (unwrap_or limit 0);
  latch = new_latch;
  window = none;
  window_id = 0;
  alert_fraction = soft_alert_fraction;
})

abbrev pub cap_of : Option CapTerms → Option ℕ
cap_of none = none
cap_of (some t) = some t.cap

-- the alerts of a metered spend and the latch after them
unfoldable pub alerts_of : String → CapId → Option CapTerms → Entry → AlertLatch × List Alert
alerts_of node id none e = (e.latch, [])
alerts_of node id (some t) e = cross e.latch id t.cap e.budget.spent node e.alert_fraction

unfoldable pub outcome_of : Bool → CapId → Option CapTerms → LocalBudget → MeterOutcome
outcome_of partitioned id none budget = continue
outcome_of partitioned id (some t) budget =
    let bound = if partitioned then min budget.share t.cap else t.cap in
    if ltb bound budget.spent then cut id t.cap else continue

unfoldable pub report_of : BTreeMap CapId Entry → List (CapId × ℕ × ℕ)
report_of [] = []
report_of ((id, e) ∷ m) =
    let rest = report_of m in
    elim e.budget.cap [
      | none ↦ rest
      | some limit ↦ if e.budget.spent == 0 then rest else (id, limit, e.budget.spent) ∷ rest
    ]

unfoldable pub escalating_of : BTreeMap CapId Entry → List (CapId × ℕ × ℕ)
escalating_of [] = []
escalating_of ((id, e) ∷ m) =
    let rest = escalating_of m in
    elim e.budget.cap [
      | none ↦ rest
      | some limit ↦
          if ge (consumed_fraction e.budget) escalation_fraction
          then (id, limit, e.budget.spent) ∷ rest
          else rest
    ]

module _ (from_timestamp : ℕ → Option Date) where
  unfoldable pub roll : Entry → ℕ → Entry
  roll e now = elim e.window [
    | none ↦ e
    | some w ↦
        let id = id_at from_timestamp w now in
        if id == e.window_id
        then e
        else record e { budget = reset_window_spend e.budget; latch = new_latch; window_id = id }
  ]

  abbrev pub window_id_at : Option Window → ℕ → ℕ
  window_id_at none now = 0
  window_id_at (some w) now = id_at from_timestamp w now

  unfoldable pub sync_terms : Entry → Option CapTerms → ℕ → Entry
  sync_terms e none now = roll e now
  sync_terms e (some t) now =
      let e' = record e { alert_fraction = t.alert_fraction } in
      if same_window e.window t.window then roll e' now else record e' {
        window = t.window;
        window_id = window_id_at t.window now;
        budget = reset_window_spend e.budget;
        latch = new_latch;
      }

  -- the entry that an operation works on: found or made, then brought up to date
  unfoldable pub touch : NodeBudgets → CapId → Option CapTerms → ℕ → Entry
  touch b id terms now = sync_terms (ensure b.inner id (cap_of terms)) terms now

  unfoldable pub admit : NodeBudgets → CapId → Option CapTerms → ℕ → NodeBudgets × Verdict
  admit b id terms now =
      let e = touch b id terms now in
      (
        record b { inner = insert id e b.inner },
        if b.partitioned then check_partitioned e.budget 1 else check e.budget 1,
      )

  unfoldable pub meter : NodeBudgets → CapId → Option CapTerms → ℕ → ℕ → NodeBudgets × MeterOutcome
  unfolding alerts_of outcome_of
  meter b id terms tokens now =
      let e = touch b id terms now in
      let spent = record e { budget = commit e.budget tokens } in
      let (latch, alerts) = alerts_of b.node_id id terms spent in
      (
        record b {
          inner = insert id (record spent { latch = latch }) b.inner;
          emitted = b.emitted ++ alerts;
        },
        outcome_of b.partitioned id terms spent.budget,
      )

  unfoldable pub settle : NodeBudgets → CapId → ℕ → ℕ → ℕ → NodeBudgets
  settle b id estimated authoritative now = elim (get id b.inner) [
    | none ↦ b
    | some e ↦
        let e' = roll e now in
        record b {
          inner =
              insert id (record e' { budget = reconcile e'.budget estimated authoritative })
                b.inner;
        }
  ]

  -- `settle_and_log` without its log lines
  unfoldable pub settle_and_log :
      NodeBudgets → List (CapId × CapTerms) → ℕ → Option ℕ → ℕ → NodeBudgets
  settle_and_log b [] estimated authoritative now = b
  settle_and_log b ((id, t) ∷ caps) estimated none now = settle_and_log b caps estimated none now
  settle_and_log b ((id, t) ∷ caps) estimated (some auth) now =
      settle_and_log (settle b id estimated auth now) caps estimated (some auth) now

  -- `charge_terminal_and_log` without its log lines
  unfoldable pub charge_terminal_and_log :
      NodeBudgets → List (CapId × CapTerms) → ℕ → ℕ → NodeBudgets × List MeterOutcome
  charge_terminal_and_log b [] charged now = (b, [])
  charge_terminal_and_log b ((id, t) ∷ caps) charged now =
      let (b', outcome) = meter b id (some t) charged now in
      let (b'', outcomes) = charge_terminal_and_log b' caps charged now in (b'', outcome ∷ outcomes)

  unfoldable pub spend_report : NodeBudgets → ℕ → NodeBudgets × List (CapId × ℕ × ℕ)
  unfolding report_of
  spend_report b now =
      let inner = map_values (λ e. roll e now) b.inner in
      (record b { inner = inner }, report_of inner)

  unfoldable pub escalating : NodeBudgets → ℕ → NodeBudgets × List (CapId × ℕ × ℕ)
  unfolding escalating_of
  escalating b now =
      let inner = map_values (λ e. roll e now) b.inner in
      (record b { inner = inner }, escalating_of inner)

unfoldable pub should_escalate : NodeBudgets → CapId → Bool
should_escalate b id = elim (get id b.inner) [
  | none ↦ false
  | some e ↦ ge (consumed_fraction e.budget) escalation_fraction
]

-- `apply_shares`: the grants are `(id, cap, share)`
unfoldable pub apply_shares : NodeBudgets → List (CapId × ℕ × ℕ) → NodeBudgets
apply_shares b [] = b
apply_shares b ((id, limit, share) ∷ grants) =
    let e = ensure b.inner id (some limit) in
    apply_shares
      (record b { inner = insert id (record e { budget = set_share e.budget share }) b.inner })
      grants

unfoldable pub overspend : NodeBudgets → CapId → ℕ
overspend b id = elim (get id b.inner) [ none ↦ 0 | some e ↦ local_overspend e.budget ]

unfoldable pub snapshot : NodeBudgets → CapId → Option (Option ℕ × ℕ × ℕ)
snapshot b id = elim (get id b.inner) [
  | none ↦ none
  | some e ↦ some (e.budget.cap, e.budget.share, e.budget.spent)
]
