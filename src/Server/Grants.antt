-- ===== src/Server/Grants.antt =====
-- crates/gatewayctl/src/server.rs and crates/gatewayctl/src/budget.rs: the ledger over what the streams of
-- all nodes do.
use smallgateway.Prelude.{
  ℕ, ◌^◌, ◌≤◌, ◌<◌, ◌≡◌, refl, ap, sym, ◌∙◌, String, Bool, Option, some, List, [], ◌∷◌, ◌++◌,
  length, Result, ok, err,
}
use smallgateway.Prelude.BTree.{get, total}
use smallgateway.Budget.{CapId, cap_id_ord}
use smallgateway.Float.{F64}
use smallgateway.Waves.{Labels}
use smallgateway.Fleet.{Rendered}
use smallgateway.Ledger as Ledger
use smallgateway.Ledger.{CapState, FleetBudgets, report_spend, observe_cap, open_spend_window}
use smallgateway.Ledger.Conservation.{granted}
use smallgateway.Ledger.Reports.{
  Op, observe, report, forget, open_window, apply, shares_conserve_cap,
}
use smallgateway.Ledger.Reports as Reports
use smallgateway.Tokens.{AuthError, Admission, authorize}
use smallgateway.Server.{
  BudgetShare, Inbound, ack, nack, status, usage, sync_check, unexpected, ControlPlane,
  ingest_usage, after_auth, join, bootstrap, bootstrap_silent, receive, leave,
}

-- what changes the control plane, with the node: its streams, and what a reload or a canary does to the
-- ledger
pub data Event : Type 0 where
  hello : String → String → Event
  first_push : String → Rendered → Bool → Event
  first_silence : String → ℕ → Event
  message : String → Inbound → Event
  gone : String → Event
  capped : CapId → ℕ → Event
  window : List String → Event

module _ (parse_f64 : String → Option F64) where
  unfoldable pub act : ControlPlane → Event → ℕ → ControlPlane
  act cp (hello node_id join_token) now = (join cp node_id join_token now).0
  act cp (first_push node_id rendered sends) now = (bootstrap cp node_id rendered sends).0
  act cp (first_silence node_id push_id) now = bootstrap_silent cp node_id push_id
  act cp (message node_id m) now = (receive parse_f64 cp node_id m now).0
  act cp (gone node_id) now = leave cp node_id now
  act cp (capped id limit) now = record cp { budgets = observe_cap cp.budgets id limit }
  act cp (window node_ids) now = record cp { budgets = open_spend_window cp.budgets node_ids }

  unfoldable pub run : ControlPlane → List (Event × ℕ) → ControlPlane
  run cp [] = cp
  run cp ((e, now) ∷ events) = run (act cp e now) events

abbrev reports : String → List BudgetShare → List Op
reports node_id [] = []
reports node_id ((id, cap_tokens, tokens) ∷ spenders) =
    report node_id id cap_tokens tokens ∷ reports node_id spenders

abbrev ops_of_message : String → Inbound → List Op
ops_of_message node_id (usage spenders) = reports node_id spenders
ops_of_message node_id (sync_check spenders) = reports node_id spenders
ops_of_message node_id _ = []

-- what an event does to the ledger
abbrev pub ops_of : Event → List Op
ops_of (message node_id m) = ops_of_message node_id m
ops_of (gone node_id) = forget node_id ∷ []
ops_of (capped id limit) = observe id limit ∷ []
ops_of (window node_ids) = open_window node_ids ∷ []
ops_of _ = []

abbrev pub ops_of_all : List (Event × ℕ) → List Op
ops_of_all [] = []
ops_of_all ((e, now) ∷ events) = ops_of e ++ ops_of_all events

ledger-append :
    (b : FleetBudgets) (xs ys : List Op)
    → Reports.run b (xs ++ ys) ≡ Reports.run (Reports.run b xs) ys
unfolding Reports.run
ledger-append b [] ys = refl
ledger-append b (x ∷ xs) ys = ledger-append (apply b x) xs ys

ingest-ledger :
    (cp : ControlPlane) (node_id : String) (spenders : List BudgetShare)
    → (ingest_usage cp node_id spenders).budgets ≡ Reports.run cp.budgets (reports node_id spenders)
unfolding ingest_usage Reports.run apply
ingest-ledger cp node_id [] = refl
ingest-ledger cp node_id ((id, cap_tokens, tokens) ∷ spenders) =
    let reported = report_spend cp.budgets node_id id cap_tokens tokens in
    ingest-ledger (record cp { budgets = reported.0; emitted = cp.emitted ++ reported.1 }) node_id
      spenders

auth-ledger :
    (cp : ControlPlane) (node_id : String) (now : ℕ) (r : Result AuthError (Labels × Admission))
    → (after_auth cp node_id now r).0.budgets ≡ cp.budgets
auth-ledger cp node_id now (err e) = refl
auth-ledger cp node_id now (ok (labels, admission)) = refl

module _ (parse_f64 : String → Option F64) where
  receive-ledger :
      (cp : ControlPlane) (node_id : String) (m : Inbound) (now : ℕ)
      → (receive parse_f64 cp node_id m now).0.budgets
        ≡ Reports.run cp.budgets (ops_of_message node_id m)
  unfolding receive Reports.run
  receive-ledger cp node_id (ack version hash) now = refl
  receive-ledger cp node_id (nack version reason) now = refl
  receive-ledger cp node_id (status observed_hash health) now = refl
  receive-ledger cp node_id (usage spenders) now = ingest-ledger cp node_id spenders
  receive-ledger cp node_id (sync_check spenders) now = ingest-ledger cp node_id spenders
  receive-ledger cp node_id unexpected now = refl

  act-ledger :
      (cp : ControlPlane) (e : Event) (now : ℕ)
      → (act parse_f64 cp e now).budgets ≡ Reports.run cp.budgets (ops_of e)
  unfolding act join bootstrap bootstrap_silent leave Reports.run apply
  act-ledger cp (hello node_id join_token) now =
      let auth = authorize cp.tokens node_id join_token now in
      auth-ledger (record cp { tokens = auth.0 }) node_id now auth.1
  act-ledger cp (first_push node_id rendered sends) now = refl
  act-ledger cp (first_silence node_id push_id) now = refl
  act-ledger cp (message node_id m) now = receive-ledger cp node_id m now
  act-ledger cp (gone node_id) now = refl
  act-ledger cp (capped id limit) now = refl
  act-ledger cp (window node_ids) now = refl

  run-ledger :
      (cp : ControlPlane) (events : List (Event × ℕ))
      → (run parse_f64 cp events).budgets ≡ Reports.run cp.budgets (ops_of_all events)
  unfolding run Reports.run
  run-ledger cp [] = refl
  run-ledger cp ((e, now) ∷ events) =
      run-ledger (act parse_f64 cp e now) events
      ∙ ap (λ b. Reports.run b (ops_of_all events)) (act-ledger cp e now)
      ∙ sym (ledger-append cp.budgets (ops_of e) (ops_of_all events))

  -- Whatever the nodes send over their streams, join and leave, from a new ledger on, the shares that all
  -- known nodes are granted of one capped value sum to at most its cap, for a cap below 2^50 tokens,
  -- where the sum of the reported spend and the number of nodes fit into 64 bits.
  pub control_plane_conserves_cap :
      (cp : ControlPlane) (events : List (Event × ℕ)) (id : CapId) (e : CapState)
      → cp.budgets ≡ Ledger.new
      → get id (run parse_f64 cp events).budgets.caps ≡ some e
      → e.cap < 2 ^ 50
      → total (λ s. s) e.per_node_spend < 2 ^ 64
      → length e.per_node_spend < 2 ^ 64
      → granted e ≤ e.cap
  control_plane_conserves_cap cp events id e fresh found small reported nodes =
      let same = run-ledger cp events ∙ ap (λ b. Reports.run b (ops_of_all events)) fresh in
      shares_conserve_cap (ops_of_all events) id e
        (sym (ap (λ (b : FleetBudgets). get id b.caps) same) ∙ found) small reported nodes
