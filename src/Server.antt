-- ===== src/Server.antt =====
-- crates/gatewayctl/src/server.rs: the state that all streams share, and the handler of a stream, step by
-- step. The clock is the argument `now`, and whether a stream takes a push is `sends`. The messages that
-- the handler sends to its own stream are its result. The alert sink is the list `emitted`.
pub mod Joins
pub mod Grants
use smallgateway.Prelude.{
  ℕ, String, Bool, Option, none, some, List, [], ◌∷◌, ◌++◌, map, Result, ok, err,
}
use smallgateway.Budget.{CapId, Alert}
use smallgateway.Float.{F64}
use smallgateway.Waves.{Labels}
use smallgateway.Store.{RuntimeStore, connect, disconnect, record_ack, record_nack, record_status}
use smallgateway.Fleet.{Fleet, Rendered, acked, nack as refused, desired_for, next_version_for}
use smallgateway.Ledger.{FleetBudgets, ShareAllocation, report_spend, forget_node, shares_for}
use smallgateway.Telemetry.{FleetTelemetry, record_health}
use smallgateway.Telemetry as Telemetry
use smallgateway.Tokens.{AuthError, Admission, JoinTokens, authorize}
use smallgateway.Sessions.{
  Sessions, open_session, close_session, deliver, push_and_await, clear_pending,
}
use smallgateway.Client.{ServerMessage, share_grant, ack_of_status}

-- a value with its cap and the tokens spent, or granted
abbrev pub BudgetShare : Type 0
BudgetShare = CapId × ℕ × ℕ

-- what comes in over an open stream; a usage report and a sync check carry what the node spent
pub data Inbound : Type 0 where
  ack : ℕ → String → Inbound
  nack : ℕ → String → Inbound
  status : String → String → Inbound
  usage : List BudgetShare → Inbound
  sync_check : List BudgetShare → Inbound
  unexpected : Inbound

pub record ControlPlane : Type 0 where
  pub fleet : Fleet
  pub store : RuntimeStore
  pub tokens : JoinTokens
  pub sessions : Sessions
  pub budgets : FleetBudgets
  pub telemetry : FleetTelemetry
  pub emitted : List Alert

abbrev pub share_of_allocation : ShareAllocation → BudgetShare
share_of_allocation a = (a.id, a.cap, a.share)

unfoldable pub share_grant_for : ControlPlane → String → Option (List BudgetShare)
share_grant_for cp node_id = elim (shares_for cp.budgets node_id) [
  | [] ↦ none
  | a ∷ allocations ↦ some (map share_of_allocation (a ∷ allocations))
]

unfoldable pub ingest_usage : ControlPlane → String → List BudgetShare → ControlPlane
ingest_usage cp node_id [] = cp
ingest_usage cp node_id ((id, cap_tokens, tokens) ∷ spenders) =
    let reported = report_spend cp.budgets node_id id cap_tokens tokens in
    let next = record cp { budgets = reported.0; emitted = cp.emitted ++ reported.1 } in
    ingest_usage next node_id spenders

-- a hello that the tokens admit: the node is connected, and its first render is looked up
abbrev pub admit : ControlPlane → String → ℕ → Labels → ControlPlane × Rendered
admit cp node_id now labels =
    let desired = desired_for cp.fleet labels in
    (
      record cp {
        fleet = desired.0;
        store = connect cp.store node_id labels now;
        sessions = open_session cp.sessions node_id;
      },
      desired.1,
    )

abbrev pub after_auth :
    ControlPlane
    → String
    → ℕ
    → Result AuthError (Labels × Admission)
    → ControlPlane × Result AuthError Rendered
after_auth cp node_id now (err e) = (cp, err e)
after_auth cp node_id now (ok (labels, admission)) =
    let joined = admit cp node_id now labels in (joined.0, ok joined.1)

-- `session`, up to the tasks that it starts: a refused hello opens no stream
unfoldable pub join : ControlPlane → String → String → ℕ → ControlPlane × Result AuthError Rendered
join cp node_id join_token now =
    let auth = authorize cp.tokens node_id join_token now in
    after_auth (record cp { tokens = auth.0 }) node_id now auth.1

-- the task that pushes the first render, and its push id
unfoldable pub bootstrap : ControlPlane → String → Rendered → Bool → ControlPlane × Option ℕ
bootstrap cp node_id rendered sends =
    let next = next_version_for cp.fleet node_id rendered.render_hash in
    let pushed = push_and_await cp.sessions node_id next.1 sends in
    (record cp { fleet = next.0; sessions = pushed.0 }, pushed.1)

-- its end without an answer
unfoldable pub bootstrap_silent : ControlPlane → String → ℕ → ControlPlane
bootstrap_silent cp node_id push_id = record cp {
  sessions = clear_pending cp.sessions node_id push_id;
}

abbrev pub granted_message : Option (List BudgetShare) → List ServerMessage
granted_message none = []
granted_message (some shares) = share_grant shares ∷ []

abbrev pub regrant : Option (List BudgetShare) → List BudgetShare
regrant none = []
regrant (some shares) = shares

-- one message of the inbound loop, and what is sent back
unfoldable pub receive :
    (String → Option F64) → ControlPlane → String → Inbound → ℕ → ControlPlane × List ServerMessage
receive parse_f64 cp node_id (ack version hash) now = (
  record cp {
    store = record_ack cp.store node_id version hash now;
    sessions = deliver cp.sessions node_id version (acked hash);
  },
  [],
)
receive parse_f64 cp node_id (nack version reason) now = (
  record cp {
    store = record_nack cp.store node_id version reason now;
    telemetry = Telemetry.record_nack cp.telemetry node_id;
    sessions = deliver cp.sessions node_id version (refused reason);
  },
  [],
)
receive parse_f64 cp node_id (status observed_hash health) now = (
  record cp {
    store = record_status cp.store node_id observed_hash health now;
    telemetry = record_health parse_f64 cp.telemetry node_id health;
  },
  ack_of_status ∷ [],
)
receive parse_f64 cp node_id (usage spenders) now =
    let next = ingest_usage cp node_id spenders in
    (next, granted_message (share_grant_for next node_id))
receive parse_f64 cp node_id (sync_check spenders) now =
    let next = ingest_usage cp node_id spenders in
    (next, share_grant (regrant (share_grant_for next node_id)) ∷ [])
receive parse_f64 cp node_id unexpected now = (cp, [])

-- the end of a stream
unfoldable pub leave : ControlPlane → String → ℕ → ControlPlane
leave cp node_id now = record cp {
  store = disconnect cp.store node_id now;
  sessions = close_session cp.sessions node_id;
  budgets = forget_node cp.budgets node_id;
}
