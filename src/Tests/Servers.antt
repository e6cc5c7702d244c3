-- ===== src/Tests/Servers.antt =====
-- Tokens, sessions and the streams of the control plane at concrete inputs.
use smallgateway.Prelude.{
  ℕ, ◌≤◌, ◌≡◌, refl, String, true, false, Option, none, some, List, [], ◌∷◌, ◌++◌, arith,
  if◌then◌else◌, ok, err,
}
use smallgateway.Prelude.Order.{text_ord, nat_ord}
use smallgateway.Prelude.BTree.{get, insert, remove, map_values, total}
use smallgateway.Float.{F64, literal, of_u64, ◌/f◌}
use smallgateway.Budget.{CapId, cap_id_ord, past_soft, soft_alert_fraction}
use smallgateway.Fleet.{Fleet, Rendered, acked, desired_for, derive, canonical_labels}
use smallgateway.Ledger as Ledger
use smallgateway.Ledger.{
  CapState, report_spend, replace_spend, fleet_alerts, total_spend_of, forget_node,
}
use smallgateway.Ledger.Conservation.{granted}
use smallgateway.Tokens.{unknown, JoinTokens, mint, mint_with_ttl, authorize, present}
use smallgateway.Tokens.Owner.{owner, admitted, HasOneOwner, admitted-HasOneOwner}
use smallgateway.Sessions.{Session, Sessions, new, matched, deliver, open_session, push_and_await}
use smallgateway.Sessions.Answers.{awaits, nat_mem, each, deliver-answers}
use smallgateway.Sessions.Once.{
  Event, opened, closed, pushed, answered, cleared, IsWell, run-IsWell,
}
use smallgateway.Sessions.Once as Once
use smallgateway.Server.{ControlPlane, usage, join, leave, receive, ingest_usage}
use smallgateway.Server.Joins.{join-refused, late_leave-push_and_await}
use smallgateway.Server.Grants.{hello, message, gone, act, run, control_plane_conserves_cap}
use smallgateway.Server.Grants as Grants

-- a token of the year 2001, for one node of a region
abbrev tokens : JoinTokens
tokens = record {
  tokens =
      (
        "secret",
        record {
          labels = ("region", "eu") ∷ [];
          expires_at = 1000000300;
          used = false;
          bound_node = none;
        },
      )
      ∷ [];
  default_ttl_secs = 300;
}

minted :
    mint
      (record { tokens = []; default_ttl_secs = 300 })
      "secret"
      (("region", "eu") ∷ [])
      1000000000
    ≡ tokens
unfolding mint mint_with_ttl insert
minted = refl

abbrev hellos : List (String × String × ℕ)
hellos =
    ("n1", "secret", 1000000001) ∷ ("n2", "secret", 1000000002) ∷ ("n1", "secret", 1000009000) ∷ []

admitted-HasOneOwner_example : HasOneOwner (owner tokens "secret") (admitted "secret" tokens hellos)
admitted-HasOneOwner_example = admitted-HasOneOwner "secret" tokens hellos

-- two pushes of one version and one of another
abbrev pending : Session
pending = (1, 7) ∷ (2, 8) ∷ (3, 7) ∷ []

abbrev sessions : Sessions
sessions = record { table = ("n1", pending) ∷ []; push_seq = 4; answers = [] }

sessions_found : get "n1" sessions.table ≡ some pending
unfolding get text_ord
sessions_found = refl

both_matched : matched 7 pending ≡ 1 ∷ 3 ∷ []
unfolding matched
both_matched = refl

deliver-answers_example :
    let o = deliver sessions "n1" 7 (acked "h") in
    (after : Session) × (o.table ≡ insert "n1" after sessions.table)
    × (o.answers ≡ [] ++ each (acked "h") (matched 7 pending))
    × ((id : ℕ) → get id after ≡ (if awaits (get id pending) 7 then none else get id pending))
    × ((id : ℕ) → nat_mem id (matched 7 pending) ≡ awaits (get id pending) 7)
unfolding nat_ord
deliver-answers_example =
    deliver-answers sessions "n1" 7 (acked "h") pending sessions_found
      ((refl, (refl, tt)), ((refl, tt), (tt, tt)))

new-IsWell : IsWell new
unfolding Once.times_answered total
new-IsWell = record { nodes = tt; ids = tt; one_place = λ id. ground arith }

abbrev events : List Event
events =
    opened "n1"
    ∷ pushed "n1" 7 true
    ∷ pushed "n1" 7 true
    ∷ answered "n1" 7 (acked "h")
    ∷ pushed "n1" 8 false
    ∷ cleared "n1" 3
    ∷ closed "n1"
    ∷ []

run-IsWell_example : IsWell (Once.run new events)
run-IsWell_example = run-IsWell new events new-IsWell

abbrev rendered : Rendered
rendered = record { config_bytes = []; render_hash = "h1"; source_commit = "c1" }

abbrev fleet : Fleet
fleet = record {
  applied = rendered;
  committed_version = 0;
  per_node = [];
  desired = none;
  wave_commit = [];
  render_cache = [];
  waves_in_flight = 0;
}

abbrev cp : ControlPlane
cp = record {
  fleet = fleet;
  store = [];
  tokens = tokens;
  sessions = new;
  budgets = Ledger.new;
  telemetry = [];
  emitted = [];
}

wrong_token : (join cp "n1" "typo" 1000000001).1 ≡ err unknown
unfolding join authorize get text_ord
wrong_token = refl

join-refused_example : (join cp "n1" "typo" 1000000001).0 ≡ cp
join-refused_example = join-refused cp "n1" "typo" 1000000001 unknown wrong_token

right_token : (join cp "n1" "secret" 1000000001).1 ≡ ok rendered
unfolding join authorize present get text_ord desired_for derive canonical_labels
right_token = refl

late_leave-push_and_await_example :
    let joined = (join cp "n1" "secret" 1000000001).0 in
    ((push_and_await joined.sessions "n1" 5 true).1 ≡ some 1)
    × ((push_and_await (leave joined "n1" 1000000009).sessions "n1" 5 true).1 ≡ none)
late_leave-push_and_await_example =
    late_leave-push_and_await cp "n1" "secret" 1000000001 1000000009 5 true rendered tt right_token

abbrev acme : CapId
acme = record { key = "tenant"; value = "acme" }

abbrev parse_f64 : String → Option F64
parse_f64 s = none

abbrev streams : List (Grants.Event × ℕ)
streams =
    (hello "n1" "secret", 1000000001)
    ∷ (message "n1" (usage ((acme, 1000, 700) ∷ [])), 1000000002)
    ∷ (message "n2" (usage ((acme, 1000, 90) ∷ [])), 1000000003)
    ∷ (gone "n2", 1000000004)
    ∷ []

abbrev acme_state : CapState
acme_state = record {
  cap = 1000;
  per_node_spend = ("n1", 700) ∷ [];
  soft_fired = false;
  hard_fired = false;
}

acme_found : get acme (run parse_f64 cp streams).budgets.caps ≡ some acme_state
unfolding run act join authorize present receive leave ingest_usage report_spend forget_node
    replace_spend fleet_alerts total_spend_of past_soft soft_alert_fraction literal of_u64 ◌/f◌ get
    insert remove map_values total cap_id_ord text_ord desired_for derive canonical_labels
    open_session
acme_found = refl

control_plane_conserves_cap_example : granted acme_state ≤ 1000
control_plane_conserves_cap_example =
    control_plane_conserves_cap parse_f64 cp streams acme acme_state refl acme_found (omega arith)
      (unfold total in (omega arith)) (omega arith)
