-- ===== src/Client.antt =====
-- crates/gatewayd/src/client.rs: the data plane's side of the stream to the control plane. What comes in
-- over the stream is a list of messages, and what a dial gives is a list of attempts. The heartbeat and the
-- usage reporter, which run beside the stream, and the labels and the token of `Hello` are left out.
pub mod Replies
pub mod Outage
pub mod Waves
pub mod Tampered
use smallgateway.Prelude.{
  ℕ, ◌*◌, String, Bool, true, false, Option, none, some, List, [], ◌∷◌, ◌++◌, min,
}
use smallgateway.Budget.{CapId}
use smallgateway.Node.{NodeBudgets, set_partitioned, apply_shares}
use smallgateway.Reload.{
  ReloadOutcome, swapped, no_op, rejected, Reloader, reload_from_text, bootstrap_from_text,
}

-- in milliseconds
abbrev pub reconnect_backoff_min : ℕ
reconnect_backoff_min = 500

abbrev pub reconnect_backoff_max : ℕ
reconnect_backoff_max = 30000

-- the fields of `RenderedSnapshot` that the client reads
pub record Push : Type 0 where
  pub fleet_version : ℕ
  pub render_hash : String
  pub config : List ℕ

pub data ServerMessage : Type 0 where
  push : Push → ServerMessage
  share_grant : List (CapId × ℕ × ℕ) → ServerMessage
  ack_of_status : ServerMessage
  no_kind : ServerMessage

-- the reason of a nack is a text for the log
pub data ClientMessage : Type 0 where
  hello : String → ℕ → ClientMessage
  ack : ℕ → String → ClientMessage
  nack : ℕ → String → ClientMessage

-- what outlives a stream
pub record Client (C : Type 0) : Type 0 where
  pub reloader : Reloader C
  pub last_fleet_version : ℕ
  pub budgets : NodeBudgets

-- what one dial meets: no connection, a join that is refused, or a stream and what comes in until it ends
pub data Attempt : Type 0 where
  no_connection : Attempt
  join_refused : Attempt
  stream : List ServerMessage → Attempt

unfoldable pub apply_share_grant : NodeBudgets → List (CapId × ℕ × ℕ) → NodeBudgets
apply_share_grant b [] = b
apply_share_grant b (grant ∷ grants) = apply_shares b (grant ∷ grants)

abbrev pub push_source : String
push_source = "<control-plane>"

module _ {C : Type 0} (from_yaml : String → Option C) (content_hash : String → String)
    (from_utf8 : List ℕ → Option String) where
  -- the reply to a push that was bound, or not
  abbrev pub reply : Push → Reloader C × ReloadOutcome → Reloader C × ClientMessage × Bool
  reply p (r, swapped old new) = (r, ack p.fleet_version r.shared.content_hash, true)
  reply p (r, no_op active) = (r, ack p.fleet_version r.shared.content_hash, true)
  reply p (r, rejected active) = (r, nack p.fleet_version p.render_hash, false)

  unfoldable pub bind_push : Reloader C → Push → Reloader C × ClientMessage × Bool
  bind_push r p = elim (from_utf8 p.config) [
    | none ↦ (r, nack p.fleet_version p.render_hash, false)
    | some text ↦ reply p (reload_from_text from_yaml content_hash r text push_source)
  ]

  -- what a push that got its reply leaves
  abbrev pub after_bind :
      Client C → ℕ → Reloader C × ClientMessage × Bool → Client C × List ClientMessage
  after_bind c delivered (r, m, true) =
      (record c { reloader = r; last_fleet_version = delivered }, m ∷ [])
  after_bind c delivered (r, m, false) = (record c { reloader = r }, m ∷ [])

  unfoldable pub handle : Client C → ServerMessage → Client C × List ClientMessage
  handle c (push p) = after_bind c p.fleet_version (bind_push c.reloader p)
  handle c (share_grant grants) = (record c { budgets = apply_share_grant c.budgets grants }, [])
  handle c ack_of_status = (c, [])
  handle c no_kind = (c, [])

  -- the loop over the stream, with what it sends
  unfoldable pub run_stream : Client C → List ServerMessage → Client C × List ClientMessage
  run_stream c [] = (c, [])
  run_stream c (m ∷ messages) =
      let one = handle c m in let rest = run_stream one.0 messages in (rest.0, one.1 ++ rest.1)

  -- the reloader and its fleet version, if the first push binds, the messages after it, and the reply
  unfoldable pub wait_first_push :
      List ServerMessage → Option (Reloader C × ℕ) × List ServerMessage × List ClientMessage
  wait_first_push [] = (none, [], [])
  wait_first_push (push p ∷ messages) = elim (from_utf8 p.config) [
    | none ↦ (none, messages, nack p.fleet_version p.render_hash ∷ [])
    | some text ↦ elim (bootstrap_from_text from_yaml content_hash text push_source) [
      | none ↦ (none, messages, nack p.fleet_version p.render_hash ∷ [])
      | some r ↦
          (some (r, p.fleet_version), messages, ack p.fleet_version r.shared.content_hash ∷ [])
    ]
  ]
  wait_first_push (share_grant grants ∷ messages) = wait_first_push messages
  wait_first_push (ack_of_status ∷ messages) = wait_first_push messages
  wait_first_push (no_kind ∷ messages) = wait_first_push messages

  -- a stream that is up: out of partition mode, then the loop
  abbrev pub on_stream : Client C → List ServerMessage → Client C × List ClientMessage
  on_stream c messages =
      run_stream (record c { budgets = set_partitioned c.budgets false }) messages

  -- `connect_once` of the first connection, where there is no reloader yet
  unfoldable pub connect_first :
      String → NodeBudgets → Attempt → Option (Client C) × List ClientMessage
  connect_first node_id budgets no_connection = (none, [])
  connect_first node_id budgets join_refused = (none, hello node_id 0 ∷ [])
  connect_first node_id budgets (stream messages) =
      let (first, rest, sent) = wait_first_push messages in
      elim first [
        | none ↦ (none, hello node_id 0 ∷ sent)
        | some (r, version) ↦
            let start : Client C = record {
              reloader = r;
              last_fleet_version = version;
              budgets = budgets;
            } in
            let up = on_stream start rest in (some up.0, (hello node_id 0 ∷ sent) ++ up.1)
      ]

  -- `connect_once` of a reconnect, and whether the stream came up
  unfoldable pub connect_again : String → Client C → Attempt → Client C × Bool × List ClientMessage
  connect_again node_id c no_connection = (c, false, [])
  connect_again node_id c join_refused = (c, false, hello node_id c.last_fleet_version ∷ [])
  connect_again node_id c (stream messages) =
      let up = on_stream c messages in (up.0, true, hello node_id c.last_fleet_version ∷ up.1)

  -- one round of the reconnect loop
  unfoldable pub redial : String → Client C × ℕ → Attempt → Client C × ℕ
  redial node_id (c, backoff) attempt =
      let waiting = record c { budgets = set_partitioned c.budgets true } in
      let tried = connect_again node_id waiting attempt in
      elim (tried.1) [
        | true ↦ (tried.0, reconnect_backoff_min)
        | false ↦ (tried.0, min (backoff * 2) reconnect_backoff_max)
      ]

  unfoldable pub redial_all : String → Client C × ℕ → List Attempt → Client C × ℕ
  redial_all node_id s [] = s
  redial_all node_id s (attempt ∷ attempts) = redial_all node_id (redial node_id s attempt) attempts

  -- `supervise`: a first connection that fails leaves no data plane
  unfoldable pub supervise : String → NodeBudgets → Attempt → List Attempt → Option (Client C × ℕ)
  supervise node_id budgets first attempts = elim (connect_first node_id budgets first).0 [
    | none ↦ none
    | some c ↦ some (redial_all node_id (c, reconnect_backoff_min) attempts)
  ]
