-- ===== src/Reconcile.antt =====
-- crates/gatewayctl/src/reconcile.rs: the drift truth table and one tick of the reconciler. Healing
-- a node is an exchange with it, `heal_node` of crates/gatewayctl/src/rollout.rs; whether the node
-- acks the version it is pushed is an argument. Logging is left out, and so is the timer.
pub mod Truth
pub mod Tick
use smallgateway.Prelude.{
  ℕ, ◌+◌, String, Bool, true, false, ◌&&◌, Option, none, some, List, [], ◌∷◌, leb, if◌then◌else◌,
  unwrap_or, str_eq,
}
use smallgateway.Prelude.Order.{text_ord}
use smallgateway.Prelude.BTree.{get}
use smallgateway.Store.{NodeState, RuntimeStore, break_glass_active, connected_ids}
use smallgateway.Fleet.{
  Fleet, Rendered, AckResult, acked, desired_for, delivered_hash, next_version_for, wave_in_flight,
  node_pending_in_unapplied_wave,
}

abbrev pub persistent_nack_threshold : ℕ
persistent_nack_threshold = 3

pub data DriftCase : Type 0 where
  in_sync delivery_stale node_drifted observed_unknown : DriftCase
  break_glass_tolerated : ℕ → DriftCase
  persistently_divergent : ℕ → DriftCase

unfoldable pub heals_by_repush : DriftCase → Bool
heals_by_repush delivery_stale = true
heals_by_repush node_drifted = true
heals_by_repush _ = false

unfoldable pub by_observed : Option String → String → DriftCase
by_observed none desired = observed_unknown
by_observed (some o) desired = if str_eq o desired then in_sync else node_drifted

unfoldable pub classify : NodeState → String → ℕ → DriftCase
classify node desired now =
    if break_glass_active node now
    then break_glass_tolerated (unwrap_or node.break_glass_until now)
    else if leb persistent_nack_threshold node.consecutive_nacks
    then persistently_divergent node.consecutive_nacks
    else elim node.last_acked_hash [
      | none ↦ delivery_stale
      | some d ↦ if str_eq d desired then by_observed node.observed_hash desired else delivery_stale
    ]

pub record TickReport : Type 0 where
  pub in_sync : ℕ
  pub healed : ℕ
  pub break_glass_tolerated : ℕ
  pub persistently_divergent : ℕ
  pub observed_unknown : ℕ
  pub delivery_stale : ℕ
  pub mid_rollout_deferred : ℕ
  pub pending_later_wave : ℕ

abbrev pub empty_report : TickReport
empty_report = record {
  in_sync = 0;
  healed = 0;
  break_glass_tolerated = 0;
  persistently_divergent = 0;
  observed_unknown = 0;
  delivery_stale = 0;
  mid_rollout_deferred = 0;
  pending_later_wave = 0;
}

-- the delivered hash of the push record stands in for an ack that never came
unfoldable pub fold_delivered : Fleet → String → NodeState → NodeState
fold_delivered f node_id node = elim node.last_acked_hash [
  | some _ ↦ node
  | none ↦ elim (delivered_hash f node_id) [
    | none ↦ node
    | some delivered ↦ record node { last_acked_hash = some delivered }
  ]
]

-- `answer node_id version rendered` is what the node makes of the push, `no_answer` also for a
-- closed stream and after the timeout
unfoldable pub desired_for_node : RuntimeStore → Fleet → String → Fleet × Rendered
desired_for_node s f node_id = elim (get node_id s) [
  | some n ↦ desired_for f n.labels
  | none ↦ (f, f.applied)
]

unfoldable pub acked_with : AckResult → String → Bool
acked_with (acked hash) want = str_eq hash want
acked_with _ want = false

unfoldable pub heal_node :
    (answer : String → ℕ → Rendered → AckResult) → RuntimeStore → Fleet → String → Fleet × Bool
heal_node answer s f node_id =
    let desired = desired_for_node s f node_id in
    let pushed = next_version_for desired.0 node_id desired.1.render_hash in
    (pushed.0, acked_with (answer node_id pushed.1 desired.1) desired.1.render_hash)

module _ (answer : String → ℕ → Rendered → AckResult) (s : RuntimeStore) where
  unfoldable pub heal : Fleet → String → DriftCase → TickReport → Fleet × TickReport
  heal f node_id case r =
      let h = heal_node answer s f node_id in
      let healed = record r { healed = r.healed + 1 } in
      elim case [
        | delivery_stale ↦
            (h.0, if h.1 then record healed { delivery_stale = r.delivery_stale + 1 } else r)
        | _ ↦ (h.0, if h.1 then healed else r)
      ]

  unfoldable pub act : Fleet → String → DriftCase → TickReport → Fleet × TickReport
  act f node_id case r = elim case [
    | in_sync ↦ (f, record r { in_sync = r.in_sync + 1 })
    | observed_unknown ↦ (f, record r { observed_unknown = r.observed_unknown + 1 })
    | break_glass_tolerated until ↦
        (f, record r { break_glass_tolerated = r.break_glass_tolerated + 1 })
    | persistently_divergent nacks ↦
        (f, record r { persistently_divergent = r.persistently_divergent + 1 })
    | delivery_stale ↦ heal f node_id delivery_stale r
    | node_drifted ↦ heal f node_id node_drifted r
  ]

  unfoldable pub settle : ℕ → Fleet → String → NodeState → TickReport → Fleet × TickReport
  settle now f node_id node r =
      let desired = desired_for f node.labels in
      let f' = desired.0 in
      let case = classify (fold_delivered f' node_id node) desired.1.render_hash now in
      if heals_by_repush case && wave_in_flight f'
      then (f', record r { mid_rollout_deferred = r.mid_rollout_deferred + 1 })
      else if heals_by_repush case && node_pending_in_unapplied_wave f' node.labels
      then (f', record r { pending_later_wave = r.pending_later_wave + 1 })
      else act f' node_id case r

  -- a node that the store no longer has is passed over
  unfoldable pub visit : ℕ → Fleet → String → TickReport → Fleet × TickReport
  visit now f node_id r = elim (get node_id s) [
    | none ↦ (f, r)
    | some node ↦ settle now f node_id node r
  ]

  unfoldable pub tick_over : ℕ → Fleet → List String → TickReport → Fleet × TickReport
  tick_over now f [] r = (f, r)
  tick_over now f (node_id ∷ ids) r =
      let next = visit now f node_id r in tick_over now next.0 ids next.1

  unfoldable pub tick : ℕ → Fleet → Fleet × TickReport
  tick now f = tick_over now f (connected_ids s) empty_report
