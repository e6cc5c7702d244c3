-- ===== src/Rollout.antt =====
-- crates/gatewayctl/src/rollout.rs: the walk over the waves of a plan. The exchange with a node is
-- the argument `answer`; other tasks do not run
-- between its steps. Logging, `describe` and the texts of `summary` are left out.
pub mod Walk
pub mod Commits
pub mod Acks
pub mod Deferred
pub mod Single
use smallgateway.Prelude.{
  ℕ, suc, String, Bool, true, false, Option, none, some, List, [], ◌∷◌, ◌++◌, max, length,
  if◌then◌else◌, unwrap_or,
}
use smallgateway.Prelude.Order.{text_ord}
use smallgateway.Prelude.BTree.{get}
use smallgateway.Waves.{Labels, Node, AssignedWave, assign}
use smallgateway.Store.{RuntimeStore}
use smallgateway.Fleet.{
  Fleet, Rendered, Divergence, WaveOutcome, committed, halted, no_nodes, AckResult, never_committed,
  begin_wave, drop_guard, wave_plan, set_wave_commit, next_version_for, conclude_wave_multi,
}
use smallgateway.Reconcile.{desired_for_node}

pub data WaveStepState : Type 0 where
  advanced : String → WaveStepState
  stopped : String → List Divergence → WaveStepState
  frozen : String → WaveStepState
  empty : WaveStepState

pub record WaveStep : Type 0 where
  pub wave_name : String
  pub node_count : ℕ
  pub state : WaveStepState

pub record MultiWaveOutcome : Type 0 where
  pub steps : List WaveStep
  pub halted_at : Option ℕ
  pub target_commit : String

abbrev pub step : String → ℕ → WaveStepState → WaveStep
step name count state = record { wave_name = name; node_count = count; state = state }

unfoldable pub is_fully_applied : MultiWaveOutcome → Bool
is_fully_applied o = elim o.halted_at [ none ↦ true | some _ ↦ false ]

-- the three lists of names that `summary` prints
unfoldable pub advanced_names : List WaveStep → List String
advanced_names [] = []
advanced_names (s ∷ steps) = elim s.state [
  | advanced commit ↦ s.wave_name ∷ advanced_names steps
  | _ ↦ advanced_names steps
]

unfoldable pub frozen_names : List WaveStep → List String
frozen_names [] = []
frozen_names (s ∷ steps) = elim s.state [
  | frozen commit ↦ s.wave_name ∷ frozen_names steps
  | _ ↦ frozen_names steps
]

unfoldable pub halted_names : List WaveStep → List String
halted_names [] = []
halted_names (s ∷ steps) = elim s.state [
  | stopped commit ds ↦ s.wave_name ∷ halted_names steps
  | _ ↦ halted_names steps
]

unfoldable pub frozen_commit : Fleet → String → String
frozen_commit f wave_name = unwrap_or (get wave_name f.wave_commit) never_committed

-- the labels of a connected node, none where the store lost it
unfoldable pub labels_of : RuntimeStore → String → Labels
labels_of s id = elim (get id s) [ none ↦ [] | some n ↦ n.labels ]

unfoldable pub connected_node_labels : RuntimeStore → List String → List Node
connected_node_labels s [] = []
connected_node_labels s (id ∷ ids) = (id, labels_of s id) ∷ connected_node_labels s ids

-- the pushes of a wave: what each node should ack and what it answered
pub record Pushed : Type 0 where
  pub fleet : Fleet
  pub expected : List (String × String)
  pub results : List (String × AckResult)
  pub wave_version : ℕ

abbrev first_hash : List (String × String) → String
first_hash [] = ""
first_hash ((id, h) ∷ expected) = h

-- what a wave that ran does to the walk: the state of the fleet, its step, and whether it halted
unfoldable pub after_wave : Fleet × WaveOutcome → String → AssignedWave → Fleet × WaveStep × Bool
after_wave (f, committed h node_count) target w =
    (set_wave_commit f w.name target, step w.name node_count (advanced target), false)
after_wave (f, halted h ds) target w =
    (f, step w.name (length w.node_ids) (stopped (frozen_commit f w.name) ds), true)
after_wave (f, no_nodes h) target w = (f, step w.name 0 empty, false)

-- the waves after the halt
unfoldable pub freeze : Fleet → List AssignedWave → List WaveStep
freeze f [] = []
freeze f (w ∷ waves) =
    step w.name (length w.node_ids) (frozen (frozen_commit f w.name)) ∷ freeze f waves

module _ (answer : String → ℕ → Rendered → AckResult) (s : RuntimeStore) where
  unfoldable pub push_node : Pushed → String → Pushed
  push_node p id =
      let desired = desired_for_node s p.fleet id in
      let next = next_version_for desired.0 id desired.1.render_hash in
      record {
        fleet = next.0;
        expected = p.expected ++ (id, desired.1.render_hash) ∷ [];
        results = p.results ++ (id, answer id next.1 desired.1) ∷ [];
        wave_version = max p.wave_version next.1;
      }

  unfoldable pub push_nodes : Pushed → List String → Pushed
  push_nodes p [] = p
  push_nodes p (id ∷ ids) = push_nodes (push_node p id) ids

  unfoldable pub run_wave_nodes : Fleet → List String → Fleet × WaveOutcome
  run_wave_nodes f node_ids =
      let start : Pushed = record {
        fleet = f;
        expected = [];
        results = [];
        wave_version = f.committed_version;
      } in
      let p = push_nodes start node_ids in
      conclude_wave_multi p.fleet (first_hash p.expected) p.expected p.wave_version p.results

  -- one wave of the loop, while no earlier wave halted
  unfoldable pub roll_wave : Fleet → String → AssignedWave → Fleet × WaveStep × Bool
  roll_wave f target w = elim w.node_ids [
    | [] ↦ (f, step w.name 0 empty, false)
    | id ∷ ids ↦ after_wave (run_wave_nodes f (id ∷ ids)) target w
  ]

  unfoldable pub walk : Fleet → String → ℕ → List AssignedWave → Fleet × List WaveStep × Option ℕ
  walk f target idx [] = (f, [], none)
  walk f target idx (w ∷ waves) =
      let r = roll_wave f target w in
      let later = walk r.0 target (suc idx) waves in
      if r.2 then (r.0, r.1 ∷ freeze r.0 waves, some idx) else (later.0, r.1 ∷ later.1, later.2)

  -- `sessions` are the ids of the nodes that have a stream
  unfoldable pub roll_out_plan : List String → Fleet → Fleet × MultiWaveOutcome
  roll_out_plan sessions f =
      let f' = begin_wave f in
      let target = f'.applied.source_commit in
      let assigned = assign (wave_plan f') (connected_node_labels s sessions) in
      let w = walk f' target 0 assigned in
      (drop_guard w.0, record { steps = w.1; halted_at = w.2; target_commit = target })
