-- ===== src/CanaryRollout.antt =====
-- crates/gatewayctl/src/canary_rollout.rs: the walk over the waves that an analysis gates. What is
-- reported while a wave's window is open is the argument `elapse`, and what the gate answers to the polls
-- after a wave is `polls`; the rest is as in Rollout. A walk that still waits at a gate has no outcome yet.
pub mod Waves
pub mod Steps
pub mod Plain
pub mod Tracks
pub mod Commits
pub mod Gates
pub mod Rollbacks
use smallgateway.Prelude.{
  ℕ, suc, ◌==◌, String, Bool, true, false, Option, none, some, List, [], ◌∷◌, ◌++◌, length,
  if◌then◌else◌, unwrap_or, not,
}
use smallgateway.Prelude.Order.{text_ord}
use smallgateway.Prelude.BTree.{insert}
use smallgateway.Waves.{AssignedWave, assign}
use smallgateway.Store.{RuntimeStore}
use smallgateway.Fleet.{
  Fleet, Rendered, WaveOutcome, committed, halted, no_nodes, AckResult, begin_wave, drop_guard,
  wave_plan, set_wave_commit, revert_wave_commit, next_version_for,
}
use smallgateway.Ledger.{FleetBudgets, open_spend_window, node_windowed_spend}
use smallgateway.Telemetry.{FleetTelemetry, window_for, reset_many}
use smallgateway.Canary.{
  CanaryPolicy, gates_after, NodeTelemetry, WaveTelemetry, Breach, Analysis, pass, fail, no_data,
  analyze,
}
use smallgateway.Rollout.{
  WaveStep, advanced, stopped, empty, step, MultiWaveOutcome, is_fully_applied as all_applied,
  frozen_commit, freeze, run_wave_nodes, roll_out_plan, connected_node_labels,
}

pub data WaveAnalysis : Type 0 where
  not_analyzed : WaveAnalysis
  passed : WaveAnalysis
  failed : Breach → WaveAnalysis
  without_data : WaveAnalysis

pub record Rollback : Type 0 where
  pub wave_name : String
  pub breach : Option Breach
  pub reverted_to : String

pub record CanaryOutcome : Type 0 where
  pub multi : MultiWaveOutcome
  pub analyses : List WaveAnalysis
  pub rollback : Option Rollback
  pub gates_released : List String

unfoldable pub rolled_back : CanaryOutcome → Bool
rolled_back o = elim o.rollback [ none ↦ false | some _ ↦ true ]

unfoldable pub is_fully_applied : CanaryOutcome → Bool
is_fully_applied o = if rolled_back o then false else all_applied o.multi

-- the parts of the control plane that the walk changes
pub record Plane : Type 0 where
  pub fleet : Fleet
  pub telemetry : FleetTelemetry
  pub budgets : FleetBudgets

unfoldable pub baseline_ids : List AssignedWave → List String
baseline_ids [] = []
baseline_ids (w ∷ later) = w.node_ids ++ baseline_ids later

unfoldable pub node_telemetry : FleetTelemetry → FleetBudgets → String → NodeTelemetry
node_telemetry t b id =
    let w = window_for t id in
    record {
      requests = w.requests;
      errors = w.errors;
      latencies_ms = w.latencies_ms;
      spent = node_windowed_spend b id;
    }

unfoldable pub assemble_telemetry :
    FleetTelemetry → FleetBudgets → WaveTelemetry → List String → WaveTelemetry
assemble_telemetry t b w [] = w
assemble_telemetry t b w (id ∷ ids) =
    assemble_telemetry t b (insert id (node_telemetry t b id) w) ids

-- the pushes of a prior render to the nodes of a wave, each with its version
unfoldable pub push_back : Fleet → Rendered → List String → Fleet × List (String × ℕ × Rendered)
push_back f prior [] = (f, [])
push_back f prior (id ∷ ids) =
    let next = next_version_for f id prior.render_hash in
    let rest = push_back next.0 prior ids in (rest.0, (id, next.1, prior) ∷ rest.1)

unfoldable pub rollback_wave :
    Fleet → String → List String → String → Option Rendered → Fleet × List (String × ℕ × Rendered)
rollback_wave f wave_name node_ids prior_commit none =
    (revert_wave_commit f wave_name prior_commit, [])
rollback_wave f wave_name node_ids prior_commit (some prior) =
    push_back (revert_wave_commit f wave_name prior_commit) prior node_ids

-- the loop of `await_gate`: how often it slept, and nothing while no poll approved
unfoldable pub await_gate : List Bool → Option ℕ
await_gate [] = none
await_gate (approved ∷ polls) =
    let later = await_gate polls in
    if approved then some 0 else elim later [ none ↦ none | some n ↦ some (suc n) ]

-- what one wave of the walk does, and whether it advanced
pub record WaveRun : Type 0 where
  pub plane : Plane
  pub wave_step : WaveStep
  pub analysis : WaveAnalysis
  pub halts : Bool
  pub rollback : Option Rollback

pub record Walked : Type 0 where
  pub plane : Plane
  pub steps : List WaveStep
  pub analyses : List WaveAnalysis
  pub halted_at : Option ℕ
  pub rollback : Option Rollback
  pub gates_released : List String
  pub waiting : Option String

unfoldable pub skip_all : List AssignedWave → List WaveAnalysis
skip_all [] = []
skip_all (w ∷ waves) = not_analyzed ∷ skip_all waves

-- `vec![WaveAnalysis::NotAnalyzed; multi.steps.len()]`
unfoldable pub skip_steps : List WaveStep → List WaveAnalysis
skip_steps [] = []
skip_steps (x ∷ steps) = not_analyzed ∷ skip_steps steps

-- the wave after an earlier one that went on
abbrev pub then_later : WaveRun → Walked → Walked
then_later r later = record later {
  steps = r.wave_step ∷ later.steps;
  analyses = r.analysis ∷ later.analyses;
}

abbrev pub released : String → Walked → Walked
released name later = record later { gates_released = name ∷ later.gates_released }

-- the wave that ends the walk: all later waves are frozen
abbrev pub ended : WaveRun → Option ℕ → List AssignedWave → Walked
ended r halted_at waves = record {
  plane = r.plane;
  steps = r.wave_step ∷ freeze r.plane.fleet waves;
  analyses = r.analysis ∷ skip_all waves;
  halted_at = halted_at;
  rollback = r.rollback;
  gates_released = [];
  waiting = none;
}

-- the wave whose gate is not approved yet
abbrev pub waits : WaveRun → String → Walked
waits r name = record {
  plane = r.plane;
  steps = r.wave_step ∷ [];
  analyses = r.analysis ∷ [];
  halted_at = none;
  rollback = none;
  gates_released = [];
  waiting = some name;
}

abbrev pub finished : Plane → Walked
finished p = record {
  plane = p;
  steps = [];
  analyses = [];
  halted_at = none;
  rollback = none;
  gates_released = [];
  waiting = none;
}

module _ (policy : CanaryPolicy)
    (elapse : String → FleetTelemetry → FleetBudgets → FleetTelemetry × FleetBudgets) where
  -- `analyze_wave`, where `window` is the override or the policy's, in seconds
  unfoldable pub analyze_wave : ℕ → Plane → String → List String → List String → Plane × Analysis
  analyze_wave window p wave_name canary baseline =
      let opened = reset_many p.telemetry canary in
      let spends = open_spend_window p.budgets (canary ++ baseline) in
      let after = elapse wave_name opened spends in
      let t = if window == 0 then p.telemetry else after.0 in
      let b = if window == 0 then p.budgets else after.1 in
      (
        record p { telemetry = t; budgets = b },
        analyze policy (assemble_telemetry t b [] canary) (assemble_telemetry t b [] baseline),
      )

  module _ (answer : String → ℕ → Rendered → AckResult) (s : RuntimeStore)
      (polls : String → List Bool) (window_override : Option ℕ)
      (prior_render : Option Rendered) where
    -- what a failed or empty analysis leaves
    abbrev pub back : Plane → AssignedWave → ℕ → String → WaveAnalysis → Option Breach → WaveRun
    back p w node_count prior analysis breach = record {
      plane = record p { fleet = (rollback_wave p.fleet w.name w.node_ids prior prior_render).0 };
      wave_step = step w.name node_count (stopped prior []);
      analysis = analysis;
      halts = false;
      rollback = some (record { wave_name = w.name; breach = breach; reverted_to = prior });
    }

    unfoldable pub after_analysis : String → AssignedWave → ℕ → String → Plane × Analysis → WaveRun
    after_analysis target w node_count prior (p, pass) = record {
      plane = record p { fleet = set_wave_commit p.fleet w.name target };
      wave_step = step w.name node_count (advanced target);
      analysis = passed;
      halts = false;
      rollback = none;
    }
    after_analysis target w node_count prior (p, fail breach) =
        back p w node_count prior (failed breach) (some breach)
    after_analysis target w node_count prior (p, no_data) =
        back p w node_count prior without_data none

    -- what the acks of a wave lead to
    unfoldable pub after_acks :
        String → AssignedWave → List AssignedWave → Plane → WaveOutcome → WaveRun
    after_acks target w later p (committed h node_count) =
        after_analysis target w node_count (frozen_commit p.fleet w.name) (
          analyze_wave (unwrap_or window_override policy.window_secs) p w.name w.node_ids
            (baseline_ids later))
    after_acks target w later p (halted h ds) = record {
      plane = p;
      wave_step = step w.name (length w.node_ids) (stopped (frozen_commit p.fleet w.name) ds);
      analysis = not_analyzed;
      halts = true;
      rollback = none;
    }
    after_acks target w later p (no_nodes h) = record {
      plane = p;
      wave_step = step w.name 0 empty;
      analysis = not_analyzed;
      halts = false;
      rollback = none;
    }

    abbrev pub pushed_wave :
        String → AssignedWave → List AssignedWave → Plane → Fleet × WaveOutcome → WaveRun
    pushed_wave target w later p (f, outcome) =
        after_acks target w later (record p { fleet = f }) outcome

    unfoldable pub canary_wave : String → AssignedWave → List AssignedWave → Plane → WaveRun
    canary_wave target w later p = elim w.node_ids [
      | [] ↦ record {
        plane = p;
        wave_step = step w.name 0 empty;
        analysis = not_analyzed;
        halts = false;
        rollback = none;
      }
      | id ∷ ids ↦ pushed_wave target w later p (run_wave_nodes answer s p.fleet (id ∷ ids))
    ]

    -- the gate stands after a wave that passed its analysis
    abbrev pub stops_at_gate : String → WaveAnalysis → Bool
    stops_at_gate name passed = gates_after policy name
    stops_at_gate name _ = false

    unfoldable pub canary_walk : String → ℕ → List AssignedWave → Plane → Walked
    canary_walk target idx [] p = finished p
    canary_walk target idx (w ∷ waves) p =
        let r = canary_wave target w waves p in
        let later = canary_walk target (suc idx) waves r.plane in
        let gated : Walked = elim (await_gate (polls w.name)) [
          | none ↦ waits r w.name
          | some n ↦ then_later r (released w.name later)
        ] in
        let going = if stops_at_gate w.name r.analysis then gated else then_later r later in
        if r.halts
        then ended r (some idx) waves
        else elim r.rollback [ some _ ↦ ended r none waves | none ↦ going ]

    -- the plane after the walk and its outcome; while it waits at a gate, the wave of the gate
    unfoldable pub roll_out_plan_canary :
        List String → Plane → Plane × (Option CanaryOutcome) × Option String
    roll_out_plan_canary sessions p =
        let plain = roll_out_plan answer s sessions p.fleet in
        let off : CanaryOutcome = record {
          multi = plain.1;
          analyses = skip_steps plain.1.steps;
          rollback = none;
          gates_released = [];
        } in
        let f = begin_wave p.fleet in
        let target = f.applied.source_commit in
        let waves = assign (wave_plan f) (connected_node_labels s sessions) in
        let w = canary_walk target 0 waves (record p { fleet = f }) in
        let out : CanaryOutcome = record {
          multi = record { steps = w.steps; halted_at = w.halted_at; target_commit = target };
          analyses = w.analyses;
          rollback = w.rollback;
          gates_released = w.gates_released;
        } in
        if not policy.enabled
        then (record p { fleet = plain.0 }, some off, none)
        else elim w.waiting [
          | none ↦ (record (w.plane) { fleet = drop_guard w.plane.fleet }, some out, none)
          | some name ↦ (w.plane, none, some name)
        ]
