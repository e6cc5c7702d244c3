-- ===== src/CanaryRollout/Waves.antt =====
-- crates/gatewayctl/src/canary_rollout.rs, one round of the loop: what a wave leaves, beside the round of
-- `roll_out_plan` on the same wave.
use smallgateway.Prelude.{
  ℕ, ◌≡◌, ◌⊎◌, inl, inr, refl, String, Bool, true, false, Option, none, some, List, [], ◌∷◌,
  unwrap_or,
}
use smallgateway.Prelude.Order.{text_ord}
use smallgateway.Waves.{AssignedWave}
use smallgateway.Store.{RuntimeStore}
use smallgateway.Fleet.{Fleet, Rendered, WaveOutcome, committed, halted, no_nodes, AckResult}
use smallgateway.Ledger.{FleetBudgets}
use smallgateway.Telemetry.{FleetTelemetry}
use smallgateway.Canary.{CanaryPolicy, Breach, Analysis, pass, fail, no_data}
use smallgateway.Rollout.{
  WaveStep, advanced, stopped, empty, step, frozen_commit, run_wave_nodes, after_wave, roll_wave,
}
use smallgateway.CanaryRollout.{
  WaveAnalysis, not_analyzed, passed, failed, without_data, Rollback, Plane, WaveRun, rollback_wave,
  after_analysis, after_acks, pushed_wave, analyze_wave, canary_wave, baseline_ids,
}

-- the round goes on, as the plain one does, and the wave advanced exactly if its analysis passed
abbrev pub GoesOn : String → WaveRun → Fleet × WaveStep × Bool → Type 0
GoesOn target r q =
    ((r.halts ≡ false) × (r.rollback ≡ none) × (q.2 ≡ false))
    × ((r.wave_step ≡ q.1) × (r.plane.fleet ≡ q.0))
    × (((r.analysis ≡ passed) × (r.wave_step.state ≡ advanced target))
        ⊎ ((r.analysis ≡ not_analyzed) × (r.wave_step.state ≡ empty)))

-- the round halts on its acks, as the plain one does
abbrev pub HaltsToo : WaveRun → Fleet × WaveStep × Bool → Type 0
HaltsToo r q =
    ((r.halts ≡ true) × (r.rollback ≡ none) × (q.2 ≡ true))
    × ((r.wave_step ≡ q.1) × (r.plane.fleet ≡ q.0))
    × (r.analysis ≡ not_analyzed)

-- the analysis and the breach of a rollback
abbrev pub Caused : WaveAnalysis → Option Breach → Type 0
Caused (failed b) breach = breach ≡ some b
Caused without_data breach = breach ≡ none
Caused _ breach = ⊥

-- the round rolls its wave back to the commit that it had, where `f` is the fleet before the rollback
abbrev pub RollsBack : AssignedWave → Fleet → Option Rendered → WaveRun → Type 0
RollsBack w f prior_render r =
    (rb : Rollback) × ((r.halts ≡ false) × (r.rollback ≡ some rb))
    × ((rb.wave_name ≡ w.name) × (rb.reverted_to ≡ frozen_commit f w.name))
    × ((r.wave_step.wave_name ≡ w.name) × (r.wave_step.state ≡ stopped rb.reverted_to []))
    × Caused r.analysis rb.breach
    × (r.plane.fleet ≡ (rollback_wave f w.name w.node_ids (frozen_commit f w.name) prior_render).0)

module _ (policy : CanaryPolicy)
    (elapse : String → FleetTelemetry → FleetBudgets → FleetTelemetry × FleetBudgets)
    (answer : String → ℕ → Rendered → AckResult) (s : RuntimeStore) (polls : String → List Bool)
    (window_override : Option ℕ) (prior_render : Option Rendered) where
  abbrev pub run_wave : String → AssignedWave → List AssignedWave → Plane → WaveRun
  run_wave = canary_wave policy elapse answer s polls window_override prior_render

  -- the fleet once the wave was pushed and its acks are judged
  abbrev pub judged : Plane → AssignedWave → Fleet
  judged p w = (run_wave_nodes answer s p.fleet w.node_ids).0

  abbrev Cases : String → AssignedWave → Fleet → WaveRun → Fleet × WaveStep × Bool → Type 0
  Cases target w f r q = GoesOn target r q ⊎ (HaltsToo r q ⊎ RollsBack w f prior_render r)

  after_analysis-Cases :
      (target : String) (w : AssignedWave) (h : String) (n : ℕ) (p : Plane) (a : Analysis)
      → Cases target w p.fleet
          (after_analysis policy elapse answer s polls window_override prior_render target w n
            (frozen_commit p.fleet w.name)
            (p, a))
          (after_wave (p.fleet, committed h n) target w)
  unfolding after_analysis after_wave
  after_analysis-Cases target w h n p pass =
      inl ((refl, refl, refl), (refl, refl), inl (refl, refl))
  after_analysis-Cases target w h n p (fail b) =
      inr (inr (_, (refl, refl), (refl, refl), (refl, refl), refl, refl))
  after_analysis-Cases target w h n p no_data =
      inr (inr (_, (refl, refl), (refl, refl), (refl, refl), refl, refl))

  after_acks-Cases :
      (target : String) (w : AssignedWave) (later : List AssignedWave) (p : Plane)
      (o : Fleet × WaveOutcome)
      → Cases target w o.0
          (pushed_wave policy elapse answer s polls window_override prior_render target w later p o)
          (after_wave o target w)
  unfolding after_acks after_wave analyze_wave
  after_acks-Cases target w later p (f, committed h n) =
      let window = unwrap_or window_override policy.window_secs in
      let a =
        analyze_wave policy elapse window (record p { fleet = f }) w.name w.node_ids
          (baseline_ids later) in
      after_analysis-Cases target w h n (a.0) (a.1)
  after_acks-Cases target w later p (f, halted h ds) =
      inr (inl ((refl, refl, refl), (refl, refl), refl))
  after_acks-Cases target w later p (f, no_nodes h) =
      inl ((refl, refl, refl), (refl, refl), inr (refl, refl))

  pub run_wave-Cases :
      (target : String) (w : AssignedWave) (later : List AssignedWave) (p : Plane)
      → Cases target w
          (judged p w)
          (run_wave target w later p)
          (roll_wave answer s p.fleet target w)
  unfolding canary_wave roll_wave
  run_wave-Cases target w later p = by_nodes w.node_ids
    where
      by_nodes :
          (ids : List String)
          → Cases target w
              (run_wave_nodes answer s p.fleet ids).0
              (elim ids [
                | [] ↦ record {
                  plane = p;
                  wave_step = step w.name 0 empty;
                  analysis = not_analyzed;
                  halts = false;
                  rollback = none;
                }
                | id ∷ ids ↦
                    pushed_wave policy elapse answer s polls window_override prior_render target w
                      later p
                      (run_wave_nodes answer s p.fleet (id ∷ ids))
              ])
              (elim ids [
                | [] ↦ (p.fleet, step w.name 0 empty, false)
                | id ∷ ids ↦ after_wave (run_wave_nodes answer s p.fleet (id ∷ ids)) target w
              ])
      by_nodes [] = inl ((refl, refl, refl), (refl, refl), inr (refl, refl))
      by_nodes (id ∷ ids) =
          after_acks-Cases target w later p (run_wave_nodes answer s p.fleet (id ∷ ids))
