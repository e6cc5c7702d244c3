-- ===== src/CanaryRollout/Steps.antt =====
-- crates/gatewayctl/src/canary_rollout.rs, the loop of `roll_out_plan_canary`: how it goes on after a wave.
use smallgateway.Prelude.{
  ℕ, suc, ◌≡◌, ◌⊎◌, inl, inr, ap, String, Bool, true, false, Option, none, some, List, ◌∷◌,
  Bool-cases, Option-cases,
}
use smallgateway.Waves.{AssignedWave}
use smallgateway.Store.{RuntimeStore}
use smallgateway.Fleet.{Fleet, Rendered, AckResult}
use smallgateway.Ledger.{FleetBudgets}
use smallgateway.Telemetry.{FleetTelemetry}
use smallgateway.Canary.{CanaryPolicy}
use smallgateway.Rollout.{roll_wave, WaveStep}
use smallgateway.CanaryRollout.{
  WaveAnalysis, Rollback, Plane, WaveRun, Walked, then_later, released, ended, waits, await_gate,
  stops_at_gate, canary_walk,
}
use smallgateway.CanaryRollout.Waves.{run_wave, judged, GoesOn, HaltsToo, RollsBack, run_wave-Cases}

module _ (policy : CanaryPolicy)
    (elapse : String → FleetTelemetry → FleetBudgets → FleetTelemetry × FleetBudgets)
    (answer : String → ℕ → Rendered → AckResult) (s : RuntimeStore) (polls : String → List Bool)
    (window_override : Option ℕ) (prior_render : Option Rendered) where
  abbrev pub walk_on : String → ℕ → List AssignedWave → Plane → Walked
  walk_on = canary_walk policy elapse answer s polls window_override prior_render

  module _ (target : String) (idx : ℕ) (w : AssignedWave) (waves : List AssignedWave)
      (p : Plane) where
    abbrev pub this : WaveRun
    this = run_wave policy elapse answer s polls window_override prior_render target w waves p

    abbrev pub later : Walked
    later = walk_on target (suc idx) waves this.plane

    abbrev gate : WaveAnalysis → Bool
    gate a = stops_at_gate policy elapse answer s polls window_override prior_render w.name a

    walk-ends : this.halts ≡ true → walk_on target idx (w ∷ waves) p ≡ ended this (some idx) waves
    unfolding canary_walk
    walk-ends h = rw (h, canary_walk)

    walk-backs :
        (rb : Rollback)
        → this.halts ≡ false
        → this.rollback ≡ some rb
        → walk_on target idx (w ∷ waves) p ≡ ended this none waves
    unfolding canary_walk
    walk-backs rb h b =
        rw (h, b, canary_walk) (ap (λ x. record (ended this none waves) { rollback = x }) b)

    walk-goes :
        this.halts ≡ false
        → this.rollback ≡ none
        → gate this.analysis ≡ false
        → walk_on target idx (w ∷ waves) p ≡ then_later this later
    unfolding canary_walk
    walk-goes h b g = rw (h, b, g, canary_walk)

    walk-waits :
        this.halts ≡ false
        → this.rollback ≡ none
        → gate this.analysis ≡ true
        → await_gate (polls w.name) ≡ none
        → walk_on target idx (w ∷ waves) p ≡ waits this w.name
    unfolding canary_walk
    walk-waits h b g a = rw (h, b, g, a, canary_walk)

    walk-releases :
        (n : ℕ)
        → this.halts ≡ false
        → this.rollback ≡ none
        → gate this.analysis ≡ true
        → await_gate (polls w.name) ≡ some n
        → walk_on target idx (w ∷ waves) p ≡ then_later this (released w.name later)
    unfolding canary_walk
    walk-releases n h b g a = rw (h, b, g, a, canary_walk)

    abbrev pub plain : Fleet × WaveStep × Bool
    plain = roll_wave answer s p.fleet target w

    -- how the walk passes the gate after a wave that went on
    abbrev pub PassesGate : Walked → Type 0
    PassesGate o =
        ((gate this.analysis ≡ false) × (o ≡ then_later this later))
        ⊎ (((gate this.analysis ≡ true)
              × (await_gate (polls w.name) ≡ none)
              × (o ≡ waits this w.name))
            ⊎ ((n : ℕ) × (gate this.analysis ≡ true)
                × (await_gate (polls w.name) ≡ some n)
                × (o ≡ then_later this (released w.name later))))

    -- how the walk goes on after a wave
    abbrev pub Follows : Walked → Type 0
    Follows o =
        (HaltsToo this plain × (o ≡ ended this (some idx) waves))
        ⊎ ((RollsBack w (judged policy elapse answer s polls window_override prior_render p w)
                prior_render this
              × (o ≡ ended this none waves))
            ⊎ (GoesOn target this plain × PassesGate o))

    walk-PassesGate : GoesOn target this plain → PassesGate (walk_on target idx (w ∷ waves) p)
    walk-PassesGate go = elim (Bool-cases (gate this.analysis)) [
      | inr free ↦ inl (free, walk-goes go.0.0 go.0.1 free)
      | inl gated ↦ elim (Option-cases (await_gate (polls w.name))) [
        | inl closed ↦ inr (inl (gated, closed, walk-waits go.0.0 go.0.1 gated closed))
        | inr (n, approved) ↦
            inr (inr (n, gated, approved, walk-releases n go.0.0 go.0.1 gated approved))
      ]
    ]

    pub walk-Follows : Follows (walk_on target idx (w ∷ waves) p)
    walk-Follows =
        elim (run_wave-Cases policy elapse answer s polls window_override prior_render target w
          waves p) [
            | inl go ↦ inr (inr (go, walk-PassesGate go))
            | inr (inl halt) ↦ inl (halt, walk-ends halt.0.0)
            | inr (inr back) ↦ inr (inl (back, walk-backs back.0 back.1.0 back.1.1))
          ]
