-- ===== src/CanaryRollout/Gates.antt =====
-- crates/gatewayctl/src/canary_rollout.rs, `await_gate` in `roll_out_plan_canary`: the manual gates.
use smallgateway.Prelude.{
  ℕ, suc, ◌≡◌, ◌≢◌, inl, inr, refl, ap, sym, ◌∙◌, String, Bool, true, false, Option, none, some,
  some_ne_none, false_ne_true, List, [], ◌∷◌, ◌++◌, All, if◌then◌else◌,
}
use mathlib.Core.Path.{subst}
use smallgateway.Waves.{AssignedWave}
use smallgateway.Store.{RuntimeStore}
use smallgateway.Fleet.{Fleet, Rendered, AckResult}
use smallgateway.Ledger.{FleetBudgets}
use smallgateway.Telemetry.{FleetTelemetry}
use smallgateway.Canary.{CanaryPolicy, gates_after}
use smallgateway.Rollout.{WaveStep, advanced, empty, advanced_names, freeze}
use smallgateway.Rollout.Walk.{HasStopped, roll_wave-IsStepOf}
use smallgateway.Rollout.Commits.{freeze-none}
use smallgateway.CanaryRollout.{
  WaveAnalysis, Plane, WaveRun, Walked, ended, waits, await_gate, stops_at_gate, canary_walk,
}
use smallgateway.CanaryRollout.Waves.{GoesOn, HaltsToo}
use smallgateway.CanaryRollout.Steps.{walk_on, this, later, plain, Follows, walk-Follows}

-- the waves that the policy puts a gate after
abbrev pub gated : CanaryPolicy → List String → List String
gated policy [] = []
gated policy (name ∷ names) =
    let rest = gated policy names in if gates_after policy name then name ∷ rest else rest

abbrev pub in_wait : Option String → List String
in_wait none = []
in_wait (some name) = name ∷ []

-- no poll approved the wave that is waited for
abbrev pub IsClosed : (String → List Bool) → Option String → Type 0
IsClosed polls none = Unit
IsClosed polls (some name) = await_gate (polls name) ≡ none

advances-cons :
    (x : WaveStep) (commit : String) (steps : List WaveStep)
    → x.state ≡ advanced commit
    → advanced_names (x ∷ steps) ≡ x.wave_name ∷ advanced_names steps
unfolding advanced_names
advances-cons x commit steps e = rw e refl

stopped-cons :
    (x : WaveStep) (f : Fleet) (waves : List AssignedWave)
    → HasStopped x
    → advanced_names (x ∷ freeze f waves) ≡ []
unfolding advanced_names
stopped-cons x f waves (commit, ds, e) = rw e (freeze-none f waves)

empty-cons :
    (x : WaveStep) (steps : List WaveStep)
    → x.state ≡ empty
    → advanced_names (x ∷ steps) ≡ advanced_names steps
unfolding advanced_names
empty-cons x steps e = rw e refl

module _ (policy : CanaryPolicy)
    (elapse : String → FleetTelemetry → FleetBudgets → FleetTelemetry × FleetBudgets)
    (answer : String → ℕ → Rendered → AckResult) (s : RuntimeStore) (polls : String → List Bool)
    (window_override : Option ℕ) (prior_render : Option Rendered) where
  -- the gates of the advanced waves are released in their order, but for one that is waited for
  abbrev pub Passes : Walked → Type 0
  Passes o =
      (gated policy (advanced_names o.steps) ≡ o.gates_released ++ in_wait o.waiting)
      × All (λ name. await_gate (polls name) ≢ none) o.gates_released
      × IsClosed polls o.waiting

  none-Passes :
      (target : String) (idx : ℕ) (p : Plane)
      → Passes
          (canary_walk policy elapse answer s polls window_override prior_render target idx [] p)
  unfolding canary_walk advanced_names
  none-Passes target idx p = (refl, tt, tt)

  module _ (target : String) (idx : ℕ) (w : AssignedWave) (waves : List AssignedWave)
      (p : Plane) where
    abbrev r : WaveRun
    r = this policy elapse answer s polls window_override prior_render target idx w waves p

    abbrev next : Walked
    next = later policy elapse answer s polls window_override prior_render target idx w waves p

    abbrev q : Fleet × WaveStep × Bool
    q = plain policy elapse answer s polls window_override prior_render target idx w waves p

    abbrev gate : WaveAnalysis → Bool
    gate a = stops_at_gate policy elapse answer s polls window_override prior_render w.name a

    round-name : r.wave_step ≡ q.1 → r.wave_step.wave_name ≡ w.name
    round-name e =
        ap (λ (x : WaveStep). x.wave_name) e ∙ (roll_wave-IsStepOf answer s p.fleet target w).0

    halts-HasStopped : HaltsToo r q → HasStopped r.wave_step
    halts-HasStopped halt = elim ((roll_wave-IsStepOf answer s p.fleet target w).1) [
      | inl (going, on_target) ↦ absurd (false_ne_true (sym going ∙ halt.0.2))
      | inr (stops, has) ↦ subst HasStopped (sym halt.1.0) has
    ]

    ended-Passes :
        (halted_at : Option ℕ) → HasStopped r.wave_step → Passes (ended r halted_at waves)
    ended-Passes halted_at h =
        (ap (gated policy) (stopped-cons r.wave_step r.plane.fleet waves h), tt, tt)

    free-gated :
        (steps : List WaveStep)
        → GoesOn target r q
        → gate r.analysis ≡ false
        → gated policy (advanced_names (r.wave_step ∷ steps)) ≡ gated policy (advanced_names steps)
    free-gated steps (runs, same, inl (a, x)) free =
        let no_gate = sym (ap gate a) ∙ free in
        rw (advances-cons r.wave_step target steps x, round-name same.0, no_gate) refl
    free-gated steps (runs, same, inr (a, x)) free =
        ap (gated policy) (empty-cons r.wave_step steps x)

    gate-gated :
        (steps : List WaveStep)
        → GoesOn target r q
        → gate r.analysis ≡ true
        → gated policy (advanced_names (r.wave_step ∷ steps))
          ≡ w.name ∷ gated policy (advanced_names steps)
    gate-gated steps (runs, same, inl (a, x)) at_gate =
        let has_gate = sym (ap gate a) ∙ at_gate in
        rw (advances-cons r.wave_step target steps x, round-name same.0, has_gate) refl
    gate-gated steps (runs, same, inr (a, x)) at_gate =
        absurd (false_ne_true (sym (ap gate a) ∙ at_gate))

    waits-Passes :
        GoesOn target r q
        → gate r.analysis ≡ true
        → await_gate (polls w.name) ≡ none
        → Passes (waits r w.name)
    unfolding advanced_names
    waits-Passes go at_gate closed = (gate-gated [] go at_gate, tt, closed)

    Follows-Passes :
        (o : Walked)
        → Follows policy elapse answer s polls window_override prior_render target idx w waves p o
        → Passes next
        → Passes o
    Follows-Passes o (inl (halt, e)) rest =
        subst Passes (sym e) (ended-Passes (some idx) (halts-HasStopped halt))
    Follows-Passes o (inr (inl (back, e))) rest =
        subst Passes (sym e) (ended-Passes none (_, [], back.3.1))
    Follows-Passes o (inr (inr (go, inl (free, e)))) rest =
        subst Passes (sym e) (free-gated next.steps go free ∙ rest.0, rest.1, rest.2)
    Follows-Passes o (inr (inr (go, inr (inl (at_gate, closed, e))))) rest =
        subst Passes (sym e) (waits-Passes go at_gate closed)
    Follows-Passes o (inr (inr (go, inr (inr (n, at_gate, approved, e))))) rest =
        subst Passes (sym e) (
          gate-gated next.steps go at_gate ∙ ap (λ names. w.name ∷ names) rest.0,
          (λ closed. some_ne_none (sym approved ∙ closed), rest.1),
          rest.2,
        )

  pub canary_walk-Passes :
      (target : String) (idx : ℕ) (waves : List AssignedWave) (p : Plane)
      → Passes
          (canary_walk policy elapse answer s polls window_override prior_render target idx waves p)
  canary_walk-Passes target idx [] p = none-Passes target idx p
  canary_walk-Passes target idx (w ∷ waves) p =
      Follows-Passes target idx w waves p
        (walk_on policy elapse answer s polls window_override prior_render target idx (w ∷ waves) p)
        (walk-Follows policy elapse answer s polls window_override prior_render target idx w waves
          p)
        (canary_walk-Passes target (suc idx) waves (r target idx w waves p).plane)
