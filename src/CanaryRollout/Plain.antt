-- ===== src/CanaryRollout/Plain.antt =====
-- crates/gatewayctl/src/canary_rollout.rs, `roll_out_plan_canary`, beside `roll_out_plan` of
-- crates/gatewayctl/src/rollout.rs.
use smallgateway.Prelude.{
  ℕ, suc, ◌≡◌, inl, inr, refl, ap, sym, ◌∙◌, String, Bool, Option, none, some, some_ne_none, List,
  [], ◌∷◌,
}
use smallgateway.Waves.{AssignedWave}
use smallgateway.Store.{RuntimeStore}
use smallgateway.Fleet.{Fleet, Rendered, AckResult}
use smallgateway.Ledger.{FleetBudgets}
use smallgateway.Telemetry.{FleetTelemetry}
use smallgateway.Canary.{CanaryPolicy}
use smallgateway.Rollout.{WaveStep, walk, freeze}
use smallgateway.Rollout.Walk.{walk-go, walk-stop}
use smallgateway.CanaryRollout.{Plane, WaveRun, Walked, then_later, ended, canary_walk}
use smallgateway.CanaryRollout.Waves.{HaltsToo, GoesOn}
use smallgateway.CanaryRollout.Steps.{walk_on, this, later, plain, Follows, walk-Follows}

-- the fleet, the steps and the halt, which a plain walk has too
abbrev pub view : Walked → Fleet × List WaveStep × Option ℕ
view o = (o.plane.fleet, o.steps, o.halted_at)

module _ (policy : CanaryPolicy)
    (elapse : String → FleetTelemetry → FleetBudgets → FleetTelemetry × FleetBudgets)
    (answer : String → ℕ → Rendered → AckResult) (s : RuntimeStore) (polls : String → List Bool)
    (window_override : Option ℕ) (prior_render : Option Rendered) where
  abbrev run : String → ℕ → List AssignedWave → Plane → Walked
  run = walk_on policy elapse answer s polls window_override prior_render

  none-plain :
      (target : String) (idx : ℕ) (p : Plane)
      → view (run target idx [] p) ≡ walk answer s p.fleet target idx []
  unfolding canary_walk walk
  none-plain target idx p = refl

  module _ (target : String) (idx : ℕ) (w : AssignedWave) (waves : List AssignedWave)
      (p : Plane) where
    abbrev r : WaveRun
    r = this policy elapse answer s polls window_override prior_render target idx w waves p

    abbrev next : Walked
    next = later policy elapse answer s polls window_override prior_render target idx w waves p

    abbrev q : Fleet × WaveStep × Bool
    q = plain policy elapse answer s polls window_override prior_render target idx w waves p

    -- the walk is the plain one from this wave on
    abbrev IsPlain : Walked → Type 0
    IsPlain o = view o ≡ walk answer s p.fleet target idx (w ∷ waves)

    ended-IsPlain : HaltsToo r q → IsPlain (ended r (some idx) waves)
    ended-IsPlain halt =
        ap (λ (x : Fleet × WaveStep). (x.0, x.1 ∷ freeze x.0 waves, some idx))
          (λ i. (halt.1.1 i, halt.1.0 i))
        ∙ sym (walk-stop answer s p.fleet target idx w waves halt.0.2)

    then_later-IsPlain :
        GoesOn target r q
        → view next ≡ walk answer s r.plane.fleet target (suc idx) waves
        → IsPlain (then_later r next)
    then_later-IsPlain go h =
        ap (λ (v : Fleet × List WaveStep × Option ℕ). (v.0, r.wave_step ∷ v.1, v.2)) h
        ∙ ap
            (λ (x : Fleet × WaveStep).
              let after = walk answer s x.0 target (suc idx) waves in
              (after.0, x.1 ∷ after.1, after.2))
            (λ i. (go.1.1 i, go.1.0 i))
        ∙ sym (walk-go answer s p.fleet target idx w waves go.0.2)

    abbrev Later : Type 0
    Later =
        next.rollback ≡ none
        → next.waiting ≡ none
        → view next ≡ walk answer s r.plane.fleet target (suc idx) waves

    Follows-IsPlain :
        (o : Walked)
        → Follows policy elapse answer s polls window_override prior_render target idx w waves p o
        → Later
        → o.rollback ≡ none
        → o.waiting ≡ none
        → IsPlain o
    Follows-IsPlain o (inl (halt, e)) rest no_back no_wait = ap view e ∙ ended-IsPlain halt
    Follows-IsPlain o (inr (inl (back, e))) rest no_back no_wait =
        absurd (some_ne_none (sym back.1.1 ∙ sym (ap (λ (x : Walked). x.rollback) e) ∙ no_back))
    Follows-IsPlain o (inr (inr (go, inl (free, e)))) rest no_back no_wait =
        ap view e
        ∙ then_later-IsPlain go (
            rest (sym (ap (λ (x : Walked). x.rollback) e) ∙ no_back)
              (sym (ap (λ (x : Walked). x.waiting) e) ∙ no_wait))
    Follows-IsPlain o (inr (inr (go, inr (inl (gated, closed, e))))) rest no_back no_wait =
        absurd (some_ne_none (sym (ap (λ (x : Walked). x.waiting) e) ∙ no_wait))
    Follows-IsPlain o (inr (inr (go, inr (inr (n, gated, approved, e))))) rest no_back no_wait =
        ap view e
        ∙ then_later-IsPlain go (
            rest (sym (ap (λ (x : Walked). x.rollback) e) ∙ no_back)
              (sym (ap (λ (x : Walked). x.waiting) e) ∙ no_wait))

  -- A canary's walk that rolls no wave back and does not wait at a gate is the plain walk: it leaves the
  -- same fleet, takes the same steps and halts at the same wave, whatever the telemetry says.
  pub canary_walk-plain :
      (target : String) (idx : ℕ) (waves : List AssignedWave) (p : Plane)
      → let o =
          canary_walk policy elapse answer s polls window_override prior_render target idx waves
            p in
        o.rollback ≡ none
        → o.waiting ≡ none
        → (o.plane.fleet, o.steps, o.halted_at) ≡ walk answer s p.fleet target idx waves
  canary_walk-plain target idx [] p no_back no_wait = none-plain target idx p
  canary_walk-plain target idx (w ∷ waves) p no_back no_wait =
      Follows-IsPlain target idx w waves p (run target idx (w ∷ waves) p)
        (walk-Follows policy elapse answer s polls window_override prior_render target idx w waves
          p)
        (canary_walk-plain target (suc idx) waves (r target idx w waves p).plane) no_back no_wait
