-- ===== src/CanaryRollout/Commits.antt =====
-- crates/gatewayctl/src/canary_rollout.rs, `roll_out_plan_canary`: the commits that are recorded for the waves.
use smallgateway.Prelude.{
  ℕ, suc, ◌≡◌, inl, inr, refl, ap, sym, ◌∙◌, String, Bool, Option, none, some, List, [], ◌∷◌,
  if◌then◌else◌, str_mem,
}
use mathlib.Core.Path.{subst}
use smallgateway.Prelude.Order.{text_ord}
use smallgateway.Prelude.BTree.Sorted.{IsSorted}
use smallgateway.Waves.{AssignedWave}
use smallgateway.Store.{RuntimeStore}
use smallgateway.Fleet.{Fleet, Rendered, AckResult}
use smallgateway.Ledger.{FleetBudgets}
use smallgateway.Telemetry.{FleetTelemetry}
use smallgateway.Canary.{CanaryPolicy}
use smallgateway.Rollout.{WaveStep, frozen_commit, advanced_names, freeze}
use smallgateway.Rollout.Commits.{run_wave-view, freeze-none}
use smallgateway.CanaryRollout.{Plane, WaveRun, Walked, then_later, ended, canary_walk}
use smallgateway.CanaryRollout.Waves.{judged, RollsBack}
use smallgateway.CanaryRollout.Steps.{walk_on, this, later, plain, Follows, walk-Follows}
use smallgateway.CanaryRollout.Tracks.{
  Tracks, Tracks-frozen, Tracks-trans, Tracks-reverted, rollback-commits, judged-IsSorted,
  roll_wave-Tracks, stopped-none,
}

module _ (policy : CanaryPolicy)
    (elapse : String → FleetTelemetry → FleetBudgets → FleetTelemetry × FleetBudgets)
    (answer : String → ℕ → Rendered → AckResult) (s : RuntimeStore) (polls : String → List Bool)
    (window_override : Option ℕ) (prior_render : Option Rendered) where
  none-Tracks :
      (target : String) (idx : ℕ) (p : Plane)
      → IsSorted p.fleet.wave_commit
      → let o =
          canary_walk policy elapse answer s polls window_override prior_render target idx [] p in
        Tracks target o.steps p.fleet.wave_commit o.plane.fleet.wave_commit
  unfolding canary_walk advanced_names
  none-Tracks target idx p h = (h, λ name. refl)

  module _ (target : String) (idx : ℕ) (w : AssignedWave) (waves : List AssignedWave)
      (p : Plane) where
    abbrev r : WaveRun
    r = this policy elapse answer s polls window_override prior_render target idx w waves p

    abbrev next : Walked
    next = later policy elapse answer s polls window_override prior_render target idx w waves p

    abbrev q : Fleet × WaveStep × Bool
    q = plain policy elapse answer s polls window_override prior_render target idx w waves p

    abbrev IsTracked : Walked → Type 0
    IsTracked o = Tracks target o.steps p.fleet.wave_commit o.plane.fleet.wave_commit

    abbrev Round : Type 0
    Round = Tracks target (r.wave_step ∷ []) p.fleet.wave_commit r.plane.fleet.wave_commit

    round-plain : IsSorted p.fleet.wave_commit → r.wave_step ≡ q.1 → r.plane.fleet ≡ q.0 → Round
    round-plain h x f =
        subst
          (λ (v : WaveStep × Fleet). Tracks target (v.0 ∷ []) p.fleet.wave_commit v.1.wave_commit)
          (λ i. (sym x i, sym f i)) (roll_wave-Tracks answer s p.fleet target w h)

    round-back :
        IsSorted p.fleet.wave_commit
        → RollsBack w
            (judged policy elapse answer s polls window_override prior_render p w)
            prior_render
            r
        → Round
    round-back h (rb, runs, names, at, cause, f) =
        let before = judged policy elapse answer s polls window_override prior_render p w in
        let kept = ap (λ v. v.2) (run_wave-view answer s p.fleet w.node_ids) in
        subst (λ m. Tracks target (r.wave_step ∷ []) m r.plane.fleet.wave_commit) kept
          (Tracks-reverted target r.wave_step w.name before r.plane.fleet.wave_commit
            (judged-IsSorted answer s p.fleet w.node_ids h)
            (ap (λ g. g.wave_commit) f
              ∙ rollback-commits before w.name w.node_ids (frozen_commit before w.name)
                  prior_render)
            (stopped-none r.wave_step rb.reverted_to at.1))

    ended-IsTracked : (halted_at : Option ℕ) → Round → IsTracked (ended r halted_at waves)
    ended-IsTracked halted_at round =
        let m = r.plane.fleet.wave_commit in
        let steps = freeze r.plane.fleet waves in
        Tracks-trans target r.wave_step steps p.fleet.wave_commit m m round
          (Tracks-frozen target steps m round.0 (freeze-none r.plane.fleet waves))

    then_later-IsTracked :
        Round
        → Tracks target next.steps r.plane.fleet.wave_commit next.plane.fleet.wave_commit
        → IsTracked (then_later r next)
    then_later-IsTracked round rest =
        Tracks-trans target r.wave_step next.steps p.fleet.wave_commit r.plane.fleet.wave_commit
          next.plane.fleet.wave_commit round rest

    abbrev Later : Type 0
    Later =
        IsSorted r.plane.fleet.wave_commit
        → Tracks target next.steps r.plane.fleet.wave_commit next.plane.fleet.wave_commit

    Follows-IsTracked :
        (o : Walked)
        → IsSorted p.fleet.wave_commit
        → Follows policy elapse answer s polls window_override prior_render target idx w waves p o
        → Later
        → IsTracked o
    Follows-IsTracked o h (inl (halt, e)) rest =
        subst IsTracked (sym e) (ended-IsTracked (some idx) (round-plain h halt.1.0 halt.1.1))
    Follows-IsTracked o h (inr (inl (back, e))) rest =
        subst IsTracked (sym e) (ended-IsTracked none (round-back h back))
    Follows-IsTracked o h (inr (inr (go, inl (free, e)))) rest =
        let round = round-plain h go.1.0 go.1.1 in
        subst IsTracked (sym e) (then_later-IsTracked round (rest round.0))
    Follows-IsTracked o h (inr (inr (go, inr (inl (gated, closed, e))))) rest =
        subst IsTracked (sym e) (round-plain h go.1.0 go.1.1)
    Follows-IsTracked o h (inr (inr (go, inr (inr (n, gated, approved, e))))) rest =
        let round = round-plain h go.1.0 go.1.1 in
        subst IsTracked (sym e) (then_later-IsTracked round (rest round.0))

  -- After a canary's walk the commit of a wave is the target if its step advanced, and what it was before
  -- the walk otherwise: a wave that halted, was rolled back, froze or waits for its turn keeps its commit,
  -- also where it had none.
  pub canary_walk-commits :
      (target : String) (idx : ℕ) (waves : List AssignedWave) (p : Plane)
      → IsSorted p.fleet.wave_commit
      → let o =
          canary_walk policy elapse answer s polls window_override prior_render target idx waves
            p in
        IsSorted o.plane.fleet.wave_commit
        × ((name : String)
            → frozen_commit o.plane.fleet name ≡ (
                if str_mem name (advanced_names o.steps)
                then target
                else frozen_commit p.fleet name))
  unfolding frozen_commit
  canary_walk-commits target idx [] p h = none-Tracks target idx p h
  canary_walk-commits target idx (w ∷ waves) p h =
      Follows-IsTracked target idx w waves p
        (walk_on policy elapse answer s polls window_override prior_render target idx (w ∷ waves) p)
        h
        (walk-Follows policy elapse answer s polls window_override prior_render target idx w waves
          p)
        (canary_walk-commits target (suc idx) waves (r target idx w waves p).plane)
