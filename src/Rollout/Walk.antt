-- ===== src/Rollout/Walk.antt =====
-- crates/gatewayctl/src/rollout.rs, `roll_out_plan`: the steps of the walk.
use smallgateway.Prelude.{
  ℕ, suc, zero, ◌+◌, ◌≡◌, ◌⊎◌, inl, inr, refl, ap, sym, ◌∙◌, String, Bool, true, false, Option,
  none, some, List, [], ◌∷◌, map, All, arith,
}
use mathlib.Core.Path.{subst}
use smallgateway.Waves.{AssignedWave, assign}
use smallgateway.Store.{RuntimeStore}
use smallgateway.Fleet.{
  Fleet, Rendered, Divergence, AckResult, WaveOutcome, committed, halted, no_nodes, begin_wave,
  wave_plan,
}
use smallgateway.Rollout.{
  WaveStep, advanced, stopped, frozen, empty, step, after_wave, roll_wave, freeze, walk,
  roll_out_plan, run_wave_nodes, connected_node_labels,
}

-- the step of a wave that did not halt: it is on the target, or had nothing to roll
abbrev pub HasPassed : String → WaveStep → Type 0
HasPassed target s = (s.state ≡ advanced target) ⊎ (s.state ≡ empty)

abbrev pub HasStopped : WaveStep → Type 0
HasStopped s = (commit : String) × (ds : List Divergence) × (s.state ≡ stopped commit ds)

abbrev pub IsFrozen : WaveStep → Type 0
IsFrozen s = (commit : String) × (s.state ≡ frozen commit)

-- the steps before the halt have passed, the halt's step is stopped, all after it are frozen
abbrev pub HaltsAt : String → Option ℕ → List WaveStep → Type 0
HaltsAt target none steps = All (HasPassed target) steps
HaltsAt target (some i) [] = ⊥
HaltsAt target (some zero) (s ∷ steps) = HasStopped s × All IsFrozen steps
HaltsAt target (some (suc i)) (s ∷ steps) = HasPassed target s × HaltsAt target (some i) steps

abbrev pub step_names : List WaveStep → List String
step_names steps = map (λ (s : WaveStep). s.wave_name) steps

abbrev pub wave_names : List AssignedWave → List String
wave_names waves = map (λ (w : AssignedWave). w.name) waves

-- an index that the walk found from `idx` on, counted from there
abbrev from : ℕ → Option ℕ → Option ℕ
from idx none = none
from idx (some i) = some (idx + i)

freeze-IsFrozen :
    (f : Fleet) (waves : List AssignedWave)
    → All IsFrozen (freeze f waves) × (step_names (freeze f waves) ≡ wave_names waves)
unfolding freeze
freeze-IsFrozen f [] = (tt, refl)
freeze-IsFrozen f (w ∷ waves) =
    let rest = freeze-IsFrozen f waves in (((_, refl), rest.0), ap (λ names. w.name ∷ names) rest.1)

-- the step of this wave, which has passed exactly where the walk goes on
abbrev pub IsStepOf : String → AssignedWave → Fleet × WaveStep × Bool → Type 0
IsStepOf target w r =
    (r.1.wave_name ≡ w.name)
    × (((r.2 ≡ false) × HasPassed target r.1) ⊎ ((r.2 ≡ true) × HasStopped r.1))

after_wave-IsStepOf :
    (o : Fleet × WaveOutcome) (target : String) (w : AssignedWave)
    → IsStepOf target w (after_wave o target w)
unfolding after_wave
after_wave-IsStepOf (f, committed h n) target w = (refl, inl (refl, inl refl))
after_wave-IsStepOf (f, halted h ds) target w = (refl, inr (refl, (_, ds, refl)))
after_wave-IsStepOf (f, no_nodes h) target w = (refl, inl (refl, inr refl))

cons-names :
    (s : WaveStep) (w : AssignedWave) (steps : List WaveStep) (waves : List AssignedWave)
    → s.wave_name ≡ w.name
    → step_names steps ≡ wave_names waves
    → step_names (s ∷ steps) ≡ wave_names (w ∷ waves)
cons-names s w steps waves h t = rw (h, t) refl

abbrev shift : Option ℕ → Option ℕ
shift none = none
shift (some i) = some (suc i)

from-suc : (idx : ℕ) (at : Option ℕ) → from (suc idx) at ≡ from idx (shift at)
from-suc idx none = refl
from-suc idx (some i) = ap some (omega arith)

from-zero : (at : Option ℕ) → from 0 at ≡ at
from-zero none = refl
from-zero (some i) = ap some (omega arith)

HaltsAt-shift :
    (target : String) (at : Option ℕ) (s : WaveStep) (steps : List WaveStep)
    → HasPassed target s
    → HaltsAt target at steps
    → HaltsAt target (shift at) (s ∷ steps)
HaltsAt-shift target none s steps p h = (p, h)
HaltsAt-shift target (some i) s steps p h = (p, h)

module _ (answer : String → ℕ → Rendered → AckResult) (s : RuntimeStore) where
  pub roll_wave-IsStepOf :
      (f : Fleet) (target : String) (w : AssignedWave)
      → IsStepOf target w (roll_wave answer s f target w)
  unfolding roll_wave
  roll_wave-IsStepOf f target w = by_nodes w.node_ids
    where
      by_nodes :
          (ids : List String)
          → IsStepOf target w (elim ids [
            | [] ↦ (f, step w.name 0 empty, false)
            | id ∷ ids ↦ after_wave (run_wave_nodes answer s f (id ∷ ids)) target w
          ])
      by_nodes [] = (refl, inl (refl, inr refl))
      by_nodes (id ∷ ids) = after_wave-IsStepOf (run_wave_nodes answer s f (id ∷ ids)) target w

  pub walk-go :
      (f : Fleet) (target : String) (idx : ℕ) (w : AssignedWave) (waves : List AssignedWave)
      → (roll_wave answer s f target w).2 ≡ false
      → let r = roll_wave answer s f target w in
        let later = walk answer s r.0 target (suc idx) waves in
        walk answer s f target idx (w ∷ waves) ≡ (later.0, r.1 ∷ later.1, later.2)
  unfolding walk
  walk-go f target idx w waves h = rw (h, walk)

  pub walk-stop :
      (f : Fleet) (target : String) (idx : ℕ) (w : AssignedWave) (waves : List AssignedWave)
      → (roll_wave answer s f target w).2 ≡ true
      → let r = roll_wave answer s f target w in
        walk answer s f target idx (w ∷ waves) ≡ (r.0, r.1 ∷ freeze r.0 waves, some idx)
  unfolding walk
  walk-stop f target idx w waves h = rw (h, walk)

  -- the outcome of a walk that began at `idx`
  abbrev IsWalk : String → ℕ → List AssignedWave → Fleet × List WaveStep × Option ℕ → Type 0
  IsWalk target idx waves r =
      (step_names r.1 ≡ wave_names waves)
      × ((at : Option ℕ) × (r.2 ≡ from idx at) × HaltsAt target at r.1)

  walk-IsWalk :
      (f : Fleet) (target : String) (idx : ℕ) (waves : List AssignedWave)
      → IsWalk target idx waves (walk answer s f target idx waves)
  unfolding walk
  walk-IsWalk f target idx [] = (refl, (none, refl, tt))
  walk-IsWalk f target idx (w ∷ waves) =
      let r = roll_wave answer s f target w in
      let one = roll_wave-IsStepOf f target w in
      elim one.1 [
        | inl (go, passed) ↦
            let rest = walk-IsWalk r.0 target (suc idx) waves in
            rw (walk-go f target idx w waves go) (
              cons-names r.1 w (walk answer s r.0 target (suc idx) waves).1 waves one.0 rest.0,
              (
                shift rest.1.0,
                rest.1.1 ∙ from-suc idx rest.1.0,
                HaltsAt-shift target rest.1.0 r.1 _ passed rest.1.2,
              ),
            )
        | inr (stop, halts) ↦
            let ice = freeze-IsFrozen r.0 waves in
            rw (walk-stop f target idx w waves stop) (
              cons-names r.1 w (freeze r.0 waves) waves one.0 ice.1,
              (some 0, ap some (omega arith), (halts, ice.0)),
            )
      ]

  -- A rollout has one step for each wave of the assignment, in its order. If no wave halted, every
  -- step is on the target commit or empty. If wave `i` halted, the steps before it are on the target
  -- commit or empty, its own step is halted, and every later step is frozen, never attempted.
  pub roll_out_plan-shape :
      (sessions : List String) (f : Fleet)
      → let o = (roll_out_plan answer s sessions f).1 in
        (step_names o.steps ≡ wave_names (assign (wave_plan f) (connected_node_labels s sessions)))
        × HaltsAt f.applied.source_commit o.halted_at o.steps
  unfolding roll_out_plan begin_wave wave_plan
  roll_out_plan-shape sessions f =
      let target = f.applied.source_commit in
      let waves = assign (wave_plan f) (connected_node_labels s sessions) in
      let w = walk-IsWalk (begin_wave f) target 0 waves in
      let steps = (walk answer s (begin_wave f) target 0 waves).1 in
      (w.0, subst (λ at. HaltsAt target at steps) (sym (w.1.1 ∙ from-zero w.1.0)) w.1.2)
