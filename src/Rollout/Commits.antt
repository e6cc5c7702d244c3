-- ===== src/Rollout/Commits.antt =====
-- crates/gatewayctl/src/rollout.rs, `roll_out_plan`: the commits that it records for the waves.
use smallgateway.Prelude.{
  ℕ, suc, ◌≡◌, inl, inr, refl, ap, ◌∙◌, String, Bool, false, some, List, [], ◌∷◌, ◌++◌, arith,
  if◌then◌else◌, str_mem, str_mem-append, eq_iff, Option-cases, Bool-cases,
}
use mathlib.Core.Path.{subst}
use smallgateway.Prelude.Order.{text_ord}
use smallgateway.Prelude.BTree.{get, get-insert}
use smallgateway.Waves.{AssignedWave, assign}
use smallgateway.Store.{RuntimeStore}
use smallgateway.Fleet.{
  Fleet, Rendered, AckResult, WaveOutcome, committed, halted, no_nodes, begin_wave, drop_guard,
  wave_plan, next_version_for, set_wave_commit,
}
use smallgateway.Fleet.Conclude.{view, conclude-view}
use smallgateway.Reconcile.{desired_for_node}
use smallgateway.Reconcile.Tick.{desired_for-same}
use smallgateway.Rollout.{
  WaveStep, advanced, empty, step, Pushed, advanced_names, push_node, push_nodes, run_wave_nodes,
  after_wave, roll_wave, freeze, walk, roll_out_plan, connected_node_labels,
}
use smallgateway.Rollout.Walk.{walk-go, walk-stop}

desired_for_node-view :
    (s : RuntimeStore) (f : Fleet) (id : String) → view (desired_for_node s f id).0 ≡ view f
unfolding desired_for_node
desired_for_node-view s f id = elim (Option-cases (get id s)) [
  | inl missing ↦ rw (missing, desired_for_node) refl
  | inr (n, found) ↦
      let same = desired_for-same f n.labels in
      rw (found, desired_for_node) (rw (same.0, same.3, same.4) refl)
]

pub next_version-view :
    (f : Fleet) (id hash : String) → view (next_version_for f id hash).0 ≡ view f
unfolding next_version_for
next_version-view f id hash = refl

module _ (answer : String → ℕ → Rendered → AckResult) (s : RuntimeStore) where
  push_node-view : (p : Pushed) (id : String) → view (push_node answer s p id).fleet ≡ view p.fleet
  unfolding push_node
  push_node-view p id =
      next_version-view (desired_for_node s p.fleet id).0 id _ ∙ desired_for_node-view s p.fleet id

  push_nodes-view :
      (p : Pushed) (ids : List String) → view (push_nodes answer s p ids).fleet ≡ view p.fleet
  unfolding push_nodes
  push_nodes-view p [] = refl
  push_nodes-view p (id ∷ ids) = push_nodes-view (push_node answer s p id) ids ∙ push_node-view p id

  pub run_wave-view :
      (f : Fleet) (ids : List String) → view (run_wave_nodes answer s f ids).0 ≡ view f
  unfolding run_wave_nodes
  run_wave-view f ids = conclude-view _ _ _ _ _ ∙ push_nodes-view _ ids

pub freeze-none : (f : Fleet) (waves : List AssignedWave) → advanced_names (freeze f waves) ≡ []
unfolding freeze advanced_names
freeze-none f [] = refl
freeze-none f (w ∷ waves) = freeze-none f waves

pub advanced_names-cons :
    (s : WaveStep) (steps : List WaveStep)
    → advanced_names (s ∷ steps) ≡ advanced_names (s ∷ []) ++ advanced_names steps
unfolding advanced_names
advanced_names-cons s steps = ground arith

-- what a step does to the view of the fleet
abbrev pub Records : String → List WaveStep → Fleet → Fleet → Type 0
Records target steps f g =
    (g.applied ≡ f.applied)
    × (g.desired ≡ f.desired)
    × ((name : String)
        → get name g.wave_commit
          ≡ (if str_mem name (advanced_names steps) then some target else get name f.wave_commit))

Records-view : (target : String) (f g : Fleet) → view g ≡ view f → Records target [] f g
unfolding advanced_names
Records-view target f g e = (ap (λ v. v.0) e, ap (λ v. v.1) e, λ name. ap (λ v. get name v.2) e)

Records-trans :
    (target : String) (s : WaveStep) (steps : List WaveStep) (f g h : Fleet)
    → Records target (s ∷ []) f g
    → Records target steps g h
    → Records target (s ∷ steps) f h
Records-trans target s steps f g h p q = (
  q.0 ∙ p.0,
  q.1 ∙ p.1,
  λ name. ground (
    arith,
    p.2 name,
    q.2 name,
    advanced_names-cons s steps,
    str_mem-append name (advanced_names (s ∷ [])) (advanced_names steps),
  ),
)

set_wave_commit-Records :
    (f : Fleet) (name target : String) (n : ℕ)
    → Records target (step name n (advanced target) ∷ []) f (set_wave_commit f name target)
unfolding set_wave_commit advanced_names
set_wave_commit-Records f name target n = (
  refl,
  refl,
  λ k. ground (
    arith,
    get-insert name k target f.wave_commit,
    eq_iff name k,
    text_ord.eq_of_cmp k name,
    text_ord.cmp_refl name,
  ),
)

after_wave-Records :
    (f : Fleet) (o : Fleet × WaveOutcome) (target : String) (w : AssignedWave)
    → view o.0 ≡ view f
    → Records target ((after_wave o target w).1 ∷ []) f (after_wave o target w).0
unfolding after_wave advanced_names
after_wave-Records f (g, committed h n) target w e =
    let q = set_wave_commit-Records g w.name target n in
    let done = set_wave_commit g w.name target in
    let names = advanced_names (step w.name n (advanced target) ∷ []) in
    (
      q.0 ∙ ap (λ v. v.0) e,
      q.1 ∙ ap (λ v. v.1) e,
      λ name.
          subst
            (λ m.
              get name done.wave_commit ≡ (if str_mem name names then some target else get name m))
            (ap (λ v. v.2) e) (q.2 name),
    )
after_wave-Records f (g, halted h ds) target w e = Records-view target f g e
after_wave-Records f (g, no_nodes h) target w e = Records-view target f g e

empty-Records :
    (target : String) (f : Fleet) (w : AssignedWave) → Records target (step w.name 0 empty ∷ []) f f
unfolding advanced_names
empty-Records target f w = (refl, refl, λ name. refl)

freeze-Records :
    (target : String) (f : Fleet) (waves : List AssignedWave) → Records target (freeze f waves) f f
freeze-Records target f waves = (refl, refl, λ name. rw (freeze-none f waves) refl)

module _ (answer : String → ℕ → Rendered → AckResult) (s : RuntimeStore) where
  pub roll_wave-Records :
      (f : Fleet) (target : String) (w : AssignedWave)
      → Records target ((roll_wave answer s f target w).1 ∷ []) f (roll_wave answer s f target w).0
  unfolding roll_wave
  roll_wave-Records f target w = by_nodes w.node_ids
    where
      HasRecorded : Fleet × WaveStep × Bool → Type 0
      HasRecorded r = Records target (r.1 ∷ []) f r.0

      by_nodes :
          (ids : List String)
          → HasRecorded (elim ids [
            | [] ↦ (f, step w.name 0 empty, false)
            | id ∷ ids ↦ after_wave (run_wave_nodes answer s f (id ∷ ids)) target w
          ])
      by_nodes [] = empty-Records target f w
      by_nodes (id ∷ ids) =
          after_wave-Records f (run_wave_nodes answer s f (id ∷ ids)) target w
            (run_wave-view answer s f (id ∷ ids))

  walk-Records :
      (f : Fleet) (target : String) (idx : ℕ) (waves : List AssignedWave)
      → Records target (walk answer s f target idx waves).1 f (walk answer s f target idx waves).0
  unfolding walk
  walk-Records f target idx [] = Records-view target f f refl
  walk-Records f target idx (w ∷ waves) =
      let r = roll_wave answer s f target w in
      let one = roll_wave-Records f target w in
      elim (Bool-cases r.2) [
        | inl stop ↦ rw (walk-stop answer s f target idx w waves stop) (
            Records-trans target r.1 (freeze r.0 waves) f r.0 r.0 one
              (freeze-Records target r.0 waves))
        | inr go ↦
            let later = walk answer s r.0 target (suc idx) waves in
            rw (walk-go answer s f target idx w waves go) (
              Records-trans target r.1 later.1 f r.0 later.0 one
                (walk-Records r.0 target (suc idx) waves))
      ]

  -- A rollout leaves the desired state, and records the target commit for exactly the waves whose
  -- steps advanced: the commit of every other wave, halted, frozen or empty, is what it was.
  pub roll_out_plan-Records :
      (sessions : List String) (f : Fleet)
      → let r = roll_out_plan answer s sessions f in Records f.applied.source_commit r.1.steps f r.0
  unfolding roll_out_plan begin_wave drop_guard
  roll_out_plan-Records sessions f =
      walk-Records (begin_wave f) f.applied.source_commit 0
        (assign (wave_plan (begin_wave f)) (connected_node_labels s sessions))
