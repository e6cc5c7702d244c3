-- ===== src/Rollout/Acks.antt =====
-- crates/gatewayctl/src/rollout.rs, `run_wave_nodes`: what the nodes of a wave answered to their own
-- pushes.
use mathlib.Core.Path.{subst}
use mathlib.Core.List.{append_assoc, append-nil}
use smallgateway.Prelude.{
  ℕ, ◌≡◌, ◌≢◌, ◌↔◌, ◌⊎◌, inl, inr, refl, ap, sym, ◌∙◌, String, Bool, false, List, [], ◌∷◌, ◌++◌,
  map, All, arith, str_mem, eq_iff, eq_refl,
}
use smallgateway.Waves.{AssignedWave}
use smallgateway.Waves.Parse.{AllDistinct}
use smallgateway.Store.{RuntimeStore}
use smallgateway.Fleet.{
  Fleet, Rendered, WaveOutcome, committed, halted, no_nodes, Divergence, AckResult, acked,
  expected_of, next_version_for, conclude_wave_multi,
}
use smallgateway.Fleet.Conclude.{HasAcked, conclude_cases}
use smallgateway.Reconcile.{desired_for_node}
use smallgateway.Rollout.{
  Pushed, push_node, push_nodes, run_wave_nodes, WaveStep, advanced, empty, step, after_wave,
  roll_wave,
}

-- a push: the node, the version, and the render
abbrev pub Push : Type 0
Push = String × ℕ × Rendered

abbrev pub pushed_ids : List Push → List String
pushed_ids pushes = map (λ (q : Push). q.0) pushes

abbrev hashes : List Push → List (String × String)
hashes pushes = map (λ (q : Push). (q.0, q.2.render_hash)) pushes

-- the expected hash that adjudicates a push is the one of its render
abbrev HasOwnHash : List (String × String) → String → Push → Type 0
HasOwnHash expected h q = expected_of expected h q.0 ≡ q.2.render_hash

skip_other :
    (q : Push) (expected : List (String × String)) (h : String) (pushes : List Push)
    → str_mem q.0 (pushed_ids pushes) ≡ false
    → All (HasOwnHash expected h) pushes
    → All (HasOwnHash ((q.0, q.2.render_hash) ∷ expected) h) pushes
unfolding expected_of
skip_other q expected h [] absent own = tt
skip_other q expected h (p ∷ pushes) absent own = (
  ground (arith, absent, own.0, eq_iff q.0 p.0, eq_iff p.0 q.0),
  skip_other q expected h pushes (ground (arith, absent)) own.1,
)

own_hashes :
    (pushes : List Push) (h : String)
    → AllDistinct (pushed_ids pushes)
    → All (HasOwnHash (hashes pushes) h) pushes
unfolding expected_of
own_hashes [] h d = tt
own_hashes (q ∷ pushes) h d = (
  ground (arith, eq_refl q.0),
  skip_other q (hashes pushes) h pushes d.0 (own_hashes pushes h d.1),
)

abbrev StepOf : Fleet × WaveStep × Bool → WaveStep
StepOf r = r.1

module _ (answer : String → ℕ → Rendered → AckResult) (s : RuntimeStore) where
  -- the node acked the render that it was pushed
  abbrev pub Accepts : Push → Type 0
  Accepts q = answer q.0 q.1 q.2 ≡ acked q.2.render_hash

  abbrev answers : List Push → List (String × AckResult)
  answers pushes = map (λ (q : Push). (q.0, answer q.0 q.1 q.2)) pushes

  abbrev one_push : Fleet → String → Push
  one_push f id =
      let desired = desired_for_node s f id in
      (id, (next_version_for desired.0 id desired.1.render_hash).1, desired.1)

  abbrev pub after_push : Fleet → String → Fleet
  after_push f id =
      let desired = desired_for_node s f id in
      (next_version_for desired.0 id desired.1.render_hash).0

  -- the pushes of a wave, in turn
  abbrev pub pushes_of : Fleet → List String → List Push
  pushes_of f [] = []
  pushes_of f (id ∷ ids) = one_push f id ∷ pushes_of (after_push f id) ids

  pushed_ids-pushes_of : (f : Fleet) (ids : List String) → pushed_ids (pushes_of f ids) ≡ ids
  pushed_ids-pushes_of f [] = refl
  pushed_ids-pushes_of f (id ∷ ids) =
      ap (λ rest. id ∷ rest) (pushed_ids-pushes_of (after_push f id) ids)

  push_nodes-lists :
      (p : Pushed) (ids : List String)
      → ((push_nodes answer s p ids).expected ≡ p.expected ++ hashes (pushes_of p.fleet ids))
        × ((push_nodes answer s p ids).results ≡ p.results ++ answers (pushes_of p.fleet ids))
  unfolding push_nodes push_node
  push_nodes-lists p [] = (sym (append-nil p.expected), sym (append-nil p.results))
  push_nodes-lists p (id ∷ ids) =
      let rest = push_nodes-lists (push_node answer s p id) ids in
      (rest.0 ∙ append_assoc p.expected _ _, rest.1 ∙ append_assoc p.results _ _)

  acks_iff :
      (expected : List (String × String)) (h : String) (pushes : List Push)
      → All (HasOwnHash expected h) pushes
      → All (HasAcked expected h) (answers pushes) ↔ All Accepts pushes
  acks_iff expected h [] own = ground arith
  acks_iff expected h (q ∷ pushes) own = ground (arith, own.0, acks_iff expected h pushes own.1)

  -- the outcome of a wave with at least one node, by the answers to its pushes
  abbrev Outcome : Fleet → List String → Fleet × WaveOutcome → Type 0
  Outcome f ids o =
      (All Accepts (pushes_of f ids) × ((h : String) × (n : ℕ) × (o.1 ≡ committed h n)))
      ⊎ (¬ All Accepts (pushes_of f ids)
          × ((h : String) × (ds : List Divergence) × (o.1 ≡ halted h ds)))

  conclude-Outcome :
      (f g : Fleet) (ids : List String) (h : String) (version : ℕ)
      → ids ≢ []
      → AllDistinct ids
      → let pushes = pushes_of f ids in
        Outcome f ids (conclude_wave_multi g h (hashes pushes) version (answers pushes))
  conclude-Outcome f g [] h version filled d = ground arith
  conclude-Outcome f g (id ∷ ids) h version filled d =
      let pushes = pushes_of f (id ∷ ids) in
      let own =
        own_hashes pushes h (subst AllDistinct (sym (pushed_ids-pushes_of f (id ∷ ids))) d) in
      let acks = acks_iff (hashes pushes) h pushes own in
      elim (conclude_cases g h (hashes pushes) version (answers pushes) (λ e. cc)) [
        | inl (all, done) ↦ inl (acks.0 all, (h, _, ap (λ (o : Fleet × WaveOutcome). o.1) done))
        | inr (some_not, (ds, stopped_by, names)) ↦ inr (
          λ all. some_not (acks.1 all),
          (h, ds, ap (λ (o : Fleet × WaveOutcome). o.1) stopped_by),
        )
      ]

  run_wave-Outcome :
      (f : Fleet) (ids : List String)
      → ids ≢ []
      → AllDistinct ids
      → Outcome f ids (run_wave_nodes answer s f ids)
  unfolding run_wave_nodes
  run_wave-Outcome f ids filled d =
      let start : Pushed = record {
        fleet = f;
        expected = [];
        results = [];
        wave_version = f.committed_version;
      } in
      let p = push_nodes answer s start ids in
      let lists = push_nodes-lists start ids in
      rw (lists.0, lists.1) (conclude-Outcome f p.fleet ids _ p.wave_version filled d)

  after_wave-advanced :
      (o : Fleet × WaveOutcome) (f : Fleet) (ids : List String) (target : String) (w : AssignedWave)
      → Outcome f ids o
      → ((after_wave o target w).1.state ≡ advanced target) ↔ All Accepts (pushes_of f ids)
  unfolding after_wave
  after_wave-advanced (g, committed h n) f ids target w (inl (all, done)) = (λ e. all, λ e. refl)
  after_wave-advanced (g, committed h n) f ids target w (inr (some_not, (k, ds, other))) =
      ground arith
  after_wave-advanced (g, halted h ds) f ids target w (inl (all, (k, m, other))) = ground arith
  after_wave-advanced (g, halted h ds) f ids target w (inr (some_not, out)) =
      (λ e. cc, λ all. absurd (some_not all))
  after_wave-advanced (g, no_nodes h) f ids target w (inl (all, (k, m, other))) = ground arith
  after_wave-advanced (g, no_nodes h) f ids target w (inr (some_not, (k, ds, other))) = ground arith

  -- A wave with at least one node, and none twice, advances exactly if every one of its nodes acked
  -- the very render that it was pushed.
  pub roll_wave-advances_iff :
      (f : Fleet) (target : String) (w : AssignedWave)
      → w.node_ids ≢ []
      → AllDistinct w.node_ids
      → ((roll_wave answer s f target w).1.state ≡ advanced target)
        ↔ All Accepts (pushes_of f w.node_ids)
  unfolding roll_wave
  roll_wave-advances_iff f target w filled d = by_nodes w.node_ids filled d
    where
      by_nodes :
          (ids : List String)
          → ids ≢ []
          → AllDistinct ids
          → (StepOf (elim ids [
            | [] ↦ (f, step w.name 0 empty, false)
            | id ∷ ids ↦ after_wave (run_wave_nodes answer s f (id ∷ ids)) target w
          ])).state
              ≡ advanced target
            ↔ All Accepts (pushes_of f ids)
      by_nodes [] filled d = ground arith
      by_nodes (id ∷ ids) filled d =
          after_wave-advanced (run_wave_nodes answer s f (id ∷ ids)) f (id ∷ ids) target w
            (run_wave-Outcome f (id ∷ ids) filled d)
