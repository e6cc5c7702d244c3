-- ===== src/Rollout/Deferred.antt =====
-- crates/gatewayctl/src/rollout.rs and fleet.rs: the nodes that are pending after a rollout.
use smallgateway.Prelude.{
  ℕ, ◌≤◌, ◌≡◌, refl, ap, ◌∙◌, String, true, ◌&&◌, not, some, List, arith, length, str_mem, eq_refl,
}
use smallgateway.Waves.{Labels}
use smallgateway.Store.{RuntimeStore}
use smallgateway.Fleet.{Fleet, Rendered, DesiredInputs, AckResult, node_pending_in_unapplied_wave}
use smallgateway.Fleet.Pending.{is_on, wave_of, pending-eq}
use smallgateway.Rollout.{WaveStep, advanced_names, roll_out_plan}
use smallgateway.Rollout.Commits.{Records, roll_out_plan-Records}

pending-Records :
    (f g : Fleet) (d : DesiredInputs) (labels : Labels) (moved : String) (steps : List WaveStep)
    → Records f.applied.source_commit steps f g
    → f.desired ≡ some d
    → 2 ≤ length d.plan.waves
    → str_mem moved (advanced_names steps) ≡ true
    → node_pending_in_unapplied_wave g labels ≡ (
        not (str_mem (wave_of d.plan labels) (advanced_names steps))
        && not (is_on f (wave_of d.plan labels) f.applied.source_commit))
pending-Records f g d labels moved steps rec h many on =
    let target : g.applied.source_commit ≡ f.applied.source_commit =
      ap (λ a. a.source_commit) rec.0 in
    pending-eq g d labels moved (rec.1 ∙ h) many (rw (target) (rec.2 moved ∙ rw on refl))
    ∙ ground (arith, target, rec.2 (wave_of d.plan labels), eq_refl f.applied.source_commit)

module _ (answer : String → ℕ → Rendered → AckResult) (s : RuntimeStore) where
  -- After a rollout in which at least one wave advanced, under a plan of several waves, the nodes
  -- that the reconciler must not heal are exactly those of the waves that did not advance in it and
  -- were not on the target commit before.
  pub roll_out_plan-pending :
      (sessions : List String) (f : Fleet) (d : DesiredInputs) (labels : Labels) (moved : String)
      → let r = roll_out_plan answer s sessions f in
        let names = advanced_names r.1.steps in
        f.desired ≡ some d
        → 2 ≤ length d.plan.waves
        → str_mem moved names ≡ true
        → node_pending_in_unapplied_wave r.0 labels ≡ (
            not (str_mem (wave_of d.plan labels) names)
            && not (is_on f (wave_of d.plan labels) f.applied.source_commit))
  roll_out_plan-pending sessions f d labels moved h many on =
      let r = roll_out_plan answer s sessions f in
      pending-Records f r.0 d labels moved r.1.steps (roll_out_plan-Records answer s sessions f) h
        many on
