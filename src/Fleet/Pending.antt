-- ===== src/Fleet/Pending.antt =====
-- crates/gatewayctl/src/fleet.rs, `node_pending_in_unapplied_wave` and the commits of the waves.
use smallgateway.Prelude.{
  ◌≤◌, ◌≡◌, String, Bool, true, false, ◌&&◌, not, none, some, [], ◌∷◌, arith, leb, str_eq, length,
  eq_iff, eq_refl,
}
use smallgateway.Prelude.Order.{text_ord}
use smallgateway.Prelude.BTree.{BTreeMap, get, insert, get-insert, values}
use smallgateway.Waves.{Labels, WavePlan, wave_index_for}
use smallgateway.Fleet.{
  Fleet, DesiredInputs, any_eq, wave_name_at, set_wave_commit, node_pending_in_unapplied_wave,
}

any_eq-insert :
    (name target : String) (m : BTreeMap String String)
    → any_eq target (values (insert name target m)) ≡ true
unfolding insert
any_eq-insert name target [] = ground (arith, eq_refl target)
any_eq-insert name target ((k, c) ∷ m) = ground (arith, eq_refl target, any_eq-insert name target m)

-- whether the commit that is recorded for a wave is this one
abbrev pub is_on : Fleet → String → String → Bool
is_on f wave_name commit = elim (get wave_name f.wave_commit) [
  | none ↦ false
  | some c ↦ str_eq c commit
]

-- the wave that the labels belong to under a plan
abbrev pub wave_of : WavePlan → Labels → String
wave_of p labels = wave_name_at p (wave_index_for p labels)

-- Once a wave was recorded on the applied commit, a node is pending exactly if the plan has more
-- than one wave, the node's wave is another one, and that wave is not on the applied commit.
pub pending-set_wave_commit :
    (f : Fleet) (d : DesiredInputs) (labels : Labels) (name : String)
    → f.desired ≡ some d
    → node_pending_in_unapplied_wave (set_wave_commit f name f.applied.source_commit) labels ≡ (
        leb 2 (length d.plan.waves)
        && not (str_eq (wave_of d.plan labels) name)
        && not (is_on f (wave_of d.plan labels) f.applied.source_commit))
unfolding node_pending_in_unapplied_wave set_wave_commit
pending-set_wave_commit f d labels name h =
    rw (h, any_eq-insert name f.applied.source_commit f.wave_commit)
      (ground (
        arith,
        get-insert name (wave_of d.plan labels) f.applied.source_commit f.wave_commit,
        text_ord.eq_of_cmp (wave_of d.plan labels) name,
        text_ord.cmp_refl name,
        eq_iff (wave_of d.plan labels) name,
        eq_refl f.applied.source_commit,
      ))

any_eq-get :
    (name target : String) (m : BTreeMap String String)
    → get name m ≡ some target
    → any_eq target (values m) ≡ true
unfolding get
any_eq-get name target [] h = ground arith
any_eq-get name target ((k, c) ∷ m) h = ground (arith, eq_iff c target, any_eq-get name target m)

-- under a plan of several waves, once some wave is on the applied commit
pub pending-eq :
    (f : Fleet) (d : DesiredInputs) (labels : Labels) (moved : String)
    → f.desired ≡ some d
    → 2 ≤ length d.plan.waves
    → get moved f.wave_commit ≡ some f.applied.source_commit
    → node_pending_in_unapplied_wave f labels
      ≡ not (is_on f (wave_of d.plan labels) f.applied.source_commit)
unfolding node_pending_in_unapplied_wave
pending-eq f d labels moved h many on =
    rw (h, any_eq-get moved f.applied.source_commit f.wave_commit on) (ground arith)
