-- ===== src/CanaryRollout/Tracks.antt =====
-- crates/gatewayctl/src/canary_rollout.rs, `rollback_wave`, and the rounds of
-- crates/gatewayctl/src/rollout.rs: the commits before and after.
use smallgateway.Prelude.{
  ℕ, ◌≡◌, inl, inr, refl, ap, sym, ◌∙◌, String, Bool, false, Option, none, some, List, [], ◌∷◌,
  arith, if◌then◌else◌, str_eq, str_mem, str_mem-append, eq_iff, unwrap_or, Bool-cases,
}
use mathlib.Core.Path.{subst}
use smallgateway.Prelude.Order.{text_ord}
use smallgateway.Prelude.BTree.{BTreeMap, get, get-insert}
use smallgateway.Prelude.BTree.Sorted.{IsSorted, insert-IsSorted, remove-IsSorted, get-remove}
use smallgateway.Waves.{AssignedWave}
use smallgateway.Store.{RuntimeStore}
use smallgateway.Fleet.{
  Fleet, Rendered, WaveOutcome, committed, halted, no_nodes, AckResult, never_committed,
  set_wave_commit, revert_wave_commit, next_version_for,
}
use smallgateway.Fleet.Conclude.{view}
use smallgateway.Rollout.{
  WaveStep, stopped, empty, step, frozen_commit, advanced_names, run_wave_nodes, after_wave,
  roll_wave,
}
use smallgateway.Rollout.Commits.{
  run_wave-view, roll_wave-Records, advanced_names-cons, next_version-view,
}
use smallgateway.CanaryRollout.{push_back, rollback_wave}

-- the commit of a wave, as `frozen_commit` reads it
abbrev pub commit_in : BTreeMap String String → String → String
commit_in m name = unwrap_or (get name m) never_committed

revert-commits :
    (f : Fleet) (w name : String)
    → IsSorted f.wave_commit
    → commit_in (revert_wave_commit f w (frozen_commit f w)).wave_commit name
      ≡ commit_in f.wave_commit name
unfolding revert_wave_commit frozen_commit
revert-commits f w name h = ground (
  arith,
  get-insert w name (frozen_commit f w) f.wave_commit,
  get-remove w name f.wave_commit h,
  text_ord.eq_of_cmp name w,
  eq_iff (frozen_commit f w) never_committed,
)

revert-IsSorted :
    (f : Fleet) (w prior : String)
    → IsSorted f.wave_commit
    → IsSorted (revert_wave_commit f w prior).wave_commit
unfolding revert_wave_commit
revert-IsSorted f w prior h = elim (Bool-cases (str_eq prior never_committed)) [
  | inl never ↦ rw never (remove-IsSorted w f.wave_commit h)
  | inr before ↦ rw before (insert-IsSorted w prior f.wave_commit h)
]

push_back-view :
    (f : Fleet) (prior : Rendered) (ids : List String) → view (push_back f prior ids).0 ≡ view f
unfolding push_back
push_back-view f prior [] = refl
push_back-view f prior (id ∷ ids) =
    push_back-view (next_version_for f id prior.render_hash).0 prior ids
    ∙ next_version-view f id prior.render_hash

pub rollback-commits :
    (f : Fleet) (w : String) (ids : List String) (prior : String) (prior_render : Option Rendered)
    → (rollback_wave f w ids prior prior_render).0.wave_commit
      ≡ (revert_wave_commit f w prior).wave_commit
unfolding rollback_wave
rollback-commits f w ids prior none = refl
rollback-commits f w ids prior (some r) = ap (λ v. v.2) (push_back-view _ r ids)

-- the steps tell the commits: the target for the waves that advanced, what it was for the others
abbrev pub Tracks :
    String → List WaveStep → BTreeMap String String → BTreeMap String String → Type 0
Tracks target steps f g =
    IsSorted g
    × ((name : String)
        → commit_in g name
          ≡ (if str_mem name (advanced_names steps) then target else commit_in f name))

pub Tracks-frozen :
    (target : String) (steps : List WaveStep) (f : BTreeMap String String)
    → IsSorted f
    → advanced_names steps ≡ []
    → Tracks target steps f f
Tracks-frozen target steps f h e = (h, λ name. rw e refl)

pub Tracks-trans :
    (target : String) (s : WaveStep) (steps : List WaveStep) (f g h : BTreeMap String String)
    → Tracks target (s ∷ []) f g
    → Tracks target steps g h
    → Tracks target (s ∷ steps) f h
Tracks-trans target s steps f g h p q = (
  q.0,
  λ name. ground (
    arith,
    p.1 name,
    q.1 name,
    advanced_names-cons s steps,
    str_mem-append name (advanced_names (s ∷ [])) (advanced_names steps),
  ),
)

-- a wave that stopped has no part in the commits
pub Tracks-reverted :
    (target : String) (x : WaveStep) (w : String) (f : Fleet) (m : BTreeMap String String)
    → IsSorted f.wave_commit
    → m ≡ (revert_wave_commit f w (frozen_commit f w)).wave_commit
    → advanced_names (x ∷ []) ≡ []
    → Tracks target (x ∷ []) f.wave_commit m
Tracks-reverted target x w f m h e none_advanced = (
  subst IsSorted (sym e) (revert-IsSorted f w (frozen_commit f w) h),
  λ name.
      ap (λ m. commit_in m name) e
      ∙ revert-commits f w name h
      ∙ ap (λ names. if str_mem name names then target else commit_in f.wave_commit name)
          (sym none_advanced),
)

after_wave-IsSorted :
    (o : Fleet × WaveOutcome) (target : String) (w : AssignedWave)
    → IsSorted o.0.wave_commit
    → IsSorted (after_wave o target w).0.wave_commit
unfolding after_wave set_wave_commit
after_wave-IsSorted (f, committed h n) target w s = insert-IsSorted w.name target f.wave_commit s
after_wave-IsSorted (f, halted h ds) target w s = s
after_wave-IsSorted (f, no_nodes h) target w s = s

module _ (answer : String → ℕ → Rendered → AckResult) (s : RuntimeStore) where
  pub judged-IsSorted :
      (f : Fleet) (ids : List String)
      → IsSorted f.wave_commit
      → IsSorted (run_wave_nodes answer s f ids).0.wave_commit
  judged-IsSorted f ids h = subst (λ v. IsSorted v.2) (sym (run_wave-view answer s f ids)) h

  roll_wave-IsSorted :
      (f : Fleet) (target : String) (w : AssignedWave)
      → IsSorted f.wave_commit
      → IsSorted (roll_wave answer s f target w).0.wave_commit
  unfolding roll_wave
  roll_wave-IsSorted f target w h = by_nodes w.node_ids
    where
      IsKept : Fleet × WaveStep × Bool → Type 0
      IsKept r = IsSorted r.0.wave_commit

      by_nodes :
          (ids : List String)
          → IsKept (elim ids [
            | [] ↦ (f, step w.name 0 empty, false)
            | id ∷ ids ↦ after_wave (run_wave_nodes answer s f (id ∷ ids)) target w
          ])
      by_nodes [] = h
      by_nodes (id ∷ ids) =
          after_wave-IsSorted (run_wave_nodes answer s f (id ∷ ids)) target w
            (judged-IsSorted f (id ∷ ids) h)

  pub roll_wave-Tracks :
      (f : Fleet) (target : String) (w : AssignedWave)
      → IsSorted f.wave_commit
      → Tracks target
          ((roll_wave answer s f target w).1 ∷ [])
          f.wave_commit
          (roll_wave answer s f target w).0.wave_commit
  roll_wave-Tracks f target w h = (
    roll_wave-IsSorted f target w h,
    λ name. ground (arith, (roll_wave-Records answer s f target w).2 name),
  )

pub stopped-none :
    (x : WaveStep) (commit : String) → x.state ≡ stopped commit [] → advanced_names (x ∷ []) ≡ []
unfolding advanced_names
stopped-none x commit e = rw e refl
