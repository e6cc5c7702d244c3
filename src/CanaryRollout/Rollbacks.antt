-- ===== src/CanaryRollout/Rollbacks.antt =====
-- crates/gatewayctl/src/canary_rollout.rs, `rollback_wave`: what a wave is left with.
use smallgateway.Prelude.{
  ℕ, ◌≡◌, refl, ap, ◌∙◌, String, Bool-cases, inl, inr, some, List, [], ◌∷◌, map, arith,
  if◌then◌else◌, str_eq, str_mem, eq_iff,
}
use smallgateway.Prelude.Order.{text_ord}
use smallgateway.Prelude.BTree.{get-insert_self}
use smallgateway.Prelude.BTree.Sorted.{IsSorted, get-remove}
use smallgateway.Fleet.{
  Fleet, Rendered, never_committed, revert_wave_commit, next_version_for, delivered_hash,
}
use smallgateway.Fleet.Versions.{delivered-next}
use smallgateway.Rollout.{frozen_commit}
use smallgateway.CanaryRollout.{push_back, rollback_wave}
use smallgateway.CanaryRollout.Tracks.{commit_in, rollback-commits}

push_back-delivered :
    (f : Fleet) (prior : Rendered) (ids : List String) (id : String)
    → delivered_hash (push_back f prior ids).0 id
      ≡ (if str_mem id ids then some prior.render_hash else delivered_hash f id)
unfolding push_back
push_back-delivered f prior [] id = refl
push_back-delivered f prior (n ∷ ids) id =
    let next = (next_version_for f n prior.render_hash).0 in
    ground (arith, push_back-delivered next prior ids id, delivered-next f n id prior.render_hash)

-- the pushes: whom, and what
abbrev pub told : List (String × ℕ × Rendered) → List (String × Rendered)
told pushes = map (λ p. (p.0, p.2)) pushes

abbrev pub each : Rendered → List String → List (String × Rendered)
each prior ids = map (λ id. (id, prior)) ids

push_back-told :
    (f : Fleet) (prior : Rendered) (ids : List String)
    → told (push_back f prior ids).1 ≡ each prior ids
unfolding push_back
push_back-told f prior [] = refl
push_back-told f prior (id ∷ ids) =
    ap (λ rest. (id, prior) ∷ rest)
      (push_back-told (next_version_for f id prior.render_hash).0 prior ids)

revert-commit :
    (f : Fleet) (w prior : String)
    → IsSorted f.wave_commit
    → commit_in (revert_wave_commit f w prior).wave_commit w ≡ prior
unfolding revert_wave_commit
revert-commit f w prior h = ground (
  arith,
  get-insert_self w prior f.wave_commit,
  get-remove w w f.wave_commit h,
  text_ord.cmp_refl w,
  eq_iff prior never_committed,
)

revert-delivered :
    (f : Fleet) (w prior id : String)
    → delivered_hash (revert_wave_commit f w prior) id ≡ delivered_hash f id
unfolding revert_wave_commit delivered_hash
revert-delivered f w prior id = elim (Bool-cases (str_eq prior never_committed)) [
  | inl never ↦ rw never refl
  | inr before ↦ rw before refl
]

-- A rollback pushes one and the same render to every node of the wave, in their order, so that each is
-- delivered its hash and no other node anything; the wave is recorded on the given commit, which need
-- not be the one that the render was made from.
pub rollback_wave-delivered :
    (f : Fleet) (wave_name : String) (node_ids : List String) (prior_commit : String)
    → (prior : Rendered) (id : String) → IsSorted f.wave_commit
    → let o = rollback_wave f wave_name node_ids prior_commit (some prior) in
      (frozen_commit o.0 wave_name ≡ prior_commit)
      × (told o.1 ≡ each prior node_ids)
      × (delivered_hash o.0 id
          ≡ (if str_mem id node_ids then some prior.render_hash else delivered_hash f id))
unfolding rollback_wave frozen_commit
rollback_wave-delivered f wave_name node_ids prior_commit prior id h =
    let reverted = revert_wave_commit f wave_name prior_commit in
    (
      ap (λ m. commit_in m wave_name)
            (rollback-commits f wave_name node_ids prior_commit (some prior))
          ∙ revert-commit f wave_name prior_commit h,
      push_back-told reverted prior node_ids,
      push_back-delivered reverted prior node_ids id
          ∙ ap (λ d. if str_mem id node_ids then some prior.render_hash else d)
              (revert-delivered f wave_name prior_commit id),
    )
