-- ===== src/Reconcile/Tick.antt =====
-- crates/gatewayctl/src/reconcile.rs, `tick`: the push records and the report.
use smallgateway.Prelude.{
  ℕ, ◌+◌, ◌≤◌, ◌≡◌, inl, inr, refl, ◌∙◌, String, true, false, none, some, List, [], ◌∷◌, arith,
  length, Option-cases, Bool-cases,
}
use smallgateway.Prelude.Order.{text_ord}
use smallgateway.Prelude.BTree.{get}
use smallgateway.Waves.{Labels}
use smallgateway.Store.{NodeState, RuntimeStore, connected_ids}
use smallgateway.Fleet.{Fleet, Rendered, AckResult, canonical_labels, desired_for, wave_in_flight}
use smallgateway.Reconcile.{
  DriftCase, in_sync, delivery_stale, node_drifted, observed_unknown, break_glass_tolerated,
  persistently_divergent, TickReport, heals_by_repush, classify, fold_delivered, heal, act, settle,
  visit, tick_over, tick, empty_report,
}

-- two states that differ at most in the memo of renders
abbrev pub SameButCache : Fleet → Fleet → Type 0
SameButCache f g =
    (f.applied ≡ g.applied)
    × (f.committed_version ≡ g.committed_version)
    × (f.per_node ≡ g.per_node)
    × (f.desired ≡ g.desired)
    × (f.wave_commit ≡ g.wave_commit)
    × (f.waves_in_flight ≡ g.waves_in_flight)

pub desired_for-same : (f : Fleet) (labels : Labels) → SameButCache (desired_for f labels).0 f
unfolding desired_for
desired_for-same f labels = elim (Option-cases (get (canonical_labels labels) f.render_cache)) [
  | inl missing ↦ rw (missing, desired_for) (refl, refl, refl, refl, refl, refl)
  | inr (r, hit) ↦ rw (hit, desired_for) (refl, refl, refl, refl, refl, refl)
]

wave_in_flight-same : (f g : Fleet) → SameButCache f g → wave_in_flight f ≡ wave_in_flight g
unfolding wave_in_flight
wave_in_flight-same f g h = rw (h.5) refl

SameButCache-trans : (f g h : Fleet) → SameButCache f g → SameButCache g h → SameButCache f h
SameButCache-trans f g h p q = (p.0 ∙ q.0, p.1 ∙ q.1, p.2 ∙ q.2, p.3 ∙ q.3, p.4 ∙ q.4, p.5 ∙ q.5)

-- what the report says of every node that was looked at, a failed heal apart
abbrev pub handled : TickReport → ℕ
handled r =
    r.in_sync + r.healed + r.break_glass_tolerated + r.persistently_divergent + r.observed_unknown
    + r.mid_rollout_deferred + r.pending_later_wave

module _ (answer : String → ℕ → Rendered → AckResult) (s : RuntimeStore) (now : ℕ) where
  act-quiet :
      (f : Fleet) (id : String) (c : DriftCase) (r : TickReport)
      → heals_by_repush c ≡ false
      → ((act answer s f id c r).0 ≡ f) × ((act answer s f id c r).1.healed ≡ r.healed)
  unfolding act heals_by_repush
  act-quiet f id in_sync r h = (refl, refl)
  act-quiet f id delivery_stale r h = ground arith
  act-quiet f id node_drifted r h = ground arith
  act-quiet f id observed_unknown r h = (refl, refl)
  act-quiet f id (break_glass_tolerated until) r h = (refl, refl)
  act-quiet f id (persistently_divergent n) r h = (refl, refl)

  act-handled :
      (f : Fleet) (id : String) (c : DriftCase) (r : TickReport)
      → (handled (act answer s f id c r).1 ≤ handled r + 1)
        × (r.delivery_stale ≤ r.healed
            → (act answer s f id c r).1.delivery_stale ≤ (act answer s f id c r).1.healed)
  unfolding act heal
  act-handled f id in_sync r = omega arith
  act-handled f id delivery_stale r = ground arith
  act-handled f id node_drifted r = ground arith
  act-handled f id observed_unknown r = omega arith
  act-handled f id (break_glass_tolerated until) r = omega arith
  act-handled f id (persistently_divergent n) r = omega arith

  abbrev case_of : Fleet → String → NodeState → DriftCase
  case_of f id node =
      let desired = desired_for f node.labels in
      classify (fold_delivered desired.0 id node) desired.1.render_hash now

  settle-during_wave :
      (f : Fleet) (id : String) (node : NodeState) (r : TickReport)
      → wave_in_flight f ≡ true
      → SameButCache (settle answer s now f id node r).0 f
        × ((settle answer s now f id node r).1.healed ≡ r.healed)
  unfolding settle
  settle-during_wave f id node r h =
      let same = desired_for-same f node.labels in
      let flight = wave_in_flight-same (desired_for f node.labels).0 f same ∙ h in
      elim (Bool-cases (heals_by_repush (case_of f id node))) [
        | inl heals ↦ rw (heals, flight) (same, refl)
        | inr quiet ↦
            let effect = act-quiet (desired_for f node.labels).0 id (case_of f id node) r quiet in
            rw (quiet, effect.0) (same, effect.1)
      ]

  settle-handled :
      (f : Fleet) (id : String) (node : NodeState) (r : TickReport)
      → (handled (settle answer s now f id node r).1 ≤ handled r + 1)
        × (r.delivery_stale ≤ r.healed
            → (settle answer s now f id node r).1.delivery_stale
              ≤ (settle answer s now f id node r).1.healed)
  unfolding settle
  settle-handled f id node r =
      ground (arith, act-handled (desired_for f node.labels).0 id (case_of f id node) r)

  visit-gone :
      (f : Fleet) (id : String) (r : TickReport)
      → get id s ≡ none
      → visit answer s now f id r ≡ (f, r)
  unfolding visit
  visit-gone f id r h = rw (h, visit)

  visit-found :
      (f : Fleet) (id : String) (node : NodeState) (r : TickReport)
      → get id s ≡ some node
      → visit answer s now f id r ≡ settle answer s now f id node r
  unfolding visit
  visit-found f id node r h = rw (h, visit)

  visit-during_wave :
      (f : Fleet) (id : String) (r : TickReport)
      → wave_in_flight f ≡ true
      → SameButCache (visit answer s now f id r).0 f
        × ((visit answer s now f id r).1.healed ≡ r.healed)
  visit-during_wave f id r h = elim (Option-cases (get id s)) [
    | inl gone ↦ rw (visit-gone f id r gone) ((refl, refl, refl, refl, refl, refl), refl)
    | inr (node, found) ↦ rw (visit-found f id node r found) (settle-during_wave f id node r h)
  ]

  visit-handled :
      (f : Fleet) (id : String) (r : TickReport)
      → (handled (visit answer s now f id r).1 ≤ handled r + 1)
        × (r.delivery_stale ≤ r.healed
            → (visit answer s now f id r).1.delivery_stale ≤ (visit answer s now f id r).1.healed)
  visit-handled f id r = elim (Option-cases (get id s)) [
    | inl gone ↦ rw (visit-gone f id r gone) (omega arith, λ h. h)
    | inr (node, found) ↦ rw (visit-found f id node r found) (settle-handled f id node r)
  ]

  over-during_wave :
      (f : Fleet) (ids : List String) (r : TickReport)
      → wave_in_flight f ≡ true
      → SameButCache (tick_over answer s now f ids r).0 f
        × ((tick_over answer s now f ids r).1.healed ≡ r.healed)
  unfolding tick_over
  over-during_wave f [] r h = ((refl, refl, refl, refl, refl, refl), refl)
  over-during_wave f (id ∷ ids) r h =
      let next = visit answer s now f id r in
      let first = visit-during_wave f id r h in
      let rest = over-during_wave next.0 ids next.1 (wave_in_flight-same next.0 f first.0 ∙ h) in
      (
        SameButCache-trans (tick_over answer s now next.0 ids next.1).0 next.0 f rest.0 first.0,
        rest.1 ∙ first.1,
      )

  over-handled :
      (f : Fleet) (ids : List String) (r : TickReport)
      → r.delivery_stale ≤ r.healed
      → (handled (tick_over answer s now f ids r).1 ≤ handled r + length ids)
        × ((tick_over answer s now f ids r).1.delivery_stale
            ≤ (tick_over answer s now f ids r).1.healed)
  unfolding tick_over
  over-handled f [] r h = (omega arith, h)
  over-handled f (id ∷ ids) r h =
      let next = visit answer s now f id r in
      let first = visit-handled f id r in
      omega (arith, over-handled next.0 ids next.1 (first.1 h), first.0)

  -- While a wave is in flight a tick pushes to no node: the fleet is as before up to its memo of
  -- renders, and no node is counted as healed.
  pub tick-during_wave :
      (f : Fleet)
      → wave_in_flight f ≡ true
      → SameButCache (tick answer s now f).0 f × ((tick answer s now f).1.healed ≡ 0)
  unfolding tick
  tick-during_wave f h = over-during_wave f (connected_ids s) empty_report h

  -- A tick counts every connected node at most once, and of the healed nodes those that were stale
  -- are a part.
  pub tick-handled :
      (f : Fleet)
      → (handled (tick answer s now f).1 ≤ length (connected_ids s))
        × ((tick answer s now f).1.delivery_stale ≤ (tick answer s now f).1.healed)
  unfolding tick
  tick-handled f = omega (arith, over-handled f (connected_ids s) empty_report (omega arith))
