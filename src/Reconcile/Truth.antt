-- ===== src/Reconcile/Truth.antt =====
-- crates/gatewayctl/src/reconcile.rs, `classify`: the rows of the drift truth table.
use smallgateway.Prelude.{
  ℕ, ◌<◌, ◌≡◌, ◌≢◌, ◌↔◌, ◌⊎◌, String, true, false, Option, none, some, arith, if◌then◌else◌, str_eq,
  eq_iff, eq_refl,
}
use smallgateway.Store.{NodeState, break_glass_active}
use smallgateway.Fleet.{Fleet, delivered_hash}
use smallgateway.Reconcile.{
  delivery_stale, observed_unknown, heals_by_repush, by_observed, classify, fold_delivered,
  persistent_nack_threshold,
}

-- the node reports that it runs another render
abbrev pub RunsOther : Option String → String → Type 0
RunsOther none desired = ⊥
RunsOther (some o) desired = o ≢ desired

-- the node is not known to have the desired render, or it runs another
abbrev pub HasDrifted : NodeState → String → Type 0
HasDrifted n desired = (n.last_acked_hash ≢ some desired) ⊎ RunsOther n.observed_hash desired

by_observed-heals :
    (o : Option String) (desired : String)
    → (heals_by_repush (by_observed o desired) ≡ true) ↔ RunsOther o desired
unfolding heals_by_repush by_observed
by_observed-heals none desired = ground arith
by_observed-heals (some o) desired = ground (arith, eq_iff o desired)

by_acked :
    (acked observed : Option String) (desired : String)
    → (heals_by_repush (elim acked [
      | none ↦ delivery_stale
      | some d ↦ if str_eq d desired then by_observed observed desired else delivery_stale
    ])
        ≡ true)
      ↔ ((acked ≢ some desired) ⊎ RunsOther observed desired)
unfolding heals_by_repush
by_acked none observed desired = ground arith
by_acked (some d) observed desired =
    ground (arith, eq_iff d desired, by_observed-heals observed desired)

pub classify-heals_iff :
    (n : NodeState) (desired : String) (now : ℕ)
    → (heals_by_repush (classify n desired now) ≡ true) ↔ (
        (break_glass_active n now ≡ false)
        × (n.consecutive_nacks < persistent_nack_threshold)
        × HasDrifted n desired)
unfolding heals_by_repush classify
classify-heals_iff n desired now =
    ground (arith, by_acked n.last_acked_hash n.observed_hash desired)

-- Of a push of the desired render that a node never answered: while the node has reported nothing,
-- the reconciler waits and pushes nothing, though by the node's own record it is stale.
pub lost_push_waits :
    (f : Fleet) (n : NodeState) (desired : String) (now : ℕ)
    → n.last_acked_hash ≡ none
    → n.observed_hash ≡ none
    → delivered_hash f n.node_id ≡ some desired
    → n.consecutive_nacks < persistent_nack_threshold
    → break_glass_active n now ≡ false
    → (classify (fold_delivered f n.node_id n) desired now ≡ observed_unknown)
      × (classify n desired now ≡ delivery_stale)
unfolding classify fold_delivered by_observed break_glass_active
lost_push_waits f n desired now unacked unseen pushed few shut =
    rw (unacked, pushed, unseen) (ground (arith, eq_refl desired))
