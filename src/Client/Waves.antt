-- ===== src/Client/Waves.antt =====
-- crates/gatewayd/src/client.rs and crates/gatewayctl/src/rollout.rs: a wave whose nodes are data planes.
use smallgateway.Prelude.{
  ℕ, ◌≡◌, ◌≢◌, ◌↔◌, inl, inr, refl, ap, String, Bool, true, Option, List, [], ◌∷◌, All,
  Option-cases,
}
use smallgateway.Waves.{AssignedWave}
use smallgateway.Waves.Parse.{AllDistinct}
use smallgateway.Store.{RuntimeStore}
use smallgateway.Fleet.{Fleet, Rendered, AckResult, acked, no_answer}
use smallgateway.Fleet as Fleet
use smallgateway.Rollout.{roll_wave, advanced}
use smallgateway.Rollout.Acks.{Push as Pushing, Accepts, pushes_of, roll_wave-advances_iff}
use smallgateway.Reload.{Reloader, ReloadOutcome, swapped, no_op, rejected, reload_from_text}
use smallgateway.Client.{
  Push, ClientMessage, hello, ack, nack, Client, push_source, reply, bind_push,
}

-- `to_snapshot`, the fields that a client reads
abbrev pub push_of : ℕ → Rendered → Push
push_of version r = record {
  fleet_version = version;
  render_hash = r.render_hash;
  config = r.config_bytes;
}

-- what the control plane makes of a reply, where the reason of a nack is left out
abbrev pub result_of : ClientMessage → AckResult
result_of (hello node_id version) = no_answer
result_of (ack version hash) = acked hash
result_of (nack version hash) = Fleet.nack ""

All-iff {ℓ} :
    {A : Type ℓ} (P Q : A → Type 0) (xs : List A) → ((a : A) → P a ↔ Q a) → All P xs ↔ All Q xs
All-iff P Q [] h = (λ u. u, λ u. u)
All-iff P Q (x ∷ xs) h =
    let rest = All-iff P Q xs h in
    (λ both. ((h x).0 both.0, rest.0 both.1), λ both. ((h x).1 both.0, rest.1 both.1))

module _ {C : Type 0} (from_yaml : String → Option C) (content_hash : String → String)
    (from_utf8 : List ℕ → Option String) (clients : String → Client C) where
  -- what becomes of a push at the client of the node
  abbrev pub bound : String → ℕ → Rendered → Reloader C × ClientMessage × Bool
  bound id version r =
      bind_push from_yaml content_hash from_utf8 (clients id).reloader (push_of version r)

  abbrev pub answer : String → ℕ → Rendered → AckResult
  answer id version r = result_of (bound id version r).1

  -- the client took the push, and serves bytes with the hash of the render
  abbrev pub Takes : Pushing → Type 0
  Takes q =
      ((bound q.0 q.1 q.2).2 ≡ true) × ((bound q.0 q.1 q.2).0.shared.content_hash ≡ q.2.render_hash)

  reply-takes :
      (p : Push) (hash : String) (o : Reloader C × ReloadOutcome)
      → let r = reply from_yaml content_hash from_utf8 p o in
        (result_of r.1 ≡ acked hash) ↔ ((r.2 ≡ true) × (r.0.shared.content_hash ≡ hash))
  reply-takes p hash (r, swapped old new) = (λ e. (refl, cc), λ both. ap acked both.1)
  reply-takes p hash (r, no_op version) = (λ e. (refl, cc), λ both. ap acked both.1)
  reply-takes p hash (r, rejected version) = (λ e. absurd (cc), λ both. absurd (cc))

  Accepts-Takes : (s : RuntimeStore) (q : Pushing) → Accepts answer s q ↔ Takes q
  unfolding bind_push
  Accepts-Takes s q = elim (Option-cases (from_utf8 q.2.config_bytes)) [
    | inl bytes ↦ rw (bytes, bind_push) (λ e. absurd (cc), λ both. absurd (cc))
    | inr (text, read) ↦
        rw (read, bind_push)
          (reply-takes (push_of q.1 q.2) q.2.render_hash
            (reload_from_text from_yaml content_hash (clients q.0).reloader text push_source))
  ]

  -- A wave with at least one node, and none twice, whose nodes are data planes, advances exactly if each
  -- of them took its push and now serves bytes that hash to what the control plane advertised.
  pub roll_wave-advances_clients :
      (s : RuntimeStore) (f : Fleet) (target : String) (w : AssignedWave)
      → w.node_ids ≢ []
      → AllDistinct w.node_ids
      → ((roll_wave answer s f target w).1.state ≡ advanced target)
        ↔ All Takes (pushes_of answer s f w.node_ids)
  roll_wave-advances_clients s f target w filled d =
      let by_acks = roll_wave-advances_iff answer s f target w filled d in
      let by_clients =
        All-iff (Accepts answer s) Takes (pushes_of answer s f w.node_ids) (Accepts-Takes s) in
      (λ e. by_clients.0 (by_acks.0 e), λ all. by_acks.1 (by_clients.1 all))
