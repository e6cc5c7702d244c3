-- ===== src/Client/Replies.antt =====
-- crates/gatewayd/src/client.rs, `bind_push` and the loop of `connect_once`: what a data plane answers to
-- the pushes of a stream.
use smallgateway.Prelude.{
  ℕ, ◌≡◌, inl, inr, refl, ap, sym, ◌∙◌, String, Option, some, List, [], ◌∷◌, Option-cases,
}
use smallgateway.Reload.{
  Snapshot, ReloadOutcome, swapped, no_op, rejected, Reloader, reload_from_text,
}
use smallgateway.Reload.Cases.{Leaves, reload-Leaves}
use smallgateway.Client.{
  Push, ServerMessage, push, share_grant, ack_of_status, no_kind, ClientMessage, hello, ack, nack,
  Client, push_source, reply, bind_push, after_bind, handle, run_stream, apply_share_grant,
}

abbrev pub pushes : List ServerMessage → List Push
pushes [] = []
pushes (push p ∷ messages) = p ∷ pushes messages
pushes (_ ∷ messages) = pushes messages

-- the version and the hash of the last ack, from those before on
abbrev pub last_ack : ℕ × String → List ClientMessage → ℕ × String
last_ack before [] = before
last_ack before (ack version hash ∷ sent) = last_ack (version, hash) sent
last_ack before (_ ∷ sent) = last_ack before sent

module _ {C : Type 0} (from_yaml : String → Option C) (content_hash : String → String)
    (from_utf8 : List ℕ → Option String) where
  -- An ack has the version of the push and the hash of the pushed bytes' text, which is a configuration.
  -- A nack has the version and the hash that the push advertised.
  abbrev pub IsReply : Push → ClientMessage → Type 0
  IsReply p (hello node_id version) = ⊥
  IsReply p (ack version hash) =
      (version ≡ p.fleet_version)
      × ((text : String) × (from_utf8 p.config ≡ some text) × (hash ≡ content_hash text))
  IsReply p (nack version hash) = (version ≡ p.fleet_version) × (hash ≡ p.render_hash)

  abbrev pub AreReplies : List Push → List ClientMessage → Type 0
  AreReplies [] [] = Unit
  AreReplies (p ∷ ps) (m ∷ ms) = IsReply p m × AreReplies ps ms
  AreReplies [] (m ∷ ms) = ⊥
  AreReplies (p ∷ ps) [] = ⊥

  -- what the data plane stands at: the last version, and the hash of what it serves
  abbrev pub stand : Client C → ℕ × String
  stand c = (c.last_fleet_version, c.reloader.shared.content_hash)

  -- what one push leaves: a reply to it, and the state that the reply tells
  abbrev Tells : Client C → Push → Client C × List ClientMessage → Type 0
  Tells c p o =
      (m : ClientMessage) × (o.1 ≡ m ∷ []) × IsReply p m × (stand o.0 ≡ last_ack (stand c) (m ∷ []))

  reply-Tells :
      (c : Client C) (p : Push) (text : String) (o : Reloader C × ReloadOutcome)
      → from_utf8 p.config ≡ some text
      → Leaves from_yaml content_hash c.reloader text o
      → Tells c p (
          after_bind from_yaml content_hash from_utf8 c p.fleet_version
            (reply from_yaml content_hash from_utf8 p o))
  reply-Tells c p text (r, swapped old new) read left =
      (ack p.fleet_version r.shared.content_hash, refl, (refl, (text, read, left.1)), refl)
  reply-Tells c p text (r, no_op version) read left =
      (ack p.fleet_version r.shared.content_hash, refl, (refl, (text, read, left.1)), refl)
  reply-Tells c p text (r, rejected version) read left = (
    nack p.fleet_version p.render_hash,
    refl,
    (refl, refl),
    ap (λ (s : Snapshot C). (c.last_fleet_version, s.content_hash)) left,
  )

  handle-Tells :
      (c : Client C) (p : Push) → Tells c p (handle from_yaml content_hash from_utf8 c (push p))
  unfolding handle bind_push
  handle-Tells c p = elim (Option-cases (from_utf8 p.config)) [
    | inl bytes ↦
        rw (bytes, bind_push) (nack p.fleet_version p.render_hash, refl, (refl, refl), refl)
    | inr (text, read) ↦
        rw (read, bind_push)
          (reply-Tells c p text
            (reload_from_text from_yaml content_hash c.reloader text push_source) read
            (reload-Leaves from_yaml content_hash c.reloader text push_source))
  ]

  last_ack-append :
      (before : ℕ × String) (m : ClientMessage) (sent : List ClientMessage)
      → last_ack before (m ∷ sent) ≡ last_ack (last_ack before (m ∷ [])) sent
  last_ack-append before (hello node_id version) sent = refl
  last_ack-append before (ack version hash) sent = refl
  last_ack-append before (nack version hash) sent = refl

  -- Over a stream each push gets one reply, in the order of the pushes. An ack has the version of its
  -- push and the hash of the bytes that were pushed, whatever hash the control plane advertised; a nack
  -- has what was advertised. When the stream ends, the last acked version and hash are those that the
  -- data plane stands at and serves, and without an ack these are what they were.
  pub run_stream-AreReplies :
      (c : Client C) (messages : List ServerMessage)
      → let o = run_stream from_yaml content_hash from_utf8 c messages in
        AreReplies (pushes messages) o.1 × (stand o.0 ≡ last_ack (stand c) o.1)
  unfolding run_stream handle
  run_stream-AreReplies c [] = (tt, refl)
  run_stream-AreReplies c (push p ∷ messages) =
      let one = handle-Tells c p in
      let next = (handle from_yaml content_hash from_utf8 c (push p)).0 in
      let rest = run_stream-AreReplies next messages in
      let sent = (run_stream from_yaml content_hash from_utf8 next messages).1 in
      rw (one.1) (
        (one.2, rest.0),
        rest.1
            ∙ ap (λ before. last_ack before sent) one.3
            ∙ sym (last_ack-append (stand c) one.0 sent),
      )
  run_stream-AreReplies c (share_grant grants ∷ messages) =
      run_stream-AreReplies (record c { budgets = apply_share_grant c.budgets grants }) messages
  run_stream-AreReplies c (ack_of_status ∷ messages) = run_stream-AreReplies c messages
  run_stream-AreReplies c (no_kind ∷ messages) = run_stream-AreReplies c messages
