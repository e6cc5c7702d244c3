-- ===== src/Client/Tampered.antt =====
-- crates/gatewayd/src/client.rs and crates/gatewayctl/src/rollout.rs, `roll_out_tampered`: data planes that
-- are pushed bytes under a hash that is not theirs.
use smallgateway.Prelude.{
  ℕ, ◌≡◌, ◌≢◌, refl, ap, sym, ◌∙◌, String, Bool, Option, none, some, List, [], false,
}
use smallgateway.Fleet.{Fleet, acked}
use smallgateway.Rollout.Single.{roll_out_tampered}
use smallgateway.Rollout.Single.Tampered.{IsHonest, HaltsAll, roll_out_tampered-HaltsAll}
use smallgateway.Reload.{Reloader, ReloadOutcome, swapped, no_op, rejected, reload_from_text}
use smallgateway.Reload.Cases.{Leaves, reload-Leaves}
use smallgateway.Client.{Push, Client, ClientMessage, nack, push_source, reply, bind_push}
use smallgateway.Client.Waves.{push_of, result_of, answer}

module _ {C : Type 0} (from_yaml : String → Option C) (content_hash : String → String)
    (from_utf8 : List ℕ → Option String) where
  -- the hash of the text that the bytes are
  abbrev pub local_hash : List ℕ → String
  local_hash bytes = elim (from_utf8 bytes) [ none ↦ "" | some text ↦ content_hash text ]

  reply-hash :
      (before : Reloader C) (text : String) (p : Push) (hash : String)
      (o : Reloader C × ReloadOutcome)
      → Leaves from_yaml content_hash before text o
      → result_of (reply from_yaml content_hash from_utf8 p o).1 ≡ acked hash
      → hash ≡ content_hash text
  reply-hash before text p hash (r, swapped old new) leaves acks = cc
  reply-hash before text p hash (r, no_op version) leaves acks = cc
  reply-hash before text p hash (r, rejected version) leaves acks = absurd (cc)

  abbrev bind_read : Reloader C → Push → Option String → Reloader C × ClientMessage × Bool
  bind_read before p none = (before, nack p.fleet_version p.render_hash, false)
  bind_read before p (some text) =
      reply from_yaml content_hash from_utf8 p
        (reload_from_text from_yaml content_hash before text push_source)

  -- the hash that a client acks, by what the bytes are
  bound-hash :
      (before : Reloader C) (p : Push) (hash : String) (read : Option String)
      → from_utf8 p.config ≡ read
      → result_of (bind_push from_yaml content_hash from_utf8 before p).1 ≡ acked hash
      → hash ≡ elim read [ none ↦ "" | some text ↦ content_hash text ]
  unfolding bind_push
  bound-hash before p hash none e acks = absurd (cc)
  bound-hash before p hash (some text) e acks =
      reply-hash before text p hash
        (reload_from_text from_yaml content_hash before text push_source)
        (reload-Leaves from_yaml content_hash before text push_source)
        (ap (λ x. result_of (bind_read before p x).1) (sym e) ∙ acks)

  answer-IsHonest :
      (clients : String → Client C)
      → IsHonest (answer from_yaml content_hash from_utf8 clients) local_hash
  answer-IsHonest clients id version r h acks =
      bound-hash (clients id).reloader (push_of version r) h (from_utf8 r.config_bytes) refl acks

  -- Whatever the connected data planes were serving, a wave that pushes them bytes under a hash that is not
  -- that of the bytes' text (the empty one, where they are no text) halts: its divergences name every one of them in turn, and the fleet's version
  -- stays. At least one must be connected.
  pub roll_out_tampered-clients :
      (clients : String → Client C) (sessions : List String) (f : Fleet)
      → (advertised_hash : String) (bytes : List ℕ) → advertised_hash ≢ local_hash bytes
      → sessions ≢ []
      → HaltsAll
          (answer from_yaml content_hash from_utf8 clients)
          local_hash
          f
          advertised_hash
          sessions
          (roll_out_tampered
            (answer from_yaml content_hash from_utf8 clients)
            sessions
            f
            advertised_hash
            bytes)
  roll_out_tampered-clients clients sessions f advertised_hash bytes wrong filled =
      roll_out_tampered-HaltsAll (answer from_yaml content_hash from_utf8 clients) local_hash
        sessions f advertised_hash bytes (answer-IsHonest clients) wrong filled
