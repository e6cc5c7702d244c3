-- ===== src/Client/Outage.antt =====
-- crates/gatewayd/src/client.rs, `supervise`: the reconnect loop while dials fail and succeed.
use smallgateway.Prelude.{
  ℕ, zero, suc, ◌*◌, ◌^◌, ◌≡◌, refl, ap, sym, ◌∙◌, String, true, Option, List, [], ◌∷◌, All, min,
  arith,
}
use smallgateway.Float.Round.{pow_step}
use smallgateway.Node.{set_partitioned}
use smallgateway.Client.{
  Client, Attempt, no_connection, join_refused, stream, connect_again, redial, redial_all,
  reconnect_backoff_min, reconnect_backoff_max,
}

-- the dial gave no stream
abbrev pub Fails : Attempt → Type 0
Fails no_connection = Unit
Fails join_refused = Unit
Fails (stream messages) = ⊥

-- the dials that failed since the last stream, from those before on
abbrev pub failures : ℕ → List Attempt → ℕ
failures n [] = n
failures n (stream messages ∷ attempts) = failures 0 attempts
failures n (_ ∷ attempts) = failures (suc n) attempts

-- the wait after that many failures
abbrev pub wait_after : ℕ → ℕ
wait_after zero = reconnect_backoff_min
wait_after (suc n) = min (wait_after n * 2) reconnect_backoff_max

doubled : (p q : ℕ) → q ≡ 2 * p → min (min (500 * p) 30000 * 2) 30000 ≡ min (500 * q) 30000
doubled p q h = omega arith

module _ {C : Type 0} (from_yaml : String → Option C) (content_hash : String → String)
    (from_utf8 : List ℕ → Option String) (node_id : String) where
  abbrev after : Client C × ℕ → List Attempt → Client C × ℕ
  after s attempts = redial_all from_yaml content_hash from_utf8 node_id s attempts

  redial-Fails :
      (c : Client C) (wait : ℕ) (attempt : Attempt)
      → Fails attempt
      → redial from_yaml content_hash from_utf8 node_id (c, wait) attempt ≡ (
        record c { budgets = set_partitioned c.budgets true },
        min (wait * 2) reconnect_backoff_max,
      )
  unfolding redial connect_again
  redial-Fails c wait no_connection h = refl
  redial-Fails c wait join_refused h = refl
  redial-Fails c wait (stream messages) h = elim h [ ]

  pub outage_keeps_serving :
      (c : Client C) (wait : ℕ) (attempt : Attempt) (attempts : List Attempt)
      → All Fails (attempt ∷ attempts)
      → (after (c, wait) (attempt ∷ attempts)).0
        ≡ record c { budgets = set_partitioned c.budgets true }
  unfolding redial_all set_partitioned
  outage_keeps_serving c wait attempt [] h =
      ap (λ (s : Client C × ℕ). s.0) (redial-Fails c wait attempt h.0)
  outage_keeps_serving c wait attempt (second ∷ attempts) h =
      let isolated = record c { budgets = set_partitioned c.budgets true } in
      ap (λ (s : Client C × ℕ). (after s (second ∷ attempts)).0) (redial-Fails c wait attempt h.0)
      ∙ outage_keeps_serving isolated (min (wait * 2) reconnect_backoff_max) second attempts h.1

  redial-wait :
      (c : Client C) (wait n : ℕ) (attempt : Attempt)
      → wait ≡ wait_after n
      → (redial from_yaml content_hash from_utf8 node_id (c, wait) attempt).1
        ≡ wait_after (failures n (attempt ∷ []))
  unfolding redial connect_again
  redial-wait c wait n no_connection h = rw h
  redial-wait c wait n join_refused h = rw h
  redial-wait c wait n (stream messages) h = refl

  failures-one :
      (n : ℕ) (attempt : Attempt) (attempts : List Attempt)
      → failures n (attempt ∷ attempts) ≡ failures (failures n (attempt ∷ [])) attempts
  failures-one n no_connection attempts = refl
  failures-one n join_refused attempts = refl
  failures-one n (stream messages) attempts = refl

  redial_all-wait :
      (s : Client C × ℕ) (n : ℕ) (attempts : List Attempt)
      → s.1 ≡ wait_after n
      → (after s attempts).1 ≡ wait_after (failures n attempts)
  unfolding redial_all
  redial_all-wait s n [] h = h
  redial_all-wait s n (attempt ∷ attempts) h =
      redial_all-wait (redial from_yaml content_hash from_utf8 node_id s attempt)
        (failures n (attempt ∷ [])) attempts (redial-wait s.0 s.1 n attempt h)
      ∙ ap wait_after (sym (failures-one n attempt attempts))

  wait_after-power : (n : ℕ) → wait_after n ≡ min (500 * 2 ^ n) 30000
  wait_after-power zero = refl
  wait_after-power (suc n) =
      ap (λ w. min (w * 2) reconnect_backoff_max) (wait_after-power n)
      ∙ doubled (2 ^ n) (2 ^ suc n) (pow_step n)

  -- The wait before a dial is 500 ms, doubled for each dial that failed since the last stream, and at
  -- most 30 s: a data plane dials again forever, at least every 30 s, and a stream resets the wait.
  pub redial_all-backoff :
      (c : Client C) (attempts : List Attempt)
      → (after (c, reconnect_backoff_min) attempts).1 ≡ min (500 * 2 ^ failures 0 attempts) 30000
  redial_all-backoff c attempts =
      redial_all-wait (c, reconnect_backoff_min) 0 attempts refl
      ∙ wait_after-power (failures 0 attempts)
