-- ===== src/Node/Stream.antt =====
-- crates/gatewayd/src/budget.rs, `meter`, as crates/gatewayd/src/proxy_stream.rs calls it chunk by
-- chunk until it answers that the stream is cut.
use smallgateway.Prelude.{
  ℕ, ◌+◌, ◌≤◌, ◌≡◌, refl, ◌∙◌, Bool, true, false, Option, none, some, List, [], ◌∷◌, arith,
  if◌then◌else◌, min, max, All, ◌⊎◌, inl, inr,
}
use smallgateway.Prelude.BTree.{get, get-insert_self}
use smallgateway.Budget.{Date, CapTerms, CapId, cap_id_ord, commit}
use smallgateway.Node.{Entry, NodeBudgets, cut, continue, meter, outcome_of, alerts_of}
use smallgateway.Node.Admission.{IsFresh, touch_fresh, meter_outcome}

module _ (from_timestamp : ℕ → Option Date) (id : CapId) (t : CapTerms) (now : ℕ) where
  -- what the proxy does with the chunks: it meters each, and stops at the first cut
  unfoldable pub stream : NodeBudgets → List ℕ → NodeBudgets × Bool
  stream b [] = (b, false)
  stream b (tokens ∷ rest) =
      let b' = (meter from_timestamp b id (some t) tokens now).0 in
      let later = stream b' rest in
      elim (meter from_timestamp b id (some t) tokens now).1 [
        | continue ↦ later
        | cut _ _ ↦ (b', true)
      ]

  -- the entry after a spend was metered
  abbrev metered : NodeBudgets → Entry → ℕ → Entry
  metered b e tokens =
      let spent = record e { alert_fraction = t.alert_fraction; budget = commit e.budget tokens } in
      record spent { latch = (alerts_of b.node_id id (some t) spent).0 }

  get-meter :
      (b : NodeBudgets) (tokens : ℕ) (e : Entry)
      → get id b.inner ≡ some e
      → IsFresh from_timestamp e t now
      → get id (meter from_timestamp b id (some t) tokens now).0.inner ≡ some (metered b e tokens)
  unfolding meter
  get-meter b tokens e found h =
      rw (touch_fresh from_timestamp b id t now e found h, get-insert_self)

  partitioned-meter :
      (b : NodeBudgets) (tokens : ℕ)
      → (meter from_timestamp b id (some t) tokens now).0.partitioned ≡ b.partitioned
  unfolding meter
  partitioned-meter b tokens = refl

  -- the limit that the outcome is decided by
  abbrev pub bound : NodeBudgets → Entry → ℕ
  bound b e = if b.partitioned then min e.budget.share t.cap else t.cap

  -- what the value has spent
  abbrev pub spent_at : NodeBudgets → ℕ
  spent_at b = elim (get id b.inner) [ none ↦ 0 | some e ↦ e.budget.spent ]

  outcome-le :
      (b : NodeBudgets) (e : Entry) (tokens c : ℕ)
      → tokens ≤ c
      → let spent = (commit e.budget tokens).spent in
        ((outcome_of b.partitioned id (some t) (commit e.budget tokens) ≡ continue)
          × (spent ≤ bound b e))
        ⊎ ((outcome_of b.partitioned id (some t) (commit e.budget tokens) ≡ cut id t.cap)
            × (spent ≤ e.budget.spent + c))
  unfolding outcome_of commit
  outcome-le b e tokens c h = ground arith

  bound-next :
      (b : NodeBudgets) (tokens : ℕ) (e : Entry)
      → bound (meter from_timestamp b id (some t) tokens now).0 (metered b e tokens) ≡ bound b e
  unfolding commit
  bound-next b tokens e = rw (partitioned-meter b tokens)

  abbrev next : NodeBudgets → ℕ → NodeBudgets
  next b tokens = (meter from_timestamp b id (some t) tokens now).0

  stream_continue :
      (b : NodeBudgets) (tokens : ℕ) (rest : List ℕ)
      → (meter from_timestamp b id (some t) tokens now).1 ≡ continue
      → stream b (tokens ∷ rest) ≡ stream (next b tokens) rest
  unfolding stream
  stream_continue b tokens rest h = rw (h, stream)

  stream_cut :
      (b : NodeBudgets) (tokens limit : ℕ) (rest : List ℕ)
      → (meter from_timestamp b id (some t) tokens now).1 ≡ cut id limit
      → stream b (tokens ∷ rest) ≡ (next b tokens, true)
  unfolding stream
  stream_cut b tokens limit rest h = rw (h, stream)

  stream_nil : (b : NodeBudgets) → stream b [] ≡ (b, false)
  unfolding stream
  stream_nil b = refl

  spent_at-found :
      (b : NodeBudgets) (e : Entry) → get id b.inner ≡ some e → spent_at b ≡ e.budget.spent
  spent_at-found b e found = ground arith

  pub stream_overshoot :
      (b : NodeBudgets) (chunks : List ℕ) (c : ℕ) (e : Entry)
      → get id b.inner ≡ some e
      → IsFresh from_timestamp e t now
      → All (λ tokens. tokens ≤ c) chunks
      → (spent_at (stream b chunks).0 ≤ max e.budget.spent (bound b e) + c)
        × ((stream b chunks).1 ≡ false
            → spent_at (stream b chunks).0 ≤ max e.budget.spent (bound b e))
  stream_overshoot b [] c e found h small = ground (arith, stream_nil b, spent_at-found b e found)
  stream_overshoot b (tokens ∷ rest) c e found h small =
      let e' = metered b e tokens in
      let found' = get-meter b tokens e found h in
      let fresh : IsFresh from_timestamp e' t now = record {
        window = h.window;
        current = h.current;
      } in
      let outcome = meter_outcome from_timestamp b id t tokens now e found h in
      elim (outcome-le b e tokens c small.0) [
        | inl (go, within) ↦ rw (stream_continue b tokens rest (outcome ∙ go)) (
            ground (
              arith,
              stream_overshoot (next b tokens) rest c e' found' fresh small.1,
              bound-next b tokens e,
              within,
            ))
        | inr (stop, over) ↦
            rw (stream_cut b tokens t.cap rest (outcome ∙ stop))
              (omega (arith, spent_at-found (next b tokens) e' found'), λ ended. cc)
      ]
