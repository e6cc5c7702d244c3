-- ===== src/Rollout/Single/Tampered.antt =====
-- crates/gatewayctl/src/rollout.rs, `run_wave`: what nodes that hash the bytes themselves make of a wave.
use mathlib.Core.List.{append_assoc, append-nil}
use smallgateway.Prelude.{
  ℕ, ◌≡◌, ◌≢◌, inl, inr, refl, ap, sym, ◌∙◌, String, List, [], ◌∷◌, ◌++◌, map, All, arith, eq_iff,
}
use smallgateway.Fleet.{
  Fleet, Rendered, WaveOutcome, halted, Divergence, AckResult, acked, nack, no_answer, all_expect,
  expected_of, next_version_for, conclude_wave, begin_wave, drop_guard,
}
use smallgateway.Fleet.Conclude.{conclude_cases, unacked, node_ids}
use smallgateway.Rollout.Single.{
  Answered, push_same, push_same_all, adjudicate, run_wave, roll_out_tampered,
}

abbrev IsNoAckOf : String → String × AckResult → Type 0
IsNoAckOf hash (id, r) = r ≢ acked hash

expected_of-all :
    (hash id : String) (results : List (String × AckResult))
    → expected_of (all_expect hash results) hash id ≡ hash
unfolding expected_of all_expect
expected_of-all hash id [] = refl
expected_of-all hash id ((j, r) ∷ results) = ground (arith, expected_of-all hash id results)

abbrev ids_of : List (String × AckResult) → List String
ids_of results = map (λ r. r.0) results

-- where no node acks the hash, all of them are named
unacked-every :
    (expected : List (String × String)) (hash : String) (results : List (String × AckResult))
    → ((id : String) → expected_of expected hash id ≡ hash)
    → All (IsNoAckOf hash) results
    → unacked expected hash results ≡ ids_of results
unacked-every expected hash [] same h = refl
unacked-every expected hash ((id, acked other) ∷ results) same h =
    ground (arith, same id, eq_iff other hash, h.0, unacked-every expected hash results same h.1)
unacked-every expected hash ((id, nack reason) ∷ results) same h =
    ap (λ ids. id ∷ ids) (unacked-every expected hash results same h.1)
unacked-every expected hash ((id, no_answer) ∷ results) same h =
    ap (λ ids. id ∷ ids) (unacked-every expected hash results same h.1)

cons-filled : (a : String × AckResult) (results : List (String × AckResult)) → (a ∷ results) ≢ []
cons-filled a results e = cc

module _ (answer : String → ℕ → Rendered → AckResult) where
  -- the answers to the pushes, in turn
  abbrev answers_of : Rendered → Fleet → List String → List (String × AckResult)
  answers_of rendered f [] = []
  answers_of rendered f (id ∷ ids) =
      let next = next_version_for f id rendered.render_hash in
      (id, answer id next.1 rendered) ∷ answers_of rendered next.0 ids

  ids_of-answers_of :
      (rendered : Rendered) (f : Fleet) (ids : List String)
      → ids_of (answers_of rendered f ids) ≡ ids
  ids_of-answers_of rendered f [] = refl
  ids_of-answers_of rendered f (id ∷ ids) =
      ap (λ rest. id ∷ rest)
        (ids_of-answers_of rendered (next_version_for f id rendered.render_hash).0 ids)

  push_same_all-results :
      (rendered : Rendered) (a : Answered) (ids : List String)
      → (push_same_all answer rendered a ids).results ≡ a.results ++ answers_of rendered a.fleet ids
  unfolding push_same_all push_same
  push_same_all-results rendered a [] = sym (append-nil a.results)
  push_same_all-results rendered a (id ∷ ids) =
      push_same_all-results rendered (push_same answer rendered a id) ids
      ∙ append_assoc a.results _ _

  push_same_all-version :
      (rendered : Rendered) (a : Answered) (ids : List String)
      → (push_same_all answer rendered a ids).fleet.committed_version ≡ a.fleet.committed_version
  unfolding push_same_all push_same next_version_for
  push_same_all-version rendered a [] = refl
  push_same_all-version rendered a (id ∷ ids) =
      push_same_all-version rendered (push_same answer rendered a id) ids

  module _ (local_hash : List ℕ → String) where
    -- a node acks with the hash of the bytes that it got, whatever hash came with them
    abbrev pub IsHonest : Type 0
    IsHonest =
        (id : String) (version : ℕ) (r : Rendered) (h : String)
        → answer id version r ≡ acked h
        → h ≡ local_hash r.config_bytes

    answers-IsNoAckOf :
        (rendered : Rendered) (f : Fleet) (ids : List String)
        → IsHonest
        → rendered.render_hash ≢ local_hash rendered.config_bytes
        → All (IsNoAckOf rendered.render_hash) (answers_of rendered f ids)
    answers-IsNoAckOf rendered f [] honest wrong = tt
    answers-IsNoAckOf rendered f (id ∷ ids) honest wrong =
        let next = next_version_for f id rendered.render_hash in
        (
          λ acks. wrong (honest id next.1 rendered rendered.render_hash acks),
          answers-IsNoAckOf rendered next.0 ids honest wrong,
        )

    -- the wave halts, its fleet keeps the version, and the nodes are named
    abbrev pub HaltsAll : Fleet → String → List String → Fleet × WaveOutcome → Type 0
    HaltsAll f hash ids o =
        (o.0.committed_version ≡ f.committed_version)
        × (ds : List Divergence) × (o.1 ≡ halted hash ds)
        × (node_ids ds ≡ ids)

    conclude-HaltsAll :
        (f g : Fleet) (rendered : Rendered) (version : ℕ) (id : String) (ids : List String)
        → IsHonest
        → rendered.render_hash ≢ local_hash rendered.config_bytes
        → g.committed_version ≡ f.committed_version
        → HaltsAll f rendered.render_hash
            (id ∷ ids)
            (conclude_wave g rendered.render_hash version (answers_of rendered f (id ∷ ids)))
    unfolding conclude_wave
    conclude-HaltsAll f g rendered version id ids honest wrong same =
        let results = answers_of rendered f (id ∷ ids) in
        let hash = rendered.render_hash in
        let expected = all_expect hash results in
        let silent_or_other = answers-IsNoAckOf rendered f (id ∷ ids) honest wrong in
        let want = λ (j : String). expected_of-all hash j results in
        elim (conclude_cases g hash expected version results (cons-filled _ _)) [
          | inl (all, done) ↦ absurd (silent_or_other.0 (all.0 ∙ ap acked (want id)))
          | inr (some_not, (ds, stopped_by, names)) ↦ (
            ap (λ (o : Fleet × WaveOutcome). o.0.committed_version) stopped_by ∙ same,
            ds,
            ap (λ (o : Fleet × WaveOutcome). o.1) stopped_by,
            names
                ∙ unacked-every expected hash results want silent_or_other
                ∙ ids_of-answers_of rendered f (id ∷ ids),
          )
        ]

    adjudicate-HaltsAll :
        (f : Fleet) (rendered : Rendered) (ids : List String)
        → IsHonest
        → rendered.render_hash ≢ local_hash rendered.config_bytes
        → ids ≢ []
        → HaltsAll f rendered.render_hash ids (adjudicate answer ids f rendered)
    unfolding adjudicate
    adjudicate-HaltsAll f rendered [] honest wrong filled = absurd (filled refl)
    adjudicate-HaltsAll f rendered (id ∷ ids) honest wrong filled =
        let start : Answered = record {
          fleet = f;
          results = [];
          wave_version = f.committed_version;
        } in
        let a = push_same_all answer rendered start (id ∷ ids) in
        rw (push_same_all-results rendered start (id ∷ ids)) (
          conclude-HaltsAll f a.fleet rendered a.wave_version id ids honest wrong
            (push_same_all-version rendered start (id ∷ ids)))

    -- Where each node that acks gives the hash of the bytes it got, and at least one node is connected, a
    -- wave whose advertised hash is not that of its bytes halts under the advertised hash: its divergences
    -- name every connected node in turn, and the fleet's version stays.
    pub roll_out_tampered-HaltsAll :
        (sessions : List String) (f : Fleet) (advertised_hash : String) (bytes : List ℕ)
        → IsHonest
        → advertised_hash ≢ local_hash bytes
        → sessions ≢ []
        → HaltsAll f advertised_hash sessions
            (roll_out_tampered answer sessions f advertised_hash bytes)
    unfolding roll_out_tampered run_wave begin_wave drop_guard
    roll_out_tampered-HaltsAll sessions f advertised_hash bytes honest wrong filled =
        adjudicate-HaltsAll (begin_wave f) _ sessions honest wrong filled
