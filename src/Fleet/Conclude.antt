-- ===== src/Fleet/Conclude.antt =====
-- crates/gatewayctl/src/fleet.rs, `conclude_wave_multi`: the answers of a wave and its outcome.
use smallgateway.Prelude.{
  ℕ, ◌≡◌, ◌↔◌, ◌≢◌, ◌⊎◌, inl, inr, refl, ap, sym, ◌∙◌, map, String, Option, List, [], ◌∷◌, ◌++◌,
  arith, if◌then◌else◌, str_eq, length, All, eq_iff,
}
use smallgateway.Prelude.BTree.{BTreeMap}
use smallgateway.Fleet.{
  Fleet, Rendered, DesiredInputs, WaveOutcome, committed, halted, AckResult, acked, nack, no_answer,
  Divergence, expected_of, divergence_of, divergences, conclude_wave_multi,
}

-- the node's answer is an ack of its own render
abbrev pub HasAcked : List (String × String) → String → String × AckResult → Type 0
HasAcked expected outcome_hash (id, result) = result ≡ acked (expected_of expected outcome_hash id)

divergence_of-none :
    (want : String) (version : ℕ) (id : String) (r : AckResult)
    → (divergence_of want version id r ≡ []) ↔ (r ≡ acked want)
unfolding divergence_of
divergence_of-none want version id (acked hash) = ground (arith, eq_iff hash want)
divergence_of-none want version id (nack reason) = ground arith
divergence_of-none want version id no_answer = ground arith

append-none : (xs ys : List Divergence) → (xs ++ ys ≡ []) ↔ ((xs ≡ []) × (ys ≡ []))
append-none [] ys = ground arith
append-none (x ∷ xs) ys = ground arith

pub divergences-none :
    (expected : List (String × String)) (outcome_hash : String) (version : ℕ)
    → (results : List (String × AckResult))
    → (divergences expected outcome_hash version results ≡ [])
      ↔ All (HasAcked expected outcome_hash) results
unfolding divergences
divergences-none expected outcome_hash version [] = ground arith
divergences-none expected outcome_hash version ((id, r) ∷ results) = ground (
  arith,
  append-none (divergence_of (expected_of expected outcome_hash id) version id r)
      (divergences expected outcome_hash version results),
  divergence_of-none (expected_of expected outcome_hash id) version id r,
  divergences-none expected outcome_hash version results,
)

-- the nodes that did not ack their own render, in the order of the answers
abbrev pub unacked : List (String × String) → String → List (String × AckResult) → List String
unacked expected outcome_hash [] = []
unacked expected outcome_hash ((id, acked hash) ∷ results) =
    let rest = unacked expected outcome_hash results in
    if str_eq hash (expected_of expected outcome_hash id) then rest else id ∷ rest
unacked expected outcome_hash ((id, nack reason) ∷ results) =
    id ∷ unacked expected outcome_hash results
unacked expected outcome_hash ((id, no_answer) ∷ results) =
    id ∷ unacked expected outcome_hash results

abbrev pub node_ids : List Divergence → List String
node_ids ds = map (λ (d : Divergence). d.node_id) ds

node_ids-divergences :
    (expected : List (String × String)) (outcome_hash : String) (version : ℕ)
    → (results : List (String × AckResult))
    → node_ids (divergences expected outcome_hash version results)
      ≡ unacked expected outcome_hash results
unfolding divergences divergence_of
node_ids-divergences expected outcome_hash version [] = refl
node_ids-divergences expected outcome_hash version ((id, acked hash) ∷ results) =
    ground (arith, node_ids-divergences expected outcome_hash version results)
node_ids-divergences expected outcome_hash version ((id, nack reason) ∷ results) =
    ap (λ ids. id ∷ ids) (node_ids-divergences expected outcome_hash version results)
node_ids-divergences expected outcome_hash version ((id, no_answer) ∷ results) =
    ap (λ ids. id ∷ ids) (node_ids-divergences expected outcome_hash version results)

pub conclude-none :
    (f : Fleet) (h : String) (expected : List (String × String)) (version : ℕ)
    → (r : String × AckResult) (results : List (String × AckResult))
    → divergences expected h version (r ∷ results) ≡ []
    → conclude_wave_multi f h expected version (r ∷ results)
      ≡ (record f { committed_version = version }, committed h (length (r ∷ results)))
unfolding conclude_wave_multi
conclude-none f h expected version r results e = rw (e, conclude_wave_multi)

conclude-some :
    (f : Fleet) (h : String) (expected : List (String × String)) (version : ℕ)
    → (r : String × AckResult) (results : List (String × AckResult)) (d : Divergence)
    → (ds : List Divergence) → divergences expected h version (r ∷ results) ≡ d ∷ ds
    → conclude_wave_multi f h expected version (r ∷ results) ≡ (f, halted h (d ∷ ds))
unfolding conclude_wave_multi
conclude-some f h expected version r results d ds e = rw (e, conclude_wave_multi)

-- Where at least one node was pushed to, either every node acked exactly its own render, and then
-- the wave commits them all and the fleet's version becomes the wave's; or some node did not, and
-- then the wave halts, the fleet is left as it was, and the divergences name exactly the nodes that
-- did not, each in turn.
pub conclude_cases :
    (f : Fleet) (h : String) (expected : List (String × String)) (version : ℕ)
    → (results : List (String × AckResult)) → results ≢ []
    → (All (HasAcked expected h) results
        × (conclude_wave_multi f h expected version results
            ≡ (record f { committed_version = version }, committed h (length results))))
      ⊎ (¬ All (HasAcked expected h) results
          × ((ds : List Divergence) × (conclude_wave_multi f h expected version results
                ≡ (f, halted h ds))
              × (node_ids ds ≡ unacked expected h results)))
conclude_cases f h expected version [] filled = ground arith
conclude_cases f h expected version (r ∷ results) filled =
    go (divergences expected h version (r ∷ results)) refl
  where
    go :
        (ds : List Divergence)
        → divergences expected h version (r ∷ results) ≡ ds
        → (All (HasAcked expected h) (r ∷ results)
            × (conclude_wave_multi f h expected version (r ∷ results)
                ≡ (record f { committed_version = version }, committed h (length (r ∷ results)))))
          ⊎ (¬ All (HasAcked expected h) (r ∷ results)
              × ((ds : List Divergence) × (conclude_wave_multi f h expected version (r ∷ results)
                    ≡ (f, halted h ds))
                  × (node_ids ds ≡ unacked expected h (r ∷ results))))
    go [] e = inl (
      (divergences-none expected h version (r ∷ results)).0 e,
      conclude-none f h expected version r results e,
    )
    go (d ∷ ds) e = inr (
      λ all. cc (sym e ∙ (divergences-none expected h version (r ∷ results)).1 all),
      (
        d ∷ ds,
        conclude-some f h expected version r results d ds e,
        ap node_ids (sym e) ∙ node_ids-divergences expected h version (r ∷ results),
      ),
    )

-- the desired state and the commits that are recorded for the waves
abbrev pub view : Fleet → Rendered × Option DesiredInputs × BTreeMap String String
view f = (f.applied, f.desired, f.wave_commit)

-- no outcome changes the desired state and the commits that are recorded for the waves
pub conclude-view :
    (f : Fleet) (h : String) (expected : List (String × String)) (version : ℕ)
    → (results : List (String × AckResult))
    → view (conclude_wave_multi f h expected version results).0 ≡ view f
unfolding conclude_wave_multi
conclude-view f h expected version [] = refl
conclude-view f h expected version (r ∷ results) =
    by_divergences (divergences expected h version (r ∷ results))
  where
    by_divergences :
        (ds : List Divergence)
        → view
            (elim ds as (λ _. Fleet × WaveOutcome) [
              | [] ↦ (record f { committed_version = version }, committed h (length (r ∷ results)))
              | d ∷ ds ↦ (f, halted h (d ∷ ds))
            ]).0
          ≡ view f
    by_divergences [] = refl
    by_divergences (d ∷ ds) = refl
