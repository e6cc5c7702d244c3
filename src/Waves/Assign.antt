-- ===== src/Waves/Assign.antt =====
-- crates/gatewayctl/src/waves.rs, `assign` against `wave_index_for`.
use smallgateway.Prelude.{
  ℕ, zero, suc, ◌+◌, ◌<◌, ◌≤◌, ◌≡◌, ◌⊎◌, inl, inr, refl, ◌∙◌, ap, String, Bool, none, some, List,
  [], ◌∷◌, ◌++◌, arith, ◌==◌, if◌then◌else◌, str_eq, length, position, push_at, Option-cases,
}
use smallgateway.Prelude.Order.{text_ord}
use smallgateway.Waves.{
  Wave, Labels, WavePlan, Buckets, AssignedWave, Node, insert_node, sort_nodes, wave_position,
  wave_index_for, empty_buckets, fill, named_waves, final_wave, assign, matches,
}

-- how often a node is in a list of ids
abbrev pub occurrences : String → List String → ℕ
occurrences id [] = 0
occurrences id (x ∷ xs) = (if str_eq id x then 1 else 0) + occurrences id xs

-- how often a node with this id was given, with labels that belong to wave `i` of the plan
abbrev pub expected : WavePlan → String → ℕ → List Node → ℕ
expected p id i [] = 0
expected p id i ((x, labels) ∷ nodes) =
    (if str_eq id x then if wave_index_for p labels == i then 1 else 0 else 0)
    + expected p id i nodes

-- the nodes of wave `i`; a wave that is not in the list has none
abbrev pub ids_at : ℕ → List AssignedWave → List String
ids_at i [] = []
ids_at zero (w ∷ waves) = w.node_ids
ids_at (suc i) (w ∷ waves) = ids_at i waves

abbrev bucket : ℕ → List (List String) → List String
bucket i [] = []
bucket zero (ids ∷ named) = ids
bucket (suc i) (ids ∷ named) = bucket i named

occurrences-append :
    (id : String) (xs ys : List String)
    → occurrences id (xs ++ ys) ≡ occurrences id xs + occurrences id ys
occurrences-append id [] ys = omega arith
occurrences-append id (x ∷ xs) ys = omega (arith, occurrences-append id xs ys)

position-lt :
    {A : Type 0} (p : A → Bool) (xs : List A) (i : ℕ) → position p xs ≡ some i → i < length xs
unfolding position
position-lt p [] i h = cc
position-lt p (x ∷ xs) i h = elim (Option-cases (position p xs)) [
  | inl missing ↦ ground (arith, missing)
  | inr (j, found) ↦ ground (arith, found, position-lt p xs j found)
]

length-push_at :
    {A : Type 0} (i : ℕ) (x : A) (yss : List (List A)) → length (push_at i x yss) ≡ length yss
unfolding push_at
length-push_at i x [] = refl
length-push_at zero x (ys ∷ yss) = refl
length-push_at (suc i) x (ys ∷ yss) = omega (arith, length-push_at i x yss)

bucket-push_at :
    (id x : String) (i j : ℕ) (named : List (List String))
    → j < length named
    → occurrences id (bucket i (push_at j x named))
      ≡ occurrences id (bucket i named) + (if str_eq id x then if j == i then 1 else 0 else 0)
unfolding push_at
bucket-push_at id x i j [] h = omega arith
bucket-push_at id x zero zero (ids ∷ named) h = ground (arith, occurrences-append id ids (x ∷ []))
bucket-push_at id x zero (suc j) (ids ∷ named) h = ground arith
bucket-push_at id x (suc i) zero (ids ∷ named) h = ground arith
bucket-push_at id x (suc i) (suc j) (ids ∷ named) h = ground (arith, bucket-push_at id x i j named)

fill-some :
    (waves : List Wave) (b : Buckets) (x : String) (labels : Labels) (nodes : List Node) (i : ℕ)
    → wave_position waves labels ≡ some i
    → fill waves b ((x, labels) ∷ nodes)
      ≡ fill waves (record b { named = push_at i x b.named }) nodes
unfolding fill
fill-some waves b x labels nodes i h = rw (h, fill)

fill-none :
    (waves : List Wave) (b : Buckets) (x : String) (labels : Labels) (nodes : List Node)
    → wave_position waves labels ≡ none
    → fill waves b ((x, labels) ∷ nodes)
      ≡ fill waves (record b { unmatched = b.unmatched ++ x ∷ [] }) nodes
unfolding fill
fill-none waves b x labels nodes h = rw (h, fill)

fill-nil : (waves : List Wave) (b : Buckets) → fill waves b [] ≡ b
unfolding fill
fill-nil waves b = refl

wave_index-some :
    (p : WavePlan) (labels : Labels) (i : ℕ)
    → wave_position p.waves labels ≡ some i
    → (wave_index_for p labels ≡ i) × (i < length p.waves)
unfolding wave_index_for wave_position
wave_index-some p labels i h =
    (rw h, position-lt (λ (w : Wave). matches w.selector labels) p.waves i h)

wave_index-none :
    (p : WavePlan) (labels : Labels)
    → wave_position p.waves labels ≡ none
    → wave_index_for p labels ≡ length p.waves
unfolding wave_index_for
wave_index-none p labels h = rw h

length-fill :
    (waves : List Wave) (b : Buckets) (nodes : List Node)
    → length (fill waves b nodes).named ≡ length b.named
length-fill waves b [] = ap (λ (c : Buckets). length c.named) (fill-nil waves b)
length-fill waves b ((x, labels) ∷ nodes) = elim (Option-cases (wave_position waves labels)) [
  | inl missing ↦
      rw (fill-none waves b x labels nodes missing)
        (length-fill waves (record b { unmatched = b.unmatched ++ x ∷ [] }) nodes)
  | inr (j, found) ↦ rw (fill-some waves b x labels nodes j found) (
      length-fill waves (record b { named = push_at j x b.named }) nodes
      ∙ length-push_at j x b.named)
]

expected-insert :
    (p : WavePlan) (id : String) (i : ℕ) (n : Node) (nodes : List Node)
    → expected p id i (insert_node n nodes) ≡ expected p id i (n ∷ nodes)
unfolding insert_node
expected-insert p id i n [] = refl
expected-insert p id i n (m ∷ nodes) = ground (arith, expected-insert p id i n nodes)

expected-sort :
    (p : WavePlan) (id : String) (i : ℕ) (nodes : List Node)
    → expected p id i (sort_nodes nodes) ≡ expected p id i nodes
unfolding sort_nodes
expected-sort p id i [] = refl
expected-sort p id i (n ∷ nodes) =
    omega (arith, expected-insert p id i n (sort_nodes nodes), expected-sort p id i nodes)

module _ (p : WavePlan) (id : String) where
  fill-named :
      (b : Buckets) (nodes : List Node) (i : ℕ)
      → length b.named ≡ length p.waves
      → i < length p.waves
      → occurrences id (bucket i (fill p.waves b nodes).named)
        ≡ occurrences id (bucket i b.named) + expected p id i nodes
  fill-named b [] i same small = rw (fill-nil p.waves b) (omega arith)
  fill-named b ((x, labels) ∷ nodes) i same small =
      elim (Option-cases (wave_position p.waves labels)) [
        | inl missing ↦ rw (fill-none p.waves b x labels nodes missing) (
            ground (
              arith,
              wave_index-none p labels missing,
              fill-named (record b { unmatched = b.unmatched ++ x ∷ [] }) nodes i same small,
            ))
        | inr (j, found) ↦ rw (fill-some p.waves b x labels nodes j found) (
            ground (
              arith,
              wave_index-some p labels j found,
              length-push_at j x b.named,
              bucket-push_at id x i j b.named,
              fill-named (record b { named = push_at j x b.named }) nodes i
                  (length-push_at j x b.named ∙ same) small,
            ))
      ]

  fill-unmatched :
      (b : Buckets) (nodes : List Node)
      → occurrences id (fill p.waves b nodes).unmatched
        ≡ occurrences id b.unmatched + expected p id (length p.waves) nodes
  fill-unmatched b [] = rw (fill-nil p.waves b) (omega arith)
  fill-unmatched b ((x, labels) ∷ nodes) = elim (Option-cases (wave_position p.waves labels)) [
    | inl missing ↦ rw (fill-none p.waves b x labels nodes missing) (
        ground (
          arith,
          wave_index-none p labels missing,
          occurrences-append id b.unmatched (x ∷ []),
          fill-unmatched (record b { unmatched = b.unmatched ++ x ∷ [] }) nodes,
        ))
    | inr (j, found) ↦ rw (fill-some p.waves b x labels nodes j found) (
        ground (
          arith,
          wave_index-some p labels j found,
          fill-unmatched (record b { named = push_at j x b.named }) nodes,
        ))
  ]

  ids_at-named :
      (waves : List Wave) (named : List (List String)) (final : List AssignedWave) (i : ℕ)
      → length named ≡ length waves
      → i < length waves
      → ids_at i (named_waves waves named ++ final) ≡ bucket i named
  unfolding named_waves
  ids_at-named [] named final i same small = ground arith
  ids_at-named (w ∷ waves) [] final i same small = ground arith
  ids_at-named (w ∷ waves) (ids ∷ named) final zero same small = refl
  ids_at-named (w ∷ waves) (ids ∷ named) final (suc i) same small =
      ground (arith, ids_at-named waves named final i)

  ids_at-final :
      (waves : List Wave) (named : List (List String)) (final : List AssignedWave)
      → length named ≡ length waves
      → ids_at (length waves) (named_waves waves named ++ final) ≡ ids_at 0 final
  unfolding named_waves
  ids_at-final [] named final same = refl
  ids_at-final (w ∷ waves) [] final same = ground arith
  ids_at-final (w ∷ waves) (ids ∷ named) final same = ground (arith, ids_at-final waves named final)

  final_wave-ids : (ids : List String) → ids_at 0 (final_wave ids) ≡ ids
  unfolding final_wave
  final_wave-ids [] = refl
  final_wave-ids (x ∷ ids) = refl

  empty_buckets-length : (waves : List Wave) → length (empty_buckets waves) ≡ length waves
  unfolding empty_buckets
  empty_buckets-length [] = refl
  empty_buckets-length (w ∷ waves) = omega (arith, empty_buckets-length waves)

  empty_buckets-bucket : (waves : List Wave) (i : ℕ) → bucket i (empty_buckets waves) ≡ []
  unfolding empty_buckets
  empty_buckets-bucket [] i = refl
  empty_buckets-bucket (w ∷ waves) zero = refl
  empty_buckets-bucket (w ∷ waves) (suc i) = empty_buckets-bucket waves i

Nat-split : (i n : ℕ) → i ≤ n → (i < n) ⊎ (i ≡ n)
Nat-split i n h = ground arith

-- Every wave of the assignment, the implicit final wave included, holds each node exactly as often
-- as it was given with labels that `wave_index_for` sends to this wave. So a node is in the first
-- wave whose selector matches, in no other wave, and never lost.
pub assign_agrees :
    (p : WavePlan) (nodes : List Node) (id : String) (i : ℕ)
    → i ≤ length p.waves
    → occurrences id (ids_at i (assign p nodes)) ≡ expected p id i nodes
unfolding assign
assign_agrees p nodes id i small =
    let start : Buckets = record { named = empty_buckets p.waves; unmatched = [] } in
    let b = fill p.waves start (sort_nodes nodes) in
    let same : length b.named ≡ length p.waves =
      length-fill p.waves start (sort_nodes nodes) ∙ empty_buckets-length p id p.waves in
    let sorted = expected-sort p id i nodes in
    elim (Nat-split i (length p.waves) small) [
      | inl below ↦ rw (ids_at-named p id p.waves b.named (final_wave b.unmatched) i same below) (
          ground (
            arith,
            fill-named p id start (sort_nodes nodes) i (empty_buckets-length p id p.waves) below,
            empty_buckets-bucket p id p.waves i,
            sorted,
          ))
      | inr last ↦
          rw
            (
              last,
              ids_at-final p id p.waves b.named (final_wave b.unmatched) same,
              final_wave-ids p id b.unmatched,
            )
            (ground (
              arith,
              fill-unmatched p id start (sort_nodes nodes),
              expected-sort p id (length p.waves) nodes,
            ))
    ]
