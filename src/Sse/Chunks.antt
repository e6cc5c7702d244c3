-- ===== src/Sse/Chunks.antt =====
-- crates/gateway-core/src/sse.rs, `feed`: a stream of bytes that arrives in chunks.
use smallgateway.Prelude.{
  ℕ, zero, suc, ◌+◌, ◌≤◌, ◌≡◌, refl, ap, sym, ◌∙◌, inl, inr, String, Bool, true, false, ◌&&◌,
  Option, none, some, List, [], ◌∷◌, ◌++◌, arith, ◌==◌, length, length-append, Option-cases,
  Bool-cases,
}
use mathlib.Core.List.{append_assoc, append-nil}
use smallgateway.Sse.{
  SseEvent, SseParser, without_cr, starts_line, rest_of, onto_block, split_block, push, parse_block,
  drain, feed,
}

without_cr-append : (xs ys : List ℕ) → without_cr (xs ++ ys) ≡ without_cr xs ++ without_cr ys
unfolding without_cr
without_cr-append [] ys = refl
without_cr-append (x ∷ xs) ys = ground (arith, without_cr-append xs ys)

abbrev is_blank_line : ℕ → List ℕ → Bool
is_blank_line b bytes = b == 10 && starts_line bytes

split_block-blank :
    (b : ℕ) (bytes : List ℕ)
    → is_blank_line b bytes ≡ true
    → split_block (b ∷ bytes) ≡ some ([], rest_of bytes)
unfolding split_block
split_block-blank b bytes h = rw (h, split_block)

split_block-onto :
    (b : ℕ) (bytes : List ℕ)
    → is_blank_line b bytes ≡ false
    → split_block (b ∷ bytes) ≡ onto_block b (split_block bytes)
unfolding split_block
split_block-onto b bytes h = rw (h, split_block)

split_block-nil : split_block [] ≡ none
unfolding split_block
split_block-nil = refl

-- a block was found after its first byte
onto_block-some :
    (b : ℕ) (o : Option (List ℕ × List ℕ)) (block rest : List ℕ)
    → onto_block b o ≡ some (block, rest)
    → (tail : List ℕ) × (o ≡ some (tail, rest)) × (block ≡ b ∷ tail)
onto_block-some b none block rest h = ground arith
onto_block-some b (some (tail, r)) block rest h = (tail, ground arith, ground arith)

split_block-append :
    (xs ys block rest : List ℕ)
    → split_block xs ≡ some (block, rest)
    → split_block (xs ++ ys) ≡ some (block, rest ++ ys)
split_block-append [] ys block rest h = cc (split_block-nil)
split_block-append (x ∷ []) ys block rest h = ground (arith, split_block-onto x [], split_block-nil)
split_block-append (x ∷ y ∷ xs) ys block rest h = elim (Bool-cases (is_blank_line x (y ∷ xs))) [
  | inl blank ↦
      split_block-blank x (y ∷ xs ++ ys) blank
      ∙ ground (arith, sym h ∙ split_block-blank x (y ∷ xs) blank)
  | inr other ↦
      let inner =
        onto_block-some x (split_block (y ∷ xs)) block rest
          (sym (split_block-onto x (y ∷ xs) other) ∙ h) in
      split_block-onto x (y ∷ xs ++ ys) other
      ∙ ap (onto_block x) (split_block-append (y ∷ xs) ys inner.0 rest inner.1)
      ∙ ap (λ b. some (b, rest ++ ys)) (sym inner.2)
]

split_block-length :
    (xs block rest : List ℕ) → split_block xs ≡ some (block, rest) → 2 + length rest ≤ length xs
split_block-length [] block rest h = cc (split_block-nil)
split_block-length (x ∷ xs) block rest h = elim (Bool-cases (is_blank_line x xs)) [
  | inl blank ↦ blank_case xs blank (sym h ∙ split_block-blank x xs blank)
  | inr other ↦
      let inner =
        onto_block-some x (split_block xs) block rest (sym (split_block-onto x xs other) ∙ h) in
      omega (arith, split_block-length xs inner.0 rest inner.1)
]
  where
    blank_case :
        (bytes : List ℕ)
        → is_blank_line x bytes ≡ true
        → ◌≡◌ {A = Option (List ℕ × List ℕ)} (some (block, rest)) (some ([], rest_of bytes))
        → 2 + length rest ≤ suc (length bytes)
    blank_case [] blank e = ground arith
    blank_case (y ∷ bytes) blank e = ground arith

abbrev pub concat : List (List ℕ) → List ℕ
concat [] = []
concat (chunk ∷ chunks) = chunk ++ concat chunks

module _ (from_utf8_lossy : List ℕ → String) where
  drain-none :
      (n : ℕ) (bytes : List ℕ)
      → split_block bytes ≡ none
      → drain from_utf8_lossy n bytes ≡ (bytes, [])
  unfolding drain
  drain-none zero bytes h = refl
  drain-none (suc n) bytes h = rw (h, drain)

  drain-some :
      (n : ℕ) (bytes block rest : List ℕ)
      → split_block bytes ≡ some (block, rest)
      → let later = drain from_utf8_lossy n rest in
        drain from_utf8_lossy (suc n) bytes
        ≡ (later.0, push (parse_block from_utf8_lossy block) later.1)
  unfolding drain
  drain-some n bytes block rest h = rw (h, drain)

  push-append : (o : Option SseEvent) (xs ys : List SseEvent) → push o (xs ++ ys) ≡ push o xs ++ ys
  push-append none xs ys = refl
  push-append (some e) xs ys = refl

  empty-none : (bytes : List ℕ) → length bytes ≤ 0 → split_block bytes ≡ none
  empty-none [] h = split_block-nil
  empty-none (b ∷ bytes) h = ground arith

  drain-fuel :
      (n k : ℕ) (bytes : List ℕ)
      → length bytes ≤ n
      → length bytes ≤ k
      → drain from_utf8_lossy n bytes ≡ drain from_utf8_lossy k bytes
  drain-fuel zero k bytes hn hk =
      drain-none zero bytes (empty-none bytes hn) ∙ sym (drain-none k bytes (empty-none bytes hn))
  drain-fuel (suc n) zero bytes hn hk =
      drain-none (suc n) bytes (empty-none bytes hk)
      ∙ sym (drain-none zero bytes (empty-none bytes hk))
  drain-fuel (suc n) (suc k) bytes hn hk = elim (Option-cases (split_block bytes)) [
    | inl whole ↦ drain-none (suc n) bytes whole ∙ sym (drain-none (suc k) bytes whole)
    | inr ((block, rest), found) ↦
        let small = split_block-length bytes block rest found in
        drain-some n bytes block rest found
        ∙ ap (λ l. (l.0, push (parse_block from_utf8_lossy block) l.1))
            (drain-fuel n k rest (omega arith) (omega arith))
        ∙ sym (drain-some k bytes block rest found)
  ]

  -- what a drain with fuel `k` makes of later bytes
  abbrev extend : ℕ → List ℕ → List ℕ × List SseEvent → List ℕ × List SseEvent
  extend k ys first =
      let second = drain from_utf8_lossy k (first.0 ++ ys) in (second.0, first.1 ++ second.1)

  extend-none :
      (n m k : ℕ) (xs ys : List ℕ)
      → length xs + length ys ≤ n
      → length xs + length ys ≤ k
      → split_block xs ≡ none
      → drain from_utf8_lossy n (xs ++ ys) ≡ extend k ys (drain from_utf8_lossy m xs)
  extend-none n m k xs ys hn hk whole =
      drain-fuel n k (xs ++ ys) (omega (arith, length-append xs ys))
        (omega (arith, length-append xs ys))
      ∙ ap (extend k ys) (sym (drain-none m xs whole))

  drain-append :
      (n m k : ℕ) (xs ys : List ℕ)
      → length xs ≤ m
      → length xs + length ys ≤ n
      → length xs + length ys ≤ k
      → drain from_utf8_lossy n (xs ++ ys) ≡ extend k ys (drain from_utf8_lossy m xs)
  drain-append zero m k xs ys hm hn hk =
      extend-none zero m k xs ys hn hk (empty-none xs (omega arith))
  drain-append (suc n) zero k xs ys hm hn hk =
      extend-none (suc n) zero k xs ys hn hk (empty-none xs hm)
  drain-append (suc n) (suc m) k xs ys hm hn hk = elim (Option-cases (split_block xs)) [
    | inl whole ↦ extend-none (suc n) (suc m) k xs ys hn hk whole
    | inr ((block, rest), found) ↦
        let small = split_block-length xs block rest found in
        let o = parse_block from_utf8_lossy block in
        let first = drain from_utf8_lossy m rest in
        let second = drain from_utf8_lossy k (first.0 ++ ys) in
        drain-some n (xs ++ ys) block (rest ++ ys) (split_block-append xs ys block rest found)
        ∙ ap (λ l. (l.0, push o l.1))
            (drain-append n m k rest ys (omega arith) (omega arith) (omega arith))
        ∙ ap (λ events. (second.0, events)) (push-append o first.1 second.1)
        ∙ ap (extend k ys) (sym (drain-some m xs block rest found))
  ]

  -- with fuel for its length, a drain leaves no blank line
  drain-drained :
      (n : ℕ) (bytes : List ℕ)
      → length bytes ≤ n
      → (split_block (drain from_utf8_lossy n bytes).0 ≡ none)
        × (length (drain from_utf8_lossy n bytes).0 ≤ length bytes)
  drain-drained zero bytes h =
      rw (drain-none zero bytes (empty-none bytes h)) (empty-none bytes h, omega arith)
  drain-drained (suc n) bytes h = elim (Option-cases (split_block bytes)) [
    | inl whole ↦ rw (drain-none (suc n) bytes whole) (whole, omega arith)
    | inr ((block, rest), found) ↦
        let small = split_block-length bytes block rest found in
        let left = drain-drained n rest (omega arith) in
        rw (drain-some n bytes block rest found) (left.0, omega (arith, left.1))
  ]

  -- the chunks in turn
  unfoldable pub feed_all : SseParser → List (List ℕ) → SseParser × List SseEvent
  feed_all p [] = (p, [])
  feed_all p (chunk ∷ chunks) =
      let first = feed from_utf8_lossy p chunk in
      let later = feed_all first.0 chunks in (later.0, first.1 ++ later.1)

  abbrev finish : List ℕ × List SseEvent → SseParser × List SseEvent
  finish d = (record { buf = d.0 }, d.1)

  feed-append :
      (p : SseParser) (xs ys : List ℕ)
      → let first = feed from_utf8_lossy p xs in
        let second = feed from_utf8_lossy first.0 ys in
        feed from_utf8_lossy p (xs ++ ys) ≡ (second.0, first.1 ++ second.1)
  unfolding feed
  feed-append p xs ys =
      let all = p.buf ++ without_cr xs in
      let later = without_cr ys in
      let first = drain from_utf8_lossy (length all) all in
      let k = length all + length later in
      let left = drain-drained (length all) all (omega arith) in
      let whole : p.buf ++ without_cr (xs ++ ys) ≡ all ++ later =
        ap (λ bs. p.buf ++ bs) (without_cr-append xs ys)
        ∙ sym (append_assoc p.buf (without_cr xs) later) in
      ap (λ bs. finish (drain from_utf8_lossy (length bs) bs)) whole
      ∙ ap finish (
          drain-append (length (all ++ later)) (length all) k all later (omega arith)
            (omega (arith, length-append all later)) (omega arith))
      ∙ ap (λ (d : List ℕ × List SseEvent). finish (d.0, first.1 ++ d.1))
          (drain-fuel k (length (first.0 ++ later)) (first.0 ++ later)
            (omega (arith, length-append first.0 later, left.1)) (omega arith))

  feed-drained :
      (p : SseParser) (bytes : List ℕ) → split_block (feed from_utf8_lossy p bytes).0.buf ≡ none
  unfolding feed
  feed-drained p bytes =
      let all = p.buf ++ without_cr bytes in (drain-drained (length all) all (omega arith)).0

  feed-nothing : (p : SseParser) → split_block p.buf ≡ none → feed from_utf8_lossy p [] ≡ (p, [])
  unfolding feed without_cr
  feed-nothing p h =
      ap (λ bs. finish (drain from_utf8_lossy (length bs) bs)) (append-nil p.buf)
      ∙ ap finish (drain-none (length p.buf) p.buf h)

  -- A parser that has no whole block pending makes of any chunks the events and the pending bytes
  -- that it makes of the same bytes in one chunk, and has no whole block pending after them.
  pub feed_all-concat :
      (p : SseParser) (chunks : List (List ℕ))
      → split_block p.buf ≡ none
      → (feed_all p chunks ≡ feed from_utf8_lossy p (concat chunks))
        × (split_block (feed_all p chunks).0.buf ≡ none)
  unfolding feed_all
  feed_all-concat p [] h = (sym (feed-nothing p h), h)
  feed_all-concat p (chunk ∷ chunks) h =
      let first = feed from_utf8_lossy p chunk in
      let rest = feed_all-concat first.0 chunks (feed-drained p chunk) in
      (
        ap (λ (r : SseParser × List SseEvent). (r.0, first.1 ++ r.1)) rest.0
            ∙ sym (feed-append p chunk (concat chunks)),
        rest.1,
      )
