-- ===== src/Waves/Parse.antt =====
-- crates/gatewayctl/src/waves.rs, `parse_wave_plan`, and the names of the waves of `assign`.
use smallgateway.Prelude.{
  ◌≤◌, ◌≡◌, inl, inr, refl, String, false, none, some, List, [], ◌∷◌, ◌++◌, map, arith, str_eq,
  str_mem, length, All, Result, err, ok, Ensures, Ensures-bind, Ensures-mono, is_blank, eq_iff,
  Option-cases, Bool-cases,
}
use smallgateway.Prelude.BTree.{BTreeMap}
use smallgateway.Waves.{
  SelectorTerm, Wave, WavePlan, AssignedWave, Node, SelectorValue, one, many, WaveEntry, WavesFile,
  bad_yaml, duplicate_name, implicit_final_wave, single, implicit_final, named_waves, final_wave,
  assign, terms_of, wave_of, waves_of, duplicate, plan_of, parse_wave_plan,
}

-- no text stands twice in the list
abbrev pub AllDistinct : List String → Type 0
AllDistinct [] = Unit
AllDistinct (x ∷ xs) = (str_mem x xs ≡ false) × AllDistinct xs

-- a term accepts at least one value
abbrev pub IsSelective : Wave → Type 0
IsSelective w = All (λ (t : SelectorTerm). 1 ≤ length t.in_values) w.selector.terms

abbrev pub names : List Wave → List String
names waves = map (λ (w : Wave). w.name) waves

-- a name an operator may give: not blank and not the reserved one
abbrev pub IsNamed : Wave → Type 0
IsNamed w = (is_blank w.name ≡ false) × (str_eq w.name implicit_final ≡ false)

abbrev pub IsValid : WavePlan → Type 0
IsValid p =
    (1 ≤ length p.waves)
    × All IsNamed p.waves
    × All IsSelective p.waves
    × AllDistinct (names p.waves)

abbrev pub AreSelective : List SelectorTerm → Type 0
AreSelective terms = All (λ (t : SelectorTerm). 1 ≤ length t.in_values) terms

terms_of-AreSelective :
    (name : String) (selector : BTreeMap String SelectorValue)
    → Ensures AreSelective (terms_of name selector)
unfolding terms_of
terms_of-AreSelective name [] = tt
terms_of-AreSelective name ((label, one v) ∷ rest) =
    Ensures-bind AreSelective AreSelective (terms_of name rest) _ (terms_of-AreSelective name rest)
      (λ terms h. (omega arith, h))
terms_of-AreSelective name ((label, many []) ∷ rest) = tt
terms_of-AreSelective name ((label, many (v ∷ vs)) ∷ rest) =
    Ensures-bind AreSelective AreSelective (terms_of name rest) _ (terms_of-AreSelective name rest)
      (λ terms h. (omega arith, h))

abbrev IsGood : Wave → Type 0
IsGood w = IsNamed w × IsSelective w

wave_of-IsGood : (entry : WaveEntry) → Ensures IsGood (wave_of entry)
unfolding wave_of
wave_of-IsGood entry = elim (Bool-cases (is_blank entry.name)) [
  | inl blank ↦ rw blank tt
  | inr named ↦ elim (Bool-cases (str_eq entry.name implicit_final)) [
    | inl reserved ↦ rw (named, reserved) tt
    | inr free ↦
        rw (named, free)
          (Ensures-bind AreSelective IsGood (terms_of entry.name entry.selector) _
            (terms_of-AreSelective entry.name entry.selector) (λ terms h. ((named, free), h)))
  ]
]

waves_of-IsGood :
    (entries : List WaveEntry)
    → Ensures (λ ws. (length ws ≡ length entries) × All IsGood ws) (waves_of entries)
unfolding waves_of
waves_of-IsGood [] = (refl, tt)
waves_of-IsGood (entry ∷ rest) =
    Ensures-bind IsGood (λ ws. (length ws ≡ length (entry ∷ rest)) × All IsGood ws) (wave_of entry)
      _ (wave_of-IsGood entry)
      (λ w good.
        Ensures-bind (λ ws. (length ws ≡ length rest) × All IsGood ws)
          (λ ws. (length ws ≡ length (entry ∷ rest)) × All IsGood ws) (waves_of rest) _
          (waves_of-IsGood rest) (λ ws h. (omega (arith, h.0), (good, h.1))))

-- the waves whose names are not in the list
abbrev Avoids : List String → List Wave → Type 0
Avoids seen waves = All (λ (w : Wave). str_mem w.name seen ≡ false) waves

Avoids-tail :
    (x : String) (seen : List String) (waves : List Wave)
    → Avoids (x ∷ seen) waves
    → (Avoids seen waves) × (str_mem x (names waves) ≡ false)
Avoids-tail x seen [] h = (tt, refl)
Avoids-tail x seen (w ∷ waves) h =
    ground (arith, Avoids-tail x seen waves h.1, eq_iff w.name x, eq_iff x w.name)

duplicate-none :
    (seen : List String) (waves : List Wave)
    → duplicate seen waves ≡ none
    → Avoids seen waves × AllDistinct (names waves)
unfolding duplicate
duplicate-none seen [] h = (tt, tt)
duplicate-none seen (w ∷ waves) h = elim (Bool-cases (str_mem w.name seen)) [
  | inl twice ↦ ground (arith, twice)
  | inr fresh ↦
      ground (arith, fresh, duplicate-none (w.name ∷ seen) waves, Avoids-tail w.name seen waves)
]

All-IsGood : (waves : List Wave) → All IsGood waves → All IsNamed waves × All IsSelective waves
All-IsGood [] h = (tt, tt)
All-IsGood (w ∷ waves) h = let rest = All-IsGood waves h.1 in ((h.0.0, rest.0), (h.0.1, rest.1))

single-IsValid : IsValid single
unfolding is_blank
single-IsValid = (omega arith, ((refl, refl), tt), (tt, tt), (refl, tt))

plan_of-IsValid :
    (entry : WaveEntry) (rest : List WaveEntry) → Ensures IsValid (plan_of (entry ∷ rest))
unfolding plan_of
plan_of-IsValid entry rest =
    Ensures-bind Held IsValid (waves_of (entry ∷ rest)) _ (waves_of-IsGood (entry ∷ rest))
      (λ waves good. distinct waves good)
  where
    Held : List Wave → Type 0
    Held waves = (length waves ≡ length (entry ∷ rest)) × All IsGood waves

    distinct :
        (waves : List Wave)
        → Held waves
        → Ensures IsValid (elim (duplicate [] waves) [
          | some name ↦ err (duplicate_name name)
          | none ↦ ok (record { waves = waves; unmatched = implicit_final_wave })
        ])
    distinct waves good = elim (Option-cases (duplicate [] waves)) [
      | inl free ↦ rw free (
          let parts = All-IsGood waves good.1 in
          (omega (arith, good.0), parts.0, parts.1, (duplicate-none [] waves free).1))
      | inr (name, twice) ↦ rw twice tt
    ]

-- Whatever the yaml parser does, a plan that `parse_wave_plan` returns has a wave, every wave has a
-- name that is neither blank nor the reserved one, no name stands twice, and no term is without
-- values.
pub parse_wave_plan-IsValid :
    (from_str : String → Result String WavesFile) (yaml : String)
    → Ensures IsValid (parse_wave_plan from_str yaml)
unfolding parse_wave_plan
parse_wave_plan-IsValid from_str yaml = elim (Bool-cases (is_blank yaml)) [
  | inl blank ↦ rw blank single-IsValid
  | inr text ↦ rw text (parsed (from_str yaml))
]
  where
    entries :
        (es : List WaveEntry)
        → Ensures IsValid (elim es [ [] ↦ ok single | entry ∷ rest ↦ plan_of (entry ∷ rest) ])
    entries [] = single-IsValid
    entries (entry ∷ rest) = plan_of-IsValid entry rest

    parsed :
        (r : Result String WavesFile)
        → Ensures IsValid (elim r [
          | err e ↦ err (bad_yaml e)
          | ok parsed ↦ elim parsed.waves [ [] ↦ ok single | entry ∷ rest ↦ plan_of (entry ∷ rest) ]
        ])
    parsed (err e) = tt
    parsed (ok file) = entries file.waves

abbrev pub assigned_names : List AssignedWave → List String
assigned_names waves = map (λ (w : AssignedWave). w.name) waves

absent :
    (x : String) (waves : List Wave) (named : List (List String)) (ids : List String)
    → str_mem x (names waves) ≡ false
    → str_eq x implicit_final ≡ false
    → str_mem x (assigned_names (named_waves waves named ++ final_wave ids)) ≡ false
unfolding named_waves final_wave
absent x [] named [] h free = refl
absent x [] named (id ∷ ids) h free =
    ground (arith, eq_iff x implicit_final, eq_iff implicit_final x)
absent x (w ∷ waves) [] [] h free = refl
absent x (w ∷ waves) [] (id ∷ ids) h free =
    ground (arith, eq_iff x implicit_final, eq_iff implicit_final x)
absent x (w ∷ waves) (i ∷ named) ids h free = ground (arith, absent x waves named ids)

named_waves-AllDistinct :
    (waves : List Wave) (named : List (List String)) (ids : List String)
    → All IsNamed waves
    → AllDistinct (names waves)
    → AllDistinct (assigned_names (named_waves waves named ++ final_wave ids))
unfolding named_waves final_wave
named_waves-AllDistinct [] named [] h d = tt
named_waves-AllDistinct [] named (id ∷ ids) h d = (refl, tt)
named_waves-AllDistinct (w ∷ waves) [] [] h d = tt
named_waves-AllDistinct (w ∷ waves) [] (id ∷ ids) h d = (refl, tt)
named_waves-AllDistinct (w ∷ waves) (i ∷ named) ids h d =
    (absent w.name waves named ids d.0 h.0.1, named_waves-AllDistinct waves named ids h.1 d.1)

-- The waves that a parsed plan assigns nodes to, the implicit final wave included, have distinct
-- names, so the commits that are recorded by wave name never stand for two waves.
pub assign-AllDistinct :
    (from_str : String → Result String WavesFile) (yaml : String) (nodes : List Node)
    → Ensures (λ p. AllDistinct (assigned_names (assign p nodes))) (parse_wave_plan from_str yaml)
unfolding assign
assign-AllDistinct from_str yaml nodes =
    Ensures-mono (parse_wave_plan from_str yaml) (parse_wave_plan-IsValid from_str yaml)
      (λ p valid. named_waves-AllDistinct p.waves _ _ valid.1 valid.3)
