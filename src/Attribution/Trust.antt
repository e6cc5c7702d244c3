-- ===== src/Attribution/Trust.antt =====
-- crates/gateway-core/src/attribution.rs, `resolve`: where the value of a tag comes from, and which
-- keys are missing.
use mathlib.Core.Path.{subst}
use smallgateway.Prelude.{
  ◌≡◌, inl, inr, refl, ap, sym, ◌∙◌, String, true, ◌||◌, Option, none, some, List, [], ◌∷◌, ◌++◌,
  map, All, arith, if◌then◌else◌, str_eq, str_mem, str_mem-append, eq_iff, eq_refl, Option-cases,
  Bool-cases, is_some,
}
use smallgateway.Prelude.Order.{text_ord}
use smallgateway.Prelude.BTree.{BTreeMap, get, keys}
use smallgateway.Attribution.{
  Origin, assigned, proven, derived, caller, Tag, Resolution, Value, Policy, insert_key, sort_keys,
  all_keys, non_empty, claimed, tagged, tag_of, add_key, resolve_keys, resolve, is_ok,
}

-- the value is what the source of its origin says, and no source before that one has the key
abbrev pub Comes :
    Policy
    → (String → Option String)
    → Option (BTreeMap String Value)
    → (String → Option String)
    → Tag
    → Type 0
Comes p caller_value claims derived_value t = elim t.origin [
  | assigned ↦ get t.key p.pinned ≡ some t.value
  | proven ↦
      (get t.key p.pinned ≡ none)
      × ((claim : String) × (get t.key p.from_claims ≡ some claim)
          × (claimed claims claim ≡ some t.value))
  | derived ↦
      (get t.key p.pinned ≡ none)
      × (get t.key p.from_claims ≡ none)
      × (is_some (get t.key p.derived) ≡ true)
      × (derived_value t.key ≡ some t.value)
  | caller ↦
      (get t.key p.pinned ≡ none)
      × (get t.key p.from_claims ≡ none)
      × (get t.key p.derived ≡ none)
      × (caller_value t.key ≡ some t.value)
]

abbrev pub tag_keys : List Tag → List String
tag_keys tags = map (λ (t : Tag). t.key) tags

non_empty-some : (o : Option String) (v : String) → non_empty o ≡ some v → o ≡ some v
unfolding non_empty
non_empty-some none v h = h
non_empty-some (some w) v h = ground arith

-- a property of the tag, where there is one
abbrev Gives : (Tag → Type 0) → Option Tag → Type 0
Gives P none = Unit
Gives P (some t) = P t

tagged-Gives :
    (P : Tag → Type 0) (key : String) (origin : Origin) (o : Option String)
    → ((v : String) → o ≡ some v → P (record { key = key; value = v; origin = origin }))
    → Gives P (tagged key origin o)
tagged-Gives P key origin none h = tt
tagged-Gives P key origin (some v) h = h v refl

module _ (p : Policy) (caller_value : String → Option String)
    (claims : Option (BTreeMap String Value)) (derived_value : String → Option String) where
  abbrev tag : String → Option Tag
  tag key = tag_of p caller_value claims derived_value key

  -- the tag is of this key, and comes from the source of its origin
  abbrev IsFor : String → Tag → Type 0
  IsFor key t = (t.key ≡ key) × Comes p caller_value claims derived_value t

  tag_of-assigned :
      (key v : String) → get key p.pinned ≡ some v → tag key ≡ tagged key assigned (some v)
  unfolding tag_of
  tag_of-assigned key v a = rw (a, tag_of)

  tag_of-proven :
      (key claim : String)
      → get key p.pinned ≡ none
      → get key p.from_claims ≡ some claim
      → tag key ≡ tagged key proven (claimed claims claim)
  unfolding tag_of
  tag_of-proven key claim a b = rw (a, b, tag_of)

  tag_of-derived :
      (key e : String)
      → get key p.pinned ≡ none
      → get key p.from_claims ≡ none
      → get key p.derived ≡ some e
      → tag key ≡ tagged key derived (non_empty (derived_value key))
  unfolding tag_of
  tag_of-derived key e a b c = rw (a, b, c, tag_of)

  tag_of-caller :
      (key : String)
      → get key p.pinned ≡ none
      → get key p.from_claims ≡ none
      → get key p.derived ≡ none
      → tag key ≡ tagged key caller (non_empty (caller_value key))
  unfolding tag_of
  tag_of-caller key a b c = rw (a, b, c, tag_of)

  tag_of-Gives : (key : String) → Gives (IsFor key) (tag key)
  tag_of-Gives key = elim (Option-cases (get key p.pinned)) [
    | inr (v, a) ↦ subst (Gives (IsFor key)) (sym (tag_of-assigned key v a)) (refl, a)
    | inl a ↦ elim (Option-cases (get key p.from_claims)) [
      | inr (claim, b) ↦ subst (Gives (IsFor key)) (sym (tag_of-proven key claim a b)) (
          tagged-Gives (IsFor key) key proven (claimed claims claim)
            (λ v e. (refl, (a, (claim, b, e)))))
      | inl b ↦ elim (Option-cases (get key p.derived)) [
        | inr (x, c) ↦ subst (Gives (IsFor key)) (sym (tag_of-derived key x a b c)) (
            tagged-Gives (IsFor key) key derived (non_empty (derived_value key))
              (λ v e. (refl, (a, b, ap is_some c, non_empty-some (derived_value key) v e))))
        | inl c ↦ subst (Gives (IsFor key)) (sym (tag_of-caller key a b c)) (
            tagged-Gives (IsFor key) key caller (non_empty (caller_value key))
              (λ v e. (refl, (a, b, c, non_empty-some (caller_value key) v e))))
      ]
    ]
  ]

  add_key-some :
      (key : String) (t : Tag) (rest : Resolution)
      → tag key ≡ some t
      → add_key p caller_value claims derived_value key rest ≡ record rest { tags = t ∷ rest.tags }
  unfolding add_key
  add_key-some key t rest h = rw (h, add_key)

  add_key-none :
      (key : String) (rest : Resolution)
      → tag key ≡ none
      → add_key p caller_value claims derived_value key rest ≡ (
          if str_mem key p.required_keys
          then record rest { missing = key ∷ rest.missing }
          else rest)
  unfolding add_key
  add_key-none key rest h = rw (h, add_key)

  abbrev over : List String → Resolution
  over ks = resolve_keys p caller_value claims derived_value ks

  over-Comes : (ks : List String) → All (Comes p caller_value claims derived_value) (over ks).tags
  unfolding resolve_keys
  over-Comes [] = tt
  over-Comes (key ∷ ks) = elim (Option-cases (tag key)) [
    | inr (t, found) ↦
        let good = subst (Gives (IsFor key)) found (tag_of-Gives key) in
        rw (add_key-some key t (over ks) found) (good.1, over-Comes ks)
    | inl lost ↦ elim (Bool-cases (str_mem key p.required_keys)) [
      | inl needed ↦ rw (add_key-none key (over ks) lost, needed) (over-Comes ks)
      | inr free ↦ rw (add_key-none key (over ks) lost, free) (over-Comes ks)
    ]
  ]

  -- a key that was gone through is tagged, or missing, or was not required
  over-covers :
      (ks : List String) (k : String)
      → str_mem k ks ≡ true
      → str_mem k p.required_keys ≡ true
      → (str_mem k (tag_keys (over ks).tags) || str_mem k (over ks).missing) ≡ true
  unfolding resolve_keys
  over-covers [] k h needed = ground arith
  over-covers (key ∷ ks) k h needed = elim (Option-cases (tag key)) [
    | inr (t, found) ↦
        let good = subst (Gives (IsFor key)) found (tag_of-Gives key) in
        rw (add_key-some key t (over ks) found)
          (ground (arith, good.0, eq_iff key k, eq_iff t.key k, over-covers ks k))
    | inl lost ↦
        rw (add_key-none key (over ks) lost)
          (ground (arith, eq_iff key k, eq_refl k, over-covers ks k))
  ]

  -- a required key for which no source has a value
  abbrev pub IsMissing : String → Type 0
  IsMissing k =
      (str_mem k p.required_keys ≡ true) × (tag_of p caller_value claims derived_value k ≡ none)

  over-IsMissing : (ks : List String) → All IsMissing (over ks).missing
  unfolding resolve_keys
  over-IsMissing [] = tt
  over-IsMissing (key ∷ ks) = elim (Option-cases (tag key)) [
    | inr (t, found) ↦ rw (add_key-some key t (over ks) found) (over-IsMissing ks)
    | inl lost ↦ elim (Bool-cases (str_mem key p.required_keys)) [
      | inl needed ↦ rw (add_key-none key (over ks) lost) (
          subst
            (λ b.
              All IsMissing
                (if b
                  then record (over ks) { missing = key ∷ (over ks).missing }
                  else over ks).missing)
            (sym needed) ((needed, lost), over-IsMissing ks))
      | inr free ↦ rw (add_key-none key (over ks) lost, free) (over-IsMissing ks)
    ]
  ]

  -- Every tag of a resolution has the value that the source of its origin gave, and a source is
  -- asked only for keys that no source before it is named for: a pin, then a mapped claim, then a
  -- derivation, then the caller. So what the caller sends for a pinned, mapped or derived key is
  -- never used.
  pub resolve-Comes :
      All
        (Comes p caller_value claims derived_value)
        (resolve p caller_value claims derived_value).tags
  unfolding resolve
  resolve-Comes = over-Comes (all_keys p)

  insert_key-mem :
      (k j : String) (ks : List String) → str_mem k (insert_key j ks) ≡ (str_eq j k || str_mem k ks)
  unfolding insert_key
  insert_key-mem k j [] = refl
  insert_key-mem k j (i ∷ ks) =
      ground (arith, insert_key-mem k j ks, text_ord.eq_of_cmp j i, eq_iff i k, eq_iff j k)

  sort_keys-mem : (k : String) (ks : List String) → str_mem k (sort_keys ks) ≡ str_mem k ks
  unfolding sort_keys
  sort_keys-mem k [] = refl
  sort_keys-mem k (j ∷ ks) = ground (arith, insert_key-mem k j (sort_keys ks), sort_keys-mem k ks)

  required-all_keys :
      (k : String) → str_mem k p.required_keys ≡ true → str_mem k (all_keys p) ≡ true
  unfolding all_keys
  required-all_keys k h =
      let rest = keys p.pinned ++ (keys p.from_claims ++ keys p.derived) in
      sort_keys-mem k (p.required_keys ++ rest)
      ∙ str_mem-append k p.required_keys rest
      ∙ ground (arith, h)

  -- Of a resolution: what is missing is a required key that no source has a value for, and a
  -- resolution that is missing nothing has a tag for every required key.
  pub resolve-is_ok :
      let r = resolve p caller_value claims derived_value in
      All IsMissing r.missing
      × (is_ok r ≡ true
          → (k : String) → str_mem k p.required_keys ≡ true
          → str_mem k (tag_keys r.tags) ≡ true)
  unfolding resolve is_ok
  resolve-is_ok = (
    over-IsMissing (all_keys p),
    λ fine k needed.
        complete k (over (all_keys p)) fine
          (over-covers (all_keys p) k (required-all_keys k needed) needed),
  )
    where
      complete :
          (k : String) (r : Resolution)
          → is_ok r ≡ true
          → (str_mem k (tag_keys r.tags) || str_mem k r.missing) ≡ true
          → str_mem k (tag_keys r.tags) ≡ true
      complete k r fine h = ground arith
