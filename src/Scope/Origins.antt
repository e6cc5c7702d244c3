-- ===== src/Scope/Origins.antt =====
-- crates/gateway-core/src/scope.rs, `compose`: the check that no key has two origins down a chain.
use mathlib.Core.Path.{subst}
use smallgateway.Prelude.{
  ◌≡◌, ◌⊎◌, inl, inr, refl, ap, sym, ◌∙◌, String, true, false, Option, none, some, List, [], ◌∷◌,
  ◌++◌, All, arith, if◌then◌else◌, str_eq, str_mem, eq_iff, eq_refl, Option-cases, Bool-cases,
}
use smallgateway.Prelude.Order.{text_ord}
use smallgateway.Prelude.BTree.{get, insert, keys, get-insert}
use smallgateway.Scope.{
  Layer, Rejections, OriginKind, pinned, claim, derived, same_kind, KeyOrigins, note_key, note_keys,
  note_layer, origins_of, contradictory_pin, compose,
}

-- the kind of a key, once it is known
abbrev kind_of : KeyOrigins → String → Option OriginKind
kind_of o key = elim (get key o.origin) [ none ↦ none | some e ↦ some (e.0) ]

-- whoever later adds keys finds no error before, and keeps the kinds
abbrev Extends : KeyOrigins → KeyOrigins → Type 0
Extends o o' =
    o'.errs ≡ []
    → (o.errs ≡ [])
      × ((key : String) (kind : OriginKind)
          → kind_of o key ≡ some kind
          → kind_of o' key ≡ some kind)

same_kind-eq : (a b : OriginKind) → same_kind a b ≡ true → a ≡ b
same_kind-eq a b h = ground arith

append_empty : {A : Type 0} (xs ys : List A) → xs ++ ys ≡ [] → xs ≡ []
append_empty [] ys h = refl
append_empty (x ∷ xs) ys h = ground arith

append_one_absurd : {A : Type 0} (xs : List A) (x : A) → ¬ (xs ++ x ∷ [] ≡ [])
append_one_absurd [] x = λ h. ground arith
append_one_absurd (y ∷ ys) x = λ h. ground arith

kind_of-insert :
    (name : String) (kind : OriginKind) (o : KeyOrigins) (key j : String)
    → kind_of (record o { origin = insert key (kind, name) o.origin }) j
      ≡ (if str_eq key j then some kind else kind_of o j)
kind_of-insert name kind o key j = ground (
  arith,
  get-insert key j (kind, name) o.origin,
  text_ord.eq_of_cmp j key,
  text_ord.cmp_refl j,
  eq_iff key j,
)

note_key-new :
    (name : String) (kind : OriginKind) (o : KeyOrigins) (key : String)
    → get key o.origin ≡ none
    → note_key name kind o key ≡ record o { origin = insert key (kind, name) o.origin }
unfolding note_key
note_key-new name kind o key h = rw (h, note_key)

note_key-known :
    (name : String) (kind : OriginKind) (o : KeyOrigins) (key : String) (e : OriginKind × String)
    → get key o.origin ≡ some e
    → note_key name kind o key ≡ (
        if same_kind e.0 kind
        then record o { origin = insert key (kind, name) o.origin }
        else record o { errs = o.errs ++ contradictory_pin key e.0 e.1 kind name ∷ [] })
unfolding note_key
note_key-known name kind o key e h = rw (h, note_key)

note_key-clash :
    (name : String) (kind : OriginKind) (o : KeyOrigins) (key : String) (e : OriginKind × String)
    → get key o.origin ≡ some e
    → same_kind e.0 kind ≡ false
    → (note_key name kind o key).errs ≡ o.errs ++ contradictory_pin key e.0 e.1 kind name ∷ []
unfolding note_key
note_key-clash name kind o key e h other = rw (h, note_key) (ground (arith, other))

note_key-kind :
    (name : String) (kind : OriginKind) (o : KeyOrigins) (key : String)
    → (note_key name kind o key).errs ≡ []
    → (note_key name kind o key ≡ record o { origin = insert key (kind, name) o.origin })
      × ((kind_of o key ≡ none) ⊎ (kind_of o key ≡ some kind))
note_key-kind name kind o key h = elim (Option-cases (get key o.origin)) [
  | inl a ↦ (note_key-new name kind o key a, inl (rw (kind_of, a) refl))
  | inr (e, a) ↦ elim (Bool-cases (same_kind e.0 kind)) [
    | inl same ↦ (
      note_key-known name kind o key e a ∙ rw same refl,
      inr (ground (arith, a, same_kind-eq e.0 kind same)),
    )
    | inr other ↦ absurd (
        append_one_absurd o.errs (contradictory_pin key e.0 e.1 kind name)
          (sym (note_key-clash name kind o key e a other) ∙ h))
  ]
]

Extends-trans : (a b c : KeyOrigins) → Extends a b → Extends b c → Extends a c
Extends-trans a b c p q h =
    let second = q h in
    let first = p second.0 in
    (first.0, λ key kind known. second.1 key kind (first.1 key kind known))

note_key-errs :
    (name : String) (kind : OriginKind) (o : KeyOrigins) (key : String)
    → Extends o (note_key name kind o key)
note_key-errs name kind o key h =
    let known = note_key-kind name kind o key h in
    (
      sym (ap (λ (x : KeyOrigins). x.errs) known.0) ∙ h,
      λ j k found.
          ap (λ x. kind_of x j) known.0
          ∙ kind_of-insert name kind o key j
          ∙ ground (arith, known.1, found, eq_iff key j),
    )

note_key-sets :
    (name : String) (kind : OriginKind) (o : KeyOrigins) (key : String)
    → (note_key name kind o key).errs ≡ []
    → kind_of (note_key name kind o key) key ≡ some kind
note_key-sets name kind o key h =
    ap (λ x. kind_of x key) (note_key-kind name kind o key h).0
    ∙ kind_of-insert name kind o key key
    ∙ ground (arith, eq_refl key)

note_keys-Extends :
    (name : String) (kind : OriginKind) (o : KeyOrigins) (ks : List String)
    → Extends o (note_keys name kind o ks)
unfolding note_keys
note_keys-Extends name kind o [] = λ h. (h, λ j k found. found)
note_keys-Extends name kind o (key ∷ ks) =
    Extends-trans o (note_key name kind o key) (note_keys name kind (note_key name kind o key) ks)
      (note_key-errs name kind o key) (note_keys-Extends name kind (note_key name kind o key) ks)

note_keys-sets :
    (name : String) (kind : OriginKind) (o : KeyOrigins) (ks : List String) (key : String)
    → (note_keys name kind o ks).errs ≡ []
    → str_mem key ks ≡ true
    → kind_of (note_keys name kind o ks) key ≡ some kind
unfolding note_keys
note_keys-sets name kind o [] key h member = ground arith
note_keys-sets name kind o (j ∷ ks) key h member = elim (Bool-cases (str_eq j key)) [
  | inl here ↦
      let rest = note_keys-Extends name kind (note_key name kind o j) ks h in
      rest.1 key kind (
        subst (λ k. kind_of (note_key name kind o j) k ≡ some kind)
          (ground (arith, eq_iff j key, here)) (note_key-sets name kind o j rest.0))
  | inr there ↦
      note_keys-sets name kind (note_key name kind o j) ks key h (ground (arith, there, member))
]

module _ {R : Type 0} where
  -- the keys that a layer sets in one way
  abbrev pub set_keys : Layer R → OriginKind → List String
  set_keys l pinned = keys l.pinned_values
  set_keys l claim = keys l.from_claims
  set_keys l derived = keys l.derived_values

  abbrev Sets : KeyOrigins → String → Layer R → Type 0
  Sets o key l =
      (kind : OriginKind) → str_mem key (set_keys l kind) ≡ true → kind_of o key ≡ some kind

  note_layer-Extends : (o : KeyOrigins) (l : Layer R) → Extends o (note_layer o l)
  unfolding note_layer
  note_layer-Extends o l =
      let one = note_keys l.name pinned o (keys l.pinned_values) in
      let two = note_keys l.name claim one (keys l.from_claims) in
      Extends-trans o two (note_layer o l)
        (Extends-trans o one two (note_keys-Extends l.name pinned o (keys l.pinned_values))
          (note_keys-Extends l.name claim one (keys l.from_claims)))
        (note_keys-Extends l.name derived two (keys l.derived_values))

  note_layer-Sets :
      (o : KeyOrigins) (l : Layer R) (key : String)
      → (note_layer o l).errs ≡ []
      → Sets (note_layer o l) key l
  unfolding note_layer
  note_layer-Sets o l key h kind =
      let one = note_keys l.name pinned o (keys l.pinned_values) in
      let two = note_keys l.name claim one (keys l.from_claims) in
      let third = note_keys-Extends l.name derived two (keys l.derived_values) h in
      let second = note_keys-Extends l.name claim one (keys l.from_claims) third.0 in
      elim kind
        as (λ k. str_mem key (set_keys l k) ≡ true → kind_of (note_layer o l) key ≡ some k) [
          | pinned ↦ λ member. third.1 key pinned (
              second.1 key pinned
                (note_keys-sets l.name pinned o (keys l.pinned_values) key second.0 member))
          | claim ↦ λ member.
              third.1 key claim
                (note_keys-sets l.name claim one (keys l.from_claims) key third.0 member)
          | derived ↦
              λ member. note_keys-sets l.name derived two (keys l.derived_values) key h member
        ]

  origins_of-Sets :
      (o : KeyOrigins) (chain : List (Layer R)) (key : String)
      → (origins_of o chain).errs ≡ []
      → Extends o (origins_of o chain) × All (Sets (origins_of o chain) key) chain
  unfolding origins_of
  origins_of-Sets o [] key h = (λ e. (e, λ j k found. found), tt)
  origins_of-Sets o (l ∷ chain) key h =
      let rest = origins_of-Sets (note_layer o l) chain key h in
      let after = rest.0 h in
      (
        Extends-trans o (note_layer o l) (origins_of (note_layer o l) chain)
            (note_layer-Extends o l) rest.0,
        (λ kind member. after.1 key kind (note_layer-Sets o l key after.0 kind member), rest.1),
      )

  -- the layer sets the key in no way but this one
  abbrev pub SetsOnly : String → OriginKind → Layer R → Type 0
  SetsOnly key kind l = (other : OriginKind) → str_mem key (set_keys l other) ≡ true → other ≡ kind

  only_kind :
      (o : KeyOrigins) (key : String) (kind : OriginKind) (chain : List (Layer R))
      → ((other : OriginKind) → kind_of o key ≡ some other → other ≡ kind)
      → All (Sets o key) chain
      → All (SetsOnly key kind) chain
  only_kind o key kind [] same sets = tt
  only_kind o key kind (l ∷ chain) same sets =
      (λ other member. same other (sets.0 other member), only_kind o key kind chain same sets.1)

  some_kind :
      (o : KeyOrigins) (key : String) (chain : List (Layer R))
      → All (Sets o key) chain
      → (kind : OriginKind) × All (SetsOnly key kind) chain
  some_kind o key chain sets = elim (Option-cases (kind_of o key)) [
    | inl unknown ↦ (
      pinned,
      only_kind o key pinned chain (λ other found. absurd (nowhere other (sym unknown ∙ found)))
          sets,
    )
    | inr (kind, known) ↦
        (kind, only_kind o key kind chain (λ other found. only (sym found ∙ known)) sets)
  ]
    where
      nowhere : (k : OriginKind) → ¬ (none ≡ some k)
      nowhere k = λ e. cc

      only : {a b : OriginKind} → some a ≡ some b → a ≡ b
      only e = cc

  -- Where composing a chain gives no error, each key has one origin down the whole chain: the layers
  -- that set it all pin it, or all map a claim to it, or all derive it.
  pub compose-one_origin :
      (d : R) (rejections : Rejections R) (chain : List (Layer R)) (key : String)
      → (compose d rejections chain).1 ≡ []
      → (kind : OriginKind) × All (SetsOnly key kind) chain
  unfolding compose
  compose-one_origin d rejections chain key h =
      some_kind (origins_of (record { origin = []; errs = [] }) chain) key chain
        (origins_of-Sets (record { origin = []; errs = [] }) chain key (append_empty _ _ h)).1
