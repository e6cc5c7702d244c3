-- ===== src/Tokens/Owner.antt =====
-- crates/gatewayctl/src/token.rs, `authorize`: who is admitted on a token.
use smallgateway.Prelude.{
  ℕ, ◌≡◌, refl, inl, inr, ap, sym, ◌∙◌, String, true, false, Option, none, some, List, [], ◌∷◌,
  arith, leb, str_eq, eq_iff, if◌then◌else◌, Result, ok, err, Bool-cases, Option-cases,
}
use mathlib.Core.Path.{subst}
use smallgateway.Prelude.Order.{text_ord}
use smallgateway.Prelude.BTree.{get, insert, get-insert, get-insert_self}
use smallgateway.Waves.{Labels}
use smallgateway.Tokens.{
  Token, AuthError, already_used, expired, unknown, Admission, fresh_join, reconnect, JoinTokens,
  is_bound_to, burned, present, authorize,
}

abbrev pub owner_of : Token → Option String
owner_of token = if token.used then token.bound_node else none

-- the node that burned the token, where it is burned
unfoldable pub owner : JoinTokens → String → Option String
owner t secret = elim (get secret t.tokens) [ none ↦ none | some token ↦ owner_of token ]

-- what a presentation of the token by a node says of the owners before and after
abbrev Moves :
    Option String → String → Result AuthError (Labels × Admission) → Option String → Type 0
Moves before node_id (err e) after = after ≡ before
Moves before node_id (ok (labels, fresh_join)) after = (before ≡ none) × (after ≡ some node_id)
Moves before node_id (ok (labels, reconnect)) after =
    (before ≡ some node_id) × (after ≡ some node_id)

bound-Moves :
    (token : Token) (node_id : String) (o : Option String)
    → o ≡ token.bound_node
    → Moves o node_id
        (if is_bound_to token node_id then ok (token.labels, reconnect) else err already_used)
        o
unfolding is_bound_to
bound-Moves token node_id o e = elim (Option-cases token.bound_node) [
  | inl free ↦ rw free refl
  | inr (n, bound) ↦ elim (Bool-cases (str_eq n node_id)) [
    | inl same ↦
        let owned = e ∙ bound ∙ ap some ((eq_iff n node_id).0 same) in
        rw (bound, same) (owned, owned)
    | inr other ↦ rw (bound, other) refl
  ]
]

owner-found :
    (t : JoinTokens) (secret : String) (token : Token)
    → get secret t.tokens ≡ some token
    → owner t secret ≡ owner_of token
unfolding owner
owner-found t secret token found = rw (found, owner) refl

abbrev IsMove :
    String → String → Option String → JoinTokens × Result AuthError (Labels × Admission) → Type 0
IsMove node_id secret before o = Moves before node_id o.1 (owner o.0 secret)

module _ (t : JoinTokens) (node_id secret : String) (now : ℕ) (token : Token) where
  abbrev shown : JoinTokens × Result AuthError (Labels × Admission)
  shown = present t node_id secret now token

  present-used :
      token.used ≡ true
      → shown
        ≡ (t, if is_bound_to token node_id then ok (token.labels, reconnect) else err already_used)
  unfolding present
  present-used used = ground (arith, used)

  present-late : token.used ≡ false → leb token.expires_at now ≡ true → shown ≡ (t, err expired)
  unfolding present
  present-late fresh late = ground (arith, fresh, late)

  present-live :
      token.used ≡ false
      → leb token.expires_at now ≡ false
      → shown ≡ (
        record t { tokens = insert secret (burned token node_id) t.tokens },
        ok (token.labels, fresh_join),
      )
  unfolding present
  present-live fresh live = ground (arith, fresh, live)

  owner-burned :
      owner (record t { tokens = insert secret (burned token node_id) t.tokens }) secret
      ≡ some node_id
  owner-burned =
      owner-found (record t { tokens = insert secret (burned token node_id) t.tokens }) secret
        (burned token node_id) (get-insert_self secret (burned token node_id) t.tokens)

  present-Moves : get secret t.tokens ≡ some token → IsMove node_id secret (owner t secret) shown
  present-Moves found =
      let own = owner-found t secret token found in
      elim (Bool-cases token.used) [
        | inl used ↦
            subst (IsMove node_id secret (owner t secret)) (sym (present-used used))
              (bound-Moves token node_id (owner t secret) (own ∙ ground (arith, used)))
        | inr fresh ↦ elim (Bool-cases (leb token.expires_at now)) [
          | inl late ↦
              subst (IsMove node_id secret (owner t secret)) (sym (present-late fresh late)) refl
          | inr live ↦
              subst (IsMove node_id secret (owner t secret)) (sym (present-live fresh live))
                (own ∙ ground (arith, fresh), owner-burned)
        ]
      ]

module _ (t : JoinTokens) (node_id secret : String) (now : ℕ) where
  authorize-missing : get secret t.tokens ≡ none → authorize t node_id secret now ≡ (t, err unknown)
  unfolding authorize
  authorize-missing missing = rw (missing, authorize)

  authorize-found :
      (token : Token)
      → get secret t.tokens ≡ some token
      → authorize t node_id secret now ≡ present t node_id secret now token
  unfolding authorize
  authorize-found token found = rw (found, authorize)

authorize-Moves :
    (t : JoinTokens) (node_id secret : String) (now : ℕ)
    → IsMove node_id secret (owner t secret) (authorize t node_id secret now)
authorize-Moves t node_id secret now = elim (Option-cases (get secret t.tokens)) [
  | inl missing ↦ rw (authorize-missing t node_id secret now missing) refl
  | inr (token, found) ↦
      rw (authorize-found t node_id secret now token found)
        (present-Moves t node_id secret now token found)
]

present-other :
    (t : JoinTokens) (node_id secret other : String) (now : ℕ) (token : Token)
    → str_eq secret other ≡ false
    → owner (present t node_id secret now token).0 other ≡ owner t other
unfolding present owner
present-other t node_id secret other now token h = ground (
  arith,
  h,
  get-insert secret other (burned token node_id) t.tokens,
  text_ord.eq_of_cmp other secret,
  eq_iff secret other,
)

authorize-other :
    (t : JoinTokens) (node_id secret other : String) (now : ℕ)
    → str_eq secret other ≡ false
    → owner (authorize t node_id secret now).0 other ≡ owner t other
authorize-other t node_id secret other now h = elim (Option-cases (get secret t.tokens)) [
  | inl missing ↦ rw (authorize-missing t node_id secret now missing) refl
  | inr (token, found) ↦
      rw (authorize-found t node_id secret now token found)
        (present-other t node_id secret other now token h)
]

-- the hellos, each with its node, its token and the time, and those that were admitted on a token
unfoldable pub admitted :
    String → JoinTokens → List (String × String × ℕ) → List (String × Admission)
admitted secret t [] = []
admitted secret t ((node_id, shown, now) ∷ hellos) =
    let o = authorize t node_id shown now in
    let rest = admitted secret o.0 hellos in
    if str_eq shown secret
    then elim (o.1) [ err e ↦ rest | ok (labels, a) ↦ (node_id, a) ∷ rest ]
    else rest

-- one node joins, unless the token has its owner, and from then on only the owner reconnects
abbrev pub HasOneOwner : Option String → List (String × Admission) → Type 0
HasOneOwner o [] = Unit
HasOneOwner o ((node_id, fresh_join) ∷ entries) = (o ≡ none) × HasOneOwner (some node_id) entries
HasOneOwner o ((node_id, reconnect) ∷ entries) = (o ≡ some node_id) × HasOneOwner o entries

Moves-HasOneOwner :
    (before after : Option String) (node_id : String) (r : Result AuthError (Labels × Admission))
    → (rest : List (String × Admission)) → Moves before node_id r after
    → HasOneOwner after rest
    → HasOneOwner before (elim r [ err e ↦ rest | ok (labels, a) ↦ (node_id, a) ∷ rest ])
Moves-HasOneOwner before after node_id (err e) rest m h = subst (λ o. HasOneOwner o rest) m h
Moves-HasOneOwner before after node_id (ok (labels, fresh_join)) rest m h =
    (m.0, subst (λ o. HasOneOwner o rest) m.1 h)
Moves-HasOneOwner before after node_id (ok (labels, reconnect)) rest m h =
    (m.0, subst (λ o. HasOneOwner o rest) (m.1 ∙ sym m.0) h)

-- Whatever hellos come at whatever times, a token lets one node join, unless it has an owner from before,
-- and from then on only that node reconnects on it: a second join on the token, or a hello of another
-- node with it, is refused.
pub admitted-HasOneOwner :
    (secret : String) (t : JoinTokens) (hellos : List (String × String × ℕ))
    → HasOneOwner (owner t secret) (admitted secret t hellos)
unfolding admitted
admitted-HasOneOwner secret t [] = tt
admitted-HasOneOwner secret t ((node_id, shown, now) ∷ hellos) =
    let o = authorize t node_id shown now in
    let rest = admitted-HasOneOwner secret o.0 hellos in
    elim (Bool-cases (str_eq shown secret)) [
      | inr other ↦ rw other (
          subst (λ x. HasOneOwner x (admitted secret o.0 hellos))
            (authorize-other t node_id shown secret now other) rest)
      | inl same ↦
          let moves =
            subst (λ k. Moves (owner t k) node_id o.1 (owner o.0 k)) ((eq_iff shown secret).0 same)
              (authorize-Moves t node_id shown now) in
          rw same (
            Moves-HasOneOwner (owner t secret) (owner o.0 secret) node_id o.1
              (admitted secret o.0 hellos) moves rest)
    ]
