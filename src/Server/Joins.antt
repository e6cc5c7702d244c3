-- ===== src/Server/Joins.antt =====
-- crates/gatewayctl/src/server.rs, `session`: hellos that are refused, and streams that end late.
use smallgateway.Prelude.{
  ℕ, ◌≡◌, refl, inl, inr, ap, ◌∙◌, String, Bool, true, none, some, [], arith, leb, Result, ok, err,
  Bool-cases, Option-cases,
}
use smallgateway.Prelude.Order.{text_ord}
use smallgateway.Prelude.BTree.{get, insert, get-insert_self}
use smallgateway.Prelude.BTree.Sorted.{IsSorted, get-remove, insert-IsSorted}
use smallgateway.Waves.{Labels}
use smallgateway.Fleet.{Rendered}
use smallgateway.Tokens.{AuthError, Admission, JoinTokens, Token, present, authorize, is_bound_to}
use smallgateway.Sessions.{Sessions, open_session, close_session, push_and_await}
use smallgateway.Server.{ControlPlane, after_auth, join, leave}

-- the tokens are what they were, unless the hello is admitted
abbrev Keeps : JoinTokens → JoinTokens × Result AuthError (Labels × Admission) → Type 0
Keeps t (after, err e) = after ≡ t
Keeps t (after, ok a) = Unit

present-Keeps :
    (t : JoinTokens) (node_id secret : String) (now : ℕ) (token : Token)
    → Keeps t (present t node_id secret now token)
unfolding present is_bound_to
present-Keeps t node_id secret now token = elim (Bool-cases token.used) [
  | inl used ↦ elim (Bool-cases (is_bound_to token node_id)) [
    | inl own ↦ rw (used, own, present) tt
    | inr other ↦ rw (used, other, present) refl
  ]
  | inr fresh ↦ elim (Bool-cases (leb token.expires_at now)) [
    | inl late ↦ rw (fresh, late, present) refl
    | inr live ↦ rw (fresh, live, present) tt
  ]
]

authorize-Keeps :
    (t : JoinTokens) (node_id secret : String) (now : ℕ) → Keeps t (authorize t node_id secret now)
unfolding authorize
authorize-Keeps t node_id secret now = elim (Option-cases (get secret t.tokens)) [
  | inl missing ↦ rw (missing, authorize) refl
  | inr (token, found) ↦ rw (found, authorize) (present-Keeps t node_id secret now token)
]

after_auth-refused :
    (cp : ControlPlane) (node_id : String) (now : ℕ)
    → (auth : JoinTokens × Result AuthError (Labels × Admission)) (e : AuthError)
    → Keeps cp.tokens auth
    → (after_auth (record cp { tokens = auth.0 }) node_id now auth.1).1 ≡ err e
    → (after_auth (record cp { tokens = auth.0 }) node_id now auth.1).0 ≡ cp
after_auth-refused cp node_id now (t, err e') e kept refused =
    ap (λ t. record cp { tokens = t }) kept
after_auth-refused cp node_id now (t, ok (labels, admission)) e kept refused = absurd (cc)

-- A hello that is refused, for whatever reason, changes nothing in the control plane: it burns no token,
-- and opens no session.
pub join-refused :
    (cp : ControlPlane) (node_id join_token : String) (now : ℕ) (e : AuthError)
    → (join cp node_id join_token now).1 ≡ err e
    → (join cp node_id join_token now).0 ≡ cp
unfolding join
join-refused cp node_id join_token now e refused =
    after_auth-refused cp node_id now (authorize cp.tokens node_id join_token now) e
      (authorize-Keeps cp.tokens node_id join_token now) refused

abbrev HasOpened : ControlPlane → String → ControlPlane × Result AuthError Rendered → Type 0
HasOpened cp node_id (after, err e) = Unit
HasOpened cp node_id (after, ok rendered) = after.sessions ≡ open_session cp.sessions node_id

after_auth-HasOpened :
    (cp : ControlPlane) (t : JoinTokens) (node_id : String) (now : ℕ)
    → (r : Result AuthError (Labels × Admission))
    → HasOpened cp node_id (after_auth (record cp { tokens = t }) node_id now r)
after_auth-HasOpened cp t node_id now (err e) = tt
after_auth-HasOpened cp t node_id now (ok (labels, admission)) = refl

opened :
    (cp : ControlPlane) (node_id : String) (o : ControlPlane × Result AuthError Rendered)
    (r : Rendered)
    → HasOpened cp node_id o
    → o.1 ≡ ok r
    → o.0.sessions ≡ open_session cp.sessions node_id
opened cp node_id (after, err e) r h admitted = absurd (cc)
opened cp node_id (after, ok rendered) r h admitted = h

push-waits :
    (s : Sessions) (node_id : String) (version : ℕ)
    → (push_and_await (open_session s node_id) node_id version true).1 ≡ some s.push_seq
unfolding push_and_await open_session
push-waits s node_id version = rw (get-insert_self, push_and_await) refl

closed-gone :
    (s : Sessions) (node_id : String)
    → IsSorted s.table
    → get node_id (close_session (open_session s node_id) node_id).table ≡ none
unfolding close_session open_session
closed-gone s node_id h = ground (
  arith,
  get-remove node_id node_id (insert node_id [] s.table) (insert-IsSorted node_id [] s.table h),
  text_ord.cmp_refl node_id,
)

push-gone :
    (s : Sessions) (node_id : String) (version : ℕ) (sends : Bool)
    → get node_id s.table ≡ none
    → (push_and_await s node_id version sends).1 ≡ none
unfolding push_and_await
push-gone s node_id version sends gone = rw (gone, push_and_await) refl

push-lost :
    (s : Sessions) (node_id : String) (version : ℕ) (sends : Bool)
    → IsSorted s.table
    → (push_and_await (close_session (open_session s node_id) node_id) node_id version sends).1
      ≡ none
push-lost s node_id version sends h =
    push-gone (close_session (open_session s node_id) node_id) node_id version sends
      (closed-gone s node_id h)

pub late_leave-push_and_await :
    (cp : ControlPlane) (node_id join_token : String) (now later version : ℕ) (sends : Bool)
    → (rendered : Rendered) → IsSorted cp.sessions.table
    → (join cp node_id join_token now).1 ≡ ok rendered
    → let joined = (join cp node_id join_token now).0 in
      ((push_and_await joined.sessions node_id version true).1 ≡ some cp.sessions.push_seq)
      × ((push_and_await (leave joined node_id later).sessions node_id version sends).1 ≡ none)
unfolding join leave
late_leave-push_and_await cp node_id join_token now later version sends rendered h admitted =
    let auth = authorize cp.tokens node_id join_token now in
    let e =
      opened cp node_id (join cp node_id join_token now) rendered
        (after_auth-HasOpened cp auth.0 node_id now auth.1) admitted in
    (
      ap (λ (s : Sessions). (push_and_await s node_id version true).1) e
          ∙ push-waits cp.sessions node_id version,
      ap (λ (s : Sessions). (push_and_await (close_session s node_id) node_id version sends).1) e
          ∙ push-lost cp.sessions node_id version sends h,
    )
