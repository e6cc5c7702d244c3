-- ===== src/Tokens.antt =====
-- crates/gatewayctl/src/token.rs: the tokens that nodes join with. The clock is the argument `now`.
pub mod Owner
use smallgateway.Prelude.{
  ℕ, ◌+◌, String, Bool, true, false, Option, none, some, min, leb, str_eq, if◌then◌else◌, Result,
  ok, err,
}
use smallgateway.Prelude.Order.{text_ord}
use smallgateway.Prelude.BTree.{BTreeMap, get, insert}
use smallgateway.Float.{u64_max}
use smallgateway.Waves.{Labels}

pub record Token : Type 0 where
  pub labels : Labels
  pub expires_at : ℕ
  pub used : Bool
  pub bound_node : Option String

pub data AuthError : Type 0 where
  unknown expired already_used : AuthError

pub data Admission : Type 0 where
  fresh_join reconnect : Admission

pub record JoinTokens : Type 0 where
  pub tokens : BTreeMap String Token
  pub default_ttl_secs : ℕ

unfoldable pub mint_with_ttl : JoinTokens → String → Labels → ℕ → ℕ → JoinTokens
mint_with_ttl t secret labels ttl_secs now =
    let token : Token = record {
      labels = labels;
      expires_at = min (now + ttl_secs) u64_max;
      used = false;
      bound_node = none;
    } in
    record t { tokens = insert secret token t.tokens }

unfoldable pub mint : JoinTokens → String → Labels → ℕ → JoinTokens
mint t secret labels now = mint_with_ttl t secret labels t.default_ttl_secs now

-- `bound_node.as_deref() == Some(node_id)`
unfoldable pub is_bound_to : Token → String → Bool
is_bound_to token node_id = elim token.bound_node [ none ↦ false | some n ↦ str_eq n node_id ]

abbrev pub burned : Token → String → Token
burned token node_id = record token { used = true; bound_node = some node_id }

-- what a token that is known says
unfoldable pub present :
    JoinTokens → String → String → ℕ → Token → JoinTokens × Result AuthError (Labels × Admission)
present t node_id secret now token =
    if token.used
    then (t, if is_bound_to token node_id then ok (token.labels, reconnect) else err already_used)
    else if leb token.expires_at now
    then (t, err expired)
    else (
      record t { tokens = insert secret (burned token node_id) t.tokens },
      ok (token.labels, fresh_join),
    )

unfoldable pub authorize :
    JoinTokens → String → String → ℕ → JoinTokens × Result AuthError (Labels × Admission)
authorize t node_id secret now = elim (get secret t.tokens) [
  | none ↦ (t, err unknown)
  | some token ↦ present t node_id secret now token
]
