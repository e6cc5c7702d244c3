-- ===== src/Tests/Scopes.antt =====
-- Composed scopes and attributed requests at concrete inputs.
use smallgateway.Prelude.{
  ◌≡◌, refl, String, true, Option, none, some, List, [], ◌∷◌, All, str_eq, str_mem, or_else,
  if◌then◌else◌,
}
use smallgateway.Prelude.Order.{text_ord}
use smallgateway.Prelude.BTree.{BTreeMap, get, insert}
use smallgateway.Attribution.{
  Policy, Value, number, resolve, assigned, proven, caller, insert_key, sort_keys, all_keys,
  non_empty, claimed, tag_of, add_key, resolve_keys, claim_string,
}
use smallgateway.Attribution.Trust.{Comes, resolve-Comes}
use smallgateway.Scope.{
  Layer, Rejections, EffectivePolicy, LabelItem, base, label, static, compose, base_marker,
  required_of, splice_required, splice, dedup_keep_first, keep_first, labels_down, splice_labels,
  best_depths, emit_labels, note_keys, note_key, note_layer, origins_of, contradictory_pin,
  ComposeError, claim, pinned,
}
use smallgateway.Waves.Parse.{AllDistinct}
use smallgateway.Scope.Emitted.{label_keys, deep_keys, IsDeepest, compose-labels}
use smallgateway.Scope.Lower.{compose-lower_wins}

-- a team that the route pins, a user that a claim proves, and an app that the caller names
abbrev policy : Policy
policy = record {
  required_keys = "team" ∷ "app" ∷ "user" ∷ "region" ∷ [];
  pinned = ("team", "core") ∷ [];
  from_claims = ("user", "sub") ∷ [];
  derived = [];
}

abbrev sent : String → Option String
sent key = if str_eq key "region" then none else some "mine"

abbrev proven_claims : Option (BTreeMap String Value)
proven_claims = some (("sub", number "42") ∷ [])

abbrev nothing_derived : String → Option String
nothing_derived key = none

caller_cannot_name_the_team : resolve policy sent proven_claims nothing_derived ≡ record {
  tags =
      record { key = "app"; value = "mine"; origin = caller }
      ∷ record { key = "team"; value = "core"; origin = assigned }
      ∷ record { key = "user"; value = "42"; origin = proven }
      ∷ [];
  missing = "region" ∷ [];
}
unfolding resolve resolve_keys add_key tag_of all_keys sort_keys insert_key claimed claim_string
    non_empty get text_ord
caller_cannot_name_the_team = refl

resolve-Comes_example :
    All
      (Comes policy sent proven_claims nothing_derived)
      (resolve policy sent proven_claims nothing_derived).tags
resolve-Comes_example = resolve-Comes policy sent proven_claims nothing_derived

abbrev layer :
    String
    → List String
    → BTreeMap String String
    → BTreeMap String String
    → List LabelItem
    → Layer String
layer name required_keys pinned_values from_claims labels = record {
  name = name;
  required_keys = required_keys;
  headers = [];
  pinned_values = pinned_values;
  from_claims = from_claims;
  derived_values = [];
  labels = labels;
  spend_caps = [];
  models = none;
  default_response = none;
  unknown_route = none;
  model_not_allowed = none;
  value_not_allowed = none;
  cap_exceeded = none;
}

abbrev top : Layer String
top =
    layer "fleet" ("team" ∷ []) (("team", "core") ∷ []) (("user", "sub") ∷ [])
      (label "env" (static "prod") ∷ [])

abbrev route : Layer String
route =
    layer "route" (base_marker ∷ "app" ∷ "team" ∷ []) (("team", "web") ∷ ("user", "u1") ∷ []) []
      (label "app" (static "web") ∷ base ∷ label "env" (static "dev") ∷ [])

abbrev no_overrides : Rejections String
no_overrides = record {
  default_response = "rejected";
  unknown_route = "unknown";
  model_not_allowed = none;
  value_not_allowed = none;
  cap_exceeded = none;
}

abbrev composed : EffectivePolicy String × List ComposeError
composed = compose "model" no_overrides (top ∷ route ∷ [])

composed_keys : composed.0.required_keys ≡ "team" ∷ "app" ∷ []
unfolding compose dedup_keep_first keep_first required_of splice_required splice
composed_keys = refl

composed_labels :
    composed.0.labels
    ≡ record { key = "app"; value = static "web" }
      ∷ record { key = "env"; value = static "dev" }
      ∷ []
unfolding compose labels_down splice_labels best_depths emit_labels insert get text_ord
composed_labels = refl

composed_errors : composed.1 ≡ contradictory_pin "user" claim "fleet" pinned "route" ∷ []
unfolding compose labels_down splice_labels best_depths emit_labels origins_of note_layer note_keys
    note_key insert get text_ord
composed_errors = refl

compose-lower_wins_example :
    let above = (compose "model" no_overrides (top ∷ [])).0 in
    (get "team" composed.0.pinned_values
      ≡ or_else (get "team" route.pinned_values) (get "team" above.pinned_values))
    × (get "team" composed.0.from_claims
        ≡ or_else (get "team" route.from_claims) (get "team" above.from_claims))
    × (get "team" composed.0.derived_values
        ≡ or_else (get "team" route.derived_values) (get "team" above.derived_values))
    × (composed.0.models ≡ or_else route.models above.models)
compose-lower_wins_example =
    compose-lower_wins "model" no_overrides (top ∷ []) route "team"
      (unfold text_ord in ((refl, tt), (tt, tt))) tt tt

abbrev app : Layer String
app = layer "app" [] (("team", "web") ∷ []) [] []

app_composes : (compose "model" no_overrides (top ∷ app ∷ [])).1 ≡ []
unfolding compose labels_down splice_labels best_depths emit_labels origins_of note_layer note_keys
    note_key insert get text_ord
app_composes = refl

compose-labels_example :
    AllDistinct (label_keys composed.0.labels)
    × ((key : String)
        → str_mem key (deep_keys (labels_down 0 [] (top ∷ route ∷ []))) ≡ true
        → str_mem key (label_keys composed.0.labels) ≡ true)
    × All (IsDeepest (labels_down 0 [] (top ∷ route ∷ []))) composed.0.labels
compose-labels_example = compose-labels "model" no_overrides (top ∷ route ∷ [])
