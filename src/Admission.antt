-- ===== src/Admission.antt =====
-- crates/gatewayctl/src/admission.rs: the rules that a candidate must meet before it can be desired. The
-- candidate is what the rules read of a `Config`. The arguments: `parse` says which configuration a text
-- means, `holds` whether the CEL interpreter gives true, and `parse_f64` which number a pin is (none where
-- it is no number or NaN, which no comparison is true of; an infinity is a size beyond every finite one).
-- The text of a failure is reduced to what it names.
pub mod Resolved
pub mod Verdicts
use Prim.Native.Char.{code}
use Prim.Native.String as Text
use smallgateway.Prelude.{
  ℕ, zero, suc, ◌-◌, String, Bool, true, false, ◌&&◌, not, Option, none, some, List, [], ◌∷◌, ◌++◌,
  ◌==◌, map, if◌then◌else◌, unwrap_or, str_eq, str_mem, strip_prefix, trim, is_blank, is_some, ltb,
}
use smallgateway.Prelude.Order.{text_ord}
use smallgateway.Prelude.BTree.{BTreeMap, get, insert}
use smallgateway.Float.{F64, literal, ◌*f◌}
use smallgateway.Float.Signed.{Signed}
use smallgateway.Waves.{SelectorTerm, Labels}
use smallgateway.GatewaySets.{GatewaySets}

-- maps and lists of the configuration, as far as the rules read them
pub record AppOverride : Type 0 where
  pub pinned : BTreeMap String String
  pub label_keys : List String

pub record Module : Type 0 where
  pub name : String
  pub signature : Option String

pub record Candidate : Type 0 where
  pub routes : List (String × List String)
  pub default_body : String
  pub unknown_route_body : String
  pub fleet_pinned : Option (BTreeMap String String)
  pub overrides : Option (BTreeMap String AppOverride)
  pub modules : List Module

pub data RuleFailure : Type 0 where
  no_keys : String → RuleFailure
  empty_default : RuleFailure
  empty_unknown_route : RuleFailure
  forbidden_construct : String → RuleFailure
  override_factor : String → String → RuleFailure
  unsigned_module : String → RuleFailure
  cel_rule : String → RuleFailure
  canary_policy : RuleFailure
  via : String → RuleFailure → RuleFailure

pub data Verdict : Type 0 where
  admitted : Verdict
  block : List RuleFailure → Verdict

unfoldable pub is_admitted : Verdict → Bool
is_admitted admitted = true
is_admitted (block fs) = false

unfoldable pub failures : Verdict → List RuleFailure
failures admitted = []
failures (block fs) = fs

abbrev pub override_justification_label : String
override_justification_label = "override-approved"

pub record CelRule : Type 0 where
  pub id : String
  pub expr : String

pub record AdmissionPolicy : Type 0 where
  pub cel_rules : List CelRule
  pub override_factor : Option F64

unfoldable pub factor_of : AdmissionPolicy → F64
factor_of p = unwrap_or p.override_factor (literal 4 1)

unfoldable pub attribution_keys_present : List (String × List String) → List RuleFailure
attribution_keys_present [] = []
attribution_keys_present ((prefix, []) ∷ routes) = no_keys prefix ∷ attribution_keys_present routes
attribution_keys_present ((prefix, k ∷ keys) ∷ routes) = attribution_keys_present routes

unfoldable pub rejection_templates_present : Candidate → List RuleFailure
rejection_templates_present c =
    (if is_blank c.default_body then empty_default ∷ [] else [])
    ++ (if is_blank c.unknown_route_body then empty_unknown_route ∷ [] else [])

-- up to the first "}}", with it, or to the end
unfoldable pub directive_at : String → String
directive_at Text.[] = Text.[]
directive_at (Text.◌∷◌ c s) =
    let rest = directive_at s in
    elim (strip_prefix "}}" (Text.◌∷◌ c s)) [ some after ↦ "}}" | none ↦ Text.◌∷◌ c rest ]

-- `trim_start_matches("{{")`
unfoldable pub trim_opens : String → String
trim_opens Text.[] = Text.[]
trim_opens (Text.◌∷◌ c Text.[]) = Text.◌∷◌ c Text.[]
trim_opens (Text.◌∷◌ c (Text.◌∷◌ d s)) =
    let rest = trim_opens s in
    if code c == 123 && code d == 123 then rest else Text.◌∷◌ c (Text.◌∷◌ d s)

-- `trim_end_matches("}}")`
unfoldable pub trim_closes : String → String
trim_closes Text.[] = Text.[]
trim_closes (Text.◌∷◌ c s) =
    let kept = Text.◌∷◌ c (trim_closes s) in if str_eq kept "}}" then Text.[] else kept

unfoldable pub is_allowed : String → Bool
is_allowed directive = str_mem (trim (trim_closes (trim_opens directive))) ("key" ∷ "route" ∷ [])

abbrev pub text_length : String → ℕ
text_length Text.[] = 0
text_length (Text.◌∷◌ c s) = suc (text_length s)

-- the first directive that is not allowed, where the first characters are skipped
unfoldable pub forbidden_after : ℕ → String → Option String
forbidden_after skip Text.[] = none
forbidden_after (suc skip) (Text.◌∷◌ c s) = forbidden_after skip s
forbidden_after zero (Text.◌∷◌ c s) =
    let directive = directive_at (Text.◌∷◌ c s) in
    let later = forbidden_after (text_length directive - 1) s in
    let here = if is_allowed directive then later else some directive in
    let next = forbidden_after zero s in
    if is_some (strip_prefix "{{" (Text.◌∷◌ c s)) then here else next

unfoldable pub no_forbidden_construct : String → List RuleFailure
no_forbidden_construct flat = elim (forbidden_after 0 flat) [
  | none ↦ []
  | some directive ↦ forbidden_construct directive ∷ []
]

-- `base > 0.0 && new_val > base * factor`
abbrev pub raises : F64 → Signed → Signed → Bool
raises factor base new_val =
    (not base.negative && ltb 0 base.size)
    && (not new_val.negative && ltb (base.size *f factor) new_val.size)

abbrev pub is_signed : Option String → Bool
is_signed none = false
is_signed (some s) = not (is_blank s)

unfoldable pub signed_modules : List Module → List RuleFailure
signed_modules [] = []
signed_modules (m ∷ modules) =
    let rest = signed_modules modules in
    if is_signed m.signature then rest else unsigned_module m.name ∷ rest

-- `?` on an option
abbrev pub and_then : {A B : Type 0} → Option A → (A → Option B) → Option B
and_then none f = none
and_then (some a) f = f a

-- the first value of each term
unfoldable pub representative_labels : List SelectorTerm → Labels → Labels
representative_labels [] labels = labels
representative_labels (t ∷ terms) labels = elim t.in_values [
  | [] ↦ representative_labels terms labels
  | v ∷ vs ↦ representative_labels terms (insert t.label v labels)
]

module _ (parse_f64 : String → Option Signed) where
  unfoldable pub numeric_pins : BTreeMap String String → BTreeMap String Signed
  numeric_pins [] = []
  numeric_pins ((k, v) ∷ pins) =
      let rest = numeric_pins pins in elim (parse_f64 v) [ none ↦ rest | some n ↦ (k, n) ∷ rest ]

  unfoldable pub fleet_numeric_pins : Candidate → BTreeMap String Signed
  fleet_numeric_pins c = elim c.fleet_pinned [ none ↦ [] | some pins ↦ numeric_pins pins ]

  unfoldable pub raised_pins :
      F64 → BTreeMap String Signed → String → BTreeMap String String → List RuleFailure
  raised_pins factor baseline app [] = []
  raised_pins factor baseline app ((key, raw) ∷ pins) =
      let rest = raised_pins factor baseline app pins in
      elim (parse_f64 raw) [
        | none ↦ rest
        | some new_val ↦ elim (get key baseline) [
          | none ↦ rest
          | some base ↦ if raises factor base new_val then override_factor app key ∷ rest else rest
        ]
      ]

  unfoldable pub raised_apps :
      F64 → BTreeMap String Signed → BTreeMap String AppOverride → List RuleFailure
  raised_apps factor baseline [] = []
  raised_apps factor baseline ((app, scope) ∷ overrides) =
      let rest = raised_apps factor baseline overrides in
      let raised = raised_pins factor baseline app scope.pinned ++ rest in
      if str_mem override_justification_label scope.label_keys then rest else raised

  unfoldable pub override_governance : Candidate → F64 → List RuleFailure
  override_governance c factor = elim c.overrides [
    | none ↦ []
    | some overrides ↦ raised_apps factor (fleet_numeric_pins c) overrides
  ]

  module _ (holds : String → String → Bool) where
    unfoldable pub cel_failures : String → List CelRule → List RuleFailure
    cel_failures flat [] = []
    cel_failures flat (r ∷ rules) =
        let rest = cel_failures flat rules in
        if holds r.expr flat then rest else cel_rule r.id ∷ rest

    abbrev pub verdict_of : List RuleFailure → Verdict
    verdict_of [] = admitted
    verdict_of (f ∷ fs) = block (f ∷ fs)

    abbrev pub all_failures : AdmissionPolicy → String → Candidate → List RuleFailure
    all_failures p flat c =
        attribution_keys_present c.routes
        ++ (rejection_templates_present c
            ++ (no_forbidden_construct flat
                ++ (override_governance c (factor_of p)
                    ++ (signed_modules c.modules ++ cel_failures flat p.cel_rules))))

    module _ (parse : String → Option Candidate) where
      -- no verdict where the text means no configuration
      unfoldable pub admit_yaml : AdmissionPolicy → String → Option Verdict
      admit_yaml p flat = elim (parse flat) [
        | none ↦ none
        | some c ↦ some (verdict_of (all_failures p flat c))
      ]

      -- the failures of the variants that the sets stamp
      unfoldable pub set_failures :
          AdmissionPolicy → (Labels → Option String) → GatewaySets → Option (List RuleFailure)
      set_failures p render [] = some []
      set_failures p render (g ∷ sets) =
          let rest = set_failures p render sets in
          let stamped =
            and_then (render (representative_labels g.selector.terms [])) (admit_yaml p) in
          and_then stamped (λ verdict.
            and_then rest (λ later. some (map (via g.name) (failures verdict) ++ later)))

      -- `canary` says whether the file of the policy is there, and whether it parses
      abbrev pub canary_failures : Option Bool → List RuleFailure
      canary_failures none = []
      canary_failures (some true) = []
      canary_failures (some false) = canary_policy ∷ []

      -- `base` is the render for the whole fleet, and `render` the one for the labels of a node
      unfoldable pub admit_resolved :
          AdmissionPolicy
          → Option String
          → (Labels → Option String)
          → GatewaySets
          → Option Bool
          → Option Verdict
      admit_resolved p base render sets canary = and_then (and_then base (admit_yaml p)) (λ verdict.
          and_then (set_failures p render sets)
            (λ stamped. some (verdict_of (failures verdict ++ stamped ++ canary_failures canary))))
