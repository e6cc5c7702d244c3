-- ===== src/Admission/Verdicts.antt =====
-- crates/gatewayctl/src/admission.rs, `admit_yaml`: when a candidate is admitted.
use smallgateway.Prelude.{
  ◌≡◌, ◌≢◌, ◌⊎◌, ◌↔◌, refl, inl, inr, String, Bool, true, false, Option, none, some, List, [], ◌∷◌,
  ◌++◌, arith, false_ne_true, All, str_mem, is_blank, Bool-cases, Option-cases,
}
use smallgateway.Prelude.Order.{text_ord}
use smallgateway.Prelude.BTree.{BTreeMap, get}
use smallgateway.Float.{F64}
use smallgateway.Float.Signed.{Signed}
use smallgateway.Admission.{
  AppOverride, Module, Candidate, RuleFailure, admitted, override_justification_label, CelRule,
  AdmissionPolicy, factor_of, attribution_keys_present, rejection_templates_present,
  forbidden_after, no_forbidden_construct, raises, is_signed, signed_modules, fleet_numeric_pins,
  raised_pins, raised_apps, override_governance, cel_failures, verdict_of, all_failures, admit_yaml,
}

cons_ne_nil : (f : RuleFailure) (fs : List RuleFailure) → ¬ (f ∷ fs ≡ [])
cons_ne_nil f fs e = cc

-- a list of failures is empty exactly if the condition holds
abbrev IsCheckOf : Type 0 → List RuleFailure → Type 0
IsCheckOf C fs = (fs ≡ []) ↔ C

append-IsCheckOf :
    (C D : Type 0) (xs ys : List RuleFailure)
    → IsCheckOf C xs
    → IsCheckOf D ys
    → IsCheckOf (C × D) (xs ++ ys)
append-IsCheckOf C D [] ys p q = (λ e. (p.0 refl, q.0 e), λ both. q.1 both.1)
append-IsCheckOf C D (x ∷ xs) ys p q =
    (λ e. absurd (cc), λ both. absurd (cons_ne_nil x xs (p.1 both.0)))

keys-IsCheckOf :
    (routes : List (String × List String))
    → IsCheckOf (All (λ r. r.1 ≢ []) routes) (attribution_keys_present routes)
unfolding attribution_keys_present
keys-IsCheckOf [] = (λ e. tt, λ u. refl)
keys-IsCheckOf ((prefix, []) ∷ routes) = (λ e. absurd (cc), λ h. absurd (h.0 refl))
keys-IsCheckOf ((prefix, k ∷ keys) ∷ routes) =
    let rest = keys-IsCheckOf routes in (λ e. ((λ none. cc), rest.0 e), λ h. rest.1 h.1)

templates-IsCheckOf :
    (c : Candidate)
    → IsCheckOf
        ((is_blank c.default_body ≡ false) × (is_blank c.unknown_route_body ≡ false))
        (rejection_templates_present c)
unfolding rejection_templates_present
templates-IsCheckOf c = ground arith

construct-IsCheckOf :
    (flat : String) → IsCheckOf (forbidden_after 0 flat ≡ none) (no_forbidden_construct flat)
unfolding no_forbidden_construct
construct-IsCheckOf flat = ground arith

modules-IsCheckOf :
    (modules : List Module)
    → IsCheckOf
        (All (λ (m : Module). is_signed m.signature ≡ true) modules)
        (signed_modules modules)
unfolding signed_modules
modules-IsCheckOf [] = (λ e. tt, λ u. refl)
modules-IsCheckOf (m ∷ modules) = ground (arith, modules-IsCheckOf modules)

module _ (parse_f64 : String → Option Signed) where
  -- the pin is no number, has no baseline, or does not raise it beyond the factor
  abbrev pub IsInBounds : F64 → BTreeMap String Signed → String × String → Type 0
  IsInBounds factor baseline (key, raw) = elim (parse_f64 raw) [
    | none ↦ Unit
    | some new_val ↦ elim (get key baseline) [
      | none ↦ Unit
      | some base ↦ raises factor base new_val ≡ false
    ]
  ]

  -- an override carries the label, or all its pins are in bounds
  abbrev pub IsGoverned : F64 → BTreeMap String Signed → String × AppOverride → Type 0
  IsGoverned factor baseline (app, scope) =
      (str_mem override_justification_label scope.label_keys ≡ true)
      ⊎ All (IsInBounds factor baseline) scope.pinned

  pins-IsCheckOf :
      (factor : F64) (baseline : BTreeMap String Signed) (app : String)
      → (pins : BTreeMap String String)
      → IsCheckOf
          (All (IsInBounds factor baseline) pins)
          (raised_pins parse_f64 factor baseline app pins)
  unfolding raised_pins
  pins-IsCheckOf factor baseline app [] = (λ e. tt, λ u. refl)
  pins-IsCheckOf factor baseline app ((key, raw) ∷ pins) =
      ground (arith, pins-IsCheckOf factor baseline app pins)

  apps-IsCheckOf :
      (factor : F64) (baseline : BTreeMap String Signed) (overrides : BTreeMap String AppOverride)
      → IsCheckOf
          (All (IsGoverned factor baseline) overrides)
          (raised_apps parse_f64 factor baseline overrides)
  unfolding raised_apps
  apps-IsCheckOf factor baseline [] = (λ e. tt, λ u. refl)
  apps-IsCheckOf factor baseline ((app, scope) ∷ overrides) =
      let rest = apps-IsCheckOf factor baseline overrides in
      let pins = pins-IsCheckOf factor baseline app scope.pinned in
      elim (Bool-cases (str_mem override_justification_label scope.label_keys)) [
        | inl labelled ↦ rw labelled (λ e. (inl refl, rest.0 e), λ h. rest.1 h.1)
        | inr bare ↦
            let both =
              append-IsCheckOf (All (IsInBounds factor baseline) scope.pinned)
                (All (IsGoverned factor baseline) overrides)
                (raised_pins parse_f64 factor baseline app scope.pinned)
                (raised_apps parse_f64 factor baseline overrides) pins rest in
            rw bare (
              (λ e. (inr (both.0 e).0, (both.0 e).1)),
              λ h. both.1 (
                elim (h.0) [ inl labelled ↦ absurd (false_ne_true labelled) | inr pinned ↦ pinned ],
                h.1,
              ),
            )
      ]

  abbrev pub AreGoverned : F64 → Candidate → Type 0
  AreGoverned factor c = elim c.overrides [
    | none ↦ Unit
    | some overrides ↦ All (IsGoverned factor (fleet_numeric_pins parse_f64 c)) overrides
  ]

  overrides-IsCheckOf :
      (factor : F64) (c : Candidate)
      → IsCheckOf (AreGoverned factor c) (override_governance parse_f64 c factor)
  unfolding override_governance fleet_numeric_pins
  overrides-IsCheckOf factor c = elim (Option-cases c.overrides) [
    | inl absent ↦ rw absent (λ e. tt, λ u. refl)
    | inr (overrides, found) ↦
        rw found (apps-IsCheckOf factor (fleet_numeric_pins parse_f64 c) overrides)
  ]

  module _ (holds : String → String → Bool) where
    cel-IsCheckOf :
        (flat : String) (rules : List CelRule)
        → IsCheckOf
            (All (λ (r : CelRule). holds r.expr flat ≡ true) rules)
            (cel_failures parse_f64 holds flat rules)
    unfolding cel_failures
    cel-IsCheckOf flat [] = (λ e. tt, λ u. refl)
    cel-IsCheckOf flat (r ∷ rules) = ground (arith, cel-IsCheckOf flat rules)

    -- every rule holds of the candidate
    abbrev pub MeetsRules : AdmissionPolicy → String → Candidate → Type 0
    MeetsRules p flat c =
        All (λ r. r.1 ≢ []) c.routes
        × (((is_blank c.default_body ≡ false) × (is_blank c.unknown_route_body ≡ false))
            × ((forbidden_after 0 flat ≡ none)
                × (AreGoverned (factor_of p) c
                    × (All (λ (m : Module). is_signed m.signature ≡ true) c.modules
                        × All (λ (r : CelRule). holds r.expr flat ≡ true) p.cel_rules))))

    all-IsCheckOf :
        (p : AdmissionPolicy) (flat : String) (c : Candidate)
        → IsCheckOf (MeetsRules p flat c) (all_failures parse_f64 holds p flat c)
    all-IsCheckOf p flat c = append-IsCheckOf _ _ _ _ (keys-IsCheckOf c.routes) (
        append-IsCheckOf _ _ _ _ (templates-IsCheckOf c) (
          append-IsCheckOf _ _ _ _ (construct-IsCheckOf flat) (
            append-IsCheckOf _ _ _ _ (overrides-IsCheckOf (factor_of p) c) (
              append-IsCheckOf _ _ _ _ (modules-IsCheckOf c.modules)
                (cel-IsCheckOf flat p.cel_rules)))))

    verdict-admitted :
        (C : Type 0) (fs : List RuleFailure)
        → IsCheckOf C fs
        → (some (verdict_of parse_f64 holds fs) ≡ some admitted) ↔ C
    verdict-admitted C [] check = (λ e. check.0 refl, λ c. refl)
    verdict-admitted C (f ∷ fs) check =
        (λ e. absurd (cc), λ c. absurd (cons_ne_nil f fs (check.1 c)))

    pub admit_yaml-MeetsRules :
        (parse : String → Option Candidate) (p : AdmissionPolicy) (flat : String) (c : Candidate)
        → parse flat ≡ some c
        → (admit_yaml parse_f64 holds parse p flat ≡ some admitted) ↔ MeetsRules p flat c
    unfolding admit_yaml
    admit_yaml-MeetsRules parse p flat c found =
        rw (found, admit_yaml)
          (verdict-admitted (MeetsRules p flat c) (all_failures parse_f64 holds p flat c)
            (all-IsCheckOf p flat c))
