-- ===== src/Tests/Policies.antt =====
-- GatewaySets and the admission of candidates at concrete inputs.
use smallgateway.Prelude.{
  ◌≡◌, ◌≢◌, ◌↔◌, refl, strip_prefix, trim, trim_end, trim_start, inr, String, Bool, true, false,
  Option, none, some, List, [], ◌∷◌, Result, ok, Ensures, is_blank, if◌then◌else◌, str_eq,
}
use smallgateway.Prelude.BTree.{get, insert}
use smallgateway.Prelude.Order.{text_ord}
use smallgateway.Float.{literal, ◌*f◌}
use smallgateway.Float.Signed.{Signed}
use smallgateway.Waves.{Labels, one, many, matches, term_matches, every_term}
use smallgateway.GatewaySets.{
  leaf, nested, Mapping, end, entry, look_up, put, deep_merge_mapping, GatewaySet, GatewaySets,
  set_matches, matching, merge_all, stamp, GatewaySetsFile, parse_gatewaysets, of_entries, sets_of,
  set_of, selector_terms, sort_sets, insert_set, checked, duplicate_set,
}
use smallgateway.GatewaySets.Merge.{HasKeysOnce, AreOnce, at, last_said, stamp-last_said}
use smallgateway.GatewaySets.Parse.{AreValid, parse_gatewaysets-AreValid}
use smallgateway.Admission.{
  Candidate, AdmissionPolicy, admitted, block, override_factor, factor_of, admit_yaml,
  admit_resolved, representative_labels, set_failures, failures, attribution_keys_present,
  rejection_templates_present, no_forbidden_construct, forbidden_after, override_governance,
  fleet_numeric_pins, numeric_pins, raised_apps, raised_pins, signed_modules, cel_failures,
  is_allowed, trim_closes, trim_opens, directive_at,
}
use smallgateway.Admission.Verdicts.{MeetsRules, admit_yaml-MeetsRules}
use smallgateway.Admission.Resolved.{IsAdmitted, AreAdmitted, admit_resolved-AreAdmitted}

abbrev limits : Mapping → Mapping
limits m = entry "limits" (nested m) end

abbrev doc : Mapping
doc = limits (entry "tpm" (leaf "1") (entry "rpm" (leaf "2") end))

abbrev eu : GatewaySet
eu = record {
  name = "eu";
  selector = record { terms = record { label = "region"; in_values = "eu" ∷ [] } ∷ [] };
  overlay = limits (entry "tpm" (leaf "5") end);
}

abbrev prod : GatewaySet
prod = record {
  name = "prod";
  selector = record { terms = record { label = "env"; in_values = "prod" ∷ "live" ∷ [] } ∷ [] };
  overlay = limits (entry "tpm" (leaf "7") end);
}

abbrev sets : GatewaySets
sets = eu ∷ prod ∷ []

abbrev labels : Labels
labels = ("env", "live") ∷ ("region", "eu") ∷ []

stamp-last_said_example :
    at (stamp sets doc labels).0 ("limits" ∷ "tpm" ∷ [])
    ≡ last_said (at doc ("limits" ∷ "tpm" ∷ [])) (matching sets labels) ("limits" ∷ "tpm" ∷ [])
unfolding matching set_matches matches term_matches every_term get text_ord HasKeysOnce AreOnce
    look_up
stamp-last_said_example = stamp-last_said sets doc labels ("limits" ∷ "tpm" ∷ []) (
  ((refl, (refl, tt, tt), tt), inr ("5", refl)),
  (((refl, (refl, tt, tt), tt), inr ("7", refl)), tt),
)

-- the sibling stays
stamp-sibling :
    (stamp sets doc labels).0 ≡ limits (entry "tpm" (leaf "7") (entry "rpm" (leaf "2") end))
unfolding stamp matching set_matches matches term_matches every_term get text_ord merge_all
    deep_merge_mapping look_up put
stamp-sibling = refl

abbrev file : GatewaySetsFile
file = record {
  gatewaysets =
      record {
        name = "prod";
        selector = ("env", many ("prod" ∷ "live" ∷ [])) ∷ [];
        overlay = prod.overlay;
      }
      ∷ record { name = "eu"; selector = ("region", one "eu") ∷ []; overlay = eu.overlay }
      ∷ [];
}

abbrev from_str : String → Result String GatewaySetsFile
from_str yaml = ok file

parse_gatewaysets-AreValid_example :
    Ensures AreValid (parse_gatewaysets from_str "gatewaysets: ...")
parse_gatewaysets-AreValid_example = parse_gatewaysets-AreValid from_str "gatewaysets: ..."

parsed_by_name : parse_gatewaysets from_str "gatewaysets: ..." ≡ ok sets
unfolding parse_gatewaysets is_blank of_entries sets_of set_of selector_terms sort_sets insert_set
    checked duplicate_set text_ord
parsed_by_name = refl

-- an app's pin of "16" over the fleet's "2"
abbrev candidate : List String → Candidate
candidate keys = record {
  routes = ("/v1", "team" ∷ []) ∷ [];
  default_body = "no {{key}}";
  unknown_route_body = "no {{route}}";
  fleet_pinned = some (("tpm", "2") ∷ []);
  overrides = some (("shop", record { pinned = ("tpm", "16") ∷ []; label_keys = keys }) ∷ []);
  modules = record { name = "m"; signature = some "s" } ∷ [];
}

abbrev policy : AdmissionPolicy
policy = record { cel_rules = record { id = "r"; expr = "true" } ∷ []; override_factor = none }

abbrev parse_f64 : String → Option Signed
parse_f64 s =
    if str_eq s "16"
    then some (record { negative = false; size = literal 16 1 })
    else if str_eq s "2"
    then some (record { negative = false; size = literal 2 1 })
    else none

abbrev holds : String → String → Bool
holds expr flat = true

abbrev text : String
text = "a: no {{key}}, no {{ route }}"

abbrev parse : String → Option Candidate
parse flat = some (candidate ("override-approved" ∷ []))

abbrev parse_bare : String → Option Candidate
parse_bare flat = some (candidate [])

admit_yaml-MeetsRules_example :
    (admit_yaml parse_f64 holds parse policy text ≡ some admitted)
    ↔ MeetsRules parse_f64 holds policy text (candidate ("override-approved" ∷ []))
admit_yaml-MeetsRules_example =
    admit_yaml-MeetsRules parse_f64 holds parse policy text (candidate ("override-approved" ∷ []))
      refl

labelled_admitted : admit_yaml parse_f64 holds parse policy text ≡ some admitted
unfolding admit_yaml attribution_keys_present rejection_templates_present no_forbidden_construct
    forbidden_after override_governance fleet_numeric_pins numeric_pins raised_apps raised_pins
    signed_modules cel_failures factor_of is_blank strip_prefix is_allowed trim trim_end trim_start
    trim_closes trim_opens directive_at get text_ord literal ◌*f◌
labelled_admitted = refl

unlabelled_blocked :
    admit_yaml parse_f64 holds parse_bare policy text
    ≡ some (block (override_factor "shop" "tpm" ∷ []))
unfolding admit_yaml attribution_keys_present rejection_templates_present no_forbidden_construct
    forbidden_after override_governance fleet_numeric_pins numeric_pins raised_apps raised_pins
    signed_modules cel_failures factor_of is_blank strip_prefix is_allowed trim trim_end trim_start
    trim_closes trim_opens directive_at get text_ord literal ◌*f◌
unlabelled_blocked = refl

-- two sets, each of which keeps the app's pin within four times the fleet's; of a node that matches
-- both, neither the check of the one nor that of the other sees what it is served
abbrev pins : String → String → Candidate
pins fleet app = record (candidate []) {
  fleet_pinned = some (("tpm", fleet) ∷ []);
  overrides = some (("shop", record { pinned = ("tpm", app) ∷ []; label_keys = [] }) ∷ []);
}

-- a text is the fleet's pin, and then the app's
abbrev parse_pins : String → Option Candidate
parse_pins s =
    if str_eq s "4 16"
    then some (pins "4" "16")
    else if str_eq s "2 8"
    then some (pins "2" "8")
    else if str_eq s "2 16"
    then some (pins "2" "16")
    else some (pins "4" "8")

abbrev numbers : String → Option Signed
numbers s =
    if str_eq s "8"
    then some (record { negative = false; size = literal 8 1 })
    else if str_eq s "4"
    then some (record { negative = false; size = literal 4 1 })
    else parse_f64 s

-- `eu` lowers the fleet's pin, and `prod` raises the app's
abbrev render : Labels → Option String
render ls =
    if set_matches eu ls
    then (if set_matches prod ls then some "2 16" else some "2 8")
    else if set_matches prod ls
    then some "4 16"
    else some "4 8"

each_passes_alone :
    admit_resolved numbers holds parse_pins policy (some "4 8") render sets none ≡ some admitted
unfolding admit_resolved set_failures set_matches matches every_term term_matches
    representative_labels insert failures admit_yaml attribution_keys_present
    rejection_templates_present no_forbidden_construct forbidden_after override_governance
    fleet_numeric_pins numeric_pins raised_apps raised_pins signed_modules cel_failures factor_of
    is_blank strip_prefix is_allowed trim trim_end trim_start trim_closes trim_opens directive_at
    get text_ord literal ◌*f◌
each_passes_alone = refl

admit_resolved-AreAdmitted_example :
    (admit_resolved numbers holds parse_pins policy (some "4 8") render sets none ≡ some admitted)
    ↔ (IsAdmitted numbers holds parse_pins policy (some "4 8")
        × (AreAdmitted numbers holds parse_pins policy render sets × (none ≢ some false)))
admit_resolved-AreAdmitted_example =
    admit_resolved-AreAdmitted numbers holds parse_pins policy (some "4 8") render sets none

node_of_both_unadmitted :
    admit_yaml numbers holds parse_pins policy "2 16"
    ≡ some (block (override_factor "shop" "tpm" ∷ []))
unfolding admit_yaml attribution_keys_present rejection_templates_present no_forbidden_construct
    forbidden_after override_governance fleet_numeric_pins numeric_pins raised_apps raised_pins
    signed_modules cel_failures factor_of is_blank strip_prefix is_allowed trim trim_end trim_start
    trim_closes trim_opens directive_at get text_ord literal ◌*f◌
node_of_both_unadmitted = refl
