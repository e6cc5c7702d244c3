-- ===== src/GatewaySets.antt =====
-- crates/gatewayctl/src/gatewayset.rs: overlays that are merged into the configuration of the nodes whose
-- labels match. A YAML mapping is its entries in the order of their insertion, with texts as keys; every
-- value that is no mapping is a `leaf` with its text. `serde_yaml` is the argument `from_str`.
pub mod Merge
pub mod Parse
use smallgateway.Prelude.{
  ℕ, String, Bool, Option, none, some, List, [], ◌∷◌, length, if◌then◌else◌, str_eq, str_mem,
  is_blank, Result, ok, err, ◌>>=◌,
}
use smallgateway.Prelude.Order.{text_ord}
use smallgateway.Prelude.BTree.{BTreeMap}
use smallgateway.Waves.{
  Labels, Selector, SelectorTerm, SelectorValue, one, many, matches as selector_matches,
}
use Prim.Native.Nat.Ordering.{gt}

mutual
  pub data Yaml : Type 0 where
    leaf : String → Yaml
    nested : Mapping → Yaml

  pub data Mapping : Type 0 where
    end : Mapping
    entry : String → Yaml → Mapping → Mapping

-- `Mapping::get_mut`, the value
unfoldable pub look_up : String → Mapping → Option Yaml
look_up k end = none
look_up k (entry j v m) = if str_eq j k then some v else look_up k m

-- `Mapping::insert`: in place, or at the end
unfoldable pub put : String → Yaml → Mapping → Mapping
put k v end = entry k v end
put k v (entry j w m) = let rest = put k v m in if str_eq j k then entry k v m else entry j w rest

unfoldable pub deep_merge_mapping : Mapping → Mapping → Mapping
deep_merge_mapping base end = base
deep_merge_mapping base (entry k (leaf v) overlay) =
    deep_merge_mapping (put k (leaf v) base) overlay
deep_merge_mapping base (entry k (nested child) overlay) =
    let under : Option Yaml → Yaml = λ o. elim o [
      | some (nested base_child) ↦ nested (deep_merge_mapping base_child child)
      | _ ↦ nested child
    ] in
    deep_merge_mapping (put k (under (look_up k base)) base) overlay

pub record GatewaySet : Type 0 where
  pub name : String
  pub selector : Selector
  pub overlay : Mapping

-- sorted by name
abbrev pub GatewaySets : Type 0
GatewaySets = List GatewaySet

unfoldable pub set_matches : GatewaySet → Labels → Bool
set_matches g labels = selector_matches g.selector labels

unfoldable pub matching : GatewaySets → Labels → GatewaySets
matching [] labels = []
matching (g ∷ sets) labels =
    let rest = matching sets labels in if set_matches g labels then g ∷ rest else rest

unfoldable pub merge_all : Mapping → GatewaySets → Mapping
merge_all doc [] = doc
merge_all doc (g ∷ sets) = merge_all (deep_merge_mapping doc g.overlay) sets

-- the stamped document, and how many sets were stamped
unfoldable pub stamp : GatewaySets → Mapping → Labels → Mapping × ℕ
stamp sets doc labels = (merge_all doc (matching sets labels), length (matching sets labels))

pub record GatewaySetEntry : Type 0 where
  pub name : String
  pub selector : BTreeMap String SelectorValue
  pub overlay : Mapping

pub record GatewaySetsFile : Type 0 where
  pub gatewaysets : List GatewaySetEntry

pub data GatewaySetError : Type 0 where
  bad_yaml : String → GatewaySetError
  empty_name : GatewaySetError
  empty_values : String → String → GatewaySetError
  duplicate_name : String → GatewaySetError

unfoldable pub selector_terms :
    String → BTreeMap String SelectorValue → Result GatewaySetError (List SelectorTerm)
selector_terms name [] = ok []
selector_terms name ((label, one v) ∷ rest) = do
  terms ← selector_terms name rest
  ok (record { label = label; in_values = v ∷ [] } ∷ terms)
selector_terms name ((label, many []) ∷ rest) = err (empty_values name label)
selector_terms name ((label, many (v ∷ vs)) ∷ rest) = do
  terms ← selector_terms name rest
  ok (record { label = label; in_values = v ∷ vs } ∷ terms)

unfoldable pub set_of : GatewaySetEntry → Result GatewaySetError GatewaySet
set_of e = if is_blank e.name then err empty_name else do
  terms ← selector_terms e.name e.selector
  ok (record { name = e.name; selector = record { terms = terms }; overlay = e.overlay })

unfoldable pub sets_of : List GatewaySetEntry → Result GatewaySetError GatewaySets
sets_of [] = ok []
sets_of (e ∷ rest) = do g ← set_of e; sets ← sets_of rest; ok (g ∷ sets)

-- `sort_by` on the names, which is stable
unfoldable pub insert_set : GatewaySet → GatewaySets → GatewaySets
insert_set g [] = g ∷ []
insert_set g (h ∷ sets) = elim (text_ord.cmp g.name h.name) [
  | gt ↦ h ∷ insert_set g sets
  | _ ↦ g ∷ h ∷ sets
]

unfoldable pub sort_sets : GatewaySets → GatewaySets
sort_sets [] = []
sort_sets (g ∷ sets) = insert_set g (sort_sets sets)

unfoldable pub duplicate_set : List String → GatewaySets → Option String
duplicate_set seen [] = none
duplicate_set seen (g ∷ sets) =
    if str_mem g.name seen then some g.name else duplicate_set (g.name ∷ seen) sets

unfoldable pub checked : GatewaySets → Result GatewaySetError GatewaySets
checked sets = elim (duplicate_set [] sets) [
  | some name ↦ err (duplicate_name name)
  | none ↦ ok sets
]

unfoldable pub of_entries : List GatewaySetEntry → Result GatewaySetError GatewaySets
of_entries entries = do sets ← sets_of entries; checked (sort_sets sets)

abbrev pub of_file : Result String GatewaySetsFile → Result GatewaySetError GatewaySets
of_file (err e) = err (bad_yaml e)
of_file (ok file) = of_entries file.gatewaysets

unfoldable pub parse_gatewaysets :
    (String → Result String GatewaySetsFile) → String → Result GatewaySetError GatewaySets
parse_gatewaysets from_str yaml = if is_blank yaml then ok [] else of_file (from_str yaml)
