-- ===== src/Waves.antt =====
-- crates/gatewayctl/src/waves.rs: label selectors, the ordered wave plan, the assignment of nodes
-- to waves and the parsing of `waves.yaml`. The yaml parser is a parameter, and an error stands as
-- its kind with the names it quotes, not as its text.
pub mod Assign
pub mod Parse
use Prim.Native.Nat.Ordering.{gt}
use smallgateway.Prelude.{
  ℕ, String, Bool, true, false, ◌&&◌, Option, none, some, List, [], ◌∷◌, ◌++◌, if◌then◌else◌,
  unwrap_or, str_eq, str_mem, length, is_blank, Result, ok, err, ◌>>=◌, position, push_at,
}
use smallgateway.Prelude.Order.{text_ord}
use smallgateway.Prelude.BTree.{BTreeMap, get}

abbrev pub Labels : Type 0
Labels = BTreeMap String String

pub record SelectorTerm : Type 0 where
  pub label : String
  pub in_values : List String

unfoldable pub term_matches : SelectorTerm → Labels → Bool
term_matches t labels = elim (get t.label labels) [ some v ↦ str_mem v t.in_values | none ↦ false ]

pub record Selector : Type 0 where
  pub terms : List SelectorTerm

unfoldable pub every_term : List SelectorTerm → Labels → Bool
every_term [] labels = true
every_term (t ∷ terms) labels = term_matches t labels && every_term terms labels

unfoldable pub matches : Selector → Labels → Bool
matches s labels = every_term s.terms labels

pub record Wave : Type 0 where
  pub name : String
  pub selector : Selector

pub data UnmatchedPolicy : Type 0 where
  implicit_final_wave : UnmatchedPolicy

pub record WavePlan : Type 0 where
  pub waves : List Wave
  pub unmatched : UnmatchedPolicy

abbrev pub implicit_final : String
implicit_final = "implicit-final"

abbrev pub single : WavePlan
single = record {
  waves = record { name = "all"; selector = record { terms = [] } } ∷ [];
  unmatched = implicit_final_wave;
}

pub record AssignedWave : Type 0 where
  pub name : String
  pub node_ids : List String

abbrev pub Node : Type 0
Node = String × Labels

-- `sort_by_key(|(a, _)| *a)`: stable, by the node's id
unfoldable pub insert_node : Node → List Node → List Node
insert_node n [] = n ∷ []
insert_node n (m ∷ nodes) = elim (text_ord.cmp n.0 m.0) [
  | gt ↦ m ∷ insert_node n nodes
  | _ ↦ n ∷ m ∷ nodes
]

unfoldable pub sort_nodes : List Node → List Node
sort_nodes [] = []
sort_nodes (n ∷ nodes) = insert_node n (sort_nodes nodes)

unfoldable pub wave_position : List Wave → Labels → Option ℕ
wave_position waves labels = position (λ (w : Wave). matches w.selector labels) waves

unfoldable pub wave_index_for : WavePlan → Labels → ℕ
wave_index_for p labels = unwrap_or (wave_position p.waves labels) (length p.waves)

-- the buckets of the named waves, and the unmatched nodes
pub record Buckets : Type 0 where
  pub named : List (List String)
  pub unmatched : List String

-- `vec![Vec::new(); waves.len()]`
unfoldable pub empty_buckets : List Wave → List (List String)
empty_buckets [] = []
empty_buckets (w ∷ waves) = [] ∷ empty_buckets waves

unfoldable pub fill : List Wave → Buckets → List Node → Buckets
fill waves b [] = b
fill waves b ((id, labels) ∷ nodes) = elim (wave_position waves labels) [
  | some i ↦ fill waves (record b { named = push_at i id b.named }) nodes
  | none ↦ fill waves (record b { unmatched = b.unmatched ++ id ∷ [] }) nodes
]

unfoldable pub named_waves : List Wave → List (List String) → List AssignedWave
named_waves (w ∷ waves) (ids ∷ named) =
    record { name = w.name; node_ids = ids } ∷ named_waves waves named
named_waves _ _ = []

unfoldable pub final_wave : List String → List AssignedWave
final_wave [] = []
final_wave (id ∷ ids) = record { name = implicit_final; node_ids = id ∷ ids } ∷ []

unfoldable pub assign : WavePlan → List Node → List AssignedWave
assign p nodes =
    let start : Buckets = record { named = empty_buckets p.waves; unmatched = [] } in
    let b = fill p.waves start (sort_nodes nodes) in
    named_waves p.waves b.named ++ final_wave b.unmatched

pub data SelectorValue : Type 0 where
  one : String → SelectorValue
  many : List String → SelectorValue

pub record WaveEntry : Type 0 where
  pub name : String
  pub selector : BTreeMap String SelectorValue

pub record WavesFile : Type 0 where
  pub waves : List WaveEntry

pub data WavePlanError : Type 0 where
  bad_yaml : String → WavePlanError
  empty_name : WavePlanError
  reserved_name : WavePlanError
  empty_values : String → String → WavePlanError
  duplicate_name : String → WavePlanError

unfoldable pub terms_of :
    String → BTreeMap String SelectorValue → Result WavePlanError (List SelectorTerm)
terms_of name [] = ok []
terms_of name ((label, one v) ∷ rest) = do
  terms ← terms_of name rest
  ok (record { label = label; in_values = v ∷ [] } ∷ terms)
terms_of name ((label, many []) ∷ rest) = err (empty_values name label)
terms_of name ((label, many (v ∷ vs)) ∷ rest) = do
  terms ← terms_of name rest
  ok (record { label = label; in_values = v ∷ vs } ∷ terms)

unfoldable pub wave_of : WaveEntry → Result WavePlanError Wave
wave_of entry =
    if is_blank entry.name
    then err empty_name
    else if str_eq entry.name implicit_final
    then err reserved_name
    else do
      terms ← terms_of entry.name entry.selector
      ok (record { name = entry.name; selector = record { terms = terms } })

unfoldable pub waves_of : List WaveEntry → Result WavePlanError (List Wave)
waves_of [] = ok []
waves_of (entry ∷ rest) = do w ← wave_of entry; ws ← waves_of rest; ok (w ∷ ws)

-- the first name that stands in `seen` or twice in the waves
unfoldable pub duplicate : List String → List Wave → Option String
duplicate seen [] = none
duplicate seen (w ∷ waves) =
    if str_mem w.name seen then some w.name else duplicate (w.name ∷ seen) waves

unfoldable pub plan_of : List WaveEntry → Result WavePlanError WavePlan
plan_of entries = do
  waves ← waves_of entries
  elim (duplicate [] waves) [
    | some name ↦ err (duplicate_name name)
    | none ↦ ok (record { waves = waves; unmatched = implicit_final_wave })
  ]

-- `from_str` is `serde_yaml::from_str` at this file's type
unfoldable pub parse_wave_plan :
    (from_str : String → Result String WavesFile) → String → Result WavePlanError WavePlan
parse_wave_plan from_str yaml = if is_blank yaml then ok single else elim (from_str yaml) [
  | err e ↦ err (bad_yaml e)
  | ok parsed ↦ elim parsed.waves [ [] ↦ ok single | entry ∷ rest ↦ plan_of (entry ∷ rest) ]
]
