-- ===== src/Fleet.antt =====
-- crates/gatewayctl/src/fleet.rs: the desired state of the fleet, the version each node was pushed,
-- and the adjudication of a wave. The mutex is dropped: a method is one step on the state. The
-- resolved repo and its gateway sets stand as the function that `render_resolved_for_node` makes of
-- them. The canary policy, which only the canary rollout reads, is left out.
pub mod Conclude
pub mod Versions
pub mod Pending
use Prim.Native.String.{◌++◌ as append}
use smallgateway.Prelude.{
  ℕ, ◌+◌, ◌-◌, ◌%◌, ◌^◌, String, Bool, true, false, not, Option, none, some, List, [], ◌∷◌, ◌++◌,
  ltb, leb, if◌then◌else◌, unwrap_or, str_eq, length, get_elem?,
}
use smallgateway.Prelude.Order.{text_ord}
use smallgateway.Prelude.BTree.{BTreeMap, get, insert, remove, values}
use smallgateway.Waves.{Labels, WavePlan, single, implicit_final, wave_index_for}

pub record Rendered : Type 0 where
  pub config_bytes : List ℕ
  pub render_hash : String
  pub source_commit : String

pub data DivergenceKind : Type 0 where
  nacked : ℕ → String → DivergenceKind
  silent : ℕ → DivergenceKind
  wrong_hash : ℕ → String → String → DivergenceKind

pub record Divergence : Type 0 where
  pub node_id : String
  pub kind : DivergenceKind

pub data WaveOutcome : Type 0 where
  committed : String → ℕ → WaveOutcome
  halted : String → List Divergence → WaveOutcome
  no_nodes : String → WaveOutcome

pub data AckResult : Type 0 where
  acked : String → AckResult
  nack : String → AckResult
  no_answer : AckResult

pub record NodeVersioning : Type 0 where
  pub last_version : ℕ
  pub last_pushed_hash : Option String

-- `render` is `render_resolved_for_node` of the resolved repo and its gateway sets
pub record DesiredInputs : Type 0 where
  pub render : Labels → Option Rendered
  pub plan : WavePlan

pub record Fleet : Type 0 where
  pub applied : Rendered
  pub committed_version : ℕ
  pub per_node : BTreeMap String NodeVersioning
  pub desired : Option DesiredInputs
  pub wave_commit : BTreeMap String String
  pub render_cache : BTreeMap String Rendered
  pub waves_in_flight : ℕ

abbrev initial : Rendered → Option DesiredInputs → Fleet
initial applied desired = record {
  applied = applied;
  committed_version = 0;
  per_node = [];
  desired = desired;
  wave_commit = [];
  render_cache = [];
  waves_in_flight = 0;
}

unfoldable pub new : Rendered → Fleet
new applied = initial applied none

unfoldable pub from_source : Rendered → DesiredInputs → Fleet
from_source applied inputs = initial applied (some inputs)

-- `fetch_add` and the guard's `fetch_sub` wrap
unfoldable pub begin_wave : Fleet → Fleet
begin_wave f = record f { waves_in_flight = (f.waves_in_flight + 1) % 2 ^ 64 }

unfoldable pub drop_guard : Fleet → Fleet
drop_guard f = record f { waves_in_flight = (f.waves_in_flight + (2 ^ 64 - 1)) % 2 ^ 64 }

unfoldable pub wave_in_flight : Fleet → Bool
wave_in_flight f = ltb 0 f.waves_in_flight

unfoldable pub set_applied : Fleet → Rendered → Fleet × Bool
set_applied f next =
    if str_eq f.applied.render_hash next.render_hash
    then (f, false)
    else (record f { applied = next; render_cache = [] }, true)

unfoldable pub set_applied_from_source : Fleet → Rendered → DesiredInputs → Fleet × Bool
set_applied_from_source f next inputs = (
  record f { applied = next; desired = some inputs; render_cache = [] },
  not (str_eq f.applied.source_commit next.source_commit),
)

unfoldable pub wave_plan : Fleet → WavePlan
wave_plan f = elim f.desired [ none ↦ single | some d ↦ d.plan ]

unfoldable pub canonical_labels : Labels → String
canonical_labels [] = ""
canonical_labels ((k, v) ∷ labels) =
    append k (append "=" (append v (append ";" (canonical_labels labels))))

-- the render that the cache stands for
unfoldable pub derive : Fleet → Labels → Rendered
derive f labels = elim f.desired [
  | none ↦ f.applied
  | some d ↦ unwrap_or (d.render labels) f.applied
]

unfoldable pub desired_for : Fleet → Labels → Fleet × Rendered
desired_for f labels =
    let key = canonical_labels labels in
    elim (get key f.render_cache) [
      | some hit ↦ (f, hit)
      | none ↦
          let rendered = derive f labels in
          (record f { render_cache = insert key rendered f.render_cache }, rendered)
    ]

unfoldable pub set_wave_commit : Fleet → String → String → Fleet
set_wave_commit f wave_name source_commit = record f {
  wave_commit = insert wave_name source_commit f.wave_commit;
}

abbrev pub never_committed : String
never_committed = "(never committed)"

unfoldable pub revert_wave_commit : Fleet → String → String → Fleet
revert_wave_commit f wave_name prior_commit =
    if str_eq prior_commit never_committed
    then record f { wave_commit = remove wave_name f.wave_commit }
    else record f { wave_commit = insert wave_name prior_commit f.wave_commit }

abbrev pub any_eq : String → List String → Bool
any_eq target [] = false
any_eq target (c ∷ commits) = if str_eq c target then true else any_eq target commits

unfoldable pub wave_name_at : WavePlan → ℕ → String
wave_name_at p i = elim (get_elem? p.waves i) [ none ↦ implicit_final | some w ↦ w.name ]

unfoldable pub node_pending_in_unapplied_wave : Fleet → Labels → Bool
node_pending_in_unapplied_wave f labels = elim f.desired [
  | none ↦ false
  | some d ↦
      let target = f.applied.source_commit in
      if leb (length d.plan.waves) 1
      then false
      else if not (any_eq target (values f.wave_commit))
      then false
      else elim (get (wave_name_at d.plan (wave_index_for d.plan labels)) f.wave_commit) [
        | none ↦ true
        | some c ↦ not (str_eq c target)
      ]
]

unfoldable pub delivered_hash : Fleet → String → Option String
delivered_hash f node_id = elim (get node_id f.per_node) [
  | none ↦ none
  | some v ↦ v.last_pushed_hash
]

abbrev pub same_hash : Option String → String → Bool
same_hash none hash = false
same_hash (some pushed) hash = str_eq pushed hash

-- what the push does to the entry; `last_version += 1` is a sum of native numbers, since no node
-- is pushed 2 ^ 64 hashes
unfoldable pub bump : NodeVersioning → String → NodeVersioning
bump entry hash =
    if same_hash entry.last_pushed_hash hash
    then entry
    else record { last_version = entry.last_version + 1; last_pushed_hash = some hash }

-- `.entry(node_id).or_insert(..)`
unfoldable pub entry_of : Fleet → String → NodeVersioning
entry_of f node_id =
    unwrap_or (get node_id f.per_node) (record { last_version = 0; last_pushed_hash = none })

unfoldable pub next_version_for : Fleet → String → String → Fleet × ℕ
next_version_for f node_id hash =
    let entry = bump (entry_of f node_id) hash in
    (record f { per_node = insert node_id entry f.per_node }, entry.last_version)

-- `expected.iter().find(|(id, _)| id == node_id)`, else the hash of the outcome
unfoldable pub expected_of : List (String × String) → String → String → String
expected_of [] outcome_hash node_id = outcome_hash
expected_of ((id, h) ∷ expected) outcome_hash node_id =
    if str_eq id node_id then h else expected_of expected outcome_hash node_id

unfoldable pub divergence_of : String → ℕ → String → AckResult → List Divergence
divergence_of want version node_id (acked hash) =
    if str_eq hash want
    then []
    else record { node_id = node_id; kind = wrong_hash version want hash } ∷ []
divergence_of want version node_id (nack reason) =
    record { node_id = node_id; kind = nacked version reason } ∷ []
divergence_of want version node_id no_answer =
    record { node_id = node_id; kind = silent version } ∷ []

unfoldable pub divergences :
    List (String × String) → String → ℕ → List (String × AckResult) → List Divergence
divergences expected outcome_hash version [] = []
divergences expected outcome_hash version ((id, result) ∷ results) =
    divergence_of (expected_of expected outcome_hash id) version id result
    ++ divergences expected outcome_hash version results

unfoldable pub conclude_wave_multi :
    Fleet → String → List (String × String) → ℕ → List (String × AckResult) → Fleet × WaveOutcome
conclude_wave_multi f outcome_hash expected version [] = (f, no_nodes outcome_hash)
conclude_wave_multi f outcome_hash expected version (r ∷ results) =
    elim (divergences expected outcome_hash version (r ∷ results)) [
      | [] ↦
          (record f { committed_version = version }, committed outcome_hash (length (r ∷ results)))
      | d ∷ ds ↦ (f, halted outcome_hash (d ∷ ds))
    ]

unfoldable pub all_expect : String → List (String × AckResult) → List (String × String)
all_expect render_hash [] = []
all_expect render_hash ((id, result) ∷ results) = (id, render_hash) ∷ all_expect render_hash results

unfoldable pub conclude_wave : Fleet → String → ℕ → List (String × AckResult) → Fleet × WaveOutcome
conclude_wave f render_hash version results =
    conclude_wave_multi f render_hash (all_expect render_hash results) version results
