-- ===== src/Tests/Fleets.antt =====
-- Waves, rollouts and the reconciler at concrete inputs.
use smallgateway.Prelude.{
  ℕ, ◌<◌, ◌≡◌, ◌≢◌, ◌↔◌, ◌⊎◌, refl, true, false, ◌&&◌, not, String, none, some, List, [], ◌∷◌,
  arith, str_eq, str_mem, All, Result, ok, Ensures, position, push_at, if◌then◌else◌,
}
use smallgateway.Prelude.Order.{text_ord}
use smallgateway.Prelude.BTree.{get, insert}
use smallgateway.Waves.{
  AssignedWave, Wave, WavePlan, Labels, Node, implicit_final_wave, assign, one, many, WavesFile,
  parse_wave_plan, fill, sort_nodes, insert_node, wave_position, matches, every_term, term_matches,
  empty_buckets, named_waves, final_wave, wave_index_for,
}
use smallgateway.Waves.Assign.{occurrences, expected, ids_at, assign_agrees}
use smallgateway.Waves.Parse.{IsValid, AllDistinct, parse_wave_plan-IsValid}
use smallgateway.Store.{NodeState, RuntimeStore, break_glass_active}
use smallgateway.Store.Counters.{Message, ack, refusal, status}
use smallgateway.Fleet.{
  Fleet, Rendered, DesiredInputs, AckResult, acked, nack, no_answer, Divergence, committed, halted,
  begin_wave, drop_guard, derive, desired_for, next_version_for, bump, entry_of, divergences,
  divergence_of, expected_of, wave_name_at, wave_in_flight, canonical_labels, conclude_wave_multi,
  set_wave_commit, node_pending_in_unapplied_wave, wave_plan,
}
use smallgateway.Fleet.Conclude.{HasAcked, unacked, node_ids, conclude_cases}
use smallgateway.Fleet.Pending.{is_on, wave_of}
use smallgateway.Reconcile.{
  classify, heals_by_repush, tick, persistent_nack_threshold, desired_for_node,
}
use smallgateway.Reconcile.Truth.{HasDrifted, classify-heals_iff}
use smallgateway.Reconcile.Tick.{SameButCache, tick-during_wave}
use smallgateway.Rollout.{
  advanced, roll_out_plan, labels_of, walk, roll_wave, run_wave_nodes, push_nodes, push_node,
  after_wave, freeze, frozen_commit, advanced_names, connected_node_labels,
}
use smallgateway.Rollout.Walk.{HaltsAt, step_names, wave_names, roll_out_plan-shape}
use smallgateway.Rollout.Commits.{Records, roll_out_plan-Records}
use smallgateway.Rollout.Acks.{Accepts, pushes_of, roll_wave-advances_iff}
use smallgateway.Rollout.Deferred.{roll_out_plan-pending}

abbrev wave : String → String → String → Wave
wave name label value = record {
  name = name;
  selector = record { terms = record { label = label; in_values = value ∷ [] } ∷ [] };
}

-- a canary, then the nodes of two regions, then whoever is left
abbrev plan : WavePlan
plan = record {
  waves = wave "canary" "tier" "canary" ∷ wave "eu" "region" "eu" ∷ wave "us" "region" "us" ∷ [];
  unmatched = implicit_final_wave;
}

abbrev canary_labels : Labels
canary_labels = ("tier", "canary") ∷ []

abbrev eu_labels : Labels
eu_labels = ("region", "eu") ∷ []

abbrev us_labels : Labels
us_labels = ("region", "us") ∷ []

abbrev nodes : List Node
nodes = ("n2", eu_labels) ∷ ("n1", canary_labels) ∷ ("n3", []) ∷ []

assign_agrees_example : occurrences "n3" (ids_at 3 (assign plan nodes)) ≡ expected plan "n3" 3 nodes
assign_agrees_example = assign_agrees plan nodes "n3" 3 (omega arith)

-- a yaml parser that reads two waves
abbrev from_str : String → Result String WavesFile
from_str yaml = ok (record {
  waves =
      record { name = "canary"; selector = ("tier", one "canary") ∷ [] }
      ∷ record { name = "eu"; selector = ("region", many ("eu" ∷ "uk" ∷ [])) ∷ [] }
      ∷ [];
})

parse_wave_plan-IsValid_example : Ensures IsValid (parse_wave_plan from_str "waves")
parse_wave_plan-IsValid_example = parse_wave_plan-IsValid from_str "waves"

abbrev rendered : Rendered
rendered = record { config_bytes = []; render_hash = "h1"; source_commit = "c1" }

abbrev inputs : DesiredInputs
inputs = record { render = λ labels. some rendered; plan = plan }

abbrev fleet : Fleet
fleet = record {
  applied = rendered;
  committed_version = 0;
  per_node = [];
  desired = some inputs;
  wave_commit = [];
  render_cache = [];
  waves_in_flight = 0;
}

abbrev answers : List (String × AckResult)
answers = ("n1", acked "h1") ∷ ("n2", no_answer) ∷ []

answers_filled : answers ≢ []
answers_filled e = cc

conclude_cases_example :
    (All (HasAcked [] "h1") answers
      × (conclude_wave_multi fleet "h1" [] 1 answers
          ≡ (record fleet { committed_version = 1 }, committed "h1" 2)))
    ⊎ (¬ All (HasAcked [] "h1") answers
        × ((ds : List Divergence) × (conclude_wave_multi fleet "h1" [] 1 answers
              ≡ (fleet, halted "h1" ds))
            × (node_ids ds ≡ unacked [] "h1" answers)))
conclude_cases_example = conclude_cases fleet "h1" [] 1 answers answers_filled

abbrev known : String → Labels → NodeState
known id labels = record {
  node_id = id;
  labels = labels;
  last_acked_version = none;
  last_acked_hash = none;
  last_nack = none;
  consecutive_nacks = 0;
  observed_hash = none;
  health = none;
  last_seen = 0;
  connected = true;
  break_glass_until = none;
}

abbrev store : RuntimeStore
store = ("n1", known "n1" canary_labels) ∷ ("n2", known "n2" eu_labels) ∷ []

-- "n2" refuses whatever it is pushed
abbrev answer : String → ℕ → Rendered → AckResult
answer id version r = if str_eq id "n2" then nack "no" else acked r.render_hash

abbrev sessions : List String
sessions = "n1" ∷ "n2" ∷ []

roll_out_plan-shape_example :
    (step_names (roll_out_plan answer store sessions fleet).1.steps
      ≡ wave_names (assign (wave_plan fleet) (connected_node_labels store sessions)))
    × HaltsAt "c1"
        (roll_out_plan answer store sessions fleet).1.halted_at
        (roll_out_plan answer store sessions fleet).1.steps
roll_out_plan-shape_example = roll_out_plan-shape answer store sessions fleet

roll_out_plan-Records_example :
    Records "c1"
      (roll_out_plan answer store sessions fleet).1.steps
      fleet
      (roll_out_plan answer store sessions fleet).0
roll_out_plan-Records_example = roll_out_plan-Records answer store sessions fleet

canary_advanced :
    str_mem "canary" (advanced_names (roll_out_plan answer store sessions fleet).1.steps) ≡ true
unfolding roll_out_plan begin_wave wave_plan connected_node_labels labels_of assign fill sort_nodes
    insert_node wave_position position matches every_term term_matches empty_buckets push_at
    named_waves final_wave walk roll_wave run_wave_nodes push_nodes push_node desired_for_node
    desired_for derive canonical_labels next_version_for bump entry_of conclude_wave_multi
    divergences divergence_of expected_of after_wave set_wave_commit freeze frozen_commit
    advanced_names get insert text_ord
canary_advanced = refl

roll_out_plan-pending_example :
    let r = roll_out_plan answer store sessions fleet in
    let names = advanced_names r.1.steps in
    node_pending_in_unapplied_wave r.0 eu_labels ≡ (
      not (str_mem (wave_of plan eu_labels) names)
      && not (is_on fleet (wave_of plan eu_labels) "c1"))
roll_out_plan-pending_example =
    roll_out_plan-pending answer store sessions fleet inputs eu_labels "canary" refl (omega arith)
      canary_advanced

-- a rollout that every wave with a node accepted, none of them in "us": it is fully applied, and
-- the reconciler still takes a node of "us" for pending
abbrev willing : String → ℕ → Rendered → AckResult
willing id version r = acked r.render_hash

us_stays_pending :
    ((roll_out_plan willing store sessions fleet).1.halted_at ≡ none)
    × (node_pending_in_unapplied_wave (roll_out_plan willing store sessions fleet).0 us_labels
        ≡ true)
unfolding roll_out_plan begin_wave drop_guard wave_plan connected_node_labels labels_of assign fill
    sort_nodes insert_node wave_position position matches every_term term_matches empty_buckets
    push_at named_waves final_wave walk roll_wave run_wave_nodes push_nodes push_node
    desired_for_node desired_for derive canonical_labels next_version_for bump entry_of
    conclude_wave_multi divergences divergence_of expected_of after_wave set_wave_commit freeze
    frozen_commit get insert text_ord node_pending_in_unapplied_wave wave_name_at wave_index_for
us_stays_pending = (refl, refl)

-- two label sets with one cache key
keys_collide :
    canonical_labels (("a", "b;c=d") ∷ []) ≡ canonical_labels (("a", "b") ∷ ("c", "d") ∷ [])
unfolding canonical_labels
keys_collide = refl

classify-heals_iff_example : (heals_by_repush (classify (known "n1" []) "h1" 5) ≡ true) ↔ (
    (break_glass_active (known "n1" []) 5 ≡ false)
    × (0 < persistent_nack_threshold)
    × HasDrifted (known "n1" []) "h1")
classify-heals_iff_example = classify-heals_iff (known "n1" []) "h1" 5

abbrev pushed : Fleet
pushed = record fleet {
  per_node = ("n1", record { last_version = 1; last_pushed_hash = some "h1" }) ∷ [];
}

rolling : wave_in_flight (begin_wave fleet) ≡ true
unfolding wave_in_flight begin_wave
rolling = refl

tick-during_wave_example :
    SameButCache (tick answer store 5 (begin_wave fleet)).0 (begin_wave fleet)
    × ((tick answer store 5 (begin_wave fleet)).1.healed ≡ 0)
tick-during_wave_example = tick-during_wave answer store 5 (begin_wave fleet) rolling

abbrev messages : List (String × Message × ℕ)
messages =
    ("n1", refusal 1 "no", 1)
    ∷ ("n2", ack 1 "h1", 2)
    ∷ ("n1", status "h0" "ok", 3)
    ∷ ("n1", refusal 2 "no", 4)
    ∷ []

abbrev two_nodes : AssignedWave
two_nodes = record { name = "canary"; node_ids = "n1" ∷ "n2" ∷ [] }

two_nodes-filled : two_nodes.node_ids ≢ []
two_nodes-filled h = ground arith

two_nodes-AllDistinct : AllDistinct two_nodes.node_ids
two_nodes-AllDistinct = ground arith

roll_wave-advances_iff_example :
    ((roll_wave answer store fleet "c1" two_nodes).1.state ≡ advanced "c1")
    ↔ All (Accepts answer store) (pushes_of answer store fleet two_nodes.node_ids)
roll_wave-advances_iff_example =
    roll_wave-advances_iff answer store fleet "c1" two_nodes two_nodes-filled two_nodes-AllDistinct
