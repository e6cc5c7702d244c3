-- ===== src/Tests/Canaries.antt =====
-- The canary's analysis and its walk over the waves at concrete inputs.
use smallgateway.Prelude.{
  ℕ, ◌≡◌, refl, String, Bool, true, false, none, some, List, [], ◌∷◌, Result, ok, Ensures, is_blank,
  str_mem, if◌then◌else◌,
}
use smallgateway.Prelude.Order.{text_ord}
use smallgateway.Prelude.BTree.Sorted.{IsSorted}
use smallgateway.Prelude.BTree.{get, insert, remove, total}
use smallgateway.Float.{◌/f◌, ◌*f◌, of_u64}
use smallgateway.Float.Signed.{◌+f◌, ◌-f◌, above, sum_from}
use smallgateway.Reconcile.{desired_for_node}
use smallgateway.Float.{literal}
use smallgateway.Waves.{AssignedWave}
use smallgateway.Fleet.{
  Fleet, Rendered, AckResult, acked, delivered_hash, desired_for, next_version_for, bump, entry_of,
  conclude_wave_multi, divergences, divergence_of, expected_of, set_wave_commit, revert_wave_commit,
}
use smallgateway.Ledger as Ledger
use smallgateway.Ledger.{FleetBudgets, open_spend_window, node_windowed_spend, node_total_spend}
use smallgateway.Telemetry.{FleetTelemetry, NodeWindow, window_for, reset_many}
use smallgateway.Canary.{
  CanaryPolicy, default_policy, NodeTelemetry, WaveTelemetry, analyze, CanaryFile,
  parse_canary_policy, gates_after, has_samples, error_breach, latency_breach, anomaly_breach,
  aggregate_error_rate, pooled_p99, samples_of, percentile, spend_breach, mean_spend, spend_rates,
  zscore_of, mean_std, squares,
}
use smallgateway.Canary.Verdicts.{IsSound, analyze-IsSound}
use smallgateway.Canary.Policies.{IsValid, parse_canary_policy-IsValid}
use smallgateway.Rollout.{
  walk, frozen_commit, advanced_names, run_wave_nodes, push_nodes, push_node, freeze,
}
use smallgateway.CanaryRollout.{
  Plane, Walked, canary_walk, rollback_wave, canary_wave, after_acks, after_analysis, analyze_wave,
  baseline_ids, assemble_telemetry, node_telemetry, await_gate, push_back,
}
use smallgateway.CanaryRollout.Plain.{canary_walk-plain}
use smallgateway.CanaryRollout.Commits.{canary_walk-commits}
use smallgateway.CanaryRollout.Gates.{Passes, canary_walk-Passes}
use smallgateway.CanaryRollout.Rollbacks.{told, each, rollback_wave-delivered}

abbrev policy : CanaryPolicy
policy = record default_policy { enabled = true; manual_gate_after = "canary" ∷ [] }

abbrev node : ℕ → ℕ → NodeTelemetry
node requests errors = record { requests = requests; errors = errors; latencies_ms = []; spent = 0 }

abbrev bad_canary : WaveTelemetry
bad_canary = ("n1", node 100 50) ∷ []

abbrev baseline : WaveTelemetry
baseline = ("n2", node 100 1) ∷ ("n3", node 100 2) ∷ []

analyze-IsSound_example : IsSound policy bad_canary baseline (analyze policy bad_canary baseline)
analyze-IsSound_example = analyze-IsSound policy bad_canary baseline

abbrev file : CanaryFile
file = record {
  enabled = true;
  metrics = none;
  window_secs = some 60;
  max_error_rate_increase = none;
  max_p99_factor = some (record { negative = false; size = literal 2 1 });
  max_spend_factor = none;
  spend_zscore = none;
  manual_gate_after = "canary" ∷ [];
}

abbrev from_str : String → Result String CanaryFile
from_str yaml = ok file

parse_canary_policy-IsValid_example :
    Ensures IsValid (parse_canary_policy from_str "enabled: true")
    × (is_blank "enabled: true" ≡ true
        → Ensures (λ p. p.enabled ≡ false) (parse_canary_policy from_str "enabled: true"))
parse_canary_policy-IsValid_example = parse_canary_policy-IsValid from_str "enabled: true"

abbrev old : Rendered
old = record { config_bytes = 1 ∷ []; render_hash = "h0"; source_commit = "c0" }

abbrev rendered : Rendered
rendered = record { config_bytes = 2 ∷ []; render_hash = "h1"; source_commit = "c1" }

abbrev fleet : Fleet
fleet = record {
  applied = rendered;
  committed_version = 0;
  per_node = [];
  desired = none;
  wave_commit = ("canary", "c0") ∷ [];
  render_cache = [];
  waves_in_flight = 1;
}

abbrev plane : Plane
plane = record { fleet = fleet; telemetry = []; budgets = Ledger.new }

abbrev waves : List AssignedWave
waves =
    record { name = "canary"; node_ids = "n1" ∷ [] }
    ∷ record { name = "rest"; node_ids = "n2" ∷ [] }
    ∷ record { name = "none"; node_ids = [] }
    ∷ []

abbrev window : ℕ → NodeWindow
window errors = record { requests = 100; errors = errors; latencies_ms = [] }

-- what the nodes report while the window is open: as many errors of the canary as given
abbrev elapse : ℕ → String → FleetTelemetry → FleetBudgets → FleetTelemetry × FleetBudgets
elapse errors name t b = (("n1", window errors) ∷ ("n2", window 0) ∷ [], b)

abbrev answer : String → ℕ → Rendered → AckResult
answer id version r = acked r.render_hash

abbrev polls : String → List Bool
polls name = false ∷ true ∷ []

abbrev walked : ℕ → Walked
walked errors =
    canary_walk policy (elapse errors) answer [] polls none (some old) "c1" 0 waves plane

canary_walk-commits_example :
    IsSorted (walked 90).plane.fleet.wave_commit
    × ((name : String)
        → frozen_commit (walked 90).plane.fleet name ≡ (
            if str_mem name (advanced_names (walked 90).steps)
            then "c1"
            else frozen_commit fleet name))
canary_walk-commits_example =
    canary_walk-commits policy (elapse 90) answer [] polls none (some old) "c1" 0 waves plane
      (tt, tt)

canary_walk-Passes_example : Passes policy (elapse 0) answer [] polls none (some old) (walked 0)
canary_walk-Passes_example =
    canary_walk-Passes policy (elapse 0) answer [] polls none (some old) "c1" 0 waves plane

rollback_wave-delivered_example :
    let o = rollback_wave fleet "canary" ("n1" ∷ []) "c5" (some old) in
    (frozen_commit o.0 "canary" ≡ "c5")
    × (told o.1 ≡ each old ("n1" ∷ []))
    × (delivered_hash o.0 "n1"
        ≡ (if str_mem "n1" ("n1" ∷ []) then some "h0" else delivered_hash fleet "n1"))
rollback_wave-delivered_example =
    rollback_wave-delivered fleet "canary" ("n1" ∷ []) "c5" old "n1" (tt, tt)

passes_and_goes_on :
    ((walked 0).rollback ≡ none)
    × ((walked 0).waiting ≡ none)
    × ((walked 0).gates_released ≡ "canary" ∷ [])
    × (advanced_names (walked 0).steps ≡ "canary" ∷ "rest" ∷ [])
unfolding canary_walk canary_wave run_wave_nodes push_nodes push_node desired_for_node desired_for
    next_version_for bump entry_of conclude_wave_multi divergences divergence_of expected_of
    after_acks after_analysis analyze_wave baseline_ids reset_many remove open_spend_window
    assemble_telemetry node_telemetry window_for node_windowed_spend insert get text_ord analyze
    has_samples error_breach latency_breach anomaly_breach aggregate_error_rate total pooled_p99
    samples_of percentile spend_breach mean_spend spend_rates ◌/f◌ ◌*f◌ ◌+f◌ ◌-f◌ above of_u64
    literal sum_from gates_after await_gate set_wave_commit freeze frozen_commit advanced_names
    zscore_of mean_std squares rollback_wave push_back revert_wave_commit delivered_hash
    node_total_spend
passes_and_goes_on = (refl, refl, refl, refl)

canary_walk-plain_example :
    ((walked 0).plane.fleet, (walked 0).steps, (walked 0).halted_at)
    ≡ walk answer [] fleet "c1" 0 waves
canary_walk-plain_example =
    canary_walk-plain policy (elapse 0) answer [] polls none (some old) "c1" 0 waves plane
      passes_and_goes_on.0 passes_and_goes_on.1

-- the canary's nodes fail: its wave is rolled back, and the next one is frozen
bad_canary_rolls_back :
    (frozen_commit (walked 90).plane.fleet "canary" ≡ "c0")
    × (delivered_hash (walked 90).plane.fleet "n1" ≡ some "h0")
    × (delivered_hash (walked 90).plane.fleet "n2" ≡ none)
    × (advanced_names (walked 90).steps ≡ [])
unfolding canary_walk canary_wave run_wave_nodes push_nodes push_node desired_for_node desired_for
    next_version_for bump entry_of conclude_wave_multi divergences divergence_of expected_of
    after_acks after_analysis analyze_wave baseline_ids reset_many remove open_spend_window
    assemble_telemetry node_telemetry window_for node_windowed_spend insert get text_ord analyze
    has_samples error_breach latency_breach anomaly_breach aggregate_error_rate total pooled_p99
    samples_of percentile spend_breach mean_spend spend_rates ◌/f◌ ◌*f◌ ◌+f◌ ◌-f◌ above of_u64
    literal sum_from gates_after await_gate set_wave_commit freeze frozen_commit advanced_names
    zscore_of mean_std squares rollback_wave push_back revert_wave_commit delivered_hash
    node_total_spend
bad_canary_rolls_back = (refl, refl, refl, refl)
