-- ===== src/Canary.antt =====
-- crates/gatewayctl/src/canary.rs: the policy of a canary and the analysis of its telemetry. The infinite
-- factor of a spend that grew from nothing stands as `none`. `describe` is left out.
pub mod Verdicts
pub mod Policies
use smallgateway.Prelude.{
  ◌%◌, ◌^◌, ℕ, ◌-◌, String, Bool, true, false, ◌&&◌, ◌||◌, not, Option, none, some, List, [], ◌∷◌,
  ◌++◌, min, length, leb, ltb, ◌==◌, if◌then◌else◌, unwrap_or, str_mem, get_elem?, is_blank, Result,
  ok, err,
}
use smallgateway.Prelude.Order.{text_ord}
use smallgateway.Prelude.BTree.{BTreeMap, values, total}
use smallgateway.Float.{F64, one, of_u64, literal, ◌*f◌, ◌/f◌}
use smallgateway.Float.Signed.{Signed, sum_from, ◌-f◌, above, over, square, sqrt, round_u64}

abbrev pub default_window_secs : ℕ
default_window_secs = 60

abbrev pub min_baseline_for_zscore : ℕ
min_baseline_for_zscore = 3

pub record EnabledMetrics : Type 0 where
  pub error_rate : Bool
  pub p99 : Bool
  pub spend_anomaly : Bool

pub record CanaryPolicy : Type 0 where
  pub enabled : Bool
  pub metrics : EnabledMetrics
  pub window_secs : ℕ
  pub max_error_rate_increase : F64
  pub max_p99_factor : F64
  pub max_spend_factor : F64
  pub spend_zscore : F64
  pub manual_gate_after : List String

abbrev pub all_metrics : EnabledMetrics
all_metrics = record { error_rate = true; p99 = true; spend_anomaly = true }

abbrev pub default_policy : CanaryPolicy
default_policy = record {
  enabled = false;
  metrics = all_metrics;
  window_secs = default_window_secs;
  max_error_rate_increase = literal 5 100;
  max_p99_factor = literal 15 10;
  max_spend_factor = literal 2 1;
  spend_zscore = literal 3 1;
  manual_gate_after = [];
}

unfoldable pub gates_after : CanaryPolicy → String → Bool
gates_after p wave = str_mem wave p.manual_gate_after

pub record NodeTelemetry : Type 0 where
  pub requests : ℕ
  pub errors : ℕ
  pub latencies_ms : List F64
  pub spent : ℕ

abbrev pub WaveTelemetry : Type 0
WaveTelemetry = BTreeMap String NodeTelemetry

abbrev pub rate : ℕ → ℕ → F64
rate requests errors = if requests == 0 then 0 else of_u64 errors /f of_u64 requests

unfoldable pub error_rate : NodeTelemetry → F64
error_rate t = rate t.requests t.errors

unfoldable pub aggregate_error_rate : WaveTelemetry → F64
aggregate_error_rate w =
    rate (total (λ t. t.requests) w % 2 ^ 64) (total (λ t. t.errors) w % 2 ^ 64)

unfoldable pub samples_of : WaveTelemetry → List F64
samples_of [] = []
samples_of ((id, t) ∷ w) = t.latencies_ms ++ samples_of w

unfoldable pub insert_sorted : F64 → List F64 → List F64
insert_sorted x [] = x ∷ []
insert_sorted x (y ∷ ys) = if leb x y then x ∷ y ∷ ys else y ∷ insert_sorted x ys

unfoldable pub sort_samples : List F64 → List F64
sort_samples [] = []
sort_samples (x ∷ xs) = insert_sorted x (sort_samples xs)

unfoldable pub percentile : List F64 → F64 → Option F64
percentile [] q = none
percentile (x ∷ xs) q =
    let last = length (x ∷ xs) - 1 in
    let rank = round_u64 (q *f (of_u64 (length (x ∷ xs)) -f one).size) in
    get_elem? (sort_samples (x ∷ xs)) (min rank last)

unfoldable pub pooled_p99 : WaveTelemetry → Option F64
pooled_p99 w = percentile (samples_of w) (literal 99 100)

unfoldable pub spend_rates : WaveTelemetry → List F64
spend_rates [] = []
spend_rates ((id, t) ∷ w) = of_u64 t.spent ∷ spend_rates w

abbrev pub mean : List F64 → F64
mean values = sum_from 0 values /f of_u64 (length values)

unfoldable pub mean_spend : WaveTelemetry → F64
mean_spend w = elim (spend_rates w) [ [] ↦ 0 | x ∷ xs ↦ mean (x ∷ xs) ]

abbrev pub is_sampled : NodeTelemetry → Bool
is_sampled t = ltb 0 t.requests || ltb 0 (length t.latencies_ms) || ltb 0 t.spent

unfoldable pub has_samples : WaveTelemetry → Bool
has_samples [] = false
has_samples ((id, t) ∷ w) = is_sampled t || has_samples w

unfoldable pub squares : F64 → List F64 → List F64
squares m [] = []
squares m (v ∷ vs) = square (v -f m) ∷ squares m vs

unfoldable pub mean_std : List F64 → Option (F64 × F64)
mean_std [] = none
mean_std (v ∷ vs) =
    let m = mean (v ∷ vs) in
    some (m, sqrt (sum_from 0 (squares m (v ∷ vs)) /f of_u64 (length (v ∷ vs))))

-- a factor is `none` where it is infinite
pub data Breach : Type 0 where
  error_rate_breach : F64 → F64 → F64 → Breach
  p99_breach : F64 → F64 → F64 → Breach
  spend_anomaly_breach : F64 → F64 → Option F64 → F64 → Option Signed → F64 → Breach

pub data Analysis : Type 0 where
  pass : Analysis
  fail : Breach → Analysis
  no_data : Analysis

unfoldable pub is_pass : Analysis → Bool
is_pass pass = true
is_pass (fail b) = false
is_pass no_data = false

-- the z-score, where the baseline has enough nodes and they differ
unfoldable pub zscore_of : F64 → List F64 → Option Signed
zscore_of canary_mean rates = elim (mean_std rates) [
  | none ↦ none
  | some (m, sd) ↦
      if leb min_baseline_for_zscore (length rates) && ltb 0 sd
      then some (over (canary_mean -f m) sd)
      else none
]

abbrev pub beyond : Option Signed → F64 → Bool
beyond none limit = false
beyond (some z) limit = above z limit

unfoldable pub spend_breach : CanaryPolicy → WaveTelemetry → WaveTelemetry → Option Breach
spend_breach p canary baseline =
    let c = mean_spend canary in
    let b = mean_spend baseline in
    let factor = c /f b in
    let zscore = zscore_of c (spend_rates baseline) in
    if b == 0
    then if ltb 0 c
      then some (spend_anomaly_breach b c none p.max_spend_factor none p.spend_zscore)
      else none
    else if ltb p.max_spend_factor factor || beyond zscore p.spend_zscore
    then some (spend_anomaly_breach b c (some factor) p.max_spend_factor zscore p.spend_zscore)
    else none

-- the three metrics of `analyze`, each the breach that it finds where it is enabled
unfoldable pub error_breach : CanaryPolicy → WaveTelemetry → WaveTelemetry → Option Breach
error_breach p canary baseline =
    let b = aggregate_error_rate baseline in
    let c = aggregate_error_rate canary in
    if p.metrics.error_rate && above (c -f b) p.max_error_rate_increase
    then some (error_rate_breach b c p.max_error_rate_increase)
    else none

abbrev pub p99_over : F64 → Option F64 → Option F64 → Option Breach
p99_over factor (some c) (some b) =
    if ltb 0 b && ltb (b *f factor) c then some (p99_breach b c factor) else none
p99_over factor none b = none
p99_over factor (some c) none = none

unfoldable pub latency_breach : CanaryPolicy → WaveTelemetry → WaveTelemetry → Option Breach
latency_breach p canary baseline =
    if p.metrics.p99
    then p99_over p.max_p99_factor (pooled_p99 canary) (pooled_p99 baseline)
    else none

unfoldable pub anomaly_breach : CanaryPolicy → WaveTelemetry → WaveTelemetry → Option Breach
anomaly_breach p canary baseline =
    if p.metrics.spend_anomaly then spend_breach p canary baseline else none

abbrev pub fail_or : Option Breach → Analysis → Analysis
fail_or none later = later
fail_or (some b) later = fail b

unfoldable pub analyze : CanaryPolicy → WaveTelemetry → WaveTelemetry → Analysis
analyze p canary baseline =
    if not (has_samples canary)
    then no_data
    else if not (has_samples baseline)
    then pass
    else fail_or (error_breach p canary baseline) (
        fail_or (latency_breach p canary baseline)
          (fail_or (anomaly_breach p canary baseline) pass))

pub record MetricsFile : Type 0 where
  pub error_rate : Option Bool
  pub p99 : Option Bool
  pub spend_anomaly : Option Bool

-- what `serde_yaml` reads, with its defaults; the numbers are signed
pub record CanaryFile : Type 0 where
  pub enabled : Bool
  pub metrics : Option MetricsFile
  pub window_secs : Option ℕ
  pub max_error_rate_increase : Option Signed
  pub max_p99_factor : Option Signed
  pub max_spend_factor : Option Signed
  pub spend_zscore : Option Signed
  pub manual_gate_after : List String

pub data CanaryPolicyError : Type 0 where
  yaml_error : String → CanaryPolicyError
  bad_p99_factor bad_spend_factor bad_error_rate_increase bad_zscore : CanaryPolicyError

abbrev pub metrics_of : Option MetricsFile → EnabledMetrics
metrics_of none = all_metrics
metrics_of (some m) = record {
  error_rate = unwrap_or m.error_rate true;
  p99 = unwrap_or m.p99 true;
  spend_anomaly = unwrap_or m.spend_anomaly true;
}

abbrev pub plain : F64 → Signed
plain x = record { negative = false; size = x }

abbrev pub is_positive : Signed → Bool
is_positive x = not x.negative && ltb 0 x.size

-- a value of -0.0 or above, and at most 1.0
abbrev pub is_fraction : Signed → Bool
is_fraction x = (not x.negative && leb x.size one) || x.size == 0

-- the checks of the numbers, in their order, and the policy
unfoldable pub policy_of : CanaryFile → Result CanaryPolicyError CanaryPolicy
policy_of file =
    let d = default_policy in
    let increase = unwrap_or file.max_error_rate_increase (plain d.max_error_rate_increase) in
    let p99_factor = unwrap_or file.max_p99_factor (plain d.max_p99_factor) in
    let spend_factor = unwrap_or file.max_spend_factor (plain d.max_spend_factor) in
    let zscore = unwrap_or file.spend_zscore (plain d.spend_zscore) in
    if not (is_positive p99_factor)
    then err bad_p99_factor
    else if not (is_positive spend_factor)
    then err bad_spend_factor
    else if not (is_fraction increase)
    then err bad_error_rate_increase
    else if not (is_positive zscore)
    then err bad_zscore
    else ok (record {
      enabled = file.enabled;
      metrics = metrics_of file.metrics;
      window_secs = unwrap_or file.window_secs d.window_secs;
      max_error_rate_increase = increase.size;
      max_p99_factor = p99_factor.size;
      max_spend_factor = spend_factor.size;
      spend_zscore = zscore.size;
      manual_gate_after = file.manual_gate_after;
    })

abbrev pub read_file : Result String CanaryFile → Result CanaryPolicyError CanaryPolicy
read_file (err e) = err (yaml_error e)
read_file (ok file) = policy_of file

unfoldable pub parse_canary_policy :
    (String → Result String CanaryFile) → String → Result CanaryPolicyError CanaryPolicy
parse_canary_policy from_str yaml =
    if is_blank yaml then ok default_policy else read_file (from_str yaml)
