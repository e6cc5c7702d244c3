-- ===== src/Canary/Verdicts.antt =====
-- crates/gatewayctl/src/canary.rs, `analyze`: what a failed analysis says.
use smallgateway.Prelude.{
  ◌≡◌, ◌⊎◌, inl, inr, refl, Bool, true, false, ◌&&◌, ◌||◌, Option, none, some, arith, ltb, ◌==◌,
  if◌then◌else◌, Bool-cases,
}
use smallgateway.Float.{F64, ◌*f◌, ◌/f◌}
use smallgateway.Float.Signed.{◌-f◌, above}
use smallgateway.Canary.{
  CanaryPolicy, WaveTelemetry, aggregate_error_rate, pooled_p99, mean_spend, spend_rates,
  has_samples, Breach, error_rate_breach, p99_breach, spend_anomaly_breach, Analysis, pass, fail,
  no_data, zscore_of, beyond, spend_breach, error_breach, p99_over, latency_breach, anomaly_breach,
  fail_or, analyze,
}

module _ (p : CanaryPolicy) (canary baseline : WaveTelemetry) where
  -- the breach is of an enabled metric, has the values that were measured, and these pass the limit
  abbrev pub Explains : Breach → Type 0
  Explains (error_rate_breach b c limit) =
      (p.metrics.error_rate ≡ true)
      × ((b ≡ aggregate_error_rate baseline)
          × (c ≡ aggregate_error_rate canary)
          × (limit ≡ p.max_error_rate_increase))
      × (above (c -f b) limit ≡ true)
  Explains (p99_breach b c factor) =
      (p.metrics.p99 ≡ true)
      × ((pooled_p99 baseline ≡ some b)
          × (pooled_p99 canary ≡ some c)
          × (factor ≡ p.max_p99_factor))
      × (ltb (b *f factor) c ≡ true)
  Explains (spend_anomaly_breach b c factor max_factor zscore limit) =
      (p.metrics.spend_anomaly ≡ true)
      × ((b ≡ mean_spend baseline)
          × (c ≡ mean_spend canary)
          × (max_factor ≡ p.max_spend_factor)
          × (limit ≡ p.spend_zscore))
      × (((b ≡ 0) × (factor ≡ none) × (ltb 0 c ≡ true))
          ⊎ ((factor ≡ some (c /f b))
              × (zscore ≡ zscore_of c (spend_rates baseline))
              × ((ltb max_factor (c /f b) || beyond zscore limit) ≡ true)))

  abbrev Found : Option Breach → Type 0
  Found none = Unit
  Found (some b) = Explains b

  Found-if :
      (test : Bool) (b : Breach)
      → (test ≡ true → Explains b)
      → Found (if test then some b else none)
  Found-if true b h = h refl
  Found-if false b h = tt

  Found-gate :
      (test : Bool) (o : Option Breach) → (test ≡ true → Found o) → Found (if test then o else none)
  Found-gate true o h = h refl
  Found-gate false o h = tt

  and-both : (x y : Bool) → (x && y) ≡ true → (x ≡ true) × (y ≡ true)
  and-both true y h = (refl, h)
  and-both false y h = absurd (cc)

  error_breach-Found : Found (error_breach p canary baseline)
  unfolding error_breach
  error_breach-Found =
      let c = aggregate_error_rate canary in
      let b = aggregate_error_rate baseline in
      let exceeds = above (c -f b) p.max_error_rate_increase in
      Found-if (p.metrics.error_rate && exceeds) (error_rate_breach b c p.max_error_rate_increase)
        (λ h.
          let both = and-both p.metrics.error_rate exceeds h in
          (both.0, (refl, refl, refl), both.1))

  p99_over-Found :
      (c b : Option F64)
      → p.metrics.p99 ≡ true
      → pooled_p99 canary ≡ c
      → pooled_p99 baseline ≡ b
      → Found (p99_over p.max_p99_factor c b)
  p99_over-Found none b on hc hb = tt
  p99_over-Found (some c) none on hc hb = tt
  p99_over-Found (some c) (some b) on hc hb =
      let exceeds = ltb (b *f p.max_p99_factor) c in
      Found-if (ltb 0 b && exceeds) (p99_breach b c p.max_p99_factor)
        (λ h. (on, (hb, hc, refl), (and-both (ltb 0 b) exceeds h).1))

  latency_breach-Found : Found (latency_breach p canary baseline)
  unfolding latency_breach
  latency_breach-Found =
      Found-gate p.metrics.p99 (p99_over p.max_p99_factor (pooled_p99 canary) (pooled_p99 baseline))
        (λ on. p99_over-Found (pooled_p99 canary) (pooled_p99 baseline) on refl refl)

  spend_breach-Found : p.metrics.spend_anomaly ≡ true → Found (spend_breach p canary baseline)
  unfolding spend_breach
  spend_breach-Found on =
      let c = mean_spend canary in
      let b = mean_spend baseline in
      let zscore = zscore_of c (spend_rates baseline) in
      let exceeds = ltb p.max_spend_factor (c /f b) || beyond zscore p.spend_zscore in
      elim (Bool-cases (b == 0)) [
        | inl nothing ↦ rw nothing (
            Found-if (ltb 0 c)
              (spend_anomaly_breach b c none p.max_spend_factor none p.spend_zscore)
              (λ h. (on, (refl, refl, refl, refl), inl (ground (arith, nothing), refl, h))))
        | inr spent ↦ rw spent (
            Found-if exceeds
              (spend_anomaly_breach b c (some (c /f b)) p.max_spend_factor zscore p.spend_zscore)
              (λ h. (on, (refl, refl, refl, refl), inr (refl, refl, h))))
      ]

  anomaly_breach-Found : Found (anomaly_breach p canary baseline)
  unfolding anomaly_breach
  anomaly_breach-Found =
      Found-gate p.metrics.spend_anomaly (spend_breach p canary baseline) spend_breach-Found

  -- what an analysis may say: a failure is explained, a pass past a sampled baseline found no breach, and
  -- there is no data exactly if the canary has none
  abbrev pub IsSound : Analysis → Type 0
  IsSound pass =
      (has_samples canary ≡ true)
      × ((has_samples baseline ≡ false)
          ⊎ ((error_breach p canary baseline ≡ none)
              × (latency_breach p canary baseline ≡ none)
              × (anomaly_breach p canary baseline ≡ none)))
  IsSound (fail b) = (has_samples canary ≡ true) × (has_samples baseline ≡ true) × Explains b
  IsSound no_data = has_samples canary ≡ false

  metrics-IsSound :
      (x y z : Option Breach)
      → has_samples canary ≡ true
      → has_samples baseline ≡ true
      → error_breach p canary baseline ≡ x
      → latency_breach p canary baseline ≡ y
      → anomaly_breach p canary baseline ≡ z
      → Found x
      → Found y
      → Found z
      → IsSound (fail_or x (fail_or y (fail_or z pass)))
  metrics-IsSound (some b) y z hc hb ex ey ez x_found y_found z_found = (hc, hb, x_found)
  metrics-IsSound none (some b) z hc hb ex ey ez x_found y_found z_found = (hc, hb, y_found)
  metrics-IsSound none none (some b) hc hb ex ey ez x_found y_found z_found = (hc, hb, z_found)
  metrics-IsSound none none none hc hb ex ey ez x_found y_found z_found = (hc, inr (ex, ey, ez))

  pub analyze-IsSound : IsSound (analyze p canary baseline)
  unfolding analyze
  analyze-IsSound = elim (Bool-cases (has_samples canary)) [
    | inr empty ↦ rw empty empty
    | inl sampled ↦ elim (Bool-cases (has_samples baseline)) [
      | inr alone ↦ rw (sampled, alone) (sampled, inl alone)
      | inl compared ↦
          rw (sampled, compared)
            (metrics-IsSound (error_breach p canary baseline) (latency_breach p canary baseline)
              (anomaly_breach p canary baseline) sampled compared refl refl refl error_breach-Found
              latency_breach-Found anomaly_breach-Found)
    ]
  ]
