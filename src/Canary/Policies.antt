-- ===== src/Canary/Policies.antt =====
-- crates/gatewayctl/src/canary.rs, `parse_canary_policy`: which policies it gives.
use smallgateway.Prelude.{
  ◌≡◌, inl, inr, ◌≤◌, ◌<◌, refl, String, true, false, arith, Result, ok, err, Ensures, Bool-cases,
  is_blank,
}
use smallgateway.Float.{one, literal}
use smallgateway.Canary.{
  CanaryPolicy, CanaryFile, default_policy, policy_of, read_file, parse_canary_policy,
}

-- no limit of the policy is absurd
pub record IsValid (p : CanaryPolicy) : Type 0 where
  pub p99_pos : 0 < p.max_p99_factor
  pub spend_pos : 0 < p.max_spend_factor
  pub increase_le : p.max_error_rate_increase ≤ one
  pub zscore_pos : 0 < p.spend_zscore

policy_of-IsValid : (file : CanaryFile) → Ensures IsValid (policy_of file)
unfolding policy_of
policy_of-IsValid file = ground arith

default_policy-IsValid : IsValid default_policy
unfolding literal one
default_policy-IsValid = omega arith

read_file-IsValid : (r : Result String CanaryFile) → Ensures IsValid (read_file r)
read_file-IsValid (err e) = tt
read_file-IsValid (ok file) = policy_of-IsValid file

-- A policy that is read from a file whose numbers are finite has positive factors, a positive z-score, and
-- an error rate increase of at most 1.0, whatever the file says; and a blank file gives a policy with the
-- canary off.
pub parse_canary_policy-IsValid :
    (from_str : String → Result String CanaryFile) (yaml : String)
    → Ensures IsValid (parse_canary_policy from_str yaml)
      × (is_blank yaml ≡ true
          → Ensures (λ p. p.enabled ≡ false) (parse_canary_policy from_str yaml))
unfolding parse_canary_policy
parse_canary_policy-IsValid from_str yaml = elim (Bool-cases (is_blank yaml)) [
  | inl blank ↦ rw blank (default_policy-IsValid, λ h. refl)
  | inr filled ↦ rw filled (read_file-IsValid (from_str yaml), λ h. absurd (cc))
]
