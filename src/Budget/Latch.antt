-- ===== src/Budget/Latch.antt =====
-- crates/gateway-core/src/budget.rs, `AlertLatch`: how often the alerts fire.
use smallgateway.Prelude.{
  ℕ, ◌+◌, ◌≤◌, ◌<◌, ◌≡◌, Bool, true, false, List, [], ◌∷◌, ◌++◌, String, arith, leb, if◌then◌else◌,
}
use smallgateway.Float.{F64}
use smallgateway.Budget.{
  Alert, AlertKind, AlertLatch, CapId, soft_threshold, hard_cap, cross, past_soft,
}

abbrev pub flag : Bool → ℕ
flag true = 1
flag false = 0

abbrev soft_of : AlertKind → ℕ
soft_of (soft_threshold f) = 1
soft_of hard_cap = 0

abbrev hard_of : AlertKind → ℕ
hard_of (soft_threshold f) = 0
hard_of hard_cap = 1

abbrev pub soft_count : List Alert → ℕ
soft_count [] = 0
soft_count (a ∷ as') = soft_of a.kind + soft_count as'

abbrev pub hard_count : List Alert → ℕ
hard_count [] = 0
hard_count (a ∷ as') = hard_of a.kind + hard_count as'

pub soft_count-append : (xs ys : List Alert) → soft_count (xs ++ ys) ≡ soft_count xs + soft_count ys
soft_count-append [] ys = omega arith
soft_count-append (x ∷ xs) ys = omega (arith, soft_count-append xs ys)

pub hard_count-append : (xs ys : List Alert) → hard_count (xs ++ ys) ≡ hard_count xs + hard_count ys
hard_count-append [] ys = omega arith
hard_count-append (x ∷ xs) ys = omega (arith, hard_count-append xs ys)

-- a reading of the counter: the cap, the spend, the alert fraction
pub record Reading : Type 0 where
  pub limit : ℕ
  pub spend : ℕ
  pub fraction : F64

module _ (id : CapId) (node : String) where
  pub cross_counts :
      (l : AlertLatch) (limit spend : ℕ) (fraction : F64)
      → let (l', alerts) = cross l id limit spend node fraction in
        (soft_count alerts + flag l.soft_fired ≡ flag l'.soft_fired)
        × (hard_count alerts + flag l.hard_fired ≡ flag l'.hard_fired)
  unfolding cross
  cross_counts l limit spend fraction = ground arith

  -- all alerts of a row of readings with no reset between them
  unfoldable pub cross_all : AlertLatch → List Reading → List Alert
  cross_all l [] = []
  cross_all l (r ∷ rs) =
      (cross l id r.limit r.spend node r.fraction).1
      ++ cross_all (cross l id r.limit r.spend node r.fraction).0 rs

  -- Between two resets each of the two alerts fires at most once, and one that has fired stays
  -- silent, however often the spend is read and whatever cap and threshold are in force.
  pub cross_once :
      (l : AlertLatch) (readings : List Reading)
      → (soft_count (cross_all l readings) + flag l.soft_fired ≤ 1)
        × (hard_count (cross_all l readings) + flag l.hard_fired ≤ 1)
  unfolding cross_all
  cross_once l [] = ground arith
  cross_once l (r ∷ rs) =
      let (l', alerts) = cross l id r.limit r.spend node r.fraction in
      omega (
        arith,
        cross_counts l r.limit r.spend r.fraction,
        cross_once l' rs,
        soft_count-append alerts (cross_all l' rs),
        hard_count-append alerts (cross_all l' rs),
      )

-- A reading of a capped value leaves the latch fired exactly where the threshold has been met, now
-- or before: no crossing is missed.
pub cross_fires :
    (l : AlertLatch) (id : CapId) (limit spend : ℕ) (node : String) (fraction : F64)
    → 0 < limit
    → let l' = (cross l id limit spend node fraction).0 in
      (l'.soft_fired ≡ (if past_soft limit spend fraction then true else l.soft_fired))
      × (l'.hard_fired ≡ (if leb limit spend then true else l.hard_fired))
unfolding cross
cross_fires l id limit spend node fraction pos = ground arith
