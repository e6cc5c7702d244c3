-- ===== src/Budget.antt =====
-- crates/gateway-core/src/budget.rs: caps, one node's counter for a cap, and the alert latch.
-- A `&mut self` method returns the new record. `u64` sums saturate where the source says so.
-- The text of an alert (`Display`, the webhook body) and the sinks are output and left out.
pub mod Local
pub mod Caps
pub mod Latch
use Prim.Native.Nat.Ordering.{lt, eq, gt}
use smallgateway.Prelude.{
  ℕ, ◌+◌, ◌-◌, ◌*◌, ◌/◌, String, Bool, true, false, ◌&&◌, not, Option, none, some, List, [], ◌∷◌,
  ◌++◌, ltb, leb, ◌==◌, min, if◌then◌else◌, or_else, unwrap_or, ◌≡◌, arith,
}
use smallgateway.Prelude.Order.{Ord, and_then, text_ord}
use smallgateway.Prelude.BTree.{BTreeMap, get, insert_all}
use smallgateway.Float.{F64, u64_max, of_u64, ◌*f◌, ◌/f◌, ge, literal}

-- `u64::saturating_add`; `saturating_sub` is `◌-◌`
abbrev pub sat_add : ℕ → ℕ → ℕ
sat_add a b = min (a + b) u64_max

unfoldable pub escalation_fraction : F64
escalation_fraction = literal 9 10

unfoldable pub soft_alert_fraction : F64
soft_alert_fraction = literal 8 10

pub record CapId : Type 0 where
  pub key : String
  pub value : String

-- `#[derive(Ord)]`: the fields in turn
abbrev pub cap_id_cmp : CapId → CapId → Prim.Native.Nat.Ordering
cap_id_cmp a b = and_then (text_ord.cmp a.key b.key) (text_ord.cmp a.value b.value)

cap_id_cmp-lt_of_gt : (a b : CapId) → cap_id_cmp a b ≡ gt → cap_id_cmp b a ≡ lt
cap_id_cmp-lt_of_gt a b = ground (
  arith,
  text_ord.eq_of_cmp a.key b.key,
  text_ord.cmp_refl b.key,
  text_ord.lt_of_gt a.key b.key,
  text_ord.lt_of_gt a.value b.value,
)

cap_id_cmp-lt_trans :
    (a b c : CapId) → cap_id_cmp a b ≡ lt → cap_id_cmp b c ≡ lt → cap_id_cmp a c ≡ lt
cap_id_cmp-lt_trans a b c = ground (
  arith,
  text_ord.eq_of_cmp a.key b.key,
  text_ord.eq_of_cmp b.key c.key,
  text_ord.lt_trans a.key b.key c.key,
  text_ord.lt_trans a.value b.value c.value,
)

cap_id_cmp-refl : (a : CapId) → cap_id_cmp a a ≡ eq
cap_id_cmp-refl a = ground (arith, text_ord.cmp_refl a.key, text_ord.cmp_refl a.value)

cap_id_cmp-eq : (a b : CapId) → cap_id_cmp a b ≡ eq → a ≡ b
cap_id_cmp-eq a b =
    ground (arith, text_ord.eq_of_cmp a.key b.key, text_ord.eq_of_cmp a.value b.value)

instance unfoldable pub cap_id_ord : Ord CapId
unfolding cap_id_cmp-refl cap_id_cmp-eq cap_id_cmp-lt_of_gt cap_id_cmp-lt_trans
cap_id_ord = record {
  cmp = cap_id_cmp;
  cmp_refl = cap_id_cmp-refl;
  eq_of_cmp = cap_id_cmp-eq;
  lt_of_gt = cap_id_cmp-lt_of_gt;
  lt_trans = cap_id_cmp-lt_trans;
}

pub data Window : Type 0 where
  minute hour day month : Window

pub Window-discrete : Discrete Window
Window-discrete = hlevel

-- the fields of a date that the source reads: `year()` and `month0()`
pub record Date : Type 0 where
  pub year : ℕ
  pub month0 : ℕ

-- `from_timestamp` is `chrono::DateTime::from_timestamp` of the cast seconds; the epoch is
-- January 1970.
unfoldable pub id_at : (from_timestamp : ℕ → Option Date) → Window → ℕ → ℕ
id_at from_timestamp minute now = now / 60
id_at from_timestamp hour now = now / 3600
id_at from_timestamp day now = now / 86400
id_at from_timestamp month now =
    let d = unwrap_or (from_timestamp now) (record { year = 1970; month0 = 0 }) in
    d.year * 12 + d.month0

pub record CapTerms : Type 0 where
  pub cap : ℕ
  pub window : Option Window
  pub alert_fraction : F64

pub record KeyCap : Type 0 where
  pub default : Option ℕ
  pub overrides : BTreeMap String (Option ℕ)
  pub window : Option Window
  pub alert_fraction : Option F64

unfoldable pub cap_for : KeyCap → String → Option ℕ
cap_for c value = elim (get value c.overrides) [
  | some override_cap ↦ override_cap
  | none ↦ c.default
]

unfoldable pub terms_for : KeyCap → String → Option CapTerms
terms_for c value = elim (cap_for c value) [
  | none ↦ none
  | some cap ↦ some (record {
    cap = cap;
    window = c.window;
    alert_fraction = unwrap_or c.alert_fraction soft_alert_fraction;
  })
]

unfoldable pub compose_child : KeyCap → KeyCap → KeyCap
compose_child c child = record {
  default = or_else child.default c.default;
  overrides = insert_all c.overrides child.overrides;
  window = or_else child.window c.window;
  alert_fraction = or_else child.alert_fraction c.alert_fraction;
}

pub data Verdict : Type 0 where
  allow escalate : Verdict
  deny : ℕ → Verdict

unfoldable pub is_deny : Verdict → Bool
is_deny (deny cap) = true
is_deny _ = false

pub record LocalBudget : Type 0 where
  pub id : CapId
  pub cap : Option ℕ
  pub share : ℕ
  pub spent : ℕ

unfoldable pub new : CapId → Option ℕ → ℕ → LocalBudget
new id cap share = record { id = id; cap = cap; share = share; spent = 0 }

unfoldable pub remaining : LocalBudget → ℕ
remaining b = elim b.cap [ none ↦ u64_max | some _ ↦ b.share - b.spent ]

unfoldable pub overspend : LocalBudget → ℕ
overspend b = elim b.cap [ none ↦ 0 | some _ ↦ b.spent - b.share ]

unfoldable pub set_share : LocalBudget → ℕ → LocalBudget
set_share b share = record b { share = share }

unfoldable pub consumed_fraction : LocalBudget → F64
consumed_fraction b = elim b.cap [
  | none ↦ 0
  | some _ ↦ if b.share == 0 then 0 else of_u64 b.spent /f of_u64 b.share
]

-- `prospective as f64 >= ESCALATION_FRACTION * self.share as f64`
unfoldable pub past_escalation : ℕ → ℕ → Bool
past_escalation prospective share = ge (of_u64 prospective) (escalation_fraction *f of_u64 share)

unfoldable pub check : LocalBudget → ℕ → Verdict
check b tokens = elim b.cap [
  | none ↦ allow
  | some cap ↦
      let prospective = sat_add b.spent tokens in
      if ltb cap prospective
      then deny cap
      else if ltb 0 b.share && past_escalation prospective b.share
      then escalate
      else allow
]

unfoldable pub check_partitioned : LocalBudget → ℕ → Verdict
check_partitioned b tokens = elim b.cap [
  | none ↦ allow
  | some cap ↦ if ltb (min b.share cap) (sat_add b.spent tokens) then deny cap else allow
]

-- the new total that `commit` returns too is the field `spent`
unfoldable pub commit : LocalBudget → ℕ → LocalBudget
commit b tokens = record b { spent = sat_add b.spent tokens }

unfoldable pub reconcile : LocalBudget → ℕ → ℕ → LocalBudget
reconcile b estimated authoritative =
    if leb estimated authoritative
    then record b { spent = sat_add b.spent (authoritative - estimated) }
    else record b { spent = b.spent - (estimated - authoritative) }

unfoldable pub reset_window_spend : LocalBudget → LocalBudget
reset_window_spend b = record b { spent = 0 }

pub data AlertKind : Type 0 where
  soft_threshold : F64 → AlertKind
  hard_cap : AlertKind

pub record Alert : Type 0 where
  pub kind : AlertKind
  pub id : CapId
  pub cap : ℕ
  pub spend : ℕ
  pub node : String

abbrev pub alert : AlertKind → CapId → ℕ → ℕ → String → Alert
alert kind id limit spend node = record {
  kind = kind;
  id = id;
  cap = limit;
  spend = spend;
  node = node;
}

pub record AlertLatch : Type 0 where
  pub soft_fired : Bool
  pub hard_fired : Bool

abbrev pub new_latch : AlertLatch
new_latch = record { soft_fired = false; hard_fired = false }

-- `spend as f64 / cap as f64 >= soft_fraction`
unfoldable pub past_soft : ℕ → ℕ → F64 → Bool
past_soft cap spend soft_fraction = ge (of_u64 spend /f of_u64 cap) soft_fraction

unfoldable pub cross : AlertLatch → CapId → ℕ → ℕ → String → F64 → AlertLatch × List Alert
cross l id limit spend node soft_fraction =
    let soft = not l.soft_fired && past_soft limit spend soft_fraction in
    let hard = not l.hard_fired && leb limit spend in
    if limit == 0 then (l, []) else (
      record {
        soft_fired = if soft then true else l.soft_fired;
        hard_fired = if hard then true else l.hard_fired;
      },
      (if soft then alert (soft_threshold soft_fraction) id limit spend node ∷ [] else [])
          ++ (if hard then alert hard_cap id limit spend node ∷ [] else []),
    )

unfoldable pub reset : AlertLatch → AlertLatch
reset l = record l { soft_fired = false; hard_fired = false }
