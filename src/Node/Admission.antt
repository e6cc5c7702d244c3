-- ===== src/Node/Admission.antt =====
-- crates/gatewayd/src/budget.rs, `admit` and `meter` on an entry of the current window.
use smallgateway.Prelude.{ℕ, ◌≤◌, ◌<◌, ◌≡◌, ◌≢◌, false, Option, some, arith, if◌then◌else◌}
use smallgateway.Prelude.BTree.{get, get-insert}
use smallgateway.Float.{u64_max}
use smallgateway.Budget.{Date, CapTerms, CapId, cap_id_ord, commit, deny, check, check_partitioned}
use smallgateway.Budget.Local.{check-deny_iff}
use smallgateway.Node.{
  Entry, NodeBudgets, continue, roll, sync_terms, touch, ensure, admit, meter, outcome_of,
}
use smallgateway.Node.Rollover.{IsCurrent}

module _ (from_timestamp : ℕ → Option Date) where
  -- the terms name the window that the entry counts in, and the clock is in that window
  pub record IsFresh (e : Entry) (t : CapTerms) (now : ℕ) : Type 0 where
    pub window : e.window ≡ t.window
    pub current : IsCurrent from_timestamp e now

  pub touch_fresh :
      (b : NodeBudgets) (id : CapId) (t : CapTerms) (now : ℕ) (e : Entry)
      → get id b.inner ≡ some e
      → IsFresh e t now
      → touch from_timestamp b id (some t) now ≡ record e { alert_fraction = t.alert_fraction }
  unfolding touch sync_terms ensure roll
  touch_fresh b id t now e found h = ground (arith, h.window, h.current)

  -- For an entry in its window, an admission is decided by the cap that the entry was made with.
  -- Terms with another cap, as a config swap brings them, change nothing: a raised cap still
  -- refuses at the old one, and a lowered cap is not yet enforced.
  pub admit_ignores_new_cap :
      (b : NodeBudgets) (id : CapId) (t : CapTerms) (now : ℕ) (e : Entry)
      → get id b.inner ≡ some e
      → IsFresh e t now
      → (admit from_timestamp b id (some t) now).1
        ≡ (if b.partitioned then check_partitioned e.budget 1 else check e.budget 1)
  unfolding admit
  admit_ignores_new_cap b id t now e found h = rw (touch_fresh b id t now e found h)

  pub meter_outcome :
      (b : NodeBudgets) (id : CapId) (t : CapTerms) (tokens now : ℕ) (e : Entry)
      → get id b.inner ≡ some e
      → IsFresh e t now
      → (meter from_timestamp b id (some t) tokens now).1
        ≡ outcome_of b.partitioned id (some t) (commit e.budget tokens)
  unfolding meter
  meter_outcome b id t tokens now e found h = rw (touch_fresh b id t now e found h)

  -- A connected node refuses whoever has used up the cap that the entry was made with, however high
  -- the cap of the request's terms is, and names the old cap, while the same spend metered against
  -- these terms is not cut.
  pub admit_denies_at_old_cap :
      (b : NodeBudgets) (id : CapId) (t : CapTerms) (now old : ℕ) (e : Entry)
      → get id b.inner ≡ some e
      → IsFresh e t now
      → b.partitioned ≡ false
      → e.budget.cap ≡ some old
      → old ≤ e.budget.spent
      → e.budget.spent < t.cap
      → t.cap ≤ u64_max
      → ((admit from_timestamp b id (some t) now).1 ≡ deny old)
        × ((meter from_timestamp b id (some t) 1 now).1 ≡ continue)
  admit_denies_at_old_cap b id t now old e found h connected capped used raised fits = (
    rw (admit_ignores_new_cap b id t now e found h, connected)
        ((check-deny_iff e.budget 1 old).1 (capped, omega arith)),
    rw (meter_outcome b id t 1 now e found h, connected) (unfold outcome_of commit in ground arith),
  )

  -- An operation on one capped value leaves the entries of all others alone.
  pub admit-get_ne :
      (b : NodeBudgets) (id other : CapId) (terms : Option CapTerms) (now : ℕ)
      → other ≢ id
      → get other (admit from_timestamp b id terms now).0.inner ≡ get other b.inner
  unfolding admit
  admit-get_ne b id other terms now ne = ground (
    arith,
    get-insert id other (touch from_timestamp b id terms now) b.inner,
    cap_id_ord.eq_of_cmp other id,
  )
