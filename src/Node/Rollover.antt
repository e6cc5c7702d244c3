-- ===== src/Node/Rollover.antt =====
-- crates/gatewayd/src/budget.rs, `roll` and `sync_terms`: the billing windows of an entry.
use smallgateway.Prelude.{ℕ, ◌≡◌, true, ◌&&◌, Option, none, some, arith, ◌==◌, if◌then◌else◌}
use smallgateway.Budget.{Date, Window, CapTerms, new_latch, reset_window_spend}
use smallgateway.Node.{Entry, rank, same_window, roll, sync_terms, window_id_at}

rank-injective : (v w : Option Window) → rank v ≡ rank w → v ≡ w
rank-injective v w h = ground arith

pub same_window-eq : (v w : Option Window) → same_window v w ≡ true → v ≡ w
same_window-eq v w h = rank-injective v w (ground arith)

module _ (from_timestamp : ℕ → Option Date) where
  -- the counters of `e` belong to the window that the clock is in
  abbrev pub IsCurrent : Entry → ℕ → Type 0
  IsCurrent e now = window_id_at from_timestamp e.window now ≡ e.window_id

  pub record IsLifetimeZero (e : Entry) : Type 0 where
    pub id_zero : e.window ≡ none → e.window_id ≡ 0

  pub roll_current : (e : Entry) (now : ℕ) → e.window ≡ none → roll from_timestamp e now ≡ e
  unfolding roll
  roll_current e now h = ground arith

  pub roll_same : (e : Entry) (now : ℕ) → IsCurrent e now → roll from_timestamp e now ≡ e
  unfolding roll
  roll_same e now h = ground arith

  -- Bringing an entry up to date leaves it in the window of the clock and of the terms; the spend
  -- and the fired alerts stay where that is the window they belong to, and start over where it is
  -- not. The cap and the share are never touched.
  pub sync_terms_effect :
      (e : Entry) (t : CapTerms) (now : ℕ)
      → IsLifetimeZero e
      → let e' = sync_terms from_timestamp e (some t) now in
        let fresh =
          same_window e.window t.window
          && (window_id_at from_timestamp t.window now == e.window_id) in
        (e'.window ≡ t.window)
        × IsCurrent e' now
        × IsLifetimeZero e'
        × (e'.budget.spent ≡ (if fresh then e.budget.spent else 0))
        × (e'.latch ≡ (if fresh then e.latch else new_latch))
        × (e'.budget.cap ≡ e.budget.cap)
        × (e'.budget.share ≡ e.budget.share)
  unfolding sync_terms roll reset_window_spend
  sync_terms_effect e t now z = ground (arith, same_window-eq e.window t.window)
