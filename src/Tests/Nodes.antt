-- ===== src/Tests/Nodes.antt =====
-- The counters of a data plane at concrete inputs, among them a swapped cap.
use smallgateway.Prelude.{
  ℕ, ◌+◌, ◌≤◌, ◌≡◌, ◌≢◌, refl, false, Option, none, some, [], ◌∷◌, arith, max, eq_iff,
}
use smallgateway.Prelude.Order.{text_ord}
use smallgateway.Prelude.BTree.{get}
use smallgateway.Float.{literal}
use smallgateway.Budget.{CapId, cap_id_ord, CapTerms, Date, new_latch, hour, deny}
use smallgateway.Node.{Entry, NodeBudgets, continue, admit, meter}
use smallgateway.Node.Admission.{IsFresh, admit_denies_at_old_cap}
use smallgateway.Node.Stream.{stream, spent_at, bound, stream_overshoot}

-- a clock that never leaves January 2026
abbrev clock : ℕ → Option Date
clock now = some (record { year = 2026; month0 = 0 })

abbrev acme : CapId
acme = record { key = "team"; value = "acme" }

abbrev beta : CapId
beta = record { key = "team"; value = "beta" }

-- an entry made with a cap of 100, used up
abbrev used_up : Entry
used_up = record {
  budget = record { id = acme; cap = some 100; share = 100; spent = 100 };
  latch = new_latch;
  window = none;
  window_id = 0;
  alert_fraction = literal 8 10;
}

abbrev node : NodeBudgets
node = record { node_id = "n1"; inner = (acme, used_up) ∷ []; partitioned = false; emitted = [] }

-- the terms after a config swap raised the cap
abbrev raised : CapTerms
raised = record { cap = 1000; window = none; alert_fraction = literal 8 10 }

found : get acme node.inner ≡ some used_up
unfolding get cap_id_ord text_ord
found = refl

fresh : IsFresh clock used_up raised 7
fresh = record { window = refl; current = refl }

admit_denies_at_old_cap_example :
    ((admit clock node acme (some raised) 7).1 ≡ deny 100)
    × ((meter clock node acme (some raised) 1 7).1 ≡ continue)
admit_denies_at_old_cap_example =
    admit_denies_at_old_cap clock node acme raised 7 100 used_up found fresh refl refl (omega arith)
      (omega arith) (omega arith)

beta_differs : beta.value ≢ acme.value
beta_differs e = cc ((eq_iff "beta" "acme").1 e)

stream_overshoot_example :
    (spent_at clock acme raised 7 (stream clock acme raised 7 node (400 ∷ 400 ∷ 400 ∷ [])).0
      ≤ max 100 (bound clock acme raised 7 node used_up) + 400)
    × ((stream clock acme raised 7 node (400 ∷ 400 ∷ 400 ∷ [])).1 ≡ false
        → spent_at clock acme raised 7 (stream clock acme raised 7 node (400 ∷ 400 ∷ 400 ∷ [])).0
          ≤ max 100 (bound clock acme raised 7 node used_up))
stream_overshoot_example =
    stream_overshoot clock acme raised 7 node (400 ∷ 400 ∷ 400 ∷ []) 400 used_up found fresh
      (omega arith, (omega arith, (omega arith, tt)))

abbrev hourly : CapTerms
hourly = record { cap = 1000; window = some hour; alert_fraction = literal 8 10 }
