-- ===== src/Store.antt =====
-- crates/gatewayctl/src/store.rs: what the control plane last heard from each node. The mutex is
-- dropped, the clock reading is an argument.
pub mod Counters
use smallgateway.Prelude.{
  ℕ, ◌+◌, String, Bool, true, false, Option, none, some, List, [], ◌∷◌, ltb, min, if◌then◌else◌,
}
use smallgateway.Prelude.Order.{text_ord}
use smallgateway.Prelude.BTree.{BTreeMap, get, insert}
use smallgateway.Float.{u64_max}
use smallgateway.Waves.{Labels}

abbrev pub u32_max : ℕ
u32_max = 4294967295

pub record NodeState : Type 0 where
  pub node_id : String
  pub labels : Labels
  pub last_acked_version : Option ℕ
  pub last_acked_hash : Option String
  pub last_nack : Option (ℕ × String)
  pub consecutive_nacks : ℕ
  pub observed_hash : Option String
  pub health : Option String
  pub last_seen : ℕ
  pub connected : Bool
  pub break_glass_until : Option ℕ

unfoldable pub new : String → Labels → ℕ → NodeState
new node_id labels now = record {
  node_id = node_id;
  labels = labels;
  last_acked_version = none;
  last_acked_hash = none;
  last_nack = none;
  consecutive_nacks = 0;
  observed_hash = none;
  health = none;
  last_seen = now;
  connected = true;
  break_glass_until = none;
}

unfoldable pub break_glass_active : NodeState → ℕ → Bool
break_glass_active n now = elim n.break_glass_until [ none ↦ false | some until ↦ ltb now until ]

abbrev pub RuntimeStore : Type 0
RuntimeStore = BTreeMap String NodeState

-- `if let Some(n) = self.lock().get_mut(node_id)`
unfoldable pub update : RuntimeStore → String → (NodeState → NodeState) → RuntimeStore
update s node_id f = elim (get node_id s) [ none ↦ s | some n ↦ insert node_id (f n) s ]

unfoldable pub connect : RuntimeStore → String → Labels → ℕ → RuntimeStore
connect s node_id labels now = elim (get node_id s) [
  | none ↦ insert node_id (new node_id labels now) s
  | some n ↦ insert node_id (record n { labels = labels; connected = true; last_seen = now }) s
]

unfoldable pub disconnect : RuntimeStore → String → ℕ → RuntimeStore
disconnect s node_id now = update s node_id (λ n. record n { connected = false; last_seen = now })

abbrev pub after_ack : ℕ → String → ℕ → NodeState → NodeState
after_ack version hash now n = record n {
  last_acked_version = some version;
  last_acked_hash = some hash;
  last_nack = none;
  consecutive_nacks = 0;
  last_seen = now;
}

unfoldable pub record_ack : RuntimeStore → String → ℕ → String → ℕ → RuntimeStore
record_ack s node_id version hash now = update s node_id (after_ack version hash now)

abbrev pub after_nack : ℕ → String → ℕ → NodeState → NodeState
after_nack version reason now n = record n {
  last_nack = some (version, reason);
  consecutive_nacks = min (n.consecutive_nacks + 1) u32_max;
  last_seen = now;
}

unfoldable pub record_nack : RuntimeStore → String → ℕ → String → ℕ → RuntimeStore
record_nack s node_id version reason now = update s node_id (after_nack version reason now)

unfoldable pub set_break_glass : RuntimeStore → String → ℕ → ℕ → RuntimeStore × Option ℕ
set_break_glass s node_id ttl_secs now =
    let until = min (now + ttl_secs) u64_max in
    elim (get node_id s) [
      | none ↦ (s, none)
      | some n ↦ (insert node_id (record n { break_glass_until = some until }) s, some until)
    ]

unfoldable pub clear_break_glass : RuntimeStore → String → RuntimeStore
clear_break_glass s node_id = update s node_id (λ n. record n { break_glass_until = none })

unfoldable pub record_status : RuntimeStore → String → String → String → ℕ → RuntimeStore
record_status s node_id observed_hash health now =
    update s node_id
      (λ n. record n { observed_hash = some observed_hash; health = some health; last_seen = now })

-- the node's own `node_id`, as the source reads it
unfoldable pub connected_ids : RuntimeStore → List String
connected_ids [] = []
connected_ids ((k, n) ∷ s) = if n.connected then n.node_id ∷ connected_ids s else connected_ids s
