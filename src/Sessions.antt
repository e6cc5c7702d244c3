-- ===== src/Sessions.antt =====
-- crates/gatewayctl/src/server.rs, `Sessions` and the pushes that wait for an answer. The two ends of a
-- oneshot channel are its push id: `answers` holds what was sent into them, in order. Whether the stream
-- still takes a message is the argument `sends`. The counter of push ids has no bound.
pub mod Answers
pub mod Once
use smallgateway.Prelude.{
  ℕ, suc, String, Bool, Option, none, some, List, [], ◌∷◌, ◌++◌, ◌==◌, if◌then◌else◌,
}
use smallgateway.Prelude.Order.{text_ord, nat_ord}
use smallgateway.Prelude.BTree.{BTreeMap, get, insert, remove, keys}
use smallgateway.Fleet.{AckResult}

-- the version that each waiting push awaits, by push id
abbrev pub Session : Type 0
Session = BTreeMap ℕ ℕ

pub record Sessions : Type 0 where
  pub table : BTreeMap String Session
  pub push_seq : ℕ
  pub answers : List (ℕ × AckResult)

abbrev pub new : Sessions
new = record { table = []; push_seq = 1; answers = [] }

-- a session whose stream is up, in place of one that was there
unfoldable pub open_session : Sessions → String → Sessions
open_session s node_id = record s { table = insert node_id [] s.table }

unfoldable pub close_session : Sessions → String → Sessions
close_session s node_id = record s { table = remove node_id s.table }

abbrev pub connected : Sessions → List String
connected s = keys s.table

-- the push ids that await the version
unfoldable pub matched : ℕ → Session → List ℕ
matched version [] = []
matched version ((id, awaited) ∷ pending) =
    let rest = matched version pending in if awaited == version then id ∷ rest else rest

-- each matched push is taken out and sent the result
unfoldable pub send_all : Session → AckResult → List ℕ → Session × List (ℕ × AckResult)
send_all pending result [] = (pending, [])
send_all pending result (id ∷ ids) =
    let rest = send_all (remove id pending) result ids in
    elim (get id pending) [ none ↦ rest | some awaited ↦ (rest.0, (id, result) ∷ rest.1) ]

unfoldable pub deliver : Sessions → String → ℕ → AckResult → Sessions
deliver s node_id version result = elim (get node_id s.table) [
  | none ↦ s
  | some pending ↦
      let sent = send_all pending result (matched version pending) in
      record s { table = insert node_id sent.0 s.table; answers = s.answers ++ sent.1 }
]

unfoldable pub push_and_await : Sessions → String → ℕ → Bool → Sessions × Option ℕ
push_and_await s node_id version sends =
    let id = s.push_seq in
    let next = record s { push_seq = suc id } in
    elim (get node_id s.table) [
      | none ↦ (next, none)
      | some pending ↦
          let waiting = insert id version pending in
          if sends
          then (record next { table = insert node_id waiting s.table }, some id)
          else (record next { table = insert node_id (remove id waiting) s.table }, none)
    ]

unfoldable pub clear_pending : Sessions → String → ℕ → Sessions
clear_pending s node_id push_id = elim (get node_id s.table) [
  | none ↦ s
  | some pending ↦ record s { table = insert node_id (remove push_id pending) s.table }
]
