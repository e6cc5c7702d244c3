-- ===== src/Sessions/Once.antt =====
-- crates/gatewayctl/src/server.rs, `Sessions`: the waiting pushes over any sequence of its operations.
use smallgateway.Prelude.{
  ℕ, suc, ◌+◌, ◌≤◌, ◌≡◌, refl, inl, inr, ap, String, Bool, ◌==◌, some, List, [], ◌∷◌, ◌++◌, arith,
  ltb, if◌then◌else◌, is_some, Bool-cases, Option-cases,
}
use smallgateway.Prelude.Order.{text_ord, nat_ord}
use smallgateway.Prelude.BTree.{get, insert, remove, total, get-insert}
use smallgateway.Prelude.BTree.Sorted.{
  IsSorted, Every, insert-IsSorted, remove-IsSorted, Every-insert, Every-remove, Every-get,
  total-insert, total-remove, at_or_zero,
}
use smallgateway.Fleet.{AckResult}
use smallgateway.Sessions.{
  Session, Sessions, open_session, close_session, matched, send_all, deliver, push_and_await,
  clear_pending,
}
use smallgateway.Sessions.Answers.{
  nat_mem, AreWaiting, each, get-removed, send_all-takes, send_all-leaves, matched-mem,
  matched-AreWaiting,
}

pub data Event : Type 0 where
  opened : String → Event
  closed : String → Event
  pushed : String → ℕ → Bool → Event
  answered : String → ℕ → AckResult → Event
  cleared : String → ℕ → Event

unfoldable pub step : Sessions → Event → Sessions
step s (opened node_id) = open_session s node_id
step s (closed node_id) = close_session s node_id
step s (pushed node_id version sends) = (push_and_await s node_id version sends).0
step s (answered node_id version result) = deliver s node_id version result
step s (cleared node_id push_id) = clear_pending s node_id push_id

unfoldable pub run : Sessions → List Event → Sessions
run s [] = s
run s (e ∷ events) = run (step s e) events

-- how often the push was answered
unfoldable pub times_answered : ℕ → List (ℕ × AckResult) → ℕ
times_answered id [] = 0
times_answered id ((i, result) ∷ answers) =
    let rest = times_answered id answers in if i == id then suc rest else rest

-- 1 while the push waits in the session
abbrev pub waiting : ℕ → Session → ℕ
waiting id pending = if is_some (get id pending) then 1 else 0

abbrev HasSortedIds : Session → Type 0
HasSortedIds pending = IsSorted pending

-- the maps are in order, and a push id that was given out is in one place at most: it waits in one
-- session, or was answered once, or neither
pub record IsWell (s : Sessions) : Type 0 where
  pub nodes : IsSorted s.table
  pub ids : Every HasSortedIds s.table
  pub one_place :
      (id : ℕ)
      → times_answered id s.answers + total (waiting id) s.table
        ≤ (if ltb id s.push_seq then 1 else 0)

answered-append :
    (id : ℕ) (xs ys : List (ℕ × AckResult))
    → times_answered id (xs ++ ys) ≡ times_answered id xs + times_answered id ys
unfolding times_answered
answered-append id [] ys = omega arith
answered-append id ((i, r) ∷ xs) ys = ground (arith, answered-append id xs ys)

answered-each :
    (id : ℕ) (result : AckResult) (pending : Session) (ids : List ℕ)
    → AreWaiting pending ids
    → times_answered id (each result ids) ≡ (if nat_mem id ids then 1 else 0)
unfolding times_answered
answered-each id result pending [] w = refl
answered-each id result pending (i ∷ ids) w =
    ground (arith, answered-each id result pending ids w.2)

send_all-IsSorted :
    (pending : Session) (result : AckResult) (ids : List ℕ)
    → IsSorted pending
    → IsSorted (send_all pending result ids).0
unfolding send_all
send_all-IsSorted pending result [] h = h
send_all-IsSorted pending result (id ∷ ids) h =
    ground (arith, send_all-IsSorted (remove id pending) result ids (remove-IsSorted id pending h))

-- a session is replaced by one that has at most the places that the counts allow
replaced-IsWell :
    (s : Sessions) (node_id : String) (pending : Session) (seq : ℕ)
    → (answers : List (ℕ × AckResult)) → IsWell s
    → IsSorted pending
    → ((id : ℕ)
        → times_answered id answers + waiting id pending + (if ltb id s.push_seq then 1 else 0)
          ≤ times_answered id s.answers
            + at_or_zero (waiting id) (get node_id s.table)
            + (if ltb id seq then 1 else 0))
    → IsWell (record { table = insert node_id pending s.table; push_seq = seq; answers = answers })
replaced-IsWell s node_id pending seq answers w h fits = record {
  nodes = insert-IsSorted node_id pending s.table w.nodes;
  ids = Every-insert HasSortedIds node_id pending s.table h w.ids;
  one_place = λ id.
      omega
        (arith, fits id, w.one_place id, total-insert (waiting id) node_id pending s.table w.nodes);
}

seq-IsWell : (s : Sessions) → IsWell s → IsWell (record s { push_seq = suc s.push_seq })
seq-IsWell s w = record {
  nodes = w.nodes;
  ids = w.ids;
  one_place = λ id. ground (arith, w.one_place id);
}

closed-IsWell : (s : Sessions) (node_id : String) → IsWell s → IsWell (close_session s node_id)
unfolding close_session
closed-IsWell s node_id w = record {
  nodes = remove-IsSorted node_id s.table w.nodes;
  ids = Every-remove HasSortedIds node_id s.table w.ids;
  one_place = λ id. omega (arith, w.one_place id, total-remove (waiting id) node_id s.table);
}

module _ (s : Sessions) (w : IsWell s) where
  opened-IsWell : (node_id : String) → IsWell (open_session s node_id)
  unfolding open_session get
  opened-IsWell node_id = replaced-IsWell s node_id [] s.push_seq s.answers w tt (λ id. omega arith)

  module _ (node_id : String) (pending : Session) (found : get node_id s.table ≡ some pending) where
    abbrev ordered : IsSorted pending
    ordered = Every-get HasSortedIds node_id s.table w.ids found

    cleared-IsWell :
        (push_id : ℕ)
        → IsWell (record s { table = insert node_id (remove push_id pending) s.table })
    cleared-IsWell push_id =
        replaced-IsWell s node_id (remove push_id pending) s.push_seq s.answers w
          (remove-IsSorted push_id pending ordered)
          (λ id. ground (arith, found, get-removed push_id id pending ordered))

    get-waiting :
        (version id : ℕ)
        → get id (insert s.push_seq version pending)
          ≡ (if id == s.push_seq then some version else get id pending)
    get-waiting version id = ground (
      arith,
      get-insert s.push_seq id version pending,
      nat_ord.eq_of_cmp id s.push_seq,
      nat_ord.cmp_refl id,
    )

    sent-IsWell :
        (version : ℕ)
        → IsWell (record s {
          table = insert node_id (insert s.push_seq version pending) s.table;
          push_seq = suc s.push_seq;
        })
    sent-IsWell version =
        replaced-IsWell s node_id (insert s.push_seq version pending) (suc s.push_seq) s.answers w
          (insert-IsSorted s.push_seq version pending ordered)
          (λ id. ground (arith, found, get-waiting version id))

    unsent-IsWell :
        (version : ℕ)
        → IsWell (record s {
          table = insert node_id (remove s.push_seq (insert s.push_seq version pending)) s.table;
          push_seq = suc s.push_seq;
        })
    unsent-IsWell version =
        let waits = insert s.push_seq version pending in
        let sorted = insert-IsSorted s.push_seq version pending ordered in
        replaced-IsWell s node_id (remove s.push_seq waits) (suc s.push_seq) s.answers w
          (remove-IsSorted s.push_seq waits sorted)
          (λ id.
            ground (arith, found, get-waiting version id, get-removed s.push_seq id waits sorted))

    delivered-IsWell :
        (version : ℕ) (result : AckResult)
        → let sent = send_all pending result (matched version pending) in
          IsWell (record s { table = insert node_id sent.0 s.table; answers = s.answers ++ sent.1 })
    delivered-IsWell version result =
        let ids = matched version pending in
        let sent = send_all pending result ids in
        let waits = matched-AreWaiting version pending ordered in
        replaced-IsWell s node_id sent.0 s.push_seq (s.answers ++ sent.1) w
          (send_all-IsSorted pending result ids ordered)
          (λ id. ground (
            arith,
            found,
            answered-append id s.answers sent.1,
            ap (times_answered id) (send_all-takes pending result ids ordered waits),
            answered-each id result pending ids waits,
            send_all-leaves pending result ids id ordered,
            matched-mem version id pending ordered,
          ))

  step-IsWell : (e : Event) → IsWell (step s e)
  unfolding step push_and_await deliver clear_pending
  step-IsWell (opened node_id) = opened-IsWell node_id
  step-IsWell (closed node_id) = closed-IsWell s node_id w
  step-IsWell (pushed node_id version sends) = elim (Option-cases (get node_id s.table)) [
    | inl gone ↦ rw (gone, push_and_await, step) (seq-IsWell s w)
    | inr (pending, found) ↦ elim (Bool-cases sends) [
      | inl sent ↦
          rw (found, sent, push_and_await, step) (sent-IsWell node_id pending found version)
      | inr lost ↦
          rw (found, lost, push_and_await, step) (unsent-IsWell node_id pending found version)
    ]
  ]
  step-IsWell (answered node_id version result) = elim (Option-cases (get node_id s.table)) [
    | inl gone ↦ rw (gone, deliver, step) w
    | inr (pending, found) ↦
        rw (found, deliver, step) (delivered-IsWell node_id pending found version result)
  ]
  step-IsWell (cleared node_id push_id) = elim (Option-cases (get node_id s.table)) [
    | inl gone ↦ rw (gone, clear_pending, step) w
    | inr (pending, found) ↦
        rw (found, clear_pending, step) (cleared-IsWell node_id pending found push_id)
  ]

-- Over any sequence of operations a push waits in at most one place and is answered at most once: if it
-- was answered it waits no more, and a push id that is still to be given out is in no session.
pub run-IsWell : (s : Sessions) (events : List Event) → IsWell s → IsWell (run s events)
unfolding run
run-IsWell s [] w = w
run-IsWell s (e ∷ events) w = run-IsWell (step s e) events (step-IsWell s w e)
