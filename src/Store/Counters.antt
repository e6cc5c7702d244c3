-- ===== src/Store/Counters.antt =====
-- crates/gatewayctl/src/store.rs: the counter of refusals over the messages of the nodes.
use smallgateway.Prelude.{
  ℕ, ◌+◌, ◌≡◌, refl, inl, inr, ◌∙◌, ap, String, Bool, true, false, Option, none, some, List, [],
  ◌∷◌, arith, min, if◌then◌else◌, str_eq, eq_iff, Option-cases, Bool-cases,
}
use smallgateway.Prelude.Order.{text_ord}
use smallgateway.Prelude.BTree.{get, insert, get-insert}
use smallgateway.Waves.{Labels}
use smallgateway.Store.{
  NodeState, RuntimeStore, u32_max, update, connect, disconnect, record_ack, record_nack,
  record_status, set_break_glass, clear_break_glass, after_ack, after_nack,
}

-- what the control plane hears of one node, or does for it
pub data Message : Type 0 where
  ack : ℕ → String → Message
  refusal : ℕ → String → Message
  status : String → String → Message
  hello : Labels → Message
  gone : Message
  override : ℕ → Message
  override_end : Message

unfoldable pub receive : RuntimeStore → String × Message × ℕ → RuntimeStore
receive s (id, ack version hash, now) = record_ack s id version hash now
receive s (id, refusal version reason, now) = record_nack s id version reason now
receive s (id, status observed health, now) = record_status s id observed health now
receive s (id, hello labels, now) = connect s id labels now
receive s (id, gone, now) = disconnect s id now
receive s (id, override ttl, now) = (set_break_glass s id ttl now).0
receive s (id, override_end, now) = clear_break_glass s id

unfoldable pub receive_all : RuntimeStore → List (String × Message × ℕ) → RuntimeStore
receive_all s [] = s
receive_all s (m ∷ ms) = receive_all (receive s m) ms

-- the refusals of a node since its last ack, from `n` on, saturated
abbrev pub refusals : String → ℕ → List (String × Message × ℕ) → ℕ
refusals id n [] = n
refusals id n ((k, ack version hash, now) ∷ ms) =
    let other = refusals id n ms in
    let acked = refusals id 0 ms in if str_eq k id then acked else other
refusals id n ((k, refusal version reason, now) ∷ ms) =
    let other = refusals id n ms in
    let refused = refusals id (min (n + 1) u32_max) ms in if str_eq k id then refused else other
refusals id n ((k, _, now) ∷ ms) = refusals id n ms

abbrev pub nacks_of : RuntimeStore → String → Option ℕ
nacks_of s id = elim (get id s) [ none ↦ none | some n ↦ some n.consecutive_nacks ]

-- the node is in the store with this count
abbrev Counts : RuntimeStore → String → ℕ → Type 0
Counts s id c = nacks_of s id ≡ some c

insert-other :
    (s : RuntimeStore) (k id : String) (v : NodeState)
    → str_eq k id ≡ false
    → nacks_of (insert k v s) id ≡ nacks_of s id
insert-other s k id v h =
    ground (arith, h, get-insert k id v s, text_ord.eq_of_cmp id k, eq_iff k id)

insert_self :
    (s : RuntimeStore) (k id : String) (v : NodeState)
    → str_eq k id ≡ true
    → nacks_of (insert k v s) id ≡ some v.consecutive_nacks
insert_self s k id v h =
    ground (arith, get-insert k id v s, (eq_iff k id).0 h, text_ord.cmp_refl id)

nacks_of-found :
    (s : RuntimeStore) (id : String) (n : NodeState)
    → get id s ≡ some n
    → nacks_of s id ≡ some n.consecutive_nacks
nacks_of-found s id n h = ground arith

nacks_of-at : (s : RuntimeStore) (k id : String) → str_eq k id ≡ true → nacks_of s k ≡ nacks_of s id
nacks_of-at s k id h = ap (nacks_of s) ((eq_iff k id).0 h)

-- a write at a node that is there, of a state with the count `g` of the old one
insert-Counts :
    (s : RuntimeStore) (k id : String) (n v : NodeState) (c c' : ℕ)
    → get k s ≡ some n
    → (n.consecutive_nacks ≡ c → v.consecutive_nacks ≡ c')
    → Counts s id c
    → Counts (insert k v s) id (if str_eq k id then c' else c)
insert-Counts s k id n v c c' found step h = elim (Bool-cases (str_eq k id)) [
  | inl here ↦
      ground (
        arith,
        here,
        nacks_of-found s k n found,
        nacks_of-at s k id here,
        insert_self s k id v here,
      )
  | inr other ↦ rw other (insert-other s k id v other ∙ h)
]

update-missing :
    (s : RuntimeStore) (k : String) (f : NodeState → NodeState) → get k s ≡ none → update s k f ≡ s
unfolding update
update-missing s k f h = rw (h, update)

update-found :
    (s : RuntimeStore) (k : String) (f : NodeState → NodeState) (n : NodeState)
    → get k s ≡ some n
    → update s k f ≡ insert k (f n) s
unfolding update
update-found s k f n h = rw (h, update)

-- an update that makes `g` of the count of its node
update-Counts :
    (s : RuntimeStore) (k id : String) (f : NodeState → NodeState) (g : ℕ → ℕ) (c : ℕ)
    → ((n : NodeState) → (f n).consecutive_nacks ≡ g n.consecutive_nacks)
    → Counts s id c
    → Counts (update s k f) id (if str_eq k id then g c else c)
update-Counts s k id f g c step h = elim (Option-cases (get k s)) [
  | inl missing ↦ rw (update-missing s k f missing) (ground (arith, h, missing, nacks_of-at s k id))
  | inr (n, found) ↦
      rw (update-found s k f n found)
        (insert-Counts s k id n (f n) c (g c) found (λ e. step n ∙ ap g e) h)
]

if_same : (b : Bool) (c : ℕ) → (if b then c else c) ≡ c
if_same b c = ground arith

-- an update that leaves the count
keep-Counts :
    (s : RuntimeStore) (k id : String) (f : NodeState → NodeState) (c : ℕ)
    → ((n : NodeState) → (f n).consecutive_nacks ≡ n.consecutive_nacks)
    → Counts s id c
    → Counts (update s k f) id c
keep-Counts s k id f c step h =
    update-Counts s k id f (λ x. x) c step h ∙ ap some (if_same (str_eq k id) c)

connect-Counts :
    (s : RuntimeStore) (k id : String) (labels : Labels) (now c : ℕ)
    → Counts s id c
    → Counts (connect s k labels now) id c
unfolding connect
connect-Counts s k id labels now c h = elim (Option-cases (get k s)) [
  | inl missing ↦ rw (missing, connect) (insert-other s k id _ (absent missing) ∙ h)
  | inr (n, found) ↦
      rw (found, connect)
        (insert-Counts s k id n _ c c found (λ e. e) h ∙ ap some (if_same (str_eq k id) c))
]
  where
    absent : get k s ≡ none → str_eq k id ≡ false
    absent missing = ground (arith, h, missing, nacks_of-at s k id)

override-Counts :
    (s : RuntimeStore) (k id : String) (ttl now c : ℕ)
    → Counts s id c
    → Counts (set_break_glass s k ttl now).0 id c
unfolding set_break_glass
override-Counts s k id ttl now c h = elim (Option-cases (get k s)) [
  | inl missing ↦ rw (missing, set_break_glass) h
  | inr (n, found) ↦
      rw (found, set_break_glass)
        (insert-Counts s k id n _ c c found (λ e. e) h ∙ ap some (if_same (str_eq k id) c))
]

-- Over any messages of any nodes, the count of refusals of a known node is the number of its
-- refusals since its last ack, saturated: only its own ack resets it, and no heartbeat, reconnect
-- or override does.
pub nacks_of-receive_all :
    (s : RuntimeStore) (id : String) (c : ℕ) (ms : List (String × Message × ℕ))
    → nacks_of s id ≡ some c
    → nacks_of (receive_all s ms) id ≡ some (refusals id c ms)
unfolding receive_all receive record_ack record_nack record_status disconnect clear_break_glass
nacks_of-receive_all s id c [] h = h
nacks_of-receive_all s id c ((k, ack version hash, now) ∷ ms) h =
    nacks_of-receive_all (record_ack s k version hash now) id (if str_eq k id then 0 else c) ms
      (update-Counts s k id (after_ack version hash now) (λ x. 0) c (λ n. refl) h)
    ∙ ap some (ground arith)
nacks_of-receive_all s id c ((k, refusal version reason, now) ∷ ms) h =
    nacks_of-receive_all (record_nack s k version reason now) id
      (if str_eq k id then min (c + 1) u32_max else c) ms
      (update-Counts s k id (after_nack version reason now) (λ x. min (x + 1) u32_max) c (λ n. refl)
        h)
    ∙ ap some (ground arith)
nacks_of-receive_all s id c ((k, status observed health, now) ∷ ms) h =
    nacks_of-receive_all (record_status s k observed health now) id c ms
      (keep-Counts s k id _ c (λ n. refl) h)
nacks_of-receive_all s id c ((k, hello labels, now) ∷ ms) h =
    nacks_of-receive_all (connect s k labels now) id c ms (connect-Counts s k id labels now c h)
nacks_of-receive_all s id c ((k, gone, now) ∷ ms) h =
    nacks_of-receive_all (disconnect s k now) id c ms (keep-Counts s k id _ c (λ n. refl) h)
nacks_of-receive_all s id c ((k, override ttl, now) ∷ ms) h =
    nacks_of-receive_all (set_break_glass s k ttl now).0 id c ms
      (override-Counts s k id ttl now c h)
nacks_of-receive_all s id c ((k, override_end, now) ∷ ms) h =
    nacks_of-receive_all (clear_break_glass s k) id c ms (keep-Counts s k id _ c (λ n. refl) h)
