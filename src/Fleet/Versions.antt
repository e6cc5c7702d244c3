-- ===== src/Fleet/Versions.antt =====
-- crates/gatewayctl/src/fleet.rs, `next_version_for`: the versions that the nodes are pushed.
use smallgateway.Prelude.{
  ℕ, ◌+◌, ◌≡◌, refl, ap, sym, ◌∙◌, String, true, false, Option, some, List, [], ◌∷◌, arith, inl,
  inr, if◌then◌else◌, str_eq, eq_iff, Option-cases, Bool-cases,
}
use smallgateway.Prelude.Order.{text_ord}
use smallgateway.Prelude.BTree.{get-insert, get-insert_self}
use smallgateway.Fleet.{
  Fleet, NodeVersioning, same_hash, bump, entry_of, delivered_hash, next_version_for,
}

-- the version the node was last pushed, 0 before the first push
abbrev pub version_of : Fleet → String → ℕ
version_of f node_id = (entry_of f node_id).last_version

-- pushes of hashes to nodes, in turn
unfoldable pub push_all : Fleet → List (String × String) → Fleet
push_all f [] = f
push_all f ((node_id, hash) ∷ pushes) = push_all (next_version_for f node_id hash).0 pushes

-- how often the hash changes that a node is pushed
abbrev pub changes : Option String → String → List (String × String) → ℕ
changes delivered node_id [] = 0
changes delivered node_id ((id, hash) ∷ pushes) =
    let elsewhere = changes delivered node_id pushes in
    let here = changes (some hash) node_id pushes in
    if str_eq id node_id then (if same_hash delivered hash then 0 else 1) + here else elsewhere

delivered-entry :
    (f : Fleet) (node_id : String)
    → delivered_hash f node_id ≡ (entry_of f node_id).last_pushed_hash
unfolding delivered_hash entry_of
delivered-entry f node_id = ground arith

entry-next :
    (f : Fleet) (id node_id hash : String)
    → str_eq id node_id ≡ true
    → entry_of (next_version_for f id hash).0 node_id ≡ bump (entry_of f node_id) hash
unfolding next_version_for entry_of
entry-next f id node_id hash h = rw ((eq_iff id node_id).0 h, get-insert_self) refl

entry-other :
    (f : Fleet) (id node_id hash : String)
    → str_eq id node_id ≡ false
    → entry_of (next_version_for f id hash).0 node_id ≡ entry_of f node_id
unfolding next_version_for entry_of
entry-other f id node_id hash h = ground (
  arith,
  h,
  get-insert id node_id (bump (entry_of f id) hash) f.per_node,
  text_ord.eq_of_cmp node_id id,
  eq_iff id node_id,
)

bump-effect :
    (e : NodeVersioning) (hash : String)
    → ((bump e hash).last_version
        ≡ e.last_version + (if same_hash e.last_pushed_hash hash then 0 else 1))
      × ((bump e hash).last_pushed_hash ≡ some hash)
unfolding bump
bump-effect e hash = elim (Option-cases e.last_pushed_hash) [
  | inl never ↦ ground (arith, never)
  | inr (pushed, found) ↦ ground (arith, found, eq_iff pushed hash)
]

-- the hash of a push is delivered to its node, and to no other
pub delivered-next :
    (f : Fleet) (id node_id hash : String)
    → delivered_hash (next_version_for f id hash).0 node_id
      ≡ (if str_eq id node_id then some hash else delivered_hash f node_id)
delivered-next f id node_id hash = elim (Bool-cases (str_eq id node_id)) [
  | inl here ↦ rw here (
      delivered-entry (next_version_for f id hash).0 node_id
      ∙ ap (λ (e : NodeVersioning). e.last_pushed_hash) (entry-next f id node_id hash here)
      ∙ (bump-effect (entry_of f node_id) hash).1)
  | inr other ↦ rw other (
      delivered-entry (next_version_for f id hash).0 node_id
      ∙ ap (λ (e : NodeVersioning). e.last_pushed_hash) (entry-other f id node_id hash other)
      ∙ sym (delivered-entry f node_id))
]

-- Over any sequence of pushes the version of each node grows by exactly the number of times that
-- the hash it is pushed changes, so a repeated push leaves it and it never falls.
pub version-push_all :
    (f : Fleet) (pushes : List (String × String)) (node_id : String)
    → version_of (push_all f pushes) node_id
      ≡ version_of f node_id + changes (delivered_hash f node_id) node_id pushes
unfolding push_all
version-push_all f [] node_id = omega arith
version-push_all f ((id, hash) ∷ pushes) node_id = elim (Bool-cases (str_eq id node_id)) [
  | inl here ↦
      let e = entry-next f id node_id hash here in
      ground (
        arith,
        here,
        version-push_all (next_version_for f id hash).0 pushes node_id,
        delivered-entry f node_id,
        delivered-entry (next_version_for f id hash).0 node_id,
        bump-effect (entry_of f node_id) hash,
        e,
      )
  | inr other ↦
      let e = entry-other f id node_id hash other in
      ground (
        arith,
        other,
        version-push_all (next_version_for f id hash).0 pushes node_id,
        delivered-entry f node_id,
        delivered-entry (next_version_for f id hash).0 node_id,
        e,
      )
]
