-- ===== src/Sessions/Answers.antt =====
-- crates/gatewayctl/src/server.rs, `Sessions::deliver`: which waiting pushes an answer of a node resolves.
use smallgateway.Prelude.{
  ℕ, ◌≡◌, refl, inl, inr, ap, ◌∙◌, String, Bool, true, false, ◌||◌, ◌==◌, Option, none, some, List,
  [], ◌∷◌, ◌++◌, map, arith, if◌then◌else◌, is_some, Bool-cases,
}
use smallgateway.Prelude.Order.{text_ord, nat_ord}
use smallgateway.Prelude.BTree.{get, insert, remove}
use smallgateway.Prelude.BTree.Sorted.{IsSorted, get-remove, get-Above, remove-IsSorted}
use smallgateway.Fleet.{AckResult}
use smallgateway.Sessions.{Session, Sessions, matched, send_all, deliver}

abbrev pub nat_mem : ℕ → List ℕ → Bool
nat_mem j [] = false
nat_mem j (i ∷ is) = (i == j) || nat_mem j is

-- the push awaits the version
abbrev pub awaits : Option ℕ → ℕ → Bool
awaits none version = false
awaits (some awaited) version = awaited == version

-- all of the ids are waiting, and none is twice among them
abbrev pub AreWaiting : Session → List ℕ → Type 0
AreWaiting pending [] = Unit
AreWaiting pending (id ∷ ids) =
    (is_some (get id pending) ≡ true) × (nat_mem id ids ≡ false) × AreWaiting pending ids

pub get-removed :
    (id j : ℕ) (pending : Session)
    → IsSorted pending
    → get j (remove id pending) ≡ (if id == j then none else get j pending)
get-removed id j pending h =
    ground (arith, get-remove id j pending h, nat_ord.eq_of_cmp j id, nat_ord.cmp_refl id)

AreWaiting-remove :
    (id : ℕ) (pending : Session) (ids : List ℕ)
    → IsSorted pending
    → nat_mem id ids ≡ false
    → AreWaiting pending ids
    → AreWaiting (remove id pending) ids
AreWaiting-remove id pending [] h other w = tt
AreWaiting-remove id pending (j ∷ ids) h other w =
    ground (arith, get-removed id j pending h, AreWaiting-remove id pending ids h)

-- what each of the ids gets
abbrev pub each : AckResult → List ℕ → List (ℕ × AckResult)
each result ids = map (λ id. (id, result)) ids

pub send_all-takes :
    (pending : Session) (result : AckResult) (ids : List ℕ)
    → IsSorted pending
    → AreWaiting pending ids
    → (send_all pending result ids).1 ≡ each result ids
unfolding send_all
send_all-takes pending result [] h w = refl
send_all-takes pending result (id ∷ ids) h w = ground (
  arith,
  send_all-takes (remove id pending) result ids (remove-IsSorted id pending h)
      (AreWaiting-remove id pending ids h w.1 w.2),
)

pub send_all-leaves :
    (pending : Session) (result : AckResult) (ids : List ℕ) (j : ℕ)
    → IsSorted pending
    → get j (send_all pending result ids).0 ≡ (if nat_mem j ids then none else get j pending)
unfolding send_all
send_all-leaves pending result [] j h = refl
send_all-leaves pending result (id ∷ ids) j h = ground (
  arith,
  send_all-leaves (remove id pending) result ids j (remove-IsSorted id pending h),
  get-removed id j pending h,
)

pub matched-mem :
    (version j : ℕ) (pending : Session)
    → IsSorted pending
    → nat_mem j (matched version pending) ≡ awaits (get j pending) version
unfolding matched get
matched-mem version j [] h = refl
matched-mem version j ((id, awaited) ∷ pending) h = ground (
  arith,
  matched-mem version j pending h.1,
  get-Above id pending h.0,
  nat_ord.eq_of_cmp j id,
  nat_ord.cmp_refl id,
)

AreWaiting-cons :
    (id awaited : ℕ) (pending : Session) (ids : List ℕ)
    → AreWaiting pending ids
    → AreWaiting ((id, awaited) ∷ pending) ids
unfolding get
AreWaiting-cons id awaited pending [] w = tt
AreWaiting-cons id awaited pending (j ∷ ids) w =
    ground (arith, AreWaiting-cons id awaited pending ids w.2)

pub matched-AreWaiting :
    (version : ℕ) (pending : Session)
    → IsSorted pending
    → AreWaiting pending (matched version pending)
unfolding matched get
matched-AreWaiting version [] h = tt
matched-AreWaiting version ((id, awaited) ∷ pending) h =
    let rest =
      AreWaiting-cons id awaited pending (matched version pending)
        (matched-AreWaiting version pending h.1) in
    elim (Bool-cases (awaited == version)) [
      | inr other ↦ rw other rest
      | inl same ↦ rw same (
        ground (arith, nat_ord.cmp_refl id),
        matched-mem version id pending h.1 ∙ ap (λ o. awaits o version) (get-Above id pending h.0),
        rest,
      )
    ]

-- An answer of a node resolves every push to it that awaits the version, however many there are, each
-- with that result and in the order of the push ids; their places are freed, and no other push, to
-- this node or another, is touched.
pub deliver-answers :
    (s : Sessions) (node_id : String) (version : ℕ) (result : AckResult) (pending : Session)
    → get node_id s.table ≡ some pending
    → IsSorted pending
    → let o = deliver s node_id version result in
      (after : Session) × (o.table ≡ insert node_id after s.table)
      × (o.answers ≡ s.answers ++ each result (matched version pending))
      × ((id : ℕ)
          → get id after ≡ (if awaits (get id pending) version then none else get id pending))
      × ((id : ℕ) → nat_mem id (matched version pending) ≡ awaits (get id pending) version)
unfolding deliver
deliver-answers s node_id version result pending found h =
    let ids = matched version pending in
    let sent = send_all pending result ids in
    (
      sent.0,
      rw (found, deliver) refl,
      rw (found, deliver)
          (ap (λ a. s.answers ++ a)
            (send_all-takes pending result ids h (matched-AreWaiting version pending h))),
      λ id.
          send_all-leaves pending result ids id h
          ∙ ap (λ b. if b then none else get id pending) (matched-mem version id pending h),
      λ id. matched-mem version id pending h,
    )
