-- ===== src/Scope/Lower.antt =====
-- crates/gateway-core/src/scope.rs, `compose` and `splice_required`: one more layer below a chain.
use smallgateway.Prelude.{
  ◌≡◌, ◌⊎◌, inl, inr, refl, ap, sym, ◌∙◌, String, Bool, true, false, ◌||◌, Option, none, List, [],
  ◌∷◌, ◌++◌, arith, str_eq, str_mem, str_mem-append, eq_iff, or_else,
}
use smallgateway.Prelude.Order.{text_ord}
use smallgateway.Prelude.BTree.{BTreeMap, get, insert_all}
use smallgateway.Prelude.BTree.Sorted.{IsSorted, get-insert_all}
use smallgateway.Scope.{
  Layer, Rejections, base_marker, splice, splice_required, keep_first, dedup_keep_first,
  required_of, merge, last_of, compose,
}

module _ {R : Type 0} where
  merge-snoc :
      (field : Layer R → BTreeMap String String) (above : BTreeMap String String)
      (chain : List (Layer R)) (l : Layer R)
      → merge field above (chain ++ l ∷ []) ≡ insert_all (merge field above chain) (field l)
  unfolding merge
  merge-snoc field above [] l = refl
  merge-snoc field above (x ∷ chain) l = merge-snoc field (insert_all above (field x)) chain l

  last_of-snoc :
      {A : Type 0} (field : Layer R → Option A) (above : Option A) (chain : List (Layer R))
      (l : Layer R)
      → last_of field above (chain ++ l ∷ []) ≡ or_else (field l) (last_of field above chain)
  unfolding last_of
  last_of-snoc field above [] l = refl
  last_of-snoc field above (x ∷ chain) l = last_of-snoc field (or_else (field x) above) chain l

  required_of-snoc :
      (parent : List String) (chain : List (Layer R)) (l : Layer R)
      → required_of parent (chain ++ l ∷ [])
        ≡ splice_required (required_of parent chain) l.required_keys
  unfolding required_of
  required_of-snoc parent [] l = refl
  required_of-snoc parent (x ∷ chain) l =
      required_of-snoc (splice_required parent x.required_keys) chain l

  lower_wins :
      (field : Layer R → BTreeMap String String) (chain : List (Layer R)) (l : Layer R)
      (key : String)
      → IsSorted (field l)
      → get key (merge field [] (chain ++ l ∷ []))
        ≡ or_else (get key (field l)) (get key (merge field [] chain))
  lower_wins field chain l key h =
      ap (get key) (merge-snoc field [] chain l)
      ∙ get-insert_all key (merge field [] chain) (field l) h

  -- A layer that is added below a chain decides what it names itself: of the pinned values, the
  -- mapped claims and the derivations its own entry for a key replaces the one of the chain, and its
  -- model list replaces the chain's whole list; all else is inherited.
  pub compose-lower_wins :
      (d : R) (rejections : Rejections R) (chain : List (Layer R)) (l : Layer R) (key : String)
      → IsSorted l.pinned_values
      → IsSorted l.from_claims
      → IsSorted l.derived_values
      → let above = (compose d rejections chain).0 in
        let below = (compose d rejections (chain ++ l ∷ [])).0 in
        (get key below.pinned_values
          ≡ or_else (get key l.pinned_values) (get key above.pinned_values))
        × (get key below.from_claims ≡ or_else (get key l.from_claims) (get key above.from_claims))
        × (get key below.derived_values
            ≡ or_else (get key l.derived_values) (get key above.derived_values))
        × (below.models ≡ or_else l.models above.models)
  unfolding compose
  compose-lower_wins d rejections chain l key a b c = (
    lower_wins (λ x. x.pinned_values) chain l key a,
    lower_wins (λ x. x.from_claims) chain l key b,
    lower_wins (λ x. x.derived_values) chain l key c,
    last_of-snoc (λ x. x.models) none chain l,
  )

keep_first-mem :
    (k : String) (seen ks : List String)
    → (str_mem k seen || str_mem k (keep_first seen ks)) ≡ (str_mem k seen || str_mem k ks)
unfolding keep_first
keep_first-mem k seen [] = refl
keep_first-mem k seen (j ∷ ks) =
    ground (arith, keep_first-mem k seen ks, keep_first-mem k (j ∷ seen) ks, eq_iff j k)

dedup_keep_first-mem :
    (k : String) (ks : List String) → str_mem k (dedup_keep_first ks) ≡ str_mem k ks
unfolding dedup_keep_first
dedup_keep_first-mem k ks = keep_first-mem k [] ks

splice-keeps :
    (k : String) (parent child : List String)
    → str_mem base_marker child ≡ true
    → str_mem k parent ≡ true
    → str_mem k (splice parent child false) ≡ true
unfolding splice
splice-keeps k parent [] h r = ground arith
splice-keeps k parent (entry ∷ child) h r =
    ground (arith, splice-keeps k parent child, str_mem-append k parent (splice parent child true))

splice_required-keeps :
    (k : String) (parent child : List String)
    → (child ≡ []) ⊎ (str_mem base_marker child ≡ true)
    → str_mem k parent ≡ true
    → str_mem k (splice_required parent child) ≡ true
unfolding splice_required
splice_required-keeps k parent [] h r = r
splice_required-keeps k parent (entry ∷ child) (inl h) r = ground arith
splice_required-keeps k parent (entry ∷ child) (inr h) r = splice-keeps k parent (entry ∷ child) h r

splice-adds :
    (k : String) (parent child : List String) (spliced : Bool)
    → str_eq k base_marker ≡ false
    → str_mem k child ≡ true
    → str_mem k (splice parent child spliced) ≡ true
unfolding splice
splice-adds k parent [] spliced n h = ground arith
splice-adds k parent (entry ∷ child) spliced n h = ground (
  arith,
  splice-adds k parent child true n,
  splice-adds k parent child spliced n,
  str_mem-append k parent (splice parent child true),
  eq_iff entry k,
)

splice_required-adds :
    (k : String) (parent child : List String)
    → str_eq k base_marker ≡ false
    → str_mem k child ≡ true
    → str_mem k (splice_required parent child) ≡ true
unfolding splice_required
splice_required-adds k parent [] n h = ground arith
splice_required-adds k parent (entry ∷ child) n h = splice-adds k parent (entry ∷ child) false n h

-- A layer whose list of required keys is empty or has the base marker drops none of the keys that
-- the chain above requires, and every key that a layer lists, the marker aside, is required.
pub compose-required_keys :
    {R : Type 0} (d : R) (rejections : Rejections R) (chain : List (Layer R)) (l : Layer R)
    (k : String)
    → let above = (compose d rejections chain).0 in
      let below = (compose d rejections (chain ++ l ∷ [])).0 in
      ((l.required_keys ≡ []) ⊎ (str_mem base_marker l.required_keys ≡ true)
        → str_mem k above.required_keys ≡ true
        → str_mem k below.required_keys ≡ true)
      × (str_eq k base_marker ≡ false
          → str_mem k l.required_keys ≡ true
          → str_mem k below.required_keys ≡ true)
unfolding compose
compose-required_keys d rejections chain l k = (
  λ keeps above. now (
      splice_required-keeps k (required_of [] chain) l.required_keys keeps
        (sym (dedup_keep_first-mem k (required_of [] chain)) ∙ above)),
  λ n own. now (splice_required-adds k (required_of [] chain) l.required_keys n own),
)
  where
    now :
        str_mem k (splice_required (required_of [] chain) l.required_keys) ≡ true
        → str_mem k (dedup_keep_first (required_of [] (chain ++ l ∷ []))) ≡ true
    now h =
        dedup_keep_first-mem k (required_of [] (chain ++ l ∷ []))
        ∙ ap (str_mem k) (required_of-snoc [] chain l)
        ∙ h
