-- ===== src/GatewaySets/Merge.antt =====
-- crates/gatewayctl/src/gatewayset.rs, `deep_merge_mapping` and `stamp`: what a document holds after.
use smallgateway.Prelude.{
  ◌≡◌, refl, inl, inr, ap, sym, ◌∙◌, String, Option, none, some, List, [], ◌∷◌, arith,
  if◌then◌else◌, str_eq, eq_iff, Bool-cases, All, or_else, ◌⊎◌,
}
use mathlib.Core.Path.{subst}
use smallgateway.GatewaySets.{
  Yaml, leaf, nested, Mapping, end, entry, look_up, put, deep_merge_mapping, GatewaySet,
  GatewaySets, matching, merge_all, stamp,
}
use smallgateway.Waves.{Labels}

-- no key stands twice, at any depth
unfoldable mutual
  pub HasKeysOnce : Yaml → Type 0
  HasKeysOnce (leaf v) = Unit
  HasKeysOnce (nested m) = AreOnce m

  pub AreOnce : Mapping → Type 0
  AreOnce end = Unit
  AreOnce (entry k v m) = (look_up k m ≡ none) × HasKeysOnce v × AreOnce m

look_up-put :
    (k j : String) (v : Yaml) (m : Mapping)
    → look_up j (put k v m) ≡ (if str_eq k j then some v else look_up j m)
unfolding look_up put
look_up-put k j v end = ground arith
look_up-put k j v (entry i w m) =
    ground (arith, look_up-put k j v m, eq_iff i k, eq_iff i j, eq_iff k j)

-- what a key holds after the merge, from what it held and what the overlay says
abbrev over : Option Yaml → Option Yaml → Option Yaml
over b none = b
over b (some (leaf v)) = some (leaf v)
over (some (nested m)) (some (nested o)) = some (nested (deep_merge_mapping m o))
over (some (leaf w)) (some (nested o)) = some (nested o)
over none (some (nested o)) = some (nested o)

abbrev joined : Option Yaml → Mapping → Yaml
joined o child = elim o [ some (nested m) ↦ nested (deep_merge_mapping m child) | _ ↦ nested child ]

over-joined : (b : Option Yaml) (o : Mapping) → over b (some (nested o)) ≡ some (joined b o)
over-joined none o = refl
over-joined (some (leaf v)) o = refl
over-joined (some (nested m)) o = refl

look_up-deep_merge :
    (base overlay : Mapping) (k : String)
    → AreOnce overlay
    → look_up k (deep_merge_mapping base overlay) ≡ over (look_up k base) (look_up k overlay)
unfolding look_up deep_merge_mapping AreOnce
look_up-deep_merge base end k h = refl
look_up-deep_merge base (entry j (leaf v) overlay) k h = ground (
  arith,
  look_up-deep_merge (put j (leaf v) base) overlay k h.2,
  look_up-put j k (leaf v) base,
  eq_iff j k,
  h.0,
)
look_up-deep_merge base (entry j (nested o) overlay) k h =
    let child = joined (look_up j base) o in
    look_up-deep_merge (put j child base) overlay k h.2
    ∙ ap (λ b. over b (look_up k overlay)) (look_up-put j k child base)
    ∙ elim (Bool-cases (str_eq j k)) [
      | inl here ↦ rw here (
          subst
            (λ x. over (some child) (look_up x overlay) ≡ over (look_up x base) (some (nested o)))
            ((eq_iff j k).0 here)
            (ap (over (some child)) h.0 ∙ sym (over-joined (look_up j base) o)))
      | inr other ↦ rw other refl
    ]

-- the value at a path of keys
abbrev pub at_value : Option Yaml → List String → Option Yaml
at_value none p = none
at_value (some v) [] = some v
at_value (some (leaf v)) (k ∷ p) = none
at_value (some (nested m)) (k ∷ p) = at_value (look_up k m) p

abbrev pub at : Mapping → List String → Option Yaml
at m p = at_value (some (nested m)) p

-- the overlay says nothing of the path, nor of a part of it that would replace it
abbrev IsFreeIn : Option Yaml → List String → Type 0
IsFreeIn none p = Unit
IsFreeIn (some v) [] = ⊥
IsFreeIn (some (leaf v)) (k ∷ p) = ⊥
IsFreeIn (some (nested m)) (k ∷ p) = IsFreeIn (look_up k m) p

abbrev pub IsFree : Mapping → List String → Type 0
IsFree overlay p = IsFreeIn (some (nested overlay)) p

free-none : (o : Option Yaml) (p : List String) → IsFreeIn o p → at_value o p ≡ none
free-none none p f = refl
free-none (some v) [] f = absurd f
free-none (some (leaf v)) (k ∷ p) f = absurd f
free-none (some (nested m)) (k ∷ p) f = free-none (look_up k m) p f

AreAllOnce : Option Yaml → Type 0
AreAllOnce none = Unit
AreAllOnce (some v) = HasKeysOnce v

once-look_up : (k : String) (m : Mapping) → AreOnce m → AreAllOnce (look_up k m)
unfolding look_up AreOnce AreAllOnce
once-look_up k end h = tt
once-look_up k (entry j v m) h = elim (Bool-cases (str_eq j k)) [
  | inl here ↦ rw here (h.1)
  | inr other ↦ rw other (once-look_up k m h.2)
]

-- a leaf of the overlay is a leaf of the merge
over-stamped :
    (b o : Option Yaml) (p : List String) (v : String)
    → AreAllOnce o
    → at_value o p ≡ some (leaf v)
    → at_value (over b o) p ≡ some (leaf v)
unfolding AreAllOnce HasKeysOnce
over-stamped b none p v h e = absurd (cc)
over-stamped b (some (leaf w)) p v h e = e
over-stamped none (some (nested o)) p v h e = e
over-stamped (some (leaf w)) (some (nested o)) p v h e = e
over-stamped (some (nested m)) (some (nested o)) [] v h e = absurd (cc)
over-stamped (some (nested m)) (some (nested o)) (k ∷ p) v h e =
    ap (λ x. at_value x p) (look_up-deep_merge m o k h)
    ∙ over-stamped (look_up k m) (look_up k o) p v (once-look_up k o h) e

-- a path that the overlay is free in holds what it held
over-free :
    (b o : Option Yaml) (p : List String)
    → AreAllOnce o
    → IsFreeIn o p
    → at_value (over b o) p ≡ at_value b p
unfolding AreAllOnce HasKeysOnce
over-free b none p h f = refl
over-free b (some (leaf w)) [] h f = absurd f
over-free b (some (leaf w)) (k ∷ p) h f = absurd f
over-free b (some (nested o)) [] h f = absurd f
over-free none (some (nested o)) (k ∷ p) h f = free-none (look_up k o) p f
over-free (some (leaf w)) (some (nested o)) (k ∷ p) h f = free-none (look_up k o) p f
over-free (some (nested m)) (some (nested o)) (k ∷ p) h f =
    ap (λ x. at_value x p) (look_up-deep_merge m o k h)
    ∙ over-free (look_up k m) (look_up k o) p (once-look_up k o h) f

-- what the sets say of the path: nothing, or a leaf
abbrev pub IsPlain : List String → GatewaySet → Type 0
IsPlain p g =
    AreOnce g.overlay × (IsFree g.overlay p ⊎ ((v : String) × (at g.overlay p ≡ some (leaf v))))

-- the last set that says something of the path decides, and none leaves what was there
abbrev pub last_said : Option Yaml → GatewaySets → List String → Option Yaml
last_said before [] p = before
last_said before (g ∷ sets) p = last_said (or_else (at g.overlay p) before) sets p

merged_one :
    (doc : Mapping) (g : GatewaySet) (p : List String)
    → IsPlain p g
    → at (deep_merge_mapping doc g.overlay) p ≡ or_else (at g.overlay p) (at doc p)
unfolding AreAllOnce HasKeysOnce
merged_one doc g p (once, inl free) =
    over-free (some (nested doc)) (some (nested g.overlay)) p once free
    ∙ ap (λ x. or_else x (at doc p)) (sym (free-none (some (nested g.overlay)) p free))
merged_one doc g p (once, inr (v, says)) =
    over-stamped (some (nested doc)) (some (nested g.overlay)) p v once says
    ∙ ap (λ x. or_else x (at doc p)) (sym says)

after_sets :
    (doc : Mapping) (sets : GatewaySets) (p : List String)
    → All (IsPlain p) sets
    → at (merge_all doc sets) p ≡ last_said (at doc p) sets p
unfolding merge_all
after_sets doc [] p h = refl
after_sets doc (g ∷ sets) p h =
    after_sets (deep_merge_mapping doc g.overlay) sets p h.1
    ∙ ap (λ x. last_said x sets p) (merged_one doc g p h.0)

-- At a path of which each set that matches a node says nothing, or gives a value that is no mapping, where
-- no mapping of their overlays has a key twice, the
-- node's document has the value of the last set that gives one, in the order of the names, and what the
-- document had where none does: a set never drops what it does not name.
pub stamp-last_said :
    (sets : GatewaySets) (doc : Mapping) (labels : Labels) (p : List String)
    → All (IsPlain p) (matching sets labels)
    → at (stamp sets doc labels).0 p ≡ last_said (at doc p) (matching sets labels) p
unfolding stamp
stamp-last_said sets doc labels p h = after_sets doc (matching sets labels) p h
