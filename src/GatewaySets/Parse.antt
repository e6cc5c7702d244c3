-- ===== src/GatewaySets/Parse.antt =====
-- crates/gatewayctl/src/gatewayset.rs, `parse_gatewaysets`: which sets it gives.
use smallgateway.Prelude.{
  ◌≡◌, ◌⊎◌, inl, inr, String, false, none, some_ne_none, List, [], ◌∷◌, arith, str_mem, eq_iff, All,
  Result, ok, err, Ensures, Ensures-bind, is_blank, Bool-cases, Option-cases,
}
use Prim.Native.Nat.Ordering.{lt, eq, gt}
use smallgateway.Prelude.Order.{text_ord}
use smallgateway.Prelude.BTree.{BTreeMap}
use smallgateway.Waves.{SelectorValue, one, many}
use smallgateway.Waves.Parse.{AreSelective}
use smallgateway.GatewaySets.{
  GatewaySet, GatewaySets, GatewaySetEntry, GatewaySetsFile, selector_terms, set_of, sets_of,
  insert_set, sort_sets, duplicate_set, checked, of_entries, of_file, parse_gatewaysets,
}

-- an operator's set: its name is not blank, and each term of its selector accepts a value
abbrev pub IsGood : GatewaySet → Type 0
IsGood g = (is_blank g.name ≡ false) × AreSelective g.selector.terms

-- each name comes before all later ones
abbrev pub Precedes : String → GatewaySets → Type 0
Precedes name [] = Unit
Precedes name (g ∷ sets) = (text_ord.cmp name g.name ≡ lt) × Precedes name sets

abbrev pub AreOrdered : GatewaySets → Type 0
AreOrdered [] = Unit
AreOrdered (g ∷ sets) = Precedes g.name sets × AreOrdered sets

selector_terms-AreSelective :
    (name : String) (selector : BTreeMap String SelectorValue)
    → Ensures AreSelective (selector_terms name selector)
unfolding selector_terms
selector_terms-AreSelective name [] = tt
selector_terms-AreSelective name ((label, one v) ∷ rest) =
    Ensures-bind AreSelective AreSelective (selector_terms name rest) _
      (selector_terms-AreSelective name rest) (λ terms h. (omega arith, h))
selector_terms-AreSelective name ((label, many []) ∷ rest) = tt
selector_terms-AreSelective name ((label, many (v ∷ vs)) ∷ rest) =
    Ensures-bind AreSelective AreSelective (selector_terms name rest) _
      (selector_terms-AreSelective name rest) (λ terms h. (omega arith, h))

set_of-IsGood : (e : GatewaySetEntry) → Ensures IsGood (set_of e)
unfolding set_of
set_of-IsGood e = elim (Bool-cases (is_blank e.name)) [
  | inl blank ↦ rw blank tt
  | inr named ↦ rw named (
      Ensures-bind AreSelective IsGood (selector_terms e.name e.selector) _
        (selector_terms-AreSelective e.name e.selector) (λ terms h. (named, h)))
]

sets_of-AreGood : (entries : List GatewaySetEntry) → Ensures (All IsGood) (sets_of entries)
unfolding sets_of
sets_of-AreGood [] = tt
sets_of-AreGood (e ∷ rest) =
    Ensures-bind IsGood (All IsGood) (set_of e) _ (set_of-IsGood e) (λ g good.
      Ensures-bind (All IsGood) (All IsGood) (sets_of rest) _ (sets_of-AreGood rest)
        (λ sets goods. (good, goods)))

abbrev AtMost : String → String → Type 0
AtMost a b = (text_ord.cmp a b ≡ lt) ⊎ (text_ord.cmp a b ≡ eq)

-- the name is at most all later ones
abbrev IsAtMost : String → GatewaySets → Type 0
IsAtMost name [] = Unit
IsAtMost name (g ∷ sets) = AtMost name g.name × IsAtMost name sets

abbrev AreSorted : GatewaySets → Type 0
AreSorted [] = Unit
AreSorted (g ∷ sets) = IsAtMost g.name sets × AreSorted sets

AtMost-trans : (a b c : String) → AtMost a b → AtMost b c → AtMost a c
AtMost-trans a b c p q = ground (
  arith,
  text_ord.lt_trans a b c,
  text_ord.eq_of_cmp a b,
  text_ord.eq_of_cmp b c,
  text_ord.cmp_refl b,
)

IsAtMost-trans :
    (a b : String) (sets : GatewaySets) → AtMost a b → IsAtMost b sets → IsAtMost a sets
IsAtMost-trans a b [] p h = tt
IsAtMost-trans a b (g ∷ sets) p h = (AtMost-trans a b g.name p h.0, IsAtMost-trans a b sets p h.1)

IsAtMost-insert :
    (a : String) (g : GatewaySet) (sets : GatewaySets)
    → AtMost a g.name
    → IsAtMost a sets
    → IsAtMost a (insert_set g sets)
unfolding insert_set
IsAtMost-insert a g [] p h = (p, tt)
IsAtMost-insert a g (x ∷ sets) p h = ground (arith, IsAtMost-insert a g sets p h.1)

insert_set-AreSorted :
    (g : GatewaySet) (sets : GatewaySets) → AreSorted sets → AreSorted (insert_set g sets)
unfolding insert_set
insert_set-AreSorted g [] h = (tt, tt)
insert_set-AreSorted g (x ∷ sets) h = ground (
  arith,
  insert_set-AreSorted g sets h.1,
  text_ord.lt_of_gt g.name x.name,
  IsAtMost-insert x.name g sets,
  IsAtMost-trans g.name x.name sets,
)

sort_sets-AreSorted : (sets : GatewaySets) → AreSorted (sort_sets sets)
unfolding sort_sets
sort_sets-AreSorted [] = tt
sort_sets-AreSorted (g ∷ sets) = insert_set-AreSorted g (sort_sets sets) (sort_sets-AreSorted sets)

insert_set-AreGood :
    (g : GatewaySet) (sets : GatewaySets)
    → IsGood g
    → All IsGood sets
    → All IsGood (insert_set g sets)
unfolding insert_set
insert_set-AreGood g [] p h = (p, tt)
insert_set-AreGood g (x ∷ sets) p h =
    elim (text_ord.cmp g.name x.name)
      as (λ c. All IsGood (elim c [ gt ↦ x ∷ insert_set g sets | _ ↦ g ∷ x ∷ sets ])) [
        | lt ↦ (p, h)
        | eq ↦ (p, h)
        | gt ↦ (h.0, insert_set-AreGood g sets p h.1)
      ]

sort_sets-AreGood : (sets : GatewaySets) → All IsGood sets → All IsGood (sort_sets sets)
unfolding sort_sets
sort_sets-AreGood [] h = tt
sort_sets-AreGood (g ∷ sets) h =
    insert_set-AreGood g (sort_sets sets) h.0 (sort_sets-AreGood sets h.1)

-- none of the names was seen
abbrev AvoidAll : List String → GatewaySets → Type 0
AvoidAll seen [] = Unit
AvoidAll seen (g ∷ sets) = (str_mem g.name seen ≡ false) × AvoidAll seen sets

AvoidAll-cons :
    (name : String) (seen : List String) (sets : GatewaySets)
    → AvoidAll (name ∷ seen) sets
    → IsAtMost name sets
    → Precedes name sets × AvoidAll seen sets
AvoidAll-cons name seen [] h m = (tt, tt)
AvoidAll-cons name seen (g ∷ sets) h m = ground (
  arith,
  AvoidAll-cons name seen sets h.1 m.1,
  text_ord.eq_of_cmp name g.name,
  eq_iff name g.name,
)

distinct-AreOrdered :
    (seen : List String) (sets : GatewaySets)
    → AreSorted sets
    → duplicate_set seen sets ≡ none
    → AvoidAll seen sets × AreOrdered sets
unfolding duplicate_set
distinct-AreOrdered seen [] h d = (tt, tt)
distinct-AreOrdered seen (g ∷ sets) h d = elim (Bool-cases (str_mem g.name seen)) [
  | inl twice ↦ absurd (some_ne_none {a = g.name} (ground (arith, twice)))
  | inr once ↦
      let rest = distinct-AreOrdered (g.name ∷ seen) sets h.1 (ground (arith, once)) in
      let split = AvoidAll-cons g.name seen sets rest.0 h.0 in ((once, split.1), (split.0, rest.1))
]

abbrev pub AreValid : GatewaySets → Type 0
AreValid sets = All IsGood sets × AreOrdered sets

checked-AreValid :
    (sets : GatewaySets) → All IsGood sets → AreSorted sets → Ensures AreValid (checked sets)
unfolding checked
checked-AreValid sets good sorted = elim (Option-cases (duplicate_set [] sets)) [
  | inl distinct ↦ rw (distinct, checked) (good, (distinct-AreOrdered [] sets sorted distinct).1)
  | inr (name, twice) ↦ rw (twice, checked) tt
]

of_file-AreValid : (r : Result String GatewaySetsFile) → Ensures AreValid (of_file r)
unfolding of_entries
of_file-AreValid (err e) = tt
of_file-AreValid (ok file) =
    Ensures-bind (All IsGood) AreValid (sets_of file.gatewaysets) _
      (sets_of-AreGood file.gatewaysets)
      (λ sets good.
        checked-AreValid (sort_sets sets) (sort_sets-AreGood sets good) (sort_sets-AreSorted sets))

-- The sets that are read, whatever the file says, have names that are not blank and stand in strictly
-- ascending order, none twice, and each term of their selectors accepts at least one value.
pub parse_gatewaysets-AreValid :
    (from_str : String → Result String GatewaySetsFile) (yaml : String)
    → Ensures AreValid (parse_gatewaysets from_str yaml)
unfolding parse_gatewaysets
parse_gatewaysets-AreValid from_str yaml = elim (Bool-cases (is_blank yaml)) [
  | inl blank ↦ rw blank (tt, tt)
  | inr filled ↦ rw filled (of_file-AreValid (from_str yaml))
]
