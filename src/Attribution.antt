-- ===== src/Attribution.antt =====
-- crates/gateway-core/src/attribution.rs: whom a request is charged to. Of the composed policy the
-- four fields that `resolve` reads; what a derivation computes is an argument. A JSON number stands as its text.
pub mod Trust
use Prim.Native.Nat.Ordering.{lt, eq, gt}
use smallgateway.Prelude.{
  String, Bool, true, false, Option, none, some, List, [], ◌∷◌, ◌++◌, if◌then◌else◌, str_eq,
  str_mem, is_empty,
}
use smallgateway.Prelude.Order.{text_ord}
use smallgateway.Prelude.BTree.{BTreeMap, get, keys}

pub data Origin : Type 0 where
  assigned proven derived caller : Origin

pub record Tag : Type 0 where
  pub key : String
  pub value : String
  pub origin : Origin

pub record Resolution : Type 0 where
  pub tags : List Tag
  pub missing : List String

unfoldable pub is_ok : Resolution → Bool
is_ok r = elim r.missing [ [] ↦ true | _ ∷ _ ↦ false ]

unfoldable pub find_tag : List Tag → String → Option String
find_tag [] key = none
find_tag (t ∷ tags) key = if str_eq t.key key then some t.value else find_tag tags key

unfoldable pub value_of : Resolution → String → Option String
value_of r key = find_tag r.tags key

pub data Value : Type 0 where
  null : Value
  bool : Bool → Value
  number : String → Value
  string : String → Value
  array : Value
  object : Value

unfoldable pub claim_string : Value → Option String
claim_string (string s) = some s
claim_string (number n) = some n
claim_string (bool true) = some "true"
claim_string (bool false) = some "false"
claim_string _ = none

-- the fields of `EffectivePolicy` that are read; `derived` maps a key to the text of
-- its expression
pub record Policy : Type 0 where
  pub required_keys : List String
  pub pinned : BTreeMap String String
  pub from_claims : BTreeMap String String
  pub derived : BTreeMap String String

-- `sort_unstable` and `dedup`
unfoldable pub insert_key : String → List String → List String
insert_key k [] = k ∷ []
insert_key k (j ∷ ks) = elim (text_ord.cmp k j) [
  | lt ↦ k ∷ j ∷ ks
  | eq ↦ j ∷ ks
  | gt ↦ j ∷ insert_key k ks
]

unfoldable pub sort_keys : List String → List String
sort_keys [] = []
sort_keys (k ∷ ks) = insert_key k (sort_keys ks)

unfoldable pub all_keys : Policy → List String
all_keys p =
    sort_keys (p.required_keys ++ (keys p.pinned ++ (keys p.from_claims ++ keys p.derived)))

-- `.filter(|v| !v.is_empty())`
unfoldable pub non_empty : Option String → Option String
non_empty none = none
non_empty (some v) = if is_empty v then none else some v

unfoldable pub claimed : Option (BTreeMap String Value) → String → Option String
claimed none claim = none
claimed (some claims) claim = elim (get claim claims) [ none ↦ none | some v ↦ claim_string v ]

abbrev pub tagged : String → Origin → Option String → Option Tag
tagged key origin none = none
tagged key origin (some v) = some (record { key = key; value = v; origin = origin })

module _ (p : Policy) (caller_value : String → Option String)
    (claims : Option (BTreeMap String Value)) (derived_value : String → Option String) where
  -- the tag of a key, by the first source that the policy names for it
  unfoldable pub tag_of : String → Option Tag
  tag_of key = elim (get key p.pinned) [
    | some v ↦ tagged key assigned (some v)
    | none ↦ elim (get key p.from_claims) [
      | some claim ↦ tagged key proven (claimed claims claim)
      | none ↦ elim (get key p.derived) [
        | some _ ↦ tagged key derived (non_empty (derived_value key))
        | none ↦ tagged key caller (non_empty (caller_value key))
      ]
    ]
  ]

  unfoldable pub add_key : String → Resolution → Resolution
  add_key key rest = elim (tag_of key) [
    | some t ↦ record rest { tags = t ∷ rest.tags }
    | none ↦
        if str_mem key p.required_keys then record rest { missing = key ∷ rest.missing } else rest
  ]

  unfoldable pub resolve_keys : List String → Resolution
  resolve_keys [] = record { tags = []; missing = [] }
  resolve_keys (key ∷ keys) = add_key key (resolve_keys keys)

  unfoldable pub resolve : Resolution
  resolve = resolve_keys (all_keys p)
