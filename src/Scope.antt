-- ===== src/Scope.antt =====
-- crates/gateway-core/src/scope.rs: `compose`, which folds the layers of a chain of scopes, the top
-- scope first, into one policy. A compiled expression stands as its text, a rejection template is a
-- type that is never looked into, and an error stands as its kind with what it names.
pub mod Lower
pub mod Origins
pub mod Emitted
use smallgateway.Prelude.{
  ℕ, suc, String, Bool, true, false, ◌&&◌, not, Option, none, some, List, [], ◌∷◌, ◌++◌, max,
  length, ltb, ◌==◌, if◌then◌else◌, or_else, unwrap_or, str_eq, str_mem, to_ascii_lowercase,
}
use smallgateway.Prelude.Order.{text_ord}
use smallgateway.Prelude.BTree.{BTreeMap, get, insert, insert_all, keys}
use smallgateway.Budget.{KeyCap, compose_child}

abbrev pub base_marker : String
base_marker = "<base>"

abbrev pub max_labels : ℕ
max_labels = 64

pub data LabelValue : Type 0 where
  static : String → LabelValue
  from_attribution : String → LabelValue
  expr : String → LabelValue

pub record EffectiveLabel : Type 0 where
  pub key : String
  pub value : LabelValue

pub data LabelItem : Type 0 where
  base : LabelItem
  label : String → LabelValue → LabelItem

pub data OriginKind : Type 0 where
  pinned claim derived : OriginKind

abbrev pub same_kind : OriginKind → OriginKind → Bool
same_kind pinned pinned = true
same_kind claim claim = true
same_kind derived derived = true
same_kind _ _ = false

pub record Layer (R : Type 0) : Type 0 where
  pub name : String
  pub required_keys : List String
  pub headers : BTreeMap String String
  pub pinned_values : BTreeMap String String
  pub from_claims : BTreeMap String String
  pub derived_values : BTreeMap String String
  pub labels : List LabelItem
  pub spend_caps : BTreeMap String KeyCap
  pub models : Option (List String)
  pub default_response : Option R
  pub unknown_route : Option R
  pub model_not_allowed : Option R
  pub value_not_allowed : Option R
  pub cap_exceeded : Option R

pub record Rejections (R : Type 0) : Type 0 where
  pub default_response : R
  pub unknown_route : R
  pub model_not_allowed : Option R
  pub value_not_allowed : Option R
  pub cap_exceeded : Option R

pub record EffectivePolicy (R : Type 0) : Type 0 where
  pub required_keys : List String
  pub pinned_values : BTreeMap String String
  pub from_claims : BTreeMap String String
  pub derived_values : BTreeMap String String
  pub labels : List EffectiveLabel
  pub spend_caps : BTreeMap String KeyCap
  pub models : Option (List String)
  pub headers : BTreeMap String String
  pub default_response : R
  pub unknown_route : R
  pub model_not_allowed : R
  pub value_not_allowed : Option R
  pub cap_exceeded : Option R

pub data ComposeError : Type 0 where
  contradictory_pin : String → OriginKind → String → OriginKind → String → ComposeError
  too_many_labels : ℕ → ComposeError

-- the loop over the entries of the child; `spliced` after the first marker
unfoldable pub splice : List String → List String → Bool → List String
splice parent [] spliced = []
splice parent (entry ∷ child) spliced =
    let after = splice parent child true in
    let rest = splice parent child spliced in
    if str_eq entry base_marker then if spliced then rest else parent ++ after else entry ∷ rest

unfoldable pub splice_required : List String → List String → List String
splice_required parent [] = parent
splice_required parent (entry ∷ child) = splice parent (entry ∷ child) false

-- the entries that are not in `seen` and do not stand earlier
unfoldable pub keep_first : List String → List String → List String
keep_first seen [] = []
keep_first seen (k ∷ ks) =
    let rest = keep_first seen ks in
    let rest' = keep_first (k ∷ seen) ks in if str_mem k seen then rest else k ∷ rest'

unfoldable pub dedup_keep_first : List String → List String
dedup_keep_first ks = keep_first [] ks

-- the origins that are known of keys, each with the layer that set it, and the errors
pub record KeyOrigins : Type 0 where
  pub origin : BTreeMap String (OriginKind × String)
  pub errs : List ComposeError

unfoldable pub note_key : String → OriginKind → KeyOrigins → String → KeyOrigins
note_key name kind o key = elim (get key o.origin) [
  | none ↦ record o { origin = insert key (kind, name) o.origin }
  | some (prev, owner) ↦
      if same_kind prev kind
      then record o { origin = insert key (kind, name) o.origin }
      else record o { errs = o.errs ++ contradictory_pin key prev owner kind name ∷ [] }
]

unfoldable pub note_keys : String → OriginKind → KeyOrigins → List String → KeyOrigins
note_keys name kind o [] = o
note_keys name kind o (key ∷ ks) = note_keys name kind (note_key name kind o key) ks

unfoldable pub lower_values : BTreeMap String String → BTreeMap String String
lower_values [] = []
lower_values ((k, v) ∷ m) = (k, to_ascii_lowercase v) ∷ lower_values m

-- the caps of one layer onto those of the layers above
unfoldable pub merge_caps : BTreeMap String KeyCap → BTreeMap String KeyCap → BTreeMap String KeyCap
merge_caps caps [] = caps
merge_caps caps ((key, own) ∷ rest) =
    let composed : KeyCap = elim (get key caps) [
      | none ↦ own
      | some parent ↦ compose_child parent own
    ] in
    merge_caps (insert key composed caps) rest

abbrev pub Deep : Type 0
Deep = ℕ × String × LabelValue

unfoldable pub splice_labels : ℕ → List Deep → List LabelItem → Bool → List Deep
splice_labels depth parent [] spliced = []
splice_labels depth parent (base ∷ items) spliced =
    let after = splice_labels depth parent items true in
    let rest = splice_labels depth parent items spliced in if spliced then rest else parent ++ after
splice_labels depth parent (label k v ∷ items) spliced =
    (depth, k, v) ∷ splice_labels depth parent items spliced

unfoldable pub best_depths : BTreeMap String ℕ → List Deep → BTreeMap String ℕ
best_depths best [] = best
best_depths best ((depth, key, value) ∷ labels) =
    best_depths (insert key (max (unwrap_or (get key best) depth) depth) best) labels

-- `best[key] == depth && emitted.insert(key)`
unfoldable pub emit_labels : BTreeMap String ℕ → List String → List Deep → List EffectiveLabel
emit_labels best emitted [] = []
emit_labels best emitted ((depth, key, value) ∷ labels) =
    let rest = emit_labels best emitted labels in
    let rest' = emit_labels best (key ∷ emitted) labels in
    if unwrap_or (get key best) 0 == depth && not (str_mem key emitted)
    then record { key = key; value = value } ∷ rest'
    else rest

module _ {R : Type 0} where
  unfoldable pub required_of : List String → List (Layer R) → List String
  required_of parent [] = parent
  required_of parent (l ∷ chain) = required_of (splice_required parent l.required_keys) chain

  unfoldable pub note_layer : KeyOrigins → Layer R → KeyOrigins
  note_layer o l =
      note_keys l.name derived
        (note_keys l.name claim (note_keys l.name pinned o (keys l.pinned_values))
          (keys l.from_claims))
        (keys l.derived_values)

  unfoldable pub origins_of : KeyOrigins → List (Layer R) → KeyOrigins
  origins_of o [] = o
  origins_of o (l ∷ chain) = origins_of (note_layer o l) chain

  -- one map of the policy: the entries of each layer over those of the layers above
  unfoldable pub merge :
      (Layer R → BTreeMap String String)
      → BTreeMap String String
      → List (Layer R)
      → BTreeMap String String
  merge field above [] = above
  merge field above (l ∷ chain) = merge field (insert_all above (field l)) chain

  unfoldable pub caps_of : BTreeMap String KeyCap → List (Layer R) → BTreeMap String KeyCap
  caps_of above [] = above
  caps_of above (l ∷ chain) = caps_of (merge_caps above l.spend_caps) chain

  unfoldable pub labels_down : ℕ → List Deep → List (Layer R) → List Deep
  labels_down depth above [] = above
  labels_down depth above (l ∷ chain) = elim l.labels [
    | [] ↦ labels_down (suc depth) above chain
    | item ∷ items ↦ labels_down (suc depth) (splice_labels depth above (item ∷ items) false) chain
  ]

  -- the last layer's value, else the one of the layers above
  unfoldable pub last_of :
      {A : Type 0} → (Layer R → Option A) → Option A → List (Layer R) → Option A
  last_of field above [] = above
  last_of field above (l ∷ chain) = last_of field (or_else (field l) above) chain

  unfoldable pub compose :
      (default_model_not_allowed : R)
      → Rejections R
      → List (Layer R)
      → EffectivePolicy R × List ComposeError
  compose default_model_not_allowed rejections chain =
      let o = origins_of (record { origin = []; errs = [] }) chain in
      let deep = labels_down 0 [] chain in
      let final_labels = emit_labels (best_depths [] deep) [] deep in
      let over =
        if ltb max_labels (length final_labels)
        then too_many_labels (length final_labels) ∷ []
        else [] in
      (
        record {
          required_keys = dedup_keep_first (required_of [] chain);
          pinned_values = merge (λ l. l.pinned_values) [] chain;
          from_claims = merge (λ l. l.from_claims) [] chain;
          derived_values = merge (λ l. l.derived_values) [] chain;
          labels = final_labels;
          spend_caps = caps_of [] chain;
          models = last_of (λ l. l.models) none chain;
          headers = merge (λ l. lower_values l.headers) [] chain;
          default_response =
              unwrap_or (last_of (λ l. l.default_response) none chain) rejections.default_response;
          unknown_route =
              unwrap_or (last_of (λ l. l.unknown_route) none chain) rejections.unknown_route;
          model_not_allowed =
              unwrap_or (last_of (λ l. l.model_not_allowed) rejections.model_not_allowed chain)
                default_model_not_allowed;
          value_not_allowed = last_of (λ l. l.value_not_allowed) rejections.value_not_allowed chain;
          cap_exceeded = last_of (λ l. l.cap_exceeded) rejections.cap_exceeded chain;
        },
        o.errs ++ over,
      )
