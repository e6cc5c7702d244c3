-- ===== src/Scope/Emitted.antt =====
-- crates/gateway-core/src/scope.rs, `compose`: which labels are left when several layers name a key.
use mathlib.Core.Path.{subst}
use mathlib.Core.List.{Mem, mem-cons_self, mem-cons_of_mem}
use smallgateway.Prelude.{
  ℕ, ◌≡◌, ◌⊎◌, inl, inr, refl, ap, ◌∙◌, String, Bool, true, false, ◌||◌, ◌&&◌, not, Option, none,
  some, List, [], ◌∷◌, map, max, ◌==◌, All, arith, if◌then◌else◌, unwrap_or, is_some, str_eq,
  str_mem, eq_iff, eq_refl, Option-cases,
}
use smallgateway.Prelude.Order.{text_ord}
use smallgateway.Prelude.BTree.{BTreeMap, get, insert, get-insert}
use smallgateway.Waves.Parse.{AllDistinct}
use smallgateway.Scope.{
  Layer, Rejections, EffectiveLabel, Deep, best_depths, emit_labels, labels_down, compose,
}

abbrev pub label_keys : List EffectiveLabel → List String
label_keys labels = map (λ (l : EffectiveLabel). l.key) labels

abbrev pub deep_keys : List Deep → List String
deep_keys deep = map (λ (x : Deep). x.1) deep

-- the greatest depth at which the key stands, from what is known of it on
abbrev deepest_from : Option ℕ → String → List Deep → Option ℕ
deepest_from known key [] = known
deepest_from known key ((depth, k, value) ∷ deep) =
    let here = deepest_from (some (max (unwrap_or known depth) depth)) key deep in
    let there = deepest_from known key deep in if str_eq k key then here else there

abbrev pub deepest : String → List Deep → Option ℕ
deepest key deep = deepest_from none key deep

after_insert :
    (best : BTreeMap String ℕ) (k : String) (depth : ℕ) (key : String) (deep : List Deep)
    → deepest_from (get key (insert k (max (unwrap_or (get k best) depth) depth) best)) key deep ≡ (
        if str_eq k key
        then deepest_from (some (max (unwrap_or (get key best) depth) depth)) key deep
        else deepest_from (get key best) key deep)
after_insert best k depth key deep = ground (
  arith,
  get-insert k key (max (unwrap_or (get k best) depth) depth) best,
  text_ord.eq_of_cmp key k,
  text_ord.cmp_refl key,
  eq_iff k key,
)

get-best_depths :
    (best : BTreeMap String ℕ) (key : String) (deep : List Deep)
    → get key (best_depths best deep) ≡ deepest_from (get key best) key deep
unfolding best_depths
get-best_depths best key [] = refl
get-best_depths best key ((depth, k, value) ∷ deep) =
    get-best_depths (insert k (max (unwrap_or (get k best) depth) depth) best) key deep
    ∙ after_insert best k depth key deep

-- the list has the key at this depth
abbrev has : ℕ → String → List Deep → Bool
has depth key [] = false
has depth key ((d, k, value) ∷ deep) = d == depth && str_eq k key || has depth key deep

deepest-has :
    (known : Option ℕ) (key : String) (deep : List Deep) (m : ℕ)
    → deepest_from known key deep ≡ some m
    → (known ≡ some m) ⊎ (has m key deep ≡ true)
deepest-has known key [] m h = inl h
deepest-has known key ((d, k, value) ∷ deep) m h = ground (
  arith,
  h,
  deepest-has known key deep m,
  deepest-has (some (max (unwrap_or known d) d)) key deep m,
)

emit_labels-has :
    (best : BTreeMap String ℕ) (seen : List String) (deep : List Deep) (key : String) (m : ℕ)
    → get key best ≡ some m
    → has m key deep ≡ true
    → str_mem key seen ≡ false
    → str_mem key (label_keys (emit_labels best seen deep)) ≡ true
unfolding emit_labels
emit_labels-has best seen [] key m b h fresh = ground arith
emit_labels-has best seen ((d, k, value) ∷ deep) key m b h fresh = ground (
  arith,
  eq_iff k key,
  b,
  h,
  fresh,
  emit_labels-has best seen deep key m b,
  emit_labels-has best (k ∷ seen) deep key m b,
)

emit_labels-fresh :
    (best : BTreeMap String ℕ) (seen : List String) (deep : List Deep) (key : String)
    → str_mem key seen ≡ true
    → str_mem key (label_keys (emit_labels best seen deep)) ≡ false
unfolding emit_labels
emit_labels-fresh best seen [] key h = refl
emit_labels-fresh best seen ((d, k, value) ∷ deep) key h = ground (
  arith,
  eq_iff k key,
  emit_labels-fresh best seen deep key,
  emit_labels-fresh best (k ∷ seen) deep key,
)

emit_labels-AllDistinct :
    (best : BTreeMap String ℕ) (seen : List String) (deep : List Deep)
    → AllDistinct (label_keys (emit_labels best seen deep))
unfolding emit_labels
emit_labels-AllDistinct best seen [] = tt
emit_labels-AllDistinct best seen ((d, k, value) ∷ deep) = ground (
  arith,
  emit_labels-AllDistinct best seen deep,
  emit_labels-AllDistinct best (k ∷ seen) deep,
  emit_labels-fresh best (k ∷ seen) deep k,
  eq_refl k,
)

deepest-known :
    (known : Option ℕ) (key : String) (deep : List Deep)
    → is_some (deepest_from known key deep) ≡ (is_some known || str_mem key (deep_keys deep))
deepest-known known key [] = ground arith
deepest-known known key ((d, k, value) ∷ deep) =
    ground (
      arith,
      deepest-known known key deep,
      deepest-known (some (max (unwrap_or known d) d)) key deep,
    )

-- the label is the one of the list that stands at this depth
abbrev At : (String → ℕ) → List Deep → EffectiveLabel → Type 0
At depth deep l = Mem (depth l.key, l.key, l.value) deep

All-if :
    {A : Type 0} (P : A → Type 0) (c : Bool) (x : A) (xs ys : List A)
    → (c ≡ true → P x)
    → All P xs
    → All P ys
    → All P (if c then x ∷ xs else ys)
All-if P true x xs ys h own rest = (h refl, own)
All-if P false x xs ys h own rest = rest

emit_labels-At :
    (best : BTreeMap String ℕ) (seen : List String) (deep whole : List Deep)
    → ((x : Deep) → Mem x deep → Mem x whole)
    → All (At (λ key. unwrap_or (get key best) 0) whole) (emit_labels best seen deep)
unfolding emit_labels
emit_labels-At best seen [] whole inside = tt
emit_labels-At best seen ((d, k, value) ∷ deep) whole inside =
    All-if (At best_of whole) (best_of k == d && not (str_mem k seen))
      (record { key = k; value = value }) (emit_labels best (k ∷ seen) deep)
      (emit_labels best seen deep)
      (λ chosen.
        subst (λ n. Mem (n, k, value) whole) (ground (arith, chosen))
          (inside (d, k, value) mem-cons_self))
      (emit_labels-At best (k ∷ seen) deep whole
        (λ x m. inside x (mem-cons_of_mem (d, k, value) m)))
      (emit_labels-At best seen deep whole (λ x m. inside x (mem-cons_of_mem (d, k, value) m)))
  where
    best_of : String → ℕ
    best_of key = unwrap_or (get key best) 0

At-depths :
    (f g : String → ℕ) (deep : List Deep) (labels : List EffectiveLabel)
    → ((key : String) → f key ≡ g key)
    → All (At f deep) labels
    → All (At g deep) labels
At-depths f g deep [] same own = tt
At-depths f g deep (l ∷ labels) same own = (
  subst (λ n. Mem (n, l.key, l.value) deep) (same l.key) own.0,
  At-depths f g deep labels same own.1,
)

-- the label is one of the list that stands at the greatest depth at which its key does
abbrev pub IsDeepest : List Deep → EffectiveLabel → Type 0
IsDeepest deep l = At (λ key. unwrap_or (deepest key deep) 0) deep l

-- the two steps of a key clash on a list of labels with their depths
abbrev final : List Deep → List EffectiveLabel
final deep = emit_labels (best_depths [] deep) [] deep

get-best : (key : String) (deep : List Deep) → get key (best_depths [] deep) ≡ deepest key deep
unfolding get
get-best key deep = get-best_depths [] key deep

final-IsDeepest : (deep : List Deep) → All (IsDeepest deep) (final deep)
final-IsDeepest deep =
    At-depths (λ key. unwrap_or (get key (best_depths [] deep)) 0)
      (λ key. unwrap_or (deepest key deep) 0) deep (final deep)
      (λ key. ap (λ x. unwrap_or x 0) (get-best key deep))
      (emit_labels-At (best_depths [] deep) [] deep deep (λ x m. m))

final-has :
    (deep : List Deep) (key : String)
    → str_mem key (deep_keys deep) ≡ true
    → str_mem key (label_keys (final deep)) ≡ true
final-has deep key h = elim (Option-cases (deepest key deep)) [
  | inl lost ↦ absurd (ground (arith, lost, h, deepest-known none key deep))
  | inr (m, found) ↦
      emit_labels-has (best_depths [] deep) [] deep key m (get-best key deep ∙ found)
        (ground (arith, deepest-has none key deep m found)) refl
]

pub compose-labels :
    {R : Type 0} (d : R) (rejections : Rejections R) (chain : List (Layer R))
    → let deep = labels_down 0 [] chain in
      let labels = (compose d rejections chain).0.labels in
      AllDistinct (label_keys labels)
      × ((key : String)
          → str_mem key (deep_keys deep) ≡ true
          → str_mem key (label_keys labels) ≡ true)
      × All (IsDeepest deep) labels
unfolding compose
compose-labels d rejections chain =
    let deep = labels_down 0 [] chain in
    (
      emit_labels-AllDistinct (best_depths [] deep) [] deep,
      λ key h. final-has deep key h,
      final-IsDeepest deep,
    )
