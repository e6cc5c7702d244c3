-- ===== src/Budget/Caps.antt =====
-- crates/gateway-core/src/budget.rs, `KeyCap`: the caps of a value down the chain of scopes.
use smallgateway.Prelude.{◌≡◌, String, arith, or_else, unwrap_or}
use smallgateway.Prelude.Order.{text_ord}
use smallgateway.Prelude.BTree.{get, insert_all}
use smallgateway.Prelude.BTree.Sorted.{IsSorted, insert_all-IsSorted, get-insert_all}
use smallgateway.Budget.{KeyCap, cap_for, terms_for, insert_all, compose_child}

-- Which scope decides a value's cap: an override of the lower scope, else one of the upper scope,
-- else the default of the lower scope, else that of the upper.
pub cap_for-compose_child :
    (c child : KeyCap) (value : String)
    → IsSorted child.overrides
    → cap_for (compose_child c child) value
      ≡ unwrap_or
          (or_else (get value child.overrides) (get value c.overrides))
          (or_else child.default c.default)
unfolding cap_for compose_child
cap_for-compose_child c child value h =
    ground (arith, get-insert_all value c.overrides child.overrides h)

-- Folding three scopes gives the same terms from either end.
pub compose_child_assoc :
    (a b c : KeyCap) (value : String)
    → IsSorted b.overrides
    → IsSorted c.overrides
    → terms_for (compose_child (compose_child a b) c) value
      ≡ terms_for (compose_child a (compose_child b c)) value
unfolding terms_for cap_for compose_child
compose_child_assoc a b c value hb hc = ground (
  arith,
  get-insert_all value (insert_all a.overrides b.overrides) c.overrides hc,
  get-insert_all value a.overrides b.overrides hb,
  get-insert_all value b.overrides c.overrides hc,
  get-insert_all value a.overrides (insert_all b.overrides c.overrides)
      (insert_all-IsSorted b.overrides c.overrides hb),
)
