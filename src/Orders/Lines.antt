-- ===== src/Orders/Lines.antt =====
-- The lines that a checkout reserves (apps/orders/services.py), as against the lines of its cart.
use mathlib.Core.Path.{subst}
use high_performance_e_comme.Common.{
  ℕ, ◌≢◌, inl, inr, List, [], ◌∷◌, map, arith, ◌==◌, All, Bool-cases, ==→eq,
}
use high_performance_e_comme.Store.{CartItem}
use high_performance_e_comme.Inventory.{Line}
use high_performance_e_comme.Inventory.Bulk.{IsDistinct}
use high_performance_e_comme.Carts.{items_of}
use high_performance_e_comme.Carts.Lines.{AreApart, AllApart}
use high_performance_e_comme.Orders.{line_of_item}

-- The other lines of a line's cart are for other products.
items_of-new :
    (i : CartItem) (is : List CartItem)
    → All (AreApart i) is
    → All (λ (y : Line). i.product_id ≢ y.0) (map line_of_item (items_of i.cart_id is))
items_of-new i [] h = tt
items_of-new i (j ∷ is) ((new, apart), h) = elim (Bool-cases (j.cart_id == i.cart_id)) [
  | inl same ↦ rw same ((λ e. ground arith), items_of-new i is h)
  | inr other ↦ rw other (items_of-new i is h)
]

pub items_of-IsDistinct :
    (cart_id : ℕ) (is : List CartItem)
    → AllApart is
    → IsDistinct (map line_of_item (items_of cart_id is))
items_of-IsDistinct cart_id [] h = tt
items_of-IsDistinct cart_id (i ∷ is) (p, h) = elim (Bool-cases (i.cart_id == cart_id)) [
  | inl mine ↦ rw mine (
    subst (λ c. All (λ (y : Line). i.product_id ≢ y.0) (map line_of_item (items_of c is)))
        (==→eq i.cart_id cart_id mine) (items_of-new i is p),
    items_of-IsDistinct cart_id is h,
  )
  | inr other ↦ rw other (items_of-IsDistinct cart_id is h)
]
