-- ===== src/Orders/Sorting.antt =====
-- The order of the items of an order by product (apps/orders/services.py).
use high_performance_e_comme.Common.{
  ℕ, ◌≤◌, inl, inr, List, [], ◌∷◌, arith, leb, Bool-cases, From, IsSorted, From-le,
}
use high_performance_e_comme.Store.{OrderItem}
use high_performance_e_comme.Orders.{insert_item, by_product}

abbrev pub item_key : OrderItem → ℕ
item_key i = i.product_id

insert_item-From :
    (p : ℕ) (x : OrderItem) (is : List OrderItem)
    → p ≤ x.product_id
    → From item_key p is
    → From item_key p (insert_item x is)
unfolding insert_item
insert_item-From p x [] h k = (h, tt)
insert_item-From p x (y ∷ ys) h (k, ks) = elim (Bool-cases (leb x.product_id y.product_id)) [
  | inl first ↦ rw first (h, (k, ks))
  | inr later ↦ rw later (k, insert_item-From p x ys h ks)
]

insert_item-IsSorted :
    (x : OrderItem) (is : List OrderItem)
    → IsSorted item_key is
    → IsSorted item_key (insert_item x is)
unfolding insert_item
insert_item-IsSorted x [] h = (tt, tt)
insert_item-IsSorted x (y ∷ ys) (h, hs) = elim (Bool-cases (leb x.product_id y.product_id)) [
  | inl first ↦
      let le : x.product_id ≤ y.product_id = ground arith in
      rw first ((le, From-le item_key x.product_id y.product_id ys le h), (h, hs))
  | inr later ↦
      rw later (insert_item-From y.product_id x ys (ground arith) h, insert_item-IsSorted x ys hs)
]

pub by_product-IsSorted : (is : List OrderItem) → IsSorted item_key (by_product is)
unfolding by_product
by_product-IsSorted [] = tt
by_product-IsSorted (x ∷ xs) = insert_item-IsSorted x (by_product xs) (by_product-IsSorted xs)
