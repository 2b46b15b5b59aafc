-- ===== src/Carts/Frame.antt =====
-- The cart service and the tables of the stock, the orders and the money (apps/cart/services.py).
use high_performance_e_comme.Common.{ℕ, zero, suc, ◌≡◌, inl, inr, arith, Option-cases}
use high_performance_e_comme.Store.{CartItem, Db}
use high_performance_e_comme.Carts.{
  cart_of, own_line, set_line, get_or_create_cart, add_item, update_item, clear_cart,
}

-- `d` has the stock, the orders, the customers and the intents of `db`.
pub record SameShop (db d : Db) : Type 0 where
  pub stock : d.stock ≡ db.stock
  pub orders : d.orders ≡ db.orders
  pub customers : d.customers ≡ db.customers
  pub intents : d.intents ≡ db.intents

set_line-SameShop :
    (item : CartItem) (quantity : ℕ) (db : Db) → SameShop db (set_line item quantity db).1
unfolding set_line
set_line-SameShop item zero db = ground arith
set_line-SameShop item (suc n) db = ground arith

module _ (customer : ℕ) (db : Db) where
  pub get_or_create_cart-SameShop : SameShop db (get_or_create_cart customer db).1
  unfolding get_or_create_cart
  get_or_create_cart-SameShop = ground arith

  pub add_item-SameShop : (pid quantity : ℕ) → SameShop db (add_item customer pid quantity db).1
  unfolding add_item
  add_item-SameShop pid quantity = ground arith

  pub update_item-SameShop :
      (item_id quantity : ℕ) → SameShop db (update_item customer item_id quantity db).1
  unfolding update_item
  update_item-SameShop item_id quantity = elim (Option-cases (cart_of customer db)) [
    | inl missing ↦ ground arith
    | inr (cart, ec) ↦ elim (Option-cases (own_line cart.id item_id db)) [
      | inl missing ↦ ground arith
      | inr (item, e) ↦ ground (arith, set_line-SameShop item quantity db)
    ]
  ]

  pub clear_cart-SameShop : SameShop db (clear_cart customer db).1
  unfolding clear_cart
  clear_cart-SameShop = ground arith
