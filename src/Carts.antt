-- ===== src/Carts.antt =====
-- apps/cart/services.py. A customer has one cart row (the relation is one to one), so the customer
-- is its key. Every mutation locks that row.
pub mod Lines
pub mod Frame
use high_performance_e_comme.Common.{
  ℕ, zero, suc, ◌+◌, Bool, true, false, not, ◌&&◌, Option, none, some, List, [], ◌∷◌, ◌++◌, ◌==◌,
  if◌then◌else◌, select, find_row, find_where, update_row,
}
use high_performance_e_comme.Store.{
  Cart, CartStatus, opened, checked_out, abandoned, CartItem, Product, Db, cart_locked,
  does_not_exist, Action, Done, pure, gets, or_raise, atomic, ◌>>=◌, ◌>>◌, raise_if, modify,
}

abbrev pub is_open : CartStatus → Bool
is_open opened = true
is_open checked_out = false
is_open abandoned = false

abbrev pub cart_of : ℕ → Db → Option Cart
cart_of customer db = find_row (λ c. c.customer_id) customer db.carts

-- `cart.items`
abbrev pub items_of : ℕ → List CartItem → List CartItem
items_of cart_id = select λ i. i.cart_id == cart_id

abbrev pub update_cart : ℕ → (Cart → Cart) → Action Done
update_cart customer f =
    modify λ db. record db { carts = update_row (λ c. c.customer_id) customer f db.carts }

-- The lock and the status guard, which `add_item` and `update_item` begin with.
pub lock_open_cart : ℕ → Action Cart
lock_open_cart customer = do
  cart ← gets (cart_of customer) >>= or_raise does_not_exist
  raise_if (not (is_open cart.status)) cart_locked
  pure cart

pub create_cart : ℕ → Action Cart
create_cart customer db =
    let cart : Cart = record {
      id = db.next_id;
      customer_id = customer;
      status = opened;
      version = 0;
    } in
    pure cart (record db { carts = db.carts ++ cart ∷ []; next_id = db.next_id + 1 })

abbrev pub found_or_created : ℕ → Option Cart → Action Cart
found_or_created customer none = create_cart customer
found_or_created customer (some cart) = pure cart

pub get_or_create_cart : ℕ → Action Cart
unfolding create_cart
get_or_create_cart customer = gets (cart_of customer) >>= found_or_created customer

-- The product, if it is on sale.
abbrev pub active_product : ℕ → Db → Option Product
active_product pid db = find_where (λ p. (p.id == pid) && p.is_active) db.products

abbrev pub line_of : ℕ → ℕ → List CartItem → Option CartItem
line_of cart_id pid = find_where λ i. (i.cart_id == cart_id) && (i.product_id == pid)

-- `item.save(update_fields=["quantity", ...])` writes this column only.
abbrev pub set_quantity : ℕ → CartItem → CartItem
set_quantity q i = record i { quantity = q }

-- `get_or_create` and the merge: a new line takes the product's price, an old one gets more units.
pub merge_line : Cart → Product → ℕ → Option CartItem → Action CartItem
merge_line cart product quantity none db =
    let item : CartItem = record {
      id = db.next_id;
      cart_id = cart.id;
      product_id = product.id;
      quantity = quantity;
      unit_price = product.price;
    } in
    pure item (record db { cart_items = db.cart_items ++ item ∷ []; next_id = db.next_id + 1 })
merge_line cart product quantity (some item) db =
    let merged : CartItem = record item { quantity = item.quantity + quantity } in
    pure merged (record db {
      cart_items = update_row (λ i. i.id) item.id (set_quantity merged.quantity) db.cart_items;
    })

-- For a quantity from 0 up, here and in `update_item`; a negative one is not represented.
pub add_item : ℕ → ℕ → ℕ → Action CartItem
unfolding lock_open_cart merge_line
add_item customer pid quantity = atomic do
  cart ← lock_open_cart customer
  product ← gets (active_product pid) >>= or_raise does_not_exist
  old ← gets λ db. line_of cart.id product.id db.cart_items
  item ← merge_line cart product quantity old
  update_cart customer (λ c. record c { version = cart.version + 1 })
  pure item

-- `CartItem.objects.get(pk=item_id, cart=cart)`
abbrev pub own_line : ℕ → ℕ → Db → Option CartItem
own_line cart_id item_id db =
    find_where (λ i. (i.id == item_id) && (i.cart_id == cart_id)) db.cart_items

-- The two branches: quantity 0 deletes the line.
pub set_line : CartItem → ℕ → Action (Option CartItem)
set_line item zero db =
    pure none (record db { cart_items = select (λ i. not (i.id == item.id)) db.cart_items })
set_line item (suc n) db =
    let changed : CartItem = record item { quantity = suc n } in
    pure (some changed) (record db {
      cart_items = update_row (λ i. i.id) item.id (set_quantity changed.quantity) db.cart_items;
    })

pub update_item : ℕ → ℕ → ℕ → Action (Option CartItem)
unfolding lock_open_cart set_line
update_item customer item_id quantity = atomic do
  cart ← lock_open_cart customer
  item ← gets (own_line cart.id item_id) >>= or_raise does_not_exist
  result ← set_line item quantity
  update_cart customer (λ c. record c { version = cart.version + 1 })
  pure result

-- Only an open cart is written; a closed or a missing one is left.
abbrev pub close_if_open : Cart → Cart
close_if_open c = if is_open c.status then record c { status = checked_out } else c

pub clear_cart : ℕ → Action Done
clear_cart customer = update_cart customer close_if_open
