-- ===== src/Orders.antt =====
-- apps/orders/services.py: checkout and cancellation. Each is one `transaction.atomic` block.
pub mod Money
pub mod Stock
pub mod Lines
pub mod Keeping
pub mod Status
pub mod Sorting
pub mod Placing
pub mod History
use high_performance_e_comme.Common.{
  ℕ, ◌+◌, ◌*◌, ◌/◌, ◌%◌, Bool, true, false, not, ◌&&◌, Option, List, [], ◌∷◌, ◌++◌, map, ltb, leb,
  ◌==◌, if◌then◌else◌, select, find_row, find_where, update_row,
}
use high_performance_e_comme.Common.Int.{pos}
use high_performance_e_comme.Store.{
  Cart, checked_out, CartItem, Address, Order, OrderStatus, OrderItem, pending, cancelled,
  order_ref, generate_invoice, send_order_confirmation, Db, cart_empty, invalid_order_state,
  does_not_exist, Action, Done, pure, gets, or_raise, atomic, ◌>>=◌, ◌>>◌, raise_if, modify,
  for_each,
}
use high_performance_e_comme.Inventory.{Line, bulk_reserve, release_stock}
use high_performance_e_comme.Carts.{is_open, items_of, update_cart}

abbrev is_nil {ℓ} : {A : Type ℓ} → List A → Bool
is_nil [] = true
is_nil (_ ∷ _) = false

-- n / 100 to the nearest whole cent, a half to the even one: `quantize(Decimal("0.01"))`.
pub quantize : ℕ → ℕ
quantize n =
    let q = n / 100 in
    let r = n % 100 in if ltb r 50 then q else if ltb 50 r then q + 1 else q + q % 2

pub subtotal_of : List CartItem → ℕ
subtotal_of [] = 0
subtotal_of (i ∷ is) = i.unit_price * i.quantity + subtotal_of is

pub record Totals : Type 0 where
  pub subtotal : ℕ
  pub tax : ℕ
  pub shipping_fee : ℕ
  pub total : ℕ

-- `_calculate_totals`, in cents: 15% tax, and 5.00 for shipping below 100.00.
pub calculate_totals : List CartItem → Totals
unfolding quantize subtotal_of
calculate_totals items =
    let subtotal = subtotal_of items in
    let tax = quantize (subtotal * 15) in
    let shipping_fee : ℕ = if ltb subtotal 10000 then 500 else 0 in
    record {
      subtotal = subtotal;
      tax = tax;
      shipping_fee = shipping_fee;
      total = subtotal + tax + shipping_fee;
    }

abbrev pub open_cart : ℕ → Db → Option Cart
open_cart customer db = find_where (λ c. (c.customer_id == customer) && is_open c.status) db.carts

abbrev pub own_address : ℕ → ℕ → Db → Option Address
own_address customer address db =
    find_where (λ a. (a.id == address) && (a.customer_id == customer)) db.addresses

-- `Order.objects.create(...)`
pub create_order : ℕ → Address → Address → Totals → Action Order
create_order customer shipping billing totals db =
    let order : Order = record {
      id = db.next_id;
      customer_id = customer;
      status = pending;
      subtotal = totals.subtotal;
      tax = totals.tax;
      shipping_fee = totals.shipping_fee;
      total = totals.total;
      shipping_address = shipping.id;
      billing_address = billing.id;
      version = 0;
    } in
    pure order (record db { orders = db.orders ++ order ∷ []; next_id = db.next_id + 1 })

-- One row of the `bulk_create`: the snapshot of a cart line and its product.
pub create_order_item : ℕ → CartItem → Action Done
create_order_item order_id i = do
  product ← gets (λ db. find_row (λ p. p.id) i.product_id db.products) >>= or_raise does_not_exist
  modify λ db. record db {
    order_items =
        db.order_items
        ++ record {
          order_id = order_id;
          product_id = product.id;
          product_sku = product.sku;
          product_name = product.name;
          unit_price = i.unit_price;
          quantity = i.quantity;
          line_total = i.unit_price * i.quantity;
        }
          ∷ [];
  }

abbrev pub line_of_item : CartItem → Line
line_of_item i = (i.product_id, pos i.quantity)

-- The `on_commit` hooks of step 7.
abbrev pub queue_order_tasks : ℕ → Action Done
queue_order_tasks order_id = modify λ db. record db {
  tasks = db.tasks ++ generate_invoice order_id ∷ send_order_confirmation order_id ∷ [];
}

-- Steps 4 to 7 of `place_order`.
pub write_order : ℕ → Address → Address → Cart → List CartItem → Action Order
unfolding calculate_totals create_order create_order_item
write_order customer shipping billing cart items = do
  order ← create_order customer shipping billing (calculate_totals items)
  for_each (create_order_item order.id) items
  bulk_reserve (map line_of_item items) (order_ref order.id)
  update_cart cart.customer_id (λ c. record c { status = checked_out })
  queue_order_tasks order.id
  pure order

-- The body of an admitted call; one that capacity_limited refuses raises before it reads or writes.
pub place_order : ℕ → ℕ → ℕ → Action Order
unfolding write_order
place_order customer shipping_address_id billing_address_id = atomic do
  cart ← gets (open_cart customer) >>= or_raise does_not_exist
  items ← gets λ db. items_of cart.id db.cart_items
  raise_if (is_nil items) cart_empty
  shipping ← gets (own_address customer shipping_address_id) >>= or_raise does_not_exist
  billing ← gets (own_address customer billing_address_id) >>= or_raise does_not_exist
  write_order customer shipping billing cart items

pub insert_item : OrderItem → List OrderItem → List OrderItem
insert_item x [] = x ∷ []
insert_item x (y ∷ ys) = if leb x.product_id y.product_id then x ∷ y ∷ ys else y ∷ insert_item x ys

-- `.order_by("product_id")`
unfoldable pub by_product : List OrderItem → List OrderItem
unfolding insert_item
by_product [] = []
by_product (x ∷ xs) = insert_item x (by_product xs)

-- `OrderItem.objects.filter(order=order).order_by("product_id")`
abbrev pub order_items_of : ℕ → Db → List OrderItem
order_items_of order_id db = by_product (select (λ i. i.order_id == order_id) db.order_items)

abbrev pub order_of : ℕ → Db → Option Order
order_of id db = find_row (λ o. o.id) id db.orders

abbrev pub update_order : ℕ → (Order → Order) → Action Done
update_order id f = modify λ db. record db { orders = update_row (λ o. o.id) id f db.orders }

abbrev pub is_pending : OrderStatus → Bool
is_pending pending = true
is_pending _ = false

-- The order as it stands after the call: `refresh_from_db`.
pub cancel_order : ℕ → Action Order
unfolding by_product
cancel_order order_id = atomic do
  locked ← gets (order_of order_id) >>= or_raise does_not_exist
  raise_if (not (is_pending locked.status)) invalid_order_state
  items ← gets (order_items_of order_id)
  for_each (λ i. release_stock i.product_id (pos i.quantity) (order_ref order_id)) items
  update_order order_id (λ o. record o { status = cancelled; version = locked.version + 1 })
  gets (order_of order_id) >>= or_raise does_not_exist
