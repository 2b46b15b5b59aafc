-- ===== src/Orders/Placing.antt =====
-- What a checkout does (apps/orders/services.py: place_order), as one change of the database.
use mathlib.Core.List.{append_assoc, append-nil}
use high_performance_e_comme.Common.{
  ℕ, ◌+◌, ◌*◌, ◌≡◌, ◌≢◌, ◌⊎◌, refl, sym, ap, ◌∙◌, inl, inr, false, some, List, [], ◌∷◌, ◌++◌, map,
  All, Option-cases, find_row, update_row,
}
use high_performance_e_comme.Store.{
  Cart, checked_out, CartItem, Address, Product, Order, OrderItem, pending, order_ref,
  generate_invoice, send_order_confirmation, Db, ok, err, Error, does_not_exist, cart_empty,
  not_enough_stock, invalid_quantity, for_each, settle,
}
use high_performance_e_comme.Inventory.{Line, sorted_lines, movement_of}
use high_performance_e_comme.Inventory.Bulk.{IsPositive, Fits, reserve_rows, bulk_reserve-cases}
use high_performance_e_comme.Carts.{items_of}
use high_performance_e_comme.Orders.{
  calculate_totals, open_cart, own_address, create_order, create_order_item, line_of_item,
  write_order, place_order, is_nil,
}

-- The snapshot of a cart's line and its product.
abbrev pub snapshot_of : ℕ → CartItem → Product → OrderItem
snapshot_of order_id i product = record {
  order_id = order_id;
  product_id = product.id;
  product_sku = product.sku;
  product_name = product.name;
  unit_price = i.unit_price;
  quantity = i.quantity;
  line_total = i.unit_price * i.quantity;
}

-- The rows are the snapshots of the lines, in order, with the products of the database.
abbrev pub AreSnapshots : ℕ → List Product → List CartItem → List OrderItem → Type 0
AreSnapshots order_id products [] [] = Unit
AreSnapshots order_id products [] (_ ∷ _) = ⊥
AreSnapshots order_id products (_ ∷ _) [] = ⊥
AreSnapshots order_id products (i ∷ is) (row ∷ rows) =
    ((product : Product) × (find_row (λ p. p.id) i.product_id products ≡ some product)
      × (row ≡ snapshot_of order_id i product))
    × AreSnapshots order_id products is rows

fill_order-cases :
    (order_id : ℕ) (is : List CartItem) (db : Db)
    → ((rows : List OrderItem) × AreSnapshots order_id db.products is rows
        × (for_each (create_order_item order_id) is db
            ≡ (ok tt, record db { order_items = db.order_items ++ rows })))
      ⊎ ((d : Db) × (for_each (create_order_item order_id) is db ≡ (err does_not_exist, d)))
unfolding create_order_item
fill_order-cases order_id [] db = inl (
  [],
  tt,
  ap (λ (xs : List OrderItem). (ok tt, record db { order_items = xs }))
      (sym (append-nil db.order_items)),
)
fill_order-cases order_id (i ∷ is) db =
    elim (Option-cases (find_row (λ (p : Product). p.id) i.product_id db.products)) [
      | inl missing ↦ inr (db, rw missing refl)
      | inr (product, e) ↦
          let row = snapshot_of order_id i product in
          elim (fill_order-cases order_id is
            (record db { order_items = db.order_items ++ row ∷ [] })) [
              | inl (rows, taken, es) ↦ inl (
                row ∷ rows,
                ((product, e, refl), taken),
                rw e (
                    es
                    ∙ ap (λ (xs : List OrderItem). (ok tt, record db { order_items = xs }))
                        (append_assoc db.order_items (row ∷ []) rows)),
              )
              | inr (d, fails) ↦ inr (d, rw e fails)
            ]
    ]

-- The new order, and the database with everything that a checkout writes.
abbrev pub new_order : ℕ → Address → Address → List CartItem → Db → Order
new_order customer shipping billing items db =
    let totals = calculate_totals items in
    record {
      id = db.next_id;
      customer_id = customer;
      status = pending;
      subtotal = totals.subtotal;
      tax = totals.tax;
      shipping_fee = totals.shipping_fee;
      total = totals.total;
      shipping_address = shipping.id;
      billing_address = billing.id;
      version = 0;
    }

abbrev pub lines_of : List CartItem → List Line
lines_of items = sorted_lines (map line_of_item items)

abbrev pub placed : Order → Cart → List CartItem → List OrderItem → Db → Db
placed order cart items rows db = record db {
  orders = db.orders ++ order ∷ [];
  order_items = db.order_items ++ rows;
  stock = reserve_rows (lines_of items) db.stock;
  movements = db.movements ++ map (movement_of (order_ref db.next_id)) (lines_of items);
  carts =
      update_row (λ c. c.customer_id) cart.customer_id (λ c. record c { status = checked_out })
        db.carts;
  tasks = db.tasks ++ generate_invoice db.next_id ∷ send_order_confirmation db.next_id ∷ [];
  next_id = db.next_id + 1;
}

write_order-cases :
    (customer : ℕ) (shipping billing : Address) (cart : Cart) (i : CartItem) (is : List CartItem)
    (db : Db)
    → let order = new_order customer shipping billing (i ∷ is) db in
      ((e : Error) × (d : Db) × (write_order customer shipping billing cart (i ∷ is) db
          ≡ (err e, d)))
      ⊎ ((rows : List OrderItem) × AreSnapshots db.next_id db.products (i ∷ is) rows
          × All IsPositive (lines_of (i ∷ is))
          × All (Fits db) (lines_of (i ∷ is))
          × (write_order customer shipping billing cart (i ∷ is) db
              ≡ (ok order, placed order cart (i ∷ is) rows db)))
unfolding write_order create_order
write_order-cases customer shipping billing cart i is db =
    let order = new_order customer shipping billing (i ∷ is) db in
    let created : Db = record db { orders = db.orders ++ order ∷ []; next_id = db.next_id + 1 } in
    elim (fill_order-cases db.next_id (i ∷ is) created) [
      | inr (d, fails) ↦ inl (does_not_exist, d, rw fails refl)
      | inl (rows, taken, filled) ↦
          let full : Db = record created { order_items = db.order_items ++ rows } in
          elim (bulk_reserve-cases (line_of_item i) (map line_of_item is) (order_ref db.next_id)
            full) [
              | inl bad ↦ inl (invalid_quantity, full, rw filled (rw bad refl))
              | inr (inl short) ↦ inl (not_enough_stock, full, rw filled (rw short refl))
              | inr (inr (positive, fits, reserved)) ↦
                  inr (rows, taken, positive, fits, rw filled (rw reserved refl))
            ]
    ]

-- What a checkout that returns an order has found: the open cart with its lines, both addresses of
-- the customer, every product, and room for every line.
pub record Placed (customer shipping_id billing_id : ℕ) (db : Db) (order : Order) (db' : Db)
    : Type 0 where
  pub cart : Cart
  pub shipping : Address
  pub billing : Address
  pub items : List CartItem
  pub rows : List OrderItem
  pub cart_found : open_cart customer db ≡ some cart
  pub shipping_found : own_address customer shipping_id db ≡ some shipping
  pub billing_found : own_address customer billing_id db ≡ some billing
  pub items_found : items_of cart.id db.cart_items ≡ items
  pub has_items : items ≢ []
  pub taken : AreSnapshots db.next_id db.products items rows
  pub positive : All IsPositive (lines_of items)
  pub fits : All (Fits db) (lines_of items)
  pub order_made : order ≡ new_order customer shipping billing items db
  pub all_written : db' ≡ placed order cart items rows db

-- A checkout whose lookups succeed comes to its writes.
place_order-reaches :
    (customer shipping_id billing_id : ℕ) (db : Db) (cart : Cart)
    → open_cart customer db ≡ some cart
    → is_nil (items_of cart.id db.cart_items) ≡ false
    → (s : Address) → own_address customer shipping_id db ≡ some s
    → (b : Address) → own_address customer billing_id db ≡ some b
    → place_order customer shipping_id billing_id db
      ≡ settle db (write_order customer s b cart (items_of cart.id db.cart_items) db)
unfolding place_order
place_order-reaches customer shipping_id billing_id db cart ec nonempty s es b eb =
    rw ec (rw nonempty (rw es (rw eb refl)))

-- A checkout raises and leaves the database as it was, or it returns a new pending order. Then it
-- found the customer's open cart with at least one line, both addresses of the customer, every
-- product, a positive quantity and enough units for every line; the order has the totals of the
-- lines; and the database has changed by exactly this: the order, a snapshot of each line, the
-- reserved units with a movement for each line, the closed cart, and the two tasks.
pub place_order-cases :
    (customer shipping_id billing_id : ℕ) (db : Db)
    → ((e : Error) × (place_order customer shipping_id billing_id db ≡ (err e, db)))
      ⊎ ((order : Order) × (db' : Db) × (place_order customer shipping_id billing_id db
            ≡ (ok order, db'))
          × Placed customer shipping_id billing_id db order db')
unfolding place_order
place_order-cases customer shipping_id billing_id db = elim (Option-cases (open_cart customer db)) [
  | inl missing ↦ inl (does_not_exist, rw missing refl)
  | inr (cart, ec) ↦ go cart ec (items_of cart.id db.cart_items) refl
]
  where
    go :
        (cart : Cart)
        → open_cart customer db ≡ some cart
        → (items : List CartItem) → items_of cart.id db.cart_items ≡ items
        → ((e : Error) × (place_order customer shipping_id billing_id db ≡ (err e, db)))
          ⊎ ((order : Order) × (db' : Db) × (place_order customer shipping_id billing_id db
                ≡ (ok order, db'))
              × Placed customer shipping_id billing_id db order db')
    go cart ec [] ei = inl (cart_empty, rw ec (rw ei refl))
    go cart ec (i ∷ is) ei =
        let reaches =
          λ (s : Address) (es : own_address customer shipping_id db ≡ some s) (b : Address)
              (eb : own_address customer billing_id db ≡ some b).
            place_order-reaches customer shipping_id billing_id db cart ec (rw ei refl) s es b eb
            ∙ ap (λ (is' : List CartItem). settle db (write_order customer s b cart is' db)) ei in
        elim (Option-cases (own_address customer shipping_id db)) [
          | inl missing ↦ inl (does_not_exist, rw ec (rw ei (rw missing refl)))
          | inr (s, es) ↦ elim (Option-cases (own_address customer billing_id db)) [
            | inl missing ↦ inl (does_not_exist, rw ec (rw ei (rw es (rw missing refl))))
            | inr (b, eb) ↦ elim (write_order-cases customer s b cart i is db) [
              | inl (e, d, fails) ↦ inl (e, reaches s es b eb ∙ ap (settle db) fails)
              | inr (rows, taken, positive, fits, writes) ↦
                  let order = new_order customer s b (i ∷ is) db in
                  inr (
                    order,
                    placed order cart (i ∷ is) rows db,
                    reaches s es b eb ∙ ap (settle db) writes,
                    record {
                      cart = cart;
                      shipping = s;
                      billing = b;
                      items = i ∷ is;
                      rows = rows;
                      cart_found = ec;
                      shipping_found = es;
                      billing_found = eb;
                      items_found = ei;
                      has_items = λ e. cc;
                      taken = taken;
                      positive = positive;
                      fits = fits;
                      order_made = refl;
                      all_written = refl;
                    },
                  )
            ]
          ]
        ]
