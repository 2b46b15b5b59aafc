-- ===== src/Orders/Keeping.antt =====
-- What checkouts and cancellations keep (apps/orders/services.py): any predicate on the stock and
-- the lines of the carts that reservations and releases keep.
use high_performance_e_comme.Common.{
  ℕ, ◌+◌, refl, ◌≡◌, inl, inr, none, some, arith, List, map, Option-cases,
}
use high_performance_e_comme.Common.Int.{ℤ, pos}
use high_performance_e_comme.Store.{
  Order, Address, Cart, CartItem, OrderItem, Action, Done, pure, checked_out, ◌>>◌, order_ref, Db,
  Keeps, IsFramed, Reference, Keeps->>=, Keeps-atomic, ◌>>=◌, gets, or_raise, err, cancelled,
  does_not_exist, for_each, for_each-keeps,
}
use high_performance_e_comme.Inventory.{Line, release_stock, bulk_reserve}
use high_performance_e_comme.Inventory.Bulk.{IsDistinct}
use high_performance_e_comme.Carts.{items_of, update_cart}
use high_performance_e_comme.Orders.{
  open_cart, own_address, line_of_item, create_order, create_order_item, calculate_totals, Totals,
  queue_order_tasks, write_order, place_order, order_items_of, order_of, update_order, cancel_order,
}

abbrev close_cart : Cart → Order → Action Order
close_cart cart order = do
  update_cart cart.customer_id (λ c. record c { status = checked_out })
  queue_order_tasks order.id
  pure order

-- The last writes of a cancellation.
abbrev pub close_order : ℕ → Order → Action Order
close_order order_id locked = do
  update_order order_id (λ o. record o { status = cancelled; version = locked.version + 1 })
  gets (order_of order_id) >>= or_raise does_not_exist

-- What `write_order` does with the new order.
abbrev fill_order : Cart → List CartItem → Order → Action Order
fill_order cart items order = do
  for_each (create_order_item order.id) items
  bulk_reserve (map line_of_item items) (order_ref order.id)
  close_cart cart order

pub place_order-no_cart :
    (customer shipping_id billing_id : ℕ) (db : Db)
    → open_cart customer db ≡ none
    → place_order customer shipping_id billing_id db ≡ (err does_not_exist, db)
unfolding place_order
place_order-no_cart customer shipping_id billing_id db missing = ground arith

module _ (P : Db → Type 0) (framed : IsFramed P)
    (releasing : (pid : ℕ) (qty : ℤ) (r : Reference) → Keeps P (release_stock pid qty r))
    (reserving : (items : List Line) (r : Reference) (db : Db)
      → IsDistinct items
      → P db
      → P (bulk_reserve items r db).1) where
  releases-Keeps :
      (order_id : ℕ) (items : List OrderItem)
      → Keeps P
          (for_each (λ i. release_stock i.product_id (pos i.quantity) (order_ref order_id)) items)
  releases-Keeps order_id items =
      for_each-keeps P (λ i. release_stock i.product_id (pos i.quantity) (order_ref order_id)) items
        (λ i. releasing i.product_id (pos i.quantity) (order_ref order_id))

  pub cancel_order-Keeps : (order_id : ℕ) → Keeps P (cancel_order order_id)
  unfolding cancel_order
  cancel_order-Keeps order_id db h = elim (Option-cases (order_of order_id db)) [
    | inl missing ↦ ground arith
    | inr (o, e) ↦
        let items = order_items_of order_id db in
        let releases : Action Done =
          for_each (λ i. release_stock i.product_id (pos i.quantity) (order_ref order_id)) items in
        let closes = λ (d : Db).
          framed d (close_order order_id o d).1 (ground arith) (ground arith) (ground arith) in
        let kept =
          Keeps-atomic P (releases >> close_order order_id o)
            (Keeps->>= P releases (λ _. close_order order_id o) (releases-Keeps order_id items)
              (λ _. closes))
            db h in
        ground (arith, kept)
  ]

  create_order_item-Keeps : (order_id : ℕ) (i : CartItem) → Keeps P (create_order_item order_id i)
  unfolding create_order_item
  create_order_item-Keeps order_id i db h =
      framed db (create_order_item order_id i db).1 (ground arith) (ground arith) (ground arith) h

  create_order-Keeps :
      (customer : ℕ) (shipping billing : Address) (t : Totals)
      → Keeps P (create_order customer shipping billing t)
  unfolding create_order
  create_order-Keeps customer shipping billing t db h =
      framed db (create_order customer shipping billing t db).1 refl refl (omega arith) h

  fill_order-Keeps :
      (cart : Cart) (items : List CartItem) (order : Order)
      → IsDistinct (map line_of_item items)
      → Keeps P (fill_order cart items order)
  fill_order-Keeps cart items order d =
      let reserved : Action Done = bulk_reserve (map line_of_item items) (order_ref order.id) in
      Keeps->>= P (for_each (create_order_item order.id) items)
        (λ _. reserved >> close_cart cart order)
        (for_each-keeps P (create_order_item order.id) items (create_order_item-Keeps order.id))
        (λ _.
          Keeps->>= P reserved (λ _. close_cart cart order)
            (λ db. reserving (map line_of_item items) (order_ref order.id) db d)
            (λ _ db. framed db (close_cart cart order db).1 refl refl (omega arith)))

  write_order-Keeps :
      (customer : ℕ) (shipping billing : Address) (cart : Cart) (items : List CartItem)
      → IsDistinct (map line_of_item items)
      → Keeps P (write_order customer shipping billing cart items)
  unfolding write_order
  write_order-Keeps customer shipping billing cart items d =
      Keeps->>= P (create_order customer shipping billing (calculate_totals items))
        (fill_order cart items)
        (create_order-Keeps customer shipping billing (calculate_totals items))
        (λ order. fill_order-Keeps cart items order d)

  pub place_order-keeps :
      (customer shipping_id billing_id : ℕ) (db : Db) (cart : Cart)
      → open_cart customer db ≡ some cart
      → IsDistinct (map line_of_item (items_of cart.id db.cart_items))
      → P db
      → P (place_order customer shipping_id billing_id db).1
  unfolding place_order
  place_order-keeps customer shipping_id billing_id db cart e d h =
      elim (Option-cases (own_address customer shipping_id db)) [
        | inl missing ↦ ground arith
        | inr (s, es) ↦ elim (Option-cases (own_address customer billing_id db)) [
          | inl missing ↦ ground arith
          | inr (b, eb) ↦
              ground
                (arith, write_order-Keeps customer s b cart (items_of cart.id db.cart_items) d db h)
        ]
      ]
