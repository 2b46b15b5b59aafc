-- ===== src/Transactions/Ascending.antt =====
-- The order in which the calls of the services lock rows (apps/*/services.py).
use high_performance_e_comme.Common.{
  ℕ, zero, suc, ◌≤◌, ◌<◌, ◌≡◌, ◌⊎◌, inl, inr, Option, none, some, List, [], ◌∷◌, map, arith, All,
  From, IsSorted, refl,
}
use high_performance_e_comme.Store.{Cart, Order, OrderItem, PaymentIntent, Db}
use high_performance_e_comme.Inventory.{Line, sorted_lines}
use high_performance_e_comme.Inventory.Sorting.{line_key, sorted_lines-IsSorted}
use high_performance_e_comme.Orders.Sorting.{item_key, by_product-IsSorted}
use high_performance_e_comme.Carts.{cart_of, items_of}
use high_performance_e_comme.Orders.{order_items_of, order_of, open_cart, line_of_item}
use high_performance_e_comme.Payments.{
  intent_of, EventType, payment_captured, payment_refunded, other_event,
}
use high_performance_e_comme.Shop.{
  Command, stocks, bulk_reserves, opens_cart, clears_cart, adds_item, updates_item, places_order,
  cancels_order, creates_intent, captures, refunds, receives,
}
use high_performance_e_comme.Transactions.{
  Row, intent_row, cart_row, order_row, customer_row, stock_row, item_rows, line_rows, cart_rows,
  one_cart_row, checkout_rows, paying_rows, capture_rows, refund_rows, webhook_rows, locks,
}

-- A row that is locked no later than another.
abbrev pub Precedes : Row → Row → Type 0
Precedes r s = (r.level < s.level) ⊎ (r.level ≡ s.level) × (r.position ≤ s.position)

abbrev pub Ascends : List Row → Type 0
Ascends [] = Unit
Ascends (r ∷ rs) = All (Precedes r) rs × Ascends rs

-- Stock rows come after the rows of all other tables.
item_rows-above : (r : Row) (is : List OrderItem) → r.level < 4 → All (Precedes r) (item_rows is)
unfolding item_rows
item_rows-above r [] h = tt
item_rows-above r (i ∷ is) h = (inl h, item_rows-above r is h)

line_rows-above : (r : Row) (ls : List Line) → r.level < 4 → All (Precedes r) (line_rows ls)
unfolding line_rows
line_rows-above r [] h = tt
line_rows-above r (l ∷ ls) h = (inl h, line_rows-above r ls h)

-- The rows of a product come before those of the next product.
item_rows-From :
    (r : Row) (p : ℕ) (is : List OrderItem)
    → r.level ≡ 4
    → r.position ≤ p
    → From item_key p is
    → All (Precedes r) (item_rows is)
unfolding item_rows
item_rows-From r p [] e h k = tt
item_rows-From r p (i ∷ is) e h (k, ks) = (inr (e, omega arith), item_rows-From r p is e h ks)

line_rows-From :
    (r : Row) (p : ℕ) (ls : List Line)
    → r.level ≡ 4
    → r.position ≤ p
    → From line_key p ls
    → All (Precedes r) (line_rows ls)
unfolding line_rows
line_rows-From r p [] e h k = tt
line_rows-From r p (l ∷ ls) e h (k, ks) = (inr (e, omega arith), line_rows-From r p ls e h ks)

line_rows-Ascends : (ls : List Line) → IsSorted line_key ls → Ascends (line_rows ls)
unfolding line_rows
line_rows-Ascends [] h = tt
line_rows-Ascends (l ∷ ls) (h, hs) =
    (line_rows-From (stock_row l.0) l.0 ls refl (omega arith) h, line_rows-Ascends ls hs)

item_rows-Ascends : (is : List OrderItem) → IsSorted item_key is → Ascends (item_rows is)
unfolding item_rows
item_rows-Ascends [] h = tt
item_rows-Ascends (i ∷ is) (h, hs) = (
  item_rows-From (stock_row i.product_id) i.product_id is refl (omega arith) h,
  item_rows-Ascends is hs,
)

module _ (db : Db) where
  order_items_of-Ascends : (id : ℕ) → Ascends (item_rows (order_items_of id db))
  order_items_of-Ascends id = item_rows-Ascends (order_items_of id db) (by_product-IsSorted _)

  -- A row of a payment's intent or of its order comes before the rows that the payment locks next.
  paying_rows-above :
      (r : Row) (o : Option Order) → r.level < 3 → All (Precedes r) (paying_rows db o)
  paying_rows-above r none h = tt
  paying_rows-above r (some o) h = (inl h, item_rows-above r (order_items_of o.id db) (omega arith))

  paying_rows-Ascends : (o : Option Order) → Ascends (paying_rows db o)
  paying_rows-Ascends none = tt
  paying_rows-Ascends (some o) = (
    item_rows-above (customer_row o.customer_id) (order_items_of o.id db) (omega arith),
    order_items_of-Ascends o.id,
  )

  capture_rows-Ascends : (p : Option PaymentIntent) → Ascends (capture_rows db p)
  capture_rows-Ascends none = tt
  capture_rows-Ascends (some p) =
      let rest = order_of p.order_id db in
      let above : All (Precedes (order_row p.order_id)) (paying_rows db rest) =
        paying_rows-above (order_row p.order_id) rest (omega arith) in
      (
        (
          inl (omega arith),
          (inl (omega arith), paying_rows-above (intent_row p.id) rest (omega arith)),
        ),
        ((inr (refl, omega arith), above), (above, paying_rows-Ascends rest)),
      )

  refund_rows-Ascends : (p : Option PaymentIntent) → Ascends (refund_rows db p)
  refund_rows-Ascends none = tt
  refund_rows-Ascends (some p) =
      let rest = order_of p.order_id db in
      (
        (inl (omega arith), paying_rows-above (intent_row p.id) rest (omega arith)),
        (paying_rows-above (order_row p.order_id) rest (omega arith), paying_rows-Ascends rest),
      )

  cart_rows-Ascends : (c : Option Cart) → Ascends (cart_rows c)
  cart_rows-Ascends none = tt
  cart_rows-Ascends (some c) = ((inl (omega arith), tt), (tt, tt))

  one_cart_row-Ascends : (c : Option Cart) → Ascends (one_cart_row c)
  one_cart_row-Ascends none = tt
  one_cart_row-Ascends (some c) = (tt, tt)

  checkout_rows-Ascends : (c : Option Cart) → Ascends (checkout_rows db c)
  checkout_rows-Ascends none = tt
  checkout_rows-Ascends (some c) =
      let lines = sorted_lines (map line_of_item (items_of c.id db.cart_items)) in
      (
        (inl (omega arith), line_rows-above (cart_row c.id) lines (omega arith)),
        (
          line_rows-above (customer_row c.customer_id) lines (omega arith),
          line_rows-Ascends lines (sorted_lines-IsSorted _),
        ),
      )

  webhook_rows-Ascends : (e : EventType) (id : Option ℕ) → Ascends (webhook_rows db e id)
  webhook_rows-Ascends payment_captured (some (suc n)) = capture_rows-Ascends (intent_of (suc n) db)
  webhook_rows-Ascends payment_captured (some zero) = tt
  webhook_rows-Ascends payment_captured none = tt
  webhook_rows-Ascends payment_refunded (some (suc n)) = refund_rows-Ascends (intent_of (suc n) db)
  webhook_rows-Ascends payment_refunded (some zero) = tt
  webhook_rows-Ascends payment_refunded none = tt
  webhook_rows-Ascends other_event id = tt

  -- Every call of the services locks its rows in the one order of tables and keys.
  pub locks-Ascends : (c : Command) → Ascends (locks c db)
  unfolding locks
  locks-Ascends (stocks q) = (tt, tt)
  locks-Ascends (bulk_reserves items r) =
      line_rows-Ascends (sorted_lines items) (sorted_lines-IsSorted items)
  locks-Ascends (opens_cart customer) = tt
  locks-Ascends (clears_cart customer) = one_cart_row-Ascends (open_cart customer db)
  locks-Ascends (adds_item customer pid quantity) = cart_rows-Ascends (cart_of customer db)
  locks-Ascends (updates_item customer item_id quantity) =
      one_cart_row-Ascends (cart_of customer db)
  locks-Ascends (places_order customer shipping billing) =
      checkout_rows-Ascends (open_cart customer db)
  locks-Ascends (cancels_order order_id) = (
    item_rows-above (order_row order_id) (order_items_of order_id db) (omega arith),
    order_items_of-Ascends order_id,
  )
  locks-Ascends (creates_intent order_id amount) = tt
  locks-Ascends (captures intent_id external_id) = capture_rows-Ascends (intent_of intent_id db)
  locks-Ascends (refunds intent_id) = refund_rows-Ascends (intent_of intent_id db)
  locks-Ascends (receives signature payload) = webhook_rows-Ascends payload.event payload.intent_id
