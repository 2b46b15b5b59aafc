-- ===== src/Transactions.antt =====
-- The row locks of the services (the `select_for_update` queries of apps/*/services.py) and the
-- transactions that take them side by side. A query with `select_related` locks the joined row too.
-- What a call locks is read from one state of the database; a call that raises stops earlier.
mod Ascending
pub mod Ordered
pub mod Choosing
pub mod Progress
use high_performance_e_comme.Common.{
  ℕ, zero, suc, ◌+◌, ◌*◌, Bool, true, false, ◌&&◌, Option, none, some, List, [], ◌∷◌, ◌==◌,
  if◌then◌else◌, map,
}
use high_performance_e_comme.Store.{Cart, PaymentIntent, Order, OrderItem, Db}
use high_performance_e_comme.Inventory.{
  Line, sorted_lines, Request, reserving, releasing, consuming, restocking,
}
use high_performance_e_comme.Carts.{cart_of, items_of}
use high_performance_e_comme.Orders.{by_product, order_of, open_cart, line_of_item, order_items_of}
use high_performance_e_comme.Payments.{
  intent_of, Payload, EventType, payment_captured, payment_refunded, other_event,
}
use high_performance_e_comme.Shop.{
  Command, stocks, bulk_reserves, opens_cart, clears_cart, adds_item, updates_item, places_order,
  cancels_order, creates_intent, captures, refunds, receives,
}

-- A row by its place in the order that the services name: the table's level, and the key in it. The
-- row of a product is locked in one place, together with its stock row (`_lock_one`), so the stock
-- row stands for both.
pub record Row : Type 0 where
  pub level : ℕ
  pub position : ℕ

abbrev pub intent_row : ℕ → Row
intent_row pk = record { level = 0; position = pk }

abbrev pub cart_row : ℕ → Row
cart_row pk = record { level = 1; position = pk }

abbrev pub order_row : ℕ → Row
order_row pk = record { level = 2; position = pk }

abbrev pub customer_row : ℕ → Row
customer_row pk = record { level = 3; position = pk }

abbrev pub stock_row : ℕ → Row
stock_row product_id = record { level = 4; position = product_id }

abbrev pub same_row : Row → Row → Bool
same_row r s = (r.level == s.level) && (r.position == s.position)

-- The loop over the items of an order, in `release_stock`, `consume_stock` or `restock`.
pub item_rows : List OrderItem → List Row
item_rows [] = []
item_rows (i ∷ is) = stock_row i.product_id ∷ item_rows is

-- The one query of `bulk_reserve`.
pub line_rows : List Line → List Row
line_rows [] = []
line_rows (line ∷ lines) = stock_row line.0 ∷ line_rows lines

abbrev pub product_of : Request → ℕ
product_of (reserving pid qty reference) = pid
product_of (releasing pid qty reference) = pid
product_of (consuming pid qty reference) = pid
product_of (restocking pid qty reference) = pid

abbrev cart_rows : Option Cart → List Row
cart_rows none = []
cart_rows (some cart) = cart_row cart.id ∷ customer_row cart.customer_id ∷ []

abbrev one_cart_row : Option Cart → List Row
one_cart_row none = []
one_cart_row (some cart) = cart_row cart.id ∷ []

-- `place_order` does not lock its new order, which no other call can name before it commits.
abbrev checkout_rows : Db → Option Cart → List Row
checkout_rows db none = []
checkout_rows db (some cart) =
    cart_row cart.id
    ∷ customer_row cart.customer_id
    ∷ line_rows (sorted_lines (map line_of_item (items_of cart.id db.cart_items)))

-- The rows after the order, in `capture_payment` and in `refund_payment`.
abbrev paying_rows : Db → Option Order → List Row
paying_rows db none = []
paying_rows db (some order) =
    customer_row order.customer_id ∷ item_rows (order_items_of order.id db)

-- `capture_payment` names the order in its first query and locks it in the second.
abbrev capture_rows : Db → Option PaymentIntent → List Row
capture_rows db none = []
capture_rows db (some intent) =
    intent_row intent.id
    ∷ order_row intent.order_id
    ∷ order_row intent.order_id
    ∷ paying_rows db (order_of intent.order_id db)

abbrev refund_rows : Db → Option PaymentIntent → List Row
refund_rows db none = []
refund_rows db (some intent) =
    intent_row intent.id ∷ order_row intent.order_id ∷ paying_rows db (order_of intent.order_id db)

-- The webhook's handler runs in a transaction of its own.
abbrev webhook_rows : Db → EventType → Option ℕ → List Row
webhook_rows db payment_captured (some (suc n)) = capture_rows db (intent_of (suc n) db)
webhook_rows db payment_refunded (some (suc n)) = refund_rows db (intent_of (suc n) db)
webhook_rows db _ _ = []

-- The rows that a call locks, in order.
pub locks : Command → Db → List Row
unfolding item_rows line_rows by_product
locks (stocks q) db = stock_row (product_of q) ∷ []
locks (bulk_reserves items r) db = line_rows (sorted_lines items)
locks (opens_cart customer) db = []
locks (clears_cart customer) db = one_cart_row (open_cart customer db)
locks (adds_item customer pid quantity) db = cart_rows (cart_of customer db)
locks (updates_item customer item_id quantity) db = one_cart_row (cart_of customer db)
locks (places_order customer shipping billing) db = checkout_rows db (open_cart customer db)
locks (cancels_order order_id) db = order_row order_id ∷ item_rows (order_items_of order_id db)
locks (creates_intent order_id amount) db = []
locks (captures intent_id external_id) db = capture_rows db (intent_of intent_id db)
locks (refunds intent_id) db = refund_rows db (intent_of intent_id db)
locks (receives signature payload) db = webhook_rows db payload.event payload.intent_id

-- The lock table of the database, which grants a row to one transaction at a time, and the rows that each transaction still wants. Transactions are numbered as they
-- begin.
pub record Locking : Type 0 where
  pub owner : Row → Option ℕ
  pub wanted : ℕ → Option (List Row)
  pub begun : ℕ

-- A transaction begins, asks for its next row, commits after its last one, or rolls back.
pub data Event : Type 0 where
  begins : Command → Db → Event
  asks commits rolls_back : ℕ → Event

abbrev pub is_owner : ℕ → Option ℕ → Bool
is_owner j none = false
is_owner j (some i) = i == j

abbrev pub may_take : ℕ → Option ℕ → Bool
may_take j none = true
may_take j (some i) = i == j

abbrev pub set_wanted : ℕ → Option (List Row) → (ℕ → Option (List Row)) → ℕ → Option (List Row)
set_wanted j rows old k = if k == j then rows else old k

-- A row that another transaction holds is waited for: nothing changes.
abbrev ask : ℕ → Option (List Row) → Locking → Locking
ask j none s = s
ask j (some []) s = s
ask j (some (r ∷ rs)) s =
    if may_take j (s.owner r)
    then record s {
      owner = λ q. if same_row q r then some j else s.owner q;
      wanted = set_wanted j (some rs) s.wanted;
    }
    else s

-- The end of a transaction gives its rows back.
abbrev finish : ℕ → Locking → Locking
finish j s = record s {
  owner = λ q. if is_owner j (s.owner q) then none else s.owner q;
  wanted = set_wanted j none s.wanted;
}

abbrev commit : ℕ → Option (List Row) → Locking → Locking
commit j none s = s
commit j (some []) s = finish j s
commit j (some (r ∷ rs)) s = s

pub occur : Event → Locking → Locking
occur (begins c db) s = record s {
  wanted = set_wanted s.begun (some (locks c db)) s.wanted;
  begun = s.begun + 1;
}
occur (asks j) s = ask j (s.wanted j) s
occur (commits j) s = commit j (s.wanted j) s
occur (rolls_back j) s = finish j s

pub occur_all : List Event → Locking → Locking
unfolding occur
occur_all [] s = s
occur_all (e ∷ es) s = occur_all es (occur e s)

abbrev pub no_transaction : Locking
no_transaction = record { owner = λ _. none; wanted = λ _. none; begun = 0 }
