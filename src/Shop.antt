-- ===== src/Shop.antt =====
-- The services of the shop together (apps/inventory, apps/cart, apps/orders and apps/payments): any
-- sequence of their calls.
pub mod Invariant
pub mod History
pub mod Money
use Prim.Native.String.{String}
use high_performance_e_comme.Common.{ℕ, List, [], ◌∷◌}
use high_performance_e_comme.Store.{Db, Reference}
use high_performance_e_comme.Inventory.{Line, Request, serve, bulk_reserve}
use high_performance_e_comme.Carts.{get_or_create_cart, add_item, update_item, clear_cart}
use high_performance_e_comme.Orders.{place_order, cancel_order}
use high_performance_e_comme.Payments.{
  Payload, create_intent, capture_payment, refund_payment, process_webhook,
}

-- A call of a service of the inventory, the carts, the orders or the payments, with its arguments. A
-- call that raises is answered and forgotten. A call that capacity_limited refuses raises before it
-- reads or writes anything, so a schedule leaves it out.
pub data Command : Type 0 where
  stocks : Request → Command
  bulk_reserves : List Line → Reference → Command
  opens_cart clears_cart : ℕ → Command
  adds_item updates_item : ℕ → ℕ → ℕ → Command
  places_order : ℕ → ℕ → ℕ → Command
  cancels_order : ℕ → Command
  creates_intent : ℕ → ℕ → Command
  captures : ℕ → String → Command
  refunds : ℕ → Command
  receives : String → Payload → Command

pub execute : Command → Db → Db
execute (stocks q) db = (serve q db).1
execute (bulk_reserves items r) db = (bulk_reserve items r db).1
execute (opens_cart customer) db = (get_or_create_cart customer db).1
execute (clears_cart customer) db = (clear_cart customer db).1
execute (adds_item customer pid quantity) db = (add_item customer pid quantity db).1
execute (updates_item customer item_id quantity) db = (update_item customer item_id quantity db).1
execute (places_order customer shipping billing) db = (place_order customer shipping billing db).1
execute (cancels_order order_id) db = (cancel_order order_id db).1
execute (creates_intent order_id amount) db = (create_intent order_id amount db).1
execute (captures intent_id external_id) db = (capture_payment intent_id external_id db).1
execute (refunds intent_id) db = (refund_payment intent_id db).1
execute (receives signature payload) db = (process_webhook signature payload db).1

pub execute_all : List Command → Db → Db
unfolding execute
execute_all [] db = db
execute_all (c ∷ cs) db = execute_all cs (execute c db)
