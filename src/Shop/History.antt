-- ===== src/Shop/History.antt =====
-- What becomes of the orders through calls of the shop's services (apps/inventory, apps/cart,
-- apps/orders and apps/payments).
use mathlib.Core.Path.{subst}
use high_performance_e_comme.Common.{◌≡◌, sym, List, [], ◌∷◌}
use high_performance_e_comme.Store.{Db}
use high_performance_e_comme.Inventory.{serve, bulk_reserve}
use high_performance_e_comme.Inventory.Frame.{
  serve-SameTables, SameTables-refl, bulk_reserve-SameTables,
}
use high_performance_e_comme.Carts.Frame.{
  get_or_create_cart-SameShop, add_item-SameShop, update_item-SameShop, clear_cart-SameShop,
}
use high_performance_e_comme.Orders.History.{
  Extends, Extends-refl, Extends-trans, place_order-Extends, cancel_order-Extends,
}
use high_performance_e_comme.Payments.History.{
  create_intent-Extends, capture_payment-Extends, refund_payment-Extends, process_webhook-Extends,
}
use high_performance_e_comme.Shop.{
  Command, stocks, bulk_reserves, opens_cart, clears_cart, adds_item, updates_item, places_order,
  cancels_order, creates_intent, captures, refunds, receives, execute, execute_all,
}

-- A call that leaves the orders alone.
same-Extends : (db d : Db) → d.orders ≡ db.orders → Extends db.orders d.orders
same-Extends db d same = subst (Extends db.orders) (sym same) (Extends-refl db.orders)

execute-Extends : (c : Command) (db : Db) → Extends db.orders (execute c db).orders
unfolding execute
execute-Extends (stocks q) db = same-Extends db (serve q db).1 (serve-SameTables q db).orders
execute-Extends (bulk_reserves items r) db =
    same-Extends db (bulk_reserve items r db).1
      (bulk_reserve-SameTables db items r db (SameTables-refl db)).orders
execute-Extends (opens_cart c) db =
    same-Extends db (execute (opens_cart c) db) (get_or_create_cart-SameShop c db).orders
execute-Extends (clears_cart c) db =
    same-Extends db (execute (clears_cart c) db) (clear_cart-SameShop c db).orders
execute-Extends (adds_item c pid n) db =
    same-Extends db (execute (adds_item c pid n) db) (add_item-SameShop c db pid n).orders
execute-Extends (updates_item c i n) db =
    same-Extends db (execute (updates_item c i n) db) (update_item-SameShop c db i n).orders
execute-Extends (places_order c s b) db = place_order-Extends c s b db
execute-Extends (cancels_order o) db = cancel_order-Extends o db
execute-Extends (creates_intent o n) db = create_intent-Extends o n db
execute-Extends (captures i x) db = capture_payment-Extends i x db
execute-Extends (refunds i) db = refund_payment-Extends i db
execute-Extends (receives s p) db = process_webhook-Extends s p db

-- Whatever calls of the four services are made, in whatever order and with whatever arguments,
-- failed ones included: every order is still there, in its place and with its customer, addresses
-- and totals; its status has not gone back, where cancelled comes last; it is unchanged, or its
-- version is higher; and new orders come after.
pub execute_all-Extends :
    (cs : List Command) (db : Db) → Extends db.orders (execute_all cs db).orders
unfolding execute_all
execute_all-Extends [] db = Extends-refl db.orders
execute_all-Extends (c ∷ cs) db =
    Extends-trans db.orders (execute c db).orders (execute_all cs (execute c db)).orders
      (execute-Extends c db) (execute_all-Extends cs (execute c db))
