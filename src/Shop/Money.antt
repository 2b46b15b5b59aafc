-- ===== src/Shop/Money.antt =====
-- The money in the shop through calls of its services (apps/inventory, apps/cart, apps/orders and
-- apps/payments).
use high_performance_e_comme.Common.{◌≡◌, refl, ◌∙◌, List, [], ◌∷◌}
use high_performance_e_comme.Store.{Db}
use high_performance_e_comme.Inventory.{serve, bulk_reserve}
use high_performance_e_comme.Inventory.Frame.{
  serve-SameTables, SameTables-refl, bulk_reserve-SameTables,
}
use high_performance_e_comme.Carts.Frame.{
  SameShop, get_or_create_cart-SameShop, add_item-SameShop, update_item-SameShop,
  clear_cart-SameShop,
}
use high_performance_e_comme.Orders.History.{place_order-SameMoney, cancel_order-SameMoney}
use high_performance_e_comme.Payments.Money.{
  money, same-money, create_intent-money, capture_payment-money, refund_payment-money,
  process_webhook-money,
}
use high_performance_e_comme.Shop.{
  Command, stocks, bulk_reserves, opens_cart, clears_cart, adds_item, updates_item, places_order,
  cancels_order, creates_intent, captures, refunds, receives, execute, execute_all,
}

cart-money : (db d : Db) → SameShop db d → money d ≡ money db
cart-money db d same = same-money db d same.customers same.intents

execute-money : (c : Command) (db : Db) → money (execute c db) ≡ money db
unfolding execute
execute-money (stocks q) db =
    let same = serve-SameTables q db in same-money db (serve q db).1 same.customers same.intents
execute-money (bulk_reserves items r) db =
    let same = bulk_reserve-SameTables db items r db (SameTables-refl db) in
    same-money db (bulk_reserve items r db).1 same.customers same.intents
execute-money (opens_cart c) db =
    cart-money db (execute (opens_cart c) db) (get_or_create_cart-SameShop c db)
execute-money (clears_cart c) db =
    cart-money db (execute (clears_cart c) db) (clear_cart-SameShop c db)
execute-money (adds_item c pid n) db =
    cart-money db (execute (adds_item c pid n) db) (add_item-SameShop c db pid n)
execute-money (updates_item c i n) db =
    cart-money db (execute (updates_item c i n) db) (update_item-SameShop c db i n)
execute-money (places_order c s b) db =
    let (customers, intents) = place_order-SameMoney c s b db in
    same-money db (execute (places_order c s b) db) customers intents
execute-money (cancels_order o) db =
    let (customers, intents) = cancel_order-SameMoney o db in
    same-money db (execute (cancels_order o) db) customers intents
execute-money (creates_intent o n) db = create_intent-money o n db
execute-money (captures i x) db = capture_payment-money i x db
execute-money (refunds i) db = refund_payment-money i db
execute-money (receives s p) db = process_webhook-money s p db

-- Whatever calls of the four services are made, in whatever order and with whatever arguments,
-- failed ones and webhooks included: what the customers' wallets hold and the amounts of the
-- captured intents together are what they were at the start. So a capture and a refund move money
-- and make or lose none.
pub execute_all-conserves : (cs : List Command) (db : Db) → money (execute_all cs db) ≡ money db
unfolding execute_all
execute_all-conserves [] db = refl
execute_all-conserves (c ∷ cs) db = execute_all-conserves cs (execute c db) ∙ execute-money c db
