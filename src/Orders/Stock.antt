-- ===== src/Orders/Stock.antt =====
-- The stock under checkouts and cancellations (apps/orders/services.py).
use high_performance_e_comme.Common.{ℕ, ◌≡◌, some, map}
use high_performance_e_comme.Store.{Cart, Db}
use high_performance_e_comme.Inventory.Bounds.{
  NoOversell, NoOversell-framed, release_stock-NoOversell,
}
use high_performance_e_comme.Inventory.Bulk.{IsDistinct, bulk_reserve-NoOversell}
use high_performance_e_comme.Carts.{items_of}
use high_performance_e_comme.Orders.{open_cart, line_of_item, place_order, cancel_order}
use high_performance_e_comme.Orders.Keeping.{cancel_order-Keeps, place_order-keeps}

-- A cancellation, however it ends, leaves no stock row with more reserved than on hand, if there
-- was none before.
pub cancel_order-NoOversell :
    (order_id : ℕ) (db : Db) → NoOversell db → NoOversell (cancel_order order_id db).1
cancel_order-NoOversell =
    cancel_order-Keeps NoOversell NoOversell-framed release_stock-NoOversell
      (λ items r db. bulk_reserve-NoOversell items r db)

-- A checkout of a cart that lists no product twice, however it ends, leaves no stock row with more
-- reserved than on hand, if there was none before.
pub place_order-NoOversell :
    (customer shipping_id billing_id : ℕ) (db : Db) (cart : Cart)
    → open_cart customer db ≡ some cart
    → IsDistinct (map line_of_item (items_of cart.id db.cart_items))
    → NoOversell db
    → NoOversell (place_order customer shipping_id billing_id db).1
place_order-NoOversell =
    place_order-keeps NoOversell NoOversell-framed release_stock-NoOversell
      (λ items r db. bulk_reserve-NoOversell items r db)
