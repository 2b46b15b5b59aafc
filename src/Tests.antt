-- ===== src/Tests.antt =====
-- A small shop and a small chart, and runs of the models on them.

pub mod Charts
pub mod Services
pub mod Checkout
pub mod Pools
use Prim.Native.String.{String}
use high_performance_e_comme.Common.{
  ℕ, ◌+◌, ◌≡◌, ◌≢◌, refl, sym, ap, ◌∙◌, ◌⊎◌, inl, inr, Bool, true, false, Option, none, some, List,
  [], ◌∷◌, ◌<◌, ◌++◌, map, arith, All,
}
use high_performance_e_comme.Common.Int.{ℤ, pos, negsuc, pos_part, ltb_ℤ}
use high_performance_e_comme.Store.{
  StockItem, Customer, Address, Product, Cart, checked_out, opened, CartItem, Order, pending,
  OrderItem, PaymentIntent, init, captured, Db, order_ref, ok, err, invalid_payment_state,
  invalid_order_state, cart_locked, does_not_exist, invalid_quantity, not_enough_stock,
}
use high_performance_e_comme.Inventory.{
  StockCall, of_row, of_rows, serve_calls, stock_of, Request, reserving, releasing, consuming,
  restocking, serve_all, Line, bulk_reserve, sorted_lines, movement_of,
}
use high_performance_e_comme.Inventory.Bounds.{IsCovered, NoOversell, serve_all-NoOversell}
use high_performance_e_comme.Inventory.Ledger.{Balances, serve_calls-Balances}
use high_performance_e_comme.Inventory.{consume_stock}
use high_performance_e_comme.Orders.{place_order, cancel_order, by_product, order_of}
use high_performance_e_comme.Payments.{
  Payload, payment_captured, intent_of, customer_of, is_captured, can_capture, has_external_id,
  capture_payment, dispatch, process_webhook, deliver, deliver_all,
}
use high_performance_e_comme.Payments.Capture.{Charged, capture_payment-ok, capture_payment-retry}
use high_performance_e_comme.Payments.Charges.{
  capture_payment-debits, capture_payment-once_per_order, capture_payment-final,
}
use high_performance_e_comme.Payments.Webhooks.{recorded, deliver_all-once, process_webhook-lost}
use high_performance_e_comme.Inventory.Bulk.{
  IsPositive, Fits, reserve_rows, bulk_reserve-cases, bulk_reserve-double_booking,
}
use high_performance_e_comme.Carts.{cart_of, add_item, update_item, get_or_create_cart, clear_cart}
use high_performance_e_comme.Orders.Stock.{place_order-NoOversell, cancel_order-NoOversell}
use high_performance_e_comme.Payments.Stock.{process_webhook-NoOversell}

abbrev stock_row : ℕ → ℕ → ℕ → StockItem
stock_row pid on_hand reserved = record {
  product_id = pid;
  on_hand = on_hand;
  reserved = reserved;
  reorder_threshold = 2;
  version = 0;
}

abbrev product_row : ℕ → ℕ → Product
product_row pid price = record {
  id = pid;
  sku = "SKU";
  name = "Lamp";
  price = price;
  is_active = true;
}

abbrev cart_row : ℕ → Cart
cart_row customer = record { id = 20; customer_id = customer; status = checked_out; version = 0 }

abbrev cart_line : ℕ → ℕ → ℕ → ℕ → CartItem
cart_line id pid quantity price = record {
  id = id;
  cart_id = 20;
  product_id = pid;
  quantity = quantity;
  unit_price = price;
}

abbrev order_row : Order
order_row = record {
  id = 30;
  customer_id = 1;
  status = pending;
  subtotal = 4000;
  tax = 600;
  shipping_fee = 500;
  total = 5100;
  shipping_address = 10;
  billing_address = 10;
  version = 0;
}

abbrev order_line : OrderItem
order_line = record {
  order_id = 30;
  product_id = 7;
  product_sku = "SKU";
  product_name = "Lamp";
  unit_price = 2000;
  quantity = 2;
  line_total = 4000;
}

abbrev pub intent_row : ℕ → PaymentIntent
intent_row id = record {
  id = id;
  order_id = 30;
  external_id = none;
  amount = 5100;
  status = init;
  version = 0;
}

-- A customer with a closed cart and a pending order of two units, with two intents to pay for it.
abbrev pub shop : Db
shop = record {
  customers = (record { id = 1; wallet_balance = 6000; loyalty_points = 0; version = 0 }) ∷ [];
  addresses = (record { id = 10; customer_id = 1 }) ∷ [];
  products = product_row 7 2000 ∷ product_row 8 150 ∷ [];
  stock = stock_row 7 10 2 ∷ stock_row 8 5 0 ∷ [];
  movements = [];
  carts = cart_row 1 ∷ [];
  cart_items = cart_line 21 7 2 2000 ∷ [];
  orders = order_row ∷ [];
  order_items = order_line ∷ [];
  intents = intent_row 40 ∷ intent_row 41 ∷ [];
  webhooks = [];
  tasks = [];
  next_id = 50;
}

abbrev calls : List Request
calls =
    reserving 7 (pos 8) (order_ref 30)
    ∷ reserving 7 (pos 1) (order_ref 30)
    ∷ consuming 7 (pos 2) (order_ref 30)
    ∷ restocking 8 (pos 4) (order_ref 30)
    ∷ releasing 7 (negsuc 0) (order_ref 30)
    ∷ []

pub shop-NoOversell : NoOversell shop
shop-NoOversell = ground arith

serve_all-NoOversell_example : NoOversell (serve_all calls shop)
serve_all-NoOversell_example = serve_all-NoOversell calls shop shop-NoOversell

-- A column of a product's row, 0 where the product has none.
abbrev column : (StockItem → ℕ) → Option StockItem → ℕ
column c none = 0
column c (some si) = c si

abbrev opening : (StockItem → ℕ) → ℕ → ℕ
opening c pid = column c (stock_of pid shop)

shop-Balances : Balances (opening (λ s. s.on_hand)) (opening (λ s. s.reserved)) shop
shop-Balances pid si e = (
  ap (λ n. n + 0) (sym (ap (column (λ s. s.on_hand)) e)),
  ap (λ n. n + 0) (sym (ap (column (λ s. s.reserved)) e)),
)

-- Reservations of several products at once, among the calls.
abbrev stock_calls : List StockCall
stock_calls =
    of_row (consuming 7 (pos 2) (order_ref 30))
    ∷ of_rows ((8, pos 2) ∷ (7, pos 3) ∷ (8, pos 1) ∷ []) (order_ref 31)
    ∷ of_rows ((7, pos 1) ∷ (8, pos 9) ∷ []) (order_ref 32)
    ∷ of_row (releasing 8 (pos 1) (order_ref 31))
    ∷ []

serve_calls-Balances_example :
    Balances (opening (λ s. s.on_hand)) (opening (λ s. s.reserved)) (serve_calls stock_calls shop)
serve_calls-Balances_example =
    serve_calls-Balances (opening (λ s. s.on_hand)) (opening (λ s. s.reserved)) stock_calls shop
      shop-Balances

abbrev pub paid_intent : PaymentIntent
paid_intent = record {
  id = 40;
  order_id = 30;
  external_id = some "tx-1";
  amount = 5100;
  status = captured;
  version = 1;
}

abbrev pub paid_shop : Db
paid_shop = (capture_payment 40 "tx-1" shop).1

pub capture-returns : capture_payment 40 "tx-1" shop ≡ (ok paid_intent, paid_shop)
unfolding capture_payment by_product consume_stock
capture-returns = refl

capture_payment-retry_example : capture_payment 40 "tx-1" paid_shop ≡ (ok paid_intent, paid_shop)
capture_payment-retry_example =
    capture_payment-retry 40 "tx-1" shop paid_shop paid_intent capture-returns

capture_payment-debits_example :
    (order : Order) × (customer customer' : Customer) × (order_of 30 shop ≡ some order)
    × (customer_of order.customer_id shop ≡ some customer)
    × (customer_of order.customer_id paid_shop ≡ some customer')
    × (customer'.wallet_balance + 5100 ≡ customer.wallet_balance)
    × ((j : ℕ) → j ≢ order.customer_id → customer_of j paid_shop ≡ customer_of j shop)
capture_payment-debits_example =
    capture_payment-debits 40 "tx-1" shop paid_shop paid_intent (intent_row 40) capture-returns refl
      refl

still_open : intent_of 41 paid_shop ≡ some (intent_row 41)
unfolding capture_payment by_product consume_stock
still_open = refl

capture_payment-once_per_order_example :
    capture_payment 41 "tx-2" paid_shop ≡ (err invalid_payment_state, paid_shop)
capture_payment-once_per_order_example =
    capture_payment-once_per_order 40 "tx-1" shop paid_shop paid_intent (intent_row 40)
      capture-returns refl refl 41 "tx-2" (intent_row 41) still_open refl refl

abbrev pub capture_event : ℕ → Payload
capture_event id = record { event = payment_captured; intent_id = some id; external_id = "tx-1" }

deliver_all-once_example :
    deliver true "sig" (capture_event 41) (
      deliver_all "sig"
        (map (λ p. (false, p)) (capture_event 40 ∷ [])
          ++ (true, capture_event 40) ∷ (true, capture_event 40) ∷ (false, capture_event 41) ∷ [])
        shop)
    ≡ (ok false, (process_webhook "sig" (capture_event 40) shop).1)
deliver_all-once_example =
    deliver_all-once "sig" refl refl (capture_event 40 ∷ []) (capture_event 40)
      ((true, capture_event 40) ∷ (false, capture_event 41) ∷ []) (capture_event 41) shop

no_such_intent :
    (dispatch payment_captured (some 99) "tx-1" (recorded "sig" shop)).0 ≡ err does_not_exist
unfolding dispatch capture_payment
no_such_intent = refl

process_webhook-lost_example :
    (process_webhook "sig" (capture_event 99) shop ≡ (err does_not_exist, recorded "sig" shop))
    × (process_webhook "sig" (capture_event 99) (recorded "sig" shop)
        ≡ (ok false, recorded "sig" shop))
process_webhook-lost_example =
    process_webhook-lost "sig" (capture_event 99) shop does_not_exist refl refl no_such_intent

abbrev two_lines : List Line
two_lines = (8, pos 5) ∷ (7, pos 3) ∷ []

bulk_reserve-cases_example :
    (bulk_reserve two_lines (order_ref 30) shop ≡ (err invalid_quantity, shop))
    ⊎ (bulk_reserve two_lines (order_ref 30) shop ≡ (err not_enough_stock, shop))
    ⊎ All IsPositive (sorted_lines two_lines)
      × All (Fits shop) (sorted_lines two_lines)
      × (bulk_reserve two_lines (order_ref 30) shop ≡ (
        ok tt,
        record shop {
          stock = reserve_rows (sorted_lines two_lines) shop.stock;
          movements = shop.movements ++ map (movement_of (order_ref 30)) (sorted_lines two_lines);
        },
      ))
bulk_reserve-cases_example = bulk_reserve-cases (8, pos 5) ((7, pos 3) ∷ []) (order_ref 30) shop

bulk_reserve-double_booking_example :
    ((bulk_reserve ((8, pos 3) ∷ (8, pos 3) ∷ []) (order_ref 30) shop).0 ≡ ok tt)
    × ((si : StockItem) × (stock_of 8
            (bulk_reserve ((8, pos 3) ∷ (8, pos 3) ∷ []) (order_ref 30) shop).1
          ≡ some si)
        × (si.on_hand < si.reserved))
bulk_reserve-double_booking_example =
    bulk_reserve-double_booking 8 3 (order_ref 30) shop (stock_row 8 5 0) (omega arith) refl
      (omega arith) (omega arith)

abbrev small_cart : List CartItem
small_cart = cart_line 21 7 1 2000 ∷ cart_line 22 8 3 150 ∷ []

-- The shop with the cart open again.
abbrev pub open_shop : Db
open_shop = record shop {
  carts = (record (cart_row 1) { status = opened }) ∷ [];
  cart_items = cart_line 21 7 2 2000 ∷ cart_line 22 8 1 150 ∷ [];
}
