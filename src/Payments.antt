-- ===== src/Payments.antt =====
-- apps/payments/services.py: intents, capture, refund and the gateway's webhooks.
pub mod Capture
pub mod Charges
pub mod Webhooks
pub mod Stock
pub mod Refunds
pub mod Keeping
pub mod Events
pub mod History
pub mod Money
use Prim.Native.String.{String, count}
use text.Mathlib.Text.{◌==◌ as str_eq}
use high_performance_e_comme.Common.{
  ℕ, suc, ◌+◌, ◌-◌, Bool, true, false, not, ◌&&◌, Option, none, some, List, [], ◌∷◌, ◌++◌, ltb,
  ◌==◌, if◌then◌else◌, find_row, find_where, update_row,
}
use high_performance_e_comme.Common.Int.{pos}
use high_performance_e_comme.Store.{
  Order, Customer, paid, cancelled, PaymentIntent, IntentStatus, init, authorized, captured,
  refunded, WebhookEvent, order_ref, refund_ref, Db, invalid_payment_state,
  insufficient_wallet_balance, does_not_exist, integrity_error, capacity_exceeded, data_error,
  Action, Done, pure, raise, gets, or_raise, atomic, ◌>>=◌, ◌>>◌, raise_if, modify, for_each,
}
use high_performance_e_comme.Inventory.{consume_stock, restock}
use high_performance_e_comme.Orders.{order_of, order_items_of, update_order, is_pending}

abbrev pub intent_of : ℕ → Db → Option PaymentIntent
intent_of id db = find_row (λ p. p.id) id db.intents

abbrev pub customer_of : ℕ → Db → Option Customer
customer_of id db = find_row (λ c. c.id) id db.customers

abbrev pub update_customer : ℕ → (Customer → Customer) → Action Done
update_customer id f =
    modify λ db. record db { customers = update_row (λ c. c.id) id f db.customers }

abbrev pub update_intent : ℕ → (PaymentIntent → PaymentIntent) → Action Done
update_intent id f = modify λ db. record db { intents = update_row (λ p. p.id) id f db.intents }

-- For an order that is there, and an amount from 0 up: the database would refuse an unknown order.
pub create_intent : ℕ → ℕ → Action PaymentIntent
create_intent order_id amount db =
    let intent : PaymentIntent = record {
      id = db.next_id;
      order_id = order_id;
      external_id = none;
      amount = amount;
      status = init;
      version = 0;
    } in
    pure intent (record db { intents = db.intents ++ intent ∷ []; next_id = db.next_id + 1 })

abbrev pub is_captured : IntentStatus → Bool
is_captured captured = true
is_captured _ = false

abbrev pub can_capture : IntentStatus → Bool
can_capture init = true
can_capture authorized = true
can_capture _ = false

abbrev pub has_external_id : String → PaymentIntent → Bool
has_external_id external_id p = elim p.external_id [ none ↦ false | some x ↦ str_eq x external_id ]

-- The UNIQUE constraint on `external_id`, at the write: no other intent may have it.
abbrev pub is_taken : ℕ → String → Db → Bool
is_taken id external_id db =
    elim (find_where (λ p. not (p.id == id) && has_external_id external_id p) db.intents) [
      | none ↦ false
      | some _ ↦ true
    ]

-- "State transitions": the wallet, the intent and the order.
pub record_capture : PaymentIntent → String → Order → Customer → Action PaymentIntent
record_capture intent external_id order customer = do
  update_customer customer.id
      (λ c. record c { wallet_balance = c.wallet_balance - intent.amount; version = c.version + 1 })
  raise_if (← gets (is_taken intent.id external_id)) integrity_error
  update_intent intent.id (λ p. record p {
    status = captured;
    external_id = some external_id;
    version = intent.version + 1;
  })
  update_order order.id (λ o. record o { status = paid; version = order.version + 1 })
  gets (intent_of intent.id) >>= or_raise does_not_exist

-- The stock of every item is consumed, then the rows are written.
pub pay : PaymentIntent → String → Order → Customer → Action PaymentIntent
unfolding record_capture
pay intent external_id order customer = do
  items ← gets (order_items_of order.id)
  for_each (λ i. consume_stock i.product_id (pos i.quantity) (order_ref order.id)) items
  record_capture intent external_id order customer

-- The tail of `capture_payment`, for an intent that may be captured. The simulated delay changes
-- nothing.
pub charge : PaymentIntent → String → Action PaymentIntent
unfolding pay
charge intent external_id = do
  order ← gets (order_of intent.order_id) >>= or_raise does_not_exist
  raise_if (not (is_pending order.status)) invalid_payment_state
  customer ← gets (customer_of order.customer_id) >>= or_raise does_not_exist
  raise_if (ltb customer.wallet_balance intent.amount) insufficient_wallet_balance
  pay intent external_id order customer

-- The status guards, in the order of the code: a repeated capture returns the intent as it is.
pub capture_guarded : PaymentIntent → String → Action PaymentIntent
unfolding charge
capture_guarded intent external_id =
    if is_captured intent.status
    then (if has_external_id external_id intent then pure intent else raise invalid_payment_state)
    else if can_capture intent.status
    then charge intent external_id
    else raise invalid_payment_state

-- The body of an admitted call; one that capacity_limited refuses raises before it reads or writes.
unfoldable pub capture_payment : ℕ → String → Action PaymentIntent
unfolding capture_guarded
capture_payment intent_id external_id = atomic do
  intent ← gets (intent_of intent_id) >>= or_raise does_not_exist
  capture_guarded intent external_id

-- The state transitions of a refund.
pub record_refund : PaymentIntent → Order → Customer → Action PaymentIntent
record_refund intent order customer = do
  update_customer customer.id
      (λ c. record c { wallet_balance = c.wallet_balance + intent.amount; version = c.version + 1 })
  update_intent intent.id (λ p. record p { status = refunded; version = intent.version + 1 })
  update_order order.id (λ o. record o { status = cancelled; version = order.version + 1 })
  gets (intent_of intent.id) >>= or_raise does_not_exist

-- Every item goes back on hand, then the rows are written.
pub pay_back : PaymentIntent → Order → Customer → Action PaymentIntent
unfolding record_refund
pay_back intent order customer = do
  items ← gets (order_items_of order.id)
  for_each (λ i. restock i.product_id (pos i.quantity) (refund_ref order.id)) items
  record_refund intent order customer

-- The body of an admitted call; one that capacity_limited refuses raises before it reads or writes.
-- `reason` is not used by the code.
unfoldable pub refund_payment : ℕ → Action PaymentIntent
unfolding pay_back
refund_payment intent_id = atomic do
  intent ← gets (intent_of intent_id) >>= or_raise does_not_exist
  raise_if (not (is_captured intent.status)) invalid_payment_state
  order ← gets (order_of intent.order_id) >>= or_raise does_not_exist
  customer ← gets (customer_of order.customer_id) >>= or_raise does_not_exist
  pay_back intent order customer

-- The payload's "event".
pub data EventType : Type 0 where
  payment_captured payment_refunded other_event : EventType

-- What `process_webhook` reads of the payload: `external_id` is "" where the payload has none. Payloads
-- with an `intent_id` that is no number, or the text "0", or an `external_id` that is null have no
-- counterpart here.
pub record Payload : Type 0 where
  pub event : EventType
  pub intent_id : Option ℕ
  pub external_id : String

abbrev pub seen : String → Db → Option WebhookEvent
seen signature db = find_where (λ w. str_eq w.signature signature) db.webhooks

-- The dispatch. An absent `intent_id` and 0 are both falsy: the event is only logged.
unfoldable pub dispatch : EventType → Option ℕ → String → Action Done
dispatch payment_captured (some (suc n)) external_id =
    capture_payment (suc n) external_id >>= λ _. pure tt
dispatch payment_refunded (some (suc n)) external_id = refund_payment (suc n) >>= λ _. pure tt
dispatch _ _ _ = pure tt

pub mark_processed : String → List WebhookEvent → List WebhookEvent
mark_processed signature [] = []
mark_processed signature (w ∷ ws) =
    if str_eq w.signature signature
    then record w { processed = true } ∷ ws
    else w ∷ mark_processed signature ws

-- The call after the test of the signature's presence, by whether the INSERT met a duplicate. It is
-- no transaction: the event's row stays when the handler raises.
pub process_new : String → Payload → Option WebhookEvent → Action Bool
process_new signature payload (some _) = pure false
process_new signature payload none = do
  modify λ db. record db {
    webhooks = db.webhooks ++ record { signature = signature; processed = false } ∷ [];
  }
  dispatch payload.event payload.intent_id payload.external_id
  modify λ db. record db { webhooks = mark_processed signature db.webhooks }
  pure true

-- The body of `process_webhook`, run in a slot of the payment pool, for a signature that fits its
-- column.
unfoldable pub process_webhook : String → Payload → Action Bool
unfolding process_new mark_processed dispatch
process_webhook signature payload = do
  raise_if (str_eq signature "") invalid_payment_state
  old ← gets (seen signature)
  process_new signature payload old

-- `max_length` of the signature's column.
abbrev pub is_too_long : String → Bool
is_too_long signature = ltb 128 (count signature)

-- A delivery of a webhook, by whether `capacity_limited` has a slot for it. A refused one raises before
-- it reads or writes anything. The handler runs in the slot of the delivery, which its thread enters
-- again, so no second slot is asked for.
unfoldable pub deliver : Bool → String → Payload → Action Bool
unfolding process_webhook
deliver false signature payload = raise capacity_exceeded
deliver true signature payload = do
  raise_if (is_too_long signature) data_error
  process_webhook signature payload

-- The database after deliveries under one signature, one after another.
unfoldable pub deliver_all : String → List (Bool × Payload) → Db → Db
unfolding deliver
deliver_all signature [] db = db
deliver_all signature (d ∷ ds) db = deliver_all signature ds (deliver d.0 signature d.1 db).1
