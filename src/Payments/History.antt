-- ===== src/Payments/History.antt =====
-- What captures, refunds and webhooks do to the orders (apps/payments/services.py).
use Prim.Native.String.{String}
use mathlib.Core.Path.{subst}
use high_performance_e_comme.Common.{
  ℕ, ◌+◌, ◌≡◌, sym, inl, inr, some, arith, true, not, ◌≤◌, find_row-key,
}
use high_performance_e_comme.Store.{
  OrderStatus, pending, paid, Db, PaymentIntent, Action, atomic-returns, gets, or_raise, raise_if,
  does_not_exist, invalid_payment_state, ◌>>=◌, ◌>>◌,
}
use high_performance_e_comme.Orders.{order_of, is_pending}
use high_performance_e_comme.Orders.History.{
  stage, Extends, Extends-refl, Extends-trans, Extends-update, marks-Follow, cancels-Extends,
}
use high_performance_e_comme.Payments.{
  intent_of, is_captured, customer_of, capture_guarded, capture_payment, pay_back, refund_payment,
  create_intent, Payload, process_webhook,
}
use high_performance_e_comme.Payments.Capture.{Charged, capture_payment-ok}
use high_performance_e_comme.Payments.Refunds.{PaidBack, refund_payment-ok}
use high_performance_e_comme.Payments.Events.{webhook-Keeps}

abbrev pub found_intent : ℕ → Action PaymentIntent
found_intent id = gets (intent_of id) >>= or_raise does_not_exist

-- What `capture_payment` does in its transaction.
abbrev pub capture_body : ℕ → String → Action PaymentIntent
capture_body id x = found_intent id >>= λ i. capture_guarded i x

-- What `refund_payment` does in its transaction.
abbrev pub refund_body : ℕ → Action PaymentIntent
refund_body id = do
  intent ← found_intent id
  raise_if (not (is_captured intent.status)) invalid_payment_state
  order ← gets (order_of intent.order_id) >>= or_raise does_not_exist
  customer ← gets (customer_of order.customer_id) >>= or_raise does_not_exist
  pay_back intent order customer

charge-Extends :
    (intent : PaymentIntent) (x : String) (db db' : Db)
    → Charged intent x db db'
    → Extends db.orders db'.orders
charge-Extends intent x db db' c =
    let key = find_row-key (λ o. o.id) intent.order_id db.orders c.order c.order_found in
    rw c.orders (
      Extends-update c.order.id (λ o. record o { status = paid; version = c.order.version + 1 })
        db.orders c.order (subst (λ k. order_of k db ≡ some c.order) (sym key) c.order_found)
        (marks-Follow c.order paid (pays c.order.status c.was_pending)))
  where
    pays : (s : OrderStatus) → is_pending s ≡ true → stage s ≤ stage paid
    pays pending h = omega arith
    pays _ h = absurd (cc h)

pub capture_payment-Extends :
    (id : ℕ) (x : String) (db : Db) → Extends db.orders (capture_payment id x db).1.orders
unfolding capture_payment
capture_payment-Extends id x db =
    atomic-returns (λ d. Extends db.orders d.orders) (capture_body id x) db (Extends-refl db.orders)
      (λ p db' h.
        let (intent, _, outcome) = capture_payment-ok id x db db' p h in
        elim outcome [
          | inl (_, _, _, same) ↦ rw same (Extends-refl db.orders)
          | inr (_, c, _) ↦ charge-Extends intent x db db' c
        ])

pay_back-Extends :
    (intent : PaymentIntent) (db db' : Db) → PaidBack intent db db' → Extends db.orders db'.orders
pay_back-Extends intent db db' c =
    let key = find_row-key (λ o. o.id) intent.order_id db.orders c.order c.order_found in
    rw c.orders (
      cancels-Extends c.order.id db.orders c.order
        (subst (λ k. order_of k db ≡ some c.order) (sym key) c.order_found))

pub refund_payment-Extends : (id : ℕ) (db : Db) → Extends db.orders (refund_payment id db).1.orders
unfolding refund_payment
refund_payment-Extends id db =
    atomic-returns (λ d. Extends db.orders d.orders) (refund_body id) db (Extends-refl db.orders)
      (λ p db' h.
        let (intent, _, back) = refund_payment-ok id db db' p h in
        pay_back-Extends intent db db' back)

pub process_webhook-Extends :
    (s : String) (payload : Payload) (db : Db)
    → Extends db.orders (process_webhook s payload db).1.orders
process_webhook-Extends s payload db =
    webhook-Keeps (λ d. Extends db.orders d.orders) (λ d ws h. h)
      (λ id x d h.
        Extends-trans db.orders d.orders (capture_payment id x d).1.orders h
          (capture_payment-Extends id x d))
      (λ id d h.
        Extends-trans db.orders d.orders (refund_payment id d).1.orders h
          (refund_payment-Extends id d))
      s payload db (Extends-refl db.orders)

pub create_intent-Extends :
    (order_id amount : ℕ) (db : Db) → Extends db.orders (create_intent order_id amount db).1.orders
unfolding create_intent
create_intent-Extends order_id amount db = Extends-refl db.orders
