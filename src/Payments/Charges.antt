-- ===== src/Payments/Charges.antt =====
-- What a capture moves, and that an order is charged once (apps/payments/services.py).
use Prim.Native.String.{String}
use mathlib.Core.Path.{subst}
use mathlib.Core.Option.{some-injective}
use high_performance_e_comme.Common.{
  ℕ, ◌+◌, ◌-◌, ◌≡◌, ◌≢◌, refl, sym, ◌∙◌, inl, inr, false, some, arith, find_row-update_row_self,
  find_row-update_row_ne, find_row-key, find_row, update_row,
}
use high_performance_e_comme.Store.{
  Customer, Order, paid, PaymentIntent, Db, invalid_payment_state, invalid_order_state, ok, err,
}
use high_performance_e_comme.Orders.Status.{cancel_order-refused}
use high_performance_e_comme.Orders.{cancel_order, order_of}
use high_performance_e_comme.Payments.{
  intent_of, customer_of, is_captured, charge, capture_guarded, capture_payment,
}
use high_performance_e_comme.Payments.Capture.{Charged, capture_payment-ok}

pub charged :
    (id : ℕ) (x : String) (db db' : Db) (p intent : PaymentIntent)
    → capture_payment id x db ≡ (ok p, db')
    → intent_of id db ≡ some intent
    → is_captured intent.status ≡ false
    → Charged intent x db db'
charged id x db db' p intent h found fresh =
    let (intent', found', outcome) = capture_payment-ok id x db db' p h in
    let same : intent' ≡ intent = some-injective intent' intent (sym found' ∙ found) in
    elim outcome [
      | inl (done, _, _, _) ↦ absurd (ground arith)
      | inr (_, c, _) ↦ subst (λ i. Charged i x db db') same c
    ]

-- A capture of an intent that was not captured before takes exactly its amount from the wallet of
-- the order's customer, which covered it, and changes no other customer.
pub capture_payment-debits :
    (id : ℕ) (x : String) (db db' : Db) (p intent : PaymentIntent)
    → capture_payment id x db ≡ (ok p, db')
    → intent_of id db ≡ some intent
    → is_captured intent.status ≡ false
    → (order : Order) × (customer customer' : Customer) × (order_of intent.order_id db ≡ some order)
      × (customer_of order.customer_id db ≡ some customer)
      × (customer_of order.customer_id db' ≡ some customer')
      × (customer'.wallet_balance + intent.amount ≡ customer.wallet_balance)
      × ((j : ℕ) → j ≢ order.customer_id → customer_of j db' ≡ customer_of j db)
capture_payment-debits id x db db' p intent h found fresh =
    let c = charged id x db db' p intent h found fresh in
    let key =
      find_row-key (λ r. r.id) c.order.customer_id db.customers c.customer c.customer_found in
    let debit : Customer → Customer = λ r. record r {
      wallet_balance = r.wallet_balance - intent.amount;
      version = r.version + 1;
    } in
    let covered = c.covered in
    let written : db'.customers ≡ update_row (λ r. r.id) c.order.customer_id debit db.customers =
      subst (λ k. db'.customers ≡ update_row (λ r. r.id) k debit db.customers) key c.customers in
    (
      c.order,
      c.customer,
      debit c.customer,
      c.order_found,
      c.customer_found,
      rw written (
          find_row-update_row_self (λ r. r.id) c.order.customer_id debit db.customers c.customer
            c.customer_found key),
      omega arith,
      λ j ne. rw written (
          find_row-update_row_ne (λ r. r.id) c.order.customer_id debit j db.customers ne
            (λ r. refl)),
    )

-- The order's row after a capture that charged it.
pub paid_row :
    (intent : PaymentIntent) (x : String) (db db' : Db) (c : Charged intent x db db')
    → order_of intent.order_id db'
      ≡ some (record (c.order) { status = paid; version = c.order.version + 1 })
paid_row intent x db db' c =
    let pay : Order → Order = λ o. record o { status = paid; version = c.order.version + 1 } in
    let key = find_row-key (λ o. o.id) intent.order_id db.orders c.order c.order_found in
    rw c.orders (
      subst
        (λ k.
          find_row (λ o. o.id) intent.order_id (update_row (λ o. o.id) k pay db.orders)
          ≡ some (pay c.order))
        (sym key)
        (find_row-update_row_self (λ o. o.id) intent.order_id pay db.orders c.order c.order_found
          key))

-- An order that a capture charged can no longer be cancelled: the cancellation is refused and
-- writes nothing.
pub capture_payment-final :
    (id : ℕ) (x : String) (db db' : Db) (p intent : PaymentIntent)
    → capture_payment id x db ≡ (ok p, db')
    → intent_of id db ≡ some intent
    → is_captured intent.status ≡ false
    → cancel_order intent.order_id db' ≡ (err invalid_order_state, db')
capture_payment-final id x db db' p intent h found fresh =
    let c = charged id x db db' p intent h found fresh in
    cancel_order-refused intent.order_id db'
      (record (c.order) { status = paid; version = c.order.version + 1 })
      (paid_row intent x db db' c) refl

-- After a capture that charged an order, a capture of another, uncaptured intent of that order is
-- refused and writes nothing: an order is charged once.
pub capture_payment-once_per_order :
    (id : ℕ) (x : String) (db db' : Db) (p intent : PaymentIntent)
    → capture_payment id x db ≡ (ok p, db')
    → intent_of id db ≡ some intent
    → is_captured intent.status ≡ false
    → (j : ℕ) (y : String) (other : PaymentIntent) → intent_of j db' ≡ some other
    → other.order_id ≡ intent.order_id
    → is_captured other.status ≡ false
    → capture_payment j y db' ≡ (err invalid_payment_state, db')
unfolding capture_payment capture_guarded charge
capture_payment-once_per_order id x db db' p intent h found fresh j y other found_j same_order
      fresh_j =
    let c = charged id x db db' p intent h found fresh in
    let now : order_of other.order_id db'
        ≡ some (record (c.order) { status = paid; version = c.order.version + 1 }) =
      subst
        (λ k.
          order_of k db' ≡ some (record (c.order) { status = paid; version = c.order.version + 1 }))
        (sym same_order) (paid_row intent x db db' c) in
    ground arith
