-- ===== src/Payments/Capture.antt =====
-- `capture_payment` (apps/payments/services.py): what a successful capture writes, and that a retry
-- does not charge again.
use Prim.Native.String.{String}
use text.Mathlib.TextPositions.{eq_refl}
use mathlib.Core.Path.{subst}
use mathlib.Core.Option.{some-injective}
use high_performance_e_comme.Common.{
  ℕ, ◌+◌, ◌-◌, ◌≤◌, ◌≡◌, refl, sym, ◌∙◌, ◌⊎◌, inl, inr, true, some, arith, Bool-cases, Option-cases,
  update_row, find_row-update_row_self, find_row-key,
}
use high_performance_e_comme.Common.Int.{pos}
use high_performance_e_comme.Store.{
  Customer, Order, OrderItem, paid, PaymentIntent, captured, order_ref, Db, Done, Action, ok,
  for_each, continue-ok, for_each-keeps,
}
use high_performance_e_comme.Inventory.{consume_stock}
use high_performance_e_comme.Inventory.Frame.{SameTables, SameTables-refl, consume_stock-SameTables}
use high_performance_e_comme.Orders.{order_of, order_items_of, is_pending}
use high_performance_e_comme.Payments.{
  intent_of, customer_of, has_external_id, is_captured, can_capture, charge, record_capture,
  capture_guarded, capture_payment, pay,
}

-- What the last part of a capture writes.
record_capture-ok :
    (intent : PaymentIntent) (x : String) (order : Order) (customer : Customer) (db db' : Db)
    (p : PaymentIntent)
    → record_capture intent x order customer db ≡ (ok p, db')
    → (db'.customers
        ≡ update_row
            (λ c. c.id)
            customer.id
            (λ c. record c {
              wallet_balance = c.wallet_balance - intent.amount;
              version = c.version + 1;
            })
            db.customers)
      × (db'.intents
          ≡ update_row
              (λ q. q.id)
              intent.id
              (λ q. record q {
                status = captured;
                external_id = some x;
                version = intent.version + 1;
              })
              db.intents)
      × (db'.orders
          ≡ update_row
              (λ o. o.id)
              order.id
              (λ o. record o { status = paid; version = order.version + 1 })
              db.orders)
      × (intent_of intent.id db' ≡ some p)
unfolding record_capture
record_capture-ok intent x order customer db db' p h = ground arith

-- A capture that charged: the order was pending, the wallet covered the amount, and the three rows
-- were written; every other table but the stock's is as it was.
pub record Charged (intent : PaymentIntent) (x : String) (db db' : Db) : Type 0 where
  pub order : Order
  pub customer : Customer
  pub order_found : order_of intent.order_id db ≡ some order
  pub was_pending : is_pending order.status ≡ true
  pub customer_found : customer_of order.customer_id db ≡ some customer
  pub covered : intent.amount ≤ customer.wallet_balance
  pub customers :
      db'.customers
      ≡ update_row
          (λ c. c.id)
          customer.id
          (λ c. record c {
            wallet_balance = c.wallet_balance - intent.amount;
            version = c.version + 1;
          })
          db.customers
  pub intents :
      db'.intents
      ≡ update_row
          (λ q. q.id)
          intent.id
          (λ q. record q { status = captured; external_id = some x; version = intent.version + 1 })
          db.intents
  pub orders :
      db'.orders
      ≡ update_row
          (λ o. o.id)
          order.id
          (λ o. record o { status = paid; version = order.version + 1 })
          db.orders

pay-ok :
    (intent : PaymentIntent) (x : String) (order : Order) (customer : Customer) (db db' : Db)
    (p : PaymentIntent)
    → pay intent x order customer db ≡ (ok p, db')
    → (d : Db) × SameTables db d × (record_capture intent x order customer d ≡ (ok p, db'))
unfolding pay
pay-ok intent x order customer db db' p h =
    let body : OrderItem → Action Done =
      λ i. consume_stock i.product_id (pos i.quantity) (order_ref order.id) in
    let r = for_each body (order_items_of order.id db) db in
    let (_, _, recorded) =
      continue-ok (λ (_ : Done). record_capture intent x order customer) r db' p h in
    (
      r.1,
      for_each-keeps (SameTables db) body (order_items_of order.id db)
          (λ i d. consume_stock-SameTables db i.product_id (pos i.quantity) (order_ref order.id) d)
          db (SameTables-refl db),
      recorded,
    )

charge-ok :
    (intent : PaymentIntent) (x : String) (db db' : Db) (p : PaymentIntent)
    → charge intent x db ≡ (ok p, db')
    → Charged intent x db db' × (intent_of intent.id db' ≡ some p)
unfolding charge
charge-ok intent x db db' p h = elim (Option-cases (order_of intent.order_id db)) [
  | inl missing ↦ absurd (ground arith)
  | inr (order, eo) ↦ elim (Option-cases (customer_of order.customer_id db)) [
    | inl missing ↦ absurd (ground arith)
    | inr (customer, ec) ↦
        let paid_up : (is_pending order.status ≡ true)
            × (intent.amount ≤ customer.wallet_balance)
            × (pay intent x order customer db ≡ (ok p, db')) =
          ground arith in
        let (d, same, recorded) = pay-ok intent x order customer db db' p paid_up.2 in
        let writes = record_capture-ok intent x order customer d db' p recorded in
        (
          record {
            order = order;
            customer = customer;
            order_found = eo;
            was_pending = paid_up.0;
            customer_found = ec;
            covered = paid_up.1;
            customers = cc;
            intents = cc;
            orders = cc;
          },
          writes.3,
        )
  ]
]

capture_guarded-ok :
    (intent : PaymentIntent) (x : String) (db db' : Db) (p : PaymentIntent)
    → capture_guarded intent x db ≡ (ok p, db')
    → (is_captured intent.status ≡ true)
        × (has_external_id x intent ≡ true)
        × (p ≡ intent)
        × (db' ≡ db)
      ⊎ (can_capture intent.status ≡ true)
        × Charged intent x db db'
        × (intent_of intent.id db' ≡ some p)
unfolding capture_guarded
capture_guarded-ok intent x db db' p h = elim (Bool-cases (is_captured intent.status)) [
  | inl done ↦ inl (ground arith)
  | inr fresh ↦ elim (Bool-cases (can_capture intent.status)) [
    | inl can ↦ let (c, found) = charge-ok intent x db db' p (ground arith) in inr (can, c, found)
    | inr cannot ↦ absurd (ground arith)
  ]
]

-- A capture that returns found the intent, and either it was captured under this external id before
-- and nothing was written, or its status was INIT or AUTHORIZED, the order was pending and the
-- wallet covered the amount, which was deducted, the intent became captured and the order paid.
pub capture_payment-ok :
    (id : ℕ) (x : String) (db db' : Db) (p : PaymentIntent)
    → capture_payment id x db ≡ (ok p, db')
    → (intent : PaymentIntent) × (intent_of id db ≡ some intent)
      × ((is_captured intent.status ≡ true)
            × (has_external_id x intent ≡ true)
            × (p ≡ intent)
            × (db' ≡ db)
          ⊎ (can_capture intent.status ≡ true)
            × Charged intent x db db'
            × (intent_of intent.id db' ≡ some p))
unfolding capture_payment
capture_payment-ok id x db db' p h = elim (Option-cases (intent_of id db)) [
  | inl missing ↦ absurd (ground arith)
  | inr (intent, e) ↦ (intent, e, capture_guarded-ok intent x db db' p (ground arith))
]

-- The intent's row after a capture.
abbrev pub captured_as : String → PaymentIntent → PaymentIntent
captured_as x q = record q { status = captured; external_id = some x; version = q.version + 1 }

pub captured_row :
    (id : ℕ) (x : String) (db db' : Db) (intent : PaymentIntent)
    → intent_of id db ≡ some intent
    → Charged intent x db db'
    → intent_of intent.id db' ≡ some (captured_as x intent)
captured_row id x db db' intent found c =
    let same_id = find_row-key (λ q. q.id) id db.intents intent found in
    rw c.intents (
      find_row-update_row_self (λ q. q.id) intent.id
        (λ q. record q { status = captured; external_id = some x; version = intent.version + 1 })
        db.intents intent (subst (λ k. intent_of k db ≡ some intent) (sym same_id) found) refl)

has_external_id_self :
    (x : String) (p : PaymentIntent) → p.external_id ≡ some x → has_external_id x p ≡ true
has_external_id_self x p e = ground (arith, eq_refl x)

-- A retry of a capture that returned, with the same external id, returns the same intent and writes
-- nothing: the customer is not charged twice.
pub capture_payment-retry :
    (id : ℕ) (x : String) (db db' : Db) (p : PaymentIntent)
    → capture_payment id x db ≡ (ok p, db')
    → capture_payment id x db' ≡ (ok p, db')
unfolding capture_payment capture_guarded
capture_payment-retry id x db db' p h =
    let (intent, found, outcome) = capture_payment-ok id x db db' p h in
    let same_id = find_row-key (λ q. q.id) id db.intents intent found in
    elim outcome [
      | inl (_, _, _, same) ↦ subst (λ d. capture_payment id x d ≡ (ok p, db')) (sym same) h
      | inr (_, charged, found') ↦
          let now = captured_row id x db db' intent found charged in
          let is_p : p ≡ captured_as x intent = some-injective _ _ (sym found' ∙ now) in
          let found_p : intent_of id db' ≡ some p =
            subst (λ k. intent_of k db' ≡ some p) same_id found' in
          ground (arith, has_external_id_self x p)
    ]
