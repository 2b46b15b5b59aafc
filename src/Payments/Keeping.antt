-- ===== src/Payments/Keeping.antt =====
-- What captures, refunds and webhooks keep (apps/payments/services.py): any predicate on the stock
-- and the lines of the carts that deliveries and consumptions keep.
use Prim.Native.String.{String}
use high_performance_e_comme.Common.{ℕ, refl, arith, inl, inr, Option-cases}
use high_performance_e_comme.Common.Int.{ℤ, pos}
use high_performance_e_comme.Store.{
  Order, Customer, PaymentIntent, Reference, order_ref, refund_ref, Db, Keeps, Keeps->>=, IsFramed,
  for_each, for_each-keeps,
}
use high_performance_e_comme.Inventory.{consume_stock, restock}
use high_performance_e_comme.Orders.{order_of, order_items_of}
use high_performance_e_comme.Payments.Events.{webhook-Keeps}
use high_performance_e_comme.Payments.{
  intent_of, customer_of, create_intent, record_capture, record_refund, pay, pay_back, charge,
  capture_guarded, capture_payment, refund_payment, Payload, process_webhook,
}

module _ (P : Db → Type 0) (framed : IsFramed P)
    (consuming : (pid : ℕ) (qty : ℤ) (r : Reference) → Keeps P (consume_stock pid qty r))
    (restocking : (pid : ℕ) (qty : ℤ) (r : Reference) → Keeps P (restock pid qty r)) where
  record_capture-Keeps :
      (intent : PaymentIntent) (x : String) (order : Order) (customer : Customer)
      → Keeps P (record_capture intent x order customer)
  unfolding record_capture
  record_capture-Keeps intent x order customer db h =
      framed db (record_capture intent x order customer db).1 (ground arith) (ground arith)
        (ground arith) h

  record_refund-Keeps :
      (intent : PaymentIntent) (order : Order) (customer : Customer)
      → Keeps P (record_refund intent order customer)
  unfolding record_refund
  record_refund-Keeps intent order customer db h =
      framed db (record_refund intent order customer db).1 (ground arith) (ground arith)
        (ground arith) h

  pay-Keeps :
      (intent : PaymentIntent) (x : String) (order : Order) (customer : Customer)
      → Keeps P (pay intent x order customer)
  unfolding pay
  pay-Keeps intent x order customer db =
      Keeps->>= P
        (for_each (λ i. consume_stock i.product_id (pos i.quantity) (order_ref order.id))
          (order_items_of order.id db))
        (λ _. record_capture intent x order customer)
        (for_each-keeps P (λ i. consume_stock i.product_id (pos i.quantity) (order_ref order.id))
          (order_items_of order.id db)
          (λ i. consuming i.product_id (pos i.quantity) (order_ref order.id)))
        (λ _. record_capture-Keeps intent x order customer) db

  pay_back-Keeps :
      (intent : PaymentIntent) (order : Order) (customer : Customer)
      → Keeps P (pay_back intent order customer)
  unfolding pay_back
  pay_back-Keeps intent order customer db =
      Keeps->>= P
        (for_each (λ i. restock i.product_id (pos i.quantity) (refund_ref order.id))
          (order_items_of order.id db))
        (λ _. record_refund intent order customer)
        (for_each-keeps P (λ i. restock i.product_id (pos i.quantity) (refund_ref order.id))
          (order_items_of order.id db)
          (λ i. restocking i.product_id (pos i.quantity) (refund_ref order.id)))
        (λ _. record_refund-Keeps intent order customer) db

  charge-Keeps : (intent : PaymentIntent) (x : String) → Keeps P (charge intent x)
  unfolding charge
  charge-Keeps intent x db h = elim (Option-cases (order_of intent.order_id db)) [
    | inl missing ↦ ground arith
    | inr (o, eo) ↦ elim (Option-cases (customer_of o.customer_id db)) [
      | inl missing ↦ ground arith
      | inr (c, ec) ↦ ground (arith, pay-Keeps intent x o c db h)
    ]
  ]

  pub capture_payment-Keeps : (id : ℕ) (x : String) → Keeps P (capture_payment id x)
  unfolding capture_payment capture_guarded
  capture_payment-Keeps id x db h = elim (Option-cases (intent_of id db)) [
    | inl missing ↦ ground arith
    | inr (i, e) ↦ ground (arith, charge-Keeps i x db h)
  ]

  pub refund_payment-Keeps : (id : ℕ) → Keeps P (refund_payment id)
  unfolding refund_payment
  refund_payment-Keeps id db h = elim (Option-cases (intent_of id db)) [
    | inl missing ↦ ground arith
    | inr (i, e) ↦ elim (Option-cases (order_of i.order_id db)) [
      | inl missing ↦ ground arith
      | inr (o, eo) ↦ elim (Option-cases (customer_of o.customer_id db)) [
        | inl missing ↦ ground arith
        | inr (c, ec) ↦ ground (arith, pay_back-Keeps i o c db h)
      ]
    ]
  ]

  pub process_webhook-Keeps : (s : String) (payload : Payload) → Keeps P (process_webhook s payload)
  process_webhook-Keeps =
      webhook-Keeps P (λ db ws. framed db (record db { webhooks = ws }) refl refl (omega arith))
        capture_payment-Keeps refund_payment-Keeps

  pub create_intent-Keeps : (order_id amount : ℕ) → Keeps P (create_intent order_id amount)
  unfolding create_intent
  create_intent-Keeps order_id amount db h =
      framed db (create_intent order_id amount db).1 refl refl (omega arith) h
