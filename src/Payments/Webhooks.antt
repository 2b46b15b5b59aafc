-- ===== src/Payments/Webhooks.antt =====
-- `process_webhook` (apps/payments/services.py): an event's signature is recorded once, and a
-- recorded event is never dispatched again, also when its handler failed.
use Prim.Native.String.{String}
use text.Mathlib.Text.{◌==◌ as str_eq}
use text.Mathlib.TextPositions.{eq_refl}
use mathlib.Core.Path.{subst}
use high_performance_e_comme.Common.{
  ℕ, suc, ◌≡◌, ◌≢◌, refl, sym, ◌∙◌, inl, inr, Bool, true, false, Option, none, some, List, [], ◌∷◌,
  ◌++◌, map, arith, find_where, Option-cases,
}
use high_performance_e_comme.Common.Int.{pos}
use high_performance_e_comme.Store.{
  Customer, Order, OrderItem, PaymentIntent, WebhookEvent, order_ref, refund_ref, Db, Error, Done,
  Result, ok, err, for_each, continue, Keeps, Keeps->>=, for_each-keeps,
}
use high_performance_e_comme.Inventory.{consume_stock, restock}
use high_performance_e_comme.Inventory.Frame.{
  SameTables-refl, consume_stock-SameTables, restock-SameTables,
}
use high_performance_e_comme.Orders.{order_items_of, order_of}
use high_performance_e_comme.Payments.{
  intent_of, customer_of, record_capture, record_refund, pay, pay_back, charge, capture_guarded,
  capture_payment, refund_payment, Payload, EventType, payment_captured, payment_refunded, dispatch,
  seen, process_new, process_webhook, mark_processed, is_too_long, deliver, deliver_all,
}

module _ (ws : List WebhookEvent) where
  abbrev Logged : Db → Type 0
  Logged d = d.webhooks ≡ ws

  record_capture-Logged :
      (i : PaymentIntent) (x : String) (o : Order) (c : Customer)
      → Keeps Logged (record_capture i x o c)
  unfolding record_capture
  record_capture-Logged i x o c db h = ground arith

  consume_all-Logged :
      (o : Order) (items : List OrderItem)
      → Keeps Logged
          (for_each (λ i. consume_stock i.product_id (pos i.quantity) (order_ref o.id)) items)
  consume_all-Logged o items =
      for_each-keeps Logged (λ i. consume_stock i.product_id (pos i.quantity) (order_ref o.id))
        items
        (λ i d h.
          (consume_stock-SameTables d i.product_id (pos i.quantity) (order_ref o.id) d
            (SameTables-refl d)).webhooks
          ∙ h)

  pay-Logged :
      (i : PaymentIntent) (x : String) (o : Order) (c : Customer) → Keeps Logged (pay i x o c)
  unfolding pay
  pay-Logged i x o c db h =
      Keeps->>= Logged
        (for_each (λ it. consume_stock it.product_id (pos it.quantity) (order_ref o.id))
          (order_items_of o.id db))
        (λ (_ : Done). record_capture i x o c) (consume_all-Logged o (order_items_of o.id db))
        (λ _. record_capture-Logged i x o c) db h

  charge-Logged : (i : PaymentIntent) (x : String) → Keeps Logged (charge i x)
  unfolding charge
  charge-Logged i x db h = elim (Option-cases (order_of i.order_id db)) [
    | inl missing ↦ ground arith
    | inr (o, eo) ↦ elim (Option-cases (customer_of o.customer_id db)) [
      | inl missing ↦ ground arith
      | inr (c, ec) ↦ ground (arith, pay-Logged i x o c db h)
    ]
  ]

  capture_payment-Logged : (id : ℕ) (x : String) → Keeps Logged (capture_payment id x)
  unfolding capture_payment capture_guarded
  capture_payment-Logged id x db h = elim (Option-cases (intent_of id db)) [
    | inl missing ↦ ground arith
    | inr (i, e) ↦ ground (arith, charge-Logged i x db h)
  ]

  restock_all-Logged :
      (o : Order) (items : List OrderItem)
      → Keeps Logged (for_each (λ i. restock i.product_id (pos i.quantity) (refund_ref o.id)) items)
  restock_all-Logged o items =
      for_each-keeps Logged (λ i. restock i.product_id (pos i.quantity) (refund_ref o.id)) items
        (λ i d h.
          (restock-SameTables d i.product_id (pos i.quantity) (refund_ref o.id) d
            (SameTables-refl d)).webhooks
          ∙ h)

  record_refund-Logged :
      (i : PaymentIntent) (o : Order) (c : Customer) → Keeps Logged (record_refund i o c)
  unfolding record_refund
  record_refund-Logged i o c db h = ground arith

  pay_back-Logged : (i : PaymentIntent) (o : Order) (c : Customer) → Keeps Logged (pay_back i o c)
  unfolding pay_back
  pay_back-Logged i o c db h =
      Keeps->>= Logged
        (for_each (λ it. restock it.product_id (pos it.quantity) (refund_ref o.id))
          (order_items_of o.id db))
        (λ (_ : Done). record_refund i o c) (restock_all-Logged o (order_items_of o.id db))
        (λ _. record_refund-Logged i o c) db h

  refund_payment-Logged : (id : ℕ) → Keeps Logged (refund_payment id)
  unfolding refund_payment
  refund_payment-Logged id db h = elim (Option-cases (intent_of id db)) [
    | inl missing ↦ ground arith
    | inr (i, e) ↦ elim (Option-cases (order_of i.order_id db)) [
      | inl missing ↦ ground arith
      | inr (o, eo) ↦ elim (Option-cases (customer_of o.customer_id db)) [
        | inl missing ↦ ground arith
        | inr (c, ec) ↦ ground (arith, pay_back-Logged i o c db h)
      ]
    ]
  ]

  dispatch-Logged : (t : EventType) (id : Option ℕ) (x : String) → Keeps Logged (dispatch t id x)
  unfolding dispatch
  dispatch-Logged payment_captured (some (suc n)) x db h =
      ground (arith, capture_payment-Logged (suc n) x db h)
  dispatch-Logged payment_refunded (some (suc n)) x db h =
      ground (arith, refund_payment-Logged (suc n) db h)
  dispatch-Logged _ _ _ db h = h

abbrev has_signature : String → WebhookEvent → Bool
has_signature s w = str_eq w.signature s

find-append :
    (s : String) (ws : List WebhookEvent) (b : Bool)
    → find_where (has_signature s) (ws ++ record { signature = s; processed = b } ∷ []) ≢ none
find-append s [] b = ground (arith, eq_refl s)
find-append s (w ∷ ws) b = ground (arith, find-append s ws b)

find-mark :
    (s : String) (ws : List WebhookEvent)
    → find_where (has_signature s) ws ≢ none
    → find_where (has_signature s) (mark_processed s ws) ≢ none
unfolding mark_processed
find-mark s [] h = h
find-mark s (w ∷ ws) h = ground (arith, find-mark s ws)

-- The database with the event's row inserted, not yet processed.
abbrev pub recorded : String → Db → Db
recorded s db = record db {
  webhooks = db.webhooks ++ record { signature = s; processed = false } ∷ [];
}

process_new-seen :
    (s : String) (payload : Payload) (db : Db) → seen s (process_new s payload none db).1 ≢ none
unfolding process_new
process_new-seen s payload db =
    go (dispatch payload.event payload.intent_id payload.external_id (recorded s db)) (
      dispatch-Logged (recorded s db).webhooks payload.event payload.intent_id payload.external_id
        (recorded s db) refl)
  where
    here : find_where (has_signature s) (recorded s db).webhooks ≢ none
    here = find-append s db.webhooks false

    go :
        (r : Result Done × Db)
        → r.1.webhooks ≡ (recorded s db).webhooks
        → seen s
            (continue
              (λ (_ : Done) (d : Db).
                let d' : Db = record d { webhooks = mark_processed s d.webhooks } in
                let res : Result Bool × Db = (ok true, d') in res)
              r).1
          ≢ none
    go (ok _, d) e =
        find-mark s d.webhooks (subst (λ ws. find_where (has_signature s) ws ≢ none) (sym e) here)
    go (err x, d) e = subst (λ ws. find_where (has_signature s) ws ≢ none) (sym e) here

duplicate :
    (s : String) (payload : Payload) (db : Db) (w : WebhookEvent)
    → str_eq s "" ≡ false
    → seen s db ≡ some w
    → process_webhook s payload db ≡ (ok false, db)
unfolding process_webhook process_new
duplicate s payload db w h old = ground arith

fresh :
    (s : String) (payload : Payload) (db : Db)
    → str_eq s "" ≡ false
    → seen s db ≡ none
    → process_webhook s payload db ≡ process_new s payload none db
unfolding process_webhook
fresh s payload db h new = ground arith

duplicate_of_seen :
    (s : String) (payload : Payload) (db : Db)
    → str_eq s "" ≡ false
    → seen s db ≢ none
    → process_webhook s payload db ≡ (ok false, db)
duplicate_of_seen s payload db h known = elim (Option-cases (seen s db)) [
  | inl new ↦ absurd (known new)
  | inr (w, old) ↦ duplicate s payload db w h old
]

-- After a call of the body the signature is recorded, whatever came of the call.
process_webhook-seen :
    (s : String) (payload : Payload) (db : Db)
    → str_eq s "" ≡ false
    → seen s (process_webhook s payload db).1 ≢ none
process_webhook-seen s payload db h = elim (Option-cases (seen s db)) [
  | inl new ↦
      subst (λ res. seen s res.1 ≢ none) (sym (fresh s payload db h new))
        (process_new-seen s payload db)
  | inr (w, old) ↦
      subst (λ res. seen s res.1 ≢ none) (sym (duplicate s payload db w h old)) (ground arith)
]

module _ (s : String) (named : str_eq s "" ≡ false) (fits : is_too_long s ≡ false) where
  admitted : (p : Payload) (db : Db) → deliver true s p db ≡ process_webhook s p db
  unfolding deliver
  admitted p db = rw fits refl

  refused_all :
      (ps : List Payload) (ds : List (Bool × Payload)) (db : Db)
      → deliver_all s (map (λ p. (false, p)) ps ++ ds) db ≡ deliver_all s ds db
  unfolding deliver_all deliver
  refused_all [] ds db = refl
  refused_all (p ∷ ps) ds db = refused_all ps ds db

  deliver-seen : (a : Bool) (p : Payload) (db : Db) → seen s db ≢ none → (deliver a s p db).1 ≡ db
  unfolding deliver
  deliver-seen false p db known = refl
  deliver-seen true p db known = rw (fits, duplicate_of_seen s p db named known) refl

  deliver_all-seen :
      (ds : List (Bool × Payload)) (db : Db) → seen s db ≢ none → deliver_all s ds db ≡ db
  unfolding deliver_all
  deliver_all-seen [] db known = refl
  deliver_all-seen ((a, p) ∷ ds) db known =
      rw (deliver-seen a p db known) (deliver_all-seen ds db known)

  -- Deliveries of one event, under a signature that is not empty and fits its column: after any number
  -- that capacity_limited refused, one that it admitted, and any number of others, refused or admitted
  -- and with any payload, the database is what the first admitted one made of it, whatever came of
  -- that one; and the next admitted one is answered with False and writes nothing.
  pub deliver_all-once :
      (refused : List Payload) (payload : Payload) (later : List (Bool × Payload)) (again : Payload)
      (db : Db)
      → deliver true s again
          (deliver_all s (map (λ p. (false, p)) refused ++ (true, payload) ∷ later) db)
        ≡ (ok false, (process_webhook s payload db).1)
  unfolding deliver_all
  deliver_all-once refused payload later again db =
      let known = process_webhook-seen s payload db named in
      rw
        (
          refused_all refused ((true, payload) ∷ later) db,
          deliver_all,
          admitted payload db,
          deliver_all-seen later (process_webhook s payload db).1 known,
          admitted again (process_webhook s payload db).1,
        )
        (duplicate_of_seen s again (process_webhook s payload db).1 named known)

dispatch-err :
    (t : EventType) (id : Option ℕ) (x : String) (db : Db) (e : Error)
    → (dispatch t id x db).0 ≡ err e
    → (dispatch t id x db).1 ≡ db
unfolding dispatch capture_payment refund_payment
dispatch-err payment_captured (some (suc n)) x db e h = ground arith
dispatch-err payment_refunded (some (suc n)) x db e h = ground arith
dispatch-err _ _ _ db e h = refl

process_new-err :
    (s : String) (payload : Payload) (db : Db) (e : Error)
    → (dispatch payload.event payload.intent_id payload.external_id (recorded s db)).0 ≡ err e
    → process_new s payload none db ≡ (err e, recorded s db)
unfolding process_new
process_new-err s payload db e fails = ground (
  arith,
  dispatch-err payload.event payload.intent_id payload.external_id (recorded s db) e fails,
)

-- A webhook whose handler raises has its row inserted for good, and no other change is made; the
-- gateway's retry is then taken for a duplicate, so the event is never handled.
pub process_webhook-lost :
    (s : String) (payload : Payload) (db : Db) (e : Error)
    → str_eq s "" ≡ false
    → seen s db ≡ none
    → (dispatch payload.event payload.intent_id payload.external_id (recorded s db)).0 ≡ err e
    → (process_webhook s payload db ≡ (err e, recorded s db))
      × (process_webhook s payload (recorded s db) ≡ (ok false, recorded s db))
process_webhook-lost s payload db e h new fails = (
  fresh s payload db h new ∙ process_new-err s payload db e fails,
  duplicate_of_seen s payload (recorded s db) h (find-append s db.webhooks false),
)
