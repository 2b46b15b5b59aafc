-- ===== src/Payments/Refunds.antt =====
-- Refunds (apps/payments/services.py): what a refund that returns has done, as against the charge.
use Prim.Native.String.{String}
use mathlib.Core.Path.{subst}
use mathlib.Core.Option.{some-injective}
use high_performance_e_comme.Common.{
  ℕ, ◌+◌, ◌-◌, ◌≤◌, ◌≡◌, ◌≢◌, refl, sym, ap, ◌∙◌, inl, inr, Bool, true, false, none, some, arith,
  Option-cases, ==→eq, ◌==◌, if◌then◌else◌, update_row, find_row, find_row-key, find_row-update_row,
}
use high_performance_e_comme.Common.Int.{pos}
use high_performance_e_comme.Store.{
  Order, OrderItem, Customer, PaymentIntent, refunded, paid, cancelled, refund_ref, Db, ok, err,
  does_not_exist, Action, Done, for_each, for_each-keeps, continue-ok,
}
use high_performance_e_comme.Inventory.{restock}
use high_performance_e_comme.Inventory.Frame.{SameTables, SameTables-refl, restock-SameTables}
use high_performance_e_comme.Orders.{order_of, order_items_of}
use high_performance_e_comme.Payments.{
  intent_of, customer_of, is_captured, record_refund, pay_back, capture_payment, refund_payment,
}
use high_performance_e_comme.Payments.Capture.{captured_as, captured_row}
use high_performance_e_comme.Payments.Charges.{charged, paid_row}

abbrev debit : ℕ → Customer → Customer
debit amount c = record c { wallet_balance = c.wallet_balance - amount; version = c.version + 1 }

abbrev pub credit : ℕ → Customer → Customer
credit amount c = record c { wallet_balance = c.wallet_balance + amount; version = c.version + 1 }

abbrev pub mark_refunded : PaymentIntent → PaymentIntent → PaymentIntent
mark_refunded intent q = record q { status = refunded; version = intent.version + 1 }

abbrev mark_cancelled : Order → Order → Order
mark_cancelled order o = record o { status = cancelled; version = order.version + 1 }

-- A refund that paid back: the intent was captured, and the three rows were written.
pub record PaidBack (intent : PaymentIntent) (db db' : Db) : Type 0 where
  pub order : Order
  pub customer : Customer
  pub was_captured : is_captured intent.status ≡ true
  pub order_found : order_of intent.order_id db ≡ some order
  pub customer_found : customer_of order.customer_id db ≡ some customer
  pub customers :
      db'.customers ≡ update_row (λ c. c.id) customer.id (credit intent.amount) db.customers
  pub intents : db'.intents ≡ update_row (λ q. q.id) intent.id (mark_refunded intent) db.intents
  pub orders : db'.orders ≡ update_row (λ o. o.id) order.id (mark_cancelled order) db.orders

record_refund-ok :
    (intent : PaymentIntent) (order : Order) (customer : Customer) (db db' : Db) (p : PaymentIntent)
    → record_refund intent order customer db ≡ (ok p, db')
    → (db'.customers ≡ update_row (λ c. c.id) customer.id (credit intent.amount) db.customers)
      × (db'.intents ≡ update_row (λ q. q.id) intent.id (mark_refunded intent) db.intents)
      × (db'.orders ≡ update_row (λ o. o.id) order.id (mark_cancelled order) db.orders)
unfolding record_refund
record_refund-ok intent order customer db db' p h = ground arith

pay_back-ok :
    (intent : PaymentIntent) (order : Order) (customer : Customer) (db db' : Db) (p : PaymentIntent)
    → pay_back intent order customer db ≡ (ok p, db')
    → (d : Db) × SameTables db d × (record_refund intent order customer d ≡ (ok p, db'))
unfolding pay_back
pay_back-ok intent order customer db db' p h =
    let body : OrderItem → Action Done =
      λ i. restock i.product_id (pos i.quantity) (refund_ref order.id) in
    let r = for_each body (order_items_of order.id db) db in
    let (_, _, recorded) =
      continue-ok (λ (_ : Done). record_refund intent order customer) r db' p h in
    (
      r.1,
      for_each-keeps (SameTables db) body (order_items_of order.id db)
          (λ i d. restock-SameTables db i.product_id (pos i.quantity) (refund_ref order.id) d) db
          (SameTables-refl db),
      recorded,
    )

refund_payment-missing :
    (id : ℕ) (db : Db) → intent_of id db ≡ none → refund_payment id db ≡ (err does_not_exist, db)
unfolding refund_payment
refund_payment-missing id db e = ground arith

-- The rows that a refund which returns has read.
refund_payment-reads :
    (id : ℕ) (db db' : Db) (p intent : PaymentIntent)
    → refund_payment id db ≡ (ok p, db')
    → intent_of id db ≡ some intent
    → (is_captured intent.status ≡ true) × (order_of intent.order_id db ≢ none)
unfolding refund_payment
refund_payment-reads id db db' p intent h ei = (ground arith, λ none_found. ground arith)

refund_payment-pays :
    (id : ℕ) (db db' : Db) (p intent : PaymentIntent) (order : Order)
    → refund_payment id db ≡ (ok p, db')
    → intent_of id db ≡ some intent
    → order_of intent.order_id db ≡ some order
    → (customer : Customer) × (customer_of order.customer_id db ≡ some customer)
      × (pay_back intent order customer db ≡ (ok p, db'))
unfolding refund_payment
refund_payment-pays id db db' p intent order h ei eo =
    elim (Option-cases (customer_of order.customer_id db)) [
      | inl missing ↦ absurd (ground arith)
      | inr (customer, ec) ↦ (customer, ec, ground arith)
    ]

paid_back :
    (intent : PaymentIntent) (order : Order) (customer : Customer) (db db' : Db) (p : PaymentIntent)
    → is_captured intent.status ≡ true
    → order_of intent.order_id db ≡ some order
    → customer_of order.customer_id db ≡ some customer
    → pay_back intent order customer db ≡ (ok p, db')
    → PaidBack intent db db'
paid_back intent order customer db db' p was eo ec h =
    let (d, same, recorded) = pay_back-ok intent order customer db db' p h in
    let (customers, intents, orders) = record_refund-ok intent order customer d db' p recorded in
    record {
      order = order;
      customer = customer;
      was_captured = was;
      order_found = eo;
      customer_found = ec;
      customers =
          customers
          ∙ ap (update_row (λ (c : Customer). c.id) customer.id (credit intent.amount))
              same.customers;
      intents =
          intents
          ∙ ap (update_row (λ (q : PaymentIntent). q.id) intent.id (mark_refunded intent))
              same.intents;
      orders =
          orders
          ∙ ap (update_row (λ (o : Order). o.id) order.id (mark_cancelled order)) same.orders;
    }

-- A refund that returns found a captured intent, its order and its customer; the intent became
-- refunded, the order cancelled, and the amount went back to the wallet.
pub refund_payment-ok :
    (id : ℕ) (db db' : Db) (p : PaymentIntent)
    → refund_payment id db ≡ (ok p, db')
    → (intent : PaymentIntent) × (intent_of id db ≡ some intent) × PaidBack intent db db'
refund_payment-ok id db db' p h = elim (Option-cases (intent_of id db)) [
  | inl missing ↦ absurd (cc (refund_payment-missing id db missing))
  | inr (intent, ei) ↦
      let (was, ordered) = refund_payment-reads id db db' p intent h ei in
      elim (Option-cases (order_of intent.order_id db)) [
        | inl missing ↦ absurd (ordered missing)
        | inr (order, eo) ↦
            let (customer, ec, paying) = refund_payment-pays id db db' p intent order h ei eo in
            (intent, ei, paid_back intent order customer db db' p was eo ec paying)
      ]
]

balance :
    (mine : Bool) (amount : ℕ) (c : Customer)
    → (mine ≡ true → amount ≤ c.wallet_balance)
    → (if mine
        then credit amount (if mine then debit amount c else c)
        else (if mine then debit amount c else c)).wallet_balance
      ≡ c.wallet_balance
balance true amount c covered = omega (arith, covered refl)
balance false amount c covered = refl

-- A refund of an intent that a capture charged gives every customer the balance from before the
-- capture.
pub refund_payment-undoes_capture :
    (id : ℕ) (x : String) (db db' db'' : Db) (p q intent : PaymentIntent)
    → capture_payment id x db ≡ (ok p, db')
    → intent_of id db ≡ some intent
    → is_captured intent.status ≡ false
    → refund_payment id db' ≡ (ok q, db'')
    → (j : ℕ) (c : Customer) → customer_of j db ≡ some c
    → (c' : Customer) × (customer_of j db'' ≡ some c') × (c'.wallet_balance ≡ c.wallet_balance)
refund_payment-undoes_capture id x db db' db'' p q intent h found fresh back j c ec =
    let charge = charged id x db db' p intent h found fresh in
    let (intent', found', b) = refund_payment-ok id db' db'' q back in
    let now = captured_row id x db db' intent found charge in
    let same_id = find_row-key (λ r. r.id) id db.intents intent found in
    let is_now : intent' ≡ captured_as x intent =
      some-injective _ _
        (sym found' ∙ subst (λ k. intent_of k db' ≡ some (captured_as x intent)) same_id now) in
    let is_paid : b.order
        ≡ record (charge.order) { status = paid; version = charge.order.version + 1 } =
      some-injective _ _ (
        sym b.order_found
        ∙ ap (λ (i : PaymentIntent). order_of i.order_id db') is_now
        ∙ paid_row intent x db db' charge) in
    let key =
      find_row-key (λ r. r.id) charge.order.customer_id db.customers charge.customer
        charge.customer_found in
    let key' =
      find_row-key (λ r. r.id) b.order.customer_id db'.customers b.customer b.customer_found in
    let same_customer : b.customer.id ≡ charge.customer.id =
      key' ∙ ap (λ (o : Order). o.customer_id) is_paid ∙ sym key in
    let debited =
      find_row-update_row (λ r. r.id) j charge.customer.id (debit intent.amount) db.customers c
        (λ r. refl) ec in
    let credited =
      find_row-update_row (λ r. r.id) j charge.customer.id (credit intent.amount) db'.customers
        (if j == charge.customer.id then debit intent.amount c else c) (λ r. refl)
        (ap (find_row (λ (r : Customer). r.id) j) charge.customers ∙ debited) in
    (
      if j == charge.customer.id
          then credit intent.amount (if j == charge.customer.id then debit intent.amount c else c)
          else (if j == charge.customer.id then debit intent.amount c else c),
      ap (find_row (λ (r : Customer). r.id) j) (
            b.customers
            ∙ ap
                (λ (k : ℕ).
                  update_row (λ (r : Customer). r.id) k (credit intent'.amount) db'.customers)
                same_customer
            ∙ ap
                (λ (i : PaymentIntent).
                  update_row (λ (r : Customer). r.id) charge.customer.id (credit i.amount)
                    db'.customers)
                is_now)
          ∙ credited,
      balance (j == charge.customer.id) intent.amount c (λ e.
          subst (λ (r : Customer). intent.amount ≤ r.wallet_balance)
            (some-injective charge.customer c (
              sym charge.customer_found
              ∙ ap (λ (k : ℕ). customer_of k db) (sym key ∙ sym (==→eq j charge.customer.id e))
              ∙ ec))
            charge.covered),
    )
