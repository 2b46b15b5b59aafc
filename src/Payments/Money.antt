-- ===== src/Payments/Money.antt =====
-- The money in the wallets and in the captured intents (apps/payments/services.py).
use Prim.Native.String.{String}
use mathlib.Core.Path.{subst}
use high_performance_e_comme.Common.{
  ℕ, ◌+◌, ◌-◌, ◌≡◌, refl, sym, ap, ◌∙◌, inl, inr, true, Bool-cases, some, arith, List, [], ◌∷◌,
  ◌++◌, find_row, find_row-key, update_row, if◌then◌else◌, ◌==◌,
}
use high_performance_e_comme.Store.{
  Customer, Db, PaymentIntent, IntentStatus, init, authorized, captured, atomic-returns,
}
use high_performance_e_comme.Payments.{
  intent_of, is_captured, can_capture, create_intent, capture_payment, refund_payment, Payload,
  process_webhook,
}
use high_performance_e_comme.Payments.Capture.{Charged, capture_payment-ok}
use high_performance_e_comme.Payments.Refunds.{credit, mark_refunded, PaidBack, refund_payment-ok}
use high_performance_e_comme.Payments.Events.{webhook-Keeps}
use high_performance_e_comme.Payments.History.{capture_body, refund_body}

-- A measure of the rows of a table, added up.
abbrev pub sum_of : {A : Type 0} → (A → ℕ) → List A → ℕ
sum_of g [] = 0
sum_of g (r ∷ rs) = g r + sum_of g rs

sum_of-append :
    {A : Type 0} (g : A → ℕ) (rs ss : List A) → sum_of g (rs ++ ss) ≡ sum_of g rs + sum_of g ss
sum_of-append g [] ss = omega arith
sum_of-append g (r ∷ rs) ss = omega (arith, sum_of-append g rs ss)

sum_of-update_row :
    {A : Type 0} (key g : A → ℕ) (k : ℕ) (f : A → A) (rs : List A) (r : A)
    → find_row key k rs ≡ some r
    → sum_of g (update_row key k f rs) + g r ≡ sum_of g rs + g (f r)
sum_of-update_row key g k f [] r e = cc
sum_of-update_row key g k f (x ∷ rs) r e = elim (Bool-cases (key x == k)) [
  | inl same ↦
      let is : x ≡ r = ground arith in rw same (omega (arith, ap g is, ap (λ y. g (f y)) is))
  | inr other ↦ rw other (omega (arith, sum_of-update_row key g k f rs r (rw other at e)))
]

-- The same for the row that was read.
sum_of-written :
    {A : Type 0} (key g : A → ℕ) (k : ℕ) (f : A → A) (rs rs' : List A) (r : A)
    → find_row key k rs ≡ some r
    → rs' ≡ update_row key (key r) f rs
    → sum_of g rs' + g r ≡ sum_of g rs + g (f r)
sum_of-written key g k f rs rs' r e w =
    let here : find_row key (key r) rs ≡ some r =
      subst (λ j. find_row key j rs ≡ some r) (sym (find_row-key key k rs r e)) e in
    rw w (sum_of-update_row key g (key r) f rs r here)

-- What an intent holds of its customer's money.
abbrev pub captured_amount : PaymentIntent → ℕ
captured_amount p = if is_captured p.status then p.amount else 0

abbrev pub money : Db → ℕ
money db = sum_of (λ c. c.wallet_balance) db.customers + sum_of captured_amount db.intents

pub same-money :
    (db db' : Db) → db'.customers ≡ db.customers → db'.intents ≡ db.intents → money db' ≡ money db
same-money db db' customers intents = omega (
  arith,
  ap (sum_of (λ (c : Customer). c.wallet_balance)) customers,
  ap (sum_of captured_amount) intents,
)

charge-money :
    (id : ℕ) (intent : PaymentIntent) (x : String) (db db' : Db)
    → intent_of id db ≡ some intent
    → can_capture intent.status ≡ true
    → Charged intent x db db'
    → money db' ≡ money db
charge-money id intent x db db' found can c =
    let debit : Customer → Customer = λ r. record r {
      wallet_balance = r.wallet_balance - intent.amount;
      version = r.version + 1;
    } in
    let wallets =
      sum_of-written (λ r. r.id) (λ r. r.wallet_balance) c.order.customer_id debit db.customers
        db'.customers c.customer c.customer_found c.customers in
    let capture : PaymentIntent → PaymentIntent =
      λ q. record q { status = captured; external_id = some x; version = intent.version + 1 } in
    let intents =
      sum_of-written (λ q. q.id) captured_amount id capture db.intents db'.intents intent found
        c.intents in
    let before : captured_amount intent ≡ 0 = uncaptured intent.status intent.amount can in
    omega (arith, wallets, intents, before, c.covered)
  where
    uncaptured :
        (s : IntentStatus) (n : ℕ) → can_capture s ≡ true → (if is_captured s then n else 0) ≡ 0
    uncaptured init n h = refl
    uncaptured authorized n h = refl
    uncaptured captured n h = absurd (cc h)
    uncaptured _ n h = refl

pay_back-money :
    (id : ℕ) (intent : PaymentIntent) (db db' : Db)
    → intent_of id db ≡ some intent
    → PaidBack intent db db'
    → money db' ≡ money db
pay_back-money id intent db db' found c =
    let wallets =
      sum_of-written (λ r. r.id) (λ r. r.wallet_balance) c.order.customer_id (credit intent.amount)
        db.customers db'.customers c.customer c.customer_found c.customers in
    let intents =
      sum_of-written (λ q. q.id) captured_amount id (mark_refunded intent) db.intents db'.intents
        intent found c.intents in
    let before : captured_amount intent ≡ intent.amount = rw c.was_captured refl in
    omega (arith, wallets, intents, before)

pub capture_payment-money :
    (id : ℕ) (x : String) (db : Db) → money (capture_payment id x db).1 ≡ money db
unfolding capture_payment
capture_payment-money id x db =
    atomic-returns (λ d. money d ≡ money db) (capture_body id x) db refl
      (λ p db' h.
        let (intent, found, outcome) = capture_payment-ok id x db db' p h in
        elim outcome [
          | inl (_, _, _, same) ↦ ap money same
          | inr (can, c, _) ↦ charge-money id intent x db db' found can c
        ])

pub refund_payment-money : (id : ℕ) (db : Db) → money (refund_payment id db).1 ≡ money db
unfolding refund_payment
refund_payment-money id db =
    atomic-returns (λ d. money d ≡ money db) (refund_body id) db refl
      (λ p db' h.
        let (intent, found, back) = refund_payment-ok id db db' p h in
        pay_back-money id intent db db' found back)

pub process_webhook-money :
    (s : String) (payload : Payload) (db : Db) → money (process_webhook s payload db).1 ≡ money db
process_webhook-money s payload db =
    webhook-Keeps (λ d. money d ≡ money db) (λ d ws h. h)
      (λ id x d h. capture_payment-money id x d ∙ h) (λ id d h. refund_payment-money id d ∙ h) s
      payload db refl

pub create_intent-money :
    (order_id amount : ℕ) (db : Db) → money (create_intent order_id amount db).1 ≡ money db
unfolding create_intent
create_intent-money order_id amount db = omega (arith, sum_of-append captured_amount db.intents)
