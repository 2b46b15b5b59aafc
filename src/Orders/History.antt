-- ===== src/Orders/History.antt =====
-- What becomes of the orders (apps/orders/services.py): the relation of the rows before some calls to
-- the rows after them, and the part of checkouts and cancellations in it.
use mathlib.Core.Path.{subst}
use high_performance_e_comme.Common.{
  ℕ, ◌+◌, ◌≤◌, ◌<◌, ◌≡◌, ◌⊎◌, refl, sym, ap, ◌∙◌, inl, inr, Bool-cases, Option-cases, not, some,
  List, [], ◌∷◌, ◌++◌, arith, ◌==◌, find_row, update_row,
}
use high_performance_e_comme.Common.Int.{pos}
use high_performance_e_comme.Store.{
  Order, OrderItem, OrderStatus, pending, paid, shipped, delivered, cancelled, order_ref, Db, gets,
  or_raise, raise_if, does_not_exist, invalid_order_state, ◌>>=◌, ◌>>◌, ok, Action, Done,
  atomic-returns, for_each, for_each-keeps, continue-ok,
}
use high_performance_e_comme.Inventory.{release_stock}
use high_performance_e_comme.Inventory.Frame.{SameTables, SameTables-refl, release_stock-SameTables}
use high_performance_e_comme.Orders.{
  order_of, order_items_of, is_pending, place_order, cancel_order,
}
use high_performance_e_comme.Orders.Keeping.{close_order}
use high_performance_e_comme.Orders.Placing.{place_order-cases}

-- How far an order has come.
abbrev pub stage : OrderStatus → ℕ
stage pending = 0
stage paid = 1
stage shipped = 2
stage delivered = 3
stage cancelled = 4

-- `o'` is a later state of the order `o`: only the status and the version may differ, the status has
-- not gone back, and a row that was written has a higher version.
pub record Follows (o o' : Order) : Type 0 where
  pub same_order : o' ≡ record o { status = o'.status; version = o'.version }
  pub forward : stage o.status ≤ stage o'.status
  pub counted : (o'.status ≡ o.status) × (o'.version ≡ o.version) ⊎ o.version < o'.version

-- Every order is still there, in its place, in a later state; new orders come after.
abbrev pub Extends : List Order → List Order → Type 0
Extends [] _ = Unit
Extends (o ∷ os) [] = ⊥
Extends (o ∷ os) (o' ∷ os') = Follows o o' × Extends os os'

Follows-refl : (o : Order) → Follows o o
Follows-refl o = record { same_order = refl; forward = omega arith; counted = inl (refl, refl) }

Follows-trans : (a b c : Order) → Follows a b → Follows b c → Follows a c
Follows-trans a b c h k = record {
  same_order =
      k.same_order
      ∙ ap (λ (o : Order). record o { status = c.status; version = c.version }) h.same_order;
  forward = omega (arith, h.forward, k.forward);
  counted = elim h.counted [
    | inl (s, v) ↦ elim k.counted [
      | inl (s', v') ↦ inl (s' ∙ s, v' ∙ v)
      | inr later ↦ inr (omega arith)
    ]
    | inr later ↦ elim k.counted [
      | inl (_, v') ↦ inr (omega arith)
      | inr later' ↦ inr (omega arith)
    ]
  ];
}

pub Extends-refl : (os : List Order) → Extends os os
Extends-refl [] = tt
Extends-refl (o ∷ os) = (Follows-refl o, Extends-refl os)

pub Extends-trans : (os ps qs : List Order) → Extends os ps → Extends ps qs → Extends os qs
Extends-trans [] ps qs h k = tt
Extends-trans (a ∷ os) [] qs h k = absurd h
Extends-trans (a ∷ os) (b ∷ ps) [] h k = absurd k
Extends-trans (a ∷ os) (b ∷ ps) (c ∷ qs) (h, hs) (k, ks) =
    (Follows-trans a b c h k, Extends-trans os ps qs hs ks)

Extends-append : (os new : List Order) → Extends os (os ++ new)
Extends-append [] new = tt
Extends-append (o ∷ os) new = (Follows-refl o, Extends-append os new)

-- A write of the row that was read.
pub Extends-update :
    (k : ℕ) (f : Order → Order) (os : List Order) (o : Order)
    → find_row (λ r. r.id) k os ≡ some o
    → Follows o (f o)
    → Extends os (update_row (λ r. r.id) k f os)
Extends-update k f [] o e h = tt
Extends-update k f (r ∷ os) o e h = elim (Bool-cases (r.id == k)) [
  | inl same ↦
      let is : r ≡ o = ground arith in
      rw same (subst (λ x. Follows x (f x)) (sym is) h, Extends-refl os)
  | inr other ↦ rw other (Follows-refl r, Extends-update k f os o (ground arith) h)
]

pub place_order-Extends :
    (customer shipping billing : ℕ) (db : Db)
    → Extends db.orders (place_order customer shipping billing db).1.orders
place_order-Extends customer shipping billing db =
    elim (place_order-cases customer shipping billing db) [
      | inl (e, fails) ↦ rw fails (Extends-refl db.orders)
      | inr (order, db', returns, placed) ↦
          rw returns (rw placed.all_written (Extends-append db.orders (order ∷ [])))
    ]

-- What a write of an order's status does to it, if the version is counted up.
pub marks-Follow :
    (o : Order) (s : OrderStatus)
    → stage o.status ≤ stage s
    → Follows o (record o { status = s; version = o.version + 1 })
marks-Follow o s h = record { same_order = refl; forward = h; counted = inr (omega arith) }

stage-cancelled : (s : OrderStatus) → stage s ≤ stage cancelled
stage-cancelled pending = omega arith
stage-cancelled paid = omega arith
stage-cancelled shipped = omega arith
stage-cancelled delivered = omega arith
stage-cancelled cancelled = omega arith

pub cancels-Extends :
    (k : ℕ) (os : List Order) (o : Order)
    → find_row (λ r. r.id) k os ≡ some o
    → Extends os (
        update_row (λ r. r.id) k (λ r. record r { status = cancelled; version = o.version + 1 }) os)
cancels-Extends k os o e =
    Extends-update k (λ r. record r { status = cancelled; version = o.version + 1 }) os o e
      (marks-Follow o cancelled (stage-cancelled o.status))

abbrev close : Order → Order → Order
close o r = record r { status = cancelled; version = o.version + 1 }

close_order-writes :
    (id : ℕ) (o p : Order) (db db' : Db)
    → close_order id o db ≡ (ok p, db')
    → (db'.orders ≡ update_row (λ r. r.id) id (close o) db.orders)
      × (db'.customers ≡ db.customers)
      × (db'.intents ≡ db.intents)
close_order-writes id o p db db' h = ground arith

cancel_order-writes :
    (id : ℕ) (o p : Order) (db db' : Db)
    → order_of id db ≡ some o
    → cancel_order id db ≡ (ok p, db')
    → (db'.orders ≡ update_row (λ r. r.id) id (close o) db.orders)
      × (db'.customers ≡ db.customers)
      × (db'.intents ≡ db.intents)
unfolding cancel_order
cancel_order-writes id o p db db' e h =
    let body : OrderItem → Action Done =
      λ i. release_stock i.product_id (pos i.quantity) (order_ref id) in
    let r = for_each body (order_items_of id db) db in
    let (_, _, closed) = continue-ok (λ (_ : Done). close_order id o) r db' p (ground arith) in
    let same =
      for_each-keeps (SameTables db) body (order_items_of id db)
        (λ i d. release_stock-SameTables db i.product_id (pos i.quantity) (order_ref id) d) db
        (SameTables-refl db) in
    let (orders, customers, intents) = close_order-writes id o p r.1 db' closed in
    (
      orders ∙ ap (update_row (λ (x : Order). x.id) id (close o)) same.orders,
      customers ∙ same.customers,
      intents ∙ same.intents,
    )

-- What `cancel_order` does in its transaction.
abbrev cancel_body : ℕ → Action Order
cancel_body id = do
  locked ← gets (order_of id) >>= or_raise does_not_exist
  raise_if (not (is_pending locked.status)) invalid_order_state
  items ← gets (order_items_of id)
  for_each (λ i. release_stock i.product_id (pos i.quantity) (order_ref id)) items
  close_order id locked

pub cancel_order-Extends : (id : ℕ) (db : Db) → Extends db.orders (cancel_order id db).1.orders
unfolding cancel_order
cancel_order-Extends id db = elim (Option-cases (order_of id db)) [
  | inl missing ↦ rw missing (Extends-refl db.orders)
  | inr (o, e) ↦
      atomic-returns (λ d. Extends db.orders d.orders) (cancel_body id) db (Extends-refl db.orders)
        (λ p db' h. rw (cancel_order-writes id o p db db' e h).0 (cancels-Extends id db.orders o e))
]

-- The tables with money, which checkouts and cancellations leave alone.
abbrev pub SameMoney : Db → Db → Type 0
SameMoney db d = (d.customers ≡ db.customers) × (d.intents ≡ db.intents)

pub place_order-SameMoney :
    (customer shipping billing : ℕ) (db : Db)
    → SameMoney db (place_order customer shipping billing db).1
place_order-SameMoney customer shipping billing db =
    elim (place_order-cases customer shipping billing db) [
      | inl (e, fails) ↦ rw fails (refl, refl)
      | inr (order, db', returns, placed) ↦ rw returns (rw placed.all_written (refl, refl))
    ]

pub cancel_order-SameMoney : (id : ℕ) (db : Db) → SameMoney db (cancel_order id db).1
unfolding cancel_order
cancel_order-SameMoney id db = elim (Option-cases (order_of id db)) [
  | inl missing ↦ rw missing (refl, refl)
  | inr (o, e) ↦
      atomic-returns (SameMoney db) (cancel_body id) db (refl, refl)
        (λ p db' h.
          let (_, customers, intents) = cancel_order-writes id o p db db' e h in
          (customers, intents))
]
