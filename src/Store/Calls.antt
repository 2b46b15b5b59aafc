-- ===== src/Store/Calls.antt =====
-- A service call: it reads and writes the database, and returns or raises. What a body wrote before
-- it raised stays written, unless `atomic` (`transaction.atomic`) takes it back.
use high_performance_e_comme.Common.{
  ◌≡◌, ◌≤◌, refl, ap, Bool, Option, none, some, List, [], ◌∷◌, if◌then◌else◌,
}
use high_performance_e_comme.Store.Rows.{Db}

-- The exceptions of the services, that of `capacity_limited`, and Django's own: a `get` that finds no
-- row, a broken UNIQUE constraint, and a text longer than its column.
pub data Error : Type 0 where
  not_enough_stock invalid_quantity : Error
  cart_locked cart_empty invalid_order_state : Error
  invalid_payment_state insufficient_wallet_balance : Error
  insufficient_loyalty_points : Error
  capacity_exceeded : Error
  does_not_exist integrity_error data_error : Error

pub data Result (A : Type 0) : Type 0 where
  ok : A → Result A
  err : Error → Result A

abbrev pub Action : Type 0 → Type 0
Action A = Db → Result A × Db

abbrev pub Done : Type 0
Done = Unit

module _ {A : Type 0} where
  abbrev pub pure : A → Action A
  pure a db = (ok a, db)

  abbrev pub raise : Error → Action A
  raise e db = (err e, db)

  abbrev pub gets : (Db → A) → Action A
  gets f db = (ok (f db), db)

  -- The value that a lookup found.
  abbrev pub or_raise : Error → Option A → Action A
  or_raise e none = raise e
  or_raise e (some a) = pure a

  -- The end of an atomic block: it commits, or the writes since its start are undone.
  abbrev pub settle : Db → Result A × Db → Result A × Db
  settle start (ok a, db) = (ok a, db)
  settle start (err e, _) = (err e, start)

  -- `transaction.atomic`: a raise rolls the block back.
  abbrev pub atomic : Action A → Action A
  atomic body db = settle db (body db)

infixl 5 ◌>>=◌ ◌>>◌
abbrev pub continue : {A B : Type 0} → (A → Action B) → Result A × Db → Result B × Db
continue k (ok a, db) = k a db
continue k (err e, db) = (err e, db)

abbrev pub ◌>>=◌ : {A B : Type 0} → Action A → (A → Action B) → Action B
◌>>=◌ m k db = continue k (m db)

abbrev pub ◌>>◌ : {A B : Type 0} → Action A → Action B → Action B
m >> k = m >>= λ _. k

abbrev pub raise_if : Bool → Error → Action Done
raise_if test e db = (if test then err e else ok tt, db)

abbrev pub modify : (Db → Db) → Action Done
modify f db = (ok tt, f db)

-- `for x in xs: body(x)`
abbrev pub for_each {ℓ} : {A : Type ℓ} → (A → Action Done) → List A → Action Done
for_each body [] = pure tt
for_each body (x ∷ xs) = body x >> for_each body xs

-- A chain that returned did so at its first step.
pub continue-ok :
    {A B : Type 0} (k : A → Action B) (r : Result A × Db) (db' : Db) (b : B)
    → continue k r ≡ (ok b, db')
    → (a : A) × (r.0 ≡ ok a) × (k a r.1 ≡ (ok b, db'))
continue-ok k (ok a, d) db' b h = (a, refl, h)
continue-ok k (err e, d) db' b h = cc

-- What every step of a loop keeps, the loop keeps, however it ends.
pub for_each-keeps {ℓ κ} :
    {A : Type ℓ} (P : Db → Type κ) (body : A → Action Done) (xs : List A)
    → ((x : A) (db : Db) → P db → P (body x db).1)
    → (db : Db) → P db
    → P (for_each body xs db).1
for_each-keeps P body [] keep db h = h
for_each-keeps P body (x ∷ xs) keep db h =
    go (for_each-keeps P body xs keep) (body x db) (keep x db h)
  where
    go :
        ((d : Db) → P d → P (for_each body xs d).1)
        → (r : Result Done × Db) → P r.1
        → P (continue (λ _. for_each body xs) r).1
    go rest (ok _, d) h' = rest d h'
    go rest (err e, d) h' = h'

-- What a call keeps, however it ends, by its parts.
abbrev pub Keeps {κ} : {A : Type 0} → (Db → Type κ) → Action A → Type κ
Keeps P m = (db : Db) → P db → P (m db).1

module _ {κ} (P : Db → Type κ) where
  pub Keeps->>= :
      {A B : Type 0} (m : Action A) (k : A → Action B)
      → Keeps P m
      → ((a : A) → Keeps P (k a))
      → Keeps P (m >>= k)
  Keeps->>= {A} {B} m k hm hk db h = go (m db) (hm db h)
    where
      go : (r : Result A × Db) → P r.1 → P (continue k r).1
      go (ok a, d) p = hk a d p
      go (err e, d) p = p

  pub Keeps-atomic : {A : Type 0} (m : Action A) → Keeps P m → Keeps P (atomic m)
  Keeps-atomic {A} m hm db h = go (m db) (hm db h)
    where
      go : (r : Result A × Db) → P r.1 → P (settle db r).1
      go (ok a, d) p = p
      go (err e, d) p = h

  pub Keeps-or_raise : {A : Type 0} (e : Error) (o : Option A) → Keeps P (or_raise e o)
  Keeps-or_raise e none db h = h
  Keeps-or_raise e (some a) db h = h

-- What holds at the start of a transaction, and when it returns, holds after it.
pub atomic-returns {κ} :
    {A : Type 0} (P : Db → Type κ) (m : Action A) (db : Db)
    → P db
    → ((a : A) (db' : Db) → atomic m db ≡ (ok a, db') → P db')
    → P (atomic m db).1
atomic-returns {A} P m db h returns = go (m db) refl
  where
    go : (r : Result A × Db) → m db ≡ r → P (settle db r).1
    go (ok a, d) e = returns a d (ap (settle db) e)
    go (err x, d) e = h

-- What a predicate reads of the database: the stock, the lines of the carts, and keys that were
-- given out.
abbrev pub IsFramed {κ} : (Db → Type κ) → Type κ
IsFramed P =
    (db db' : Db)
    → db'.stock ≡ db.stock
    → db'.cart_items ≡ db.cart_items
    → db.next_id ≤ db'.next_id
    → P db
    → P db'
