-- ===== src/Inventory/Frame.antt =====
-- The inventory service writes `stock`, `movements` and `tasks`, and no other table
-- (apps/inventory/services.py).
use high_performance_e_comme.Common.{ℕ, ◌≡◌, inl, inr, [], ◌∷◌, arith, List}
use high_performance_e_comme.Common.Int.{ℤ}
use high_performance_e_comme.Store.{Reference, Db}
use high_performance_e_comme.Inventory.{
  reserve_stock, release_stock, consume_stock, restock, Line, bulk_reserve, Request, reserving,
  releasing, consuming, restocking, serve,
}
use high_performance_e_comme.Inventory.Bulk.{bulk_reserve-cases}
use mathlib.Core.Path.{subst, sym}

-- `d` has the rows of `start` in every table but those of the stock.
pub record SameTables (start d : Db) : Type 0 where
  pub customers : d.customers ≡ start.customers
  pub addresses : d.addresses ≡ start.addresses
  pub products : d.products ≡ start.products
  pub carts : d.carts ≡ start.carts
  pub cart_items : d.cart_items ≡ start.cart_items
  pub orders : d.orders ≡ start.orders
  pub order_items : d.order_items ≡ start.order_items
  pub intents : d.intents ≡ start.intents
  pub webhooks : d.webhooks ≡ start.webhooks
  pub next_id : d.next_id ≡ start.next_id

pub SameTables-refl : (db : Db) → SameTables db db
SameTables-refl db = ground arith

module _ (start : Db) (pid : ℕ) (qty : ℤ) (r : Reference) (db : Db) (h : SameTables start db) where
  pub reserve_stock-SameTables : SameTables start (reserve_stock pid qty r db).1
  unfolding reserve_stock
  reserve_stock-SameTables = ground arith

  pub release_stock-SameTables : SameTables start (release_stock pid qty r db).1
  unfolding release_stock
  release_stock-SameTables = ground arith

  pub consume_stock-SameTables : SameTables start (consume_stock pid qty r db).1
  unfolding consume_stock
  consume_stock-SameTables = ground arith

  pub restock-SameTables : SameTables start (restock pid qty r db).1
  unfolding restock
  restock-SameTables = ground arith

pub bulk_reserve-SameTables :
    (start : Db) (items : List Line) (r : Reference) (db : Db)
    → SameTables start db
    → SameTables start (bulk_reserve items r db).1
unfolding bulk_reserve
bulk_reserve-SameTables start [] r db h = h
bulk_reserve-SameTables start (item ∷ items) r db h = elim (bulk_reserve-cases item items r db) [
  | inl bad ↦ subst (λ res. SameTables start res.1) (sym bad) h
  | inr (inl short) ↦ subst (λ res. SameTables start res.1) (sym short) h
  | inr (inr (_, _, e)) ↦ subst (λ res. SameTables start res.1) (sym e) (ground arith)
]

pub serve-SameTables : (q : Request) (db : Db) → SameTables db (serve q db).1
unfolding serve
serve-SameTables (reserving pid qty r) db =
    reserve_stock-SameTables db pid qty r db (SameTables-refl db)
serve-SameTables (releasing pid qty r) db =
    release_stock-SameTables db pid qty r db (SameTables-refl db)
serve-SameTables (consuming pid qty r) db =
    consume_stock-SameTables db pid qty r db (SameTables-refl db)
serve-SameTables (restocking pid qty r) db = restock-SameTables db pid qty r db (SameTables-refl db)
