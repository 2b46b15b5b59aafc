-- ===== src/Inventory/Bounds.antt =====
-- No overselling (apps/inventory/services.py): no row ever has more reserved than on hand.
use mathlib.Core.Path.{subst}
use high_performance_e_comme.Common.{
  ℕ, ◌≤◌, ◌≡◌, sym, inl, inr, some, List, [], ◌∷◌, arith, All, Option-cases, update_row,
  All-update_row_found, All-find_row,
}
use high_performance_e_comme.Common.Int.{ℤ, pos_part}
use high_performance_e_comme.Store.{StockItem, Reference, Db, IsFramed}
use high_performance_e_comme.Inventory.{
  stock_of, add_reserved, sub_reserved, sub_both, add_on_hand, reserve_stock, release_stock,
  consume_stock, restock, Request, reserving, releasing, consuming, restocking, serve, serve_all,
}

abbrev pub IsCovered : StockItem → Type 0
IsCovered s = s.reserved ≤ s.on_hand

abbrev pub NoOversell : Db → Type 0
NoOversell db = All IsCovered db.stock

pub NoOversell-framed : IsFramed NoOversell
NoOversell-framed db db' same _ _ h = subst (All IsCovered) (sym same) h

update-NoOversell :
    (pid : ℕ) (f : StockItem → StockItem) (db : Db) (si : StockItem)
    → stock_of pid db ≡ some si
    → IsCovered (f si)
    → NoOversell db
    → All IsCovered (update_row (λ s. s.product_id) pid f db.stock)
update-NoOversell pid f db si e =
    All-update_row_found (λ s. s.product_id) pid f IsCovered db.stock si e

covered_row :
    (pid : ℕ) (db : Db) (si : StockItem)
    → NoOversell db
    → stock_of pid db ≡ some si
    → si.reserved ≤ si.on_hand
covered_row pid db si = All-find_row IsCovered (λ s. s.product_id) pid db.stock si

pub reserve_stock-NoOversell :
    (pid : ℕ) (qty : ℤ) (r : Reference) (db : Db)
    → NoOversell db
    → NoOversell (reserve_stock pid qty r db).1
unfolding reserve_stock
reserve_stock-NoOversell pid qty r db h = elim (Option-cases (stock_of pid db)) [
  | inl missing ↦ ground arith
  | inr (si, e) ↦ ground (arith, update-NoOversell pid (add_reserved (pos_part qty)) db si e)
]

pub release_stock-NoOversell :
    (pid : ℕ) (qty : ℤ) (r : Reference) (db : Db)
    → NoOversell db
    → NoOversell (release_stock pid qty r db).1
unfolding release_stock
release_stock-NoOversell pid qty r db h = elim (Option-cases (stock_of pid db)) [
  | inl missing ↦ ground arith
  | inr (si, e) ↦ ground (
    arith,
    covered_row pid db si h e,
    update-NoOversell pid (sub_reserved (pos_part qty)) db si e,
  )
]

pub consume_stock-NoOversell :
    (pid : ℕ) (qty : ℤ) (r : Reference) (db : Db)
    → NoOversell db
    → NoOversell (consume_stock pid qty r db).1
unfolding consume_stock
consume_stock-NoOversell pid qty r db h = elim (Option-cases (stock_of pid db)) [
  | inl missing ↦ ground arith
  | inr (si, e) ↦
      ground
        (arith, covered_row pid db si h e, update-NoOversell pid (sub_both (pos_part qty)) db si e)
]

pub restock-NoOversell :
    (pid : ℕ) (qty : ℤ) (r : Reference) (db : Db)
    → NoOversell db
    → NoOversell (restock pid qty r db).1
unfolding restock
restock-NoOversell pid qty r db h = elim (Option-cases (stock_of pid db)) [
  | inl missing ↦ ground arith
  | inr (si, e) ↦
      ground (
        arith,
        covered_row pid db si h e,
        update-NoOversell pid (add_on_hand (pos_part qty)) db si e,
      )
]

serve-NoOversell : (q : Request) (db : Db) → NoOversell db → NoOversell (serve q db).1
unfolding serve
serve-NoOversell (reserving pid qty r) = reserve_stock-NoOversell pid qty r
serve-NoOversell (releasing pid qty r) = release_stock-NoOversell pid qty r
serve-NoOversell (consuming pid qty r) = consume_stock-NoOversell pid qty r
serve-NoOversell (restocking pid qty r) = restock-NoOversell pid qty r

-- Whatever reservations, releases, consumptions and deliveries are served, in whatever order and
-- with whatever quantities, no row has more reserved than on hand, if none had at the start.
pub serve_all-NoOversell :
    (qs : List Request) (db : Db) → NoOversell db → NoOversell (serve_all qs db)
unfolding serve_all
serve_all-NoOversell [] db h = h
serve_all-NoOversell (q ∷ qs) db h =
    serve_all-NoOversell qs (serve q db).1 (serve-NoOversell q db h)
