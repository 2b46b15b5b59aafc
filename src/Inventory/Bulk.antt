-- ===== src/Inventory/Bulk.antt =====
-- `bulk_reserve` (apps/inventory/services.py): when it succeeds, what it writes, and what the test
-- of each line on its own misses.
use mathlib.Core.Path.{subst}
use high_performance_e_comme.Common.{
  ℕ, ◌+◌, ◌*◌, ◌≤◌, ◌<◌, ◌≡◌, ◌≢◌, refl, sym, ◌∙◌, ◌⊎◌, inl, inr, some, List, [], ◌∷◌, ◌++◌, map,
  arith, leb, All, Bool-cases, Option-cases, find_row, update_row, find_row-update_row_ne,
  find_row-update_row_self, find_row-key, All-update_row_found,
}
use high_performance_e_comme.Common.Int.{pos, pos_part, ltb_ℤ}
use high_performance_e_comme.Store.{
  StockItem, Reference, Db, ok, err, not_enough_stock, invalid_quantity, for_each,
}
use high_performance_e_comme.Inventory.{
  available, stock_of, check_qty, add_reserved, Line, insert_line, sorted_lines, validate_line,
  apply_line, movement_of, bulk_reserve,
}
use high_performance_e_comme.Inventory.Bounds.{IsCovered, NoOversell}

-- The line's quantity is positive, and its row has as many units available.
abbrev pub IsPositive : Line → Type 0
IsPositive line = 0 < pos_part line.1

abbrev pub FitsIn : List StockItem → Line → Type 0
FitsIn rows line =
    (si : StockItem) × (find_row (λ s. s.product_id) line.0 rows ≡ some si)
    × (si.reserved + pos_part line.1 ≤ si.on_hand)

abbrev pub Fits : Db → Line → Type 0
Fits db = FitsIn db.stock

-- No product is listed twice.
abbrev pub IsDistinct : List Line → Type 0
IsDistinct [] = Unit
IsDistinct (x ∷ xs) = All (λ (y : Line). x.0 ≢ y.0) xs × IsDistinct xs

check_every-cases :
    (lines : List Line) (db : Db)
    → All IsPositive lines × (for_each (λ line. check_qty line.1) lines db ≡ (ok tt, db))
      ⊎ (for_each (λ line. check_qty line.1) lines db ≡ (err invalid_quantity, db))
unfolding check_qty
check_every-cases [] db = inl (tt, refl)
check_every-cases (line ∷ lines) db = ground (arith, check_every-cases lines db)

validate_line-cases :
    (line : Line) (db : Db)
    → IsPositive line
    → Fits db line × (validate_line line db ≡ (ok tt, db))
      ⊎ (validate_line line db ≡ (err not_enough_stock, db))
unfolding validate_line
validate_line-cases line db p = elim (Option-cases (stock_of line.0 db)) [
  | inl missing ↦ inr (ground arith)
  | inr (si, e) ↦ elim (Bool-cases (ltb_ℤ (available si) line.1)) [
    | inl short ↦ inr (ground arith)
    | inr room ↦ inl ((si, e, ground arith), ground arith)
  ]
]

validate_every-cases :
    (lines : List Line) (db : Db)
    → All IsPositive lines
    → All (Fits db) lines × (for_each validate_line lines db ≡ (ok tt, db))
      ⊎ (for_each validate_line lines db ≡ (err not_enough_stock, db))
validate_every-cases [] db h = inl (tt, refl)
validate_every-cases (line ∷ lines) db (p, h) = elim (validate_line-cases line db p) [
  | inr short ↦ inr (rw short refl)
  | inl (fits, e) ↦ elim (validate_every-cases lines db h) [
    | inl (rest, es) ↦ inl ((fits, rest), rw e es)
    | inr short ↦ inr (rw e short)
  ]
]

-- The rows after every line has been applied.
abbrev pub reserve_rows : List Line → List StockItem → List StockItem
reserve_rows [] rows = rows
reserve_rows (line ∷ lines) rows =
    reserve_rows lines (update_row (λ s. s.product_id) line.0 (add_reserved (pos_part line.1)) rows)

apply_all_lem :
    (lines : List Line) (db : Db)
    → for_each apply_line lines db ≡ (ok tt, record db { stock = reserve_rows lines db.stock })
apply_all_lem [] db = refl
apply_all_lem (line ∷ lines) db = apply_all_lem lines _

insert_line-All :
    (P : Line → Type 0) (x : Line) (ys : List Line) → P x → All P ys → All P (insert_line x ys)
unfolding insert_line
insert_line-All P x [] p h = (p, tt)
insert_line-All P x (y ∷ ys) p (q, h) = elim (Bool-cases (leb x.0 y.0)) [
  | inl first ↦ rw first (p, (q, h))
  | inr later ↦ rw later (q, insert_line-All P x ys p h)
]

insert_line-IsDistinct :
    (x : Line) (ys : List Line)
    → All (λ (y : Line). x.0 ≢ y.0) ys
    → IsDistinct ys
    → IsDistinct (insert_line x ys)
unfolding insert_line
insert_line-IsDistinct x [] new d = (tt, tt)
insert_line-IsDistinct x (y ∷ ys) (ne, new) (apart, d) = elim (Bool-cases (leb x.0 y.0)) [
  | inl first ↦ rw first ((ne, new), (apart, d))
  | inr later ↦ rw later (
    insert_line-All (λ (z : Line). y.0 ≢ z.0) x ys (λ p. ne (sym p)) apart,
    insert_line-IsDistinct x ys new d,
  )
]

sorted_lines-All : (P : Line → Type 0) (xs : List Line) → All P xs → All P (sorted_lines xs)
unfolding sorted_lines
sorted_lines-All P [] h = tt
sorted_lines-All P (x ∷ xs) (p, h) =
    insert_line-All P x (sorted_lines xs) p (sorted_lines-All P xs h)

sorted_lines-IsDistinct : (xs : List Line) → IsDistinct xs → IsDistinct (sorted_lines xs)
unfolding sorted_lines
sorted_lines-IsDistinct [] d = tt
sorted_lines-IsDistinct (x ∷ xs) (new, d) =
    insert_line-IsDistinct x (sorted_lines xs) (sorted_lines-All (λ (y : Line). x.0 ≢ y.0) xs new)
      (sorted_lines-IsDistinct xs d)

-- A call ends in one of three ways, and writes only in the last.
pub bulk_reserve-cases :
    (item : Line) (items : List Line) (r : Reference) (db : Db)
    → let lines = sorted_lines (item ∷ items) in
      (bulk_reserve (item ∷ items) r db ≡ (err invalid_quantity, db))
      ⊎ (bulk_reserve (item ∷ items) r db ≡ (err not_enough_stock, db))
      ⊎ All IsPositive lines
        × All (Fits db) lines
        × (bulk_reserve (item ∷ items) r db ≡ (
          ok tt,
          record db {
            stock = reserve_rows lines db.stock;
            movements = db.movements ++ map (movement_of r) lines;
          },
        ))
unfolding bulk_reserve
bulk_reserve-cases item items r db = elim (check_every-cases (item ∷ items) db) [
  | inr bad ↦ inl (rw bad refl)
  | inl (positive, e) ↦
      let lines = sorted_lines (item ∷ items) in
      let ps = sorted_lines-All IsPositive (item ∷ items) positive in
      elim (validate_every-cases lines db ps) [
        | inr short ↦ inr (inl (rw e (rw short refl)))
        | inl (fits, ok_all) ↦
            inr (inr (ps, fits, rw e (rw ok_all (rw (apply_all_lem lines db) refl))))
      ]
]

-- Applying a line leaves the other products' rows alone, so the lines after it fit as before.
FitsIn-apply :
    (x : Line) (ys : List Line) (rows : List StockItem)
    → All (λ (y : Line). x.0 ≢ y.0) ys
    → All (FitsIn rows) ys
    → All (FitsIn (update_row (λ s. s.product_id) x.0 (add_reserved (pos_part x.1)) rows)) ys
FitsIn-apply x [] rows new h = tt
FitsIn-apply x (y ∷ ys) rows (ne, new) ((si, e, fits), h) = (
  (
    si,
    find_row-update_row_ne (λ s. s.product_id) x.0 (add_reserved (pos_part x.1)) y.0 rows
          (λ p. ne (sym p)) (λ r. refl)
        ∙ e,
    fits,
  ),
  FitsIn-apply x ys rows new h,
)

reserve_rows-IsCovered :
    (lines : List Line) (rows : List StockItem)
    → IsDistinct lines
    → All (FitsIn rows) lines
    → All IsCovered rows
    → All IsCovered (reserve_rows lines rows)
reserve_rows-IsCovered [] rows d f h = h
reserve_rows-IsCovered (x ∷ xs) rows (new, d) ((si, e, fits), f) h =
    reserve_rows-IsCovered xs _ d (FitsIn-apply x xs rows new f) (
      All-update_row_found (λ s. s.product_id) x.0 (add_reserved (pos_part x.1)) IsCovered rows si e
        fits h)

-- A bulk reservation of distinct products never oversells, whatever it answers.
pub bulk_reserve-NoOversell :
    (items : List Line) (r : Reference) (db : Db)
    → IsDistinct items
    → NoOversell db
    → NoOversell (bulk_reserve items r db).1
unfolding bulk_reserve
bulk_reserve-NoOversell [] r db d h = h
bulk_reserve-NoOversell (item ∷ items) r db d h = elim (bulk_reserve-cases item items r db) [
  | inl bad ↦ subst (λ res. NoOversell res.1) (sym bad) h
  | inr (inl short) ↦ subst (λ res. NoOversell res.1) (sym short) h
  | inr (inr (_, fits, e)) ↦
      subst (λ res. NoOversell res.1) (sym e)
        (reserve_rows-IsCovered (sorted_lines (item ∷ items)) db.stock
          (sorted_lines-IsDistinct (item ∷ items) d) fits h)
]

-- A product listed twice is tested twice against the same row. If its units cover one line but not
-- both, the call succeeds and leaves the row with more reserved than on hand.
pub bulk_reserve-double_booking :
    (pid q : ℕ) (r : Reference) (db : Db) (si : StockItem)
    → 0 < q
    → stock_of pid db ≡ some si
    → si.reserved + q ≤ si.on_hand
    → si.on_hand < si.reserved + 2 * q
    → let (res, db') = bulk_reserve ((pid, pos q) ∷ (pid, pos q) ∷ []) r db in
      (res ≡ ok tt)
      × ((si' : StockItem) × (stock_of pid db' ≡ some si') × (si'.on_hand < si'.reserved))
unfolding bulk_reserve sorted_lines insert_line check_qty validate_line
bulk_reserve-double_booking pid q r db si p e fits short =
    let key = find_row-key (λ s. s.product_id) pid db.stock si e in
    let once =
      find_row-update_row_self (λ s. s.product_id) pid (add_reserved q) db.stock si e key in
    let twice =
      find_row-update_row_self (λ s. s.product_id) pid (add_reserved q)
        (update_row (λ s. s.product_id) pid (add_reserved q) db.stock) (add_reserved q si) once
        key in
    (ground arith, (add_reserved q (add_reserved q si), ground arith, omega arith))
