-- ===== src/Inventory.antt =====
-- apps/inventory/services.py. A `FOR UPDATE` lock is held to the end of the transaction, so calls on
-- one row run one after another: a call is one function of the database.
pub mod Bounds
pub mod Bulk
pub mod Effects
pub mod Frame
pub mod Ledger
pub mod Sorting
use high_performance_e_comme.Common.{
  ℕ, ◌+◌, ◌-◌, ◌||◌, Option, List, [], ◌∷◌, ◌++◌, map, leb, if◌then◌else◌, find_row, update_row,
}
use high_performance_e_comme.Common.Int.{ℤ, pos, pos_part, sub_ℕ, neg, ltb_ℤ, leb_ℤ}
use high_performance_e_comme.Store.{
  StockItem, StockMovement, MovementKind, inbound, reserve, release, consume, Reference,
  send_low_stock_alert, Db, not_enough_stock, invalid_quantity, does_not_exist, Action, Done, pure,
  gets, or_raise, atomic, ◌>>=◌, ◌>>◌, raise_if, modify, for_each,
}

-- `StockItem.available`: on_hand - reserved, a signed number.
abbrev pub available : StockItem → ℤ
available si = sub_ℕ si.on_hand si.reserved

abbrev pub stock_of : ℕ → Db → Option StockItem
stock_of pid db = find_row (λ s. s.product_id) pid db.stock

-- `_check_qty`
pub check_qty : ℤ → Action Done
check_qty qty = raise_if (leb_ℤ qty (pos 0)) invalid_quantity

-- `_lock_one`
pub lock_one : ℕ → Action StockItem
lock_one pid = gets (stock_of pid) >>= or_raise does_not_exist

-- `StockItem.objects.filter(pk=...).update(...)`
abbrev pub update_stock : ℕ → (StockItem → StockItem) → Action Done
update_stock pid f =
    modify λ db. record db { stock = update_row (λ s. s.product_id) pid f db.stock }

-- `StockMovement.objects.create(...)`
abbrev pub create_movement : ℕ → MovementKind → ℤ → Reference → Action Done
create_movement pid kind quantity reference = modify λ db. record db {
  movements =
      db.movements
      ++ record { stock_item = pid; kind = kind; quantity = quantity; reference = reference } ∷ [];
}

-- `_alert_if_low`
pub alert_if_low : StockItem → Action Done
alert_if_low si = modify λ db. record db {
  tasks =
      if leb_ℤ (available si) (pos si.reorder_threshold)
      then db.tasks ++ send_low_stock_alert si.product_id ∷ []
      else db.tasks;
}

-- The four `update(...)`s. Where a number is subtracted the caller has tested that it is covered.
abbrev pub add_reserved : ℕ → StockItem → StockItem
add_reserved q s = record s { reserved = s.reserved + q; version = s.version + 1 }

abbrev pub sub_reserved : ℕ → StockItem → StockItem
sub_reserved q s = record s { reserved = s.reserved - q; version = s.version + 1 }

abbrev pub sub_both : ℕ → StockItem → StockItem
sub_both q s = record s {
  reserved = s.reserved - q;
  on_hand = s.on_hand - q;
  version = s.version + 1;
}

abbrev pub add_on_hand : ℕ → StockItem → StockItem
add_on_hand q s = record s { on_hand = s.on_hand + q; version = s.version + 1 }

pub reserve_stock : ℕ → ℤ → Reference → Action Done
unfolding check_qty lock_one alert_if_low
reserve_stock pid qty reference = atomic do
  check_qty qty
  si ← lock_one pid
  raise_if (ltb_ℤ (available si) qty) not_enough_stock
  update_stock pid (add_reserved (pos_part qty))
  create_movement pid reserve qty reference
  alert_if_low (record si { reserved = si.reserved + pos_part qty })

pub release_stock : ℕ → ℤ → Reference → Action Done
unfolding check_qty lock_one
release_stock pid qty reference = atomic do
  check_qty qty
  si ← lock_one pid
  raise_if (ltb_ℤ (pos si.reserved) qty) invalid_quantity
  update_stock pid (sub_reserved (pos_part qty))
  create_movement pid release (neg qty) reference

unfoldable pub consume_stock : ℕ → ℤ → Reference → Action Done
unfolding check_qty lock_one alert_if_low
consume_stock pid qty reference = atomic do
  check_qty qty
  si ← lock_one pid
  raise_if (ltb_ℤ (pos si.reserved) qty || ltb_ℤ (pos si.on_hand) qty) invalid_quantity
  update_stock pid (sub_both (pos_part qty))
  create_movement pid consume (neg qty) reference
  alert_if_low
      (record si { on_hand = si.on_hand - pos_part qty; reserved = si.reserved - pos_part qty })

unfoldable pub restock : ℕ → ℤ → Reference → Action Done
unfolding check_qty lock_one
restock pid qty reference = atomic do
  check_qty qty
  lock_one pid
  update_stock pid (add_on_hand (pos_part qty))
  create_movement pid inbound qty reference

-- One line of a bulk reservation: a product and a quantity.
abbrev pub Line : Type 0
Line = ℕ × ℤ

pub insert_line : Line → List Line → List Line
insert_line x [] = x ∷ []
insert_line x (y ∷ ys) = if leb x.0 y.0 then x ∷ y ∷ ys else y ∷ insert_line x ys

-- `sorted(items, key=lambda x: x[0])`, stable as Python's is.
pub sorted_lines : List Line → List Line
unfolding insert_line
sorted_lines [] = []
sorted_lines (x ∷ xs) = insert_line x (sorted_lines xs)

-- Step 3 for one line. Nothing is written before the last line is validated, so the row is the one
-- that was locked.
pub validate_line : Line → Action Done
validate_line (pid, qty) = do
  si ← gets (stock_of pid) >>= or_raise not_enough_stock
  raise_if (ltb_ℤ (available si) qty) not_enough_stock

-- Step 4 for one line: the update.
abbrev pub apply_line : Line → Action Done
apply_line (pid, qty) = update_stock pid (add_reserved (pos_part qty))

abbrev pub movement_of : Reference → Line → StockMovement
movement_of reference (pid, qty) = record {
  stock_item = pid;
  kind = reserve;
  quantity = qty;
  reference = reference;
}

pub bulk_reserve : List Line → Reference → Action Done
unfolding check_qty sorted_lines validate_line
bulk_reserve [] reference = pure tt
bulk_reserve (item ∷ items) reference = atomic do
  for_each (λ line. check_qty line.1) (item ∷ items)
  let lines = sorted_lines (item ∷ items)
  for_each validate_line lines
  for_each apply_line lines
  modify λ db. record db { movements = db.movements ++ map (movement_of reference) lines }

-- A call of one of the four operations on one row, and a schedule of them. The row locks make the calls of concurrent
-- requests take effect one after another, in some order; a call that raises is answered and
-- forgotten.
pub data Request : Type 0 where
  reserving releasing consuming restocking : ℕ → ℤ → Reference → Request

unfoldable pub serve : Request → Action Done
serve (reserving pid qty r) = reserve_stock pid qty r
serve (releasing pid qty r) = release_stock pid qty r
serve (consuming pid qty r) = consume_stock pid qty r
serve (restocking pid qty r) = restock pid qty r

pub serve_all : List Request → Db → Db
serve_all [] db = db
serve_all (q ∷ qs) db = serve_all qs (serve q db).1

-- A call of any of the five operations, and a schedule of them.
pub data StockCall : Type 0 where
  of_row : Request → StockCall
  of_rows : List Line → Reference → StockCall

unfoldable pub serve_call : StockCall → Action Done
serve_call (of_row q) = serve q
serve_call (of_rows items r) = bulk_reserve items r

pub serve_calls : List StockCall → Db → Db
serve_calls [] db = db
serve_calls (q ∷ qs) db = serve_calls qs (serve_call q db).1
