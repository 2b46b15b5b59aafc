-- ===== src/Shop/Invariant.antt =====
-- What every sequence of calls of the shop's services keeps.
use mathlib.Core.Path.{subst}
use high_performance_e_comme.Common.{ℕ, ◌≡◌, sym, All, inl, inr, List, [], ◌∷◌, arith, Option-cases}
use high_performance_e_comme.Common.Int.{ℤ}
use high_performance_e_comme.Store.{Db, Reference, IsFramed}
use high_performance_e_comme.Inventory.{
  Line, reserve_stock, release_stock, consume_stock, restock, bulk_reserve, reserving, releasing,
  consuming, restocking, serve,
}
use high_performance_e_comme.Inventory.Bounds.{
  IsCovered, NoOversell, NoOversell-framed, reserve_stock-NoOversell, release_stock-NoOversell,
  consume_stock-NoOversell, restock-NoOversell,
}
use high_performance_e_comme.Inventory.Bulk.{IsDistinct, bulk_reserve-NoOversell}
use high_performance_e_comme.Inventory.Frame.{
  SameTables, SameTables-refl, reserve_stock-SameTables, release_stock-SameTables,
  consume_stock-SameTables, restock-SameTables, bulk_reserve-SameTables,
}
use high_performance_e_comme.Carts.Frame.{
  get_or_create_cart-SameShop, add_item-SameShop, update_item-SameShop, clear_cart-SameShop,
}
use high_performance_e_comme.Carts.Lines.{
  LinesAreApart, add_item-LinesAreApart, update_item-LinesAreApart, clear_cart-LinesAreApart,
  get_or_create_cart-LinesAreApart, LinesAreApart-same,
}
use high_performance_e_comme.Orders.{open_cart, place_order}
use high_performance_e_comme.Orders.Lines.{items_of-IsDistinct}
use high_performance_e_comme.Orders.Keeping.{
  place_order-no_cart, cancel_order-Keeps, place_order-keeps,
}
use high_performance_e_comme.Payments.Keeping.{
  capture_payment-Keeps, refund_payment-Keeps, process_webhook-Keeps, create_intent-Keeps,
}
use high_performance_e_comme.Shop.{
  Command, stocks, bulk_reserves, opens_cart, clears_cart, adds_item, updates_item, places_order,
  cancels_order, creates_intent, captures, refunds, receives, execute, execute_all,
}

-- No stock row is oversold, and no cart lists a product twice.
pub record IsSound (db : Db) : Type 0 where
  pub covered : NoOversell db
  pub apart : LinesAreApart db

IsSound-framed : IsFramed IsSound
IsSound-framed db db' stock lines later h = record {
  covered = NoOversell-framed db db' stock lines later h.covered;
  apart = LinesAreApart-same db db' lines later h.apart;
}

-- A call of the inventory that keeps the stock covered.
inventory-IsSound :
    (db d : Db) → SameTables db d → (NoOversell db → NoOversell d) → IsSound db → IsSound d
inventory-IsSound db d same kept h = record {
  covered = kept h.covered;
  apart = LinesAreApart-same db d same.cart_items (omega arith) h.apart;
}

-- A call of the cart service, which leaves the stock alone.
cart-IsSound :
    (db d : Db) → d.stock ≡ db.stock → (LinesAreApart db → LinesAreApart d) → IsSound db → IsSound d
cart-IsSound db d same kept h = record {
  covered = subst (All IsCovered) (sym same) h.covered;
  apart = kept h.apart;
}

module _ (pid : ℕ) (qty : ℤ) (r : Reference) (db : Db) where
  reserving-IsSound : IsSound db → IsSound (reserve_stock pid qty r db).1
  reserving-IsSound =
      inventory-IsSound db (reserve_stock pid qty r db).1
        (reserve_stock-SameTables db pid qty r db (SameTables-refl db))
        (reserve_stock-NoOversell pid qty r db)

  releasing-IsSound : IsSound db → IsSound (release_stock pid qty r db).1
  releasing-IsSound =
      inventory-IsSound db (release_stock pid qty r db).1
        (release_stock-SameTables db pid qty r db (SameTables-refl db))
        (release_stock-NoOversell pid qty r db)

  consuming-IsSound : IsSound db → IsSound (consume_stock pid qty r db).1
  consuming-IsSound =
      inventory-IsSound db (consume_stock pid qty r db).1
        (consume_stock-SameTables db pid qty r db (SameTables-refl db))
        (consume_stock-NoOversell pid qty r db)

  restocking-IsSound : IsSound db → IsSound (restock pid qty r db).1
  restocking-IsSound =
      inventory-IsSound db (restock pid qty r db).1
        (restock-SameTables db pid qty r db (SameTables-refl db)) (restock-NoOversell pid qty r db)

bulk_reserve-IsSound :
    (items : List Line) (r : Reference) (db : Db)
    → IsDistinct items
    → IsSound db
    → IsSound (bulk_reserve items r db).1
bulk_reserve-IsSound items r db d =
    inventory-IsSound db (bulk_reserve items r db).1
      (bulk_reserve-SameTables db items r db (SameTables-refl db))
      (bulk_reserve-NoOversell items r db d)

place_order-IsSound :
    (customer shipping billing : ℕ) (db : Db)
    → IsSound db
    → IsSound (place_order customer shipping billing db).1
place_order-IsSound customer shipping billing db h = elim (Option-cases (open_cart customer db)) [
  | inl missing ↦
      subst (λ r. IsSound r.1) (sym (place_order-no_cart customer shipping billing db missing)) h
  | inr (cart, e) ↦
      place_order-keeps IsSound IsSound-framed releasing-IsSound bulk_reserve-IsSound customer
        shipping billing db cart e (items_of-IsDistinct cart.id db.cart_items h.apart.1) h
]

-- A direct call of bulk_reserve lists each product once. Nothing is asked of any other call.
abbrev pub ListsOnce : Command → Type 0
ListsOnce (bulk_reserves items r) = IsDistinct items
ListsOnce (stocks q) = Unit
ListsOnce (opens_cart c) = Unit
ListsOnce (clears_cart c) = Unit
ListsOnce (adds_item c pid n) = Unit
ListsOnce (updates_item c i n) = Unit
ListsOnce (places_order c a b) = Unit
ListsOnce (cancels_order o) = Unit
ListsOnce (creates_intent o n) = Unit
ListsOnce (captures i x) = Unit
ListsOnce (refunds i) = Unit
ListsOnce (receives sig p) = Unit

execute-IsSound : (c : Command) (db : Db) → ListsOnce c → IsSound db → IsSound (execute c db)
unfolding execute serve
execute-IsSound (stocks (reserving pid qty r)) db _ = reserving-IsSound pid qty r db
execute-IsSound (stocks (releasing pid qty r)) db _ = releasing-IsSound pid qty r db
execute-IsSound (stocks (consuming pid qty r)) db _ = consuming-IsSound pid qty r db
execute-IsSound (stocks (restocking pid qty r)) db _ = restocking-IsSound pid qty r db
execute-IsSound (bulk_reserves items r) db once = bulk_reserve-IsSound items r db once
execute-IsSound (opens_cart c) db _ =
    cart-IsSound db (execute (opens_cart c) db) (get_or_create_cart-SameShop c db).stock
      (get_or_create_cart-LinesAreApart c db)
execute-IsSound (clears_cart c) db _ =
    cart-IsSound db (execute (clears_cart c) db) (clear_cart-SameShop c db).stock
      (clear_cart-LinesAreApart c db)
execute-IsSound (adds_item c pid n) db _ =
    cart-IsSound db (execute (adds_item c pid n) db) (add_item-SameShop c db pid n).stock
      (add_item-LinesAreApart c pid n db)
execute-IsSound (updates_item c i n) db _ =
    cart-IsSound db (execute (updates_item c i n) db) (update_item-SameShop c db i n).stock
      (update_item-LinesAreApart c i n db)
execute-IsSound (places_order c s b) db _ = place_order-IsSound c s b db
execute-IsSound (cancels_order o) db _ =
    cancel_order-Keeps IsSound IsSound-framed releasing-IsSound bulk_reserve-IsSound o db
execute-IsSound (creates_intent o n) db _ =
    create_intent-Keeps IsSound IsSound-framed consuming-IsSound restocking-IsSound o n db
execute-IsSound (captures i x) db _ =
    capture_payment-Keeps IsSound IsSound-framed consuming-IsSound restocking-IsSound i x db
execute-IsSound (refunds i) db _ =
    refund_payment-Keeps IsSound IsSound-framed consuming-IsSound restocking-IsSound i db
execute-IsSound (receives s p) db _ =
    process_webhook-Keeps IsSound IsSound-framed consuming-IsSound restocking-IsSound s p db

-- Whatever calls of the inventory, the carts, the orders and the payments are made, in whatever
-- order and with whatever arguments, failed ones included, but that a direct call of bulk_reserve
-- lists each product once: if at the start no stock row had more reserved than on hand, no cart
-- listed a product twice, and every line had a key of its own that was given out before, then this
-- is so at the end.
pub execute_all-IsSound :
    (cs : List Command) (db : Db) → All ListsOnce cs → IsSound db → IsSound (execute_all cs db)
unfolding execute_all
execute_all-IsSound [] db once h = h
execute_all-IsSound (c ∷ cs) db once h =
    execute_all-IsSound cs (execute c db) once.1 (execute-IsSound c db once.0 h)
