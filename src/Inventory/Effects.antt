-- ===== src/Inventory/Effects.antt =====
-- What one inventory call does (apps/inventory/services.py): nothing, or one row update and one
-- movement, under the conditions that the code tests.
use high_performance_e_comme.Common.{
  ℕ, ◌+◌, ◌≤◌, ◌≡◌, ◌⊎◌, none, some, [], ◌∷◌, ◌++◌, arith, update_row,
}
use high_performance_e_comme.Common.Int.{ℤ, pos, pos_part, neg}
use high_performance_e_comme.Store.{
  StockItem, MovementKind, inbound, reserve, release, consume, Reference, Db,
}
use high_performance_e_comme.Inventory.{
  stock_of, add_reserved, sub_reserved, sub_both, add_on_hand, reserve_stock, release_stock,
  consume_stock, restock,
}

-- The two writes of a call: the row, and the audit row.
abbrev pub Writes : ℕ → (StockItem → StockItem) → MovementKind → ℤ → Reference → Db → Db → Type 0
Writes pid f kind quantity r db db' =
    (db'.stock ≡ update_row (λ s. s.product_id) pid f db.stock)
    × (db'.movements
        ≡ db.movements
          ++ record { stock_item = pid; kind = kind; quantity = quantity; reference = r } ∷ [])

module _ (pid : ℕ) (qty : ℤ) (r : Reference) (db : Db) where
  pub missing_unchanged :
      stock_of pid db ≡ none
      → ((reserve_stock pid qty r db).1 ≡ db)
        × ((release_stock pid qty r db).1 ≡ db)
        × ((consume_stock pid qty r db).1 ≡ db)
        × ((restock pid qty r db).1 ≡ db)
  unfolding reserve_stock release_stock consume_stock restock
  missing_unchanged h = (ground arith, ground arith, ground arith, ground arith)

  module _ (si : StockItem) (found : stock_of pid db ≡ some si) where
    pub reserve_stock-effect :
        ((reserve_stock pid qty r db).1 ≡ db)
        ⊎ (qty ≡ pos (pos_part qty))
          × (si.reserved + pos_part qty ≤ si.on_hand)
          × Writes pid (add_reserved (pos_part qty)) reserve qty r db (reserve_stock pid qty r db).1
    unfolding reserve_stock
    reserve_stock-effect = ground arith

    pub release_stock-effect :
        ((release_stock pid qty r db).1 ≡ db)
        ⊎ (qty ≡ pos (pos_part qty))
          × (pos_part qty ≤ si.reserved)
          × Writes pid
              (sub_reserved (pos_part qty))
              release
              (neg qty)
              r
              db
              (release_stock pid qty r db).1
    unfolding release_stock
    release_stock-effect = ground arith

    pub consume_stock-effect :
        ((consume_stock pid qty r db).1 ≡ db)
        ⊎ (qty ≡ pos (pos_part qty))
          × (pos_part qty ≤ si.reserved)
          × (pos_part qty ≤ si.on_hand)
          × Writes pid
              (sub_both (pos_part qty))
              consume
              (neg qty)
              r
              db
              (consume_stock pid qty r db).1
    unfolding consume_stock
    consume_stock-effect = ground arith

    pub restock-effect :
        ((restock pid qty r db).1 ≡ db)
        ⊎ (qty ≡ pos (pos_part qty))
          × Writes pid (add_on_hand (pos_part qty)) inbound qty r db (restock pid qty r db).1
    unfolding restock
    restock-effect = ground arith
