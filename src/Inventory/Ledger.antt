-- ===== src/Inventory/Ledger.antt =====
-- The movements account for the stock (apps/inventory/services.py): the audit rows written by the
-- operations explain every change of `on_hand` and of `reserved`.
use high_performance_e_comme.Common.{
  ℕ, ◌+◌, ◌≡◌, ◌≢◌, refl, sym, ◌∙◌, inl, inr, some, List, [], ◌∷◌, ◌++◌, map, All, find_row,
  find_row-update_row, arith, ◌==◌, if◌then◌else◌, Option-cases, update_row,
  find_row-update_row_self, find_row-update_row_ne, ==_ne, ==_self, find_row-key,
}
use mathlib.Core.Path.{subst}
use mathlib.Core.List.{append-nil, append_assoc}
use mathlib.Core.Option.{some-injective}
use native.Mathlib.Decide.{ℕ_discrete}
use high_performance_e_comme.Common.Int.{ℤ, pos_part, neg_part, neg}
use high_performance_e_comme.Store.{
  StockItem, StockMovement, MovementKind, inbound, reserve, release, consume, Reference, Db,
}
use high_performance_e_comme.Inventory.Effects.{
  missing_unchanged, reserve_stock-effect, release_stock-effect, consume_stock-effect,
  restock-effect,
}
use high_performance_e_comme.Inventory.{
  stock_of, add_reserved, sub_reserved, sub_both, add_on_hand, reserve_stock, release_stock,
  consume_stock, restock, Request, reserving, releasing, consuming, restocking, serve, Line,
  sorted_lines, movement_of, bulk_reserve, StockCall, of_row, of_rows, serve_call, serve_calls,
}
use high_performance_e_comme.Inventory.Bulk.{Fits, reserve_rows, bulk_reserve-cases}

abbrev pub total : (StockMovement → ℕ) → List StockMovement → ℕ
total w [] = 0
total w (m ∷ ms) = w m + total w ms

total-append_one :
    (w : StockMovement → ℕ) (ms : List StockMovement) (m : StockMovement)
    → total w (ms ++ m ∷ []) ≡ total w ms + w m
total-append_one w [] m = omega arith
total-append_one w (x ∷ ms) m = omega (arith, total-append_one w ms m)

-- What a movement of each kind adds to `on_hand`, takes from it, adds to `reserved` and takes from
-- it.
abbrev pub delivered_by : MovementKind → ℤ → ℕ
delivered_by inbound q = pos_part q
delivered_by _ q = 0

abbrev pub shipped_by : MovementKind → ℤ → ℕ
shipped_by consume q = neg_part q
shipped_by _ q = 0

abbrev pub claimed_by : MovementKind → ℤ → ℕ
claimed_by reserve q = pos_part q
claimed_by _ q = 0

abbrev pub freed_by : MovementKind → ℤ → ℕ
freed_by release q = neg_part q
freed_by consume q = neg_part q
freed_by _ q = 0

-- The same, for the movements of one product.
abbrev pub of_product : (MovementKind → ℤ → ℕ) → ℕ → StockMovement → ℕ
of_product w pid m = if m.stock_item == pid then w m.kind m.quantity else 0

-- The line's product has a row.
abbrev HasRow : List StockItem → Line → Type 0
HasRow rows line = (si : StockItem) × (find_row (λ s. s.product_id) line.0 rows ≡ some si)

HasRow-Fits : (lines : List Line) (db : Db) → All (Fits db) lines → All (HasRow db.stock) lines
HasRow-Fits [] db h = tt
HasRow-Fits (x ∷ xs) db ((si, e, _), h) = ((si, e), HasRow-Fits xs db h)

HasRow-reserved :
    (x : Line) (rows : List StockItem) (ys : List Line)
    → All (HasRow rows) ys
    → All (HasRow (update_row (λ s. s.product_id) x.0 (add_reserved (pos_part x.1)) rows)) ys
HasRow-reserved x rows [] h = tt
HasRow-reserved x rows (y ∷ ys) ((si, e), h) = (
  (
    if y.0 == x.0 then add_reserved (pos_part x.1) si else si,
    find_row-update_row (λ s. s.product_id) y.0 x.0 (add_reserved (pos_part x.1)) rows si
        (λ s. refl) e,
  ),
  HasRow-reserved x rows ys h,
)

-- The totals of the two columns before the first movement.
module _ (opening_on_hand opening_reserved : ℕ → ℕ) where
  abbrev pub RowBalances : ℕ → StockItem → List StockMovement → Type 0
  RowBalances pid si ms =
      (si.on_hand + total (of_product shipped_by pid) ms
        ≡ opening_on_hand pid + total (of_product delivered_by pid) ms)
      × (si.reserved + total (of_product freed_by pid) ms
          ≡ opening_reserved pid + total (of_product claimed_by pid) ms)

  abbrev pub Balances : Db → Type 0
  Balances db =
      (pid : ℕ) (si : StockItem) → stock_of pid db ≡ some si → RowBalances pid si db.movements

  -- One write: a row changes, and one movement of its product is appended.
  module _ (pid : ℕ) (f : StockItem → StockItem) (m : StockMovement) (db db' : Db) (si : StockItem)
      (found : stock_of pid db ≡ some si)
      (same_key : (s : StockItem) → (f s).product_id ≡ s.product_id) (mine : m.stock_item ≡ pid)
      (written : db'.stock ≡ update_row (λ s. s.product_id) pid f db.stock)
      (logged : db'.movements ≡ db.movements ++ m ∷ [])
      (on_hand_moves : (f si).on_hand + shipped_by m.kind m.quantity
        ≡ si.on_hand + delivered_by m.kind m.quantity)
      (reserved_moves : (f si).reserved + freed_by m.kind m.quantity
        ≡ si.reserved + claimed_by m.kind m.quantity) where
    grown :
        (w : MovementKind → ℤ → ℕ) (j : ℕ)
        → total (of_product w j) db'.movements
          ≡ total (of_product w j) db.movements + of_product w j m
    grown w j = rw logged (total-append_one (of_product w j) db.movements m)

    own : (w : MovementKind → ℤ → ℕ) → of_product w pid m ≡ w m.kind m.quantity
    own w = rw mine (rw (==_self pid))

    foreign : (w : MovementKind → ℤ → ℕ) (j : ℕ) → pid ≢ j → of_product w j m ≡ 0
    foreign w j ne = rw mine (rw (==_ne pid j ne))

    row-Balances : Balances db → RowBalances pid (f si) db'.movements
    row-Balances h = omega (
      arith,
      h pid si found,
      grown shipped_by pid,
      grown delivered_by pid,
      grown freed_by pid,
      grown claimed_by pid,
      own shipped_by,
      own delivered_by,
      own freed_by,
      own claimed_by,
    )

    found' : stock_of pid db' ≡ some (f si)
    found' = rw written (
        find_row-update_row_self (λ s. s.product_id) pid f db.stock si found
          (same_key si ∙ find_row-key (λ s. s.product_id) pid db.stock si found))

    others-Balances :
        Balances db
        → (j : ℕ) (sj : StockItem) → pid ≢ j
        → stock_of j db' ≡ some sj
        → RowBalances j sj db'.movements
    others-Balances h j sj ne e =
        let old =
          find_row-update_row_ne (λ s. s.product_id) pid f j db.stock (λ p. ne (sym p)) same_key in
        omega (
          arith,
          h j sj (sym old ∙ (rw written at e)),
          grown shipped_by j,
          grown delivered_by j,
          grown freed_by j,
          grown claimed_by j,
          foreign shipped_by j ne,
          foreign delivered_by j ne,
          foreign freed_by j ne,
          foreign claimed_by j ne,
        )

    write-Balances : Balances db → Balances db'
    write-Balances h j sj e = elim (ℕ_discrete pid j) [
      | yes same ↦
          subst (λ k. stock_of k db' ≡ some sj → RowBalances k sj db'.movements) same
            (λ ek.
              subst (λ s. RowBalances pid s db'.movements)
                (some-injective (f si) sj (sym found' ∙ ek)) (row-Balances h))
            e
      | no ne ↦ others-Balances h j sj ne e
    ]

  reserve_stock-Balances :
      (pid : ℕ) (qty : ℤ) (r : Reference) (db : Db) (si : StockItem)
      → stock_of pid db ≡ some si
      → Balances db
      → Balances (reserve_stock pid qty r db).1
  reserve_stock-Balances pid qty r db si e h = elim (reserve_stock-effect pid qty r db si e) [
    | inl same ↦ subst Balances (sym same) h
    | inr (_, fits, w) ↦
        write-Balances pid (add_reserved (pos_part qty))
          (record { stock_item = pid; kind = reserve; quantity = qty; reference = r }) db
          (reserve_stock pid qty r db).1 si e (λ s. refl) refl w.0 w.1 (ground arith) (ground arith)
          h
  ]

  release_stock-Balances :
      (pid : ℕ) (qty : ℤ) (r : Reference) (db : Db) (si : StockItem)
      → stock_of pid db ≡ some si
      → Balances db
      → Balances (release_stock pid qty r db).1
  release_stock-Balances pid qty r db si e h = elim (release_stock-effect pid qty r db si e) [
    | inl same ↦ subst Balances (sym same) h
    | inr (_, fits, w) ↦
        write-Balances pid (sub_reserved (pos_part qty))
          (record { stock_item = pid; kind = release; quantity = neg qty; reference = r }) db
          (release_stock pid qty r db).1 si e (λ s. refl) refl w.0 w.1 (ground arith) (ground arith)
          h
  ]

  consume_stock-Balances :
      (pid : ℕ) (qty : ℤ) (r : Reference) (db : Db) (si : StockItem)
      → stock_of pid db ≡ some si
      → Balances db
      → Balances (consume_stock pid qty r db).1
  consume_stock-Balances pid qty r db si e h = elim (consume_stock-effect pid qty r db si e) [
    | inl same ↦ subst Balances (sym same) h
    | inr (_, fits, room, w) ↦
        write-Balances pid (sub_both (pos_part qty))
          (record { stock_item = pid; kind = consume; quantity = neg qty; reference = r }) db
          (consume_stock pid qty r db).1 si e (λ s. refl) refl w.0 w.1 (ground arith) (ground arith)
          h
  ]

  restock-Balances :
      (pid : ℕ) (qty : ℤ) (r : Reference) (db : Db) (si : StockItem)
      → stock_of pid db ≡ some si
      → Balances db
      → Balances (restock pid qty r db).1
  restock-Balances pid qty r db si e h = elim (restock-effect pid qty r db si e) [
    | inl same ↦ subst Balances (sym same) h
    | inr (_, w) ↦
        write-Balances pid (add_on_hand (pos_part qty))
          (record { stock_item = pid; kind = inbound; quantity = qty; reference = r }) db
          (restock pid qty r db).1 si e (λ s. refl) refl w.0 w.1 (ground arith) (ground arith) h
  ]

  serve-Balances : (q : Request) (db : Db) → Balances db → Balances (serve q db).1
  unfolding serve
  serve-Balances (reserving pid qty r) db h = elim (Option-cases (stock_of pid db)) [
    | inl missing ↦ subst Balances (sym (missing_unchanged pid qty r db missing).0) h
    | inr (si, e) ↦ reserve_stock-Balances pid qty r db si e h
  ]
  serve-Balances (releasing pid qty r) db h = elim (Option-cases (stock_of pid db)) [
    | inl missing ↦ subst Balances (sym (missing_unchanged pid qty r db missing).1) h
    | inr (si, e) ↦ release_stock-Balances pid qty r db si e h
  ]
  serve-Balances (consuming pid qty r) db h = elim (Option-cases (stock_of pid db)) [
    | inl missing ↦ subst Balances (sym (missing_unchanged pid qty r db missing).2) h
    | inr (si, e) ↦ consume_stock-Balances pid qty r db si e h
  ]
  serve-Balances (restocking pid qty r) db h = elim (Option-cases (stock_of pid db)) [
    | inl missing ↦ subst Balances (sym (missing_unchanged pid qty r db missing).3) h
    | inr (si, e) ↦ restock-Balances pid qty r db si e h
  ]

  -- The lines of a bulk reservation, one after another: each line's row is there, and its movement
  -- comes after those of the lines before.
  reserve_lines-Balances :
      (lines : List Line) (r : Reference) (db : Db)
      → All (HasRow db.stock) lines
      → Balances db
      → Balances (record db {
        stock = reserve_rows lines db.stock;
        movements = db.movements ++ map (movement_of r) lines;
      })
  reserve_lines-Balances [] r db f h =
      subst (λ ms. Balances (record db { movements = ms })) (sym (append-nil db.movements)) h
  reserve_lines-Balances (x ∷ xs) r db ((si, e), f) h =
      let m = movement_of r x in
      let d : Db = record db {
        stock = update_row (λ s. s.product_id) x.0 (add_reserved (pos_part x.1)) db.stock;
        movements = db.movements ++ m ∷ [];
      } in
      let one : Balances d =
        write-Balances x.0 (add_reserved (pos_part x.1)) m db d si e (λ s. refl) refl refl refl
          (ground arith) (ground arith) h in
      let rest = reserve_lines-Balances xs r d (HasRow-reserved x db.stock xs f) one in
      subst (λ ms. Balances (record db { stock = reserve_rows xs d.stock; movements = ms }))
        (append_assoc db.movements (m ∷ []) (map (movement_of r) xs)) rest

  bulk_reserve-Balances :
      (items : List Line) (r : Reference) (db : Db)
      → Balances db
      → Balances (bulk_reserve items r db).1
  unfolding bulk_reserve
  bulk_reserve-Balances [] r db h = h
  bulk_reserve-Balances (x ∷ xs) r db h = elim (bulk_reserve-cases x xs r db) [
    | inl bad ↦ subst (λ res. Balances res.1) (sym bad) h
    | inr (inl short) ↦ subst (λ res. Balances res.1) (sym short) h
    | inr (inr (_, fits, e)) ↦
        subst (λ res. Balances res.1) (sym e)
          (reserve_lines-Balances (sorted_lines (x ∷ xs)) r db
            (HasRow-Fits (sorted_lines (x ∷ xs)) db fits) h)
  ]

  serve_call-Balances : (q : StockCall) (db : Db) → Balances db → Balances (serve_call q db).1
  unfolding serve_call
  serve_call-Balances (of_row q) db = serve-Balances q db
  serve_call-Balances (of_rows items r) db = bulk_reserve-Balances items r db

  -- Through every schedule of calls of the five operations, for every product: what is on hand and
  -- what was consumed make up the opening stock and the deliveries; what is reserved, released and
  -- consumed make up the opening reservations and the reserved units. So the audit rows explain both
  -- columns, whatever a bulk reservation lists.
  pub serve_calls-Balances :
      (qs : List StockCall) (db : Db) → Balances db → Balances (serve_calls qs db)
  unfolding serve_calls
  serve_calls-Balances [] db h = h
  serve_calls-Balances (q ∷ qs) db h =
      serve_calls-Balances qs (serve_call q db).1 (serve_call-Balances q db h)
