-- ===== src/Batch/Reports.antt =====
-- The daily report (apps/tasks/daily_sales_batch.py): the totals of chunks that
-- complete in any order, and what a run and a second run write.
use Prim.Native.String.{String}
use text.Mathlib.TextEquality.{IsScalar-prop}
use mathlib.Core.List.{foldr, foldr-append, Perm, perm_append_comm}
use mathlib.Core.List.Perm
use mathlib.Core.Path.{subst}
use high_performance_e_comme.Common.{
  ℕ, ◌-◌, ◌<◌, ◌≡◌, refl, sym, ap, ◌∙◌, inl, inr, none, some, Bool, true, Bool-cases, ◌⊎◌, List, [],
  ◌∷◌, ◌++◌, map, arith, All, All-perm, All-prop, All-head_append, foldr_comm, Option-cases,
  update_row, find_row-update_row_self, ◌≢◌,
}
use high_performance_e_comme.Batch.{
  Sale, Aggregator, empty_aggregator, merge, merge_all, aggregate_chunk, iter_in_chunks, collect,
  with_slot, process_in_parallel, DailyReport, report_of, report_on, update_or_create,
  sales_of_yesterday, write_report, run_daily_sales, chunk_size,
}
use high_performance_e_comme.Batch.Chunks.{concat, iter_in_chunks-partitions}
use high_performance_e_comme.Batch.Sales.{
  add_sale, totals, totals-perm, HasSku, IsCounted, add_sale-IsCounted, totals-IsCounted,
  aggregate_chunk-totals, merge-totals, Aggregator-set,
}

All-concat {κ} :
    {A : Type 0} (P : A → Type κ) (cs : List (List A)) → All P (concat cs) → All (All P) cs
All-concat P [] h = tt
All-concat P (c ∷ cs) h =
    let (first, rest) = All-head_append P c (concat cs) h in (first, All-concat P cs rest)

find_row-append :
    (date : ℕ) (rs : List DailyReport) (r : DailyReport)
    → report_on date rs ≡ none
    → report_on date (rs ++ r ∷ []) ≡ report_on date (r ∷ [])
find_row-append date [] r h = refl
find_row-append date (q ∷ rs) r h = ground (arith, find_row-append date rs r)

find_row-append_ne :
    (date : ℕ) (rs : List DailyReport) (r : DailyReport)
    → date ≢ r.date
    → report_on date (rs ++ r ∷ []) ≡ report_on date rs
find_row-append_ne date [] r h = ground arith
find_row-append_ne date (q ∷ rs) r h = ground (arith, find_row-append_ne date rs r)

find_row-replace :
    (date : ℕ) (r : DailyReport) (rs : List DailyReport)
    → date ≢ r.date
    → report_on date (update_row (λ (q : DailyReport). q.date) r.date (λ _. r) rs)
      ≡ report_on date rs
find_row-replace date r [] ne = refl
find_row-replace date r (q ∷ rs) ne = ground (arith, find_row-replace date r rs ne)

-- `update_or_create` writes the report of its date, and no other.
update_or_create-writes :
    (r : DailyReport) (rs : List DailyReport)
    → (report_on r.date (update_or_create r (report_on r.date rs) rs) ≡ some r)
      × ((date : ℕ)
          → date ≢ r.date
          → report_on date (update_or_create r (report_on r.date rs) rs) ≡ report_on date rs)
update_or_create-writes r rs = elim (Option-cases (report_on r.date rs)) [
  | inl missing ↦ rw missing (
    find_row-append r.date rs r missing ∙ ground arith,
    λ date ne. find_row-append_ne date rs r ne,
  )
  | inr (old, e) ↦ rw e (
    find_row-update_row_self (λ q. q.date) r.date (λ _. r) rs old e refl,
    λ date ne. find_row-replace date r rs ne,
  )
]

-- The worker of a chunk gets its slot.
abbrev pub HasSlot : (List Sale → Bool) → List Sale → Type 0
HasSlot gets_slot chunk = gets_slot chunk ≡ true

HasSlot-prop : (gets_slot : List Sale → Bool) (c : List Sale) → IsProp (HasSlot gets_slot c)
HasSlot-prop gets_slot c = hlevel

collect-cases :
    (gets_slot : List Sale → Bool) (cs : List (List Sale))
    → (All (HasSlot gets_slot) cs
        × (collect (map (with_slot gets_slot aggregate_chunk) cs) ≡ some (map aggregate_chunk cs)))
      ⊎ ((¬ All (HasSlot gets_slot) cs)
          × (collect (map (with_slot gets_slot aggregate_chunk) cs) ≡ none))
unfolding collect
collect-cases gets_slot [] = inl (tt, refl)
collect-cases gets_slot (c ∷ cs) = elim (Bool-cases (gets_slot c)) [
  | inr refused ↦ inr (λ all. cc, rw refused refl)
  | inl gets ↦ elim (collect-cases gets_slot cs) [
    | inl (all, e) ↦ inl ((gets, all), rw gets (rw e refl))
    | inr (some_refused, e) ↦ inr (λ all. some_refused all.1, rw gets (rw e refl))
  ]
]

module _ (sku_of : ℕ → String) where
  -- A chunk's sales more.
  abbrev add_chunk : List Sale → Aggregator → Aggregator
  add_chunk c a = foldr (add_sale sku_of) a c

  add_chunk_comm :
      (c d : List Sale) (a : Aggregator) → add_chunk c (add_chunk d a) ≡ add_chunk d (add_chunk c a)
  add_chunk_comm c d a =
      sym (foldr-append (add_sale sku_of) a c d)
      ∙ totals-perm sku_of a (perm_append_comm c d)
      ∙ foldr-append (add_sale sku_of) a d c

  add_chunks-concat :
      (cs : List (List Sale)) → foldr add_chunk empty_aggregator cs ≡ totals sku_of (concat cs)
  add_chunks-concat [] = refl
  add_chunks-concat (c ∷ cs) =
      ap (add_chunk c) (add_chunks-concat cs)
      ∙ sym (foldr-append (add_sale sku_of) empty_aggregator c (concat cs))

  add_chunk-IsCounted :
      (c : List Sale) (a : Aggregator) → IsCounted sku_of a → IsCounted sku_of (add_chunk c a)
  add_chunk-IsCounted [] a h = h
  add_chunk-IsCounted (s ∷ c) a h =
      add_sale-IsCounted sku_of s (add_chunk c a) (add_chunk-IsCounted c a h)

  merge_all-chunks :
      (a : Aggregator) (cs : List (List Sale))
      → IsCounted sku_of a
      → All (All (HasSku sku_of)) cs
      → merge_all a (map aggregate_chunk cs) ≡ foldr add_chunk a cs
  unfolding merge_all
  merge_all-chunks a [] k h = refl
  merge_all-chunks a (c ∷ cs) k (p, h) =
      ap (λ r. merge_all (merge a r) (map aggregate_chunk cs)) (aggregate_chunk-totals sku_of c p)
      ∙ ap (λ r. merge_all r (map aggregate_chunk cs)) (merge-totals sku_of a c k)
      ∙ merge_all-chunks (add_chunk c a) cs (add_chunk-IsCounted c a k) h
      ∙ foldr_comm add_chunk add_chunk_comm c a cs

  HasSku-prop : (s : Sale) → IsProp (HasSku sku_of s)
  HasSku-prop s = hlevel IsScalar-prop

  -- The aggregates of the chunks, merged in the order in which the threads complete them, are the
  -- totals of all the rows, taken one at a time: the number of their distinct orders, their revenue,
  -- their units, and the units and the revenue of each product. In exact cents neither the size of
  -- the chunks nor the order matters, if the sales of one product carry one SKU and the worker of every chunk
  -- gets a slot. If one gets none, the call raises.
  pub merge_all-totals :
      (as_completed : List (List Sale) → List (List Sale)) (gets_slot : List Sale → Bool) (size : ℕ)
      (rows : List Sale)
      → ((cs : List (List Sale)) → Perm (as_completed cs) cs)
      → 0 < size
      → All (HasSku sku_of) rows
      → (All (HasSlot gets_slot) (iter_in_chunks size rows)
          × ((results : List Aggregator) × (process_in_parallel as_completed gets_slot
                  aggregate_chunk size rows
                ≡ some results)
              × (merge_all empty_aggregator results ≡ totals sku_of rows)))
        ⊎ ((¬ All (HasSlot gets_slot) (iter_in_chunks size rows))
            × (process_in_parallel as_completed gets_slot aggregate_chunk size rows ≡ none))
  unfolding process_in_parallel
  merge_all-totals as_completed gets_slot size rows shuffles positive skus =
      let cs = iter_in_chunks size rows in
      let (same, _) = iter_in_chunks-partitions size rows positive in
      let each = All-concat (HasSku sku_of) cs (subst (All (HasSku sku_of)) (sym same) skus) in
      let shuffled =
        All-perm (All (HasSku sku_of)) (All-prop (HasSku sku_of) HasSku-prop)
          (Perm.symm (shuffles cs)) each in
      let merged =
        merge_all-chunks empty_aggregator (as_completed cs) (totals-IsCounted sku_of []) shuffled
        ∙ Perm.foldr-eq Aggregator-set add_chunk add_chunk_comm (shuffles cs) empty_aggregator
        ∙ add_chunks-concat cs
        ∙ ap (totals sku_of) same in
      elim (collect-cases gets_slot (as_completed cs)) [
        | inl (all, e) ↦ inl (
          All-perm (HasSlot gets_slot) (HasSlot-prop gets_slot) (shuffles cs) all,
          (map aggregate_chunk (as_completed cs), e, merged),
        )
        | inr (refused, e) ↦ inr (
          λ all.
              refused (
                All-perm (HasSlot gets_slot) (HasSlot-prop gets_slot) (Perm.symm (shuffles cs))
                  all),
          e,
        )
      ]

  -- A run on a day with sales, in which every chunk's worker gets a slot, leaves the report of
  -- yesterday with the totals of yesterday's paid, shipped and delivered sales, whether there was
  -- one before, and the reports of other days as they were. If a worker gets none, the run raises.
  pub run_daily_sales-report :
      (as_completed : List (List Sale) → List (List Sale)) (gets_slot : List Sale → Bool)
      (today : ℕ) (rows : List Sale) (reports : List DailyReport) (s : Sale) (ss : List Sale)
      → ((cs : List (List Sale)) → Perm (as_completed cs) cs)
      → sales_of_yesterday today rows ≡ s ∷ ss
      → All (HasSku sku_of) (s ∷ ss)
      → (All (HasSlot gets_slot) (iter_in_chunks chunk_size (s ∷ ss))
          × ((written : List DailyReport) × (run_daily_sales as_completed gets_slot today rows
                  reports
                ≡ some written)
              × (report_on (today - 1) written
                  ≡ some (report_of (today - 1) (totals sku_of (s ∷ ss))))
              × ((date : ℕ) → date ≢ today - 1 → report_on date written ≡ report_on date reports)))
        ⊎ ((¬ All (HasSlot gets_slot) (iter_in_chunks chunk_size (s ∷ ss)))
            × (run_daily_sales as_completed gets_slot today rows reports ≡ none))
  unfolding run_daily_sales
  run_daily_sales-report as_completed gets_slot today rows reports s ss shuffles sold skus =
      elim (merge_all-totals as_completed gets_slot chunk_size (s ∷ ss) shuffles (omega arith)
        skus) [
          | inl (all, (results, e, same)) ↦
              let r = report_of (today - 1) (totals sku_of (s ∷ ss)) in
              let (here, others) = update_or_create-writes r reports in
              inl (
                all,
                (
                  update_or_create r (report_on (today - 1) reports) reports,
                  rw (sold, write_report) (rw e (rw same refl)),
                  here,
                  others,
                ),
              )
          | inr (refused, e) ↦ inr (refused, rw (sold, write_report) (rw e refl))
        ]
