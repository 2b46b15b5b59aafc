-- ===== src/Batch.antt =====
-- core/batch/chunked.py and apps/tasks/daily_sales_batch.py: rows in chunks, the totals of a chunk,
-- and the daily report. Money is counted in cents, exactly, where the code adds floats.
pub mod Chunks
pub mod Sales
pub mod Reports
use Prim.Native.String.{String}
use text.Mathlib.Text.{◌==◌ as str_eq}
use high_performance_e_comme.Common.{
  ℕ, zero, suc, ◌+◌, ◌*◌, ◌-◌, Bool, true, false, ◌&&◌, Option, none, some, List, [], ◌∷◌, ◌++◌,
  map, ltb, leb, ◌==◌, if◌then◌else◌, length, select, find_row, update_row,
}
use high_performance_e_comme.Store.{OrderStatus, paid, shipped, delivered, pending, cancelled}

module _ {A : Type 0} where
  -- The loop of `iter_in_chunks`, from the chunk that is being filled.
  pub chunks_from : ℕ → List A → List A → List (List A)
  chunks_from size [] [] = []
  chunks_from size (x ∷ chunk) [] = (x ∷ chunk) ∷ []
  chunks_from size chunk (row ∷ rows) =
      let filled = chunk ++ row ∷ [] in
      elim (leb size (length filled)) [
        | true ↦ filled ∷ chunks_from size [] rows
        | false ↦ chunks_from size filled rows
      ]

  -- `iter_in_chunks(queryset, chunk_size)`
  pub iter_in_chunks : ℕ → List A → List (List A)
  unfolding chunks_from
  iter_in_chunks size = chunks_from size []

abbrev pub add_result : {R : Type 0} → R → Option (List R) → Option (List R)
add_result r none = none
add_result r (some rs) = some (r ∷ rs)

-- The loop over the futures. The first exception is raised again.
pub collect : {R : Type 0} → List (Option R) → Option (List R)
collect [] = some []
collect (none ∷ rs) = none
collect (some r ∷ rs) = add_result r (collect rs)

-- `_run_with_slot`: a worker that gets no slot of the pool in time raises.
abbrev pub with_slot : {A R : Type 0} → (List A → Bool) → (List A → R) → List A → Option R
with_slot gets_slot handler chunk = if gets_slot chunk then some (handler chunk) else none

-- `process_in_parallel`: one result for each chunk, as the futures complete. Which future completes
-- when is up to the threads, and so is which worker gets a slot.
pub process_in_parallel :
    {A R : Type 0}
    → (List (List A) → List (List A))
    → (List A → Bool)
    → (List A → R)
    → ℕ
    → List A
    → Option (List R)
unfolding iter_in_chunks collect
process_in_parallel as_completed gets_slot handler size rows =
    collect (map (with_slot gets_slot handler) (as_completed (iter_in_chunks size rows)))

-- A row of the queryset: an order item, with what is read of its order.
pub record Sale : Type 0 where
  pub order_id : ℕ
  pub product_id : ℕ
  pub product_sku : String
  pub quantity : ℕ
  pub line_total : ℕ
  pub placed_at : ℕ
  pub status : OrderStatus

-- `by_product[pid]`
pub record Entry : Type 0 where
  pub quantity : ℕ
  pub revenue : ℕ
  pub sku : String

-- `DailySalesAggregator`. A set of order ids is the increasing list of its elements.
pub record Aggregator : Type 0 where
  pub total_orders : ℕ
  pub total_revenue : ℕ
  pub total_items_sold : ℕ
  pub order_ids : List ℕ
  pub by_product : ℕ → Option Entry

unfoldable pub empty_aggregator : Aggregator
empty_aggregator = record {
  total_orders = 0;
  total_revenue = 0;
  total_items_sold = 0;
  order_ids = [];
  by_product = λ _. none;
}

-- `set.add`
pub add_id : ℕ → List ℕ → List ℕ
add_id x [] = x ∷ []
add_id x (y ∷ ys) = if ltb x y then x ∷ y ∷ ys else if x == y then y ∷ ys else y ∷ add_id x ys

-- `a | b`
pub union : List ℕ → List ℕ → List ℕ
unfolding add_id
union a [] = a
union a (y ∷ ys) = add_id y (union a ys)

-- The per-product part of one round of `feed`.
abbrev pub feed_entry : Sale → Option Entry → Entry
feed_entry item none = record {
  quantity = item.quantity;
  revenue = item.line_total;
  sku = item.product_sku;
}
feed_entry item (some e) = record e {
  quantity = e.quantity + item.quantity;
  revenue = e.revenue + item.line_total;
}

-- One round of `feed`.
pub feed_item : Aggregator → Sale → Aggregator
unfolding add_id
feed_item a item = record a {
  order_ids = add_id item.order_id a.order_ids;
  total_revenue = a.total_revenue + item.line_total;
  total_items_sold = a.total_items_sold + item.quantity;
  by_product = λ pid.
      if pid == item.product_id
      then some (feed_entry item (a.by_product pid))
      else a.by_product pid;
}

pub feed_items : List Sale → Aggregator → Aggregator
unfolding feed_item
feed_items [] a = a
feed_items (item ∷ items) a = feed_items items (feed_item a item)

-- `feed`
pub feed : List Sale → Aggregator → Aggregator
unfolding feed_items
feed chunk a = let fed = feed_items chunk a in record fed { total_orders = length fed.order_ids }

-- `merged.by_product[pid]`, which starts at zeros and "".
pub merge_entry : Option Entry → Option Entry → Option Entry
merge_entry none none = none
merge_entry (some e) none = some e
merge_entry none (some e) = some e
merge_entry (some e) (some d) = some (record {
  quantity = e.quantity + d.quantity;
  revenue = e.revenue + d.revenue;
  sku = if str_eq e.sku "" then d.sku else e.sku;
})

-- `self.merge(other)`
pub merge : Aggregator → Aggregator → Aggregator
unfolding union merge_entry
merge self other = record {
  order_ids = union self.order_ids other.order_ids;
  total_orders = length (union self.order_ids other.order_ids);
  total_revenue = self.total_revenue + other.total_revenue;
  total_items_sold = self.total_items_sold + other.total_items_sold;
  by_product = λ pid. merge_entry (self.by_product pid) (other.by_product pid);
}

-- `_aggregate_chunk`, without the rounding of the revenue to cents, which exact cents do not need. The dictionary of `to_report_data` has the fields of the aggregator, and the
-- aggregator that step 4 makes of it is the one that it came from.
pub aggregate_chunk : List Sale → Aggregator
unfolding feed
aggregate_chunk chunk = feed chunk empty_aggregator

-- Step 4: the loop over the chunks' results.
pub merge_all : Aggregator → List Aggregator → Aggregator
unfolding merge
merge_all a [] = a
merge_all a (r ∷ rs) = merge_all (merge a r) rs

-- A row of `DailySalesReport`.
pub record DailyReport : Type 0 where
  pub date : ℕ
  pub total_orders : ℕ
  pub total_revenue : ℕ
  pub total_items_sold : ℕ
  pub by_product : ℕ → Option Entry

pub report_of : ℕ → Aggregator → DailyReport
report_of date a = record {
  date = date;
  total_orders = a.total_orders;
  total_revenue = a.total_revenue;
  total_items_sold = a.total_items_sold;
  by_product = a.by_product;
}

-- `completed_statuses`
abbrev pub is_completed : OrderStatus → Bool
is_completed paid = true
is_completed shipped = true
is_completed delivered = true
is_completed pending = false
is_completed cancelled = false

-- `_get_yesterday_window` on a day, in seconds, and the queryset of step 2.
abbrev pub in_window : ℕ → Sale → Bool
in_window today s =
    leb ((today - 1) * 86400) s.placed_at
    && ltb s.placed_at (today * 86400)
    && is_completed s.status

unfoldable pub sales_of_yesterday : ℕ → List Sale → List Sale
sales_of_yesterday today = select (in_window today)

abbrev pub get_or_create : DailyReport → Option DailyReport → List DailyReport → List DailyReport
get_or_create r none rs = rs ++ r ∷ []
get_or_create r (some old) rs = rs

abbrev pub update_or_create : DailyReport → Option DailyReport → List DailyReport → List DailyReport
update_or_create r none rs = rs ++ r ∷ []
update_or_create r (some old) rs = update_row (λ (q : DailyReport). q.date) r.date (λ _. r) rs

abbrev pub report_on : ℕ → List DailyReport → Option DailyReport
report_on = find_row (λ r. r.date)

abbrev pub chunk_size : ℕ
chunk_size = 1000

-- Steps 4 and 5 of `run_daily_sales`, if the chunks have results.
abbrev pub save_report : ℕ → List DailyReport → Option (List Aggregator) → Option (List DailyReport)
save_report date reports none = none
save_report date reports (some results) = some (
    update_or_create (report_of date (merge_all empty_aggregator results)) (report_on date reports)
      reports)

-- Steps 2 to 5 of `run_daily_sales`, by whether the queryset is empty.
abbrev pub write_report :
    (List (List Sale) → List (List Sale))
    → (List Sale → Bool)
    → ℕ
    → List Sale
    → List DailyReport
    → Option (List DailyReport)
write_report as_completed gets_slot date [] reports =
    some (get_or_create (report_of date empty_aggregator) (report_on date reports) reports)
write_report as_completed gets_slot date (s ∷ ss) reports =
    save_report date reports
      (process_in_parallel as_completed gets_slot aggregate_chunk chunk_size (s ∷ ss))

-- `run_daily_sales` on a day: the reports after it. `none` is a run that raises, which writes
-- nothing.
unfoldable pub run_daily_sales :
    (List (List Sale) → List (List Sale))
    → (List Sale → Bool)
    → ℕ
    → List Sale
    → List DailyReport
    → Option (List DailyReport)
unfolding process_in_parallel aggregate_chunk merge_all report_of sales_of_yesterday
    empty_aggregator
run_daily_sales as_completed gets_slot today rows =
    write_report as_completed gets_slot (today - 1) (sales_of_yesterday today rows)
