-- ===== src/Tests/Services.antt =====
-- Runs of the shop's services together, and of the slots, the locks, the daily report, the points and
-- the simulated backends.
use Prim.Native.String.{String}
use mathlib.Core.List.Perm
use high_performance_e_comme.Common.{
  Bool, ℕ, ◌+◌, ◌*◌, ◌++◌, ◌≡◌, refl, true, false, Option, none, some, List, [], ◌∷◌, arith, All,
  leb, ltb, find_row, if◌then◌else◌,
}
use high_performance_e_comme.Common.Int.{ℤ, pos, negsuc}
use high_performance_e_comme.Store.{Customer, Db, PaymentIntent, refunded, paid, ok, order_ref}
use high_performance_e_comme.Inventory.{reserving, consume_stock, restock}
use high_performance_e_comme.Orders.{by_product}
use high_performance_e_comme.Payments.{customer_of, capture_payment, refund_payment}
use high_performance_e_comme.Payments.Refunds.{refund_payment-undoes_capture}
use high_performance_e_comme.Shop.{
  Command, stocks, bulk_reserves, adds_item, updates_item, places_order, cancels_order, receives,
  refunds, execute_all,
}
use high_performance_e_comme.Shop.Invariant.{IsSound, ListsOnce, execute_all-IsSound}
use high_performance_e_comme.Resources.{
  Pool, Process, held_count, resource_slot, Call, acquires, releases, limit_for,
}
use high_performance_e_comme.Resources.Slots.{resource_slot-balanced}
use high_performance_e_comme.Batch.{
  Sale, iter_in_chunks, merge_all, empty_aggregator, aggregate_chunk, DailyReport, report_of,
}
use high_performance_e_comme.Batch.Chunks.{concat, FitsSize, iter_in_chunks-partitions}
use high_performance_e_comme.Shop.Money.{execute_all-conserves}
use high_performance_e_comme.Payments.Money.{money}
use high_performance_e_comme.Shop.History.{execute_all-Extends}
use high_performance_e_comme.Orders.History.{Extends}
use high_performance_e_comme.Users.{profile_of, adjust_all}
use high_performance_e_comme.Users.Points.{given, taken, adjust_all-conserves}
use high_performance_e_comme.Balancer.{Backend, new_backend, three_backends, round_robin}
use high_performance_e_comme.Balancer.Fairness.{Handled, round_robin-shares}
use high_performance_e_comme.Notifications.{starts, ends, take_steps, send_again, no_mail}
use high_performance_e_comme.Notifications.Messages.{
  Answers, times, send_again-Answers, take_steps-duplicates,
}
use high_performance_e_comme.Locks.{
  Entry, attempts, attempt, obey_all, poll, Acquired, Versioned, bump_version,
  with_optimistic_retry,
}
use high_performance_e_comme.Locks.Exclusion.{obey_all-excludes}
use high_performance_e_comme.Locks.Waiting.{Justified, poll-ends}
use high_performance_e_comme.Locks.Versions.{
  bump_version-no_lost_update, IsFirst, with_optimistic_retry-IsFirst,
}
use high_performance_e_comme.Tests.{
  shop, open_shop, paid_shop, intent_row, paid_intent, capture_event, capture-returns,
}

abbrev day_of_shop : List Command
day_of_shop =
    adds_item 1 7 1
    ∷ updates_item 1 22 4
    ∷ places_order 1 10 10
    ∷ receives "sig" (capture_event 40)
    ∷ refunds 40
    ∷ cancels_order 50
    ∷ stocks (reserving 8 (pos 9) (order_ref 30))
    ∷ bulk_reserves ((7, pos 1) ∷ (8, pos 1) ∷ []) (order_ref 30)
    ∷ []

open_shop-IsSound : IsSound open_shop
open_shop-IsSound = record { covered = ground arith; apart = ground arith }

-- The one direct call of bulk_reserve lists each product once.
day_of_shop-ListsOnce : All ListsOnce day_of_shop
day_of_shop-ListsOnce = ground arith

execute_all-IsSound_example : IsSound (execute_all day_of_shop open_shop)
execute_all-IsSound_example =
    execute_all-IsSound day_of_shop open_shop day_of_shop-ListsOnce open_shop-IsSound

execute_all-Extends_example : Extends open_shop.orders (execute_all day_of_shop open_shop).orders
execute_all-Extends_example = execute_all-Extends day_of_shop open_shop

execute_all-conserves_example : money (execute_all day_of_shop open_shop) ≡ money open_shop
execute_all-conserves_example = execute_all-conserves day_of_shop open_shop

abbrev refunded_intent : PaymentIntent
refunded_intent = record paid_intent { status = refunded; version = 2 }

abbrev refunded_shop : Db
refunded_shop = (refund_payment 40 paid_shop).1

refund-returns : refund_payment 40 paid_shop ≡ (ok refunded_intent, refunded_shop)
unfolding refund_payment capture_payment by_product consume_stock restock
refund-returns = refl

refund_payment-undoes_capture_example :
    (c' : Customer) × (customer_of 1 refunded_shop ≡ some c') × (c'.wallet_balance ≡ 6000)
refund_payment-undoes_capture_example =
    refund_payment-undoes_capture 40 "tx-1" shop paid_shop refunded_shop paid_intent refunded_intent
      (intent_row 40) capture-returns refl refl refund-returns 1
      (record { id = 1; wallet_balance = 6000; loyalty_points = 0; version = 0 }) refl

-- Two slots: the third thread is refused, and the second enters again.
abbrev slot_calls : List Call
slot_calls =
    acquires (pos 2) 1
    ∷ acquires (pos 2) 2
    ∷ acquires (pos 2) 3
    ∷ acquires (pos 2) 2
    ∷ releases (pos 2) 1
    ∷ []

abbrev slot_pool : Pool
slot_pool = record { limit = 2; permits = 1; in_flight = 1; acquired_total = 2; rejected_total = 1 }

two_slots : (l : ℕ) × (limit_for (pos 2) ≡ some l)
unfolding limit_for
two_slots = (2, refl)

abbrev full_process : Process
full_process = record {
  pool = some (record slot_pool { permits = 0; in_flight = 2 });
  held = (1, 1) ∷ (2, 1) ∷ [];
}

resource_slot-balanced_example :
    held_count 2 (resource_slot {A = ℕ} (pos 2) 2 (λ s. (7, s)) full_process).1.held
    ≡ held_count 2 full_process.held
resource_slot-balanced_example =
    resource_slot-balanced {A = ℕ} (pos 2) 2 (λ s. (7, s)) (λ s. refl) full_process

abbrev five : List ℕ
five = 5 ∷ 6 ∷ 7 ∷ 8 ∷ 9 ∷ []

iter_in_chunks-partitions_example :
    (concat (iter_in_chunks 2 five) ≡ five) × All (FitsSize 2) (iter_in_chunks 2 five)
iter_in_chunks-partitions_example = iter_in_chunks-partitions 2 five (omega arith)

abbrev sale_row : ℕ → ℕ → ℕ → Sale
sale_row order pid quantity = record {
  order_id = order;
  product_id = pid;
  product_sku = "SKU";
  quantity = quantity;
  line_total = quantity * 150;
  placed_at = 90000;
  status = paid;
}

abbrev sales : List Sale
sales = sale_row 30 7 2 ∷ sale_row 30 8 1 ∷ sale_row 31 7 4 ∷ []

abbrev one_sku : ℕ → String
one_sku _ = "SKU"

abbrev all_slots : List Sale → Bool
all_slots _ = true

abbrev first_reports : List DailyReport
first_reports = report_of 1 (merge_all empty_aggregator (aggregate_chunk sales ∷ [])) ∷ []

abbrev point_calls : List (ℕ × ℤ)
point_calls = (1, pos 30) ∷ (1, negsuc 9) ∷ (2, pos 5) ∷ (1, negsuc 99) ∷ []

adjust_all-conserves_example :
    (c' : Customer) × (profile_of 1 (adjust_all point_calls shop) ≡ some c')
    × (c'.loyalty_points + taken 1 point_calls shop ≡ 0 + given 1 point_calls shop)
adjust_all-conserves_example =
    adjust_all-conserves 1 point_calls shop
      (record { id = 1; wallet_balance = 6000; loyalty_points = 0; version = 0 }) refl

abbrev arrivals : List (ℕ × ℕ)
arrivals = (0, 90) ∷ (10, 5) ∷ (20, 5) ∷ (30, 40) ∷ []

round_robin-shares_example : Handled 2 1 1 (round_robin 0 arrivals three_backends)
round_robin-shares_example = round_robin-shares arrivals

abbrev other_backends : List Backend
other_backends = new_backend 2 ∷ new_backend 3 ∷ []

abbrev lock_entry : Entry
lock_entry = record { token = 3; expires = 5000 }

obey_all-excludes_example :
    (obey_all ((10, attempts 4 5000) ∷ []) (some lock_entry) ≡ some lock_entry)
    × (attempt 5 5000 20 (obey_all ((10, attempts 4 5000) ∷ []) (some lock_entry))
        ≡ (false, some lock_entry))
obey_all-excludes_example =
    obey_all-excludes ((10, attempts 4 5000) ∷ []) lock_entry 5 5000 20 (ground arith) (omega arith)

-- A lock that gets free after 120 milliseconds.
poll-ends_example :
    (r : Acquired) × (poll (λ now. leb 120 now) true 200 50 5 0 ≡ some r)
    × Justified (λ now. leb 120 now) true 200 50 0 r
poll-ends_example = poll-ends (λ now. leb 120 now) true 200 50 4 0 (omega arith)

abbrev versions : List Versioned
versions =
    record { pk = 1; version = 4; value = 10 } ∷ record { pk = 2; version = 0; value = 20 } ∷ []

abbrev versions_after : List Versioned
versions_after =
    record { pk = 1; version = 4; value = 10 } ∷ record { pk = 2; version = 1; value = 25 } ∷ []

bumped : bump_version 2 0 25 versions ≡ some (1, versions_after)
unfolding bump_version
bumped = refl

bump_version-no_lost_update_example :
    (r : Versioned) × (find_row (λ (q : Versioned). q.pk) 2 versions ≡ some r)
    × (r.version ≡ 0)
    × (1 ≡ 0 + 1)
    × (find_row (λ (q : Versioned). q.pk) 2 versions_after
        ≡ some (record r { version = 1; value = 25 }))
    × (bump_version 2 0 30 versions_after ≡ none)
bump_version-no_lost_update_example =
    bump_version-no_lost_update 2 0 25 30 versions versions_after 1 bumped

-- The first two calls find a stale version.
abbrev second_time : ℕ → Option ℕ
second_time n = if ltb n 2 then none else some n

with_optimistic_retry-IsFirst_example :
    IsFirst second_time (λ n. n) 10 200 3 0 (with_optimistic_retry 3 10 200 second_time (λ n. n))
with_optimistic_retry-IsFirst_example = with_optimistic_retry-IsFirst 3 10 200 second_time (λ n. n)

send_again-Answers_example :
    Answers (some 70) (send_again (none ∷ some 70 ∷ some 95 ∷ none ∷ []) no_mail)
send_again-Answers_example = send_again-Answers none (some 70 ∷ some 95 ∷ none ∷ [])

take_steps-duplicates_example :
    (take_steps (times 2 starts ++ times 2 (ends (some 70))) no_mail).messages ≡ 2
take_steps-duplicates_example = take_steps-duplicates 2 70
