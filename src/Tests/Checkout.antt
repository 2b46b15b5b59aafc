-- ===== src/Tests/Checkout.antt =====
-- Runs of a checkout, of transactions side by side, and of invoices.
use high_performance_e_comme.Common.{◌≡◌, ◌⊎◌, List, [], ◌∷◌, ◌++◌, some, All}
use high_performance_e_comme.Store.{Db, Order, Error, ok, err}
use high_performance_e_comme.Orders.{place_order}
use high_performance_e_comme.Orders.Placing.{Placed, place_order-cases}
use high_performance_e_comme.Shop.{captures, cancels_order, places_order}
use high_performance_e_comme.Transactions.{
  Event, begins, asks, rolls_back, occur_all, no_transaction,
}
use high_performance_e_comme.Transactions.Progress.{IsWork, IsIdle, occur_all-completes}
use high_performance_e_comme.Invoices.{starts, renders, take_steps}
use high_performance_e_comme.Invoices.Writes.{
  without_invoice, other_writes, take_steps-loses_versions,
}
use high_performance_e_comme.Tests.{shop, open_shop}

place_order-cases_example :
    ((e : Error) × (place_order 1 10 10 open_shop ≡ (err e, open_shop)))
    ⊎ ((order : Order) × (db' : Db) × (place_order 1 10 10 open_shop ≡ (ok order, db'))
        × Placed 1 10 10 open_shop order db')
place_order-cases_example = place_order-cases 1 10 10 open_shop

-- A capture and a cancellation of one order wait for each other's rows, beside a checkout.
abbrev events : List Event
events =
    begins (captures 40 "tx-1") shop
    ∷ begins (cancels_order 30) shop
    ∷ begins (places_order 1 10 10) open_shop
    ∷ asks 1
    ∷ asks 0
    ∷ asks 0
    ∷ asks 2
    ∷ rolls_back 2
    ∷ []

occur_all-completes_example :
    (more : List Event) × All IsWork more
    × IsIdle (occur_all more (occur_all events no_transaction))
occur_all-completes_example = occur_all-completes events

take_steps-loses_versions_example :
    (take_steps "invoice" (starts 7 ∷ other_writes 3 ++ renders 7 ∷ []) (without_invoice 5)).row
    ≡ some (record { version = 6; invoice_url = some "invoice" })
take_steps-loses_versions_example = take_steps-loses_versions "invoice" 7 3 5
