-- ===== src/Lib.antt =====
-- The shop's services and the report of its load tests, as functions on values.
--
-- The program. A shop's back end on Django: an inventory with reservations, carts, orders, and
-- payments from a wallet with a gateway's webhooks. Its load tests write an HTML report whose
-- scripts prepare and draw graphs and tables. Pools limit what a process does at once, a batch
-- writes a report of the day's sales, and a simulation compares two ways to spread requests over
-- three servers.
--
-- Files of the services (apps/*/services.py, apps/*/models.py):
--   Store/Rows   the rows of the tables as records, and the database as a record of lists. A key is a
--                number; the first row with a key is the row that a query gets.
--   Store/Calls  a service call as a function from a database to a result and a database. A call that
--                raises answers an error; `atomic` gives back the database that it was called with.
--   Inventory    apps/inventory/services.py, one definition for each function and for each of its
--                queries. Children: Bounds (stock that is never oversold), Effects, Frame (tables that
--                are not touched), Ledger (the movements explain the stock), Bulk (bulk_reserve).
--   Carts        apps/cart/services.py; Lines is about the lines of a cart, Frame about the tables that are not touched.
--   Orders       apps/orders/services.py; Money is about totals, Stock about the stock under a
--                checkout, Status about refused cancellations, Lines about the lines that a checkout
--                reads, Placing about a checkout as one change, Keeping about what both calls keep in
--                general, History about what becomes of an order.
--   Payments     apps/payments/services.py; Capture, Charges, Refunds, Webhooks and Events are about
--                those calls, Money about the wallets and the captured intents, Stock about the
--                stock under them, Keeping about what they keep in general, History about the
--                orders under them.
--   Transactions
--                the rows that each of these calls locks, in order (select_for_update), and transactions
--                that hold rows and wait for them. Ascending is about the order, Ordered about what a
--                transaction holds and wants, Choosing about one among many, Progress about what a set
--                of transactions can come to.
--   Shop         a call of any of the four services, with the direct calls of bulk_reserve, and
--                sequences of calls. Invariant, History and
--                Money are about those.
-- place_order calls bulk_reserve, cancel_order release_stock, capture_payment consume_stock,
-- refund_payment restock, and process_webhook the two payment calls, as in the code.
--
-- Files of the parts around them:
--   Users        apps/users/services.py, adjust_loyalty_points; Points is about sequences of it.
--   Locks        core/concurrency/locks.py. Exclusion is about the Redis lock, Waiting about its acquire
--                loop, Versions about bump_version and with_optimistic_retry.
--   Resources    core/resources/pool.py: _ResourcePool and the slots of threads. Limits is about any
--                schedule of calls, Slots about blocks inside blocks and about executors. Threads
--                has the steps of its threads side by side: Counts has threads by their phases,
--                Settled and Limit are about one limit, Change about a limit that changes.
--   Batch        core/batch/chunked.py and apps/tasks/daily_sales_batch.py. Chunks is about
--                iter_in_chunks, Sales about the aggregator, Reports about run_daily_sales.
--   Notifications
--                apps/tasks/notifications.py, send_order_confirmation; Messages is about how many
--                messages it sends.
--   Invoices     apps/tasks/invoicing.py, generate_invoice; Writes is about what it writes of an order.
--   Balancer     load_distribution_sim/sim.py; Fairness is about both strategies.
--
-- Files of the report (tools/jmeter/results/*-report/content/js, dashboard-commons.js, graph.js and
-- dashboard.js):
--   Report/Format   durations, labels of axes.
--   Report/Series   filters, sorting and the data to draw; Preparation is about prepareSeries.
--   Report/Options  prepareOptions and prepareOverviewOptions.
--   Report/Page     the page as a record of the calls that change it, and the way every refresh
--                   function ends; Drawing is about a refresh, Choices about the boxes
--                   of its series, Frame about what it leaves alone.
--   Report/Charts   the sixteen graphs: options, elements and refresh functions; Apart is about any
--                   two of them.
--   Report/Events   collapse, toggleAll, and the drawing when the page loads; Panels is about opening a
--                   panel again.
--   Report/Legend   the clicks on a legend; Consistency is about sequences of them.
--   Report/Zoom     zoomPlot and the handlers of setGraphZoomable.
--   Report/Export   the pie of dashboard.js, and exportToPNG.
--   Report/Table    createTable and the four tables of dashboard.js.
-- Common has the shared names, signed numbers, lists, and tables of rows. Tests has a small shop, a
-- small chart, and runs on them and on the parts around.
--
-- Numbers. Money is counted in whole cents, coordinates in a unit fine enough for a chart; both are
-- natural numbers. Quantities that a caller passes are signed in the inventory, and from 0 up in the
-- cart. A subtraction on a column is written where the code has tested that the column covers it.
-- The report of the day adds exact cents, where the code adds floats and rounds, so what is said of
-- its revenues is said of the exact sums. Loops run over lists, but for three. The events that a zoom
-- raises run on fuel, of which five is enough. The acquire loop of a lock runs on fuel: one more than
-- the attempts that fit before its deadline are enough. The retries count down from their number.
--
-- Admission. capacity_limited lets a call of place_order, capture_payment, refund_payment or
-- process_webhook in only if the pool has a slot, and a refused call raises before it reads or
-- writes. The definitions of these calls are their bodies, of admitted calls; deliver has both
-- outcomes for a webhook. The slot of a thread is entered again by the calls inside it. Payloads of
-- webhooks whose intent_id is no number, or whose external_id is null, are not represented.
--
-- Concurrency. Every operation on a stock row, a cart, an order or an intent holds a row lock
-- until its transaction ends, so concurrent calls are sequences of calls; the theorems on
-- schedules hold for every sequence. In Resources a call of the pool is one step; in
-- Resources/Threads a thread takes its permit in one step and counts itself in another, as in the
-- code. Redis runs one command at a time, so the lock is a sequence of commands. In Transactions
-- the locks are taken one by one, by transactions that wait; a call's rows are read from one state
-- of the database, and the rows that the database locks by itself, for foreign keys and unique
-- indexes, are left out.
--
-- Parameters. The browser's regular expressions, its order of texts in lower case and its sorting
-- of names, the printing of values, and the custom graph, which no file of the repository defines,
-- are arguments of the definitions that use them. So are the order in which threads complete the
-- chunks of a batch and which of them get a slot, the random numbers of the simulation and of the
-- retries, and what other clients of a lock do.
--
-- Not modelled: timestamps of the services' rows, currencies, logging and timing decorators, the
-- cache, the pauses of background tasks, the creation of accounts, views and serializers, handlers
-- that set a cursor, and the patch of Math for decimal rounding. The functions of core/cache,
-- core/transactions and core/benchmarking raise NotImplementedError. Copies of other projects'
-- scripts are left out.
pub mod Common
pub mod Store
pub mod Inventory
pub mod Carts
pub mod Orders
pub mod Payments
pub mod Shop
pub mod Users
pub mod Locks
pub mod Balancer
pub mod Resources
pub mod Transactions
pub mod Batch
pub mod Notifications
pub mod Invoices
pub mod Report
pub mod Tests
