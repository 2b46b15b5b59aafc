-- ===== src/Orders/Status.antt =====
-- The status of an order under cancellation (apps/orders/services.py).
use high_performance_e_comme.Common.{ℕ, ◌≡◌, arith, false, some}
use high_performance_e_comme.Store.{Order, Db, err, invalid_order_state}
use high_performance_e_comme.Orders.{order_of, is_pending, cancel_order}

pub cancel_order-refused :
    (id : ℕ) (db : Db) (o : Order)
    → order_of id db ≡ some o
    → is_pending o.status ≡ false
    → cancel_order id db ≡ (err invalid_order_state, db)
unfolding cancel_order
cancel_order-refused id db o e closed = ground arith
