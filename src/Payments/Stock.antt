-- ===== src/Payments/Stock.antt =====
-- The stock under the gateway's webhooks (apps/payments/services.py).
use Prim.Native.String.{String}
use high_performance_e_comme.Store.{Db}
use high_performance_e_comme.Inventory.Bounds.{
  NoOversell, NoOversell-framed, consume_stock-NoOversell, restock-NoOversell,
}
use high_performance_e_comme.Payments.{Payload, process_webhook}
use high_performance_e_comme.Payments.Keeping.{process_webhook-Keeps}

-- A delivery of a webhook, whatever it says and however it ends, leaves no stock row with more
-- reserved than on hand, if there was none before.
pub process_webhook-NoOversell :
    (s : String) (payload : Payload) (db : Db)
    → NoOversell db
    → NoOversell (process_webhook s payload db).1
process_webhook-NoOversell =
    process_webhook-Keeps NoOversell NoOversell-framed consume_stock-NoOversell restock-NoOversell
