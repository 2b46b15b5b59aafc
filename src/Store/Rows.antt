-- ===== src/Store/Rows.antt =====
-- The rows of the database: apps/*/models.py. Money is counted in cents. Left out: timestamps,
-- currency, addresses' text, and the fields that no service reads or writes.
use Prim.Native.String.{String}
use high_performance_e_comme.Common.{ℕ, Bool, Option, List}
use high_performance_e_comme.Common.Int.{ℤ}

-- `StockItem`, with the product as its key: the relation is one to one.
pub record StockItem : Type 0 where
  pub product_id : ℕ
  pub on_hand : ℕ
  pub reserved : ℕ
  pub reorder_threshold : ℕ
  pub version : ℕ

-- `StockMovement.KIND_CHOICES`
pub data MovementKind : Type 0 where
  inbound reserve release consume adjust : MovementKind

-- What the services write as the `reference` of a movement: an order's public id, "refund:" and
-- that id, or any text a caller passes. The order's key stands for its public id.
pub data Reference : Type 0 where
  order_ref refund_ref : ℕ → Reference
  text : String → Reference

pub record StockMovement : Type 0 where
  pub stock_item : ℕ
  pub kind : MovementKind
  pub quantity : ℤ
  pub reference : Reference

-- `Cart.STATUS_CHOICES`
pub data CartStatus : Type 0 where
  opened checked_out abandoned : CartStatus

pub record Cart : Type 0 where
  pub id : ℕ
  pub customer_id : ℕ
  pub status : CartStatus
  pub version : ℕ

pub record CartItem : Type 0 where
  pub id : ℕ
  pub cart_id : ℕ
  pub product_id : ℕ
  pub quantity : ℕ
  pub unit_price : ℕ

pub record Product : Type 0 where
  pub id : ℕ
  pub sku : String
  pub name : String
  pub price : ℕ
  pub is_active : Bool

pub record Customer : Type 0 where
  pub id : ℕ
  pub wallet_balance : ℕ
  pub loyalty_points : ℕ
  pub version : ℕ

pub record Address : Type 0 where
  pub id : ℕ
  pub customer_id : ℕ

-- `Order.STATUS_CHOICES`
pub data OrderStatus : Type 0 where
  pending paid shipped delivered cancelled : OrderStatus

pub record Order : Type 0 where
  pub id : ℕ
  pub customer_id : ℕ
  pub status : OrderStatus
  pub subtotal : ℕ
  pub tax : ℕ
  pub shipping_fee : ℕ
  pub total : ℕ
  pub shipping_address : ℕ
  pub billing_address : ℕ
  pub version : ℕ

pub record OrderItem : Type 0 where
  pub order_id : ℕ
  pub product_id : ℕ
  pub product_sku : String
  pub product_name : String
  pub unit_price : ℕ
  pub quantity : ℕ
  pub line_total : ℕ

-- `PaymentIntent.STATUS_CHOICES`
pub data IntentStatus : Type 0 where
  init authorized captured failed refunded : IntentStatus

pub record PaymentIntent : Type 0 where
  pub id : ℕ
  pub order_id : ℕ
  pub external_id : Option String
  pub amount : ℕ
  pub status : IntentStatus
  pub version : ℕ

-- `payload` is not kept: nothing reads it back.
pub record WebhookEvent : Type 0 where
  pub signature : String
  pub processed : Bool

-- The Celery tasks that the services queue with `delay`.
pub data Task : Type 0 where
  send_low_stock_alert generate_invoice send_order_confirmation : ℕ → Task

-- The tables, the key that the next inserted row gets, and the tasks queued by `on_commit`. A task
-- of a block that rolls back is forgotten with the block's writes.
pub record Db : Type 0 where
  pub customers : List Customer
  pub addresses : List Address
  pub products : List Product
  pub stock : List StockItem
  pub movements : List StockMovement
  pub carts : List Cart
  pub cart_items : List CartItem
  pub orders : List Order
  pub order_items : List OrderItem
  pub intents : List PaymentIntent
  pub webhooks : List WebhookEvent
  pub tasks : List Task
  pub next_id : ℕ
