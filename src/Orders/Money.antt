-- ===== src/Orders/Money.antt =====
-- The money of an order (apps/orders/services.py: `_calculate_totals`).
