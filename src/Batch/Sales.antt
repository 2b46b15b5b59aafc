-- ===== src/Batch/Sales.antt =====
-- What the totals of a list of sales are, as against feeding and merging
-- (core/batch/chunked.py: DailySalesAggregator).
use Prim.Native.String.{String}
use text.Mathlib.TextEquality.{IsScalar-prop}
use mathlib.Core.List.{foldr, Perm}
use mathlib.Core.List.Perm
use high_performance_e_comme.Common.{
  ℕ, ◌+◌, ◌≡◌, refl, sym, ap, ◌∙◌, inl, inr, Bool, true, false, Option, none, some, List, [], ◌∷◌,
  arith, ◌==◌, if◌then◌else◌, length, All, Option-cases, foldr_comm,
}
use high_performance_e_comme.Batch.{
  Sale, Entry, Aggregator, empty_aggregator, add_id, union, feed_entry, feed_item, feed_items, feed,
  merge_entry, merge, aggregate_chunk,
}

add_id_comm : (x y : ℕ) (s : List ℕ) → add_id x (add_id y s) ≡ add_id y (add_id x s)
unfolding add_id
add_id_comm x y [] = ground arith
add_id_comm x y (z ∷ s) = ground (arith, add_id_comm x y s)

add_id-again : (x : ℕ) (s : List ℕ) → add_id x (add_id x s) ≡ add_id x s
unfolding add_id
add_id-again x [] = ground arith
add_id-again x (z ∷ s) = ground (arith, add_id-again x s)

union-add_id : (a : List ℕ) (x : ℕ) (s : List ℕ) → union a (add_id x s) ≡ add_id x (union a s)
unfolding add_id union
union-add_id a x [] = refl
union-add_id a x (z ∷ s) =
    ground (arith, union-add_id a x s, add_id_comm x z (union a s), add_id-again x (union a s))

Aggregator-ext :
    (a b : Aggregator)
    → a.total_orders ≡ b.total_orders
    → a.total_revenue ≡ b.total_revenue
    → a.total_items_sold ≡ b.total_items_sold
    → a.order_ids ≡ b.order_ids
    → ((pid : ℕ) → a.by_product pid ≡ b.by_product pid)
    → a ≡ b
Aggregator-ext a b n r q ids entries = λ i. record {
  total_orders = n i;
  total_revenue = r i;
  total_items_sold = q i;
  order_ids = ids i;
  by_product = λ pid. entries pid i;
}

pub Aggregator-set : IsSet Aggregator
Aggregator-set = hlevel IsScalar-prop

-- One sale more, for products that have one SKU each.
module _ (sku_of : ℕ → String) where
  abbrev pub add_to_entry : Sale → Option Entry → Entry
  add_to_entry s none = record {
    quantity = s.quantity;
    revenue = s.line_total;
    sku = sku_of s.product_id;
  }
  add_to_entry s (some e) = record e {
    quantity = e.quantity + s.quantity;
    revenue = e.revenue + s.line_total;
  }

  pub add_sale : Sale → Aggregator → Aggregator
  unfolding add_id
  add_sale s a = record {
    order_ids = add_id s.order_id a.order_ids;
    total_orders = length (add_id s.order_id a.order_ids);
    total_revenue = a.total_revenue + s.line_total;
    total_items_sold = a.total_items_sold + s.quantity;
    by_product = λ pid.
        if pid == s.product_id then some (add_to_entry s (a.by_product pid)) else a.by_product pid;
  }

  -- The specification: the totals of a list of sales, one sale at a time, in any order.
  abbrev pub totals : List Sale → Aggregator
  totals = foldr add_sale empty_aggregator

  add_to_entry_comm :
      (s t : Sale) (e : Option Entry)
      → s.product_id ≡ t.product_id
      → add_to_entry s (some (add_to_entry t e)) ≡ add_to_entry t (some (add_to_entry s e))
  add_to_entry_comm s t none h = ground (arith, ap sku_of h)
  add_to_entry_comm s t (some e) h = ground arith

  pub add_sale_comm :
      (s t : Sale) (a : Aggregator) → add_sale s (add_sale t a) ≡ add_sale t (add_sale s a)
  unfolding add_sale
  add_sale_comm s t a =
      let ids = add_id_comm s.order_id t.order_id a.order_ids in
      Aggregator-ext (add_sale s (add_sale t a)) (add_sale t (add_sale s a)) (ap length ids)
        (omega arith) (omega arith) ids
        λ pid. ground (arith, add_to_entry_comm s t (a.by_product pid))

  -- Sales in any order have the same totals.
  pub totals-perm :
      {xs ys : List Sale} (a : Aggregator) → Perm xs ys → foldr add_sale a xs ≡ foldr add_sale a ys
  totals-perm a p = Perm.foldr-eq Aggregator-set add_sale add_sale_comm p a

  -- The sales have their product's SKU.
  abbrev pub HasSku : Sale → Type 0
  HasSku s = s.product_sku ≡ sku_of s.product_id

  abbrev recount : Aggregator → Aggregator
  recount a = record a { total_orders = length a.order_ids }

  recount-feed_item :
      (s : Sale) (a : Aggregator) → HasSku s → recount (feed_item a s) ≡ add_sale s (recount a)
  unfolding feed_item add_sale
  recount-feed_item s a h =
      Aggregator-ext (recount (feed_item a s)) (add_sale s (recount a)) refl refl refl refl
        λ pid. entry (pid == s.product_id) (a.by_product pid)
    where
      entry :
          (same : Bool) (e : Option Entry)
          → (if same then some (feed_entry s e) else e)
            ≡ (if same then some (add_to_entry s e) else e)
      entry true none = ground (arith, h)
      entry true (some e) = refl
      entry false e = refl

  recount-feed_items :
      (xs : List Sale) (a : Aggregator)
      → All HasSku xs
      → recount (feed_items xs a) ≡ foldr add_sale (recount a) xs
  unfolding feed_items
  recount-feed_items [] a h = refl
  recount-feed_items (s ∷ xs) a (p, h) =
      recount-feed_items xs (feed_item a s) h
      ∙ ap (λ b. foldr add_sale b xs) (recount-feed_item s a p)
      ∙ foldr_comm add_sale add_sale_comm s (recount a) xs

  pub aggregate_chunk-totals : (xs : List Sale) → All HasSku xs → aggregate_chunk xs ≡ totals xs
  unfolding aggregate_chunk feed empty_aggregator
  aggregate_chunk-totals xs h = recount-feed_items xs empty_aggregator h

  -- The entries have the SKUs, and the orders are counted.
  pub record IsCounted (a : Aggregator) : Type 0 where
    pub counted : a.total_orders ≡ length a.order_ids
    pub skus : (pid : ℕ) (e : Entry) → a.by_product pid ≡ some e → e.sku ≡ sku_of pid

  pub add_sale-IsCounted : (s : Sale) (a : Aggregator) → IsCounted a → IsCounted (add_sale s a)
  unfolding add_sale
  add_sale-IsCounted s a c = record {
    counted = refl;
    skus = λ pid e h. elim (Option-cases (a.by_product pid)) [
      | inl new ↦ ground arith
      | inr (old, eo) ↦ ground (arith, c.skus pid old eo)
    ];
  }

  pub totals-IsCounted : (xs : List Sale) → IsCounted (totals xs)
  unfolding empty_aggregator
  totals-IsCounted [] = record { counted = refl; skus = λ pid e h. cc }
  totals-IsCounted (s ∷ xs) = add_sale-IsCounted s (totals xs) (totals-IsCounted xs)

  merge-empty : (a : Aggregator) → IsCounted a → merge a empty_aggregator ≡ a
  unfolding merge union merge_entry empty_aggregator
  merge-empty a c =
      Aggregator-ext (merge a empty_aggregator) a (sym c.counted) (omega arith) (omega arith) refl
        λ pid. ground arith

  merge-add_sale :
      (a b : Aggregator) (s : Sale) → IsCounted a → merge a (add_sale s b) ≡ add_sale s (merge a b)
  unfolding merge merge_entry add_sale
  merge-add_sale a b s c =
      let ids = union-add_id a.order_ids s.order_id b.order_ids in
      Aggregator-ext (merge a (add_sale s b)) (add_sale s (merge a b)) (ap length ids) (omega arith)
        (omega arith) ids
        λ pid. elim (Option-cases (a.by_product pid)) [
          | inl new ↦ ground arith
          | inr (old, eo) ↦ ground (arith, c.skus pid old eo)
        ]

  pub merge-totals :
      (a : Aggregator) (xs : List Sale) → IsCounted a → merge a (totals xs) ≡ foldr add_sale a xs
  merge-totals a [] c = merge-empty a c
  merge-totals a (s ∷ xs) c =
      merge-add_sale a (totals xs) s c ∙ ap (add_sale s) (merge-totals a xs c)
