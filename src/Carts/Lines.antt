-- ===== src/Carts/Lines.antt =====
-- The lines of the carts (apps/cart/services.py): whether a cart lists a product twice.
use mathlib.Core.Path.{subst}
use high_performance_e_comme.Common.{
  ℕ, zero, suc, ◌+◌, ◌≤◌, ◌<◌, ◌≡◌, ◌≢◌, refl, sym, inl, inr, Bool, false, not, ◌&&◌, none, List,
  [], ◌∷◌, ◌++◌, arith, ◌==◌, All, All-append, select, update_row, Bool-cases, Option-cases,
}
use high_performance_e_comme.Store.{Cart, CartItem, Product, Db}
use high_performance_e_comme.Carts.{
  cart_of, set_quantity, active_product, line_of, merge_line, add_item, own_line, set_line,
  update_item, clear_cart, found_or_created, get_or_create_cart,
}

-- Two rows have different keys, and list different products or stand in different carts.
abbrev pub AreApart : CartItem → CartItem → Type 0
AreApart i j =
    (i.id ≢ j.id) × (((i.cart_id == j.cart_id) && (i.product_id == j.product_id)) ≡ false)

abbrev pub AllApart : List CartItem → Type 0
AllApart [] = Unit
AllApart (i ∷ is) = All (AreApart i) is × AllApart is

abbrev pub IsOld : ℕ → CartItem → Type 0
IsOld next i = i.id < next

-- No cart lists a product twice, and the keys of the lines are their own.
abbrev pub LinesAreApart : Db → Type 0
LinesAreApart db = All (IsOld db.next_id) db.cart_items × AllApart db.cart_items

All-IsOld-le : (m n : ℕ) (is : List CartItem) → m ≤ n → All (IsOld m) is → All (IsOld n) is
All-IsOld-le m n [] h k = tt
All-IsOld-le m n (i ∷ is) h (o, k) = (omega arith, All-IsOld-le m n is h k)

pub LinesAreApart-same :
    (db db' : Db)
    → db'.cart_items ≡ db.cart_items
    → db.next_id ≤ db'.next_id
    → LinesAreApart db
    → LinesAreApart db'
LinesAreApart-same db db' same later (old, apart) = (
  subst (All (IsOld db'.next_id)) (sym same)
      (All-IsOld-le db.next_id db'.next_id db.cart_items later old),
  subst AllApart (sym same) apart,
)

AllApart-append_one :
    (is : List CartItem) (x : CartItem)
    → All (λ (i : CartItem). AreApart i x) is
    → AllApart is
    → AllApart (is ++ x ∷ [])
AllApart-append_one [] x h a = (tt, tt)
AllApart-append_one (i ∷ is) x (p, h) (q, a) =
    (All-append (AreApart i) is (x ∷ []) q (p, tt), AllApart-append_one is x h a)

-- A new line for a product that the cart does not list.
new-AreApart :
    (is : List CartItem) (x : CartItem)
    → All (IsOld x.id) is
    → line_of x.cart_id x.product_id is ≡ none
    → All (λ (i : CartItem). AreApart i x) is
new-AreApart [] x h e = tt
new-AreApart (i ∷ is) x (o, h) e = ground (arith, new-AreApart is x h)

abbrev SameLine : CartItem → CartItem → Type 0
SameLine i j = (i.id ≡ j.id) × (i.cart_id ≡ j.cart_id) × (i.product_id ≡ j.product_id)

All-SameLine :
    (i j : CartItem) (is : List CartItem) → SameLine i j → All (AreApart i) is → All (AreApart j) is
All-SameLine i j [] s h = tt
All-SameLine i j (k ∷ is) s (p, h) = (ground arith, All-SameLine i j is s h)

-- A row that is found by its key and written back with the same cart and product.
module _ (f : CartItem → CartItem) (same : (i : CartItem) → SameLine i (f i)) (id : ℕ) where
  All-rewrite :
      (x : CartItem) (is : List CartItem)
      → All (AreApart x) is
      → All (AreApart x) (update_row (λ (i : CartItem). i.id) id f is)
  All-rewrite x [] h = tt
  All-rewrite x (i ∷ is) (p, h) = elim (Bool-cases (i.id == id)) [
    | inl hit ↦ rw hit (ground (arith, same i), h)
    | inr miss ↦ rw miss (p, All-rewrite x is h)
  ]

  rewrite-AllApart :
      (is : List CartItem) → AllApart is → AllApart (update_row (λ (i : CartItem). i.id) id f is)
  rewrite-AllApart [] h = tt
  rewrite-AllApart (i ∷ is) (p, h) = elim (Bool-cases (i.id == id)) [
    | inl hit ↦ rw hit (All-SameLine i (f i) is (same i) p, h)
    | inr miss ↦ rw miss (All-rewrite i is p, rewrite-AllApart is h)
  ]

  rewrite-IsOld :
      (n : ℕ) (is : List CartItem)
      → All (IsOld n) is
      → All (IsOld n) (update_row (λ (i : CartItem). i.id) id f is)
  rewrite-IsOld n [] h = tt
  rewrite-IsOld n (i ∷ is) (o, h) = elim (Bool-cases (i.id == id)) [
    | inl hit ↦ rw hit (ground (arith, same i), h)
    | inr miss ↦ rw miss (o, rewrite-IsOld n is h)
  ]

select-All :
    (x : CartItem) (p : CartItem → Bool) (is : List CartItem)
    → All (AreApart x) is
    → All (AreApart x) (select p is)
select-All x p [] h = tt
select-All x p (i ∷ is) (q, h) = ground (arith, select-All x p is h)

select-AllApart : (p : CartItem → Bool) (is : List CartItem) → AllApart is → AllApart (select p is)
select-AllApart p [] h = tt
select-AllApart p (i ∷ is) (q, h) = ground (arith, select-All i p is q, select-AllApart p is h)

select-IsOld :
    (n : ℕ) (p : CartItem → Bool) (is : List CartItem)
    → All (IsOld n) is
    → All (IsOld n) (select p is)
select-IsOld n p [] h = tt
select-IsOld n p (i ∷ is) (o, h) = ground (arith, select-IsOld n p is h)

merge_line-LinesAreApart :
    (cart : Cart) (product : Product) (quantity : ℕ) (db : Db)
    → LinesAreApart db
    → LinesAreApart
        (merge_line cart product quantity (line_of cart.id product.id db.cart_items) db).1
unfolding merge_line
merge_line-LinesAreApart cart product quantity db (old, apart) =
    elim (Option-cases (line_of cart.id product.id db.cart_items)) [
      | inl missing ↦
          let x : CartItem = record {
            id = db.next_id;
            cart_id = cart.id;
            product_id = product.id;
            quantity = quantity;
            unit_price = product.price;
          } in
          rw (missing, merge_line)
            (
              All-append (IsOld (db.next_id + 1)) db.cart_items (x ∷ [])
                  (All-IsOld-le db.next_id (db.next_id + 1) db.cart_items (omega arith) old)
                  (omega arith, tt),
              AllApart-append_one db.cart_items x (new-AreApart db.cart_items x old missing) apart,
            )
      | inr (item, e) ↦
          let f = set_quantity (item.quantity + quantity) in
          rw (e, merge_line)
            (
              rewrite-IsOld f (λ i. (refl, refl, refl)) item.id db.next_id db.cart_items old,
              rewrite-AllApart f (λ i. (refl, refl, refl)) item.id db.cart_items apart,
            )
    ]

-- Adding a product to a cart, however the call ends, leaves every cart with at most one line for
-- every product, and every line with a key of its own.
pub add_item-LinesAreApart :
    (customer pid quantity : ℕ) (db : Db)
    → LinesAreApart db
    → LinesAreApart (add_item customer pid quantity db).1
unfolding add_item
add_item-LinesAreApart customer pid quantity db h = elim (Option-cases (active_product pid db)) [
  | inl missing ↦ ground arith
  | inr (product, e) ↦ elim (Option-cases (cart_of customer db)) [
    | inl absent ↦ ground arith
    | inr (cart, ec) ↦ ground (arith, merge_line-LinesAreApart cart product quantity db h)
  ]
]

set_line-LinesAreApart :
    (item : CartItem) (quantity : ℕ) (db : Db)
    → LinesAreApart db
    → LinesAreApart (set_line item quantity db).1
unfolding set_line
set_line-LinesAreApart item zero db (old, apart) = (
  select-IsOld db.next_id (λ i. not (i.id == item.id)) db.cart_items old,
  select-AllApart (λ i. not (i.id == item.id)) db.cart_items apart,
)
set_line-LinesAreApart item (suc n) db (old, apart) = (
  rewrite-IsOld (set_quantity (suc n)) (λ i. (refl, refl, refl)) item.id db.next_id db.cart_items
      old,
  rewrite-AllApart (set_quantity (suc n)) (λ i. (refl, refl, refl)) item.id db.cart_items apart,
)

pub update_item-LinesAreApart :
    (customer item_id quantity : ℕ) (db : Db)
    → LinesAreApart db
    → LinesAreApart (update_item customer item_id quantity db).1
unfolding update_item
update_item-LinesAreApart customer item_id quantity db h =
    elim (Option-cases (cart_of customer db)) [
      | inl missing ↦ ground arith
      | inr (cart, ec) ↦ elim (Option-cases (own_line cart.id item_id db)) [
        | inl missing ↦ ground arith
        | inr (item, e) ↦ ground (arith, set_line-LinesAreApart item quantity db h)
      ]
    ]

pub clear_cart-LinesAreApart :
    (customer : ℕ) (db : Db) → LinesAreApart db → LinesAreApart (clear_cart customer db).1
unfolding clear_cart
clear_cart-LinesAreApart customer db h = h

pub get_or_create_cart-LinesAreApart :
    (customer : ℕ) (db : Db) → LinesAreApart db → LinesAreApart (get_or_create_cart customer db).1
unfolding get_or_create_cart
get_or_create_cart-LinesAreApart customer db (old, apart) =
    elim (Option-cases (cart_of customer db)) [
      | inl missing ↦
          rw (missing, found_or_created)
            (All-IsOld-le db.next_id (db.next_id + 1) db.cart_items (omega arith) old, apart)
      | inr (cart, e) ↦ rw (e, found_or_created) (old, apart)
    ]
