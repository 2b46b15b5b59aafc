-- ===== src/Users.antt =====
-- apps/users/services.py: loyalty points. The update is one statement, so it is no transaction.
pub mod Points
use high_performance_e_comme.Common.{
  ℕ, zero, suc, ◌+◌, ◌-◌, Option, none, some, List, [], ◌∷◌, leb, if◌then◌else◌, find_row,
  update_row,
}
use high_performance_e_comme.Common.Int.{ℤ, pos, negsuc}
use high_performance_e_comme.Store.{
  Customer, Db, insufficient_loyalty_points, does_not_exist, Action, Done, pure, raise, gets,
  or_raise, ◌>>=◌, ◌>>◌, modify,
}

abbrev pub profile_of : ℕ → Db → Option Customer
profile_of id db = find_row (λ c. c.id) id db.customers

abbrev pub grant : ℕ → Customer → Customer
grant n c = record c { loyalty_points = c.loyalty_points + n; version = c.version + 1 }

abbrev pub deduct : ℕ → Customer → Customer
deduct n c = record c { loyalty_points = c.loyalty_points - n; version = c.version + 1 }

abbrev write_points : ℕ → (Customer → Customer) → Action Done
write_points id f = modify λ db. record db { customers = update_row (λ c. c.id) id f db.customers }

-- The update with `loyalty_points__gte` in its WHERE clause: no row matches where the customer is
-- missing or has too few points.
abbrev pub deduct_if_covered : ℕ → ℕ → Option Customer → Action Done
deduct_if_covered id n none = raise insufficient_loyalty_points
deduct_if_covered id n (some c) =
    if leb n c.loyalty_points then write_points id (deduct n) else raise insufficient_loyalty_points

abbrev pub change_points : ℕ → ℤ → Action Done
change_points id (pos zero) = pure tt
change_points id (pos (suc n)) = write_points id (grant (suc n))
change_points id (negsuc n) = gets (profile_of id) >>= deduct_if_covered id (suc n)

-- `adjust_loyalty_points(customer_id, delta)`
pub adjust_loyalty_points : ℕ → ℤ → Action Customer
adjust_loyalty_points id delta = do
  change_points id delta
  gets (profile_of id) >>= or_raise does_not_exist

-- A schedule of adjustments, each of one customer.
pub adjust_all : List (ℕ × ℤ) → Db → Db
unfolding adjust_loyalty_points
adjust_all [] db = db
adjust_all ((id, delta) ∷ cs) db = adjust_all cs (adjust_loyalty_points id delta db).1
