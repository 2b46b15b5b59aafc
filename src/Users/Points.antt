-- ===== src/Users/Points.antt =====
-- Loyalty points through sequences of adjustments (apps/users/services.py).
use high_performance_e_comme.Common.{
  ℕ, zero, suc, ◌+◌, ◌≡◌, refl, inl, inr, some, List, [], ◌∷◌, arith, leb, ◌==◌, if◌then◌else◌,
  Bool-cases, Option-cases, find_row-update_row,
}
use high_performance_e_comme.Common.Int.{ℤ, pos, negsuc, pos_part, neg_part}
use high_performance_e_comme.Store.{Customer, Db, Result, ok, err}
use high_performance_e_comme.Users.{profile_of, grant, deduct, adjust_loyalty_points, adjust_all}

-- What an adjustment of a customer gives and takes, by how it ended.
abbrev given_by : ℤ → Result Customer → ℕ
given_by delta (ok _) = pos_part delta
given_by delta (err _) = 0

abbrev taken_by : ℤ → Result Customer → ℕ
taken_by delta (ok _) = neg_part delta
taken_by delta (err _) = 0

-- The sums over a schedule, for one customer, of the adjustments that were answered without error.
pub given : ℕ → List (ℕ × ℤ) → Db → ℕ
given j [] db = 0
given j ((id, delta) ∷ cs) db =
    let (r, db') = adjust_loyalty_points id delta db in
    (if j == id then given_by delta r else 0) + given j cs db'

pub taken : ℕ → List (ℕ × ℤ) → Db → ℕ
taken j [] db = 0
taken j ((id, delta) ∷ cs) db =
    let (r, db') = adjust_loyalty_points id delta db in
    (if j == id then taken_by delta r else 0) + taken j cs db'

-- One adjustment, seen from one customer.
adjust-points :
    (id j : ℕ) (delta : ℤ) (db : Db) (c : Customer)
    → profile_of j db ≡ some c
    → let (r, db') = adjust_loyalty_points id delta db in
      (c' : Customer) × (profile_of j db' ≡ some c')
      × (c'.loyalty_points + (if j == id then taken_by delta r else 0)
          ≡ c.loyalty_points + (if j == id then given_by delta r else 0))
unfolding adjust_loyalty_points
adjust-points id j (pos zero) db c e = (c, ground arith, ground arith)
adjust-points id j (pos (suc n)) db c e =
    let after = find_row-update_row (λ r. r.id) j id (grant (suc n)) db.customers c (λ r. refl) e in
    elim (Bool-cases (j == id)) [
      | inl mine ↦ (grant (suc n) c, ground arith, ground arith)
      | inr other ↦ (c, ground arith, ground arith)
    ]
adjust-points id j (negsuc n) db c e =
    let after =
      find_row-update_row (λ r. r.id) j id (deduct (suc n)) db.customers c (λ r. refl) e in
    elim (Option-cases (profile_of id db)) [
      | inl missing ↦ (c, ground arith, ground arith)
      | inr (d, ed) ↦ elim (Bool-cases (leb (suc n) d.loyalty_points)) [
        | inl covered ↦ elim (Bool-cases (j == id)) [
          | inl mine ↦ (deduct (suc n) c, ground arith, ground arith)
          | inr other ↦ (c, ground arith, ground arith)
        ]
        | inr short ↦ (c, ground arith, ground arith)
      ]
    ]

-- Through every schedule of adjustments, of this customer and of others, failed ones included: the
-- points that a customer has and those taken by the adjustments that were answered without error
-- make up the points at the start and those given. So no adjustment is lost, none that failed
-- counts, and no more is taken than was there.
pub adjust_all-conserves :
    (j : ℕ) (cs : List (ℕ × ℤ)) (db : Db) (c : Customer)
    → profile_of j db ≡ some c
    → (c' : Customer) × (profile_of j (adjust_all cs db) ≡ some c')
      × (c'.loyalty_points + taken j cs db ≡ c.loyalty_points + given j cs db)
unfolding adjust_all taken given
adjust_all-conserves j [] db c e = (c, e, refl)
adjust_all-conserves j ((id, delta) ∷ cs) db c e =
    let (d, found, step) = adjust-points id j delta db c e in
    let (c', found', rest) =
      adjust_all-conserves j cs (adjust_loyalty_points id delta db).1 d found in
    (c', found', omega arith)
