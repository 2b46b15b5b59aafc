-- ===== src/Transactions/Choosing.antt =====
-- A choice among transactions that run side by side (apps/*/services.py), by the rows that they want
-- next, and how much they have left to do.
use mathlib.Core.Path.{subst}
use high_performance_e_comme.Common.{
  ℕ, zero, suc, ◌+◌, ◌≤◌, ◌<◌, ◌≡◌, ◌≢◌, ◌⊎◌, refl, sym, ◌∙◌, inl, inr, Option, none, some, List,
  [], ◌∷◌, arith, ap, ==→eq, ◌==◌, ltb, leb, length, Bool-cases,
}
use high_performance_e_comme.Transactions.{Row, set_wanted}
use high_performance_e_comme.Transactions.Ascending.{Precedes}

-- What is left to do: a step for each row that is wanted, and one for each end.
unfoldable pub size : Option (List Row) → ℕ
size none = 0
size (some rs) = suc (length rs)

pub total : ℕ → (ℕ → Option (List Row)) → ℕ
unfolding size
total zero w = 0
total (suc n) w = size (w n) + total n w

total-set_wanted_above :
    (n j : ℕ) (x : Option (List Row)) (w : ℕ → Option (List Row))
    → n ≤ j
    → total n (set_wanted j x w) ≡ total n w
unfolding total
total-set_wanted_above zero j x w le = refl
total-set_wanted_above (suc n) j x w le = ground (arith, total-set_wanted_above n j x w)

pub total-set_wanted :
    (n j : ℕ) (x : Option (List Row)) (w : ℕ → Option (List Row))
    → j < n
    → size x < size (w j)
    → total n (set_wanted j x w) < total n w
unfolding total
total-set_wanted zero j x w lt h = absurd (omega arith)
total-set_wanted (suc n) j x w lt h = elim (Bool-cases (n == j)) [
  | inl last ↦ ground (arith, total-set_wanted_above n j x w, ap w (==→eq n j last))
  | inr inner ↦ ground (arith, total-set_wanted n j x w)
]

-- The next row of a transaction comes last among those of the transactions below a number.
abbrev pub IsLast : ℕ → (ℕ → Option (List Row)) → Row → Type 0
IsLast n w r = (k : ℕ) (q : Row) (qs : List Row) → k < n → w k ≡ some (q ∷ qs) → Precedes q r

-- Below a number: nothing runs, or a transaction has all its rows, or one wants the last row.
abbrev pub Choice : ℕ → (ℕ → Option (List Row)) → Type 0
Choice n w =
    ((j : ℕ) → j < n → w j ≡ none)
    ⊎ ((j : ℕ) × (j < n) × (w j ≡ some []))
    ⊎ ((j : ℕ) × (r : Row) × (rs : List Row) × (j < n) × (w j ≡ some (r ∷ rs)) × IsLast n w r)

Precedes-cases : (q r : Row) → Precedes q r ⊎ Precedes r q
Precedes-cases q r = elim (Bool-cases (ltb q.level r.level)) [
  | inl less ↦ inl (inl (ground arith))
  | inr more ↦ elim (Bool-cases (ltb r.level q.level)) [
    | inl less ↦ inr (inl (ground arith))
    | inr same ↦ elim (Bool-cases (leb q.position r.position)) [
      | inl le ↦ inl (inr (ground arith, ground arith))
      | inr gt ↦ inr (inr (ground arith, ground arith))
    ]
  ]
]

Precedes-trans : (p q r : Row) → Precedes p q → Precedes q r → Precedes p r
Precedes-trans p q r h k = ground arith

-- The last of the rows wanted below a number and of one row more.
IsLast-next :
    (n : ℕ) (w : ℕ → Option (List Row)) (r : Row)
    → ((q : Row) (qs : List Row) → w n ≡ some (q ∷ qs) → Precedes q r)
    → IsLast n w r
    → IsLast (suc n) w r
IsLast-next n w r here below k q qs lt e = elim (Bool-cases (k == n)) [
  | inl new ↦ here q qs (sym (ap w (==→eq k n new)) ∙ e)
  | inr old ↦ below k q qs (ground arith) e
]

-- A transaction that wants a row next wants no other next.
first-Precedes :
    (n : ℕ) (w : ℕ → Option (List Row)) (r z : Row) (rs : List Row)
    → w n ≡ some (r ∷ rs)
    → Precedes r z
    → (q : Row) (qs : List Row) → w n ≡ some (q ∷ qs)
    → Precedes q z
first-Precedes n w r z rs e h q qs f =
    let same : r ≡ q = ground arith in subst (λ p. Precedes p z) same h

pub some-ne-none : {A : Type 0} {a : A} → some a ≢ none
some-ne-none h = cc

pub choose : (n : ℕ) (w : ℕ → Option (List Row)) → Choice n w
choose zero w = inl (λ j lt. absurd (omega arith))
choose (suc n) w = go (w n) refl (choose n w)
  where
    go : (o : Option (List Row)) → w n ≡ o → Choice n w → Choice (suc n) w
    go none e (inl idle) = inl (λ j lt. elim (Bool-cases (j == n)) [
      | inl new ↦ ap w (==→eq j n new) ∙ e
      | inr old ↦ idle j (ground arith)
    ])
    go (some []) e c = inr (inl (n, omega arith, e))
    go o e (inr (inl (j, lt, done))) = inr (inl (j, omega arith, done))
    go none e (inr (inr (j, r, rs, lt, wants, last))) =
        inr (inr (j, r, rs, omega arith, wants, IsLast-next n w r (λ q qs f. cc) last))
    go (some (r ∷ rs)) e (inl idle) = inr (
        inr (
          n,
          r,
          rs,
          omega arith,
          e,
          IsLast-next n w r (first-Precedes n w r r rs e (inr (refl, omega arith)))
              (λ k q qs lt f. absurd (some-ne-none (sym f ∙ idle k lt))),
        ))
    go (some (r ∷ rs)) e (inr (inr (j, q, qs, lt, wants, last))) = elim (Precedes-cases r q) [
      | inl before ↦ inr (
          inr (
            j,
            q,
            qs,
            omega arith,
            wants,
            IsLast-next n w q (first-Precedes n w r q rs e before) last,
          ))
      | inr after ↦ inr (
          inr (
            n,
            r,
            rs,
            omega arith,
            e,
            IsLast-next n w r (first-Precedes n w r r rs e (inr (refl, omega arith)))
                (λ k p ps lt f. Precedes-trans p q r (last k p ps lt f) after),
          ))
    ]
