-- ===== src/Transactions/Progress.antt =====
-- Transactions that wait for each other's row locks (apps/*/services.py): deadlock.
use mathlib.Core.Path.{subst}
use high_performance_e_comme.Common.{
  ℕ, zero, suc, ◌<◌, ◌≡◌, ◌⊎◌, refl, sym, ◌∙◌, inl, inr, true, none, some, List, [], ◌∷◌, arith, ap,
  ==_self, ltb, All, Bool-cases, Option-cases,
}
use high_performance_e_comme.Transactions.{
  Row, Locking, Event, begins, asks, commits, rolls_back, may_take, occur, occur_all,
  no_transaction,
}
use high_performance_e_comme.Transactions.Ascending.{Precedes}
use high_performance_e_comme.Transactions.Ordered.{
  IsOrdered, occur-IsOrdered, occur_all-IsOrdered, no_transaction-IsOrdered,
}
use high_performance_e_comme.Transactions.Choosing.{
  size, total, total-set_wanted, IsLast, choose, some-ne-none,
}

abbrev pub IsWork : Event → Type 0
IsWork (begins c db) = ⊥
IsWork (asks j) = Unit
IsWork (commits j) = Unit
IsWork (rolls_back j) = ⊥

-- An event that brings the running transactions closer to their ends.
abbrev Works : Locking → Type 0
Works s =
    (e : Event) × IsWork e
    × ((occur e s).begun ≡ s.begun)
    × (total s.begun (occur e s).wanted < total s.begun s.wanted)

commits-Works : (s : Locking) (j : ℕ) → j < s.begun → s.wanted j ≡ some [] → Works s
unfolding occur size
commits-Works s j lt e = (
  commits j,
  tt,
  rw e refl,
  rw e (total-set_wanted s.begun j none s.wanted lt (rw e (omega arith))),
)

asks-Works :
    (s : Locking) (j : ℕ) (r : Row) (rs : List Row)
    → j < s.begun
    → s.wanted j ≡ some (r ∷ rs)
    → may_take j (s.owner r) ≡ true
    → Works s
unfolding occur size
asks-Works s j r rs lt e may = (
  asks j,
  tt,
  rw e (rw may refl),
  rw e (rw may (total-set_wanted s.begun j (some rs) s.wanted lt (rw e (omega arith)))),
)

Precedes-antisym : (q r : Row) → Precedes q r → Precedes r q → q ≡ r
Precedes-antisym q r h k = ground arith

-- The last row wanted is free, or its owner has all its rows, or its owner asks for it again.
owner-Works :
    (s : Locking) (r : Row) (k : ℕ)
    → IsOrdered s
    → IsLast s.begun s.wanted r
    → s.owner r ≡ some k
    → Works s
owner-Works s r k h last owned = elim (Bool-cases (ltb k s.begun)) [
  | inr late ↦
      let (ks, w, a) = h.ahead r k owned in absurd (some-ne-none (sym w ∙ h.fresh k (ground arith)))
  | inl lt ↦ let (ks, w, a) = h.ahead r k owned in go (ground arith) ks w a
]
  where
    go : k < s.begun → (ks : List Row) → s.wanted k ≡ some ks → All (Precedes r) ks → Works s
    go lt [] w a = commits-Works s k lt w
    go lt (q ∷ qs) w (a, _) =
        let same : r ≡ q = Precedes-antisym r q a (last k q qs lt w) in
        asks-Works s k q qs lt w (rw (sym (ap s.owner same) ∙ owned) (==_self k))

-- While a transaction runs, one of them can take its next row or commit.
progress : (s : Locking) → IsOrdered s → ((j : ℕ) → s.wanted j ≡ none) ⊎ Works s
progress s h = elim (choose s.begun s.wanted) [
  | inl idle ↦ inl (λ j. elim (Bool-cases (ltb j s.begun)) [
    | inl old ↦ idle j (ground arith)
    | inr new ↦ h.fresh j (ground arith)
  ])
  | inr (inl (j, lt, done)) ↦ inr (commits-Works s j lt done)
  | inr (inr (j, r, rs, lt, wants, last)) ↦ elim (Option-cases (s.owner r)) [
    | inl free ↦ inr (asks-Works s j r rs lt wants (rw free refl))
    | inr (k, owned) ↦ inr (owner-Works s r k h last owned)
  ]
]

-- Nothing runs, and no row is locked.
abbrev pub IsIdle : Locking → Type 0
IsIdle s = ((j : ℕ) → s.wanted j ≡ none) × ((q : Row) → s.owner q ≡ none)

IsIdle-free : (s : Locking) → IsOrdered s → ((j : ℕ) → s.wanted j ≡ none) → IsIdle s
IsIdle-free s h idle = (
  idle,
  λ q. elim (Option-cases (s.owner q)) [
    | inl free ↦ free
    | inr (j, owned) ↦ let (rs, w, a) = h.ahead q j owned in absurd (some-ne-none (sym w ∙ idle j))
  ],
)

completes :
    (n : ℕ) (s : Locking)
    → IsOrdered s
    → total s.begun s.wanted < n
    → (es : List Event) × All IsWork es × IsIdle (occur_all es s)
unfolding occur_all
completes zero s h lt = absurd (omega arith)
completes (suc n) s h lt = elim (progress s h) [
  | inl idle ↦ ([], tt, IsIdle-free s h idle)
  | inr (e, work, same, less) ↦
      let fewer : total (occur e s).begun (occur e s).wanted < n =
        subst (λ b. total b (occur e s).wanted < n) (sym same) (omega arith) in
      let (es, works, idle) = completes n (occur e s) (occur-IsOrdered e s h) fewer in
      (e ∷ es, (work, works), idle)
]

-- No deadlock: however the transactions of any calls have begun, asked for rows, waited, committed
-- and rolled back, those that run can all be brought to their commits, none of them rolled back, and
-- then no row is locked. Each call locks the rows that it reads from a state of the database of its
-- own.
pub occur_all-completes :
    (es : List Event)
    → (more : List Event) × All IsWork more × IsIdle (occur_all more (occur_all es no_transaction))
occur_all-completes es =
    let s = occur_all es no_transaction in
    completes (suc (total s.begun s.wanted)) s
      (occur_all-IsOrdered es no_transaction no_transaction-IsOrdered) (omega arith)
