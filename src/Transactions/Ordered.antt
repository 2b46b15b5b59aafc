-- ===== src/Transactions/Ordered.antt =====
-- The rows that a transaction holds, as against those that it has still to lock
-- (apps/*/services.py).
use mathlib.Core.Option.{some-injective}
use mathlib.Core.Path.{subst}
use high_performance_e_comme.Common.{
  ℕ, ◌≤◌, ◌≡◌, refl, sym, ◌∙◌, inl, inr, true, Option, none, some, List, [], ◌∷◌, arith, ap, ==→eq,
  ◌==◌, All, Bool-cases,
}
use high_performance_e_comme.Store.{Db}
use high_performance_e_comme.Shop.{Command}
use high_performance_e_comme.Transactions.{
  Row, same_row, Locking, Event, begins, asks, commits, rolls_back, is_owner, may_take, ask, finish,
  commit, occur, occur_all, no_transaction,
}
use high_performance_e_comme.Transactions.Ascending.{Precedes, Ascends, locks-Ascends}

-- The rows that a transaction holds come before those that it wants, and these ascend.
pub record IsOrdered (s : Locking) : Type 0 where
  pub ahead :
      (q : Row) (j : ℕ)
      → s.owner q ≡ some j
      → (rs : List Row) × (s.wanted j ≡ some rs) × All (Precedes q) rs
  pub ascends : (j : ℕ) (rs : List Row) → s.wanted j ≡ some rs → Ascends rs
  pub fresh : (j : ℕ) → s.begun ≤ j → s.wanted j ≡ none

Precedes-same :
    (q r : Row) (rs : List Row) → same_row q r ≡ true → All (Precedes r) rs → All (Precedes q) rs
Precedes-same q r [] same h = tt
Precedes-same q r (x ∷ rs) same (h, hs) = (ground arith, Precedes-same q r rs same hs)

begins-IsOrdered :
    (c : Command) (db : Db) (s : Locking) → IsOrdered s → IsOrdered (occur (begins c db) s)
unfolding occur
begins-IsOrdered c db s h = record {
  ahead = λ q j e. let (rs, w, a) = h.ahead q j e in (rs, ground (arith, h.fresh j), a);
  ascends = λ j rs w. elim (Bool-cases (j == s.begun)) [
    | inl new ↦ subst Ascends (some-injective _ _ (rw new at w)) (locks-Ascends db c)
    | inr old ↦ h.ascends j rs (rw old at w)
  ];
  fresh = λ j le. ground (arith, h.fresh j);
}

asks-IsOrdered :
    (j : ℕ) (r : Row) (rs : List Row) (s : Locking)
    → s.wanted j ≡ some (r ∷ rs)
    → IsOrdered s
    → IsOrdered (ask j (some (r ∷ rs)) s)
asks-IsOrdered j r rs s e h = elim (Bool-cases (may_take j (s.owner r))) [
  | inr waits ↦ rw waits h
  | inl takes ↦ rw takes (record {
    ahead = λ q k owned. elim (Bool-cases (same_row q r)) [
      | inl same ↦ (rs, ground arith, Precedes-same q r rs same (h.ascends j (r ∷ rs) e).0)
      | inr other ↦
          let (qs, w, a) = h.ahead q k (rw other at owned) in
          elim (Bool-cases (k == j)) [
            | inl mine ↦
                let eq : qs ≡ r ∷ rs =
                  some-injective _ _ (sym w ∙ ap s.wanted (==→eq k j mine) ∙ e) in
                (rs, rw mine refl, (subst (All (Precedes q)) eq a).1)
            | inr theirs ↦ (qs, rw theirs w, a)
          ]
    ];
    ascends = λ k ks w. elim (Bool-cases (k == j)) [
      | inl mine ↦ subst Ascends (some-injective _ _ (rw mine at w)) (h.ascends j (r ∷ rs) e).1
      | inr theirs ↦ h.ascends k ks (rw theirs at w)
    ];
    fresh = λ k le. ground (arith, h.fresh k);
  })
]

finish-IsOrdered : (j : ℕ) (s : Locking) → IsOrdered s → IsOrdered (finish j s)
finish-IsOrdered j s h = record {
  ahead = λ q k owned. elim (Bool-cases (is_owner j (s.owner q))) [
    | inl mine ↦ absurd (ground arith)
    | inr theirs ↦ let (qs, w, a) = h.ahead q k (rw theirs at owned) in (qs, ground arith, a)
  ];
  ascends = λ k ks w. elim (Bool-cases (k == j)) [
    | inl mine ↦ absurd (ground arith)
    | inr theirs ↦ h.ascends k ks (rw theirs at w)
  ];
  fresh = λ k le. ground (arith, h.fresh k);
}

pub occur-IsOrdered : (e : Event) (s : Locking) → IsOrdered s → IsOrdered (occur e s)
unfolding occur
occur-IsOrdered (begins c db) s h = begins-IsOrdered c db s h
occur-IsOrdered (asks j) s h = go (s.wanted j) refl
  where
    go : (o : Option (List Row)) → s.wanted j ≡ o → IsOrdered (ask j o s)
    go none e = h
    go (some []) e = h
    go (some (r ∷ rs)) e = asks-IsOrdered j r rs s e h
occur-IsOrdered (commits j) s h = go (s.wanted j)
  where
    go : (o : Option (List Row)) → IsOrdered (commit j o s)
    go none = h
    go (some []) = finish-IsOrdered j s h
    go (some (r ∷ rs)) = h
occur-IsOrdered (rolls_back j) s h = finish-IsOrdered j s h

pub occur_all-IsOrdered : (es : List Event) (s : Locking) → IsOrdered s → IsOrdered (occur_all es s)
unfolding occur_all
occur_all-IsOrdered [] s h = h
occur_all-IsOrdered (e ∷ es) s h = occur_all-IsOrdered es (occur e s) (occur-IsOrdered e s h)

pub no_transaction-IsOrdered : IsOrdered no_transaction
no_transaction-IsOrdered = record {
  ahead = λ q j e. cc;
  ascends = λ j rs e. cc;
  fresh = λ j le. refl;
}
