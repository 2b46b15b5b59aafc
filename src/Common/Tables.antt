-- ===== src/Common/Tables.antt =====
-- A database table as the list of its rows, each row with a numeric key. The database keeps keys
-- unique, so a key names one row at most.
use Prim.Native.Nat.{ℕ}
use mathlib.Core.Path.{◌≡◌, refl, sym, ◌∙◌, subst}
use mathlib.Core.Logic.{◌≢◌, inl, inr}
use mathlib.Core.Bool.{Bool}
use mathlib.Core.Option.{Option, none, some, some-injective}
use mathlib.Core.List.{List, [], ◌∷◌}
use native.Mathlib.Omega.{arith}
use high_performance_e_comme.Common.Tests.{◌==◌, Bool-cases, if◌then◌else◌}
use high_performance_e_comme.Common.Lists.{All}

module _ {A : Type 0} where
  -- `objects.get(key=k)`: the first row with the key.
  abbrev pub find_row : (A → ℕ) → ℕ → List A → Option A
  find_row key k [] = none
  find_row key k (r ∷ rs) = if key r == k then some r else find_row key k rs

  -- `objects.filter(key=k).update(...)`
  abbrev pub update_row : (A → ℕ) → ℕ → (A → A) → List A → List A
  update_row key k f [] = []
  update_row key k f (r ∷ rs) = if key r == k then f r ∷ rs else r ∷ update_row key k f rs

  -- `objects.filter(p).first()` for a condition that is not a key.
  abbrev pub find_where : (A → Bool) → List A → Option A
  find_where p [] = none
  find_where p (r ∷ rs) = if p r then some r else find_where p rs

  module _ (key : A → ℕ) (k : ℕ) (f : A → A) where
    pub find_row-update_row_self :
        (rs : List A) (r : A)
        → find_row key k rs ≡ some r
        → key (f r) ≡ k
        → find_row key k (update_row key k f rs) ≡ some (f r)
    find_row-update_row_self [] r e h = cc
    find_row-update_row_self (x ∷ rs) r e h = ground (arith, find_row-update_row_self rs r)

    pub find_row-update_row_ne :
        (j : ℕ) (rs : List A)
        → j ≢ k
        → ((r : A) → key (f r) ≡ key r)
        → find_row key j (update_row key k f rs) ≡ find_row key j rs
    find_row-update_row_ne j [] ne h = refl
    find_row-update_row_ne j (x ∷ rs) ne h = ground (arith, h x, find_row-update_row_ne j rs ne h)

    pub All-update_row {κ} :
        (P : A → Type κ) (rs : List A)
        → ((r : A) → find_row key k rs ≡ some r → P r → P (f r))
        → All P rs
        → All P (update_row key k f rs)
    All-update_row P [] h ps = ps
    All-update_row P (x ∷ rs) h (p, ps) = elim (Bool-cases (key x == k)) [
      | inl same ↦ rw same (h x (rw same) p, ps)
      | inr other ↦ rw other (p, All-update_row P rs (λ r e. h r (rw other e)) ps)
    ]

    -- The form for a row that was read.
    pub All-update_row_found {κ} :
        (P : A → Type κ) (rs : List A) (r : A)
        → find_row key k rs ≡ some r
        → P (f r)
        → All P rs
        → All P (update_row key k f rs)
    All-update_row_found P rs r e h =
        All-update_row P rs (λ x ex _. subst (λ y. P (f y)) (some-injective r x (sym e ∙ ex)) h)

  pub find_row-key :
      (key : A → ℕ) (k : ℕ) (rs : List A) (r : A) → find_row key k rs ≡ some r → key r ≡ k
  find_row-key key k [] r e = cc
  find_row-key key k (x ∷ rs) r e = ground (arith, find_row-key key k rs r)

  pub All-find_row {κ} :
      (P : A → Type κ) (key : A → ℕ) (k : ℕ) (rs : List A) (r : A)
      → All P rs
      → find_row key k rs ≡ some r
      → P r
  All-find_row P key k [] r ps e = cc
  All-find_row P key k (x ∷ rs) r (p, ps) e = elim (Bool-cases (key x == k)) [
    | inl same ↦ subst P (some-injective x r (rw same at e)) p
    | inr other ↦ All-find_row P key k rs r ps (rw other at e)
  ]

  -- The row of a key through the update of a row.
  pub find_row-update_row :
      (key : A → ℕ) (j k : ℕ) (f : A → A) (rs : List A) (r : A)
      → ((x : A) → key (f x) ≡ key x)
      → find_row key j rs ≡ some r
      → find_row key j (update_row key k f rs) ≡ some (if j == k then f r else r)
  find_row-update_row key j k f [] r keeps e = cc
  find_row-update_row key j k f (x ∷ rs) r keeps e =
      ground (arith, keeps x, find_row-update_row key j k f rs r keeps)
