-- ===== src/Resources/Threads/Counts.antt =====
-- Threads by their phases, and the pools that they go on with (core/resources/pool.py).
use high_performance_e_comme.Common.{
  ℕ, ◌+◌, ◌≤◌, ◌≡◌, ◌≢◌, refl, Bool-cases, inl, inr, Option, none, some, [], ◌∷◌, arith, ◌==◌,
  if◌then◌else◌,
}
use high_performance_e_comme.Resources.Threads.{
  Phase, outside, looked_up, has_permit, turned_away, inside, leaving, returning, Threads, phase_of,
  set_phase,
}

-- The threads whose phase counts, each as often as it counts.
abbrev pub count : (Phase → ℕ) → Threads → ℕ
count f [] = 0
count f ((_, p) ∷ ts) = f p + count f ts

none-ne-some : {r : ℕ} → none ≢ some r
none-ne-some h = cc

-- 1 for a thread that holds the resource.
abbrev pub holds : Phase → ℕ
holds (inside n) = 1
holds _ = 0

-- 1 for a thread that keeps a permit from the semaphore.
abbrev pub keeps_permit : Phase → ℕ
keeps_permit outside = 0
keeps_permit (looked_up r) = 0
keeps_permit (turned_away r) = 0
keeps_permit _ = 1

-- 1 for a thread that the pool counts in flight.
abbrev pub in_flight : Phase → ℕ
in_flight (inside n) = 1
in_flight (leaving r) = 1
in_flight _ = 0

pub count-set_phase :
    (f : Phase → ℕ) (t : ℕ) (p : Phase) (ts : Threads)
    → f outside ≡ 0
    → count f (set_phase t p ts) + f (phase_of t ts) ≡ count f ts + f p
unfolding set_phase phase_of
count-set_phase f t p [] h = omega arith
count-set_phase f t p ((u, q) ∷ ts) h = ground (arith, count-set_phase f t p ts)

pub count-ge :
    (f : Phase → ℕ) (t : ℕ) (ts : Threads) → f outside ≡ 0 → f (phase_of t ts) ≤ count f ts
unfolding phase_of
count-ge f t [] h = omega arith
count-ge f t ((u, q) ∷ ts) h = ground (arith, count-ge f t ts)

pub holds-le : (ts : Threads) → count holds ts ≤ count keeps_permit ts
holds-le [] = omega arith
holds-le ((t, outside) ∷ ts) = omega (arith, holds-le ts)
holds-le ((t, looked_up r) ∷ ts) = omega (arith, holds-le ts)
holds-le ((t, has_permit r) ∷ ts) = omega (arith, holds-le ts)
holds-le ((t, turned_away r) ∷ ts) = omega (arith, holds-le ts)
holds-le ((t, inside n) ∷ ts) = omega (arith, holds-le ts)
holds-le ((t, leaving r) ∷ ts) = omega (arith, holds-le ts)
holds-le ((t, returning r) ∷ ts) = omega (arith, holds-le ts)

-- The pool that a phase goes on with is the one in `_pools`.
abbrev pub Uses : Option ℕ → Phase → Type 0
Uses c outside = Unit
Uses c (looked_up r) = c ≡ some r
Uses c (has_permit r) = c ≡ some r
Uses c (turned_away r) = c ≡ some r
Uses c (inside n) = Unit
Uses c (leaving r) = c ≡ some r
Uses c (returning r) = c ≡ some r

abbrev pub Use : Option ℕ → Threads → Type 0
Use c [] = Unit
Use c ((_, p) ∷ ts) = Uses c p × Use c ts

pub Use-set_phase :
    (c : Option ℕ) (t : ℕ) (p : Phase) (ts : Threads)
    → Uses c p
    → Use c ts
    → Use c (set_phase t p ts)
unfolding set_phase
Use-set_phase c t p [] h hs = (h, tt)
Use-set_phase c t p ((u, q) ∷ ts) h (k, ks) = elim (Bool-cases (u == t)) [
  | inl same ↦ rw same (h, ks)
  | inr other ↦ rw other (k, Use-set_phase c t p ts h ks)
]

pub Use-phase_of : (c : Option ℕ) (t : ℕ) (ts : Threads) → Use c ts → Uses c (phase_of t ts)
unfolding phase_of
Use-phase_of c t [] h = tt
Use-phase_of c t ((u, q) ∷ ts) (k, ks) = elim (Bool-cases (u == t)) [
  | inl same ↦ rw same k
  | inr other ↦ rw other (Use-phase_of c t ts ks)
]

pub Use-none : (c : Option ℕ) (ts : Threads) → Use none ts → Use c ts
Use-none c [] h = tt
Use-none c ((t, outside) ∷ ts) (k, ks) = (tt, Use-none c ts ks)
Use-none c ((t, looked_up r) ∷ ts) (k, ks) = absurd (none-ne-some k)
Use-none c ((t, has_permit r) ∷ ts) (k, ks) = absurd (none-ne-some k)
Use-none c ((t, turned_away r) ∷ ts) (k, ks) = absurd (none-ne-some k)
Use-none c ((t, inside n) ∷ ts) (k, ks) = (tt, Use-none c ts ks)
Use-none c ((t, leaving r) ∷ ts) (k, ks) = absurd (none-ne-some k)
Use-none c ((t, returning r) ∷ ts) (k, ks) = absurd (none-ne-some k)

pub phase_of-set_phase :
    (j t : ℕ) (p : Phase) (ts : Threads)
    → phase_of j (set_phase t p ts) ≡ (if t == j then p else phase_of j ts)
unfolding phase_of set_phase
phase_of-set_phase j t p [] = refl
phase_of-set_phase j t p ((u, q) ∷ ts) = ground (arith, phase_of-set_phase j t p ts)
