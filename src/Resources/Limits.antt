-- ===== src/Resources/Limits.antt =====
-- A resource's limit and the threads that hold a slot, under any calls (core/resources/pool.py).
use mathlib.Core.Path.{subst}
use high_performance_e_comme.Common.{
  ℕ, zero, suc, ◌+◌, ◌-◌, ◌≤◌, ◌≡◌, ◌≢◌, refl, inl, inr, Option, none, some, List, [], ◌∷◌, arith,
  ltb, ◌==◌, Bool-cases, Option-cases, All, if◌then◌else◌,
}
use high_performance_e_comme.Common.Int.{ℤ}
use high_performance_e_comme.Resources.{
  Pool, new_pool, acquire, release, snapshot, Held, held_count, set_held, Process, Outcome,
  released, over_released, limit_for, get_pool, last_slot, acquire_slot, release_slot, Call,
  acquires, releases, call, run, start,
}

-- 1 for a thread that holds the resource.
abbrev pub holds : ℕ → ℕ
holds zero = 0
holds (suc _) = 1

-- The threads that hold the resource.
abbrev pub holders : Held → ℕ
holders [] = 0
holders ((_, n) ∷ h) = holds n + holders h

holders-set_held :
    (t n : ℕ) (h : Held) → holders (set_held t n h) + holds (held_count t h) ≡ holders h + holds n
unfolding set_held held_count
holders-set_held t n [] = omega arith
holders-set_held t n ((u, m) ∷ h) = ground (arith, holders-set_held t n h)

pub held_count-set_held :
    (t n u : ℕ) (h : Held) → held_count u (set_held t n h) ≡ (if t == u then n else held_count u h)
unfolding set_held held_count
held_count-set_held t n u [] = ground arith
held_count-set_held t n u ((v, m) ∷ h) = ground (arith, held_count-set_held t n u h)

-- The permits and the work in flight make up the limit, and the work in flight is that of the
-- threads that hold a slot.
abbrev pub PoolIsExact : Option Pool → Held → Type 0
PoolIsExact none h = holders h ≡ 0
PoolIsExact (some p) h = (p.permits + p.in_flight ≡ p.limit) × (p.in_flight ≡ holders h)

abbrev pub IsExact : Process → Type 0
IsExact s = PoolIsExact s.pool s.held

get_pool-exact :
    (limit : ℕ) (p : Option Pool) (h : Held)
    → PoolIsExact p h
    → PoolIsExact (some (get_pool limit p)) h
unfolding get_pool new_pool
get_pool-exact limit none h e = ground arith
get_pool-exact limit (some p) h e = ground arith

acquire_slot-IsExact :
    (limit : ℤ) (t : ℕ) (s : Process) → IsExact s → IsExact (acquire_slot limit t s).1
unfolding acquire_slot acquire
acquire_slot-IsExact limit t s e = elim (Bool-cases (ltb 0 (held_count t s.held))) [
  | inl again ↦ ground (arith, holders-set_held t (held_count t s.held + 1) s.held)
  | inr first ↦ elim (Option-cases (limit_for limit)) [
    | inl bad ↦ rw (first, bad) e
    | inr (l, el) ↦ ground (arith, holders-set_held t 1 s.held, get_pool-exact l s.pool s.held)
  ]
]

acquire_slot-ne-over :
    (limit : ℤ) (t : ℕ) (s : Process) → (acquire_slot limit t s).0 ≢ over_released
unfolding acquire_slot acquire
acquire_slot-ne-over limit t s = ground arith

-- Giving a slot back, for a thread that held it once.
last_slot-IsExact :
    (l t : ℕ) (s : Process)
    → IsExact s
    → held_count t s.held ≡ 1
    → let after = last_slot (some l) (record s { held = set_held t 0 s.held }) in
      IsExact after.1 × (after.0 ≡ released)
unfolding release get_pool
last_slot-IsExact l t s e one = go s.pool e
  where
    go :
        (p : Option Pool)
        → PoolIsExact p s.held
        → let after = last_slot (some l) (record { pool = p; held = set_held t 0 s.held }) in
          IsExact after.1 × (after.0 ≡ released)
    go none e' = absurd (ground (arith, holders-set_held t 0 s.held))
    go (some p) e' = ground (arith, holders-set_held t 0 s.held)

release_slot-IsExact :
    (limit : ℤ) (l t : ℕ) (s : Process)
    → limit_for limit ≡ some l
    → IsExact s
    → IsExact (release_slot limit t s).1 × ((release_slot limit t s).0 ≢ over_released)
unfolding release_slot
release_slot-IsExact limit l t s valid e = elim (Bool-cases (ltb 1 (held_count t s.held))) [
  | inl more ↦ ground (arith, holders-set_held t (held_count t s.held - 1) s.held)
  | inr few ↦ elim (Bool-cases (held_count t s.held == 0)) [
    | inl nothing ↦ ground arith
    | inr one ↦
        let (exact, done) = last_slot-IsExact l t s e (ground arith) in
        rw (few, one, valid) (exact, rw done (λ q. cc))
  ]
]

-- The limit of a call is a positive number.
abbrev pub IsConfigured : Call → Type 0
IsConfigured (acquires limit t) = (l : ℕ) × (limit_for limit ≡ some l)
IsConfigured (releases limit t) = (l : ℕ) × (limit_for limit ≡ some l)

call-IsExact :
    (c : Call) (s : Process)
    → IsConfigured c
    → IsExact s
    → IsExact (call c s).1 × ((call c s).0 ≢ over_released)
unfolding call
call-IsExact (acquires limit t) s (l, valid) e =
    (acquire_slot-IsExact limit t s e, acquire_slot-ne-over limit t s)
call-IsExact (releases limit t) s (l, valid) e = release_slot-IsExact limit l t s valid e

run-IsExact :
    (cs : List Call) (s : Process)
    → All IsConfigured cs
    → IsExact s
    → IsExact (run cs s).1 × All (λ (o : Outcome). o ≢ over_released) (run cs s).0
unfolding run
run-IsExact [] s h e = (e, tt)
run-IsExact (c ∷ cs) s (h, hs) e =
    let (e', fine) = call-IsExact c s h e in
    let (last, rest) = run-IsExact cs (call c s).1 hs e' in (last, (fine, rest))

-- Whatever slots threads take and give back, each call in one step, in whatever order and under
-- settings that change as long as the limits stay positive: exactly as many threads hold the resource as its pool counts in
-- flight, they are at most its limit, the units that a snapshot reports as available are the permits
-- left, and the semaphore is never released above its limit.
pub run-within_limit :
    (cs : List Call) (p : Pool)
    → All IsConfigured cs
    → (run cs start).1.pool ≡ some p
    → (holders (run cs start).1.held ≡ p.in_flight)
      × (p.in_flight ≤ p.limit)
      × ((snapshot p).available ≡ p.permits)
      × All (λ (o : Outcome). o ≢ over_released) (run cs start).0
unfolding snapshot
run-within_limit cs p h e =
    let (exact, fine) = run-IsExact cs start h refl in
    let exact' : PoolIsExact (some p) (run cs start).1.held =
      subst (λ q. PoolIsExact q (run cs start).1.held) e exact in
    (ground arith, ground arith, ground arith, fine)
