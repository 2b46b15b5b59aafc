-- ===== src/Resources/Threads/Change.antt =====
-- A change of a resource's limit while a thread comes in (core/resources/pool.py).
use high_performance_e_comme.Common.{
  ℕ, zero, suc, ◌+◌, ◌-◌, ◌≤◌, ◌<◌, ◌≡◌, ◌≢◌, refl, ap, ◌∙◌, some, true, List, [], ◌∷◌, ◌++◌, arith,
}
use high_performance_e_comme.Common.Int.{pos}
use high_performance_e_comme.Resources.{limit_for, new_pool}
use high_performance_e_comme.Resources.Threads.{
  Phase, outside, looked_up, has_permit, inside, Threads, phase_of, set_phase, System, goes,
  set_pool, make_pool, is_stale, look_up, enter, take, count_in, Move, enters, takes, counts_in,
  move, move_all, no_pools,
}
use high_performance_e_comme.Resources.Threads.Counts.{
  count, holds, count-set_phase, phase_of-set_phase,
}

-- Thread `t` comes in, under a limit.
abbrev pub comes_in : ℕ → ℕ → List Move
comes_in limit t = enters (pos limit) t ∷ takes t ∷ counts_in t ∷ []

-- So do so many threads, from a number on.
pub come_in : ℕ → ℕ → ℕ → List Move
come_in limit zero t = []
come_in limit (suc n) t = enters (pos limit) t ∷ takes t ∷ counts_in t ∷ come_in limit n (t + 1)

-- Thread 0 gets a permit under the old limit, and before it counts itself, so many threads come in as
-- the new limit admits.
abbrev pub change_of_limit : ℕ → ℕ → List Move
change_of_limit old limit = enters (pos old) 0 ∷ takes 0 ∷ come_in limit limit 1 ++ counts_in 0 ∷ []

-- The pool of the new limit is there, with so many permits; thread 0 has its permit from the old
-- pool; the threads from a number on are outside.
record IsOpen (limit t permits held : ℕ) (s : System) : Type 0 where
  at : s.current ≡ some 1
  limited : (s.pool 1).limit ≡ limit
  left : (s.pool 1).permits ≡ permits
  first : phase_of 0 s.threads ≡ has_permit 0
  free : (j : ℕ) → t ≤ j → phase_of j s.threads ≡ outside
  holding : count holds s.threads ≡ held

-- Each step of a thread that comes in, as a change of the state.
module _ (t r : ℕ) (s : System) where
  move-enters :
      (limit : ℕ)
      → 0 < limit
      → phase_of t s.threads ≡ outside
      → s.current ≡ some r
      → (s.pool r).limit ≡ limit
      → move (enters (pos limit) t) s ≡ goes t (looked_up r) s
  unfolding move enter look_up limit_for
  move-enters limit positive e at same = rw e (ground arith)

  -- The pool is new.
  move-enters_new :
      (limit : ℕ)
      → 0 < limit
      → phase_of t s.threads ≡ outside
      → is_stale limit s.current s.pool ≡ true
      → s.made ≡ r
      → move (enters (pos limit) t) s ≡ goes t (looked_up r) (make_pool limit s)
  unfolding move enter look_up limit_for
  move-enters_new limit positive e stale next = rw e (ground arith)

  abbrev taken : System
  taken = record s {
    pool = set_pool r (record (s.pool r) { permits = (s.pool r).permits - 1 }) s.pool;
    threads = set_phase t (has_permit r) s.threads;
  }

  move-takes :
      phase_of t s.threads ≡ looked_up r → 0 < (s.pool r).permits → move (takes t) s ≡ taken
  unfolding move take
  move-takes e free = rw e (ground arith)

  abbrev counted : System
  counted = record s {
    pool =
        set_pool r
          (record (s.pool r) {
            in_flight = (s.pool r).in_flight + 1;
            acquired_total = (s.pool r).acquired_total + 1;
          })
          s.pool;
    threads = set_phase t (inside 0) s.threads;
  }

  move-counts_in : phase_of t s.threads ≡ has_permit r → move (counts_in t) s ≡ counted
  unfolding move count_in
  move-counts_in e = rw e refl

phase_of-set_phase_self : (t : ℕ) (p : Phase) (ts : Threads) → phase_of t (set_phase t p ts) ≡ p
phase_of-set_phase_self t p ts = ground (arith, phase_of-set_phase t t p ts)

-- The state when a thread has come in.
abbrev came_in : ℕ → ℕ → System → System
came_in t r s = counted t r (taken t r (goes t (looked_up r) s))

comes_in-moves :
    (limit t r : ℕ) (s : System) (ms : List Move)
    → 0 < limit
    → phase_of t s.threads ≡ outside
    → s.current ≡ some r
    → (s.pool r).limit ≡ limit
    → 0 < (s.pool r).permits
    → move_all (enters (pos limit) t ∷ takes t ∷ counts_in t ∷ ms) s ≡ move_all ms (came_in t r s)
unfolding move_all
comes_in-moves limit t r s ms positive e at same free =
    ap (λ (x : System). move_all ms (move (counts_in t) (move (takes t) x)))
      (move-enters t r s limit positive e at same)
    ∙ ap (λ (x : System). move_all ms (move (counts_in t) x))
        (move-takes t r (goes t (looked_up r) s) (phase_of-set_phase_self t (looked_up r) s.threads)
          free)
    ∙ ap (move_all ms) (
        move-counts_in t r (taken t r (goes t (looked_up r) s))
          (phase_of-set_phase_self t (has_permit r) (set_phase t (looked_up r) s.threads)))

came_in-IsOpen :
    (limit t n held : ℕ) (s : System)
    → 0 < t
    → IsOpen limit t (suc n) held s
    → IsOpen limit (t + 1) n (held + 1) (came_in t 1 s)
came_in-IsOpen limit t n held s later h =
    let a = set_phase t (looked_up 1) s.threads in
    let b = set_phase t (has_permit 1) a in
    record {
      at = h.at;
      limited = h.limited;
      left = omega (arith, h.left);
      first = ground (
        arith,
        h.first,
        phase_of-set_phase 0 t (inside 0) b,
        phase_of-set_phase 0 t (has_permit 1) a,
        phase_of-set_phase 0 t (looked_up 1) s.threads,
      );
      free = λ j le. ground (
        arith,
        h.free j,
        phase_of-set_phase j t (inside 0) b,
        phase_of-set_phase j t (has_permit 1) a,
        phase_of-set_phase j t (looked_up 1) s.threads,
      );
      holding = omega (
        arith,
        h.holding,
        count-set_phase holds t (inside 0) b refl,
        count-set_phase holds t (has_permit 1) a refl,
        count-set_phase holds t (looked_up 1) s.threads refl,
        ap holds (phase_of-set_phase_self t (has_permit 1) a),
        ap holds (phase_of-set_phase_self t (looked_up 1) s.threads),
        ap holds (h.free t (omega arith)),
      );
    }

-- As many threads come in as there are permits, and then thread 0 counts itself.
come_in-holders :
    (limit t n held : ℕ) (s : System)
    → 0 < limit
    → 0 < t
    → IsOpen limit t n held s
    → let s' = move_all (come_in limit n t ++ counts_in 0 ∷ []) s in
      (s'.current ≡ some 1) × ((s'.pool 1).limit ≡ limit) × (count holds s'.threads ≡ held + n + 1)
unfolding come_in move_all
come_in-holders limit t zero held s positive later h = rw (move-counts_in 0 0 s h.first) (
  h.at,
  h.limited,
  omega (arith, h.holding, count-set_phase holds 0 (inside 0) s.threads refl, ap holds h.first),
)
come_in-holders limit t (suc n) held s positive later h =
    let opened = came_in-IsOpen limit t n held s later h in
    let (at, limited, all) =
      come_in-holders limit (t + 1) n (held + 1) (came_in t 1 s) positive (omega arith) opened in
    rw
      (comes_in-moves limit t 1 s (come_in limit n (t + 1) ++ counts_in 0 ∷ []) positive
        (h.free t (omega arith)) h.at h.limited (omega (arith, h.left)))
      (at, limited, omega arith)

-- The state when thread 0 has its permit from the old pool.
abbrev permitted : ℕ → System
permitted old = taken 0 0 (goes 0 (looked_up 0) (make_pool old no_pools))

-- The state when the first thread under the new limit has come in.
abbrev first_in : ℕ → ℕ → System
first_in old limit =
    counted 1 1 (taken 1 1 (goes 1 (looked_up 1) (make_pool limit (permitted old))))

change_of_limit-starts :
    (old n : ℕ)
    → 0 < old
    → old ≢ suc n
    → move_all (change_of_limit old (suc n)) no_pools
      ≡ move_all (come_in (suc n) n 2 ++ counts_in 0 ∷ []) (first_in old (suc n))
unfolding move_all come_in phase_of set_phase new_pool
change_of_limit-starts old n positive differs =
    let rest = come_in (suc n) n 2 ++ counts_in 0 ∷ [] in
    let made = goes 0 (looked_up 0) (make_pool old no_pools) in
    let new = goes 1 (looked_up 1) (make_pool (suc n) (permitted old)) in
    let later = λ (x : System). move_all (comes_in (suc n) 1 ++ rest) x in
    ap (λ (x : System). later (move (takes 0) x))
      (move-enters_new 0 0 no_pools old positive refl refl refl)
    ∙ ap later (move-takes 0 0 made refl positive)
    ∙ ap (λ (x : System). move_all rest (move (counts_in 1) (move (takes 1) x)))
        (move-enters_new 1 1 (permitted old) (suc n) (omega arith) refl (ground arith) refl)
    ∙ ap (λ (x : System). move_all rest (move (counts_in 1) x))
        (move-takes 1 1 new refl (omega arith))
    ∙ ap (move_all rest) (move-counts_in 1 1 (taken 1 1 new) refl)

first_in-IsOpen : (old n : ℕ) → IsOpen (suc n) 2 n 1 (first_in old (suc n))
unfolding phase_of set_phase new_pool
first_in-IsOpen old n = record {
  at = refl;
  limited = refl;
  left = omega arith;
  first = refl;
  free = λ j le. ground arith;
  holding = refl;
}

-- A change of a resource's limit, from any positive limit to another, while a thread has its permit
-- and is not counted: there is an order of steps in which the new pool's limit is reached and
-- the thread holds the resource besides, so that one more thread holds it than the limit.
pub change_of_limit-exceeds :
    (old limit : ℕ)
    → 0 < old
    → 0 < limit
    → old ≢ limit
    → let s = move_all (change_of_limit old limit) no_pools in
      (r : ℕ) × (s.current ≡ some r)
      × ((s.pool r).limit ≡ limit)
      × (count holds s.threads ≡ limit + 1)
unfolding move_all come_in
change_of_limit-exceeds old zero old_positive positive differs = absurd (omega arith)
change_of_limit-exceeds old (suc n) old_positive positive differs =
    let (at, limited, all) =
      come_in-holders (suc n) 2 n 1 (first_in old (suc n)) positive (omega arith)
        (first_in-IsOpen old n) in
    rw (change_of_limit-starts old n old_positive differs) (1, at, limited, omega arith)
