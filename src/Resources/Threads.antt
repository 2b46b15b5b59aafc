-- ===== src/Resources/Threads.antt =====
-- core/resources/pool.py with its threads side by side: what a thread does between two points where
-- another can run. A pool that was replaced is still there for the threads that looked it up, so pools
-- are kept by number, in the order in which they are made.
pub mod Counts
pub mod Settled
pub mod Limit
pub mod Change
use high_performance_e_comme.Common.{
  ℕ, zero, suc, ◌+◌, ◌-◌, Bool, true, false, not, ◌&&◌, Option, none, some, List, [], ◌∷◌, ltb,
  ◌==◌, if◌then◌else◌,
}
use high_performance_e_comme.Common.Int.{ℤ}
use high_performance_e_comme.Resources.{Pool, new_pool, release, limit_for}

-- Where a thread is. `inside n` holds the resource `n + 1` times over.
pub data Phase : Type 0 where
  outside : Phase
  looked_up has_permit turned_away : ℕ → Phase
  inside : ℕ → Phase
  leaving returning : ℕ → Phase

-- A thread that is not listed is outside.
abbrev pub Threads : Type 0
Threads = List (ℕ × Phase)

unfoldable pub phase_of : ℕ → Threads → Phase
phase_of t [] = outside
phase_of t ((u, p) ∷ ts) = if u == t then p else phase_of t ts

unfoldable pub set_phase : ℕ → Phase → Threads → Threads
set_phase t p [] = (t, p) ∷ []
set_phase t p ((u, q) ∷ ts) = if u == t then (u, p) ∷ ts else (u, q) ∷ set_phase t p ts

-- `current` is the pool in `_pools`. `over_released` counts the `ValueError`s of the semaphores.
pub record System : Type 0 where
  pub pool : ℕ → Pool
  pub made : ℕ
  pub current : Option ℕ
  pub threads : Threads
  pub over_released : ℕ

abbrev pub set_pool : ℕ → Pool → (ℕ → Pool) → ℕ → Pool
set_pool r p pools q = if q == r then p else pools q

abbrev pub goes : ℕ → Phase → System → System
goes t p s = record s { threads = set_phase t p s.threads }

-- A new pool, in the place of the current one.
abbrev pub make_pool : ℕ → System → System
make_pool limit s = record s {
  pool = set_pool s.made (new_pool limit) s.pool;
  made = s.made + 1;
  current = some s.made;
}

-- Whether `_get_pool` makes a pool.
abbrev pub is_stale : ℕ → Option ℕ → (ℕ → Pool) → Bool
is_stale limit none pools = true
is_stale limit (some r) pools = not ((pools r).limit == limit) && ((pools r).in_flight == 0)

abbrev pub current_or : ℕ → Option ℕ → ℕ
current_or made none = made
current_or made (some r) = r

-- `_get_pool`, under `_pools_lock`: the thread goes on with the pool that it found or made.
pub look_up : ℕ → ℕ → (ℕ → Phase) → System → System
unfolding new_pool
look_up limit t next s =
    if is_stale limit s.current s.pool
    then goes t (next s.made) (make_pool limit s)
    else goes t (next (current_or s.made s.current)) s

abbrev pub with_limit : Option ℕ → (ℕ → System) → System → System
with_limit none next failed = failed
with_limit (some limit) next failed = next limit

-- `acquire_slot`, up to the pool. A limit that is not positive raises.
pub enter : ℤ → ℕ → Phase → System → System
unfolding look_up limit_for
enter limit t outside s = with_limit (limit_for limit) (λ l. look_up l t looked_up s) s
enter limit t (inside n) s = goes t (inside (suc n)) s
enter limit t _ s = s

-- The semaphore's `acquire`: it takes a permit if there is one, and the thread waits otherwise.
pub take : ℕ → Phase → System → System
take t (looked_up r) s =
    let p = s.pool r in
    if ltb 0 p.permits
    then record s {
      pool = set_pool r (record p { permits = p.permits - 1 }) s.pool;
      threads = set_phase t (has_permit r) s.threads;
    }
    else s
take t _ s = s

-- The end of the wait for a permit: the semaphore gives up where it has none.
pub give_up : ℕ → Phase → System → System
give_up t (looked_up r) s = if ltb 0 (s.pool r).permits then s else goes t (turned_away r) s
give_up t _ s = s

-- The counts under the pool's lock, and then those of the thread.
pub count_in : ℕ → Phase → System → System
count_in t (has_permit r) s =
    let p = s.pool r in
    record s {
      pool =
          set_pool r
            (record p { in_flight = p.in_flight + 1; acquired_total = p.acquired_total + 1 })
            s.pool;
      threads = set_phase t (inside 0) s.threads;
    }
count_in t (turned_away r) s =
    let p = s.pool r in
    record s {
      pool = set_pool r (record p { rejected_total = p.rejected_total + 1 }) s.pool;
      threads = set_phase t outside s.threads;
    }
count_in t _ s = s

-- `release_slot`, up to the pool. The thread's count is gone when a limit raises.
pub leave : ℤ → ℕ → Phase → System → System
unfolding look_up limit_for
leave limit t (inside zero) s =
    with_limit (limit_for limit) (λ l. look_up l t leaving s) (goes t outside s)
leave limit t (inside (suc n)) s = goes t (inside n) s
leave limit t _ s = s

-- The part of `_ResourcePool.release` under the pool's lock.
pub count_out : ℕ → Phase → System → System
count_out t (leaving r) s =
    let p = s.pool r in
    if ltb 0 p.in_flight
    then record s {
      pool = set_pool r (record p { in_flight = p.in_flight - 1 }) s.pool;
      threads = set_phase t (returning r) s.threads;
    }
    else goes t outside s
count_out t _ s = s

-- The bounded semaphore's `release`, which raises above the limit.
pub put_back : ℕ → Phase → System → System
put_back t (returning r) s =
    let p = s.pool r in
    if ltb p.permits p.limit
    then record s {
      pool = set_pool r (record p { permits = p.permits + 1 }) s.pool;
      threads = set_phase t outside s.threads;
    }
    else record s { threads = set_phase t outside s.threads; over_released = s.over_released + 1 }
put_back t _ s = s

-- A step of a thread, with the limit in the settings where it reads them.
pub data Move : Type 0 where
  enters leaves : ℤ → ℕ → Move
  takes gives_up counts_in counts_out puts_back : ℕ → Move

pub move : Move → System → System
unfolding enter take give_up count_in leave count_out put_back phase_of set_phase
move (enters limit t) s = enter limit t (phase_of t s.threads) s
move (takes t) s = take t (phase_of t s.threads) s
move (gives_up t) s = give_up t (phase_of t s.threads) s
move (counts_in t) s = count_in t (phase_of t s.threads) s
move (leaves limit t) s = leave limit t (phase_of t s.threads) s
move (counts_out t) s = count_out t (phase_of t s.threads) s
move (puts_back t) s = put_back t (phase_of t s.threads) s

unfoldable pub move_all : List Move → System → System
unfolding move
move_all [] s = s
move_all (m ∷ ms) s = move_all ms (move m s)

-- No pool is made yet.
abbrev pub no_pools : System
no_pools = record {
  pool =
      λ _. record { limit = 0; permits = 0; in_flight = 0; acquired_total = 0; rejected_total = 0 };
  made = 0;
  current = none;
  threads = [];
  over_released = 0;
}
