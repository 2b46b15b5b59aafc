-- ===== src/Resources.antt =====
-- core/resources/pool.py: the pool of one resource in one process, and the slots that its threads
-- hold. A resource's pool and counts are its own, so resources are modelled one at a time. The
-- limit of a call is what the settings say when it is made.
pub mod Limits
pub mod Slots
pub mod Threads
use high_performance_e_comme.Common.{
  ℕ, zero, suc, ◌+◌, ◌-◌, Bool, true, false, not, ◌&&◌, Option, none, some, List, [], ◌∷◌, ltb, leb,
  ◌==◌, if◌then◌else◌,
}
use high_performance_e_comme.Common.Int.{ℤ, pos, pos_part, leb_ℤ}

-- `_ResourcePool`. `permits` is the value of its semaphore.
pub record Pool : Type 0 where
  pub limit : ℕ
  pub permits : ℕ
  pub in_flight : ℕ
  pub acquired_total : ℕ
  pub rejected_total : ℕ

pub new_pool : ℕ → Pool
new_pool limit = record {
  limit = limit;
  permits = limit;
  in_flight = 0;
  acquired_total = 0;
  rejected_total = 0;
}

-- `_ResourcePool.acquire`, at the moment when it takes a permit or gives up waiting for one. The
-- permit and the counts change in one step here, and in two in Threads, as in the code.
pub acquire : Pool → Bool × Pool
acquire p =
    if ltb 0 p.permits
    then (
      true,
      record p {
        permits = p.permits - 1;
        in_flight = p.in_flight + 1;
        acquired_total = p.acquired_total + 1;
      },
    )
    else (false, record p { rejected_total = p.rejected_total + 1 })

-- `_ResourcePool.release`. `none` is the `ValueError` of a bounded semaphore that is released above
-- its limit.
pub release : Pool → Option Pool
release p =
    if ltb 0 p.in_flight
    then (if ltb p.permits p.limit
        then some (record p { permits = p.permits + 1; in_flight = p.in_flight - 1 })
        else none)
    else some p

pub record Snapshot : Type 0 where
  pub limit : ℕ
  pub in_flight : ℕ
  pub available : ℕ
  pub acquired_total : ℕ
  pub rejected_total : ℕ

-- `_ResourcePool.snapshot`: `max(limit - in_flight, 0)` is the truncated subtraction.
pub snapshot : Pool → Snapshot
snapshot p = record {
  limit = p.limit;
  in_flight = p.in_flight;
  available = p.limit - p.in_flight;
  acquired_total = p.acquired_total;
  rejected_total = p.rejected_total;
}

-- `held_counts[resource]` of every thread. A count of 0 stands for a missing key.
abbrev pub Held : Type 0
Held = List (ℕ × ℕ)

unfoldable pub held_count : ℕ → Held → ℕ
held_count t [] = 0
held_count t ((u, n) ∷ h) = if u == t then n else held_count t h

pub set_held : ℕ → ℕ → Held → Held
set_held t n [] = (t, n) ∷ []
set_held t n ((u, m) ∷ h) = if u == t then (u, n) ∷ h else (u, m) ∷ set_held t n h

-- One process: `_pools[resource]` and the threads' counts.
pub record Process : Type 0 where
  pub pool : Option Pool
  pub held : Held

-- How a call ends. `improperly_configured` and `over_released` are exceptions.
pub data Outcome : Type 0 where
  admitted refused released ignored : Outcome
  improperly_configured over_released : Outcome

-- `_limit_for`, for the value that the settings have for the resource.
unfoldable pub limit_for : ℤ → Option ℕ
limit_for limit = if leb_ℤ limit (pos 0) then none else some (pos_part limit)

-- `_get_pool`, for a valid limit. A pool is replaced when its limit changed and nobody is in it.
pub get_pool : ℕ → Option Pool → Pool
unfolding new_pool
get_pool limit none = new_pool limit
get_pool limit (some p) = if not (p.limit == limit) && (p.in_flight == 0) then new_pool limit else p

abbrev finish_acquire : ℕ → Process → Bool × Pool → Outcome × Process
finish_acquire t s (true, p) = (admitted, record { pool = some p; held = set_held t 1 s.held })
finish_acquire t s (false, p) = (refused, record s { pool = some p })

-- The part of `acquire_slot` after the test for a slot that the thread holds.
abbrev pub first_slot : Option ℕ → ℕ → Process → Outcome × Process
first_slot none t s = (improperly_configured, s)
first_slot (some limit) t s = finish_acquire t s (acquire (get_pool limit s.pool))

-- `acquire_slot(resource, timeout)` by thread `t`.
pub acquire_slot : ℤ → ℕ → Process → Outcome × Process
unfolding acquire get_pool limit_for set_held held_count
acquire_slot limit t s =
    if ltb 0 (held_count t s.held)
    then (admitted, record s { held = set_held t (held_count t s.held + 1) s.held })
    else first_slot (limit_for limit) t s

abbrev finish_release : Process → Pool → Option Pool → Outcome × Process
finish_release s p none = (over_released, record s { pool = some p })
finish_release s p (some p') = (released, record s { pool = some p' })

-- The last two lines of `release_slot`: the count is gone before the pool is looked up.
abbrev pub last_slot : Option ℕ → Process → Outcome × Process
last_slot none s = (improperly_configured, s)
last_slot (some limit) s =
    let p = get_pool limit s.pool in
    finish_release s (record p { in_flight = p.in_flight - 1 }) (release p)

-- `release_slot(resource)` by thread `t`.
pub release_slot : ℤ → ℕ → Process → Outcome × Process
unfolding release get_pool limit_for set_held held_count
release_slot limit t s =
    let count = held_count t s.held in
    if ltb 1 count
    then (released, record s { held = set_held t (count - 1) s.held })
    else if count == 0
    then (ignored, s)
    else last_slot (limit_for limit) (record s { held = set_held t 0 s.held })

-- How a `with resource_slot(...)` block ends, for a body that ends in `A`: an exception of the body
-- is a value of `A`, since the `finally` clause runs in any case.
pub data Block (A : Type 0) : Type 0 where
  left : A → Block A
  capacity_exceeded : Block A
  misconfigured : Block A

-- An exception that `release_slot` raises in the `finally` clause is not represented.
abbrev pub run_block :
    {A : Type 0} → ℤ → ℕ → (Process → A × Process) → Outcome × Process → Block A × Process
run_block limit t body (admitted, s) = let (a, s') = body s in (left a, (release_slot limit t s').1)
run_block limit t body (improperly_configured, s) = (misconfigured, s)
run_block limit t body (_, s) = (capacity_exceeded, s)

-- `with resource_slot(resource): body`, and `capacity_limited(resource)(body)`.
pub resource_slot : {A : Type 0} → ℤ → ℕ → (Process → A × Process) → Process → Block A × Process
unfolding acquire_slot release_slot
resource_slot limit t body s = run_block limit t body (acquire_slot limit t s)

-- The number of workers of `bounded_executor(max_workers)`: `max(1, min(requested, limit))`.
pub executor_workers : Option ℤ → ℕ → ℕ
executor_workers none limit = if ltb limit 1 then 1 else limit
executor_workers (some requested) limit =
    let cap : ℕ = if leb_ℤ requested (pos limit) then pos_part requested else limit in
    if ltb cap 1 then 1 else cap

-- A call of one thread, with the limit in the settings; and a schedule of calls.
pub data Call : Type 0 where
  acquires releases : ℤ → ℕ → Call

pub call : Call → Process → Outcome × Process
unfolding acquire_slot release_slot
call (acquires limit t) s = acquire_slot limit t s
call (releases limit t) s = release_slot limit t s

-- The outcomes, in order, and the last state.
unfoldable pub run : List Call → Process → List Outcome × Process
unfolding call
run [] s = ([], s)
run (c ∷ cs) s = let (o, s') = call c s in let (os, s'') = run cs s' in (o ∷ os, s'')

abbrev pub start : Process
start = record { pool = none; held = [] }
