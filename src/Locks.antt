-- ===== src/Locks.antt =====
-- core/concurrency/locks.py: the Redis lock of one key, the compare-and-set on a version, and the
-- retry on a stale one. Times are milliseconds. A token is a number, which `uuid4` makes a new one
-- for each call.
pub mod Exclusion
pub mod Waiting
pub mod Versions
use high_performance_e_comme.Common.{
  ℕ, zero, suc, ◌+◌, ◌*◌, ◌-◌, Bool, true, false, not, ◌||◌, Option, none, some, List, [], ◌∷◌, ltb,
  leb, ◌==◌, if◌then◌else◌, find_row,
}

-- The key in Redis: the token that it holds, and when it expires.
pub record Entry : Type 0 where
  pub token : ℕ
  pub expires : ℕ

abbrev pub live : ℕ → Option Entry → Option Entry
live now none = none
live now (some e) = if ltb now e.expires then some e else none

-- `conn.set(key, token, nx=True, px=timeout_ms)`
abbrev pub set_nx : ℕ → ℕ → ℕ → Option Entry → Bool × Option Entry
set_nx token timeout now none = (true, some (record { token = token; expires = now + timeout }))
set_nx token timeout now (some e) = (false, some e)

abbrev pub delete_if : ℕ → Option Entry → Option Entry
delete_if token none = none
delete_if token (some e) = if e.token == token then none else some e

-- `_LUA_RELEASE`, by which the block of a lock ends.
pub release : ℕ → ℕ → Option Entry → Option Entry
release token now e = delete_if token (live now e)

-- One attempt of the acquire loop.
pub attempt : ℕ → ℕ → ℕ → Option Entry → Bool × Option Entry
attempt token timeout now e = set_nx token timeout now (live now e)

-- What the clients of the key do, each with its token, and the time of each command. Redis runs
-- commands one at a time.
pub data Command : Type 0 where
  attempts : ℕ → ℕ → Command
  releases : ℕ → Command

pub obey : ℕ → Command → Option Entry → Option Entry
unfolding release attempt
obey now (attempts token timeout) e = (attempt token timeout now e).1
obey now (releases token) e = release token now e

pub obey_all : List (ℕ × Command) → Option Entry → Option Entry
unfolding obey
obey_all [] e = e
obey_all ((now, c) ∷ cs) e = obey_all cs (obey now c e)

-- How `distributed_lock` begins: the block runs, or `LockNotAcquired` is raised.
pub data Acquired : Type 0 where
  acquired_at : ℕ → Acquired
  lock_not_acquired : Acquired

-- The acquire loop from a time on, on fuel. `free now` says whether an attempt at that time finds
-- the key free, which is up to the other clients.
pub poll : (ℕ → Bool) → Bool → ℕ → ℕ → ℕ → ℕ → Option Acquired
poll free blocking deadline retry zero now = none
poll free blocking deadline retry (suc fuel) now =
    let later = poll free blocking deadline retry fuel (now + retry) in
    if free now
    then some (acquired_at now)
    else if not blocking || leb deadline now
    then some lock_not_acquired
    else later

-- A row with a `version`, and the value that a caller writes.
pub record Versioned : Type 0 where
  pub pk : ℕ
  pub version : ℕ
  pub value : ℕ

-- The row that matches the WHERE clause of `bump_version` gets the new value and version. `none` is
-- `StaleObjectError`.
unfoldable pub bump_version : ℕ → ℕ → ℕ → List Versioned → Option (ℕ × List Versioned)
bump_version pk expected value [] = none
bump_version pk expected value (r ∷ rs) =
    let rest = bump_version pk expected value rs in
    if r.pk == pk
    then (if r.version == expected
        then some (expected + 1, record r { version = r.version + 1; value = value } ∷ rs)
        else none)
    else elim rest [ none ↦ none | some (v, rs') ↦ some (v, r ∷ rs') ]

abbrev pub min : ℕ → ℕ → ℕ
min a b = if leb a b then a else b

-- 2 ^ attempt
pub double : ℕ → ℕ
double zero = 1
double (suc n) = 2 * double n

-- The pause after a failed attempt.
pub pause : ℕ → ℕ → ℕ → ℕ → ℕ
unfolding double
pause backoff max_backoff jitter attempt = min (backoff * double attempt + jitter) max_backoff

-- How a decorated function ends: its result, or `StaleObjectError`; with the pauses between its
-- attempts.
pub data Retried (A : Type 0) : Type 0 where
  answered : A → List ℕ → Retried A
  stale : List ℕ → Retried A

abbrev pub slept : {A : Type 0} → ℕ → Retried A → Retried A
slept p (answered a ps) = answered a (p ∷ ps)
slept p (stale ps) = stale (p ∷ ps)

-- The loop of `with_optimistic_retry`, with `left` attempts left; `call n` is what the n-th call of
-- the function gives, `none` for `StaleObjectError`.
pub retry_from : {A : Type 0} → (ℕ → Option A) → (ℕ → ℕ) → ℕ → ℕ → ℕ → ℕ → Retried A
unfolding pause
retry_from call jitter backoff max_backoff zero attempt = stale []
retry_from call jitter backoff max_backoff (suc left) attempt =
    let again = retry_from call jitter backoff max_backoff left (suc attempt) in
    elim (call attempt) [
      | some a ↦ answered a []
      | none ↦
          if left == 0
          then stale []
          else slept (pause backoff max_backoff (jitter attempt) attempt) again
    ]

-- `with_optimistic_retry(retries, backoff_ms, max_backoff_ms)(fn)`
pub with_optimistic_retry : {A : Type 0} → ℕ → ℕ → ℕ → (ℕ → Option A) → (ℕ → ℕ) → Retried A
unfolding retry_from
with_optimistic_retry retries backoff max_backoff call jitter =
    retry_from call jitter backoff max_backoff retries 0
