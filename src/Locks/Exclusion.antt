-- ===== src/Locks/Exclusion.antt =====
-- Mutual exclusion of the Redis lock (core/concurrency/locks.py).
use high_performance_e_comme.Common.{
  ℕ, ◌<◌, ◌≡◌, ◌≢◌, refl, false, none, some, List, [], ◌∷◌, arith, ◌==◌, if◌then◌else◌, All,
}
use high_performance_e_comme.Locks.{
  Entry, release, attempt, Command, attempts, releases, obey, obey_all,
}

abbrev pub token_of : Command → ℕ
token_of (attempts t timeout) = t
token_of (releases t) = t

-- A command of another client, before a time.
abbrev pub IsOthers : ℕ → ℕ → ℕ × Command → Type 0
IsOthers mine end c = (token_of c.1 ≢ mine) × (c.0 < end)

obey-others :
    (c : ℕ × Command) (e : Entry) → IsOthers e.token e.expires c → obey c.0 c.1 (some e) ≡ some e
unfolding obey release attempt
obey-others (now, attempts t timeout) e h = ground arith
obey-others (now, releases t) e h = ground arith

attempt-held :
    (e : Entry) (t timeout now : ℕ)
    → now < e.expires
    → attempt t timeout now (some e) ≡ (false, some e)
unfolding attempt
attempt-held e t timeout now h = ground arith

obey_all-others :
    (cs : List (ℕ × Command)) (e : Entry)
    → All (IsOthers e.token e.expires) cs
    → obey_all cs (some e) ≡ some e
unfolding obey_all
obey_all-others [] e h = refl
obey_all-others (c ∷ cs) e (p, h) = rw (obey-others c e p) (obey_all-others cs e h)

-- Whatever attempts and releases other clients make before a lock expires, and in whatever order,
-- its holder keeps it, and another attempt before it expires fails.
pub obey_all-excludes :
    (cs : List (ℕ × Command)) (e : Entry) (t timeout now : ℕ)
    → All (IsOthers e.token e.expires) cs
    → now < e.expires
    → (obey_all cs (some e) ≡ some e)
      × (attempt t timeout now (obey_all cs (some e)) ≡ (false, some e))
obey_all-excludes cs e t timeout now h early =
    let kept = obey_all-others cs e h in (kept, rw kept (attempt-held e t timeout now early))

-- A holder whose lock expired and went to another client cannot lift it: its release leaves the
-- lock as it is. A release by the holder frees it.
pub release-own :
    (token now : ℕ) (e : Entry)
    → now < e.expires
    → release token now (some e) ≡ (if e.token == token then none else some e)
unfolding release
release-own token now e h = ground arith
