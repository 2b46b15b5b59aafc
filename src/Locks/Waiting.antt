-- ===== src/Locks/Waiting.antt =====
-- How the acquire loop of the Redis lock (core/concurrency/locks.py) ends.
use high_performance_e_comme.Common.{
  ℕ, zero, suc, ◌+◌, ◌*◌, ◌≤◌, ◌<◌, ◌≡◌, ◌⊎◌, refl, inl, inr, Bool, true, false, not, ◌||◌, some,
  arith, leb, Bool-cases,
}
use high_performance_e_comme.Locks.{poll, Acquired, acquired_at, lock_not_acquired}

module _ (free : ℕ → Bool) (blocking : Bool) (deadline retry : ℕ) where
  -- A loop that began at a time ended as it may.
  abbrev pub Justified : ℕ → Acquired → Type 0
  Justified now (acquired_at t) = (free t ≡ true) × (now ≤ t) × ((t ≡ now) ⊎ (t < deadline + retry))
  Justified now lock_not_acquired = free now ≡ false

  Justified-earlier :
      (now : ℕ) (r : Acquired)
      → free now ≡ false
      → now < deadline
      → Justified (now + retry) r
      → Justified now r
  Justified-earlier now (acquired_at t) busy early (h, later, end) =
      (h, omega arith, inr (ground arith))
  Justified-earlier now lock_not_acquired busy early h = busy

  abbrev Ends : ℕ → ℕ → Type 0
  Ends fuel now =
      (r : Acquired) × (poll free blocking deadline retry fuel now ≡ some r) × Justified now r

  Ends-attempt : (fuel now : ℕ) → (now < deadline → Ends fuel (now + retry)) → Ends (suc fuel) now
  unfolding poll
  Ends-attempt fuel now later = elim (Bool-cases (free now)) [
    | inl gone ↦ (acquired_at now, rw gone refl, (gone, omega arith, inl refl))
    | inr busy ↦ elim (Bool-cases (not blocking || leb deadline now)) [
      | inl over ↦ (lock_not_acquired, rw busy (rw over refl), busy)
      | inr waits ↦
          let early : now < deadline = ground arith in
          let (r, e, j) = later early in
          (r, rw busy (rw waits e), Justified-earlier now r busy early j)
    ]
  ]

  -- The loop ends after as many attempts as fit before the deadline, and one more: with a lock that
  -- was free at an attempt, at the first moment or less than one pause after the deadline, or with
  -- `LockNotAcquired` after its first attempt failed.
  pub poll-ends :
      (rounds now : ℕ)
      → deadline ≤ now + rounds * retry
      → (r : Acquired) × (poll free blocking deadline retry (suc rounds) now ≡ some r)
        × Justified now r
  poll-ends zero now fits = Ends-attempt zero now (λ early. absurd (omega arith))
  poll-ends (suc n) now fits =
      Ends-attempt (suc n) now (λ early. poll-ends n (now + retry) (grind arith))
