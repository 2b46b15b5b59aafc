-- ===== src/Locks/Versions.antt =====
-- The compare-and-set on a version, and its retries (core/concurrency/locks.py).
use high_performance_e_comme.Common.{
  ℕ, zero, suc, ◌+◌, ◌≤◌, ◌<◌, ◌≡◌, inl, inr, Option, none, some, List, [], ◌∷◌, arith, ◌==◌,
  length, All, Bool-cases, Option-cases, find_row,
}
use high_performance_e_comme.Locks.{
  Versioned, bump_version, pause, Retried, answered, slept, stale, retry_from,
  with_optimistic_retry,
}

-- A write that succeeds found the version that its caller had read, and leaves the row with the next
-- version and the written value; a second write by a caller that had read the same version is
-- refused. So of two writers that read one version, the second does not overwrite the first.
pub bump_version-no_lost_update :
    (pk expected value later : ℕ) (rs rs' : List Versioned) (v : ℕ)
    → bump_version pk expected value rs ≡ some (v, rs')
    → (r : Versioned) × (find_row (λ (q : Versioned). q.pk) pk rs ≡ some r)
      × (r.version ≡ expected)
      × (v ≡ expected + 1)
      × (find_row (λ (q : Versioned). q.pk) pk rs' ≡ some (record r { version = v; value = value }))
      × (bump_version pk expected later rs' ≡ none)
unfolding bump_version
bump_version-no_lost_update pk expected value later [] rs' v h = cc
bump_version-no_lost_update pk expected value later (x ∷ rs) rs' v h =
    elim (Bool-cases (x.pk == pk)) [
      | inl same ↦ elim (Bool-cases (x.version == expected)) [
        | inl current ↦ (x, ground arith, ground arith, ground arith, ground arith, ground arith)
        | inr old ↦ absurd (ground arith)
      ]
      | inr other ↦ elim (Option-cases (bump_version pk expected value rs)) [
        | inl refused ↦ absurd (ground arith)
        | inr ((w, qs), e) ↦
            let (r, found, version, next, written, again) =
              bump_version-no_lost_update pk expected value later rs qs w e in
            (r, ground arith, version, ground arith, ground arith, ground arith)
      ]
    ]

module _ {A : Type 0} (call : ℕ → Option A) (jitter : ℕ → ℕ) (backoff max_backoff : ℕ) where
  -- The calls from a number on were stale, so many of them.
  abbrev pub Fails : ℕ → ℕ → Type 0
  Fails zero attempt = Unit
  Fails (suc n) attempt = (call attempt ≡ none) × Fails n (suc attempt)

  abbrev pub IsShort : ℕ → Type 0
  IsShort p = p ≤ max_backoff

  -- How the attempts end: with the first result, after stale calls only; or all were stale.
  abbrev pub IsFirst : ℕ → ℕ → Retried A → Type 0
  IsFirst left attempt (answered a ps) =
      (length ps < left)
      × Fails (length ps) attempt
      × (call (attempt + length ps) ≡ some a)
      × All IsShort ps
  IsFirst left attempt (stale ps) = Fails left attempt × All IsShort ps

  pause-short : (j attempt : ℕ) → pause backoff max_backoff j attempt ≤ max_backoff
  unfolding pause
  pause-short j attempt = ground arith

  -- The pause before the attempts that are left keeps what is so of them.
  IsFirst-slept :
      (left attempt p : ℕ) (r : Retried A)
      → call attempt ≡ none
      → p ≤ max_backoff
      → IsFirst left (suc attempt) r
      → IsFirst (suc left) attempt (slept p r)
  IsFirst-slept left attempt p (answered a ps) e short (fewer, fails, result, all_short) =
      (ground arith, (e, fails), ground arith, (short, all_short))
  IsFirst-slept left attempt p (stale ps) e short (fails, all_short) =
      ((e, fails), (short, all_short))

  retry_from-IsFirst :
      (left attempt : ℕ)
      → IsFirst left attempt (retry_from call jitter backoff max_backoff left attempt)
  unfolding retry_from
  retry_from-IsFirst zero attempt = (tt, tt)
  retry_from-IsFirst (suc left) attempt = elim (Option-cases (call attempt)) [
    | inr (a, e) ↦ rw (e, retry_from, IsFirst) (omega arith, tt, grind arith, tt)
    | inl e ↦ elim (Bool-cases (left == 0)) [
      | inl last ↦ rw (e, last, retry_from) ((e, ground arith), tt)
      | inr more ↦
          rw (e, more, retry_from)
            (IsFirst-slept left attempt (pause backoff max_backoff (jitter attempt) attempt) _ e
              (pause-short (jitter attempt) attempt) (retry_from-IsFirst left (suc attempt)))
    ]
  ]

-- The decorated function gives the result of its first call that is not stale, if one of the first
-- `retries` calls is not, and `StaleObjectError` if all of them are; between two calls it pauses at
-- most `max_backoff`.
pub with_optimistic_retry-IsFirst :
    {A : Type 0} (retries backoff max_backoff : ℕ) (call : ℕ → Option A) (jitter : ℕ → ℕ)
    → IsFirst call jitter backoff max_backoff retries 0
        (with_optimistic_retry retries backoff max_backoff call jitter)
unfolding with_optimistic_retry
with_optimistic_retry-IsFirst retries backoff max_backoff call jitter =
    retry_from-IsFirst call jitter backoff max_backoff retries 0
