-- ===== src/Resources/Threads/Limit.antt =====
-- A resource's limit while its threads run side by side and its limit in the settings stays
-- (core/resources/pool.py).
use mathlib.Core.Path.{subst}
use high_performance_e_comme.Common.{
  ℕ, ◌+◌, ◌≤◌, ◌≡◌, refl, inl, inr, some, List, [], ◌∷◌, arith, All, Option-cases,
}
use high_performance_e_comme.Resources.{limit_for}
use high_performance_e_comme.Resources.Threads.{
  phase_of, System, Move, enters, leaves, takes, gives_up, counts_in, counts_out, puts_back, move,
  move_all, no_pools,
}
use high_performance_e_comme.Resources.Threads.Counts.{
  count, holds, keeps_permit, in_flight, holds-le,
}
use high_performance_e_comme.Resources.Threads.Settled.{
  IsRight, IsSettled, enter-IsSettled, take-IsSettled, give_up-IsSettled, count_in-IsSettled,
  leave-IsSettled, count_out-IsSettled, put_back-IsSettled,
}

-- The limit in the settings, where a move reads it.
abbrev pub ReadsLimit : ℕ → Move → Type 0
ReadsLimit limit (enters z t) = limit_for z ≡ some limit
ReadsLimit limit (leaves z t) = limit_for z ≡ some limit
ReadsLimit limit _ = Unit

move-IsSettled :
    (limit : ℕ) (m : Move) (s : System)
    → ReadsLimit limit m
    → IsSettled limit s
    → IsSettled limit (move m s)
unfolding move
move-IsSettled limit (enters z t) s v h =
    enter-IsSettled limit t s h z (phase_of t s.threads) v refl
move-IsSettled limit (leaves z t) s v h =
    leave-IsSettled limit t s h z (phase_of t s.threads) v refl
move-IsSettled limit (takes t) s v h = take-IsSettled limit t s h (phase_of t s.threads) refl
move-IsSettled limit (gives_up t) s v h = give_up-IsSettled limit t s h (phase_of t s.threads) refl
move-IsSettled limit (counts_in t) s v h =
    count_in-IsSettled limit t s h (phase_of t s.threads) refl
move-IsSettled limit (counts_out t) s v h =
    count_out-IsSettled limit t s h (phase_of t s.threads) refl
move-IsSettled limit (puts_back t) s v h =
    put_back-IsSettled limit t s h (phase_of t s.threads) refl

move_all-IsSettled :
    (limit : ℕ) (ms : List Move) (s : System)
    → All (ReadsLimit limit) ms
    → IsSettled limit s
    → IsSettled limit (move_all ms s)
unfolding move_all
move_all-IsSettled limit [] s v h = h
move_all-IsSettled limit (m ∷ ms) s (v, vs) h =
    move_all-IsSettled limit ms (move m s) vs (move-IsSettled limit m s v h)

-- Whatever the threads do side by side, step by step and in whatever order, while the settings have
-- one limit for the resource: at most that many threads hold it at any time; a pool that was looked
-- up has this limit, counts in flight the threads that hold it or are about to leave, and has all the
-- permits that no thread keeps, so that none is lost; and no semaphore is released above its limit.
pub move_all-within_limit :
    (limit : ℕ) (ms : List Move)
    → All (ReadsLimit limit) ms
    → let s = move_all ms no_pools in
      (count holds s.threads ≤ limit)
      × (s.over_released ≡ 0)
      × ((r : ℕ)
          → s.current ≡ some r
          → ((s.pool r).limit ≡ limit)
            × ((s.pool r).in_flight ≡ count in_flight s.threads)
            × ((s.pool r).permits + count keeps_permit s.threads ≡ limit))
move_all-within_limit limit ms v =
    let s = move_all ms no_pools in
    let start : IsSettled limit no_pools = record {
      right = (refl, refl);
      used = tt;
      fine = refl;
    } in
    let h = move_all-IsSettled limit ms no_pools v start in
    (
      within h.right,
      h.fine,
      λ r at. let a = subst (IsRight limit s) at h.right in (a.limited, a.counted, a.permitted),
    )
  where
    within :
        IsRight limit (move_all ms no_pools) (move_all ms no_pools).current
        → count holds (move_all ms no_pools).threads ≤ limit
    within h = elim (Option-cases (move_all ms no_pools).current) [
      | inl first ↦
          let a = subst (IsRight limit (move_all ms no_pools)) first h in
          omega (arith, a.0, holds-le (move_all ms no_pools).threads)
      | inr (r, at) ↦
          let a = subst (IsRight limit (move_all ms no_pools)) at h in
          omega (arith, a.permitted, holds-le (move_all ms no_pools).threads)
    ]
