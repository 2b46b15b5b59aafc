-- ===== src/Resources/Slots.antt =====
-- `with resource_slot(...)` (core/resources/pool.py): what a block leaves behind, and blocks inside
-- blocks.
use high_performance_e_comme.Common.{
  ℕ, ◌+◌, ◌-◌, ◌≤◌, ◌<◌, ◌≡◌, ◌≢◌, ◌⊎◌, Option, none, some, arith,
}
use high_performance_e_comme.Common.Int.{ℤ}
use high_performance_e_comme.Resources.{
  acquire, Process, Outcome, admitted, held_count, acquire_slot, release_slot, release, run_block,
  resource_slot, executor_workers,
}
use high_performance_e_comme.Resources.Limits.{held_count-set_held}

-- A thread that holds a resource enters it again without a permit, however full the pool is: a
-- webhook that calls a payment service does not wait for itself.
pub acquire_slot-again :
    (limit : ℤ) (t : ℕ) (s : Process)
    → 0 < held_count t s.held
    → ((acquire_slot limit t s).0 ≡ admitted)
      × ((acquire_slot limit t s).1.pool ≡ s.pool)
      × (held_count t (acquire_slot limit t s).1.held ≡ held_count t s.held + 1)
unfolding acquire_slot
acquire_slot-again limit t s h =
    ground (arith, held_count-set_held t (held_count t s.held + 1) t s.held)

acquire_slot-count :
    (limit : ℤ) (t : ℕ) (s : Process)
    → ((acquire_slot limit t s).0 ≡ admitted)
        × (held_count t (acquire_slot limit t s).1.held ≡ held_count t s.held + 1)
      ⊎ ((acquire_slot limit t s).0 ≢ admitted)
        × (held_count t (acquire_slot limit t s).1.held ≡ held_count t s.held)
unfolding acquire_slot acquire
acquire_slot-count limit t s = ground (
  arith,
  held_count-set_held t (held_count t s.held + 1) t s.held,
  held_count-set_held t 1 t s.held,
)

release_slot-count :
    (limit : ℤ) (t : ℕ) (s : Process)
    → held_count t (release_slot limit t s).1.held ≡ held_count t s.held - 1
unfolding release_slot release
release_slot-count limit t s = ground (
  arith,
  held_count-set_held t (held_count t s.held - 1) t s.held,
  held_count-set_held t 0 t s.held,
)

module _ {A : Type 0} (limit : ℤ) (t : ℕ) (body : Process → A × Process)
    (keeps : (s : Process) → held_count t (body s).1.held ≡ held_count t s.held) where
  -- A block leaves its thread with the count that it had, whether its body ran or the pool was full,
  -- if the body leaves the thread with the count that it had; so blocks nest to any depth.
  pub resource_slot-balanced :
      (s : Process) → held_count t (resource_slot limit t body s).1.held ≡ held_count t s.held
  unfolding resource_slot
  resource_slot-balanced s = go (acquire_slot limit t s) (acquire_slot-count limit t s)
    where
      go :
          (r : Outcome × Process)
          → (r.0 ≡ admitted) × (held_count t r.1.held ≡ held_count t s.held + 1)
            ⊎ (r.0 ≢ admitted) × (held_count t r.1.held ≡ held_count t s.held)
          → held_count t (run_block limit t body r).1.held ≡ held_count t s.held
      go (o, s') h = ground (arith, keeps s', release_slot-count limit t (body s').1)

-- An executor has at least one worker, and for a positive limit never more workers than the limit.
pub executor_workers_bounds :
    (requested : Option ℤ) (limit : ℕ)
    → 0 < limit
    → (0 < executor_workers requested limit) × (executor_workers requested limit ≤ limit)
unfolding executor_workers
executor_workers_bounds none limit h = ground arith
executor_workers_bounds (some r) limit h = ground arith
