-- ===== src/Tests/Pools.antt =====
-- Runs of the threads of a resource pool, step by step.
use high_performance_e_comme.Common.{ℕ, ◌+◌, ◌≤◌, ◌≡◌, refl, some, List, [], ◌∷◌, arith}
use high_performance_e_comme.Common.Int.{pos}
use high_performance_e_comme.Resources.{limit_for}
use high_performance_e_comme.Resources.Threads.{
  Move, enters, leaves, takes, gives_up, counts_in, counts_out, puts_back, move_all, no_pools,
}
use high_performance_e_comme.Resources.Threads.Counts.{count, holds, keeps_permit, in_flight}
use high_performance_e_comme.Resources.Threads.Limit.{move_all-within_limit}
use high_performance_e_comme.Resources.Threads.Change.{change_of_limit, change_of_limit-exceeds}

-- Three threads and two permits: thread 2 gives up, and thread 0 leaves.
abbrev moves : List Move
moves =
    enters (pos 2) 0
    ∷ enters (pos 2) 1
    ∷ takes 1
    ∷ enters (pos 2) 2
    ∷ takes 0
    ∷ takes 2
    ∷ counts_in 0
    ∷ gives_up 2
    ∷ counts_in 1
    ∷ counts_in 2
    ∷ leaves (pos 2) 0
    ∷ counts_out 0
    ∷ puts_back 0
    ∷ []

two : limit_for (pos 2) ≡ some 2
unfolding limit_for
two = refl

move_all-within_limit_example :
    let s = move_all moves no_pools in
    (count holds s.threads ≤ 2)
    × (s.over_released ≡ 0)
    × ((r : ℕ)
        → s.current ≡ some r
        → ((s.pool r).limit ≡ 2)
          × ((s.pool r).in_flight ≡ count in_flight s.threads)
          × ((s.pool r).permits + count keeps_permit s.threads ≡ 2))
move_all-within_limit_example =
    move_all-within_limit 2 moves
      (two, (two, (tt, (two, (tt, (tt, (tt, (tt, (tt, (tt, (two, (tt, (tt, tt)))))))))))))

-- One thread holds the resource at the end of these moves.
moves-holders : count holds (move_all moves no_pools).threads ≡ 1
unfolding move_all
moves-holders = refl

change_of_limit-exceeds_example :
    let s = move_all (change_of_limit 3 2) no_pools in
    (r : ℕ) × (s.current ≡ some r) × ((s.pool r).limit ≡ 2) × (count holds s.threads ≡ 3)
change_of_limit-exceeds_example =
    change_of_limit-exceeds 3 2 (omega arith) (omega arith) (omega arith)
