-- ===== src/Resources/Threads/Settled.antt =====
-- A resource whose limit in the settings stays, and a step of one of its threads
-- (core/resources/pool.py).
use mathlib.Core.Path.{subst}
use high_performance_e_comme.Common.{
  ℕ, zero, suc, ◌+◌, ◌-◌, ◌≡◌, refl, sym, ap, ◌∙◌, Bool-cases, inl, inr, Option, none, some, true,
  arith, ltb, ==_self, Option-cases,
}
use high_performance_e_comme.Common.Int.{ℤ}
use high_performance_e_comme.Resources.{Pool, limit_for, new_pool}
use high_performance_e_comme.Resources.Threads.{
  Phase, outside, looked_up, has_permit, turned_away, inside, leaving, returning, Threads, phase_of,
  set_phase, System, goes, set_pool, look_up, enter, take, give_up, count_in, leave, count_out,
  put_back,
}
use high_performance_e_comme.Resources.Threads.Counts.{
  count, keeps_permit, in_flight, count-set_phase, count-ge, Uses, Use, Use-set_phase, Use-phase_of,
  Use-none,
}

-- The pool has the limit, its permits and those of the threads make it up, and it counts its
-- threads.
pub record Adds (limit : ℕ) (p : Pool) (ts : Threads) : Type 0 where
  pub limited : p.limit ≡ limit
  pub permitted : p.permits + count keeps_permit ts ≡ limit
  pub counted : p.in_flight ≡ count in_flight ts

abbrev pub IsRight : ℕ → System → Option ℕ → Type 0
IsRight limit s none = (count keeps_permit s.threads ≡ 0) × (count in_flight s.threads ≡ 0)
IsRight limit s (some r) = Adds limit (s.pool r) s.threads

pub record IsSettled (limit : ℕ) (s : System) : Type 0 where
  pub right : IsRight limit s s.current
  pub used : Use s.current s.threads
  pub fine : s.over_released ≡ 0

-- A thread goes on to a phase that weighs as much.
goes-IsSettled :
    (limit t : ℕ) (p : Phase) (s : System)
    → keeps_permit p ≡ keeps_permit (phase_of t s.threads)
    → in_flight p ≡ in_flight (phase_of t s.threads)
    → Uses s.current p
    → IsSettled limit s
    → IsSettled limit (goes t p s)
goes-IsSettled limit t p s k f u h = record {
  right = go s.current h.right;
  used = Use-set_phase s.current t p s.threads u h.used;
  fine = h.fine;
}
  where
    same_permits : count keeps_permit (set_phase t p s.threads) ≡ count keeps_permit s.threads
    same_permits = omega (arith, count-set_phase keeps_permit t p s.threads refl)

    same_flight : count in_flight (set_phase t p s.threads) ≡ count in_flight s.threads
    same_flight = omega (arith, count-set_phase in_flight t p s.threads refl)

    go : (c : Option ℕ) → IsRight limit s c → IsRight limit (goes t p s) c
    go none (a, b) = (same_permits ∙ a, same_flight ∙ b)
    go (some r) a = record {
      limited = a.limited;
      permitted = omega (arith, a.permitted, same_permits);
      counted = omega (arith, a.counted, same_flight);
    }

-- A thread goes on and changes its pool by as much.
writes-IsSettled :
    (limit t r : ℕ) (p : Phase) (q : Pool) (s : System)
    → s.current ≡ some r
    → q.limit ≡ (s.pool r).limit
    → q.permits + keeps_permit p ≡ (s.pool r).permits + keeps_permit (phase_of t s.threads)
    → q.in_flight + in_flight (phase_of t s.threads) ≡ (s.pool r).in_flight + in_flight p
    → Uses s.current p
    → IsSettled limit s
    → IsSettled limit (record s { pool = set_pool r q s.pool; threads = set_phase t p s.threads })
writes-IsSettled limit t r p q s at same permits flight u h = record {
  right =
      subst
        (IsRight limit (record s { pool = set_pool r q s.pool; threads = set_phase t p s.threads }))
        (sym at) (rw (==_self r) adds);
  used = Use-set_phase s.current t p s.threads u h.used;
  fine = h.fine;
}
  where
    old : Adds limit (s.pool r) s.threads
    old = subst (IsRight limit s) at h.right

    adds : Adds limit q (set_phase t p s.threads)
    adds = record {
      limited = same ∙ old.limited;
      permitted =
          omega (arith, old.permitted, permits, count-set_phase keeps_permit t p s.threads refl);
      counted = omega (arith, old.counted, flight, count-set_phase in_flight t p s.threads refl);
    }

look_up-old :
    (limit t r : ℕ) (next : ℕ → Phase) (s : System)
    → s.current ≡ some r
    → (s.pool r).limit ≡ limit
    → look_up limit t next s ≡ goes t (next r) s
unfolding look_up
look_up-old limit t r next s at same = ground arith

-- `_get_pool` makes the first pool, and no other.
look_up-IsSettled :
    (limit t : ℕ) (next : ℕ → Phase) (s : System)
    → ((r : ℕ) → keeps_permit (next r) ≡ keeps_permit (phase_of t s.threads))
    → ((r : ℕ) → in_flight (next r) ≡ in_flight (phase_of t s.threads))
    → ((r : ℕ) → Uses (some r) (next r))
    → IsSettled limit s
    → IsSettled limit (look_up limit t next s)
unfolding look_up new_pool
look_up-IsSettled limit t next s k f u h = elim (Option-cases s.current) [
  | inl first ↦
      let (a, b) = subst (IsRight limit s) first h.right in
      let used = subst (λ c. Use c s.threads) first h.used in
      rw first (record {
        right = rw (==_self s.made) (record {
          limited = refl;
          permitted =
              omega
                (arith, a, k s.made, count-set_phase keeps_permit t (next s.made) s.threads refl);
          counted =
              omega (arith, b, f s.made, count-set_phase in_flight t (next s.made) s.threads refl);
        });
        used =
            Use-set_phase (some s.made) t (next s.made) s.threads (u s.made)
              (Use-none (some s.made) s.threads used);
        fine = h.fine;
      })
  | inr (r, at) ↦
      let old = subst (IsRight limit s) at h.right in
      subst (IsSettled limit) (sym (look_up-old limit t r next s at old.limited)) (
        goes-IsSettled limit t (next r) s (k r) (f r) (subst (λ c. Uses c (next r)) (sym at) (u r))
          h)
]

-- A thread's step, for the phase that the thread is in.
module _ (limit t : ℕ) (s : System) (h : IsSettled limit s) where
  uses : (p : Phase) → phase_of t s.threads ≡ p → Uses s.current p
  uses p e = subst (Uses s.current) e (Use-phase_of s.current t s.threads h.used)

  pub enter-IsSettled :
      (z : ℤ) (p : Phase)
      → limit_for z ≡ some limit
      → phase_of t s.threads ≡ p
      → IsSettled limit (enter z t p s)
  unfolding enter
  enter-IsSettled z outside valid e =
      rw valid
        (look_up-IsSettled limit t looked_up s (λ r. rw e refl) (λ r. rw e refl) (λ r. refl) h)
  enter-IsSettled z (inside n) valid e =
      goes-IsSettled limit t (inside (suc n)) s (rw e refl) (rw e refl) tt h
  enter-IsSettled z _ valid e = h

  pub take-IsSettled : (p : Phase) → phase_of t s.threads ≡ p → IsSettled limit (take t p s)
  unfolding take
  take-IsSettled (looked_up r) e = elim (Bool-cases (ltb 0 (s.pool r).permits)) [
    | inl free ↦ rw free (
        writes-IsSettled limit t r (has_permit r)
          (record (s.pool r) { permits = (s.pool r).permits - 1 }) s (uses (looked_up r) e) refl
          (rw e (ground arith)) (rw e refl) (uses (looked_up r) e) h)
    | inr taken ↦ rw taken h
  ]
  take-IsSettled _ e = h

  pub give_up-IsSettled : (p : Phase) → phase_of t s.threads ≡ p → IsSettled limit (give_up t p s)
  unfolding give_up
  give_up-IsSettled (looked_up r) e = elim (Bool-cases (ltb 0 (s.pool r).permits)) [
    | inl free ↦ rw free h
    | inr taken ↦
        rw taken (
          goes-IsSettled limit t (turned_away r) s (rw e refl) (rw e refl) (uses (looked_up r) e) h)
  ]
  give_up-IsSettled _ e = h

  pub count_in-IsSettled : (p : Phase) → phase_of t s.threads ≡ p → IsSettled limit (count_in t p s)
  unfolding count_in
  count_in-IsSettled (has_permit r) e =
      writes-IsSettled limit t r (inside 0)
        (record (s.pool r) {
          in_flight = (s.pool r).in_flight + 1;
          acquired_total = (s.pool r).acquired_total + 1;
        })
        s (uses (has_permit r) e) refl (rw e refl) (rw e (omega arith)) tt h
  count_in-IsSettled (turned_away r) e =
      writes-IsSettled limit t r outside
        (record (s.pool r) { rejected_total = (s.pool r).rejected_total + 1 }) s
        (uses (turned_away r) e) refl (rw e refl) (rw e refl) tt h
  count_in-IsSettled _ e = h

  pub leave-IsSettled :
      (z : ℤ) (p : Phase)
      → limit_for z ≡ some limit
      → phase_of t s.threads ≡ p
      → IsSettled limit (leave z t p s)
  unfolding leave
  leave-IsSettled z (inside zero) valid e =
      rw valid (look_up-IsSettled limit t leaving s (λ r. rw e refl) (λ r. rw e refl) (λ r. refl) h)
  leave-IsSettled z (inside (suc n)) valid e =
      goes-IsSettled limit t (inside n) s (rw e refl) (rw e refl) tt h
  leave-IsSettled z _ valid e = h

  -- The pool of a thread that uses one.
  adds : (r : ℕ) → s.current ≡ some r → Adds limit (s.pool r) s.threads
  adds r at = subst (IsRight limit s) at h.right

  pub count_out-IsSettled :
      (p : Phase) → phase_of t s.threads ≡ p → IsSettled limit (count_out t p s)
  unfolding count_out
  count_out-IsSettled (leaving r) e =
      let old = adds r (uses (leaving r) e) in
      let positive : ltb 0 (s.pool r).in_flight ≡ true =
        ground (arith, old.counted, count-ge in_flight t s.threads refl, ap in_flight e) in
      rw positive (
        writes-IsSettled limit t r (returning r)
          (record (s.pool r) { in_flight = (s.pool r).in_flight - 1 }) s (uses (leaving r) e) refl
          (rw e refl) (rw e (ground arith)) (uses (leaving r) e) h)
  count_out-IsSettled _ e = h

  pub put_back-IsSettled : (p : Phase) → phase_of t s.threads ≡ p → IsSettled limit (put_back t p s)
  unfolding put_back
  put_back-IsSettled (returning r) e =
      let old = adds r (uses (returning r) e) in
      let below : ltb (s.pool r).permits (s.pool r).limit ≡ true = ground (
        arith,
        old.limited,
        old.permitted,
        count-ge keeps_permit t s.threads refl,
        ap keeps_permit e,
      ) in
      rw below (
        writes-IsSettled limit t r outside (record (s.pool r) { permits = (s.pool r).permits + 1 })
          s (uses (returning r) e) refl (rw e (omega arith)) (rw e refl) tt h)
  put_back-IsSettled _ e = h
