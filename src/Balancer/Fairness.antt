-- ===== src/Balancer/Fairness.antt =====
-- How many requests each backend gets (load_distribution_sim/sim.py).
use mathlib.Core.Path.{subst}
use high_performance_e_comme.Common.{
  ℕ, ◌+◌, ◌/◌, ◌%◌, ◌≤◌, ◌<◌, ◌≡◌, ◌⊎◌, sym, refl, inl, inr, List, [], ◌∷◌, map, arith, ltb,
  if◌then◌else◌, length, All, Bool-cases,
}
use high_performance_e_comme.Balancer.{
  Backend, Arrival, active, goes_first, advance_to, assign, assign_at, least_busy, round_robin,
  three_backends,
}

-- Three backends that have handled so many requests.
abbrev pub Handled : ℕ → ℕ → ℕ → List Backend → Type 0
Handled x y z (a ∷ b ∷ c ∷ []) = (a.handled ≡ x) × (b.handled ≡ y) × (c.handled ≡ z)
Handled x y z _ = ⊥

-- The shares after n requests.
abbrev pub Shared : ℕ → List Backend → Type 0
Shared n = Handled ((n + 2) / 3) ((n + 1) / 3) (n / 3)

remainders : (n : ℕ) → (n % 3 ≡ 0) ⊎ (n % 3 ≡ 1) ⊎ (n % 3 ≡ 2)
remainders n = elim (Bool-cases (ltb (n % 3) 1)) [
  | inl zeroth ↦ inl (ground arith)
  | inr more ↦ elim (Bool-cases (ltb (n % 3) 2)) [
    | inl first ↦ inr (inl (ground arith))
    | inr second ↦ inr (inr (ground arith))
  ]
]

round-Shared :
    (n now cost : ℕ) (bs : List Backend)
    → Shared n bs
    → Shared (n + 1) (assign_at now cost (n % length bs) (map (advance_to now) bs))
unfolding assign_at advance_to assign
round-Shared n now cost (a ∷ b ∷ c ∷ []) h = elim (remainders n) [
  | inl r ↦ rw r (omega arith)
  | inr (inl r) ↦ rw r (omega arith)
  | inr (inr r) ↦ rw r (omega arith)
]
round-Shared n now cost _ h = absurd h

rounds-Shared :
    (n : ℕ) (rs : List Arrival) (bs : List Backend)
    → Shared n bs
    → Shared (n + length rs) (round_robin n rs bs)
unfolding round_robin
rounds-Shared n [] bs h = subst (λ k. Shared k bs) (omega arith) h
rounds-Shared n ((now, cost) ∷ rs) bs h =
    subst
      (λ k.
        Shared k
          (round_robin (n + 1) rs (assign_at now cost (n % length bs) (map (advance_to now) bs))))
      (omega arith)
      (rounds-Shared (n + 1) rs (assign_at now cost (n % length bs) (map (advance_to now) bs))
        (round-Shared n now cost bs h))

-- Round robin: of n requests, whatever they cost and whenever they arrive, the three backends get
-- n / 3, the first of them one more where 3 does not divide n, and the second where the rest is 2.
pub round_robin-shares :
    (rs : List Arrival)
    → Handled
        ((length rs + 2) / 3)
        ((length rs + 1) / 3)
        (length rs / 3)
        (round_robin 0 rs three_backends)
unfolding three_backends
round_robin-shares rs =
    subst (λ k. Shared k (round_robin 0 rs three_backends)) (omega arith)
      (rounds-Shared 0 rs three_backends (omega arith))

-- Fewer requests running, or as many and a name that is not larger.
abbrev pub IsBusier : Backend → Backend → Type 0
IsBusier b c = (active b < active c) ⊎ (active b ≡ active c) × (b.name ≤ c.name)

IsBusier-trans : (a b c : Backend) → IsBusier a b → IsBusier b c → IsBusier a c
IsBusier-trans a b c h k = ground arith

-- The better of two backends.
pick :
    (b c : Backend)
    → ((if goes_first b c then b else c) ≡ b) × IsBusier b c
      ⊎ ((if goes_first b c then b else c) ≡ c) × IsBusier c b
pick b c = ground arith

-- Of all the backends, the pick of least connections has the fewest requests running, and of those
-- with as few the smallest name.
pub least_busy-minimal :
    (b : Backend) (bs : List Backend) → All (IsBusier (least_busy b bs)) (b ∷ bs)
unfolding least_busy
least_busy-minimal b [] = (inr (refl, omega arith), tt)
least_busy-minimal b (c ∷ cs) = elim (pick b c) [
  | inl (e, less) ↦
      let (least, rest) = least_busy-minimal b cs in
      subst (λ x. All (IsBusier (least_busy x cs)) (b ∷ c ∷ cs)) (sym e)
        (least, (IsBusier-trans (least_busy b cs) b c least less, rest))
  | inr (e, less) ↦
      let (least, rest) = least_busy-minimal c cs in
      subst (λ x. All (IsBusier (least_busy x cs)) (b ∷ c ∷ cs)) (sym e)
        (IsBusier-trans (least_busy c cs) c b least less, (least, rest))
]
