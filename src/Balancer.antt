-- ===== src/Balancer.antt =====
-- load_distribution_sim/sim.py: requests that are spread over backends. The random numbers are
-- arguments: a request is its arrival time and its cost, in milliseconds.
pub mod Fairness
use high_performance_e_comme.Common.{
  ℕ, zero, suc, ◌+◌, ◌%◌, Bool, true, false, Option, none, some, List, [], ◌∷◌, ◌++◌, map, ltb, leb,
  ◌==◌, if◌then◌else◌, length,
}

-- `Backend`. The heap of end times is their ascending list; a backend's name is its number.
pub record Backend : Type 0 where
  pub active_until : List ℕ
  pub name : ℕ
  pub handled : ℕ
  pub queue_samples : List ℕ

abbrev pub Arrival : Type 0
Arrival = ℕ × ℕ

-- The loop of `advance_to`: `heappop` while the first end time is over.
pub drop_ended : ℕ → List ℕ → List ℕ
drop_ended now [] = []
drop_ended now (t ∷ ts) = let rest = drop_ended now ts in if leb t now then rest else t ∷ ts

-- `heappush`
pub push_end : ℕ → List ℕ → List ℕ
push_end t [] = t ∷ []
push_end t (u ∷ us) = if leb t u then t ∷ u ∷ us else u ∷ push_end t us

pub advance_to : ℕ → Backend → Backend
unfolding drop_ended
advance_to now b = record b { active_until = drop_ended now b.active_until }

pub assign : ℕ → ℕ → Backend → Backend
unfolding advance_to push_end
assign now cost b =
    let b' = advance_to now b in
    let busy = push_end (now + cost) b'.active_until in
    record b' {
      active_until = busy;
      handled = b'.handled + 1;
      queue_samples = b'.queue_samples ++ length busy ∷ [];
    }

abbrev pub active : Backend → ℕ
active b = length b.active_until

-- `max_queue`
pub max_queue : List ℕ → ℕ
max_queue [] = 0
max_queue (n ∷ ns) = let m = max_queue ns in if ltb m n then n else m

-- `backends[i].assign(...)`
pub assign_at : ℕ → ℕ → ℕ → List Backend → List Backend
unfolding assign
assign_at now cost i [] = []
assign_at now cost zero (b ∷ bs) = assign now cost b ∷ bs
assign_at now cost (suc i) (b ∷ bs) = b ∷ assign_at now cost i bs

-- `min(backends, key=lambda item: (item.active, item.name))`
abbrev pub goes_first : Backend → Backend → Bool
goes_first a b =
    if ltb (active a) (active b)
    then true
    else if active a == active b
    then leb a.name b.name
    else false

pub least_busy : Backend → List Backend → Backend
least_busy b [] = b
least_busy b (c ∷ cs) = least_busy (if goes_first b c then b else c) cs

-- The backend object with a name gets the request.
pub assign_named : ℕ → ℕ → ℕ → List Backend → List Backend
unfolding assign
assign_named now cost name [] = []
assign_named now cost name (b ∷ bs) =
    if b.name == name then assign now cost b ∷ bs else b ∷ assign_named now cost name bs

abbrev pub assign_least : ℕ → ℕ → List Backend → List Backend
assign_least now cost [] = []
assign_least now cost (b ∷ bs) = assign_named now cost (least_busy b bs).name (b ∷ bs)

-- The loop of `run("round_robin")`, from a value of `rr_index`.
pub round_robin : ℕ → List Arrival → List Backend → List Backend
unfolding assign_at advance_to
round_robin rr_index [] bs = bs
round_robin rr_index ((now, cost) ∷ rs) bs =
    round_robin (rr_index + 1) rs
      (assign_at now cost (rr_index % length bs) (map (advance_to now) bs))

-- The loop of `run("least_conn")`.
pub least_conn : List Arrival → List Backend → List Backend
unfolding assign_named least_busy advance_to
least_conn [] bs = bs
least_conn ((now, cost) ∷ rs) bs = least_conn rs (assign_least now cost (map (advance_to now) bs))

pub new_backend : ℕ → Backend
new_backend name = record { active_until = []; name = name; handled = 0; queue_samples = [] }

-- `[Backend(name=f"web{i}") for i in range(1, 4)]`
pub three_backends : List Backend
unfolding new_backend
three_backends = new_backend 1 ∷ new_backend 2 ∷ new_backend 3 ∷ []
