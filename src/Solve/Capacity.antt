-- ===== src/Solve/Capacity.antt =====
-- solveclient/status.go, solve.go and errors.go: the node's ceilings, the workers its memory
-- covers, and the checks on workers and on time. Byte counts and seconds are natural numbers; a
-- float of the source is compared only, and counted here in some unit that is fine enough.
use goptivum.Prelude.{
  Option, Result, arith, err, if◌then◌else◌, leb, ltb, none, ok, some, ℕ, ◌*◌, ◌+◌, ◌-◌, ◌/◌, ◌<◌,
  ◌==◌, ◌^◌, ◌||◌, ◌≡◌, ◌≤◌, ◌⊎◌,
}

abbrev pub per_worker_bytes : ℕ
per_worker_bytes = 900 * 2 ^ 20

abbrev pub base_bytes : ℕ
base_bytes = 2 * 2 ^ 30

abbrev pub default_workers : ℕ
default_workers = 4

abbrev pub max_workers : ℕ
max_workers = 64

-- 0 solves or workers is no limit.
pub record Ceilings : Type 0 where
  pub solves : ℕ
  pub workers : ℕ
  pub seconds : ℕ

-- A node's policy for this server, as its status carries it.
pub record Policy : Type 0 where
  pub max_concurrent_solves : ℕ
  pub worker_ceiling : ℕ
  pub max_solve_seconds : ℕ

pub record NodeStatus : Type 0 where
  pub policy : Option Policy
  pub cores : ℕ
  pub available_bytes : ℕ
  pub committed_bytes : ℕ
  pub running_solves : ℕ

unfoldable pub ceilings_of : NodeStatus → Option Ceilings
ceilings_of status = elim status.policy [
  | none ↦ none
  | some policy ↦ some (record {
    solves = policy.max_concurrent_solves;
    workers = if policy.worker_ceiling == 0 then status.cores else policy.worker_ceiling;
    seconds = policy.max_solve_seconds;
  })
]

-- `known` and the figures that no decision reads are left out.
pub record Capacity : Type 0 where
  pub cores : ℕ
  pub free_bytes : ℕ
  pub affordable_workers : ℕ
  pub running_solves : ℕ
  pub ceilings : Option Ceilings

unfoldable pub affordable_workers_of : ℕ → ℕ → ℕ
affordable_workers_of free cores =
    if cores == 0 || leb free base_bytes
    then 0
    else (let workers = (free - base_bytes) / per_worker_bytes in
        if ltb cores workers then cores else workers)

unfoldable pub capacity_of : NodeStatus → Capacity
capacity_of status =
    let free =
      if ltb status.committed_bytes status.available_bytes
      then status.available_bytes - status.committed_bytes
      else 0 in
    record {
      cores = status.cores;
      free_bytes = free;
      affordable_workers = affordable_workers_of free status.cores;
      running_solves = status.running_solves;
      ceilings = ceilings_of status;
    }

unfoldable pub clamp_workers : ℕ → ℕ → ℕ
clamp_workers requested ceiling =
    let top = if ceiling == 0 || ltb max_workers ceiling then max_workers else ceiling in
    let asked = if requested == 0 then default_workers else requested in
    if ltb top asked then top else asked

-- What a request may be refused for before anything is sent.
pub data TimeRefusal : Type 0 where
  no_ceiling : TimeRefusal
  too_long : ℕ → TimeRefusal

abbrev pub default_seconds : ℕ
default_seconds = 180

-- The seconds a request asks for, 0 for the solver's default.
abbrev pub seconds_or_default : ℕ → ℕ
seconds_or_default seconds = if seconds == 0 then default_seconds else seconds

unfoldable pub check_time_limit : Capacity → ℕ → Result TimeRefusal (Unit {0})
check_time_limit capacity seconds = elim capacity.ceilings [
  | none ↦ err no_ceiling
  | some c ↦
      if c.seconds == 0
      then err no_ceiling
      else if ltb c.seconds (seconds_or_default seconds)
      then err (too_long c.seconds)
      else ok tt
]

-- `NodeBudget` and `Deadline`, in seconds times four, so that a quarter of the search is whole.
abbrev pub quarters : ℕ → ℕ
quarters seconds = 4 * seconds

unfoldable pub node_budget : ℕ → ℕ → ℕ
node_budget search explain =
    let search' = quarters (seconds_or_default search) in
    let share = seconds_or_default search in
    let floor = if ltb share (quarters 5) then quarters 5 else share in
    let explainer =
      if explain == 0
      then (if ltb (quarters 30) floor then quarters 30 else floor)
      else quarters explain in
    search' + explainer + quarters 60

unfoldable pub deadline : ℕ → ℕ → ℕ
deadline search explain = node_budget search explain + quarters 30

-- However many workers are asked for, the solve gets at least one, never the zero that means all
-- cores, at most the ceiling where there is one, and at most `max_workers`; and a request that is
-- within the ceiling is granted as it is, if it asks for some and for at most `max_workers`.
pub clamp_workers_bounds :
    (requested ceiling : ℕ)
    → (0 < clamp_workers requested ceiling)
      × (clamp_workers requested ceiling ≤ max_workers)
      × ((ceiling ≡ 0) ⊎ (clamp_workers requested ceiling ≤ ceiling))
      × ((clamp_workers requested ceiling ≡ requested)
          ⊎ ((requested ≡ 0) ⊎ ((ceiling < requested) ⊎ (max_workers < requested))))
unfolding clamp_workers
clamp_workers_bounds requested ceiling = (ground arith, ground arith, ground arith, ground arith)

-- The workers that memory covers: they fit in what is free on top of the base, one more would not
-- unless the cores decide, and none is more than the cores.
pub affordable_workers_fit :
    (free cores : ℕ)
    → (affordable_workers_of free cores ≤ cores)
      × ((affordable_workers_of free cores ≡ 0)
          ⊎ (base_bytes + per_worker_bytes * affordable_workers_of free cores ≤ free))
      × ((affordable_workers_of free cores ≡ cores)
          ⊎ (free < base_bytes + per_worker_bytes * (affordable_workers_of free cores + 1)))
unfolding affordable_workers_of
affordable_workers_fit free cores = (ground arith, ground arith, ground arith)

-- When no time is asked for the explainer, the budget covers the search, the least time of the
-- explainer and the node's overhead; and the client always waits longer than the budget.
pub node_budget-lt-deadline :
    (search explain : ℕ)
    → (quarters (seconds_or_default search) + quarters 5 + quarters 60 ≤ node_budget search 0)
      × (node_budget search explain < deadline search explain)
unfolding node_budget deadline
node_budget-lt-deadline search explain = ground arith
