-- ===== src/Arrango/Admission.antt =====
-- backend/arrango/admission.go and capacity.go: what a solve has to pass before it is sent. What a
-- node answers, and how many solves the job table counts on it, are arguments; an error of the
-- database is not modelled.
pub mod Pick
use goptivum.Prelude.{
  Bool, List, Option, Result, [], err, false, if◌then◌else◌, leb, ltb, min, none, not, ok,
  refuse_if, select, some, true, ℕ, ◌&&◌, ◌==◌, ◌>>=◌, ◌>>◌, ◌||◌, ◌∷◌,
}
use goptivum.Solve.Capacity.{
  Capacity, Ceilings, NodeStatus, TimeRefusal, capacity_of, check_time_limit, clamp_workers,
  no_ceiling, too_long,
}
use goptivum.Solve.Baseline.{BaselineRefusal, Lesson, baseline_snapshot, check_baseline}
use goptivum.Arrango.Limits.{Limits}

pub record Node : Type 0 where
  pub id : ℕ
  pub revoked : Bool
  pub limits : Limits

pub data Capability : Type 0 where
  rule_metadata stall_stop solve_time_ceiling : Capability

-- The answer to `Validate`: whether the schedule holds, and how many conflicts it names.
pub record Report : Type 0 where
  pub valid : Bool
  pub conflicts : ℕ

-- What a node answers just now; `none` is a call that failed.
pub record Answer : Type 0 where
  pub reached : Bool
  pub status : Option NodeStatus
  pub info : Option (List Capability)
  pub report : Option Report

pub data AdmitError : Type 0 where
  baseline_refused : BaselineRefusal → AdmitError
  outdated : Capability → AdmitError
  model_invalid : ℕ → AdmitError
  limit_too_long : ℕ → AdmitError
  unreachable no_capacity no_node node_revoked : AdmitError

abbrev pub same_capability : Capability → Capability → Bool
same_capability rule_metadata rule_metadata = true
same_capability stall_stop stall_stop = true
same_capability solve_time_ceiling solve_time_ceiling = true
same_capability _ _ = false

-- `slices.Contains`
unfoldable pub can : List Capability → Capability → Bool
can [] c = false
can (d ∷ ds) c = same_capability d c || can ds c

abbrev pub need {ℓ} : {A : Type ℓ} → Option A → Result AdmitError A
need none = err unreachable
need (some a) = ok a

-- A schedule that the node checked and refused; a failed check is no refusal.
abbrev pub check_report : Bool → Option Report → Result AdmitError (Unit {0})
check_report false report = ok tt
check_report true none = ok tt
check_report true (some r) =
    if not r.valid && ltb 0 r.conflicts then err (model_invalid r.conflicts) else ok tt

unfoldable pub preflight : Answer → Bool → Bool → Result AdmitError Capacity
preflight answer has_snapshot stall = do
  refuse_if (not answer.reached) unreachable
  status ← need answer.status
  capabilities ← need answer.info
  refuse_if (not (can capabilities rule_metadata)) (outdated rule_metadata)
  refuse_if (stall && not (can capabilities stall_stop)) (outdated stall_stop)
  check_report has_snapshot answer.report
  ok (capacity_of status)

-- What of a request admission reads.
pub record Request : Type 0 where
  pub lessons : Option (List (Lesson ℕ))
  pub ignore_previous : Bool
  pub stall_stop_seconds : ℕ
  pub total_time_seconds : ℕ
  pub num_workers : ℕ

pub record Admission : Type 0 where
  pub node : Node
  pub workers : ℕ
  pub capacity : Capacity

abbrev pub has_snapshot_of : Request → Bool
has_snapshot_of request = elim (baseline_snapshot request.lessons request.ignore_previous) [
  | none ↦ false
  | some s ↦ true
]

abbrev pub time_check : Result TimeRefusal (Unit {0}) → Result AdmitError (Unit {0})
time_check (ok u) = ok tt
time_check (err no_ceiling) = err (outdated solve_time_ceiling)
time_check (err (too_long seconds)) = err (limit_too_long seconds)

-- The node's own ceiling on solves, 0 for none.
abbrev pub solve_ceiling : Option Ceilings → ℕ
solve_ceiling none = 0
solve_ceiling (some c) = c.solves

abbrev pub worker_ceiling_of : Option Ceilings → ℕ
worker_ceiling_of none = 0
worker_ceiling_of (some c) = c.workers

-- The most workers a solve gets on this node.
unfoldable pub ceiling_for : Node → Capacity → ℕ
ceiling_for node capacity =
    let own = min node.limits.workers capacity.affordable_workers in
    let top = worker_ceiling_of capacity.ceilings in if ltb 0 top then min own top else own

unfoldable pub admit_on : ℕ → Node → Answer → Request → Result AdmitError Admission
admit_on running node answer request = do
  refuse_if (leb node.limits.solves running) no_capacity
  capacity ← preflight answer (has_snapshot_of request) (ltb 0 request.stall_stop_seconds)
  time_check (check_time_limit capacity request.total_time_seconds)
  refuse_if
      (ltb 0 (solve_ceiling capacity.ceilings) && leb (solve_ceiling capacity.ceilings) running)
      no_capacity
  refuse_if (capacity.affordable_workers == 0) no_capacity
  let requested = if request.num_workers == 0 then node.limits.workers else request.num_workers
  ok (record {
    node = node;
    workers = clamp_workers requested (ceiling_for node capacity);
    capacity = capacity;
  })

-- The refusals seen so far in the loop over the candidates.
pub record Seen : Type 0 where
  pub busy : Bool
  pub silent : Bool
  pub limit : Option ℕ
  pub old_node : Option Capability

abbrev pub none_seen : Seen
none_seen = record { busy = false; silent = false; limit = none; old_node = none }

-- The longer of two ceilings on time.
abbrev pub longer : Option ℕ → ℕ → Option ℕ
longer none seconds = some seconds
longer (some s) seconds = if ltb s seconds then some seconds else some s

-- The switch of the loop: what is noted, or `none` for an error that ends it.
unfoldable pub note : Seen → AdmitError → Option Seen
note seen (outdated c) = some (record seen { old_node = some c })
note seen (limit_too_long s) = some (record seen { limit = longer seen.limit s })
note seen no_capacity = some (record seen { busy = true })
note seen unreachable = some (record seen { silent = true })
note seen _ = none

-- The switch behind the loop.
unfoldable pub refusal_of : Seen → AdmitError
refusal_of seen =
    if seen.busy then no_capacity else if seen.silent then unreachable else elim seen.limit [
      | some s ↦ limit_too_long s
      | none ↦ elim seen.old_node [ some c ↦ outdated c | none ↦ no_node ]
    ]

-- `Registry.Get` and `Registry.Active`: the nodes as listed, earliest paired first.
unfoldable pub find_node : List Node → ℕ → Option Node
find_node [] id = none
find_node (n ∷ ns) id = if n.id == id then some n else find_node ns id

abbrev pub baseline_check : Result BaselineRefusal (Unit {0}) → Result AdmitError (Unit {0})
baseline_check (ok u) = ok tt
baseline_check (err e) = err (baseline_refused e)

abbrev pub known_node : Option Node → Result AdmitError Node
known_node none = err no_node
known_node (some n) = ok n

module _ (running : ℕ → ℕ) (answers : ℕ → Answer) where
  abbrev pub admit_node : Request → Node → Result AdmitError Admission
  admit_node request node = admit_on (running node.id) node (answers node.id) request

  unfoldable pub pick : Request → Seen → List Node → Result AdmitError Admission
  pick request seen [] = err (refusal_of seen)
  pick request seen (node ∷ nodes) = elim (admit_node request node) [
    | ok admission ↦ ok admission
    | err e ↦ elim (note seen e) [ some seen' ↦ pick request seen' nodes | none ↦ err e ]
  ]

  -- The node named, if it is paired and trusted.
  unfoldable pub admit_named : List Node → ℕ → Request → Result AdmitError Admission
  admit_named nodes node_id request = do
    node ← known_node (find_node nodes node_id)
    refuse_if node.revoked node_revoked
    admit_node request node

  -- Node 0 is any node.
  unfoldable pub admit : List Node → ℕ → Request → Result AdmitError Admission
  admit nodes node_id request =
      baseline_check (check_baseline request.lessons request.ignore_previous)
      >> (if node_id == 0
          then pick request none_seen (select (λ n. not n.revoked) nodes)
          else admit_named nodes node_id request)
