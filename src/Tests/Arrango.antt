-- ===== src/Tests/Arrango.antt =====
-- Two nodes, one of them full, and a table of one solve.
use goptivum.Prelude.{
  List, Option, Result, [], arith, err, false, if◌then◌else◌, inl, inr, none, ok, refl, some, sym,
  true, ℕ, ◌++◌, ◌==◌, ◌↔◌, ◌∙◌, ◌∷◌, ◌≡◌, ◌≤◌,
}
use goptivum.Solve.Capacity.{
  Ceilings, NodeStatus, affordable_workers_of, capacity_of, ceilings_of, check_time_limit,
  clamp_workers,
}
use goptivum.Solve.Baseline.{baseline_snapshot, check_baseline}
use goptivum.Solve.Stream.{SolveResult, no_result}
use goptivum.Arrango.Admission.{
  Admission, Answer, Node, Request, Seen, admit, admit_node, admit_on, can, ceiling_for,
  no_capacity, none_seen, note, pick, preflight, refusal_of, rule_metadata, solve_time_ceiling,
  stall_stop,
}
use goptivum.Arrango.Admission.Pick.{AllPassed, Among, IsGranted, admit-IsGranted, pick_first}
use goptivum.Arrango.Jobs.{
  Job, NewJob, Status, count_active, count_rows, create, get_job, is_open, no_reason, opened,
  pending,
}
use goptivum.Arrango.Jobs.Lifecycle.{Evolved, apply, apply-Evolved, started}
use goptivum.Arrango.Dispatch.{
  Circumstances, Finished, Order, RunError, finish_solve, is_cancelled, outcome_for, run_solve,
  store,
}
use goptivum.Arrango.Dispatch.Settle.{IsOpenIn, finish_solve-get_job, is_lost, outcome_for_done}
use goptivum.Arrango.Dispatch.Slots.{
  Action, KeyedNodes, WithinSlots, act_all, act_all-WithinSlots, begun, written,
}

abbrev small_ceilings : Ceilings
small_ceilings = record { solves = 2; workers = 4; seconds = 600 }

abbrev full_node : Node
full_node = record { id = 1; revoked = false; limits = record { solves = 1; workers = 4 } }

abbrev free_node : Node
free_node = record { id = 2; revoked = false; limits = record { solves = 1; workers = 4 } }

abbrev nodes : List Node
nodes = full_node ∷ free_node ∷ []

abbrev answer : Answer
answer = record {
  reached = true;
  status = some (record {
    policy =
        some (record { max_concurrent_solves = 2; worker_ceiling = 3; max_solve_seconds = 600 });
    cores = 8;
    available_bytes = 17179869184;
    committed_bytes = 0;
    running_solves = 0;
  });
  info = some (rule_metadata ∷ stall_stop ∷ solve_time_ceiling ∷ []);
  report = none;
}

abbrev answers : ℕ → Answer
answers id = answer

abbrev request : Request
request = record {
  lessons = some [];
  ignore_previous = true;
  stall_stop_seconds = 0;
  total_time_seconds = 120;
  num_workers = 0;
}

abbrev order : Order
order = record { plan_id = 9; version = 1; source_result_id = 0; node_id = 0; request = request }

abbrev open_job : Job
open_job = record {
  id = 40;
  plan_id = 9;
  plan_version = 1;
  source_result = none;
  node_id = 1;
  status = pending;
  num_workers = 4;
  time_limit_seconds = 120;
  improve = false;
  stall_stop_seconds = 0;
  result_id = none;
  reason = no_reason;
  quality = none;
  verdict = none;
  explanation = none;
  detail = [];
  peak_rss_bytes = none;
  cpu_seconds = none;
  created_at = 5;
  started_at = none;
  finished_at = none;
}

abbrev jobs : List Job
jobs = open_job ∷ []

abbrev running_on : ℕ → ℕ
running_on node = if node == 1 then 1 else 0

abbrev status : NodeStatus
status = record {
  policy = some (record { max_concurrent_solves = 2; worker_ceiling = 3; max_solve_seconds = 600 });
  cores = 8;
  available_bytes = 17179869184;
  committed_bytes = 0;
  running_solves = 0;
}

abbrev admission : Admission
admission = record { node = free_node; workers = 3; capacity = capacity_of status }

pick_free : pick running_on answers request none_seen nodes ≡ ok admission
unfolding pick admit_on preflight capacity_of ceilings_of affordable_workers_of check_time_limit
    ceiling_for clamp_workers can note baseline_snapshot
pick_free = refl

pick_first_example :
    (before : List Node) × (n : Node) × (after : List Node) × (nodes ≡ before ++ n ∷ after)
    × AllPassed running_on answers request none_seen before
    × (admit_node running_on answers request n ≡ ok admission)
pick_first_example = pick_first running_on answers request none_seen nodes pick_free

abbrev busy_seen : Seen
busy_seen = record none_seen { busy = true }

pick_full : pick (λ id. 1) answers request busy_seen nodes ≡ err no_capacity
unfolding pick admit_on note refusal_of
pick_full = refl

admit_free : admit running_on answers nodes 0 request ≡ ok admission
unfolding admit pick admit_on preflight capacity_of ceilings_of affordable_workers_of
    check_time_limit ceiling_for clamp_workers can note check_baseline baseline_snapshot
admit_free = refl

admit-IsGranted_example :
    (check_baseline request.lessons request.ignore_previous ≡ ok tt)
    × Among free_node nodes
    × (free_node.revoked ≡ false)
    × IsGranted 0 free_node admission
admit-IsGranted_example = admit-IsGranted running_on answers nodes 0 request admit_free

nodes-KeyedNodes : KeyedNodes nodes
nodes-KeyedNodes m n (inl a) (inl b) same = sym a ∙ b
nodes-KeyedNodes m n (inl a) (inr (inl b)) same = absurd (ground (arith, a, b, same))
nodes-KeyedNodes m n (inr (inl a)) (inl b) same = absurd (ground (arith, a, b, same))
nodes-KeyedNodes m n (inr (inl a)) (inr (inl b)) same = sym a ∙ b
nodes-KeyedNodes m n (inr (inr none')) b same = absurd none'
nodes-KeyedNodes m n (inl a) (inr (inr none')) same = absurd none'
nodes-KeyedNodes m n (inr (inl a)) (inr (inr none')) same = absurd none'

jobs-WithinSlots : WithinSlots nodes jobs
unfolding count_active count_rows
jobs-WithinSlots n (inl e) = ground (arith, e)
jobs-WithinSlots n (inr (inl e)) = ground (arith, e)
jobs-WithinSlots n (inr (inr none')) = absurd none'

abbrev history : List Action
history = begun answers order 41 6 ∷ written (started 41 7) ∷ begun answers order 42 8 ∷ []

act_all-WithinSlots_example : count_active (act_all nodes jobs history) 2 ≤ 1
act_all-WithinSlots_example =
    act_all-WithinSlots nodes jobs history nodes-KeyedNodes jobs-WithinSlots free_node
      (inr (inl refl))

abbrev new_order : NewJob
new_order = record {
  plan_id = 9;
  version = 1;
  source_result_id = 0;
  node_id = 2;
  workers = 3;
  time_limit_seconds = 120;
  improve = false;
  stall_stop_seconds = 0;
}

create_second :
    create jobs 41 6 new_order ≡ ok (jobs ++ opened 41 6 new_order ∷ [], opened 41 6 new_order)
unfolding create get_job
create_second = refl

apply-Evolved_example : Evolved jobs (apply jobs (started 40 7))
apply-Evolved_example = apply-Evolved jobs (started 40 7)

abbrev stopped : RunError
stopped = record { cancelled = true; text = [] }

abbrev found : SolveResult
found = record no_result { has_schedule = true; snapshot = some 3 }

abbrev persist : Option (SolveResult → Result (List ℕ) ℕ)
persist = some (λ r. ok 12)

outcome_for_done_example : ((outcome_for persist found (some stopped)).status ≡ Status.done) ↔ (
    (some stopped ≡ none)
    × (is_cancelled found.status ≡ false)
    × (found.has_schedule ≡ true)
    × (is_lost (store persist found) ≡ false))
outcome_for_done_example = outcome_for_done persist found (some stopped)

abbrev circumstances : Circumstances
circumstances = record {
  live = some (ok true);
  node = ok full_node;
  stream = ok [];
  stream_end = some stopped;
}

jobs-IsOpenIn : IsOpenIn jobs 40
unfolding get_job
jobs-IsOpenIn = (open_job, refl, refl)

abbrev finished : Finished
finished = finish_solve persist circumstances jobs open_job 7 8

finish_solve-get_job_example :
    let (_, result, e) = run_solve circumstances jobs 40 7 in
    let outcome = outcome_for persist result e in
    (finished.run_error ≡ e)
    × (finished.job_error ≡ none)
    × (finished.result ≡ result)
    × (get_job finished.jobs 40 ≡ some finished.job)
    × (is_open finished.job.status ≡ false)
    × (finished.job.status ≡ outcome.status)
    × (finished.job.reason ≡ outcome.reason)
    × (finished.job.detail ≡ outcome.detail)
    × (finished.job.result_id ≡ outcome.result_id)
finish_solve-get_job_example =
    finish_solve-get_job persist circumstances jobs open_job 7 8 jobs-IsOpenIn
