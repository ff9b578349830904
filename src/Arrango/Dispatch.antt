-- ===== src/Arrango/Dispatch.antt =====
-- backend/arrango/dispatch.go: a solve from its order to its closed row. The nodes, the plans and
-- the store of results answer through arguments; times are arguments too.
pub mod Settle
pub mod Slots
use goptivum.Prelude.{
  Bool, List, Option, Result, [], err, false, if◌then◌else◌, none, not, ok, refuse_if, some, true,
  ℕ, ◌&&◌, ◌++◌, ◌>>=◌, ◌>>◌, ◌∷◌,
}
use goptivum.Text.{codes}
use goptivum.Solve.Capacity.{seconds_or_default}
use goptivum.Solve.Stream.{
  Config, SolveResult, SolveStatus, SolveUpdate, absorb_all, cancelled, done, failed_solve,
  infeasible, is_some, no_result, timeout,
}
use goptivum.Arrango.Admission.{Admission, AdmitError, Answer, Node, Request, admit}
use goptivum.Arrango.Jobs.{
  Job, JobError, NewJob, Outcome, Reason, Status, count_active, create, failed, finish, get_job,
  grant, no_job, no_reason, no_schedule_in_time, node_error, preflight_failed, result_not_stored,
  start,
}

-- One solve a caller asks for, with what of its request the program reads.
pub record Order : Type 0 where
  pub plan_id : ℕ
  pub version : ℕ
  pub source_result_id : ℕ
  pub node_id : ℕ
  pub request : Request

-- A request that asks for no time gets the solver's default.
abbrev pub timed : Request → Request
timed r = record r { total_time_seconds = seconds_or_default r.total_time_seconds }

pub data BeginError : Type 0 where
  refused : AdmitError → BeginError
  needs_model : BeginError
  not_opened : JobError → BeginError

abbrev pub or_refused {ℓ} : {A : Type ℓ} → Result AdmitError A → Result BeginError A
or_refused (ok a) = ok a
or_refused (err e) = err (refused e)

abbrev pub or_not_opened {ℓ} : {A : Type ℓ} → Result JobError A → Result BeginError A
or_not_opened (ok a) = ok a
or_not_opened (err e) = err (not_opened e)

unfoldable pub new_job : Order → Admission → NewJob
new_job order admission = record {
  plan_id = order.plan_id;
  version = order.version;
  source_result_id = order.source_result_id;
  node_id = admission.node.id;
  workers = admission.workers;
  time_limit_seconds = seconds_or_default order.request.total_time_seconds;
  improve = not order.request.ignore_previous;
  stall_stop_seconds = order.request.stall_stop_seconds;
}

-- `Begin`: counting a node's solves and opening the job is one step.
unfoldable pub begin_solve :
    (ℕ → Answer)
    → List Node
    → List Job
    → Order
    → ℕ
    → ℕ
    → Result BeginError (List Job × Admission × Job)
begin_solve answers nodes jobs order id now = do
  refuse_if (not (is_some order.request.lessons)) needs_model
  admission ←
      or_refused (admit (count_active jobs) answers nodes order.node_id (timed order.request))
  (jobs', job) ← or_not_opened (create jobs id now (new_job order admission))
  ok (jobs', admission, job)

-- An error of a run, and whether it is a cancel.
pub record RunError : Type 0 where
  pub cancelled : Bool
  pub text : List ℕ

-- What a run meets: whether the plan is out of Trash (none without a check), the node's row now,
-- and the connection: the frames it brings and the error that ends it.
pub record Circumstances : Type 0 where
  pub live : Option (Result RunError Bool)
  pub node : Result RunError Node
  pub stream : Result RunError (List SolveUpdate)
  pub stream_end : Option RunError

-- The plan is in Trash, or the node is revoked; the wording is left out.
abbrev pub cancelled_error : RunError
cancelled_error = record { cancelled = true; text = [] }

-- What stops a run before it dials.
unfoldable pub run_guard : Circumstances → Option RunError
run_guard c = elim c.live [
  | some (err e) ↦ some e
  | some (ok false) ↦ some cancelled_error
  | _ ↦ elim c.node [ err e ↦ some e | ok n ↦ if n.revoked then some cancelled_error else none ]
]

-- The first settings that the frames echo.
unfoldable pub first_config : List SolveUpdate → Option Config
first_config [] = none
first_config (u ∷ us) = elim u.config [ some c ↦ some c | none ↦ first_config us ]

unfoldable pub granted_jobs : List Job → ℕ → Option Config → List Job
granted_jobs jobs id none = jobs
granted_jobs jobs id (some c) =
    grant jobs id c.total_time_seconds c.num_workers c.stall_stop_seconds

unfoldable pub run_solve :
    Circumstances → List Job → ℕ → ℕ → List Job × SolveResult × Option RunError
run_solve c jobs id now = elim (run_guard c) [
  | some e ↦ (jobs, no_result, some e)
  | none ↦ elim c.stream [
    | err e ↦ (jobs, no_result, some e)
    | ok updates ↦ (
      granted_jobs (start jobs id now) id (first_config updates),
      absorb_all no_result updates,
      c.stream_end,
    )
  ]
]

unfoldable pub failure_reason : SolveStatus → Reason
failure_reason SolveStatus.infeasible = Reason.infeasible
failure_reason timeout = no_schedule_in_time
failure_reason _ = node_error

abbrev pub is_error : SolveStatus → Bool
is_error failed_solve = true
is_error _ = false

abbrev pub is_cancelled : SolveStatus → Bool
is_cancelled SolveStatus.cancelled = true
is_cancelled _ = false

-- The switch of `Finish`: how a run that ended so closes its job.
unfoldable pub verdict_of : SolveResult → Option RunError → Status × Reason × List ℕ
verdict_of result (some e) =
    if e.cancelled then (Status.cancelled, no_reason, e.text) else (failed, node_error, e.text)
verdict_of result none =
    if is_cancelled result.status
    then (Status.cancelled, no_reason, result.message)
    else if not result.has_schedule
    then (
      failed,
      (if is_error result.status && result.preflight_refused
          then preflight_failed
          else failure_reason result.status),
      result.message,
    )
    else (Status.done, no_reason, result.message)

-- Storing the schedule: nothing to store or nobody to store it, the result's id, or an error.
pub data Stored : Type 0 where
  not_stored : Stored
  stored_as : ℕ → Stored
  store_failed : List ℕ → Stored

unfoldable pub store : Option (SolveResult → Result (List ℕ) ℕ) → SolveResult → Stored
store none result = not_stored
store (some persist) result =
    if result.has_schedule
    then elim (persist result) [ ok id ↦ stored_as id | err text ↦ store_failed text ]
    else not_stored

abbrev pub is_done : Status → Bool
is_done Status.done = true
is_done _ = false

-- What stands between the run's detail and the store's error.
abbrev pub not_stored_text : List ℕ
not_stored_text = codes "; the schedule could not be stored: "

-- The verdict after the schedule was stored, or was not.
unfoldable pub settled : Status × Reason × List ℕ → Stored → Status × Reason × List ℕ × Option ℕ
settled (s, r, d) not_stored = (s, r, d, none)
settled (s, r, d) (stored_as id) = (s, r, d, some id)
settled (s, r, d) (store_failed text) =
    ((if is_done s then failed else s), result_not_stored, d ++ not_stored_text ++ text, none)

abbrev pub config_workers : Option Config → ℕ
config_workers none = 0
config_workers (some c) = c.num_workers

abbrev pub config_seconds : Option Config → ℕ
config_seconds none = 0
config_seconds (some c) = c.total_time_seconds

unfoldable pub outcome_of : SolveResult → Status × Reason × List ℕ × Option ℕ → Outcome
outcome_of result (s, r, d, id) = record {
  status = s;
  reason = r;
  detail = d;
  result_id = id;
  quality = if result.has_schedule && is_some result.score then some result.quality else none;
  verdict = result.verdict;
  explanation = result.explanation;
  workers = config_workers result.config;
  time_limit_seconds = config_seconds result.config;
  peak_rss_bytes = result.peak_rss_bytes;
  cpu_seconds = result.cpu_seconds;
}

-- The outcome that a run and the store of its schedule give.
unfoldable pub outcome_for :
    Option (SolveResult → Result (List ℕ) ℕ) → SolveResult → Option RunError → Outcome
unfolding outcome_of settled store verdict_of
outcome_for persist result run_error =
    outcome_of result (settled (verdict_of result run_error) (store persist result))

-- What `Finish` leaves and returns: the table, the result with its job and the id it was kept as (0
-- for none), and the two errors that `errors.Join` puts together.
pub record Finished : Type 0 where
  pub jobs : List Job
  pub result : SolveResult
  pub job : Job
  pub result_id : ℕ
  pub run_error : Option RunError
  pub job_error : Option JobError

abbrev pub id_or_zero : Option ℕ → ℕ
id_or_zero none = 0
id_or_zero (some id) = id

-- Closing the row and reading it back, after a run of this job.
unfoldable pub close_row : List Job → Job → SolveResult → Option RunError → Outcome → ℕ → Finished
close_row jobs job result run_error outcome now =
    let left : Finished = record {
      jobs = jobs;
      result = result;
      job = job;
      result_id = id_or_zero outcome.result_id;
      run_error = run_error;
      job_error = none;
    } in
    elim (finish jobs job.id now outcome) [
      | err e ↦ record left { job_error = some e }
      | ok jobs' ↦ elim (get_job jobs' job.id) [
        | none ↦ record left { jobs = jobs'; job_error = some no_job }
        | some closed ↦ record left { jobs = jobs'; job = closed }
      ]
    ]

-- `Finish`: run, store, close the row.
unfoldable pub finish_solve :
    Option (SolveResult → Result (List ℕ) ℕ) → Circumstances → List Job → Job → ℕ → ℕ → Finished
unfolding close_row
finish_solve persist c jobs job started_now now =
    let (jobs', result, run_error) = run_solve c jobs job.id started_now in
    close_row jobs' job result run_error (outcome_for persist result run_error) now
