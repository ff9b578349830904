-- ===== src/Arrango/Jobs.antt =====
-- backend/arrango/jobs.go: the table of solves. A statement of SQL is a function on the list of
-- rows; `coalesce` and `nullif` are written out. Columns that nothing reads back are left out.
pub mod Lifecycle
pub mod Active
use goptivum.Prelude.{
  Bool, List, Option, Result, [], err, false, if◌then◌else◌, none, ok, some, suc, true, ℕ, ◌&&◌,
  ◌++◌, ◌==◌, ◌∷◌,
}

pub data Status : Type 0 where
  pending running done failed cancelled : Status

-- Why a solve failed or kept nothing.
pub data Reason : Type 0 where
  no_reason node_error infeasible no_schedule_in_time preflight_failed : Reason
  result_not_stored server_restarted : Reason

pub record Job : Type 0 where
  pub id : ℕ
  pub plan_id : ℕ
  pub plan_version : ℕ
  pub source_result : Option ℕ
  pub node_id : ℕ
  pub status : Status
  pub num_workers : ℕ
  pub time_limit_seconds : ℕ
  pub improve : Bool
  pub stall_stop_seconds : ℕ
  pub result_id : Option ℕ
  pub reason : Reason
  pub quality : Option ℕ
  pub verdict : Option ℕ
  pub explanation : Option ℕ
  pub detail : List ℕ
  pub peak_rss_bytes : Option ℕ
  pub cpu_seconds : Option ℕ
  pub created_at : ℕ
  pub started_at : Option ℕ
  pub finished_at : Option ℕ

-- A solve about to be dispatched; a source result 0 is none.
pub record NewJob : Type 0 where
  pub plan_id : ℕ
  pub version : ℕ
  pub source_result_id : ℕ
  pub node_id : ℕ
  pub workers : ℕ
  pub time_limit_seconds : ℕ
  pub improve : Bool
  pub stall_stop_seconds : ℕ

-- What a finished solve is known by.
pub record Outcome : Type 0 where
  pub status : Status
  pub reason : Reason
  pub detail : List ℕ
  pub result_id : Option ℕ
  pub quality : Option ℕ
  pub verdict : Option ℕ
  pub explanation : Option ℕ
  pub workers : ℕ
  pub time_limit_seconds : ℕ
  pub peak_rss_bytes : ℕ
  pub cpu_seconds : ℕ

pub data JobError : Type 0 where
  no_job duplicate_id not_terminal : JobError

abbrev pub is_open : Status → Bool
is_open pending = true
is_open running = true
is_open _ = false

abbrev pub is_pending : Status → Bool
is_pending pending = true
is_pending _ = false

-- A number that is not 0, or nothing.
abbrev pub positive : ℕ → Option ℕ
positive n = if n == 0 then none else some n

-- `coalesce(nullif(new, 0), old)`
abbrev pub or_old : ℕ → ℕ → ℕ
or_old new old = if new == 0 then old else new

unfoldable pub get_job : List Job → ℕ → Option Job
get_job [] id = none
get_job (j ∷ js) id = if j.id == id then some j else get_job js id

unfoldable pub opened : ℕ → ℕ → NewJob → Job
opened id now open' = record {
  id = id;
  plan_id = open'.plan_id;
  plan_version = open'.version;
  source_result = positive open'.source_result_id;
  node_id = open'.node_id;
  status = pending;
  num_workers = open'.workers;
  time_limit_seconds = open'.time_limit_seconds;
  improve = open'.improve;
  stall_stop_seconds = open'.stall_stop_seconds;
  result_id = none;
  reason = no_reason;
  quality = none;
  verdict = none;
  explanation = none;
  detail = [];
  peak_rss_bytes = none;
  cpu_seconds = none;
  created_at = now;
  started_at = none;
  finished_at = none;
}

-- The id is drawn at random; one that is taken is refused by the primary key.
unfoldable pub create : List Job → ℕ → ℕ → NewJob → Result JobError (List Job × Job)
unfolding opened
create jobs id now open' = elim (get_job jobs id) [
  | some j ↦ err duplicate_id
  | none ↦ ok (jobs ++ opened id now open' ∷ [], opened id now open')
]

-- `update … where`: the rows that a test picks are changed.
unfoldable pub update_rows : (Job → Bool) → (Job → Job) → List Job → List Job
update_rows test change [] = []
update_rows test change (j ∷ js) = (if test j then change j else j) ∷ update_rows test change js

-- How many rows a test picks.
unfoldable pub count_rows : (Job → Bool) → List Job → ℕ
count_rows test [] = 0
count_rows test (j ∷ js) = if test j then suc (count_rows test js) else count_rows test js

unfoldable pub start : List Job → ℕ → ℕ → List Job
start jobs id now =
    update_rows (λ j. j.id == id && is_pending j.status)
      (λ j. record j { status = running; started_at = some now }) jobs

unfoldable pub grant : List Job → ℕ → ℕ → ℕ → ℕ → List Job
grant jobs id seconds workers stall =
    update_rows (λ j. j.id == id)
      (λ j. record j {
        time_limit_seconds = or_old seconds j.time_limit_seconds;
        num_workers = or_old workers j.num_workers;
        stall_stop_seconds = stall;
      })
      jobs

unfoldable pub closed_as : Outcome → ℕ → Job → Job
closed_as outcome now j = record j {
  status = outcome.status;
  reason = outcome.reason;
  detail = outcome.detail;
  result_id = outcome.result_id;
  quality = outcome.quality;
  verdict = outcome.verdict;
  explanation = outcome.explanation;
  num_workers = or_old outcome.workers j.num_workers;
  time_limit_seconds = or_old outcome.time_limit_seconds j.time_limit_seconds;
  peak_rss_bytes = positive outcome.peak_rss_bytes;
  cpu_seconds = positive outcome.cpu_seconds;
  finished_at = some now;
}

-- An open row of this id.
abbrev pub is_open_row : ℕ → Job → Bool
is_open_row id j = j.id == id && is_open j.status

unfoldable pub finish : List Job → ℕ → ℕ → Outcome → Result JobError (List Job)
finish jobs id now outcome =
    if is_open outcome.status
    then err not_terminal
    else if count_rows (is_open_row id) jobs == 0
    then elim (get_job jobs id) [ none ↦ err no_job | some j ↦ ok jobs ]
    else ok (update_rows (is_open_row id) (closed_as outcome now) jobs)

unfoldable pub count_active : List Job → ℕ → ℕ
count_active jobs node_id = count_rows (λ j. j.node_id == node_id && is_open j.status) jobs

-- A job that a previous process left open.
unfoldable pub orphaned : ℕ → Job → Job
orphaned now j = record j { status = failed; reason = server_restarted; finished_at = some now }

unfoldable pub close_orphans : List Job → ℕ → List Job × ℕ
close_orphans jobs now = (
  update_rows (λ j. is_open j.status) (orphaned now) jobs,
  count_rows (λ j. is_open j.status) jobs,
)
