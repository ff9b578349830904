-- ===== src/Arrango/Runner.antt =====
-- backend/arrango/runner.go: the solves that are in flight. The mutex makes each operation one step;
-- what a goroutine does to the shared state is a step too: a frame it observes, and its end.
pub mod Best
pub mod Stopped
use goptivum.Prelude.{
  Bool, List, Option, [], any, false, first_where, if◌then◌else◌, is_none, map, none, not, select,
  some, suc, true, ℕ, ◌%◌, ◌^◌, ◌++◌, ◌==◌, ◌||◌, ◌∷◌,
}
use goptivum.Integers.{pos, ℤ}
use goptivum.Solve.Stream.{Phase, Score, SolveUpdate, is_some, solution, worse}
use goptivum.Arrango.Jobs.{Job, running}

-- The best timetable a running solve sent, and how many arrived.
pub record Preview : Type 0 where
  pub plan_version : ℕ
  pub received : ℕ
  pub snapshot : Option ℕ
  pub quality : Option ℕ
  pub verdict : Option ℕ

-- A running solve; `stopped` says that its context was cancelled.
pub record Live : Type 0 where
  pub job_id : ℕ
  pub plan_id : ℕ
  pub node_id : ℕ
  pub stopped : Bool
  pub preview : Preview
  pub objective : ℤ

pub record Runner : Type 0 where
  pub running : List Live
  pub closed : Bool

abbrev pub new_runner : Runner
new_runner = record { running = []; closed = false }

unfoldable pub live_of : Job → Live
live_of job = record {
  job_id = job.id;
  plan_id = job.plan_id;
  node_id = job.node_id;
  stopped = false;
  preview = record {
    plan_version = job.plan_version;
    received = 0;
    snapshot = none;
    quality = none;
    verdict = none;
  };
  objective = pos 0;
}

-- `Start` of a job that was begun; whether it runs, or waits for the next boot.
unfoldable pub start_run : Runner → Job → Runner × Bool
unfolding live_of
start_run r job =
    if r.closed then (r, false) else (record r { running = r.running ++ live_of job ∷ [] }, true)

abbrev pub quality_of : Option Score → Option ℕ
quality_of none = none
quality_of (some score) = some score.overall_quality

abbrev pub is_solution : Phase → Bool
is_solution solution = true
is_solution _ = false

-- `observe`: the solve with its preview, and how many timetables arrived, a uint32 that wraps.
unfoldable pub observe : Live → SolveUpdate → Live × ℕ
unfolding worse
observe l update =
    let p = l.preview in
    let received = suc p.received % 2 ^ 32 in
    if not (is_solution update.phase) || is_none update.snapshot
    then (l, p.received)
    else if worse (is_some p.snapshot) l.objective update
    then (record l { preview = record p { received = received } }, received)
    else (
      record l {
        objective = update.objective;
        preview = record {
          plan_version = p.plan_version;
          received = received;
          snapshot = update.snapshot;
          quality = quality_of update.score;
          verdict = update.verdict;
        };
      },
      received,
    )

-- The solves a test picks are changed.
unfoldable pub change_where : (Live → Bool) → (Live → Live) → List Live → List Live
change_where test change [] = []
change_where test change (l ∷ ls) = (if test l then change l else l) ∷ change_where test change ls

unfoldable pub observe_at : Runner → ℕ → SolveUpdate → Runner
unfolding change_where observe
observe_at r job_id update = record r {
  running = change_where (λ l. l.job_id == job_id) (λ l. (observe l update).0) r.running;
}

-- What `run` does at its end.
unfoldable pub end_run : Runner → ℕ → Runner
end_run r job_id = record r { running = select (λ l. not (l.job_id == job_id)) r.running }

unfoldable pub preview_of : Runner → ℕ → Option Preview
preview_of r job_id = elim (first_where (λ l. l.job_id == job_id) r.running) [
  | none ↦ none
  | some l ↦ some l.preview
]

abbrev pub stop : Live → Live
stop l = record l { stopped = true }

-- `Cancel`: whether anything was running.
unfoldable pub cancel : Runner → ℕ → Runner × Bool
unfolding change_where
cancel r job_id = (
  record r { running = change_where (λ l. l.job_id == job_id) stop r.running },
  any (λ l. l.job_id == job_id) r.running,
)

-- `cancelWhere`, before it waits: the solves it stops, and those whose ends it waits for.
unfoldable pub cancel_where : Runner → (Live → Bool) → Runner × List ℕ
unfolding change_where
cancel_where r test = (
  record r { running = change_where test stop r.running },
  map (λ l. l.job_id) (select test r.running),
)

unfoldable pub cancel_plan : Runner → ℕ → Runner × List ℕ
unfolding cancel_where
cancel_plan r plan_id = cancel_where r (λ l. l.plan_id == plan_id)

unfoldable pub cancel_node : Runner → ℕ → Runner × List ℕ
unfolding cancel_where
cancel_node r node_id = cancel_where r (λ l. l.node_id == node_id)

-- `Close`, before it waits; the second call changes nothing.
unfoldable pub close_runner : Runner → Runner
unfolding change_where
close_runner r =
    if r.closed
    then r
    else record { running = change_where (λ l. true) stop r.running; closed = true }
