-- ===== src/Tests/Runner.antt =====
-- A running solve, its frames, and a server that shuts down while it runs.
use goptivum.Prelude.{
  List, [], false, length, map, none, refl, select, some, true, ℕ, ◌%◌, ◌^◌, ◌∷◌, ◌≡◌,
}
use goptivum.Integers.{pos, ℤ}
use goptivum.Solve.Stream.{Phase, SolveUpdate, feasible, progress, solution}
use goptivum.Solve.Best.{best_of}
use goptivum.Arrango.Jobs.{Job, opened}
use goptivum.Arrango.Runner.{close_runner, live_of, new_runner, observe, observe_at, start_run}
use goptivum.Arrango.Runner.Best.{is_shown_frame, observe_all, observe_all-best_of, shown}
use goptivum.Arrango.Runner.Stopped.{
  Event, IsStopped, begun, closed_runner-IsStopped, closing, observed, react, react_all,
}

abbrev begun_job : Job
begun_job = opened 3 10 (record {
  plan_id = 1;
  version = 2;
  source_result_id = 0;
  node_id = 4;
  workers = 2;
  time_limit_seconds = 60;
  improve = false;
  stall_stop_seconds = 0;
})

abbrev frame : Phase → ℤ → ℕ → SolveUpdate
frame phase objective timetable = record {
  phase = phase;
  message = [];
  config = none;
  status = feasible;
  objective = objective;
  snapshot = some timetable;
  verdict = none;
  validation = none;
  score = none;
  preflight_refused = false;
  peak_rss_bytes = 0;
  cpu_seconds = 0;
  infeasible_core = none;
}

abbrev frames : List SolveUpdate
frames =
    frame solution (pos 9) 1
    ∷ frame progress (pos 2) 2
    ∷ frame solution (pos 7) 3
    ∷ frame solution (pos 8) 4
    ∷ []

-- Only the frames of solutions count, and the worse one at the end does not replace the best.
best_frame_is_shown : shown (observe_all (live_of begun_job) frames) ≡ some (pos 7, 3)
unfolding shown observe_all live_of opened observe
best_frame_is_shown = refl

observe_all-best_of_example :
    (shown (observe_all (live_of begun_job) frames) ≡ best_of none (select is_shown_frame frames))
    × ((observe_all (live_of begun_job) frames).preview.received
        ≡ length (select is_shown_frame frames) % 2 ^ 32)
observe_all-best_of_example = observe_all-best_of begun_job frames

abbrev shutdown : List Event
shutdown = begun begun_job ∷ closing ∷ begun begun_job ∷ observed 3 (frame solution (pos 9) 1) ∷ []

shutdown_closed : (react_all new_runner shutdown).closed ≡ true
unfolding react_all react start_run close_runner observe_at
shutdown_closed = refl

-- The second start did not run, and the first solve was stopped.
shutdown_running : map (λ l. l.stopped) (react_all new_runner shutdown).running ≡ true ∷ []
unfolding react_all react start_run close_runner observe_at observe opened
shutdown_running = refl

closed_runner-IsStopped_example : IsStopped (react_all new_runner shutdown)
closed_runner-IsStopped_example = closed_runner-IsStopped shutdown shutdown_closed
