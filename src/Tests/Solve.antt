-- ===== src/Tests/Solve.antt =====
-- A stream of three frames, a timetable of two lessons, and a node's figures.
use goptivum.Prelude.{
  List, [], err, false, if◌then◌else◌, none, ok, refl, some, true, ℕ, ◌*◌, ◌+◌, ◌<◌, ◌==◌, ◌∷◌, ◌≡◌,
  ◌≤◌, ◌⊎◌,
}
use goptivum.Integers.{negsuc, pos, ℤ}
use goptivum.Solve.Capacity.{
  affordable_workers_fit, affordable_workers_of, base_bytes, per_worker_bytes,
}
use goptivum.Solve.Baseline.{Lesson, Scheduled, check_baseline, incomplete, set_baseline, unplaced}
use goptivum.Solve.Baseline.Complete.{missing, set_baseline-check_baseline}
use goptivum.Solve.Stream.{
  Phase, SolveUpdate, absorb, absorb_all, feasible, is_some, no_result, solution,
}
use goptivum.Solve.Best.{absorb_all-best_of, best_of, held}

abbrev asked : ℕ
asked = 9

abbrev ceiling : ℕ
ceiling = 4

abbrev four_gib : ℕ
four_gib = 4294967296

affordable_workers_fit_example :
    (affordable_workers_of four_gib 8 ≤ 8)
    × ((affordable_workers_of four_gib 8 ≡ 0)
        ⊎ (base_bytes + per_worker_bytes * affordable_workers_of four_gib 8 ≤ four_gib))
    × ((affordable_workers_of four_gib 8 ≡ 8)
        ⊎ (four_gib < base_bytes + per_worker_bytes * (affordable_workers_of four_gib 8 + 1)))
affordable_workers_fit_example = affordable_workers_fit four_gib 8

abbrev first_lesson : Lesson ℕ
first_lesson = record { id = 1; has_previous = true; previous = some 5 }

abbrev next_lesson : Lesson ℕ
next_lesson = record { id = 2; has_previous = true; previous = some 6 }

two_lessons_pass : check_baseline (some (first_lesson ∷ next_lesson ∷ [])) false ≡ ok tt
unfolding check_baseline unplaced
two_lessons_pass = refl

abbrev half_schedule : List (Scheduled ℕ)
half_schedule = record { lesson_id = 1; placement = some 3 } ∷ []

set_baseline-check_baseline_example :
    check_baseline (some (set_baseline (first_lesson ∷ next_lesson ∷ []) half_schedule)) false ≡ (
      if missing (first_lesson ∷ next_lesson ∷ []) half_schedule == 0
      then ok tt
      else err (incomplete 2 (missing (first_lesson ∷ next_lesson ∷ []) half_schedule)))
set_baseline-check_baseline_example =
    set_baseline-check_baseline (first_lesson ∷ next_lesson ∷ []) half_schedule

abbrev solution_frame : ℤ → ℕ → SolveUpdate
solution_frame objective timetable = record {
  phase = solution;
  message = [];
  config = none;
  status = feasible;
  objective = objective;
  snapshot = some timetable;
  verdict = none;
  validation = none;
  score = none;
  preflight_refused = false;
  peak_rss_bytes = 0;
  cpu_seconds = 0;
  infeasible_core = none;
}

abbrev frames : List SolveUpdate
frames = solution_frame (pos 3) 1 ∷ solution_frame (negsuc 19) 2 ∷ solution_frame (pos 0) 3 ∷ []

absorb_all-best_of_example :
    (held (absorb_all no_result frames) ≡ best_of none frames)
    × ((absorb_all no_result frames).has_schedule ≡ is_some (best_of none frames))
absorb_all-best_of_example = absorb_all-best_of frames

-- A timetable that came on the final frame alone counts as a schedule.
final_frame_counts :
    (absorb_all no_result
      (record (solution_frame (pos 3) 1) { phase = Phase.done } ∷ [])).has_schedule
    ≡ true
unfolding absorb_all absorb
final_frame_counts = refl

frames-held : held (absorb_all no_result frames) ≡ some (negsuc 19, 2)
unfolding held absorb_all absorb
frames-held = refl
