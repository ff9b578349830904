-- ===== src/Solve/Stream.antt =====
-- solveclient/solve.go: how the frames of one solve are folded into its result. What the program
-- passes on without reading it (a timetable, a verdict, a report) is the number that identifies it.
use goptivum.Prelude.{Bool, List, Option, [], false, if◌then◌else◌, none, some, true, ℕ, ◌&&◌, ◌∷◌}
use goptivum.Integers.{ltb_ℤ, pos, ℤ}

pub data Phase : Type 0 where
  progress solution done : Phase

pub data SolveStatus : Type 0 where
  unknown feasible optimal infeasible timeout cancelled failed_solve : SolveStatus

pub record Score : Type 0 where
  pub overall_quality : ℕ

-- The settings a node echoes.
pub record Config : Type 0 where
  pub num_workers : ℕ
  pub total_time_seconds : ℕ
  pub stall_stop_seconds : ℕ

pub record SolveUpdate : Type 0 where
  pub phase : Phase
  pub message : List ℕ
  pub config : Option Config
  pub status : SolveStatus
  pub objective : ℤ
  pub snapshot : Option ℕ
  pub verdict : Option ℕ
  pub validation : Option ℕ
  pub score : Option Score
  pub preflight_refused : Bool
  pub peak_rss_bytes : ℕ
  pub cpu_seconds : ℕ
  pub infeasible_core : Option ℕ

pub record SolveResult : Type 0 where
  pub has_schedule : Bool
  pub preflight_refused : Bool
  pub snapshot : Option ℕ
  pub status : SolveStatus
  pub objective : ℤ
  pub message : List ℕ
  pub quality : ℕ
  pub verdict : Option ℕ
  pub score : Option Score
  pub validation : Option ℕ
  pub explanation : Option ℕ
  pub config : Option Config
  pub peak_rss_bytes : ℕ
  pub cpu_seconds : ℕ

-- The zero value.
abbrev pub no_result : SolveResult
no_result = record {
  has_schedule = false;
  preflight_refused = false;
  snapshot = none;
  status = unknown;
  objective = pos 0;
  message = [];
  quality = 0;
  verdict = none;
  score = none;
  validation = none;
  explanation = none;
  config = none;
  peak_rss_bytes = 0;
  cpu_seconds = 0;
}

abbrev pub is_some {ℓ} : {A : Type ℓ} → Option A → Bool
is_some none = false
is_some (some _) = true

-- A value that is taken over when it is there.
abbrev pub or_else {ℓ} : {A : Type ℓ} → Option A → Option A → Option A
or_else none old = old
or_else (some new) old = some new

unfoldable pub worse : Bool → ℤ → SolveUpdate → Bool
unfolding ltb_ℤ
worse received best update = received && (is_some update.snapshot && ltb_ℤ best update.objective)

abbrev pub quality_or : Option Score → ℕ → ℕ
quality_or none old = old
quality_or (some s) old = s.overall_quality

unfoldable pub keep : SolveResult → SolveUpdate → SolveResult
keep result update = record result {
  verdict = or_else update.verdict result.verdict;
  validation = or_else update.validation result.validation;
  score = or_else update.score result.score;
  quality = quality_or update.score result.quality;
  snapshot = or_else update.snapshot result.snapshot;
  objective = if is_some update.snapshot then update.objective else result.objective;
  has_schedule = if is_some update.snapshot then true else result.has_schedule;
}

abbrev pub message_or : List ℕ → List ℕ → List ℕ
message_or [] old = old
message_or (c ∷ cs) old = c ∷ cs

-- The frame's timetable, unless a better one was received.
unfoldable pub keep_better : SolveResult → SolveUpdate → SolveResult
unfolding worse keep
keep_better result update =
    if worse result.has_schedule result.objective update then result else keep result update

unfoldable pub absorb_phase : Phase → SolveResult → SolveUpdate → SolveResult
unfolding keep_better
absorb_phase progress result update = result
absorb_phase solution result update = keep_better result update
absorb_phase done result update =
    let told = record result {
      status = update.status;
      preflight_refused = update.preflight_refused;
      peak_rss_bytes = update.peak_rss_bytes;
      cpu_seconds = update.cpu_seconds;
    } in
    let kept = keep_better told update in
    record kept { explanation = or_else update.infeasible_core kept.explanation }

unfoldable pub absorb : SolveResult → SolveUpdate → SolveResult
unfolding absorb_phase
absorb result update =
    absorb_phase update.phase
      (record result {
        message = message_or update.message result.message;
        config = or_else update.config result.config;
      })
      update

-- The frames of one stream, in order.
unfoldable pub absorb_all : SolveResult → List SolveUpdate → SolveResult
absorb_all result [] = result
absorb_all result (update ∷ updates) = absorb_all (absorb result update) updates
