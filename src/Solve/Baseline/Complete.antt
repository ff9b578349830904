-- ===== src/Solve/Baseline/Complete.antt =====
-- A baseline that passes the check describes the whole timetable.
use goptivum.Prelude.{
  Bool, List, [], any, ap, arith, err, false, if◌then◌else◌, length, not, ok, refl, select, some,
  suc, ℕ, ◌&&◌, ◌==◌, ◌∷◌, ◌≡◌,
}
use goptivum.Solve.Baseline.{
  Lesson, Scheduled, baseline_snapshot, check_baseline, incomplete, is_placed, placed, set_baseline,
  snapshot_of, unplaced,
}

module _ {Placement : Type 0} where
  -- Every lesson with its previous placement, in order.
  unfoldable pub whole : List (Lesson Placement) → List (Scheduled Placement)
  whole [] = []
  whole (l ∷ ls) = record { lesson_id = l.id; placement = l.previous } ∷ whole ls

  snapshot_of-whole :
      (ls : List (Lesson Placement)) → unplaced ls ≡ 0 → snapshot_of ls ≡ some (whole ls)
  unfolding unplaced snapshot_of whole
  snapshot_of-whole [] h = refl
  snapshot_of-whole (l ∷ ls) h = ground (arith, snapshot_of-whole ls)

  -- For a model with at least one lesson, an improving solve that passes the check starts from every
  -- lesson, in order, each with its previous placement.
  pub check_baseline-snapshot :
      (l : Lesson Placement) (ls : List (Lesson Placement))
      → check_baseline (some (l ∷ ls)) false ≡ ok tt
      → baseline_snapshot (some (l ∷ ls)) false ≡ some (whole (l ∷ ls))
  unfolding check_baseline baseline_snapshot whole
  check_baseline-snapshot l ls h = ground (arith, snapshot_of-whole (l ∷ ls))

  -- The timetable places a lesson: some entry is of this lesson and has a placement.
  unfoldable pub places : List (Scheduled Placement) → ℕ → Bool
  places schedule id = any (λ e. e.lesson_id == id && is_placed e.placement) schedule

  -- How many lessons the timetable does not place.
  unfoldable pub missing : List (Lesson Placement) → List (Scheduled Placement) → ℕ
  missing ls schedule = length (select (λ l. not (places schedule l.id)) ls)

  is_placed-placed :
      (schedule : List (Scheduled Placement)) (id : ℕ)
      → is_placed (placed schedule id) ≡ places schedule id
  unfolding placed places
  is_placed-placed [] id = refl
  is_placed-placed (e ∷ es) id = ground (arith, is_placed-placed es id)

  unplaced-set_baseline :
      (ls : List (Lesson Placement)) (schedule : List (Scheduled Placement))
      → unplaced (set_baseline ls schedule) ≡ missing ls schedule
  unfolding unplaced set_baseline missing
  unplaced-set_baseline [] schedule = refl
  unplaced-set_baseline (l ∷ ls) schedule =
      ground (arith, unplaced-set_baseline ls schedule, is_placed-placed schedule l.id)

  length-set_baseline :
      (ls : List (Lesson Placement)) (schedule : List (Scheduled Placement))
      → length (set_baseline ls schedule) ≡ length ls
  unfolding set_baseline
  length-set_baseline [] schedule = refl
  length-set_baseline (l ∷ ls) schedule = ap suc (length-set_baseline ls schedule)

  -- After a timetable is set as the baseline, an improving solve is refused exactly when some
  -- lesson has no entry with a placement in it, and the refusal counts those lessons; what was set
  -- before is gone.
  pub set_baseline-check_baseline :
      (ls : List (Lesson Placement)) (schedule : List (Scheduled Placement))
      → check_baseline (some (set_baseline ls schedule)) false ≡ (
          if missing ls schedule == 0
          then ok tt
          else err (incomplete (length ls) (missing ls schedule)))
  unfolding check_baseline
  set_baseline-check_baseline ls schedule =
      rw (unplaced-set_baseline ls schedule, length-set_baseline ls schedule) refl
