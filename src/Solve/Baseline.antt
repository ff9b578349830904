-- ===== src/Solve/Baseline.antt =====
-- solveclient/baseline.go: the timetable that an improving solve starts from. A placement is a
-- value that the program copies and never reads; the models are lists of lessons.
pub mod Complete
use goptivum.Prelude.{
  Bool, List, Option, Result, [], err, false, if◌then◌else◌, length, none, ok, some, suc, true, ℕ,
  ◌==◌, ◌∷◌,
}

pub record Lesson (Placement : Type 0) : Type 0 where
  pub id : ℕ
  pub has_previous : Bool
  pub previous : Option Placement

-- A lesson of a timetable.
pub record Scheduled (Placement : Type 0) : Type 0 where
  pub lesson_id : ℕ
  pub placement : Option Placement

module _ {Placement : Type 0} where
  -- The map `placed`: the last entry for a lesson that has a placement.
  unfoldable pub placed : List (Scheduled Placement) → ℕ → Option Placement
  placed [] id = none
  placed (e ∷ es) id = elim (placed es id) [
    | some p ↦ some p
    | none ↦ if e.lesson_id == id then e.placement else none
  ]

  abbrev pub is_placed : Option Placement → Bool
  is_placed none = false
  is_placed (some _) = true

  unfoldable pub set_baseline :
      List (Lesson Placement) → List (Scheduled Placement) → List (Lesson Placement)
  set_baseline [] schedule = []
  set_baseline (l ∷ ls) schedule =
      record l { has_previous = is_placed (placed schedule l.id); previous = placed schedule l.id }
      ∷ set_baseline ls schedule

  -- How many lessons have no previous placement.
  unfoldable pub unplaced : List (Lesson Placement) → ℕ
  unplaced [] = 0
  unplaced (l ∷ ls) = if l.has_previous then unplaced ls else suc (unplaced ls)

pub data BaselineRefusal : Type 0 where
  no_model : BaselineRefusal
  -- how many lessons there are, and how many are unplaced
  incomplete : ℕ → ℕ → BaselineRefusal

module _ {Placement : Type 0} where
  unfoldable pub check_baseline :
      Option (List (Lesson Placement)) → Bool → Result BaselineRefusal (Unit {0})
  check_baseline none ignore = err no_model
  check_baseline (some lessons) ignore =
      if ignore
      then ok tt
      else if unplaced lessons == 0
      then ok tt
      else err (incomplete (length lessons) (unplaced lessons))

  -- The loop of `BaselineSnapshot`.
  unfoldable pub snapshot_of : List (Lesson Placement) → Option (List (Scheduled Placement))
  snapshot_of [] = some []
  snapshot_of (l ∷ ls) = elim (snapshot_of ls) [
    | none ↦ none
    | some rest ↦
        if l.has_previous
        then some (record { lesson_id = l.id; placement = l.previous } ∷ rest)
        else none
  ]

  unfoldable pub baseline_snapshot :
      Option (List (Lesson Placement)) → Bool → Option (List (Scheduled Placement))
  baseline_snapshot none ignore = none
  baseline_snapshot (some lessons) ignore = if ignore then none else elim (snapshot_of lessons) [
    | none ↦ none
    | some [] ↦ none
    | some (s ∷ ss) ↦ some (s ∷ ss)
  ]
