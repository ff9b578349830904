-- ===== src/Plans/Changes/Writes.antt =====
-- What a stamped transaction leaves: a sound log, and the changed parts waiting.
use goptivum.Prelude.{
  Bool, Bool-cases, List, [], arith, false, has, if◌then◌else◌, inl, inr, length, not, refl, select,
  suc, ℕ, ◌&&◌, ◌+◌, ◌<◌, ◌==◌, ◌||◌, ◌∷◌, ◌≡◌, ◌≤◌,
}
use goptivum.Plans.Changes.{
  Log, Part, Stamp, advance, entomb, entomb_from, is_stamp_of, part_rank, project, stamp,
  stamp_from, stays_of, upsert_stamp,
}
use goptivum.Plans.Changes.Order.{Distinct}
use goptivum.Plans.Changes.Pages.{is_same_part}
use goptivum.Plans.Changes.Listing.{Within}
use goptivum.Plans.Changes.Stamps.{
  Below, Below-Within, Below-mono, Within-Below, entomb_from-Distinct, stamp_from-Distinct,
}
use goptivum.Plans.Changes.Polling.{IsLog, clock_value, waits}

-- The clock moves on by n, and the first value is the one behind the old.
advance-clock :
    (fresh : List ℕ) (log : Log) (n : ℕ)
    → 0 < n
    → (clock_value (advance fresh log n).0 ≡ clock_value log + n)
      × ((advance fresh log n).0.stamps ≡ log.stamps)
      × ((advance fresh log n).1 ≡ suc (clock_value log))
unfolding advance
advance-clock fresh log n some' = ground arith

-- The tables as `IsLog` wants them, from what the loops leave.
log_moved :
    (value n : ℕ) (ss : List Stamp) (clock' : ℕ)
    → clock' ≡ value + n
    → Distinct ss × Below (suc value + n) ss
    → Distinct ss × Within clock' ss
log_moved value n ss clock' e (distinct, below) =
    (distinct, Below-Within clock' ss (Below-mono _ _ ss below (omega arith)))

-- A stamped transaction leaves no two stamps of one value, and none above the clock's.
pub stamp-IsLog :
    (fresh : List ℕ) (log : Log) (changed : List (ℕ × Part))
    → IsLog log
    → IsLog (stamp fresh log changed)
unfolding IsLog stamp
stamp-IsLog fresh log [] (distinct, within) = (distinct, within)
stamp-IsLog fresh log (c ∷ changed) (distinct, within) =
    let n = suc (length changed) in
    let (value, same, first) = advance-clock fresh log n (omega arith) in
    rw (same, first)
      (log_moved (clock_value log) n _ _ value (
        stamp_from-Distinct (suc (clock_value log)) log.stamps (c ∷ changed) distinct
          (Within-Below (clock_value log) log.stamps within)))

-- So does one that removes plans for good.
pub entomb-IsLog :
    (fresh : List ℕ) (log : Log) (plan_ids : List ℕ) → IsLog log → IsLog (entomb fresh log plan_ids)
unfolding IsLog entomb
entomb-IsLog fresh log [] (distinct, within) = (distinct, within)
entomb-IsLog fresh log (id ∷ plan_ids) (distinct, within) =
    let n = suc (length plan_ids) in
    let (value, same, first) = advance-clock fresh log n (omega arith) in
    rw (same, first)
      (log_moved (clock_value log) n _ _ value (
        entomb_from-Distinct (suc (clock_value log)) log.stamps (id ∷ plan_ids) distinct
          (Within-Below (clock_value log) log.stamps within)))

-- Whether a part of a plan is among the parts to stamp.
unfoldable pub among : ℕ → Part → List (ℕ × Part) → Bool
among plan_id part [] = false
among plan_id part ((i, q) ∷ changed) =
    (i == plan_id && is_same_part part q) || among plan_id part changed

waits-upsert_stamp :
    (ss : List Stamp) (i : ℕ) (q : Part) (n plan_id : ℕ) (part : Part) (since : ℕ)
    → since < n
    → waits plan_id part since (upsert_stamp ss i q n)
      ≡ (waits plan_id part since ss || i == plan_id && is_same_part part q)
unfolding waits upsert_stamp
waits-upsert_stamp [] i q n plan_id part since below = ground arith
waits-upsert_stamp (s ∷ ss) i q n plan_id part since below = elim (Bool-cases (is_stamp_of i q s)) [
  | inl same ↦ rw same (ground (arith, same))
  | inr other ↦ rw other (ground (arith, waits-upsert_stamp ss i q n plan_id part since below))
]

waits-stamp_from :
    (first : ℕ) (ss : List Stamp) (changed : List (ℕ × Part)) (plan_id : ℕ) (part : Part)
    (since : ℕ)
    → since < first
    → waits plan_id part since (stamp_from first ss changed)
      ≡ (waits plan_id part since ss || among plan_id part changed)
unfolding stamp_from among
waits-stamp_from first ss [] plan_id part since below = ground arith
waits-stamp_from first ss ((i, q) ∷ changed) plan_id part since below = ground (
  arith,
  waits-stamp_from (suc first) (upsert_stamp ss i q first) changed plan_id part since,
  waits-upsert_stamp ss i q first plan_id part since,
)

-- After a stamped transaction, a caller whose point the clock had reached before has waiting for
-- it exactly the parts that waited before and those that were stamped.
pub waits-stamp :
    (fresh : List ℕ) (log : Log) (changed : List (ℕ × Part)) (plan_id : ℕ) (part : Part) (since : ℕ)
    → since ≤ clock_value log
    → waits plan_id part since (stamp fresh log changed).stamps
      ≡ (waits plan_id part since log.stamps || among plan_id part changed)
unfolding stamp among
waits-stamp fresh log [] plan_id part since le = ground arith
waits-stamp fresh log (c ∷ changed) plan_id part since le =
    let (value, same, first) = advance-clock fresh log (suc (length changed)) (omega arith) in
    rw (same, first)
      (waits-stamp_from (suc (clock_value log)) log.stamps (c ∷ changed) plan_id part since
        (omega (arith, le)))

waits-stays_of :
    (i : ℕ) (ss : List Stamp) (plan_id : ℕ) (part : Part) (since : ℕ)
    → waits plan_id part since (select (stays_of i) ss)
      ≡ (waits plan_id part since ss && (not (i == plan_id) || part_rank part == 0))
unfolding waits
waits-stays_of i [] plan_id part since = refl
waits-stays_of i (s ∷ ss) plan_id part since =
    ground (arith, waits-stays_of i ss plan_id part since)

waits-entomb_from :
    (first : ℕ) (ss : List Stamp) (plan_ids : List ℕ) (plan_id : ℕ) (part : Part) (since : ℕ)
    → since < first
    → waits plan_id part since (entomb_from first ss plan_ids)
      ≡ (if has plan_ids plan_id then part_rank part == 0 else waits plan_id part since ss)
unfolding entomb_from
waits-entomb_from first ss [] plan_id part since below = refl
waits-entomb_from first ss (i ∷ plan_ids) plan_id part since below =
    let kept = select (stays_of i) ss in
    ground (
      arith,
      waits-entomb_from (suc first) (upsert_stamp kept i project first) plan_ids plan_id part since,
      waits-upsert_stamp kept i project first plan_id part since,
      waits-stays_of i ss plan_id part since,
    )

-- After plans were removed for good, a caller whose point the clock had reached before has
-- waiting for it the project part of each of them and no other part, and of the other plans what
-- waited.
pub waits-entomb :
    (fresh : List ℕ) (log : Log) (plan_ids : List ℕ) (plan_id : ℕ) (part : Part) (since : ℕ)
    → since ≤ clock_value log
    → waits plan_id part since (entomb fresh log plan_ids).stamps
      ≡ (if has plan_ids plan_id then part_rank part == 0 else waits plan_id part since log.stamps)
unfolding entomb
waits-entomb fresh log [] plan_id part since le = refl
waits-entomb fresh log (i ∷ plan_ids) plan_id part since le =
    let (value, same, first) = advance-clock fresh log (suc (length plan_ids)) (omega arith) in
    rw (same, first)
      (waits-entomb_from (suc (clock_value log)) log.stamps (i ∷ plan_ids) plan_id part since
        (omega (arith, le)))
