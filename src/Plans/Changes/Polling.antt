-- ===== src/Plans/Changes/Polling.antt =====
-- What a caller learns from a page, and from the pages that follow it.
use goptivum.Prelude.{
  Bool, List, [], any, arith, false, inl, inr, ltb, none, not, refl, select, some, suc, sym, take,
  true, ℕ, ◌&&◌, ◌-◌, ◌<◌, ◌∷◌, ◌≡◌, ◌≤◌, ◌⊎◌,
}
use goptivum.Plans.Changes.{
  Changes, Cursor, Log, Part, PlanRow, Stamp, changes, clock, is_after, is_foreign, is_stamp_of,
  listed, nothing_new, order_by_seq, page_from, page_limit, read_rows,
}
use goptivum.Plans.Changes.Order.{Distinct, pending}
use goptivum.Plans.Changes.Pages.{lists, stamped_between}
use goptivum.Plans.Changes.Listing.{
  Within, page_from-lists, page_from-pending, page_from_advances, page_from-Within,
}

-- Whether a part of a plan waits after a point.
unfoldable pub waits : ℕ → Part → ℕ → List Stamp → Bool
waits plan_id part since ss = any (λ s. is_stamp_of plan_id part s && ltb since s.seq) ss

-- The clock's value; 0 when the clock was never started.
abbrev pub clock_value : Log → ℕ
clock_value log = elim log.clock_row [ none ↦ 0 | some now ↦ now.seq ]

-- The tables as the writes leave them: no two stamps of one value, and none above the clock's.
unfoldable pub IsLog : Log → Type 0
IsLog log = Distinct log.stamps × Within (clock_value log) log.stamps

-- The point is one of this log's epoch that its clock has reached.
abbrev pub is_own : Log → Cursor → Bool
is_own log since = elim log.clock_row [ none ↦ false | some now ↦ not (is_foreign now since) ]

stamped_between_none_above :
    (plan_id : ℕ) (part : Part) (lo hi : ℕ) (ss : List Stamp)
    → hi ≤ lo
    → stamped_between plan_id part lo hi ss ≡ false
unfolding stamped_between
stamped_between_none_above plan_id part lo hi [] le = refl
stamped_between_none_above plan_id part lo hi (s ∷ ss) le =
    ground (arith, stamped_between_none_above plan_id part lo hi ss)

pending_none : (hi since : ℕ) (ss : List Stamp) → Within hi ss → hi ≤ since → pending since ss ≡ 0
unfolding pending
pending_none hi since [] h above = refl
pending_none hi since (s ∷ ss) (le, h) above = ground (arith, pending_none hi since ss)

-- The answer to a point of this log's own: a page, or nothing new at the clock.
pub changes-cases :
    (fresh : List ℕ) (rows : List PlanRow) (log : Log) (since : Cursor) (limit : ℕ)
    → is_own log since ≡ true
    → ((since.seq ≡ clock_value log)
        × ((changes fresh rows log (some since) limit).1 ≡ nothing_new since false))
      ⊎ ((since.seq < clock_value log)
          × ((changes fresh rows log (some since) limit).1
              ≡ page_from rows log since (page_limit limit)))
unfolding changes clock
changes-cases fresh rows log since limit own = ground arith

-- What every answer to an own point has: it lists what it passed, a full page at least of what
-- waits, and stays within the clock.
unfoldable pub IsAnswer : Log → ℕ → Cursor → Changes → Type 0
IsAnswer log limit since page =
    (page.reset ≡ false)
    × (page.cursor.epoch ≡ since.epoch)
    × (since.seq ≤ page.cursor.seq)
    × (page.cursor.seq ≤ clock_value log)
    × (pending page.cursor.seq log.stamps ≡ pending since.seq log.stamps - page_limit limit)
    × (page.more ≡ ltb (page_limit limit) (pending since.seq log.stamps))

read_rows-reset :
    (rows : List PlanRow) (limit read : ℕ) (out : Changes) (ss : List Stamp)
    → (read_rows rows limit read out ss).reset ≡ out.reset
unfolding read_rows
read_rows-reset rows limit read out [] = refl
read_rows-reset rows limit read out (s ∷ ss) =
    ground (arith, read_rows-reset rows limit (suc read) (listed rows out s) ss)

is_own_within : (log : Log) (since : Cursor) → is_own log since ≡ true → since.seq ≤ clock_value log
is_own_within log since own = ground arith

page_from-reset :
    (rows : List PlanRow) (log : Log) (since : Cursor) (limit : ℕ)
    → (page_from rows log since limit).reset ≡ false
unfolding page_from
page_from-reset rows log since limit =
    read_rows-reset rows limit 0 (nothing_new since false)
      (take (suc limit) (order_by_seq (select (is_after since.seq) log.stamps)))

-- The answer to a point of the log's own is no reset; it stays in the epoch, goes neither back
-- nor past the clock, leaves a page less waiting behind it, and says that there is more exactly
-- when more than a page waited.
pub changes-IsAnswer :
    (fresh : List ℕ) (rows : List PlanRow) (log : Log) (since : Cursor) (limit : ℕ)
    → IsLog log
    → is_own log since ≡ true
    → IsAnswer log limit since (changes fresh rows log (some since) limit).1
unfolding IsLog IsAnswer
changes-IsAnswer fresh rows log since limit (distinct, within) own =
    elim (changes-cases fresh rows log since limit own) [
      | inl (same, e) ↦
          let none_waits =
            pending_none (clock_value log) since.seq log.stamps within (omega (arith, same)) in
          rw e (
            refl,
            refl,
            omega arith,
            omega (arith, same),
            omega (arith, none_waits),
            ground (arith, none_waits),
          )
      | inr (before, e) ↦
          let (bounded, epoch) =
            page_from-Within rows log since (page_limit limit) (clock_value log) within
              (omega (arith, before)) in
          let (left, more) = page_from-pending rows log since (page_limit limit) distinct in
          rw e (
            page_from-reset rows log since (page_limit limit),
            epoch,
            page_from_advances rows log since (page_limit limit) distinct,
            bounded,
            left,
            more,
          )
    ]

-- The answer to a point of the log's own lists exactly the parts that were stamped after that
-- point and not after the one that the answer ends at.
pub changes-lists :
    (fresh : List ℕ) (rows : List PlanRow) (log : Log) (since : Cursor) (limit plan_id : ℕ)
    (part : Part)
    → IsLog log
    → is_own log since ≡ true
    → let page = (changes fresh rows log (some since) limit).1 in
      lists plan_id part page.plans
      ≡ stamped_between plan_id part since.seq page.cursor.seq log.stamps
unfolding IsLog lists
changes-lists fresh rows log since limit plan_id part (distinct, within) own =
    elim (changes-cases fresh rows log since limit own) [
      | inl (same, e) ↦ rw e (
          sym
            (stamped_between_none_above plan_id part since.seq since.seq log.stamps (omega arith)))
      | inr (before, e) ↦
          rw e (page_from-lists rows log since (page_limit limit) plan_id part distinct)
    ]
