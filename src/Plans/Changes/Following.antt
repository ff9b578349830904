-- ===== src/Plans/Changes/Following.antt =====
-- A caller that asks again from each answer's cursor, while nothing is written.
use goptivum.Prelude.{
  List, [], any-append, arith, false, refl, some, suc, true, zero, ℕ, ◌*◌, ◌++◌, ◌||◌, ◌∙◌, ◌∷◌,
  ◌≡◌, ◌≤◌,
}
use goptivum.Plans.Changes.{Cursor, Log, Part, PlanChange, PlanRow, Stamp, changes, page_limit}
use goptivum.Plans.Changes.Order.{pending}
use goptivum.Plans.Changes.Pages.{lists, stamped_between}
use goptivum.Plans.Changes.Polling.{
  IsAnswer, IsLog, changes-IsAnswer, changes-lists, clock_value, is_own, waits,
}

-- The plans of a number of answers, one after the other, and the point behind the last.
unfoldable pub follow : List ℕ → List PlanRow → Log → ℕ → Cursor → ℕ → List PlanChange × Cursor
follow fresh rows log limit since zero = ([], since)
follow fresh rows log limit since (suc n) =
    let page = (changes fresh rows log (some since) limit).1 in
    let rest = follow fresh rows log limit page.cursor n in (page.plans ++ rest.0, rest.1)

waits_split :
    (plan_id : ℕ) (part : Part) (lo mid : ℕ) (ss : List Stamp)
    → lo ≤ mid
    → waits plan_id part lo ss
      ≡ (stamped_between plan_id part lo mid ss || waits plan_id part mid ss)
unfolding waits stamped_between
waits_split plan_id part lo mid [] le = refl
waits_split plan_id part lo mid (s ∷ ss) le = ground (arith, waits_split plan_id part lo mid ss)

waits_none :
    (plan_id : ℕ) (part : Part) (since : ℕ) (ss : List Stamp)
    → pending since ss ≡ 0
    → waits plan_id part since ss ≡ false
unfolding waits pending
waits_none plan_id part since [] h = refl
waits_none plan_id part since (s ∷ ss) h = ground (arith, waits_none plan_id part since ss)

is_own_next :
    (log : Log) (since next : Cursor)
    → is_own log since ≡ true
    → next.epoch ≡ since.epoch
    → next.seq ≤ clock_value log
    → is_own log next ≡ true
is_own_next log since next own same le = ground arith

lists-none : (plan_id : ℕ) (part : Part) → lists plan_id part [] ≡ false
unfolding lists
lists-none plan_id part = refl

lists-append :
    (plan_id : ℕ) (part : Part) (cs ds : List PlanChange)
    → lists plan_id part (cs ++ ds) ≡ (lists plan_id part cs || lists plan_id part ds)
unfolding lists
lists-append plan_id part cs ds = any-append _ cs ds

-- A caller that asks again from each answer's cursor, for as many answers of at most a page as it
-- takes to hold what waited, has read exactly the parts that waited after its point, and none
-- waits any more, when nothing is written meanwhile and the point is one of the log's own.
pub follow-waits :
    (fresh : List ℕ) (rows : List PlanRow) (log : Log) (limit : ℕ) (since : Cursor) (n plan_id : ℕ)
    (part : Part)
    → IsLog log
    → is_own log since ≡ true
    → pending since.seq log.stamps ≤ n * page_limit limit
    → let answers = follow fresh rows log limit since n in
      (lists plan_id part answers.0 ≡ waits plan_id part since.seq log.stamps)
      × (pending answers.1.seq log.stamps ≡ 0)
unfolding follow IsAnswer
follow-waits fresh rows log limit since zero plan_id part h own enough = (
  ground (arith, waits_none plan_id part since.seq log.stamps, lists-none plan_id part),
  omega (arith, enough),
)
follow-waits fresh rows log limit since (suc n) plan_id part h own enough =
    let page = (changes fresh rows log (some since) limit).1 in
    let (no_reset, epoch, forth, bounded, left, more) =
      changes-IsAnswer fresh rows log since limit h own in
    let (rest, done) =
      follow-waits fresh rows log limit page.cursor n plan_id part h
        (is_own_next log since page.cursor own epoch bounded) (omega (arith, left, enough)) in
    (
      lists-append plan_id part page.plans _
          ∙ ground (
            arith,
            changes-lists fresh rows log since limit plan_id part h own,
            waits_split plan_id part since.seq page.cursor.seq log.stamps forth,
            rest,
          ),
      done,
    )
