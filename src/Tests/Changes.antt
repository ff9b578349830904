-- ===== src/Tests/Changes.antt =====
-- A log of two plans, one of them removed later, and a caller that reads it two stamps at a time.
use goptivum.Prelude.{
  List, [], arith, false, has, if◌then◌else◌, refl, some, true, ℕ, ◌==◌, ◌||◌, ◌∷◌, ◌≡◌,
}
use goptivum.Plans.Changes.{
  Changes, Cursor, Log, PlanRow, changes, entomb, insert_by_seq, insert_part, live, part_rank,
  parts, project, removed, sort_parts, stamp, versions,
}
use goptivum.Plans.Changes.Order.{pending}
use goptivum.Plans.Changes.Pages.{lists, stamped_between}
use goptivum.Plans.Changes.Polling.{IsAnswer, IsLog, changes-IsAnswer, changes-lists, is_own, waits}
use goptivum.Plans.Changes.Following.{follow, follow-waits}
use goptivum.Plans.Changes.Writes.{among, waits-entomb, waits-stamp}
use goptivum.Plans.Changes.Runs.{Run, Run-is_own, entombed, next, rest, stamped}

abbrev epoch_a : List ℕ
epoch_a = 0x61 ∷ 0x62 ∷ []

abbrev two_plans : Log
two_plans = record {
  clock_row = some (record { epoch = epoch_a; seq = 4 });
  stamps =
      record { plan_id = 7; part = versions; seq = 4 }
      ∷ record { plan_id = 7; part = project; seq = 2 }
      ∷ record { plan_id = 8; part = project; seq = 3 }
      ∷ [];
}

abbrev begun : Cursor
begun = record { epoch = epoch_a; seq = 1 }

abbrev rows : List PlanRow
rows = record { id = 7; deleted = false } ∷ []

two_plans-IsLog : IsLog two_plans
unfolding IsLog
two_plans-IsLog = ((refl, (refl, (refl, tt))), (omega arith, (omega arith, (omega arith, tt))))

-- The first page of two stamps lists both plans, and more waits.
first_page : (changes [] rows two_plans (some begun) 2).1 ≡ record {
  cursor = record { epoch = epoch_a; seq = 3 };
  reset = false;
  more = true;
  plans =
      record { plan_id = 7; state = live; parts = project ∷ [] }
      ∷ record { plan_id = 8; state = removed; parts = project ∷ [] }
      ∷ [];
}
unfolding changes goptivum.Plans.Changes.insert_by_seq goptivum.Plans.Changes.sort_parts
    goptivum.Plans.Changes.insert_part
first_page = refl

follow-waits_example :
    (lists 7 versions (follow [] rows two_plans 2 begun 2).0 ≡ waits 7 versions 1 two_plans.stamps)
    × (pending (follow [] rows two_plans 2 begun 2).1.seq two_plans.stamps ≡ 0)
unfolding pending
follow-waits_example =
    follow-waits [] rows two_plans 2 begun 2 7 versions two_plans-IsLog refl (omega arith)

changes-lists_example :
    lists 7 versions (changes [] rows two_plans (some begun) 2).1.plans
    ≡ stamped_between 7 versions 1
        (changes [] rows two_plans (some begun) 2).1.cursor.seq
        two_plans.stamps
changes-lists_example = changes-lists [] rows two_plans begun 2 7 versions two_plans-IsLog refl

changes-IsAnswer_example : IsAnswer two_plans 2 begun (changes [] rows two_plans (some begun) 2).1
changes-IsAnswer_example = changes-IsAnswer [] rows two_plans begun 2 two_plans-IsLog refl

waits-stamp_example :
    waits 8 versions 4 (stamp [] two_plans ((8, versions) ∷ [])).stamps
    ≡ (waits 8 versions 4 two_plans.stamps || among 8 versions ((8, versions) ∷ []))
waits-stamp_example = waits-stamp [] two_plans ((8, versions) ∷ []) 8 versions 4 (omega arith)

waits-entomb_example :
    waits 7 versions 1 (entomb [] two_plans (7 ∷ [])).stamps
    ≡ (if has (7 ∷ []) 7 then part_rank versions == 0 else waits 7 versions 1 two_plans.stamps)
waits-entomb_example = waits-entomb [] two_plans (7 ∷ []) 7 versions 1 (omega arith)

abbrev removed_later : Run two_plans (entomb [] (stamp [] two_plans ((8, versions) ∷ [])) (7 ∷ []))
removed_later = next (stamped [] ((8, versions) ∷ [])) (next (entombed [] (7 ∷ [])) rest)

Run-is_own_example :
    IsLog (entomb [] (stamp [] two_plans ((8, versions) ∷ [])) (7 ∷ []))
    × (is_own (entomb [] (stamp [] two_plans ((8, versions) ∷ [])) (7 ∷ [])) begun ≡ true)
Run-is_own_example = Run-is_own begun removed_later two_plans-IsLog refl
