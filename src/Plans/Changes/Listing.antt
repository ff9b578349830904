-- ===== src/Plans/Changes/Listing.antt =====
-- What a page of this log holds, where it ends and how much waits behind it.
use goptivum.Prelude.{
  Bool-cases, List, [], ap, arith, false, inl, inr, ltb, refl, select, suc, ℕ, ◌-◌, ◌∙◌, ◌∷◌, ◌≡◌,
  ◌≤◌,
}
use goptivum.Plans.Changes.{
  Changes, Cursor, Log, Part, PlanRow, Stamp, insert_by_seq, is_after, listed, nothing_new,
  order_by_seq, page_from, read_rows, sort_all,
}
use goptivum.Plans.Changes.Order.{
  Distinct, any-order_by_seq, length-order_by_seq, order_by_seq-Ascending, pending,
  pending-order_by_seq,
}
use goptivum.Plans.Changes.Pages.{
  lists, lists-sort_all, read_rows-lists, read_rows-pending, read_rows-take, read_rows_advances,
  stamped_between,
}

-- No stamp is above a value.
abbrev pub Within : ℕ → List Stamp → Type 0
Within hi [] = Unit
Within hi (s ∷ ss) = (s.seq ≤ hi) × Within hi ss

stamped_between-select :
    (plan_id : ℕ) (part : Part) (lo hi : ℕ) (ss : List Stamp)
    → stamped_between plan_id part lo hi (select (is_after lo) ss)
      ≡ stamped_between plan_id part lo hi ss
unfolding stamped_between
stamped_between-select plan_id part lo hi [] = refl
stamped_between-select plan_id part lo hi (s ∷ ss) =
    ground (arith, stamped_between-select plan_id part lo hi ss)

stamped_between-order_by_seq :
    (plan_id : ℕ) (part : Part) (lo hi : ℕ) (ss : List Stamp)
    → stamped_between plan_id part lo hi (order_by_seq (select (is_after lo) ss))
      ≡ stamped_between plan_id part lo hi ss
unfolding stamped_between
stamped_between-order_by_seq plan_id part lo hi ss =
    any-order_by_seq _ (select (is_after lo) ss) ∙ stamped_between-select plan_id part lo hi ss

pending-select :
    (lo mid : ℕ) (ss : List Stamp)
    → lo ≤ mid
    → pending mid (select (is_after lo) ss) ≡ pending mid ss
unfolding pending
pending-select lo mid [] le = refl
pending-select lo mid (s ∷ ss) le = ground (arith, pending-select lo mid ss)

-- The rows of the query, in their order.
found : Log → ℕ → List Stamp
found log since = order_by_seq (select (is_after since) log.stamps)

-- The loop of a page, over all rows that it may read.
whole : List PlanRow → Log → Cursor → ℕ → Changes
unfolding found
whole rows log since limit = read_rows rows limit 0 (nothing_new since false) (found log since.seq)

page_from-whole :
    (rows : List PlanRow) (log : Log) (since : Cursor) (limit : ℕ)
    → let out = whole rows log since limit in
      page_from rows log since limit ≡ record out { plans = sort_all out.plans }
unfolding page_from whole
page_from-whole rows log since limit =
    ap (λ (out : Changes). record out { plans = sort_all out.plans })
      (read_rows-take rows limit 0 (suc limit) (nothing_new since false) (found log since.seq)
        (omega arith) (omega arith))

pub page_from-lists :
    (rows : List PlanRow) (log : Log) (since : Cursor) (limit plan_id : ℕ) (part : Part)
    → Distinct log.stamps
    → let page = page_from rows log since limit in
      lists plan_id part page.plans
      ≡ stamped_between plan_id part since.seq page.cursor.seq log.stamps
unfolding whole found stamped_between lists
page_from-lists rows log since limit plan_id part h = rw (page_from-whole rows log since limit) (
    lists-sort_all (whole rows log since limit).plans plan_id part
    ∙ read_rows-lists rows limit 0 (nothing_new since false) (found log since.seq) plan_id part
        (order_by_seq-Ascending since.seq log.stamps h)
    ∙ stamped_between-order_by_seq plan_id part since.seq _ log.stamps)

pub page_from_advances :
    (rows : List PlanRow) (log : Log) (since : Cursor) (limit : ℕ)
    → Distinct log.stamps
    → since.seq ≤ (page_from rows log since limit).cursor.seq
unfolding whole found
page_from_advances rows log since limit h = rw (page_from-whole rows log since limit) (
    read_rows_advances rows limit 0 (nothing_new since false) (found log since.seq)
      (order_by_seq-Ascending since.seq log.stamps h))

pub page_from-pending :
    (rows : List PlanRow) (log : Log) (since : Cursor) (limit : ℕ)
    → Distinct log.stamps
    → let page = page_from rows log since limit in
      (pending page.cursor.seq log.stamps ≡ pending since.seq log.stamps - limit)
      × (page.more ≡ ltb limit (pending since.seq log.stamps))
unfolding whole found pending
page_from-pending rows log since limit h =
    let ordered = order_by_seq-Ascending since.seq log.stamps h in
    let out = whole rows log since limit in
    rw (page_from-whole rows log since limit) (
      ground (
        arith,
        read_rows-pending rows limit 0 (nothing_new since false) (found log since.seq) ordered
            (omega arith),
        read_rows_advances rows limit 0 (nothing_new since false) (found log since.seq) ordered,
        length-order_by_seq (select (is_after since.seq) log.stamps),
        pending-order_by_seq out.cursor.seq (select (is_after since.seq) log.stamps),
        pending-select since.seq out.cursor.seq log.stamps,
      ))

read_rows-Within :
    (rows : List PlanRow) (limit read : ℕ) (out : Changes) (ss : List Stamp) (hi : ℕ)
    → Within hi ss
    → out.cursor.seq ≤ hi
    → let after = read_rows rows limit read out ss in
      (after.cursor.seq ≤ hi) × (after.cursor.epoch ≡ out.cursor.epoch)
unfolding read_rows
read_rows-Within rows limit read out [] hi h le = (le, refl)
read_rows-Within rows limit read out (s ∷ ss) hi (low, h) le =
    ground (arith, read_rows-Within rows limit (suc read) (listed rows out s) ss hi h low)

insert_by_seq-Within :
    (hi : ℕ) (s : Stamp) (ss : List Stamp)
    → s.seq ≤ hi
    → Within hi ss
    → Within hi (insert_by_seq s ss)
unfolding insert_by_seq
insert_by_seq-Within hi s [] le h = (le, tt)
insert_by_seq-Within hi s (t ∷ ts) le h = ground (arith, insert_by_seq-Within hi s ts)

found-Within :
    (hi since : ℕ) (ss : List Stamp)
    → Within hi ss
    → Within hi (order_by_seq (select (is_after since) ss))
unfolding order_by_seq
found-Within hi since [] h = tt
found-Within hi since (s ∷ ss) (le, h) = elim (Bool-cases (ltb since s.seq)) [
  | inr before ↦ rw before (found-Within hi since ss h)
  | inl after ↦ rw after (insert_by_seq-Within hi s _ le (found-Within hi since ss h))
]

pub page_from-Within :
    (rows : List PlanRow) (log : Log) (since : Cursor) (limit hi : ℕ)
    → Within hi log.stamps
    → since.seq ≤ hi
    → let page = page_from rows log since limit in
      (page.cursor.seq ≤ hi) × (page.cursor.epoch ≡ since.epoch)
unfolding whole found
page_from-Within rows log since limit hi h le = rw (page_from-whole rows log since limit) (
    read_rows-Within rows limit 0 (nothing_new since false) (found log since.seq) hi
      (found-Within hi since.seq log.stamps h) le)
