-- ===== src/Plans/Changes/Pages.antt =====
-- What a page of the listing holds, read against the table of stamps.
use goptivum.Prelude.{
  Bool, Bool-cases, List, [], any, any-append, ap, arith, false, inl, inr, leb, length, le→leb, ltb,
  lt→ltb, refl, suc, take, true, zero, ℕ, ◌&&◌, ◌+◌, ◌-◌, ◌==◌, ◌||◌, ◌∙◌, ◌∷◌, ◌≡◌, ◌≤◌,
}
use goptivum.Plans.Changes.{
  Changes, Part, PlanChange, PlanRow, Stamp, insert_part, is_stamp_of, list_part, listed, part_rank,
  read_rows, sort_all, sort_parts,
}
use goptivum.Plans.Changes.Order.{Ascending, pending}

abbrev pub is_same_part : Part → Part → Bool
is_same_part p q = part_rank q == part_rank p

-- Whether a page lists a part of a plan.
unfoldable pub lists : ℕ → Part → List PlanChange → Bool
lists plan_id part cs = any (λ c. c.plan_id == plan_id && any (is_same_part part) c.parts) cs

-- Whether a part of a plan was stamped after `lo` and not after `hi`.
unfoldable pub stamped_between : ℕ → Part → ℕ → ℕ → List Stamp → Bool
stamped_between plan_id part lo hi ss =
    any (λ s. is_stamp_of plan_id part s && (ltb lo s.seq && leb s.seq hi)) ss

lists-list_part :
    (rows : List PlanRow) (i : ℕ) (q : Part) (cs : List PlanChange) (plan_id : ℕ) (part : Part)
    → lists plan_id part (list_part rows i q cs)
      ≡ (lists plan_id part cs || i == plan_id && is_same_part part q)
unfolding lists list_part
lists-list_part rows i q [] plan_id part = ground arith
lists-list_part rows i q (c ∷ cs) plan_id part = ground (
  arith,
  any-append (is_same_part part) c.parts (q ∷ []),
  lists-list_part rows i q cs plan_id part,
)

-- Rows that are above a point anyway.
stamped_between_above :
    (plan_id : ℕ) (part : Part) (lo lo' hi : ℕ) (ss : List Stamp)
    → Ascending lo' ss
    → lo ≤ lo'
    → stamped_between plan_id part lo hi ss ≡ stamped_between plan_id part lo' hi ss
unfolding stamped_between
stamped_between_above plan_id part lo lo' hi [] h le = refl
stamped_between_above plan_id part lo lo' hi (s ∷ ss) (above, h) le = ground (
  arith,
  stamped_between_above plan_id part lo s.seq hi ss h,
  stamped_between_above plan_id part lo' s.seq hi ss h,
)

-- Nothing lies between a point and itself.
stamped_between_none :
    (plan_id : ℕ) (part : Part) (lo : ℕ) (ss : List Stamp)
    → stamped_between plan_id part lo lo ss ≡ false
unfolding stamped_between
stamped_between_none plan_id part lo [] = refl
stamped_between_none plan_id part lo (s ∷ ss) =
    ground (arith, stamped_between_none plan_id part lo ss)

pub read_rows_advances :
    (rows : List PlanRow) (limit read : ℕ) (out : Changes) (ss : List Stamp)
    → Ascending out.cursor.seq ss
    → out.cursor.seq ≤ (read_rows rows limit read out ss).cursor.seq
unfolding read_rows
read_rows_advances rows limit read out [] h = omega arith
read_rows_advances rows limit read out (s ∷ ss) (above, h) =
    ground (arith, read_rows_advances rows limit (suc read) (listed rows out s) ss h)

-- The first row of an ascending table, apart from the rest.
stamped_between_first :
    (plan_id : ℕ) (part : Part) (lo hi : ℕ) (s : Stamp) (ss : List Stamp)
    → Ascending lo (s ∷ ss)
    → s.seq ≤ hi
    → stamped_between plan_id part lo hi (s ∷ ss)
      ≡ (is_stamp_of plan_id part s || stamped_between plan_id part s.seq hi ss)
unfolding stamped_between
stamped_between_first plan_id part lo hi s ss (above, h) le =
    rw (lt→ltb lo s.seq above, le→leb s.seq hi le) ground
      (arith, stamped_between_above plan_id part lo s.seq hi ss h (omega arith))

read_rows-end :
    (rows : List PlanRow) (limit read : ℕ) (out : Changes) → read_rows rows limit read out [] ≡ out
unfolding read_rows
read_rows-end rows limit read out = refl

stamped_between-end :
    (plan_id : ℕ) (part : Part) (lo hi : ℕ) → stamped_between plan_id part lo hi [] ≡ false
unfolding stamped_between
stamped_between-end plan_id part lo hi = refl

read_rows-stop :
    (rows : List PlanRow) (limit read : ℕ) (out : Changes) (s : Stamp) (ss : List Stamp)
    → ltb limit (suc read) ≡ true
    → read_rows rows limit read out (s ∷ ss) ≡ record out { more = true }
unfolding read_rows
read_rows-stop rows limit read out s ss h = rw h refl

read_rows-go :
    (rows : List PlanRow) (limit read : ℕ) (out : Changes) (s : Stamp) (ss : List Stamp)
    → ltb limit (suc read) ≡ false
    → read_rows rows limit read out (s ∷ ss)
      ≡ read_rows rows limit (suc read) (listed rows out s) ss
unfolding read_rows
read_rows-go rows limit read out s ss h = rw h refl

-- The loop lists what the table holds between the point it began at and the one it ends at.
pub read_rows-lists :
    (rows : List PlanRow) (limit read : ℕ) (out : Changes) (ss : List Stamp) (plan_id : ℕ)
    (part : Part)
    → Ascending out.cursor.seq ss
    → let after = read_rows rows limit read out ss in
      lists plan_id part after.plans ≡ (
        lists plan_id part out.plans
        || stamped_between plan_id part out.cursor.seq after.cursor.seq ss)
read_rows-lists rows limit read out [] plan_id part h =
    rw (read_rows-end rows limit read out)
      (ground (arith, stamped_between-end plan_id part out.cursor.seq out.cursor.seq))
read_rows-lists rows limit read out (s ∷ ss) plan_id part (above, h) =
    elim (Bool-cases (ltb limit (suc read))) [
      | inl stops ↦
          rw (read_rows-stop rows limit read out s ss stops)
            (ground (arith, stamped_between_none plan_id part out.cursor.seq (s ∷ ss)))
      | inr goes ↦
          let next = listed rows out s in
          rw (read_rows-go rows limit read out s ss goes) (
            ground (
              arith,
              read_rows-lists rows limit (suc read) next ss plan_id part h,
              lists-list_part rows s.plan_id s.part out.plans plan_id part,
              stamped_between_first plan_id part out.cursor.seq
                  (read_rows rows limit (suc read) next ss).cursor.seq s ss (above, h)
                  (read_rows_advances rows limit (suc read) next ss h),
            ))
    ]

any-insert_part :
    (t : Part → Bool) (p : Part) (ps : List Part) → any t (insert_part p ps) ≡ (t p || any t ps)
unfolding insert_part
any-insert_part t p [] = refl
any-insert_part t p (q ∷ qs) = ground (arith, any-insert_part t p qs)

any-sort_parts : (t : Part → Bool) (ps : List Part) → any t (sort_parts ps) ≡ any t ps
unfolding sort_parts
any-sort_parts t [] = refl
any-sort_parts t (p ∷ ps) =
    any-insert_part t p (sort_parts ps) ∙ ap (λ b. t p || b) (any-sort_parts t ps)

pub lists-sort_all :
    (cs : List PlanChange) (plan_id : ℕ) (part : Part)
    → lists plan_id part (sort_all cs) ≡ lists plan_id part cs
unfolding lists sort_all
lists-sort_all [] plan_id part = refl
lists-sort_all (c ∷ cs) plan_id part =
    ground (arith, any-sort_parts (is_same_part part) c.parts, lists-sort_all cs plan_id part)

-- The one row behind the limit is all that the loop sees of the rest.
pub read_rows-take :
    (rows : List PlanRow) (limit read n : ℕ) (out : Changes) (ss : List Stamp)
    → read + n ≡ suc limit
    → read ≤ limit
    → read_rows rows limit read out (take n ss) ≡ read_rows rows limit read out ss
unfolding read_rows
read_rows-take rows limit read zero out ss e le = absurd (omega arith)
read_rows-take rows limit read (suc n) out [] e le = refl
read_rows-take rows limit read (suc n) out (s ∷ ss) e le =
    ground (arith, read_rows-take rows limit (suc read) n (listed rows out s) ss)

pub pending_all :
    (since lo : ℕ) (ss : List Stamp) → Ascending lo ss → since ≤ lo → pending since ss ≡ length ss
unfolding pending
pending_all since lo [] h le = refl
pending_all since lo (s ∷ ss) (above, h) le = ground (arith, pending_all since s.seq ss h)

pending_skip :
    (since : ℕ) (s : Stamp) (ss : List Stamp)
    → s.seq ≤ since
    → pending since (s ∷ ss) ≡ pending since ss
unfolding pending
pending_skip since s ss le = ground arith

-- The rows that wait behind the loop are those over the limit, and `more` says whether there are.
pub read_rows-pending :
    (rows : List PlanRow) (limit read : ℕ) (out : Changes) (ss : List Stamp)
    → Ascending out.cursor.seq ss
    → read ≤ limit
    → let after = read_rows rows limit read out ss in
      (pending after.cursor.seq ss ≡ length ss - (limit - read))
      × (after.more ≡ (out.more || ltb (limit - read) (length ss)))
read_rows-pending rows limit read out [] h le =
    rw (read_rows-end rows limit read out)
      (ground (arith, pending_all out.cursor.seq out.cursor.seq []))
read_rows-pending rows limit read out (s ∷ ss) (above, h) le =
    elim (Bool-cases (ltb limit (suc read))) [
      | inl stops ↦
          rw (read_rows-stop rows limit read out s ss stops)
            (ground (arith, pending_all out.cursor.seq out.cursor.seq (s ∷ ss) (above, h)))
      | inr goes ↦
          let next = listed rows out s in
          rw (read_rows-go rows limit read out s ss goes) (
            ground (
              arith,
              read_rows-pending rows limit (suc read) next ss h,
              read_rows_advances rows limit (suc read) next ss h,
              pending_skip (read_rows rows limit (suc read) next ss).cursor.seq s ss,
            ))
    ]
