-- ===== src/Plans/Changes.antt =====
-- backend/core/plans/changes.go: the clock, the stamps and the listing of what changed. The tables
-- are lists of rows; a statement of SQL is a function on them, and a statement that fails is left
-- out, as the transaction then changes nothing. The epoch's random bytes are an argument.
pub mod Order
pub mod Stamps
pub mod Pages
pub mod Listing
pub mod Polling
pub mod Following
pub mod Writes
pub mod Runs
use goptivum.Prelude.{
  Bool, List, Option, [], false, if◌then◌else◌, leb, length, list_eq, ltb, none, not, select, some,
  suc, take, true, ℕ, ◌&&◌, ◌++◌, ◌+◌, ◌-◌, ◌==◌, ◌||◌, ◌∷◌,
}

-- What of a plan changed.
pub data Part : Type 0 where
  project versions results : Part

-- Where a changed plan is now.
pub data State : Type 0 where
  live trash removed : State

-- The place of a part in `partOrder`.
abbrev pub part_rank : Part → ℕ
part_rank project = 0
part_rank versions = 1
part_rank results = 2

abbrev pub changes_page : ℕ
changes_page = 500

pub record Cursor : Type 0 where
  pub epoch : List ℕ
  pub seq : ℕ

-- A row of plan_changes.
pub record Stamp : Type 0 where
  pub plan_id : ℕ
  pub part : Part
  pub seq : ℕ

-- What the listing reads of a row of plans.
pub record PlanRow : Type 0 where
  pub id : ℕ
  pub deleted : Bool

pub record PlanChange : Type 0 where
  pub plan_id : ℕ
  pub state : State
  pub parts : List Part

pub record Changes : Type 0 where
  pub cursor : Cursor
  pub reset : Bool
  pub more : Bool
  pub plans : List PlanChange

-- The tables change_clock and plan_changes.
pub record Log : Type 0 where
  pub clock_row : Option Cursor
  pub stamps : List Stamp

unfoldable pub start_clock : List ℕ → Log → Log
start_clock fresh log = elim log.clock_row [
  | none ↦ record log { clock_row = some (record { epoch = fresh; seq = 0 }) }
  | some now ↦ log
]

-- The clock as it is read; one that is not there yet is written first.
unfoldable pub clock : List ℕ → Log → Cursor
clock fresh log = elim log.clock_row [ none ↦ record { epoch = fresh; seq = 0 } | some now ↦ now ]

abbrev pub moved_on : ℕ → Option Cursor → Option Cursor
moved_on n none = none
moved_on n (some now) = some (record now { seq = now.seq + n })

-- Moves the clock on by n, and answers the first of the values it passed.
unfoldable pub advance : List ℕ → Log → ℕ → Log × ℕ
unfolding start_clock clock
advance fresh log n = if n == 0 then (log, 0) else (
  record (start_clock fresh log) { clock_row = moved_on n (start_clock fresh log).clock_row },
  ((clock fresh log).seq + n - n) + 1,
)

-- The primary key of plan_changes: a plan and a part.
abbrev pub is_stamp_of : ℕ → Part → Stamp → Bool
is_stamp_of plan_id part s = s.plan_id == plan_id && part_rank s.part == part_rank part

unfoldable pub upsert_stamp : List Stamp → ℕ → Part → ℕ → List Stamp
upsert_stamp [] plan_id part seq = record { plan_id = plan_id; part = part; seq = seq } ∷ []
upsert_stamp (s ∷ ss) plan_id part seq =
    if is_stamp_of plan_id part s
    then record s { seq = seq } ∷ ss
    else s ∷ upsert_stamp ss plan_id part seq

-- The parts of one plan, each with the plan's id.
abbrev pub parts : ℕ → List Part → List (ℕ × Part)
parts plan_id [] = []
parts plan_id (part ∷ changed) = (plan_id, part) ∷ parts plan_id changed

unfoldable pub stamp_from : ℕ → List Stamp → List (ℕ × Part) → List Stamp
stamp_from first ss [] = ss
stamp_from first ss ((plan_id, part) ∷ changed) =
    stamp_from (suc first) (upsert_stamp ss plan_id part first) changed

unfoldable pub stamp : List ℕ → Log → List (ℕ × Part) → Log
unfolding advance stamp_from
stamp fresh log changed =
    let (moved, first) = advance fresh log (length changed) in
    record moved { stamps = stamp_from first moved.stamps changed }

-- `delete from plan_changes where plan_id = ? and part <> 'project'`
abbrev pub stays_of : ℕ → Stamp → Bool
stays_of plan_id s = not (s.plan_id == plan_id) || part_rank s.part == 0

unfoldable pub entomb_from : ℕ → List Stamp → List ℕ → List Stamp
unfolding upsert_stamp
entomb_from first ss [] = ss
entomb_from first ss (plan_id ∷ plan_ids) =
    entomb_from (suc first) (upsert_stamp (select (stays_of plan_id) ss) plan_id project first)
      plan_ids

unfoldable pub entomb : List ℕ → Log → List ℕ → Log
unfolding advance entomb_from
entomb fresh log plan_ids =
    let (moved, first) = advance fresh log (length plan_ids) in
    record moved { stamps = entomb_from first moved.stamps plan_ids }

-- The state of a plan, from its row if it still has one.
unfoldable pub state_of : List PlanRow → ℕ → State
state_of [] plan_id = removed
state_of (p ∷ ps) plan_id =
    if p.id == plan_id then if p.deleted then trash else live else state_of ps plan_id

-- `order by c.seq`
unfoldable pub insert_by_seq : Stamp → List Stamp → List Stamp
insert_by_seq s [] = s ∷ []
insert_by_seq s (t ∷ ts) = if ltb s.seq t.seq then s ∷ t ∷ ts else t ∷ insert_by_seq s ts

unfoldable pub order_by_seq : List Stamp → List Stamp
order_by_seq [] = []
order_by_seq (s ∷ ss) = insert_by_seq s (order_by_seq ss)

-- A stamp after a point.
abbrev pub is_after : ℕ → Stamp → Bool
is_after since s = ltb since s.seq

-- A part is added to its plan's entry; the first of a plan makes the entry, behind the others.
unfoldable pub list_part : List PlanRow → ℕ → Part → List PlanChange → List PlanChange
unfolding state_of
list_part rows plan_id part [] =
    record { plan_id = plan_id; state = state_of rows plan_id; parts = part ∷ [] } ∷ []
list_part rows plan_id part (c ∷ cs) =
    if c.plan_id == plan_id
    then record c { parts = c.parts ++ part ∷ [] } ∷ cs
    else c ∷ list_part rows plan_id part cs

abbrev pub listed : List PlanRow → Changes → Stamp → Changes
listed rows out s = record out {
  cursor = record out.cursor { seq = s.seq };
  plans = list_part rows s.plan_id s.part out.plans;
}

-- The loop over the rows of the query, of which `read` were read.
unfoldable pub read_rows : List PlanRow → ℕ → ℕ → Changes → List Stamp → Changes
unfolding list_part
read_rows rows limit read out [] = out
read_rows rows limit read out (s ∷ ss) =
    if ltb limit (suc read)
    then record out { more = true }
    else read_rows rows limit (suc read) (listed rows out s) ss

unfoldable pub insert_part : Part → List Part → List Part
insert_part p [] = p ∷ []
insert_part p (q ∷ qs) =
    if leb (part_rank p) (part_rank q) then p ∷ q ∷ qs else q ∷ insert_part p qs

unfoldable pub sort_parts : List Part → List Part
sort_parts [] = []
sort_parts (p ∷ ps) = insert_part p (sort_parts ps)

unfoldable pub sort_all : List PlanChange → List PlanChange
sort_all [] = []
sort_all (c ∷ cs) = record c { parts = sort_parts c.parts } ∷ sort_all cs

abbrev pub page_limit : ℕ → ℕ
page_limit limit = if ltb limit 1 then changes_page else limit

abbrev pub nothing_new : Cursor → Bool → Changes
nothing_new point reset = record { cursor = point; reset = reset; more = false; plans = [] }

-- The listing from a point of this database's own clock.
unfoldable pub page_from : List PlanRow → Log → Cursor → ℕ → Changes
unfolding order_by_seq read_rows sort_all
page_from rows log since limit =
    let found = take (suc limit) (order_by_seq (select (is_after since.seq) log.stamps)) in
    let out = read_rows rows limit 0 (nothing_new since false) found in
    record out { plans = sort_all out.plans }

-- A point that this database never handed out, as far as its clock can tell.
abbrev pub is_foreign : Cursor → Cursor → Bool
is_foreign now since = not (list_eq since.epoch now.epoch) || ltb now.seq since.seq

-- `Changes`: no point, or a foreign one, is answered with a reset.
unfoldable pub changes : List ℕ → List PlanRow → Log → Option Cursor → ℕ → Log × Changes
unfolding page_from clock start_clock
changes fresh rows log none limit = (start_clock fresh log, nothing_new (clock fresh log) true)
changes fresh rows log (some since) limit =
    let now = clock fresh log in
    (
      start_clock fresh log,
      if is_foreign now since
          then nothing_new now true
          else if since.seq == now.seq
          then nothing_new since false
          else page_from rows log since (page_limit limit),
    )
