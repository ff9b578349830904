-- ===== src/Plans/Changes/Runs.antt =====
-- The log through a history of writes and listings: what it handed out stays good.
use goptivum.Prelude.{List, arith, length, true, ℕ, ◌≡◌}
use goptivum.Plans.Changes.{Cursor, Log, Part, advance, entomb, stamp, start_clock}
use goptivum.Plans.Changes.Polling.{IsLog, is_own}
use goptivum.Plans.Changes.Writes.{entomb-IsLog, stamp-IsLog}

-- What a transaction or a listing does to the log.
pub data Step : Log → Log → Type 0 where
  stamped :
      {log : Log} (fresh : List ℕ) (changed : List (ℕ × Part)) → Step log (stamp fresh log changed)
  entombed : {log : Log} (fresh : List ℕ) (plan_ids : List ℕ) → Step log (entomb fresh log plan_ids)
  started : {log : Log} (fresh : List ℕ) → Step log (start_clock fresh log)

pub data Run : Log → Log → Type 0 where
  rest : {log : Log} → Run log log
  next : {a b c : Log} → Step a b → Run b c → Run a c

start_clock-IsLog : (fresh : List ℕ) (log : Log) → IsLog log → IsLog (start_clock fresh log)
unfolding IsLog start_clock
start_clock-IsLog fresh log h = ground (arith, h)

Step-IsLog : {a b : Log} → Step a b → IsLog a → IsLog b
Step-IsLog (stamped fresh changed) h = stamp-IsLog fresh _ changed h
Step-IsLog (entombed fresh plan_ids) h = entomb-IsLog fresh _ plan_ids h
Step-IsLog (started fresh) h = start_clock-IsLog fresh _ h

advance-is_own :
    (fresh : List ℕ) (log : Log) (n : ℕ) (since : Cursor)
    → is_own log since ≡ true
    → is_own (advance fresh log n).0 since ≡ true
unfolding advance
advance-is_own fresh log n since own = ground (arith, own)

start_clock-is_own :
    (fresh : List ℕ) (log : Log) (since : Cursor)
    → is_own log since ≡ true
    → is_own (start_clock fresh log) since ≡ true
unfolding start_clock
start_clock-is_own fresh log since own = ground (arith, own)

Step-is_own :
    {a b : Log} (since : Cursor) → Step a b → is_own a since ≡ true → is_own b since ≡ true
unfolding stamp entomb start_clock
Step-is_own since (stamped fresh changed) own = advance-is_own fresh _ (length changed) since own
Step-is_own since (entombed fresh plan_ids) own = advance-is_own fresh _ (length plan_ids) since own
Step-is_own since (started fresh) own = start_clock-is_own fresh _ since own

-- Through any history of stamped transactions, removals and first listings, a log keeps its
-- stamps distinct and none above its clock, and a point that was one of its own stays one.
pub Run-is_own :
    {a b : Log} (since : Cursor)
    → Run a b
    → IsLog a
    → is_own a since ≡ true
    → IsLog b × (is_own b since ≡ true)
Run-is_own since rest h own = (h, own)
Run-is_own since (next step run) h own =
    Run-is_own since run (Step-IsLog step h) (Step-is_own since step own)
