-- ===== src/Plans/Garbage.antt =====
-- backend/core/plans/garbage.go: the keys that wait for the sweep, and the sweep. The caller's
-- `remove`, which deletes an object from the storage, is known by the keys it fails for.
pub mod Sweeping
use goptivum.Prelude.{
  Bool, List, [], any, if◌then◌else◌, leb, not, select, ℕ, ◌&&◌, ◌*◌, ◌++◌, ◌+◌, ◌==◌, ◌∷◌,
}
use goptivum.Plans.Store.{Db, Garbage, in_garbage, is_named}

-- An hour, in microseconds.
abbrev pub sweep_age : ℕ
sweep_age = 60 * 60 * 1000000

unfoldable pub touch_garbage : ℕ → ℕ → List Garbage → List Garbage
touch_garbage key now [] = []
touch_garbage key now (g ∷ gs) =
    (if g.object_key == key then record g { since = now } else g) ∷ touch_garbage key now gs

unfoldable pub revive : Db → ℕ → ℕ → Db
unfolding touch_garbage
revive db key now = record db { garbage = touch_garbage key now db.garbage }

unfoldable pub discard : Db → ℕ → ℕ → Db
unfolding touch_garbage in_garbage
discard db key now = record db {
  garbage =
      if in_garbage key db.garbage
      then touch_garbage key now db.garbage
      else db.garbage ++ record { object_key = key; since = now } ∷ [];
}

-- A row of this key that waited `sweep_age` at a time: `since <= at - SweepAge`.
abbrev pub is_due : ℕ → ℕ → Garbage → Bool
is_due key at g = g.object_key == key && leb (g.since + sweep_age) at

-- `delete from object_garbage where object_key = ? and since <= ?`
unfoldable pub take_due : ℕ → ℕ → Db → Db
take_due key at db = record db { garbage = select (λ g. not (is_due key at g)) db.garbage }

-- What became of one key.
pub data Swept : Type 0 where
  left deleted failed : Swept

-- One key's transaction: nothing to take, named again, deleted, or rolled back.
unfoldable pub sweep_one : (ℕ → Bool) → Db → ℕ → ℕ → Db × Swept
unfolding take_due is_named
sweep_one fails db key at =
    if not (any (is_due key at) db.garbage)
    then (db, left)
    else if is_named db key
    then (take_due key at db, left)
    else if fails key
    then (db, failed)
    else (take_due key at db, deleted)

-- The loop over the listed keys: the keys that were deleted, and those that failed.
unfoldable pub sweep_keys : (ℕ → Bool) → ℕ → Db → List ℕ → Db × List ℕ × List ℕ
unfolding sweep_one
sweep_keys fails at db [] = (db, [], [])
sweep_keys fails at db (key ∷ keys) =
    let (db', swept) = sweep_one fails db key at in
    let (end, gone, stayed) = sweep_keys fails at db' keys in
    elim swept [
      | left ↦ (end, gone, stayed)
      | deleted ↦ (end, key ∷ gone, stayed)
      | failed ↦ (end, gone, key ∷ stayed)
    ]

-- `select object_key from object_garbage where since <= ?`
unfoldable pub due_keys : ℕ → List Garbage → List ℕ
due_keys at [] = []
due_keys at (g ∷ gs) =
    if leb (g.since + sweep_age) at then g.object_key ∷ due_keys at gs else due_keys at gs

-- `Sweep`; what it returns is how many keys were deleted, and the errors of the others.
unfoldable pub sweep : (ℕ → Bool) → Db → ℕ → Db × List ℕ × List ℕ
unfolding sweep_keys due_keys
sweep fails db at = sweep_keys fails at db (due_keys at db.garbage)
