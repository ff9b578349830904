-- ===== src/Lockout.antt =====
-- backend/core/lockout/lockout.go: failed sign-ins counted per name and per address.
-- A time is a number with 0 for the zero time, and a duration is a difference of such. A map is an
-- association list; the order in which Go ranges over it is the list's, which no theorem fixes.
-- The clock is an argument `now`.
pub mod Tables
pub mod Counting
pub mod Bound
pub mod SignIn
use goptivum.Text.{trim_space}
use goptivum.Prelude.{
  Bool, List, Option, [], false, if◌then◌else◌, leb, length, list_eq, ltb, none, not, some, true, ℕ,
  ◌&&◌, ◌*◌, ◌+◌, ◌-◌, ◌==◌, ◌||◌, ◌∷◌,
}

abbrev pub max_account_failures : ℕ
max_account_failures = 100

abbrev pub max_address_failures : ℕ
max_address_failures = 1000

-- A minute, in the clock's unit, is 60; `max_block` is 1440 minutes.
abbrev pub minute : ℕ
minute = 60

abbrev pub max_block : ℕ
max_block = 1440 * minute

abbrev pub max_tracked : ℕ
max_tracked = 10000

pub record Limits : Type 0 where
  pub account_failures : ℕ
  pub address_failures : ℕ
  pub block : ℕ

-- The first limit outside its range.
pub data LimitField : Type 0 where
  account_field address_field block_field : LimitField

unfoldable pub invalid : Limits → Option LimitField
invalid l =
    if ltb l.account_failures 1 || ltb max_account_failures l.account_failures
    then some account_field
    else if ltb l.address_failures 1 || ltb max_address_failures l.address_failures
    then some address_field
    else if ltb l.block minute || ltb max_block l.block
    then some block_field
    else none

pub record Count : Type 0 where
  pub failures : ℕ
  pub since : ℕ
  pub until : ℕ

abbrev pub Key : Type 0
Key = List ℕ

abbrev pub Table : Type 0
Table = List (Key × Count)

abbrev pub no_count : Count
no_count = record { failures = 0; since = 0; until = 0 }

unfoldable pub find : Table → Key → Option Count
find [] key = none
find ((k, c) ∷ t) key = if list_eq k key then some c else find t key

unfoldable pub put : Table → Key → Count → Table
put [] key c = (key, c) ∷ []
put ((k, d) ∷ t) key c = if list_eq k key then (k, c) ∷ t else (k, d) ∷ put t key c

unfoldable pub delete : Table → Key → Table
delete [] key = []
delete ((k, c) ∷ t) key = if list_eq k key then delete t key else (k, c) ∷ delete t key

-- What `makeRoom` deletes: no block runs, and nothing counted is still in the window.
abbrev pub is_idle : ℕ → ℕ → Count → Bool
is_idle block now c = leb c.until now && (c.failures == 0 || leb (c.since + block) now)

-- When the entry started counting, or when its block ends.
abbrev pub started : Count → ℕ
started c = if c.since == 0 then c.until else c.since

-- The loop of `makeRoom`: the entries that stay, and the key and time of the oldest of them; the
-- empty key is none yet.
unfoldable pub sweep : ℕ → ℕ → Table → Key → ℕ → Table × Key × ℕ
sweep block now [] key oldest = ([], key, oldest)
sweep block now ((k, c) ∷ t) key oldest = elim (is_idle block now c) [
  | true ↦ sweep block now t key oldest
  | false ↦
      let newer = list_eq key [] || ltb (started c) oldest in
      let (kept, key', oldest') =
        sweep block now t (if newer then k else key) (if newer then started c else oldest) in
      ((k, c) ∷ kept, key', oldest')
]

unfoldable pub make_room : ℕ → Table → ℕ → Table
make_room block t now =
    let (kept, key, oldest) = sweep block now t [] 0 in
    if ltb (length t) max_tracked
    then t
    else if leb max_tracked (length kept) && not (list_eq key [])
    then delete kept key
    else kept

-- One failure on one entry, and whether it started a block.
unfoldable pub fail_count : ℕ → ℕ → ℕ → Count → Count × Bool
fail_count block limit now c =
    let fresh = c.failures == 0 || leb (c.since + block) now in
    let n = (if fresh then 0 else c.failures) + 1 in
    let since' = if fresh then now else c.since in
    if ltb now c.until
    then (c, false)
    else if ltb n limit
    then (record { failures = n; since = since'; until = c.until }, false)
    else (record { failures = 0; since = 0; until = now + block }, true)

-- The entry that `fail` works on, and the table with it in place.
abbrev pub entry_of : Option Count → Count
entry_of none = no_count
entry_of (some c) = c

abbrev pub room_for : ℕ → Option Count → Table → ℕ → Table
room_for block none t now = make_room block t now
room_for block (some c) t now = t

unfoldable pub fail : ℕ → Table → Key → ℕ → ℕ → Table × Bool
fail block t key limit now =
    let (c, blocked) = fail_count block limit now (entry_of (find t key)) in
    (put (room_for block (find t key) t now) key c, blocked)

unfoldable pub remaining : Option Count → ℕ → ℕ
remaining none now = 0
remaining (some c) now = if ltb now c.until then c.until - now else 0

pub record Guard : Type 0 where
  pub limits : Limits
  pub accounts : Table
  pub addresses : Table

pub record Block : Type 0 where
  pub account : Bool
  pub address : Bool
  pub duration : ℕ

unfoldable pub new_guard : Limits → Guard
new_guard limits = record { limits = limits; accounts = []; addresses = [] }

unfoldable pub set_limits : Guard → Limits → Guard
set_limits g limits = record g { limits = limits }

-- `to_lower` is strings.ToLower, whose Unicode tables are not modelled.
module _ (to_lower : List ℕ → List ℕ) where
  unfoldable pub normalize : List ℕ → Key
  normalize account = to_lower (trim_space account)

  unfoldable pub blocked : Guard → List ℕ → Key → ℕ → ℕ
  blocked g account address now =
      let left = remaining (find g.accounts (normalize account)) now in
      let by_address = remaining (find g.addresses address) now in
      if ltb left by_address then by_address else left

  unfoldable pub failed : Guard → List ℕ → Key → ℕ → Guard × Block
  failed g account address now =
      let name = normalize account in
      let (accounts', a) = fail g.limits.block g.accounts name g.limits.account_failures now in
      let (addresses', b) = fail g.limits.block g.addresses address g.limits.address_failures now in
      (
        record {
          limits = g.limits;
          accounts = if list_eq name [] then g.accounts else accounts';
          addresses = if list_eq address [] then g.addresses else addresses';
        },
        record {
          account = if list_eq name [] then false else a;
          address = if list_eq address [] then false else b;
          duration = g.limits.block;
        },
      )

  unfoldable pub succeeded : Guard → List ℕ → Guard
  succeeded g account = record g { accounts = delete g.accounts (normalize account) }

abbrev pub tracked : Guard → ℕ × ℕ
tracked g = (length g.accounts, length g.addresses)
