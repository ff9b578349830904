-- ===== src/Plans/Backups.antt =====
-- backend/core/plans/backups.go: the backups cap of a plan, applied to its versions.
pub mod Newest
pub mod Kept
use goptivum.Prelude.{
  Bool, List, Option, [], any, first_where, get_elem?, if◌then◌else◌, is_none, leb, length, ltb,
  map, max, none, not, select, some, ℕ, ◌&&◌, ◌+◌, ◌==◌, ◌∷◌,
}
use goptivum.Plans.Changes.{parts, stamp, versions}
use goptivum.Plans.Store.{Db, Export, Plan, SolveJob, Version, record_keys}

-- A version of the plan that is no checkpoint, live or in Trash.
abbrev pub is_plain : ℕ → Version → Bool
is_plain plan_id v = v.plan_id == plan_id && is_none v.checkpoint

-- `version not in (select plan_version from solve_jobs …)`
unfoldable pub is_read : List SolveJob → ℕ → ℕ → Bool
is_read jobs plan_id version =
    any (λ j. j.plan_id == plan_id && (j.is_open && j.plan_version == version)) jobs

-- `order by version desc`
unfoldable pub insert_desc : ℕ → List ℕ → List ℕ
insert_desc n [] = n ∷ []
insert_desc n (m ∷ ms) = if ltb n m then m ∷ insert_desc n ms else n ∷ m ∷ ms

-- The numbers of the plain versions below the newest, from the highest.
unfoldable pub plain_below : ℕ → ℕ → List Version → List ℕ
unfolding insert_desc
plain_below plan_id newest [] = []
plain_below plan_id newest (v ∷ vs) =
    if is_plain plan_id v && ltb v.version newest
    then insert_desc v.version (plain_below plan_id newest vs)
    else plain_below plan_id newest vs

-- `… limit 1 offset keep`: the newest version over the cap, if there is one.
unfoldable pub cutoff_of : Db → ℕ → ℕ → ℕ → Option ℕ
unfolding plain_below
cutoff_of db plan_id newest keep = get_elem? (plain_below plan_id newest db.versions) keep

-- A version that the trim removes.
unfoldable pub is_trimmed : Db → ℕ → ℕ → Version → Bool
unfolding is_read
is_trimmed db plan_id cutoff v =
    is_plain plan_id v && leb v.version cutoff && not (is_read db.solve_jobs plan_id v.version)

-- An exported file of one of some versions.
abbrev pub is_export_of : (Version → Bool) → List Version → Export → Bool
is_export_of test vs e = any (λ v. test v && (v.plan_id == e.plan_id && v.version == e.version)) vs

abbrev pub version_keys : List Version → List ℕ
version_keys vs = map (λ v. v.object_key) vs

abbrev pub export_keys : List Export → List ℕ
export_keys es = map (λ e. e.object_key) es

-- Removes the versions that a test picks, and by cascade the files exported from them; the keys of
-- both are recorded before.
unfoldable pub remove_versions : ℕ → (Version → Bool) → Db → Db
unfolding record_keys
remove_versions now test db =
    let files = is_export_of test db.versions in
    record db {
      versions = select (λ v. not (test v)) db.versions;
      exports = select (λ e. not (files e)) db.exports;
      garbage =
          record_keys now (export_keys (select files db.exports))
            (record_keys now (version_keys (select test db.versions)) db.garbage);
    }

-- The rest of `trim`, from the cutoff on.
unfoldable pub trim_below : Db → ℕ → ℕ → Option ℕ → Db × ℕ
unfolding is_trimmed remove_versions
trim_below db plan_id now none = (db, 0)
trim_below db plan_id now (some cutoff) = (
  remove_versions now (is_trimmed db plan_id cutoff) db,
  length (select (is_trimmed db plan_id cutoff) db.versions),
)

-- `trim`: the database, and how many versions were removed.
unfoldable pub trim : Db → ℕ → ℕ → ℕ → ℕ → Db × ℕ
unfolding cutoff_of trim_below
trim db plan_id newest keep now = trim_below db plan_id now (cutoff_of db plan_id newest keep)

-- `select max(version) …`, none for a plan without versions.
unfoldable pub newest_of : ℕ → List Version → Option ℕ
newest_of plan_id [] = none
newest_of plan_id (v ∷ vs) =
    if v.plan_id == plan_id
    then some (elim (newest_of plan_id vs) [ none ↦ v.version | some m ↦ max v.version m ])
    else newest_of plan_id vs

-- The cap in force: the plan's own, or the default where it has none.
abbrev pub keep_for : ℕ → ℕ → ℕ
keep_for own default = if ltb 0 own then own else default

-- `trimPlan`, with the plan's own cap (0 for none) and the default: nothing is stamped where
-- nothing was removed.
unfoldable pub trim_plan : List ℕ → Db → ℕ → ℕ → ℕ → ℕ → Db × ℕ
unfolding trim newest_of
trim_plan fresh db plan_id own default now = elim (newest_of plan_id db.versions) [
  | none ↦ (db, 0)
  | some newest ↦
      let (trimmed, count) = trim db plan_id newest (keep_for own default) now in
      if count == 0
      then (db, 0)
      else (record trimmed { log = stamp fresh trimmed.log (parts plan_id (versions ∷ [])) }, count)
]

-- `planKeep`: a plan's own cap, 0 where it has none.
unfoldable pub own_keep : List Plan → ℕ → ℕ
own_keep ps id = elim (first_where (λ p. p.id == id) ps) [ none ↦ 0 | some p ↦ p.backups_keep ]

unfoldable pub insert_id : ℕ → List ℕ → List ℕ
insert_id id [] = id ∷ []
insert_id id (k ∷ ks) = if ltb k id then k ∷ insert_id id ks else id ∷ k ∷ ks

-- `select id from plans order by id`
unfoldable pub ordered_ids : List Plan → List ℕ
unfolding insert_id
ordered_ids [] = []
ordered_ids (p ∷ ps) = insert_id p.id (ordered_ids ps)

-- The loop over the plans: each is a transaction of its own.
unfoldable pub trim_each : List ℕ → Db → ℕ → ℕ → List ℕ → Db × ℕ
unfolding trim_plan own_keep
trim_each fresh db default now [] = (db, 0)
trim_each fresh db default now (id ∷ ids) =
    let one = trim_plan fresh db id (own_keep db.plans id) default now in
    let rest = trim_each fresh one.0 default now ids in (rest.0, one.1 + rest.1)

unfoldable pub trim_backups : List ℕ → Db → ℕ → ℕ → Db × ℕ
unfolding trim_each ordered_ids
trim_backups fresh db default now = trim_each fresh db default now (ordered_ids db.plans)
