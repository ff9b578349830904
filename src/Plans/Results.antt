-- ===== src/Plans/Results.antt =====
-- backend/core/plans/results.go: the timetables that solves kept, their cap and their Trash. The
-- rows of a statement that fails are left as they were, as its transaction is rolled back.
pub mod Change
pub mod Removal
pub mod Latest
pub mod Capped
pub mod Kept
use goptivum.Prelude.{
  Bool, List, Option, Result, [], any, drop, err, false, first_where, has, if◌then◌else◌, is_err,
  is_none, leb, length, list_eq, ltb, map, none, not, ok, refuse_if, select, some, ℕ, ◌&&◌, ◌++◌,
  ◌+◌, ◌==◌, ◌>>=◌, ◌>>◌, ◌||◌, ◌∷◌,
}
use goptivum.Plans.Changes.{Part, parts, results, stamp}
use goptivum.Plans.Store.{Db, Export, Plan, SolveJob, Stored, record_keys}
use goptivum.Plans.Backups.{export_keys, keep_for}
use goptivum.Plans.Versions.{check_upload_key}

-- A result to store; an `id` was drawn for it, and a time of 0 is now.
pub record NewResult : Type 0 where
  pub plan_id : ℕ
  pub job_id : ℕ
  pub upload_key : List ℕ
  pub source_version : ℕ
  pub object_key : ℕ
  pub size_bytes : ℕ
  pub created_at : ℕ

pub data ResultError : Type 0 where
  unnamed_object bad_upload_key reused_key : ResultError
  no_plan duplicate solved_too_early no_result : ResultError

-- `id in (select source_result_id from solve_jobs …)`; 0 stands for null.
unfoldable pub is_source : List SolveJob → ℕ → Bool
is_source jobs id =
    any (λ j. not (j.source_result_id == 0) && (j.is_open && j.source_result_id == id)) jobs

-- An exported file of one of some results; a file of a version has the result 0, which is null.
abbrev pub is_file_of : (Stored → Bool) → List Stored → Export → Bool
is_file_of test rs e = not (e.result_id == 0) && any (λ r. test r && r.id == e.result_id) rs

abbrev pub result_keys : List Stored → List ℕ
result_keys rs = map (λ r. r.object_key) rs

-- Removes the results that a test picks, and by cascade the files exported from them; the keys of
-- both are recorded before.
unfoldable pub remove_results : ℕ → (Stored → Bool) → Db → Db
unfolding record_keys
remove_results now test db =
    let files = is_file_of test db.results in
    record db {
      results = select (λ r. not (test r)) db.results;
      exports = select (λ e. not (files e)) db.exports;
      garbage =
          record_keys now (export_keys (select files db.exports))
            (record_keys now (result_keys (select test db.results)) db.garbage);
    }

unfoldable pub remove_result : Db → ℕ → ℕ → Db
unfolding remove_results
remove_result db id now = remove_results now (λ r. r.id == id) db

-- `where plan_id = ? and deleted_at is null and pinned = false`
abbrev pub is_counted : ℕ → Stored → Bool
is_counted plan_id r = r.plan_id == plan_id && (is_none r.deleted_at && not r.pinned)

-- `order by created_at desc, id desc`
abbrev pub is_later : Stored → Stored → Bool
is_later r s = ltb s.created_at r.created_at || s.created_at == r.created_at && ltb s.id r.id

unfoldable pub insert_latest : Stored → List Stored → List Stored
insert_latest r [] = r ∷ []
insert_latest r (s ∷ ss) = if is_later s r then s ∷ insert_latest r ss else r ∷ s ∷ ss

unfoldable pub counted : ℕ → List Stored → List Stored
unfolding insert_latest
counted plan_id [] = []
counted plan_id (r ∷ rs) =
    if is_counted plan_id r then insert_latest r (counted plan_id rs) else counted plan_id rs

-- The loop over the results beyond the cap; one that a solve reads stays.
unfoldable pub trim_from : Db → ℕ → List Stored → Db
unfolding remove_result is_source
trim_from db now [] = db
trim_from db now (r ∷ rs) =
    trim_from (if is_source db.solve_jobs r.id then db else remove_result db r.id now) now rs

unfoldable pub trim_results : Db → ℕ → ℕ → ℕ → Db
unfolding counted trim_from
trim_results db plan_id keep now = trim_from db now (drop keep (counted plan_id db.results))

abbrev pub is_result_upload : ℕ → List ℕ → Stored → Bool
is_result_upload plan_id key r =
    r.plan_id == plan_id && (not (list_eq r.upload_key []) && list_eq r.upload_key key)

-- `replayResult`: the result that an earlier send of the same upload kept.
unfoldable pub replay_result : Db → NewResult → Result ResultError (Option Stored)
replay_result db add =
    if list_eq add.upload_key []
    then ok none
    else elim (first_where (is_result_upload add.plan_id add.upload_key) db.results) [
      | none ↦ ok none
      | some stored ↦
          if not (stored.object_key == add.object_key)
            || not (stored.source_version == add.source_version)
          then err reused_key
          else ok (some stored)
    ]

-- The row of a plan, in Trash or not.
unfoldable pub any_plan : List Plan → ℕ → Option Plan
any_plan ps id = first_where (λ p. p.id == id) ps

-- `insertResult`: one transaction, which is undone when the cap removes the result at once.
unfoldable pub insert_result : List ℕ → ℕ → Db → Stored → ℕ → Result ResultError Db
unfolding any_plan trim_results
insert_result fresh default db r now = elim (any_plan db.plans r.plan_id) [
  | none ↦ err no_plan
  | some plan ↦
      let inserted : Db = record db { results = db.results ++ r ∷ [] } in
      let trimmed : Db = trim_results inserted r.plan_id (keep_for plan.results_keep default) now in
      if any (is_result_upload r.plan_id r.upload_key) db.results
        || any (λ s. s.id == r.id) db.results
      then err duplicate
      else if any (λ s. s.id == r.id) trimmed.results
      then ok (record trimmed { log = stamp fresh trimmed.log (parts r.plan_id (results ∷ [])) })
      else err solved_too_early
]

unfoldable pub stored_of : NewResult → ℕ → ℕ → Stored
stored_of add id now = record {
  id = id;
  plan_id = add.plan_id;
  job_id = add.job_id;
  upload_key = add.upload_key;
  source_version = add.source_version;
  object_key = add.object_key;
  size_bytes = add.size_bytes;
  created_at = if add.created_at == 0 then now else add.created_at;
  name = 0;
  pinned = false;
  deleted_at = none;
}

-- `AddResult`: a failed insert is answered with what an earlier send of the upload kept.
unfoldable pub add_result : List ℕ → ℕ → Db → NewResult → ℕ → ℕ → Result ResultError (Db × Stored)
unfolding check_upload_key insert_result replay_result stored_of
add_result fresh default db add id now = do
  refuse_if (add.object_key == 0) unnamed_object
  refuse_if (not (list_eq add.upload_key []) && is_err (check_upload_key add.upload_key))
      bad_upload_key
  elim (insert_result fresh default db (stored_of add id now) now) [
    | ok db' ↦ ok (db', stored_of add id now)
    | err e ↦ elim (replay_result db add) [
      | err reused ↦ err reused
      | ok none ↦ err e
      | ok (some stored) ↦ ok (db, stored)
    ]
  ]

-- A result whose time in Trash is up and that no open solve reads.
abbrev pub is_purged : List SolveJob → ℕ → ℕ → Stored → Bool
is_purged jobs at trash_time r =
    elim r.deleted_at [ none ↦ false | some deleted_at ↦ leb (deleted_at + trash_time) at ]
    && not (is_source jobs r.id)

-- The plans of some rows, each once.
unfoldable pub touched : List Stored → List ℕ
touched [] = []
touched (r ∷ rs) = let rest = touched rs in if has rest r.plan_id then rest else r.plan_id ∷ rest

abbrev pub results_of : List ℕ → List (ℕ × Part)
results_of plan_ids = map (λ id. (id, results)) plan_ids

-- `PurgeResults`: the database, and how many results were removed.
unfoldable pub purge_results : List ℕ → Db → ℕ → ℕ → ℕ → Db × ℕ
unfolding remove_results touched is_source
purge_results fresh db at trash_time now =
    let due = is_purged db.solve_jobs at trash_time in
    let left = remove_results now due db in
    let gone = select due db.results in
    (record left { log = stamp fresh left.log (results_of (touched gone)) }, length gone)
