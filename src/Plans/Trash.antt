-- ===== src/Plans/Trash.antt =====
-- backend/core/plans/plans.go, trash.go and fork.go: the life of a plan's row, from `Create` or
-- `Fork` to `Purge`. A name is cleaned before, so it is one here, and the id is drawn before.
pub mod Removed
pub mod Restored
use goptivum.Prelude.{
  Bool, List, Result, [], any, err, false, has, if◌then◌else◌, is_none, leb, length, map, none, not,
  ok, refuse_if, select, some, ℕ, ◌&&◌, ◌++◌, ◌+◌, ◌==◌, ◌>>=◌, ◌>>◌, ◌||◌, ◌∷◌,
}
use goptivum.Plans.Changes.{entomb, parts, project, results, stamp, versions}
use goptivum.Plans.Store.{Db, Export, Plan, SolveJob, Stored, Version, record_keys}
use goptivum.Plans.Garbage.{left, revive}
use goptivum.Plans.Backups.{export_keys, newest_of, version_keys}
use goptivum.Plans.Checkpoints.{purge_checkpoints}
use goptivum.Plans.Versions.{Upload, date_or, find_version, get_plan}
use goptivum.Plans.Results.{is_file_of, purge_results, result_keys}

pub data PlanError : Type 0 where
  no_owner no_object plan_not_found version_not_found duplicate_plan : PlanError

unfoldable pub update_plans : (Plan → Bool) → (Plan → Plan) → List Plan → List Plan
update_plans test change [] = []
update_plans test change (p ∷ ps) = (if test p then change p else p) ∷ update_plans test change ps

-- `changePlan`: one update and its stamp, or an error where no row was picked.
unfoldable pub change_plan : List ℕ → Db → ℕ → (Plan → Bool) → (Plan → Plan) → Result PlanError Db
unfolding update_plans
change_plan fresh db id test change =
    if any test db.plans
    then ok (record db {
      plans = update_plans test change db.plans;
      log = stamp fresh db.log (parts id (project ∷ []));
    })
    else err plan_not_found

abbrev pub is_live_plan : ℕ → Plan → Bool
is_live_plan id p = p.id == id && is_none p.deleted_at

unfoldable pub trash_plan : List ℕ → Db → ℕ → ℕ → Result PlanError Db
unfolding change_plan
trash_plan fresh db id now =
    change_plan fresh db id (is_live_plan id) (λ p. record p { deleted_at = some now })

unfoldable pub restore_plan : List ℕ → Db → ℕ → ℕ → Result PlanError Db
unfolding change_plan
restore_plan fresh db id owner =
    change_plan fresh db id (λ p. p.id == id && p.owner == owner)
      (λ p. record p { deleted_at = none })

unfoldable pub transfer : List ℕ → Db → ℕ → ℕ → ℕ → Result PlanError Db
unfolding change_plan
transfer fresh db id owner now =
    if owner == 0
    then err no_owner
    else change_plan fresh db id (is_live_plan id)
        (λ p. record p { owner = owner; updated_at = now })

-- A plan whose removal date has come.
abbrev pub is_due_plan : ℕ → ℕ → Plan → Bool
is_due_plan at trash_time p = elim p.deleted_at [
  | none ↦ false
  | some deleted_at ↦ leb (deleted_at + trash_time) at
]

abbrev pub plan_ids : List Plan → List ℕ
plan_ids ps = map (λ p. p.id) ps

-- A result that a job of one of some plans kept; a job 0 is null.
abbrev pub is_kept_by : List ℕ → List SolveJob → Stored → Bool
is_kept_by ids jobs r = not (r.job_id == 0) && any (λ j. has ids j.plan_id && j.id == r.job_id) jobs

-- The rows of some plans go, and what cascades: their versions, jobs, results and files, the results
-- that those jobs kept, and the files of all those results. Recorded are only the plans' own keys.
unfoldable pub remove_plans : ℕ → List ℕ → Db → Db
unfolding record_keys
remove_plans now ids db =
    let of_version : Version → Bool = λ v. has ids v.plan_id in
    let of_result : Stored → Bool = λ r. has ids r.plan_id in
    let of_export : Export → Bool = λ e. has ids e.plan_id in
    let gone : Stored → Bool = λ r. of_result r || is_kept_by ids db.solve_jobs r in
    let cascaded : Export → Bool = λ e. of_export e || is_file_of gone db.results e in
    record db {
      plans = select (λ p. not (has ids p.id)) db.plans;
      versions = select (λ v. not (of_version v)) db.versions;
      results = select (λ r. not (gone r)) db.results;
      exports = select (λ e. not (cascaded e)) db.exports;
      solve_jobs = select (λ j. not (has ids j.plan_id)) db.solve_jobs;
      garbage = record_keys now (export_keys (select of_export db.exports)) (
          record_keys now (result_keys (select of_result db.results))
            (record_keys now (version_keys (select of_version db.versions)) db.garbage));
    }

-- `Purge`: the database, and how many plans were removed.
unfoldable pub purge : List ℕ → Db → ℕ → ℕ → ℕ → Db × ℕ
unfolding remove_plans
purge fresh db at trash_time now =
    let ids : List ℕ = plan_ids (select (is_due_plan at trash_time) db.plans) in
    let left : Db = remove_plans now ids db in
    (record left { log = entomb fresh left.log ids }, length ids)

-- `PurgeTrash`: plans, then the checkpoints and the results of those that stay.
unfoldable pub purge_trash : List ℕ → Db → ℕ → ℕ → ℕ → ℕ → Db × ℕ × ℕ × ℕ
unfolding purge purge_checkpoints purge_results
purge_trash fresh db at trash_time default now =
    let plans' = purge fresh db at trash_time now in
    let checkpoints' = purge_checkpoints fresh plans'.0 at trash_time default now in
    let results' = purge_results fresh checkpoints'.0 at trash_time now in
    (results'.0, plans'.1, checkpoints'.1, results'.1)

-- The first version of a plan.
unfoldable pub first_version : ℕ → ℕ → ℕ → ℕ → ℕ → ℕ → ℕ → Version
first_version id object_key size_bytes created_by valid_from valid_to now = record {
  plan_id = id;
  version = 1;
  parent = 0;
  object_key = object_key;
  size_bytes = size_bytes;
  created_at = now;
  created_by = created_by;
  valid_from = valid_from;
  valid_to = valid_to;
  summary = none;
  upload_key = [];
  checkpoint = none;
  checkpoint_deleted_at = none;
}

unfoldable pub new_plan : ℕ → ℕ → ℕ → ℕ → ℕ → Plan
new_plan id owner name school_year now = record {
  id = id;
  owner = owner;
  name = name;
  school_year = school_year;
  created_at = now;
  updated_at = now;
  deleted_at = none;
  backups_keep = 0;
  results_keep = 0;
}

-- The rows of a new plan and its first version, and the stamps; a taken id is refused.
unfoldable pub insert_plan : List ℕ → Db → Plan → Version → Result PlanError Db
insert_plan fresh db p v =
    if any (λ q. q.id == p.id) db.plans
    then err duplicate_plan
    else ok (record db {
      plans = db.plans ++ p ∷ [];
      versions = db.versions ++ v ∷ [];
      log = stamp fresh db.log (parts p.id (project ∷ versions ∷ []));
    })

-- `Create`, with the first upload.
unfoldable pub create_plan : List ℕ → Db → ℕ → ℕ → ℕ → ℕ → Upload → ℕ → Result PlanError Db
unfolding first_version new_plan insert_plan
create_plan fresh db id owner name school_year first now = do
  refuse_if (owner == 0) no_owner
  refuse_if (first.object_key == 0) no_object
  insert_plan fresh db (new_plan id owner name school_year now) (
      first_version id first.object_key first.size_bytes first.created_by
        (date_or first.valid_from 0) (date_or first.valid_to 0) now)

-- The version a fork copies: the asked for, or the newest for 0.
abbrev pub forked_number : Db → ℕ → ℕ → ℕ
forked_number db origin version =
    if version == 0 then elim (newest_of origin db.versions) [ none ↦ 0 | some n ↦ n ] else version

-- `Fork`: a plan of its own whose first version is the origin's, with the same object.
unfoldable pub fork : List ℕ → Db → ℕ → ℕ → ℕ → ℕ → ℕ → ℕ → Result PlanError Db
unfolding get_plan find_version newest_of revive first_version new_plan insert_plan
fork fresh db id origin version owner name now =
    if owner == 0 then err no_owner else elim (get_plan db.plans origin) [
      | none ↦ err plan_not_found
      | some p ↦ elim (find_version db.versions origin (forked_number db origin version)) [
        | none ↦ err version_not_found
        | some v ↦
            insert_plan fresh (revive db v.object_key now)
              (new_plan id owner name p.school_year now)
              (first_version id v.object_key v.size_bytes owner v.valid_from v.valid_to now)
      ]
    ]
