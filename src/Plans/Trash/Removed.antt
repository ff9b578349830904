-- ===== src/Plans/Trash/Removed.antt =====
-- Plans that are removed for good leave no object behind that the sweep does not know of.
use goptivum.Prelude.{
  ==→eq, Bool, Bool-cases, List, [], any, any_split, ap, arith, false, has, inl, inr, not, refl,
  select, ℕ, ◌&&◌, ◌==◌, ◌||◌, ◌∙◌, ◌∷◌, ◌≡◌, ◌⊎◌,
}
use goptivum.Plans.Store.{
  Db, Export, SolveJob, Stored, Version, in_garbage-record_keys, is_accounted, is_named,
  record_keys,
}
use goptivum.Plans.Backups.{export_keys, version_keys}
use goptivum.Plans.Backups.Kept.{has-export_keys, has-version_keys}
use goptivum.Plans.Results.{is_file_of, result_keys}
use goptivum.Plans.Results.Kept.{KeptByOwn, is_misplaced}
use goptivum.Plans.Results.Removal.{has-result_keys, is_accounted_log, purge_results-is_accounted}
use goptivum.Plans.Exports.Matched.{IsMatched, is_stray}
use goptivum.Plans.Checkpoints.{purge_checkpoints}
use goptivum.Plans.Checkpoints.Purging.{purge_checkpoints-is_accounted}
use goptivum.Plans.Trash.{is_due_plan, is_kept_by, plan_ids, purge, purge_trash, remove_plans}

has_same : (ids : List ℕ) (k id : ℕ) → ((k == id) ≡ false) ⊎ (has ids k ≡ has ids id)
has_same ids k id = elim (Bool-cases (k == id)) [
  | inr other ↦ inl other
  | inl same ↦ inr (ap (has ids) (==→eq k id same))
]

-- A result that goes with a job goes with its plan.
kept_matched :
    (ids : List ℕ) (jobs : List SolveJob) (r : Stored)
    → is_misplaced jobs r ≡ false
    → (is_kept_by ids jobs r && not (has ids r.plan_id)) ≡ false
kept_matched ids [] r h = ground arith
kept_matched ids (j ∷ js) r h =
    ground (arith, kept_matched ids js r, has_same ids j.plan_id r.plan_id)

kept_any :
    (ids : List ℕ) (jobs : List SolveJob) (p : Stored → Bool) (rs : List Stored)
    → any (is_misplaced jobs) rs ≡ false
    → any p (select (λ r. has ids r.plan_id || is_kept_by ids jobs r) rs)
      ≡ any p (select (λ r. has ids r.plan_id) rs)
kept_any ids jobs p [] h = refl
kept_any ids jobs p (r ∷ rs) h = ground (arith, kept_matched ids jobs r, kept_any ids jobs p rs)

-- A file that goes with a result goes with its plan.
cascade_matched :
    (ids : List ℕ) (jobs : List SolveJob) (rs : List Stored) (e : Export)
    → any (is_misplaced jobs) rs ≡ false
    → is_stray rs e ≡ false
    → (is_file_of (λ r. has ids r.plan_id || is_kept_by ids jobs r) rs e && not (has ids e.plan_id))
      ≡ false
cascade_matched ids jobs [] e own h = ground arith
cascade_matched ids jobs (r ∷ rs) e own h = ground (
  arith,
  cascade_matched ids jobs rs e,
  kept_matched ids jobs r,
  has_same ids r.plan_id e.plan_id,
)

cascade_any :
    (ids : List ℕ) (jobs : List SolveJob) (rs : List Stored) (p : Export → Bool) (es : List Export)
    → any (is_misplaced jobs) rs ≡ false
    → any (is_stray rs) es ≡ false
    → any p (
        select
          (λ e.
            has ids e.plan_id || is_file_of (λ r. has ids r.plan_id || is_kept_by ids jobs r) rs e)
          es)
      ≡ any p (select (λ e. has ids e.plan_id) es)
cascade_any ids jobs rs p [] own h = refl
cascade_any ids jobs rs p (e ∷ es) own h =
    ground (arith, cascade_matched ids jobs rs e own, cascade_any ids jobs rs p es own)

remove_plans-is_accounted :
    (now : ℕ) (ids : List ℕ) (db : Db) (key : ℕ)
    → IsMatched db
    → KeptByOwn db
    → is_accounted (remove_plans now ids db) key ≡ is_accounted db key
unfolding remove_plans is_accounted is_named IsMatched KeptByOwn
remove_plans-is_accounted now ids db key matched own =
    let of_version : Version → Bool = λ v. has ids v.plan_id in
    let of_result : Stored → Bool = λ r. has ids r.plan_id in
    let of_export : Export → Bool = λ e. has ids e.plan_id in
    let gone : Stored → Bool = λ r. of_result r || is_kept_by ids db.solve_jobs r in
    let cascaded : Export → Bool = λ e. of_export e || is_file_of gone db.results e in
    let first = record_keys now (version_keys (select of_version db.versions)) db.garbage in
    let second = record_keys now (result_keys (select of_result db.results)) first in
    ground (
      arith,
      any_split (λ v. v.object_key == key) of_version db.versions,
      any_split (λ r. r.object_key == key) gone db.results,
      any_split (λ e. e.object_key == key) cascaded db.exports,
      kept_any ids db.solve_jobs (λ r. r.object_key == key) db.results own,
      cascade_any ids db.solve_jobs db.results (λ e. e.object_key == key) db.exports own matched,
      has-version_keys (select of_version db.versions) key,
      has-result_keys (select of_result db.results) key,
      has-export_keys (select of_export db.exports) key,
      in_garbage-record_keys now (version_keys (select of_version db.versions)) db.garbage key,
      in_garbage-record_keys now (result_keys (select of_result db.results)) first key,
      in_garbage-record_keys now (export_keys (select of_export db.exports)) second key,
    )

-- When plans are removed for good, exactly those objects are named by a row or held by the
-- garbage that were so before, if every kept file of a result is one of that result's plan and
-- every result that a job kept is one of that job's plan.
pub purge-is_accounted :
    (fresh : List ℕ) (db : Db) (at trash_time now key : ℕ)
    → IsMatched db
    → KeptByOwn db
    → is_accounted (purge fresh db at trash_time now).0 key ≡ is_accounted db key
unfolding purge
purge-is_accounted fresh db at trash_time now key matched own =
    is_accounted_log _ _ key
    ∙ remove_plans-is_accounted now (plan_ids (select (is_due_plan at trash_time) db.plans)) db key
        matched own

-- The purge of Trash, which removes plans, ends checkpoints and trims, and removes results,
-- leaves exactly those objects named by a row or held by the garbage that were so before, if every
-- kept file of a result is one of that result's plan and every result that a job kept is one of that
-- job's plan.
pub purge_trash-is_accounted :
    (fresh : List ℕ) (db : Db) (at trash_time default now key : ℕ)
    → IsMatched db
    → KeptByOwn db
    → is_accounted (purge_trash fresh db at trash_time default now).0 key ≡ is_accounted db key
unfolding purge_trash
purge_trash-is_accounted fresh db at trash_time default now key matched own =
    let first = (purge fresh db at trash_time now).0 in
    let second = (purge_checkpoints fresh first at trash_time default now).0 in
    purge_results-is_accounted fresh second at trash_time now key
    ∙ purge_checkpoints-is_accounted fresh first at trash_time default now key
    ∙ purge-is_accounted fresh db at trash_time now key matched own
