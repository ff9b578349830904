-- ===== src/Tests/Plans.antt =====
-- Two plans that share an object, and what removes and adds rows.
use goptivum.Prelude.{
  Bool, Option, [], arith, err, false, has, inl, leb, map, none, not, ok, refl, replicate, some,
  true, ℕ, ◌&&◌, ◌+◌, ◌-◌, ◌||◌, ◌∷◌, ◌≡◌, ◌⊎◌,
}
use goptivum.Plans.Changes.{project, stamp}
use goptivum.Plans.Versions.Conflict.{add_version_conflict}
use goptivum.Plans.Store.{Db, Export, Plan, Stored, Version, is_accounted, is_named}
use goptivum.Plans.Garbage.{sweep, sweep_age}
use goptivum.Plans.Garbage.Sweeping.{due, sweep-deletes}
use goptivum.Plans.Backups.{is_read, trim}
use goptivum.Plans.Backups.Newest.{Keyed, has_plain}
use goptivum.Plans.Backups.Kept.{is_over, trim-has_plain}
use goptivum.Plans.Versions.{
  Upload, add_version, check_upload, committed, conflict, current, find_version, get_plan,
  is_newest, replay,
}
use goptivum.Plans.Versions.Retry.{add_version-again, add_version-is_newest}
use goptivum.Plans.Results.{is_counted, is_source, trim_results}
use goptivum.Plans.Results.Kept.{KeptByOwn}
use goptivum.Plans.Results.Latest.{Identified, has_result}
use goptivum.Plans.Results.Capped.{newer, trim_results-has_result}
use goptivum.Plans.Exports.{keep_export}
use goptivum.Plans.Exports.Matched.{IsMatched, keep_export-IsMatched}
use goptivum.Plans.Trash.Restored.{UniquePlans, restore_plan-trash_plan}
use goptivum.Plans.Trash.{purge_trash, restore_plan, trash_plan}
use goptivum.Plans.Trash.Removed.{purge_trash-is_accounted}

abbrev version_at : ℕ → ℕ → ℕ → Version
version_at plan_id number object = record {
  plan_id = plan_id;
  version = number;
  parent = number - 1;
  object_key = object;
  size_bytes = 10;
  created_at = 1;
  created_by = 5;
  valid_from = 0;
  valid_to = 0;
  summary = none;
  upload_key = [];
  checkpoint = none;
  checkpoint_deleted_at = none;
}

abbrev result_at : ℕ → ℕ → Stored
result_at id at = record {
  id = id;
  plan_id = 1;
  job_id = 0;
  upload_key = [];
  source_version = 1;
  object_key = 40 + id;
  size_bytes = 10;
  created_at = at;
  name = 0;
  pinned = false;
  deleted_at = none;
}

abbrev plan_at : ℕ → Option ℕ → Plan
plan_at id deleted_at = record {
  id = id;
  owner = 5;
  name = 9;
  school_year = 0;
  created_at = 1;
  updated_at = 1;
  deleted_at = deleted_at;
  backups_keep = 1;
  results_keep = 1;
}

-- A live plan of three versions, and one in Trash that shares the object of the first of them.
abbrev shelf : Db
shelf = record {
  plans = plan_at 1 none ∷ plan_at 2 (some 3) ∷ [];
  versions = version_at 1 1 31 ∷ version_at 1 2 32 ∷ version_at 1 3 33 ∷ version_at 2 1 31 ∷ [];
  results = result_at 1 4 ∷ result_at 2 6 ∷ [];
  exports = [];
  garbage = record { object_key = 31; since = 0 } ∷ record { object_key = 99; since = 0 } ∷ [];
  solve_jobs = [];
  log = record { clock_row = none; stamps = [] };
}

abbrev never : ℕ → Bool
never key = false

-- A sweep deletes the object that nothing names, and not the shared one.
swept_keys : (sweep never shelf sweep_age).1 ≡ 99 ∷ []
unfolding sweep
swept_keys = refl

sweep-deletes_example :
    let end = sweep never shelf sweep_age in
    (has end.1 99 ≡ (due 99 sweep_age shelf.garbage && not (is_named shelf 99)) && not (never 99))
    × (end.0 ≡ record shelf { garbage = end.0.garbage })
    × (is_named end.0 99 ≡ is_named shelf 99)
    × ((is_accounted shelf 99 ≡ false) ⊎ (is_accounted end.0 99 ≡ true) ⊎ (has end.1 99 ≡ true))
sweep-deletes_example = sweep-deletes never shelf sweep_age 99

-- A cap of one leaves the second version and the third, and every other plan alone.
trimmed_numbers : map (λ v. v.version) (trim shelf 1 3 1 7).0.versions ≡ 2 ∷ 3 ∷ 1 ∷ []
unfolding trim
trimmed_numbers = refl

shelf-Keyed : Keyed shelf.versions
shelf-Keyed = (refl, (refl, (refl, (refl, tt))))

trim-has_plain_example : has_plain 1 1 (trim shelf 1 3 1 7).0.versions ≡ (
    has_plain 1 1 shelf.versions
    && (not (is_over 1 3 1 1 shelf.versions) || is_read shelf.solve_jobs 1 1))
trim-has_plain_example = trim-has_plain shelf 1 3 1 7 1 shelf-Keyed

abbrev sent : Upload
sent = record {
  plan_id = 1;
  parent = 3;
  object_key = 34;
  size_bytes = 10;
  created_by = 5;
  valid_from = none;
  valid_to = none;
  summary = none;
  upload_key = replicate 16 0x61;
}

abbrev row_sent : Version
row_sent = record (version_at 1 4 34) { created_at = 8; upload_key = replicate 16 0x61 }

abbrev after_upload : Db
after_upload = committed [] shelf row_sent 1

upload_succeeds : add_version [] 3 shelf shelf sent 8 ≡ ok (after_upload, row_sent)
unfolding add_version committed
upload_succeeds = refl

add_version-is_newest_example :
    (after_upload ≡ shelf)
    ⊎ ((is_newest 1 3 shelf.versions ≡ true)
        × (is_newest 1 4 after_upload.versions ≡ true)
        × (find_version after_upload.versions 1 4 ≡ some row_sent))
add_version-is_newest_example =
    add_version-is_newest [] 3 shelf shelf sent 8 after_upload row_sent upload_succeeds

add_version-again_example :
    add_version [] 5 after_upload after_upload sent 90 ≡ ok (after_upload, row_sent)
add_version-again_example =
    add_version-again [] 3 shelf sent 8 after_upload row_sent [] 5 90 upload_succeeds refl

abbrev late : Upload
late = record sent { parent = 2; upload_key = [] }

late_checked : check_upload late ≡ ok tt
unfolding check_upload
late_checked = refl

shelf_plan : get_plan shelf.plans 1 ≡ some (plan_at 1 none)
unfolding get_plan
shelf_plan = refl

late_unsent : replay shelf late ≡ ok none
unfolding replay
late_unsent = refl

shelf-current : current shelf 1 ≡ some 3
unfolding current
shelf-current = refl

add_version_conflict_example : add_version [] 3 shelf shelf late 8 ≡ err (conflict 1 2 3)
add_version_conflict_example =
    add_version_conflict [] 3 shelf shelf late 8 (plan_at 1 none) 3 late_checked shelf_plan
      late_unsent late_unsent shelf-current (omega arith)

shelf-Identified : Identified shelf.results
unfolding has_result
shelf-Identified = (refl, (refl, tt))

trim_results-has_result_example : has_result 1 (trim_results shelf 1 1 7).results ≡ (
    is_source shelf.solve_jobs 1
    || not (is_counted 1 (result_at 1 4) && leb 1 (newer 1 (result_at 1 4) shelf.results)))
trim_results-has_result_example =
    trim_results-has_result shelf 1 1 7 (result_at 1 4) shelf-Identified (inl refl)

abbrev built : Export
built = record {
  object_key = 77;
  plan_id = 1;
  version = 0;
  result_id = 2;
  format = 1;
  variant = 0;
  size_bytes = 4;
  created_at = 0;
}

abbrev with_file : Db
with_file = record shelf { exports = record built { created_at = 9 } ∷ [] }

built_kept : keep_export shelf built 9 ≡ ok (with_file, record built { created_at = 9 })
unfolding keep_export
built_kept = refl

shelf-IsMatched : IsMatched shelf
unfolding IsMatched
shelf-IsMatched = refl

keep_export-IsMatched_example : IsMatched with_file
keep_export-IsMatched_example =
    keep_export-IsMatched shelf built 9 with_file (record built { created_at = 9 }) shelf-Identified
      shelf-IsMatched built_kept

-- A result in a plan that is due, kept by a job of that plan.
abbrev with_job : Db
with_job = record with_file {
  results = record (result_at 3 5) { plan_id = 2; job_id = 6 } ∷ result_at 1 4 ∷ result_at 2 6 ∷ [];
  solve_jobs =
      record { id = 6; plan_id = 2; plan_version = 1; source_result_id = 0; is_open = false } ∷ [];
}

with_job-IsMatched : IsMatched with_job
unfolding IsMatched
with_job-IsMatched = refl

with_job-KeptByOwn : KeptByOwn with_job
unfolding KeptByOwn
with_job-KeptByOwn = refl

-- The plan's result and its job go.
with_job_purged :
    let left = (purge_trash [] with_job 30 20 1 50).0 in
    (map (λ r. r.id) left.results ≡ 1 ∷ 2 ∷ []) × (left.solve_jobs ≡ [])
unfolding purge_trash
with_job_purged = (refl, refl)

purge_trash-is_accounted_example :
    is_accounted (purge_trash [] with_job 30 20 1 50).0 43 ≡ is_accounted with_job 43
purge_trash-is_accounted_example =
    purge_trash-is_accounted [] with_job 30 20 1 50 43 with_job-IsMatched with_job-KeptByOwn

shelf-UniquePlans : UniquePlans shelf.plans
shelf-UniquePlans = (refl, (refl, tt))

abbrev in_trash : Db
in_trash = record shelf {
  plans = plan_at 1 (some 20) ∷ plan_at 2 (some 3) ∷ [];
  log = stamp [] shelf.log ((1, project) ∷ []);
}

abbrev back_again : Db
back_again = record shelf { log = stamp [] in_trash.log ((1, project) ∷ []) }

goes_to_trash : trash_plan [] shelf 1 20 ≡ ok in_trash
unfolding trash_plan
goes_to_trash = refl

comes_back : restore_plan [] in_trash 1 5 ≡ ok back_again
unfolding restore_plan
comes_back = refl

restore_plan-trash_plan_example : record back_again { log = shelf.log } ≡ shelf
restore_plan-trash_plan_example =
    restore_plan-trash_plan [] [] shelf 1 20 (plan_at 1 none) in_trash back_again shelf-UniquePlans
      shelf_plan goes_to_trash comes_back
