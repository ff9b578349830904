-- ===== src/Plans/Results/Removal.antt =====
-- Results that are removed leave no object behind that the sweep does not know of.
use goptivum.Prelude.{
  Bool, Bool-cases, List, [], any, any_split, ap, arith, drop, has, inl, inr, refl, select, ℕ, ◌==◌,
  ◌||◌, ◌∙◌, ◌∷◌, ◌≡◌,
}
use goptivum.Plans.Changes.{Log}
use goptivum.Plans.Store.{Db, Stored, in_garbage-record_keys, is_accounted, is_named, record_keys}
use goptivum.Plans.Backups.{export_keys}
use goptivum.Plans.Backups.Kept.{has-export_keys}
use goptivum.Plans.Results.{
  counted, is_file_of, is_purged, is_source, purge_results, remove_result, remove_results,
  result_keys, trim_from, trim_results,
}

pub has-result_keys :
    (rs : List Stored) (key : ℕ) → has (result_keys rs) key ≡ any (λ r. r.object_key == key) rs
has-result_keys [] key = refl
has-result_keys (r ∷ rs) key = ap (λ b. r.object_key == key || b) (has-result_keys rs key)

-- Whatever results are removed: an object that a row named or the garbage held is still named or
-- held, and no other is.
pub remove_results-is_accounted :
    (now : ℕ) (test : Stored → Bool) (db : Db) (key : ℕ)
    → is_accounted (remove_results now test db) key ≡ is_accounted db key
unfolding remove_results is_accounted is_named
remove_results-is_accounted now test db key =
    let files = is_file_of test db.results in
    let recorded = record_keys now (result_keys (select test db.results)) db.garbage in
    ground (
      arith,
      any_split (λ r. r.object_key == key) test db.results,
      any_split (λ e. e.object_key == key) files db.exports,
      has-result_keys (select test db.results) key,
      has-export_keys (select files db.exports) key,
      in_garbage-record_keys now (result_keys (select test db.results)) db.garbage key,
      in_garbage-record_keys now (export_keys (select files db.exports)) recorded key,
    )

trim_from-is_accounted :
    (db : Db) (now : ℕ) (rs : List Stored) (key : ℕ)
    → is_accounted (trim_from db now rs) key ≡ is_accounted db key
unfolding trim_from remove_result
trim_from-is_accounted db now [] key = refl
trim_from-is_accounted db now (r ∷ rs) key = elim (Bool-cases (is_source db.solve_jobs r.id)) [
  | inl read ↦ rw read (trim_from-is_accounted db now rs key)
  | inr unread ↦ rw unread (
      trim_from-is_accounted (remove_results now (λ s. s.id == r.id) db) now rs key
      ∙ remove_results-is_accounted now (λ s. s.id == r.id) db key)
]

pub trim_results-is_accounted :
    (db : Db) (plan_id keep now key : ℕ)
    → is_accounted (trim_results db plan_id keep now) key ≡ is_accounted db key
unfolding trim_results
trim_results-is_accounted db plan_id keep now key =
    trim_from-is_accounted db now (drop keep (counted plan_id db.results)) key

pub is_accounted_log :
    (db : Db) (log : Log) (key : ℕ)
    → is_accounted (record db { log = log }) key ≡ is_accounted db key
unfolding is_accounted is_named
is_accounted_log db log key = refl

pub purge_results-is_accounted :
    (fresh : List ℕ) (db : Db) (at trash_time now key : ℕ)
    → is_accounted (purge_results fresh db at trash_time now).0 key ≡ is_accounted db key
unfolding purge_results
purge_results-is_accounted fresh db at trash_time now key =
    is_accounted_log _ _ key
    ∙ remove_results-is_accounted now (is_purged db.solve_jobs at trash_time) db key
