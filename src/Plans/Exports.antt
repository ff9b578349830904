-- ===== src/Plans/Exports.antt =====
-- backend/core/plans/exports.go: the files that were built from a version or a result and kept.
pub mod Matched
use goptivum.Prelude.{
  List, Result, [], any, err, first_where, if◌then◌else◌, ltb, none, ok, some, ℕ, ◌&&◌, ◌==◌, ◌>>=◌,
  ◌>>◌, ◌∷◌,
}
use goptivum.Plans.Store.{Db, Export}
use goptivum.Plans.Versions.{is_version}

pub data ExportError : Type 0 where
  no_export no_version_kept no_result_kept ambiguous : ExportError

unfoldable pub get_export : List Export → ℕ → Result ExportError Export
get_export es key = elim (first_where (λ e. e.object_key == key) es) [
  | none ↦ err no_export
  | some e ↦ ok e
]

-- `on conflict (object_key) do update`: the row of a key is written over.
unfoldable pub put_export : Export → List Export → List Export
put_export e [] = e ∷ []
put_export e (f ∷ fs) = if f.object_key == e.object_key then e ∷ fs else f ∷ put_export e fs

-- What a file is built from must be the plan's own, and exactly one thing.
unfoldable pub check_source : Db → Export → Result ExportError (Unit {0})
check_source db e =
    if ltb 0 e.version && e.result_id == 0
    then if any (is_version e.plan_id e.version) db.versions then ok tt else err no_version_kept
    else if ltb 0 e.result_id && e.version == 0
    then if any (λ r. r.plan_id == e.plan_id && r.id == e.result_id) db.results
      then ok tt
      else err no_result_kept
    else err ambiguous

unfoldable pub keep_export : Db → Export → ℕ → Result ExportError (Db × Export)
unfolding check_source put_export
keep_export db e now = do
  check_source db e
  let kept : Export = record e { created_at = now }
  ok (record db { exports = put_export kept db.exports }, kept)
