-- ===== src/Plans/Results/Change.antt =====
-- backend/core/plans/results.go: naming, pinning, trashing and restoring one result.
use goptivum.Prelude.{
  Bool, List, Option, Result, [], any, err, if◌then◌else◌, is_none, none, not, ok, some, ℕ, ◌&&◌,
  ◌==◌, ◌∷◌,
}
use goptivum.Plans.Changes.{parts, results, stamp}
use goptivum.Plans.Store.{Db, Stored}
use goptivum.Plans.Results.{ResultError, no_result}

-- A change of a result; a name of 0 removes the name.
pub record ResultChange : Type 0 where
  pub new_name : Option ℕ
  pub pin : Option Bool

unfoldable pub update_results : (Stored → Bool) → (Stored → Stored) → List Stored → List Stored
update_results test change [] = []
update_results test change (r ∷ rs) =
    (if test r then change r else r) ∷ update_results test change rs

-- `changeResult`: one update and its stamp, or an error where no row was picked.
unfoldable pub change_result :
    List ℕ → Db → ℕ → (Stored → Bool) → (Stored → Stored) → Result ResultError Db
unfolding update_results
change_result fresh db plan_id test change =
    if any test db.results
    then ok (record db {
      results = update_results test change db.results;
      log = stamp fresh db.log (parts plan_id (results ∷ []));
    })
    else err no_result

abbrev pub is_result : ℕ → ℕ → Stored → Bool
is_result plan_id id r = r.id == id && r.plan_id == plan_id

abbrev pub is_shown : ℕ → ℕ → Stored → Bool
is_shown plan_id id r = is_result plan_id id r && is_none r.deleted_at

abbrev pub changed_by : ResultChange → Stored → Stored
changed_by change r = record r {
  name = elim change.new_name [ none ↦ r.name | some name ↦ name ];
  pinned = elim change.pin [ none ↦ r.pinned | some pin ↦ pin ];
}

-- `UpdateResult`, with a clean name; a change of nothing writes nothing.
unfoldable pub update_result : List ℕ → Db → ℕ → ℕ → ResultChange → Result ResultError Db
unfolding change_result
update_result fresh db plan_id id change =
    if not (any (is_shown plan_id id) db.results)
    then err no_result
    else if is_none change.new_name && is_none change.pin
    then ok db
    else change_result fresh db plan_id (is_shown plan_id id) (changed_by change)

unfoldable pub trash_result : List ℕ → Db → ℕ → ℕ → ℕ → Result ResultError Db
unfolding change_result
trash_result fresh db plan_id id now =
    change_result fresh db plan_id (is_shown plan_id id) (λ r. record r { deleted_at = some now })

unfoldable pub restore_result : List ℕ → Db → ℕ → ℕ → Result ResultError Db
unfolding change_result
restore_result fresh db plan_id id =
    change_result fresh db plan_id (is_result plan_id id) (λ r. record r { deleted_at = none })
