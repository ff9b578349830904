-- ===== src/Plans/Checkpoints.antt =====
-- backend/core/plans/checkpoints.go: named versions, their Trash and its purge. A name is cleaned
-- before, so it is one here; the days in Trash are a span of time.
pub mod Purging
use goptivum.Prelude.{
  Bool, List, Option, Result, [], any, err, false, has, if◌then◌else◌, is_none, leb, length, none,
  not, ok, select, some, ℕ, ◌&&◌, ◌+◌, ◌==◌, ◌∷◌,
}
use goptivum.Plans.Changes.{parts, stamp, versions}
use goptivum.Plans.Store.{Db, Version}
use goptivum.Plans.Backups.{keep_for, newest_of, own_keep, trim}
use goptivum.Plans.Versions.{VersionError, is_version, no_version}

-- `update plan_versions set … where …`
unfoldable pub update_versions :
    (Version → Bool) → (Version → Version) → List Version → List Version
update_versions test change [] = []
update_versions test change (v ∷ vs) =
    (if test v then change v else v) ∷ update_versions test change vs

-- `changeVersion`: one update and its stamp, or an error where no row was picked.
unfoldable pub change_version :
    List ℕ → Db → ℕ → (Version → Bool) → (Version → Version) → Result VersionError Db
unfolding update_versions
change_version fresh db plan_id test change =
    if any test db.versions
    then ok (record db {
      versions = update_versions test change db.versions;
      log = stamp fresh db.log (parts plan_id (versions ∷ []));
    })
    else err no_version

-- A version with its checkpoint's name and its time in Trash.
abbrev pub marked : Option ℕ → Option ℕ → Version → Version
marked name deleted_at v = record v { checkpoint = name; checkpoint_deleted_at = deleted_at }

unfoldable pub name_checkpoint : List ℕ → Db → ℕ → ℕ → ℕ → Result VersionError Db
unfolding change_version
name_checkpoint fresh db plan_id version name =
    change_version fresh db plan_id (is_version plan_id version) (marked (some name) none)

unfoldable pub delete_checkpoint : List ℕ → Db → ℕ → ℕ → ℕ → Result VersionError Db
unfolding change_version
delete_checkpoint fresh db plan_id version now =
    change_version fresh db plan_id
      (λ v.
        is_version plan_id version v
        && (not (is_none v.checkpoint) && is_none v.checkpoint_deleted_at))
      (λ v. marked v.checkpoint (some now) v)

unfoldable pub restore_checkpoint : List ℕ → Db → ℕ → ℕ → Result VersionError Db
unfolding change_version
restore_checkpoint fresh db plan_id version =
    change_version fresh db plan_id
      (λ v. is_version plan_id version v && not (is_none v.checkpoint))
      (λ v. marked v.checkpoint none v)

-- A checkpoint whose time in Trash is up: `checkpoint_deleted_at <= at - trashDays`.
abbrev pub is_expired : ℕ → ℕ → Version → Bool
is_expired at trash_time v = elim v.checkpoint_deleted_at [
  | none ↦ false
  | some deleted_at ↦ leb (deleted_at + trash_time) at
]

-- One plan's expired checkpoints end, and its cap is applied, in one transaction.
unfoldable pub purge_checkpoints_of : List ℕ → Db → ℕ → ℕ → ℕ → ℕ → ℕ → ℕ → Db × ℕ
unfolding update_versions trim newest_of
purge_checkpoints_of fresh db plan_id at trash_time own default now =
    let test : Version → Bool = λ v. v.plan_id == plan_id && is_expired at trash_time v in
    let ended : ℕ = length (select test db.versions) in
    let unnamed : Db = record db {
      versions = update_versions test (marked none none) db.versions;
    } in
    if ended == 0 then (db, 0) else elim (newest_of plan_id unnamed.versions) [
      | none ↦ (db, 0)
      | some newest ↦
          let trimmed : Db = (trim unnamed plan_id newest (keep_for own default) now).0 in
          (record trimmed { log = stamp fresh trimmed.log (parts plan_id (versions ∷ [])) }, ended)
    ]

-- `select distinct plan_id …`: the plans with an expired checkpoint, each once.
unfoldable pub expired_plans : ℕ → ℕ → List Version → List ℕ
expired_plans at trash_time [] = []
expired_plans at trash_time (v ∷ vs) =
    let rest = expired_plans at trash_time vs in
    if is_expired at trash_time v && not (has rest v.plan_id) then v.plan_id ∷ rest else rest

-- The loop over those plans: each is a transaction of its own.
unfoldable pub purge_each : List ℕ → Db → ℕ → ℕ → ℕ → ℕ → List ℕ → Db × ℕ
unfolding purge_checkpoints_of own_keep
purge_each fresh db at trash_time default now [] = (db, 0)
purge_each fresh db at trash_time default now (id ∷ ids) =
    let one = purge_checkpoints_of fresh db id at trash_time (own_keep db.plans id) default now in
    let rest = purge_each fresh one.0 at trash_time default now ids in (rest.0, one.1 + rest.1)

-- `PurgeCheckpoints`: the database, and how many checkpoints ended.
unfoldable pub purge_checkpoints : List ℕ → Db → ℕ → ℕ → ℕ → ℕ → Db × ℕ
unfolding purge_each expired_plans
purge_checkpoints fresh db at trash_time default now =
    purge_each fresh db at trash_time default now (expired_plans at trash_time db.versions)
