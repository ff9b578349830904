-- ===== src/Plans/Checkpoints/Purging.antt =====
-- The purge of checkpoints and the trim of every plan lose no object.
use goptivum.Prelude.{
  Bool, Bool-cases, List, Option, Option-cases, [], any, arith, inl, inr, length, none, refl,
  select, ℕ, ◌&&◌, ◌==◌, ◌∙◌, ◌∷◌, ◌≡◌,
}
use goptivum.Plans.Store.{Db, Version, is_accounted, is_named}
use goptivum.Plans.Backups.{
  keep_for, newest_of, ordered_ids, own_keep, trim, trim_backups, trim_each, trim_plan,
}
use goptivum.Plans.Backups.Kept.{trim-is_accounted}
use goptivum.Plans.Results.Removal.{is_accounted_log}
use goptivum.Plans.Checkpoints.{
  expired_plans, is_expired, marked, purge_checkpoints, purge_checkpoints_of, purge_each,
  update_versions,
}

any-update_versions :
    (key : ℕ) (test : Version → Bool) (name deleted_at : Option ℕ) (vs : List Version)
    → any (λ v. v.object_key == key) (update_versions test (marked name deleted_at) vs)
      ≡ any (λ v. v.object_key == key) vs
unfolding update_versions
any-update_versions key test name deleted_at [] = refl
any-update_versions key test name deleted_at (v ∷ vs) =
    ground (arith, any-update_versions key test name deleted_at vs)

is_accounted-marked :
    (db : Db) (test : Version → Bool) (name deleted_at : Option ℕ) (key : ℕ)
    → is_accounted
        (record db { versions = update_versions test (marked name deleted_at) db.versions })
        key
      ≡ is_accounted db key
unfolding is_accounted is_named
is_accounted-marked db test name deleted_at key =
    ground (arith, any-update_versions key test name deleted_at db.versions)

-- When checkpoints of a plan end and its cap is applied at once, each object that a row named or
-- the garbage held is still named or held.
pub purge_checkpoints_of-is_accounted :
    (fresh : List ℕ) (db : Db) (plan_id at trash_time own default now key : ℕ)
    → is_accounted (purge_checkpoints_of fresh db plan_id at trash_time own default now).0 key
      ≡ is_accounted db key
unfolding purge_checkpoints_of
purge_checkpoints_of-is_accounted fresh db plan_id at trash_time own default now key =
    let test : Version → Bool = λ v. v.plan_id == plan_id && is_expired at trash_time v in
    let unnamed : Db = record db {
      versions = update_versions test (marked none none) db.versions;
    } in
    elim (Bool-cases (length (select test db.versions) == 0)) [
      | inl idle ↦ rw idle refl
      | inr some' ↦ elim (Option-cases (newest_of plan_id unnamed.versions)) [
        | inl empty ↦ rw (some', empty) refl
        | inr (newest, e) ↦
            rw (some', e)
              (is_accounted_log _ _ key
                ∙ trim-is_accounted unnamed plan_id newest (keep_for own default) now key
                ∙ is_accounted-marked db test none none key)
      ]
    ]

purge_each-is_accounted :
    (fresh : List ℕ) (db : Db) (at trash_time default now : ℕ) (ids : List ℕ) (key : ℕ)
    → is_accounted (purge_each fresh db at trash_time default now ids).0 key ≡ is_accounted db key
unfolding purge_each
purge_each-is_accounted fresh db at trash_time default now [] key = refl
purge_each-is_accounted fresh db at trash_time default now (id ∷ ids) key =
    let own = own_keep db.plans id in
    purge_each-is_accounted fresh (purge_checkpoints_of fresh db id at trash_time own default now).0
      at trash_time default now ids key
    ∙ purge_checkpoints_of-is_accounted fresh db id at trash_time own default now key

-- The objects that are named or held stay so when the checkpoints of every plan are purged.
pub purge_checkpoints-is_accounted :
    (fresh : List ℕ) (db : Db) (at trash_time default now key : ℕ)
    → is_accounted (purge_checkpoints fresh db at trash_time default now).0 key
      ≡ is_accounted db key
unfolding purge_checkpoints
purge_checkpoints-is_accounted fresh db at trash_time default now key =
    purge_each-is_accounted fresh db at trash_time default now
      (expired_plans at trash_time db.versions) key

trim_plan-is_accounted :
    (fresh : List ℕ) (db : Db) (plan_id own default now key : ℕ)
    → is_accounted (trim_plan fresh db plan_id own default now).0 key ≡ is_accounted db key
unfolding trim_plan
trim_plan-is_accounted fresh db plan_id own default now key =
    elim (Option-cases (newest_of plan_id db.versions)) [
      | inl empty ↦ rw (trim_plan, empty) refl
      | inr (newest, e) ↦
          let trimmed = trim db plan_id newest (keep_for own default) now in
          elim (Bool-cases (trimmed.1 == 0)) [
            | inl idle ↦ rw (trim_plan, e, idle) refl
            | inr some' ↦
                rw (trim_plan, e, some')
                  (is_accounted_log _ _ key
                    ∙ trim-is_accounted db plan_id newest (keep_for own default) now key)
          ]
    ]

trim_each-is_accounted :
    (fresh : List ℕ) (db : Db) (default now : ℕ) (ids : List ℕ) (key : ℕ)
    → is_accounted (trim_each fresh db default now ids).0 key ≡ is_accounted db key
unfolding trim_each
trim_each-is_accounted fresh db default now [] key = refl
trim_each-is_accounted fresh db default now (id ∷ ids) key =
    let own = own_keep db.plans id in
    trim_each-is_accounted fresh (trim_plan fresh db id own default now).0 default now ids key
    ∙ trim_plan-is_accounted fresh db id own default now key

-- So do they when the cap in force is applied to every plan.
pub trim_backups-is_accounted :
    (fresh : List ℕ) (db : Db) (default now key : ℕ)
    → is_accounted (trim_backups fresh db default now).0 key ≡ is_accounted db key
unfolding trim_backups
trim_backups-is_accounted fresh db default now key =
    trim_each-is_accounted fresh db default now (ordered_ids db.plans) key
