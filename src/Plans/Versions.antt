-- ===== src/Plans/Versions.antt =====
-- backend/core/plans/versions.go: a new version of a plan. The reads before the transaction are of
-- a database that others may have changed by the time it runs, so it is an argument of its
-- own. A size is a number and never below 0, so that guard is not written.
pub mod Timeline
pub mod Retry
pub mod Conflict
use goptivum.Prelude.{
  Bool, List, Option, Result, [], any, err, false, first_where, if◌then◌else◌, is_none, length,
  list_eq, ltb, none, not, ok, refuse_if, some, suc, true, ℕ, ◌&&◌, ◌++◌, ◌==◌, ◌>>=◌, ◌>>◌, ◌||◌,
  ◌∷◌,
}
use goptivum.Text.{within}
use goptivum.Plans.Changes.{parts, project, stamp, versions}
use goptivum.Plans.Store.{Db, Plan, Version}
use goptivum.Plans.Backups.{keep_for, newest_of, trim}

-- A new version to store. Its summary is the one that `summaryText` made of what was sent.
pub record Upload : Type 0 where
  pub plan_id : ℕ
  pub parent : ℕ
  pub object_key : ℕ
  pub size_bytes : ℕ
  pub created_by : ℕ
  pub valid_from : Option ℕ
  pub valid_to : Option ℕ
  pub summary : Option ℕ
  pub upload_key : List ℕ

pub data VersionError : Type 0 where
  no_object_key no_parent key_required key_invalid key_reused : VersionError
  not_found no_version refused duplicate_key : VersionError
  conflict : ℕ → ℕ → ℕ → VersionError

-- `[A-Za-z0-9_-]`
abbrev pub is_key_byte : ℕ → Bool
is_key_byte b =
    within 0x41 0x5a b || within 0x61 0x7a b || within 0x30 0x39 b || b == 0x5f || b == 0x2d

unfoldable pub check_upload_key : List ℕ → Result VersionError (Unit {0})
check_upload_key key =
    if list_eq key []
    then err key_required
    else if within 16 64 (length key) && not (any (λ b. not (is_key_byte b)) key)
    then ok tt
    else err key_invalid

-- A plan out of Trash.
unfoldable pub get_plan : List Plan → ℕ → Option Plan
get_plan ps id = first_where (λ p. p.id == id && is_none p.deleted_at) ps

abbrev pub is_version : ℕ → ℕ → Version → Bool
is_version plan_id version v = v.plan_id == plan_id && v.version == version

unfoldable pub find_version : List Version → ℕ → ℕ → Option Version
find_version vs plan_id version = first_where (is_version plan_id version) vs

-- A row of this plan that an upload of this key stored; a row without a key is never found.
abbrev pub is_upload : ℕ → List ℕ → Version → Bool
is_upload plan_id key v =
    v.plan_id == plan_id && (not (list_eq v.upload_key []) && list_eq v.upload_key key)

unfoldable pub find_upload : List Version → ℕ → List ℕ → Option Version
find_upload vs plan_id key = first_where (is_upload plan_id key) vs

-- `replay`: the version that an earlier send of the upload stored.
unfoldable pub replay : Db → Upload → Result VersionError (Option Version)
unfolding find_upload
replay db upload =
    if list_eq upload.upload_key []
    then ok none
    else elim (find_upload db.versions upload.plan_id upload.upload_key) [
      | none ↦ ok none
      | some stored ↦
          if not (stored.object_key == upload.object_key) || not (stored.parent == upload.parent)
          then err key_reused
          else ok (some stored)
    ]

-- The date an upload sent, or the parent's; a time of 0 is no date.
abbrev pub date_or : Option ℕ → ℕ → ℕ
date_or none fallback = fallback
date_or (some date) fallback = date

unfoldable pub validity : Db → Upload → ℕ × ℕ
unfolding find_version
validity db upload = elim (find_version db.versions upload.plan_id upload.parent) [
  | none ↦ (date_or upload.valid_from 0, date_or upload.valid_to 0)
  | some parent ↦
      (date_or upload.valid_from parent.valid_from, date_or upload.valid_to parent.valid_to)
]

-- The parent is there, and no version above it.
unfoldable pub is_newest : ℕ → ℕ → List Version → Bool
is_newest plan_id parent vs =
    any (is_version plan_id parent) vs
    && not (any (λ v. v.plan_id == plan_id && ltb parent v.version) vs)

unfoldable pub touch_plan : ℕ → ℕ → List Plan → List Plan
touch_plan id now [] = []
touch_plan id now (p ∷ ps) =
    (if p.id == id then record p { updated_at = now } else p) ∷ touch_plan id now ps

-- What `insertVersion` writes after the insert: the cap, the plan's time, the stamps.
unfoldable pub committed : List ℕ → Db → Version → ℕ → Db
unfolding trim touch_plan
committed fresh db v keep =
    let inserted : Db = record db { versions = db.versions ++ v ∷ [] } in
    let trimmed : Db = (trim inserted v.plan_id v.version keep v.created_at).0 in
    record trimmed {
      plans = touch_plan v.plan_id v.created_at trimmed.plans;
      log = stamp fresh trimmed.log (parts v.plan_id (project ∷ versions ∷ []));
    }

-- `insertVersion`, one transaction, with the conditional insert and the unique upload keys.
unfoldable pub insert_version : List ℕ → Db → Version → ℕ → Result VersionError Db
unfolding is_newest find_upload committed
insert_version fresh db v keep = do
  refuse_if (not (is_newest v.plan_id v.parent db.versions)) refused
  refuse_if (not (is_none (find_upload db.versions v.plan_id v.upload_key))) duplicate_key
  ok (committed fresh db v keep)

-- `Current`: 0 for a live plan without versions.
unfoldable pub current : Db → ℕ → Option ℕ
unfolding get_plan newest_of
current db plan_id = elim (get_plan db.plans plan_id) [
  | none ↦ none
  | some p ↦ some (elim (newest_of plan_id db.versions) [ none ↦ 0 | some n ↦ n ])
]

abbrev pub is_refused : VersionError → Bool
is_refused refused = true
is_refused _ = false

-- The answer to a failed insert: the winner of a race of one upload, a conflict, or the failure.
unfoldable pub answer_failed : Db → Upload → VersionError → Result VersionError (Db × Version)
unfolding replay current
answer_failed db upload e = elim (replay db upload) [
  | err reused ↦ err reused
  | ok (some stored) ↦ ok (db, stored)
  | ok none ↦ elim (current db upload.plan_id) [
    | none ↦ err e
    | some now ↦
        if is_refused e || ltb upload.parent now
        then err (conflict upload.plan_id upload.parent now)
        else err e
  ]
]

-- The row that an upload becomes.
unfoldable pub version_of : Upload → ℕ × ℕ → ℕ → Version
version_of upload dates now = record {
  plan_id = upload.plan_id;
  version = suc upload.parent;
  parent = upload.parent;
  object_key = upload.object_key;
  size_bytes = upload.size_bytes;
  created_at = now;
  created_by = upload.created_by;
  valid_from = dates.0;
  valid_to = dates.1;
  summary = upload.summary;
  upload_key = upload.upload_key;
  checkpoint = none;
  checkpoint_deleted_at = none;
}

-- The guards of `AddVersion` on what was sent.
unfoldable pub check_upload : Upload → Result VersionError (Unit {0})
unfolding check_upload_key
check_upload upload = do
  refuse_if (upload.object_key == 0) no_object_key
  refuse_if (upload.parent == 0) no_parent
  if list_eq upload.upload_key [] then ok tt else check_upload_key upload.upload_key

-- The insert, or the answer to its failure.
unfoldable pub insert_or_answer :
    List ℕ → Db → Upload → Version → ℕ → Result VersionError (Db × Version)
unfolding insert_version answer_failed
insert_or_answer fresh db upload v keep = elim (insert_version fresh db v keep) [
  | ok db' ↦ ok (db', v)
  | err e ↦ answer_failed db upload e
]

-- `AddVersion`: `seen` is the database of the reads before the transaction.
unfoldable pub add_version : List ℕ → ℕ → Db → Db → Upload → ℕ → Result VersionError (Db × Version)
unfolding check_upload get_plan replay validity insert_or_answer version_of
add_version fresh default seen db upload now = do
  check_upload upload
  elim (get_plan seen.plans upload.plan_id) [
    | none ↦ err not_found
    | some plan ↦ elim (replay seen upload) [
      | err reused ↦ err reused
      | ok (some stored) ↦ ok (db, stored)
      | ok none ↦
          insert_or_answer fresh db upload (version_of upload (validity seen upload) now)
            (keep_for plan.backups_keep default)
    ]
  ]
