-- ===== src/Plans/Versions/Conflict.antt =====
-- An upload that comes too late.
use goptivum.Prelude.{
  List, Option-cases, [], any, arith, err, inl, inr, ltb, none, ok, refl, some, true, ℕ, ◌&&◌, ◌<◌,
  ◌==◌, ◌∷◌, ◌≡◌,
}
use goptivum.Plans.Store.{Db, Plan, Version}
use goptivum.Plans.Backups.{keep_for, newest_of}
use goptivum.Plans.Versions.{
  Upload, add_version, answer_failed, check_upload, conflict, current, get_plan, insert_or_answer,
  insert_version, is_newest, refused, replay, validity, version_of,
}

newest_of-above :
    (plan_id parent c : ℕ) (vs : List Version)
    → newest_of plan_id vs ≡ some c
    → parent < c
    → any (λ v. v.plan_id == plan_id && ltb parent v.version) vs ≡ true
unfolding newest_of
newest_of-above plan_id parent c [] h less = absurd (ground (arith, h))
newest_of-above plan_id parent c (v ∷ vs) h less = elim (Option-cases (newest_of plan_id vs)) [
  | inl none' ↦ ground (arith, h, none')
  | inr (m, some') ↦ ground (arith, h, some', newest_of-above plan_id parent m vs some')
]

-- A failed insert of an upload that nobody stored, below the current version.
answer_failed_conflict :
    (db : Db) (upload : Upload) (c : ℕ)
    → replay db upload ≡ ok none
    → current db upload.plan_id ≡ some c
    → answer_failed db upload refused ≡ err (conflict upload.plan_id upload.parent c)
unfolding answer_failed
answer_failed_conflict db upload c unsent newest = rw (answer_failed, unsent, newest) refl

insert_version_stale :
    (fresh : List ℕ) (db : Db) (v : Version) (keep c : ℕ)
    → current db v.plan_id ≡ some c
    → v.parent < c
    → insert_version fresh db v keep ≡ err refused
unfolding insert_version current is_newest
insert_version_stale fresh db v keep c newest less =
    elim (Option-cases (newest_of v.plan_id db.versions)) [
      | inl none' ↦ absurd (ground (arith, newest, none'))
      | inr (m, some') ↦
          ground (arith, newest, some', newest_of-above v.plan_id v.parent m db.versions some')
    ]

-- A well-formed upload to a live plan whose parent is not the newest version any more, and whose
-- key no row has, is refused with the version that is current.
pub add_version_conflict :
    (fresh : List ℕ) (default : ℕ) (seen db : Db) (upload : Upload) (now : ℕ) (plan : Plan) (c : ℕ)
    → check_upload upload ≡ ok tt
    → get_plan seen.plans upload.plan_id ≡ some plan
    → replay seen upload ≡ ok none
    → replay db upload ≡ ok none
    → current db upload.plan_id ≡ some c
    → upload.parent < c
    → add_version fresh default seen db upload now ≡ err (conflict upload.plan_id upload.parent c)
unfolding add_version insert_or_answer version_of
add_version_conflict fresh default seen db upload now plan c good live unseen unsent newest less =
    rw
      (
        good,
        live,
        unseen,
        insert_or_answer,
        insert_version_stale fresh db (version_of upload (validity seen upload) now)
            (keep_for plan.backups_keep default) c newest less,
      )
      (answer_failed_conflict db upload c unsent newest)
