-- ===== src/Plans/Versions/Timeline.antt =====
-- A plan's versions after an upload: the timeline grows at its end only.
use goptivum.Prelude.{
  Bool, List, Option, Option-cases, Result-cases, [], any, any-append, any-select, ap, arith, false,
  first_where, first_where-append, get_elem?, has, inl, inr, none, not, ok, refl, select,
  select-append_last, some, suc, true, zero, ℕ, ◌++◌, ◌∙◌, ◌∷◌, ◌≡◌, ◌≤◌, ◌⊎◌,
}
use goptivum.Plans.Store.{Db, Plan, Version}
use goptivum.Plans.Backups.{
  cutoff_of, is_trimmed, keep_for, plain_below, remove_versions, trim, trim_below,
}
use goptivum.Plans.Backups.Newest.{has-plain_below, reaches}
use goptivum.Plans.Versions.{
  Upload, VersionError, add_version, answer_failed, check_upload, committed, find_upload, get_plan,
  insert_or_answer, insert_version, is_newest, replay, validity, version_of,
}

get_elem?-has : (ms : List ℕ) (k c : ℕ) → get_elem? ms k ≡ some c → has ms c ≡ true
get_elem?-has [] k c h = absurd (ground arith)
get_elem?-has (m ∷ ms) zero c h = ground arith
get_elem?-has (m ∷ ms) (suc k) c h = ground (arith, get_elem?-has ms k c h)

-- The cutoff lies below the newest version.
cutoff_of_below :
    (db : Db) (plan_id newest keep : ℕ) → reaches newest (cutoff_of db plan_id newest keep) ≡ false
unfolding cutoff_of
cutoff_of_below db plan_id newest keep = elim (Option-cases (cutoff_of db plan_id newest keep)) [
  | inl e ↦ rw e refl
  | inr (c, e) ↦ rw e (
      ground (
        arith,
        get_elem?-has (plain_below plan_id newest db.versions) keep c e,
        has-plain_below plan_id newest db.versions c,
      ))
]

-- A trim picks versions below the newest out of the list, and changes nothing else of it.
pub IsPicked : ℕ → List Version → List Version → Type 0
IsPicked newest vs vs' =
    (q : Version → Bool) × (vs' ≡ select q vs) × ((v : Version) → newest ≤ v.version → q v ≡ true)

select_all : (vs : List Version) → vs ≡ select (λ v. true) vs
select_all [] = refl
select_all (v ∷ vs) = ap (λ l. v ∷ l) (select_all vs)

trim_below-IsPicked :
    (db : Db) (plan_id newest now : ℕ) (cutoff : Option ℕ)
    → reaches newest cutoff ≡ false
    → IsPicked newest db.versions (trim_below db plan_id now cutoff).0.versions
unfolding IsPicked trim_below remove_versions is_trimmed
trim_below-IsPicked db plan_id newest now none low =
    (λ v. true, select_all db.versions, λ v le. refl)
trim_below-IsPicked db plan_id newest now (some c) low =
    (λ v. not (is_trimmed db plan_id c v), refl, λ v le. ground arith)

trim-IsPicked :
    (db : Db) (plan_id newest keep now : ℕ)
    → IsPicked newest db.versions (trim db plan_id newest keep now).0.versions
unfolding trim
trim-IsPicked db plan_id newest keep now =
    trim_below-IsPicked db plan_id newest now (cutoff_of db plan_id newest keep)
      (cutoff_of_below db plan_id newest keep)

trim_below-plans :
    (db : Db) (plan_id now : ℕ) (cutoff : Option ℕ)
    → (trim_below db plan_id now cutoff).0.plans ≡ db.plans
unfolding trim_below remove_versions
trim_below-plans db plan_id now none = refl
trim_below-plans db plan_id now (some c) = refl

pub trim-plans :
    (db : Db) (plan_id newest keep now : ℕ) → (trim db plan_id newest keep now).0.plans ≡ db.plans
unfolding trim
trim-plans db plan_id newest keep now =
    trim_below-plans db plan_id now (cutoff_of db plan_id newest keep)

-- A version put at the end and not picked out is found, by any test that finds none before it.
pub find_picked :
    (p : Version → Bool) (vs vs' : List Version) (v : Version)
    → IsPicked v.version (vs ++ v ∷ []) vs'
    → any p vs ≡ false
    → p v ≡ true
    → first_where p vs' ≡ some v
unfolding IsPicked
find_picked p vs vs' v (q, same, stays) none' yes' =
    ap (first_where p) (same ∙ select-append_last q vs v (stays v (omega arith)))
    ∙ first_where-append p (select q vs) v (any-select p q vs none') yes'

pub any_picked :
    (p : Version → Bool) (vs vs' : List Version) (v : Version)
    → IsPicked v.version (vs ++ v ∷ []) vs'
    → any p vs ≡ false
    → any p vs' ≡ p v
unfolding IsPicked
any_picked p vs vs' v (q, same, stays) none' =
    ap (any p) (same ∙ select-append_last q vs v (stays v (omega arith)))
    ∙ any-append p (select q vs) (v ∷ [])
    ∙ ground (arith, any-select p q vs none')

-- An insert that succeeds: its parent was the newest, and its key new.
pub insert_version-cases :
    (fresh : List ℕ) (db : Db) (v : Version) (keep : ℕ) (db' : Db)
    → insert_version fresh db v keep ≡ ok db'
    → (is_newest v.plan_id v.parent db.versions ≡ true)
      × (find_upload db.versions v.plan_id v.upload_key ≡ none)
      × (db' ≡ committed fresh db v keep)
unfolding insert_version
insert_version-cases fresh db v keep db' h = ground (arith, h)

pub committed-IsPicked :
    (fresh : List ℕ) (db : Db) (v : Version) (keep : ℕ)
    → IsPicked v.version (db.versions ++ v ∷ []) (committed fresh db v keep).versions
unfolding committed
committed-IsPicked fresh db v keep =
    trim-IsPicked (record db { versions = db.versions ++ v ∷ [] }) v.plan_id v.version keep
      v.created_at

answer_failed-cases :
    (db : Db) (upload : Upload) (e : VersionError) (db' : Db) (v : Version)
    → answer_failed db upload e ≡ ok (db', v)
    → (db' ≡ db) × (replay db upload ≡ ok (some v))
unfolding answer_failed
answer_failed-cases db upload e db' v h = ground (arith, h)

insert_or_answer-cases :
    (fresh : List ℕ) (db : Db) (upload : Upload) (w : Version) (keep : ℕ) (db' : Db) (v : Version)
    → insert_or_answer fresh db upload w keep ≡ ok (db', v)
    → ((db' ≡ db) × (replay db upload ≡ ok (some v)))
      ⊎ ((v ≡ w) × (insert_version fresh db w keep ≡ ok db'))
unfolding insert_or_answer
insert_or_answer-cases fresh db upload w keep db' v h =
    elim (Result-cases (insert_version fresh db w keep)) [
      | inl (written, e) ↦ ground (arith, h, e)
      | inr (failed', e) ↦ inl (answer_failed-cases db upload failed' db' v (ground (arith, h, e)))
    ]

-- An upload that succeeds found its version stored, and changed nothing, or inserted it.
pub add_version-cases :
    (fresh : List ℕ) (default : ℕ) (seen db : Db) (upload : Upload) (now : ℕ) (db' : Db)
    (v : Version)
    → add_version fresh default seen db upload now ≡ ok (db', v)
    → (check_upload upload ≡ ok tt)
      × (plan : Plan) × (get_plan seen.plans upload.plan_id ≡ some plan)
      × (((db' ≡ db) × ((replay seen upload ≡ ok (some v)) ⊎ (replay db upload ≡ ok (some v))))
          ⊎ ((v ≡ version_of upload (validity seen upload) now)
              × (insert_version fresh db
                    (version_of upload (validity seen upload) now)
                    (keep_for plan.backups_keep default)
                  ≡ ok db')))
unfolding add_version
add_version-cases fresh default seen db upload now db' v h =
    elim (Result-cases (check_upload upload)) [
      | inr (e, bad) ↦ absurd (ground (arith, h, bad))
      | inl (u, good) ↦ elim (Option-cases (get_plan seen.plans upload.plan_id)) [
        | inl gone ↦ absurd (ground (arith, h, good, gone))
        | inr (plan, there) ↦ (
          good,
          plan,
          there,
          elim (Result-cases (replay seen upload)) [
            | inr (e, reused) ↦ absurd (ground (arith, h, good, there, reused))
            | inl (found, e) ↦ elim (Option-cases found) [
              | inr (stored, known) ↦ inl (ground (arith, h, good, there, e, known))
              | inl unknown ↦
                  let w = version_of upload (validity seen upload) now in
                  let how : insert_or_answer fresh db upload w (keep_for plan.backups_keep default)
                      ≡ ok (db', v) =
                    ground (arith, h, good, there, e, unknown) in
                  elim (insert_or_answer-cases fresh db upload w
                    (keep_for plan.backups_keep default) db' v how) [
                      | inl (same, stored) ↦ inl (same, inr stored)
                      | inr (new', inserted) ↦ inr (new', inserted)
                    ]
            ]
          ],
        )
      ]
    ]
