-- ===== src/Plans/Versions/Retry.antt =====
-- What an upload leaves of the timeline, and the upload sent again.
use goptivum.Prelude.{
  List, Option-cases, [], any, ap, arith, false, first_where, first_where-none, inl, inr, is_none,
  list_eq, list_eq_refl, ltb, none, ok, refl, some, suc, sym, true, ℕ, ◌&&◌, ◌++◌, ◌==◌, ◌∙◌, ◌∷◌,
  ◌≡◌, ◌⊎◌,
}
use goptivum.Plans.Store.{Db, Plan, Version}
use goptivum.Plans.Backups.{keep_for}
use goptivum.Plans.Versions.{
  Upload, add_version, check_upload, committed, find_upload, find_version, get_plan, insert_version,
  is_newest, is_upload, is_version, replay, touch_plan, validity, version_of,
}
use goptivum.Plans.Versions.Timeline.{
  add_version-cases, any_picked, committed-IsPicked, find_picked, insert_version-cases, trim-plans,
}

any_above :
    (plan_id n : ℕ) (vs : List Version)
    → any (λ v. v.plan_id == plan_id && ltb n v.version) vs ≡ false
    → (any (is_version plan_id (suc n)) vs ≡ false)
      × (any (λ v. v.plan_id == plan_id && ltb (suc n) v.version) vs ≡ false)
any_above plan_id n [] h = (refl, refl)
any_above plan_id n (v ∷ vs) h = ground (arith, any_above plan_id n vs)

-- What an insert leaves of the plan's timeline.
committed-is_newest :
    (fresh : List ℕ) (db : Db) (v : Version) (keep : ℕ)
    → v.version ≡ suc v.parent
    → is_newest v.plan_id v.parent db.versions ≡ true
    → (is_newest v.plan_id v.version (committed fresh db v keep).versions ≡ true)
      × (find_version (committed fresh db v keep).versions v.plan_id v.version ≡ some v)
unfolding is_newest find_version
committed-is_newest fresh db v keep next newest =
    let vs = db.versions in
    let (fresh_number, none_above) = any_above v.plan_id v.parent vs (ground (arith, newest)) in
    let unused : any (is_version v.plan_id v.version) vs ≡ false =
      ap (λ (k : ℕ). any (is_version v.plan_id k) vs) next ∙ fresh_number in
    let lower : any (λ u. u.plan_id == v.plan_id && ltb v.version u.version) vs ≡ false =
      ap (λ (k : ℕ). any (λ u. u.plan_id == v.plan_id && ltb k u.version) vs) next ∙ none_above in
    let picked = committed-IsPicked fresh db v keep in
    let own : is_version v.plan_id v.version v ≡ true = ground arith in
    (
      ground (
        arith,
        own,
        any_picked (is_version v.plan_id v.version) vs _ v picked unused,
        any_picked (λ u. u.plan_id == v.plan_id && ltb v.version u.version) vs _ v picked lower,
      ),
      find_picked (is_version v.plan_id v.version) vs _ v picked unused own,
    )

inserted-is_newest :
    (fresh : List ℕ) (db : Db) (upload : Upload) (dates : ℕ × ℕ) (now keep : ℕ) (db' : Db)
    → insert_version fresh db (version_of upload dates now) keep ≡ ok db'
    → (is_newest upload.plan_id upload.parent db.versions ≡ true)
      × (is_newest upload.plan_id (suc upload.parent) db'.versions ≡ true)
      × (find_version db'.versions upload.plan_id (suc upload.parent)
          ≡ some (version_of upload dates now))
unfolding version_of
inserted-is_newest fresh db upload dates now keep db' h =
    let v = version_of upload dates now in
    let (newest, unsent, end) = insert_version-cases fresh db v keep db' h in
    let (newer, found) = committed-is_newest fresh db v keep refl newest in
    rw end (newest, newer, found)

-- An upload that succeeds either changes nothing, or its parent was the newest version of the
-- plan and the answer, found under its number, is the newest now.
pub add_version-is_newest :
    (fresh : List ℕ) (default : ℕ) (seen db : Db) (upload : Upload) (now : ℕ) (db' : Db)
    (v : Version)
    → add_version fresh default seen db upload now ≡ ok (db', v)
    → (db' ≡ db)
      ⊎ ((is_newest upload.plan_id upload.parent db.versions ≡ true)
          × (is_newest upload.plan_id (suc upload.parent) db'.versions ≡ true)
          × (find_version db'.versions upload.plan_id (suc upload.parent) ≡ some v))
add_version-is_newest fresh default seen db upload now db' v h =
    let (good, plan, there, how) = add_version-cases fresh default seen db upload now db' v h in
    elim how [
      | inl (same, stored) ↦ inl same
      | inr (new', inserted) ↦
          inr (rw new' (inserted-is_newest fresh db upload _ now _ db' inserted))
    ]

is_none-touch_plan :
    (id i now : ℕ) (ps : List Plan)
    → is_none (get_plan (touch_plan i now ps) id) ≡ is_none (get_plan ps id)
unfolding get_plan touch_plan
is_none-touch_plan id i now [] = refl
is_none-touch_plan id i now (p ∷ ps) = ground (arith, is_none-touch_plan id i now ps)

-- A plan that was live before the transaction is live after it.
committed-get_plan :
    (fresh : List ℕ) (db : Db) (v : Version) (keep id : ℕ) (plan : Plan)
    → get_plan db.plans id ≡ some plan
    → (p : Plan) × (get_plan (committed fresh db v keep).plans id ≡ some p)
unfolding committed
committed-get_plan fresh db v keep id plan h =
    let same =
      trim-plans (record db { versions = db.versions ++ v ∷ [] }) v.plan_id v.version keep
        v.created_at in
    elim (Option-cases (get_plan (committed fresh db v keep).plans id)) [
      | inr found ↦ found
      | inl gone ↦
          absurd
            (ground (arith, h, gone, is_none-touch_plan id v.plan_id v.created_at db.plans, same))
    ]

replay-none :
    (db : Db) (upload : Upload)
    → replay db upload ≡ ok none
    → list_eq upload.upload_key [] ≡ false
    → any (is_upload upload.plan_id upload.upload_key) db.versions ≡ false
unfolding replay
replay-none db upload h sent = first_where-none _ db.versions (ground (arith, h, sent))

-- What an insert with a key leaves is found by its key.
inserted-replay :
    (fresh : List ℕ) (db : Db) (upload : Upload) (dates : ℕ × ℕ) (now keep : ℕ) (db' : Db)
    → insert_version fresh db (version_of upload dates now) keep ≡ ok db'
    → list_eq upload.upload_key [] ≡ false
    → replay db' upload ≡ ok (some (version_of upload dates now))
unfolding version_of replay find_upload
inserted-replay fresh db upload dates now keep db' h sent =
    let v = version_of upload dates now in
    let (newest, unsent, end) = insert_version-cases fresh db v keep db' h in
    let found : first_where (is_upload upload.plan_id upload.upload_key) db'.versions ≡ some v =
      rw end (
        find_picked (is_upload upload.plan_id upload.upload_key) db.versions _ v
          (committed-IsPicked fresh db v keep) (first_where-none _ db.versions unsent)
          (ground (arith, sent, list_eq_refl upload.upload_key))) in
    ground (arith, sent, found)

add_version-known :
    (fresh : List ℕ) (default : ℕ) (db : Db) (upload : Upload) (now : ℕ) (plan : Plan) (v : Version)
    → check_upload upload ≡ ok tt
    → get_plan db.plans upload.plan_id ≡ some plan
    → replay db upload ≡ ok (some v)
    → add_version fresh default db db upload now ≡ ok (db, v)
unfolding add_version
add_version-known fresh default db upload now plan v good live known = rw (good, live, known) refl

-- An upload with a key that succeeded is answered with the same version when it is sent again,
-- whatever the time and the default cap are then, and the second answer changes nothing.
pub add_version-again :
    (fresh : List ℕ) (default : ℕ) (db : Db) (upload : Upload) (now : ℕ) (db' : Db) (v : Version)
    (fresh' : List ℕ) (default' now' : ℕ)
    → add_version fresh default db db upload now ≡ ok (db', v)
    → list_eq upload.upload_key [] ≡ false
    → add_version fresh' default' db' db' upload now' ≡ ok (db', v)
add_version-again fresh default db upload now db' v fresh' default' now' h sent =
    let (good, plan, there, how) = add_version-cases fresh default db db upload now db' v h in
    elim how [
      | inl (same, stored) ↦
          let known : replay db upload ≡ ok (some v) = ground (arith, stored) in
          add_version-known fresh' default' db' upload now' plan v good
            (ap (λ (d : Db). get_plan d.plans upload.plan_id) same ∙ there)
            (ap (λ (d : Db). replay d upload) same ∙ known)
      | inr (new', inserted) ↦
          let (newest, unsent, end) = insert_version-cases fresh db _ _ db' inserted in
          let known = inserted-replay fresh db upload _ now _ db' inserted sent in
          let (plan', live) =
            committed-get_plan fresh db (version_of upload (validity db upload) now)
              (keep_for plan.backups_keep default) upload.plan_id plan there in
          let live' : get_plan db'.plans upload.plan_id ≡ some plan' =
            ap (λ (d : Db). get_plan d.plans upload.plan_id) end ∙ live in
          add_version-known fresh' default' db' upload now' plan' v good live'
            (known ∙ ap (λ (x : Version). ok (some x)) (sym new'))
    ]
