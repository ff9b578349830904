-- ===== src/Plans/Exports/Matched.antt =====
-- A kept file of a result is a file of that result's plan.
use goptivum.Prelude.{
  ==→eq, Bool, Bool-cases, List, Result-cases, [], any, ap, arith, false, inl, inr, not, ok, refl,
  sym, true, ℕ, ◌&&◌, ◌==◌, ◌∙◌, ◌∷◌, ◌≡◌,
}
use goptivum.Plans.Store.{Db, Export, Stored}
use goptivum.Plans.Results.Latest.{Identified, has_result}
use goptivum.Plans.Exports.{check_source, keep_export, put_export}

-- A file is named after a result of another plan.
abbrev pub is_stray : List Stored → Export → Bool
is_stray rs e =
    not (e.result_id == 0) && any (λ r. r.id == e.result_id && not (r.plan_id == e.plan_id)) rs

unfoldable pub IsMatched : Db → Type 0
IsMatched db = any (is_stray db.results) db.exports ≡ false

unknown_id :
    (rs : List Stored) (id plan_id : ℕ)
    → has_result id rs ≡ false
    → (any (λ r. r.plan_id == plan_id && r.id == id) rs ≡ false)
      × (any (λ r. r.id == id && not (r.plan_id == plan_id)) rs ≡ false)
unfolding has_result
unknown_id [] id plan_id h = (refl, refl)
unknown_id (r ∷ rs) id plan_id h = ground (arith, unknown_id rs id plan_id)

-- No result of a plan has the id of another plan's, as ids are unique.
stray_none :
    (rs : List Stored) (id plan_id : ℕ)
    → Identified rs
    → any (λ r. r.plan_id == plan_id && r.id == id) rs ≡ true
    → any (λ r. r.id == id && not (r.plan_id == plan_id)) rs ≡ false
stray_none [] id plan_id ids h = refl
stray_none (r ∷ rs) id plan_id (new', ids) h = elim (Bool-cases (r.id == id)) [
  | inr other ↦ ground (arith, other, h, stray_none rs id plan_id ids)
  | inl same ↦
      let unknown : has_result id rs ≡ false =
        ap (λ (k : ℕ). has_result k rs) (sym (==→eq r.id id same)) ∙ new' in
      ground (arith, same, h, unknown_id rs id plan_id unknown)
]

any-put_export :
    (p : Export → Bool) (e : Export) (es : List Export)
    → any p es ≡ false
    → p e ≡ false
    → any p (put_export e es) ≡ false
unfolding put_export
any-put_export p e [] h own = ground arith
any-put_export p e (f ∷ fs) h own = ground (arith, any-put_export p e fs)

keep_export-cases :
    (db : Db) (e : Export) (now : ℕ) (db' : Db) (kept : Export)
    → keep_export db e now ≡ ok (db', kept)
    → (check_source db e ≡ ok tt)
      × (db' ≡ record db { exports = put_export (record e { created_at = now }) db.exports })
unfolding keep_export
keep_export-cases db e now db' kept h = elim (Result-cases (check_source db e)) [
  | inl (u, good) ↦ (good, ground (arith, h, good))
  | inr (bad', bad) ↦ absurd (ground (arith, h, bad))
]

check_source_kept :
    (db : Db) (e : Export)
    → Identified db.results
    → check_source db e ≡ ok tt
    → is_stray db.results e ≡ false
unfolding check_source
check_source_kept db e ids h = ground (arith, h, stray_none db.results e.result_id e.plan_id ids)

-- Keeping a file leaves every kept file of a result a file of that result's plan, when ids of
-- results are unique.
pub keep_export-IsMatched :
    (db : Db) (e : Export) (now : ℕ) (db' : Db) (kept : Export)
    → Identified db.results
    → IsMatched db
    → keep_export db e now ≡ ok (db', kept)
    → IsMatched db'
unfolding IsMatched
keep_export-IsMatched db e now db' kept ids matched h =
    let (source, end) = keep_export-cases db e now db' kept h in
    let own = check_source_kept db e ids source in
    rw end
      (any-put_export (is_stray db.results) (record e { created_at = now }) db.exports matched own)
