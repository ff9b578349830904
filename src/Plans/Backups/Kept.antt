-- ===== src/Plans/Backups/Kept.antt =====
-- What a trim leaves of the versions, and of the objects that they name.
use goptivum.Prelude.{
  ==→eq, Bool, Bool-cases, List, Option, [], any, any_split, ap, arith, has, inl, inr, leb, ltb,
  none, not, refl, select, some, ℕ, ◌&&◌, ◌==◌, ◌||◌, ◌∷◌, ◌≡◌,
}
use goptivum.Plans.Store.{
  Db, Export, Version, in_garbage-record_keys, is_accounted, is_named, record_keys,
}
use goptivum.Plans.Backups.{
  cutoff_of, export_keys, is_export_of, is_plain, is_read, is_trimmed, plain_below, remove_versions,
  trim, trim_below, version_keys,
}
use goptivum.Plans.Backups.Newest.{
  Keyed, above-plain_below, has-plain_below, has_plain, higher, offset-above, offset_low,
  plain_below-Descending, reaches,
}

has_plain-trimmed :
    (db : Db) (plan_id c n : ℕ) (vs : List Version)
    → has_plain plan_id n (select (λ v. not (is_trimmed db plan_id c v)) vs)
      ≡ (has_plain plan_id n vs && not (leb n c && not (is_read db.solve_jobs plan_id n)))
unfolding has_plain is_trimmed
has_plain-trimmed db plan_id c n [] = refl
has_plain-trimmed db plan_id c n (v ∷ vs) = elim (Bool-cases (v.version == n)) [
  | inl same ↦ ground (
    arith,
    ap (λ (k : ℕ). is_read db.solve_jobs plan_id k) (==→eq v.version n same),
    has_plain-trimmed db plan_id c n vs,
  )
  | inr other ↦ ground (arith, has_plain-trimmed db plan_id c n vs)
]

-- A plain version is over the cap when at least `keep` newer ones stand below the newest.
pub is_over : ℕ → ℕ → ℕ → ℕ → List Version → Bool
is_over plan_id newest keep n vs = ltb n newest && leb keep (higher plan_id newest n vs)

reaches-cutoff_of :
    (db : Db) (plan_id newest keep n : ℕ)
    → Keyed db.versions
    → (has_plain plan_id n db.versions && reaches n (cutoff_of db plan_id newest keep))
      ≡ (has_plain plan_id n db.versions && is_over plan_id newest keep n db.versions)
unfolding cutoff_of is_over
reaches-cutoff_of db plan_id newest keep n keyed =
    let ordered = plain_below-Descending plan_id newest db.versions keyed in
    ground (
      arith,
      has-plain_below plan_id newest db.versions n,
      above-plain_below plan_id newest db.versions n,
      offset-above keep n newest (plain_below plan_id newest db.versions) ordered,
      offset_low n keep newest (plain_below plan_id newest db.versions) ordered,
    )

trim_below-versions :
    (db : Db) (plan_id now n : ℕ) (cutoff : Option ℕ)
    → has_plain plan_id n (trim_below db plan_id now cutoff).0.versions ≡ (
        has_plain plan_id n db.versions
        && not (reaches n cutoff && not (is_read db.solve_jobs plan_id n)))
unfolding trim_below remove_versions
trim_below-versions db plan_id now n none = ground arith
trim_below-versions db plan_id now n (some c) = has_plain-trimmed db plan_id c n db.versions

-- After a trim the plan has exactly those of its plain versions that are the newest or above it,
-- among the `keep` newest below it, or read by an open solve, when no two versions of a plan have
-- one number.
pub trim-has_plain :
    (db : Db) (plan_id newest keep now n : ℕ)
    → Keyed db.versions
    → has_plain plan_id n (trim db plan_id newest keep now).0.versions ≡ (
        has_plain plan_id n db.versions
        && (not (is_over plan_id newest keep n db.versions) || is_read db.solve_jobs plan_id n))
unfolding trim
trim-has_plain db plan_id newest keep now n keyed = ground (
  arith,
  trim_below-versions db plan_id now n (cutoff_of db plan_id newest keep),
  reaches-cutoff_of db plan_id newest keep n keyed,
)

pub other_versions : ℕ → List Version → List Version
other_versions plan_id vs = select (λ v. not (is_plain plan_id v)) vs

other_versions-trimmed :
    (db : Db) (plan_id c : ℕ) (vs : List Version)
    → other_versions plan_id (select (λ v. not (is_trimmed db plan_id c v)) vs)
      ≡ other_versions plan_id vs
unfolding other_versions is_trimmed
other_versions-trimmed db plan_id c [] = refl
other_versions-trimmed db plan_id c (v ∷ vs) =
    ground (arith, other_versions-trimmed db plan_id c vs)

trim_below-others :
    (db : Db) (plan_id now : ℕ) (cutoff : Option ℕ)
    → other_versions plan_id (trim_below db plan_id now cutoff).0.versions
      ≡ other_versions plan_id db.versions
unfolding trim_below remove_versions
trim_below-others db plan_id now none = refl
trim_below-others db plan_id now (some c) = other_versions-trimmed db plan_id c db.versions

-- A trim leaves the checkpoints of the plan, live or in Trash, and the versions of every other
-- plan as they are, and in their order.
pub trim-other_versions :
    (db : Db) (plan_id newest keep now : ℕ)
    → other_versions plan_id (trim db plan_id newest keep now).0.versions
      ≡ other_versions plan_id db.versions
unfolding trim
trim-other_versions db plan_id newest keep now =
    trim_below-others db plan_id now (cutoff_of db plan_id newest keep)

pub has-version_keys :
    (vs : List Version) (key : ℕ) → has (version_keys vs) key ≡ any (λ v. v.object_key == key) vs
has-version_keys [] key = refl
has-version_keys (v ∷ vs) key = ap (λ b. v.object_key == key || b) (has-version_keys vs key)

pub has-export_keys :
    (es : List Export) (key : ℕ) → has (export_keys es) key ≡ any (λ e. e.object_key == key) es
has-export_keys [] key = refl
has-export_keys (e ∷ es) key = ap (λ b. e.object_key == key || b) (has-export_keys es key)

-- Whatever versions are removed: an object that a row named or the garbage held is still named or
-- held, so no object is lost to the sweep.
pub remove_versions-is_accounted :
    (now : ℕ) (test : Version → Bool) (db : Db) (key : ℕ)
    → is_accounted (remove_versions now test db) key ≡ is_accounted db key
unfolding remove_versions is_accounted is_named
remove_versions-is_accounted now test db key =
    let files = is_export_of test db.versions in
    ground (
      arith,
      any_split (λ v. v.object_key == key) test db.versions,
      any_split (λ e. e.object_key == key) files db.exports,
      has-version_keys (select test db.versions) key,
      has-export_keys (select files db.exports) key,
      in_garbage-record_keys now (version_keys (select test db.versions)) db.garbage key,
      in_garbage-record_keys now (export_keys (select files db.exports))
          (record_keys now (version_keys (select test db.versions)) db.garbage) key,
    )

trim_below-is_accounted :
    (db : Db) (plan_id now : ℕ) (cutoff : Option ℕ) (key : ℕ)
    → is_accounted (trim_below db plan_id now cutoff).0 key ≡ is_accounted db key
unfolding trim_below
trim_below-is_accounted db plan_id now none key = refl
trim_below-is_accounted db plan_id now (some c) key =
    remove_versions-is_accounted now (is_trimmed db plan_id c) db key

pub trim-is_accounted :
    (db : Db) (plan_id newest keep now key : ℕ)
    → is_accounted (trim db plan_id newest keep now).0 key ≡ is_accounted db key
unfolding trim
trim-is_accounted db plan_id newest keep now key =
    trim_below-is_accounted db plan_id now (cutoff_of db plan_id newest keep) key
