-- ===== src/Plans/Store.antt =====
-- backend/core/plans: the tables that name stored objects, as lists of rows. An object key, a
-- person, a name, a text and a time is a number, an upload key a list of bytes. What is empty or zero
-- is 0 or the empty list, and a column that is read as null or not is an option. An object stays in the storage while a row names it.
use goptivum.Prelude.{
  ==→eq, Bool, Bool-cases, List, Option, [], any, ap, arith, false, has, if◌then◌else◌, inl, inr,
  sym, true, ℕ, ◌++◌, ◌==◌, ◌||◌, ◌∙◌, ◌∷◌, ◌≡◌, ◌⊎◌,
}
use goptivum.Plans.Changes.{Log}

-- A row of plans; a cap of 0 is none of the plan's own.
pub record Plan : Type 0 where
  pub id : ℕ
  pub owner : ℕ
  pub name : ℕ
  pub school_year : ℕ
  pub created_at : ℕ
  pub updated_at : ℕ
  pub deleted_at : Option ℕ
  pub backups_keep : ℕ
  pub results_keep : ℕ

-- A row of plan_versions.
pub record Version : Type 0 where
  pub plan_id : ℕ
  pub version : ℕ
  pub parent : ℕ
  pub object_key : ℕ
  pub size_bytes : ℕ
  pub created_at : ℕ
  pub created_by : ℕ
  pub valid_from : ℕ
  pub valid_to : ℕ
  pub summary : Option ℕ
  pub upload_key : List ℕ
  pub checkpoint : Option ℕ
  pub checkpoint_deleted_at : Option ℕ

-- A row of solve_results, without what is only shown: who started it, its rules and its rating.
pub record Stored : Type 0 where
  pub id : ℕ
  pub plan_id : ℕ
  pub job_id : ℕ
  pub upload_key : List ℕ
  pub source_version : ℕ
  pub object_key : ℕ
  pub size_bytes : ℕ
  pub created_at : ℕ
  pub name : ℕ
  pub pinned : Bool
  pub deleted_at : Option ℕ

-- A row of plan_exports: of a version or of a result, the other is 0.
pub record Export : Type 0 where
  pub object_key : ℕ
  pub plan_id : ℕ
  pub version : ℕ
  pub result_id : ℕ
  pub format : ℕ
  pub variant : ℕ
  pub size_bytes : ℕ
  pub created_at : ℕ

-- A row of object_garbage.
pub record Garbage : Type 0 where
  pub object_key : ℕ
  pub since : ℕ

-- A row of solve_jobs: what the solve reads, and whether it is pending or running. The rest of the
-- row is the solving client's.
pub record SolveJob : Type 0 where
  pub id : ℕ
  pub plan_id : ℕ
  pub plan_version : ℕ
  pub source_result_id : ℕ
  pub is_open : Bool

pub record Db : Type 0 where
  pub plans : List Plan
  pub versions : List Version
  pub results : List Stored
  pub exports : List Export
  pub garbage : List Garbage
  pub solve_jobs : List SolveJob
  pub log : Log

-- `select count(*) … where object_key = ?` over the three tables is not 0.
unfoldable pub is_named : Db → ℕ → Bool
is_named db key =
    any (λ v. v.object_key == key) db.versions
    || any (λ r. r.object_key == key) db.results
    || any (λ e. e.object_key == key) db.exports

unfoldable pub in_garbage : ℕ → List Garbage → Bool
in_garbage key gs = any (λ g. g.object_key == key) gs

-- `insert into object_garbage … on conflict do nothing`, for each of some keys.
unfoldable pub record_keys : ℕ → List ℕ → List Garbage → List Garbage
unfolding in_garbage
record_keys now [] gs = gs
record_keys now (key ∷ keys) gs =
    record_keys now keys
      (if in_garbage key gs then gs else gs ++ record { object_key = key; since = now } ∷ [])

-- An object that a row names, or that the sweep knows of.
unfoldable pub is_accounted : Db → ℕ → Bool
unfolding is_named in_garbage
is_accounted db key = is_named db key || in_garbage key db.garbage

in_garbage-append :
    (now key k : ℕ) (gs : List Garbage)
    → in_garbage key (gs ++ record { object_key = k; since = now } ∷ [])
      ≡ (in_garbage key gs || k == key)
unfolding in_garbage
in_garbage-append now key k [] = ground arith
in_garbage-append now key k (g ∷ gs) = ground (arith, in_garbage-append now key k gs)

in_garbage_same :
    (k key : ℕ) (gs : List Garbage)
    → in_garbage k gs ≡ true
    → ((k == key) ≡ false) ⊎ (in_garbage key gs ≡ true)
in_garbage_same k key gs there = elim (Bool-cases (k == key)) [
  | inr other ↦ inl other
  | inl same ↦ inr (ap (λ (j : ℕ). in_garbage j gs) (sym (==→eq k key same)) ∙ there)
]

-- Recording a key keeps those that are there and adds it once.
pub in_garbage-record_keys :
    (now : ℕ) (keys : List ℕ) (gs : List Garbage) (key : ℕ)
    → in_garbage key (record_keys now keys gs) ≡ (in_garbage key gs || has keys key)
unfolding record_keys
in_garbage-record_keys now [] gs key = ground arith
in_garbage-record_keys now (k ∷ keys) gs key = elim (Bool-cases (in_garbage k gs)) [
  | inl there ↦
      rw there
        (ground (arith, in_garbage-record_keys now keys gs key, in_garbage_same k key gs there))
  | inr new' ↦ rw new' (
      ground (
        arith,
        in_garbage-append now key k gs,
        in_garbage-record_keys now keys (gs ++ record { object_key = k; since = now } ∷ []) key,
      ))
]
