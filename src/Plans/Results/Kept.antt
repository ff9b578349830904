-- ===== src/Plans/Results/Kept.antt =====
-- A result that a job kept is one of that job's plan, as core/results stores it: Persist takes the
-- plan and the id from one job.
use goptivum.Prelude.{
  Bool, Bool-cases, List, Option-cases, [], any, arith, drop, false, inl, inr, not, ok, refl,
  select, ℕ, ◌&&◌, ◌++◌, ◌==◌, ◌∷◌, ◌≡◌,
}
use goptivum.Plans.Changes.{parts, results, stamp}
use goptivum.Plans.Backups.{keep_for}
use goptivum.Plans.Store.{Db, SolveJob, Stored}
use goptivum.Plans.Results.{
  any_plan, counted, insert_result, is_source, remove_result, remove_results, trim_from,
  trim_results,
}

-- A result that is kept by a job of another plan; a job 0 is null.
abbrev pub is_misplaced : List SolveJob → Stored → Bool
is_misplaced jobs r =
    not (r.job_id == 0) && any (λ j. j.id == r.job_id && not (j.plan_id == r.plan_id)) jobs

-- Every result that a job kept is one of that job's plan.
unfoldable pub KeptByOwn : Db → Type 0
KeptByOwn db = any (is_misplaced db.solve_jobs) db.results ≡ false

any-select :
    (p q : Stored → Bool) (rs : List Stored) → any p rs ≡ false → any p (select q rs) ≡ false
any-select p q [] h = refl
any-select p q (r ∷ rs) h = ground (arith, any-select p q rs)

any-snoc :
    (p : Stored → Bool) (rs : List Stored) (r : Stored)
    → any p rs ≡ false
    → p r ≡ false
    → any p (rs ++ r ∷ []) ≡ false
any-snoc p [] r h own = ground arith
any-snoc p (s ∷ rs) r h own = ground (arith, any-snoc p rs r)

trim_from-KeptByOwn :
    (db : Db) (now : ℕ) (rs : List Stored) → KeptByOwn db → KeptByOwn (trim_from db now rs)
unfolding trim_from remove_result remove_results KeptByOwn
trim_from-KeptByOwn db now [] h = h
trim_from-KeptByOwn db now (r ∷ rs) h = elim (Bool-cases (is_source db.solve_jobs r.id)) [
  | inl read ↦ rw (trim_from, read) (trim_from-KeptByOwn db now rs h)
  | inr unread ↦
      rw (trim_from, unread)
        (trim_from-KeptByOwn (remove_results now (λ s. s.id == r.id) db) now rs
          (any-select (is_misplaced db.solve_jobs) (λ s. not (s.id == r.id)) db.results h))
]

-- Storing a result of its job's plan, with the cap applied, keeps every result with its job's plan.
pub insert_result-KeptByOwn :
    (fresh : List ℕ) (default : ℕ) (db : Db) (r : Stored) (now : ℕ) (db' : Db)
    → KeptByOwn db
    → is_misplaced db.solve_jobs r ≡ false
    → insert_result fresh default db r now ≡ ok db'
    → KeptByOwn db'
unfolding insert_result trim_results KeptByOwn
insert_result-KeptByOwn fresh default db r now db' h own done' =
    elim (Option-cases (any_plan db.plans r.plan_id)) [
      | inl unknown ↦ absurd (ground (arith, done', unknown))
      | inr (plan, found) ↦
          let inserted : Db = record db { results = db.results ++ r ∷ [] } in
          let keep = keep_for plan.results_keep default in
          let trimmed : Db = trim_results inserted r.plan_id keep now in
          let end : db'
              ≡ record trimmed { log = stamp fresh trimmed.log (parts r.plan_id (results ∷ [])) } =
            ground (arith, done', found) in
          rw end (
            trim_from-KeptByOwn inserted now (drop keep (counted r.plan_id inserted.results))
              (any-snoc (is_misplaced db.solve_jobs) db.results r h own))
    ]
