-- ===== src/Arrango/Dispatch/Settle.antt =====
-- However a solve ends, its job is closed, and what the row says is what happened.
use mathlib.Core.Option.{some-injective}
use goptivum.Prelude.{
  Bool, List, Option, Option-cases, Result, Result-cases, ap, arith, false, has, inl, inr, none, ok,
  refl, some, true, ℕ, ◌↔◌, ◌≡◌,
}
use goptivum.Solve.Stream.{Config, SolveResult}
use goptivum.Arrango.Jobs.{Job, Outcome, Reason, Status, closed_as, get_job, grant, is_open, start}
use goptivum.Arrango.Jobs.Active.{finish-get_job, get_job-update_rows}
use goptivum.Arrango.Dispatch.{
  Circumstances, RunError, Stored, close_row, finish_solve, first_config, granted_jobs,
  is_cancelled, not_stored, outcome_for, outcome_of, run_guard, run_solve, settled, store,
  store_failed, stored_as, verdict_of,
}

-- Every outcome closes the job.
pub outcome_for_closes :
    (persist : Option (SolveResult → Result (List ℕ) ℕ)) (result : SolveResult)
    (e : Option RunError)
    → is_open (outcome_for persist result e).status ≡ false
unfolding outcome_for
outcome_for_closes persist result e = ground arith

-- The verdict is done for a run that brought a schedule and was not cancelled.
verdict_of_done :
    (result : SolveResult) (e : Option RunError)
    → ((verdict_of result e).0 ≡ Status.done)
      ↔ ((e ≡ none) × (is_cancelled result.status ≡ false) × (result.has_schedule ≡ true))
unfolding verdict_of
verdict_of_done result (some e) = ground arith
verdict_of_done result none = ground arith

-- Storing the schedule failed.
abbrev pub is_lost : Stored → Bool
is_lost (store_failed text) = true
is_lost _ = false

settled_done :
    (v : Status × Reason × List ℕ) (stored : Stored)
    → ((settled v stored).0 ≡ Status.done) ↔ ((v.0 ≡ Status.done) × (is_lost stored ≡ false))
unfolding settled
settled_done (s, r, d) not_stored = (λ h. (h, refl), λ (h, _). h)
settled_done (s, r, d) (stored_as id) = (λ h. (h, refl), λ (h, _). h)
settled_done (s, r, d) (store_failed text) =
    (λ h. absurd (ground (arith, h)), λ (_, kept). absurd (cc))

-- A solve is done exactly when its run ended without an error and was not cancelled, a schedule
-- arrived, and storing it, where there is a store, succeeded.
pub outcome_for_done :
    (persist : Option (SolveResult → Result (List ℕ) ℕ)) (result : SolveResult)
    (e : Option RunError)
    → ((outcome_for persist result e).status ≡ Status.done) ↔ (
        (e ≡ none)
        × (is_cancelled result.status ≡ false)
        × (result.has_schedule ≡ true)
        × (is_lost (store persist result) ≡ false))
unfolding outcome_for outcome_of
outcome_for_done persist result e =
    let (v→, v←) = verdict_of_done result e in
    let (s→, s←) = settled_done (verdict_of result e) (store persist result) in
    (
      λ h. let (v, kept) = s→ h in let (a, b, c) = v→ v in (a, b, c, kept),
      λ (a, b, c, kept). s← (v← (a, b, c), kept),
    )

settled_id :
    (v : Status × Reason × List ℕ) (stored : Stored) (id : ℕ)
    → ((settled v stored).3 ≡ some id) ↔ (stored ≡ stored_as id)
unfolding settled
settled_id (s, r, d) not_stored id = (λ h. absurd (cc), λ h. absurd (cc))
settled_id (s, r, d) (stored_as n) id = (λ h. ground arith, λ h. ground arith)
settled_id (s, r, d) (store_failed text) id = (λ h. absurd (cc), λ h. absurd (cc))

store-some :
    (p : SolveResult → Result (List ℕ) ℕ) (result : SolveResult) (id : ℕ)
    → store (some p) result ≡ stored_as id
    → (result.has_schedule ≡ true) × (p result ≡ ok id)
unfolding store
store-some p result id h = ground arith

store_id :
    (persist : Option (SolveResult → Result (List ℕ) ℕ)) (result : SolveResult) (id : ℕ)
    → (store persist result ≡ stored_as id) ↔ (
        (result.has_schedule ≡ true)
        × ((p : SolveResult → Result (List ℕ) ℕ) × (persist ≡ some p) × (p result ≡ ok id)))
unfolding store
store_id none result id = (λ h. absurd (cc), λ (_, rest). absurd (let (p, bad, _) = rest in cc))
store_id (some p) result id = (
  λ h. let (has, stored) = store-some p result id h in (has, (p, refl, stored)),
  λ (has, rest).
      let (q, same, stored) = rest in ground (arith, ap (λ f. f result) (some-injective _ _ same)),
)

-- The row has a result exactly when a schedule arrived and was stored, also after a cancel or an
-- error: what a stopped solve had found is kept.
pub outcome_for-result_id :
    (persist : Option (SolveResult → Result (List ℕ) ℕ)) (result : SolveResult)
    (e : Option RunError) (id : ℕ)
    → ((outcome_for persist result e).result_id ≡ some id) ↔ (
        (result.has_schedule ≡ true)
        × ((p : SolveResult → Result (List ℕ) ℕ) × (persist ≡ some p) × (p result ≡ ok id)))
unfolding outcome_for outcome_of
outcome_for-result_id persist result e id =
    let (s→, s←) = store_id persist result id in
    let (k→, k←) = settled_id (verdict_of result e) (store persist result) id in
    (λ h. s→ (k→ h), λ h. k← (s← h))

-- A job of this id is there, and it is open.
abbrev pub IsOpenIn : List Job → ℕ → Type 0
IsOpenIn jobs id = (k : Job) × (get_job jobs id ≡ some k) × (is_open k.status ≡ true)

start-IsOpenIn : (jobs : List Job) (id now : ℕ) → IsOpenIn jobs id → IsOpenIn (start jobs id now) id
unfolding start
start-IsOpenIn jobs id now (j, found, live) =
    (_, get_job-update_rows _ _ jobs id j (λ k. refl) found, ground (arith, live))

granted_jobs-IsOpenIn :
    (jobs : List Job) (id : ℕ) (config : Option Config)
    → IsOpenIn jobs id
    → IsOpenIn (granted_jobs jobs id config) id
unfolding granted_jobs grant
granted_jobs-IsOpenIn jobs id none h = h
granted_jobs-IsOpenIn jobs id (some c) (j, found, live) =
    (_, get_job-update_rows _ _ jobs id j (λ k. refl) found, ground (arith, live))

-- The table that the run of a solve leaves still has the job, open as it was.
run_solve-IsOpenIn :
    (c : Circumstances) (jobs : List Job) (id now : ℕ)
    → IsOpenIn jobs id
    → IsOpenIn (run_solve c jobs id now).0 id
unfolding run_solve get_job
run_solve-IsOpenIn c jobs id now h = elim (Option-cases (run_guard c)) [
  | inr (e, stopped) ↦ rw (run_solve, stopped) h
  | inl clear ↦ elim (Result-cases c.stream) [
    | inr (e, lost) ↦ rw (run_solve, clear, lost) h
    | inl (updates, came) ↦
        rw (run_solve, clear, came)
          (granted_jobs-IsOpenIn (start jobs id now) id (first_config updates)
            (start-IsOpenIn jobs id now h))
  ]
]

-- Closing the row of an open job: the row that is read back is the one closed.
close_row-closed :
    (jobs : List Job) (job : Job) (result : SolveResult) (e : Option RunError) (outcome : Outcome)
    (now : ℕ) (k : Job)
    → is_open outcome.status ≡ false
    → get_job jobs job.id ≡ some k
    → is_open k.status ≡ true
    → let f = close_row jobs job result e outcome now in
      (f.run_error ≡ e)
      × (f.job_error ≡ none)
      × (f.result ≡ result)
      × (get_job f.jobs job.id ≡ some f.job)
      × (f.job ≡ closed_as outcome now k)
unfolding close_row
close_row-closed jobs job result e outcome now k terminal kept still =
    let (jobs', accepted, row) = finish-get_job jobs job.id now outcome k terminal kept still in
    ground (arith, accepted, row)

-- When the job of a solve is open, `Finish` closes it: its error is the one that its run ended with,
-- and none if that ended with none; the job it returns is the row in the table, which is closed with
-- the status, the reason, the detail and the result of the run's outcome; and the timetable it
-- returns is the run's.
pub finish_solve-get_job :
    (persist : Option (SolveResult → Result (List ℕ) ℕ)) (c : Circumstances) (jobs : List Job)
    (job : Job) (started_now now : ℕ)
    → IsOpenIn jobs job.id
    → let f = finish_solve persist c jobs job started_now now in
      let (_, result, e) = run_solve c jobs job.id started_now in
      let outcome = outcome_for persist result e in
      (f.run_error ≡ e)
      × (f.job_error ≡ none)
      × (f.result ≡ result)
      × (get_job f.jobs job.id ≡ some f.job)
      × (is_open f.job.status ≡ false)
      × (f.job.status ≡ outcome.status)
      × (f.job.reason ≡ outcome.reason)
      × (f.job.detail ≡ outcome.detail)
      × (f.job.result_id ≡ outcome.result_id)
unfolding finish_solve
finish_solve-get_job persist c jobs job started_now now h =
    let (k, kept, still) = run_solve-IsOpenIn c jobs job.id started_now h in
    let ran = run_solve c jobs job.id started_now in
    let outcome = outcome_for persist ran.1 ran.2 in
    let terminal = outcome_for_closes persist ran.1 ran.2 in
    let (same, fine, found, row, closed) =
      close_row-closed ran.0 job ran.1 ran.2 outcome now k terminal kept still in
    (
      same,
      fine,
      found,
      row,
      rw closed (unfold closed_as in terminal),
      rw closed (unfold closed_as in refl),
      rw closed (unfold closed_as in refl),
      rw closed (unfold closed_as in refl),
      rw closed (unfold closed_as in refl),
    )
