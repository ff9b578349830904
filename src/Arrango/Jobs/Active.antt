-- ===== src/Arrango/Jobs/Active.antt =====
-- How many solves the table counts on a node, and what a finish leaves in the row.
use goptivum.Prelude.{
  ==_refl, Bool, Bool-cases, List, Option-cases, Result-cases, [], arith, false, if◌then◌else◌, inl,
  inr, ok, refl, some, suc, true, ℕ, ◌&&◌, ◌++◌, ◌+◌, ◌<◌, ◌==◌, ◌∙◌, ◌∷◌, ◌≡◌, ◌≤◌,
}
use goptivum.Arrango.Jobs.Lifecycle.{
  Write, apply, finish-cases, finished, granted, orphans_closed, started,
}
use goptivum.Arrango.Jobs.{
  Job, NewJob, Outcome, close_orphans, closed_as, count_active, count_rows, create, finish, get_job,
  grant, is_open, is_open_row, opened, orphaned, start, update_rows,
}

-- A changed table still has the job, changed where the test picks it.
pub get_job-update_rows :
    (test : Job → Bool) (change : Job → Job) (jobs : List Job) (id : ℕ) (j : Job)
    → ((k : Job) → (change k).id ≡ k.id)
    → get_job jobs id ≡ some j
    → get_job (update_rows test change jobs) id ≡ some (if test j then change j else j)
unfolding get_job update_rows
get_job-update_rows test change [] id j keeps h = absurd (cc)
get_job-update_rows test change (k ∷ ks) id j keeps h =
    ground (arith, keeps k, get_job-update_rows test change ks id j keeps)

get_job-id : (jobs : List Job) (id : ℕ) (j : Job) → get_job jobs id ≡ some j → j.id ≡ id
unfolding get_job
get_job-id [] id j h = absurd (cc)
get_job-id (k ∷ ks) id j h = ground (arith, get_job-id ks id j)

some_open :
    (id : ℕ) (jobs : List Job) {j : Job}
    → get_job jobs id ≡ some j
    → is_open j.status ≡ true
    → 0 < count_rows (is_open_row id) jobs
unfolding get_job count_rows
some_open id [] h o = absurd (cc)
some_open id (k ∷ ks) {j} h o = ground (arith, some_open id ks {j = j})

-- Finishing an open job with a terminal outcome always succeeds, and its row then says what the
-- outcome says, with the workers and the time it was granted where the outcome has none.
pub finish-get_job :
    (jobs : List Job) (id now : ℕ) (outcome : Outcome) (j : Job)
    → is_open outcome.status ≡ false
    → get_job jobs id ≡ some j
    → is_open j.status ≡ true
    → (jobs' : List Job) × (finish jobs id now outcome ≡ ok jobs')
      × (get_job jobs' id ≡ some (closed_as outcome now j))
unfolding finish
finish-get_job jobs id now outcome j terminal found o = (
  update_rows (is_open_row id) (closed_as outcome now) jobs,
  ground (arith, some_open id jobs found o),
  get_job-update_rows (is_open_row id) (closed_as outcome now) jobs id j
        (λ k. unfold closed_as in refl) found
      ∙ rw (o, get_job-id jobs id j found, ==_refl id) refl,
)

count_rows-append :
    (test : Job → Bool) (xs ys : List Job)
    → count_rows test (xs ++ ys) ≡ count_rows test xs + count_rows test ys
unfolding count_rows
count_rows-append test [] ys = omega arith
count_rows-append test (x ∷ xs) ys = ground (arith, count_rows-append test xs ys)

-- A job that is opened counts on its own node and on no other.
pub create-count_active :
    (jobs : List Job) (id now : ℕ) (open' : NewJob) (jobs' : List Job) (job : Job) (node : ℕ)
    → create jobs id now open' ≡ ok (jobs', job)
    → count_active jobs' node
      ≡ (if open'.node_id == node then suc (count_active jobs node) else count_active jobs node)
unfolding create count_active
create-count_active jobs id now open' jobs' job node h =
    let row = opened id now open' in
    let test = λ (j : Job). j.node_id == node && is_open j.status in
    elim (Option-cases (get_job jobs id)) [
      | inr (j, taken) ↦ absurd (ground (arith, taken))
      | inl free ↦
          let same : jobs' ≡ jobs ++ row ∷ [] = ground (arith, free) in
          rw (same, count_rows-append test jobs (row ∷ [])) (unfold count_rows in ground arith)
    ]

-- The rows on a node that a finish of this id closes.
unfoldable pub closing : List Job → ℕ → ℕ → ℕ
closing jobs id node = count_rows (λ j. is_open_row id j && j.node_id == node) jobs

count_active-closed :
    (jobs : List Job) (id now node : ℕ) (outcome : Outcome)
    → is_open outcome.status ≡ false
    → count_active (update_rows (is_open_row id) (closed_as outcome now) jobs) node
        + closing jobs id node
      ≡ count_active jobs node
unfolding count_active closing count_rows update_rows closed_as
count_active-closed [] id now node outcome t = omega arith
count_active-closed (j ∷ js) id now node outcome t =
    ground (arith, count_active-closed js id now node outcome t)

none_active :
    (jobs : List Job) (now node : ℕ)
    → count_active (update_rows (λ j. is_open j.status) (orphaned now) jobs) node ≡ 0
unfolding count_active count_rows update_rows orphaned
none_active [] now node = refl
none_active (j ∷ js) now node = ground (arith, none_active js now node)

-- After the orphans are closed no node carries a solve, and the number returned is how many were
-- open before.
pub close_orphans-count_active :
    (jobs : List Job) (now node : ℕ)
    → (count_active (close_orphans jobs now).0 node ≡ 0)
      × ((close_orphans jobs now).1 ≡ count_rows (λ j. is_open j.status) jobs)
unfolding close_orphans
close_orphans-count_active jobs now node = (none_active jobs now node, refl)

-- A write that closes jobs or leaves them counts no more of them than before.
count_active-update_rows :
    (test : Job → Bool) (change : Job → Job) (jobs : List Job) (node : ℕ)
    → ((j : Job)
        → test j ≡ true
        → ((change j).node_id ≡ j.node_id)
          × (is_open (change j).status ≡ true → is_open j.status ≡ true))
    → count_active (update_rows test change jobs) node ≤ count_active jobs node
unfolding count_active count_rows update_rows
count_active-update_rows test change [] node h = omega arith
count_active-update_rows test change (j ∷ js) node h =
    let rest = count_active-update_rows test change js node h in
    elim (Bool-cases (test j)) [
      | inl hit ↦ let (same, opens) = h j hit in ground (arith, hit, rest, same)
      | inr miss ↦ ground (arith, miss, rest)
    ]

-- No write but the opening of a job makes a node carry more.
pub apply-count_active :
    (jobs : List Job) (w : Write) (node : ℕ)
    → count_active (apply jobs w) node ≤ count_active jobs node
unfolding apply
apply-count_active jobs (started id now) node =
    unfold start in count_active-update_rows _ _ jobs node (λ j h. (refl, λ o. ground arith))
apply-count_active jobs (granted id seconds workers stall) node =
    unfold grant in count_active-update_rows _ _ jobs node (λ j h. (refl, λ o. o))
apply-count_active jobs (orphans_closed now) node =
    unfold close_orphans orphaned in
    count_active-update_rows _ _ jobs node (λ j h. (refl, λ o. absurd (cc)))
apply-count_active jobs (finished id now outcome) node =
    elim (Result-cases (finish jobs id now outcome)) [
      | inr (e, refused) ↦ rw refused (omega arith)
      | inl (jobs', accepted) ↦
          let (terminal, how) = finish-cases jobs id now outcome accepted in
          rw accepted (elim how [
            | inl same ↦ rw same (omega arith)
            | inr changed ↦
                rw changed (omega (arith, count_active-closed jobs id now node outcome terminal))
          ])
    ]
