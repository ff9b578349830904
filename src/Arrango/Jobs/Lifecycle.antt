-- ===== src/Arrango/Jobs/Lifecycle.antt =====
-- The life of a job: it is pending, then running, then closed for good.
use goptivum.Prelude.{
  Bool, Bool-cases, List, Result, Result-cases, [], arith, err, false, inl, inr, ok, refl, true, ℕ,
  ◌∷◌, ◌≡◌, ◌⊎◌,
}
use goptivum.Arrango.Jobs.{
  Job, JobError, Outcome, Status, cancelled, close_orphans, closed_as, done, failed, finish, grant,
  is_open, is_open_row, is_pending, orphaned, pending, running, start, update_rows,
}

-- The moves a row's status makes.
pub data Moves : Status → Status → Type 0 where
  stay : {s : Status} → Moves s s
  begin : Moves pending running
  close : {s t : Status} → is_open s ≡ true → is_open t ≡ false → Moves s t

-- Row by row, a table after an operation: the same jobs in the same order, each moved on.
abbrev pub Evolved : List Job → List Job → Type 0
Evolved [] [] = Unit
Evolved [] (k ∷ ks) = ⊥
Evolved (j ∷ js) [] = ⊥
Evolved (j ∷ js) (k ∷ ks) =
    ((j.id ≡ k.id)
      × (j.node_id ≡ k.node_id)
      × Moves j.status k.status
      × ((is_open j.status ≡ true)
          ⊎ ((k.result_id ≡ j.result_id) × (k.finished_at ≡ j.finished_at))))
    × Evolved js ks

update_rows-Evolved :
    (test : Job → Bool) (change : Job → Job) (jobs : List Job)
    → ((j : Job)
        → test j ≡ true
        → (j.id ≡ (change j).id)
          × (j.node_id ≡ (change j).node_id)
          × Moves j.status (change j).status
          × ((is_open j.status ≡ true)
              ⊎ (((change j).result_id ≡ j.result_id) × ((change j).finished_at ≡ j.finished_at))))
    → Evolved jobs (update_rows test change jobs)
unfolding update_rows
update_rows-Evolved test change [] h = tt
update_rows-Evolved test change (j ∷ js) h = elim (Bool-cases (test j)) [
  | inl yes' ↦ rw yes' (h j yes', update_rows-Evolved test change js h)
  | inr no' ↦ rw no' ((refl, refl, stay, inr (refl, refl)), update_rows-Evolved test change js h)
]

Evolved-refl : (jobs : List Job) → Evolved jobs jobs
Evolved-refl [] = tt
Evolved-refl (j ∷ js) = ((refl, refl, stay, inr (refl, refl)), Evolved-refl js)

pending_starts : (s : Status) → is_pending s ≡ true → Moves s running
pending_starts pending h = begin
pending_starts running h = absurd (cc)
pending_starts done h = absurd (cc)
pending_starts failed h = absurd (cc)
pending_starts cancelled h = absurd (cc)

pending_open : (s : Status) → is_pending s ≡ true → is_open s ≡ true
pending_open pending h = refl
pending_open running h = refl
pending_open done h = absurd (cc)
pending_open failed h = absurd (cc)
pending_open cancelled h = absurd (cc)

start-Evolved : (jobs : List Job) (id now : ℕ) → Evolved jobs (start jobs id now)
unfolding start
start-Evolved jobs id now = update_rows-Evolved _ _ jobs (λ j h. (
  refl,
  refl,
  pending_starts j.status (ground arith),
  inl (pending_open j.status (ground arith)),
))

grant-Evolved :
    (jobs : List Job) (id seconds workers stall : ℕ)
    → Evolved jobs (grant jobs id seconds workers stall)
unfolding grant
grant-Evolved jobs id seconds workers stall =
    update_rows-Evolved _ _ jobs (λ j h. (refl, refl, stay, inr (refl, refl)))

close_orphans-Evolved : (jobs : List Job) (now : ℕ) → Evolved jobs (close_orphans jobs now).0
unfolding close_orphans orphaned
close_orphans-Evolved jobs now =
    update_rows-Evolved _ _ jobs (λ j h. (refl, refl, close h refl, inl h))

closed-Evolved :
    (jobs : List Job) (id now : ℕ) (outcome : Outcome)
    → is_open outcome.status ≡ false
    → Evolved jobs (update_rows (is_open_row id) (closed_as outcome now) jobs)
unfolding closed_as
closed-Evolved jobs id now outcome terminal =
    update_rows-Evolved _ _ jobs
      (λ j h. (refl, refl, close (ground arith) terminal, inl (ground arith)))

pub finish-cases :
    (jobs : List Job) (id now : ℕ) (outcome : Outcome) {jobs' : List Job}
    → finish jobs id now outcome ≡ ok jobs'
    → (is_open outcome.status ≡ false)
      × ((jobs' ≡ jobs) ⊎ (jobs' ≡ update_rows (is_open_row id) (closed_as outcome now) jobs))
unfolding finish
finish-cases jobs id now outcome h = ground arith

-- What happens to the table: each write of the program, one after the other.
pub data Write : Type 0 where
  started : ℕ → ℕ → Write
  granted : ℕ → ℕ → ℕ → ℕ → Write
  finished : ℕ → ℕ → Outcome → Write
  orphans_closed : ℕ → Write

abbrev pub or_same : List Job → Result JobError (List Job) → List Job
or_same jobs (ok jobs') = jobs'
or_same jobs (err e) = jobs

unfoldable pub apply : List Job → Write → List Job
apply jobs (started id now) = start jobs id now
apply jobs (granted id seconds workers stall) = grant jobs id seconds workers stall
apply jobs (finished id now outcome) = or_same jobs (finish jobs id now outcome)
apply jobs (orphans_closed now) = (close_orphans jobs now).0

-- Every write keeps the jobs, their order and their nodes, moves each from pending to running or to
-- a closed status only, and leaves the status, the result and the end of a closed job for good.
pub apply-Evolved : (jobs : List Job) (w : Write) → Evolved jobs (apply jobs w)
unfolding apply
apply-Evolved jobs (started id now) = start-Evolved jobs id now
apply-Evolved jobs (granted id seconds workers stall) = grant-Evolved jobs id seconds workers stall
apply-Evolved jobs (orphans_closed now) = close_orphans-Evolved jobs now
apply-Evolved jobs (finished id now outcome) = elim (Result-cases (finish jobs id now outcome)) [
  | inr (e, refused) ↦ rw refused (Evolved-refl jobs)
  | inl (jobs', accepted) ↦
      let (terminal, how) = finish-cases jobs id now outcome accepted in
      rw accepted (elim how [
        | inl same ↦ rw same (Evolved-refl jobs)
        | inr changed ↦ rw changed (closed-Evolved jobs id now outcome terminal)
      ])
]
