-- ===== src/Arrango/Runner/Stopped.antt =====
-- After `Close` nothing starts, and everything that still runs was told to stop.
use mathlib.Core.Path.{subst}
use goptivum.Prelude.{
  Bool, Bool-cases, List, [], arith, false, inl, inr, not, refl, select, sym, true, ℕ, ◌==◌, ◌∷◌,
  ◌≡◌, ◌⊎◌,
}
use goptivum.Solve.Stream.{SolveUpdate}
use goptivum.Arrango.Jobs.{Job}
use goptivum.Arrango.Runner.{
  Live, Runner, cancel, cancel_node, cancel_plan, change_where, close_runner, end_run, new_runner,
  observe, observe_at, start_run, stop,
}

pub data Event : Type 0 where
  begun : Job → Event
  observed : ℕ → SolveUpdate → Event
  ended : ℕ → Event
  job_cancelled : ℕ → Event
  plan_cancelled : ℕ → Event
  node_cancelled : ℕ → Event
  closing : Event

unfoldable pub react : Runner → Event → Runner
react r (begun job) = (start_run r job).0
react r (observed id update) = observe_at r id update
react r (ended id) = end_run r id
react r (job_cancelled id) = (cancel r id).0
react r (plan_cancelled id) = (cancel_plan r id).0
react r (node_cancelled id) = (cancel_node r id).0
react r closing = close_runner r

unfoldable pub react_all : Runner → List Event → Runner
react_all r [] = r
react_all r (e ∷ es) = react_all (react r e) es

abbrev pub AllStopped : List Live → Type 0
AllStopped [] = Unit
AllStopped (l ∷ ls) = (l.stopped ≡ true) × AllStopped ls

-- Closed, and every solve that still runs was stopped.
unfoldable pub IsStopped : Runner → Type 0
IsStopped r = (r.closed ≡ true) × AllStopped r.running

-- A change that leaves stopped solves stopped.
change_where-AllStopped :
    (test : Live → Bool) (change : Live → Live) (ls : List Live)
    → ((l : Live) → l.stopped ≡ true → (change l).stopped ≡ true)
    → AllStopped ls
    → AllStopped (change_where test change ls)
unfolding change_where
change_where-AllStopped test change [] keeps h = tt
change_where-AllStopped test change (l ∷ ls) keeps (now, h) = (
  elim (Bool-cases (test l)) [ inl yes' ↦ rw yes' (keeps l now) | inr no' ↦ rw no' now ],
  change_where-AllStopped test change ls keeps h,
)

stop_all-AllStopped : (ls : List Live) → AllStopped (change_where (λ l. true) stop ls)
unfolding change_where
stop_all-AllStopped [] = tt
stop_all-AllStopped (l ∷ ls) = (refl, stop_all-AllStopped ls)

select-AllStopped :
    (test : Live → Bool) (ls : List Live) → AllStopped ls → AllStopped (select test ls)
select-AllStopped test [] h = tt
select-AllStopped test (l ∷ ls) (now, h) = elim (Bool-cases (test l)) [
  | inl yes' ↦ rw yes' (now, select-AllStopped test ls h)
  | inr no' ↦ rw no' (select-AllStopped test ls h)
]

observe-stopped :
    (l : Live) (update : SolveUpdate) → l.stopped ≡ true → (observe l update).0.stopped ≡ true
unfolding observe
observe-stopped l update h = ground (arith, h)

start_run_closed : (r : Runner) (job : Job) → r.closed ≡ true → (start_run r job).0 ≡ r
unfolding start_run
start_run_closed r job h = ground (arith, h)

close_runner_closed : (r : Runner) → r.closed ≡ true → close_runner r ≡ r
unfolding close_runner
close_runner_closed r h = ground (arith, h)

close_runner_open :
    (r : Runner)
    → r.closed ≡ false
    → close_runner r ≡ record { running = change_where (λ l. true) stop r.running; closed = true }
unfolding close_runner
close_runner_open r h = ground (arith, h)

react-IsStopped : (r : Runner) (e : Event) → IsStopped r → IsStopped (react r e)
unfolding react IsStopped start_run observe_at end_run cancel cancel_plan cancel_node close_runner
react-IsStopped r (begun job) (closed, all) =
    subst IsStopped (sym (start_run_closed r job closed)) (closed, all)
react-IsStopped r (observed id update) (closed, all) = (
  closed,
  change_where-AllStopped (λ l. l.job_id == id) (λ l. (observe l update).0) r.running
      (λ l h. observe-stopped l update h) all,
)
react-IsStopped r (ended id) (closed, all) =
    (closed, select-AllStopped (λ l. not (l.job_id == id)) r.running all)
react-IsStopped r (job_cancelled id) (closed, all) =
    (closed, change_where-AllStopped (λ l. l.job_id == id) stop r.running (λ l h. refl) all)
react-IsStopped r (plan_cancelled id) (closed, all) =
    (closed, change_where-AllStopped (λ l. l.plan_id == id) stop r.running (λ l h. refl) all)
react-IsStopped r (node_cancelled id) (closed, all) =
    (closed, change_where-AllStopped (λ l. l.node_id == id) stop r.running (λ l h. refl) all)
react-IsStopped r closing (closed, all) =
    subst IsStopped (sym (close_runner_closed r closed)) (closed, all)

react_all-IsStopped : (r : Runner) (es : List Event) → IsStopped r → IsStopped (react_all r es)
unfolding react_all
react_all-IsStopped r [] h = h
react_all-IsStopped r (e ∷ es) h = react_all-IsStopped (react r e) es (react-IsStopped r e h)

-- A runner that was never closed, or closed by `Close`.
unfoldable pub IsSound : Runner → Type 0
unfolding IsStopped
IsSound r = (r.closed ≡ false) ⊎ IsStopped r

react_open-IsSound : (r : Runner) (e : Event) → r.closed ≡ false → IsSound (react r e)
unfolding IsSound react start_run observe_at end_run cancel cancel_plan cancel_node
react_open-IsSound r (begun job) open' = inl (ground (arith, open'))
react_open-IsSound r (observed id update) open' = inl open'
react_open-IsSound r (ended id) open' = inl open'
react_open-IsSound r (job_cancelled id) open' = inl open'
react_open-IsSound r (plan_cancelled id) open' = inl open'
react_open-IsSound r (node_cancelled id) open' = inl open'
react_open-IsSound r closing open' =
    inr (subst IsStopped (sym (close_runner_open r open')) (refl, stop_all-AllStopped r.running))

react-IsSound : (r : Runner) (e : Event) → IsSound r → IsSound (react r e)
unfolding IsSound
react-IsSound r e (inl open') = react_open-IsSound r e open'
react-IsSound r e (inr h) = inr (react-IsStopped r e h)

react_all-IsSound : (r : Runner) (es : List Event) → IsSound r → IsSound (react_all r es)
unfolding react_all
react_all-IsSound r [] h = h
react_all-IsSound r (e ∷ es) h = react_all-IsSound (react r e) es (react-IsSound r e h)

-- In every history of a new runner that ends closed, every solve that is then still running was
-- told to stop, and none that was begun after the close runs without.
pub closed_runner-IsStopped :
    (es : List Event)
    → (react_all new_runner es).closed ≡ true
    → IsStopped (react_all new_runner es)
unfolding IsSound
closed_runner-IsStopped es closed = elim (react_all-IsSound new_runner es (inl refl)) [
  | inl open' ↦ absurd (ground (arith, open', closed))
  | inr h ↦ h
]
