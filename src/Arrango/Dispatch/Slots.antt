-- ===== src/Arrango/Dispatch/Slots.antt =====
-- No node is given more solves at once than it takes, whatever the table goes through.
use mathlib.Core.Path.{subst}
use goptivum.Prelude.{
  ==_iff, Bool-cases, List, Result, Result-cases, [], arith, err, if◌then◌else◌, inl, inr, ok, suc,
  ℕ, ◌<◌, ◌==◌, ◌∷◌, ◌≡◌, ◌≤◌,
}
use goptivum.Arrango.Admission.{Admission, Answer, Node, admit}
use goptivum.Arrango.Admission.Pick.{Among, admit-IsGranted}
use goptivum.Arrango.Jobs.{Job, count_active, create}
use goptivum.Arrango.Jobs.Lifecycle.{Write, apply}
use goptivum.Arrango.Jobs.Active.{apply-count_active, create-count_active}
use goptivum.Arrango.Dispatch.{BeginError, Order, begin_solve, new_job, timed}

-- Every node carries at most the solves its row lets it.
abbrev pub WithinSlots : List Node → List Job → Type 0
WithinSlots nodes jobs = (n : Node) → Among n nodes → count_active jobs n.id ≤ n.limits.solves

-- The id is the key of the table of nodes.
abbrev pub KeyedNodes : List Node → Type 0
KeyedNodes nodes = (m n : Node) → Among m nodes → Among n nodes → m.id ≡ n.id → m ≡ n

begin_solve-cases :
    (answers : ℕ → Answer) (nodes : List Node) (jobs : List Job) (order : Order) (id now : ℕ)
    {jobs' : List Job} {a : Admission} {job : Job}
    → begin_solve answers nodes jobs order id now ≡ ok (jobs', a, job)
    → (admit (count_active jobs) answers nodes order.node_id (timed order.request) ≡ ok a)
      × (create jobs id now (new_job order a) ≡ ok (jobs', job))
unfolding begin_solve
begin_solve-cases answers nodes jobs order id now h = ground arith

-- A solve begun on nodes within their slots leaves them within their slots.
begin_solve-WithinSlots :
    (answers : ℕ → Answer) (nodes : List Node) (jobs : List Job) (order : Order) (id now : ℕ)
    {jobs' : List Job} {a : Admission} {job : Job}
    → KeyedNodes nodes
    → WithinSlots nodes jobs
    → begin_solve answers nodes jobs order id now ≡ ok (jobs', a, job)
    → WithinSlots nodes jobs'
begin_solve-WithinSlots answers nodes jobs order id now {jobs'} {a} {job} keyed within h n inside =
    let (admitted, created) = begin_solve-cases answers nodes jobs order id now h in
    let (_, among, _, g) =
      admit-IsGranted (count_active jobs) answers nodes order.node_id (timed order.request)
        admitted in
    let counted : count_active jobs' n.id
        ≡ (if a.node.id == n.id then suc (count_active jobs n.id) else count_active jobs n.id) =
      unfold new_job in create-count_active jobs id now (new_job order a) jobs' job n.id created in
    elim (Bool-cases (a.node.id == n.id)) [
      | inr other ↦ rw (counted, other) (within n inside)
      | inl own ↦
          let same : a.node ≡ n = keyed a.node n among inside ((==_iff a.node.id n.id).0 own) in
          let free =
            subst (λ (m : Node). count_active jobs m.id < m.limits.solves) same g.slot_free in
          rw (counted, own) (omega (arith, free))
    ]

-- What the program does to the table: it begins a solve, or it makes one of its other writes.
pub data Action : Type 0 where
  begun : (ℕ → Answer) → Order → ℕ → ℕ → Action
  written : Write → Action

abbrev pub or_kept : List Job → Result BeginError (List Job × Admission × Job) → List Job
or_kept jobs (ok (jobs', a, job)) = jobs'
or_kept jobs (err e) = jobs

unfoldable pub act : List Node → List Job → Action → List Job
act nodes jobs (begun answers order id now) =
    or_kept jobs (begin_solve answers nodes jobs order id now)
act nodes jobs (written w) = apply jobs w

unfoldable pub act_all : List Node → List Job → List Action → List Job
act_all nodes jobs [] = jobs
act_all nodes jobs (x ∷ xs) = act_all nodes (act nodes jobs x) xs

act-WithinSlots :
    (nodes : List Node) (jobs : List Job) (x : Action)
    → KeyedNodes nodes
    → WithinSlots nodes jobs
    → WithinSlots nodes (act nodes jobs x)
unfolding act
act-WithinSlots nodes jobs (written w) keyed within n inside =
    omega (arith, apply-count_active jobs w n.id, within n inside)
act-WithinSlots nodes jobs (begun answers order id now) keyed within n inside =
    elim (Result-cases (begin_solve answers nodes jobs order id now)) [
      | inr (e, denied) ↦ rw denied (within n inside)
      | inl ((jobs', a, job), accepted) ↦
          rw accepted
            (begin_solve-WithinSlots answers nodes jobs order id now keyed within accepted n inside)
    ]

-- In every history of begun solves and other writes to the table, no node carries more open solves
-- than its row lets it, when none did at the start and the ids of the nodes are distinct.
pub act_all-WithinSlots :
    (nodes : List Node) (jobs : List Job) (history : List Action)
    → KeyedNodes nodes
    → WithinSlots nodes jobs
    → (n : Node) → Among n nodes
    → count_active (act_all nodes jobs history) n.id ≤ n.limits.solves
unfolding act_all
act_all-WithinSlots nodes jobs [] keyed within n inside = within n inside
act_all-WithinSlots nodes jobs (x ∷ xs) keyed within n inside =
    act_all-WithinSlots nodes (act nodes jobs x) xs keyed
      (act-WithinSlots nodes jobs x keyed within) n inside
