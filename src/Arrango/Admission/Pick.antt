-- ===== src/Arrango/Admission/Pick.antt =====
-- What an admission grants, and which node it picks.
use mathlib.Core.Path.{subst}
use goptivum.Prelude.{
  Bool, Bool-cases, List, Option-cases, Result-cases, [], ap, arith, err, false, if◌then◌else◌, inl,
  inr, none, not, ok, refl, select, some, sym, true, ℕ, ◌++◌, ◌<◌, ◌==◌, ◌∙◌, ◌∷◌, ◌≡◌, ◌≤◌, ◌⊎◌,
}
use goptivum.Solve.Capacity.{Capacity, clamp_workers, clamp_workers_bounds, max_workers}
use goptivum.Solve.Baseline.{check_baseline}
use goptivum.Arrango.Admission.{
  Admission, AdmitError, Answer, Node, Request, Seen, admit, admit_named, admit_node, admit_on,
  ceiling_for, find_node, no_capacity, none_seen, note, pick, refusal_of, solve_ceiling,
  worker_ceiling_of,
}

-- What holds of every admission on a node that runs `running` solves of this server.
pub record IsGranted (running : ℕ) (node : Node) (a : Admission) : Type 0 where
  pub on_node : a.node ≡ node
  pub slot_free : running < node.limits.solves
  pub ceiling_free :
      (solve_ceiling a.capacity.ceilings ≡ 0) ⊎ (running < solve_ceiling a.capacity.ceilings)
  pub some_worker : 0 < a.workers
  pub own_workers : (node.limits.workers ≡ 0) ⊎ (a.workers ≤ node.limits.workers)
  pub memory : (node.limits.workers ≡ 0) ⊎ (a.workers ≤ a.capacity.affordable_workers)
  pub node_workers :
      (node.limits.workers ≡ 0)
      ⊎ ((worker_ceiling_of a.capacity.ceilings ≡ 0)
          ⊎ (a.workers ≤ worker_ceiling_of a.capacity.ceilings))
  pub sane : a.workers ≤ max_workers

admit_on-guards :
    (running : ℕ) (node : Node) (answer : Answer) (request : Request) {a : Admission}
    → admit_on running node answer request ≡ ok a
    → (running < node.limits.solves)
      × ((solve_ceiling a.capacity.ceilings ≡ 0) ⊎ (running < solve_ceiling a.capacity.ceilings))
      × (0 < a.capacity.affordable_workers)
      × (a.node ≡ node)
      × (a.workers
          ≡ clamp_workers
              (if request.num_workers == 0 then node.limits.workers else request.num_workers)
              (ceiling_for node a.capacity))
unfolding admit_on
admit_on-guards running node answer request h = ground arith

ceiling_for_bounds :
    (node : Node) (c : Capacity)
    → 0 < node.limits.workers
    → 0 < c.affordable_workers
    → (0 < ceiling_for node c)
      × (ceiling_for node c ≤ node.limits.workers)
      × (ceiling_for node c ≤ c.affordable_workers)
      × (0 < worker_ceiling_of c.ceilings → ceiling_for node c ≤ worker_ceiling_of c.ceilings)
unfolding ceiling_for
ceiling_for_bounds node c h k = ground arith

-- Whatever is admitted on a node has a free slot under this server's limit and under the node's
-- own, where it sets one, and gets at least one worker and at most `max_workers`; when the server's
-- limit on workers is not 0, also at most that limit, what the node's memory affords, and the
-- node's ceiling on workers where it sets one.
pub admit_on-IsGranted :
    (running : ℕ) (node : Node) (answer : Answer) (request : Request) {a : Admission}
    → admit_on running node answer request ≡ ok a
    → IsGranted running node a
admit_on-IsGranted running node answer request {a} h =
    let (slot, ceiling, memory, same, workers) = admit_on-guards running node answer request h in
    let asked = if request.num_workers == 0 then node.limits.workers else request.num_workers in
    let bounds = clamp_workers_bounds asked (ceiling_for node a.capacity) in
    record {
      on_node = same;
      slot_free = slot;
      ceiling_free = ceiling;
      some_worker = rw workers bounds.0;
      own_workers = ground (arith, ceiling_for_bounds node a.capacity, workers, bounds, memory);
      memory = ground (arith, ceiling_for_bounds node a.capacity, workers, bounds, memory);
      node_workers = ground (arith, ceiling_for_bounds node a.capacity, workers, bounds, memory);
      sane = rw workers bounds.1;
    }

-- A node of a list.
abbrev pub Among : Node → List Node → Type 0
Among n [] = ⊥
Among n (m ∷ ms) = (m ≡ n) ⊎ Among n ms

Among-select :
    (p : Node → Bool) (n : Node) (ms : List Node)
    → Among n (select p ms)
    → Among n ms × (p n ≡ true)
Among-select p n [] h = absurd h
Among-select p n (m ∷ ms) h = elim (Bool-cases (p m)) [
  | inr skip ↦ let (inside, good) = Among-select p n ms (rw skip at h) in (inr inside, good)
  | inl take_it ↦ elim (skipped take_it) [
    | inl e ↦ (inl e, ap p (sym e) ∙ take_it)
    | inr rest ↦ let (inside, good) = Among-select p n ms rest in (inr inside, good)
  ]
]
  where
    skipped : p m ≡ true → (m ≡ n) ⊎ Among n (select p ms)
    skipped e = rw e at h

module _ (running : ℕ → ℕ) (answers : ℕ → Answer) where
  -- The nodes before the one that was picked were all refused, in a way that lets the next be tried.
  abbrev pub AllPassed : Request → Seen → List Node → Type 0
  AllPassed request seen [] = Unit
  AllPassed request seen (n ∷ ns) =
      (e : AdmitError) × (seen' : Seen) × (admit_node running answers request n ≡ err e)
      × (note seen e ≡ some seen')
      × AllPassed request seen' ns

  pick_admitted :
      (request : Request) (seen : Seen) (n : Node) (ns : List Node) {a : Admission}
      → admit_node running answers request n ≡ ok a
      → pick running answers request seen (n ∷ ns) ≡ ok a
  unfolding pick
  pick_admitted request seen n ns e = rw (e, pick)

  pick_passed :
      (request : Request) (seen : Seen) (n : Node) (ns : List Node) {e : AdmitError} {seen' : Seen}
      → admit_node running answers request n ≡ err e
      → note seen e ≡ some seen'
      → pick running answers request seen (n ∷ ns) ≡ pick running answers request seen' ns
  unfolding pick
  pick_passed request seen n ns h k = rw (h, pick) (rw (k, pick))

  pick_ended :
      (request : Request) (seen : Seen) (n : Node) (ns : List Node) {e : AdmitError}
      → admit_node running answers request n ≡ err e
      → note seen e ≡ none
      → pick running answers request seen (n ∷ ns) ≡ err e
  unfolding pick
  pick_ended request seen n ns h k = rw (h, pick) (rw (k, pick))

  -- The node picked is the first of the candidates that admits the solve: each one before it
  -- refused for a reason of its own (full, silent, outdated or too short), never the request.
  pub pick_first :
      (request : Request) (seen : Seen) (nodes : List Node) {a : Admission}
      → pick running answers request seen nodes ≡ ok a
      → (before : List Node) × (n : Node) × (after : List Node) × (nodes ≡ before ++ n ∷ after)
        × AllPassed request seen before
        × (admit_node running answers request n ≡ ok a)
  pick_first request seen [] h = unfold pick in absurd (cc)
  pick_first request seen (n ∷ ns) {a} h =
      elim (Result-cases (admit_node running answers request n)) [
        | inl (b, admitted) ↦
            ([], n, ns, refl, tt, admitted ∙ sym (pick_admitted request seen n ns admitted) ∙ h)
        | inr (e, refused) ↦ elim (Option-cases (note seen e)) [
          | inl final ↦ absurd (cc (pick_ended request seen n ns refused final, h))
          | inr (seen', noted) ↦
              let (before, m, after, whole, passed, admitted) =
                pick_first request seen' ns
                  (sym (pick_passed request seen n ns refused noted) ∙ h) in
              (
                n ∷ before,
                m,
                after,
                ap (λ l. n ∷ l) whole,
                (e, seen', refused, noted, passed),
                admitted,
              )
        ]
      ]

  -- Once a node was full, the answer is that no node has room, unless one admits the solve or
  -- refuses the request itself: being full takes precedence over being silent, short or outdated.
  pub pick_busy :
      (request : Request) (seen : Seen) (nodes : List Node) {e : AdmitError}
      → seen.busy ≡ true
      → pick running answers request seen nodes ≡ err e
      → (e ≡ no_capacity)
        ⊎ ((n : Node) × Among n nodes
            × (admit_node running answers request n ≡ err e)
            × (note none_seen e ≡ none))
  pick_busy request seen [] {e} busy h = inl (unfold pick refusal_of in ground arith)
  pick_busy request seen (n ∷ ns) {e} busy h =
      elim (Result-cases (admit_node running answers request n)) [
        | inl (b, admitted) ↦ absurd (cc (pick_admitted request seen n ns admitted, h))
        | inr (f, refused) ↦ elim (Option-cases (note seen f)) [
          | inl final ↦
              let same : f ≡ e = cc (pick_ended request seen n ns refused final, h) in
              inr (n, inl refl, cc (refused, same), ends seen e (ap (note seen) (sym same) ∙ final))
          | inr (seen', noted) ↦
              elim (pick_busy request seen' ns (stays seen seen' f busy noted)
                (sym (pick_passed request seen n ns refused noted) ∙ h)) [
                  | inl full ↦ inl full
                  | inr (m, inside, refusal, final) ↦ inr (m, inr inside, refusal, final)
                ]
        ]
      ]
    where
      ends : (s : Seen) (f : AdmitError) → note s f ≡ none → note none_seen f ≡ none
      ends s f k = unfold note in ground arith

      stays : (s s' : Seen) (f : AdmitError) → s.busy ≡ true → note s f ≡ some s' → s'.busy ≡ true
      stays s s' f b k = unfold note in ground arith

Among-middle : (before after : List Node) (n : Node) → Among n (before ++ n ∷ after)
Among-middle [] after n = inl refl
Among-middle (m ∷ before) after n = inr (Among-middle before after n)

find_node-Among :
    (nodes : List Node) (id : ℕ) (n : Node) → find_node nodes id ≡ some n → Among n nodes
unfolding find_node
find_node-Among [] id n h = absurd (cc)
find_node-Among (m ∷ ms) id n h = ground (arith, find_node-Among ms id n)

module _ (running : ℕ → ℕ) (answers : ℕ → Answer) where
  admit-cases :
      (nodes : List Node) (id : ℕ) (request : Request) {a : Admission}
      → admit running answers nodes id request ≡ ok a
      → (check_baseline request.lessons request.ignore_previous ≡ ok tt)
        × ((pick running answers request none_seen (select (λ n. not n.revoked) nodes) ≡ ok a)
            ⊎ ((n : Node) × (find_node nodes id ≡ some n)
                × (n.revoked ≡ false)
                × (admit_node running answers request n ≡ ok a)))
  unfolding admit admit_named
  admit-cases nodes id request h = ground arith

  -- An admission is on a paired node that is not revoked, of a request whose baseline passes the
  -- check, with a free slot and with workers that are granted on that node.
  pub admit-IsGranted :
      (nodes : List Node) (id : ℕ) (request : Request) {a : Admission}
      → admit running answers nodes id request ≡ ok a
      → (check_baseline request.lessons request.ignore_previous ≡ ok tt)
        × Among a.node nodes
        × (a.node.revoked ≡ false)
        × IsGranted (running a.node.id) a.node a
  admit-IsGranted nodes id request {a} h =
      let (baseline, how) = admit-cases nodes id request h in
      let (n, inside, trusted, admitted) = chosen how in
      let g = admit_on-IsGranted (running n.id) n (answers n.id) request admitted in
      let same : n ≡ a.node = sym g.on_node in
      (
        baseline,
        subst (λ m. Among m nodes) same inside,
        subst (λ (m : Node). m.revoked ≡ false) same trusted,
        subst (λ (m : Node). IsGranted (running m.id) m a) same g,
      )
    where
      chosen :
          ((pick running answers request none_seen (select (λ n. not n.revoked) nodes) ≡ ok a)
            ⊎ ((n : Node) × (find_node nodes id ≡ some n)
                × (n.revoked ≡ false)
                × (admit_node running answers request n ≡ ok a)))
          → (n : Node) × Among n nodes
            × (n.revoked ≡ false)
            × (admit_node running answers request n ≡ ok a)
      chosen (inr (n, found, trusted, admitted)) =
          (n, find_node-Among nodes id n found, trusted, admitted)
      chosen (inl picked) =
          let (before, n, after, whole, passed, admitted) =
            pick_first running answers request none_seen (select (λ n. not n.revoked) nodes)
              picked in
          let (inside, trusted) =
            Among-select (λ n. not n.revoked) n nodes
              (subst (Among n) (sym whole) (Among-middle before after n)) in
          (n, inside, ground (arith, trusted), admitted)
