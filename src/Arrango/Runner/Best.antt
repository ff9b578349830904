-- ===== src/Arrango/Runner/Best.antt =====
-- The preview of a running solve is the best timetable that arrived on a solution frame.
use goptivum.Prelude.{
  Bool, Bool-cases, List, Option, [], ap, arith, if◌then◌else◌, inl, inr, length, none, refl,
  select, some, suc, sym, ℕ, ◌%◌, ◌&&◌, ◌+◌, ◌^◌, ◌∙◌, ◌∷◌, ◌≡◌,
}
use goptivum.Integers.{ℤ}
use goptivum.Solve.Stream.{SolveUpdate, is_some}
use goptivum.Solve.Best.{arrived, best_of, better}
use goptivum.Arrango.Jobs.{Job}
use goptivum.Arrango.Runner.{Live, is_solution, live_of, observe}

unfoldable pub observe_all : Live → List SolveUpdate → Live
observe_all l [] = l
observe_all l (u ∷ us) = observe_all (observe l u).0 us

-- The timetable that a preview shows.
unfoldable pub shown : Live → Option (ℤ × ℕ)
shown l = elim l.preview.snapshot [ none ↦ none | some s ↦ some (l.objective, s) ]

-- The frames that carry a timetable on the way.
abbrev pub is_shown_frame : SolveUpdate → Bool
is_shown_frame u = is_solution u.phase && is_some u.snapshot

observe-shown :
    (l : Live) (u : SolveUpdate)
    → (shown (observe l u).0 ≡ (if is_shown_frame u then better (shown l) (arrived u) else shown l))
      × ((observe l u).0.preview.received
          ≡ (if is_shown_frame u then suc l.preview.received % 2 ^ 32 else l.preview.received))
unfolding observe shown better arrived
observe-shown l u = ground arith

best_none : (o : Option (ℤ × ℕ)) → o ≡ best_of o []
unfolding best_of
best_none o = refl

best_step :
    (l : Live) (u : SolveUpdate) (us : List SolveUpdate)
    → best_of (shown l) (select is_shown_frame (u ∷ us))
      ≡ best_of (shown (observe l u).0) (select is_shown_frame us)
unfolding best_of
best_step l u us = elim (Bool-cases (is_shown_frame u)) [
  | inl yes' ↦ rw (yes', (observe-shown l u).0, yes') refl
  | inr no' ↦ rw (no', (observe-shown l u).0, no') refl
]

count_step :
    (l : Live) (u : SolveUpdate) (us : List SolveUpdate)
    → (l.preview.received + length (select is_shown_frame (u ∷ us))) % 2 ^ 32
      ≡ ((observe l u).0.preview.received + length (select is_shown_frame us)) % 2 ^ 32
count_step l u us = elim (Bool-cases (is_shown_frame u)) [
  | inl yes' ↦ ground (arith, yes', observe-shown l u)
  | inr no' ↦ ground (arith, no', observe-shown l u)
]

observe_all-shown :
    (l : Live) (us : List SolveUpdate)
    → l.preview.received % 2 ^ 32 ≡ l.preview.received
    → (shown (observe_all l us) ≡ best_of (shown l) (select is_shown_frame us))
      × ((observe_all l us).preview.received
          ≡ (l.preview.received + length (select is_shown_frame us)) % 2 ^ 32)
unfolding observe_all
observe_all-shown l [] small = (best_none (shown l), omega arith)
observe_all-shown l (u ∷ us) small =
    let small' : (observe l u).0.preview.received % 2 ^ 32 ≡ (observe l u).0.preview.received =
      ground (arith, observe-shown l u) in
    let (rest, more) = observe_all-shown (observe l u).0 us small' in
    (rest ∙ sym (best_step l u us), more ∙ sym (count_step l u us))

-- What a person is shown of a running solve, after any frames, is the best timetable that came on
-- a solution frame, the later of two equal ones, and how many such frames came, modulo 2^32.
pub observe_all-best_of :
    (job : Job) (us : List SolveUpdate)
    → (shown (observe_all (live_of job) us) ≡ best_of none (select is_shown_frame us))
      × ((observe_all (live_of job) us).preview.received
          ≡ length (select is_shown_frame us) % 2 ^ 32)
unfolding live_of shown
observe_all-best_of job us =
    let (best, count) = observe_all-shown (live_of job) us refl in
    (best, count ∙ ap (λ (n : ℕ). n % 2 ^ 32) (omega arith))
