-- ===== src/Solve/Best.antt =====
-- What a stream leaves: a schedule exactly if one arrived, and the best of those that arrived.
use mathlib.Core.Path.{subst}
use goptivum.Prelude.{
  List, Option, [], ap, arith, false, if◌then◌else◌, none, refl, some, sym, true, ℕ, ◌∙◌, ◌∷◌, ◌≡◌,
  ◌≢◌,
}
use goptivum.Integers.{ltb_ℤ, ltb_ℤ_above, ltb_ℤ_at_least, ltb_ℤ_irrefl, ℤ}
use goptivum.Solve.Stream.{
  SolveResult, SolveUpdate, absorb, absorb_all, is_some, no_result, progress,
}

-- The timetable a frame is evidence of: only a solution or the final frame counts.
unfoldable pub arrived : SolveUpdate → Option (ℤ × ℕ)
arrived update = elim update.phase [
  | progress ↦ none
  | _ ↦ elim update.snapshot [ none ↦ none | some s ↦ some (update.objective, s) ]
]

-- The specification: of two timetables the lower objective, and of equal ones the later.
unfoldable pub better : Option (ℤ × ℕ) → Option (ℤ × ℕ) → Option (ℤ × ℕ)
better old none = old
better none (some new) = some new
better (some (o, s)) (some (n, t)) = if ltb_ℤ o n then some (o, s) else some (n, t)

unfoldable pub best_of : Option (ℤ × ℕ) → List SolveUpdate → Option (ℤ × ℕ)
best_of old [] = old
best_of old (u ∷ us) = best_of (better old (arrived u)) us

-- The timetable that a result holds.
unfoldable pub held : SolveResult → Option (ℤ × ℕ)
held r = elim r.snapshot [
  | none ↦ none
  | some s ↦ if r.has_schedule then some (r.objective, s) else none
]

-- A result says that it has a schedule exactly if it holds one.
pub record IsResult (r : SolveResult) : Type 0 where
  pub present : r.has_schedule ≡ true → r.snapshot ≢ none
  pub absent : r.has_schedule ≡ false → r.snapshot ≡ none

absorb-held :
    (r : SolveResult) (u : SolveUpdate)
    → IsResult r
    → (held (absorb r u) ≡ better (held r) (arrived u)) × IsResult (absorb r u)
unfolding absorb held better arrived
absorb-held r u h = ground arith

absorb_all-held :
    (r : SolveResult) (us : List SolveUpdate)
    → IsResult r
    → (held (absorb_all r us) ≡ best_of (held r) us) × IsResult (absorb_all r us)
unfolding absorb_all best_of
absorb_all-held r [] h = (refl, h)
absorb_all-held r (u ∷ us) h =
    let (now, valid) = absorb-held r u h in
    let (rest, valid') = absorb_all-held (absorb r u) us valid in
    (rest ∙ ap (λ b. best_of b us) now, valid')

-- After any stream of frames the result holds exactly the best timetable that arrived on a solution
-- or final frame, the later of two equal ones, and none if none arrived; and it claims to have a
-- schedule exactly then, whatever status or solution count the frames reported.
pub absorb_all-best_of :
    (us : List SolveUpdate)
    → (held (absorb_all no_result us) ≡ best_of none us)
      × ((absorb_all no_result us).has_schedule ≡ is_some (best_of none us))
unfolding held
absorb_all-best_of us =
    let (same, valid) = absorb_all-held no_result us (ground arith) in
    (same, claims (absorb_all no_result us) valid ∙ ap is_some same)
  where
    claims : (r : SolveResult) → IsResult r → r.has_schedule ≡ is_some (held r)
    claims r v = ground arith

-- No timetable there has a lower objective.
abbrev pub NoneBelow : ℤ → Option (ℤ × ℕ) → Type 0
NoneBelow n none = Unit
NoneBelow n (some (o, s)) = ltb_ℤ o n ≡ false

abbrev pub NoneBelowAll : ℤ → List SolveUpdate → Type 0
NoneBelowAll n [] = Unit
NoneBelowAll n (u ∷ us) = NoneBelow n (arrived u) × NoneBelowAll n us

NoneBelow-better :
    (n : ℤ) (old new : Option (ℤ × ℕ))
    → NoneBelow n (better old new)
    → NoneBelow n old × NoneBelow n new
unfolding better
NoneBelow-better n none none h = (h, h)
NoneBelow-better n none (some (o, s)) h = (tt, h)
NoneBelow-better n (some (o, s)) none h = (h, tt)
NoneBelow-better n (some (o, s)) (some (o', s')) h =
    ground (arith, ltb_ℤ_above o o' n, ltb_ℤ_at_least o o' n)

best_of_least :
    (us : List SolveUpdate) (old : Option (ℤ × ℕ)) (n : ℤ) (t : ℕ)
    → best_of old us ≡ some (n, t)
    → NoneBelow n old × NoneBelowAll n us
unfolding best_of
best_of_least [] old n t e = (subst (NoneBelow n) (sym e) (ltb_ℤ_irrefl n), tt)
best_of_least (u ∷ us) old n t e =
    let (first, rest) = best_of_least us (better old (arrived u)) n t e in
    let (olds, new) = NoneBelow-better n old (arrived u) first in (olds, (new, rest))

-- No timetable of the stream has a lower objective than the one that the result keeps.
pub absorb_all_least :
    (us : List SolveUpdate) (n : ℤ) (t : ℕ)
    → held (absorb_all no_result us) ≡ some (n, t)
    → NoneBelowAll n us
absorb_all_least us n t e = (best_of_least us none n t (sym (absorb_all-best_of us).0 ∙ e)).1
