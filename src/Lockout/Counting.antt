-- ===== src/Lockout/Counting.antt =====
-- What failures do to one entry, one after the other.
use goptivum.Prelude.{
  Bool, List, [], ap, arith, false, if◌then◌else◌, length, suc, true, ℕ, ◌+◌, ◌<◌, ◌==◌, ◌∙◌, ◌∷◌,
  ◌≡◌, ◌≤◌, ◌⊎◌,
}
use goptivum.Lockout.{Count, fail_count}

-- The failures at these times, in order, and whether the last of them started a block.
unfoldable pub fail_at : ℕ → ℕ → List ℕ → Count → Count × Bool
fail_at block limit [] c = (c, false)
fail_at block limit (now ∷ []) c = fail_count block limit now c
fail_at block limit (now ∷ later ∷ nows) c =
    fail_at block limit (later ∷ nows) (fail_count block limit now c).0

-- Every time lies in the window that the first failure opened, and no block runs at any of them.
abbrev pub InWindow : ℕ → ℕ → ℕ → List ℕ → Type 0
InWindow since until block [] = Unit
InWindow since until block (now ∷ nows) =
    (now < since + block) × (until ≤ now) × InWindow since until block nows

unfoldable pub last_of : ℕ → List ℕ → ℕ
last_of now [] = now
last_of now (later ∷ nows) = last_of later nows

fail_count_more :
    (block limit now : ℕ) (c : Count)
    → 0 < c.failures
    → c.failures + 1 < limit
    → now < c.since + block
    → c.until ≤ now
    → fail_count block limit now c ≡ (record c { failures = c.failures + 1 }, false)
unfolding fail_count
fail_count_more block limit now c pos few w free = ground arith

counting :
    (block limit : ℕ) (nows : List ℕ) (now : ℕ) (c : Count)
    → 0 < c.failures
    → c.failures + length nows < limit
    → InWindow c.since c.until block (now ∷ nows)
    → fail_at block limit (now ∷ nows) c ≡ (
        if c.failures + suc (length nows) == limit
        then (record { failures = 0; since = 0; until = last_of now nows + block }, true)
        else (record c { failures = c.failures + suc (length nows) }, false))
unfolding fail_at last_of
counting block limit [] now c pos few w = unfold fail_count in ground arith
counting block limit (later ∷ nows) now c pos few w =
    let c' : Count = record c { failures = c.failures + 1 } in
    ap (λ (r : Count × Bool). fail_at block limit (later ∷ nows) r.0)
      (fail_count_more block limit now c pos (omega arith) w.0 w.1)
    ∙ counting block limit nows later c' (omega arith) (omega arith) w.2
    ∙ ground arith

-- An entry that nothing blocks and whose window is over, or that has no failure: the next failure
-- opens a window, and the failures that follow in it are counted. The limit's failure, and none
-- before it, starts a block, which ends one block's length after that failure.
pub fail_at_window :
    (block limit : ℕ) (now : ℕ) (nows : List ℕ) (c : Count)
    → (c.failures ≡ 0) ⊎ (c.since + block ≤ now)
    → c.until ≤ now
    → length nows < limit
    → InWindow now c.until block nows
    → fail_at block limit (now ∷ nows) c ≡ (
        if suc (length nows) == limit
        then (record { failures = 0; since = 0; until = last_of now nows + block }, true)
        else (record { failures = suc (length nows); since = now; until = c.until }, false))
unfolding fail_at last_of
fail_at_window block limit now [] c fresh free few w = unfold fail_count in ground arith
fail_at_window block limit now (later ∷ nows) c fresh free few w =
    let c' : Count = record { failures = 1; since = now; until = c.until } in
    let first : fail_count block limit now c ≡ (c', false) = unfold fail_count in ground arith in
    ap (λ (r : Count × Bool). fail_at block limit (later ∷ nows) r.0) first
    ∙ counting block limit nows later c' (omega arith) (omega arith) w
    ∙ ground arith

-- A failure while a block runs changes nothing and starts nothing: no block is ever extended.
pub fail_count_blocked :
    (block limit now : ℕ) (c : Count) → now < c.until → fail_count block limit now c ≡ (c, false)
unfolding fail_count
fail_count_blocked block limit now c h = ground arith

-- A failure that starts a block ends it one block's length later.
pub fail_count-until :
    (block limit now : ℕ) (c : Count)
    → (fail_count block limit now c).1 ≡ true
    → (fail_count block limit now c).0.until ≡ now + block
unfolding fail_count
fail_count-until block limit now c h = ground arith

-- A failure never brings the end of a block forward.
pub fail_count_later :
    (block limit now end : ℕ) (c : Count)
    → end ≤ c.until
    → end ≤ (fail_count block limit now c).0.until
unfolding fail_count
fail_count_later block limit now end c h = ground arith
