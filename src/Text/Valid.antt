-- ===== src/Text/Valid.antt =====
-- Texts that are valid one after the other are valid together.
use goptivum.Prelude.{List, Option, [], arith, none, refl, some, suc, true, zero, ℕ, ◌++◌, ◌∷◌, ◌≡◌}
use goptivum.Text.{at_rune, utf8_from, utf8_step}

pub utf8_from-append :
    (s : Option (ℕ × ℕ × ℕ)) (xs ys : List ℕ)
    → utf8_from s xs ≡ true
    → utf8_from s (xs ++ ys) ≡ utf8_from at_rune ys
unfolding utf8_from utf8_step
utf8_from-append none xs ys h = absurd (ground arith)
utf8_from-append (some (zero, lo, hi)) [] [] h = refl
utf8_from-append (some (zero, lo, hi)) [] (y ∷ ys) h = refl
utf8_from-append (some (suc need, lo, hi)) [] ys h = absurd (ground arith)
utf8_from-append (some s) (x ∷ xs) ys h = utf8_from-append (utf8_step s x) xs ys h
