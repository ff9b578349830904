-- ===== src/Text/Lines.antt =====
-- Splitting, cutting and trimming at a byte that a text does not have.
use goptivum.Prelude.{
  ==_refl, List, [], ap, append-nil, append_assoc, arith, false, has, refl, some, ℕ, ◌++◌, ◌∷◌, ◌≡◌,
}
use goptivum.Text.{cut_on, split_on, trim_suffix}

pub split_on-append :
    (sep : ℕ) (part line rest : List ℕ)
    → has line sep ≡ false
    → split_on sep part (line ++ sep ∷ rest) ≡ (part ++ line) ∷ split_on sep [] rest
unfolding split_on
split_on-append sep part [] rest h = ground (arith, ==_refl sep, append-nil part)
split_on-append sep part (b ∷ line) rest h =
    ground (arith, split_on-append sep (part ++ b ∷ []) line rest, append_assoc part (b ∷ []) line)

pub split_on_last :
    (sep : ℕ) (part line : List ℕ)
    → has line sep ≡ false
    → split_on sep part line ≡ (part ++ line) ∷ []
unfolding split_on
split_on_last sep part [] h = rw (append-nil part) refl
split_on_last sep part (b ∷ line) h =
    ground (arith, split_on_last sep (part ++ b ∷ []) line, append_assoc part (b ∷ []) line)

pub cut_on-append :
    (sep : ℕ) (part before rest : List ℕ)
    → has before sep ≡ false
    → cut_on sep part (before ++ sep ∷ rest) ≡ some (part ++ before, rest)
unfolding cut_on
cut_on-append sep part [] rest h = rw (==_refl sep, append-nil part) refl
cut_on-append sep part (b ∷ before) rest h =
    ground
      (arith, cut_on-append sep (part ++ b ∷ []) before rest, append_assoc part (b ∷ []) before)

pub trim_suffix-append : (sep : ℕ) (bs : List ℕ) → trim_suffix sep (bs ++ sep ∷ []) ≡ bs
unfolding trim_suffix
trim_suffix-append sep [] = rw (==_refl sep) refl
trim_suffix-append sep (b ∷ []) = rw (==_refl sep) refl
trim_suffix-append sep (b ∷ c ∷ bs) = ap (λ xs. b ∷ xs) (trim_suffix-append sep (c ∷ bs))
