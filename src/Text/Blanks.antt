-- ===== src/Text/Blanks.antt =====
-- Blanks before a text are trimmed.
use mathlib.Core.List.{reverse, reverse_aux}
use goptivum.Prelude.{
  List, [], ap, arith, false, has, refl, replicate, suc, take, true, zero, ℕ, ◌++◌, ◌||◌, ◌∷◌, ◌≡◌,
}
use goptivum.Text.{is_space2, is_space3, space_prefix, space_suffix, trim_by, trim_space}

space_prefix_blank : (bs : List ℕ) → space_prefix (32 ∷ bs) ≡ 1
unfolding space_prefix
space_prefix_blank [] = refl
space_prefix_blank (b ∷ []) = refl
space_prefix_blank (b ∷ c ∷ bs) = refl

trim_by_blanks :
    (n : ℕ) (bs : List ℕ)
    → trim_by space_prefix 0 (replicate n 32 ++ bs) ≡ trim_by space_prefix 0 bs
unfolding trim_by
trim_by_blanks zero bs = refl
trim_by_blanks (suc n) bs =
    rw (trim_by, space_prefix_blank (replicate n 32 ++ bs)) (trim_by_blanks n bs)

pub trim_space_blanks : (n : ℕ) (bs : List ℕ) → trim_space (replicate n 32 ++ bs) ≡ trim_space bs
unfolding trim_space
trim_space_blanks n bs =
    ap (λ xs. reverse (trim_by space_suffix 0 (reverse xs))) (trim_by_blanks n bs)

has-trim_by_round :
    (measure : List ℕ → ℕ) (c n b : ℕ) (bs : List ℕ)
    → measure (b ∷ bs) ≡ n
    → has (take n (b ∷ bs)) c ≡ false
    → has (b ∷ bs) c ≡ true
    → ((k : ℕ) → has (take k bs) c ≡ false → has bs c ≡ true → has (trim_by measure k bs) c ≡ true)
    → has (trim_by measure 0 (b ∷ bs)) c ≡ true
unfolding trim_by
has-trim_by_round measure c zero b bs q h e rest = rw (trim_by, q) e
has-trim_by_round measure c (suc k) b bs q h e rest =
    rw (trim_by, q) (rest k (ground (arith, h)) (ground (arith, h, e)))

-- A byte that no white space has is not trimmed away.
has-trim_by :
    (measure : List ℕ → ℕ) (c k : ℕ) (bs : List ℕ)
    → ((xs : List ℕ) → has (take (measure xs) xs) c ≡ false)
    → has (take k bs) c ≡ false
    → has bs c ≡ true
    → has (trim_by measure k bs) c ≡ true
unfolding trim_by
has-trim_by measure c k [] m h e = absurd (ground arith)
has-trim_by measure c (suc k) (b ∷ bs) m h e =
    has-trim_by measure c k bs m (ground arith) (ground arith)
has-trim_by measure c zero (b ∷ bs) m h e =
    has-trim_by_round measure c (measure (b ∷ bs)) b bs refl (m (b ∷ bs)) e
      (λ k h e. has-trim_by measure c k bs m h e)

has-reverse_aux : (xs ys : List ℕ) (c : ℕ) → has (reverse_aux xs ys) c ≡ (has xs c || has ys c)
has-reverse_aux [] ys c = refl
has-reverse_aux (x ∷ xs) ys c = ground (arith, has-reverse_aux xs (x ∷ ys) c)

colon_prefix : (xs : List ℕ) → has (take (space_prefix xs) xs) 58 ≡ false
unfolding space_prefix is_space2 is_space3
colon_prefix [] = refl
colon_prefix (a ∷ []) = ground arith
colon_prefix (a ∷ b ∷ []) = ground arith
colon_prefix (a ∷ b ∷ c ∷ xs) = ground arith

colon_suffix : (xs : List ℕ) → has (take (space_suffix xs) xs) 58 ≡ false
unfolding space_suffix is_space2 is_space3
colon_suffix [] = refl
colon_suffix (a ∷ []) = ground arith
colon_suffix (a ∷ b ∷ []) = ground arith
colon_suffix (a ∷ b ∷ c ∷ xs) = ground arith

-- A text with a colon keeps it when it is trimmed.
pub has-trim_space : (bs : List ℕ) → has bs 58 ≡ true → has (trim_space bs) 58 ≡ true
unfolding trim_space
has-trim_space bs h =
    let front = has-trim_by space_prefix 58 0 bs colon_prefix refl h in
    let turned = has-reverse_aux (trim_by space_prefix 0 bs) [] 58 in
    let back =
      has-trim_by space_suffix 58 0 (reverse (trim_by space_prefix 0 bs)) colon_suffix refl
        (ground (arith, turned, front)) in
    ground (
      arith,
      has-reverse_aux (trim_by space_suffix 0 (reverse (trim_by space_prefix 0 bs))) [] 58,
      back,
    )
