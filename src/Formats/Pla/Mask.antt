-- ===== src/Formats/Pla/Mask.antt =====
-- The mask is its own inverse on bytes.
use Prim.Native.Nat.{bit_xor}
use goptivum.Prelude.{
  ==→eq, Bool, Bool-cases, List, [], any, ap, arith, false, get_or, has, inl, inr, length, ltb, not,
  refl, suc, sym, true, zero, ℕ, ◌%◌, ◌&&◌, ◌<◌, ◌==◌, ◌∙◌, ◌∷◌, ◌≡◌,
}
use goptivum.Gpf.Format.{Bytes, IsBytes}
use goptivum.Formats.Pla.{key, mask_from}

-- The numbers below one, from the highest.
unfoldable below : ℕ → List ℕ
below zero = []
below (suc top) = top ∷ below top

has-below : (top i : ℕ) → i < top → has (below top) i ≡ true
unfolding below
has-below zero i lt = absurd (omega (arith, lt))
has-below (suc top) i lt = ground (arith, has-below top i)

-- What a test finds in no list entry, it does not find in one of them.
any-has :
    (bad : ℕ → Bool) (is : List ℕ) (i : ℕ) → any bad is ≡ false → has is i ≡ true → bad i ≡ false
any-has bad [] i none' here = absurd (ground (arith, here))
any-has bad (j ∷ js) i none' here = elim (Bool-cases (j == i)) [
  | inl same ↦ ap bad (sym (==→eq j i same)) ∙ ground (arith, none')
  | inr other ↦ any-has bad js i (ground (arith, none')) (ground (arith, here, other))
]

-- A byte that a byte of the key does not give back, or takes out of range.
abbrev is_lost : ℕ → ℕ → Bool
is_lost b i = let k = get_or key i 0 in not (bit_xor (bit_xor b k) k == b && ltb (bit_xor b k) 256)

abbrev loses : ℕ → Bool
loses b = any (is_lost b) (below 8)

nothing_lost : any loses (below 256) ≡ false
unfolding below
nothing_lost = refl

not_lost : (c b d : ℕ) → not (c == b && ltb d 256) ≡ false → (c ≡ b) × (d < 256)
not_lost c b d h = ground arith

xor_twice :
    (b i : ℕ)
    → b < 256
    → (bit_xor (bit_xor b (get_or key (i % 8) 0)) (get_or key (i % 8) 0) ≡ b)
      × (bit_xor b (get_or key (i % 8) 0) < 256)
xor_twice b i byte =
    let k = get_or key (i % 8) 0 in
    let row = any-has loses (below 256) b nothing_lost (has-below 256 b byte) in
    let cell = any-has (is_lost b) (below 8) (i % 8) row (has-below 8 (i % 8) (omega arith)) in
    not_lost (bit_xor (bit_xor b k) k) b (bit_xor b k) cell

pub mask_from-mask_from : (i : ℕ) (bs : Bytes) → IsBytes bs → mask_from i (mask_from i bs) ≡ bs
unfolding mask_from
mask_from-mask_from i [] h = refl
mask_from-mask_from i (b ∷ bs) h =
    rw ((xor_twice b i h.0).0, mask_from-mask_from (suc i) bs h.1) refl

pub mask_from-IsBytes : (i : ℕ) (bs : Bytes) → IsBytes bs → IsBytes (mask_from i bs)
unfolding mask_from
mask_from-IsBytes i [] h = tt
mask_from-IsBytes i (b ∷ bs) h = ((xor_twice b i h.0).1, mask_from-IsBytes (suc i) bs h.1)

pub length-mask_from : (i : ℕ) (bs : Bytes) → length (mask_from i bs) ≡ length bs
unfolding mask_from
length-mask_from i [] = refl
length-mask_from i (b ∷ bs) = ap suc (length-mask_from (suc i) bs)
