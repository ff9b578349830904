-- ===== src/Integers.antt =====
-- Go's int64 where it is only compared: integers over the native numbers, `negsuc n` is -(n + 1).
use goptivum.Prelude.{Bool, arith, false, ltb, true, ℕ, ◌≡◌}

pub data ℤ : Type 0 where
  pos negsuc : ℕ → ℤ

unfoldable pub ltb_ℤ : ℤ → ℤ → Bool
ltb_ℤ (pos m) (pos n) = ltb m n
ltb_ℤ (pos m) (negsuc n) = false
ltb_ℤ (negsuc m) (pos n) = true
ltb_ℤ (negsuc m) (negsuc n) = ltb n m

pub ltb_ℤ_irrefl : (a : ℤ) → ltb_ℤ a a ≡ false
unfolding ltb_ℤ
ltb_ℤ_irrefl a = ground arith

-- What is not below `c` has nothing above it that is.
pub ltb_ℤ_above : (a b c : ℤ) → ltb_ℤ a b ≡ true → ltb_ℤ a c ≡ false → ltb_ℤ b c ≡ false
unfolding ltb_ℤ
ltb_ℤ_above a b c less h = ground arith

pub ltb_ℤ_at_least : (a b c : ℤ) → ltb_ℤ a b ≡ false → ltb_ℤ b c ≡ false → ltb_ℤ a c ≡ false
unfolding ltb_ℤ
ltb_ℤ_at_least a b c first next = ground arith
