-- ===== src/Text.antt =====
-- What the program uses of Go's `strings` and `unicode/utf8`, over byte strings.
pub mod Lines
pub mod Valid
pub mod Blanks
use mathlib.Core.List.{reverse}
use Prim.Native.Char.{code}
use Prim.Native.String.{String}
use goptivum.Prelude.{
  Bool, List, Option, [], false, has, if◌then◌else◌, leb, ltb, none, some, suc, true, zero, ℕ, ◌&&◌,
  ◌++◌, ◌==◌, ◌||◌, ◌∷◌,
}

-- The bytes of an ASCII literal.
abbrev pub codes : String → List ℕ
codes String.[] = []
codes (String.◌∷◌ c s) = code c ∷ codes s

-- Inclusive range test.
abbrev pub within : ℕ → ℕ → ℕ → Bool
within lo hi b = leb lo b && leb b hi

-- The bytes that must follow a lead byte: how many, and the range of the first of them.
unfoldable pub lead : ℕ → Option (ℕ × ℕ × ℕ)
lead b =
    if ltb b 0x80
    then some (0, 0x80, 0xbf)
    else if within 0xc2 0xdf b
    then some (1, 0x80, 0xbf)
    else if b == 0xe0
    then some (2, 0xa0, 0xbf)
    else if b == 0xed
    then some (2, 0x80, 0x9f)
    else if within 0xe1 0xef b
    then some (2, 0x80, 0xbf)
    else if b == 0xf0
    then some (3, 0x90, 0xbf)
    else if within 0xf1 0xf3 b
    then some (3, 0x80, 0xbf)
    else if b == 0xf4
    then some (3, 0x80, 0x8f)
    else none

-- One byte of a text, with the continuation bytes still due; `none` is invalid.
unfoldable pub utf8_step : ℕ × ℕ × ℕ → ℕ → Option (ℕ × ℕ × ℕ)
unfolding lead
utf8_step (zero, lo, hi) b = lead b
utf8_step (suc need, lo, hi) b = if within lo hi b then some (need, 0x80, 0xbf) else none

unfoldable pub utf8_from : Option (ℕ × ℕ × ℕ) → List ℕ → Bool
utf8_from none bs = false
utf8_from (some (need, lo, hi)) [] = need == 0
utf8_from (some s) (b ∷ bs) = utf8_from (utf8_step s b) bs

abbrev pub at_rune : Option (ℕ × ℕ × ℕ)
at_rune = some (0, 0x80, 0xbf)

-- utf8.Valid
abbrev pub utf8_valid : List ℕ → Bool
utf8_valid bs = utf8_from at_rune bs

-- ASCII white space: tab, line feed, vertical tab, form feed, carriage return and blank.
abbrev pub is_ascii_space : ℕ → Bool
is_ascii_space b = within 9 13 b || b == 32

-- The other white space of unicode.IsSpace, of two and of three bytes.
unfoldable pub is_space2 : ℕ → ℕ → Bool
is_space2 a b = a == 0xc2 && (b == 0x85 || b == 0xa0)

unfoldable pub is_space3 : ℕ → ℕ → ℕ → Bool
is_space3 a b c =
    (a == 0xe1 && (b == 0x9a && c == 0x80))
    || ((a == 0xe2
          && (b == 0x80 && (within 0x80 0x8a c || (c == 0xa8 || (c == 0xa9 || c == 0xaf)))))
        || ((a == 0xe2 && (b == 0x81 && c == 0x9f)) || (a == 0xe3 && (b == 0x80 && c == 0x80))))

-- How many bytes the white space at the head of a text takes, 0 for none. The second reads a text
-- that is reversed.
unfoldable pub space_prefix : List ℕ → ℕ
unfolding is_space2 is_space3
space_prefix [] = 0
space_prefix (a ∷ []) = if is_ascii_space a then 1 else 0
space_prefix (a ∷ b ∷ []) = if is_ascii_space a then 1 else if is_space2 a b then 2 else 0
space_prefix (a ∷ b ∷ c ∷ bs) =
    if is_ascii_space a then 1 else if is_space2 a b then 2 else if is_space3 a b c then 3 else 0

unfoldable pub space_suffix : List ℕ → ℕ
unfolding is_space2 is_space3
space_suffix [] = 0
space_suffix (a ∷ []) = if is_ascii_space a then 1 else 0
space_suffix (a ∷ b ∷ []) = if is_ascii_space a then 1 else if is_space2 b a then 2 else 0
space_suffix (a ∷ b ∷ c ∷ bs) =
    if is_ascii_space a then 1 else if is_space2 b a then 2 else if is_space3 c b a then 3 else 0

-- Drops what `measure` finds at the head, again and again; the first argument counts the bytes
-- that are still to be dropped.
unfoldable pub trim_by : (List ℕ → ℕ) → ℕ → List ℕ → List ℕ
trim_by measure skip [] = []
trim_by measure (suc skip) (b ∷ bs) = trim_by measure skip bs
trim_by measure zero (b ∷ bs) = elim (measure (b ∷ bs)) [
  | zero ↦ b ∷ bs
  | suc k ↦ trim_by measure k bs
]

-- strings.TrimSpace
unfoldable pub trim_space : List ℕ → List ℕ
unfolding trim_by space_prefix space_suffix
trim_space bs = reverse (trim_by space_suffix 0 (reverse (trim_by space_prefix 0 bs)))

-- strings.Split by one byte, with the part begun so far.
unfoldable pub split_on : ℕ → List ℕ → List ℕ → List (List ℕ)
split_on sep part [] = part ∷ []
split_on sep part (b ∷ bs) = elim (b == sep) [
  | true ↦ part ∷ split_on sep [] bs
  | false ↦ split_on sep (part ++ b ∷ []) bs
]

-- strings.Cut at one byte: what stands before the first and what stands behind it.
unfoldable pub cut_on : ℕ → List ℕ → List ℕ → Option (List ℕ × List ℕ)
cut_on sep before [] = none
cut_on sep before (b ∷ bs) =
    if b == sep then some (before, bs) else cut_on sep (before ++ b ∷ []) bs

-- strings.TrimSuffix by one byte.
unfoldable pub trim_suffix : ℕ → List ℕ → List ℕ
trim_suffix sep [] = []
trim_suffix sep (b ∷ []) = if b == sep then [] else b ∷ []
trim_suffix sep (b ∷ c ∷ bs) = b ∷ trim_suffix sep (c ∷ bs)

-- strings.ContainsAny
abbrev pub contains_any : List ℕ → List ℕ → Bool
contains_any [] cs = false
contains_any (b ∷ bs) cs = has cs b || contains_any bs cs
