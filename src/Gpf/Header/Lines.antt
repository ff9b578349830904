-- ===== src/Gpf/Header/Lines.antt =====
-- The lines of a header block: a field that is written as a line is read back from it.

use goptivum.Prelude.{
  ==_iff, List, [], ap, append_assoc, arith, false, has, length, list_eq, ok, refl, replicate, suc,
  sym, take, true, zero, ℕ, ◌++◌, ◌+◌, ◌-◌, ◌||◌, ◌∙◌, ◌∷◌, ◌≡◌, ◌≢◌,
}
use goptivum.Text.{at_rune, contains_any, lead, trim_space, utf8_from, utf8_step, utf8_valid}
use goptivum.Text.Lines.{cut_on-append}
use goptivum.Text.Valid.{utf8_from-append}
use goptivum.Text.Blanks.{has-trim_space, trim_space_blanks}
use goptivum.Gpf.Format.{Bytes}
use goptivum.Gpf.Header.{
  Header, check_field, field_line, has_field, is_empty, is_ignored, name_breakers, parse_lines,
  put_field, set_field, set_trimmed,
}

abbrev pub names : List (Bytes × Bytes) → List Bytes
names [] = []
names ((n, v) ∷ m) = n ∷ names m

-- The header with these fields, set in this order.
abbrev pub header_of : List (Bytes × Bytes) → Header
header_of m = record { fields = m; order = names m }

-- A field whose line is read as that field: its name does not look like a comment, and neither its
-- name nor its value has white space at an end.
pub record IsClean (n v : Bytes) : Type 0 where
  pub no_comment : list_eq (take 1 n) (b'#' ∷ []) ≡ false
  pub name_trimmed : trim_space n ≡ n
  pub value_trimmed : trim_space v ≡ v
  pub some_value : is_empty v ≡ false

-- A line without its line feed.
abbrev pub line_of : ℕ → Bytes → Bytes → Bytes
line_of width n v = n ++ (58 ∷ (replicate (width - length n + 1) 32 ++ v))

pub field_line-line_of :
    (width : ℕ) (n v : Bytes) → field_line width n v ≡ line_of width n v ++ 10 ∷ []
unfolding field_line
field_line-line_of width n v =
    let blanks = replicate (width - length n + 1) 32 in
    ap (λ xs. n ++ (58 ∷ xs)) (sym (append_assoc blanks v (10 ∷ [])))
    ∙ sym (append_assoc n (58 ∷ (blanks ++ v)) (10 ∷ []))

contains_any-has :
    (bs cs : Bytes) (c : ℕ) → contains_any bs cs ≡ false → has cs c ≡ true → has bs c ≡ false
contains_any-has [] cs c h e = refl
contains_any-has (b ∷ bs) cs c h e =
    ground (arith, contains_any-has bs cs c, ==_iff b c, λ (same : b ≡ c). ap (has cs) same)

-- What a field that passes the check has.
pub record Checked (n v : Bytes) : Type 0 where
  pub named : is_empty n ≡ false
  pub no_colon : has n 58 ≡ false
  pub one_line : has n 10 ≡ false
  pub value_line : has v 10 ≡ false
  pub valid_name : utf8_valid n ≡ true
  pub valid_value : utf8_valid v ≡ true

pub check_field-Checked : (n v : Bytes) → check_field n v ≡ ok tt → Checked n v
unfolding check_field
check_field-Checked n v h = record {
  named = ground arith;
  no_colon = contains_any-has n name_breakers 58 (ground arith) refl;
  one_line = contains_any-has n name_breakers 10 (ground arith) refl;
  value_line = contains_any-has v (13 ∷ 10 ∷ []) 10 (ground arith) refl;
  valid_name = ground arith;
  valid_value = ground arith;
}

has-append : (xs ys : Bytes) (c : ℕ) → has (xs ++ ys) c ≡ (has xs c || has ys c)
has-append [] ys c = refl
has-append (x ∷ xs) ys c = ground (arith, has-append xs ys c)

has-blanks : (k c : ℕ) → c ≢ 32 → has (replicate k 32) c ≡ false
has-blanks zero c h = refl
has-blanks (suc k) c h = ground (arith, has-blanks k c h)

pub line_of-one_line : (width : ℕ) (n v : Bytes) → Checked n v → has (line_of width n v) 10 ≡ false
line_of-one_line width n v c =
    let k = width - length n + 1 in
    ground (
      arith,
      has-append n (58 ∷ (replicate k 32 ++ v)) 10,
      has-append (replicate k 32) v 10,
      has-blanks k 10,
      c.one_line,
      c.value_line,
    )

utf8_valid-blanks :
    (k : ℕ) (v : Bytes) → utf8_valid v ≡ true → utf8_valid (replicate k 32 ++ v) ≡ true
unfolding utf8_from utf8_step lead
utf8_valid-blanks zero v h = h
utf8_valid-blanks (suc k) v h = utf8_valid-blanks k v h

pub line_of-valid : (width : ℕ) (n v : Bytes) → Checked n v → utf8_valid (line_of width n v) ≡ true
unfolding utf8_from utf8_step lead
line_of-valid width n v c =
    utf8_from-append at_rune n _ c.valid_name
    ∙ utf8_valid-blanks (width - length n + 1) v c.valid_value

first_byte : (n rest : Bytes) → is_empty n ≡ false → take 1 (n ++ rest) ≡ take 1 n
first_byte [] rest h = absurd (cc)
first_byte (b ∷ n) rest h = refl

has-is_empty : (bs : Bytes) (c : ℕ) → has bs c ≡ true → is_empty bs ≡ false
has-is_empty [] c h = absurd (cc)
has-is_empty (b ∷ bs) c h = refl

line_of_read :
    (width : ℕ) (n v : Bytes) → IsClean n v → Checked n v → is_ignored (line_of width n v) ≡ false
unfolding is_ignored
line_of_read width n v clean c =
    let rest = replicate (width - length n + 1) 32 ++ v in
    let colon : has (n ++ 58 ∷ rest) 58 ≡ true = ground (arith, has-append n (58 ∷ rest) 58) in
    rw (first_byte n (58 ∷ rest) c.named, clean.no_comment)
      (has-is_empty (trim_space (n ++ 58 ∷ rest)) 58 (has-trim_space (n ++ 58 ∷ rest) colon))

put_field_new :
    (m : List (Bytes × Bytes)) (n v : Bytes)
    → has_field m n ≡ false
    → put_field m n v ≡ m ++ (n, v) ∷ []
unfolding put_field has_field
put_field_new [] n v h = refl
put_field_new ((k, w) ∷ m) n v h = ground (arith, put_field_new m n v)

names-append : (m m' : List (Bytes × Bytes)) → names (m ++ m') ≡ names m ++ names m'
names-append [] m' = refl
names-append ((n, v) ∷ m) m' = ap (λ xs. n ∷ xs) (names-append m m')

set_field_new :
    (m : List (Bytes × Bytes)) (n v : Bytes)
    → IsClean n v
    → has_field m n ≡ false
    → set_field (header_of m) n v ≡ header_of (m ++ (n, v) ∷ [])
unfolding set_field set_trimmed
set_field_new m n v clean h =
    rw
      (
        clean.value_trimmed,
        clean.some_value,
        h,
        put_field_new m n v h,
        names-append m ((n, v) ∷ []),
      )
      refl

-- Reading the line of a field that is new sets that field.
pub parse_lines-line_of :
    (m : List (Bytes × Bytes)) (width : ℕ) (n v : Bytes) (lines : List Bytes)
    → IsClean n v
    → has_field m n ≡ false
    → check_field n v ≡ ok tt
    → parse_lines (header_of m) (line_of width n v ∷ lines)
      ≡ parse_lines (header_of (m ++ (n, v) ∷ [])) lines
unfolding parse_lines
parse_lines-line_of m width n v lines clean fresh good =
    let c = check_field-Checked n v good in
    let k = width - length n + 1 in
    rw
      (
        line_of_read width n v clean c,
        cut_on-append 58 [] n (replicate k 32 ++ v) c.no_colon,
        clean.name_trimmed,
        trim_space_blanks k v,
        clean.value_trimmed,
        good,
        fresh,
        set_field_new m n v clean fresh,
      )
      refl
