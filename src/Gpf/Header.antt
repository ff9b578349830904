-- ===== src/Gpf/Header.antt =====
-- document/gpf/header.go: the branded plaintext block, its fields, and the mode line.
pub mod Names
pub mod Lines
pub mod RoundTrip
use goptivum.Prelude.{
  Bool, List, Result, [], drop, err, false, get_or, has, if◌then◌else◌, length, list_eq, ltb, none,
  not, ok, refuse_if, replicate, select, some, take, true, ℕ, ◌++◌, ◌+◌, ◌-◌, ◌==◌, ◌>>=◌, ◌>>◌,
  ◌||◌, ◌∷◌,
}
use goptivum.Text.{codes, contains_any, cut_on, split_on, trim_space, trim_suffix, utf8_valid}
use goptivum.Gpf.Format.{Bytes, Refusal, has_encrypted, has_passphrase, malformed}

-- The map of fields, and the names in the order they were written.
pub record Header : Type 0 where
  pub fields : List (Bytes × Bytes)
  pub order : List Bytes

abbrev pub line_feed : ℕ
line_feed = 10

abbrev pub brand : Bytes
brand = codes "GPF1"

abbrev pub header_lead : Bytes
header_lead = codes "# Goptivum Project File"

abbrev pub header_end : Bytes
header_end = codes "---"

abbrev pub field_mode : Bytes
field_mode = codes "mode"

abbrev pub field_realm : Bytes
field_realm = codes "realm"

abbrev pub field_format : Bytes
field_format = codes "format"

abbrev pub field_keys : Bytes
field_keys = codes "keys"

abbrev pub max_field_value : ℕ
max_field_value = 4096

unfoldable pub new_header : Header
new_header = record { fields = []; order = [] }

-- The map: a missing name reads as the empty text.
unfoldable pub get_field : List (Bytes × Bytes) → Bytes → Bytes
get_field [] name = []
get_field ((n, v) ∷ m) name = if list_eq n name then v else get_field m name

unfoldable pub has_field : List (Bytes × Bytes) → Bytes → Bool
has_field [] name = false
has_field ((n, v) ∷ m) name = list_eq n name || has_field m name

unfoldable pub put_field : List (Bytes × Bytes) → Bytes → Bytes → List (Bytes × Bytes)
put_field [] name value = (name, value) ∷ []
put_field ((n, v) ∷ m) name value =
    if list_eq n name then (n, value) ∷ m else (n, v) ∷ put_field m name value

unfoldable pub delete_field : List (Bytes × Bytes) → Bytes → List (Bytes × Bytes)
delete_field [] name = []
delete_field ((n, v) ∷ m) name =
    if list_eq n name then delete_field m name else (n, v) ∷ delete_field m name

abbrev pub is_empty {ℓ} : {A : Type ℓ} → List A → Bool
is_empty [] = true
is_empty (_ ∷ _) = false

-- `Header.Get`
abbrev pub get : Header → Bytes → Bytes
get h name = get_field h.fields name

-- `Header.Set`, on a value that is trimmed already.
unfoldable pub set_trimmed : Header → Bytes → Bytes → Header
set_trimmed h name value =
    if is_empty value
    then record {
      fields = delete_field h.fields name;
      order = select (λ field. not (list_eq field name)) h.order;
    }
    else record {
      fields = put_field h.fields name value;
      order = if has_field h.fields name then h.order else h.order ++ name ∷ [];
    }

unfoldable pub set_field : Header → Bytes → Bytes → Header
set_field h name value = set_trimmed h name (trim_space value)

abbrev pub name_breakers : List ℕ
name_breakers = b':' ∷ 13 ∷ 10 ∷ 32 ∷ 9 ∷ 0 ∷ []

unfoldable pub check_field : Bytes → Bytes → Result Refusal (Unit {0})
check_field name value = do
  refuse_if (is_empty name || (not (utf8_valid name) || contains_any name name_breakers)) malformed
  refuse_if (ltb max_field_value (length value)) malformed
  refuse_if (contains_any value (13 ∷ 10 ∷ [])) malformed
  refuse_if (has value 0) malformed
  refuse_if (not (utf8_valid value)) malformed

-- The longest name, for the column of values.
unfoldable pub width_of : ℕ → List Bytes → ℕ
width_of width [] = width
width_of width (name ∷ names) =
    width_of (if ltb width (length name) then length name else width) names

-- One line: the name, a colon, blanks up to the column, the value.
unfoldable pub field_line : ℕ → Bytes → Bytes → Bytes
field_line width name value =
    name ++ (b':' ∷ (replicate (width - length name + 1) b' ' ++ (value ++ line_feed ∷ [])))

unfoldable pub encode_lines : ℕ → List (Bytes × Bytes) → List Bytes → Result Refusal Bytes
encode_lines width fields [] = ok []
encode_lines width fields (name ∷ names) = do
  check_field name (get_field fields name)
  rest ← encode_lines width fields names
  ok (field_line width name (get_field fields name) ++ rest)

-- `Header.Encode`
unfoldable pub encode_header : Header → Result Refusal Bytes
encode_header h = do
  lines ← encode_lines (width_of 0 h.order) h.fields h.order
  ok (
      brand
      ++ (line_feed ∷ (header_lead ++ (line_feed ∷ (lines ++ (header_end ++ line_feed ∷ []))))))

-- A line the reader passes over: a comment or a blank one.
unfoldable pub is_ignored : Bytes → Bool
is_ignored line = list_eq (take 1 line) (b'#' ∷ []) || is_empty (trim_space line)

-- The loop of `parseHeader` over the lines between the brand and the end.
unfoldable pub parse_lines : Header → List Bytes → Result Refusal Header
parse_lines h [] = ok h
parse_lines h (line ∷ lines) =
    let skip = parse_lines h lines in
    let read : Result Refusal Header = elim (cut_on b':' [] line) [
      | none ↦ err malformed
      | some (n, v) ↦ do
        check_field (trim_space n) (trim_space v)
        refuse_if (has_field h.fields (trim_space n)) malformed
        parse_lines (set_field h (trim_space n) (trim_space v)) lines
    ] in
    if is_ignored line then skip else read

-- The last of a list of lines, and all but the last.
abbrev pub last_line : List Bytes → Bytes
last_line [] = []
last_line (l ∷ []) = l
last_line (l ∷ k ∷ ls) = last_line (k ∷ ls)

abbrev pub but_last : List Bytes → List Bytes
but_last [] = []
but_last (l ∷ []) = []
but_last (l ∷ k ∷ ls) = l ∷ but_last (k ∷ ls)

unfoldable pub parse_header : Bytes → Result Refusal Header
parse_header block = do
  refuse_if (not (utf8_valid block)) malformed
  let lines = split_on line_feed [] (trim_suffix line_feed block)
  refuse_if (ltb (length lines) 3) malformed
  refuse_if (not (list_eq (get_or lines 0 []) brand)) malformed
  refuse_if (not (list_eq (last_line lines) header_end)) malformed
  parse_lines new_header (but_last (drop 1 lines))

abbrev pub mode_plain : Bytes
mode_plain = codes "plain"

abbrev pub mode_password : Bytes
mode_password = codes "password"

abbrev pub mode_identity : Bytes
mode_identity = codes "identity"

unfoldable pub mode_of : ℕ → Bytes
mode_of flags =
    if has_encrypted flags == 0
    then mode_plain
    else if has_passphrase flags == 1
    then mode_password
    else mode_identity

unfoldable pub check_mode_agrees : Header → ℕ → Result Refusal (Unit {0})
check_mode_agrees h flags =
    if is_empty (get h field_mode)
    then ok tt
    else if list_eq (get h field_mode) (mode_of flags)
    then ok tt
    else err malformed
