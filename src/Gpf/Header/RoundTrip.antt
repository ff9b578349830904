-- ===== src/Gpf/Header/RoundTrip.antt =====
-- A header that is written is read back as it was.

use goptivum.Prelude.{
  List, Result-cases, [], ap, append-nil, append_assoc, arith, false, has, inl, inr, length,
  length-append, list_eq_refl, ltb, ok, refl, sym, true, ℕ, ◌++◌, ◌∙◌, ◌∷◌, ◌≡◌,
}
use goptivum.Text.{at_rune, lead, split_on, trim_suffix, utf8_from, utf8_step, utf8_valid}
use goptivum.Text.Lines.{split_on-append, split_on_last, trim_suffix-append}
use goptivum.Text.Valid.{utf8_from-append}
use goptivum.Gpf.Format.{Bytes}
use goptivum.Gpf.Header.{
  Header, brand, but_last, check_field, encode_header, encode_lines, field_line, get_field,
  has_field, header_end, header_lead, is_ignored, last_line, new_header, parse_header, parse_lines,
  width_of,
}
use goptivum.Gpf.Header.Lines.{
  IsClean, check_field-Checked, field_line-line_of, header_of, line_of, line_of-one_line,
  line_of-valid, names, parse_lines-line_of,
}

-- Fields that survive after those before them: each clean, and none of a name that was set.
abbrev pub AllClean : List (Bytes × Bytes) → List (Bytes × Bytes) → Type 0
AllClean done [] = Unit
AllClean done ((n, v) ∷ m) =
    IsClean n v × (has_field done n ≡ false) × AllClean (done ++ (n, v) ∷ []) m

-- A header that survives: its fields in the order they were set, each once and clean.
pub record IsHeader (h : Header) : Type 0 where
  pub listed : h.order ≡ names h.fields
  pub clean : AllClean [] h.fields

abbrev AllGood : List (Bytes × Bytes) → Type 0
AllGood [] = Unit
AllGood ((n, v) ∷ m) = (check_field n v ≡ ok tt) × AllGood m

abbrev lines : ℕ → List (Bytes × Bytes) → List Bytes
lines width [] = []
lines width ((n, v) ∷ m) = line_of width n v ∷ lines width m

-- Lines, each with its line feed.
abbrev join : List Bytes → Bytes
join [] = []
join (l ∷ ls) = l ++ 10 ∷ join ls

parse_lines-lines :
    (done m : List (Bytes × Bytes)) (width : ℕ)
    → AllClean done m
    → AllGood m
    → parse_lines (header_of done) (lines width m) ≡ ok (header_of (done ++ m))
unfolding parse_lines
parse_lines-lines done [] width clean good =
    ap (λ (m : List (Bytes × Bytes)). ok (header_of m)) (sym (append-nil done))
parse_lines-lines done ((n, v) ∷ m) width (c, fresh, rest) (g, good) =
    parse_lines-line_of done width n v (lines width m) c fresh g
    ∙ parse_lines-lines (done ++ (n, v) ∷ []) m width rest good
    ∙ ap (λ (m : List (Bytes × Bytes)). ok (header_of m)) (append_assoc done ((n, v) ∷ []) m)

get_field-append :
    (done m : List (Bytes × Bytes)) (n v : Bytes)
    → has_field done n ≡ false
    → get_field (done ++ (n, v) ∷ m) n ≡ v
unfolding get_field has_field
get_field-append [] m n v h = rw (list_eq_refl n) refl
get_field-append ((k, w) ∷ done) m n v h = ground (arith, get_field-append done m n v)

encode_lines-good :
    (width : ℕ) (done m : List (Bytes × Bytes)) (bs : Bytes)
    → AllClean done m
    → encode_lines width (done ++ m) (names m) ≡ ok bs
    → AllGood m × (bs ≡ join (lines width m))
unfolding encode_lines
encode_lines-good width done [] bs clean e = (tt, ground arith)
encode_lines-good width done ((n, v) ∷ m) bs (c, fresh, rest) e =
    let same = get_field-append done m n v fresh in
    let line = line_of width n v in
    elim (Result-cases (check_field n v)) [
      | inr (x, bad) ↦ absurd (ground (arith, same, bad))
      | inl (u, g) ↦ elim (Result-cases (encode_lines width (done ++ (n, v) ∷ m) (names m))) [
        | inr (x, bad) ↦ absurd (ground (arith, same, g, bad))
        | inl (rs, more) ↦
            let shifted =
              ap (λ (f : List (Bytes × Bytes)). encode_lines width f (names m))
                (append_assoc done ((n, v) ∷ []) m) in
            let (good, joined) =
              encode_lines-good width (done ++ (n, v) ∷ []) m rs rest (shifted ∙ more) in
            let whole : bs ≡ field_line width n v ++ rs = ground (arith, same, g, more) in
            (
              (g, good),
              whole
                  ∙ ap (λ l. l ++ rs) (field_line-line_of width n v)
                  ∙ append_assoc line (10 ∷ []) rs
                  ∙ ap (λ xs. line ++ 10 ∷ xs) joined,
            )
      ]
    ]

split_on-join :
    (width : ℕ) (m : List (Bytes × Bytes)) (tail : Bytes)
    → AllGood m
    → has tail 10 ≡ false
    → split_on 10 [] (join (lines width m) ++ tail) ≡ lines width m ++ tail ∷ []
split_on-join width [] tail good h = split_on_last 10 [] tail h
split_on-join width ((n, v) ∷ m) tail (g, good) h =
    let line = line_of width n v in
    ap (split_on 10 []) (append_assoc line (10 ∷ join (lines width m)) tail)
    ∙ split_on-append 10 [] line (join (lines width m) ++ tail)
        (line_of-one_line width n v (check_field-Checked n v g))
    ∙ ap (λ ls. line ∷ ls) (split_on-join width m tail good h)

utf8_valid-join :
    (width : ℕ) (m : List (Bytes × Bytes)) (tail : Bytes)
    → AllGood m
    → utf8_valid tail ≡ true
    → utf8_valid (join (lines width m) ++ tail) ≡ true
unfolding utf8_from utf8_step lead
utf8_valid-join width [] tail good h = h
utf8_valid-join width ((n, v) ∷ m) tail (g, good) h =
    let line = line_of width n v in
    ap utf8_valid (append_assoc line (10 ∷ join (lines width m)) tail)
    ∙ utf8_from-append at_rune line _ (line_of-valid width n v (check_field-Checked n v g))
    ∙ line_feed_first (join (lines width m) ++ tail)
    ∙ utf8_valid-join width m tail good h
  where
    line_feed_first : (bs : Bytes) → utf8_valid (10 ∷ bs) ≡ utf8_valid bs
    line_feed_first bs = utf8_from-append at_rune (10 ∷ []) bs refl

last_line-append : (ls : List Bytes) (l e : Bytes) → last_line (l ∷ (ls ++ e ∷ [])) ≡ e
last_line-append [] l e = refl
last_line-append (k ∷ ls) l e = last_line-append ls k e

but_last-append : (ls : List Bytes) (e : Bytes) → but_last (ls ++ e ∷ []) ≡ ls
but_last-append [] e = refl
but_last-append (l ∷ []) e = refl
but_last-append (l ∷ k ∷ ls) e = ap (λ xs. l ∷ xs) (but_last-append (k ∷ ls) e)

-- The block around the lines of its fields.
abbrev block : Bytes → Bytes
block body = brand ++ (10 ∷ (header_lead ++ (10 ∷ (body ++ (header_end ++ 10 ∷ [])))))

block_valid :
    (width : ℕ) (m : List (Bytes × Bytes))
    → AllGood m
    → utf8_valid (block (join (lines width m))) ≡ true
unfolding utf8_from utf8_step lead
block_valid width m good = utf8_valid-join width m (header_end ++ 10 ∷ []) good refl

trim_suffix-block :
    (body : Bytes)
    → trim_suffix 10 (block body) ≡ brand ++ (10 ∷ (header_lead ++ (10 ∷ (body ++ header_end))))
trim_suffix-block body =
    let front = brand ++ (10 ∷ (header_lead ++ (10 ∷ (body ++ header_end)))) in
    let same : block body ≡ front ++ 10 ∷ [] =
      ap (λ xs. brand ++ (10 ∷ (header_lead ++ (10 ∷ xs))))
        (sym (append_assoc body header_end (10 ∷ []))) in
    ap (trim_suffix 10) same ∙ trim_suffix-append 10 front

split_on-block :
    (width : ℕ) (m : List (Bytes × Bytes))
    → AllGood m
    → split_on 10 [] (brand ++ (10 ∷ (header_lead ++ (10 ∷ (join (lines width m) ++ header_end)))))
      ≡ brand ∷ header_lead ∷ (lines width m ++ header_end ∷ [])
split_on-block width m good =
    split_on-append 10 [] brand _ refl
    ∙ ap (λ ls. brand ∷ ls) (split_on-append 10 [] header_lead _ refl)
    ∙ ap (λ ls. brand ∷ header_lead ∷ ls) (split_on-join width m header_end good refl)

parse_lines_lead :
    (h : Header) (ls : List Bytes) → parse_lines h (header_lead ∷ ls) ≡ parse_lines h ls
unfolding parse_lines is_ignored
parse_lines_lead h ls = refl

long_enough : (ls : List Bytes) (a b e : Bytes) → ltb (length (a ∷ b ∷ (ls ++ e ∷ []))) 3 ≡ false
long_enough ls a b e = ground (arith, length-append ls (e ∷ []))

parse_header-block :
    (width : ℕ) (m : List (Bytes × Bytes))
    → AllClean [] m
    → AllGood m
    → parse_header (block (join (lines width m))) ≡ ok (header_of m)
unfolding new_header parse_header
parse_header-block width m clean good =
    let ls = lines width m in
    rw
      (
        parse_header,
        block_valid width m good,
        trim_suffix-block (join ls),
        split_on-block width m good,
        long_enough ls brand header_lead header_end,
        last_line-append (header_lead ∷ ls) brand header_end,
        but_last-append (header_lead ∷ ls) header_end,
        parse_lines_lead new_header ls,
      )
      (parse_lines-lines [] m width clean good)

-- A header whose fields each survive, and were each set once, is read back from the block it is
-- written as.
pub parse_header-encode_header :
    (h : Header) (bs : Bytes) → IsHeader h → encode_header h ≡ ok bs → parse_header bs ≡ ok h
unfolding encode_header
parse_header-encode_header h bs fits e =
    elim (Result-cases (encode_lines (width_of 0 h.order) h.fields h.order)) [
      | inr (x, bad) ↦ absurd (ground (arith, bad))
      | inl (ls, written) ↦
          let width = width_of 0 h.order in
          let whole : bs ≡ block ls = ground (arith, written) in
          let listed = ap (encode_lines width h.fields) fits.listed in
          let (good, joined) =
            encode_lines-good width [] h.fields ls fits.clean (sym listed ∙ written) in
          ap parse_header (whole ∙ ap block joined)
          ∙ parse_header-block width h.fields fits.clean good
          ∙ ap (λ (o : List Bytes). ok (record { fields = h.fields; order = o })) (sym fits.listed)
    ]
