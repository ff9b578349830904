-- ===== src/Gpf/Footer/Locate.antt =====
-- The footer is found exactly where it was written.
use goptivum.Prelude.{
  ap, append_assoc, arith, drop, drop-append, drop-drop, length, length-append, length-drop,
  length-take, list_eq, list_eq→eq, ok, refl, sym, take, take-append, take-append-drop, true, ℕ,
  ◌%◌, ◌++◌, ◌+◌, ◌-◌, ◌^◌, ◌∙◌, ◌≡◌, ◌≤◌,
}
use goptivum.Gpf.Format.{Bytes, IsBytes, magic, max_footer, put_uint32, uint32_at}
use goptivum.Gpf.Fields.{drop-IsBytes, uint32_field}
use goptivum.Gpf.Footer.{read_footer_region, write_locator}

-- What lies between two cuts of three joined parts.
middle :
    (xs ys zs : Bytes) (n k : ℕ)
    → n ≡ length xs
    → k ≡ length ys
    → take k (drop n (xs ++ (ys ++ zs))) ≡ ys
middle xs ys zs n k hn hk = ap (take k) (drop-append xs (ys ++ zs) n hn) ∙ take-append ys zs k hk

-- A footer that fits is found behind any head and any region, and the region before it with it.
pub read_footer_region-write_locator :
    (head region footer : Bytes)
    → length footer ≤ max_footer
    → read_footer_region
        (head ++ (region ++ (footer ++ write_locator (length footer))))
        (length head)
      ≡ ok (footer, region)
unfolding read_footer_region write_locator
read_footer_region-write_locator head region footer h =
    ground (arith, lengths, locator_eq, foot, reg)
  where
    locator : Bytes
    locator = put_uint32 (length footer % 2 ^ 32) magic

    whole : Bytes
    whole = head ++ (region ++ (footer ++ locator))

    lengths : length whole ≡ length head + length region + length footer + 12
    lengths = omega (
      arith,
      length-append head (region ++ (footer ++ locator)),
      length-append region (footer ++ locator),
      length-append footer locator,
    )

    locator_eq : drop (length whole - 12) whole ≡ locator
    locator_eq =
        ap (drop (length whole - 12)) (
          sym (
            append_assoc (head ++ region) footer locator
            ∙ append_assoc head region (footer ++ locator)))
        ∙ drop-append ((head ++ region) ++ footer) locator (length whole - 12) (
            omega
              (arith, lengths, length-append (head ++ region) footer, length-append head region))

    foot :
        take
          (length whole - 12 - (length whole - 12 - length footer))
          (drop (length whole - 12 - length footer) whole)
        ≡ footer
    foot =
        ap
          (λ l.
            take (length whole - 12 - (length whole - 12 - length footer))
              (drop (length whole - 12 - length footer) l))
          (sym (append_assoc head region (footer ++ locator)))
        ∙ middle (head ++ region) footer locator _ _
            (omega (arith, lengths, length-append head region)) (omega (arith, lengths))

    reg : take (length whole - 12 - length footer - length head) (drop (length head) whole) ≡ region
    reg = middle head region (footer ++ locator) _ _ refl (omega (arith, lengths))

record FooterRead (bs : Bytes) (after : ℕ) (footer region : Bytes) : Type 0 where
  room : after + 12 ≤ length bs
  ends : list_eq (drop 4 (drop (length bs - 12) bs)) magic ≡ true
  capped : uint32_at (drop (length bs - 12) bs) 0 ≤ max_footer
  present : uint32_at (drop (length bs - 12) bs) 0 ≤ length bs - 12 - after
  footer_at :
      footer
      ≡ take
          (length bs - 12 - (length bs - 12 - uint32_at (drop (length bs - 12) bs) 0))
          (drop (length bs - 12 - uint32_at (drop (length bs - 12) bs) 0) bs)
  region_at :
      region
      ≡ take (length bs - 12 - uint32_at (drop (length bs - 12) bs) 0 - after) (drop after bs)

read_footer_region-FooterRead :
    (bs : Bytes) (after : ℕ) {footer region : Bytes}
    → read_footer_region bs after ≡ ok (footer, region)
    → FooterRead bs after footer region
unfolding read_footer_region
read_footer_region-FooterRead bs after h = ground arith

-- What is returned as footer and region is, with the locator, all that lies behind `after`: no
-- byte of the file is dropped or read twice, and the footer is within its cap.
pub read_footer_region_sound :
    (bs : Bytes) (after : ℕ) (footer region : Bytes)
    → IsBytes bs
    → read_footer_region bs after ≡ ok (footer, region)
    → (bs ≡ take after bs ++ (region ++ (footer ++ write_locator (length footer))))
      × (length footer ≤ max_footer)
unfolding write_locator
read_footer_region_sound bs after footer region b h = (whole, capped')
  where
    r : FooterRead bs after footer region
    r = read_footer_region-FooterRead bs after h

    end : ℕ
    end = length bs - 12

    locator : Bytes
    locator = drop end bs

    size : ℕ
    size = uint32_at locator 0

    start : ℕ
    start = end - size

    facts : (after ≤ start) × (start + size ≡ end) × (end + 12 ≡ length bs)
    facts = omega (arith, r.room, r.present)

    size_eq : length footer ≡ size
    size_eq = omega (
      arith,
      ap length r.footer_at,
      length-take (end - start) (drop start bs),
      length-drop start bs,
      facts,
    )

    capped' : length footer ≤ max_footer
    capped' = omega (arith, size_eq, r.capped)

    size_fits : size ≡ length footer % 2 ^ 32
    size_fits = omega (arith, size_eq, capped')

    locator_eq : locator ≡ put_uint32 (length footer % 2 ^ 32) magic
    locator_eq =
        uint32_field locator 0 (drop-IsBytes bs end b) (omega (arith, length-drop end bs, facts))
        ∙ ap (put_uint32 size) (list_eq→eq (drop 4 locator) magic r.ends)
        ∙ ap (λ n. put_uint32 n magic) size_fits

    footer_part : drop start bs ≡ footer ++ put_uint32 (length footer % 2 ^ 32) magic
    footer_part =
        sym (take-append-drop (end - start) (drop start bs))
        ∙ ap (λ l. l ++ drop (end - start) (drop start bs)) (sym r.footer_at)
        ∙ ap (λ l. footer ++ l)
            (drop-drop bs start (end - start) end (omega (arith, facts)) ∙ locator_eq)

    region_part : drop after bs ≡ region ++ (footer ++ put_uint32 (length footer % 2 ^ 32) magic)
    region_part =
        sym (take-append-drop (start - after) (drop after bs))
        ∙ ap (λ l. l ++ drop (start - after) (drop after bs)) (sym r.region_at)
        ∙ ap (λ l. region ++ l)
            (drop-drop bs after (start - after) start (omega (arith, facts)) ∙ footer_part)

    whole : bs ≡ take after bs ++ (region ++ (footer ++ put_uint32 (length footer % 2 ^ 32) magic))
    whole = sym (take-append-drop after bs) ∙ ap (λ l. take after bs ++ l) region_part
