-- ===== src/Gpf/Container/RoundTrip.antt =====
-- A file that was written is read back: its header, its footer, its mode and its document.
use mathlib.Core.Path.{subst}
use goptivum.Prelude.{
  Bool-cases, Result-cases, [], append-nil, arith, drop, inl, inr, length, length-append,
  list_eq_refl, ok, refl, some, take, take-append, ℕ, ◌&&◌, ◌++◌, ◌+◌, ◌==◌, ◌∙◌, ◌≡◌, ◌≤◌, ◌⊎◌,
}
use goptivum.Gpf.Format.{
  Bytes, chunk_payload, has_encrypted, has_passphrase, max_footer, max_header, max_payload, version,
}
use goptivum.Gpf.Preheader.{Preheader, read_preheader, write_preheader}
use goptivum.Gpf.Preheader.RoundTrip.{IsReadable, read_preheader-write_preheader}
use goptivum.Gpf.Chunks.{read_payload, write_chunk}
use goptivum.Gpf.Chunks.Find.{read_payload-around}
use goptivum.Gpf.Footer.{read_footer_region, write_locator}
use goptivum.Gpf.Footer.Locate.{read_footer_region-write_locator}
use goptivum.Gpf.Header.RoundTrip.{IsHeader, parse_header-encode_header}
use goptivum.Gpf.Header.Names.{get-set_field}
use goptivum.Text.{space_prefix, space_suffix, trim_by, trim_space}
use goptivum.Gpf.Header.{
  check_mode_agrees, encode_header, field_format, field_keys, field_mode, get, mode_of, set_field,
}
use goptivum.Gpf.Crypto.{Age, ReadOptions, WriteOptions, check_realm, wrap}
use goptivum.Gpf.Crypto.RoundTrip.{AgeLaws, CanRead, unwrap-wrap}
use goptivum.Gpf.Container.{
  Codec, File, clone, decimal, decode_file, encode_file, footer_or, written_header,
}

module _ (age : Age) (codec : Codec) where
  abbrev head_of : ℕ → Bytes → Preheader
  head_of flags hb = record { version = version; flags = flags; header_len = length hb }

  -- How the parts of a file are laid out.
  unfoldable layout : ℕ → Bytes → Bytes → Bytes → Bytes
  layout flags hb sealed fb =
      write_preheader (head_of flags hb)
      ++ (hb ++ (write_chunk chunk_payload sealed ++ (fb ++ write_locator (length fb))))

  encode_file-layout :
      (doc : codec.Document) (w : WriteOptions age) {bs encoded sealed : Bytes} {flags : ℕ}
      {hb fb : Bytes}
      → encode_file age codec doc w ≡ ok bs
      → codec.encode doc ≡ ok encoded
      → wrap age encoded w ≡ ok (sealed, flags)
      → encode_header (written_header age codec w flags) ≡ ok hb
      → encode_header (footer_or age codec w.footer (written_header age codec w flags)) ≡ ok fb
      → (bs ≡ layout flags hb sealed fb) × (length hb ≤ max_header) × (length fb ≤ max_footer)
  unfolding encode_file layout
  encode_file-layout doc w e good locked h f = ground (arith, good, locked, h, f)

  wrap-flags :
      (encoded sealed : Bytes) (flags : ℕ) (w : WriteOptions age)
      → wrap age encoded w ≡ ok (sealed, flags)
      → (flags ≡ 0) ⊎ ((flags ≡ 1) ⊎ (flags ≡ 3))
  unfolding wrap
  wrap-flags encoded sealed flags w e = ground (arith, Result-cases (wrap age encoded w))

  mode_of-trim_space :
      (flags : ℕ)
      → (flags ≡ 0) ⊎ ((flags ≡ 1) ⊎ (flags ≡ 3))
      → trim_space (mode_of flags) ≡ mode_of flags
  unfolding mode_of trim_space trim_by space_prefix space_suffix
  mode_of-trim_space flags (inl e) = rw e refl
  mode_of-trim_space flags (inr (inl e)) = rw e refl
  mode_of-trim_space flags (inr (inr e)) = rw e refl

  written_mode :
      (w : WriteOptions age) (flags : ℕ)
      → get (written_header age codec w flags) field_mode ≡ trim_space (mode_of flags)
  unfolding written_header
  written_mode w flags =
      let base =
        set_field (set_field (clone age codec w.header) field_keys []) field_format
          (decimal version) in
      let told = get-set_field base field_mode field_mode (mode_of flags) in
      elim (Bool-cases (has_encrypted flags == 1 && has_passphrase flags == 0)) [
        | inl keyed ↦ rw keyed (
            get-set_field (set_field base field_mode (mode_of flags)) field_keys field_mode _
            ∙ told)
        | inr other ↦ rw other told
      ]

  -- The header that is written tells the mode that the flags do.
  written_header-check_mode_agrees :
      (w : WriteOptions age) (flags : ℕ)
      → (flags ≡ 0) ⊎ ((flags ≡ 1) ⊎ (flags ≡ 3))
      → check_mode_agrees (written_header age codec w flags) flags ≡ ok tt
  unfolding check_mode_agrees
  written_header-check_mode_agrees w flags f =
      rw (written_mode w flags, mode_of-trim_space flags f)
        (ground (arith, list_eq_refl (mode_of flags)))

  head_of-IsReadable :
      (flags : ℕ) (hb rest : Bytes)
      → (flags ≡ 0) ⊎ ((flags ≡ 1) ⊎ (flags ≡ 3))
      → length hb ≤ max_header
      → IsReadable (head_of flags hb) (length (hb ++ rest))
  head_of-IsReadable flags hb rest known fits = record {
    known_version = refl;
    flags_fit = ground arith;
    no_unknown = ground arith;
    passphrase_encrypts = ground arith;
    capped = fits;
    present = ground (arith, length-append hb rest);
  }

  layout-read_preheader :
      (flags : ℕ) (hb sealed fb : Bytes)
      → (flags ≡ 0) ⊎ ((flags ≡ 1) ⊎ (flags ≡ 3))
      → length hb ≤ max_header
      → read_preheader (layout flags hb sealed fb) ≡ ok (head_of flags hb)
  unfolding layout
  layout-read_preheader flags hb sealed fb known fits =
      read_preheader-write_preheader (head_of flags hb) _ (head_of-IsReadable flags hb _ known fits)

  layout_header :
      (flags : ℕ) (hb sealed fb : Bytes)
      → take (length hb) (drop 16 (layout flags hb sealed fb)) ≡ hb
  unfolding layout write_preheader
  layout_header flags hb sealed fb = take-append hb _ (length hb) refl

  layout-read_footer_region :
      (flags : ℕ) (hb sealed fb : Bytes)
      → length fb ≤ max_footer
      → read_footer_region (layout flags hb sealed fb) (16 + length hb)
        ≡ ok (fb, write_chunk chunk_payload sealed)
  unfolding layout write_preheader
  layout-read_footer_region flags hb sealed fb fits =
      let front = write_preheader (head_of flags hb) ++ hb in
      let behind : length front ≡ 16 + length hb = omega arith in
      subst
        (λ (n : ℕ).
          read_footer_region (layout flags hb sealed fb) n
          ≡ ok (fb, write_chunk chunk_payload sealed))
        behind (read_footer_region-write_locator front (write_chunk chunk_payload sealed) fb fits)

  read_payload-write_chunk :
      (sealed : Bytes)
      → length sealed ≤ max_payload
      → read_payload (write_chunk chunk_payload sealed) ≡ some (ok sealed)
  read_payload-write_chunk sealed fits =
      subst (λ (region : Bytes). read_payload region ≡ some (ok sealed))
        (append-nil (write_chunk chunk_payload sealed))
        (read_payload-around [] sealed [] tt tt fits)

  -- What a reader gives back of a written file.
  unfoldable pub file_of :
      (doc : codec.Document) (w : WriteOptions age) (flags : ℕ) → File age codec
  file_of doc w flags = record {
    header = written_header age codec w flags;
    footer = footer_or age codec w.footer (written_header age codec w flags);
    document = doc;
    mode = mode_of flags;
  }

  module _ (laws : AgeLaws age) where
    -- A written file is read back as the document it was written from, with the header and the
    -- footer that were written and the mode that says how it was sealed: by a reader that can read
    -- it and is in the realm, when the codec decodes what it encoded, both headers have each of
    -- their fields once and clean, and neither the encoded nor the sealed document is over the cap.
    pub decode_file-encode_file :
        (doc : codec.Document) (w : WriteOptions age) (r : ReadOptions age)
        {bs encoded sealed : Bytes} {flags : ℕ} {hb fb : Bytes}
        → encode_file age codec doc w ≡ ok bs
        → codec.encode doc ≡ ok encoded
        → wrap age encoded w ≡ ok (sealed, flags)
        → encode_header (written_header age codec w flags) ≡ ok hb
        → encode_header (footer_or age codec w.footer (written_header age codec w flags)) ≡ ok fb
        → codec.decode encoded ≡ ok doc
        → IsHeader (written_header age codec w flags)
        → IsHeader (footer_or age codec w.footer (written_header age codec w flags))
        → check_realm (written_header age codec w flags) r.realm ≡ ok tt
        → CanRead age laws w r
        → length encoded ≤ max_payload
        → length sealed ≤ max_payload
        → decode_file age codec bs r ≡ ok (file_of doc w flags)
    unfolding decode_file file_of
    decode_file-encode_file doc w r {bs} {encoded} {sealed} {flags} {hb} {fb} e good locked h f
          decodes clean clean_footer local can fits sealed_fits =
        let (laid_out, header_fits, footer_fits) = encode_file-layout doc w e good locked h f in
        let known = wrap-flags encoded sealed flags w locked in
        rw
          (
            laid_out,
            decode_file,
            layout-read_preheader flags hb sealed fb known header_fits,
            layout_header flags hb sealed fb,
            parse_header-encode_header (written_header age codec w flags) hb clean h,
            written_header-check_mode_agrees w flags known,
            local,
            layout-read_footer_region flags hb sealed fb footer_fits,
            parse_header-encode_header
                (footer_or age codec w.footer (written_header age codec w flags)) fb clean_footer f,
            read_payload-write_chunk sealed sealed_fits,
            unwrap-wrap age laws encoded sealed flags w r can fits locked,
            decodes,
            file_of,
          )
          refl
