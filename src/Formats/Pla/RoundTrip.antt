-- ===== src/Formats/Pla/RoundTrip.antt =====
-- A container that is written is read back, and one that is read and not compressed is written back
-- byte for byte.
use goptivum.Prelude.{
  Bool-cases, Result-cases, [], ap, arith, drop, drop-append, drop-drop, false, inl, inr, length,
  length-append, length-drop, length-take, ok, refl, sym, take, take-append, take-append-drop, true,
  ℕ, ◌++◌, ◌+◌, ◌^◌, ◌∙◌, ◌∷◌, ◌≡◌, ◌≤◌,
}
use goptivum.Gpf.Format.{Bytes, IsBytes, magic, put_uint16, uint16_at}
use goptivum.Gpf.Fields.{drop-IsBytes, uint16_at-lt, uint16_field}
use goptivum.Formats.Pla.{
  PlaFile, Zlib, decode_pla, encode_pla, has_prefix, looks_zlib, magic_or_default, magic_prefix,
  mask, max_decoded, open_payload, payload_for, read_inflated,
}
use goptivum.Formats.Pla.Mask.{length-mask_from, mask_from-mask_from}

-- What compress/zlib documents: its own output has the header of RFC 1950 and opens as what was
-- compressed.
pub record ZlibLaws (zlib : Zlib) : Type 0 where
  pub compress-IsBytes : (xml z : Bytes) → zlib.compress xml ≡ ok z → IsBytes z
  pub compress-looks_zlib : (xml z : Bytes) → zlib.compress xml ≡ ok z → looks_zlib z ≡ true
  pub open_reader-compress :
      (xml z : Bytes)
      → zlib.compress xml ≡ ok z
      → zlib.open_reader z ≡ ok (record { plain = xml; broken = false })

module _ (zlib : Zlib) where
  encode_pla-cases :
      (file : PlaFile) (bs : Bytes)
      → encode_pla zlib file ≡ ok bs
      → (length file.xml ≤ max_decoded)
        × (length (magic_or_default zlib file.magic) ≤ 65535)
        × (has_prefix (magic_or_default zlib file.magic) magic_prefix ≡ true)
        × ((payload : Bytes) × (payload_for zlib file ≡ ok payload)
            × (bs
                ≡ put_uint16
                    (length (magic_or_default zlib file.magic))
                    (magic_or_default zlib file.magic ++ mask payload)))
  unfolding encode_pla
  encode_pla-cases file bs e = elim (Result-cases (payload_for zlib file)) [
    | inr (x, bad) ↦ absurd (ground (arith, bad))
    | inl (payload, good) ↦ (
      ground (arith, good),
      ground (arith, good),
      ground (arith, good),
      (payload, good, ground (arith, good)),
    )
  ]

  -- Reading a container whose parts are known.
  decode_pla-parts :
      (bs magic masked : Bytes) (n : ℕ)
      → uint16_at bs 0 ≡ n
      → length bs ≡ 2 + n + length masked
      → take n (drop 2 bs) ≡ magic
      → drop (2 + n) bs ≡ masked
      → has_prefix magic magic_prefix ≡ true
      → length masked ≤ max_decoded + 2 ^ 20
      → decode_pla zlib bs ≡ open_payload zlib magic (mask masked)
  unfolding decode_pla
  decode_pla-parts bs magic masked n size whole front back known small =
      rw (size, front, back) (ground (arith, whole, known, small))

  -- Reading what was laid out: the magic and the payload come back.
  decode_pla-layout :
      (magic payload : Bytes)
      → length magic ≤ 65535
      → has_prefix magic magic_prefix ≡ true
      → IsBytes payload
      → length payload ≤ max_decoded + 2 ^ 20
      → decode_pla zlib (put_uint16 (length magic) (magic ++ mask payload))
        ≡ open_payload zlib magic payload
  decode_pla-layout magic payload fits known bytes small =
      let n = length magic in
      let bs = put_uint16 n (magic ++ mask payload) in
      let size : uint16_at bs 0 ≡ n = omega arith in
      let whole : length bs ≡ 2 + n + length (mask payload) =
        omega (arith, length-append magic (mask payload)) in
      decode_pla-parts bs magic (mask payload) n size whole
        (take-append magic (mask payload) n refl)
        (sym (drop-drop bs 2 n (2 + n) refl) ∙ drop-append magic (mask payload) n refl) known
        (omega (arith, small, length-mask_from 0 payload))
      ∙ ap (open_payload zlib magic) (mask_from-mask_from 0 payload bytes)

  -- The file that reading a written one gives back: an empty magic became the default.
  abbrev pub named : PlaFile → PlaFile
  named file = record file { magic = magic_or_default zlib file.magic }

  -- A plain container is read back, unless its payload has the header of a compressed one.
  pub decode_pla-encode_pla :
      (file : PlaFile) (bs : Bytes)
      → IsBytes file.xml
      → file.compressed ≡ false
      → looks_zlib file.xml ≡ false
      → encode_pla zlib file ≡ ok bs
      → decode_pla zlib bs ≡ ok (named file)
  decode_pla-encode_pla file bs bytes plain distinct e =
      let (small, fits, known, (payload, chosen, laid_out)) = encode_pla-cases file bs e in
      let same : file.xml ≡ payload = ground (arith, plain, chosen) in
      rw
        (
          laid_out,
          sym same,
          decode_pla-layout (magic_or_default zlib file.magic) file.xml fits known bytes
              (omega arith),
        )
        (unfold open_payload in ground (arith, plain, distinct, small))

  -- A compressed container is read back as it was written, an empty magic as the default one,
  -- when zlib keeps its documented laws and what it makes of the plan is at most a mebibyte over
  -- the cap.
  pub decode_pla-encode_pla_compressed :
      (laws : ZlibLaws zlib) (file : PlaFile) (bs z : Bytes)
      → file.compressed ≡ true
      → zlib.compress file.xml ≡ ok z
      → length z ≤ max_decoded + 2 ^ 20
      → encode_pla zlib file ≡ ok bs
      → decode_pla zlib bs ≡ ok (named file)
  decode_pla-encode_pla_compressed laws file bs z packed made small e =
      let (fits_xml, fits, known, (payload, chosen, laid_out)) = encode_pla-cases file bs e in
      let same : z ≡ payload = ground (arith, packed, made, chosen) in
      rw
        (
          laid_out,
          sym same,
          decode_pla-layout (magic_or_default zlib file.magic) z fits known
              (laws.compress-IsBytes file.xml z made) small,
        )
        (unfold open_payload read_inflated in
          ground (
            arith,
            packed,
            laws.compress-looks_zlib file.xml z made,
            laws.open_reader-compress file.xml z made,
            fits_xml,
          ))

  open_payload-plain :
      (magic payload : Bytes) (file : PlaFile)
      → open_payload zlib magic payload ≡ ok file
      → file.compressed ≡ false
      → (record { magic = magic; xml = payload; compressed = false } ≡ file)
        × (length payload ≤ max_decoded)
  unfolding open_payload
  open_payload-plain magic payload file e plain = elim (Bool-cases (looks_zlib payload)) [
    | inr raw ↦ (ground (arith, raw), ground (arith, raw))
    | inl packed ↦ elim (Result-cases (zlib.open_reader payload)) [
      | inr (x, bad) ↦ absurd (ground (arith, packed, bad))
      | inl (stream, opened) ↦ elim (Result-cases (read_inflated zlib stream)) [
        | inr (x, bad) ↦ absurd (ground (arith, packed, opened, bad))
        | inl (xml, good) ↦ absurd (ground (arith, packed, opened, good, plain))
      ]
    ]
  ]

  decode_pla-cases :
      (bs : Bytes) (file : PlaFile)
      → decode_pla zlib bs ≡ ok file
      → (2 + uint16_at bs 0 ≤ length bs)
        × (has_prefix (take (uint16_at bs 0) (drop 2 bs)) magic_prefix ≡ true)
        × (open_payload zlib
              (take (uint16_at bs 0) (drop 2 bs))
              (mask (drop (2 + uint16_at bs 0) bs))
            ≡ ok file)
  unfolding decode_pla
  decode_pla-cases bs file e = ground arith

  prefix_named :
      (magic : Bytes) → has_prefix magic magic_prefix ≡ true → magic_or_default zlib magic ≡ magic
  prefix_named [] h = absurd (cc)
  prefix_named (b ∷ bs) h = refl

  encode_pla-plain :
      (magic payload : Bytes)
      → length magic ≤ 65535
      → has_prefix magic magic_prefix ≡ true
      → length payload ≤ max_decoded
      → encode_pla zlib (record { magic = magic; xml = payload; compressed = false })
        ≡ ok (put_uint16 (length magic) (magic ++ mask payload))
  unfolding encode_pla
  encode_pla-plain magic payload fits known small = rw (prefix_named magic known) (ground arith)

  -- A container whose payload was not compressed is, once read, written back byte for byte.
  pub encode_pla-decode_pla :
      (bs : Bytes) (file : PlaFile)
      → IsBytes bs
      → decode_pla zlib bs ≡ ok file
      → file.compressed ≡ false
      → encode_pla zlib file ≡ ok bs
  encode_pla-decode_pla bs file bytes e plain =
      let n = uint16_at bs 0 in
      let (whole, known, opened) = decode_pla-cases bs file e in
      let masked = drop (2 + n) bs in
      let (same, small) = open_payload-plain (take n (drop 2 bs)) (mask masked) file opened plain in
      let size : length (take n (drop 2 bs)) ≡ n =
        omega (arith, length-take n (drop 2 bs), length-drop 2 bs) in
      let back : mask (mask masked) ≡ drop n (drop 2 bs) =
        mask_from-mask_from 0 masked (drop-IsBytes bs (2 + n) bytes)
        ∙ sym (drop-drop bs 2 n (2 + n) refl) in
      ap (encode_pla zlib) (sym same)
      ∙ encode_pla-plain (take n (drop 2 bs)) (mask masked)
          (omega (arith, size, uint16_at-lt bs 0 bytes)) known small
      ∙ ap (λ (out : Bytes). ok out)
          (ap (λ (k : ℕ). put_uint16 k (take n (drop 2 bs) ++ mask (mask masked))) size
            ∙ ap (λ (xs : Bytes). put_uint16 n (take n (drop 2 bs) ++ xs)) back
            ∙ ap (put_uint16 n) (take-append-drop n (drop 2 bs))
            ∙ sym (uint16_field bs 0 bytes (omega arith)))
