-- ===== src/Gpf/Container/Sound.antt =====
-- What a file that is read must have been, byte for byte.
use mathlib.Core.Path.{subst}
use goptivum.Prelude.{
  List, Option, Result, Result-cases, [], ap, append_assoc, arith, drop, inl, inr, length,
  length-take, none, ok, refl, some, suc, sym, take, zero, ℕ, ◌++◌, ◌+◌, ◌∙◌, ◌∷◌, ◌≡◌,
}
use goptivum.Gpf.Format.{Bytes, IsBytes, Refusal, version}
use goptivum.Gpf.Preheader.{Preheader, read_preheader, write_preheader}
use goptivum.Gpf.Preheader.RoundTrip.{read_preheader_sound}
use goptivum.Gpf.Chunks.{read_payload}
use goptivum.Gpf.Chunks.Walk.{AllSkippable, around, read_payload_sound, region_of}
use goptivum.Gpf.Footer.{read_footer_region, write_locator}
use goptivum.Gpf.Footer.Locate.{read_footer_region_sound}
use goptivum.Gpf.Header.{check_mode_agrees, mode_of, parse_header}
use goptivum.Gpf.Crypto.{Age, ReadOptions, check_realm, unwrap}
use goptivum.Gpf.Container.{Codec, File, decode_file, payload_of}

module _ (age : Age) (codec : Codec) where
  -- Bytes that are a file, as this reader sees it: a readable head, a header block, one payload
  -- chunk among chunks that may be skipped, a footer block and a locator, and nothing else; the
  -- header's mode line and realm agree with the flags and the reader, and the document is what the
  -- payload opens and decodes to.
  pub record IsFile (r : ReadOptions age) (bs : Bytes) (file : File age codec) : Type 0 where
    pub head : Preheader
    pub header_bytes : Bytes
    pub before : List (ℕ × Bytes)
    pub payload : Bytes
    pub after : List (ℕ × Bytes)
    pub footer_bytes : Bytes
    pub plain : Bytes
    pub laid_out :
        bs
        ≡ write_preheader head
          ++ (header_bytes
              ++ (region_of (around before payload after)
                  ++ (footer_bytes ++ write_locator (length footer_bytes))))
    pub header_length : length header_bytes ≡ head.header_len
    pub known_version : head.version ≡ version
    pub skipped : AllSkippable before × AllSkippable after
    pub header_parses : parse_header header_bytes ≡ ok file.header
    pub footer_parses : parse_header footer_bytes ≡ ok file.footer
    pub mode_agrees : check_mode_agrees file.header head.flags ≡ ok tt
    pub realm_agrees : check_realm file.header r.realm ≡ ok tt
    pub opens : unwrap age payload head.flags r ≡ ok plain
    pub decodes : codec.decode plain ≡ ok file.document
    pub mode_told : file.mode ≡ mode_of head.flags

  -- What the steps of `decode_file` answered.
  record Steps (r : ReadOptions age) (bs : Bytes) (file : File age codec) : Type 0 where
    head : Preheader
    footer_bytes : Bytes
    region : Bytes
    payload : Bytes
    plain : Bytes
    reads_head : read_preheader bs ≡ ok head
    header_parses : parse_header (take head.header_len (drop 16 bs)) ≡ ok file.header
    mode_agrees : check_mode_agrees file.header head.flags ≡ ok tt
    realm_agrees : check_realm file.header r.realm ≡ ok tt
    finds_footer : read_footer_region bs (16 + head.header_len) ≡ ok (footer_bytes, region)
    footer_parses : parse_header footer_bytes ≡ ok file.footer
    finds_payload : payload_of age codec (read_payload region) ≡ ok payload
    opens : unwrap age payload head.flags r ≡ ok plain
    decodes : codec.decode plain ≡ ok file.document
    mode_told : file.mode ≡ mode_of head.flags

  decode_file-Steps :
      (r : ReadOptions age) (bs : Bytes) (file : File age codec)
      → decode_file age codec bs r ≡ ok file
      → Steps r bs file
  unfolding decode_file
  decode_file-Steps r bs file e = elim (Result-cases (read_preheader bs)) [
    | inr (n, bad) ↦ absurd (ground (arith, bad))
    | inl (head, a) ↦ elim (Result-cases (parse_header (take head.header_len (drop 16 bs)))) [
      | inr (n, bad) ↦ absurd (ground (arith, a, bad))
      | inl (header, b) ↦ elim (Result-cases (check_mode_agrees header head.flags)) [
        | inr (n, bad) ↦ absurd (ground (arith, a, b, bad))
        | inl (u, c) ↦ elim (Result-cases (check_realm header r.realm)) [
          | inr (n, bad) ↦ absurd (ground (arith, a, b, c, bad))
          | inl (v, d) ↦ elim (Result-cases (read_footer_region bs (16 + head.header_len))) [
            | inr (n, bad) ↦ absurd (ground (arith, a, b, c, d, bad))
            | inl ((footer_bytes, region), f) ↦ elim (Result-cases (parse_header footer_bytes)) [
              | inr (n, bad) ↦ absurd (ground (arith, a, b, c, d, f, bad))
              | inl (footer, g) ↦ elim (Result-cases (payload_of age codec (read_payload region))) [
                | inr (n, bad) ↦ absurd (ground (arith, a, b, c, d, f, g, bad))
                | inl (payload, h) ↦ elim (Result-cases (unwrap age payload head.flags r)) [
                  | inr (n, bad) ↦ absurd (ground (arith, a, b, c, d, f, g, h, bad))
                  | inl (plain, i) ↦ elim (Result-cases (codec.decode plain)) [
                    | inr (n, bad) ↦ absurd (ground (arith, a, b, c, d, f, g, h, i, bad))
                    | inl (doc, j) ↦
                        let same : record {
                          header = header;
                          footer = footer;
                          document = doc;
                          mode = mode_of head.flags;
                        }
                            ≡ file =
                          ground (arith, a, b, c, d, f, g, h, i, j) in
                        subst (Steps r bs) same (record {
                          head = head;
                          footer_bytes = footer_bytes;
                          region = region;
                          payload = payload;
                          plain = plain;
                          reads_head = a;
                          header_parses = b;
                          mode_agrees = c;
                          realm_agrees = d;
                          finds_footer = f;
                          footer_parses = g;
                          finds_payload = h;
                          opens = i;
                          decodes = j;
                          mode_told = refl;
                        })
                  ]
                ]
              ]
            ]
          ]
        ]
      ]
    ]
  ]

  payload_of-some :
      (found : Option (Result Refusal Bytes)) (payload : Bytes)
      → payload_of age codec found ≡ ok payload
      → found ≡ some (ok payload)
  payload_of-some none payload h = absurd (cc)
  payload_of-some (some x) payload h = ap some h

  append-IsBytes : (xs ys : Bytes) → IsBytes (xs ++ ys) → IsBytes xs × IsBytes ys
  append-IsBytes [] ys h = (tt, h)
  append-IsBytes (x ∷ xs) ys h =
      let (front, back) = append-IsBytes xs ys h.1 in ((h.0, front), back)

  abbrev nothing : Bytes
  nothing = []

  take_nil : (n : ℕ) → take n [] ≡ nothing
  take_nil zero = refl
  take_nil (suc n) = refl

  take_add : (n m : ℕ) (xs : Bytes) → take (n + m) xs ≡ take n xs ++ take m (drop n xs)
  take_add zero m xs = ap (λ (k : ℕ). take k xs) (omega arith)
  take_add (suc n) m [] = take_nil (suc n + m) ∙ sym (take_nil m)
  take_add (suc n) m (x ∷ xs) =
      let same : suc n + m ≡ suc (n + m) = omega arith in
      ap (λ (k : ℕ). take k (x ∷ xs)) same ∙ ap (λ ys. x ∷ ys) (take_add n m xs)

  take_head :
      (bs rest : Bytes) (head : Preheader)
      → bs ≡ write_preheader head ++ rest
      → take 16 bs ≡ write_preheader head
  unfolding write_preheader
  take_head bs rest head h = rw h refl

  -- A file that is read is, byte for byte, a head, a header block, one payload chunk among chunks
  -- that may be skipped, a footer block and a locator; its parts parse, agree with the flags and the
  -- reader's realm, and open and decode to the document that is returned.
  pub decode_file-IsFile :
      (r : ReadOptions age) (bs : Bytes) (file : File age codec)
      → IsBytes bs
      → decode_file age codec bs r ≡ ok file
      → IsFile r bs file
  decode_file-IsFile r bs file bytes e =
      let s = decode_file-Steps r bs file e in
      let (split, readable) = read_preheader_sound bs bytes s.reads_head in
      let (tail, _) =
        read_footer_region_sound bs (16 + s.head.header_len) s.footer_bytes s.region bytes
          s.finds_footer in
      let region_bytes : IsBytes s.region =
        (append-IsBytes s.region _
          (append-IsBytes (take (16 + s.head.header_len) bs) _ (subst IsBytes tail bytes)).1).0 in
      let (before, after, whole, skips, skips', _) =
        read_payload_sound s.region s.payload region_bytes
          (payload_of-some (read_payload s.region) s.payload s.finds_payload) in
      let header_bytes = take s.head.header_len (drop 16 bs) in
      let behind = s.footer_bytes ++ write_locator (length s.footer_bytes) in
      let front : take (16 + s.head.header_len) bs ≡ write_preheader s.head ++ header_bytes =
        take_add 16 s.head.header_len bs
        ∙ ap (λ xs. xs ++ header_bytes) (take_head bs (drop 16 bs) s.head split) in
      record {
        head = s.head;
        header_bytes = header_bytes;
        before = before;
        payload = s.payload;
        after = after;
        footer_bytes = s.footer_bytes;
        plain = s.plain;
        laid_out =
            tail
            ∙ ap (λ xs. xs ++ (s.region ++ behind)) front
            ∙ append_assoc (write_preheader s.head) header_bytes (s.region ++ behind)
            ∙ ap (λ xs. write_preheader s.head ++ (header_bytes ++ (xs ++ behind))) whole;
        header_length =
            ground (arith, length-take s.head.header_len (drop 16 bs), readable.present);
        known_version = readable.known_version;
        skipped = (skips, skips');
        header_parses = s.header_parses;
        footer_parses = s.footer_parses;
        mode_agrees = s.mode_agrees;
        realm_agrees = s.realm_agrees;
        opens = s.opens;
        decodes = s.decodes;
        mode_told = s.mode_told;
      }
