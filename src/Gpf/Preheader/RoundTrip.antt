-- ===== src/Gpf/Preheader/RoundTrip.antt =====
-- What `read_preheader` accepts, and that it reads back what `write_preheader` lays down.
use goptivum.Prelude.{
  [], ap, arith, drop, length, length-drop, list_eq→eq, ok, sym, take, take-append-drop, true, ℕ,
  ◌++◌, ◌+◌, ◌<◌, ◌∙◌, ◌∷◌, ◌≡◌, ◌≤◌, ◌⊎◌,
}
use goptivum.Gpf.Fields.{drop-IsBytes, uint16_at-lt, uint16_field, uint32_field}
use goptivum.Gpf.Format.{
  version as current, Bytes, IsBytes, has_encrypted, has_passphrase, magic, max_header, put_uint16,
  put_uint32, uint16_at, uint32_at,
}
use goptivum.Gpf.Preheader.{
  Preheader, fields_of, looks, read_preheader, unknown_flags, write_preheader,
}

-- The heads a reader honours, in a file with `left` bytes behind the preheader.
pub record IsReadable (head : Preheader) (left : ℕ) : Type 0 where
  pub known_version : head.version ≡ current
  pub flags_fit : head.flags < 65536
  pub no_unknown : unknown_flags head.flags ≡ 0
  pub passphrase_encrypts : (has_passphrase head.flags ≡ 0) ⊎ (has_encrypted head.flags ≡ 1)
  pub capped : head.header_len ≤ max_header
  pub present : head.header_len ≤ left

-- A readable head is read back from the bytes it was written as, whatever follows.
pub read_preheader-write_preheader :
    (head : Preheader) (rest : Bytes)
    → IsReadable head (length rest)
    → read_preheader (write_preheader head ++ rest) ≡ ok head
unfolding read_preheader write_preheader looks
read_preheader-write_preheader head rest h = ground arith

IsBytes-append_right : (xs ys : Bytes) → IsBytes (xs ++ ys) → IsBytes ys
IsBytes-append_right [] ys h = h
IsBytes-append_right (x ∷ xs) ys h = IsBytes-append_right xs ys h.1

looks-magic : (bs : Bytes) → looks bs ≡ true → bs ≡ magic ++ drop 8 bs
unfolding looks
looks-magic bs h =
    sym (take-append-drop 8 bs)
    ∙ ap (λ l. l ++ drop 8 bs) (list_eq→eq (take 8 bs) magic (ground arith))

-- Eight bytes are the three fields that they hold.
fields_back :
    (d : Bytes)
    → IsBytes d
    → 8 ≤ length d
    → d
      ≡ put_uint16
          (uint16_at d 0)
          (put_uint16 (uint16_at d 2) (put_uint32 (uint32_at d 4) (drop 8 d)))
fields_back d b h =
    uint16_field d 0 b (omega arith)
    ∙ ap (put_uint16 (uint16_at d 0)) (
        uint16_field d 2 b (omega arith)
        ∙ ap (put_uint16 (uint16_at d 2)) (uint32_field d 4 b (omega arith)))

-- The guards of the reader, read back from its success.
record Accepted (bs : Bytes) (head : Preheader) : Type 0 where
  looked : looks bs ≡ true
  long : 16 ≤ length bs
  fields : head ≡ fields_of bs
  known_version : head.version ≡ current
  no_unknown : unknown_flags head.flags ≡ 0
  passphrase_encrypts : (has_passphrase head.flags ≡ 0) ⊎ (has_encrypted head.flags ≡ 1)
  capped : head.header_len ≤ max_header
  present : 16 + head.header_len ≤ length bs

read_preheader-Accepted :
    (bs : Bytes) {head : Preheader} → read_preheader bs ≡ ok head → Accepted bs head
unfolding read_preheader
read_preheader-Accepted bs h = ground arith

fields_written :
    (d : Bytes) (head : Preheader)
    → IsBytes d
    → 8 ≤ length d
    → head ≡ fields_of (magic ++ d)
    → magic ++ d ≡ write_preheader head ++ drop 8 d
unfolding write_preheader
fields_written d head b h e = rw e (ap (λ l. magic ++ l) (fields_back d b h))

-- A head is accepted only from bytes that begin with its own encoding, and only a readable one:
-- the bytes are the written head and the rest of the file.
pub read_preheader_sound :
    (bs : Bytes) {head : Preheader}
    → IsBytes bs
    → read_preheader bs ≡ ok head
    → (bs ≡ write_preheader head ++ drop 16 bs) × IsReadable head (length (drop 16 bs))
read_preheader_sound bs {head} b h = (whole, readable)
  where
    acc : Accepted bs head
    acc = read_preheader-Accepted bs h

    d : Bytes
    d = drop 8 bs

    split : bs ≡ magic ++ d
    split = looks-magic bs acc.looked

    tail : drop 16 bs ≡ drop 8 d
    tail = ap (drop 16) split

    whole : bs ≡ write_preheader head ++ drop 16 bs
    whole = rw tail (
        split
        ∙ fields_written d head (drop-IsBytes bs 8 b) (omega (arith, length-drop 8 bs, acc.long))
            (acc.fields ∙ ap fields_of split))

    flags_eq : head.flags ≡ uint16_at bs 10
    flags_eq = ap (λ (r : Preheader). r.flags) acc.fields

    readable : IsReadable head (length (drop 16 bs))
    readable = record {
      known_version = acc.known_version;
      flags_fit = omega (arith, flags_eq, uint16_at-lt bs 10 b);
      no_unknown = acc.no_unknown;
      passphrase_encrypts = acc.passphrase_encrypts;
      capped = acc.capped;
      present = omega (arith, length-drop 16 bs, acc.present);
    }
