-- ===== src/Gpf/Container.antt =====
-- document/gpf/file.go: a whole file, `Encode` and `Decode`. The age library and the codec of
-- documents are parameters.
pub mod RoundTrip
pub mod Sound
use goptivum.Prelude.{
  Option, Result, [], drop, err, if◌then◌else◌, length, ltb, none, ok, refuse_if, some, suc, take,
  zero, ℕ, ◌%◌, ◌&&◌, ◌++◌, ◌+◌, ◌/◌, ◌==◌, ◌>>=◌, ◌>>◌, ◌∷◌,
}
use goptivum.Text.{codes}
use goptivum.Gpf.Format.{
  Bytes, Refusal, chunk_payload, has_encrypted, has_passphrase, malformed, max_footer, max_header,
  preheader_size, version,
}
use goptivum.Gpf.Preheader.{Preheader, read_preheader, write_preheader}
use goptivum.Gpf.Chunks.{read_payload, write_chunk}
use goptivum.Gpf.Footer.{read_footer_region, write_locator}
use goptivum.Gpf.Header.{
  Header, check_mode_agrees, encode_header, field_format, field_keys, field_mode, get, mode_of,
  new_header, parse_header, set_field,
}
use goptivum.Gpf.Crypto.{Age, ReadOptions, WriteOptions, check_realm, lift, unwrap, wrap}

-- document.Encode, as far as the bytes, and document.Decode.
pub record Codec : Type 1 where
  pub Document : Type 0
  pub encode : Document → Result ℕ Bytes
  pub decode : Bytes → Result ℕ Document

-- `fmt.Sprintf("%d", n)`: the decimal digits, by fuel that the caller bounds.
unfoldable pub decimal_from : ℕ → ℕ → Bytes → Bytes
decimal_from zero n out = out
decimal_from (suc fuel) n out =
    let more = decimal_from fuel (n / 10) ((b'0' + n % 10) ∷ out) in
    if ltb n 10 then (b'0' + n) ∷ out else more

unfoldable pub decimal : ℕ → Bytes
unfolding decimal_from
decimal n = decimal_from (suc n) n []

unfoldable pub default_footer : Header → Header
default_footer h =
    set_field (set_field new_header field_format (get h field_format)) field_mode (get h field_mode)

module _ (age : Age) (codec : Codec) where
  open age use {Identity, Recipient}
  open codec use {Document, encode, decode}

  pub record File : Type 0 where
    pub header : Header
    pub footer : Header
    pub document : Document
    pub mode : Bytes

  -- `options.Header.clone()`: a nil header is an empty one.
  abbrev pub clone : Option Header → Header
  clone none = new_header
  clone (some h) = h

  -- The header as it is written: format, mode and key count say what happened.
  unfoldable pub written_header : WriteOptions age → ℕ → Header
  written_header options flags =
      let base = set_field (clone options.header) field_keys [] in
      let told =
        set_field (set_field base field_format (decimal version)) field_mode (mode_of flags) in
      if has_encrypted flags == 1 && has_passphrase flags == 0
      then set_field told field_keys (decimal (length options.recipients) ++ codes " recipients")
      else told

  abbrev pub footer_or : Option Header → Header → Header
  footer_or none h = default_footer h
  footer_or (some f) h = f

  unfoldable pub encode_file : Document → WriteOptions age → Result Refusal Bytes
  encode_file doc options = do
    encoded ← lift (encode doc)
    (sealed, flags) ← wrap age encoded options
    let header = written_header options flags
    header_bytes ← encode_header header
    refuse_if (ltb max_header (length header_bytes)) malformed
    footer_bytes ← encode_header (footer_or options.footer header)
    refuse_if (ltb max_footer (length footer_bytes)) malformed
    let head : Preheader = record {
      version = version;
      flags = flags;
      header_len = length header_bytes;
    }
    ok (
        write_preheader head
        ++ (header_bytes
            ++ (write_chunk chunk_payload sealed
                ++ (footer_bytes ++ write_locator (length footer_bytes)))))

  -- A walk that ran out of fuel, which none does, would be malformed.
  abbrev pub payload_of : Option (Result Refusal Bytes) → Result Refusal Bytes
  payload_of none = err malformed
  payload_of (some r) = r

  unfoldable pub decode_file : Bytes → ReadOptions age → Result Refusal File
  decode_file bs options = do
    head ← read_preheader bs
    let header_end_at = preheader_size + head.header_len
    header ← parse_header (take head.header_len (drop preheader_size bs))
    check_mode_agrees header head.flags
    check_realm header options.realm
    (footer_bytes, region) ← read_footer_region bs header_end_at
    footer ← parse_header footer_bytes
    payload ← payload_of (read_payload region)
    plain ← unwrap age payload head.flags options
    doc ← lift (decode plain)
    ok (record { header = header; footer = footer; document = doc; mode = mode_of head.flags })
