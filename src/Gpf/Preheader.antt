-- ===== src/Gpf/Preheader.antt =====
-- document/gpf/gpf.go: the fixed head of a file, `readPreheader` and `writePreheader`.
pub mod RoundTrip
use goptivum.Prelude.{
  ℕ, ◌+◌, ◌-◌, ◌%◌, List, [], Bool, not, ◌&&◌, length, take, ltb, leb, ◌==◌, list_eq, Result, ok,
  ◌>>=◌, ◌>>◌, refuse_if, ◌++◌, if◌then◌else◌,
}
use goptivum.Gpf.Format.{
  Bytes, Refusal, not_gpf, malformed, unsupported_version, unsupported_algorithm, magic,
  version as current, preheader_size, max_header, uint16_at, uint32_at, put_uint16, put_uint32,
  has_encrypted, has_passphrase,
}

pub record Preheader : Type 0 where
  pub version : ℕ  -- uint16
  pub flags : ℕ  -- uint16
  pub header_len : ℕ  -- uint32

unfoldable pub looks : Bytes → Bool
looks bs = leb 8 (length bs) && list_eq (take 8 bs) magic

-- The three fields, from their offsets.
abbrev pub fields_of : Bytes → Preheader
fields_of bs = record {
  version = uint16_at bs 8;
  flags = uint16_at bs 10;
  header_len = uint32_at bs 12;
}

-- `flags &^ knownFlags & criticalFlags`: the low byte without its two lowest bits.
abbrev pub unknown_flags : ℕ → ℕ
unknown_flags flags = flags % 256 - flags % 4

unfoldable pub read_preheader : Bytes → Result Refusal Preheader
read_preheader bs = do
  refuse_if (not (looks bs)) not_gpf
  refuse_if (ltb (length bs) preheader_size) malformed
  let head = fields_of bs
  refuse_if (not (head.version == current)) (unsupported_version head.version current)
  refuse_if (not (unknown_flags head.flags == 0))
      (unsupported_algorithm (unknown_flags head.flags) 0)
  refuse_if (has_passphrase head.flags == 1 && has_encrypted head.flags == 0) malformed
  refuse_if (ltb max_header head.header_len) malformed
  refuse_if (ltb (length bs) (preheader_size + head.header_len)) malformed
  ok head

unfoldable pub write_preheader : Preheader → Bytes
write_preheader head =
    magic ++ put_uint16 head.version (put_uint16 head.flags (put_uint32 head.header_len []))
