-- ===== src/Gpf/Footer.antt =====
-- document/gpf/gpf.go: the way in from the end of a file, `readFooterRegion` and `writeLocator`.
pub mod Locate
use goptivum.Prelude.{
  Result, drop, length, list_eq, ltb, not, ok, refuse_if, take, ℕ, ◌%◌, ◌+◌, ◌-◌, ◌>>=◌, ◌>>◌, ◌^◌,
}
use goptivum.Gpf.Format.{
  Bytes, Refusal, locator_size, magic, malformed, max_footer, put_uint32, uint32_at,
}

unfoldable pub write_locator : ℕ → Bytes
write_locator footer_len = put_uint32 (footer_len % 2 ^ 32) magic

-- The footer's bytes, and the bytes between `after` and it.
unfoldable pub read_footer_region : Bytes → ℕ → Result Refusal (Bytes × Bytes)
read_footer_region bs after = do
  refuse_if (ltb (length bs) (after + locator_size)) malformed
  let locator = drop (length bs - locator_size) bs
  refuse_if (not (list_eq (drop 4 locator) magic)) malformed
  let footer_len = uint32_at locator 0
  refuse_if (ltb max_footer footer_len) malformed
  let end = length bs - locator_size
  refuse_if (ltb (end - after) footer_len) malformed
  let start = end - footer_len
  ok (take (end - start) (drop start bs), take (start - after) (drop after bs))
