-- ===== src/Gpf/Chunks.antt =====
-- document/gpf/gpf.go: the framed region between header and footer, `readPayload` and `writeChunk`.
-- The walk's `offset` is kept as the bytes that are left, `region[offset:]`.
pub mod Walk
pub mod Find
use goptivum.Prelude.{
  Bool, Option, Result, [], drop, err, get_or, if◌then◌else◌, length, ltb, none, ok, refuse_if,
  some, suc, take, zero, ℕ, ◌%◌, ◌+◌, ◌/◌, ◌==◌, ◌>>=◌, ◌>>◌, ◌^◌, ◌∷◌,
}
use goptivum.Gpf.Format.{
  Bytes, Refusal, chunk_payload, malformed, max_payload, put_uint32, uint32_at,
  unsupported_algorithm,
}

-- One frame at the head of `rest`: its type, its body, and what follows it.
unfoldable pub read_frame : Bytes → Result Refusal (ℕ × Bytes × Bytes)
read_frame rest = do
  refuse_if (ltb (length rest) 5) malformed
  let kind = get_or rest 0 0
  let size = uint32_at rest 1
  let left = drop 5 rest
  refuse_if (ltb (length left) size) malformed
  refuse_if (ltb max_payload size) malformed
  ok (kind, take size left, drop size left)

-- `kind & chunkCritical != 0`
abbrev pub is_critical : ℕ → Bool
is_critical kind = kind / 128 % 2 == 1

-- The loop over the region, with the payload found so far and how many there were. `none` is
-- fuel that ran out.
unfoldable pub walk : ℕ → Bytes → Bytes → ℕ → Option (Result Refusal Bytes)
walk zero rest payload count = none
walk (suc fuel) [] payload count = some (if count == 0 then err malformed else ok payload)
walk (suc fuel) (b ∷ rest) payload count = elim (read_frame (b ∷ rest)) [
  | err e ↦ some (err e)
  | ok (kind, body, next) ↦
      let skip = walk fuel next payload count in
      let keep = walk fuel next body (count + 1) in
      if kind == chunk_payload
      then (if ltb 1 (count + 1) then some (err malformed) else keep)
      else if is_critical kind
      then some (err (unsupported_algorithm 0 kind))
      else skip
]

-- A frame takes at least five bytes, so the region's length is fuel enough.
unfoldable pub read_payload : Bytes → Option (Result Refusal Bytes)
unfolding walk
read_payload region = walk (suc (length region)) region [] 0

unfoldable pub write_chunk : ℕ → Bytes → Bytes
write_chunk kind body = kind ∷ put_uint32 (length body % 2 ^ 32) body
