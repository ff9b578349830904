-- ===== src/Formats/Pla.antt =====
-- backend/formats/optivum/pla: the container around the XML of an Optivum plan. The zlib of Go is a
-- parameter.
pub mod Mask
pub mod RoundTrip
use Prim.Native.Nat.{bit_xor}
use goptivum.Prelude.{
  Bool, Result, [], drop, err, false, get_or, if◌then◌else◌, leb, length, list_eq, ltb, not, ok,
  refuse_if, suc, take, true, ℕ, ◌%◌, ◌&&◌, ◌*◌, ◌++◌, ◌+◌, ◌-◌, ◌==◌, ◌>>=◌, ◌>>◌, ◌^◌, ◌∷◌,
}
use goptivum.Text.{codes}
use goptivum.Gpf.Format.{Bytes, magic, put_uint16, uint16_at}

abbrev pub default_magic : Bytes
default_magic = codes "PlanOptivum400"

abbrev pub magic_prefix : Bytes
magic_prefix = codes "PlanOptivum"

abbrev pub max_decoded : ℕ
max_decoded = 64 * 2 ^ 20

abbrev pub key : Bytes
key = 0x1a ∷ 0xfa ∷ 0x3b ∷ 0xf8 ∷ 0x76 ∷ 0x07 ∷ 0x15 ∷ 0xd5 ∷ []

pub data PlaError : Type 0 where
  too_large truncated unknown_format magic_too_long : PlaError
  zlib_error : ℕ → PlaError

pub record PlaFile : Type 0 where
  pub magic : Bytes
  pub xml : Bytes
  pub compressed : Bool

-- `payload[i] ^= key[i%len(key)]`, from the index `i` on.
unfoldable pub mask_from : ℕ → Bytes → Bytes
mask_from i [] = []
mask_from i (b ∷ bs) = bit_xor b (get_or key (i % 8) 0) ∷ mask_from (suc i) bs

abbrev pub mask : Bytes → Bytes
mask payload = mask_from 0 payload

-- The header of RFC 1950: the method in the low four bits, and a multiple of 31.
unfoldable pub looks_zlib : Bytes → Bool
looks_zlib [] = false
looks_zlib (a ∷ []) = false
looks_zlib (a ∷ b ∷ bs) = a % 16 == 8 && (a * 256 + b) % 31 == 0

-- What reading a compressed stream yields: its bytes, and whether reading it then fails.
pub record Inflated : Type 0 where
  pub plain : Bytes
  pub broken : Bool

-- The operations of compress/zlib that the codec calls.
pub record Zlib : Type 0 where
  pub compress : Bytes → Result ℕ Bytes
  pub open_reader : Bytes → Result ℕ Inflated

abbrev pub or_zlib_error {ℓ} : {A : Type ℓ} → Result ℕ A → Result PlaError A
or_zlib_error (ok a) = ok a
or_zlib_error (err e) = err (zlib_error e)

abbrev pub is_nil : Bytes → Bool
is_nil [] = true
is_nil (b ∷ bs) = false

-- strings.HasPrefix
abbrev pub has_prefix : Bytes → Bytes → Bool
has_prefix s prefix = list_eq (take (length prefix) s) prefix

module _ (zlib : Zlib) where
  -- `io.ReadAll` of the stream, limited to one byte over the cap.
  unfoldable pub read_inflated : Inflated → Result PlaError Bytes
  read_inflated s = do
    refuse_if (s.broken && leb (length s.plain) max_decoded) (zlib_error 0)
    refuse_if (ltb max_decoded (length s.plain)) too_large
    ok s.plain

  -- The payload behind the magic, unmasked.
  unfoldable pub open_payload : Bytes → Bytes → Result PlaError PlaFile
  open_payload magic payload =
      if looks_zlib payload
      then (do
        stream ← or_zlib_error (zlib.open_reader payload)
        xml ← read_inflated stream
        ok (record { magic = magic; xml = xml; compressed = true }))
      else (do
        refuse_if (ltb max_decoded (length payload)) too_large
        ok (record { magic = magic; xml = payload; compressed = false }))

  unfoldable pub decode_pla : Bytes → Result PlaError PlaFile
  decode_pla bs = do
    refuse_if (ltb (length bs) 2) truncated
    let size = uint16_at bs 0
    refuse_if (ltb (length bs) (2 + size)) truncated
    let magic = take size (drop 2 bs)
    refuse_if (not (has_prefix magic magic_prefix)) unknown_format
    refuse_if (ltb (max_decoded + 2 ^ 20) (length bs - 2 - size)) too_large
    open_payload magic (mask (drop (2 + size) bs))

  -- An empty magic is the generation that this codec writes.
  abbrev pub magic_or_default : Bytes → Bytes
  magic_or_default [] = default_magic
  magic_or_default (b ∷ bs) = b ∷ bs

  abbrev pub payload_for : PlaFile → Result PlaError Bytes
  payload_for file = if file.compressed then or_zlib_error (zlib.compress file.xml) else ok file.xml

  unfoldable pub encode_pla : PlaFile → Result PlaError Bytes
  encode_pla file = do
    refuse_if (ltb max_decoded (length file.xml)) too_large
    let magic = magic_or_default file.magic
    refuse_if (ltb 65535 (length magic)) magic_too_long
    refuse_if (not (has_prefix magic magic_prefix)) unknown_format
    payload ← payload_for file
    ok (put_uint16 (length magic) (magic ++ mask payload))
