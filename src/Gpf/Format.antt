-- ===== src/Gpf/Format.antt =====
-- document/gpf/gpf.go and crypto.go: the constants of the format, the refusals, and the
-- little-endian fields of encoding/binary. A byte string is a list of numbers below 256.
use goptivum.Prelude.{ℕ, suc, ◌+◌, ◌*◌, ◌/◌, ◌%◌, ◌^◌, ◌<◌, List, [], ◌∷◌, get_or}

abbrev pub Bytes : Type 0
Bytes = List ℕ

-- Every element of a byte string is a byte.
abbrev pub IsBytes : Bytes → Type 0
IsBytes [] = Unit
IsBytes (b ∷ bs) = (b < 256) × IsBytes bs

pub data Refusal : Type 0 where
  not_gpf malformed password_required identity_required wrong_password : Refusal
  unsupported_version : ℕ → ℕ → Refusal
  unsupported_algorithm : ℕ → ℕ → Refusal
  wrong_realm : Bytes → Bytes → Refusal
  -- an error of another package, or one with no message key
  failure : ℕ → Refusal

abbrev pub magic : Bytes
magic = 0x89 ∷ b'G' ∷ b'P' ∷ b'F' ∷ 13 ∷ 10 ∷ 0x1a ∷ 10 ∷ []

abbrev pub version : ℕ
version = 1

abbrev pub flag_encrypted : ℕ
flag_encrypted = 1

abbrev pub flag_passphrase : ℕ
flag_passphrase = 2

abbrev pub chunk_payload : ℕ
chunk_payload = 0x81

abbrev pub preheader_size : ℕ
preheader_size = 16

abbrev pub locator_size : ℕ
locator_size = 12

abbrev pub max_header : ℕ
max_header = 2 ^ 20

abbrev pub max_footer : ℕ
max_footer = 2 ^ 16

abbrev pub max_payload : ℕ
max_payload = 2 ^ 26

-- binary.LittleEndian.Uint16 and Uint32 of the bytes from `i` on.
abbrev pub uint16_at : Bytes → ℕ → ℕ
uint16_at bs i = get_or bs i 0 + get_or bs (suc i) 0 * 256

abbrev pub uint32_at : Bytes → ℕ → ℕ
uint32_at bs i =
    get_or bs i 0
    + get_or bs (suc i) 0 * 256
    + get_or bs (suc (suc i)) 0 * 65536
    + get_or bs (suc (suc (suc i))) 0 * 16777216

-- PutUint16 and PutUint32, before the bytes `rest`.
abbrev pub put_uint16 : ℕ → Bytes → Bytes
put_uint16 n rest = n % 256 ∷ n / 256 % 256 ∷ rest

abbrev pub put_uint32 : ℕ → Bytes → Bytes
put_uint32 n rest = n % 256 ∷ n / 256 % 256 ∷ n / 65536 % 256 ∷ n / 16777216 % 256 ∷ rest

-- `n & flag != 0` for the two flags.
abbrev pub has_encrypted : ℕ → ℕ
has_encrypted flags = flags % 2

abbrev pub has_passphrase : ℕ → ℕ
has_passphrase flags = flags / 2 % 2
