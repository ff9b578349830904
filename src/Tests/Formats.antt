-- ===== src/Tests/Formats.antt =====
-- A short plan in its container, with a zlib that only adds the header.
use goptivum.Prelude.{
  Bool, Result, [], arith, err, false, if◌then◌else◌, ltb, ok, refl, true, ℕ, ◌&&◌, ◌++◌, ◌∷◌, ◌≡◌,
}
use goptivum.Text.{codes}
use goptivum.Gpf.Format.{Bytes, IsBytes, put_uint16}
use goptivum.Formats.Pla.{
  Inflated, PlaFile, Zlib, decode_pla, encode_pla, looks_zlib, mask_from, open_payload,
}
use goptivum.Formats.Pla.RoundTrip.{
  ZlibLaws, decode_pla-encode_pla_compressed, encode_pla-decode_pla,
}

abbrev toy_open : Bytes → Result ℕ Inflated
toy_open (a ∷ b ∷ bs) = ok (record { plain = bs; broken = false })
toy_open _ = err 1

-- Input that is no list of bytes is refused, so that the output always is one.
abbrev all_bytes : Bytes → Bool
all_bytes [] = true
all_bytes (b ∷ bs) = ltb b 256 && all_bytes bs

abbrev toy_zlib : Zlib
toy_zlib = record {
  compress = λ xml. if all_bytes xml then ok (0x78 ∷ 0x9c ∷ xml) else err 2;
  open_reader = toy_open;
}

all_bytes-IsBytes : (bs : Bytes) → all_bytes bs ≡ true → IsBytes bs
all_bytes-IsBytes [] h = tt
all_bytes-IsBytes (b ∷ bs) h = (ground (arith, h), all_bytes-IsBytes bs (ground (arith, h)))

toy_compressed :
    (xml z : Bytes)
    → toy_zlib.compress xml ≡ ok z
    → (all_bytes xml ≡ true) × (z ≡ 0x78 ∷ 0x9c ∷ xml)
toy_compressed xml z e = ground (arith, e)

toy_laws : ZlibLaws toy_zlib
unfolding looks_zlib
toy_laws = record {
  compress-IsBytes = λ xml z e.
      let (bytes, made) = toy_compressed xml z e in
      rw made (omega arith, (omega arith, all_bytes-IsBytes xml bytes));
  compress-looks_zlib = λ xml z e. let (bytes, made) = toy_compressed xml z e in rw made refl;
  open_reader-compress = λ xml z e. let (bytes, made) = toy_compressed xml z e in rw made refl;
}

abbrev small_plan : PlaFile
small_plan = record { magic = codes "PlanOptivum430"; xml = codes "<a/>"; compressed = true }

-- The bytes it is written as, and what they are read as.
abbrev written_plan : Bytes
written_plan = put_uint16 14 (codes "PlanOptivum430" ++ mask_from 0 (0x78 ∷ 0x9c ∷ codes "<a/>"))

plan_is_written : encode_pla toy_zlib small_plan ≡ ok written_plan
unfolding encode_pla
plan_is_written = refl

decode_pla-encode_pla_compressed_example : decode_pla toy_zlib written_plan ≡ ok small_plan
decode_pla-encode_pla_compressed_example =
    decode_pla-encode_pla_compressed toy_zlib toy_laws small_plan written_plan
      (0x78 ∷ 0x9c ∷ codes "<a/>") refl refl (omega arith) plan_is_written

abbrev raw_plan : PlaFile
raw_plan = record small_plan { compressed = false }

abbrev raw_bytes : Bytes
raw_bytes = put_uint16 14 (codes "PlanOptivum430" ++ mask_from 0 (codes "<a/>"))

raw_is_read : decode_pla toy_zlib raw_bytes ≡ ok raw_plan
unfolding decode_pla open_payload looks_zlib mask_from
raw_is_read = refl

raw-IsBytes : IsBytes raw_bytes
unfolding mask_from
raw-IsBytes = all_bytes-IsBytes raw_bytes refl

encode_pla-decode_pla_example : encode_pla toy_zlib raw_plan ≡ ok raw_bytes
encode_pla-decode_pla_example =
    encode_pla-decode_pla toy_zlib raw_bytes raw_plan raw-IsBytes raw_is_read refl
