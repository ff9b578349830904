-- ===== src/Tests/Gpf.antt =====
-- A small file of document/gpf, in its parts.
use goptivum.Prelude.{
  List, [], arith, drop, inr, length, ok, refl, some, take, ℕ, ◌++◌, ◌∷◌, ◌≡◌, ◌≤◌,
}
use goptivum.Gpf.Fields.{all_bytes-IsBytes}
use goptivum.Gpf.Format.{Bytes, max_footer, max_payload}
use goptivum.Gpf.Preheader.{Preheader, looks, read_preheader, write_preheader}
use goptivum.Gpf.Preheader.RoundTrip.{IsReadable, read_preheader_sound}
use goptivum.Gpf.Chunks.{read_frame, read_payload, walk}
use goptivum.Gpf.Chunks.Walk.{AllSkippable, around, read_payload_sound, region_of}
use goptivum.Gpf.Chunks.Find.{read_payload-around}
use goptivum.Gpf.Footer.{read_footer_region, write_locator}
use goptivum.Gpf.Footer.Locate.{read_footer_region_sound}

abbrev small_head : Preheader
small_head = record { version = 1; flags = 3; header_len = 2 }

abbrev small_rest : Bytes
small_rest = 71 ∷ 10 ∷ 5 ∷ []

small_head-IsReadable : IsReadable small_head 3
small_head-IsReadable = record {
  known_version = refl;
  flags_fit = omega arith;
  no_unknown = refl;
  passphrase_encrypts = inr refl;
  capped = omega arith;
  present = omega arith;
}

abbrev small_file : Bytes
small_file = 0x89 ∷ 71 ∷ 80 ∷ 70 ∷ 13 ∷ 10 ∷ 0x1a ∷ 10 ∷ 1 ∷ 0 ∷ 3 ∷ 0 ∷ 2 ∷ 0 ∷ 0 ∷ 0 ∷ small_rest

small_file_read : read_preheader small_file ≡ ok small_head
unfolding read_preheader looks
small_file_read = refl

read_preheader_sound_example :
    (small_file ≡ write_preheader small_head ++ drop 16 small_file)
    × IsReadable small_head (length (drop 16 small_file))
read_preheader_sound_example =
    read_preheader_sound small_file (all_bytes-IsBytes small_file refl) small_file_read

abbrev notes : List (ℕ × Bytes)
notes = (2, 7 ∷ 8 ∷ []) ∷ []

notes-AllSkippable : AllSkippable notes
notes-AllSkippable = ((omega arith, omega arith), tt)

read_payload-around_example :
    read_payload (region_of (around notes (1 ∷ 2 ∷ 3 ∷ []) notes)) ≡ some (ok (1 ∷ 2 ∷ 3 ∷ []))
read_payload-around_example =
    read_payload-around notes (1 ∷ 2 ∷ 3 ∷ []) notes notes-AllSkippable notes-AllSkippable
      (omega arith)

abbrev small_region : Bytes
small_region = 2 ∷ 1 ∷ 0 ∷ 0 ∷ 0 ∷ 9 ∷ 0x81 ∷ 2 ∷ 0 ∷ 0 ∷ 0 ∷ 6 ∷ 7 ∷ []

small_region_read : read_payload small_region ≡ some (ok (6 ∷ 7 ∷ []))
unfolding read_payload walk read_frame
small_region_read = refl

read_payload_sound_example :
    (before : List (ℕ × Bytes)) × (after : List (ℕ × Bytes)) × (small_region
      ≡ region_of (around before (6 ∷ 7 ∷ []) after))
    × AllSkippable before
    × AllSkippable after
    × (2 ≤ max_payload)
read_payload_sound_example =
    read_payload_sound small_region (6 ∷ 7 ∷ []) (all_bytes-IsBytes small_region refl)
      small_region_read

abbrev small_tail : Bytes
small_tail = 1 ∷ 2 ∷ 3 ∷ 4 ∷ 5 ∷ 2 ∷ 0 ∷ 0 ∷ 0 ∷ 0x89 ∷ 71 ∷ 80 ∷ 70 ∷ 13 ∷ 10 ∷ 0x1a ∷ 10 ∷ []

small_tail_read : read_footer_region small_tail 2 ≡ ok (4 ∷ 5 ∷ [], 3 ∷ [])
unfolding read_footer_region
small_tail_read = refl

read_footer_region_sound_example :
    (small_tail ≡ take 2 small_tail ++ ((3 ∷ []) ++ ((4 ∷ 5 ∷ []) ++ write_locator 2)))
    × (2 ≤ max_footer)
read_footer_region_sound_example =
    read_footer_region_sound small_tail 2 (4 ∷ 5 ∷ []) (3 ∷ []) (all_bytes-IsBytes small_tail refl)
      small_tail_read
