-- ===== src/Tests/Container.antt =====
-- A whole file of document/gpf, plain and sealed by a password. The cipher of the test hides
-- nothing, and the documents are byte strings.
use goptivum.Prelude.{Result, [], arith, err, length, none, ok, refl, ℕ, ◌++◌, ◌∷◌, ◌≡◌}
use goptivum.Text.{codes, trim_space, utf8_from, utf8_step}
use goptivum.Gpf.Fields.{all_bytes-IsBytes}
use goptivum.Gpf.Format.{Bytes, Refusal, magic}
use goptivum.Gpf.Preheader.{write_preheader}
use goptivum.Gpf.Chunks.{write_chunk}
use goptivum.Gpf.Footer.{write_locator}
use goptivum.Gpf.Header.{
  Header, check_field, delete_field, encode_header, encode_lines, field_format, field_line,
  field_mode, get_field, has_field, mode_of, mode_password, new_header, parse_header, put_field,
  set_field, set_trimmed, width_of,
}
use goptivum.Gpf.Header.Lines.{IsClean}
use goptivum.Gpf.Header.RoundTrip.{IsHeader, parse_header-encode_header}
use goptivum.Gpf.Crypto.{
  Age, DecryptError, ReadOptions, Stream, WriteOptions, check_realm, unwrap, wrap,
}
use goptivum.Gpf.Crypto.RoundTrip.{AgeLaws, CanRead, same_password, unwrap-wrap, whole}
use goptivum.Gpf.Container.{
  Codec, decimal, decode_file, default_footer, encode_file, footer_or, written_header,
}
use goptivum.Gpf.Container.RoundTrip.{decode_file-encode_file, file_of}
use goptivum.Gpf.Container.Sound.{IsFile, decode_file-IsFile}

abbrev seal : Bytes → Result ℕ Bytes
seal plain = ok plain

abbrev open_sealed : Bytes → Result DecryptError Stream
open_sealed sealed = ok (whole sealed)

opens_same : (plain sealed : Bytes) → seal plain ≡ ok sealed → open_sealed sealed ≡ ok (whole plain)
opens_same plain sealed e = ground (arith, e)

abbrev open_cipher : Age
open_cipher = record {
  Identity = Bytes;
  Recipient = Bytes;
  new_scrypt_identity = λ p. ok p;
  set_max_work_factor = λ i top. i;
  new_scrypt_recipient = λ p. ok p;
  set_work_factor = λ to work. to;
  encrypt = λ plain rs. seal plain;
  decrypt = λ sealed is. open_sealed sealed;
}

abbrev open_laws : AgeLaws open_cipher
open_laws = record {
  Opens = λ to i. Unit;
  decrypt-encrypt = λ plain sealed rs is to i _ _ _ e. opens_same plain sealed e;
  Opens-set_work_factor = λ p to i work top _ _ _. tt;
  Opens_default = λ p to i top _ _ _. tt;
}

abbrev byte_codec : Codec
byte_codec = record { Document = Bytes; encode = λ doc. ok doc; decode = λ bs. ok bs }

abbrev with_password : WriteOptions open_cipher
with_password = record {
  header = none;
  passphrase = codes "pw";
  recipients = [];
  work_factor = 10;
  footer = none;
}

abbrev reader : ReadOptions open_cipher
reader = record { passphrase = codes "pw"; identities = []; realm = codes "here" }

reader-CanRead : CanRead open_cipher open_laws with_password reader
reader-CanRead = same_password (codes "pw") refl refl refl (omega arith)

sealed_by_password : wrap open_cipher (1 ∷ 2 ∷ []) with_password ≡ ok (1 ∷ 2 ∷ [], 3)
unfolding wrap
sealed_by_password = refl

unwrap-wrap_example : unwrap open_cipher (1 ∷ 2 ∷ []) 3 reader ≡ ok (1 ∷ 2 ∷ [])
unwrap-wrap_example =
    unwrap-wrap open_cipher open_laws (1 ∷ 2 ∷ []) (1 ∷ 2 ∷ []) 3 with_password reader
      reader-CanRead (omega arith) sealed_by_password

abbrev ok_or : Bytes → Result Refusal Bytes → Bytes
ok_or other (ok a) = a
ok_or other (err e) = other

abbrev header_written : Header
header_written = written_header open_cipher byte_codec with_password 3

abbrev footer_written : Header
footer_written = footer_or open_cipher byte_codec none header_written

abbrev header_bytes : Bytes
header_bytes =
    codes "GPF1"
    ++ 10 ∷ codes "# Goptivum Project File"
    ++ 10 ∷ codes "format: 1"
    ++ 10 ∷ codes "mode:   password"
    ++ 10 ∷ codes "---"
    ++ 10 ∷ []

header_encodes : encode_header header_written ≡ ok header_bytes
unfolding encode_header written_header encode_lines set_field set_trimmed trim_space mode_of
    has_field decimal put_field delete_field new_header check_field utf8_from utf8_step get_field
    field_line width_of default_footer
header_encodes = refl

footer_encodes : encode_header footer_written ≡ ok header_bytes
unfolding encode_header written_header encode_lines set_field set_trimmed trim_space mode_of
    has_field decimal put_field delete_field new_header check_field utf8_from utf8_step get_field
    field_line width_of default_footer
footer_encodes = refl

format-IsClean : IsClean field_format (codes "1")
unfolding trim_space
format-IsClean = record {
  no_comment = refl;
  name_trimmed = refl;
  value_trimmed = refl;
  some_value = refl;
}

mode-IsClean : IsClean field_mode mode_password
unfolding trim_space
mode-IsClean = record {
  no_comment = refl;
  name_trimmed = refl;
  value_trimmed = refl;
  some_value = refl;
}

header_written-IsHeader : IsHeader header_written
unfolding written_header set_field set_trimmed trim_space mode_of has_field decimal put_field
    delete_field new_header get_field default_footer
header_written-IsHeader = record {
  listed = refl;
  clean = (format-IsClean, refl, (mode-IsClean, refl, tt));
}

footer_written-IsHeader : IsHeader footer_written
unfolding written_header set_field set_trimmed trim_space mode_of has_field decimal put_field
    delete_field new_header get_field default_footer
footer_written-IsHeader = record {
  listed = refl;
  clean = (format-IsClean, refl, (mode-IsClean, refl, tt));
}

parse_header-encode_header_example : parse_header header_bytes ≡ ok header_written
parse_header-encode_header_example =
    parse_header-encode_header header_written header_bytes header_written-IsHeader header_encodes

abbrev document_bytes : Bytes
document_bytes = 1 ∷ 2 ∷ []

abbrev sealed_file : Bytes
sealed_file =
    magic
    ++ (1 ∷ 0 ∷ 3 ∷ 0 ∷ length header_bytes ∷ 0 ∷ 0 ∷ 0 ∷ header_bytes
        ++ (0x81 ∷ 2 ∷ 0 ∷ 0 ∷ 0 ∷ document_bytes
            ++ (header_bytes ++ (length header_bytes ∷ 0 ∷ 0 ∷ 0 ∷ magic))))

file_encodes : encode_file open_cipher byte_codec document_bytes with_password ≡ ok sealed_file
unfolding encode_file wrap write_preheader write_chunk write_locator encode_header written_header
    encode_lines set_field set_trimmed trim_space mode_of has_field decimal put_field delete_field
    new_header check_field utf8_from utf8_step get_field field_line width_of default_footer
file_encodes = refl

realm_passes : check_realm header_written (codes "here") ≡ ok tt
unfolding check_realm encode_header written_header encode_lines set_field set_trimmed trim_space
    mode_of has_field decimal put_field delete_field new_header check_field utf8_from utf8_step
    get_field field_line width_of default_footer
realm_passes = refl

decode_file-encode_file_example :
    decode_file open_cipher byte_codec sealed_file reader
    ≡ ok (file_of open_cipher byte_codec document_bytes with_password 3)
decode_file-encode_file_example =
    decode_file-encode_file open_cipher byte_codec open_laws document_bytes with_password reader
      file_encodes refl sealed_by_password header_encodes footer_encodes refl
      header_written-IsHeader footer_written-IsHeader realm_passes reader-CanRead (omega arith)
      (omega arith)

decode_file-IsFile_example :
    IsFile open_cipher byte_codec reader sealed_file
      (file_of open_cipher byte_codec document_bytes with_password 3)
decode_file-IsFile_example =
    decode_file-IsFile open_cipher byte_codec reader sealed_file
      (file_of open_cipher byte_codec document_bytes with_password 3)
      (all_bytes-IsBytes sealed_file refl) decode_file-encode_file_example
