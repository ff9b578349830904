-- ===== src/Gpf/Crypto.antt =====
-- document/gpf/crypto.go: the realm check, and the payload wrapped by age. The age library is a
-- parameter.
pub mod RoundTrip
use goptivum.Prelude.{
  Bool, List, Option, Result, [], err, if◌then◌else◌, leb, length, list_eq, ltb, not, ok, refuse_if,
  ℕ, ◌&&◌, ◌+◌, ◌==◌, ◌>>=◌, ◌>>◌, ◌||◌, ◌∷◌,
}
use goptivum.Gpf.Format.{
  Bytes, Refusal, failure, flag_encrypted, flag_passphrase, has_encrypted, has_passphrase,
  identity_required, malformed, max_payload, password_required, wrong_password, wrong_realm,
}
use goptivum.Gpf.Header.{Header, field_realm, get, is_empty}

-- What decrypting yields: the bytes the stream gives, and whether reading it then fails.
pub record Stream : Type 0 where
  pub plain : Bytes
  pub broken : Bool

-- An error of `age.Decrypt`: no identity opens the file, or another one.
pub data DecryptError : Type 0 where
  incorrect_identity : DecryptError
  other_error : ℕ → DecryptError

-- The operations of filippo.io/age that the program calls.
pub record Age : Type 1 where
  pub Identity : Type 0
  pub Recipient : Type 0
  pub new_scrypt_identity : Bytes → Result ℕ Identity
  pub set_max_work_factor : Identity → ℕ → Identity
  pub new_scrypt_recipient : Bytes → Result ℕ Recipient
  pub set_work_factor : Recipient → ℕ → Recipient
  pub encrypt : Bytes → List Recipient → Result ℕ Bytes
  pub decrypt : Bytes → List Identity → Result DecryptError Stream

abbrev pub max_work_factor : ℕ
max_work_factor = 20

-- The error of another package, passed on.
abbrev pub lift {ℓ} : {A : Type ℓ} → Result ℕ A → Result Refusal A
lift (ok a) = ok a
lift (err e) = err (failure e)

unfoldable pub check_realm : Header → Bytes → Result Refusal (Unit {0})
check_realm h local =
    if is_empty local
    then ok tt
    else if is_empty (get h field_realm) || list_eq (get h field_realm) local
    then ok tt
    else err (wrong_realm (get h field_realm) local)

module _ (age : Age) where
  open age use {
    Identity, Recipient, new_scrypt_identity, set_max_work_factor, new_scrypt_recipient,
    set_work_factor, encrypt, decrypt,
  }

  pub record ReadOptions : Type 0 where
    pub passphrase : Bytes
    pub identities : List Identity
    pub realm : Bytes

  pub record WriteOptions : Type 0 where
    pub header : Option Header
    pub passphrase : Bytes
    pub recipients : List Recipient
    pub work_factor : ℕ
    pub footer : Option Header

  unfoldable pub identities_for : ℕ → ReadOptions → Result Refusal (List Identity)
  identities_for flags options =
      if has_passphrase flags == 1
      then (if is_empty options.passphrase then err password_required else do
        identity ← lift (new_scrypt_identity options.passphrase)
        ok (set_max_work_factor identity max_work_factor ∷ []))
      else if is_empty options.identities
      then err identity_required
      else ok options.identities

  -- The refusal that an error of `age.Decrypt` becomes.
  unfoldable pub decrypt_refusal : ℕ → DecryptError → Refusal
  decrypt_refusal flags incorrect_identity =
      if has_passphrase flags == 1 then wrong_password else identity_required
  decrypt_refusal flags (other_error e) = failure e

  -- `io.ReadAll` of the stream, limited to one byte over the cap.
  unfoldable pub read_plain : Stream → Result Refusal Bytes
  read_plain s = do
    refuse_if (s.broken && leb (length s.plain) max_payload) (failure 0)
    refuse_if (ltb max_payload (length s.plain)) malformed
    ok s.plain

  unfoldable pub unwrap : Bytes → ℕ → ReadOptions → Result Refusal Bytes
  unwrap payload flags options = if has_encrypted flags == 0 then ok payload else do
    identities ← identities_for flags options
    elim (decrypt payload identities) [
      | err e ↦ err (decrypt_refusal flags e)
      | ok stream ↦ read_plain stream
    ]

  -- `wrap`, with the flags that say what was done. The number of the error is not modelled.
  unfoldable pub wrap : Bytes → WriteOptions → Result Refusal (Bytes × ℕ)
  wrap encoded options =
      if not (is_empty options.passphrase) && not (is_empty options.recipients)
      then err (failure 0)
      else if not (is_empty options.passphrase)
      then (do
        recipient ← lift (new_scrypt_recipient options.passphrase)
        let set =
            if ltb 0 options.work_factor
            then set_work_factor recipient options.work_factor
            else recipient
        sealed ← lift (encrypt encoded (set ∷ []))
        ok (sealed, flag_encrypted + flag_passphrase))
      else if not (is_empty options.recipients)
      then (do sealed ← lift (encrypt encoded options.recipients); ok (sealed, flag_encrypted))
      else ok (encoded, 0)
