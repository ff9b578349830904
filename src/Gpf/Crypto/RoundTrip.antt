-- ===== src/Gpf/Crypto/RoundTrip.antt =====
-- What `wrap` seals is what `unwrap` opens, for a reader with a key to it.
use goptivum.Prelude.{
  Bool-cases, List, Result-cases, [], arith, false, if◌then◌else◌, inl, inr, length, ltb, ok, refl,
  true, ℕ, ◌∷◌, ◌≡◌, ◌≤◌, ◌⊎◌,
}
use goptivum.Gpf.Format.{Bytes, max_payload}
use goptivum.Gpf.Header.{is_empty}
use goptivum.Gpf.Crypto.{
  Age, ReadOptions, Stream, WriteOptions, identities_for, max_work_factor, read_plain, unwrap, wrap,
}

-- An element of a list.
abbrev pub IsIn : {A : Type 0} → A → List A → Type 0
IsIn x [] = ⊥
IsIn x (y ∷ ys) = (y ≡ x) ⊎ IsIn x ys

IsIn-is_empty : {A : Type 0} (x : A) (xs : List A) → IsIn x xs → is_empty xs ≡ false
IsIn-is_empty x [] h = absurd h
IsIn-is_empty x (y ∷ ys) h = refl

-- A stream that gives all its bytes.
abbrev pub whole : Bytes → Stream
whole plain = record { plain = plain; broken = false }

-- What filippo.io/age documents of its keys: which identity opens which recipient's files.
pub record AgeLaws (age : Age) : Type 1 where
  pub Opens : age.Recipient → age.Identity → Type 0
  -- A file opens for an identity of one of its recipients.
  pub decrypt-encrypt :
      (plain sealed : Bytes) (rs : List age.Recipient) (is : List age.Identity) (r : age.Recipient)
      (i : age.Identity)
      → IsIn r rs
      → IsIn i is
      → Opens r i
      → age.encrypt plain rs ≡ ok sealed
      → age.decrypt sealed is ≡ ok (whole plain)
  -- A password opens what it sealed up to the work factor the reader allows; the default is 18.
  pub Opens-set_work_factor :
      (p : Bytes) (r : age.Recipient) (i : age.Identity) (work top : ℕ)
      → age.new_scrypt_recipient p ≡ ok r
      → age.new_scrypt_identity p ≡ ok i
      → work ≤ top
      → Opens (age.set_work_factor r work) (age.set_max_work_factor i top)
  pub Opens_default :
      (p : Bytes) (r : age.Recipient) (i : age.Identity) (top : ℕ)
      → age.new_scrypt_recipient p ≡ ok r
      → age.new_scrypt_identity p ≡ ok i
      → 18 ≤ top
      → Opens r (age.set_max_work_factor i top)

module _ (age : Age) (laws : AgeLaws age) where
  -- What a reader needs for a file that was written with these options.
  pub data CanRead (w : WriteOptions age) (r : ReadOptions age) : Type 0 where
    needs_nothing : w.passphrase ≡ [] → w.recipients ≡ [] → CanRead w r
    same_password :
        (i : age.Identity)
        → is_empty w.passphrase ≡ false
        → r.passphrase ≡ w.passphrase
        → age.new_scrypt_identity w.passphrase ≡ ok i
        → w.work_factor ≤ max_work_factor
        → CanRead w r
    has_identity :
        (to : age.Recipient) (i : age.Identity)
        → w.passphrase ≡ []
        → IsIn to w.recipients
        → IsIn i r.identities
        → laws.Opens to i
        → CanRead w r

  wrap_password :
      (plain sealed : Bytes) (flags : ℕ) (w : WriteOptions age)
      → is_empty w.passphrase ≡ false
      → wrap age plain w ≡ ok (sealed, flags)
      → (flags ≡ 3)
        × ((to : age.Recipient) × (age.new_scrypt_recipient w.passphrase ≡ ok to)
            × (age.encrypt plain
                  ((if ltb 0 w.work_factor then age.set_work_factor to w.work_factor else to) ∷ [])
                ≡ ok sealed))
  unfolding wrap
  wrap_password plain sealed flags w h e =
      elim (Result-cases (age.new_scrypt_recipient w.passphrase)) [
        | inr (n, bad) ↦ absurd (ground (arith, bad))
        | inl (to, good) ↦
            let key = if ltb 0 w.work_factor then age.set_work_factor to w.work_factor else to in
            elim (Result-cases (age.encrypt plain (key ∷ []))) [
              | inr (n, lost) ↦ absurd (ground (arith, good, lost))
              | inl (out, done) ↦
                  (ground (arith, good, done), (to, good, ground (arith, good, done)))
            ]
      ]

  wrap_recipients :
      (plain sealed : Bytes) (flags : ℕ) (w : WriteOptions age)
      → w.passphrase ≡ []
      → is_empty w.recipients ≡ false
      → wrap age plain w ≡ ok (sealed, flags)
      → (flags ≡ 1) × (age.encrypt plain w.recipients ≡ ok sealed)
  unfolding wrap
  wrap_recipients plain sealed flags w h g e =
      elim (Result-cases (age.encrypt plain w.recipients)) [
        | inr (n, lost) ↦ absurd (ground (arith, h, g, lost))
        | inl (out, done) ↦ (ground (arith, h, g, done), ground (arith, h, g, done))
      ]

  wrap_nothing :
      (plain sealed : Bytes) (flags : ℕ) (w : WriteOptions age)
      → w.passphrase ≡ []
      → w.recipients ≡ []
      → wrap age plain w ≡ ok (sealed, flags)
      → (sealed ≡ plain) × (flags ≡ 0)
  unfolding wrap
  wrap_nothing plain sealed flags w p q e = ground (arith, p, q)

  read_whole :
      (plain : Bytes) → length plain ≤ max_payload → read_plain age (whole plain) ≡ ok plain
  unfolding read_plain
  read_whole plain h = ground arith

  unwrap_password :
      (plain sealed : Bytes) (r : ReadOptions age) (i : age.Identity)
      → is_empty r.passphrase ≡ false
      → age.new_scrypt_identity r.passphrase ≡ ok i
      → age.decrypt sealed (age.set_max_work_factor i max_work_factor ∷ []) ≡ ok (whole plain)
      → length plain ≤ max_payload
      → unwrap age sealed 3 r ≡ ok plain
  unfolding unwrap identities_for
  unwrap_password plain sealed r i h known opens fits = rw (h, known, opens) (read_whole plain fits)

  unwrap_identities :
      (plain sealed : Bytes) (r : ReadOptions age)
      → is_empty r.identities ≡ false
      → age.decrypt sealed r.identities ≡ ok (whole plain)
      → length plain ≤ max_payload
      → unwrap age sealed 1 r ≡ ok plain
  unfolding unwrap identities_for
  unwrap_identities plain sealed r h opens fits = rw (h, opens) (read_whole plain fits)

  -- Whatever `wrap` sealed, a reader that can read it gets back unchanged, up to the cap on a
  -- payload.
  pub unwrap-wrap :
      (plain sealed : Bytes) (flags : ℕ) (w : WriteOptions age) (r : ReadOptions age)
      → CanRead w r
      → length plain ≤ max_payload
      → wrap age plain w ≡ ok (sealed, flags)
      → unwrap age sealed flags r ≡ ok plain
  unwrap-wrap plain sealed flags w r (needs_nothing p q) fits e =
      let (same, none') = wrap_nothing plain sealed flags w p q e in
      rw (same, none') (unfold unwrap in refl)
  unwrap-wrap plain sealed flags w r (same_password i p same known allowed) fits e =
      let (sealed_as, (to, key, locked)) = wrap_password plain sealed flags w p e in
      rw sealed_as (
        unwrap_password plain sealed r i (rw same p) (rw same known)
          (laws.decrypt-encrypt plain sealed _ _ _ _ (inl refl) (inl refl)
            (opens (Bool-cases (ltb 0 w.work_factor)) to key) locked)
          fits)
    where
      opens :
          ((ltb 0 w.work_factor ≡ true) ⊎ (ltb 0 w.work_factor ≡ false))
          → (to : age.Recipient) → age.new_scrypt_recipient w.passphrase ≡ ok to
          → laws.Opens
              (if ltb 0 w.work_factor then age.set_work_factor to w.work_factor else to)
              (age.set_max_work_factor i max_work_factor)
      opens (inl chosen) to key = rw chosen (
          laws.Opens-set_work_factor w.passphrase to i w.work_factor max_work_factor key known
            allowed)
      opens (inr standard) to key =
          rw standard (laws.Opens_default w.passphrase to i max_work_factor key known (omega arith))
  unwrap-wrap plain sealed flags w r (has_identity to i p inside mine opens) fits e =
      let (sealed_as, locked) =
        wrap_recipients plain sealed flags w p (IsIn-is_empty to w.recipients inside) e in
      rw sealed_as (
        unwrap_identities plain sealed r (IsIn-is_empty i r.identities mine)
          (laws.decrypt-encrypt plain sealed w.recipients r.identities to i inside mine opens
            locked)
          fits)
