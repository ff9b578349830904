-- ===== src/Gpf/Fields.antt =====
-- Little-endian fields: bytes that are read as a number and written again are the same bytes.
use goptivum.Prelude.{
  Bool, [], ap, arith, drop, get_or, length, ltb, refl, suc, sym, true, zero, ℕ, ◌&&◌, ◌*◌, ◌+◌,
  ◌<◌, ◌∙◌, ◌∷◌, ◌≡◌, ◌≤◌,
}
use goptivum.Gpf.Format.{Bytes, IsBytes, put_uint16, put_uint32, uint16_at, uint32_at}

pub drop-get_or : (bs : Bytes) (n : ℕ) → n < length bs → drop n bs ≡ get_or bs n 0 ∷ drop (suc n) bs
drop-get_or [] n h = elim h [ ]
drop-get_or (b ∷ bs) zero h = refl
drop-get_or (b ∷ bs) (suc n) h = drop-get_or bs n (omega arith)

pub get_or-byte : (bs : Bytes) (n : ℕ) → IsBytes bs → get_or bs n 0 < 256
get_or-byte [] n h = omega arith
get_or-byte (b ∷ bs) zero h = h.0
get_or-byte (b ∷ bs) (suc n) h = get_or-byte bs n h.1

pub drop-IsBytes : (bs : Bytes) (n : ℕ) → IsBytes bs → IsBytes (drop n bs)
drop-IsBytes bs zero h = h
drop-IsBytes [] (suc n) h = h
drop-IsBytes (b ∷ bs) (suc n) h = drop-IsBytes bs n h.1

put_uint16_back :
    (a b : ℕ) (rest : Bytes) → a < 256 → b < 256 → put_uint16 (a + b * 256) rest ≡ a ∷ b ∷ rest
put_uint16_back a b rest h k = ground arith

put_uint32_back :
    (a b c d : ℕ) (rest : Bytes)
    → a < 256
    → b < 256
    → c < 256
    → d < 256
    → put_uint32 (a + b * 256 + c * 65536 + d * 16777216) rest ≡ a ∷ b ∷ c ∷ d ∷ rest
put_uint32_back a b c d rest ha hb hc hd = ground arith

pub uint16_at-lt : (bs : Bytes) (i : ℕ) → IsBytes bs → uint16_at bs i < 65536
uint16_at-lt bs i b = omega (arith, get_or-byte bs i b, get_or-byte bs (suc i) b)

pub uint16_field :
    (bs : Bytes) (n : ℕ)
    → IsBytes bs
    → n + 2 ≤ length bs
    → drop n bs ≡ put_uint16 (uint16_at bs n) (drop (suc (suc n)) bs)
uint16_field bs n b h =
    drop-get_or bs n (omega arith)
    ∙ ap (λ l. get_or bs n 0 ∷ l) (drop-get_or bs (suc n) (omega arith))
    ∙ sym (put_uint16_back _ _ _ (get_or-byte bs n b) (get_or-byte bs (suc n) b))

pub uint32_field :
    (bs : Bytes) (n : ℕ)
    → IsBytes bs
    → n + 4 ≤ length bs
    → drop n bs ≡ put_uint32 (uint32_at bs n) (drop (suc (suc (suc (suc n)))) bs)
uint32_field bs n b h =
    drop-get_or bs n (omega arith)
    ∙ ap (λ l. get_or bs n 0 ∷ l)
        (drop-get_or bs (suc n) (omega arith)
          ∙ ap (λ l. get_or bs (suc n) 0 ∷ l)
              (drop-get_or bs (suc (suc n)) (omega arith)
                ∙ ap (λ l. get_or bs (suc (suc n)) 0 ∷ l)
                    (drop-get_or bs (suc (suc (suc n))) (omega arith))))
    ∙ sym (
        put_uint32_back _ _ _ _ _ (get_or-byte bs n b) (get_or-byte bs (suc n) b)
          (get_or-byte bs (suc (suc n)) b) (get_or-byte bs (suc (suc (suc n))) b))

-- A test that finds out whether all elements are bytes.
abbrev pub all_bytes : Bytes → Bool
all_bytes [] = true
all_bytes (b ∷ bs) = ltb b 256 && all_bytes bs

pub all_bytes-IsBytes : (bs : Bytes) → all_bytes bs ≡ true → IsBytes bs
all_bytes-IsBytes [] h = tt
all_bytes-IsBytes (b ∷ bs) h = (ground arith, all_bytes-IsBytes bs (ground arith))
