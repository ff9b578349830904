-- ===== src/Gpf/Header/Names.antt =====
-- What `Get` answers after `Set`.
use goptivum.Prelude.{
  Bool-cases, List, [], arith, if◌then◌else◌, inl, inr, list_eq, list_eq_iff, refl, true, ◌∷◌, ◌≡◌,
}
use goptivum.Text.{trim_space}
use goptivum.Gpf.Format.{Bytes}
use goptivum.Gpf.Header.{
  Header, delete_field, get, get_field, is_empty, put_field, set_field, set_trimmed,
}

get_field-put_field :
    (m : List (Bytes × Bytes)) (name other value : Bytes)
    → get_field (put_field m name value) other
      ≡ (if list_eq name other then value else get_field m other)
unfolding get_field put_field
get_field-put_field [] name other value = refl
get_field-put_field ((n, v) ∷ m) name other value = ground (
  arith,
  get_field-put_field m name other value,
  list_eq_iff n name,
  list_eq_iff n other,
  list_eq_iff name other,
)

get_field-delete_field :
    (m : List (Bytes × Bytes)) (name other : Bytes)
    → get_field (delete_field m name) other ≡ (if list_eq name other then [] else get_field m other)
unfolding get_field delete_field
get_field-delete_field [] name other = ground arith
get_field-delete_field ((n, v) ∷ m) name other = ground (
  arith,
  get_field-delete_field m name other,
  list_eq_iff n name,
  list_eq_iff n other,
  list_eq_iff name other,
)

empty : (bs : Bytes) → is_empty bs ≡ true → bs ≡ []
empty [] h = refl
empty (b ∷ bs) h = absurd (cc)

-- A field that is set reads as its value without the white space around it, and every other field
-- as before; setting a blank value removes the field.
pub get-set_field :
    (h : Header) (name other value : Bytes)
    → get (set_field h name value) other
      ≡ (if list_eq name other then trim_space value else get h other)
unfolding set_field set_trimmed
get-set_field h name other value = elim (Bool-cases (is_empty (trim_space value))) [
  | inl blank ↦
      rw (blank, get_field-delete_field h.fields name other, empty (trim_space value) blank) refl
  | inr full ↦ rw (full, get_field-put_field h.fields name other (trim_space value)) refl
]
