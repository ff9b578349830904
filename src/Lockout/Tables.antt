-- ===== src/Lockout/Tables.antt =====
-- The laws of the tables.
use goptivum.Prelude.{
  [], arith, if◌then◌else◌, length, list_eq, list_eq_iff, none, refl, some, suc, ◌∷◌, ◌≡◌,
}
use goptivum.Lockout.{Count, Key, Table, delete, find, put}

pub find-put :
    (t : Table) (k j : Key) (c : Count)
    → find (put t k c) j ≡ (if list_eq k j then some c else find t j)
unfolding find put
find-put [] k j c = refl
find-put ((i, d) ∷ t) k j c =
    ground (arith, list_eq_iff i k, list_eq_iff i j, list_eq_iff k j, find-put t k j c)

pub find-delete :
    (t : Table) (k j : Key) → find (delete t k) j ≡ (if list_eq k j then none else find t j)
unfolding find delete
find-delete [] k j = ground arith
find-delete ((i, d) ∷ t) k j =
    ground (arith, list_eq_iff i k, list_eq_iff i j, list_eq_iff k j, find-delete t k j)

-- Storing under a tracked key keeps the size, and under another adds one.
pub length-put :
    (t : Table) (k : Key) (c : Count)
    → length (put t k c) ≡ (elim (find t k) [ none ↦ suc (length t) | some d ↦ length t ])
unfolding find put
length-put [] k c = refl
length-put ((i, d) ∷ t) k c = ground (arith, length-put t k c)
