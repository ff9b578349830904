-- ===== src/Logger/Ring/Newest.antt =====
-- The ring holds the newest records, newest first, for any sequence of writes.
use native.Mathlib.Nat.{mod-eq_of_lt, mod-eq-sub-mod}
use native.Mathlib.Decide.{dec_lt}
use mathlib.Core.Path.{ap₂}
use goptivum.Prelude.{
  Bool-cases, List, [], ap, append-nil, append_assoc, arith, get_or, if◌then◌else◌, inl, inr, leb,
  length, length-append, length-set, ltb, ltb→lt, min, refl, select, set, suc, sym, take, true,
  zero, ℕ, ◌%◌, ◌++◌, ◌+◌, ◌-◌, ◌<◌, ◌==◌, ◌∙◌, ◌∷◌, ◌≡◌, ◌≢◌, ◌≤◌, ◌⊎◌,
}
use goptivum.Logger.Ring.{
  Record, Ring, blank, held, lines_from, lines_of, place, redact_attrs, write,
}

-- A ring with room, whose cursor is in range.
pub record IsRing (r : Ring) : Type 0 where
  pub cursor : r.next < length r.lines

-- The records held, newest first: the i-th is the one at its place.
abbrev pub newest : Ring → ℕ → ℕ → List Record
newest r zero i = []
newest r (suc n) i = get_or r.lines (place r i) blank ∷ newest r n (i + 1)

get_or-set_self :
    (xs : List Record) (i : ℕ) (v : Record) → i < length xs → get_or (set xs i v) i blank ≡ v
get_or-set_self [] i v h = elim h [ ]
get_or-set_self (x ∷ xs) zero v h = refl
get_or-set_self (x ∷ xs) (suc i) v h = get_or-set_self xs i v (omega arith)

get_or-set_ne :
    (xs : List Record) (i j : ℕ) (v : Record)
    → i ≢ j
    → get_or (set xs i v) j blank ≡ get_or xs j blank
get_or-set_ne [] i j v h = refl
get_or-set_ne (x ∷ xs) zero zero v h = absurd (h refl)
get_or-set_ne (x ∷ xs) zero (suc j) v h = refl
get_or-set_ne (x ∷ xs) (suc i) zero v h = refl
get_or-set_ne (x ∷ xs) (suc i) (suc j) v h = get_or-set_ne xs i j v (λ e. h (ap suc e))

-- The records at or above a level, in their order.
unfoldable pub matching : ℕ → List Record → List Record
matching low = select (λ rec. leb low rec.level)

take_more :
    (out rest : List Record) (x : Record) (limit : ℕ)
    → length out < limit
    → out ++ take (limit - length out) (x ∷ rest)
      ≡ (out ++ x ∷ []) ++ take (limit - length (out ++ x ∷ [])) rest
take_more out rest x limit h =
    let one : limit - length out ≡ suc (limit - length (out ++ x ∷ [])) =
      omega (arith, length-append out (x ∷ [])) in
    ap (λ n. out ++ take n (x ∷ rest)) one ∙ sym (append_assoc out (x ∷ []) _)

take_none :
    (out rest : List Record) (limit : ℕ)
    → limit ≤ length out
    → out ≡ out ++ take (limit - length out) rest
take_none out rest limit h =
    let none_left : limit - length out ≡ 0 = omega arith in
    sym (append-nil out) ∙ ap (λ n. out ++ take n rest) (sym none_left)

take-nil : (n : ℕ) → take {A = Record} n [] ≡ []
take-nil zero = refl
take-nil (suc n) = refl

lines_from-newest :
    (r : Ring) (low limit left i : ℕ) (out : List Record)
    → lines_from r low limit left i out
      ≡ out ++ take (limit - length out) (matching low (newest r left i))
unfolding lines_from matching
lines_from-newest r low limit zero i out =
    sym (ap (λ l. out ++ l) (take-nil (limit - length out)) ∙ append-nil out)
lines_from-newest r low limit (suc left) i out =
    let rec = get_or r.lines (place r i) blank in
    let ih = lines_from-newest r low limit left (i + 1) in
    elim (Bool-cases (ltb (length out) limit)) [
      | inr full ↦ rw full (take_none out _ limit (ground arith))
      | inl more ↦ elim (Bool-cases (leb low rec.level)) [
        | inl fits ↦
            rw (more, fits)
              (ih (out ++ rec ∷ []) ∙ sym (take_more out _ rec limit (ltb→lt _ _ more)))
        | inr unfit ↦ rw (more, unfit) (ih out)
      ]
    ]

-- The abstract view of a ring: what it holds, newest first.
unfoldable pub view : Ring → List Record
view r = newest r (held r) 0

-- `Lines` answers the newest records at or above the level, at most `limit` of them, in order.
pub lines_of-view :
    (r : Ring) (low limit : ℕ) → lines_of r low limit ≡ take limit (matching low (view r))
unfolding lines_of view
lines_of-view r low limit =
    lines_from-newest r low limit (held r) 0 []
    ∙ ap (λ n. take n (matching low (newest r (held r) 0))) (omega arith)

take-newest : (r : Ring) (k n m i : ℕ) → m ≡ min k n → take k (newest r n i) ≡ newest r m i
take-newest r zero n zero i e = refl
take-newest r zero n (suc m) i e = absurd (omega arith)
take-newest r (suc k) zero zero i e = refl
take-newest r (suc k) zero (suc m) i e = absurd (omega arith)
take-newest r (suc k) (suc n) zero i e = absurd (omega arith)
take-newest r (suc k) (suc n) (suc m) i e =
    ap (λ l. get_or r.lines (place r i) blank ∷ l) (take-newest r k n m (i + 1) (omega arith))

mod_small : (x size : ℕ) → x < size → x % size ≡ x
mod_small x size h = mod-eq_of_lt h

mod_wrapped : (x size : ℕ) → size ≤ x → x < size + size → x % size ≡ x - size
mod_wrapped x size h k = mod-eq-sub-mod h ∙ mod_small (x - size) size (omega arith)

cursor_next :
    (next size : ℕ)
    → next < size
    → ((next + 1 < size) × ((next + 1) % size ≡ next + 1))
      ⊎ ((next + 1 ≡ size) × ((next + 1) % size ≡ 0))
cursor_next next size h = elim (dec_lt (next + 1) size) [
  | yes lt ↦ inl (lt, mod_small (next + 1) size lt)
  | no ge ↦ inr (omega arith, mod_wrapped (next + 1) size (omega arith) (omega arith) ∙ omega arith)
]

-- Places after one write, in a ring of `size` records whose cursor was `next`.
shifted :
    (next size i : ℕ)
    → next < size
    → i + 1 < size
    → ((next + 1) % size + size - 1 - (i + 1)) % size ≡ (next + size - 1 - i) % size
shifted next size i h k = elim (cursor_next next size h) [
  | inl (lt, e) ↦ ap (λ n. n % size) (omega arith)
  | inr (eq, e) ↦
      ap (λ n. n % size) (omega arith)
      ∙ mod_small (size - 1 - (i + 1)) size (omega arith)
      ∙ omega arith
      ∙ sym (mod_wrapped (next + size - 1 - i) size (omega arith) (omega arith))
]

not_cursor : (next size i : ℕ) → next < size → i + 1 < size → next ≢ (next + size - 1 - i) % size
not_cursor next size i h k = elim (dec_lt (next + size - 1 - i) size) [
  | yes lt ↦ rw (mod_small _ size lt) (omega arith)
  | no ge ↦ rw (mod_wrapped (next + size - 1 - i) size (omega arith) (omega arith)) (omega arith)
]

at_cursor : (next size : ℕ) → next < size → ((next + 1) % size + size - 1 - 0) % size ≡ next
at_cursor next size h = elim (cursor_next next size h) [
  | inl (lt, e) ↦
      ap (λ n. n % size) (omega arith)
      ∙ mod_wrapped (next + size) size (omega arith) (omega arith)
      ∙ omega arith
  | inr (eq, e) ↦ mod_small _ size (omega arith) ∙ omega arith
]

-- The ring after one write of a record that is kept as `kept`.
after_write : Ring → Record → Ring
after_write r kept =
    let next' = (r.next + 1) % length r.lines in
    record {
      lines = set r.lines r.next kept;
      next = next';
      full = if next' == 0 then true else r.full;
    }

place_shifted :
    (r : Ring) (kept : Record) (i : ℕ)
    → r.next < length r.lines
    → i + 1 < length r.lines
    → place (after_write r kept) (i + 1) ≡ place r i
unfolding after_write
place_shifted r kept i h k =
    rw (length-set r.lines r.next kept) (shifted r.next (length r.lines) i h k)

newest_shifted :
    (r : Ring) (kept : Record) (n i : ℕ)
    → r.next < length r.lines
    → i + n < length r.lines
    → newest (after_write r kept) n (i + 1) ≡ newest r n i
unfolding after_write
newest_shifted r kept zero i h k = refl
newest_shifted r kept (suc n) i h k =
    ap₂ ◌∷◌
      (ap (λ p. get_or (set r.lines r.next kept) p blank) (place_shifted r kept i h (omega arith))
        ∙ get_or-set_ne r.lines r.next (place r i) kept
            (not_cursor r.next (length r.lines) i h (omega arith)))
      (newest_shifted r kept n (i + 1) h (omega arith))

newest_first :
    (r : Ring) (kept : Record)
    → r.next < length r.lines
    → get_or (after_write r kept).lines (place (after_write r kept) 0) blank ≡ kept
unfolding after_write
newest_first r kept h =
    ap (λ p. get_or (set r.lines r.next kept) p blank)
      (rw (length-set r.lines r.next kept) (at_cursor r.next (length r.lines) h))
    ∙ get_or-set_self r.lines r.next kept h

-- How many records a ring holds after a write.
held_after :
    (r : Ring) (kept : Record)
    → IsRing r
    → held (after_write r kept) ≡ suc (min (length r.lines - 1) (held r))
unfolding after_write
held_after r kept h = elim (cursor_next r.next (length r.lines) h.cursor) [
  | inl (lt, e) ↦ rw (e, length-set r.lines r.next kept) (ground arith)
  | inr (eq, e) ↦ rw (e, length-set r.lines r.next kept) (ground arith)
]

after_write-view :
    (r : Ring) (kept : Record)
    → IsRing r
    → view (after_write r kept) ≡ take (length r.lines) (kept ∷ view r)
unfolding view
after_write-view r kept h =
    let m = min (length r.lines - 1) (held r) in
    let one : length r.lines ≡ suc (length r.lines - 1) = omega (arith, h.cursor) in
    ap (λ n. newest (after_write r kept) n 0) (held_after r kept h)
    ∙ ap₂ ◌∷◌ (newest_first r kept h.cursor)
        (newest_shifted r kept m 0 h.cursor (omega (arith, h.cursor)))
    ∙ ap (λ l. kept ∷ l) (sym (take-newest r (length r.lines - 1) (held r) m 0 refl))
    ∙ ap (λ n. take n (kept ∷ newest r (held r) 0)) (sym one)

module _ (to_lower hide : List ℕ → List ℕ) where
  -- A record as the ring keeps it.
  unfoldable pub kept_of : Record → Record
  kept_of rec = record rec { attrs = redact_attrs to_lower hide rec.attrs }

  write_lem :
      (r : Ring) (rec : Record) → IsRing r → write to_lower hide r rec ≡ after_write r (kept_of rec)
  unfolding write after_write kept_of
  write_lem r rec h = elim (Bool-cases (length r.lines == 0)) [
    | inl nil ↦ absurd (ground (arith, h.cursor))
    | inr some_room ↦ rw some_room refl
  ]

  -- A write puts the redacted record in front of what the ring held, and the oldest record is
  -- dropped when there is no room: the ring is a bounded queue, whatever was written before.
  pub write-view :
      (r : Ring) (rec : Record)
      → IsRing r
      → view (write to_lower hide r rec) ≡ take (length r.lines) (kept_of rec ∷ view r)
  write-view r rec h = ap view (write_lem r rec h) ∙ after_write-view r (kept_of rec) h

  -- Writing keeps the capacity and the cursor in range.
  pub write-IsRing :
      (r : Ring) (rec : Record)
      → IsRing r
      → IsRing (write to_lower hide r rec)
        × (length (write to_lower hide r rec).lines ≡ length r.lines)
  unfolding write
  write-IsRing r rec h =
      let same =
        length-set r.lines r.next (record rec { attrs = redact_attrs to_lower hide rec.attrs }) in
      elim (cursor_next r.next (length r.lines) h.cursor) [
        | inl (lt, e) ↦ ground (arith, same, e, lt, h.cursor)
        | inr (eq, e) ↦ ground (arith, same, e, eq, h.cursor)
      ]
