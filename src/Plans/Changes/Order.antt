-- ===== src/Plans/Changes/Order.antt =====
-- The query of the listing: the rows after a point, in the order of their stamps.
use goptivum.Prelude.{
  Bool, Bool-cases, List, [], any, any-select, ap, arith, false, inl, inr, length, ltb, ltb→lt,
  refl, select, suc, ℕ, ◌<◌, ◌==◌, ◌||◌, ◌∙◌, ◌∷◌, ◌≡◌,
}
use goptivum.Plans.Changes.{Stamp, insert_by_seq, is_after, order_by_seq}

-- No two rows carry the same value of the clock.
abbrev pub Distinct : List Stamp → Type 0
Distinct [] = Unit
Distinct (s ∷ ss) = (any (λ t. t.seq == s.seq) ss ≡ false) × Distinct ss

-- Above a value, and strictly ascending.
abbrev pub Ascending : ℕ → List Stamp → Type 0
Ascending lo [] = Unit
Ascending lo (s ∷ ss) = (lo < s.seq) × Ascending s.seq ss

-- How many rows wait after a point.
unfoldable pub pending : ℕ → List Stamp → ℕ
pending since ss = length (select (is_after since) ss)

any-insert_by_seq :
    (p : Stamp → Bool) (s : Stamp) (ts : List Stamp)
    → any p (insert_by_seq s ts) ≡ (p s || any p ts)
unfolding insert_by_seq
any-insert_by_seq p s [] = refl
any-insert_by_seq p s (t ∷ ts) = ground (arith, any-insert_by_seq p s ts)

pub any-order_by_seq : (p : Stamp → Bool) (ss : List Stamp) → any p (order_by_seq ss) ≡ any p ss
unfolding order_by_seq
any-order_by_seq p [] = refl
any-order_by_seq p (s ∷ ss) =
    any-insert_by_seq p s (order_by_seq ss) ∙ ap (λ b. p s || b) (any-order_by_seq p ss)

insert_by_seq-Ascending :
    (s : Stamp) (ts : List Stamp) (lo : ℕ)
    → lo < s.seq
    → Ascending lo ts
    → any (λ t. t.seq == s.seq) ts ≡ false
    → Ascending lo (insert_by_seq s ts)
unfolding insert_by_seq
insert_by_seq-Ascending s [] lo above h new' = (above, tt)
insert_by_seq-Ascending s (t ∷ ts) lo above h new' =
    ground (arith, insert_by_seq-Ascending s ts t.seq)

pub order_by_seq-Ascending :
    (since : ℕ) (ss : List Stamp)
    → Distinct ss
    → Ascending since (order_by_seq (select (is_after since) ss))
unfolding order_by_seq
order_by_seq-Ascending since [] h = tt
order_by_seq-Ascending since (s ∷ ss) (new', h) = elim (Bool-cases (ltb since s.seq)) [
  | inr before ↦ rw before (order_by_seq-Ascending since ss h)
  | inl after ↦ rw after (
      insert_by_seq-Ascending s _ since (ltb→lt _ _ after) (order_by_seq-Ascending since ss h)
        (any-order_by_seq _ (select (is_after since) ss) ∙ any-select _ (is_after since) ss new'))
]

length-insert_by_seq : (s : Stamp) (ts : List Stamp) → length (insert_by_seq s ts) ≡ suc (length ts)
unfolding insert_by_seq
length-insert_by_seq s [] = refl
length-insert_by_seq s (t ∷ ts) = ground (arith, length-insert_by_seq s ts)

pub length-order_by_seq : (ss : List Stamp) → length (order_by_seq ss) ≡ length ss
unfolding order_by_seq
length-order_by_seq [] = refl
length-order_by_seq (s ∷ ss) =
    length-insert_by_seq s (order_by_seq ss) ∙ ap suc (length-order_by_seq ss)

-- Rows counted after a point do not depend on their order.
pending-insert_by_seq :
    (since : ℕ) (s : Stamp) (ts : List Stamp)
    → pending since (insert_by_seq s ts) ≡ pending since (s ∷ ts)
unfolding insert_by_seq pending
pending-insert_by_seq since s [] = refl
pending-insert_by_seq since s (t ∷ ts) = ground (arith, pending-insert_by_seq since s ts)

pub pending-order_by_seq :
    (since : ℕ) (ss : List Stamp) → pending since (order_by_seq ss) ≡ pending since ss
unfolding order_by_seq pending
pending-order_by_seq since [] = refl
pending-order_by_seq since (s ∷ ss) =
    ground (arith, pending-insert_by_seq since s (order_by_seq ss), pending-order_by_seq since ss)
