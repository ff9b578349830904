-- ===== src/Plans/Changes/Stamps.antt =====
-- The writes of stamps keep one row per value of the clock, all of them below the next one.
use goptivum.Prelude.{
  Bool, Bool-cases, List, [], any, any-select, arith, false, inl, inr, length, refl, select, suc, ℕ,
  ◌+◌, ◌<◌, ◌==◌, ◌∷◌, ◌≡◌, ◌≢◌, ◌≤◌,
}
use goptivum.Plans.Changes.{
  Part, Stamp, entomb_from, is_stamp_of, project, stamp_from, stays_of, upsert_stamp,
}
use goptivum.Plans.Changes.Order.{Distinct}
use goptivum.Plans.Changes.Listing.{Within}

-- Every stamp is below a value.
abbrev pub Below : ℕ → List Stamp → Type 0
Below n [] = Unit
Below n (s ∷ ss) = (s.seq < n) × Below n ss

Below-none : (n m : ℕ) (ss : List Stamp) → Below n ss → n ≤ m → any (λ s. s.seq == m) ss ≡ false
Below-none n m [] h le = refl
Below-none n m (s ∷ ss) (low, h) le = ground (arith, Below-none n m ss)

pub Below-mono : (n m : ℕ) (ss : List Stamp) → Below n ss → n ≤ m → Below m ss
Below-mono n m [] h le = tt
Below-mono n m (s ∷ ss) (low, h) le = (omega arith, Below-mono n m ss h le)

any-upsert_stamp :
    (ss : List Stamp) (plan_id : ℕ) (part : Part) (n m : ℕ)
    → any (λ s. s.seq == m) ss ≡ false
    → n ≢ m
    → any (λ s. s.seq == m) (upsert_stamp ss plan_id part n) ≡ false
unfolding upsert_stamp
any-upsert_stamp [] plan_id part n m h ne = ground arith
any-upsert_stamp (s ∷ ss) plan_id part n m h ne =
    ground (arith, any-upsert_stamp ss plan_id part n m)

upsert_stamp-Distinct :
    (ss : List Stamp) (plan_id : ℕ) (part : Part) (n : ℕ)
    → Distinct ss
    → Below n ss
    → Distinct (upsert_stamp ss plan_id part n) × Below (suc n) (upsert_stamp ss plan_id part n)
unfolding upsert_stamp
upsert_stamp-Distinct [] plan_id part n distinct low = ((refl, tt), (omega arith, tt))
upsert_stamp-Distinct (s ∷ ss) plan_id part n (new', distinct) (low, below) =
    elim (Bool-cases (is_stamp_of plan_id part s)) [
      | inl same ↦ rw same (
        (Below-none n n ss below (omega arith), distinct),
        (omega arith, Below-mono n (suc n) ss below (omega arith)),
      )
      | inr other ↦
          let (rest, lower) = upsert_stamp-Distinct ss plan_id part n distinct below in
          rw other (
            (
              any-upsert_stamp ss plan_id part n s.seq new' (λ e. absurd (omega (arith, e, low))),
              rest,
            ),
            (omega (arith, low), lower),
          )
    ]

select-Distinct :
    (q : Stamp → Bool) (n : ℕ) (ss : List Stamp)
    → Distinct ss
    → Below n ss
    → Distinct (select q ss) × Below n (select q ss)
select-Distinct q n [] distinct below = (tt, tt)
select-Distinct q n (s ∷ ss) (new', distinct) (low, below) =
    let (rest, lower) = select-Distinct q n ss distinct below in
    elim (Bool-cases (q s)) [
      | inl stays ↦ rw stays ((any-select _ q ss new', rest), (low, lower))
      | inr goes ↦ rw goes (rest, lower)
    ]

pub stamp_from-Distinct :
    (first : ℕ) (ss : List Stamp) (changed : List (ℕ × Part))
    → Distinct ss
    → Below first ss
    → Distinct (stamp_from first ss changed)
      × Below (first + length changed) (stamp_from first ss changed)
unfolding stamp_from
stamp_from-Distinct first ss [] distinct below =
    (distinct, Below-mono first (first + 0) ss below (omega arith))
stamp_from-Distinct first ss ((plan_id, part) ∷ changed) distinct below =
    let (next, low) = upsert_stamp-Distinct ss plan_id part first distinct below in
    let (rest, lower) =
      stamp_from-Distinct (suc first) (upsert_stamp ss plan_id part first) changed next low in
    (rest, Below-mono _ _ _ lower (omega arith))

pub entomb_from-Distinct :
    (first : ℕ) (ss : List Stamp) (plan_ids : List ℕ)
    → Distinct ss
    → Below first ss
    → Distinct (entomb_from first ss plan_ids)
      × Below (first + length plan_ids) (entomb_from first ss plan_ids)
unfolding entomb_from
entomb_from-Distinct first ss [] distinct below =
    (distinct, Below-mono first (first + 0) ss below (omega arith))
entomb_from-Distinct first ss (plan_id ∷ plan_ids) distinct below =
    let (kept, under) = select-Distinct (stays_of plan_id) first ss distinct below in
    let (next, low) = upsert_stamp-Distinct _ plan_id project first kept under in
    let (rest, lower) = entomb_from-Distinct (suc first) _ plan_ids next low in
    (rest, Below-mono _ _ _ lower (omega arith))

pub Within-Below : (n : ℕ) (ss : List Stamp) → Within n ss → Below (suc n) ss
Within-Below n [] h = tt
Within-Below n (s ∷ ss) (le, h) = (omega arith, Within-Below n ss h)

pub Below-Within : (n : ℕ) (ss : List Stamp) → Below (suc n) ss → Within n ss
Below-Within n [] h = tt
Below-Within n (s ∷ ss) (low, h) = (omega arith, Below-Within n ss h)
