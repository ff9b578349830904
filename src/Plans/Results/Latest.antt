-- ===== src/Plans/Results/Latest.antt =====
-- The order of the counted results, the latest first, and the ones beyond an offset in it.
use goptivum.Prelude.{
  Bool, Bool-cases, List, [], any, ap, arith, drop, false, if◌then◌else◌, inl, inr, leb, length,
  refl, select, suc, true, zero, ℕ, ◌==◌, ◌||◌, ◌∙◌, ◌∷◌, ◌≡◌, ◌⊎◌,
}
use goptivum.Plans.Store.{Stored}
use goptivum.Plans.Results.{insert_latest, is_later}

-- Whether there is a result of this id.
unfoldable pub has_result : ℕ → List Stored → Bool
has_result id rs = any (λ r. r.id == id) rs

pub has_result_nil : (id : ℕ) → has_result id [] ≡ false
unfolding has_result
has_result_nil id = refl

pub has_result_cons :
    (id : ℕ) (r : Stored) (rs : List Stored)
    → has_result id (r ∷ rs) ≡ (r.id == id || has_result id rs)
unfolding has_result
has_result_cons id r rs = refl

-- The primary key: no two results have one id.
abbrev pub Identified : List Stored → Type 0
Identified [] = Unit
Identified (r ∷ rs) = (has_result r.id rs ≡ false) × Identified rs

abbrev pub Among : Stored → List Stored → Type 0
Among r [] = ⊥
Among r (s ∷ ss) = (r ≡ s) ⊎ Among r ss

-- Every row of a list comes after this one.
abbrev pub Leads : Stored → List Stored → Type 0
Leads r [] = Unit
Leads r (s ∷ ss) = (is_later r s ≡ true) × Leads r ss

abbrev pub LatestFirst : List Stored → Type 0
LatestFirst [] = Unit
LatestFirst (r ∷ rs) = Leads r rs × LatestFirst rs

-- How many rows are later than this one.
unfoldable pub later : Stored → List Stored → ℕ
later r rs = length (select (λ s. is_later s r) rs)

later_total : (r s : Stored) → is_later r s ≡ false → (r.id == s.id) ≡ false → is_later s r ≡ true
later_total r s h ne = ground arith

later_trans : (r s t : Stored) → is_later r s ≡ true → is_later s t ≡ true → is_later r t ≡ true
later_trans r s t h k = ground arith

Leads-trans : (r s : Stored) (ts : List Stored) → is_later r s ≡ true → Leads s ts → Leads r ts
Leads-trans r s [] h leads = tt
Leads-trans r s (t ∷ ts) h (k, leads) = (later_trans r s t h k, Leads-trans r s ts h leads)

Leads-insert_latest :
    (r s : Stored) (ts : List Stored)
    → is_later r s ≡ true
    → Leads r ts
    → Leads r (insert_latest s ts)
unfolding insert_latest
Leads-insert_latest r s [] h leads = (h, tt)
Leads-insert_latest r s (t ∷ ts) h (k, leads) = elim (Bool-cases (is_later t s)) [
  | inl below ↦ rw below (k, Leads-insert_latest r s ts h leads)
  | inr above ↦ rw above (h, (k, leads))
]

pub insert_latest-LatestFirst :
    (r : Stored) (ss : List Stored)
    → LatestFirst ss
    → has_result r.id ss ≡ false
    → LatestFirst (insert_latest r ss)
unfolding insert_latest has_result
insert_latest-LatestFirst r [] ordered new' = (tt, tt)
insert_latest-LatestFirst r (s ∷ ss) (leads, ordered) new' = elim (Bool-cases (is_later s r)) [
  | inl below ↦ rw below (
    Leads-insert_latest s r ss below leads,
    insert_latest-LatestFirst r ss ordered (ground (arith, new')),
  )
  | inr above ↦
      let first = later_total s r above (ground (arith, new')) in
      rw above ((first, Leads-trans r s ss first leads), (leads, ordered))
]

pub has_result-insert_latest :
    (id : ℕ) (r : Stored) (ss : List Stored)
    → has_result id (insert_latest r ss) ≡ (r.id == id || has_result id ss)
unfolding has_result insert_latest
has_result-insert_latest id r [] = refl
has_result-insert_latest id r (s ∷ ss) = ground (arith, has_result-insert_latest id r ss)

later_none : (r : Stored) (ss : List Stored) → Leads r ss → later r ss ≡ 0
unfolding later
later_none r [] leads = refl
later_none r (s ∷ ss) (h, leads) = ground (arith, later_none r ss leads)

Leads-Among : (r s : Stored) (ss : List Stored) → Leads s ss → Among r ss → is_later s r ≡ true
Leads-Among r s [] leads among = absurd among
Leads-Among r s (t ∷ ts) (h, leads) (inl same) = ap (is_later s) same ∙ h
Leads-Among r s (t ∷ ts) (h, leads) (inr rest) = Leads-Among r s ts leads rest

pub Among-has_result : (r : Stored) (ss : List Stored) → Among r ss → has_result r.id ss ≡ true
unfolding has_result
Among-has_result r [] among = absurd among
Among-has_result r (s ∷ ss) (inl same) = ground (arith, ap (λ (x : Stored). x.id) same)
Among-has_result r (s ∷ ss) (inr rest) = ground (arith, Among-has_result r ss rest)

pub has_result-drop :
    (id keep : ℕ) (ss : List Stored)
    → has_result id ss ≡ false
    → has_result id (drop keep ss) ≡ false
unfolding has_result
has_result-drop id zero ss h = h
has_result-drop id (suc keep) [] h = refl
has_result-drop id (suc keep) (s ∷ ss) h = has_result-drop id keep ss (ground (arith, h))

later_self : (r s : Stored) (ss : List Stored) → r ≡ s → Leads s ss → later r (s ∷ ss) ≡ 0
unfolding later
later_self r s ss same leads =
    ap (λ (x : Stored). later x (s ∷ ss)) same ∙ ground (arith, later_none s ss leads)

-- A row that leads the others is below none of them.
later_first :
    (r s : Stored) (ss : List Stored) → is_later s r ≡ true → later r (s ∷ ss) ≡ suc (later r ss)
unfolding later
later_first r s ss h = rw h refl

-- A row of an ordered list stands beyond an offset exactly when that many rows are later.
pub drop-later :
    (r : Stored) (keep : ℕ) (ss : List Stored)
    → LatestFirst ss
    → Identified ss
    → Among r ss
    → has_result r.id (drop keep ss) ≡ leb keep (later r ss)
drop-later r keep [] ordered ids among = absurd among
drop-later r zero (s ∷ ss) ordered ids among = ground (arith, Among-has_result r (s ∷ ss) among)
drop-later r (suc keep) (s ∷ ss) (leads, ordered) (new', ids) (inl same) = ground (
  arith,
  later_self r s ss same leads,
  has_result-drop r.id keep ss (ap (λ (x : Stored). has_result x.id ss) same ∙ new'),
)
drop-later r (suc keep) (s ∷ ss) (leads, ordered) (new', ids) (inr rest) = ground (
  arith,
  later_first r s ss (Leads-Among r s ss leads rest),
  drop-later r keep ss ordered ids rest,
)

pub Among-insert_latest :
    (r s : Stored) (ss : List Stored) → (r ≡ s) ⊎ Among r ss → Among r (insert_latest s ss)
unfolding insert_latest
Among-insert_latest r s [] h = h
Among-insert_latest r s (t ∷ ts) h = elim (Bool-cases (is_later t s)) [
  | inr above ↦ rw above h
  | inl below ↦ rw below (elim h [
    | inl same ↦ inr (Among-insert_latest r s ts (inl same))
    | inr (inl first) ↦ inl first
    | inr (inr rest) ↦ inr (Among-insert_latest r s ts (inr rest))
  ])
]

pub later-insert_latest :
    (r s : Stored) (ss : List Stored) → later r (insert_latest s ss) ≡ later r (s ∷ ss)
unfolding later insert_latest
later-insert_latest r s [] = refl
later-insert_latest r s (t ∷ ts) = ground (arith, later-insert_latest r s ts)

pub Identified-insert_latest :
    (r : Stored) (ss : List Stored)
    → has_result r.id ss ≡ false
    → Identified ss
    → Identified (insert_latest r ss)
unfolding insert_latest
Identified-insert_latest r [] new' ids = (new', tt)
Identified-insert_latest r (s ∷ ss) new' (own, ids) = elim (Bool-cases (is_later s r)) [
  | inr above ↦ rw above (new', (own, ids))
  | inl below ↦ rw below (
    ground (arith, has_result-insert_latest s.id r ss, own, new', has_result_cons r.id s ss),
    Identified-insert_latest r ss (ground (arith, new', has_result_cons r.id s ss)) ids,
  )
]

pub later_nil : (r : Stored) → later r [] ≡ 0
unfolding later
later_nil r = refl

pub later_cons :
    (r s : Stored) (ss : List Stored)
    → later r (s ∷ ss) ≡ (if is_later s r then suc (later r ss) else later r ss)
unfolding later
later_cons r s ss = ground arith
