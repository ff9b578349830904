-- ===== src/Plans/Backups/Newest.antt =====
-- Which versions the cap leaves: the newest plain ones, and what a solve reads.
use goptivum.Prelude.{
  Bool, Bool-cases, List, Option, [], any, arith, false, get_elem?, has, if◌then◌else◌, inl, inr,
  leb, length, ltb, none, refl, select, some, suc, true, zero, ℕ, ◌&&◌, ◌<◌, ◌==◌, ◌||◌, ◌∙◌, ◌∷◌,
  ◌≡◌, ◌≤◌,
}
use goptivum.Plans.Store.{Version}
use goptivum.Plans.Backups.{insert_desc, is_plain, plain_below}

-- The primary key of plan_versions: no two rows of one plan have one number.
abbrev pub Keyed : List Version → Type 0
Keyed [] = Unit
Keyed (v ∷ vs) = (any (λ u. u.plan_id == v.plan_id && u.version == v.version) vs ≡ false) × Keyed vs

-- Whether a plan has a plain version of this number.
unfoldable pub has_plain : ℕ → ℕ → List Version → Bool
has_plain plan_id n vs = any (λ v. is_plain plan_id v && v.version == n) vs

-- How many plain versions of a plan lie between a number and the newest version.
unfoldable pub higher : ℕ → ℕ → ℕ → List Version → ℕ
higher plan_id newest n vs =
    length (select (λ v. is_plain plan_id v && (ltb v.version newest && ltb n v.version)) vs)

-- Below a number, and strictly descending.
abbrev pub Descending : ℕ → List ℕ → Type 0
Descending hi [] = Unit
Descending hi (n ∷ ns) = (n < hi) × Descending n ns

pub above : ℕ → List ℕ → ℕ
above n ms = length (select (λ m. ltb n m) ms)

insert_desc-Descending :
    (n : ℕ) (ms : List ℕ) (hi : ℕ)
    → n < hi
    → has ms n ≡ false
    → Descending hi ms
    → Descending hi (insert_desc n ms)
unfolding insert_desc
insert_desc-Descending n [] hi low new' h = (low, tt)
insert_desc-Descending n (m ∷ ms) hi low new' (less, h) =
    ground (arith, insert_desc-Descending n ms m)

has-insert_desc : (n : ℕ) (ms : List ℕ) (k : ℕ) → has (insert_desc n ms) k ≡ (n == k || has ms k)
unfolding insert_desc
has-insert_desc n [] k = refl
has-insert_desc n (m ∷ ms) k = ground (arith, has-insert_desc n ms k)

above-insert_desc :
    (n : ℕ) (ms : List ℕ) (k : ℕ)
    → above k (insert_desc n ms) ≡ (if ltb k n then suc (above k ms) else above k ms)
unfolding insert_desc above
above-insert_desc n [] k = ground arith
above-insert_desc n (m ∷ ms) k = ground (arith, above-insert_desc n ms k)

pub has-plain_below :
    (plan_id newest : ℕ) (vs : List Version) (n : ℕ)
    → has (plain_below plan_id newest vs) n ≡ (has_plain plan_id n vs && ltb n newest)
unfolding plain_below has_plain
has-plain_below plan_id newest [] n = refl
has-plain_below plan_id newest (v ∷ vs) n = ground (
  arith,
  has-insert_desc v.version (plain_below plan_id newest vs) n,
  has-plain_below plan_id newest vs n,
)

pub above-plain_below :
    (plan_id newest : ℕ) (vs : List Version) (n : ℕ)
    → above n (plain_below plan_id newest vs) ≡ higher plan_id newest n vs
unfolding plain_below higher above
above-plain_below plan_id newest [] n = refl
above-plain_below plan_id newest (v ∷ vs) n = ground (
  arith,
  above-insert_desc v.version (plain_below plan_id newest vs) n,
  above-plain_below plan_id newest vs n,
)

has_plain_other :
    (plan_id : ℕ) (v : Version) (vs : List Version)
    → any (λ u. u.plan_id == v.plan_id && u.version == v.version) vs ≡ false
    → v.plan_id ≡ plan_id
    → has_plain plan_id v.version vs ≡ false
unfolding has_plain
has_plain_other plan_id v [] h same = refl
has_plain_other plan_id v (u ∷ us) h same = ground (arith, has_plain_other plan_id v us)

plain_parts :
    (plan_id newest : ℕ) (v : Version)
    → (is_plain plan_id v && ltb v.version newest) ≡ true
    → (v.plan_id ≡ plan_id) × (v.version < newest)
plain_parts plan_id newest v h = ground arith

pub plain_below-Descending :
    (plan_id newest : ℕ) (vs : List Version)
    → Keyed vs
    → Descending newest (plain_below plan_id newest vs)
unfolding plain_below
plain_below-Descending plan_id newest [] h = tt
plain_below-Descending plan_id newest (v ∷ vs) (new', h) =
    elim (Bool-cases (is_plain plan_id v && ltb v.version newest)) [
      | inr other ↦ rw other (plain_below-Descending plan_id newest vs h)
      | inl plain ↦
          let (mine, low) = plain_parts plan_id newest v plain in
          rw plain (
            insert_desc-Descending v.version (plain_below plan_id newest vs) newest low
              (has-plain_below plan_id newest vs v.version
                ∙ ground (arith, has_plain_other plan_id v vs new' mine))
              (plain_below-Descending plan_id newest vs h))
    ]

-- A number against the one at an offset, if there is one.
abbrev pub reaches : ℕ → Option ℕ → Bool
reaches n none = false
reaches n (some c) = leb n c

has-Descending : (n hi : ℕ) (ms : List ℕ) → Descending hi ms → has ms n ≡ true → n < hi
has-Descending n hi [] h there = absurd (ground (arith, there))
has-Descending n hi (m ∷ ms) (low, h) there = ground (arith, has-Descending n m ms h)

pub offset_low :
    (n keep hi : ℕ) (ms : List ℕ)
    → Descending hi ms
    → hi ≤ n
    → reaches n (get_elem? ms keep) ≡ false
offset_low n keep hi [] h le = refl
offset_low n zero hi (m ∷ ms) (low, h) le = ground arith
offset_low n (suc keep) hi (m ∷ ms) (low, h) le = offset_low n keep m ms h (omega arith)

above_none : (n hi : ℕ) (ms : List ℕ) → Descending hi ms → hi ≤ suc n → above n ms ≡ 0
unfolding above
above_none n hi [] h le = refl
above_none n hi (m ∷ ms) (low, h) le = ground (arith, above_none n m ms h)

-- The number at an offset of a descending list, against how many are above a number of the list.
pub offset-above :
    (keep n hi : ℕ) (ms : List ℕ)
    → Descending hi ms
    → has ms n ≡ true
    → reaches n (get_elem? ms keep) ≡ leb keep (above n ms)
unfolding above
offset-above keep n hi [] h there = absurd (ground (arith, there))
offset-above zero n hi (m ∷ ms) (low, h) there = ground (arith, has-Descending n m ms h)
offset-above (suc keep) n hi (m ∷ ms) (low, h) there = ground (
  arith,
  has-Descending n m ms h,
  above_none n m ms h,
  offset_low n keep m ms h,
  offset-above keep n m ms h,
)
