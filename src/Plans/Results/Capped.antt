-- ===== src/Plans/Results/Capped.antt =====
-- What the results cap removes, and what it leaves.
use goptivum.Prelude.{
  ==→eq, Bool-cases, List, [], ap, arith, drop, false, inl, inr, leb, length, not, refl, select,
  sym, true, ℕ, ◌&&◌, ◌==◌, ◌||◌, ◌∙◌, ◌∷◌, ◌≡◌, ◌⊎◌,
}
use goptivum.Plans.Store.{Db, SolveJob, Stored}
use goptivum.Plans.Results.Latest.{
  Among, Among-has_result, Among-insert_latest, Identified, Identified-insert_latest, LatestFirst,
  drop-later, has_result, has_result-drop, has_result-insert_latest, has_result_cons,
  has_result_nil, insert_latest-LatestFirst, later, later-insert_latest, later_cons, later_nil,
}
use goptivum.Plans.Results.{
  counted, is_counted, is_later, is_source, remove_result, remove_results, trim_from, trim_results,
}

has_result-select :
    (id k : ℕ) (rs : List Stored)
    → has_result id (select (λ r. not (r.id == k)) rs) ≡ (has_result id rs && not (k == id))
unfolding has_result
has_result-select id k [] = refl
has_result-select id k (r ∷ rs) = ground (arith, has_result-select id k rs)

is_source_same :
    (jobs : List SolveJob) (k id : ℕ) → ((k == id) ≡ false) ⊎ (is_source jobs id ≡ is_source jobs k)
is_source_same jobs k id = elim (Bool-cases (k == id)) [
  | inr other ↦ inl other
  | inl same ↦ inr (ap (λ (j : ℕ). is_source jobs j) (sym (==→eq k id same)))
]

-- The loop removes the results it is given, but for those that a solve reads.
trim_from-has_result :
    (db : Db) (now id : ℕ) (rs : List Stored)
    → has_result id (trim_from db now rs).results
      ≡ (has_result id db.results && (is_source db.solve_jobs id || not (has_result id rs)))
unfolding trim_from remove_result remove_results
trim_from-has_result db now id [] = ground (arith, has_result_nil id)
trim_from-has_result db now id (r ∷ rs) = elim (Bool-cases (is_source db.solve_jobs r.id)) [
  | inl read ↦
      rw (trim_from, read)
        (ground (
          arith,
          trim_from-has_result db now id rs,
          has_result_cons id r rs,
          is_source_same db.solve_jobs r.id id,
        ))
  | inr unread ↦
      rw (trim_from, unread)
        (ground (
          arith,
          trim_from-has_result (remove_results now (λ s. s.id == r.id) db) now id rs,
          has_result-select id r.id db.results,
          has_result_cons id r rs,
          is_source_same db.solve_jobs r.id id,
        ))
]

has_result-counted :
    (plan_id id : ℕ) (rs : List Stored)
    → has_result id rs ≡ false
    → has_result id (counted plan_id rs) ≡ false
unfolding counted has_result
has_result-counted plan_id id [] h = refl
has_result-counted plan_id id (r ∷ rs) h =
    ground
      (arith, has_result-insert_latest id r (counted plan_id rs), has_result-counted plan_id id rs)

counted-Ordered :
    (plan_id : ℕ) (rs : List Stored)
    → Identified rs
    → LatestFirst (counted plan_id rs) × Identified (counted plan_id rs)
unfolding counted
counted-Ordered plan_id [] ids = (tt, tt)
counted-Ordered plan_id (r ∷ rs) (new', ids) =
    let (ordered, known) = counted-Ordered plan_id rs ids in
    let unknown = has_result-counted plan_id r.id rs new' in
    elim (Bool-cases (is_counted plan_id r)) [
      | inr other ↦ rw other (ordered, known)
      | inl counts ↦ rw counts (
        insert_latest-LatestFirst r (counted plan_id rs) ordered unknown,
        Identified-insert_latest r (counted plan_id rs) unknown known,
      )
    ]

-- How many counted results of a plan are later than this one.
unfoldable pub newer : ℕ → Stored → List Stored → ℕ
newer plan_id r rs = length (select (λ s. is_counted plan_id s && is_later s r) rs)

later-counted :
    (plan_id : ℕ) (r : Stored) (rs : List Stored)
    → later r (counted plan_id rs) ≡ newer plan_id r rs
unfolding newer counted
later-counted plan_id r [] = later_nil r
later-counted plan_id r (s ∷ ss) = ground (
  arith,
  later-insert_latest r s (counted plan_id ss),
  later_cons r s (counted plan_id ss),
  later-counted plan_id r ss,
)

Among-counted :
    (plan_id : ℕ) (r : Stored) (rs : List Stored)
    → Among r rs
    → is_counted plan_id r ≡ true
    → Among r (counted plan_id rs)
unfolding counted
Among-counted plan_id r [] among counts = absurd among
Among-counted plan_id r (s ∷ ss) among counts = elim (Bool-cases (is_counted plan_id s)) [
  | inl yes' ↦ rw yes' (
      Among-insert_latest r s (counted plan_id ss) (elim among [
        | inl same ↦ inl same
        | inr rest ↦ inr (Among-counted plan_id r ss rest counts)
      ]))
  | inr no' ↦ rw no' (elim among [
    | inl same ↦
        absurd (ground (arith, ap (λ (x : Stored). is_counted plan_id x) same, counts, no'))
    | inr rest ↦ Among-counted plan_id r ss rest counts
  ])
]

distinct_ids :
    (s r : Stored) (ss : List Stored)
    → ((s.id == r.id) ≡ false) ⊎ (has_result s.id ss ≡ has_result r.id ss)
distinct_ids s r ss = elim (Bool-cases (s.id == r.id)) [
  | inr other ↦ inl other
  | inl same ↦ inr (ap (λ (k : ℕ). has_result k ss) (==→eq s.id r.id same))
]

uncounted :
    (plan_id : ℕ) (r : Stored) (rs : List Stored)
    → Identified rs
    → Among r rs
    → is_counted plan_id r ≡ false
    → has_result r.id (counted plan_id rs) ≡ false
unfolding counted
uncounted plan_id r [] ids among other = absurd among
uncounted plan_id r (s ∷ ss) (new', ids) (inl same) other =
    let skipped : is_counted plan_id s ≡ false =
      sym (ap (λ (x : Stored). is_counted plan_id x) same) ∙ other in
    rw skipped
      (has_result-counted plan_id r.id ss (ap (λ (x : Stored). has_result x.id ss) same ∙ new'))
uncounted plan_id r (s ∷ ss) (new', ids) (inr rest) other = ground (
  arith,
  has_result-insert_latest r.id s (counted plan_id ss),
  uncounted plan_id r ss ids rest other,
  new',
  distinct_ids s r ss,
  Among-has_result r ss rest,
)

-- The cap removes exactly the results out of Trash and not pinned of a plan that `keep` or more
-- such results are later than, but for those that an open solve reads, when ids are unique.
pub trim_results-has_result :
    (db : Db) (plan_id keep now : ℕ) (r : Stored)
    → Identified db.results
    → Among r db.results
    → has_result r.id (trim_results db plan_id keep now).results ≡ (
        is_source db.solve_jobs r.id
        || not (is_counted plan_id r && leb keep (newer plan_id r db.results)))
unfolding trim_results
trim_results-has_result db plan_id keep now r ids among =
    let listed' = counted plan_id db.results in
    let (ordered, known) = counted-Ordered plan_id db.results ids in
    let how = trim_from-has_result db now r.id (drop keep listed') in
    elim (Bool-cases (is_counted plan_id r)) [
      | inr other ↦ ground (
        arith,
        how,
        Among-has_result r db.results among,
        has_result-drop r.id keep listed' (uncounted plan_id r db.results ids among other),
      )
      | inl counts ↦ ground (
        arith,
        how,
        Among-has_result r db.results among,
        drop-later r keep listed' ordered known (Among-counted plan_id r db.results among counts),
        later-counted plan_id r db.results,
      )
    ]
