-- ===== src/Plans/Trash/Restored.antt =====
-- A plan that goes to Trash and comes back.
use goptivum.Prelude.{
  ==→eq, Bool, Bool-cases, List, Option, Option-cases, [], any, ap, arith, false, inl, inr, is_none,
  none, ok, refl, some, sym, true, ℕ, ◌&&◌, ◌==◌, ◌∙◌, ◌∷◌, ◌≡◌,
}
use goptivum.Plans.Changes.{parts, project, stamp}
use goptivum.Plans.Store.{Db, Plan}
use goptivum.Plans.Versions.{get_plan}
use goptivum.Plans.Trash.{change_plan, is_live_plan, restore_plan, trash_plan, update_plans}

-- The primary key: no two plans have one id.
abbrev pub UniquePlans : List Plan → Type 0
UniquePlans [] = Unit
UniquePlans (p ∷ ps) = (any (λ q. q.id == p.id) ps ≡ false) × UniquePlans ps

abbrev trashed : ℕ → ℕ → List Plan → List Plan
trashed id now ps = update_plans (is_live_plan id) (λ p. record p { deleted_at = some now }) ps

abbrev restored : ℕ → ℕ → List Plan → List Plan
restored id owner ps =
    update_plans (λ p. p.id == id && p.owner == owner) (λ p. record p { deleted_at = none }) ps

update_plans-skip :
    (test : Plan → Bool) (change : Plan → Plan) (p : Plan) (ps : List Plan)
    → test p ≡ false
    → update_plans test change (p ∷ ps) ≡ p ∷ update_plans test change ps
unfolding update_plans
update_plans-skip test change p ps h = rw h refl

update_plans-change :
    (test : Plan → Bool) (change : Plan → Plan) (p : Plan) (ps : List Plan)
    → test p ≡ true
    → update_plans test change (p ∷ ps) ≡ change p ∷ update_plans test change ps
unfolding update_plans
update_plans-change test change p ps h = rw h refl

-- A row of another id.
restored_other :
    (id owner now : ℕ) (p : Plan) (ps : List Plan)
    → (p.id == id) ≡ false
    → restored id owner (trashed id now ps) ≡ ps
    → restored id owner (trashed id now (p ∷ ps)) ≡ p ∷ ps
restored_other id owner now p ps other rest =
    ap (restored id owner) (update_plans-skip (is_live_plan id) _ p ps (ground (arith, other)))
    ∙ update_plans-skip (λ q. q.id == id && q.owner == owner) _ p _ (ground (arith, other))
    ∙ ap (λ l. p ∷ l) rest

-- The row itself.
restored_own :
    (id owner now : ℕ) (p : Plan) (ps : List Plan)
    → (p.id == id) ≡ true
    → (p.owner == owner) ≡ true
    → p.deleted_at ≡ none
    → restored id owner (trashed id now ps) ≡ ps
    → restored id owner (trashed id now (p ∷ ps)) ≡ p ∷ ps
restored_own id owner now p ps same own alive rest =
    ap (restored id owner)
      (update_plans-change (is_live_plan id) _ p ps (ground (arith, same, ap is_none alive)))
    ∙ update_plans-change (λ q. q.id == id && q.owner == owner) _ _ _ (ground (arith, same, own))
    ∙ ap (λ l. record p { deleted_at = none } ∷ l) rest
    ∙ ap (λ (d : Option ℕ). record p { deleted_at = d } ∷ ps) (sym alive)

untouched :
    (id owner now : ℕ) (ps : List Plan)
    → any (λ q. q.id == id) ps ≡ false
    → restored id owner (trashed id now ps) ≡ ps
unfolding update_plans
untouched id owner now [] h = refl
untouched id owner now (p ∷ ps) h =
    let other : (p.id == id) ≡ false = ground (arith, h) in
    restored_other id owner now p ps other (untouched id owner now ps (ground (arith, h)))

unknown_plan : (id : ℕ) (ps : List Plan) → any (λ q. q.id == id) ps ≡ false → get_plan ps id ≡ none
unfolding get_plan
unknown_plan id [] h = refl
unknown_plan id (p ∷ ps) h = ground (arith, unknown_plan id ps)

found_first :
    (id : ℕ) (p : Plan) (ps : List Plan) (plan : Plan)
    → get_plan (p ∷ ps) id ≡ some plan
    → is_live_plan id p ≡ true
    → p ≡ plan
unfolding get_plan
found_first id p ps plan h live' = ground (arith, h, live')

live_none : (id : ℕ) (p : Plan) → is_live_plan id p ≡ true → p.deleted_at ≡ none
live_none id p h = elim (Option-cases p.deleted_at) [
  | inl none' ↦ none'
  | inr (at, some') ↦ absurd (ground (arith, h, some'))
]

restored-trashed :
    (id now : ℕ) (ps : List Plan) (plan : Plan)
    → UniquePlans ps
    → get_plan ps id ≡ some plan
    → restored id plan.owner (trashed id now ps) ≡ ps
unfolding get_plan
restored-trashed id now [] plan unique h = absurd (ground (arith, h))
restored-trashed id now (p ∷ ps) plan (new', unique) h = elim (Bool-cases (p.id == id)) [
  | inr other ↦
      restored_other id plan.owner now p ps other
        (restored-trashed id now ps plan unique (ground (arith, h, other)))
  | inl same ↦
      let alone : any (λ q. q.id == id) ps ≡ false =
        ap (λ (k : ℕ). any (λ q. q.id == k) ps) (sym (==→eq p.id id same)) ∙ new' in
      elim (Bool-cases (is_none p.deleted_at)) [
        | inr dead ↦ absurd (ground (arith, h, same, dead, unknown_plan id ps alone))
        | inl alive ↦
            let live' : is_live_plan id p ≡ true = ground (arith, same, alive) in
            let owner : (p.owner == plan.owner) ≡ true =
              ground (arith, ap (λ (q : Plan). q.owner) (found_first id p ps plan h live')) in
            restored_own id plan.owner now p ps same owner (live_none id p live')
              (untouched id plan.owner now ps alone)
      ]
]

-- A live plan that goes to Trash and is restored by its owner is as it was, as are all other rows
-- but for the log, when ids of plans are unique.
pub restore_plan-trash_plan :
    (fresh fresh' : List ℕ) (db : Db) (id now : ℕ) (plan : Plan) (db1 db2 : Db)
    → UniquePlans db.plans
    → get_plan db.plans id ≡ some plan
    → trash_plan fresh db id now ≡ ok db1
    → restore_plan fresh' db1 id plan.owner ≡ ok db2
    → record db2 { log = db.log } ≡ db
unfolding trash_plan restore_plan change_plan
restore_plan-trash_plan fresh fresh' db id now plan db1 db2 unique live' gone back =
    let first : db1 ≡ record db {
      plans = trashed id now db.plans;
      log = stamp fresh db.log (parts id (project ∷ []));
    } =
      ground (arith, gone) in
    let second : record db2 { log = db.log }
        ≡ record db1 { plans = restored id plan.owner db1.plans; log = db.log } =
      ground (arith, back) in
    second
    ∙ ap (λ (d : Db). record d { plans = restored id plan.owner d.plans; log = db.log }) first
    ∙ ap (λ (ps : List Plan). record db { plans = ps })
        (restored-trashed id now db.plans plan unique live')
