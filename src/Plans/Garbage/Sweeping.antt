-- ===== src/Plans/Garbage/Sweeping.antt =====
-- What a sweep deletes, and what it leaves.
use goptivum.Prelude.{
  ==→eq, Bool, List, [], any, ap, arith, false, has, inl, inr, not, refl, select, sym, true, ℕ,
  ◌&&◌, ◌==◌, ◌∙◌, ◌∷◌, ◌≡◌, ◌⊎◌,
}
use goptivum.Plans.Store.{Db, Garbage, in_garbage, is_accounted, is_named}
use goptivum.Plans.Garbage.{
  Swept, deleted, due_keys, failed, is_due, left, sweep, sweep_keys, sweep_one,
}

-- Whether a key waited long enough.
unfoldable pub due : ℕ → ℕ → List Garbage → Bool
due key at gs = any (is_due key at) gs

due-select :
    (k key at : ℕ) (gs : List Garbage)
    → due key at (select (λ g. not (is_due k at g)) gs) ≡ (due key at gs && not (k == key))
unfolding due
due-select k key at [] = refl
due-select k key at (g ∷ gs) = ground (arith, due-select k key at gs)

in_garbage-select :
    (k key at : ℕ) (gs : List Garbage)
    → (k == key) ≡ false
    → in_garbage key (select (λ g. not (is_due k at g)) gs) ≡ in_garbage key gs
unfolding in_garbage
in_garbage-select k key at [] other = refl
in_garbage-select k key at (g ∷ gs) other = ground (arith, in_garbage-select k key at gs)

-- One key's transaction: it is deleted exactly when it is due, not named and its removal does not
-- fail; no table but the garbage changes; the other keys stay as they were.
OneSwept : (ℕ → Bool) → Db → ℕ → ℕ → Db × Swept → Type 0
OneSwept fails db k at (db', swept) =
    (db' ≡ record db { garbage = db'.garbage })
    × (((swept ≡ left) × (due k at db.garbage ≡ false) × (db'.garbage ≡ db.garbage))
        ⊎ ((swept ≡ left)
            × (is_named db k ≡ true)
            × (db'.garbage ≡ select (λ g. not (is_due k at g)) db.garbage))
        ⊎ ((swept ≡ failed) × (fails k ≡ true) × (db'.garbage ≡ db.garbage))
        ⊎ ((swept ≡ deleted)
            × (due k at db.garbage ≡ true)
            × (is_named db k ≡ false)
            × (fails k ≡ false)
            × (db'.garbage ≡ select (λ g. not (is_due k at g)) db.garbage)))

sweep_one-OneSwept :
    (fails : ℕ → Bool) (db : Db) (k at : ℕ) → OneSwept fails db k at (sweep_one fails db k at)
unfolding OneSwept sweep_one due
sweep_one-OneSwept fails db k at = ground arith

is_named_same :
    (db db' : Db) (key : ℕ)
    → db' ≡ record db { garbage = db'.garbage }
    → is_named db' key ≡ is_named db key
unfolding is_named
is_named_same db db' key same = ap (λ (d : Db). is_named d key) same

sweep_one_named :
    (fails : ℕ → Bool) (db : Db) (k at key : ℕ) (db' : Db) (swept : Swept)
    → OneSwept fails db k at (db', swept)
    → is_named db' key ≡ is_named db key
unfolding OneSwept
sweep_one_named fails db k at key db' swept (same, how) = is_named_same db db' key same

-- The loop over some keys, as it stands to one key.
KeysSwept : (ℕ → Bool) → ℕ → Db → List ℕ → ℕ → Db × List ℕ × List ℕ → Type 0
KeysSwept fails at db keys key (end, gone, stayed) =
    (end ≡ record db { garbage = end.garbage })
    × (is_named end key ≡ is_named db key)
    × (has gone key
        ≡ (has keys key && (due key at db.garbage && not (is_named db key)) && not (fails key)))
    × ((is_accounted db key ≡ false) ⊎ (is_accounted end key ≡ true) ⊎ (has gone key ≡ true))

-- What one transaction does to the garbage rows of a key.
sweep_one_other :
    (fails : ℕ → Bool) (at : ℕ) (db : Db) (k key : ℕ) (db' : Db) (swept : Swept)
    → OneSwept fails db k at (db', swept)
    → (k == key) ≡ false
    → (due key at db'.garbage ≡ due key at db.garbage)
      × (in_garbage key db'.garbage ≡ in_garbage key db.garbage)
unfolding OneSwept
sweep_one_other fails at db k key db' swept (rows, how) other =
    let dues = due-select k key at db.garbage in
    let ins = in_garbage-select k key at db.garbage other in
    elim how [
      | inl (e, idle, g) ↦ rw g (refl, refl)
      | inr (inl (e, known, g)) ↦ rw g (ground (arith, dues), ins)
      | inr (inr (inl (e, fail, g))) ↦ rw g (refl, refl)
      | inr (inr (inr (e, ready, unnamed, works, g))) ↦ rw g (ground (arith, dues), ins)
    ]

-- What it does to its own key.
sweep_one_own :
    (fails : ℕ → Bool) (at : ℕ) (db : Db) (k key : ℕ) (db' : Db) (swept : Swept)
    → OneSwept fails db k at (db', swept)
    → (k == key) ≡ true
    → (is_named db' key ≡ is_named db key)
      × (((swept ≡ left)
            × (due key at db.garbage ≡ false)
            × (due key at db'.garbage ≡ false)
            × (in_garbage key db'.garbage ≡ in_garbage key db.garbage))
          ⊎ ((swept ≡ left) × (is_named db key ≡ true))
          ⊎ ((swept ≡ failed)
              × (fails key ≡ true)
              × (in_garbage key db'.garbage ≡ in_garbage key db.garbage))
          ⊎ ((swept ≡ deleted)
              × (due key at db.garbage ≡ true)
              × (is_named db key ≡ false)
              × (fails key ≡ false)))
unfolding OneSwept
sweep_one_own fails at db k key db' swept (rows, how) this =
    let same : k ≡ key = ==→eq k key this in
    let dues : due key at db.garbage ≡ due k at db.garbage =
      ap (λ (j : ℕ). due j at db.garbage) (sym same) in
    let names : is_named db key ≡ is_named db k = ap (λ (j : ℕ). is_named db j) (sym same) in
    let fs : fails key ≡ fails k = ap fails (sym same) in
    (
      is_named_same db db' key rows,
      elim how [
        | inl (e, idle, g) ↦ rw g (inl (e, dues ∙ idle, dues ∙ idle, refl))
        | inr (inl (e, known, g)) ↦ inr (inl (e, names ∙ known))
        | inr (inr (inl (e, fail, g))) ↦ rw g (inr (inr (inl (e, fs ∙ fail, refl))))
        | inr (inr (inr (e, ready, unnamed, works, g))) ↦
            inr (inr (inr (e, dues ∙ ready, names ∙ unnamed, fs ∙ works)))
      ],
    )

sweep_step :
    (fails : ℕ → Bool) (at : ℕ) (db : Db) (k : ℕ) (keys : List ℕ) (key : ℕ) (db' : Db)
    (swept : Swept) (end : Db) (gone stayed : List ℕ)
    → OneSwept fails db k at (db', swept)
    → KeysSwept fails at db' keys key (end, gone, stayed)
    → KeysSwept fails at db (k ∷ keys) key (elim swept [
      | left ↦ (end, gone, stayed)
      | deleted ↦ (end, k ∷ gone, stayed)
      | failed ↦ (end, gone, k ∷ stayed)
    ])
unfolding KeysSwept OneSwept is_accounted
sweep_step fails at db k keys key db' left end gone stayed one (rows, named, which, kept) = ground (
  arith,
  rows ∙ ap (λ (d : Db). record d { garbage = end.garbage }) one.0,
  sweep_one_other fails at db k key db' left one,
  sweep_one_own fails at db k key db' left one,
  sweep_one_named fails db k at key db' left one,
)
sweep_step fails at db k keys key db' deleted end gone stayed one (rows, named, which, kept) =
    ground (
      arith,
      rows ∙ ap (λ (d : Db). record d { garbage = end.garbage }) one.0,
      sweep_one_other fails at db k key db' deleted one,
      sweep_one_own fails at db k key db' deleted one,
      sweep_one_named fails db k at key db' deleted one,
    )
sweep_step fails at db k keys key db' failed end gone stayed one (rows, named, which, kept) =
    ground (
      arith,
      rows ∙ ap (λ (d : Db). record d { garbage = end.garbage }) one.0,
      sweep_one_other fails at db k key db' failed one,
      sweep_one_own fails at db k key db' failed one,
      sweep_one_named fails db k at key db' failed one,
    )

sweep_none :
    (fails : ℕ → Bool) (at : ℕ) (db : Db) (key : ℕ) → KeysSwept fails at db [] key (db, [], [])
unfolding KeysSwept
sweep_none fails at db key = ground arith

sweep_keys-KeysSwept :
    (fails : ℕ → Bool) (at : ℕ) (db : Db) (keys : List ℕ) (key : ℕ)
    → KeysSwept fails at db keys key (sweep_keys fails at db keys)
unfolding sweep_keys
sweep_keys-KeysSwept fails at db [] key = sweep_none fails at db key
sweep_keys-KeysSwept fails at db (k ∷ keys) key =
    let one = sweep_one fails db k at in
    let (end, gone, stayed) = sweep_keys fails at one.0 keys in
    sweep_step fails at db k keys key one.0 one.1 end gone stayed (sweep_one-OneSwept fails db k at)
      (sweep_keys-KeysSwept fails at one.0 keys key)

has-due_keys : (at : ℕ) (gs : List Garbage) (key : ℕ) → has (due_keys at gs) key ≡ due key at gs
unfolding due_keys due
has-due_keys at [] key = refl
has-due_keys at (g ∷ gs) key = ground (arith, has-due_keys at gs key)

-- A sweep deletes exactly the keys that waited an hour, that no version, result or exported file
-- names and whose removal does not fail; it leaves every table but the garbage as it was, and
-- each key that a row named or the garbage held is after it named, held, or deleted.
pub sweep-deletes :
    (fails : ℕ → Bool) (db : Db) (at key : ℕ)
    → let (end, gone, stayed) = sweep fails db at in
      (has gone key ≡ (due key at db.garbage && not (is_named db key)) && not (fails key))
      × (end ≡ record db { garbage = end.garbage })
      × (is_named end key ≡ is_named db key)
      × ((is_accounted db key ≡ false) ⊎ (is_accounted end key ≡ true) ⊎ (has gone key ≡ true))
unfolding sweep KeysSwept
sweep-deletes fails db at key = ground (
  arith,
  sweep_keys-KeysSwept fails at db (due_keys at db.garbage) key,
  has-due_keys at db.garbage key,
)
