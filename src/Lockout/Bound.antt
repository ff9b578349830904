-- ===== src/Lockout/Bound.antt =====
-- The tables stay within their bound, and what one sign-in does to another.
use goptivum.Prelude.{
  Bool-cases, Option-cases, [], arith, inl, inr, length, list_eq_iff, list_eq_refl, ltb, ltb→lt,
  none, refl, some, suc, ℕ, ◌<◌, ◌∙◌, ◌∷◌, ◌≡◌, ◌≢◌, ◌≤◌, ◌⊎◌,
}
use goptivum.Lockout.{
  Count, Key, Table, delete, entry_of, fail, fail_count, find, make_room, max_tracked, no_count,
  put, room_for, started, sweep,
}
use goptivum.Lockout.Tables.{find-put, length-put}

-- No entry has the empty key.
abbrev pub Named : Table → Type 0
Named [] = Unit
Named ((k, c) ∷ t) = (k ≢ []) × Named t

pub record IsTable (t : Table) : Type 0 where
  pub named : Named t
  pub bounded : length t ≤ max_tracked

put-Named : (t : Table) (k : Key) (c : Count) → k ≢ [] → Named t → Named (put t k c)
unfolding put
put-Named [] k c h n = (h, tt)
put-Named ((i, d) ∷ t) k c h n = ground (arith, put-Named t k c h n.1)

pub delete-Named : (t : Table) (k : Key) → Named t → Named (delete t k)
unfolding delete
delete-Named [] k n = tt
delete-Named ((i, d) ∷ t) k n = ground (arith, delete-Named t k n.1)

pub length-delete_le : (t : Table) (k : Key) → length (delete t k) ≤ length t
unfolding delete
length-delete_le [] k = omega arith
length-delete_le ((i, d) ∷ t) k = ground (arith, length-delete_le t k)

-- Deleting a key that is there makes the table smaller.
length-delete : (t : Table) (k : Key) → find t k ≢ none → length (delete t k) < length t
unfolding delete find
length-delete [] k h = absurd (h refl)
length-delete ((i, d) ∷ t) k h =
    ground (arith, list_eq_iff i k, length-delete_le t k, length-delete t k)

module _ (block now : ℕ) where
  sweep-Named :
      (t : Table) (key : Key) (oldest : ℕ) → Named t → Named (sweep block now t key oldest).0
  unfolding sweep
  sweep-Named [] key oldest n = tt
  sweep-Named ((k, c) ∷ t) key oldest n =
      ground (arith, sweep-Named t key oldest n.1, sweep-Named t k (started c) n.1)

  sweep_shorter :
      (t : Table) (key : Key) (oldest : ℕ) → length (sweep block now t key oldest).0 ≤ length t
  unfolding sweep
  sweep_shorter [] key oldest = omega arith
  sweep_shorter ((k, c) ∷ t) key oldest =
      ground (arith, sweep_shorter t key oldest, sweep_shorter t k (started c))

  -- The key that the sweep names is the one it was given, or that of an entry it keeps.
  sweep_key :
      (t : Table) (key : Key) (oldest : ℕ)
      → ((sweep block now t key oldest).1 ≡ key)
        ⊎ (find (sweep block now t key oldest).0 (sweep block now t key oldest).1 ≢ none)
  unfolding sweep find
  sweep_key [] key oldest = inl refl
  sweep_key ((k, c) ∷ t) key oldest =
      ground (arith, sweep_key t key oldest, sweep_key t k (started c), list_eq_refl k)

  sweep_keeps_key :
      (t : Table) (key : Key) (oldest : ℕ)
      → Named t
      → key ≢ []
      → (sweep block now t key oldest).1 ≢ []
  unfolding sweep
  sweep_keeps_key [] key oldest n h = h
  sweep_keeps_key ((k, c) ∷ t) key oldest n h =
      ground (arith, sweep_keeps_key t key oldest n.1 h, sweep_keeps_key t k (started c) n.1 n.0)

  -- A table of which nothing is dropped has an oldest entry.
  sweep_names :
      (t : Table)
      → Named t
      → 0 < length t
      → length t ≤ length (sweep block now t [] 0).0
      → (sweep block now t [] 0).1 ≢ []
  unfolding sweep
  sweep_names [] n pos h = absurd (omega arith)
  sweep_names ((k, c) ∷ t) n pos h = ground (
    arith,
    sweep_shorter t [] 0,
    sweep_shorter t k (started c),
    sweep_keeps_key t k (started c) n.1 n.0,
  )

  -- Room is always made: below the bound nothing is dropped, and at the bound at least one entry is.
  pub length-make_room : (t : Table) → IsTable t → length (make_room block t now) < max_tracked
  unfolding make_room
  length-make_room t h = elim (Bool-cases (ltb (length t) max_tracked)) [
    | inl room ↦ rw room (ltb→lt _ _ room)
    | inr full ↦
        let (kept, key, oldest) = sweep block now t [] 0 in
        rw full (
          ground (
            arith,
            sweep_shorter t [] 0,
            sweep_key t [] 0,
            sweep_names t h.named,
            length-delete kept key,
            list_eq_iff key [],
          ))
  ]

  make_room-Named : (t : Table) → Named t → Named (make_room block t now)
  unfolding make_room
  make_room-Named t n =
      let (kept, key, oldest) = sweep block now t [] 0 in
      ground (arith, sweep-Named t [] 0 n, delete-Named kept key)

  -- A failure counted under any name keeps the table within its bound.
  pub fail-IsTable :
      (t : Table) (key : Key) (limit : ℕ)
      → key ≢ []
      → IsTable t
      → IsTable (fail block t key limit now).0
  unfolding fail
  fail-IsTable t key limit h v = elim (Option-cases (find t key)) [
    | inl absent ↦ rw absent (record {
      named = put-Named (make_room block t now) key _ h (make_room-Named t v.named);
      bounded = ground (
        arith,
        length-put (make_room block t now) key (fail_count block limit now no_count).0,
        length-make_room t v,
      );
    })
    | inr (c, present) ↦ rw present (record {
      named = put-Named t key _ h v.named;
      bounded = rw (length-put t key (fail_count block limit now c).0, present) v.bounded;
    })
  ]

  -- While there is room, or the key is tracked already, a failure leaves every other entry alone.
  pub find-fail_other :
      (t : Table) (key other : Key) (limit : ℕ)
      → key ≢ other
      → (length t < max_tracked) ⊎ (find t key ≢ none)
      → find (fail block t key limit now).0 other ≡ find t other
  unfolding fail make_room
  find-fail_other t key other limit ne room = elim (Option-cases (find t key)) [
    | inl absent ↦ ground (
      arith,
      absent,
      find-put t key other (fail_count block limit now no_count).0,
      list_eq_iff key other,
    )
    | inr (c, present) ↦ ground (
      arith,
      present,
      find-put t key other (fail_count block limit now c).0,
      list_eq_iff key other,
    )
  ]

  -- The entry of the key after a failure is what the failure makes of the entry before it.
  pub find-fail_self :
      (t : Table) (key : Key) (limit : ℕ)
      → find (fail block t key limit now).0 key
        ≡ some (fail_count block limit now (entry_of (find t key))).0
  unfolding fail
  find-fail_self t key limit =
      find-put (room_for block (find t key) t now) key key _ ∙ rw (list_eq_refl key) refl

  pub fail_reports :
      (t : Table) (key : Key) (limit : ℕ)
      → (fail block t key limit now).1 ≡ (fail_count block limit now (entry_of (find t key))).1
  unfolding fail
  fail_reports t key limit = refl

  -- While there is room, a failure adds one entry at most.
  pub length-fail :
      (t : Table) (key : Key) (limit : ℕ)
      → length t < max_tracked
      → length (fail block t key limit now).0 ≤ suc (length t)
  unfolding fail make_room
  length-fail t key limit room =
      ground (arith, length-put t key (fail_count block limit now (entry_of (find t key))).0)
