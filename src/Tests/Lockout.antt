-- ===== src/Tests/Lockout.antt =====
-- A guard that blocks a name at the second failure.
use goptivum.Prelude.{List, [], any, arith, false, inl, refl, true, ℕ, ◌+◌, ◌∷◌, ◌≡◌, ◌≤◌}
use goptivum.Text.{trim_space}
use goptivum.Lockout.{
  Guard, Limits, Table, blocked, fail, fail_count, failed, find, make_room, max_tracked, new_guard,
  no_count, normalize, put, sweep, tracked,
}
use goptivum.Lockout.Counting.{fail_at, fail_at_window, fail_count_blocked, last_of}
use goptivum.Lockout.Bound.{IsTable}
use goptivum.Lockout.SignIn.{Event, run, run-tracked, sign_in_failed, sign_in_succeeded}
use goptivum.Lockout.SignIn.Blocked.{clears, failed-blocked_account}

abbrev small_limits : Limits
small_limits = record { account_failures = 2; address_failures = 5; block = 60 }

abbrev unchanged : List ℕ → List ℕ
unchanged bs = bs

fail_at_window_example :
    fail_at 60 2 (100 ∷ 110 ∷ []) no_count
    ≡ (record { failures = 0; since = 0; until = last_of 100 (110 ∷ []) + 60 }, true)
fail_at_window_example =
    fail_at_window 60 2 100 (110 ∷ []) no_count (inl refl) (omega arith) (omega arith)
      (ground arith)

fail_count_blocked_example :
    fail_count 60 2 100 (record { failures = 0; since = 0; until = 150 })
    ≡ (record { failures = 0; since = 0; until = 150 }, false)
fail_count_blocked_example =
    fail_count_blocked 60 2 100 (record { failures = 0; since = 0; until = 150 }) (omega arith)

abbrev some_table : Table
some_table = (1 ∷ [], record { failures = 1; since = 90; until = 0 }) ∷ []

some_table-IsTable : IsTable some_table
some_table-IsTable = record { named = ((λ h. absurd (cc)), tt); bounded = omega arith }

abbrev events : List Event
events = sign_in_failed (5 ∷ []) (7 ∷ []) 100 ∷ sign_in_succeeded (5 ∷ []) ∷ []

run-tracked_example :
    ((tracked (run unchanged (new_guard small_limits) events)).0 ≤ max_tracked)
    × ((tracked (run unchanged (new_guard small_limits) events)).1 ≤ max_tracked)
run-tracked_example = run-tracked unchanged small_limits events

abbrev tried_guard : Guard
tried_guard = record {
  limits = small_limits;
  accounts = (65 ∷ [], record { failures = 1; since = 90; until = 0 }) ∷ [];
  addresses = [];
}

tried_guard_blocks : (failed unchanged tried_guard (65 ∷ []) (7 ∷ []) 100).1.account ≡ true
unfolding failed normalize fail find put fail_count make_room sweep trim_space
tried_guard_blocks = refl

-- Two more failures, of this name and of another, and a success of the other.
abbrev afterwards : List Event
afterwards =
    sign_in_failed (65 ∷ []) (7 ∷ []) 110
    ∷ sign_in_failed (66 ∷ []) (7 ∷ []) 111
    ∷ sign_in_succeeded (66 ∷ [])
    ∷ []

abbrev blocking_guard : Guard
blocking_guard = (failed unchanged tried_guard (65 ∷ []) (7 ∷ []) 100).0

afterwards_keeps : any (clears unchanged (normalize unchanged (65 ∷ []))) afterwards ≡ false
unfolding clears normalize trim_space
afterwards_keeps = refl

blocking_guard_tracks : (tracked blocking_guard).0 ≡ 1
unfolding failed normalize fail find put fail_count make_room sweep trim_space
blocking_guard_tracks = refl

failed-blocked_account_example :
    100 + 60
    ≤ 120 + blocked unchanged (run unchanged blocking_guard afterwards) (65 ∷ []) (8 ∷ []) 120
failed-blocked_account_example =
    failed-blocked_account unchanged tried_guard (65 ∷ []) (7 ∷ []) (8 ∷ []) 100 120 afterwards
      tried_guard_blocks afterwards_keeps (omega (arith, blocking_guard_tracks))
