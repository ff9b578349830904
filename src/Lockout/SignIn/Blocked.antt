-- ===== src/Lockout/SignIn/Blocked.antt =====
-- A block that a failure reports, through what happens to the guard after it.
use goptivum.Prelude.{
  Bool, Bool-cases, List, [], any, ap, arith, false, inl, inr, length, list_eq, list_eq_iff, some,
  suc, sym, true, ℕ, ◌+◌, ◌<◌, ◌∙◌, ◌∷◌, ◌≡◌, ◌≢◌, ◌≤◌,
}
use goptivum.Lockout.{
  Count, Guard, Key, blocked, entry_of, fail_count, failed, find, max_tracked, normalize, remaining,
  set_limits, succeeded, tracked,
}
use goptivum.Lockout.Tables.{find-delete}
use goptivum.Lockout.Counting.{fail_count-until, fail_count_later}
use goptivum.Lockout.Bound.{
  fail_reports, find-fail_other, find-fail_self, length-delete_le, length-fail,
}
use goptivum.Lockout.SignIn.{Event, limits_changed, run, sign_in_failed, sign_in_succeeded, step}

module _ (to_lower : List ℕ → List ℕ) where
  -- The name has an entry that blocks it at least until a time.
  abbrev IsBlockedUntil : ℕ → Guard → Key → Type 0
  IsBlockedUntil end g name = (c : Count) × (find g.accounts name ≡ some c) × (end ≤ c.until)

  -- An event of this name's success.
  unfoldable pub clears : Key → Event → Bool
  clears name (sign_in_succeeded account) = list_eq (normalize to_lower account) name
  clears name _ = false

  -- A failure of any name, while there is room for one more.
  failed-IsBlockedUntil :
      (end : ℕ) (g : Guard) (name : Key) (account : List ℕ) (address : Key) (now : ℕ)
      → length g.accounts < max_tracked
      → IsBlockedUntil end g name
      → IsBlockedUntil end (failed to_lower g account address now).0 name
  unfolding failed
  failed-IsBlockedUntil end g name account address now room (c, found, late) =
      let key = normalize to_lower account in
      elim (Bool-cases (list_eq key [])) [
        | inl nil ↦ rw nil (c, found, late)
        | inr named ↦ elim (Bool-cases (list_eq key name)) [
          | inl same ↦
              let this : key ≡ name = ground (arith, same, list_eq_iff key name) in
              let entry =
                find-fail_self g.limits.block now g.accounts key g.limits.account_failures in
              let own : find g.accounts key ≡ some c = ap (find g.accounts) this ∙ found in
              rw named (
                (fail_count g.limits.block g.limits.account_failures now c).0,
                ap (find _) (sym this)
                    ∙ entry
                    ∙ ap
                        (λ o.
                          some
                            (fail_count g.limits.block g.limits.account_failures now
                              (entry_of o)).0)
                        own,
                fail_count_later g.limits.block g.limits.account_failures now end c late,
              )
          | inr other ↦
              let apart : key ≢ name = ground (arith, other, list_eq_iff key name) in
              rw named (
                c,
                find-fail_other g.limits.block now g.accounts key name g.limits.account_failures
                      apart (inl room)
                    ∙ found,
                late,
              )
        ]
      ]

  length-failed :
      (g : Guard) (account : List ℕ) (address : Key) (now : ℕ)
      → length g.accounts < max_tracked
      → length (failed to_lower g account address now).0.accounts ≤ suc (length g.accounts)
  unfolding failed
  length-failed g account address now room = ground (
    arith,
    length-fail g.limits.block now g.accounts (normalize to_lower account) g.limits.account_failures
        room,
  )

  run-IsBlockedUntil :
      (end : ℕ) (g : Guard) (name : Key) (es : List Event)
      → any (clears name) es ≡ false
      → length g.accounts + length es ≤ max_tracked
      → IsBlockedUntil end g name
      → IsBlockedUntil end (run to_lower g es) name
  unfolding run step clears succeeded set_limits
  run-IsBlockedUntil end g name [] kept room h = h
  run-IsBlockedUntil end g name (sign_in_failed account address now ∷ es) kept room h =
      let free : length g.accounts < max_tracked = omega arith in
      run-IsBlockedUntil end (failed to_lower g account address now).0 name es kept
        (omega (arith, length-failed g account address now free))
        (failed-IsBlockedUntil end g name account address now free h)
  run-IsBlockedUntil end g name (sign_in_succeeded account ∷ es) kept room (c, found, late) =
      let key = normalize to_lower account in
      run-IsBlockedUntil end (succeeded to_lower g account) name es (ground (arith, kept))
        (omega (arith, length-delete_le g.accounts key))
        (c, ground (arith, kept, find-delete g.accounts key name, found), late)
  run-IsBlockedUntil end g name (limits_changed limits ∷ es) kept room h =
      run-IsBlockedUntil end (set_limits g limits) name es kept (omega arith) h

  blocked_until :
      (end : ℕ) (g : Guard) (account : List ℕ) (address : Key) (later : ℕ)
      → IsBlockedUntil end g (normalize to_lower account)
      → end ≤ later + blocked to_lower g account address later
  unfolding blocked remaining
  blocked_until end g account address later (c, found, late) = ground (arith, found, late)

  failed_own :
      (g : Guard) (account : List ℕ) (address : Key) (now : ℕ)
      → (failed to_lower g account address now).1.account ≡ true
      → IsBlockedUntil
          (now + g.limits.block)
          (failed to_lower g account address now).0
          (normalize to_lower account)
  unfolding failed
  failed_own g account address now h =
      let name = normalize to_lower account in
      let c = entry_of (find g.accounts name) in
      elim (Bool-cases (list_eq name [])) [
        | inl nil ↦ absurd (ground (arith, h, nil))
        | inr named ↦
            let reported : (fail_count g.limits.block g.limits.account_failures now c).1 ≡ true =
              ground (
                arith,
                h,
                named,
                fail_reports g.limits.block now g.accounts name g.limits.account_failures,
              ) in
            rw named (
              (fail_count g.limits.block g.limits.account_failures now c).0,
              find-fail_self g.limits.block now g.accounts name g.limits.account_failures,
              omega
                  (arith, fail_count-until g.limits.block g.limits.account_failures now c reported),
            )
      ]

  -- After a failure that reports that it blocked the name, whatever failures, successes of other
  -- names and changes of the limits follow, as long as the names tracked then and the number of
  -- those events come to no more than `max_tracked`: every question about that name, from any
  -- address, is answered with at least the time left until one block's length after the failure.
  pub failed-blocked_account :
      (g : Guard) (account : List ℕ) (address other : Key) (now later : ℕ) (es : List Event)
      → (failed to_lower g account address now).1.account ≡ true
      → any (clears (normalize to_lower account)) es ≡ false
      → (tracked (failed to_lower g account address now).0).0 + length es ≤ max_tracked
      → now + g.limits.block
        ≤ later
          + blocked to_lower
              (run to_lower (failed to_lower g account address now).0 es)
              account
              other
              later
  failed-blocked_account g account address other now later es h kept room =
      let g' = (failed to_lower g account address now).0 in
      let name = normalize to_lower account in
      let end = now + g.limits.block in
      blocked_until end (run to_lower g' es) account other later
        (run-IsBlockedUntil end g' name es kept room (failed_own g account address now h))
