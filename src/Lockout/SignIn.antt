-- ===== src/Lockout/SignIn.antt =====
-- The guard as the sign-in proxy uses it: its events, its bound, and what a success clears.
pub mod Blocked
use goptivum.Prelude.{
  Bool-cases, List, [], arith, inl, inr, list_eq, list_eq_iff, list_eq_refl, ℕ, ◌∷◌, ◌≡◌, ◌≤◌,
}
use goptivum.Lockout.{
  Guard, Key, Limits, blocked, failed, find, max_tracked, new_guard, normalize, remaining,
  set_limits, succeeded, tracked,
}
use goptivum.Lockout.Tables.{find-delete}
use goptivum.Lockout.Bound.{IsTable, delete-Named, fail-IsTable, length-delete_le}

-- Both tables are within their bound.
pub record IsGuard (g : Guard) : Type 0 where
  pub accounts : IsTable g.accounts
  pub addresses : IsTable g.addresses

-- What the proxy does with a guard, at a time.
pub data Event : Type 0 where
  sign_in_failed : List ℕ → Key → ℕ → Event
  sign_in_succeeded : List ℕ → Event
  limits_changed : Limits → Event

module _ (to_lower : List ℕ → List ℕ) where
  unfoldable pub step : Guard → Event → Guard
  step g (sign_in_failed account address now) = (failed to_lower g account address now).0
  step g (sign_in_succeeded account) = succeeded to_lower g account
  step g (limits_changed limits) = set_limits g limits

  unfoldable pub run : Guard → List Event → Guard
  run g [] = g
  run g (e ∷ es) = run (step g e) es

  failed-IsGuard :
      (g : Guard) (account : List ℕ) (address : Key) (now : ℕ)
      → IsGuard g
      → IsGuard (failed to_lower g account address now).0
  unfolding failed
  failed-IsGuard g account address now h = record {
    accounts = elim (Bool-cases (list_eq (normalize to_lower account) [])) [
      | inl nil ↦ rw nil h.accounts
      | inr name ↦ rw name (
          fail-IsTable g.limits.block now g.accounts (normalize to_lower account)
            g.limits.account_failures (ground (arith, list_eq_iff (normalize to_lower account) []))
            h.accounts)
    ];
    addresses = elim (Bool-cases (list_eq address [])) [
      | inl nil ↦ rw nil h.addresses
      | inr name ↦ rw name (
          fail-IsTable g.limits.block now g.addresses address g.limits.address_failures
            (ground (arith, list_eq_iff address [])) h.addresses)
    ];
  }

  step-IsGuard : (g : Guard) (e : Event) → IsGuard g → IsGuard (step g e)
  unfolding step succeeded set_limits
  step-IsGuard g (sign_in_failed account address now) h = failed-IsGuard g account address now h
  step-IsGuard g (sign_in_succeeded account) h = record {
    accounts = record {
      named = delete-Named g.accounts (normalize to_lower account) h.accounts.named;
      bounded =
          omega
            (arith, length-delete_le g.accounts (normalize to_lower account), h.accounts.bounded);
    };
    addresses = h.addresses;
  }
  step-IsGuard g (limits_changed limits) h = record {
    accounts = h.accounts;
    addresses = h.addresses;
  }

  run-IsGuard : (g : Guard) (es : List Event) → IsGuard g → IsGuard (run g es)
  unfolding run
  run-IsGuard g [] h = h
  run-IsGuard g (e ∷ es) h = run-IsGuard (step g e) es (step-IsGuard g e h)

  -- However many names and addresses are tried, in whatever order, the guard tracks at most
  -- `max_tracked` of each.
  pub run-tracked :
      (limits : Limits) (es : List Event)
      → ((tracked (run (new_guard limits) es)).0 ≤ max_tracked)
        × ((tracked (run (new_guard limits) es)).1 ≤ max_tracked)
  run-tracked limits es =
      let h = run-IsGuard (new_guard limits) es (unfold new_guard in omega arith) in
      (h.accounts.bounded, h.addresses.bounded)

  -- A successful sign-in leaves the name unblocked: only the address can still hold it back, as
  -- much as before.
  pub succeeded-blocked :
      (g : Guard) (account : List ℕ) (address : Key) (now : ℕ)
      → blocked to_lower (succeeded to_lower g account) account address now
        ≡ remaining (find g.addresses address) now
  unfolding succeeded blocked remaining
  succeeded-blocked g account address now = ground (
    arith,
    find-delete g.accounts (normalize to_lower account) (normalize to_lower account),
    list_eq_refl (normalize to_lower account),
  )
