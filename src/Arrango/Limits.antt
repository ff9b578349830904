-- ===== src/Arrango/Limits.antt =====
-- backend/arrango/limits.go: this server's own cap on one node, and the node's ceilings.
use goptivum.Prelude.{
  Option, Result, arith, err, if◌then◌else◌, ltb, none, ok, some, ℕ, ◌&&◌, ◌<◌, ◌↔◌, ◌≡◌, ◌≤◌,
}
use goptivum.Solve.Capacity.{Ceilings, default_workers}

abbrev pub default_concurrent_solves : ℕ
default_concurrent_solves = 1

abbrev pub max_solves : ℕ
max_solves = 64

pub record Limits : Type 0 where
  pub solves : ℕ
  pub workers : ℕ

-- A limit above the node's ceiling: on solves at once, or on workers per solve.
pub data AboveCeiling : Type 0 where
  solves_above workers_above : ℕ → AboveCeiling

abbrev lower : ℕ → ℕ → ℕ
lower ceiling limit = if ltb 0 ceiling && ltb ceiling limit then ceiling else limit

unfoldable pub within_ceilings : Limits → Ceilings → Limits
within_ceilings l c = record {
  solves = lower c.solves l.solves;
  workers = lower c.workers l.workers;
}

unfoldable pub default_limits : Option Ceilings → Limits
unfolding within_ceilings
default_limits none = record { solves = default_concurrent_solves; workers = default_workers }
default_limits (some c) =
    within_ceilings
      (record {
        solves =
            if ltb 0 c.solves
            then (if ltb max_solves c.solves then max_solves else c.solves)
            else default_concurrent_solves;
        workers = default_workers;
      })
      c

unfoldable pub allowed_by : Limits → Ceilings → Result AboveCeiling (Unit {0})
allowed_by l c =
    if ltb 0 c.solves && ltb c.solves l.solves
    then err (solves_above c.solves)
    else if ltb 0 c.workers && ltb c.workers l.workers
    then err (workers_above c.workers)
    else ok tt

-- Lowering never raises a limit, makes it one that the node allows, and leaves alone exactly the
-- limits that are allowed already.
pub within_ceilings-allowed_by :
    (l : Limits) (c : Ceilings)
    → (allowed_by (within_ceilings l c) c ≡ ok tt)
      × ((within_ceilings l c).solves ≤ l.solves)
      × ((within_ceilings l c).workers ≤ l.workers)
      × ((allowed_by l c ≡ ok tt) ↔ (within_ceilings l c ≡ l))
unfolding within_ceilings allowed_by
within_ceilings-allowed_by l c = ground arith

-- What a newly paired node that reports its ceilings starts with is at least one solve and one
-- worker, within this server's ceiling on solves, and allowed by the node's own ceilings.
pub default_limits_valid :
    (c : Ceilings)
    → (0 < (default_limits (some c)).solves)
      × (0 < (default_limits (some c)).workers)
      × ((default_limits (some c)).solves ≤ max_solves)
      × (allowed_by (default_limits (some c)) c ≡ ok tt)
unfolding default_limits allowed_by
default_limits_valid c = ground arith
