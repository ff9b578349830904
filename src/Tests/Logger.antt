-- ===== src/Tests/Logger.antt =====
-- A ring of two records.
use goptivum.Prelude.{List, [], arith, take, true, ℕ, ◌∷◌, ◌≡◌}
use goptivum.Text.{codes}
use goptivum.Logger.Ring.{Record, Ring, write}
use goptivum.Logger.Ring.Newest.{IsRing, kept_of, view, write-view}

abbrev first_record : Record
first_record = record { level = 2; message = 1 ∷ []; attrs = [] }

abbrev next_record : Record
next_record = record {
  level = 1;
  message = 2 ∷ [];
  attrs = record { key = codes "token"; value = 9 ∷ [] } ∷ [];
}

abbrev unchanged : List ℕ → List ℕ
unchanged bs = bs

abbrev small_ring : Ring
small_ring = record { lines = first_record ∷ next_record ∷ []; next = 1; full = true }

small_ring-IsRing : IsRing small_ring
small_ring-IsRing = record { cursor = omega arith }

write-view_example :
    view (write unchanged unchanged small_ring next_record)
    ≡ take 2 (kept_of unchanged unchanged next_record ∷ view small_ring)
write-view_example = write-view unchanged unchanged small_ring next_record small_ring-IsRing
