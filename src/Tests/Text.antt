-- ===== src/Tests/Text.antt =====
-- White space is trimmed at both ends and kept inside.
use mathlib.Core.List.{reverse}
use goptivum.Prelude.{refl, ◌≡◌}
use goptivum.Text.{codes, trim_space}

trim_test : trim_space (codes "  a b ") ≡ codes "a b"
unfolding trim_space reverse
trim_test = refl
