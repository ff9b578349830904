-- ===== src/Logger/Ring.antt =====
-- backend/common/logger/ring.go: the newest records, in a ring. A record is its level and its
-- attributes; the text of a value and the patterns that hide secrets are parameters.
pub mod Newest
use goptivum.Prelude.{
  Bool, List, [], false, get_or, if◌then◌else◌, leb, length, list_eq, ltb, replicate, set, suc,
  true, zero, ℕ, ◌%◌, ◌++◌, ◌+◌, ◌-◌, ◌==◌, ◌||◌, ◌∷◌,
}
use goptivum.Text.{codes}

pub record Attr : Type 0 where
  pub key : List ℕ
  pub value : List ℕ

pub record Record : Type 0 where
  pub level : ℕ
  pub message : List ℕ
  pub attrs : List Attr

pub record Ring : Type 0 where
  pub lines : List Record
  pub next : ℕ
  pub full : Bool

abbrev pub blank : Record
blank = record { level = 0; message = []; attrs = [] }

unfoldable pub new_ring : ℕ → Ring
new_ring capacity = record { lines = replicate capacity blank; next = 0; full = false }

-- `Redacted`
abbrev pub redacted : List ℕ
redacted = codes "[redacted]"

abbrev pub secret_names : List (List ℕ)
secret_names =
    codes "password"
    ∷ codes "passphrase"
    ∷ codes "secret"
    ∷ codes "token"
    ∷ codes "dsn"
    ∷ codes "uri"
    ∷ codes "link"
    ∷ codes "cookie"
    ∷ codes "authorization"
    ∷ []

unfoldable pub is_secret_name : List (List ℕ) → List ℕ → Bool
is_secret_name [] name = false
is_secret_name (n ∷ ns) name = list_eq n name || is_secret_name ns name

-- `to_lower` is strings.ToLower, `hide` replaces what the two patterns match.
module _ (to_lower hide : List ℕ → List ℕ) where
  unfoldable pub redact : Attr → List ℕ
  redact attr =
      if is_secret_name secret_names (to_lower attr.key) then redacted else hide attr.value

  unfoldable pub redact_attrs : List Attr → List Attr
  redact_attrs [] = []
  redact_attrs (a ∷ as') = record a { value = redact a } ∷ redact_attrs as'

  unfoldable pub write : Ring → Record → Ring
  write r rec =
      if length r.lines == 0
      then r
      else (let kept = record rec { attrs = redact_attrs rec.attrs } in
          let next' = (r.next + 1) % length r.lines in
          record {
            lines = set r.lines r.next kept;
            next = next';
            full = if next' == 0 then true else r.full;
          })

-- How many records the ring holds.
abbrev pub held : Ring → ℕ
held r = if r.full then length r.lines else r.next

-- The place of the i-th newest record.
abbrev pub place : Ring → ℕ → ℕ
place r i = (r.next + length r.lines - 1 - i) % length r.lines

-- The loop of `Lines`: `left` rounds remain, `i` is the round.
unfoldable pub lines_from : Ring → ℕ → ℕ → ℕ → ℕ → List Record → List Record
lines_from r low limit zero i out = out
lines_from r low limit (suc left) i out =
    let rec = get_or r.lines (place r i) blank in
    let rest =
      lines_from r low limit left (i + 1) (if leb low rec.level then out ++ rec ∷ [] else out) in
    if ltb (length out) limit then rest else out

unfoldable pub lines_of : Ring → ℕ → ℕ → List Record
lines_of r low limit = lines_from r low limit (held r) 0 []
