-- ===== src/Gpf/Chunks/Walk.antt =====
-- The walk over the chunks ends, finds the one payload, and accepts nothing else.
use goptivum.Prelude.{
  List, Option, Result, Result-cases, [], ap, arith, drop, drop-append, err, get_or, if◌then◌else◌,
  inl, inr, length, length-append, length-drop, length-take, ltb, none, ok, refl, some, suc, sym,
  take, take-append, take-append-drop, zero, ℕ, ◌%◌, ◌++◌, ◌+◌, ◌<◌, ◌==◌, ◌^◌, ◌∙◌, ◌∷◌, ◌≡◌, ◌≢◌,
  ◌≤◌, ◌⊎◌,
}
use goptivum.Gpf.Fields.{drop-IsBytes, drop-get_or, get_or-byte, uint32_field}
use goptivum.Gpf.Format.{
  Bytes, IsBytes, Refusal, chunk_payload, malformed, max_payload, put_uint32, uint32_at,
  unsupported_algorithm,
}
use goptivum.Gpf.Chunks.{is_critical, read_frame, read_payload, walk, write_chunk}

-- A chunk that this reader skips: of a type it does not know, and not critical.
abbrev pub IsSkippable : ℕ × Bytes → Type 0
IsSkippable (kind, body) = (kind < 128) × (length body ≤ max_payload)

abbrev pub AllSkippable : List (ℕ × Bytes) → Type 0
AllSkippable [] = Unit
AllSkippable (c ∷ cs) = IsSkippable c × AllSkippable cs

-- The region that holds these chunks in this order.
abbrev pub region_of : List (ℕ × Bytes) → Bytes
region_of [] = []
region_of ((kind, body) ∷ cs) = write_chunk kind body ++ region_of cs

read_frame_shorter :
    (rest : Bytes) {kind : ℕ} {body next : Bytes}
    → read_frame rest ≡ ok (kind, body, next)
    → length next < length rest
unfolding read_frame
read_frame_shorter rest {next} h =
    ground (arith, length-drop 5 rest, length-drop (uint32_at rest 1) (drop 5 rest))

pub read_frame-write_chunk :
    (kind : ℕ) (body rest : Bytes)
    → length body ≤ max_payload
    → read_frame (write_chunk kind body ++ rest) ≡ ok (kind, body, rest)
unfolding read_frame write_chunk
read_frame-write_chunk kind body rest h = ground (
  arith,
  length-append body rest,
  take-append body rest (length body),
  drop-append body rest (length body),
)

-- One round of the walk at a frame that was read, given the two ways to go on.
abbrev pub advance :
    ℕ
    → ℕ
    → Option (Result Refusal Bytes)
    → Option (Result Refusal Bytes)
    → Option (Result Refusal Bytes)
advance kind count keep skip =
    if kind == chunk_payload
    then (if ltb 1 (count + 1) then some (err malformed) else keep)
    else if is_critical kind
    then some (err (unsupported_algorithm 0 kind))
    else skip

pub walk_frame :
    (fuel b : ℕ) (rest payload : Bytes) (count : ℕ) {kind : ℕ} {body next : Bytes}
    → read_frame (b ∷ rest) ≡ ok (kind, body, next)
    → walk (suc fuel) (b ∷ rest) payload count
      ≡ advance kind count (walk fuel next body (count + 1)) (walk fuel next payload count)
unfolding walk
walk_frame fuel b rest payload count e = rw (e, walk)

walk_refused :
    (fuel b : ℕ) (rest payload : Bytes) (count : ℕ) {e : Refusal}
    → read_frame (b ∷ rest) ≡ err e
    → walk (suc fuel) (b ∷ rest) payload count ≡ some (err e)
unfolding walk
walk_refused fuel b rest payload count e = rw (e, walk)

walk-ne-none :
    (fuel : ℕ) (rest payload : Bytes) (count : ℕ)
    → length rest < fuel
    → walk fuel rest payload count ≢ none
unfolding walk
walk-ne-none zero rest payload count h = elim h [ ]
walk-ne-none (suc fuel) [] payload count h = λ e. cc
walk-ne-none (suc fuel) (b ∷ rest) payload count h = elim (Result-cases (read_frame (b ∷ rest))) [
  | inr (e, eq) ↦ rw (walk_refused fuel b rest payload count eq) (λ n. cc)
  | inl ((kind, body, next), eq) ↦
      let shorter = read_frame_shorter (b ∷ rest) eq in
      rw (walk_frame fuel b rest payload count eq) (
        ground
          (arith, walk-ne-none fuel next body (count + 1), walk-ne-none fuel next payload count))
]

-- The walk over a region always ends within its fuel.
pub read_payload_total : (region : Bytes) → read_payload region ≢ none
unfolding read_payload
read_payload_total region = walk-ne-none (suc (length region)) region [] 0 (omega arith)

record FrameRead (rest : Bytes) (kind : ℕ) (body next : Bytes) : Type 0 where
  long : 5 ≤ length rest
  kind_at : kind ≡ get_or rest 0 0
  present : uint32_at rest 1 ≤ length (drop 5 rest)
  capped : uint32_at rest 1 ≤ max_payload
  body_at : body ≡ take (uint32_at rest 1) (drop 5 rest)
  next_at : next ≡ drop (uint32_at rest 1) (drop 5 rest)

read_frame-FrameRead :
    (rest : Bytes) {kind : ℕ} {body next : Bytes}
    → read_frame rest ≡ ok (kind, body, next)
    → FrameRead rest kind body next
unfolding read_frame
read_frame-FrameRead rest h = ground arith

-- Every frame that is read is the encoding of what it was read as.
read_frame_sound :
    (rest : Bytes) {kind : ℕ} {body next : Bytes}
    → IsBytes rest
    → read_frame rest ≡ ok (kind, body, next)
    → (rest ≡ write_chunk kind body ++ next)
      × (length body ≤ max_payload)
      × (kind < 256)
      × IsBytes next
unfolding write_chunk
read_frame_sound rest {kind} {body} {next} b h = (whole, small, kind_fits, next_bytes)
  where
    size : ℕ
    size = uint32_at rest 1

    r : FrameRead rest kind body next
    r = read_frame-FrameRead rest h

    size_eq : length body ≡ size
    size_eq = omega (arith, ap length r.body_at, length-take size (drop 5 rest), r.present)

    small : length body ≤ max_payload
    small = omega (arith, size_eq, r.capped)

    kind_fits : kind < 256
    kind_fits = omega (arith, r.kind_at, get_or-byte rest 0 b)

    parts : drop 5 rest ≡ body ++ next
    parts = rw (r.body_at, r.next_at) (sym (take-append-drop size (drop 5 rest)))

    size_fits : size ≡ length body % 2 ^ 32
    size_fits = omega (arith, size_eq, small)

    whole : rest ≡ kind ∷ put_uint32 (length body % 2 ^ 32) (body ++ next)
    whole =
        drop-get_or rest 0 (omega (arith, r.long))
        ∙ ap (λ l. get_or rest 0 0 ∷ l) (uint32_field rest 1 b (omega (arith, r.long)))
        ∙ ap (λ k. k ∷ put_uint32 size (drop 5 rest)) (sym r.kind_at)
        ∙ ap (λ l. kind ∷ put_uint32 size l) parts
        ∙ ap (λ n. kind ∷ put_uint32 n (body ++ next)) size_fits

    next_bytes : IsBytes next
    next_bytes = rw r.next_at (drop-IsBytes (drop 5 rest) size (drop-IsBytes rest 5 b))

advance_after :
    (kind : ℕ) (keep skip : Option (Result Refusal Bytes)) (p : Bytes)
    → kind < 256
    → advance kind 1 keep skip ≡ some (ok p)
    → (kind < 128) × (skip ≡ some (ok p))
advance_after kind keep skip p k h = ground arith

advance_before :
    (kind : ℕ) (keep skip : Option (Result Refusal Bytes)) (p : Bytes)
    → kind < 256
    → advance kind 0 keep skip ≡ some (ok p)
    → ((kind ≡ chunk_payload) × (keep ≡ some (ok p))) ⊎ ((kind < 128) × (skip ≡ some (ok p)))
advance_before kind keep skip p k h = ground arith

-- Once the payload is found, a walk that succeeds has passed skippable chunks only.
walk_after :
    (fuel : ℕ) (rest payload p : Bytes)
    → IsBytes rest
    → walk fuel rest payload 1 ≡ some (ok p)
    → (cs : List (ℕ × Bytes)) × (rest ≡ region_of cs) × AllSkippable cs × (p ≡ payload)
unfolding walk
walk_after zero rest payload p b h = absurd (cc)
walk_after (suc fuel) [] payload p b h = ([], refl, tt, ground arith)
walk_after (suc fuel) (x ∷ rest) payload p b h = elim (Result-cases (read_frame (x ∷ rest))) [
  | inr (e, eq) ↦ absurd (cc (walk_refused fuel x rest payload 1 eq, h))
  | inl ((kind, body, next), eq) ↦
      let (whole, small, fits, next_bytes) = read_frame_sound (x ∷ rest) b eq in
      let (low, go_on) =
        advance_after kind (walk fuel next body (1 + 1)) (walk fuel next payload 1) p fits
          (sym (walk_frame fuel x rest payload 1 eq) ∙ h) in
      let (cs, rest_eq, skippable, p_eq) = walk_after fuel next payload p next_bytes go_on in
      (
        (kind, body) ∷ cs,
        whole ∙ ap (λ l. write_chunk kind body ++ l) rest_eq,
        ((low, small), skippable),
        p_eq,
      )
]

-- The chunks of a region that holds one payload among chunks that are skipped.
abbrev pub around : List (ℕ × Bytes) → Bytes → List (ℕ × Bytes) → List (ℕ × Bytes)
around before p after = before ++ (chunk_payload, p) ∷ after

walk_before :
    (fuel : ℕ) (rest payload p : Bytes)
    → IsBytes rest
    → walk fuel rest payload 0 ≡ some (ok p)
    → (before : List (ℕ × Bytes)) × (after : List (ℕ × Bytes)) × (rest
        ≡ region_of (around before p after))
      × AllSkippable before
      × AllSkippable after
      × (length p ≤ max_payload)
unfolding walk
walk_before zero rest payload p b h = absurd (cc)
walk_before (suc fuel) [] payload p b h = absurd (cc)
walk_before (suc fuel) (x ∷ rest) payload p b h = elim (Result-cases (read_frame (x ∷ rest))) [
  | inr (e, eq) ↦ absurd (cc (walk_refused fuel x rest payload 0 eq, h))
  | inl ((kind, body, next), eq) ↦
      let (whole, small, fits, next_bytes) = read_frame_sound (x ∷ rest) b eq in
      elim (advance_before kind (walk fuel next body (0 + 1)) (walk fuel next payload 0) p fits
        (sym (walk_frame fuel x rest payload 0 eq) ∙ h)) [
          | inl (is_payload, go_on) ↦
              let (cs, rest_eq, skippable, p_eq) = walk_after fuel next body p next_bytes go_on in
              (
                [],
                cs,
                whole
                    ∙ ap (λ k. write_chunk k body ++ next) is_payload
                    ∙ ap (λ q. write_chunk chunk_payload q ++ next) (sym p_eq)
                    ∙ ap (λ l. write_chunk chunk_payload p ++ l) rest_eq,
                tt,
                skippable,
                rw p_eq small,
              )
          | inr (low, go_on) ↦
              let (before, after, rest_eq, fine, fine', small') =
                walk_before fuel next payload p next_bytes go_on in
              (
                (kind, body) ∷ before,
                after,
                whole ∙ ap (λ l. write_chunk kind body ++ l) rest_eq,
                ((low, small), fine),
                fine',
                small',
              )
        ]
]

-- A payload is returned only from a region that is exactly one payload chunk among chunks of
-- unknown, not critical types, and it is that chunk's body.
pub read_payload_sound :
    (region p : Bytes)
    → IsBytes region
    → read_payload region ≡ some (ok p)
    → (before : List (ℕ × Bytes)) × (after : List (ℕ × Bytes)) × (region
        ≡ region_of (around before p after))
      × AllSkippable before
      × AllSkippable after
      × (length p ≤ max_payload)
unfolding read_payload
read_payload_sound region p b h = walk_before (suc (length region)) region [] p b h
