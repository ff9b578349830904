-- ===== src/Gpf/Chunks/Find.antt =====
-- The one payload of a region is found, whatever skippable chunks stand around it.
use goptivum.Prelude.{
  List, Option, Result, [], ap, append-nil, append_assoc, arith, length, length-append, ok, refl,
  some, suc, sym, zero, ℕ, ◌++◌, ◌+◌, ◌<◌, ◌∙◌, ◌∷◌, ◌≡◌, ◌≤◌,
}
use goptivum.Gpf.Format.{Bytes, Refusal, chunk_payload, max_payload}
use goptivum.Gpf.Chunks.{read_payload, walk, write_chunk}
use goptivum.Gpf.Chunks.Walk.{
  AllSkippable, advance, around, read_frame-write_chunk, region_of, walk_frame,
}

region_of-append : (xs ys : List (ℕ × Bytes)) → region_of (xs ++ ys) ≡ region_of xs ++ region_of ys
region_of-append [] ys = refl
region_of-append ((kind, body) ∷ xs) ys =
    ap (λ l. write_chunk kind body ++ l) (region_of-append xs ys)
    ∙ sym (append_assoc (write_chunk kind body) (region_of xs) (region_of ys))

length-write_chunk :
    (kind : ℕ) (body rest : Bytes) → length rest < length (write_chunk kind body ++ rest)
unfolding write_chunk
length-write_chunk kind body rest = omega (arith, length-append body rest)

-- The walk at a chunk that was written.
walk-write_chunk :
    (fuel kind : ℕ) (body rest payload : Bytes) (count : ℕ)
    → length body ≤ max_payload
    → walk (suc fuel) (write_chunk kind body ++ rest) payload count
      ≡ advance kind count (walk fuel rest body (count + 1)) (walk fuel rest payload count)
unfolding write_chunk
walk-write_chunk fuel kind body rest payload count h =
    walk_frame fuel kind _ payload count (read_frame-write_chunk kind body rest h)

walk_past :
    (cs : List (ℕ × Bytes)) (tail : Bytes) (fuel : ℕ) (payload : Bytes) (count : ℕ)
    → AllSkippable cs
    → length (region_of cs ++ tail) < fuel
    → (fuel' : ℕ) × (length tail < fuel')
      × (walk fuel (region_of cs ++ tail) payload count ≡ walk fuel' tail payload count)
walk_past [] tail fuel payload count s h = (fuel, h, refl)
walk_past ((kind, body) ∷ cs) tail zero payload count s h = absurd (omega arith)
walk_past ((kind, body) ∷ cs) tail (suc fuel) payload count ((low, small), s) h =
    let rest = region_of cs ++ tail in
    let regroup = append_assoc (write_chunk kind body) (region_of cs) tail in
    let (fuel', enough, same) =
      walk_past cs tail fuel payload count s
        (omega (arith, length-write_chunk kind body rest, ap length regroup)) in
    (
      fuel',
      enough,
      rw regroup (walk-write_chunk fuel kind body rest payload count small)
          ∙ skipped kind count (walk fuel rest body (count + 1)) (walk fuel rest payload count) low
          ∙ same,
    )
  where
    skipped :
        (kind count : ℕ) (keep skip : Option (Result Refusal Bytes))
        → kind < 128
        → advance kind count keep skip ≡ skip
    skipped kind count keep skip h = ground arith

-- The walk has found the payload: what follows is passed and the payload stands.
walk_found :
    (fuel : ℕ) (p : Bytes) (after : List (ℕ × Bytes))
    → AllSkippable after
    → length (region_of after) < fuel
    → walk fuel (region_of after) p 1 ≡ some (ok p)
unfolding walk
walk_found fuel p after s h =
    let (fuel', enough, same) =
      walk_past after [] fuel p 1 s (rw (append-nil (region_of after)) h) in
    sym (ap (λ l. walk fuel l p 1) (append-nil (region_of after))) ∙ same ∙ ends fuel' enough
  where
    ends : (n : ℕ) → 0 < n → walk n [] p 1 ≡ some (ok p)
    ends zero e = elim e [ ]
    ends (suc n) e = refl

-- A region that holds one payload chunk among chunks of unknown, not critical types gives that
-- payload, whatever their number, order and content.
pub read_payload-around :
    (before : List (ℕ × Bytes)) (p : Bytes) (after : List (ℕ × Bytes))
    → AllSkippable before
    → AllSkippable after
    → length p ≤ max_payload
    → read_payload (region_of (around before p after)) ≡ some (ok p)
unfolding read_payload
read_payload-around before p after sb sa small =
    let tail = region_of ((chunk_payload, p) ∷ after) in
    let whole = region_of-append before ((chunk_payload, p) ∷ after) in
    let (fuel, enough, same) =
      walk_past before tail (suc (length (region_of before ++ tail))) [] 0 sb (omega arith) in
    ap (λ l. walk (suc (length l)) l [] 0) whole ∙ same ∙ at_payload fuel enough
  where
    at_payload :
        (n : ℕ)
        → length (region_of ((chunk_payload, p) ∷ after)) < n
        → walk n (region_of ((chunk_payload, p) ∷ after)) [] 0 ≡ some (ok p)
    at_payload zero e = elim e [ ]
    at_payload (suc n) e =
        walk-write_chunk n chunk_payload p (region_of after) [] 0 small
        ∙ walk_found n p after sa
            (omega (arith, length-write_chunk chunk_payload p (region_of after)))
