-- ===== src/Indexer/Chunker/Progress.antt =====
-- Every round of the chunker's loop moves on, within the text (indexer/chunker.go).
use grepai.Base.{
  ℕ, ◌+◌, ◌-◌, ◌<◌, ◌≤◌, ◌≡◌, true, false, [], ◌∷◌, some, if◌then◌else◌, ltb, length, drop,
  length-take, length-drop, Option-cases, arith, inl, inr,
}
use grepai.Base.Text.{Text}
use grepai.Indexer.Chunker.{align_from, align_rune_boundary, slice, last_newline, break_at}
use grepai.Indexer.Chunker.Ideal.{ideal_end, ideal_start}

align_from_bounds : (bs : Text) (p : ℕ) → (p ≤ align_from bs p) × (align_from bs p ≤ p + length bs)
unfolding align_from
align_from_bounds [] p = omega arith
align_from_bounds (b ∷ bs) p = ground (arith, align_from_bounds bs (p + 1))

align_bounds :
    (content : Text) (p : ℕ)
    → p ≤ length content
    → (p ≤ align_rune_boundary content p) × (align_rune_boundary content p ≤ length content)
unfolding align_rune_boundary
align_bounds content p h =
    omega (arith, align_from_bounds (drop p content) p, length-drop p content)

last_newline-lt-length : (s : Text) (i : ℕ) → last_newline s ≡ some i → i < length s
unfolding last_newline
last_newline-lt-length [] i e = ground arith
last_newline-lt-length (b ∷ bs) i e = elim (Option-cases (last_newline bs)) [
  | inl nothing ↦ ground (arith, nothing)
  | inr (j, found) ↦ ground (arith, found, last_newline-lt-length bs j found)
]

pub length-slice :
    (content : Text) (start end : ℕ)
    → start ≤ end
    → end ≤ length content
    → length (slice content start end) ≡ end - start
length-slice content start end h k =
    omega (arith, length-take (end - start) (drop start content), length-drop start content)

break_bounds :
    (content : Text) (start end : ℕ)
    → start < end
    → end ≤ length content
    → let stop = break_at start end (last_newline (slice content start end)) in
      (start < stop) × (stop ≤ end)
break_bounds content start end h k = elim (Option-cases (last_newline (slice content start end))) [
  | inl nothing ↦ ground (arith, nothing)
  | inr (i, found) ↦ ground (
    arith,
    found,
    last_newline-lt-length (slice content start end) i found,
    length-slice content start end (omega arith) k,
  )
]

stop_bounds :
    (content : Text) (start end : ℕ)
    → start < end
    → end ≤ length content
    → let stop =
        if ltb end (length content)
        then break_at start end (last_newline (slice content start end))
        else end in
      (start < stop) × (stop ≤ end)
stop_bounds content start end h k =
    let broken = break_bounds content start end h k in
    elim (ltb end (length content))
      as (λ b.
        let stop = if b then break_at start end (last_newline (slice content start end)) else end in
        (start < stop) × (stop ≤ end)) [ true ↦ broken | false ↦ (h, omega arith) ]

limit_bounds :
    (max_chars : ℕ) (content : Text) (start : ℕ)
    → 1 ≤ max_chars
    → start < length content
    → let limit = start + max_chars in
      let capped = if ltb (length content) limit then length content else limit in
      (start < capped) × (capped ≤ length content)
limit_bounds max_chars content start h k = ground arith

-- The end before the newline is looked for lies after the start.
pub align_end_after :
    (max_chars : ℕ) (content : Text) (start : ℕ)
    → 1 ≤ max_chars
    → start < length content
    → start
      < align_rune_boundary content
          (if ltb (length content) (start + max_chars) then length content else start + max_chars)
align_end_after max_chars content start h k =
    let capped =
      if ltb (length content) (start + max_chars) then length content else start + max_chars in
    let (low, high) = limit_bounds max_chars content start h k in
    omega (arith, align_bounds content capped high)

pub ideal_end_bounds :
    (max_chars : ℕ) (content : Text) (start : ℕ)
    → 1 ≤ max_chars
    → start < length content
    → (start < ideal_end max_chars content start)
      × (ideal_end max_chars content start ≤ length content)
unfolding ideal_end
ideal_end_bounds max_chars content start h k =
    let limit = start + max_chars in
    let capped = if ltb (length content) limit then length content else limit in
    let (low, high) = limit_bounds max_chars content start h k in
    let (grown, within) = align_bounds content capped high in
    let (after, before) =
      stop_bounds content start (align_rune_boundary content capped) (omega arith) within in
    (after, omega arith)

pub ideal_start_bounds :
    (overlap_chars : ℕ) (content : Text) (start end : ℕ)
    → start < end
    → end ≤ length content
    → (start < ideal_start overlap_chars content start end)
      × (ideal_start overlap_chars content start end ≤ length content)
unfolding ideal_start
ideal_start_bounds overlap_chars content start end h k =
    ground (arith, align_bounds content end, align_bounds content (end - overlap_chars))
