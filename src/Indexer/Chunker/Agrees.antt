-- ===== src/Indexer/Chunker/Agrees.antt =====
-- The chunker's loop is the ideal one where its sums fit an int (indexer/chunker.go).
use grepai.Base.{
  ℕ, zero, suc, ◌+◌, ◌*◌, ◌<◌, ◌≤◌, ◌≡◌, refl, ap, ◌∙◌, some, ltb, length, arith, inl, inr,
  Bool-cases,
}
use grepai.Base.Int.{pos, wrap64, ◌+ℤ◌, ◌-ℤ◌}
use grepai.Base.Text.{Text}
use grepai.Indexer.Chunker.{
  chars_per_token, chars_of, end_at, chunk_end, next_start, chunk_ranges, align_rune_boundary,
  slice, is_blank,
}
use grepai.Indexer.Chunker.Ideal.{ideal_end, ideal_start, ideal_ranges}
use grepai.Indexer.Chunker.Progress.{ideal_end_bounds, align_end_after}

abbrev pub int_limit : ℕ
int_limit = 9223372036854775808

-- The bytes of a chunk and of an overlap are ints, and so is the sum of a position and the bytes of a chunk.
pub record Fits (max_chars overlap_chars : ℕ) (content : Text) : Type 0 where
  pub sum : max_chars + length content < int_limit
  pub overlap : overlap_chars < int_limit

pub chars_of_lem :
    (n : ℕ) → n * chars_per_token < int_limit → chars_of n ≡ pos (n * chars_per_token)
unfolding chars_of wrap64
chars_of_lem n h = ground arith

chunk_end_lem :
    (m : ℕ) (content : Text) (start : ℕ)
    → 1 ≤ m
    → m + length content < int_limit
    → start < length content
    → chunk_end (pos m) content start ≡ some (ideal_end m content start)
unfolding chunk_end end_at ideal_end ◌+ℤ◌ wrap64
chunk_end_lem m content start h k within =
    let after = align_end_after m content start h within in ground (arith, after)

next_start_lem :
    (o : ℕ) (content : Text) (start end : ℕ)
    → o < int_limit
    → end < int_limit
    → next_start (pos o) content start end ≡ ideal_start o content start end
unfolding next_start ideal_start ◌-ℤ◌ wrap64
next_start_lem o content start end h k = ap (align_rune_boundary content) (ground arith)

pub chunk_ranges_lem :
    (fuel m o : ℕ) (content : Text) (start : ℕ)
    → 1 ≤ m
    → Fits m o content
    → chunk_ranges fuel (pos m) (pos o) content start ≡ ideal_ranges fuel m o content start
unfolding chunk_ranges ideal_ranges
chunk_ranges_lem zero m o content start h f = refl
chunk_ranges_lem (suc fuel) m o content start h f = elim (Bool-cases (ltb start (length content))) [
  | inr past ↦ ground (arith, past)
  | inl inside ↦
      let end = ideal_end m content start in
      let found = chunk_end_lem m content start h f.sum (ground (arith, inside)) in
      let within = ideal_end_bounds m content start h (ground (arith, inside)) in
      let skipped = chunk_ranges_lem fuel m o content end h f in
      let taken =
        ap (chunk_ranges fuel (pos m) (pos o) content)
          (next_start_lem o content start end f.overlap (omega (arith, within, f.sum)))
        ∙ chunk_ranges_lem fuel m o content (ideal_start o content start end) h f in
      elim (Bool-cases (is_blank (slice content start end))) [
        | inl blank ↦ ground (arith, inside, found, blank, skipped)
        | inr text ↦ ground (arith, inside, found, text, taken)
      ]
]

-- The sizes and the text fit: the bytes of a chunk and of the text add up to an int.
abbrev pub SizeFits : ℕ → Text → Type 0
SizeFits size content = size * chars_per_token + length content < int_limit

pub SizeFits-Fits :
    (size overlap : ℕ) (content : Text)
    → SizeFits size content
    → overlap ≤ size
    → Fits (size * chars_per_token) (overlap * chars_per_token) content
SizeFits-Fits size overlap content h k = record { sum = h; overlap = omega arith }

-- The ranges that the code cuts, from the sizes in tokens.
pub same_ranges :
    (size overlap : ℕ) (content : Text)
    → 1 ≤ size * chars_per_token
    → Fits (size * chars_per_token) (overlap * chars_per_token) content
    → chunk_ranges (length content + 1) (chars_of size) (chars_of overlap) content 0
      ≡ ideal_ranges
          (length content + 1)
          (size * chars_per_token)
          (overlap * chars_per_token)
          content
          0
same_ranges size overlap content h f =
    ap (λ m. chunk_ranges (length content + 1) m (chars_of overlap) content 0)
      (chars_of_lem size (omega (arith, f.sum)))
    ∙ ap (λ o. chunk_ranges (length content + 1) (pos (size * chars_per_token)) o content 0)
        (chars_of_lem overlap f.overlap)
    ∙ chunk_ranges_lem (length content + 1) (size * chars_per_token) (overlap * chars_per_token)
        content 0 h f
