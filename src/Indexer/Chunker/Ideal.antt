-- ===== src/Indexer/Chunker/Ideal.antt =====
-- The loop of the chunker over numbers that do not wrap (indexer/chunker.go).
use grepai.Base.{
  ℕ, zero, suc, ◌+◌, ◌-◌, true, false, List, [], Option, none, some, if◌then◌else◌, ltb, leb,
  length,
}
use grepai.Base.Text.{Text}
use grepai.Indexer.Chunker.{align_rune_boundary, last_newline, slice, break_at, is_blank, and_then}

-- Where the chunk that starts at a position ends.
unfoldable pub ideal_end : ℕ → Text → ℕ → ℕ
unfolding align_rune_boundary last_newline
ideal_end max_chars content start =
    let limit = start + max_chars in
    let end =
      align_rune_boundary content (if ltb (length content) limit then length content else limit) in
    if ltb end (length content)
    then break_at start end (last_newline (slice content start end))
    else end

-- Where the next chunk starts.
unfoldable pub ideal_start : ℕ → Text → ℕ → ℕ → ℕ
unfolding align_rune_boundary
ideal_start overlap_chars content start end =
    align_rune_boundary content
      (if leb (end - overlap_chars) start then end else end - overlap_chars)

-- The ranges; `none` is a loop that has used up its fuel.
unfoldable pub ideal_ranges : ℕ → ℕ → ℕ → Text → ℕ → Option (List (ℕ × ℕ))
unfolding ideal_end ideal_start is_blank
ideal_ranges zero max_chars overlap_chars content start = none
ideal_ranges (suc fuel) max_chars overlap_chars content start = elim (ltb start (length content)) [
  | false ↦ some []
  | true ↦ elim (is_blank (slice content start (ideal_end max_chars content start))) [
    | true ↦ ideal_ranges fuel max_chars overlap_chars content (ideal_end max_chars content start)
    | false ↦
        and_then (start, ideal_end max_chars content start)
          (ideal_ranges fuel max_chars overlap_chars content
            (ideal_start overlap_chars content start (ideal_end max_chars content start)))
  ]
]
