-- ===== src/Examples/Cutting.antt =====
-- The indexer at concrete inputs (indexer/chunker.go).
use grepai.Base.{ℕ, ◌≡◌, refl, List, [], ◌∷◌, some, none, length, All, arith}
use grepai.Base.Int.{pos, negsuc, wrap64, ◌+ℤ◌, ◌-ℤ◌}
use grepai.Base.Text.{Text, codes}
use grepai.Indexer.Lines.{line_starts_from, build_line_starts, find_line, get_line_number}
use grepai.Indexer.Chunker.{
  Chunker, ChunkInfo, new_chunker, chunk_ranges, slice, is_blank, chunk, chunk_info, numbered,
  in_context, decimal, digits, chunk_end, end_at, chars_of, next_start, align_rune_boundary,
  align_from, space1, space2, space3, last_newline, each_range,
}
use grepai.Indexer.Chunker.Ranges.{InText, StartsFrom}
use grepai.Indexer.Chunker.Whole.{Shows, Matches, chunk_lem}
use grepai.Indexer.Chunker.Visible.{SomeHasByte, chunk-SomeHasByte}
use grepai.Indexer.ReChunk.{re_chunk}
use grepai.Indexer.ReChunk.Absolute.{ShowsPart, re_chunk_lem}

-- "a", a newline, "b"
abbrev two_lines : Text
two_lines = 97 ∷ 10 ∷ 98 ∷ []

abbrev hash_length : Text → Text
hash_length text = decimal (length text)

abbrev small : Chunker
small = new_chunker (pos 1) (negsuc 0)

second_line : get_line_number (build_line_starts two_lines) 2 ≡ some 2
unfolding get_line_number build_line_starts find_line line_starts_from
second_line = refl

chunk_lem_example :
    (ranges : List (ℕ × ℕ)) × (infos : List ChunkInfo) × (chunk hash_length
        (new_chunker (pos 1) (negsuc 0))
        (codes "f")
        two_lines
      ≡ some infos)
    × All (InText two_lines) ranges
    × StartsFrom 0 ranges
    × Matches (Shows (codes "f") two_lines) 0 ranges infos
unfolding new_chunker
chunk_lem_example = chunk_lem hash_length (pos 1) (negsuc 0) (codes "f") two_lines (omega arith)

abbrev whole_chunk : ChunkInfo
whole_chunk = numbered hash_length (codes "f") two_lines 0 0 3 1 2

one_chunk :
    chunk hash_length (new_chunker (pos 1) (pos 0)) (codes "f") two_lines ≡ some (whole_chunk ∷ [])
unfolding chunk new_chunker chunk_ranges chunk_end end_at chars_of wrap64 ◌+ℤ◌ ◌-ℤ◌ next_start
    align_rune_boundary align_from is_blank space1 space2 space3 last_newline each_range chunk_info
    build_line_starts line_starts_from get_line_number find_line numbered decimal digits
one_chunk = refl

-- A size of 2^61 makes maxChars negative, and one of 2^62 makes it 0.
negative_size :
    chunk hash_length (new_chunker (pos 2305843009213693952) (pos 0)) (codes "f") two_lines ≡ none
unfolding chunk new_chunker chunk_ranges chunk_end end_at chars_of wrap64 ◌+ℤ◌
negative_size = refl

zero_size :
    chunk hash_length (new_chunker (pos 4611686018427387904) (pos 0)) (codes "f") two_lines ≡ none
unfolding chunk new_chunker chunk_ranges chunk_end end_at chars_of wrap64 ◌+ℤ◌ align_rune_boundary
    align_from is_blank space1 space2 space3 last_newline
zero_size = refl

chunk-SomeHasByte_example : SomeHasByte two_lines 2 98 (whole_chunk ∷ [])
unfolding new_chunker
chunk-SomeHasByte_example =
    chunk-SomeHasByte hash_length (pos 1) (pos 0) (codes "f") two_lines (whole_chunk ∷ []) 2 98
      (omega arith) one_chunk refl (omega arith, omega arith)

whole_chunk_made : chunk_info hash_length (codes "f") two_lines 0 0 3 ≡ some whole_chunk
unfolding chunk_info build_line_starts line_starts_from get_line_number find_line numbered decimal
    digits
whole_chunk_made = refl

re_chunk_lem_example :
    (ranges : List (ℕ × ℕ)) × (parts : List ChunkInfo) × (re_chunk hash_length small
        (in_context (codes "f") whole_chunk)
        0
      ≡ some parts)
    × All (InText (slice two_lines 0 3)) ranges
    × StartsFrom 0 ranges
    × Matches (ShowsPart (codes "f") two_lines 0 0) 0 ranges parts
unfolding small new_chunker
re_chunk_lem_example =
    re_chunk_lem hash_length small (codes "f") two_lines 0 0 3 0 whole_chunk
      (omega arith, omega arith) (omega arith, omega arith) whole_chunk_made
