-- ===== src/Indexer/Chunker.antt =====
-- indexer/chunker.go: a file is cut into overlapping chunks at newlines where it can be. The sizes and the
-- sums of the loop are ints, which wrap at 64 bits; an index or a slice out of bounds panics.
pub mod Ideal
pub mod Progress
pub mod Agrees
pub mod Ranges
pub mod Cover
pub mod Whole
pub mod Visible
use grepai.Base.{
  ℕ, zero, suc, ◌+◌, ◌-◌, ◌*◌, ◌/◌, ◌%◌, Bool, true, false, ◌&&◌, ◌||◌, List, [], ◌∷◌, ◌++◌, Option,
  none, some, map, if◌then◌else◌, ltb, leb, ◌==◌, length, take, drop,
}
use grepai.Base.Int.{ℤ, pos, negsuc, pos_part, ltb_ℤ, ◌+ℤ◌, ◌-ℤ◌, wrap64}
use grepai.Base.Text.{Text, codes, same}
use grepai.Indexer.Lines.{build_line_starts, get_line_number}

abbrev pub default_chunk_size : ℕ
default_chunk_size = 512

abbrev pub default_chunk_overlap : ℕ
default_chunk_overlap = 50

abbrev pub chars_per_token : ℕ
chars_per_token = 4

pub record ChunkInfo : Type 0 where
  pub id : Text
  pub file_path : Text
  pub start_line : ℕ
  pub end_line : ℕ
  pub content : Text
  pub embed_content : Text
  pub hash : Text
  pub content_hash : Text

pub record Chunker : Type 0 where
  pub chunk_size : ℕ
  pub overlap : ℕ

abbrev size_of : ℤ → ℕ
size_of (pos n) = if n == 0 then default_chunk_size else n
size_of (negsuc n) = default_chunk_size

abbrev overlap_of : ℤ → ℕ
overlap_of (pos n) = n
overlap_of (negsuc n) = default_chunk_overlap

unfoldable pub new_chunker : ℤ → ℤ → Chunker
new_chunker chunk_size overlap =
    let size = size_of chunk_size in
    let over = overlap_of overlap in
    record { chunk_size = size; overlap = if leb size over then size / 10 else over }

-- utf8.RuneStart
abbrev pub rune_start : ℕ → Bool
rune_start b = ltb b 128 || leb 192 b

unfoldable pub align_from : Text → ℕ → ℕ
align_from [] position = position
align_from (b ∷ bs) position = if rune_start b then position else align_from bs (position + 1)

unfoldable pub align_rune_boundary : Text → ℕ → ℕ
unfolding align_from
align_rune_boundary content position = align_from (drop position content) position

-- content[start:end]
abbrev pub slice : Text → ℕ → ℕ → Text
slice content start end = take (end - start) (drop start content)

-- strings.LastIndex(s, "\n")
unfoldable pub last_newline : Text → Option ℕ
last_newline [] = none
last_newline (b ∷ bs) = elim (last_newline bs) [
  | some i ↦ some (i + 1)
  | none ↦ if b == 10 then some 0 else none
]

-- The white space of unicode.IsSpace, by the bytes of its encoding.
unfoldable pub space1 : ℕ → Bool
space1 a = (leb 9 a && leb a 13) || (a == 32)

unfoldable pub space2 : ℕ → ℕ → Bool
space2 a b = (a == 194) && ((b == 133) || (b == 160))

unfoldable pub space3 : ℕ → ℕ → ℕ → Bool
space3 a b c =
    ((a == 225) && ((b == 154) && (c == 128)))
    || (((a == 226)
          && ((b == 128)
              && ((leb 128 c && leb c 138) || ((c == 168) || ((c == 169) || (c == 175))))))
        || (((a == 226) && ((b == 129) && (c == 159)))
            || ((a == 227) && ((b == 128) && (c == 128)))))

-- strings.TrimSpace(s) == ""
unfoldable pub is_blank : Text → Bool
is_blank [] = true
is_blank (a ∷ []) = space1 a
is_blank (a ∷ b ∷ []) = (space1 a && space1 b) || space2 a b
is_blank (a ∷ b ∷ c ∷ rest) = elim (space1 a) [
  | true ↦ is_blank (b ∷ c ∷ rest)
  | false ↦ elim (space2 a b) [
    | true ↦ is_blank (c ∷ rest)
    | false ↦ elim (space3 a b c) [ true ↦ is_blank rest | false ↦ false ]
  ]
]

abbrev break_at : ℕ → ℕ → Option ℕ → ℕ
break_at start end none = end
break_at start end (some i) = if ltb 0 i then start + i + 1 else end

-- So many tokens in bytes.
unfoldable pub chars_of : ℕ → ℤ
unfolding wrap64
chars_of n = wrap64 (pos (n * chars_per_token))

-- The end of a chunk, from the sum of its start and maxChars. `none` is a panic: an index below 0, or a slice
-- that ends before its start.
unfoldable pub end_at : Text → ℕ → ℤ → Option ℕ
unfolding align_rune_boundary last_newline
end_at content start (negsuc n) = none
end_at content start (pos limit) =
    let end =
      align_rune_boundary content (if ltb (length content) limit then length content else limit) in
    if ltb end start
    then none
    else (if ltb end (length content)
        then some (break_at start end (last_newline (slice content start end)))
        else some end)

-- Where the chunk that starts at a position ends.
unfoldable pub chunk_end : ℤ → Text → ℕ → Option ℕ
unfolding end_at ◌+ℤ◌ wrap64
chunk_end max_chars content start = end_at content start (wrap64 (pos start +ℤ max_chars))

-- Where the next chunk starts.
unfoldable pub next_start : ℤ → Text → ℕ → ℕ → ℕ
unfolding align_rune_boundary ◌-ℤ◌ wrap64
next_start overlap_chars content start end =
    let next = wrap64 (pos end -ℤ overlap_chars) in
    align_rune_boundary content (if ltb_ℤ (pos start) next then pos_part next else end)

abbrev pub and_then : {A : Type 0} → A → Option (List A) → Option (List A)
and_then a none = none
and_then a (some rest) = some (a ∷ rest)

-- The loop that `Chunk` and `ReChunk` share: the ranges of the chunks, blank ones left out. `none` is
-- a panic, or a loop that has used up its fuel.
unfoldable pub chunk_ranges : ℕ → ℤ → ℤ → Text → ℕ → Option (List (ℕ × ℕ))
unfolding chunk_end next_start is_blank
chunk_ranges zero max_chars overlap_chars content start = none
chunk_ranges (suc fuel) max_chars overlap_chars content start = elim (ltb start (length content)) [
  | false ↦ some []
  | true ↦ elim (chunk_end max_chars content start) [
    | none ↦ none
    | some end ↦ elim (is_blank (slice content start end)) [
      | true ↦ chunk_ranges fuel max_chars overlap_chars content end
      | false ↦
          and_then (start, end)
            (chunk_ranges fuel max_chars overlap_chars content
              (next_start overlap_chars content start end))
    ]
  ]
]

-- %d
unfoldable pub digits : ℕ → ℕ → Text → Text
digits zero n rest = rest
digits (suc fuel) n rest = elim (ltb n 10) [
  | true ↦ (48 + n) ∷ rest
  | false ↦ digits fuel (n / 10) ((48 + n % 10) ∷ rest)
]

unfoldable pub decimal : ℕ → Text
unfolding digits
decimal n = digits (n + 1) n []

abbrev pub colon : Text
colon = 58 ∷ []

abbrev pub underscore : Text
underscore = 95 ∷ []

-- "File: %s\n\n"
unfoldable pub file_prefix : Text → Text
file_prefix path = codes "File: " ++ (path ++ (10 ∷ 10 ∷ []))

-- strings.TrimPrefix, where the prefix is there.
unfoldable pub strip_prefix : Text → Text → Option Text
strip_prefix [] s = some s
strip_prefix (p ∷ ps) [] = none
strip_prefix (p ∷ ps) (b ∷ bs) = if p == b then strip_prefix ps bs else none

abbrev pub with_lines : {A : Type 0} → Option ℕ → Option ℕ → (ℕ → ℕ → A) → Option A
with_lines (some first) (some last) f = some (f first last)
with_lines _ _ f = none

-- The chunks of the ranges, one after the other.
unfoldable pub each_range :
    {A : Type 0} → (ℕ → ℕ → ℕ → Option A) → ℕ → List (ℕ × ℕ) → Option (List A)
each_range make index [] = some []
each_range make index ((start, end) ∷ ranges) =
    let rest = each_range make (index + 1) ranges in
    elim (make index start end) [ none ↦ none | some a ↦ and_then a rest ]

abbrev pub of_ranges :
    {A : Type 0} → (ℕ → ℕ → ℕ → Option A) → Option (List (ℕ × ℕ)) → Option (List A)
of_ranges make none = none
of_ranges make (some ranges) = each_range make 0 ranges

unfoldable pub in_context : Text → ChunkInfo → ChunkInfo
unfolding file_prefix
in_context path info =
    let text = file_prefix path ++ info.content in
    record info { content = text; embed_content = text }

abbrev each_in_context : Text → Option (List ChunkInfo) → Option (List ChunkInfo)
unfolding in_context
each_in_context path none = none
each_in_context path (some infos) = some (map (in_context path) infos)

module _ (sha256_hex : Text → Text) where
  unfoldable pub numbered : Text → Text → ℕ → ℕ → ℕ → ℕ → ℕ → ChunkInfo
  unfolding decimal
  numbered path content index start end first last =
      let text = slice content start end in
      record {
        id = path ++ (underscore ++ decimal index);
        file_path = path;
        start_line = first;
        end_line = last;
        content = text;
        embed_content = text;
        hash = take 16 (
            sha256_hex
              (path ++ (colon ++ (decimal start ++ (colon ++ (decimal end ++ (colon ++ text)))))));
        content_hash = sha256_hex text;
      }

  unfoldable pub chunk_info : Text → Text → ℕ → ℕ → ℕ → Option ChunkInfo
  unfolding build_line_starts get_line_number numbered
  chunk_info path content index start end =
      with_lines (get_line_number (build_line_starts content) start)
        (get_line_number (build_line_starts content) (end - 1))
        (numbered path content index start end)

  unfoldable pub chunk : Chunker → Text → Text → Option (List ChunkInfo)
  unfolding chunk_ranges each_range chunk_info chars_of
  chunk c path content =
      of_ranges (chunk_info path content)
        (chunk_ranges (length content + 1) (chars_of c.chunk_size) (chars_of c.overlap) content 0)

  unfoldable pub chunk_with_context : Chunker → Text → Text → Option (List ChunkInfo)
  unfolding chunk each_in_context
  chunk_with_context c path content = each_in_context path (chunk c path content)
