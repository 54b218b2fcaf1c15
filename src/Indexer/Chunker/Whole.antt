-- ===== src/Indexer/Chunker/Whole.antt =====
-- Every chunk is the text of its range, with its lines (indexer/chunker.go).
use grepai.Base.{
  ℕ, zero, suc, ◌+◌, ◌-◌, ◌*◌, ◌<◌, ◌≤◌, ◌≡◌, refl, ap, ◌∙◌, List, [], ◌∷◌, ◌++◌, Option, none,
  some, length, take, All, arith,
}
use grepai.Base.Int.{ℤ, pos, negsuc}
use grepai.Base.Text.{Text}
use grepai.Indexer.Lines.{build_line_starts, get_line_number}
use grepai.Indexer.Lines.Count.{newlines, get_line_number_lem}
use grepai.Indexer.Chunker.{
  ChunkInfo, new_chunker, chars_per_token, slice, decimal, underscore, with_lines, each_range,
  of_ranges, numbered, chunk_info, chunk,
}
use grepai.Indexer.Chunker.Ideal.{ideal_ranges}
use grepai.Indexer.Chunker.Agrees.{SizeFits, SizeFits-Fits, same_ranges}
use grepai.Indexer.Chunker.Ranges.{InText, StartsFrom, ideal_ranges_total}

-- The line of a byte, counted from 1.
abbrev pub line_of : Text → ℕ → ℕ
line_of content i = newlines (take i content) + 1

pub with_lines-some :
    {A : Type 0} (a b : Option ℕ) (x y : ℕ) (f : ℕ → ℕ → A)
    → a ≡ some x
    → b ≡ some y
    → with_lines a b f ≡ some (f x y)
with_lines-some none b x y f e g = absurd (ground arith)
with_lines-some (some a) none x y f e g = absurd (ground arith)
with_lines-some (some a) (some b) x y f e g = ground arith

pub lines_found :
    {A : Type 0} (content : Text) (start end : ℕ) (f : ℕ → ℕ → A)
    → InText content (start, end)
    → with_lines
        (get_line_number (build_line_starts content) start)
        (get_line_number (build_line_starts content) (end - 1))
        f
      ≡ some (f (line_of content start) (line_of content (end - 1)))
lines_found content start end f h =
    with_lines-some (get_line_number (build_line_starts content) start)
      (get_line_number (build_line_starts content) (end - 1)) (line_of content start)
      (line_of content (end - 1)) f (get_line_number_lem content start (omega (arith, h)))
      (get_line_number_lem content (end - 1) (omega (arith, h)))

-- One result for each range, with its number.
abbrev pub Matches : {A : Type 0} → (ℕ → ℕ → ℕ → A → Type 0) → ℕ → List (ℕ × ℕ) → List A → Type 0
Matches P index [] [] = Unit
Matches P index [] (x ∷ xs) = ⊥
Matches P index (r ∷ rs) [] = ⊥
Matches P index ((start, end) ∷ rs) (x ∷ xs) = P index start end x × Matches P (index + 1) rs xs

pub each_range-Matches :
    {A : Type 0} (content : Text) (make : ℕ → ℕ → ℕ → Option A) (P : ℕ → ℕ → ℕ → A → Type 0)
    → ((index start end : ℕ)
        → InText content (start, end)
        → (x : A) × (make index start end ≡ some x) × P index start end x)
    → (index : ℕ) (rs : List (ℕ × ℕ)) → All (InText content) rs
    → (xs : List A) × (each_range make index rs ≡ some xs) × Matches P index rs xs
unfolding each_range
each_range-Matches content make P good index [] within = ([], refl, tt)
each_range-Matches content make P good index ((start, end) ∷ rs) within =
    let (x, made, px) = good index start end (within.0) in
    let (xs, rest, pxs) = each_range-Matches content make P good (index + 1) rs (within.1) in
    (x ∷ xs, grind (arith, made, rest), (px, pxs))

-- The chunk with a number shows the bytes of its range, under their lines.
abbrev pub Shows : Text → Text → ℕ → ℕ → ℕ → ChunkInfo → Type 0
Shows path content index start end info =
    (info.id ≡ path ++ (underscore ++ decimal index))
    × (info.file_path ≡ path)
    × (info.content ≡ slice content start end)
    × (info.start_line ≡ line_of content start)
    × (info.end_line ≡ line_of content (end - 1))

pub new_chunker-size :
    (size overlap : ℤ) → 1 ≤ ((new_chunker size overlap).chunk_size) * chars_per_token
unfolding new_chunker
new_chunker-size (pos zero) overlap = grind arith
new_chunker-size (pos (suc n)) overlap = grind arith
new_chunker-size (negsuc n) overlap = grind arith

pub new_chunker-overlap :
    (size overlap : ℤ) → (new_chunker size overlap).overlap < (new_chunker size overlap).chunk_size
unfolding new_chunker
new_chunker-overlap size overlap = ground arith

module _ (sha256_hex : Text → Text) where
  pub chunk_info-Shows :
      (path content : Text) (index start end : ℕ)
      → InText content (start, end)
      → (info : ChunkInfo) × (chunk_info sha256_hex path content index start end ≡ some info)
        × Shows path content index start end info
  unfolding chunk_info numbered
  chunk_info-Shows path content index start end h = (
    numbered sha256_hex path content index start end (line_of content start)
        (line_of content (end - 1)),
    lines_found content start end (numbered sha256_hex path content index start end) h,
    (refl, refl, refl, refl, refl),
  )

  pub ranges_of_chunk :
      (size overlap : ℤ) (path content : Text)
      → let c = new_chunker size overlap in
        SizeFits c.chunk_size content
        → (ranges : List (ℕ × ℕ)) × (infos : List ChunkInfo) × (ideal_ranges
              (length content + 1)
              (c.chunk_size * chars_per_token)
              (c.overlap * chars_per_token)
              content
              0
            ≡ some ranges)
          × (chunk sha256_hex c path content ≡ some infos)
          × All (InText content) ranges
          × StartsFrom 0 ranges
          × Matches (Shows path content) 0 ranges infos
  unfolding chunk
  ranges_of_chunk size overlap path content fits =
      let c = new_chunker size overlap in
      let (rs, found, within, ordered) =
        ideal_ranges_total (length content + 1) (c.chunk_size * chars_per_token)
          (c.overlap * chars_per_token) content 0 (new_chunker-size size overlap) (omega arith) in
      let (infos, made, shown) =
        each_range-Matches content (chunk_info sha256_hex path content) (Shows path content)
          (chunk_info-Shows path content) 0 rs within in
      (
        rs,
        infos,
        found,
        ap (of_ranges (chunk_info sha256_hex path content)) (
              same_ranges c.chunk_size c.overlap content (new_chunker-size size overlap) (
                SizeFits-Fits c.chunk_size c.overlap content fits
                  (omega (arith, new_chunker-overlap size overlap)))
              ∙ found)
            ∙ made,
        within,
        ordered,
        shown,
      )

-- Where the bytes of a chunk (four to a token) and those of the text add up to an int, which is
-- less than 2^63, the chunker returns for every path and text. Its chunks show ranges of the text
-- that are not empty, each of which starts after the one before it; a chunk's lines are the lines
-- of its first and last bytes, and its id is the path and its place.
pub chunk_lem :
    (sha256_hex : Text → Text) (size overlap : ℤ) (path content : Text)
    → SizeFits (new_chunker size overlap).chunk_size content
    → (ranges : List (ℕ × ℕ)) × (infos : List ChunkInfo) × (chunk sha256_hex
          (new_chunker size overlap)
          path
          content
        ≡ some infos)
      × All (InText content) ranges
      × StartsFrom 0 ranges
      × Matches (Shows path content) 0 ranges infos
chunk_lem sha256_hex size overlap path content fits =
    let (ranges, infos, _, made, within, ordered, shown) =
      ranges_of_chunk sha256_hex size overlap path content fits in
    (ranges, infos, made, within, ordered, shown)
