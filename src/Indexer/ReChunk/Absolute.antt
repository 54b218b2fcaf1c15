-- ===== src/Indexer/ReChunk/Absolute.antt =====
-- The lines of the parts of a chunk are lines of the file (indexer/chunker.go).
use grepai.Base.{
  ℕ, zero, suc, ◌+◌, ◌-◌, ◌*◌, ◌<◌, ◌≤◌, ◌≡◌, refl, ap, sym, ◌∙◌, true, List, [], ◌∷◌, ◌++◌, some,
  some_inj, length, take, drop, All, arith,
}
use grepai.Base.Text.{Text}
use grepai.Indexer.Lines.Count.{newlines}
use grepai.Indexer.Chunker.{
  Chunker, ChunkInfo, chars_per_token, slice, decimal, underscore, of_ranges, numbered, chunk_info,
  in_context, file_prefix, strip_prefix,
}
use grepai.Indexer.Chunker.Agrees.{SizeFits, same_ranges, int_limit}
use grepai.Indexer.Chunker.Progress.{length-slice}
use grepai.Indexer.Chunker.Ranges.{InText, StartsFrom, ideal_ranges_total}
use grepai.Indexer.Chunker.Whole.{line_of, lines_found, Matches, each_range-Matches}
use grepai.Indexer.ReChunk.{
  raw_text, half_size, half_overlap, sub_numbered, sub_info, cut_again, re_chunk, stripped_or,
  with_prefix,
}

strip_prefix_append : (p s : Text) → strip_prefix p (p ++ s) ≡ some s
unfolding strip_prefix
strip_prefix_append [] s = refl
strip_prefix_append (x ∷ p) s = ground (arith, strip_prefix_append p s)

newlines-take_add :
    (a b c : ℕ) (s : Text)
    → c ≡ a + b
    → newlines (take c s) ≡ newlines (take a s) + newlines (take b (drop a s))
newlines-take_add zero b c s e =
    let same : c ≡ b = omega (arith, e) in omega (arith, ap (λ n. newlines (take n s)) same)
newlines-take_add (suc a) b zero s e = absurd (omega (arith, e))
newlines-take_add (suc a) zero (suc c) [] e = refl
newlines-take_add (suc a) (suc b) (suc c) [] e = refl
newlines-take_add (suc a) b (suc c) (x ∷ s) e =
    omega (arith, newlines-take_add a b c s (omega (arith, e)))

take-take : (a b : ℕ) (s : Text) → a ≤ b → take a (take b s) ≡ take a s
take-take zero b s h = refl
take-take (suc a) zero s h = absurd (omega arith)
take-take (suc a) (suc b) [] h = refl
take-take (suc a) (suc b) (x ∷ s) h = ap (λ t. x ∷ t) (take-take a b s (omega arith))

drop-drop : (a b c : ℕ) (s : Text) → c ≡ a + b → drop b (drop a s) ≡ drop c s
drop-drop zero b c s e = ap (λ n. drop n s) (omega (arith, e))
drop-drop (suc a) b zero s e = absurd (omega (arith, e))
drop-drop (suc a) zero (suc c) [] e = refl
drop-drop (suc a) (suc b) (suc c) [] e = refl
drop-drop (suc a) b (suc c) (x ∷ s) e = drop-drop a b c s (omega (arith, e))

drop-take : (a b c : ℕ) (s : Text) → c + a ≡ b → drop a (take b s) ≡ take c (drop a s)
drop-take zero b c s e = ap (λ n. take n s) (omega (arith, e))
drop-take (suc a) zero c s e = absurd (omega (arith, e))
drop-take (suc a) (suc b) zero [] e = refl
drop-take (suc a) (suc b) (suc c) [] e = refl
drop-take (suc a) (suc b) c (x ∷ s) e = drop-take a b c s (omega (arith, e))

line_of-slice :
    (content : Text) (start end i : ℕ)
    → i ≤ end - start
    → line_of (slice content start end) i + newlines (take start content)
      ≡ line_of content (start + i)
line_of-slice content start end i h = omega (
  arith,
  newlines-take_add start i (start + i) content refl,
  ap newlines (take-take i (end - start) (drop start content) h),
)

slice-slice :
    (content : Text) (start end s e : ℕ)
    → s ≤ e
    → e ≤ end - start
    → slice (slice content start end) s e ≡ slice content (start + s) (start + e)
slice-slice content start end s e h k =
    ap (take (e - s))
      (drop-take s (end - start) (end - start - s) (drop start content) (omega arith))
    ∙ take-take (e - s) (end - start - s) (drop s (drop start content)) (omega arith)
    ∙ ap (take (e - s)) (drop-drop start s (start + s) content refl)
    ∙ ap (λ n. take n (drop (start + s) content)) (omega arith)

-- A part of the chunk of a file shows bytes of the file, under their lines in the file.
abbrev pub ShowsPart : Text → Text → ℕ → ℕ → ℕ → ℕ → ℕ → ChunkInfo → Type 0
ShowsPart path content offset parent_index index start end info =
    (info.id ≡ path ++ (underscore ++ (decimal parent_index ++ (underscore ++ decimal index))))
    × (info.file_path ≡ path)
    × (info.content ≡ file_prefix path ++ slice content (offset + start) (offset + end))
    × (info.start_line ≡ line_of content (offset + start))
    × (info.end_line ≡ line_of content (offset + end - 1))

-- The bytes of a part and of the text add up to an int, and the bytes of an overlap are one.
abbrev pub HalvesFit : Chunker → Text → Type 0
HalvesFit c content =
    SizeFits (half_size c) content × (half_overlap c * chars_per_token < int_limit)

half_size_chars : (c : Chunker) → 1 ≤ half_size c * chars_per_token
half_size_chars c = ground arith

module _ (sha256_hex : Text → Text) (path content : Text) (index start end : ℕ) where
  abbrev parent_of : ChunkInfo
  parent_of = in_context path (
      numbered sha256_hex path content index start end (line_of content start)
        (line_of content (end - 1)))

  raw_text-parent : raw_text parent_of ≡ (true, slice content start end)
  unfolding raw_text numbered file_prefix in_context
  raw_text-parent =
      ap (stripped_or parent_of.content)
        (strip_prefix_append (file_prefix path) (slice content start end))

  sub_info-ShowsPart :
      (parent_index k s e : ℕ)
      → InText content (start, end)
      → InText (slice content start end) (s, e)
      → (info : ChunkInfo) × (sub_info sha256_hex parent_of parent_index true
            (slice content start end)
            k
            s
            e
          ≡ some info)
        × ShowsPart path content start parent_index k s e info
  unfolding sub_info sub_numbered numbered in_context with_prefix
  sub_info-ShowsPart parent_index k s e within inner =
      let text = slice content start end in
      let long = length-slice content start end (omega (arith, within)) (omega (arith, within)) in
      let first = line_of-slice content start end s (omega (arith, inner, long)) in
      let last = line_of-slice content start end (e - 1) (omega (arith, inner, long)) in
      let same_end : start + (e - 1) ≡ start + e - 1 = omega (arith, inner) in
      let f = sub_numbered sha256_hex parent_of parent_index true text k s e in
      (
        f (line_of text s) (line_of text (e - 1)),
        lines_found text s e f inner,
        (
          refl,
          refl,
          ap (λ t. file_prefix path ++ t)
              (slice-slice content start end s e (omega (arith, inner))
                (omega (arith, inner, long))),
          omega (arith, first),
          omega (arith, last) ∙ ap (line_of content) same_end,
        ),
      )

  re_chunk_parent :
      (c : Chunker) (parent_index : ℕ)
      → HalvesFit c content
      → InText content (start, end)
      → let text = slice content start end in
        (ranges : List (ℕ × ℕ)) × (parts : List ChunkInfo) × (re_chunk sha256_hex c parent_of
            parent_index
          ≡ some parts)
        × All (InText text) ranges
        × StartsFrom 0 ranges
        × Matches (ShowsPart path content start parent_index) 0 ranges parts
  unfolding re_chunk cut_again
  re_chunk_parent c parent_index fits within =
      let text = slice content start end in
      let (rs, found, inner, ordered) =
        ideal_ranges_total (length text + 1) (half_size c * chars_per_token)
          (half_overlap c * chars_per_token) text 0 (half_size_chars c) (omega arith) in
      let long = length-slice content start end (omega (arith, within)) (omega (arith, within)) in
      let (parts, made, shown) =
        each_range-Matches text (sub_info sha256_hex parent_of parent_index true text)
          (ShowsPart path content start parent_index)
          (λ k s e h. sub_info-ShowsPart parent_index k s e within h) 0 rs inner in
      (
        rs,
        parts,
        ap (cut_again sha256_hex c parent_of parent_index) raw_text-parent
            ∙ ap (of_ranges (sub_info sha256_hex parent_of parent_index true text)) (
                same_ranges (half_size c) (half_overlap c) text (half_size_chars c) (record {
                  sum = omega (arith, fits, long, within);
                  overlap = omega (arith, fits);
                })
                ∙ found)
            ∙ made,
        inner,
        ordered,
        shown,
      )

  parent_of_lem :
      (info : ChunkInfo)
      → InText content (start, end)
      → chunk_info sha256_hex path content index start end ≡ some info
      → in_context path info ≡ parent_of
  unfolding chunk_info
  parent_of_lem info within e = ap (in_context path) (
      some_inj (
        sym e
        ∙ lines_found content start end (numbered sha256_hex path content index start end) within))

-- Where the bytes of a part and those of the file's text add up to less than 2^63, and the bytes
-- of a part's overlap are less than 2^63, every chunk of a file that has the file's name before it
-- can be cut again. The parts show the ranges of the chunk's text, in order, each with the file's
-- name before it again, and their lines are the lines of the file.
pub re_chunk_lem :
    (sha256_hex : Text → Text) (c : Chunker) (path content : Text) (index start end : ℕ)
    (parent_index : ℕ) (info : ChunkInfo)
    → HalvesFit c content
    → InText content (start, end)
    → chunk_info sha256_hex path content index start end ≡ some info
    → let text = slice content start end in
      (ranges : List (ℕ × ℕ)) × (parts : List ChunkInfo) × (re_chunk sha256_hex c
          (in_context path info)
          parent_index
        ≡ some parts)
      × All (InText text) ranges
      × StartsFrom 0 ranges
      × Matches (ShowsPart path content start parent_index) 0 ranges parts
re_chunk_lem sha256_hex c path content index start end parent_index info fits within e =
    let same = parent_of_lem sha256_hex path content index start end info within e in
    let (ranges, parts, cut, inner, ordered, shown) =
      re_chunk_parent sha256_hex path content index start end c parent_index fits within in
    (
      ranges,
      parts,
      ap (λ p. re_chunk sha256_hex c p parent_index) same ∙ cut,
      inner,
      ordered,
      shown,
    )
