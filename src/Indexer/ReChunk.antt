-- ===== src/Indexer/ReChunk.antt =====
-- indexer/chunker.go: a chunk that is too long for the embedder is cut again (ReChunk).
pub mod Absolute
use grepai.Base.{
  ℕ, zero, suc, ◌+◌, ◌-◌, ◌*◌, ◌/◌, ◌%◌, Bool, true, false, List, [], ◌∷◌, ◌++◌, Option, none, some,
  if◌then◌else◌, ltb, length, take,
}
use grepai.Base.Text.{Text}
use grepai.Indexer.Lines.{build_line_starts, get_line_number}
use grepai.Indexer.Chunker.{
  ChunkInfo, Chunker, chars_of, slice, chunk_ranges, decimal, colon, underscore, file_prefix,
  strip_prefix, with_lines, each_range, of_ranges,
}

abbrev pub or_content : Text → Text → Text
or_content [] content = content
or_content (b ∷ bs) content = b ∷ bs

abbrev pub stripped_or : Text → Option Text → Bool × Text
stripped_or content none = (false, content)
stripped_or content (some rest) = (true, rest)

-- The text to cut, and whether it had the file's name before it.
unfoldable pub raw_text : ChunkInfo → Bool × Text
unfolding file_prefix strip_prefix
raw_text parent =
    let content = or_content parent.embed_content parent.content in
    stripped_or content (strip_prefix (file_prefix parent.file_path) content)

abbrev pub half_size : Chunker → ℕ
half_size c = if ltb (c.chunk_size / 2) 64 then 64 else c.chunk_size / 2

abbrev pub half_overlap : Chunker → ℕ
half_overlap c = c.overlap / 2

unfoldable pub with_prefix : Bool → Text → Text → Text
unfolding file_prefix
with_prefix true path text = file_prefix path ++ text
with_prefix false path text = text

module _ (sha256_hex : Text → Text) where
  unfoldable pub sub_numbered : ChunkInfo → ℕ → Bool → Text → ℕ → ℕ → ℕ → ℕ → ℕ → ChunkInfo
  unfolding decimal with_prefix
  sub_numbered parent parent_index has_context content index start end first last =
      let text = slice content start end in
      let path = parent.file_path in
      let final_content = with_prefix has_context path text in
      record {
        id = path ++ (underscore ++ (decimal parent_index ++ (underscore ++ decimal index)));
        file_path = path;
        start_line = parent.start_line + first - 1;
        end_line = parent.start_line + last - 1;
        content = final_content;
        embed_content = final_content;
        hash = take 16 (
            sha256_hex (
              path
              ++ (colon
                  ++ (decimal parent_index
                      ++ (colon
                          ++ (decimal index ++ (colon ++ (decimal start ++ (colon ++ text)))))))));
        content_hash = sha256_hex text;
      }

  unfoldable pub sub_info : ChunkInfo → ℕ → Bool → Text → ℕ → ℕ → ℕ → Option ChunkInfo
  unfolding build_line_starts get_line_number sub_numbered
  sub_info parent parent_index has_context content index start end =
      with_lines (get_line_number (build_line_starts content) start)
        (get_line_number (build_line_starts content) (end - 1))
        (sub_numbered parent parent_index has_context content index start end)

  unfoldable pub cut_again : Chunker → ChunkInfo → ℕ → Bool × Text → Option (List ChunkInfo)
  unfolding chunk_ranges each_range sub_info chars_of
  cut_again c parent parent_index (has_context, content) =
      of_ranges (sub_info parent parent_index has_context content) (
        chunk_ranges (length content + 1) (chars_of (half_size c)) (chars_of (half_overlap c))
          content 0)

  unfoldable pub re_chunk : Chunker → ChunkInfo → ℕ → Option (List ChunkInfo)
  unfolding raw_text cut_again
  re_chunk c parent parent_index = cut_again c parent parent_index (raw_text parent)
