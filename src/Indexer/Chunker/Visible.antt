-- ===== src/Indexer/Chunker/Visible.antt =====
-- Every visible character is in a chunk that shows its line (indexer/chunker.go).
use grepai.Base.{
  ℕ, zero, suc, ◌+◌, ◌-◌, ◌*◌, ◌<◌, ◌≤◌, ◌≡◌, ap, sym, subst, ◌∙◌, ◌⊎◌, inl, inr, List, [], ◌∷◌,
  some, some_inj, length, take, get_elem?, arith,
}
use grepai.Base.Int.{ℤ}
use grepai.Base.Text.{Text}
use grepai.Indexer.Lines.Count.{newlines}
use grepai.Indexer.Chunker.{ChunkInfo, new_chunker, chars_per_token, chunk}
use grepai.Indexer.Chunker.Agrees.{SizeFits}
use grepai.Indexer.Chunker.Cover.{Covered, IsVisible, get_elem?-slice, ideal_ranges-Covered}
use grepai.Indexer.Chunker.Whole.{line_of, Shows, Matches, ranges_of_chunk, new_chunker-size}

newlines_grow : (a b : ℕ) (s : Text) → a ≤ b → newlines (take a s) ≤ newlines (take b s)
newlines_grow zero b s h = omega arith
newlines_grow (suc a) zero s h = absurd (omega arith)
newlines_grow (suc a) (suc b) [] h = omega arith
newlines_grow (suc a) (suc b) (x ∷ s) h = omega (arith, newlines_grow a b s (omega (arith, h)))

-- A chunk that starts at or before byte i, has the byte in its text and its line among its lines.
abbrev pub HasByte : Text → ℕ → ℕ → ChunkInfo → Type 0
HasByte content i b info =
    (start : ℕ) × (start ≤ i)
    × (get_elem? info.content (i - start) ≡ some b)
    × (info.start_line ≤ line_of content i)
    × (line_of content i ≤ info.end_line)

abbrev pub SomeHasByte : Text → ℕ → ℕ → List ChunkInfo → Type 0
SomeHasByte content i b [] = ⊥
SomeHasByte content i b (info ∷ infos) = HasByte content i b info ⊎ SomeHasByte content i b infos

shown_byte :
    (path content : Text) (index start end i b : ℕ) (info : ChunkInfo)
    → Shows path content index start end info
    → get_elem? content i ≡ some b
    → start ≤ i
    → i < end
    → HasByte content i b info
shown_byte path content index start end i b info (_, _, text, first, last) e h k = (
  start,
  h,
  ap (λ t. get_elem? t (i - start)) text ∙ get_elem?-slice content start end i b e h k,
  omega (arith, first, newlines_grow start i content h),
  omega (arith, last, newlines_grow i (end - 1) content (omega (arith, k))),
)

byte_found :
    (path content : Text) (index i b : ℕ) (rs : List (ℕ × ℕ)) (infos : List ChunkInfo)
    → Matches (Shows path content) index rs infos
    → get_elem? content i ≡ some b
    → Covered i rs
    → SomeHasByte content i b infos
byte_found path content index i b [] infos m e c = absurd c
byte_found path content index i b ((start, end) ∷ rs) [] m e c = absurd m
byte_found path content index i b ((start, end) ∷ rs) (info ∷ infos) m e (inl (h, k)) =
    inl (shown_byte path content index start end i b info (m.0) e h k)
byte_found path content index i b ((start, end) ∷ rs) (info ∷ infos) m e (inr later) =
    inr (byte_found path content (index + 1) i b rs infos (m.1) e later)

-- Where the bytes of a chunk and those of the text add up to less than 2^63, and the text has a
-- visible ASCII character, some chunk of it has that character in its text and its line among its
-- lines.
pub chunk-SomeHasByte :
    (sha256_hex : Text → Text) (size overlap : ℤ) (path content : Text) (infos : List ChunkInfo)
    (i b : ℕ)
    → SizeFits (new_chunker size overlap).chunk_size content
    → chunk sha256_hex (new_chunker size overlap) path content ≡ some infos
    → get_elem? content i ≡ some b
    → IsVisible b
    → SomeHasByte content i b infos
chunk-SomeHasByte sha256_hex size overlap path content infos i b fits made e v =
    let c = new_chunker size overlap in
    let (rs, infos', found, made', within, ordered, shown) =
      ranges_of_chunk sha256_hex size overlap path content fits in
    let same : infos' ≡ infos = some_inj (sym made' ∙ made) in
    subst (SomeHasByte content i b) same (
      byte_found path content 0 i b rs infos' shown e (
        ideal_ranges-Covered (length content + 1) (c.chunk_size * chars_per_token)
          (c.overlap * chars_per_token) content 0 i b rs (new_chunker-size size overlap) found e v
          (omega arith)))
