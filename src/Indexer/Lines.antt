-- ===== src/Indexer/Lines.antt =====
-- indexer/chunker.go: the line of a byte position (buildLineStarts, getLineNumber).
pub mod Count
use grepai.Base.{
  ℕ, zero, suc, ◌+◌, ◌-◌, ◌/◌, Bool, true, false, ◌&&◌, List, [], ◌∷◌, Option, none, some,
  if◌then◌else◌, ltb, leb, ◌==◌, length, get_elem?,
}
use grepai.Base.Text.{Text}

-- The loop over the content from byte `i` on. In UTF-8 the byte 10 is a newline wherever it stands.
unfoldable pub line_starts_from : ℕ → Text → List ℕ
line_starts_from i [] = []
line_starts_from i (b ∷ bs) =
    let rest = line_starts_from (i + 1) bs in
    if (b == 10) && ltb 0 (length bs) then (i + 1) ∷ rest else rest

unfoldable pub build_line_starts : Text → List ℕ
unfolding line_starts_from
build_line_starts content = 0 ∷ line_starts_from 0 content

-- The binary search, with fuel; `none` also stands for an index out of range.
unfoldable pub find_line : ℕ → List ℕ → ℕ → ℕ → ℕ → Option ℕ
find_line zero starts position low high = none
find_line (suc fuel) starts position low high = elim (ltb low high) [
  | false ↦ some low
  | true ↦ elim (get_elem? starts ((low + high + 1) / 2)) [
    | none ↦ none
    | some start ↦ elim (leb start position) [
      | true ↦ find_line fuel starts position ((low + high + 1) / 2) high
      | false ↦ find_line fuel starts position low ((low + high + 1) / 2 - 1)
    ]
  ]
]

abbrev pub one_indexed : Option ℕ → Option ℕ
one_indexed none = none
one_indexed (some line) = some (line + 1)

-- A round at least leaves one line out, so a fuel of one more than the lines is enough.
unfoldable pub get_line_number : List ℕ → ℕ → Option ℕ
unfolding find_line
get_line_number starts position =
    one_indexed (find_line (length starts + 1) starts position 0 (length starts - 1))
