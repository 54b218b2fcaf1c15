-- ===== src/Indexer/Lines/Count.antt =====
-- The binary search finds the line (indexer/chunker.go).
use grepai.Base.{
  ℕ, zero, suc, ◌+◌, ◌-◌, ◌/◌, ◌<◌, ◌≤◌, ◌≡◌, refl, ap, List, [], ◌∷◌, some, if◌then◌else◌, ltb,
  leb, ◌==◌, length, get_elem?, take, All, All-imp, arith,
}
use grepai.Base.Text.{Text}
use grepai.Indexer.Lines.{
  line_starts_from, build_line_starts, one_indexed, find_line, get_line_number,
}

-- How many newlines stand in a text.
abbrev pub newlines : Text → ℕ
newlines [] = 0
newlines (b ∷ bs) = (if b == 10 then 1 else 0) + newlines bs

abbrev count_up_to : ℕ → List ℕ → ℕ
count_up_to p [] = 0
count_up_to p (x ∷ xs) = (if leb x p then 1 else 0) + count_up_to p xs

abbrev IsSorted : List ℕ → Type 0
IsSorted [] = Unit
IsSorted (x ∷ xs) = All (λ y. x ≤ y) xs × IsSorted xs

count_none : (p x : ℕ) (xs : List ℕ) → All (λ y. x ≤ y) xs → p < x → count_up_to p xs ≡ 0
count_none p x [] h lt = refl
count_none p x (y ∷ ys) h lt = ground (arith, count_none p x ys h.1 lt)

count-le-length : (p : ℕ) (xs : List ℕ) → count_up_to p xs ≤ length xs
count-le-length p [] = omega arith
count-le-length p (x ∷ xs) = ground (arith, count-le-length p xs)

-- In a sorted list the elements up to `p` come first.
up_to_first :
    (p m s : ℕ) (xs : List ℕ)
    → IsSorted xs
    → get_elem? xs m ≡ some s
    → leb s p ≡ ltb m (count_up_to p xs)
up_to_first p m s [] v e = ground arith
up_to_first p zero s (x ∷ xs) v e = ground (arith, count_none p x xs v.0)
up_to_first p (suc m) s (x ∷ xs) v e =
    ground (arith, up_to_first p m s xs v.1 e, count_none p x xs v.0)

in_bounds : (xs : List ℕ) (m : ℕ) → m < length xs → (s : ℕ) × (get_elem? xs m ≡ some s)
in_bounds [] m h = absurd (omega arith)
in_bounds (x ∷ xs) zero h = (x, refl)
in_bounds (x ∷ xs) (suc m) h = in_bounds xs m (omega arith)

find_line_lem :
    (fuel : ℕ) (starts : List ℕ) (p low high k : ℕ)
    → IsSorted starts
    → count_up_to p starts ≡ suc k
    → low ≤ k
    → k ≤ high
    → high < length starts
    → high - low < fuel
    → find_line fuel starts p low high ≡ some k
unfolding find_line
find_line_lem zero starts p low high k v c l h b f = absurd (omega arith)
find_line_lem (suc fuel) starts p low high k v c l h b f =
    let mid = (low + high + 1) / 2 in
    let (s, e) = in_bounds starts mid (omega arith) in
    ground (
      arith,
      e,
      up_to_first p mid s starts v e,
      find_line_lem fuel starts p mid high k v c,
      find_line_lem fuel starts p low (mid - 1) k v c,
    )

above : (i : ℕ) (bs : Text) → All (λ y. i + 1 ≤ y) (line_starts_from i bs)
unfolding line_starts_from
above i [] = tt
above i (b ∷ bs) =
    let later =
      All-imp (λ y. i + 1 + 1 ≤ y) (λ y. i + 1 ≤ y) (line_starts_from (i + 1) bs)
        (λ y h. omega arith) (above (i + 1) bs) in
    ground (arith, later)

starts-IsSorted : (i : ℕ) (bs : Text) → IsSorted (line_starts_from i bs)
unfolding line_starts_from
starts-IsSorted i [] = tt
starts-IsSorted i (b ∷ bs) =
    let later =
      All-imp (λ y. i + 1 + 1 ≤ y) (λ y. i + 1 ≤ y) (line_starts_from (i + 1) bs)
        (λ y h. omega arith) (above (i + 1) bs) in
    ground (arith, later, starts-IsSorted (i + 1) bs)

-- The starts up to a position in the text are the newlines before it.
count-starts :
    (i p q : ℕ) (bs : Text)
    → p < length bs
    → q ≡ i + p
    → count_up_to q (line_starts_from i bs) ≡ newlines (take p bs)
unfolding line_starts_from
count-starts i p q [] h e = absurd (omega arith)
count-starts i zero q (b ∷ bs) h e =
    count_none q (i + 1) (line_starts_from i (b ∷ bs)) (above i (b ∷ bs)) (omega (arith, e))
count-starts i (suc p) q (b ∷ bs) h e =
    ground (arith, count-starts (i + 1) p q bs (omega (arith, h)) (omega (arith, e)))

zero_first : (xs : List ℕ) → All (λ y. 0 ≤ y) xs
zero_first [] = tt
zero_first (x ∷ xs) = (omega arith, zero_first xs)

-- The binary search over the line starts of a text finds, for each of its bytes, one more than the
-- newlines before that byte.
pub get_line_number_lem :
    (content : Text) (position : ℕ)
    → position < length content
    → get_line_number (build_line_starts content) position
      ≡ some (newlines (take position content) + 1)
unfolding get_line_number build_line_starts
get_line_number_lem content position h =
    let starts = line_starts_from 0 content in
    let k = newlines (take position content) in
    let c : count_up_to position (0 ∷ starts) ≡ suc k =
      ground (arith, count-starts 0 position position content h (omega arith)) in
    let b = count-le-length position (0 ∷ starts) in
    let found =
      find_line_lem (length (0 ∷ starts) + 1) (0 ∷ starts) position 0 (length (0 ∷ starts) - 1) k
        (zero_first starts, starts-IsSorted 0 content) c (omega arith) (omega (arith, b, c))
        (omega arith) (omega arith) in
    ap one_indexed found
