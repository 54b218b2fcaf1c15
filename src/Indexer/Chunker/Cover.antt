-- ===== src/Indexer/Chunker/Cover.antt =====
-- No visible text is left out of the chunks (indexer/chunker.go).
use grepai.Base.{
  ℕ, zero, suc, ◌+◌, ◌-◌, ◌<◌, ◌≤◌, ◌≡◌, refl, subst, sym, ap, ◌∙◌, ◌⊎◌, inl, inr, true, List, [],
  ◌∷◌, Option, none, some, ltb, length, take, drop, get_elem?, Bool-cases, arith,
}
use grepai.Base.Text.{Text}
use grepai.Indexer.Chunker.{
  align_from, align_rune_boundary, slice, is_blank, and_then, space1, space2, space3,
}
use grepai.Indexer.Chunker.Ideal.{ideal_ranges, ideal_end, ideal_start}
use grepai.Indexer.Chunker.Progress.{ideal_end_bounds}
use grepai.Indexer.Chunker.Ranges.{ranges_skip, ranges_take}

-- Some range holds the position.
abbrev pub Covered : ℕ → List (ℕ × ℕ) → Type 0
Covered i [] = ⊥
Covered i ((start, end) ∷ rs) = ((start ≤ i) × (i < end)) ⊎ Covered i rs

-- A visible ASCII character.
abbrev pub IsVisible : ℕ → Type 0
IsVisible b = (33 ≤ b) × (b < 127)

same_elem : (b a : ℕ) → get_elem? (a ∷ []) 0 ≡ some b → b ≡ a
same_elem b a e = ground arith

space1_invisible : (a : ℕ) → space1 a ≡ true → ¬ IsVisible a
unfolding space1
space1_invisible a h v = ground arith

space2_invisible : (a b : ℕ) → space2 a b ≡ true → (¬ IsVisible a) × (¬ IsVisible b)
unfolding space2
space2_invisible a b h = (λ v. ground (arith, v), λ v. ground (arith, v))

space3_invisible :
    (a b c : ℕ) → space3 a b c ≡ true → (¬ IsVisible a) × (¬ IsVisible b) × (¬ IsVisible c)
unfolding space3
space3_invisible a b c h = (λ v. ground (arith, v), λ v. ground (arith, v), λ v. ground (arith, v))

blank_cases :
    (a b c : ℕ) (rest : Text)
    → is_blank (a ∷ b ∷ c ∷ rest) ≡ true
    → ((space1 a ≡ true) × (is_blank (b ∷ c ∷ rest) ≡ true))
      ⊎ ((space2 a b ≡ true) × (is_blank (c ∷ rest) ≡ true))
      ⊎ ((space3 a b c ≡ true) × (is_blank rest ≡ true))
unfolding is_blank
blank_cases a b c rest h = elim (Bool-cases (space1 a)) [
  | inl one ↦ inl (one, ground (arith, one))
  | inr more ↦ elim (Bool-cases (space2 a b)) [
    | inl two ↦ inr (inl (two, ground (arith, more, two)))
    | inr others ↦ elim (Bool-cases (space3 a b c)) [
      | inl three ↦ inr (inr (three, ground (arith, more, others, three)))
      | inr text ↦ absurd (ground (arith, more, others, text))
    ]
  ]
]

pair_blank : (a b : ℕ) → is_blank (a ∷ b ∷ []) ≡ true → (¬ IsVisible a) × (¬ IsVisible b)
unfolding is_blank
pair_blank a b h = elim (Bool-cases (space1 a)) [
  | inl one ↦ elim (Bool-cases (space1 b)) [
    | inl also ↦ (space1_invisible a one, space1_invisible b also)
    | inr text ↦ space2_invisible a b (ground (arith, text, one))
  ]
  | inr more ↦ space2_invisible a b (ground (arith, more))
]

alone_invisible : (a : ℕ) → is_blank (a ∷ []) ≡ true → ¬ IsVisible a
unfolding is_blank
alone_invisible a h v = space1_invisible a h v

blank_invisible : (s : Text) (i b : ℕ) → is_blank s ≡ true → get_elem? s i ≡ some b → ¬ IsVisible b
blank_invisible [] i b h e v = ground arith
blank_invisible (a ∷ []) zero b h e v = alone_invisible a h (subst IsVisible (same_elem b a e) v)
blank_invisible (a ∷ []) (suc i) b h e v = ground arith
blank_invisible (a ∷ c ∷ []) zero b h e v =
    (pair_blank a c h).0 (subst IsVisible (same_elem b a e) v)
blank_invisible (a ∷ c ∷ []) (suc zero) b h e v =
    (pair_blank a c h).1 (subst IsVisible (same_elem b c e) v)
blank_invisible (a ∷ c ∷ []) (suc (suc i)) b h e v = ground arith
blank_invisible (a ∷ c ∷ d ∷ rest) zero b h e v = elim (blank_cases a c d rest h) [
  | inl (one, _) ↦ space1_invisible a one (subst IsVisible (same_elem b a e) v)
  | inr (inl (two, _)) ↦ (space2_invisible a c two).0 (subst IsVisible (same_elem b a e) v)
  | inr (inr (three, _)) ↦ (space3_invisible a c d three).0 (subst IsVisible (same_elem b a e) v)
]
blank_invisible (a ∷ c ∷ d ∷ rest) (suc zero) b h e v = elim (blank_cases a c d rest h) [
  | inl (_, later) ↦ blank_invisible (c ∷ d ∷ rest) zero b later e v
  | inr (inl (two, _)) ↦ (space2_invisible a c two).1 (subst IsVisible (same_elem b c e) v)
  | inr (inr (three, _)) ↦ (space3_invisible a c d three).1 (subst IsVisible (same_elem b c e) v)
]
blank_invisible (a ∷ c ∷ d ∷ rest) (suc (suc zero)) b h e v = elim (blank_cases a c d rest h) [
  | inl (_, later) ↦ blank_invisible (c ∷ d ∷ rest) (suc zero) b later e v
  | inr (inl (_, later)) ↦ blank_invisible (d ∷ rest) zero b later e v
  | inr (inr (three, _)) ↦ (space3_invisible a c d three).2 (subst IsVisible (same_elem b d e) v)
]
blank_invisible (a ∷ c ∷ d ∷ rest) (suc (suc (suc i))) b h e v = elim (blank_cases a c d rest h) [
  | inl (_, later) ↦ blank_invisible (c ∷ d ∷ rest) (suc (suc i)) b later e v
  | inr (inl (_, later)) ↦ blank_invisible (d ∷ rest) (suc i) b later e v
  | inr (inr (_, later)) ↦ blank_invisible rest i b later e v
]

get_elem?-take :
    (n i b : ℕ) (s : Text) → get_elem? s i ≡ some b → i < n → get_elem? (take n s) i ≡ some b
get_elem?-take zero i b s e h = absurd (omega arith)
get_elem?-take (suc n) i b [] e h = ground arith
get_elem?-take (suc n) zero b (x ∷ s) e h = e
get_elem?-take (suc n) (suc i) b (x ∷ s) e h = get_elem?-take n i b s e (omega (arith, h))

get_elem?-drop : (n i j : ℕ) (s : Text) → j ≡ n + i → get_elem? (drop n s) i ≡ get_elem? s j
get_elem?-drop zero i j s e = ap (get_elem? s) (omega (arith, e))
get_elem?-drop (suc n) i zero [] e = absurd (omega (arith, e))
get_elem?-drop (suc n) i (suc j) [] e = refl
get_elem?-drop (suc n) i zero (x ∷ s) e = absurd (omega (arith, e))
get_elem?-drop (suc n) i (suc j) (x ∷ s) e = get_elem?-drop n i j s (omega (arith, e))

pub get_elem?-slice :
    (content : Text) (start end i b : ℕ)
    → get_elem? content i ≡ some b
    → start ≤ i
    → i < end
    → get_elem? (slice content start end) (i - start) ≡ some b
get_elem?-slice content start end i b e h k =
    get_elem?-take (end - start) (i - start) b (drop start content)
      (get_elem?-drop start (i - start) i content (omega arith) ∙ e) (omega arith)

in_text : (s : Text) (i b : ℕ) → get_elem? s i ≡ some b → i < length s
in_text [] i b e = ground arith
in_text (x ∷ s) zero b e = omega arith
in_text (x ∷ s) (suc i) b e = omega (arith, in_text s i b e)

align_from_stops :
    (bs : Text) (p k b : ℕ) → get_elem? bs k ≡ some b → IsVisible b → align_from bs p ≤ p + k
unfolding align_from
align_from_stops [] p k b e v = ground arith
align_from_stops (x ∷ bs) p zero b e v = let here = same_elem b x e in ground (arith, here)
align_from_stops (x ∷ bs) p (suc k) b e v = ground (arith, align_from_stops bs (p + 1) k b e v)

align_stops :
    (content : Text) (p i b : ℕ)
    → get_elem? content i ≡ some b
    → IsVisible b
    → p ≤ i
    → align_rune_boundary content p ≤ i
unfolding align_rune_boundary
align_stops content p i b e v h =
    let found = get_elem?-drop p (i - p) i content (omega arith) ∙ e in
    omega (arith, align_from_stops (drop p content) p (i - p) b found v)

ideal_start_stops :
    (overlap_chars : ℕ) (content : Text) (start end i b : ℕ)
    → get_elem? content i ≡ some b
    → IsVisible b
    → end ≤ i
    → ideal_start overlap_chars content start end ≤ i
unfolding ideal_start
ideal_start_stops overlap_chars content start end i b e v h = ground (
  arith,
  align_stops content end i b e v h,
  align_stops content (end - overlap_chars) i b e v (omega arith),
)

out_of_fuel :
    (max_chars overlap_chars : ℕ) (content : Text) (start : ℕ) (rs : List (ℕ × ℕ))
    → ¬ (ideal_ranges zero max_chars overlap_chars content start ≡ some rs)
unfolding ideal_ranges
out_of_fuel max_chars overlap_chars content start rs e = ground arith

and_then-some :
    (r : ℕ × ℕ) (o : Option (List (ℕ × ℕ))) (rs : List (ℕ × ℕ))
    → and_then r o ≡ some rs
    → (later : List (ℕ × ℕ)) × (o ≡ some later) × (rs ≡ r ∷ later)
and_then-some r none rs e = absurd (ground arith)
and_then-some r (some later) rs e = (later, refl, ground arith)

pub ideal_ranges-Covered :
    (fuel max_chars overlap_chars : ℕ) (content : Text) (start i b : ℕ) (rs : List (ℕ × ℕ))
    → 1 ≤ max_chars
    → ideal_ranges fuel max_chars overlap_chars content start ≡ some rs
    → get_elem? content i ≡ some b
    → IsVisible b
    → start ≤ i
    → Covered i rs
ideal_ranges-Covered zero max_chars overlap_chars content start i b rs m e g v h =
    absurd (out_of_fuel max_chars overlap_chars content start rs e)
ideal_ranges-Covered (suc fuel) max_chars overlap_chars content start i b rs m e g v h =
    let within = in_text content i b g in
    let inside : ltb start (length content) ≡ true = ground arith in
    let end = ideal_end max_chars content start in
    let (after, limit) = ideal_end_bounds max_chars content start m (omega arith) in
    elim (Bool-cases (is_blank (slice content start end))) [
      | inl blank ↦ elim (Bool-cases (ltb i end)) [
        | inl here ↦ absurd (
            blank_invisible (slice content start end) (i - start) b blank
              (get_elem?-slice content start end i b g h (ground arith)) v)
        | inr later ↦
            ideal_ranges-Covered fuel max_chars overlap_chars content end i b rs m
              (sym (ranges_skip fuel max_chars overlap_chars content start inside blank) ∙ e) g v
              (ground arith)
      ]
      | inr text ↦
          let next = ideal_start overlap_chars content start end in
          let (rest, e', same_ranges) =
            and_then-some (start, end) (ideal_ranges fuel max_chars overlap_chars content next) rs
              (sym (ranges_take fuel max_chars overlap_chars content start inside text) ∙ e) in
          subst (Covered i) (sym same_ranges) (elim (Bool-cases (ltb i end)) [
            | inl here ↦ inl (h, ground arith)
            | inr later ↦ inr (
                ideal_ranges-Covered fuel max_chars overlap_chars content next i b rest m e' g v
                  (ideal_start_stops overlap_chars content start end i b g v (ground arith)))
          ])
    ]
