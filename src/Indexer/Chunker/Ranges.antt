-- ===== src/Indexer/Chunker/Ranges.antt =====
-- The chunker's loop ends, and its ranges lie in the text (indexer/chunker.go).
use grepai.Base.{
  ℕ, zero, suc, ◌-◌, ◌<◌, ◌≤◌, ◌≡◌, ap, ◌∙◌, inl, inr, true, false, List, [], ◌∷◌, some, ltb,
  length, All, Bool-cases, arith,
}
use grepai.Base.Text.{Text}
use grepai.Indexer.Chunker.{slice, is_blank, and_then}
use grepai.Indexer.Chunker.Ideal.{ideal_ranges, ideal_end, ideal_start}
use grepai.Indexer.Chunker.Progress.{ideal_end_bounds, ideal_start_bounds}

-- A range of the text that is not empty.
abbrev pub InText : Text → ℕ × ℕ → Type 0
InText content (start, end) = (start < end) × (end ≤ length content)

-- Each chunk starts after the one before it.
abbrev pub StartsFrom : ℕ → List (ℕ × ℕ) → Type 0
StartsFrom p [] = Unit
StartsFrom p ((start, end) ∷ rs) = (p ≤ start) × StartsFrom (suc start) rs

weaken_start : (p q : ℕ) (rs : List (ℕ × ℕ)) → p ≤ q → StartsFrom q rs → StartsFrom p rs
weaken_start p q [] h s = tt
weaken_start p q ((start, end) ∷ rs) h s = (omega (arith, s.0), s.1)

module _ (fuel max_chars overlap_chars : ℕ) (content : Text) (start : ℕ) where
  pub ranges_stop :
      ltb start (length content) ≡ false
      → ideal_ranges (suc fuel) max_chars overlap_chars content start ≡ some []
  unfolding ideal_ranges
  ranges_stop past = ground arith

  pub ranges_skip :
      ltb start (length content) ≡ true
      → is_blank (slice content start (ideal_end max_chars content start)) ≡ true
      → ideal_ranges (suc fuel) max_chars overlap_chars content start
        ≡ ideal_ranges fuel max_chars overlap_chars content (ideal_end max_chars content start)
  unfolding ideal_ranges
  ranges_skip inside blank = ground arith

  pub ranges_take :
      ltb start (length content) ≡ true
      → is_blank (slice content start (ideal_end max_chars content start)) ≡ false
      → ideal_ranges (suc fuel) max_chars overlap_chars content start
        ≡ and_then
            (start, ideal_end max_chars content start)
            (ideal_ranges fuel max_chars overlap_chars content
              (ideal_start overlap_chars content start (ideal_end max_chars content start)))
  unfolding ideal_ranges
  ranges_take inside text = ground arith

pub ideal_ranges_total :
    (fuel max_chars overlap_chars : ℕ) (content : Text) (start : ℕ)
    → 1 ≤ max_chars
    → length content - start < fuel
    → (rs : List (ℕ × ℕ)) × (ideal_ranges fuel max_chars overlap_chars content start ≡ some rs)
      × All (InText content) rs
      × StartsFrom start rs
ideal_ranges_total zero max_chars overlap_chars content start h f = absurd (omega arith)
ideal_ranges_total (suc fuel) max_chars overlap_chars content start h f =
    elim (Bool-cases (ltb start (length content))) [
      | inr past ↦ ([], ranges_stop fuel max_chars overlap_chars content start past, tt, tt)
      | inl inside ↦
          let end = ideal_end max_chars content start in
          let (after, within) = ideal_end_bounds max_chars content start h (ground arith) in
          elim (Bool-cases (is_blank (slice content start end))) [
            | inl blank ↦
                let (rs, e, good, ordered) =
                  ideal_ranges_total fuel max_chars overlap_chars content end h (omega arith) in
                (
                  rs,
                  ranges_skip fuel max_chars overlap_chars content start inside blank ∙ e,
                  good,
                  weaken_start start end rs (omega arith) ordered,
                )
            | inr text ↦
                let next = ideal_start overlap_chars content start end in
                let (forward, inner) =
                  ideal_start_bounds overlap_chars content start end after within in
                let (rs, e, good, ordered) =
                  ideal_ranges_total fuel max_chars overlap_chars content next h (omega arith) in
                (
                  (start, end) ∷ rs,
                  ranges_take fuel max_chars overlap_chars content start inside text
                      ∙ ap (and_then (start, end)) e,
                  ((after, within), good),
                  (omega arith, weaken_start (suc start) next rs forward ordered),
                )
          ]
    ]
