-- ===== src/Trace/View/Target.antt =====
-- Which of several symbols of a name is the target (internal/enginev2/traceview/traceview.go).
use grepai.Base.{
  ℕ, ◌≤◌, List, [], ◌∷◌, some, ◌≡◌, refl, sym, ap, ◌∙◌, ◌⊎◌, inl, inr, arith, All, All-imp,
  if◌then◌else◌, if_split, ltb, ◌==◌, subst, some_inj, ltb→lt, not_ltb→le,
}
use grepai.Catalog.Reads.{sort_by, insert_by}
use grepai.Trace.Store.{Symbol, Reference}
use grepai.Trace.View.{own_file_score, best_of, comes_before, first_or, pick_best_target_symbol}

abbrev pub Among : Symbol → List Symbol → Type 0
Among s [] = ⊥
Among s (x ∷ xs) = (s ≡ x) ⊎ Among s xs

abbrev pub ScoresAtMost : List Reference → ℕ → List Symbol → Type 0
ScoresAtMost refs n = All (λ s. own_file_score s refs ≤ n)

-- What the loop has kept: a symbol it has seen, of the highest score.
record Best (refs : List Reference) (ss : List Symbol) (best : Symbol) (score : ℕ) (r : Symbol × ℕ)
    : Type 0 where
  own : own_file_score r.0 refs ≡ r.1
  beats : score ≤ r.1
  highest : ScoresAtMost refs r.1 ss
  seen : (r.0 ≡ best) ⊎ Among r.0 ss

best_of-Best :
    (refs : List Reference) (ss : List Symbol) (best : Symbol) (score : ℕ)
    → own_file_score best refs ≡ score
    → Best refs ss best score (best_of refs ss best score)
unfolding best_of
best_of-Best refs [] best score e = record {
  own = e;
  beats = omega arith;
  highest = tt;
  seen = inl refl;
}
best_of-Best refs (s ∷ ss) best score e =
    if_split (Best refs (s ∷ ss) best score) (ltb score (own_file_score s refs))
      (best_of refs ss s (own_file_score s refs)) (best_of refs ss best score)
      (λ higher.
        let b = best_of-Best refs ss s (own_file_score s refs) refl in
        let more = ltb→lt score (own_file_score s refs) higher in
        let kept = b.beats in
        record {
          own = b.own;
          beats = omega arith;
          highest = (kept, b.highest);
          seen = elim b.seen [ inl h ↦ inr (inl h) | inr h ↦ inr (inr h) ];
        })
      (λ lower.
        let b = best_of-Best refs ss best score e in
        let less = not_ltb→le score (own_file_score s refs) lower in
        let kept = b.beats in
        record {
          own = b.own;
          beats = kept;
          highest = (omega arith, b.highest);
          seen = elim b.seen [ inl h ↦ inl h | inr h ↦ inr (inr h) ];
        })

-- Insertion into a sorted list puts the symbol, or the first of the list, first.
first_insert :
    (s d : Symbol) (l : List Symbol)
    → (first_or d (insert_by comes_before s l) ≡ s)
      ⊎ ((x : Symbol) × (xs : List Symbol) × (l ≡ x ∷ xs)
          × (first_or d (insert_by comes_before s l) ≡ x))
unfolding insert_by
first_insert s d [] = inl refl
first_insert s d (x ∷ xs) =
    if_split
      (λ r.
        (first_or d r ≡ s)
        ⊎ ((y : Symbol) × (ys : List Symbol) × (x ∷ xs ≡ y ∷ ys) × (first_or d r ≡ y)))
      (comes_before x s) (x ∷ insert_by comes_before s xs) (s ∷ x ∷ xs)
      (λ _. inr (x, xs, refl, refl)) (λ _. inl refl)

first_sorted :
    (s d : Symbol) (l : List Symbol) → Among (first_or d (sort_by comes_before (s ∷ l))) (s ∷ l)
unfolding sort_by insert_by
first_sorted s d [] = inl refl
first_sorted s d (t ∷ l) = elim (first_insert s d (sort_by comes_before (t ∷ l))) [
  | inl e ↦ inl e
  | inr (x, xs, e, h) ↦
      let first = first_sorted t d l in
      inr (subst (λ y. Among y (t ∷ l)) (ap (first_or d) e ∙ sym h) first)
]

pick_one :
    (refs : List Reference) (s t : Symbol) (ss : List Symbol) (r : Symbol × ℕ)
    → Best refs (t ∷ ss) s (own_file_score s refs) r
    → let p = if r.1 == 0 then first_or s (sort_by comes_before (s ∷ t ∷ ss)) else r.0 in
      Among p (s ∷ t ∷ ss) × ScoresAtMost refs (own_file_score p refs) (s ∷ t ∷ ss)
pick_one refs s t ss r b =
    let beats = b.beats in
    if_split (λ p. Among p (s ∷ t ∷ ss) × ScoresAtMost refs (own_file_score p refs) (s ∷ t ∷ ss))
      (r.1 == 0) (first_or s (sort_by comes_before (s ∷ t ∷ ss))) r.0
      (λ none_own.
        let nothing : r.1 ≡ 0 = ground arith in
        (
          first_sorted s s (t ∷ ss),
          All-imp (λ x. own_file_score x refs ≤ r.1) _ (s ∷ t ∷ ss)
              (λ x h. omega (arith, h, nothing)) (beats, b.highest),
        ))
      (λ some_own. (
        b.seen,
        All-imp (λ x. own_file_score x refs ≤ r.1) _ (s ∷ t ∷ ss) (λ x h. omega (arith, h, b.own))
            (beats, b.highest),
      ))

-- The target that is picked is one of the candidates, and no candidate is referred to more often from its own
-- file.
pub pick_best_target_symbol_lem :
    (candidates : List Symbol) (refs : List Reference) (s : Symbol)
    → pick_best_target_symbol candidates refs ≡ some s
    → Among s candidates × ScoresAtMost refs (own_file_score s refs) candidates
unfolding pick_best_target_symbol
pick_best_target_symbol_lem [] refs s h = ground arith
pick_best_target_symbol_lem (c ∷ []) refs s h =
    subst (λ x. Among x (c ∷ []) × ScoresAtMost refs (own_file_score x refs) (c ∷ [])) (some_inj h)
      (inl refl, (omega arith, tt))
pick_best_target_symbol_lem (c ∷ d ∷ cs) refs s h =
    subst (λ x. Among x (c ∷ d ∷ cs) × ScoresAtMost refs (own_file_score x refs) (c ∷ d ∷ cs))
      (some_inj h)
      (pick_one refs c d cs (best_of refs (d ∷ cs) c (own_file_score c refs))
        (best_of-Best refs (d ∷ cs) c (own_file_score c refs) refl))
