-- ===== src/Engine/Builder/Notes.antt =====
-- The texts to embed and their index by chunk id (internal/enginev2/artifacts/builder.go).
use grepai.Base.{
  ℕ, zero, suc, List, [], ◌∷◌, ◌++◌, none, some, some_inj, if◌then◌else◌, ◌≡◌, refl, sym, subst, ap,
  ◌∙◌, Bool-cases, Option-cases, inl, inr, length, get_elem?,
}
use grepai.Base.Text.{Text, same, same→eq, same_self}
use grepai.Core.Identity.{chunk_id}
use grepai.Engine.Builder.{Misses, index_of, noted, note_miss}

get_elem?-append_last :
    (ts : List Text) (t : Text) → get_elem? (ts ++ (t ∷ [])) (length ts) ≡ some t
get_elem?-append_last [] t = refl
get_elem?-append_last (u ∷ ts) t = get_elem?-append_last ts t

get_elem?-append :
    (ts us : List Text) (k : ℕ) (t : Text)
    → get_elem? ts k ≡ some t
    → get_elem? (ts ++ us) k ≡ some t
get_elem?-append [] us k t e = absurd (cc)
get_elem?-append (u ∷ ts) us zero t e = e
get_elem?-append (u ∷ ts) us (suc k) t e = get_elem?-append ts us k t e

module _ (sha256_hex : Text → Text) (fp : Text) where
  -- Every index is that of a text with the chunk id.
  abbrev pub IsIndex : Misses → Type 0
  IsIndex m =
      (id : Text) (k : ℕ)
      → index_of id m.by_id ≡ some k
      → (t : Text) × (get_elem? m.texts k ≡ some t) × (chunk_id sha256_hex fp t ≡ id)

  noted-IsIndex :
      (text : Text) (m : Misses)
      → IsIndex m
      → IsIndex (noted (chunk_id sha256_hex fp text) text m none)
  unfolding index_of
  noted-IsIndex text m good id k e =
      let new = chunk_id sha256_hex fp text in
      elim (Bool-cases (same new id)) [
        | inl here ↦
            let at_end : length m.texts ≡ k =
              some_inj (
                ap (λ b. if b then some (length m.texts) else index_of id m.by_id) (sym here)
                ∙ e) in
            (
              text,
              subst (λ j. get_elem? (m.texts ++ (text ∷ [])) j ≡ some text) at_end
                  (get_elem?-append_last m.texts text),
              same→eq new id here,
            )
        | inr other ↦
            let old =
              ap (λ b. if b then some (length m.texts) else index_of id m.by_id) (sym other) ∙ e in
            let (t, found, same_id) = good id k old in
            (t, get_elem?-append m.texts (text ∷ []) k t found, same_id)
      ]

  pub note_miss-IsIndex :
      (text : Text) (m : Misses)
      → IsIndex m
      → IsIndex (note_miss (chunk_id sha256_hex fp text) text m)
  unfolding note_miss
  note_miss-IsIndex text m good =
      let new = chunk_id sha256_hex fp text in
      elim (Option-cases (index_of new m.by_id)) [
        | inl nothing ↦
            subst (λ o. IsIndex (noted new text m o)) (sym nothing) (noted-IsIndex text m good)
        | inr (k, found) ↦ subst (λ o. IsIndex (noted new text m o)) (sym found) good
      ]

-- What one index finds, the other finds too.
abbrev pub Extends : Misses → Misses → Type 0
Extends m m' = (id : Text) (k : ℕ) → index_of id m.by_id ≡ some k → index_of id m'.by_id ≡ some k

noted-Extends :
    (id text : Text) (m : Misses) → index_of id m.by_id ≡ none → Extends m (noted id text m none)
unfolding index_of
noted-Extends id text m nothing i k e = elim (Bool-cases (same id i)) [
  | inl here ↦
      let clash = sym nothing ∙ ap (λ x. index_of x m.by_id) (same→eq id i here) ∙ e in absurd (cc)
  | inr other ↦ ap (λ b. if b then some (length m.texts) else index_of i m.by_id) other ∙ e
]

pub note_miss-Extends : (id text : Text) (m : Misses) → Extends m (note_miss id text m)
unfolding note_miss
note_miss-Extends id text m = elim (Option-cases (index_of id m.by_id)) [
  | inl nothing ↦
      subst (λ o. Extends m (noted id text m o)) (sym nothing) (noted-Extends id text m nothing)
  | inr (k, found) ↦ subst (λ o. Extends m (noted id text m o)) (sym found) (λ i j e. e)
]

pub note_miss_found :
    (id text : Text) (m : Misses) → (k : ℕ) × (index_of id (note_miss id text m).by_id ≡ some k)
unfolding note_miss index_of
note_miss_found id text m = elim (Option-cases (index_of id m.by_id)) [
  | inl nothing ↦
      subst (λ o. (k : ℕ) × (index_of id (noted id text m o).by_id ≡ some k)) (sym nothing)
        (
          length m.texts,
          ap (λ b. if b then some (length m.texts) else index_of id m.by_id) (same_self id),
        )
  | inr (k, found) ↦
      subst (λ o. (k : ℕ) × (index_of id (noted id text m o).by_id ≡ some k)) (sym found) (k, found)
]
