-- ===== src/Embedder/Batch/Building.antt =====
-- What a batch builder holds between two chunks (embedder/batch.go).
use mathlib.Core.List.{append_assoc, append-nil}
use grepai.Base.{
  ℕ, suc, ◌+◌, ◌≤◌, ◌≡◌, refl, sym, ap, ◌∙◌, subst, true, false, ◌⊎◌, inl, inr, List, [], ◌∷◌, ◌++◌,
  length, length-append, All, All-append, arith, if◌then◌else◌, Bool-cases,
}
use grepai.Embedder.Batch.{
  max_batch_tokens, estimate_tokens, BatchEntry, Batch, Builder, is_full, finalize_current, add,
  put, put_all,
}

abbrev pub concat_entries : List Batch → List BatchEntry
concat_entries [] = []
concat_entries (b ∷ bs) = b.entries ++ concat_entries bs

abbrev pub tokens_of : List BatchEntry → ℕ
tokens_of [] = 0
tokens_of (e ∷ es) = estimate_tokens e.content + tokens_of es

-- A batch within both limits; one chunk that is too long by itself makes a batch of its own.
abbrev pub WithinLimits : ℕ → Batch → Type 0
WithinLimits size b =
    (1 ≤ length b.entries)
    × (length b.entries ≤ size)
    × ((tokens_of b.entries ≤ max_batch_tokens) ⊎ (length b.entries ≡ 1))

-- Batches are numbered by their place.
abbrev pub NumberedFrom : ℕ → List Batch → Type 0
NumberedFrom n [] = Unit
NumberedFrom n (b ∷ bs) = (b.index ≡ n) × NumberedFrom (suc n) bs

pub concat_append :
    (bs : List Batch) (b : Batch) → concat_entries (bs ++ (b ∷ [])) ≡ concat_entries bs ++ b.entries
concat_append [] b = append-nil b.entries
concat_append (c ∷ bs) b =
    rw (concat_append bs b) (sym (append_assoc c.entries (concat_entries bs) b.entries))

tokens_append :
    (es : List BatchEntry) (e : BatchEntry)
    → tokens_of (es ++ (e ∷ [])) ≡ tokens_of es + estimate_tokens e.content
tokens_append [] e = omega arith
tokens_append (d ∷ es) e = omega (arith, tokens_append es e)

Numbered_append :
    (n : ℕ) (bs : List Batch) (b : Batch)
    → NumberedFrom n bs
    → b.index ≡ n + length bs
    → NumberedFrom n (bs ++ (b ∷ []))
Numbered_append n [] b h e = (omega arith, tt)
Numbered_append n (c ∷ bs) b h e = (h.0, Numbered_append (suc n) bs b h.1 (omega arith))

-- Between two chunks.
pub record IsSound (b : Builder) : Type 0 where
  pub positive : 1 ≤ b.max_size
  pub finished : All (WithinLimits b.max_size) b.batches
  pub numbered : NumberedFrom 0 b.batches
  pub next_index : b.current.index ≡ length b.batches
  pub tokens : b.current_tokens ≡ tokens_of b.current.entries
  pub size : length b.current.entries ≤ b.max_size
  pub budget : (tokens_of b.current.entries ≤ max_batch_tokens) ⊎ (length b.current.entries ≡ 1)

abbrev pub held : Builder → List BatchEntry
held b = concat_entries b.batches ++ b.current.entries

pub finalize-IsSound :
    (b : Builder) → IsSound b → 1 ≤ length b.current.entries → IsSound (finalize_current b)
unfolding finalize_current
finalize-IsSound b v h = record {
  positive = v.positive;
  finished =
      All-append (WithinLimits b.max_size) b.batches (b.current ∷ []) v.finished
        ((h, v.size, v.budget), tt);
  numbered = Numbered_append 0 b.batches b.current v.numbered (omega (arith, v.next_index));
  next_index = refl;
  tokens = refl;
  size = omega arith;
  budget = inl (omega arith);
}

-- One more chunk goes in where the batch is not full.
add-IsSound :
    (b : Builder) (e : BatchEntry)
    → IsSound b
    → is_full b (estimate_tokens e.content) ≡ false
    → IsSound (add b e (estimate_tokens e.content))
unfolding add is_full
add-IsSound b e v h = record {
  positive = v.positive;
  finished = v.finished;
  numbered = v.numbered;
  next_index = v.next_index;
  tokens = grind (arith, v.tokens, tokens_append b.current.entries e);
  size = ground (arith, v.size, length-append b.current.entries (e ∷ []));
  budget = ground (
    arith,
    v.tokens,
    tokens_append b.current.entries e,
    length-append b.current.entries (e ∷ []),
  );
}

finalized_fits :
    (b : Builder) (e : BatchEntry)
    → IsSound b
    → is_full (finalize_current b) (estimate_tokens e.content) ≡ false
unfolding finalize_current is_full
finalized_fits b e v = ground (arith, v.positive)

full_holds :
    (b : Builder) (e : BatchEntry)
    → IsSound b
    → is_full b (estimate_tokens e.content) ≡ true
    → 1 ≤ length b.current.entries
unfolding is_full
full_holds b e v h = ground (arith, v.positive)

pub put-IsSound : (b : Builder) (e : BatchEntry) → IsSound b → IsSound (put b e)
unfolding put
put-IsSound b e v = elim (Bool-cases (is_full b (estimate_tokens e.content))) [
  | inl h ↦
      subst (λ c. IsSound (add (if c then finalize_current b else b) e (estimate_tokens e.content)))
        (sym h)
        (add-IsSound (finalize_current b) e (finalize-IsSound b v (full_holds b e v h))
          (finalized_fits b e v))
  | inr h ↦
      subst (λ c. IsSound (add (if c then finalize_current b else b) e (estimate_tokens e.content)))
        (sym h) (add-IsSound b e v h)
]

add-held : (b : Builder) (e : BatchEntry) (t : ℕ) → held (add b e t) ≡ held b ++ (e ∷ [])
unfolding add
add-held b e t = sym (append_assoc (concat_entries b.batches) b.current.entries (e ∷ []))

finalize-held : (b : Builder) → held (finalize_current b) ≡ held b
unfolding finalize_current
finalize-held b =
    append-nil (concat_entries (b.batches ++ (b.current ∷ []))) ∙ concat_append b.batches b.current

put-held : (b : Builder) (e : BatchEntry) → held (put b e) ≡ held b ++ (e ∷ [])
unfolding put
put-held b e =
    elim (is_full b (estimate_tokens e.content))
      as (λ c.
        held (add (if c then finalize_current b else b) e (estimate_tokens e.content))
        ≡ held b ++ (e ∷ [])) [
          | true ↦
              add-held (finalize_current b) e (estimate_tokens e.content)
              ∙ ap (λ es. es ++ (e ∷ [])) (finalize-held b)
          | false ↦ add-held b e (estimate_tokens e.content)
        ]

pub put_all-held : (b : Builder) (es : List BatchEntry) → held (put_all b es) ≡ held b ++ es
unfolding put_all
put_all-held b [] = sym (append-nil (held b))
put_all-held b (e ∷ es) =
    put_all-held (put b e) es ∙ ap (λ h. h ++ es) (put-held b e) ∙ append_assoc (held b) (e ∷ []) es

pub put_all-IsSound : (b : Builder) (es : List BatchEntry) → IsSound b → IsSound (put_all b es)
unfolding put_all
put_all-IsSound b [] v = v
put_all-IsSound b (e ∷ es) v = put_all-IsSound (put b e) es (put-IsSound b e v)

put-max_size : (b : Builder) (e : BatchEntry) → (put b e).max_size ≡ b.max_size
unfolding put finalize_current add
put-max_size b e =
    elim (is_full b (estimate_tokens e.content))
      as (λ c. (if c then finalize_current b else b).max_size ≡ b.max_size) [
        | true ↦ refl
        | false ↦ refl
      ]

pub put_all-max_size : (b : Builder) (es : List BatchEntry) → (put_all b es).max_size ≡ b.max_size
unfolding put_all
put_all-max_size b [] = refl
put_all-max_size b (e ∷ es) = put_all-max_size (put b e) es ∙ put-max_size b e
