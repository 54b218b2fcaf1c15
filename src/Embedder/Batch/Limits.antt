-- ===== src/Embedder/Batch/Limits.antt =====
-- What the batches hold (embedder/batch.go).
use mathlib.Core.List.{append-nil}
use grepai.Base.{
  ℕ, ◌≤◌, ◌≡◌, refl, sym, ap, ap₂, ◌∙◌, subst, true, false, inl, inr, List, [], ◌∷◌, ◌++◌, length,
  All, arith, if◌then◌else◌, Bool-cases, ltb, ◌==◌, zero, suc, ◌+◌, ◌⊎◌,
}
use grepai.Base.Int.{ℤ, pos, negsuc, ◌≤ℤ◌}
use grepai.Base.Text.{Text}
use grepai.Embedder.Batch.{
  BatchEntry, Batch, FileChunks, Builder, new_builder, finalize_current, build, put_all,
  entries_from, all_entries, count_total_chunks, size_cap, form_batches_with_size, max_batch_size,
}
use grepai.Embedder.Batch.Building.{
  concat_entries, WithinLimits, NumberedFrom, concat_append, IsSound, held, finalize-IsSound,
  put_all-held, put_all-IsSound, put_all-max_size,
}

nothing : (es : List BatchEntry) → length es ≡ 0 → es ≡ []
nothing [] h = refl
nothing (e ∷ es) h = ground arith

build-held : (b : Builder) → concat_entries (build b) ≡ held b
unfolding build
build-held b = elim (Bool-cases (ltb 0 (length b.current.entries))) [
  | inl h ↦
      ap (λ c. concat_entries (if c then b.batches ++ (b.current ∷ []) else b.batches)) h
      ∙ concat_append b.batches b.current
  | inr h ↦
      ap (λ c. concat_entries (if c then b.batches ++ (b.current ∷ []) else b.batches)) h
      ∙ sym (append-nil (concat_entries b.batches))
      ∙ ap (λ es. concat_entries b.batches ++ es) (sym (nothing b.current.entries (ground arith)))
]

build-limits :
    (b : Builder) → IsSound b → All (WithinLimits b.max_size) (build b) × NumberedFrom 0 (build b)
unfolding build finalize_current
build-limits b v = elim (Bool-cases (ltb 0 (length b.current.entries))) [
  | inl h ↦
      subst
        (λ c.
          All (WithinLimits b.max_size) (if c then b.batches ++ (b.current ∷ []) else b.batches)
          × NumberedFrom 0 (if c then b.batches ++ (b.current ∷ []) else b.batches))
        (sym h)
        (
          (finalize-IsSound b v (ground arith)).finished,
          (finalize-IsSound b v (ground arith)).numbered,
        )
  | inr h ↦
      subst
        (λ c.
          All (WithinLimits b.max_size) (if c then b.batches ++ (b.current ∷ []) else b.batches)
          × NumberedFrom 0 (if c then b.batches ++ (b.current ∷ []) else b.batches))
        (sym h) (v.finished, v.numbered)
]

size_cap_positive : (n : ℤ) → 1 ≤ size_cap n
unfolding size_cap
size_cap_positive (pos n) = ground arith
size_cap_positive (negsuc n) = omega arith

new-IsSound : (n : ℕ) → 1 ≤ n → IsSound (new_builder n)
unfolding new_builder
new-IsSound n h = record {
  positive = h;
  finished = tt;
  numbered = tt;
  next_index = refl;
  tokens = refl;
  size = omega arith;
  budget = inl (omega arith);
}

entries_from_none : (file k : ℕ) (cs : List Text) → length cs ≡ 0 → entries_from file k cs ≡ []
unfolding entries_from
entries_from_none file k [] h = refl
entries_from_none file k (c ∷ cs) h = ground arith

no_chunks : (files : List FileChunks) → count_total_chunks files ≡ 0 → all_entries files ≡ []
unfolding count_total_chunks all_entries
no_chunks [] h = refl
no_chunks (f ∷ fs) h =
    ap₂ (λ a b. a ++ b) (entries_from_none f.file_index 0 f.chunks (omega (arith, h)))
      (no_chunks fs (omega (arith, h)))

abbrev built : List FileChunks → ℤ → List Batch
built files max_size = build (put_all (new_builder (size_cap max_size)) (all_entries files))

-- Whatever size cap is asked for, the batches hold every chunk of every file, with its file and
-- chunk index, exactly once, in the order of the files and of the chunks in them.
pub form_batches_lossless :
    (files : List FileChunks) (max_size : ℤ)
    → concat_entries (form_batches_with_size files max_size) ≡ all_entries files
unfolding form_batches_with_size new_builder
form_batches_lossless files max_size = elim (Bool-cases (count_total_chunks files == 0)) [
  | inl h ↦
      ap concat_entries (ap (λ c. if c then [] else built files max_size) h)
      ∙ sym (no_chunks files (ground arith))
  | inr h ↦
      ap concat_entries (ap (λ c. if c then [] else built files max_size) h)
      ∙ build-held (put_all (new_builder (size_cap max_size)) (all_entries files))
      ∙ put_all-held (new_builder (size_cap max_size)) (all_entries files)
]

sized_batches :
    (files : List FileChunks) (max_size : ℤ)
    → All (WithinLimits (size_cap max_size)) (form_batches_with_size files max_size)
      × NumberedFrom 0 (form_batches_with_size files max_size)
unfolding form_batches_with_size new_builder
sized_batches files max_size =
    elim (count_total_chunks files == 0)
      as (λ c.
        All (WithinLimits (size_cap max_size)) (if c then [] else built files max_size)
        × NumberedFrom 0 (if c then [] else built files max_size)) [
          | true ↦ (tt, tt)
          | false ↦
              subst
                (λ m.
                  All (WithinLimits m) (built files max_size)
                  × NumberedFrom 0 (built files max_size))
                (put_all-max_size (new_builder (size_cap max_size)) (all_entries files))
                (build-limits (put_all (new_builder (size_cap max_size)) (all_entries files)) (
                  put_all-IsSound (new_builder (size_cap max_size)) (all_entries files)
                    (new-IsSound (size_cap max_size) (size_cap_positive max_size))))
        ]

-- The cap for the size asked for: that size, or the default where it is not positive or too large.
abbrev pub IsCap : ℤ → ℕ → Type 0
IsCap asked cap =
    ((asked ≡ pos cap) × (1 ≤ cap) × (cap ≤ max_batch_size))
    ⊎ (((asked ≤ℤ pos 0) ⊎ (pos (max_batch_size + 1) ≤ℤ asked)) × (cap ≡ max_batch_size))

size_cap-IsCap : (asked : ℤ) → IsCap asked (size_cap asked)
unfolding size_cap
size_cap-IsCap (negsuc n) = inr (inl (omega arith), refl)
size_cap-IsCap (pos zero) = inr (inl (omega arith), refl)
size_cap-IsCap (pos (suc n)) = elim (Bool-cases (ltb max_batch_size (suc n))) [
  | inl k ↦ inr (inr (ground (arith, k)), ground (arith, k))
  | inr k ↦
      let same_size : size_cap (pos (suc n)) ≡ suc n = ground (arith, k) in
      inl (ap pos (sym same_size), omega (arith, same_size), ground (arith, k, same_size))
]

-- Whatever size cap is asked for, each batch is not empty, holds at most as many chunks as the cap
-- (the size that is asked for, or 2000 where that is not positive or is more than 2000), and stays
-- within the token budget unless it is a single chunk; batches are numbered from 0 in their order.
pub form_batches-WithinLimits :
    (files : List FileChunks) (max_size : ℤ)
    → (cap : ℕ) × IsCap max_size cap
      × All (WithinLimits cap) (form_batches_with_size files max_size)
      × NumberedFrom 0 (form_batches_with_size files max_size)
form_batches-WithinLimits files max_size =
    let (within, numbered) = sized_batches files max_size in
    (size_cap max_size, size_cap-IsCap max_size, within, numbered)
