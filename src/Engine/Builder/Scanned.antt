-- ===== src/Engine/Builder/Scanned.antt =====
-- The scan of a file's chunks (internal/enginev2/artifacts/builder.go).
use grepai.Base.{
  ℕ, ◌+◌, true, false, List, [], ◌∷◌, Option, none, some, ◌==◌, ◌≡◌, ◌⊎◌, refl, sym, subst, ap, ◌∙◌,
  Bool-cases, inl, inr, length, arith,
}
use grepai.Base.Text.{Text}
use grepai.Core.Identity.{chunk_id}
use grepai.Catalog.Tables.{Database}
use grepai.Catalog.Tx.{Faults, Result, ok, err, read}
use grepai.Catalog.Artifacts.{get_chunk_vector, stored_vector}
use grepai.Indexer.Chunker.{ChunkInfo}
use grepai.Engine.Builder.{
  Misses, index_of, Slot, filled, pending, Scan, scanned, cache_failed, bad_vector, add_slot,
  chunk_of, note_miss, scan,
}
use grepai.Engine.Builder.Notes.{
  IsIndex, note_miss-IsIndex, Extends, note_miss-Extends, note_miss_found,
}
use grepai.Engine.Builder.Slots.{SlotsOf}

added :
    (s : Slot) (sc : Scan) (slots : List Slot) (m : Misses) (n : ℕ)
    → add_slot s sc ≡ scanned slots m n
    → (rest : List Slot) × (sc ≡ scanned rest m n) × (slots ≡ s ∷ rest)
added s (scanned rest m' n') slots m n e = (rest, ground (arith, e), ground (arith, e))
added s (cache_failed c) slots m n e = absurd (cc)
added s (bad_vector c) slots m n e = absurd (cc)

nothing_scanned :
    (m m' : Misses) (n n' : ℕ) (slots : List Slot)
    → scanned [] m n ≡ scanned slots m' n'
    → (slots ≡ []) × (m ≡ m')
nothing_scanned m m' n n' slots e = (ground (arith, e), ground (arith, e))

found_result :
    (id : Text) (fault : Faults) (n : ℕ) (db : Database) (o : Option (List ℕ))
    → (get_chunk_vector id fault n db).result ≡ ok o
    → stored_vector id db ≡ ok o
unfolding get_chunk_vector read
found_result id fault n db o e = ground (arith, e)

body_cases :
    (dims c i : ℕ) (id : Text) (info : ChunkInfo) (r : Result (Option (List ℕ))) (hit miss : Scan)
    (slots : List Slot) (m : Misses) (n : ℕ)
    → (elim r as (λ _. Scan) [
      | err e ↦ cache_failed c
      | ok (some vec) ↦ elim (length vec == dims) as (λ _. Scan) [
        | false ↦ bad_vector c
        | true ↦ add_slot (filled (chunk_of i id vec info)) hit
      ]
      | ok none ↦ add_slot (pending i id info) miss
    ])
      ≡ scanned slots m n
    → ((vec : List ℕ) × (r ≡ ok (some vec))
        × (length vec ≡ dims)
        × (add_slot (filled (chunk_of i id vec info)) hit ≡ scanned slots m n))
      ⊎ (add_slot (pending i id info) miss ≡ scanned slots m n)
body_cases dims c i id info (err e) hit miss slots m n h = absurd (cc)
body_cases dims c i id info (ok none) hit miss slots m n h = inr h
body_cases dims c i id info (ok (some vec)) hit miss slots m n h =
    elim (Bool-cases (length vec == dims)) [
      | inl fits ↦ inl (
        vec,
        refl,
        ground (arith, fits),
        ap
              (λ b. elim b as (λ _. Scan) [
                | false ↦ bad_vector c
                | true ↦ add_slot (filled (chunk_of i id vec info)) hit
              ])
              (sym fits)
            ∙ h,
      )
      | inr odd ↦
          let bad =
            ap
              (λ b. elim b as (λ _. Scan) [
                | false ↦ bad_vector c
                | true ↦ add_slot (filled (chunk_of i id vec info)) hit
              ])
              (sym odd)
            ∙ h in
          absurd (cc)
    ]

module _ (sha256_hex : Text → Text) (fault : Faults) (dims : ℕ)
    (embed_batch : List Text → Option (List (List ℕ))) (chunker : Text → Text → List ChunkInfo)
    (embed : Text → List ℕ) (db : Database) (fp : Text) where
  pub scan-SlotsOf :
      (infos : List ChunkInfo) (i : ℕ) (m m' : Misses) (n n' : ℕ) (slots : List Slot)
      → scan sha256_hex fault dims embed_batch chunker db fp infos i m n ≡ scanned slots m' n'
      → IsIndex sha256_hex fp m
      → IsIndex sha256_hex fp m'
        × Extends m m'
        × SlotsOf sha256_hex dims embed db fp m' i infos slots
  unfolding scan
  scan-SlotsOf [] i m m' n n' slots e good =
      let (no_slots, same_misses) = nothing_scanned m m' n n' slots e in
      (
        subst (IsIndex sha256_hex fp) same_misses good,
        λ id k f. ap (λ (x : Misses). index_of id x.by_id) (sym same_misses) ∙ f,
        subst (SlotsOf sha256_hex dims embed db fp m' i []) (sym no_slots) tt,
      )
  scan-SlotsOf (info ∷ infos) i m m' n n' slots e good =
      let id = chunk_id sha256_hex fp info.embed_content in
      let got = get_chunk_vector id fault n db in
      let hit = scan sha256_hex fault dims embed_batch chunker db fp infos (i + 1) m got.clock in
      let noted_m = note_miss id info.embed_content m in
      let miss =
        scan sha256_hex fault dims embed_batch chunker db fp infos (i + 1) noted_m got.clock in
      elim (body_cases dims got.clock i id info got.result hit miss slots m' n' e) [
        | inl (vec, found, fits, rest_eq) ↦
            let (rest, scanned_rest, slots_eq) =
              added (filled (chunk_of i id vec info)) hit slots m' n' rest_eq in
            let (index, more, later) =
              scan-SlotsOf infos (i + 1) m m' got.clock n' rest scanned_rest good in
            (
              index,
              more,
              subst (SlotsOf sha256_hex dims embed db fp m' i (info ∷ infos)) (sym slots_eq) (
                (
                  refl,
                  refl,
                  refl,
                  refl,
                  refl,
                  fits,
                  inl (found_result id fault n db (some vec) found),
                ),
                later,
              ),
            )
        | inr rest_eq ↦
            let (rest, scanned_rest, slots_eq) =
              added (pending i id info) miss slots m' n' rest_eq in
            let (index, more, later) =
              scan-SlotsOf infos (i + 1) noted_m m' got.clock n' rest scanned_rest
                (note_miss-IsIndex sha256_hex fp info.embed_content m good) in
            let (k, noted_at) = note_miss_found id info.embed_content m in
            (
              index,
              λ j k' e'. more j k' (note_miss-Extends id info.embed_content m j k' e'),
              subst (SlotsOf sha256_hex dims embed db fp m' i (info ∷ infos)) (sym slots_eq)
                  ((refl, refl, refl, (k, more id k noted_at)), later),
            )
      ]
