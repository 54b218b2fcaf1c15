-- ===== src/Engine/Builder/Slots.antt =====
-- What a slot of the artifact holds, and what it is filled with (internal/enginev2/artifacts/builder.go).
use grepai.Base.{
  ℕ, zero, suc, ◌+◌, true, List, [], ◌∷◌, some, some_inj, map, ◌==◌, ◌≡◌, ◌⊎◌, sym, ap, ◌∙◌,
  and_true, ==_iff, inr, length, get_elem?, arith,
}
use grepai.Base.Text.{Text}
use grepai.Core.Identity.{chunk_id}
use grepai.Core.Job.{ArtifactChunk}
use grepai.Catalog.Tables.{Database}
use grepai.Catalog.Tx.{ok}
use grepai.Catalog.Artifacts.{stored_vector}
use grepai.Indexer.Chunker.{ChunkInfo}
use grepai.Engine.Builder.{
  Misses, index_of, Slot, filled, pending, index_or_zero, vector_or_nil, fill, fill_all,
  all_of_length,
}
use grepai.Engine.Builder.Notes.{IsIndex}

no_text : (ts : List Text) (k : ℕ) (t : Text) → length ts ≡ 0 → ¬ (get_elem? ts k ≡ some t)
no_text [] k t h e = cc
no_text (u ∷ ts) k t h e = omega (arith, h)

module _ (sha256_hex : Text → Text) (dims : ℕ) (embed : Text → List ℕ) (db : Database)
    (fp : Text) where
  -- A chunk of the artifact is the one of its place: its id, content and lines are, its vector has the
  -- embedder's dimensions, and that vector is stored under the id or embeds a text with the id.
  abbrev pub IsChunkOf : ℕ → ChunkInfo → ArtifactChunk → Type 0
  IsChunkOf i info ch =
      (ch.ordinal ≡ i)
      × (ch.chunk_id ≡ chunk_id sha256_hex fp info.embed_content)
      × (ch.content ≡ info.content)
      × (ch.start_line ≡ info.start_line)
      × (ch.end_line ≡ info.end_line)
      × (length ch.vector ≡ dims)
      × ((stored_vector ch.chunk_id db ≡ ok (some ch.vector))
          ⊎ ((t : Text) × (chunk_id sha256_hex fp t ≡ ch.chunk_id) × (ch.vector ≡ embed t)))

  abbrev pub AreChunksOf : ℕ → List ChunkInfo → List ArtifactChunk → Type 0
  AreChunksOf i [] [] = Unit
  AreChunksOf i [] (ch ∷ chs) = ⊥
  AreChunksOf i (info ∷ infos) [] = ⊥
  AreChunksOf i (info ∷ infos) (ch ∷ chs) = IsChunkOf i info ch × AreChunksOf (i + 1) infos chs

  abbrev pub SlotOf : Misses → ℕ → ChunkInfo → Slot → Type 0
  SlotOf m i info (filled ch) = IsChunkOf i info ch
  SlotOf m i info (pending ordinal id info') =
      (ordinal ≡ i)
      × (id ≡ chunk_id sha256_hex fp info.embed_content)
      × (info' ≡ info)
      × ((k : ℕ) × (index_of id m.by_id ≡ some k))

  abbrev pub SlotsOf : Misses → ℕ → List ChunkInfo → List Slot → Type 0
  SlotsOf m i [] [] = Unit
  SlotsOf m i [] (s ∷ slots) = ⊥
  SlotsOf m i (info ∷ infos) [] = ⊥
  SlotsOf m i (info ∷ infos) (s ∷ slots) = SlotOf m i info s × SlotsOf m (i + 1) infos slots

  -- The embedder is aligned with its input: the vector at an index embeds the text at that index.
  get_elem?-map :
      (ts : List Text) (k : ℕ) (t : Text)
      → get_elem? ts k ≡ some t
      → get_elem? (map embed ts) k ≡ some (embed t)
  get_elem?-map [] k t e = absurd (cc)
  get_elem?-map (u ∷ ts) zero t e = ap (λ x. some (embed x)) (some_inj e)
  get_elem?-map (u ∷ ts) (suc k) t e = get_elem?-map ts k t e

  of_length :
      (vecs : List (List ℕ)) (k : ℕ) (v : List ℕ)
      → all_of_length dims vecs ≡ true
      → get_elem? vecs k ≡ some v
      → length v ≡ dims
  unfolding all_of_length
  of_length [] k v h e = absurd (cc)
  of_length (u ∷ vecs) zero v h e =
      let fits = (and_true (length u == dims) (all_of_length dims vecs) h).0 in
      ap length (sym (some_inj e)) ∙ (==_iff (length u) dims).0 fits
  of_length (u ∷ vecs) (suc k) v h e =
      of_length vecs k v (and_true (length u == dims) (all_of_length dims vecs) h).1 e

  fill-IsChunkOf :
      (m : Misses) (i : ℕ) (info : ChunkInfo) (s : Slot)
      → IsIndex sha256_hex fp m
      → all_of_length dims (map embed m.texts) ≡ true
      → SlotOf m i info s
      → IsChunkOf i info (fill m.by_id (map embed m.texts) s)
  unfolding fill
  fill-IsChunkOf m i info (filled ch) good fits h = h
  fill-IsChunkOf m i info (pending ordinal id info') good fits
        (place, same_id, same_info, (k, noted_at)) =
      let (t, text_at, id_of) = good id k noted_at in
      let vector_at = get_elem?-map m.texts k t text_at in
      let vector_is : vector_or_nil
            (get_elem? (map embed m.texts) (index_or_zero (index_of id m.by_id)))
          ≡ embed t =
        ap (λ o. vector_or_nil (get_elem? (map embed m.texts) (index_or_zero o))) noted_at
        ∙ ap vector_or_nil vector_at in
      (
        place,
        same_id,
        ap (λ (x : ChunkInfo). x.content) same_info,
        ap (λ (x : ChunkInfo). x.start_line) same_info,
        ap (λ (x : ChunkInfo). x.end_line) same_info,
        ap length vector_is ∙ of_length (map embed m.texts) k (embed t) fits vector_at,
        inr (t, id_of, vector_is),
      )

  pub fill_all-AreChunksOf :
      (m : Misses) (infos : List ChunkInfo) (i : ℕ) (slots : List Slot)
      → IsIndex sha256_hex fp m
      → all_of_length dims (map embed m.texts) ≡ true
      → SlotsOf m i infos slots
      → AreChunksOf i infos (fill_all m.by_id (map embed m.texts) slots)
  unfolding fill_all
  fill_all-AreChunksOf m [] i [] good fits h = tt
  fill_all-AreChunksOf m [] i (s ∷ slots) good fits h = absurd h
  fill_all-AreChunksOf m (info ∷ infos) i [] good fits h = absurd h
  fill_all-AreChunksOf m (info ∷ infos) i (s ∷ slots) good fits h = (
    fill-IsChunkOf m i info s good fits (h.0),
    fill_all-AreChunksOf m infos (i + 1) slots good fits (h.1),
  )

  pub fill_none-AreChunksOf :
      (m : Misses) (infos : List ChunkInfo) (i : ℕ) (slots : List Slot)
      → IsIndex sha256_hex fp m
      → length m.texts ≡ 0
      → SlotsOf m i infos slots
      → AreChunksOf i infos (fill_all [] [] slots)
  unfolding fill_all fill
  fill_none-AreChunksOf m [] i [] good none_left h = tt
  fill_none-AreChunksOf m [] i (s ∷ slots) good none_left h = absurd h
  fill_none-AreChunksOf m (info ∷ infos) i [] good none_left h = absurd h
  fill_none-AreChunksOf m (info ∷ infos) i (filled ch ∷ slots) good none_left h =
      (h.0, fill_none-AreChunksOf m infos (i + 1) slots good none_left (h.1))
  fill_none-AreChunksOf m (info ∷ infos) i (pending ordinal id info' ∷ slots) good none_left h =
      let (place, same_id, same_info, (k, noted_at)) = h.0 in
      let (t, text_at, id_of) = good id k noted_at in absurd (no_text m.texts k t none_left text_at)
