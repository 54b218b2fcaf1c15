-- ===== src/Embedder/Results.antt =====
-- embedder/batch.go: the results of the batches, put back in the places of their chunks. A panic, at an
-- index out of range, is `none`; a chunk without an embedding is a `none` in its file's list. The type of
-- the embeddings is a parameter.
use grepai.Base.{
  ℕ, zero, suc, ◌+◌, List, [], ◌∷◌, map, Option, none, some, if◌then◌else◌, ltb, get_elem?, length,
}
use grepai.Base.Text.{Text}
use grepai.Embedder.Batch.{BatchEntry, Batch}

-- Size and Contents.
unfoldable pub batch_size : Batch → ℕ
batch_size b = length b.entries

unfoldable pub contents : Batch → List Text
contents b = map (λ (e : BatchEntry). e.content) b.entries

abbrev then_some : {A B : Type 0} → Option A → (A → Option B) → Option B
then_some none f = none
then_some (some a) f = f a

-- The list with the element at an index replaced.
unfoldable pub alter : {A : Type 0} → List A → ℕ → (A → Option A) → Option (List A)
alter [] k f = none
alter (x ∷ xs) zero f = then_some (f x) (λ y. some (y ∷ xs))
alter (x ∷ xs) (suc k) f = then_some (alter xs k f) (λ ys. some (x ∷ ys))

unfoldable pub fill : {A : Type 0} → ℕ → A → List A
fill zero a = []
fill (suc n) a = a ∷ fill n a

unfoldable pub count_entries : List BatchEntry → List ℕ → Option (List ℕ)
unfolding alter
count_entries [] counts = some counts
count_entries (e ∷ es) counts =
    then_some
      (alter counts e.file_index
        (λ n. some (if ltb n (e.chunk_index + 1) then e.chunk_index + 1 else n)))
      (count_entries es)

unfoldable pub count_batches : List Batch → List ℕ → Option (List ℕ)
unfolding count_entries
count_batches [] counts = some counts
count_batches (b ∷ bs) counts = then_some (count_entries b.entries counts) (count_batches bs)

unfoldable pub count_chunks_per_file : List Batch → ℕ → Option (List ℕ)
unfolding count_batches fill
count_chunks_per_file batches num_files = count_batches batches (fill num_files 0)

module _ {V : Type 0} where
  -- A file without chunks has the nil slice.
  unfoldable pub allocate_file_embeddings : List ℕ → List (List (Option V))
  unfolding fill
  allocate_file_embeddings = map (λ n. fill n none)

  -- The loop over one batch's entries: those past the last embedding are left alone.
  unfoldable pub place :
      List BatchEntry → List V → List (List (Option V)) → Option (List (List (Option V)))
  unfolding alter
  place [] vs files = some files
  place (e ∷ es) [] files = some files
  place (e ∷ es) (v ∷ vs) files =
      then_some
        (alter files e.file_index (λ chunks. alter chunks e.chunk_index (λ _. some (some v))))
        (place es vs)

pub record BatchResult (V : Type 0) : Type 0 where
  pub batch_index : ℕ
  pub embeddings : List V

unfoldable pub populate_embeddings :
    {V : Type 0}
    → List Batch
    → List (BatchResult V)
    → List (List (Option V))
    → Option (List (List (Option V)))
unfolding place
populate_embeddings batches [] files = some files
populate_embeddings batches (r ∷ rs) files =
    then_some (get_elem? batches r.batch_index)
      (λ b. then_some (place b.entries r.embeddings files) (populate_embeddings batches rs))

unfoldable pub map_results_to_files :
    {V : Type 0} → List Batch → List (BatchResult V) → ℕ → Option (List (List (Option V)))
unfolding count_chunks_per_file allocate_file_embeddings populate_embeddings
map_results_to_files batches results num_files =
    then_some (count_chunks_per_file batches num_files)
      (λ counts. populate_embeddings batches results (allocate_file_embeddings counts))
