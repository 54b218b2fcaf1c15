-- ===== src/Engine/Builder.antt =====
-- internal/enginev2/artifacts/builder.go: the artifact of a file's content. Only chunks without a stored
-- vector are embedded, each text once. No one writes to the chunk cache during a build.
pub mod Notes
pub mod Slots
pub mod Scanned
pub mod Vectors
use grepai.Base.{
  ℕ, suc, ◌+◌, ◌-◌, Bool, true, false, ◌&&◌, ◌||◌, not, List, [], ◌∷◌, ◌++◌, Option, none, some,
  if◌then◌else◌, ltb, leb, ◌==◌, length, get_elem?, any,
}
use grepai.Base.Text.{Text, same}
use grepai.Core.Identity.{ArtifactKey, artifact_id, chunk_id}
use grepai.Core.Job.{Artifact, ArtifactChunk}
use grepai.Catalog.Tables.{Database}
use grepai.Catalog.Tx.{Faults, Outcome, Result, ok, err}
use grepai.Catalog.Artifacts.{get_chunk_vector}
use grepai.Indexer.Chunker.{ChunkInfo}
use grepai.Engine.Worker.{
  EndpointResult, endpoint_not_contacted, endpoint_succeeded, endpoint_failed, BuildResult, built,
  dimension_mismatch, build_failed, BuildOutcome,
}

-- 10xxxxxx, and the second bytes that Go accepts after some first bytes.
abbrev within : ℕ → ℕ → ℕ → Bool
within low high b = leb low b && leb b high

abbrev second_low : ℕ → ℕ
second_low a = if a == 224 then 160 else (if a == 240 then 144 else 128)

abbrev second_high : ℕ → ℕ
second_high a = if a == 237 then 159 else (if a == 244 then 143 else 191)

-- utf8.Valid: the bytes that are still to follow the last first byte, and the bounds of the next of them.
unfoldable pub valid_after : ℕ → ℕ → ℕ → Text → Bool
valid_after left low high [] = left == 0
valid_after left low high (b ∷ bs) =
    let follows = valid_after (left - 1) 128 191 bs in
    let single = valid_after 0 0 0 bs in
    let two = valid_after 1 128 191 bs in
    let three = valid_after 2 (second_low b) (second_high b) bs in
    let four = valid_after 3 (second_low b) (second_high b) bs in
    if ltb 0 left
    then within low high b && follows
    else (if ltb b 128
        then single
        else (if within 194 223 b
            then two
            else (if within 224 239 b then three else within 240 244 b && four)))

unfoldable pub is_binary : Text → Bool
unfolding valid_after
is_binary content = not (valid_after 0 0 0 content) || any (λ b. b == 0) content

-- missText and missByID
pub record Misses : Type 0 where
  pub texts : List Text
  pub by_id : List (Text × ℕ)

unfoldable pub index_of : Text → List (Text × ℕ) → Option ℕ
index_of id [] = none
index_of id ((i, k) ∷ rest) = if same i id then some k else index_of id rest

-- An ordinal of art.Chunks: filled from the cache, or one of missOrds, with its idByOrd.
pub data Slot : Type 0 where
  filled : ArtifactChunk → Slot
  pending : ℕ → Text → ChunkInfo → Slot

pub data Scan : Type 0 where
  scanned : List Slot → Misses → ℕ → Scan
  cache_failed : ℕ → Scan
  bad_vector : ℕ → Scan

abbrev pub add_slot : Slot → Scan → Scan
add_slot s (scanned slots m n) = scanned (s ∷ slots) m n
add_slot s (cache_failed n) = cache_failed n
add_slot s (bad_vector n) = bad_vector n

abbrev pub chunk_of : ℕ → Text → List ℕ → ChunkInfo → ArtifactChunk
chunk_of ordinal id vector info = record {
  ordinal = ordinal;
  chunk_id = id;
  vector = vector;
  content = info.content;
  start_line = info.start_line;
  end_line = info.end_line;
}

abbrev pub noted : Text → Text → Misses → Option ℕ → Misses
noted id text m none = record {
  texts = m.texts ++ (text ∷ []);
  by_id = (id, length m.texts) ∷ m.by_id;
}
noted id text m (some k) = m

unfoldable pub note_miss : Text → Text → Misses → Misses
unfolding index_of
note_miss id text m = noted id text m (index_of id m.by_id)

abbrev pub index_or_zero : Option ℕ → ℕ
index_or_zero none = 0
index_or_zero (some k) = k

-- vecs[i]; the index is in range.
abbrev pub vector_or_nil : Option (List ℕ) → List ℕ
vector_or_nil none = []
vector_or_nil (some v) = v

-- vecs[missByID[id]]
unfoldable pub fill : List (Text × ℕ) → List (List ℕ) → Slot → ArtifactChunk
unfolding index_of
fill ids vecs (filled ch) = ch
fill ids vecs (pending ordinal id info) =
    chunk_of ordinal id (vector_or_nil (get_elem? vecs (index_or_zero (index_of id ids)))) info

unfoldable pub fill_all : List (Text × ℕ) → List (List ℕ) → List Slot → List ArtifactChunk
unfolding fill
fill_all ids vecs [] = []
fill_all ids vecs (s ∷ slots) = fill ids vecs s ∷ fill_all ids vecs slots

unfoldable pub all_of_length : ℕ → List (List ℕ) → Bool
all_of_length dims [] = true
all_of_length dims (v ∷ vecs) = (length v == dims) && all_of_length dims vecs

-- `embed_batch` is the embedder; a vector is the list of its float32 bit patterns.
module _ (sha256_hex : Text → Text) (fault : Faults) (dims : ℕ)
    (embed_batch : List Text → Option (List (List ℕ)))
    (chunker : Text → Text → List ChunkInfo) where
  unfoldable pub scan : Database → Text → List ChunkInfo → ℕ → Misses → ℕ → Scan
  unfolding chunk_id get_chunk_vector note_miss
  scan db fp [] i m n = scanned [] m n
  scan db fp (info ∷ infos) i m n =
      elim (get_chunk_vector (chunk_id sha256_hex fp info.embed_content) fault n db).result [
        | err e ↦
            cache_failed
              (get_chunk_vector (chunk_id sha256_hex fp info.embed_content) fault n db).clock
        | ok (some vec) ↦ elim (length vec == dims) [
          | false ↦
              bad_vector
                (get_chunk_vector (chunk_id sha256_hex fp info.embed_content) fault n db).clock
          | true ↦
              add_slot (filled (chunk_of i (chunk_id sha256_hex fp info.embed_content) vec info)) (
                scan db fp infos (i + 1) m
                  (get_chunk_vector (chunk_id sha256_hex fp info.embed_content) fault n db).clock)
        ]
        | ok none ↦ add_slot (pending i (chunk_id sha256_hex fp info.embed_content) info) (
            scan db fp infos (i + 1)
              (note_miss (chunk_id sha256_hex fp info.embed_content) info.embed_content m)
              (get_chunk_vector (chunk_id sha256_hex fp info.embed_content) fault n db).clock)
      ]

  unfoldable pub artifact_with : ArtifactKey → List ArtifactChunk → Artifact
  unfolding artifact_id
  artifact_with key chunks = record {
    id = artifact_id sha256_hex key;
    key = key;
    dimensions = dims;
    chunks = chunks;
  }

  -- The endpoint has answered, well or badly.
  abbrev pub answered : Bool → Artifact → ℕ → BuildOutcome
  answered true art n = record { result = built art; endpoint = endpoint_succeeded; clock = n }
  answered false art n = record {
    result = dimension_mismatch;
    endpoint = endpoint_succeeded;
    clock = n;
  }

  unfoldable pub with_vectors :
      ArtifactKey → List Slot → Misses → Option (List (List ℕ)) → ℕ → BuildOutcome
  unfolding fill_all all_of_length artifact_with
  with_vectors key slots m none n = record {
    result = build_failed;
    endpoint = endpoint_failed;
    clock = n;
  }
  with_vectors key slots m (some vecs) n =
      answered ((length vecs == length m.texts) && all_of_length dims vecs)
        (artifact_with key (fill_all m.by_id vecs slots)) n

  -- The build is over where there is nothing to embed.
  abbrev pub unless_cached : Bool → Artifact → BuildOutcome → ℕ → BuildOutcome
  unless_cached true art embedded n = record {
    result = built art;
    endpoint = endpoint_not_contacted;
    clock = n;
  }
  unless_cached false art embedded n = embedded

  unfoldable pub of_scan : ArtifactKey → Scan → BuildOutcome
  unfolding with_vectors fill_all artifact_with
  of_scan key (cache_failed n) = record {
    result = build_failed;
    endpoint = endpoint_not_contacted;
    clock = n;
  }
  of_scan key (bad_vector n) = record {
    result = dimension_mismatch;
    endpoint = endpoint_not_contacted;
    clock = n;
  }
  of_scan key (scanned slots m n) =
      unless_cached (length m.texts == 0) (artifact_with key (fill_all [] [] slots))
        (with_vectors key slots m (embed_batch m.texts) n) n

  -- A binary file, and one without chunks, is an artifact with no chunks: its scan is of no chunks.
  unfoldable pub build : ArtifactKey → Text → ℕ → Database → BuildOutcome
  unfolding is_binary scan of_scan
  build key content n db =
      let infos = if is_binary content then [] else chunker key.relative_path content in
      of_scan key (scan db key.fingerprint infos 0 (record { texts = []; by_id = [] }) n)
