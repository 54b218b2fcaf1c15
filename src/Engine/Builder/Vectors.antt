-- ===== src/Engine/Builder/Vectors.antt =====
-- Every vector of a built artifact is a stored one or an embedding (internal/enginev2/artifacts/builder.go).
use grepai.Base.{
  ℕ, Bool, true, false, ◌&&◌, List, [], Option, none, some, some_inj, map, if◌then◌else◌, ◌==◌, ◌≡◌,
  ◌⊎◌, refl, sym, subst, ap, ◌∙◌, Bool-cases, and_true, ==_iff, inl, inr, length,
}
use grepai.Base.Text.{Text}
use grepai.Core.Identity.{ArtifactKey}
use grepai.Core.Job.{Artifact}
use grepai.Catalog.Tables.{Database}
use grepai.Catalog.Tx.{Faults}
use grepai.Indexer.Chunker.{ChunkInfo}
use grepai.Engine.Worker.{BuildResult, built}
use grepai.Engine.Builder.{
  is_binary, Misses, index_of, Slot, Scan, scanned, cache_failed, bad_vector, fill_all,
  all_of_length, scan, artifact_with, with_vectors, of_scan, build, answered, unless_cached,
}
use grepai.Engine.Builder.Notes.{IsIndex}
use grepai.Engine.Builder.Slots.{SlotsOf, AreChunksOf, fill_all-AreChunksOf, fill_none-AreChunksOf}
use grepai.Engine.Builder.Scanned.{scan-SlotsOf}

abbrev artifact_or : Artifact → BuildResult → Artifact
artifact_or a (built b) = b
artifact_or a _ = a

no_index : (id : Text) (k : ℕ) → ¬ (index_of id [] ≡ some k)
unfolding index_of
no_index id k e = cc

built_inj : (a b : Artifact) → built a ≡ built b → a ≡ b
built_inj a b e = ap (artifact_or a) e

module _ (sha256_hex : Text → Text) (fault : Faults) (dims : ℕ)
    (embed_batch : List Text → Option (List (List ℕ))) (chunker : Text → Text → List ChunkInfo)
    (embed : Text → List ℕ) (db : Database) (fp : Text) where
  with_vectors-AreChunksOf :
      (key : ArtifactKey) (infos : List ChunkInfo) (slots : List Slot) (m : Misses)
      (vecs : Option (List (List ℕ))) (n : ℕ) (art : Artifact)
      → (vecs ≡ none) ⊎ (vecs ≡ some (map embed m.texts))
      → IsIndex sha256_hex fp m
      → SlotsOf sha256_hex dims embed db fp m 0 infos slots
      → (with_vectors sha256_hex fault dims embed_batch chunker key slots m vecs n).result
        ≡ built art
      → AreChunksOf sha256_hex dims embed db fp 0 infos art.chunks
  unfolding with_vectors
  with_vectors-AreChunksOf key infos slots m none n art aligned good h e = absurd (cc)
  with_vectors-AreChunksOf key infos slots m (some vecs) n art (inl lost) good h e = absurd (cc)
  with_vectors-AreChunksOf key infos slots m (some vecs) n art (inr aligned) good h e =
      let test = (length vecs == length m.texts) && all_of_length dims vecs in
      elim (Bool-cases test) [
        | inl passed ↦
            let same_vecs : vecs ≡ map embed m.texts = some_inj aligned in
            let fits =
              ap (all_of_length dims) (sym same_vecs)
              ∙ (and_true (length vecs == length m.texts) (all_of_length dims vecs) passed).1 in
            let done =
              ap
                (λ b.
                  (answered sha256_hex fault dims embed_batch chunker b
                    (artifact_with sha256_hex fault dims embed_batch chunker key
                      (fill_all m.by_id vecs slots))
                    n).result)
                (sym passed)
              ∙ e in
            let chunks_are = ap (λ (a : Artifact). a.chunks) (built_inj _ art done) in
            subst (AreChunksOf sha256_hex dims embed db fp 0 infos)
              (ap (λ v. fill_all m.by_id v slots) (sym same_vecs) ∙ chunks_are)
              (fill_all-AreChunksOf sha256_hex dims embed db fp m infos 0 slots good fits h)
        | inr failed ↦
            let bad =
              ap
                (λ b.
                  (answered sha256_hex fault dims embed_batch chunker b
                    (artifact_with sha256_hex fault dims embed_batch chunker key
                      (fill_all m.by_id vecs slots))
                    n).result)
                (sym failed)
              ∙ e in
            absurd (cc)
      ]

  cached-AreChunksOf :
      (key : ArtifactKey) (infos : List ChunkInfo) (slots : List Slot) (m : Misses) (n : ℕ)
      (art : Artifact)
      → ((ts : List Text) → (embed_batch ts ≡ none) ⊎ (embed_batch ts ≡ some (map embed ts)))
      → IsIndex sha256_hex fp m
      → SlotsOf sha256_hex dims embed db fp m 0 infos slots
      → (of_scan sha256_hex fault dims embed_batch chunker key (scanned slots m n)).result
        ≡ built art
      → AreChunksOf sha256_hex dims embed db fp 0 infos art.chunks
  unfolding of_scan artifact_with
  cached-AreChunksOf key infos slots m n art aligned good h e =
      let cached =
        artifact_with sha256_hex fault dims embed_batch chunker key (fill_all [] [] slots) in
      let embedded =
        with_vectors sha256_hex fault dims embed_batch chunker key slots m (embed_batch m.texts)
          n in
      let known = λ (b : Bool) (same_test : (length m.texts == 0) ≡ b).
        ap
          (λ b.
            (unless_cached sha256_hex fault dims embed_batch chunker b cached embedded n).result)
          (sym same_test)
        ∙ e in
      elim (Bool-cases (length m.texts == 0)) [
        | inl nothing ↦
            subst (AreChunksOf sha256_hex dims embed db fp 0 infos)
              (ap (λ (a : Artifact). a.chunks) (built_inj cached art (known true nothing)))
              (fill_none-AreChunksOf sha256_hex dims embed db fp m infos 0 slots good
                ((==_iff (length m.texts) 0).0 nothing) h)
        | inr something ↦
            with_vectors-AreChunksOf key infos slots m (embed_batch m.texts) n art (aligned m.texts)
              good h (known false something)
      ]

  of_scan-AreChunksOf :
      (key : ArtifactKey) (infos : List ChunkInfo) (sc : Scan) (n : ℕ) (art : Artifact)
      → ((ts : List Text) → (embed_batch ts ≡ none) ⊎ (embed_batch ts ≡ some (map embed ts)))
      → scan sha256_hex fault dims embed_batch chunker db fp infos 0
          (record { texts = []; by_id = [] })
          n
        ≡ sc
      → (of_scan sha256_hex fault dims embed_batch chunker key sc).result ≡ built art
      → AreChunksOf sha256_hex dims embed db fp 0 infos art.chunks
  unfolding of_scan
  of_scan-AreChunksOf key infos (cache_failed c) n art aligned ran e = absurd (cc)
  of_scan-AreChunksOf key infos (bad_vector c) n art aligned ran e = absurd (cc)
  of_scan-AreChunksOf key infos (scanned slots m c) n art aligned ran e =
      let (good, more, h) =
        scan-SlotsOf sha256_hex fault dims embed_batch chunker embed db fp infos 0
          (record { texts = []; by_id = [] }) m n c slots ran
          (λ id k f. absurd (no_index id k f)) in
      cached-AreChunksOf key infos slots m c art aligned good h e

-- Where the embedder fails or answers each text in its place, a build that returns an artifact
-- has, for each chunk of the file in order, that chunk's id, text and lines, and a vector of the
-- embedder's dimensions that is stored under the id or embeds a text with that id. A binary file
-- has no chunks.
pub build-AreChunksOf :
    (sha256_hex : Text → Text) (fault : Faults) (dims : ℕ)
    (embed_batch : List Text → Option (List (List ℕ))) (chunker : Text → Text → List ChunkInfo)
    (embed : Text → List ℕ) (key : ArtifactKey) (content : Text) (n : ℕ) (db : Database)
    (art : Artifact)
    → ((ts : List Text) → (embed_batch ts ≡ none) ⊎ (embed_batch ts ≡ some (map embed ts)))
    → (build sha256_hex fault dims embed_batch chunker key content n db).result ≡ built art
    → AreChunksOf sha256_hex dims embed db key.fingerprint 0
        (if is_binary content then [] else chunker key.relative_path content)
        art.chunks
unfolding build
build-AreChunksOf sha256_hex fault dims embed_batch chunker embed key content n db art aligned e =
    of_scan-AreChunksOf sha256_hex fault dims embed_batch chunker embed db key.fingerprint key
      (if is_binary content then [] else chunker key.relative_path content) _ n art aligned refl e
