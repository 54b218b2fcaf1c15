-- ===== src/Catalog/Artifacts.antt =====
-- Immutable artifacts, their chunks and their symbols:
-- internal/enginev2/catalog/sqlite/artifacts.go and vector.go, and the symbol part of views.go.
pub mod Vectors
use grepai.Base.{
  ℕ, ◌+◌, ◌*◌, ◌/◌, ◌%◌, Bool, true, false, ◌&&◌, ◌||◌, not, List, [], ◌∷◌, ◌++◌, Option, none,
  some, if◌then◌else◌, ◌==◌, length,
}
use grepai.Base.Text.{Text, same}
use grepai.Core.Identity.{ArtifactKey}
use grepai.Core.Job.{Artifact, ArtifactChunk}
use grepai.Catalog.Tables.{
  Database, ArtifactRow, ChunkRow, ArtifactChunkRow, update_where, count_where, find_where,
}
use grepai.Catalog.Generations.{has_repository}
use grepai.Catalog.Tx.{
  Tx, Op, ◌>>◌, pure, exec, read, with_write_tx, vector_length, Result, ok, err,
}

-- encodeVector and decodeVector: little-endian 32-bit patterns. A negative dimension count cannot
-- come out of the table.
unfoldable pub encode_vector : List ℕ → Text
encode_vector [] = []
encode_vector (f ∷ fs) =
    (f % 256) ∷ (f / 256 % 256) ∷ (f / 65536 % 256) ∷ (f / 16777216 % 256) ∷ encode_vector fs

unfoldable pub read_floats : Text → List ℕ
read_floats (a ∷ b ∷ c ∷ d ∷ rest) = (a + b * 256 + c * 65536 + d * 16777216) ∷ read_floats rest
read_floats _ = []

unfoldable pub decode_vector : Text → ℕ → Result (List ℕ)
unfolding read_floats
decode_vector blob dims =
    if length blob == dims * 4 then ok (read_floats blob) else err vector_length

-- A row with the primary key, or with the UNIQUE key.
unfoldable pub is_artifact : Text → ArtifactRow → Bool
is_artifact id r = same r.artifact_id id

unfoldable pub has_key : ArtifactKey → ArtifactRow → Bool
has_key k r =
    same r.repository_id k.repository_id
    && (same r.relative_path k.relative_path
        && (same r.source_hash k.source_hash && same r.fingerprint k.fingerprint))

unfoldable pub has_artifact : Text → Database → Bool
unfolding count_where is_artifact
has_artifact id db = not (count_where (is_artifact id) db.file_artifacts == 0)

unfoldable pub artifact_row : Artifact → ArtifactRow
artifact_row a = record {
  artifact_id = a.id;
  repository_id = a.key.repository_id;
  relative_path = a.key.relative_path;
  source_hash = a.key.source_hash;
  fingerprint = a.key.fingerprint;
  dimensions = a.dimensions;
  symbols_version = 0;
}

-- INSERT OR IGNORE INTO file_artifacts
unfoldable pub put_artifact_stmt : Artifact → Database → Option Database
unfolding count_where is_artifact has_key artifact_row has_repository
put_artifact_stmt a db =
    if count_where (λ r. is_artifact a.id r || has_key a.key r) db.file_artifacts == 0
    then (if has_repository a.key.repository_id db
        then some (record db { file_artifacts = db.file_artifacts ++ (artifact_row a ∷ []) })
        else none)
    else some db

unfoldable pub put_artifact_tx : Artifact → Tx (Unit {0})
unfolding put_artifact_stmt exec
put_artifact_tx a = exec (put_artifact_stmt a)

unfoldable pub put_artifact : Artifact → Op (Unit {0})
unfolding put_artifact_tx with_write_tx
put_artifact a = with_write_tx (put_artifact_tx a)

unfoldable pub has_chunk : Text → Database → Bool
unfolding count_where
has_chunk id db = not (count_where (λ (c : ChunkRow). same c.chunk_id id) db.chunks == 0)

-- INSERT OR IGNORE INTO artifact_chunks
unfoldable pub put_link_stmt : Text → ArtifactChunk → Database → Option Database
unfolding count_where has_artifact has_chunk
put_link_stmt id ch db =
    if count_where (λ (r : ArtifactChunkRow). same r.artifact_id id && (r.ordinal == ch.ordinal))
        db.artifact_chunks
      == 0
    then (if has_artifact id db && has_chunk ch.chunk_id db
        then some (record db {
          artifact_chunks =
              db.artifact_chunks
              ++ (record {
                artifact_id = id;
                ordinal = ch.ordinal;
                chunk_id = ch.chunk_id;
                start_line = ch.start_line;
                end_line = ch.end_line;
              }
                  ∷ []);
        })
        else none)
    else some db

unfoldable pub put_artifact_chunks_tx : Text → List ArtifactChunk → Tx (Unit {0})
unfolding put_link_stmt exec
put_artifact_chunks_tx id [] = pure tt
put_artifact_chunks_tx id (ch ∷ chs) =
    let rest = put_artifact_chunks_tx id chs in do exec (put_link_stmt id ch); rest

abbrev artifact_found : ArtifactKey → Option ArtifactRow → Option Artifact
artifact_found k none = none
artifact_found k (some r) =
    some (record { id = r.artifact_id; key = k; dimensions = r.dimensions; chunks = [] })

unfoldable pub stored_artifact : ArtifactKey → Database → Option Artifact
unfolding find_where has_key
stored_artifact k db = artifact_found k (find_where (has_key k) db.file_artifacts)

unfoldable pub get_artifact : ArtifactKey → Op (Option Artifact)
unfolding stored_artifact read
get_artifact k = read (λ db. ok (stored_artifact k db))

abbrev is_empty : Text → Bool
is_empty [] = true
is_empty (b ∷ t) = false

-- ON CONFLICT(chunk_id) DO UPDATE SET content=... WHERE chunks.content='' AND excluded.content<>''
unfoldable pub backfill : Text → Text → ChunkRow → ChunkRow
backfill id content c =
    if same c.chunk_id id && (is_empty c.content && not (is_empty content))
    then record c { content = content }
    else c

unfoldable pub put_chunk_stmt : Text → Text → Text → List ℕ → Text → Database → Option Database
unfolding has_chunk backfill update_where encode_vector has_repository
put_chunk_stmt id repo fingerprint vec content db =
    if has_chunk id db
    then some (record db { chunks = update_where (λ _. true) (backfill id content) db.chunks })
    else (if has_repository repo db
        then some (record db {
          chunks =
              db.chunks
              ++ (record {
                chunk_id = id;
                repository_id = repo;
                fingerprint = fingerprint;
                dimensions = length vec;
                vector = encode_vector vec;
                content = content;
              }
                  ∷ []);
        })
        else none)

unfoldable pub put_chunk_vector : Text → Text → Text → List ℕ → Text → Op (Unit {0})
unfolding put_chunk_stmt exec with_write_tx
put_chunk_vector id repo fingerprint vec content =
    with_write_tx (exec (put_chunk_stmt id repo fingerprint vec content))

abbrev some_vector : Result (List ℕ) → Result (Option (List ℕ))
some_vector (ok v) = ok (some v)
some_vector (err e) = err e

abbrev vector_found : Option ChunkRow → Result (Option (List ℕ))
unfolding decode_vector
vector_found none = ok none
vector_found (some c) = some_vector (decode_vector c.vector c.dimensions)

unfoldable pub stored_vector : Text → Database → Result (Option (List ℕ))
unfolding find_where decode_vector
stored_vector id db = vector_found (find_where (λ c. same c.chunk_id id) db.chunks)

unfoldable pub get_chunk_vector : Text → Op (Option (List ℕ))
unfolding stored_vector read
get_chunk_vector id = read (stored_vector id)
