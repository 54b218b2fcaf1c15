-- ===== src/Core/Identity.antt =====
-- The content-derived identifiers: ArtifactKey.ArtifactID (internal/enginev2/core/artifact.go)
-- and ChunkID (internal/enginev2/core/chunk.go). crypto/sha256 and encoding/hex are a parameter.
pub mod Collisions
use grepai.Base.{List, ◌++◌}
use grepai.Base.Text.{Text}
use grepai.Core.Encoding.{write_string}

pub record ArtifactKey : Type 0 where
  pub repository_id : Text
  pub relative_path : Text
  pub source_hash : Text
  pub fingerprint : Text

-- The bytes that ArtifactID hashes.
unfoldable pub key_bytes : ArtifactKey → Text
unfolding write_string
key_bytes k =
    write_string k.repository_id
    ++ (write_string k.relative_path ++ (write_string k.source_hash ++ write_string k.fingerprint))

unfoldable pub artifact_id : (Text → Text) → ArtifactKey → Text
artifact_id sha256_hex k = sha256_hex (key_bytes k)

-- The bytes that ChunkID hashes.
unfoldable pub chunk_bytes : Text → Text → Text
unfolding write_string
chunk_bytes fingerprint embed_content = write_string fingerprint ++ write_string embed_content

unfoldable pub chunk_id : (Text → Text) → Text → Text → Text
chunk_id sha256_hex fingerprint embed_content = sha256_hex (chunk_bytes fingerprint embed_content)
