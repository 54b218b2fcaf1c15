-- ===== src/Core/Identity/Collisions.antt =====
-- Two different keys share an identifier only through a collision of SHA-256
-- (internal/enginev2/core/artifact.go, internal/enginev2/core/chunk.go).
use mathlib.Core.List.{append-nil}
use grepai.Base.{◌≡◌, sym, ◌∙◌, ◌≢◌, ◌⊎◌, inl, inr, [], arith}
use grepai.Base.Text.{Text, Text-discrete}
use grepai.Core.Encoding.{Fits, write_string, write_string_cancel}
use grepai.Core.Identity.{ArtifactKey, key_bytes, artifact_id, chunk_bytes, chunk_id}

-- Two inputs of a hash function that it does not tell apart.
abbrev pub Collision : (Text → Text) → Type 0
Collision h = (b : Text) × (c : Text) × (b ≢ c) × (h b ≡ h c)

pub record IsEncodable (k : ArtifactKey) : Type 0 where
  pub repository_fits : Fits k.repository_id
  pub path_fits : Fits k.relative_path
  pub hash_fits : Fits k.source_hash
  pub fingerprint_fits : Fits k.fingerprint

write_string_cancel_last : (s t : Text) → Fits s → Fits t → write_string s ≡ write_string t → s ≡ t
write_string_cancel_last s t h k e =
    (write_string_cancel s t [] [] h k (append-nil _ ∙ e ∙ sym (append-nil _))).0

key_bytes_injective :
    (j k : ArtifactKey) → IsEncodable j → IsEncodable k → key_bytes j ≡ key_bytes k → j ≡ k
unfolding key_bytes
key_bytes_injective j k a b e =
    let (repo, e1) = write_string_cancel _ _ _ _ a.repository_fits b.repository_fits e in
    let (path, e2) = write_string_cancel _ _ _ _ a.path_fits b.path_fits e1 in
    let (source, e3) = write_string_cancel _ _ _ _ a.hash_fits b.hash_fits e2 in
    let print = write_string_cancel_last _ _ a.fingerprint_fits b.fingerprint_fits e3 in
    ground arith

-- Equal artifact identifiers of two keys whose parts fit their length fields come from equal keys,
-- or from a collision of the hash.
pub artifact_id_separates :
    (sha256_hex : Text → Text) (j k : ArtifactKey)
    → IsEncodable j
    → IsEncodable k
    → artifact_id sha256_hex j ≡ artifact_id sha256_hex k
    → (j ≡ k) ⊎ Collision sha256_hex
unfolding artifact_id
artifact_id_separates sha j k a b e = elim (Text-discrete (key_bytes j) (key_bytes k)) [
  | yes p ↦ inl (key_bytes_injective j k a b p)
  | no p ↦ inr (key_bytes j, key_bytes k, p, e)
]

-- Equal chunk identifiers of parts that fit their length fields come from the same fingerprint and
-- the same embedding input, or from a collision of the hash.
pub chunk_id_separates :
    (sha256_hex : Text → Text) (f g s t : Text)
    → Fits f
    → Fits g
    → Fits s
    → Fits t
    → chunk_id sha256_hex f s ≡ chunk_id sha256_hex g t
    → ((f ≡ g) × (s ≡ t)) ⊎ Collision sha256_hex
unfolding chunk_id chunk_bytes
chunk_id_separates sha f g s t hf hg hs ht e =
    elim (Text-discrete (chunk_bytes f s) (chunk_bytes g t)) [
      | yes p ↦
          let (print, rest) = write_string_cancel f g _ _ hf hg p in
          inl (print, write_string_cancel_last s t hs ht rest)
      | no p ↦ inr (chunk_bytes f s, chunk_bytes g t, p, e)
    ]
