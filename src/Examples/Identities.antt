-- ===== src/Examples/Identities.antt =====
-- Tests of internal/enginev2/core.
use grepai.Base.{◌≡◌, refl, ◌≢◌, ◌⊎◌, List, [], ◌∷◌, ◌++◌, All, arith}
use grepai.Base.Text.{Text, codes, same, text_lt}
use grepai.Core.Encoding.{Fits}
use grepai.Core.StateMachine.{
  JobEvent, pending, running, committed, dead_letter, claim, work_complete, input_changed,
  transient_failure, retry_ready, transition, transitions, after,
}
use grepai.Core.StateMachine.Lives.{committed_by_work}
use grepai.Core.Fingerprint.{
  IndexingFingerprint, Settings, setting, keys, sort_strings, insert_key, canonical,
}
use grepai.Core.Fingerprint.Injective.{IsEncodable as IsEncodablePrint, canonical_injective}
use grepai.Core.Identity.{ArtifactKey}
use grepai.Core.Identity.Collisions.{
  IsEncodable as IsEncodableKey, Collision, artifact_id_separates,
}

-- A job that fails once and then commits.
abbrev retried : List JobEvent
retried = claim ∷ transient_failure ∷ retry_ready ∷ claim ∷ work_complete ∷ []

retried-committed : after pending retried ≡ committed
unfolding after transition transitions
retried-committed = refl

pending-not-committed : pending ≢ committed
pending-not-committed h = ground arith

committed_by_work_example :
    (xs : List JobEvent) × (ys : List JobEvent) × (retried ≡ xs ++ (work_complete ∷ ys))
    × (after pending xs ≡ running)
committed_by_work_example =
    committed_by_work pending retried pending-not-committed retried-committed

revived : after dead_letter (claim ∷ input_changed ∷ []) ≢ dead_letter
unfolding after transition transitions
revived h = ground arith

abbrev chunker : Settings
chunker = (codes "size", codes "512") ∷ (codes "overlap", codes "50") ∷ []

abbrev swapped : Settings
swapped = (codes "overlap", codes "50") ∷ (codes "size", codes "512") ∷ []

abbrev openai : Settings → IndexingFingerprint
openai settings = record {
  embedder_provider = codes "openai";
  embedder_model = codes "small";
  dimensions = 1536;
  chunker_implementation = codes "lines";
  chunker_settings = settings;
  framework_transform_version = codes "v1";
  embedding_input_format = codes "raw";
}

same_bytes : canonical (openai chunker) ≡ canonical (openai swapped)
unfolding canonical text_lt same
same_bytes = refl

setting-Fits : (k : Text) → Fits (setting chunker k)
unfolding setting
setting-Fits k = ground arith

setting-Fits-swapped : (k : Text) → Fits (setting swapped k)
unfolding setting
setting-Fits-swapped k = ground arith

chunker-IsEncodable : IsEncodablePrint (openai chunker)
unfolding sort_strings keys insert_key text_lt
chunker-IsEncodable = record {
  provider_fits = omega arith;
  model_fits = omega arith;
  dimensions_fit = omega arith;
  implementation_fits = omega arith;
  count_fits = omega arith;
  keys_fit = (omega arith, (omega arith, tt));
  values_fit = setting-Fits;
  version_fits = omega arith;
  format_fits = omega arith;
}

swapped-IsEncodable : IsEncodablePrint (openai swapped)
unfolding sort_strings keys insert_key text_lt
swapped-IsEncodable = record {
  provider_fits = omega arith;
  model_fits = omega arith;
  dimensions_fit = omega arith;
  implementation_fits = omega arith;
  count_fits = omega arith;
  keys_fit = (omega arith, (omega arith, tt));
  values_fit = setting-Fits-swapped;
  version_fits = omega arith;
  format_fits = omega arith;
}

abbrev A : IndexingFingerprint
A = openai chunker

abbrev B : IndexingFingerprint
B = openai swapped

canonical_injective_example :
    (A.embedder_provider ≡ B.embedder_provider)
    × (A.embedder_model ≡ B.embedder_model)
    × (A.dimensions ≡ B.dimensions)
    × (A.chunker_implementation ≡ B.chunker_implementation)
    × (sort_strings (keys A.chunker_settings) ≡ sort_strings (keys B.chunker_settings))
    × All
        (λ k. setting A.chunker_settings k ≡ setting B.chunker_settings k)
        (sort_strings (keys A.chunker_settings))
    × (A.framework_transform_version ≡ B.framework_transform_version)
    × (A.embedding_input_format ≡ B.embedding_input_format)
canonical_injective_example =
    canonical_injective A B chunker-IsEncodable swapped-IsEncodable same_bytes

abbrev main_key : ArtifactKey
main_key = record {
  repository_id = codes "repo";
  relative_path = codes "main.go";
  source_hash = codes "h1";
  fingerprint = codes "f";
}

main_key-IsEncodable : IsEncodableKey main_key
main_key-IsEncodable = record {
  repository_fits = omega arith;
  path_fits = omega arith;
  hash_fits = omega arith;
  fingerprint_fits = omega arith;
}

-- A stand-in for SHA-256 that hashes nothing.
abbrev plain_hash : Text → Text
plain_hash t = t

artifact_id_separates_example : (main_key ≡ main_key) ⊎ Collision plain_hash
artifact_id_separates_example =
    artifact_id_separates plain_hash main_key main_key main_key-IsEncodable main_key-IsEncodable
      refl
