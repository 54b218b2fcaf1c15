-- ===== src/Core/Fingerprint.antt =====
-- internal/enginev2/core/fingerprint.go: every input that makes two vectors incompatible, and its
-- canonical bytes. A Go map is a list of entries with distinct keys, in its iteration order.
pub mod Order
pub mod Injective
use grepai.Base.{
  ℕ, ◌%◌, ◌^◌, ◌≡◌, Bool, true, false, List, [], ◌∷◌, ◌++◌, map, length, if◌then◌else◌, Option,
  none, some,
}
use grepai.Base.Text.{Text, same, text_lt}
use grepai.Core.Encoding.{be32, be64, write_string}

abbrev pub Settings : Type 0
Settings = List (Text × Text)

pub record IndexingFingerprint : Type 0 where
  pub embedder_provider : Text
  pub embedder_model : Text
  pub dimensions : ℕ
  pub chunker_implementation : Text
  pub chunker_settings : Settings
  pub framework_transform_version : Text
  pub embedding_input_format : Text

abbrev pub fingerprint_encoding_version : ℕ
fingerprint_encoding_version = 1

-- `m[k]`: a missing key reads as the empty string.
unfoldable pub setting : Settings → Text → Text
setting [] k = []
setting ((j, v) ∷ m) k = if same j k then v else setting m k

-- sort.Strings.
unfoldable pub insert_key : Text → List Text → List Text
insert_key k [] = k ∷ []
insert_key k (j ∷ ks) = if text_lt j k then j ∷ insert_key k ks else k ∷ (j ∷ ks)

unfoldable pub sort_strings : List Text → List Text
unfolding insert_key
sort_strings [] = []
sort_strings (k ∷ ks) = insert_key k (sort_strings ks)

unfoldable pub keys : Settings → List Text
keys [] = []
keys ((k, v) ∷ m) = k ∷ keys m

unfoldable pub write_settings : Settings → List Text → Text
unfolding write_string setting
write_settings m [] = []
write_settings m (k ∷ ks) = write_string k ++ (write_string (setting m k) ++ write_settings m ks)

-- `Canonical`.
unfoldable pub canonical : IndexingFingerprint → Text
unfolding be32 be64 write_string write_settings sort_strings keys
canonical f =
    let sorted = sort_strings (keys f.chunker_settings) in
    be32 fingerprint_encoding_version
    ++ (write_string f.embedder_provider
        ++ (write_string f.embedder_model
            ++ (be64 f.dimensions
                ++ (write_string f.chunker_implementation
                    ++ (be32 (length sorted)
                        ++ (write_settings f.chunker_settings sorted
                            ++ (write_string f.framework_transform_version
                                ++ write_string f.embedding_input_format)))))))

-- `Hash`: crypto/sha256 and encoding/hex together, as the argument.
unfoldable pub hash : (Text → Text) → IndexingFingerprint → Text
unfolding canonical
hash sha256_hex f = sha256_hex (canonical f)
