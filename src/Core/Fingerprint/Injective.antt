-- ===== src/Core/Fingerprint/Injective.antt =====
-- The canonical encoding tells fingerprints apart
-- (internal/enginev2/core/fingerprint.go, IndexingFingerprint.Canonical).
use mathlib.Core.List.{append_assoc, append-nil}
use grepai.Base.{◌<◌, ◌≡◌, refl, sym, ap, ap₂, ◌∙◌, List, [], ◌∷◌, ◌++◌, arith, length, All}
use grepai.Base.Text.{Text}
use grepai.Core.Encoding.{Fits, write_string, be32_cancel, be64_cancel, write_string_cancel}
use grepai.Core.Fingerprint.{
  IndexingFingerprint, Settings, setting, sort_strings, keys, write_settings, canonical,
}

-- Every length and number lies in the range of its field.
pub record IsEncodable (f : IndexingFingerprint) : Type 0 where
  pub provider_fits : Fits f.embedder_provider
  pub model_fits : Fits f.embedder_model
  pub dimensions_fit : f.dimensions < 18446744073709551616
  pub implementation_fits : Fits f.chunker_implementation
  pub count_fits : length (sort_strings (keys f.chunker_settings)) < 4294967296
  pub keys_fit : All Fits (sort_strings (keys f.chunker_settings))
  pub values_fit : (k : Text) → Fits (setting f.chunker_settings k)
  pub version_fits : Fits f.framework_transform_version
  pub format_fits : Fits f.embedding_input_format

regroup :
    (m : Settings) (k : Text) (ks : List Text) (r : Text)
    → write_settings m (k ∷ ks) ++ r
      ≡ write_string k ++ (write_string (setting m k) ++ (write_settings m ks ++ r))
unfolding write_settings
regroup m k ks r = simp append_assoc

settings_cancel :
    (m n : Settings) (ks js : List Text) (r q : Text)
    → length ks ≡ length js
    → All Fits ks
    → All Fits js
    → ((k : Text) → Fits (setting m k))
    → ((k : Text) → Fits (setting n k))
    → write_settings m ks ++ r ≡ write_settings n js ++ q
    → (ks ≡ js) × All (λ k. setting m k ≡ setting n k) ks × (r ≡ q)
unfolding write_settings
settings_cancel m n [] [] r q h a b c d e = (refl, tt, e)
settings_cancel m n [] (j ∷ js) r q h a b c d e = absurd (omega arith)
settings_cancel m n (k ∷ ks) [] r q h a b c d e = absurd (omega arith)
settings_cancel m n (k ∷ ks) (j ∷ js) r q h a b c d e =
    let (key, values) =
      write_string_cancel k j (write_string (setting m k) ++ (write_settings m ks ++ r))
        (write_string (setting n j) ++ (write_settings n js ++ q)) a.0 b.0
        (sym (regroup m k ks r) ∙ e ∙ regroup n j js q) in
    let (value, rest) =
      write_string_cancel (setting m k) (setting n j) (write_settings m ks ++ r)
        (write_settings n js ++ q) (c k) (d j) values in
    let (ks_eq, vs_eq, r_eq) = settings_cancel m n ks js r q (omega arith) a.1 b.1 c d rest in
    (ap₂ ◌∷◌ key ks_eq, (value ∙ ap (setting n) (sym key), vs_eq), r_eq)

-- Two fingerprints whose lengths and numbers fit their fields, and which have one encoding, agree
-- in every field; their settings have the same keys, and the same value at each.
pub canonical_injective :
    (f g : IndexingFingerprint)
    → IsEncodable f
    → IsEncodable g
    → canonical f ≡ canonical g
    → (f.embedder_provider ≡ g.embedder_provider)
      × (f.embedder_model ≡ g.embedder_model)
      × (f.dimensions ≡ g.dimensions)
      × (f.chunker_implementation ≡ g.chunker_implementation)
      × (sort_strings (keys f.chunker_settings) ≡ sort_strings (keys g.chunker_settings))
      × All
          (λ k. setting f.chunker_settings k ≡ setting g.chunker_settings k)
          (sort_strings (keys f.chunker_settings))
      × (f.framework_transform_version ≡ g.framework_transform_version)
      × (f.embedding_input_format ≡ g.embedding_input_format)
unfolding canonical
canonical_injective f g a b e =
    let (_, e0) = be32_cancel 1 1 _ _ (omega arith) (omega arith) e in
    let (provider, e1) = write_string_cancel _ _ _ _ a.provider_fits b.provider_fits e0 in
    let (model, e2) = write_string_cancel _ _ _ _ a.model_fits b.model_fits e1 in
    let (dims, e3) = be64_cancel _ _ _ _ a.dimensions_fit b.dimensions_fit e2 in
    let (impl, e4) = write_string_cancel _ _ _ _ a.implementation_fits b.implementation_fits e3 in
    let (count, e5) = be32_cancel _ _ _ _ a.count_fits b.count_fits e4 in
    let (ks, vs, e6) =
      settings_cancel f.chunker_settings g.chunker_settings _ _ _ _ count a.keys_fit b.keys_fit
        a.values_fit b.values_fit e5 in
    let (version, e7) = write_string_cancel _ _ _ _ a.version_fits b.version_fits e6 in
    let (format, _) =
      write_string_cancel _ _ [] [] a.format_fits b.format_fits
        (append-nil _ ∙ e7 ∙ sym (append-nil _)) in
    (provider, model, dims, impl, ks, vs, version, format)
