-- ===== src/Catalog/Artifacts/Vectors.antt =====
-- Vectors as blobs (internal/enginev2/catalog/sqlite/vector.go).
use grepai.Base.{ℕ, ◌+◌, ◌*◌, ◌/◌, ◌%◌, ◌<◌, ◌≡◌, refl, ap₂, List, [], ◌∷◌, All, length, arith}
use grepai.Catalog.Tx.{ok}
use grepai.Catalog.Artifacts.{encode_vector, read_floats, decode_vector}

-- The bit pattern of a float32.
abbrev pub IsPattern : ℕ → Type 0
IsPattern f = f < 4294967296

length-encode_vector : (fs : List ℕ) → length (encode_vector fs) ≡ length fs * 4
unfolding encode_vector
length-encode_vector [] = refl
length-encode_vector (f ∷ fs) = omega (arith, length-encode_vector fs)

bytes_of_pattern :
    (f : ℕ)
    → IsPattern f
    → f % 256 + f / 256 % 256 * 256 + f / 65536 % 256 * 65536 + f / 16777216 % 256 * 16777216 ≡ f
bytes_of_pattern f h = omega arith

read_floats-encode_vector : (fs : List ℕ) → All IsPattern fs → read_floats (encode_vector fs) ≡ fs
unfolding read_floats encode_vector
read_floats-encode_vector [] h = refl
read_floats-encode_vector (f ∷ fs) h =
    ap₂ ◌∷◌ (bytes_of_pattern f h.0) (read_floats-encode_vector fs h.1)

-- The blob of a vector of 32-bit patterns decodes, at the vector's own number of dimensions, to
-- that vector.
pub decode_vector-encode_vector :
    (fs : List ℕ) → All IsPattern fs → decode_vector (encode_vector fs) (length fs) ≡ ok fs
unfolding decode_vector
decode_vector-encode_vector fs h =
    ground (arith, length-encode_vector fs, read_floats-encode_vector fs h)
