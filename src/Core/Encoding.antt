-- ===== src/Core/Encoding.antt =====
-- The length-prefixed byte encoding shared by the fingerprint and the content identifiers
-- (writeCanonicalString of internal/enginev2/core/fingerprint.go).
use mathlib.Core.List.{append_assoc}
use grepai.Base.{ℕ, ◌/◌, ◌%◌, ◌<◌, ◌≡◌, refl, sym, ◌∙◌, [], ◌∷◌, ◌++◌, arith, length}
use grepai.Base.Text.{Text}

-- binary.BigEndian.PutUint32 and PutUint64, after the conversion to uint32 and uint64.
unfoldable pub be32 : ℕ → Text
be32 n = (n / 16777216 % 256) ∷ (n / 65536 % 256) ∷ (n / 256 % 256) ∷ (n % 256) ∷ []

unfoldable pub be64 : ℕ → Text
unfolding be32
be64 n = be32 (n / 4294967296) ++ be32 n

unfoldable pub write_string : Text → Text
unfolding be32
write_string s = be32 (length s) ++ s

-- What a uint32 length field can hold.
abbrev pub Fits : Text → Type 0
Fits s = length s < 4294967296

pub be32_cancel :
    (m n : ℕ) (r q : Text)
    → m < 4294967296
    → n < 4294967296
    → be32 m ++ r ≡ be32 n ++ q
    → (m ≡ n) × (r ≡ q)
unfolding be32
be32_cancel m n r q h k e = ground arith

pub be64_cancel :
    (m n : ℕ) (r q : Text)
    → m < 18446744073709551616
    → n < 18446744073709551616
    → be64 m ++ r ≡ be64 n ++ q
    → (m ≡ n) × (r ≡ q)
unfolding be64
be64_cancel m n r q h k e = ground arith

append_cancel : (s t r q : Text) → length s ≡ length t → s ++ r ≡ t ++ q → (s ≡ t) × (r ≡ q)
append_cancel [] [] r q h e = (refl, e)
append_cancel [] (b ∷ t) r q h e = absurd (omega arith)
append_cancel (a ∷ s) [] r q h e = absurd (omega arith)
append_cancel (a ∷ s) (b ∷ t) r q h e = ground (arith, append_cancel s t r q)

-- A written string is told apart from what follows it.
pub write_string_cancel :
    (s t : Text) (r q : Text)
    → Fits s
    → Fits t
    → write_string s ++ r ≡ write_string t ++ q
    → (s ≡ t) × (r ≡ q)
unfolding write_string
write_string_cancel s t r q h k e =
    let (n, rest) =
      be32_cancel (length s) (length t) (s ++ r) (t ++ q) h k
        (sym (append_assoc (be32 (length s)) s r) ∙ e ∙ append_assoc (be32 (length t)) t q) in
    append_cancel s t r q n rest
