-- ===== src/Base/Text.antt =====
-- Go strings: sequences of bytes, compared bytewise.
use Prim.Native.Char.{code}
use Prim.Native.String.{String}
use native.Mathlib.Decide.{ℕ_discrete}
use grepai.Base.{
  ℕ, Bool, true, false, ◌&&◌, ◌||◌, List, [], ◌∷◌, ◌↔◌, ◌⊎◌, inl, inr, ◌≡◌, refl, sym, subst, arith,
  ◌==◌, ltb, if◌then◌else◌,
}

abbrev pub Text : Type 0
Text = List ℕ

pub Text-discrete : Discrete Text
Text-discrete = hlevel ℕ_discrete

pub Text-set : IsSet Text
Text-set = hlevel

-- The bytes of an ASCII literal.
abbrev pub codes : String → Text
codes String.[] = []
codes (String.◌∷◌ c s) = code c ∷ codes s

unfoldable pub same : Text → Text → Bool
same [] [] = true
same [] (b ∷ t) = false
same (a ∷ s) [] = false
same (a ∷ s) (b ∷ t) = (a == b) && same s t

-- The order `<` of Go strings.
unfoldable pub text_lt : Text → Text → Bool
text_lt s [] = false
text_lt [] (b ∷ t) = true
text_lt (a ∷ s) (b ∷ t) = ltb a b || ((a == b) && text_lt s t)

pub same→eq : (s t : Text) → same s t ≡ true → s ≡ t
unfolding same
same→eq [] [] h = refl
same→eq [] (b ∷ t) h = ground arith
same→eq (a ∷ s) [] h = ground arith
same→eq (a ∷ s) (b ∷ t) h = ground (arith, same→eq s t)

pub same_self : (s : Text) → same s s ≡ true
unfolding same
same_self [] = refl
same_self (a ∷ s) = ground (arith, same_self s)

pub same_iff : (s t : Text) → (same s t ≡ true) ↔ (s ≡ t)
same_iff s t = (same→eq s t, λ e. ground (arith, same_self s))

pub text_lt_irrefl : (s : Text) → text_lt s s ≡ false
unfolding text_lt
text_lt_irrefl [] = refl
text_lt_irrefl (a ∷ s) = ground (arith, text_lt_irrefl s)

pub text_lt_trans : (s t u : Text) → text_lt s t ≡ true → text_lt t u ≡ true → text_lt s u ≡ true
unfolding text_lt
text_lt_trans s [] u h k = ground arith
text_lt_trans s (b ∷ t) [] h k = ground arith
text_lt_trans [] (b ∷ t) (c ∷ u) h k = refl
text_lt_trans (a ∷ s) (b ∷ t) (c ∷ u) h k = ground (arith, text_lt_trans s t u)

-- Of two texts one is smaller, or they are equal.
pub text_lt_total : (s t : Text) → (text_lt s t ≡ true) ⊎ ((s ≡ t) ⊎ (text_lt t s ≡ true))
unfolding text_lt
text_lt_total [] [] = inr (inl refl)
text_lt_total [] (b ∷ t) = inl refl
text_lt_total (a ∷ s) [] = inr (inr refl)
text_lt_total (a ∷ s) (b ∷ t) = ground (arith, text_lt_total s t)

pub text_lt_asymm : (s t : Text) → text_lt s t ≡ true → text_lt t s ≡ false
unfolding text_lt
text_lt_asymm s [] h = ground arith
text_lt_asymm [] (b ∷ t) h = refl
text_lt_asymm (a ∷ s) (b ∷ t) h = ground (arith, text_lt_asymm s t)

-- A text that is a given one is no other.
pub same_apart : (s t u : Text) → same s t ≡ true → same t u ≡ false → same s u ≡ false
same_apart s t u h k = subst (λ x. same x u ≡ false) (sym (same→eq s t h)) k

pub same_comm : (s t : Text) → same s t ≡ same t s
unfolding same
same_comm [] [] = refl
same_comm [] (b ∷ t) = refl
same_comm (a ∷ s) [] = refl
same_comm (a ∷ s) (b ∷ t) = ground (arith, same_comm s t)

-- A map with the value of one key replaced.
abbrev pub set_at {ℓ} : {A : Type ℓ} → Text → A → (Text → A) → Text → A
set_at key a f k = if same k key then a else f k
