-- ===== src/Core/Fingerprint/Order.antt =====
-- The iteration order of a Go map cannot reach the canonical encoding
-- (internal/enginev2/core/fingerprint.go, IndexingFingerprint.Canonical).
use mathlib.Core.List.{Perm, Permᴰ}
use mathlib.Core.Logic.{∥∥₁_elim}
use grepai.Base.{◌≡◌, refl, sym, ap, ◌∙◌, ◌≢◌, subst, List, [], ◌∷◌, arith, All}
use grepai.Base.Text.{Text, Text-set, same_iff, text_lt_total, text_lt_trans, text_lt_asymm}
use grepai.Core.Fingerprint.{
  IndexingFingerprint, Settings, setting, insert_key, sort_strings, keys, write_settings, canonical,
}

insert_key_comm :
    (a b : Text) (ks : List Text) → insert_key a (insert_key b ks) ≡ insert_key b (insert_key a ks)
unfolding insert_key
insert_key_comm a b [] = ground (arith, text_lt_total a b, text_lt_asymm a b, text_lt_asymm b a)
insert_key_comm a b (k ∷ ks) = ground (
  arith,
  text_lt_total a b,
  text_lt_asymm a b,
  text_lt_asymm b a,
  text_lt_trans a b k,
  text_lt_trans b a k,
  text_lt_trans k a b,
  text_lt_trans k b a,
  text_lt_total a k,
  text_lt_total b k,
  text_lt_asymm a k,
  text_lt_asymm b k,
  insert_key_comm a b ks,
)

keys-perm : {m n : Settings} → Permᴰ m n → sort_strings (keys m) ≡ sort_strings (keys n)
unfolding sort_strings keys
keys-perm Permᴰ.nil = refl
keys-perm (Permᴰ.cons e p) = cc (keys-perm p)
keys-perm (Permᴰ.swap {a} {b} {l} e d) = insert_key_comm a.0 b.0 (sort_strings (keys l)) ∙ cc
keys-perm (Permᴰ.trans p q) = keys-perm p ∙ keys-perm q

abbrev pub Absent : Text → Settings → Type 0
Absent k m = All (λ e. e.0 ≢ k) m

-- The keys of a Go map are distinct.
abbrev pub IsMap : Settings → Type 0
IsMap [] = Unit
IsMap (e ∷ m) = Absent e.0 m × IsMap m

Absent-perm : (k : Text) {m n : Settings} → Permᴰ m n → Absent k m → Absent k n
Absent-perm k Permᴰ.nil h = h
Absent-perm k (Permᴰ.cons e p) h = (λ q. h.0 (ap (λ x. x.0) e ∙ q), Absent-perm k p h.1)
Absent-perm k (Permᴰ.swap e d) h =
    (λ q. h.1.0 (ap (λ x. x.0) d ∙ q), (λ q. h.0 (ap (λ x. x.0) e ∙ q), h.1.1))
Absent-perm k (Permᴰ.trans p q) h = Absent-perm k q (Absent-perm k p h)

IsMap-perm : {m n : Settings} → Permᴰ m n → IsMap m → IsMap n
IsMap-perm Permᴰ.nil h = h
IsMap-perm (Permᴰ.cons {l₂ = l} e p) h =
    (subst (λ x. Absent x.0 l) e (Absent-perm _ p h.0), IsMap-perm p h.1)
IsMap-perm (Permᴰ.swap {l = l} e d) h = (
  (λ q. h.0.0 (ap (λ x. x.0) d ∙ sym q ∙ ap (λ x. x.0) (sym e)), subst (λ x. Absent x.0 l) d h.1.0),
  (subst (λ x. Absent x.0 l) e h.0.1, h.1.1),
)
IsMap-perm (Permᴰ.trans p q) h = IsMap-perm q (IsMap-perm p h)

setting-perm : {m n : Settings} → Permᴰ m n → IsMap m → (k : Text) → setting m k ≡ setting n k
unfolding setting
setting-perm Permᴰ.nil h k = refl
setting-perm (Permᴰ.cons {a} {b} e p) h k = ground (arith, setting-perm p h.1 k)
setting-perm (Permᴰ.swap {a} {b} e d) h k = ground (arith, h.0.0, same_iff a.0 k, same_iff b.0 k)
setting-perm (Permᴰ.trans p q) h k = setting-perm p h k ∙ setting-perm q (IsMap-perm p h) k

write_settings-eq :
    (m n : Settings)
    → ((k : Text) → setting m k ≡ setting n k)
    → (ks : List Text) → write_settings m ks ≡ write_settings n ks
unfolding write_settings
write_settings-eq m n h [] = refl
write_settings-eq m n h (k ∷ ks) = rw (h k, write_settings-eq m n h ks)

canonical-permᴰ :
    (f : IndexingFingerprint) {m : Settings}
    → Permᴰ f.chunker_settings m
    → IsMap f.chunker_settings
    → canonical f ≡ canonical (record f { chunker_settings = m })
unfolding canonical
canonical-permᴰ f {m} p h =
    rw (keys-perm p, write_settings-eq f.chunker_settings m (setting-perm p h))

-- Whatever order a map of chunker settings with distinct keys is iterated in, the encoding is the
-- same.
pub canonical_order :
    (f : IndexingFingerprint) {m : Settings}
    → Perm f.chunker_settings m
    → IsMap f.chunker_settings
    → canonical f ≡ canonical (record f { chunker_settings = m })
canonical_order f p h = ∥∥₁_elim p (Text-set _ _) (λ d. canonical-permᴰ f d h)
