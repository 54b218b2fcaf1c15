-- ===== src/Engine/Pacing/Order.antt =====
-- The pending repositories are read in ascending order, and where a turn starts among them
-- (internal/enginev2/scheduler/engine.go, catalog/sqlite/queue.go).
use grepai.Base.{
  ℕ, suc, ◌+◌, Bool, true, false, not, List, [], ◌∷◌, ◌++◌, ◌≡◌, refl, sym, ap, ◌∙◌, ◌⊎◌, inl, inr,
  subst, Bool-cases, any, All, All-imp, select, take, drop, arith, true_not_false,
}
use grepai.Base.Text.{Text, same, text_lt, text_lt_trans, text_lt_total, text_lt_asymm}
use grepai.Catalog.Tables.{Database}
use grepai.Catalog.Tx.{Faults, ok, read}
use grepai.Catalog.Reads.{
  insert_by, sort_by, distinct, pending_repositories, repositories_with_pending_jobs,
}
use grepai.Engine.Pacing.{first_after}

-- No text comes before one that stands earlier.
abbrev pub Ascends : List Text → Type 0
Ascends [] = Unit
Ascends (r ∷ rs) = All (λ q. text_lt q r ≡ false) rs × Ascends rs

-- What is not before a text that is not before a third is not before the third.
not_before_trans : (a b c : Text) → text_lt b a ≡ false → text_lt c b ≡ false → text_lt c a ≡ false
not_before_trans a b c h k = elim (Bool-cases (text_lt c a)) [
  | inr e ↦ e
  | inl e ↦ elim (text_lt_total a b) [
    | inl less ↦ absurd (true_not_false (text_lt_trans c a b e less) k)
    | inr (inl eq) ↦ absurd (true_not_false (subst (λ x. text_lt c x ≡ true) eq e) k)
    | inr (inr more) ↦ absurd (true_not_false more h)
  ]
]

-- What comes after a text is before all that is not before it.
before_trans :
    (last r q : Text) → text_lt last r ≡ true → text_lt q r ≡ false → text_lt last q ≡ true
before_trans last r q h k = elim (text_lt_total last q) [
  | inl e ↦ e
  | inr (inl e) ↦ absurd (true_not_false (subst (λ x. text_lt x r ≡ true) e h) k)
  | inr (inr e) ↦ absurd (true_not_false (text_lt_trans q last r e h) k)
]

All-insert :
    (P : Text → Type 0) (a : Text) (bs : List Text)
    → P a
    → All P bs
    → All P (insert_by text_lt a bs)
unfolding insert_by
All-insert P a [] h k = (h, tt)
All-insert P a (b ∷ bs) h k = elim (Bool-cases (text_lt b a)) [
  | inl e ↦ rw e (k.0, All-insert P a bs h k.1)
  | inr e ↦ rw e (h, k)
]

Ascends-insert : (a : Text) (bs : List Text) → Ascends bs → Ascends (insert_by text_lt a bs)
unfolding insert_by
Ascends-insert a [] h = (tt, tt)
Ascends-insert a (b ∷ bs) h = elim (Bool-cases (text_lt b a)) [
  | inl e ↦ rw e (
    All-insert (λ q. text_lt q b ≡ false) a bs (text_lt_asymm b a e) h.0,
    Ascends-insert a bs h.1,
  )
  | inr e ↦ rw e (
    (
      e,
      All-imp (λ q. text_lt q b ≡ false) (λ q. text_lt q a ≡ false) bs
          (λ q k. not_before_trans a b q e k) h.0,
    ),
    h,
  )
]

Ascends-sort : (xs : List Text) → Ascends (sort_by text_lt xs)
unfolding sort_by
Ascends-sort [] = tt
Ascends-sort (x ∷ xs) = Ascends-insert x (sort_by text_lt xs) (Ascends-sort xs)

All-distinct : (P : Text → Type 0) (xs : List Text) → All P xs → All P (distinct xs)
unfolding distinct
All-distinct P [] h = tt
All-distinct P (x ∷ xs) h = elim (Bool-cases (any (same x) (distinct xs))) [
  | inl e ↦ rw e (All-distinct P xs h.1)
  | inr e ↦ rw e (h.0, All-distinct P xs h.1)
]

Ascends-distinct : (xs : List Text) → Ascends xs → Ascends (distinct xs)
unfolding distinct
Ascends-distinct [] h = tt
Ascends-distinct (x ∷ xs) h = elim (Bool-cases (any (same x) (distinct xs))) [
  | inl e ↦ rw e (Ascends-distinct xs h.1)
  | inr e ↦ rw e (All-distinct (λ q. text_lt q x ≡ false) xs h.0, Ascends-distinct xs h.1)
]

-- The repositories after the last one served, and then the others.
unfoldable pub in_turn : Text → List Text → List Text
in_turn last repos = select (λ r. text_lt last r) repos ++ select (λ r. not (text_lt last r)) repos

select_all : (p : Text → Bool) (xs : List Text) → All (λ x. p x ≡ true) xs → select p xs ≡ xs
select_all p [] h = refl
select_all p (x ∷ xs) h = ground (arith, h.0, select_all p xs h.1)

select_nil : (p : Text → Bool) (xs : List Text) → All (λ x. p x ≡ false) xs → select p xs ≡ []
select_nil p [] h = refl
select_nil p (x ∷ xs) h = ground (arith, h.0, select_nil p xs h.1)

-- Where a turn starts: at 0 where no repository comes after the last one, or at the first that does.
abbrev Starts : Text → ℕ → List Text → Type 0
Starts last i repos =
    ((first_after last i repos ≡ 0) × All (λ r. text_lt last r ≡ false) repos)
    ⊎ ((k : ℕ) × (first_after last i repos ≡ i + k)
        × (take k repos ≡ select (λ r. not (text_lt last r)) repos)
        × (drop k repos ≡ select (λ r. text_lt last r) repos))

first_after-Starts : (last : Text) (i : ℕ) (repos : List Text) → Ascends repos → Starts last i repos
unfolding first_after
first_after-Starts last i [] h = inl (refl, tt)
first_after-Starts last i (r ∷ rs) h = elim (Bool-cases (text_lt last r)) [
  | inl e ↦
      let after =
        All-imp (λ q. text_lt q r ≡ false) (λ q. text_lt last q ≡ true) rs
          (λ q k. before_trans last r q e k) h.0 in
      let before =
        All-imp (λ q. text_lt last q ≡ true) (λ q. not (text_lt last q) ≡ false) rs
          (λ q k. ap not k) after in
      inr (
        0,
        ground (arith, e),
        sym (select_nil (λ q. not (text_lt last q)) (r ∷ rs) (ap not e, before)),
        sym (select_all (λ q. text_lt last q) (r ∷ rs) (e, after)),
      )
  | inr e ↦ elim (first_after-Starts last (i + 1) rs h.1) [
    | inl (none_left, others) ↦ inl (ground (arith, e, none_left), (e, others))
    | inr (k, at, taken, dropped) ↦ inr (
      suc k,
      ground (arith, e, at),
      ap (λ l. r ∷ l) taken ∙ ground (arith, e),
      dropped ∙ ground (arith, e),
    )
  ]
]

append_nil : (xs : List Text) → xs ++ [] ≡ xs
append_nil [] = refl
append_nil (x ∷ xs) = ap (λ l. x ∷ l) (append_nil xs)

abbrev rotate : ℕ → List Text → List Text
rotate k repos = drop k repos ++ take k repos

-- The rotation of the loop visits what comes after the last one first.
pub in_turn_lem :
    (last : Text) (repos : List Text)
    → Ascends repos
    → drop (first_after last 0 repos) repos ++ take (first_after last 0 repos) repos
      ≡ in_turn last repos
unfolding in_turn
in_turn_lem last repos h = elim (first_after-Starts last 0 repos h) [
  | inl (start, others) ↦
      ap (λ k. rotate k repos) start
      ∙ append_nil repos
      ∙ sym (
          ap (λ l. l ++ select (λ r. not (text_lt last r)) repos)
            (select_nil (λ r. text_lt last r) repos others)
          ∙ select_all (λ r. not (text_lt last r)) repos
              (All-imp (λ r. text_lt last r ≡ false) (λ r. not (text_lt last r) ≡ true) repos
                (λ q k. ap not k) others))
  | inr (k, start, taken, dropped) ↦
      let at : first_after last 0 repos ≡ k = omega (arith, start) in
      ap (λ j. rotate j repos) at
      ∙ ap (λ l. l ++ take k repos) dropped
      ∙ ap (λ l. select (λ r. text_lt last r) repos ++ l) taken
]

pub pending-Ascends :
    (fault : Faults) (n : ℕ) (db : Database) (repos : List Text)
    → (repositories_with_pending_jobs fault n db).result ≡ ok repos
    → Ascends repos
unfolding repositories_with_pending_jobs read
pending-Ascends fault n db repos e = elim (Bool-cases (fault n)) [
  | inl f ↦ absurd (ground (arith, f))
  | inr f ↦
      let listed = distinct (sort_by text_lt (pending_repositories db.worktrees db.index_jobs)) in
      let same_list : listed ≡ repos = ground (arith, f) in
      subst Ascends same_list
        (Ascends-distinct _ (Ascends-sort (pending_repositories db.worktrees db.index_jobs)))
]
