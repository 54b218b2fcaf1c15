-- ===== src/Engine/Reconcile/Sorted.antt =====
-- The jobs of one path in a sorted list of jobs (internal/enginev2/reconcile/reconciler.go).
use grepai.Base.{
  Bool, true, false, List, [], ◌∷◌, ◌++◌, ◌≡◌, refl, sym, subst, ◌∙◌, inl, inr, select, Bool-cases,
  arith,
}
use grepai.Core.Job.{Job}
use grepai.Catalog.Reads.{insert_by, sort_by}

pub select_append :
    (p : Job → Bool) (xs ys : List Job) → select p (xs ++ ys) ≡ select p xs ++ select p ys
select_append p [] ys = refl
select_append p (x ∷ xs) ys = ground (arith, select_append p xs ys)

-- Sorting keeps the jobs of a path, where there is one at most.
abbrev pub OneAtMost : List Job → Type 0
OneAtMost [] = Unit
OneAtMost (x ∷ []) = Unit
OneAtMost (x ∷ y ∷ xs) = ⊥

select-insert_out :
    (before : Job → Job → Bool) (p : Job → Bool) (a : Job) (xs : List Job)
    → p a ≡ false
    → select p (insert_by before a xs) ≡ select p xs
unfolding insert_by
select-insert_out before p a [] h = ground (arith, h)
select-insert_out before p a (b ∷ xs) h = ground (arith, h, select-insert_out before p a xs h)

select-insert_in :
    (before : Job → Job → Bool) (p : Job → Bool) (a : Job) (xs : List Job)
    → p a ≡ true
    → select p xs ≡ []
    → select p (insert_by before a xs) ≡ a ∷ []
unfolding insert_by
select-insert_in before p a [] h e = ground (arith, h)
select-insert_in before p a (b ∷ xs) h e = ground (arith, h, e, select-insert_in before p a xs h)

none_after : (x : Job) (xs : List Job) → OneAtMost (x ∷ xs) → xs ≡ []
none_after x [] h = refl
none_after x (y ∷ xs) h = absurd h

none_left :
    (p : Job → Bool) (x : Job) (xs : List Job)
    → p x ≡ true
    → OneAtMost (select p (x ∷ xs))
    → select p xs ≡ []
none_left p x xs taken h =
    none_after x (select p xs) (subst OneAtMost {y = x ∷ select p xs} (ground (arith, taken)) h)

one_of_none : (p : Job → Bool) (xs : List Job) → select p xs ≡ [] → OneAtMost (select p xs)
one_of_none p xs e = subst OneAtMost (sym e) tt

pub select-sort_by :
    (before : Job → Job → Bool) (p : Job → Bool) (xs : List Job)
    → OneAtMost (select p xs)
    → select p (sort_by before xs) ≡ select p xs
unfolding sort_by
select-sort_by before p [] h = refl
select-sort_by before p (x ∷ xs) h = elim (Bool-cases (p x)) [
  | inl taken ↦
      let nothing = none_left p x xs taken h in
      select-insert_in before p x (sort_by before xs) taken
        (select-sort_by before p xs (one_of_none p xs nothing) ∙ nothing)
      ∙ ground (arith, taken, nothing)
  | inr left ↦
      select-insert_out before p x (sort_by before xs) left
      ∙ select-sort_by before p xs (ground (arith, left, h))
      ∙ ground (arith, left)
]
