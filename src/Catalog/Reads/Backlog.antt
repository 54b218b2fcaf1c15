-- ===== src/Catalog/Reads/Backlog.antt =====
-- The backfill of symbols: its list and its count (internal/enginev2/catalog/sqlite/symbols.go).
use grepai.Base.{
  ℕ, suc, ◌≡◌, refl, ◌∙◌, ap, sym, Bool, List, [], ◌∷◌, map, select, length, length-map, arith,
}
use grepai.Base.Text.{Text}
use grepai.Catalog.Tables.{Database, count_where}
use grepai.Catalog.Tx.{Faults, Result, ok, err, read}
use grepai.Catalog.Reads.{
  insert_by, sort_by, joined, is_missing, missing_of, path_before, artifacts_missing_symbols,
  count_artifacts_missing_symbols,
}

length-insert_by :
    {A : Type 0} (before : A → A → Bool) (a : A) (bs : List A)
    → length (insert_by before a bs) ≡ suc (length bs)
unfolding insert_by
length-insert_by before a [] = refl
length-insert_by before a (b ∷ bs) = ground (arith, length-insert_by before a bs)

length-sort_by :
    {A : Type 0} (before : A → A → Bool) (xs : List A) → length (sort_by before xs) ≡ length xs
unfolding sort_by
length-sort_by before [] = refl
length-sort_by before (x ∷ xs) =
    length-insert_by before x (sort_by before xs) ∙ ap suc (length-sort_by before xs)

length-select : {A : Type 0} (p : A → Bool) (xs : List A) → length (select p xs) ≡ count_where p xs
unfolding count_where
length-select p [] = refl
length-select p (x ∷ xs) = ground (arith, length-select p xs)

-- The length of a list that a read returns.
abbrev pub counted : {A : Type 0} → Result (List A) → Result ℕ
counted (ok xs) = ok (length xs)
counted (err e) = err e

read-counted :
    {A : Type 0} (q : Database → Result (List A)) (c : Database → Result ℕ) (fault : Faults) (n : ℕ)
    (db : Database)
    → c db ≡ counted (q db)
    → (read c fault n db).result ≡ counted (read q fault n db).result
unfolding read
read-counted q c fault n db h = ground (arith, h)

-- The count of the files whose symbols are still to be extracted is the length of their list, and
-- the two reads fail alike.
pub count_artifacts_missing_symbols_lem :
    (wt : Text) (fault : Faults) (n : ℕ) (db : Database)
    → (count_artifacts_missing_symbols wt fault n db).result
      ≡ counted (artifacts_missing_symbols wt fault n db).result
unfolding count_artifacts_missing_symbols artifacts_missing_symbols
count_artifacts_missing_symbols_lem wt fault n db =
    let rows = joined wt db.file_artifacts db.worktree_files in
    let sorted = sort_by path_before (select is_missing rows) in
    read-counted
      (λ d. ok (
        map missing_of
          (sort_by path_before (select is_missing (joined wt d.file_artifacts d.worktree_files)))))
      (λ d. ok (count_where is_missing (joined wt d.file_artifacts d.worktree_files))) fault n db
      (ap ok (
        sym (
          length-map missing_of sorted
          ∙ length-sort_by path_before (select is_missing rows)
          ∙ length-select is_missing rows)))
