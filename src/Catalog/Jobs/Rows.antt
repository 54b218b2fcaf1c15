-- ===== src/Catalog/Jobs/Rows.antt =====
-- The rows of index_jobs: one to a worktree and path, under the statements of
-- internal/enginev2/catalog/sqlite.
use grepai.Base.{
  ℕ, Bool, true, false, ◌&&◌, List, [], ◌∷◌, Option, none, some, if◌then◌else◌, ◌≡◌, refl, ◌↔◌,
  arith,
}
use grepai.Base.Text.{Text, same, same_iff}
use grepai.Core.Job.{Job}
use grepai.Catalog.Tables.{JobRow, delete_where, update_where, find_where}
use grepai.Catalog.Jobs.{job_at, new_row, supersede_row, upsert_rows}

-- UNIQUE (worktree_id, relative_path).
abbrev pub UniqueRows : List JobRow → Type 0
UniqueRows [] = Unit
UniqueRows (r ∷ rs) = (find_where (job_at r.worktree_id r.relative_path) rs ≡ none) × UniqueRows rs

-- A change of rows that moves none to another worktree or path.
abbrev pub KeepsKey : (JobRow → JobRow) → Type 0
KeepsKey f =
    (r : JobRow) → ((f r).worktree_id ≡ r.worktree_id) × ((f r).relative_path ≡ r.relative_path)

pub job_at_iff :
    (wt path : Text) (r : JobRow)
    → (job_at wt path r ≡ true) ↔ ((r.worktree_id ≡ wt) × (r.relative_path ≡ path))
unfolding job_at
job_at_iff wt path r = (
  (λ h. ground (arith, same_iff r.worktree_id wt, same_iff r.relative_path path)),
  (λ h. ground (arith, same_iff r.worktree_id wt, same_iff r.relative_path path)),
)

find-update_none :
    (wt path : Text) (p : JobRow → Bool) (f : JobRow → JobRow) (rs : List JobRow)
    → KeepsKey f
    → find_where (job_at wt path) rs ≡ none
    → find_where (job_at wt path) (update_where p f rs) ≡ none
unfolding find_where update_where job_at
find-update_none wt path p f [] k h = refl
find-update_none wt path p f (r ∷ rs) k h = ground (arith, k r, find-update_none wt path p f rs k)

find-delete_none :
    (wt path : Text) (p : JobRow → Bool) (rs : List JobRow)
    → find_where (job_at wt path) rs ≡ none
    → find_where (job_at wt path) (delete_where p rs) ≡ none
unfolding find_where delete_where
find-delete_none wt path p [] h = refl
find-delete_none wt path p (r ∷ rs) h = ground (arith, find-delete_none wt path p rs)

pub update-UniqueRows :
    (p : JobRow → Bool) (f : JobRow → JobRow) (rs : List JobRow)
    → KeepsKey f
    → UniqueRows rs
    → UniqueRows (update_where p f rs)
unfolding update_where
update-UniqueRows p f [] k h = tt
update-UniqueRows p f (r ∷ rs) k h = ground (
  arith,
  k r,
  find-update_none r.worktree_id r.relative_path p f rs k h.0,
  update-UniqueRows p f rs k h.1,
)

pub delete-UniqueRows :
    (p : JobRow → Bool) (rs : List JobRow) → UniqueRows rs → UniqueRows (delete_where p rs)
unfolding delete_where
delete-UniqueRows p [] h = tt
delete-UniqueRows p (r ∷ rs) h =
    ground
      (arith, find-delete_none r.worktree_id r.relative_path p rs h.0, delete-UniqueRows p rs h.1)

supersede_row-key : (j : Job) → KeepsKey (supersede_row j)
unfolding supersede_row
supersede_row-key j r = ground arith

-- The row that an upsert leaves, from the row that was there.
abbrev pub merged : Job → ℕ → Option JobRow → JobRow
merged j id none = new_row j id
merged j id (some r) = supersede_row j r

pub find-upsert :
    (wt path : Text) (j : Job) (id : ℕ) (rs : List JobRow)
    → find_where (job_at wt path) (upsert_rows j id rs) ≡ (
        if same j.worktree_id wt && same j.path path
        then some (merged j id (find_where (job_at j.worktree_id j.path) rs))
        else find_where (job_at wt path) rs)
unfolding find_where upsert_rows job_at new_row
find-upsert wt path j id [] = refl
find-upsert wt path j id (r ∷ rs) = ground (
  arith,
  supersede_row-key j r,
  find-upsert wt path j id rs,
  same_iff r.worktree_id wt,
  same_iff r.relative_path path,
  same_iff r.worktree_id j.worktree_id,
  same_iff r.relative_path j.path,
  same_iff j.worktree_id wt,
  same_iff j.path path,
)

upsert-find_none :
    (r : JobRow) (j : Job) (id : ℕ) (rs : List JobRow)
    → job_at j.worktree_id j.path r ≡ false
    → find_where (job_at r.worktree_id r.relative_path) rs ≡ none
    → find_where (job_at r.worktree_id r.relative_path) (upsert_rows j id rs) ≡ none
unfolding job_at
upsert-find_none r j id rs miss h = ground (
  arith,
  find-upsert r.worktree_id r.relative_path j id rs,
  same_iff r.worktree_id j.worktree_id,
  same_iff r.relative_path j.path,
  same_iff j.worktree_id r.worktree_id,
  same_iff j.path r.relative_path,
)

pub upsert-UniqueRows :
    (j : Job) (id : ℕ) (rs : List JobRow) → UniqueRows rs → UniqueRows (upsert_rows j id rs)
unfolding upsert_rows find_where
upsert-UniqueRows j id [] h = (refl, tt)
upsert-UniqueRows j id (r ∷ rs) h =
    ground (arith, supersede_row-key j r, upsert-find_none r j id rs, upsert-UniqueRows j id rs h.1)
