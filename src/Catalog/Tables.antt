-- ===== src/Catalog/Tables.antt =====
-- The tables of the catalog (internal/enginev2/catalog/sqlite/schema.go), each a list of rows in
-- the order of insertion. The created_at and updated_at stamps are left out.
use grepai.Base.{ℕ, ◌+◌, Bool, List, [], ◌∷◌, Option, none, some, if◌then◌else◌}
use grepai.Base.Text.{Text}
use grepai.Core.Job.{Operation, Priority}

pub record RepositoryRow : Type 0 where
  pub repository_id : Text
  pub root_path : Text
  pub git_common_dir : Text

pub record WorktreeRow : Type 0 where
  pub worktree_id : Text
  pub repository_id : Text
  pub root_path : Text
  pub registration_generation : ℕ

pub data GenerationStatus : Type 0 where
  building active retired : GenerationStatus

pub record GenerationRow : Type 0 where
  pub repository_id : Text
  pub generation : ℕ
  pub fingerprint : Text
  pub status : GenerationStatus

pub record ArtifactRow : Type 0 where
  pub artifact_id : Text
  pub repository_id : Text
  pub relative_path : Text
  pub source_hash : Text
  pub fingerprint : Text
  pub dimensions : ℕ
  pub symbols_version : ℕ

-- `vector` is the blob.
pub record ChunkRow : Type 0 where
  pub chunk_id : Text
  pub repository_id : Text
  pub fingerprint : Text
  pub dimensions : ℕ
  pub vector : Text
  pub content : Text

pub record ArtifactChunkRow : Type 0 where
  pub artifact_id : Text
  pub ordinal : ℕ
  pub chunk_id : Text
  pub start_line : ℕ
  pub end_line : ℕ

pub record ViewRow : Type 0 where
  pub worktree_id : Text
  pub relative_path : Text
  pub artifact_id : Text
  pub generation : ℕ

pub record JobRow : Type 0 where
  pub job_id : ℕ
  pub worktree_id : Text
  pub relative_path : Text
  pub desired_hash : Text
  pub generation : ℕ
  pub operation : Operation
  pub priority : Priority
  pub attempts : ℕ
  pub claimed : Bool

pub record DeadLetterRow : Type 0 where
  pub worktree_id : Text
  pub relative_path : Text
  pub reason : Text

pub record SymbolRow : Type 0 where
  pub artifact_id : Text
  pub name : Text
  pub kind : Text
  pub line : ℕ
  pub end_line : ℕ
  pub signature : Text
  pub receiver : Text
  pub package_name : Text
  pub exported : Bool
  pub language : Text
  pub docstring : Text

pub record SymbolEdgeRow : Type 0 where
  pub artifact_id : Text
  pub caller : Text
  pub callee : Text
  pub line : ℕ
  pub context : Text

-- `next_job_id` is the AUTOINCREMENT counter of index_jobs: above every id ever given out.
pub record Database : Type 0 where
  pub repositories : List RepositoryRow
  pub worktrees : List WorktreeRow
  pub index_generations : List GenerationRow
  pub file_artifacts : List ArtifactRow
  pub chunks : List ChunkRow
  pub artifact_chunks : List ArtifactChunkRow
  pub worktree_files : List ViewRow
  pub index_jobs : List JobRow
  pub dead_letter_jobs : List DeadLetterRow
  pub symbols : List SymbolRow
  pub symbol_edges : List SymbolEdgeRow
  pub next_job_id : ℕ

unfoldable pub empty_database : Database
empty_database = record {
  repositories = [];
  worktrees = [];
  index_generations = [];
  file_artifacts = [];
  chunks = [];
  artifact_chunks = [];
  worktree_files = [];
  index_jobs = [];
  dead_letter_jobs = [];
  symbols = [];
  symbol_edges = [];
  next_job_id = 1;
}

-- DELETE ... WHERE, UPDATE ... SET ... WHERE, and the number of rows that a WHERE meets.
module _ {ℓ} {A : Type ℓ} where
  unfoldable pub delete_where : (A → Bool) → List A → List A
  delete_where p [] = []
  delete_where p (r ∷ rs) = if p r then delete_where p rs else r ∷ delete_where p rs

  unfoldable pub update_where : (A → Bool) → (A → A) → List A → List A
  update_where p f [] = []
  update_where p f (r ∷ rs) = (if p r then f r else r) ∷ update_where p f rs

  unfoldable pub count_where : (A → Bool) → List A → ℕ
  count_where p [] = 0
  count_where p (r ∷ rs) = (if p r then 1 else 0) + count_where p rs

  -- SELECT ... WHERE: the first row.
  unfoldable pub find_where : (A → Bool) → List A → Option A
  find_where p [] = none
  find_where p (r ∷ rs) = if p r then some r else find_where p rs
