-- ===== src/Catalog/Generations.antt =====
-- Repositories, worktrees and index generations: internal/enginev2/catalog/sqlite/registry.go, and
-- RollWorktreeGeneration and GenerationFingerprint of jobs.go there.
pub mod Active
pub mod Consistent
pub mod Rollover
pub mod Calls
use grepai.Base.{
  ℕ, suc, ◌+◌, Bool, true, false, ◌&&◌, not, List, [], ◌∷◌, ◌++◌, Option, none, some, if◌then◌else◌,
  ◌==◌, arith,
}
use grepai.Base.Text.{Text, same}
use grepai.Catalog.Tables.{
  Database, RepositoryRow, WorktreeRow, GenerationRow, GenerationStatus, building, active, retired,
  delete_where, update_where, count_where, find_where,
}
use grepai.Catalog.Settle.{drop_jobs_stmt}
use grepai.Catalog.Tx.{
  Tx, Op, ◌>>=◌, ◌>>◌, pure, fail, exec, query, read, with_write_tx, no_such_generation, Result, ok,
  err, Outcome,
}

unfoldable pub upsert_repository : Text → Text → Text → List RepositoryRow → List RepositoryRow
upsert_repository repo root dir [] =
    record { repository_id = repo; root_path = root; git_common_dir = dir } ∷ []
upsert_repository repo root dir (r ∷ rs) =
    if same r.repository_id repo
    then record r { root_path = root; git_common_dir = dir } ∷ rs
    else r ∷ upsert_repository repo root dir rs

unfoldable pub register_repository_stmt : Text → Text → Text → Database → Option Database
unfolding upsert_repository
register_repository_stmt repo root dir db =
    some (record db { repositories = upsert_repository repo root dir db.repositories })

unfoldable pub register_repository : Text → Text → Text → Op (Unit {0})
unfolding register_repository_stmt exec with_write_tx
register_repository repo root dir = with_write_tx (exec (register_repository_stmt repo root dir))

unfoldable pub has_repository : Text → Database → Bool
unfolding count_where
has_repository repo db =
    not (count_where (λ (r : RepositoryRow). same r.repository_id repo) db.repositories == 0)

unfoldable pub has_worktree : Text → Database → Bool
unfolding count_where
has_worktree wt db =
    not (count_where (λ (w : WorktreeRow). same w.worktree_id wt) db.worktrees == 0)

-- A conflict updates the row and leaves its repository_id; an insertion needs the repository.
unfoldable pub register_worktree_stmt : Text → Text → Text → ℕ → Database → Option Database
unfolding has_worktree has_repository update_where
register_worktree_stmt wt repo root reg_gen db =
    if has_worktree wt db
    then some (record db {
      worktrees =
          update_where (λ w. same w.worktree_id wt)
            (λ w. record w { root_path = root; registration_generation = reg_gen }) db.worktrees;
    })
    else (if has_repository repo db
        then some (record db {
          worktrees =
              db.worktrees
              ++ (record {
                worktree_id = wt;
                repository_id = repo;
                root_path = root;
                registration_generation = reg_gen;
              }
                  ∷ []);
        })
        else none)

unfoldable pub register_worktree : Text → Text → Text → ℕ → Op (Unit {0})
unfolding register_worktree_stmt exec with_write_tx
register_worktree wt repo root reg_gen =
    with_write_tx (exec (register_worktree_stmt wt repo root reg_gen))

-- WHERE repository_id=? AND generation=?
unfoldable pub generation_at : Text → ℕ → GenerationRow → Bool
generation_at repo gen g = same g.repository_id repo && (g.generation == gen)

abbrev pub is_active : GenerationStatus → Bool
is_active active = true
is_active _ = false

-- WHERE repository_id=? AND status='active'
unfoldable pub active_in : Text → GenerationRow → Bool
active_in repo g = same g.repository_id repo && is_active g.status

unfoldable pub has_generation : Text → ℕ → Database → Bool
unfolding count_where generation_at
has_generation repo gen db = not (count_where (generation_at repo gen) db.index_generations == 0)

unfoldable pub add_building : Text → ℕ → Text → Database → Option Database
unfolding has_repository
add_building repo gen fingerprint db =
    if has_repository repo db
    then some (record db {
      index_generations =
          db.index_generations
          ++ (record {
            repository_id = repo;
            generation = gen;
            fingerprint = fingerprint;
            status = building;
          }
              ∷ []);
    })
    else none

-- INSERT, and INSERT OR IGNORE, of a 'building' row.
unfoldable pub create_stmt : Text → ℕ → Text → Database → Option Database
unfolding has_generation add_building
create_stmt repo gen fingerprint db =
    if has_generation repo gen db then none else add_building repo gen fingerprint db

unfoldable pub create_or_ignore_stmt : Text → ℕ → Text → Database → Option Database
unfolding has_generation add_building
create_or_ignore_stmt repo gen fingerprint db =
    if has_generation repo gen db then some db else add_building repo gen fingerprint db

unfoldable pub create_generation : Text → ℕ → Text → Op (Unit {0})
unfolding create_stmt exec with_write_tx
create_generation repo gen fingerprint = with_write_tx (exec (create_stmt repo gen fingerprint))

abbrev pub activated : GenerationRow → GenerationRow
activated g = record g { status = active }

abbrev pub retire_row : GenerationRow → GenerationRow
retire_row g = record g { status = retired }

unfoldable pub activate_stmt : Text → ℕ → Database → Option Database
unfolding update_where generation_at
activate_stmt repo gen db = some (record db {
  index_generations = update_where (generation_at repo gen) activated db.index_generations;
})

-- ... AND NOT EXISTS (SELECT 1 ... status='active')
unfoldable pub activate_if_none_stmt : Text → ℕ → Database → Option Database
unfolding activate_stmt count_where active_in
activate_if_none_stmt repo gen db =
    if count_where (active_in repo) db.index_generations == 0
    then activate_stmt repo gen db
    else some db

unfoldable pub ensure_active_tx : Text → ℕ → Text → Tx (Unit {0})
unfolding create_or_ignore_stmt activate_if_none_stmt exec
ensure_active_tx repo gen fingerprint = do
  exec (create_or_ignore_stmt repo gen fingerprint)
  exec (activate_if_none_stmt repo gen)

unfoldable pub ensure_active_generation : Text → ℕ → Text → Op (Unit {0})
unfolding ensure_active_tx with_write_tx
ensure_active_generation repo gen fingerprint =
    with_write_tx (ensure_active_tx repo gen fingerprint)

unfoldable pub retire_stmt : Text → Database → Option Database
unfolding update_where active_in
retire_stmt repo db = some (record db {
  index_generations = update_where (active_in repo) retire_row db.index_generations;
})

abbrev pub require_generation : ℕ → Tx (Unit {0})
require_generation n = if n == 0 then fail no_such_generation else pure tt

-- Retire the active generation, activate `gen`, and fail where no row is that generation.
unfoldable pub switch_tx : Text → ℕ → Tx (Unit {0})
unfolding retire_stmt activate_stmt exec query count_where generation_at
switch_tx repo gen = do
  exec (retire_stmt repo)
  exec (activate_stmt repo gen)
  n ← query (λ db. count_where (generation_at repo gen) db.index_generations)
  require_generation n

unfoldable pub set_active_generation : Text → ℕ → Op (Unit {0})
unfolding switch_tx with_write_tx
set_active_generation repo gen = with_write_tx (switch_tx repo gen)

unfoldable pub drop_view_stmt : Text → Database → Option Database
unfolding delete_where
drop_view_stmt wt db =
    some
      (record db { worktree_files = delete_where (λ v. same v.worktree_id wt) db.worktree_files })

unfoldable pub roll_tx : Text → Text → ℕ → Tx (Unit {0})
unfolding drop_view_stmt drop_jobs_stmt exec switch_tx
roll_tx wt repo gen = do exec (drop_view_stmt wt); exec (drop_jobs_stmt wt); switch_tx repo gen

unfoldable pub roll_worktree_generation : Text → Text → ℕ → Op (Unit {0})
unfolding roll_tx with_write_tx
roll_worktree_generation wt repo gen = with_write_tx (roll_tx wt repo gen)

abbrev pub generation_of : Option GenerationRow → ℕ
generation_of none = 0
generation_of (some g) = g.generation

-- The active generation on record, 0 where there is none.
unfoldable pub active_of : Text → Database → ℕ
unfolding find_where active_in
active_of repo db = generation_of (find_where (active_in repo) db.index_generations)

-- ActiveGeneration tests `!gen.Valid` before it looks at the error: after a failed read, which
-- sets nothing, it returns 0 and no error.
abbrev pub zero_on_error : Result ℕ → Result ℕ
zero_on_error (ok g) = ok g
zero_on_error (err e) = ok 0

unfoldable pub active_generation : Text → Op ℕ
unfolding active_of read
active_generation repo fault n db =
    let o = read (λ d. ok (active_of repo d)) fault n db in
    record o { result = zero_on_error o.result }

abbrev fingerprint_result : Option GenerationRow → Result Text
fingerprint_result none = err no_such_generation
fingerprint_result (some g) = ok g.fingerprint

unfoldable pub generation_fingerprint : Text → ℕ → Op Text
unfolding find_where generation_at read
generation_fingerprint repo gen =
    read (λ db. fingerprint_result (find_where (generation_at repo gen) db.index_generations))
