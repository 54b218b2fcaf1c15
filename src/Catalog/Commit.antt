-- ===== src/Catalog/Commit.antt =====
-- The worktree views and the commits that switch them: ResolveView, CommitUpdate, CommitDelete and
-- DeleteWorktreeView of internal/enginev2/catalog/sqlite/views.go, WorktreeInfo of reader.go.
pub mod Frame
pub mod Update
pub mod Survive
pub mod Views
pub mod Overtaken
use grepai.Base.{
  ℕ, Bool, true, false, ◌&&◌, not, List, [], ◌∷◌, ◌++◌, Option, none, some, if◌then◌else◌, leb,
  ◌==◌, arith,
}
use grepai.Base.Text.{Text, same}
use grepai.Core.Job.{Job, ViewEntry, CommitRequest, Artifact}
use grepai.Catalog.Tables.{
  Database, ViewRow, WorktreeRow, GenerationRow, JobRow, delete_where, count_where, find_where,
}
use grepai.Catalog.Jobs.{repository_of}
use grepai.Catalog.Settle.{fulfilled, complete_stmt, unless_zero}
use grepai.Catalog.Generations.{has_worktree, active_in}
use grepai.Catalog.Artifacts.{has_artifact, put_artifact_tx, put_artifact_chunks_tx}
use grepai.Catalog.Symbols.{put_artifact_symbols_tx}
use grepai.Catalog.Tx.{
  Tx, Op, ◌>>=◌, ◌>>◌, pure, fail, exec, query, read, with_write_tx, no_such_worktree, Result, ok,
  err,
}

-- WHERE worktree_id=? AND relative_path=?
unfoldable pub view_at : Text → Text → ViewRow → Bool
view_at wt path v = same v.worktree_id wt && same v.relative_path path

abbrev pub artifact_of : Option ViewRow → Option Text
artifact_of none = none
artifact_of (some v) = some v.artifact_id

unfoldable pub visible : Text → Text → Database → Option Text
unfolding find_where view_at
visible wt path db = artifact_of (find_where (view_at wt path) db.worktree_files)

unfoldable pub resolve_view : Text → Text → Op (Option Text)
unfolding visible read
resolve_view wt path = read (λ db. ok (visible wt path db))

-- DO UPDATE SET ... WHERE excluded.generation >= worktree_files.generation
unfoldable pub switch_row : ViewEntry → ViewRow → ViewRow
switch_row v r =
    if leb r.generation v.generation
    then record r { artifact_id = v.artifact_id; generation = v.generation }
    else r

unfoldable pub switch_rows : ViewEntry → List ViewRow → List ViewRow
unfolding switch_row view_at
switch_rows v [] =
    record {
      worktree_id = v.worktree_id;
      relative_path = v.path;
      artifact_id = v.artifact_id;
      generation = v.generation;
    }
    ∷ []
switch_rows v (r ∷ rs) =
    if view_at v.worktree_id v.path r then switch_row v r ∷ rs else r ∷ switch_rows v rs

-- A new row needs its worktree and its artifact, a switched one its new artifact; a row of a newer
-- generation stays, and nothing is checked.
abbrev switch_over : ViewEntry → Database → Option ViewRow → Option Database
unfolding switch_rows has_artifact has_worktree
switch_over v db none =
    if has_artifact v.artifact_id db && has_worktree v.worktree_id db
    then some (record db { worktree_files = switch_rows v db.worktree_files })
    else none
switch_over v db (some r) =
    if leb r.generation v.generation
    then (if has_artifact v.artifact_id db
        then some (record db { worktree_files = switch_rows v db.worktree_files })
        else none)
    else some db

unfoldable pub switch_stmt : ViewEntry → Database → Option Database
unfolding switch_rows has_artifact has_worktree find_where view_at
switch_stmt v db = switch_over v db (find_where (view_at v.worktree_id v.path) db.worktree_files)

abbrev matches_active : ℕ → Option GenerationRow → Bool
matches_active gen none = true
matches_active gen (some g) = g.generation == gen

abbrev touches_repository : ℕ → List GenerationRow → Option Text → Bool
unfolding find_where active_in
touches_repository gen gs none = true
touches_repository gen gs (some repo) = matches_active gen (find_where (active_in repo) gs)

-- commitTouchesActiveView
unfoldable pub touches_active_view : Text → ℕ → Database → Bool
unfolding find_where active_in repository_of
touches_active_view wt gen db =
    touches_repository gen db.index_generations (repository_of db.worktrees wt)

abbrev pub when : Bool → Tx (Unit {0}) → Tx (Unit {0})
when b m = if b then m else pure tt

unfoldable pub commit_update_tx : CommitRequest → Job → Tx (Unit {0})
unfolding put_artifact_tx put_artifact_chunks_tx put_artifact_symbols_tx touches_active_view
    switch_stmt complete_stmt exec query
commit_update_tx req job = do
  put_artifact_tx req.artifact
  put_artifact_chunks_tx req.artifact.id req.chunks
  put_artifact_symbols_tx req.artifact.id req.symbols req.symbol_edges req.symbols_extracted
  switch_view ← query (touches_active_view req.view.worktree_id req.view.generation)
  when switch_view (exec (switch_stmt req.view))
  exec (complete_stmt job.worktree_id job.path req.view.generation job.desired_hash)

unfoldable pub commit_update : CommitRequest → Job → Op (Unit {0})
unfolding commit_update_tx with_write_tx
commit_update req job = with_write_tx (commit_update_tx req job)

-- WHERE worktree_id=? AND relative_path=? AND generation<=?
unfoldable pub view_up_to : Text → Text → ℕ → ViewRow → Bool
unfolding view_at
view_up_to wt path gen v = view_at wt path v && leb v.generation gen

unfoldable pub drop_view_row_stmt : Text → Text → ℕ → Database → Option Database
unfolding delete_where view_up_to
drop_view_row_stmt wt path gen db =
    some (record db { worktree_files = delete_where (view_up_to wt path gen) db.worktree_files })

unfoldable pub drop_if_active_tx : Text → Text → ℕ → Tx (Unit {0})
unfolding touches_active_view drop_view_row_stmt exec query
drop_if_active_tx wt path gen = do
  touches ← query (touches_active_view wt gen)
  when touches (exec (drop_view_row_stmt wt path gen))

unfoldable pub commit_delete_tx : Text → Text → ℕ → Job → Tx (Unit {0})
unfolding complete_stmt fulfilled count_where exec query drop_if_active_tx
commit_delete_tx wt path gen job = do
  n ← query (λ db. count_where (fulfilled wt path gen job.desired_hash) db.index_jobs)
  exec (complete_stmt wt path gen job.desired_hash)
  unless_zero n (drop_if_active_tx wt path gen)

unfoldable pub commit_delete : Text → Text → ℕ → Job → Op (Unit {0})
unfolding commit_delete_tx with_write_tx
commit_delete wt path gen job = with_write_tx (commit_delete_tx wt path gen job)

unfoldable pub delete_worktree_view : Text → Text → ℕ → Op (Unit {0})
unfolding drop_view_row_stmt exec with_write_tx
delete_worktree_view wt path max_gen = with_write_tx (exec (drop_view_row_stmt wt path max_gen))

abbrev pub info_of : Option WorktreeRow → Result (Text × Text)
info_of none = err no_such_worktree
info_of (some w) = ok (w.root_path, w.repository_id)

unfoldable pub worktree_info : Text → Op (Text × Text)
unfolding find_where read
worktree_info wt = read (λ db. info_of (find_where (λ w. same w.worktree_id wt) db.worktrees))
