-- ===== src/Catalog/Commit/Update.antt =====
-- What CommitUpdate does to the views and to the queue (internal/enginev2/catalog/sqlite/views.go).
use grepai.Base.{
  ℕ, suc, Bool, true, false, ◌&&◌, List, [], ◌∷◌, Option, none, some, if◌then◌else◌, leb, ◌≡◌, ◌⊎◌,
  inl, inr, arith, ◌∙◌, ap,
}
use grepai.Base.Text.{Text, same, same_iff}
use grepai.Core.Job.{Job, ViewEntry, CommitRequest}
use grepai.Catalog.Tables.{Database, ViewRow, find_where, delete_where}
use grepai.Catalog.Tx.{DbError, Faults, ran, ok, err, exec, ◌>>◌}
use grepai.Catalog.Tx.Laws.{with_write_tx_cases, exec_ran, exec_then, then_ran, query_then}
use grepai.Catalog.Settle.{fulfilled, complete_stmt}
use grepai.Catalog.Artifacts.{put_artifact_tx, put_artifact_chunks_tx}
use grepai.Catalog.Symbols.{put_artifact_symbols_tx}
use grepai.Catalog.Commit.{
  view_at, switch_rows, switch_stmt, touches_active_view, when, commit_update_tx, commit_update,
}
use grepai.Catalog.Commit.Frame.{
  Frame, Frame-trans, put_artifact-FrameTx, put_artifact_chunks-FrameTx,
  put_artifact_symbols-FrameTx,
}

-- What a worktree shows at a path: the generation and the artifact.
abbrev pub shown : Option ViewRow → Option (ℕ × Text)
shown none = none
shown (some v) = some (v.generation, v.artifact_id)

unfoldable pub seen : Text → Text → Database → Option (ℕ × Text)
unfolding find_where view_at
seen wt path db = shown (find_where (view_at wt path) db.worktree_files)

-- The later of what is shown and the entry; of one generation, the entry.
abbrev pub latest : ViewEntry → Option (ℕ × Text) → Option (ℕ × Text)
latest v none = some (v.generation, v.artifact_id)
latest v (some (g, a)) =
    if leb g v.generation then some (v.generation, v.artifact_id) else some (g, a)

shown-switch :
    (wt path : Text) (v : ViewEntry) (rs : List ViewRow)
    → shown (find_where (view_at wt path) (switch_rows v rs)) ≡ (
        if same v.worktree_id wt && same v.path path
        then latest v (shown (find_where (view_at v.worktree_id v.path) rs))
        else shown (find_where (view_at wt path) rs))
unfolding find_where switch_rows
shown-switch wt path v [] = ground arith
shown-switch wt path v (r ∷ rs) = ground (
  arith,
  shown-switch wt path v rs,
  same_iff r.worktree_id wt,
  same_iff r.relative_path path,
  same_iff r.worktree_id v.worktree_id,
  same_iff r.relative_path v.path,
  same_iff v.worktree_id wt,
  same_iff v.path path,
)

-- The worktrees and the generations stay.
abbrev pub SameRegistry : Database → Database → Type 0
SameRegistry db db' =
    (db'.worktrees ≡ db.worktrees) × (db'.index_generations ≡ db.index_generations)

switch_stmt-seen :
    (v : ViewEntry) (db db' : Database) (wt path : Text)
    → switch_stmt v db ≡ some db'
    → (db'.index_jobs ≡ db.index_jobs)
      × SameRegistry db db'
      × (seen wt path db' ≡ (
          if same v.worktree_id wt && same v.path path
          then latest v (seen v.worktree_id v.path db)
          else seen wt path db))
unfolding switch_stmt seen
switch_stmt-seen v db db' wt path h = (
  ground arith,
  (ground arith, ground arith),
  ground (
    arith,
    shown-switch wt path v db.worktree_files,
    same_iff v.worktree_id wt,
    same_iff v.path path,
  ),
)

complete_stmt-seen :
    (wt path : Text) (gen : ℕ) (hash : Text) (db db' : Database) (w p : Text)
    → complete_stmt wt path gen hash db ≡ some db'
    → (db'.index_jobs ≡ delete_where (fulfilled wt path gen hash) db.index_jobs)
      × SameRegistry db db'
      × (seen w p db' ≡ seen w p db)
unfolding complete_stmt seen
complete_stmt-seen wt path gen hash db db' w p h =
    (ground arith, (ground arith, ground arith), ground arith)

-- The statements that change what is shown, after the artifact is stored.
switch_body :
    (b : Bool) (v : ViewEntry) (job : Job) (fault : Faults) (n : ℕ) (db db' : Database)
    (u : Unit {0}) (m : ℕ)
    → (when b (exec (switch_stmt v))
          >> exec (complete_stmt job.worktree_id job.path v.generation job.desired_hash))
        fault n db
      ≡ ran u db' m
    → (db'.index_jobs
        ≡ delete_where
            (fulfilled job.worktree_id job.path v.generation job.desired_hash)
            db.index_jobs)
      × SameRegistry db db'
      × ((wt path : Text)
          → seen wt path db' ≡ (
              if b && (same v.worktree_id wt && same v.path path)
              then latest v (seen v.worktree_id v.path db)
              else seen wt path db))
switch_body true v job fault n db db' u m h =
    let finish_stmt = complete_stmt job.worktree_id job.path v.generation job.desired_hash in
    let (d, e, rest) = exec_then (switch_stmt v) (exec finish_stmt) fault n db h in
    let done = complete_stmt-seen job.worktree_id job.path v.generation job.desired_hash d db' in
    let last = exec_ran finish_stmt fault (suc n) d db' u m rest in
    (
      (done [] [] last).0
          ∙ ap (delete_where (fulfilled job.worktree_id job.path v.generation job.desired_hash))
              (switch_stmt-seen v db d [] [] e).0,
      (
        (done [] [] last).1.0 ∙ (switch_stmt-seen v db d [] [] e).1.0,
        (done [] [] last).1.1 ∙ (switch_stmt-seen v db d [] [] e).1.1,
      ),
      λ wt path. (done wt path last).2 ∙ (switch_stmt-seen v db d wt path e).2,
    )
switch_body false v job fault n db db' u m h =
    let finish_stmt = complete_stmt job.worktree_id job.path v.generation job.desired_hash in
    let done = complete_stmt-seen job.worktree_id job.path v.generation job.desired_hash db db' in
    let last = exec_ran finish_stmt fault n db db' u m h in
    ((done [] [] last).0, (done [] [] last).1, λ wt path. (done wt path last).2)

touches-Frame :
    (wt : Text) (gen : ℕ) (db db' : Database)
    → Frame db db'
    → touches_active_view wt gen db' ≡ touches_active_view wt gen db
unfolding touches_active_view
touches-Frame wt gen db db' f = rw (f.trees, f.gens)

-- What a commit that succeeds leaves: the queue without the rows that it fulfils, and at each path
-- of each worktree what was shown there, or, at the path of the commit and where its generation
-- may touch the view, the later of that and the commit. The registry stays.
abbrev pub Committed : ViewEntry → Job → Database → Database → Type 0
Committed v job db db' =
    (db'.index_jobs
      ≡ delete_where (fulfilled job.worktree_id job.path v.generation job.desired_hash)
          db.index_jobs)
    × SameRegistry db db'
    × ((wt path : Text)
        → seen wt path db' ≡ (
            if touches_active_view v.worktree_id v.generation db
              && (same v.worktree_id wt && same v.path path)
            then latest v (seen v.worktree_id v.path db)
            else seen wt path db))

Committed-Frame :
    (v : ViewEntry) (job : Job) (db d db' : Database)
    → Frame db d
    → Committed v job d db'
    → Committed v job db db'
unfolding seen
Committed-Frame v job db d db' f (jobs, same_registry, views) = (
  jobs
      ∙ ap (delete_where (fulfilled job.worktree_id job.path v.generation job.desired_hash)) f.jobs,
  (same_registry.0 ∙ f.trees, same_registry.1 ∙ f.gens),
  λ wt path. views wt path ∙ rw (touches-Frame v.worktree_id v.generation db d f, f.views),
)

commit_update_body :
    (req : CommitRequest) (job : Job) (fault : Faults) (n : ℕ) (db db' : Database) (u : Unit {0})
    (m : ℕ)
    → commit_update_tx req job fault n db ≡ ran u db' m
    → Committed req.view job db db'
unfolding commit_update_tx
commit_update_body req job fault n db db' u m h =
    let v = req.view in
    let (_, d1, n1, e1, h1) = then_ran (put_artifact_tx req.artifact) _ fault n db h in
    let (_, d2, n2, e2, h2) =
      then_ran (put_artifact_chunks_tx req.artifact.id req.chunks) _ fault n1 d1 h1 in
    let (_, d3, n3, e3, h3) =
      then_ran
        (put_artifact_symbols_tx req.artifact.id req.symbols req.symbol_edges req.symbols_extracted)
        _ fault n2 d2 h2 in
    let h4 = query_then (touches_active_view v.worktree_id v.generation) _ fault n3 d3 h3 in
    let f = Frame-trans (put_artifact-FrameTx req.artifact fault n db d1 _ n1 e1) (
      Frame-trans (put_artifact_chunks-FrameTx req.artifact.id req.chunks fault n1 d1 d2 _ n2 e2) (
        put_artifact_symbols-FrameTx req.artifact.id req.symbols req.symbol_edges
          req.symbols_extracted fault n2 d2 d3 _ n3 e3)) in
    Committed-Frame v job db d3 db' f (
      switch_body (touches_active_view v.worktree_id v.generation d3) v job fault (suc n3) d3 db' u
        m h4)

-- A commit is visible as a whole or not at all: it fails and the tables are as they were, or it
-- succeeds and the queue, the views and the registry are as `Committed` says.
pub commit_update_lem :
    (req : CommitRequest) (job : Job) (fault : Faults) (n : ℕ) (db : Database)
    → let o = commit_update req job fault n db in
      ((e : DbError) × (o.result ≡ err e) × (o.tables ≡ db))
      ⊎ ((o.result ≡ ok tt) × Committed req.view job db o.tables)
unfolding commit_update
commit_update_lem req job fault n db =
    elim (with_write_tx_cases (commit_update_tx req job) fault n db) [
      | inl failure ↦ inl failure
      | inr (u, m, good, body) ↦ inr (good, commit_update_body req job fault (suc n) db _ u m body)
    ]
