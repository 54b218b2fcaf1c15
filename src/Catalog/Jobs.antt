-- ===== src/Catalog/Jobs.antt =====
-- The durable job queue: UpsertJob, UpsertJobs and ClaimNextJob of
-- internal/enginev2/catalog/sqlite/views.go, and jobs.go and queue.go there.
pub mod Rows
pub mod Upsert
pub mod Claim
pub mod Exclusive
use grepai.Base.{
  ℕ, suc, ◌+◌, Bool, true, false, ◌&&◌, ◌||◌, not, List, [], ◌∷◌, Option, none, some, if◌then◌else◌,
  ltb, leb, ◌==◌, arith,
}
use grepai.Base.Text.{Text, same, text_lt}
use grepai.Core.Job.{Job, Priority}
use grepai.Catalog.Tables.{
  Database, JobRow, WorktreeRow, DeadLetterRow, delete_where, update_where, count_where, find_where,
}
use grepai.Catalog.Tx.{
  Tx, Op, ◌>>=◌, ◌>>◌, pure, fail, exec, query, read, with_write_tx, no_rows, Result, ok, err,
  Outcome,
}

-- WHERE worktree_id=? AND relative_path=?
unfoldable pub job_at : Text → Text → JobRow → Bool
job_at wt path r = same r.worktree_id wt && same r.relative_path path

-- The row that UpsertJob inserts.
unfoldable pub new_row : Job → ℕ → JobRow
new_row j id = record {
  job_id = id;
  worktree_id = j.worktree_id;
  relative_path = j.path;
  desired_hash = j.desired_hash;
  generation = j.generation;
  operation = j.operation;
  priority = j.priority;
  attempts = j.attempts;
  claimed = false;
}

-- DO UPDATE SET ... WHERE excluded.generation >= index_jobs.generation
unfoldable pub supersede_row : Job → JobRow → JobRow
supersede_row j r =
    if leb r.generation j.generation
    then record r {
      desired_hash = j.desired_hash;
      generation = j.generation;
      operation = j.operation;
      priority = j.priority;
      attempts = j.attempts;
      claimed = false;
    }
    else r

unfoldable pub upsert_rows : Job → ℕ → List JobRow → List JobRow
unfolding new_row supersede_row job_at
upsert_rows j id [] = new_row j id ∷ []
upsert_rows j id (r ∷ rs) =
    if job_at j.worktree_id j.path r then supersede_row j r ∷ rs else r ∷ upsert_rows j id rs

-- The statement of upsertJobTx. A conflict may or may not use up an id; ids only need to grow.
unfoldable pub upsert_stmt : Job → Database → Option Database
unfolding upsert_rows
upsert_stmt j db = some (record db {
  index_jobs = upsert_rows j db.next_job_id db.index_jobs;
  next_job_id = suc db.next_job_id;
})

unfoldable pub upsert_job_tx : Job → Tx (Unit {0})
unfolding upsert_stmt exec
upsert_job_tx j = exec (upsert_stmt j)

unfoldable pub upsert_job : Job → Op (Unit {0})
unfolding upsert_job_tx with_write_tx
upsert_job j = with_write_tx (upsert_job_tx j)

unfoldable pub upsert_all : List Job → Tx (Unit {0})
unfolding upsert_job_tx
upsert_all [] = pure tt
upsert_all (j ∷ js) = let rest = upsert_all js in do upsert_job_tx j; rest

unfoldable pub upsert_jobs : List Job → Op (Unit {0})
unfolding upsert_all with_write_tx
upsert_jobs [] fault n db = record { result = ok tt; tables = db; clock = n }
upsert_jobs (j ∷ js) fault n db = with_write_tx (upsert_all (j ∷ js)) fault n db

-- ORDER BY priority ASC, job_id ASC
unfoldable pub comes_first : JobRow → JobRow → Bool
comes_first r q = ltb r.priority q.priority || ((r.priority == q.priority) && leb r.job_id q.job_id)

prefer : JobRow → Option JobRow → Option JobRow
unfolding comes_first
prefer r none = some r
prefer r (some q) = some (if comes_first r q then r else q)

-- SELECT ... WHERE ... ORDER BY priority ASC, job_id ASC LIMIT 1
unfoldable pub first_row : (JobRow → Bool) → List JobRow → Option JobRow
unfolding prefer
first_row p [] = none
first_row p (r ∷ rs) = let rest = first_row p rs in if p r then prefer r rest else rest

unfoldable pub job_of : JobRow → Job
job_of r = record {
  worktree_id = r.worktree_id;
  path = r.relative_path;
  desired_hash = r.desired_hash;
  generation = r.generation;
  operation = r.operation;
  priority = r.priority;
  attempts = r.attempts;
}

unfoldable pub claim_stmt : ℕ → Database → Option Database
unfolding update_where
claim_stmt id db = some (record db {
  index_jobs = update_where (λ r. r.job_id == id) (λ r. record r { claimed = true }) db.index_jobs;
})

-- The body that the two claims share; `none` is the result `found = false`.
unfoldable pub claim_selected : Option JobRow → Tx (Option Job)
unfolding claim_stmt exec job_of
claim_selected none = pure none
claim_selected (some r) = do exec (claim_stmt r.job_id); pure (some (job_of r))

unfoldable pub claimable : Priority → JobRow → Bool
claimable min_priority r = not r.claimed && leb r.priority min_priority

unfoldable pub claim_next_tx : Priority → Tx (Option Job)
unfolding claim_selected query first_row claimable
claim_next_tx min_priority = do
  row ← query (λ db. first_row (claimable min_priority) db.index_jobs)
  claim_selected row

unfoldable pub claim_next_job : Priority → Op (Option Job)
unfolding claim_next_tx with_write_tx
claim_next_job min_priority = with_write_tx (claim_next_tx min_priority)

-- JOIN worktrees w ON w.worktree_id = j.worktree_id, and its w.repository_id
unfoldable pub repository_of : List WorktreeRow → Text → Option Text
repository_of [] wt = none
repository_of (w ∷ ws) wt =
    if same w.worktree_id wt then some w.repository_id else repository_of ws wt

abbrev in_repository : Text → Option Text → Bool
in_repository repo none = false
in_repository repo (some r) = same r repo

unfoldable pub claimable_in : Text → Priority → List WorktreeRow → JobRow → Bool
unfolding claimable repository_of
claimable_in repo min_priority ws r =
    claimable min_priority r && in_repository repo (repository_of ws r.worktree_id)

unfoldable pub claim_in_repo_tx : Text → Priority → Tx (Option Job)
unfolding claim_selected query first_row claimable_in
claim_in_repo_tx repo min_priority = do
  row ← query (λ db. first_row (claimable_in repo min_priority db.worktrees) db.index_jobs)
  claim_selected row

unfoldable pub claim_next_job_in_repo : Text → Priority → Op (Option Job)
unfolding claim_in_repo_tx with_write_tx
claim_next_job_in_repo repo min_priority = with_write_tx (claim_in_repo_tx repo min_priority)
