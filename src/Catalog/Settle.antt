-- ===== src/Catalog/Settle.antt =====
-- How jobs leave the queue: internal/enginev2/catalog/sqlite/jobs.go, with the reads of queue.go.
use grepai.Base.{
  ℕ, ◌+◌, Bool, false, ◌&&◌, [], ◌∷◌, ◌++◌, Option, none, some, if◌then◌else◌, leb, ◌==◌,
}
use grepai.Base.Text.{Text, same}
use grepai.Core.Job.{Job}
use grepai.Catalog.Tables.{Database, JobRow, delete_where, update_where, count_where, find_where}
use grepai.Catalog.Jobs.{job_at}
use grepai.Catalog.Tx.{
  Tx, Op, ◌>>=◌, ◌>>◌, pure, fail, exec, query, read, with_write_tx, no_rows, Result, ok, err,
}

-- WHERE worktree_id=? AND relative_path=? AND generation<=? AND desired_hash=?
unfoldable pub fulfilled : Text → Text → ℕ → Text → JobRow → Bool
unfolding job_at
fulfilled wt path gen hash r =
    job_at wt path r && (leb r.generation gen && same r.desired_hash hash)

-- The DELETE with that condition.
unfoldable pub complete_stmt : Text → Text → ℕ → Text → Database → Option Database
unfolding fulfilled delete_where
complete_stmt wt path gen hash db =
    some (record db { index_jobs = delete_where (fulfilled wt path gen hash) db.index_jobs })

unfoldable pub dead_letter_stmt : Job → Text → Database → Option Database
dead_letter_stmt j reason db = some (record db {
  dead_letter_jobs =
      db.dead_letter_jobs
      ++ (record { worktree_id = j.worktree_id; relative_path = j.path; reason = reason } ∷ []);
})

abbrev pub unless_zero : ℕ → Tx (Unit {0}) → Tx (Unit {0})
unless_zero n rest = if n == 0 then pure tt else rest

unfoldable pub dead_letter_tx : Job → Text → Tx (Unit {0})
unfolding complete_stmt dead_letter_stmt exec query count_where fulfilled
dead_letter_tx j reason = do
  n ←
      query (λ db.
        count_where (fulfilled j.worktree_id j.path j.generation j.desired_hash) db.index_jobs)
  exec (complete_stmt j.worktree_id j.path j.generation j.desired_hash)
  unless_zero n (exec (dead_letter_stmt j reason))

unfoldable pub dead_letter_job : Job → Text → Op (Unit {0})
unfolding dead_letter_tx with_write_tx
dead_letter_job j reason = with_write_tx (dead_letter_tx j reason)

unfoldable pub drop_jobs_stmt : Text → Database → Option Database
unfolding delete_where
drop_jobs_stmt wt db =
    some (record db { index_jobs = delete_where (λ r. same r.worktree_id wt) db.index_jobs })

unfoldable pub delete_jobs_for_worktree : Text → Op (Unit {0})
unfolding drop_jobs_stmt exec with_write_tx
delete_jobs_for_worktree wt = with_write_tx (exec (drop_jobs_stmt wt))

unfoldable pub requeue_stmt : Database → Option Database
unfolding update_where
requeue_stmt db = some (record db {
  index_jobs = update_where (λ r. r.claimed) (λ r. record r { claimed = false }) db.index_jobs;
})

unfoldable pub requeue_tx : Tx ℕ
unfolding requeue_stmt exec query count_where
requeue_tx = do
  n ← query (λ db. count_where (λ r. r.claimed) db.index_jobs)
  exec requeue_stmt
  pure n

unfoldable pub requeue_claimed_jobs : Op ℕ
unfolding requeue_tx with_write_tx
requeue_claimed_jobs = with_write_tx requeue_tx

-- WHERE worktree_id=? AND relative_path=? AND generation=? AND desired_hash=?
unfoldable pub attempted : Job → JobRow → Bool
unfolding job_at
attempted j r =
    job_at j.worktree_id j.path r
    && ((r.generation == j.generation) && same r.desired_hash j.desired_hash)

unfoldable pub fail_stmt : Job → Database → Option Database
unfolding attempted update_where
fail_stmt j db = some (record db {
  index_jobs =
      update_where (attempted j) (λ r. record r { attempts = r.attempts + 1; claimed = false })
        db.index_jobs;
})

abbrev pub scan_attempts : Option JobRow → Tx ℕ
scan_attempts none = fail no_rows
scan_attempts (some r) = pure r.attempts

unfoldable pub fail_tx : Job → Tx ℕ
unfolding fail_stmt exec query find_where job_at
fail_tx j = do
  exec (fail_stmt j)
  row ← query (λ db. find_where (job_at j.worktree_id j.path) db.index_jobs)
  scan_attempts row

-- A vanished row is no error: there is nothing to retry.
abbrev pub zero_if_vanished : Result ℕ → Result ℕ
zero_if_vanished (err no_rows) = ok 0
zero_if_vanished r = r

unfoldable pub fail_job_attempt : Job → Op ℕ
unfolding fail_tx with_write_tx
fail_job_attempt j fault n db =
    let o = with_write_tx (fail_tx j) fault n db in record o { result = zero_if_vanished o.result }

-- CurrentJob: the generation and the hash that a path is wanted at; `none` is `ok = false`.
abbrev pub intent_of : Option JobRow → Option (ℕ × Text)
intent_of none = none
intent_of (some r) = some (r.generation, r.desired_hash)

unfoldable pub current_intent : Text → Text → Database → Option (ℕ × Text)
unfolding find_where job_at
current_intent wt path db = intent_of (find_where (job_at wt path) db.index_jobs)

unfoldable pub current_job : Text → Text → Op (Option (ℕ × Text))
unfolding current_intent read
current_job wt path = read (λ db. ok (current_intent wt path db))
