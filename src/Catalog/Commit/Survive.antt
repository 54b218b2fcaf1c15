-- ===== src/Catalog/Commit/Survive.antt =====
-- No commit, delete or dead-letter takes a newer intent with it: CommitUpdate, CommitDelete
-- (internal/enginev2/catalog/sqlite/views.go) and DeadLetterJob (jobs.go there).
use grepai.Base.{ℕ, suc, ◌<◌, List, [], ◌∷◌, some, ◌≡◌, refl, ◌≢◌, ◌⊎◌, inl, inr, arith, ◌∙◌, ap}
use grepai.Base.Text.{Text, same_iff}
use grepai.Core.Job.{Job, CommitRequest}
use grepai.Catalog.Tables.{Database, JobRow, find_where, delete_where, count_where}
use grepai.Catalog.Tx.{Faults, Tx, Op, ran, exec, query, ◌>>◌}
use grepai.Catalog.Tx.Laws.{with_write_tx_keeps, exec_then, query_then}
use grepai.Catalog.Jobs.{job_at}
use grepai.Catalog.Settle.{
  fulfilled, complete_stmt, dead_letter_stmt, dead_letter_tx, dead_letter_job, unless_zero,
  intent_of, current_intent,
}
use grepai.Catalog.Commit.{
  commit_update, commit_delete, commit_delete_tx, drop_if_active_tx, drop_view_row_stmt,
}
use grepai.Catalog.Commit.Update.{commit_update_lem}

pub data SettleCall : Type 0 where
  commits : CommitRequest → Job → SettleCall
  deletes : Text → Text → ℕ → Job → SettleCall
  dead_letters : Job → Text → SettleCall

unfoldable pub settle : SettleCall → Op (Unit {0})
unfolding commit_update commit_delete dead_letter_job
settle (commits req job) = commit_update req job
settle (deletes wt path gen job) = commit_delete wt path gen job
settle (dead_letters job reason) = dead_letter_job job reason

-- The generation up to which a call completes jobs, and the hash that they must want.
abbrev pub bound : SettleCall → ℕ
bound (commits req job) = req.view.generation
bound (deletes wt path gen job) = gen
bound (dead_letters job reason) = job.generation

abbrev pub wanted : SettleCall → Text
wanted (commits req job) = job.desired_hash
wanted (deletes wt path gen job) = job.desired_hash
wanted (dead_letters job reason) = job.desired_hash

-- The queue is as it was, or has lost the rows that the call fulfils.
abbrev Settles : ℕ → Text → List JobRow → List JobRow → Type 0
Settles gen hash rs rs' =
    (rs' ≡ rs)
    ⊎ ((wt : Text) × (path : Text) × (rs' ≡ delete_where (fulfilled wt path gen hash) rs))

find-delete :
    (w p wt path : Text) (gen : ℕ) (hash : Text) (rs : List JobRow) (g : ℕ) (h : Text)
    → intent_of (find_where (job_at w p) rs) ≡ some (g, h)
    → (gen < g) ⊎ (h ≢ hash)
    → intent_of (find_where (job_at w p) (delete_where (fulfilled wt path gen hash) rs))
      ≡ some (g, h)
unfolding find_where delete_where fulfilled
find-delete w p wt path gen hash [] g h e d = e
find-delete w p wt path gen hash (r ∷ rs) g h e d =
    ground (arith, find-delete w p wt path gen hash rs g h, same_iff r.desired_hash hash)

Settles-intent :
    (w p : Text) (gen : ℕ) (hash : Text) (db db' : Database) (g : ℕ) (h : Text)
    → Settles gen hash db.index_jobs db'.index_jobs
    → current_intent w p db ≡ some (g, h)
    → (gen < g) ⊎ (h ≢ hash)
    → current_intent w p db' ≡ some (g, h)
unfolding current_intent
Settles-intent w p gen hash db db' g h (inl kept) e d = rw kept e
Settles-intent w p gen hash db db' g h (inr (wt, path, cut)) e d =
    rw cut (find-delete w p wt path gen hash db.index_jobs g h e d)

complete-jobs :
    (wt path : Text) (gen : ℕ) (hash : Text) (db db' : Database)
    → complete_stmt wt path gen hash db ≡ some db'
    → db'.index_jobs ≡ delete_where (fulfilled wt path gen hash) db.index_jobs
unfolding complete_stmt
complete-jobs wt path gen hash db db' h = ground arith

-- A body that leaves the queue alone.
abbrev KeepsJobs : Tx (Unit {0}) → Type 0
KeepsJobs t =
    (fault : Faults) (n : ℕ) (db db' : Database) (u : Unit {0}) (m : ℕ)
    → t fault n db ≡ ran u db' m
    → db'.index_jobs ≡ db.index_jobs

drop_if_active-KeepsJobs : (wt path : Text) (gen : ℕ) → KeepsJobs (drop_if_active_tx wt path gen)
unfolding drop_if_active_tx drop_view_row_stmt exec query
drop_if_active-KeepsJobs wt path gen fault n db db' u m h = ground arith

dead_letter-KeepsJobs : (j : Job) (reason : Text) → KeepsJobs (exec (dead_letter_stmt j reason))
unfolding dead_letter_stmt exec
dead_letter-KeepsJobs j reason fault n db db' u m h = ground arith

unless_zero-KeepsJobs : (c : ℕ) (t : Tx (Unit {0})) → KeepsJobs t → KeepsJobs (unless_zero c t)
unless_zero-KeepsJobs c t k fault n db db' u m h = ground (arith, k fault n db db' u m)

complete_then-Settles :
    (wt path : Text) (gen : ℕ) (hash : Text) (t : Tx (Unit {0}))
    → KeepsJobs t
    → (fault : Faults) (n : ℕ) (db db' : Database) (u : Unit {0}) (m : ℕ)
    → (exec (complete_stmt wt path gen hash) >> t) fault n db ≡ ran u db' m
    → Settles gen hash db.index_jobs db'.index_jobs
complete_then-Settles wt path gen hash t k fault n db db' u m h =
    let (d, e, rest) = exec_then (complete_stmt wt path gen hash) t fault n db h in
    inr (wt, path, k fault (suc n) d db' u m rest ∙ complete-jobs wt path gen hash db d e)

commit_delete-Settles :
    (wt path : Text) (gen : ℕ) (job : Job) (fault : Faults) (n : ℕ) (db db' : Database)
    (u : Unit {0}) (m : ℕ)
    → commit_delete_tx wt path gen job fault n db ≡ ran u db' m
    → Settles gen job.desired_hash db.index_jobs db'.index_jobs
unfolding commit_delete_tx
commit_delete-Settles wt path gen job fault n db db' u m h =
    let count =
      λ (d : Database). count_where (fulfilled wt path gen job.desired_hash) d.index_jobs in
    let h1 = query_then count _ fault n db h in
    complete_then-Settles wt path gen job.desired_hash _
      (unless_zero-KeepsJobs (count db) (drop_if_active_tx wt path gen)
        (drop_if_active-KeepsJobs wt path gen))
      fault (suc n) db db' u m h1

dead_letter-Settles :
    (job : Job) (reason : Text) (fault : Faults) (n : ℕ) (db db' : Database) (u : Unit {0}) (m : ℕ)
    → dead_letter_tx job reason fault n db ≡ ran u db' m
    → Settles job.generation job.desired_hash db.index_jobs db'.index_jobs
unfolding dead_letter_tx
dead_letter-Settles job reason fault n db db' u m h =
    let count = λ (d : Database).
      count_where (fulfilled job.worktree_id job.path job.generation job.desired_hash)
        d.index_jobs in
    let h1 = query_then count _ fault n db h in
    complete_then-Settles job.worktree_id job.path job.generation job.desired_hash _
      (unless_zero-KeepsJobs (count db) (exec (dead_letter_stmt job reason))
        (dead_letter-KeepsJobs job reason))
      fault (suc n) db db' u m h1

settle-Settles :
    (c : SettleCall) (fault : Faults) (n : ℕ) (db : Database)
    → Settles (bound c) (wanted c) db.index_jobs (settle c fault n db).tables.index_jobs
unfolding settle
settle-Settles (commits req job) fault n db = elim (commit_update_lem req job fault n db) [
  | inl (e, _, kept) ↦ inl (ap (λ d. d.index_jobs) kept)
  | inr (_, done) ↦ inr (job.worktree_id, job.path, done.0)
]
settle-Settles (deletes wt path gen job) fault n db =
    with_write_tx_keeps (λ d. Settles gen job.desired_hash db.index_jobs d.index_jobs)
      (commit_delete_tx wt path gen job) fault n db (inl refl)
      (λ u db' m h. commit_delete-Settles wt path gen job fault (suc n) db db' u m h)
settle-Settles (dead_letters job reason) fault n db =
    with_write_tx_keeps (λ d. Settles job.generation job.desired_hash db.index_jobs d.index_jobs)
      (dead_letter_tx job reason) fault n db (inl refl)
      (λ u db' m h. dead_letter-Settles job reason fault (suc n) db db' u m h)

-- An intent on record that is of a newer generation than a commit, a delete or a dead-letter, or
-- that has another hash than its job, is still on record after that call, at the call's own path
-- too and wherever the driver fails.
pub newer_intent_survives :
    (c : SettleCall) (fault : Faults) (n : ℕ) (db : Database) (wt path : Text) (g : ℕ) (h : Text)
    → current_intent wt path db ≡ some (g, h)
    → (bound c < g) ⊎ (h ≢ wanted c)
    → current_intent wt path (settle c fault n db).tables ≡ some (g, h)
newer_intent_survives c fault n db wt path g h =
    Settles-intent wt path (bound c) (wanted c) db (settle c fault n db).tables g h
      (settle-Settles c fault n db)
