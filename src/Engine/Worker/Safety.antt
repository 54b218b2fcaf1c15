-- ===== src/Engine/Worker/Safety.antt =====
-- What a worker leaves in the queue, whatever fails (internal/enginev2/worker/worker.go).
use grepai.Base.{
  ℕ, suc, ◌<◌, List, Option, none, some, ◌≡◌, ◌≢◌, ◌⊎◌, refl, sym, subst, ◌∙◌, inl, inr, arith,
}
use grepai.Base.Text.{Text}
use grepai.Core.Job.{Job, Artifact}
use grepai.Catalog.Tables.{Database, JobRow, find_where}
use grepai.Catalog.Tx.{DbError, Faults, Tx, Result, ok, err, with_write_tx, exec}
use grepai.Catalog.Tx.Laws.{with_write_tx_keeps, with_write_tx_cases, exec_ran}
use grepai.Catalog.Jobs.{job_at}
use grepai.Catalog.Settle.{current_intent, intent_of}
use grepai.Catalog.Artifacts.{put_chunk_vector, put_chunk_stmt}
use grepai.Catalog.Commit.{commit_update, commit_update_tx, commit_delete, commit_delete_tx}
use grepai.Catalog.Commit.Survive.{commits, deletes, settle, newer_intent_survives}
use grepai.Engine.Worker.{EndpointResult, Symbols, Worker, committed, Run, next, done}
use grepai.Engine.Worker.Steps.{call, of_outcome, request_of, process, process_claimed, finished}
use grepai.Engine.Worker.Holds.{Holds, Keeps, call-Holds, process-Holds}

put_chunk_keeps_jobs :
    (id repo fp : Text) (vector : List ℕ) (content : Text) (db db' : Database)
    → put_chunk_stmt id repo fp vector content db ≡ some db'
    → db'.index_jobs ≡ db.index_jobs
unfolding put_chunk_stmt
put_chunk_keeps_jobs id repo fp vector content db db' e = ground (arith, e)

put_chunk_vector-Keeps :
    (P : List JobRow → Type 0) (fault : Faults) (id repo fp : Text) (vector : List ℕ)
    (content : Text)
    → Keeps (λ db. P db.index_jobs) fault (put_chunk_vector id repo fp vector content)
unfolding put_chunk_vector
put_chunk_vector-Keeps P fault id repo fp vector content n db h =
    with_write_tx_keeps (λ d. P d.index_jobs) (exec (put_chunk_stmt id repo fp vector content))
      fault n db h
      (λ u db' m ran.
        subst P
          (sym (
            put_chunk_keeps_jobs id repo fp vector content db db'
              (exec_ran (put_chunk_stmt id repo fp vector content) fault (suc n) db db' u m ran)))
          h)

ok_not_err : {A : Type 0} (a : A) (e : DbError) → ¬ (ok a ≡ err e)
ok_not_err a e h = cc

module _ (sha256_hex : Text → Text) (fault : Faults) (others : ℕ → Database → Database)
    (w : Worker) where
  failure_ends :
      {A : Type 0} (P : Database → Type 0) (endpoint : EndpointResult) (r : Result A) (d : Database)
      (c : ℕ)
      → ((e : DbError) → r ≡ err e → P d)
      → Holds P
          (λ _. Unit)
          (of_outcome sha256_hex fault others w endpoint
            (record { result = r; tables = d; clock = c }))
  failure_ends P endpoint (ok a) d c k = tt
  failure_ends P endpoint (err e) d c k = k e refl

  write_ends :
      (P : Database → Type 0) (endpoint : EndpointResult) (body : Tx (Unit {0})) (n : ℕ)
      (db : Database)
      → ((m : ℕ) (d : Database) → P d → P (others m d))
      → P db
      → Holds P (λ _. Unit) (call sha256_hex fault others w endpoint (with_write_tx body) n db)
  unfolding call
  write_ends P endpoint body n db keep h =
      let o = with_write_tx body fault n (others n db) in
      failure_ends P endpoint o.result o.tables o.clock (λ e bad.
        elim (with_write_tx_cases body fault n (others n db)) [
          | inl (_, _, same_tables) ↦ subst P (sym same_tables) (keep n db h)
          | inr (a, m, good, ran) ↦ absurd (ok_not_err a e (sym good ∙ bad))
        ])

  -- What is returned has kept P, or is a commit.
  finished-Holds :
      (P : Database → Type 0) (r : Run EndpointResult)
      → Holds P (λ _. Unit) r
      → ((finished sha256_hex fault others w r).outcome ≡ committed)
        ⊎ P (finished sha256_hex fault others w r).tables
  finished-Holds P (next endpoint n db) h = inl refl
  finished-Holds P (done p) h = inr h

  finished-Keeps :
      (P : Database → Type 0) (r : Run EndpointResult)
      → Holds P P r
      → P (finished sha256_hex fault others w r).tables
  finished-Keeps P (next endpoint n db) h = h
  finished-Keeps P (done p) h = h

module _ (sha256_hex : Text → Text) (fault : Faults) (others : ℕ → Database → Database) (w : Worker)
    (P : Database → Type 0) (job : Job) where
  commit_ends :
      (art : Artifact) (symbols : Option Symbols) (endpoint : EndpointResult) (n : ℕ)
      (db : Database)
      → ((m : ℕ) (d : Database) → P d → P (others m d))
      → P db
      → Holds P
          (λ _. Unit)
          (call sha256_hex fault others w endpoint
            (commit_update (request_of sha256_hex fault others w job art symbols) job)
            n
            db)
  unfolding commit_update
  commit_ends art symbols endpoint n db keep h =
      write_ends sha256_hex fault others w P endpoint
        (commit_update_tx (request_of sha256_hex fault others w job art symbols) job) n db keep h

  delete_ends :
      (endpoint : EndpointResult) (n : ℕ) (db : Database)
      → ((m : ℕ) (d : Database) → P d → P (others m d))
      → P db
      → Holds P
          (λ _. Unit)
          (call sha256_hex fault others w endpoint
            (commit_delete job.worktree_id job.path job.generation job)
            n
            db)
  unfolding commit_delete
  delete_ends endpoint n db keep h =
      write_ends sha256_hex fault others w P endpoint
        (commit_delete_tx job.worktree_id job.path job.generation job) n db keep h

module _ (wt path : Text) (g : ℕ) (h : Text) where
  put_chunk-intent :
      (fault : Faults) (id repo fp : Text) (vector : List ℕ) (content : Text)
      → Keeps
          (λ db. current_intent wt path db ≡ some (g, h))
          fault
          (put_chunk_vector id repo fp vector content)
  unfolding current_intent
  put_chunk-intent fault id repo fp vector content n db e =
      put_chunk_vector-Keeps (λ rs. intent_of (find_where (job_at wt path) rs) ≡ some (g, h)) fault
        id repo fp vector content n db e

  commit-intent :
      (sha256_hex : Text → Text) (fault : Faults) (others : ℕ → Database → Database) (w : Worker)
      (job : Job) (art : Artifact) (symbols : Option Symbols)
      → (job.generation < g) ⊎ (h ≢ job.desired_hash)
      → Keeps
          (λ db. current_intent wt path db ≡ some (g, h))
          fault
          (commit_update (request_of sha256_hex fault others w job art symbols) job)
  unfolding settle
  commit-intent sha256_hex fault others w job art none newer n db e =
      newer_intent_survives (commits (request_of sha256_hex fault others w job art none) job) fault
        n db wt path g h e newer
  commit-intent sha256_hex fault others w job art (some s) newer n db e =
      newer_intent_survives (commits (request_of sha256_hex fault others w job art (some s)) job)
        fault n db wt path g h e newer

  delete-intent :
      (fault : Faults) (job : Job)
      → (job.generation < g) ⊎ (h ≢ job.desired_hash)
      → Keeps
          (λ db. current_intent wt path db ≡ some (g, h))
          fault
          (commit_delete job.worktree_id job.path job.generation job)
  unfolding settle
  delete-intent fault job newer n db e =
      newer_intent_survives (deletes job.worktree_id job.path job.generation job) fault n db wt path
        g h e newer

-- Where no one else writes to the queue, a job whose processing does not end in a commit leaves
-- the queue as it was: an error, a crash or a newer intent loses no job.
pub uncommitted_keeps_jobs :
    (sha256_hex : Text → Text) (fault : Faults) (others : ℕ → Database → Database) (w : Worker)
    (job : Job) (n : ℕ) (db : Database)
    → ((m : ℕ) (d : Database) → (others m d).index_jobs ≡ d.index_jobs)
    → (process_claimed sha256_hex fault others w job n db).outcome ≢ committed
    → (process_claimed sha256_hex fault others w job n db).tables.index_jobs ≡ db.index_jobs
unfolding process_claimed
uncommitted_keeps_jobs sha256_hex fault others w job n db quiet uncommitted =
    let P = λ (d : Database). d.index_jobs ≡ db.index_jobs in
    let keep = λ (m : ℕ) (d : Database) (e : P d). quiet m d ∙ e in
    let ends =
      process-Holds sha256_hex fault others w P keep
        (λ id repo fp vector content.
          put_chunk_vector-Keeps (λ rs. rs ≡ db.index_jobs) fault id repo fp vector content)
        job (λ _. Unit)
        (λ art symbols endpoint m d h.
          commit_ends sha256_hex fault others w P job art symbols endpoint m d keep h)
        (λ endpoint m d h. delete_ends sha256_hex fault others w P job endpoint m d keep h) n db
        refl in
    elim (finished-Holds sha256_hex fault others w P (process sha256_hex fault others w job n db)
      ends) [ inl success ↦ absurd (uncommitted success) | inr kept ↦ kept ]

abbrev Intent : Text → Text → ℕ → Text → Database → Type 0
Intent wt path g h db = current_intent wt path db ≡ some (g, h)

-- An intent of a newer generation than a job's, or one that has another hash than the job's, is still on record
-- after the job was processed, if it is on record before and the other processes do not take it away.
pub newer_intent_outlives :
    (sha256_hex : Text → Text) (fault : Faults) (others : ℕ → Database → Database) (w : Worker)
    (job : Job) (n : ℕ) (db : Database) (wt path : Text) (g : ℕ) (h : Text)
    → current_intent wt path db ≡ some (g, h)
    → (job.generation < g) ⊎ (h ≢ job.desired_hash)
    → ((m : ℕ) (d : Database)
        → current_intent wt path d ≡ some (g, h)
        → current_intent wt path (others m d) ≡ some (g, h))
    → current_intent wt path (process_claimed sha256_hex fault others w job n db).tables
      ≡ some (g, h)
unfolding process_claimed
newer_intent_outlives sha256_hex fault others w job n db wt path g h e newer keep =
    finished-Keeps sha256_hex fault others w (Intent wt path g h)
      (process sha256_hex fault others w job n db)
      (process-Holds sha256_hex fault others w (Intent wt path g h) keep
        (λ id repo fp vector content. put_chunk-intent wt path g h fault id repo fp vector content)
        job (Intent wt path g h)
        (λ art symbols endpoint m d k.
          call-Holds sha256_hex fault others w (Intent wt path g h) keep endpoint
            (commit_update (request_of sha256_hex fault others w job art symbols) job) m d
            (λ m' d' k'.
              commit-intent wt path g h sha256_hex fault others w job art symbols newer m' d' k')
            k)
        (λ endpoint m d k.
          call-Holds sha256_hex fault others w (Intent wt path g h) keep endpoint
            (commit_delete job.worktree_id job.path job.generation job) m d
            (λ m' d' k'. delete-intent wt path g h fault job newer m' d' k') k)
        n db e)
