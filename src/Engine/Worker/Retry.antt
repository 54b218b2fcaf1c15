-- ===== src/Engine/Worker/Retry.antt =====
-- Retries and dead letters of a job that failed (internal/enginev2/worker/worker.go, retryOrDeadLetter).
use grepai.Base.{
  ℕ, suc, ◌+◌, ◌<◌, true, false, List, [], ◌∷◌, ◌++◌, Option, none, some, some_inj, if◌then◌else◌,
  leb, ◌≡◌, ◌≢◌, ◌⊎◌, refl, sym, ap, ◌∙◌, Bool-cases, inl, inr, arith,
}
use grepai.Base.Text.{Text, codes}
use grepai.Core.Job.{Job}
use grepai.Catalog.Tables.{Database, JobRow, find_where, update_where}
use grepai.Catalog.Tx.{Faults, Result, ok, err, ran}
use grepai.Catalog.Tx.Laws.{with_write_tx_keeps, exec_then, query_then}
use grepai.Catalog.Jobs.{job_at}
use grepai.Catalog.Settle.{
  current_intent, intent_of, attempted, fail_stmt, fail_tx, scan_attempts, fail_job_attempt,
  dead_letter_job,
}
use grepai.Catalog.Commit.Survive.{dead_letters, settle, newer_intent_survives}
use grepai.Engine.Worker.{
  Cause, Worker, WorkerOutcome, unclassified, committed, superseded, transient, permanent,
  Processed,
}
use grepai.Engine.Worker.Steps.{process_claimed}
use grepai.Engine.Worker.Drive.{
  handled, dead_letter, cause_text, after_attempt, settle_outcome, settle_processed,
}
use grepai.Engine.Worker.Safety.{newer_intent_outlives}

attempt_keeps_intents :
    (j : Job) (wt path : Text) (rs : List JobRow)
    → intent_of (
        find_where (job_at wt path) (
          update_where
            (attempted j)
            (λ r. record r { attempts = r.attempts + 1; claimed = false })
            rs))
      ≡ intent_of (find_where (job_at wt path) rs)
unfolding find_where update_where job_at
attempt_keeps_intents j wt path [] = refl
attempt_keeps_intents j wt path (r ∷ rs) = elim (Bool-cases (attempted j r)) [
  | inl bumped ↦ ground (arith, bumped, attempt_keeps_intents j wt path rs)
  | inr other ↦ ground (arith, other, attempt_keeps_intents j wt path rs)
]

jobs_after :
    (j : Job) (db db' : Database)
    → fail_stmt j db ≡ some db'
    → update_where
        (attempted j)
        (λ r. record r { attempts = r.attempts + 1; claimed = false })
        db.index_jobs
      ≡ db'.index_jobs
unfolding fail_stmt
jobs_after j db db' e = ap (λ d. d.index_jobs) (some_inj e)

scanned_tables :
    (o : Option JobRow) (fault : Faults) (n : ℕ) (db db' : Database) (a m : ℕ)
    → scan_attempts o fault n db ≡ ran a db' m
    → db ≡ db'
scanned_tables none fault n db db' a m e = absurd (cc)
scanned_tables (some r) fault n db db' a m e = ground (arith, e)

fail_stmt-intent :
    (j : Job) (wt path : Text) (db db' : Database)
    → fail_stmt j db ≡ some db'
    → current_intent wt path db' ≡ current_intent wt path db
unfolding fail_stmt current_intent
fail_stmt-intent j wt path db db' e =
    ap (λ rs. intent_of (find_where (job_at wt path) rs)) (sym (jobs_after j db db' e))
    ∙ attempt_keeps_intents j wt path db.index_jobs

fail_tx-intent :
    (j : Job) (wt path : Text) (fault : Faults) (n : ℕ) (db db' : Database) (a m : ℕ)
    → fail_tx j fault n db ≡ ran a db' m
    → current_intent wt path db' ≡ current_intent wt path db
unfolding fail_tx
fail_tx-intent j wt path fault n db db' a m e =
    let (d, changed, rest) = exec_then (fail_stmt j) _ fault n db e in
    let scanned =
      query_then (λ c. find_where (job_at j.worktree_id j.path) c.index_jobs) _ fault (suc n) d
        rest in
    ap (current_intent wt path) (
      sym (
        scanned_tables (find_where (job_at j.worktree_id j.path) d.index_jobs) fault (suc (suc n)) d
          db' a m scanned))
    ∙ fail_stmt-intent j wt path db d changed

fail_job_attempt-intent :
    (j : Job) (wt path : Text) (fault : Faults) (n : ℕ) (db : Database)
    → current_intent wt path (fail_job_attempt j fault n db).tables ≡ current_intent wt path db
unfolding fail_job_attempt
fail_job_attempt-intent j wt path fault n db =
    with_write_tx_keeps (λ d. current_intent wt path d ≡ current_intent wt path db) (fail_tx j)
      fault n db refl (λ a d m e. fail_tx-intent j wt path fault (suc n) db d a m e)

module _ (sha256_hex : Text → Text) (fault : Faults) (others : ℕ → Database → Database)
    (w : Worker) where
  handled_tables :
      (r : Result (Unit {0})) (d : Database) (n : ℕ)
      → (handled sha256_hex fault others w (record { result = r; tables = d; clock = n })).tables
        ≡ d
  handled_tables (ok u) d n = refl
  handled_tables (err x) d n = refl

module _ (sha256_hex : Text → Text) (fault : Faults) (others : ℕ → Database → Database) (w : Worker)
    (job : Job) (wt path : Text) (g : ℕ) (h : Text)
    (newer : (job.generation < g) ⊎ (h ≢ job.desired_hash))
    (others_keep : (m : ℕ) (d : Database)
      → current_intent wt path d ≡ some (g, h)
      → current_intent wt path (others m d) ≡ some (g, h)) where
  dead_letter-intent :
      (prefix : Text) (cause : Option Cause) (n : ℕ) (db : Database)
      → current_intent wt path db ≡ some (g, h)
      → current_intent wt path (dead_letter sha256_hex fault others w job prefix cause n db).tables
        ≡ some (g, h)
  unfolding dead_letter settle
  dead_letter-intent prefix cause n db e =
      let reason = prefix ++ cause_text sha256_hex fault others w cause in
      let o = dead_letter_job job reason fault n (others n db) in
      ap (current_intent wt path)
        (handled_tables sha256_hex fault others w o.result o.tables o.clock)
      ∙ newer_intent_survives (dead_letters job reason) fault n (others n db) wt path g h
          (others_keep n db e) newer

  after_attempt-intent :
      (cause : Option Cause) (r : Result ℕ) (db : Database) (n : ℕ)
      → current_intent wt path db ≡ some (g, h)
      → current_intent wt path
          (after_attempt sha256_hex fault others w job cause
            (record { result = r; tables = db; clock = n })).tables
        ≡ some (g, h)
  unfolding after_attempt
  after_attempt-intent cause (err x) db n e = e
  after_attempt-intent cause (ok attempts) db n e =
      elim (leb w.max_attempts attempts)
        as (λ b.
          current_intent wt path (
            (if b
              then dead_letter sha256_hex fault others w job (codes "attempts exhausted: ") cause n
                  db
              else record { did = true; error = none; tables = db; clock = n }).tables)
          ≡ some (g, h)) [
            | true ↦ dead_letter-intent (codes "attempts exhausted: ") cause n db e
            | false ↦ e
          ]

  settle_outcome-intent :
      (outcome : WorkerOutcome) (p : Processed)
      → current_intent wt path p.tables ≡ some (g, h)
      → current_intent wt path (settle_outcome sha256_hex fault others w job outcome p).tables
        ≡ some (g, h)
  unfolding settle_outcome
  settle_outcome-intent unclassified p e = e
  settle_outcome-intent committed p e = e
  settle_outcome-intent superseded p e = e
  settle_outcome-intent permanent p e =
      dead_letter-intent (codes "permanent: ") p.cause p.clock p.tables e
  settle_outcome-intent transient p e =
      let o = fail_job_attempt job fault p.clock (others p.clock p.tables) in
      after_attempt-intent p.cause o.result o.tables o.clock (
        fail_job_attempt-intent job wt path fault p.clock (others p.clock p.tables)
        ∙ others_keep p.clock p.tables e)

-- An intent of a newer generation than a job's, or one that has another hash than the job's,
-- outlives the whole handling of the job: its processing and then the retry or the dead letter,
-- wherever these fail or crash, if the other processes do not take it away.
pub newer_intent_outlives_retry :
    (sha256_hex : Text → Text) (fault : Faults) (others : ℕ → Database → Database) (w : Worker)
    (job : Job) (n : ℕ) (db : Database) (wt path : Text) (g : ℕ) (h : Text)
    → current_intent wt path db ≡ some (g, h)
    → (job.generation < g) ⊎ (h ≢ job.desired_hash)
    → ((m : ℕ) (d : Database)
        → current_intent wt path d ≡ some (g, h)
        → current_intent wt path (others m d) ≡ some (g, h))
    → current_intent wt path
        (settle_processed sha256_hex fault others w job
          (process_claimed sha256_hex fault others w job n db)).tables
      ≡ some (g, h)
unfolding settle_processed
newer_intent_outlives_retry sha256_hex fault others w job n db wt path g h e newer keep =
    let p = process_claimed sha256_hex fault others w job n db in
    settle_outcome-intent sha256_hex fault others w job wt path g h newer keep p.outcome p
      (newer_intent_outlives sha256_hex fault others w job n db wt path g h e newer keep)
