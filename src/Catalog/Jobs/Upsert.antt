-- ===== src/Catalog/Jobs/Upsert.antt =====
-- What UpsertJob and UpsertJobs promise (internal/enginev2/catalog/sqlite/views.go).
use grepai.Base.{
  ℕ, suc, ◌&&◌, List, [], ◌∷◌, Option, none, some, if◌then◌else◌, leb, ◌≡◌, refl, ◌⊎◌, inl, inr,
  arith, ◌∙◌, ap,
}
use grepai.Base.Text.{Text, same, same_iff}
use grepai.Core.Job.{Job}
use grepai.Catalog.Tables.{Database}
use grepai.Catalog.Tx.{DbError, Faults, ran, ok, err, exec}
use grepai.Catalog.Tx.Laws.{with_write_tx_cases, continue_ran, exec_ran}
use grepai.Catalog.Jobs.{
  new_row, supersede_row, upsert_stmt, upsert_job_tx, upsert_all, upsert_jobs,
}
use grepai.Catalog.Jobs.Rows.{find-upsert}
use grepai.Catalog.Settle.{current_intent}

-- The intent that wins: the incoming one, unless the one on record is of a newer generation.
abbrev pub newer : Job → Option (ℕ × Text) → Option (ℕ × Text)
newer j none = some (j.generation, j.desired_hash)
newer j (some (g, h)) =
    if leb g j.generation then some (j.generation, j.desired_hash) else some (g, h)

-- The intents after a plan of jobs, path by path, the later job last.
abbrev pub planned : List Job → Text → Text → Option (ℕ × Text) → Option (ℕ × Text)
planned [] wt path o = o
planned (j ∷ js) wt path o =
    planned js wt path (if same j.worktree_id wt && same j.path path then newer j o else o)

upsert_stmt_intent :
    (j : Job) (wt path : Text) (db db' : Database)
    → upsert_stmt j db ≡ some db'
    → current_intent wt path db' ≡ (
        if same j.worktree_id wt && same j.path path
        then newer j (current_intent wt path db)
        else current_intent wt path db)
unfolding upsert_stmt current_intent supersede_row new_row
upsert_stmt_intent j wt path db db' h = ground (
  arith,
  find-upsert wt path j db.next_job_id db.index_jobs,
  same_iff j.worktree_id wt,
  same_iff j.path path,
)

upsert_all_intent :
    (js : List Job) (wt path : Text) (fault : Faults) (n m : ℕ) (db db' : Database)
    → upsert_all js fault n db ≡ ran tt db' m
    → current_intent wt path db' ≡ planned js wt path (current_intent wt path db)
unfolding upsert_all exec
upsert_all_intent [] wt path fault n m db db' h = ground arith
upsert_all_intent (j ∷ js) wt path fault n m db db' h =
    let (u, db1, k, one, rest) =
      continue_ran fault (upsert_job_tx j fault n db) (λ _. upsert_all js) h in
    upsert_all_intent js wt path fault k m db1 db' rest
    ∙ ap (planned js wt path)
        (upsert_stmt_intent j wt path db db1 (exec_ran (upsert_stmt j) fault n db db1 u k one))

-- A plan is recorded as a whole or not at all: either the call succeeds, and at every path of
-- every worktree the intent afterwards is the newest of the one before and those of the plan, a
-- later job of the plan winning over an earlier one of its generation; or it reports an error, and
-- the tables are as they were.
pub upsert_jobs_lem :
    (js : List Job) (fault : Faults) (n : ℕ) (db : Database)
    → let o = upsert_jobs js fault n db in
      ((o.result ≡ ok tt)
        × ((wt path : Text)
            → current_intent wt path o.tables ≡ planned js wt path (current_intent wt path db)))
      ⊎ ((e : DbError) × (o.result ≡ err e) × (o.tables ≡ db))
unfolding upsert_jobs
upsert_jobs_lem [] fault n db = inl (refl, λ wt path. refl)
upsert_jobs_lem (j ∷ js) fault n db = elim (with_write_tx_cases (upsert_all (j ∷ js)) fault n db) [
  | inl (e, bad, kept) ↦ inr (e, bad, kept)
  | inr (u, m, good, body) ↦
      inl (good, λ wt path. upsert_all_intent (j ∷ js) wt path fault (suc n) m db _ body)
]
