-- ===== src/Examples/Tables.antt =====
-- Tests of internal/enginev2/catalog/sqlite.
use grepai.Base.{ℕ, ◌≡◌, refl, ◌≢◌, ◌⊎◌, inl, true, false, List, [], ◌∷◌, none, some, All, arith}
use grepai.Base.Text.{Text, codes, same}
use grepai.Core.Job.{
  Job, op_upsert, op_delete, priority_live_change, priority_reconcile, priority_bootstrap, Artifact,
  CommitRequest,
}
use grepai.Catalog.Tables.{
  Database, JobRow, building, active, empty_database, find_where, count_where,
}
use grepai.Catalog.Tx.{DbError, Faults, ok, err}
use grepai.Catalog.Jobs.{upsert_jobs, repository_of, job_at}
use grepai.Catalog.Jobs.Rows.{UniqueRows}
use grepai.Catalog.Jobs.Upsert.{planned, upsert_jobs_lem}
use grepai.Catalog.Jobs.Exclusive.{
  ClaimCall, claim_any, claim_from, hand_out, DistinctJobs, hand_out-DistinctJobs,
}
use grepai.Catalog.Settle.{current_intent}
use grepai.Catalog.Generations.{roll_worktree_generation, active_of, active_in, generation_at}
use grepai.Catalog.Generations.Active.{actives}
use grepai.Catalog.Generations.Consistent.{IsConsistent}
use grepai.Catalog.Generations.Rollover.{ViewEmpty, QueueEmpty, roll_worktree_generation_lem}
use grepai.Catalog.Generations.Calls.{
  RegistryCall, registers_repository, registers_worktree, ensures, creates, rolls, calls,
  calls-IsConsistent,
}
use grepai.Catalog.Commit.{commit_update}
use grepai.Catalog.Commit.Update.{seen, Committed, commit_update_lem}
use grepai.Catalog.Commit.Survive.{commits, settle, newer_intent_survives}
use grepai.Catalog.Commit.Views.{commit_all, NoOlder, commit_all-NoOlder}
use grepai.Catalog.Artifacts.{encode_vector, decode_vector}
use grepai.Catalog.Artifacts.Vectors.{IsPattern, decode_vector-encode_vector}
use grepai.Catalog.Commit.Overtaken.{rollover_then_stale}

abbrev no_faults : Faults
no_faults = λ _. false

abbrev wt : Text
wt = codes "w"

abbrev repo : Text
repo = codes "r"

abbrev main_go : Text
main_go = codes "m"

abbrev job : ℕ → Text → Job
job generation hash = record {
  worktree_id = wt;
  path = main_go;
  desired_hash = hash;
  generation = generation;
  operation = op_upsert;
  priority = priority_live_change;
  attempts = 0;
}

abbrev other_job : Job
other_job = record {
  worktree_id = wt;
  path = codes "n";
  desired_hash = codes "h";
  generation = 1;
  operation = op_upsert;
  priority = priority_reconcile;
  attempts = 0;
}

abbrev queue : List JobRow
queue =
    record {
      job_id = 1;
      worktree_id = wt;
      relative_path = main_go;
      desired_hash = codes "b";
      generation = 2;
      operation = op_upsert;
      priority = priority_live_change;
      attempts = 0;
      claimed = false;
    }
    ∷ record {
      job_id = 2;
      worktree_id = wt;
      relative_path = codes "n";
      desired_hash = codes "h";
      generation = 1;
      operation = op_delete;
      priority = priority_reconcile;
      attempts = 1;
      claimed = false;
    }
    ∷ []

-- One worktree; generation 1 is active and generation 2 is being built.
abbrev db : Database
db = record {
  repositories =
      record { repository_id = repo; root_path = codes "/r"; git_common_dir = codes "/r/.git" }
      ∷ [];
  worktrees =
      record {
        worktree_id = wt;
        repository_id = repo;
        root_path = codes "/r";
        registration_generation = 1;
      }
      ∷ [];
  index_generations =
      record { repository_id = repo; generation = 1; fingerprint = codes "f"; status = active }
      ∷ record { repository_id = repo; generation = 2; fingerprint = codes "g"; status = building }
      ∷ [];
  file_artifacts = [];
  chunks = [];
  artifact_chunks = [];
  worktree_files =
      record { worktree_id = wt; relative_path = main_go; artifact_id = codes "z"; generation = 1 }
      ∷ [];
  index_jobs = queue;
  dead_letter_jobs = [];
  symbols = [];
  symbol_edges = [];
  next_job_id = 3;
}

abbrev artifact : Artifact
artifact = record {
  id = codes "a";
  key = record {
    repository_id = repo;
    relative_path = main_go;
    source_hash = codes "b";
    fingerprint = codes "f";
  };
  dimensions = 2;
  chunks = [];
}

abbrev request : ℕ → CommitRequest
request generation = record {
  view = record {
    worktree_id = wt;
    path = main_go;
    artifact_id = codes "a";
    generation = generation;
  };
  artifact = artifact;
  chunks = [];
  symbols = [];
  symbol_edges = [];
  symbols_extracted = true;
}

abbrev plan : List Job
plan = job 3 (codes "c") ∷ other_job ∷ []

upsert_jobs_lem_example :
    let o = upsert_jobs plan no_faults 0 db in
    ((o.result ≡ ok tt)
      × ((w path : Text)
          → current_intent w path o.tables ≡ planned plan w path (current_intent w path db)))
    ⊎ ((e : DbError) × (o.result ≡ err e) × (o.tables ≡ db))
upsert_jobs_lem_example = upsert_jobs_lem plan no_faults 0 db

queue-UniqueRows : UniqueRows queue
unfolding find_where job_at same
queue-UniqueRows = (refl, (refl, tt))

abbrev two_claims : List ClaimCall
two_claims = claim_any priority_bootstrap ∷ claim_from repo priority_bootstrap ∷ []

hand_out-DistinctJobs_example : DistinctJobs (hand_out two_claims no_faults 0 db)
hand_out-DistinctJobs_example = hand_out-DistinctJobs two_claims no_faults 0 db queue-UniqueRows

empty-IsConsistent : IsConsistent empty_database
unfolding count_where empty_database
empty-IsConsistent = record { one_active = λ r. omega arith; unique_rows = λ r g. omega arith }

abbrev registry_calls : List RegistryCall
registry_calls =
    registers_repository repo (codes "/r") (codes "/r/.git")
    ∷ registers_worktree wt repo (codes "/r") 1
    ∷ ensures repo 1 (codes "f")
    ∷ creates repo 2 (codes "g")
    ∷ rolls wt repo 2
    ∷ []

calls-IsConsistent_example : IsConsistent (calls registry_calls no_faults 0 empty_database)
calls-IsConsistent_example =
    calls-IsConsistent registry_calls no_faults 0 empty_database empty-IsConsistent

db-IsConsistent : IsConsistent db
unfolding count_where active_in generation_at
db-IsConsistent = record { one_active = λ r. ground arith; unique_rows = λ r g. ground arith }

rolled : (roll_worktree_generation wt repo 2 no_faults 0 db).result ≡ ok tt
unfolding roll_worktree_generation same
rolled = refl

roll_worktree_generation_lem_example :
    let db' = (roll_worktree_generation wt repo 2 no_faults 0 db).tables in
    (active_of repo db' ≡ 2)
    × (actives repo db'.index_generations ≢ 0)
    × ViewEmpty wt db'.worktree_files
    × QueueEmpty wt db'.index_jobs
    × (db'.worktrees ≡ db.worktrees)
roll_worktree_generation_lem_example =
    roll_worktree_generation_lem wt repo 2 no_faults 0 db db-IsConsistent rolled

commit_update_lem_example :
    let o = commit_update (request 1) (job 1 (codes "b")) no_faults 0 db in
    ((e : DbError) × (o.result ≡ err e) × (o.tables ≡ db))
    ⊎ ((o.result ≡ ok tt) × Committed (request 1).view (job 1 (codes "b")) db o.tables)
commit_update_lem_example = commit_update_lem (request 1) (job 1 (codes "b")) no_faults 0 db

-- The queue wants `b` at generation 2; a worker commits `b` at generation 1.
wanted_b : current_intent wt main_go db ≡ some (2, codes "b")
unfolding current_intent same
wanted_b = refl

newer_intent_survives_example :
    current_intent wt main_go
      (settle (commits (request 1) (job 1 (codes "b"))) no_faults 0 db).tables
    ≡ some (2, codes "b")
newer_intent_survives_example =
    newer_intent_survives (commits (request 1) (job 1 (codes "b"))) no_faults 0 db wt main_go 2
      (codes "b") wanted_b (inl (omega arith))

abbrev two_commits : List (CommitRequest × Job)
two_commits = (request 1, job 1 (codes "a")) ∷ (request 2, job 2 (codes "b")) ∷ []

commit_all-NoOlder_example :
    NoOlder (seen wt main_go db) (seen wt main_go (commit_all two_commits no_faults 0 db))
commit_all-NoOlder_example = commit_all-NoOlder two_commits no_faults 0 db wt main_go

db-repository : repository_of db.worktrees wt ≡ some repo
unfolding repository_of same
db-repository = refl

abbrev late : List (CommitRequest × Job)
late = (request 1, job 1 (codes "b")) ∷ []

late-Other : All (λ c. (c.0.view.worktree_id ≡ wt) × (c.0.view.generation ≢ 2)) late
late-Other = ((refl, λ h. ground (arith, h)), tt)

rollover_then_stale_example :
    seen wt main_go
      (commit_all late no_faults 0 (roll_worktree_generation wt repo 2 no_faults 0 db).tables)
    ≡ none
rollover_then_stale_example =
    rollover_then_stale wt repo 2 no_faults 0 db db-IsConsistent db-repository rolled late
      late-Other no_faults 0 main_go

-- The bit patterns of 1.0 and -2.0.
abbrev floats : List ℕ
floats = 1065353216 ∷ 3221225472 ∷ []

floats-IsPattern : All IsPattern floats
floats-IsPattern = (omega arith, (omega arith, tt))

decode_vector-encode_vector_example : decode_vector (encode_vector floats) 2 ≡ ok floats
decode_vector-encode_vector_example = decode_vector-encode_vector floats floats-IsPattern
