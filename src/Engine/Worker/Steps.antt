-- ===== src/Engine/Worker/Steps.antt =====
-- internal/enginev2/worker/worker.go: the steps of ProcessClaimed, in their order.
use grepai.Base.{ℕ, Bool, true, false, ◌&&◌, List, [], ◌∷◌, Option, none, some, if◌then◌else◌}
use grepai.Base.Text.{Text}
use grepai.Core.Identity.{ArtifactKey}
use grepai.Core.Job.{Job, Operation, op_upsert, op_delete, Artifact, ArtifactChunk, CommitRequest}
use grepai.Catalog.Tables.{Database}
use grepai.Catalog.Tx.{Faults, Op, Outcome, ok, err}
use grepai.Catalog.Settle.{current_job}
use grepai.Catalog.Generations.{generation_fingerprint}
use grepai.Catalog.Artifacts.{get_artifact, put_chunk_vector}
use grepai.Catalog.Commit.{commit_update, commit_delete, worktree_info}
use grepai.Catalog.Reads.{artifact_symbols_current}
use grepai.Engine.Worker.{
  EndpointResult, endpoint_not_contacted, BuildOutcome, built, dimension_mismatch, build_failed,
  CrashPoint, after_claim, after_build, after_chunks, catalog_error, load_error, mismatch_error,
  build_error, crash_error, Symbols, Worker, unclassified, committed, superseded, transient,
  permanent, Processed, is_superseded, Run, next, done, Step, ◌>>=◌, ◌>>◌, pure, return,
}

module _ (sha256_hex : Text → Text) (fault : Faults) (others : ℕ → Database → Database)
    (w : Worker) where
  -- A failed call is transient.
  abbrev pub of_outcome : {A : Type 0} → EndpointResult → Outcome A → Run A
  of_outcome endpoint o = elim o.result [
    | ok a ↦ next a o.clock o.tables
    | err e ↦ return transient endpoint (some (catalog_error e)) o.clock o.tables
  ]

  unfoldable pub call : {A : Type 0} → EndpointResult → Op A → Step A
  call endpoint op n db = of_outcome endpoint (op fault n (others n db))

  -- A call whose error only means that it found nothing.
  abbrev pub found : {A : Type 0} → A → Outcome A → Run A
  found a o = elim o.result [ ok b ↦ next b o.clock o.tables | err e ↦ next a o.clock o.tables ]

  unfoldable pub try_call : {A : Type 0} → A → Op A → Step A
  try_call a op n db = found a (op fault n (others n db))

  unfoldable pub unless_crash : CrashPoint → EndpointResult → Step (Unit {0})
  unless_crash point endpoint =
      if w.crash point then return unclassified endpoint (some (crash_error point)) else pure tt

  unfoldable pub unless_superseded : Job → EndpointResult → Step (Unit {0})
  unfolding call current_job is_superseded
  unless_superseded job endpoint = do
    current ← call endpoint (current_job job.worktree_id job.path)
    if is_superseded current job then return superseded endpoint none else pure tt

  abbrev pub of_load : Option Text → Step Text
  of_load none = return transient endpoint_not_contacted (some load_error)
  of_load (some content) = pure content

  unfoldable pub load_content : Job → Text → Text → Step Text
  load_content job root repo = of_load (w.load repo root job.path job.desired_hash)

  abbrev pub of_build : BuildOutcome → Step (Artifact × EndpointResult)
  of_build b = elim b.result [
    | built art ↦ pure (art, b.endpoint)
    | dimension_mismatch ↦ return permanent b.endpoint (some mismatch_error)
    | build_failed ↦ return transient b.endpoint (some build_error)
  ]

  unfoldable pub build_artifact : ArtifactKey → Text → Step (Artifact × EndpointResult)
  build_artifact key content n db =
      let b = w.build key content n (others n db) in of_build b b.clock (others n db)

  unfoldable pub artifact_for :
      ArtifactKey → Text → Option Artifact → Step (Artifact × EndpointResult)
  unfolding build_artifact
  artifact_for key content none = build_artifact key content
  artifact_for key content (some existing) = pure (existing, endpoint_not_contacted)

  unfoldable pub put_chunk_vectors :
      Text → Text → EndpointResult → List ArtifactChunk → Step (Unit {0})
  unfolding call put_chunk_vector
  put_chunk_vectors repo fp endpoint [] = pure tt
  put_chunk_vectors repo fp endpoint (ch ∷ chs) =
      let rest = put_chunk_vectors repo fp endpoint chs in
      do call endpoint (put_chunk_vector ch.chunk_id repo fp ch.vector ch.content); rest

  abbrev pub is_hit : Option Artifact → Bool
  is_hit none = false
  is_hit (some existing) = true

  abbrev pub extracted : Option (Text → Text → Option Symbols) → Text → Text → Option Symbols
  extracted none path content = none
  extracted (some extract) path content = extract path content

  abbrev pub has_extractor : Option (Text → Text → Option Symbols) → Bool
  has_extractor none = false
  has_extractor (some extract) = true

  -- The symbols to commit: none where there is no extractor, where the stored ones are current, or where the
  -- extraction fails.
  unfoldable pub symbols_for : ArtifactKey → Job → Text → Bool → Step (Option Symbols)
  unfolding try_call artifact_symbols_current
  symbols_for key job content whole_hit =
      if has_extractor w.extract && whole_hit
      then try_call false (artifact_symbols_current sha256_hex key)
        >>= (λ current. if current then pure none else pure (extracted w.extract job.path content))
      else pure (extracted w.extract job.path content)

  abbrev pub request_of : Job → Artifact → Option Symbols → CommitRequest
  request_of job art none = record {
    view = record {
      worktree_id = job.worktree_id;
      path = job.path;
      artifact_id = art.id;
      generation = job.generation;
    };
    artifact = art;
    chunks = art.chunks;
    symbols = [];
    symbol_edges = [];
    symbols_extracted = false;
  }
  request_of job art (some s) = record {
    view = record {
      worktree_id = job.worktree_id;
      path = job.path;
      artifact_id = art.id;
      generation = job.generation;
    };
    artifact = art;
    chunks = art.chunks;
    symbols = s.definitions;
    symbol_edges = s.edges;
    symbols_extracted = true;
  }

  abbrev pub key_of : Text → Text → Job → ArtifactKey
  key_of repo fp job = record {
    repository_id = repo;
    relative_path = job.path;
    source_hash = job.desired_hash;
    fingerprint = fp;
  }

  abbrev pub chunks_to_put : Bool → Artifact → List ArtifactChunk
  chunks_to_put true art = []
  chunks_to_put false art = art.chunks

  -- The part of ProcessClaimed after the artifact is there.
  unfoldable pub commit_built :
      Job → Text → Text → Text → Bool → Artifact → EndpointResult → Step EndpointResult
  unfolding unless_crash put_chunk_vectors unless_superseded symbols_for call commit_update
  commit_built job repo fp content whole_hit art endpoint = do
    unless_crash after_build endpoint
    put_chunk_vectors repo fp endpoint (chunks_to_put whole_hit art)
    unless_crash after_chunks endpoint
    unless_superseded job endpoint
    symbols ← symbols_for (key_of repo fp job) job content whole_hit
    call endpoint (commit_update (request_of job art symbols) job)
    pure endpoint

  unfoldable pub update : Job → Step EndpointResult
  unfolding call worktree_info generation_fingerprint load_content try_call get_artifact
      artifact_for commit_built
  update job = do
    info ← call endpoint_not_contacted (worktree_info job.worktree_id)
    fp ← call endpoint_not_contacted (generation_fingerprint info.1 job.generation)
    content ← load_content job info.0 info.1
    existing ← try_call none (get_artifact (key_of info.1 fp job))
    art ← artifact_for (key_of info.1 fp job) content existing
    commit_built job info.1 fp content (is_hit existing) art.0 art.1

  unfoldable pub delete : Job → Step EndpointResult
  unfolding call commit_delete
  delete job = do
    call endpoint_not_contacted (commit_delete job.worktree_id job.path job.generation job)
    pure endpoint_not_contacted

  unfoldable pub by_operation : Operation → Job → Step EndpointResult
  unfolding update delete
  by_operation op_delete job = delete job
  by_operation op_upsert job = update job

  unfoldable pub process : Job → Step EndpointResult
  unfolding unless_crash unless_superseded by_operation
  process job = do
    unless_crash after_claim endpoint_not_contacted
    unless_superseded job endpoint_not_contacted
    by_operation job.operation job

  -- A step that went through to its end has committed.
  abbrev pub finished : Run EndpointResult → Processed
  finished (done p) = p
  finished (next endpoint n db) = record {
    outcome = committed;
    endpoint = endpoint;
    cause = none;
    tables = db;
    clock = n;
  }

  unfoldable pub process_claimed : Job → ℕ → Database → Processed
  unfolding process
  process_claimed job n db = finished (process job n db)
