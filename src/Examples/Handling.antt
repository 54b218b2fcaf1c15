-- ===== src/Examples/Handling.antt =====
-- The engine's parts at concrete inputs (internal/enginev2).
use grepai.Base.{
  ℕ, ◌+◌, ◌≤◌, Bool, true, false, List, [], ◌∷◌, Option, none, some, map, ◌≡◌, ◌≢◌, refl, sym, ◌∙◌,
  inl, inr, length, if◌then◌else◌, arith,
}
use grepai.Base.Text.{Text, codes, same}
use grepai.Core.Identity.{ArtifactKey, chunk_id, chunk_bytes}
use grepai.Core.Encoding.{write_string}
use grepai.Core.Job.{Job, op_upsert, priority_live_change, Artifact}
use grepai.Catalog.Tables.{Database, JobRow, empty_database, find_where}
use grepai.Catalog.Tx.{read}
use grepai.Catalog.Jobs.{job_at}
use grepai.Catalog.Settle.{current_intent}
use grepai.Catalog.Artifacts.{get_chunk_vector, stored_vector}
use grepai.Indexer.Chunker.{ChunkInfo}
use grepai.Engine.Reconcile.{Hashes, lookup, plan}
use grepai.Engine.Reconcile.Converges.{IsMap, perform_all, perform_all-plan}
use grepai.Engine.Worker.{
  endpoint_failed, build_failed, Worker, unclassified, committed, transient, Processed, built,
}
use grepai.Engine.Worker.Steps.{process_claimed, process, unless_crash}
use grepai.Engine.Worker.Drive.{settle_processed, settle_outcome}
use grepai.Engine.Worker.Safety.{uncommitted_keeps_jobs}
use grepai.Engine.Worker.Retry.{newer_intent_outlives_retry}
use grepai.Engine.Worker.Bounded.{no_fault, alone, IsRowOf, RetriedOrDead, transient-RetriedOrDead}
use grepai.Engine.Builder.{
  is_binary, valid_after, build, scan, of_scan, note_miss, index_of, with_vectors, fill_all, fill,
  all_of_length, artifact_with, Slot, pending,
}
use grepai.Engine.Builder.Slots.{AreChunksOf}
use grepai.Engine.Builder.Vectors.{build-AreChunksOf}
use grepai.Catalog.Reads.{repositories_with_pending_jobs}
use grepai.Engine.Pacing.{claim_round_robin}
use grepai.Engine.Pacing.Rotation.{claim_among, claim_round_robin_lem}
use grepai.Engine.Watch.{
  Config, hint, start, mark_dirty, handle, ready, Move, waits, takes, move, run,
}
use grepai.Engine.Watch.Latency.{run_latency}

abbrev indexed : Hashes
indexed = (codes "a", codes "1") ∷ (codes "b", codes "2") ∷ []

abbrev desired : Hashes
desired = (codes "b", codes "3") ∷ (codes "c", codes "4") ∷ []

indexed-IsMap : IsMap indexed
unfolding lookup same
indexed-IsMap = (refl, (refl, tt))

desired-IsMap : IsMap desired
unfolding lookup same
desired-IsMap = (refl, (refl, tt))

perform_all-plan_example :
    lookup (codes "b") (perform_all (plan (codes "w") 1 indexed desired) indexed)
    ≡ lookup (codes "b") desired
perform_all-plan_example =
    perform_all-plan (codes "w") 1 indexed desired (codes "b") indexed-IsMap desired-IsMap

-- A worker that crashes as it has claimed a job, and one whose builds fail.
abbrev worker : Bool → Worker
worker crashes = record {
  build =
      λ key content n db. record { result = build_failed; endpoint = endpoint_failed; clock = n };
  load = λ repo root path hash. some [];
  crash = λ point. crashes;
  max_attempts = 5;
  extract = none;
  describe = λ c. [];
}

abbrev row : JobRow
row = record {
  job_id = 1;
  worktree_id = codes "w";
  relative_path = codes "a";
  desired_hash = codes "2";
  generation = 2;
  operation = op_upsert;
  priority = priority_live_change;
  attempts = 0;
  claimed = true;
}

abbrev db : Database
unfolding empty_database
db = record empty_database { index_jobs = row ∷ [] }

abbrev job : ℕ → Text → Job
job generation hash = record {
  worktree_id = codes "w";
  path = codes "a";
  desired_hash = hash;
  generation = generation;
  operation = op_upsert;
  priority = priority_live_change;
  attempts = 0;
}

abbrev id_hash : Text → Text
id_hash t = t

crashed :
    (process_claimed id_hash no_fault alone (worker true) (job 2 (codes "2")) 0 db).outcome
    ≡ unclassified
unfolding process_claimed process unless_crash
crashed = refl

crash_is_no_commit :
    (process_claimed id_hash no_fault alone (worker true) (job 2 (codes "2")) 0 db).outcome
    ≢ committed
crash_is_no_commit e = let clash = sym crashed ∙ e in absurd (cc)

uncommitted_keeps_jobs_example :
    (process_claimed id_hash no_fault alone
      (worker true)
      (job 2 (codes "2"))
      0
      db).tables.index_jobs
    ≡ db.index_jobs
uncommitted_keeps_jobs_example =
    uncommitted_keeps_jobs id_hash no_fault alone (worker true) (job 2 (codes "2")) 0 db
      (λ m d. refl) crash_is_no_commit

wanted : current_intent (codes "w") (codes "a") db ≡ some (2, codes "2")
unfolding current_intent find_where job_at same db
wanted = refl

newer_intent_outlives_retry_example :
    current_intent
      (codes "w")
      (codes "a")
      (settle_processed id_hash no_fault alone
        (worker false)
        (job 1 (codes "1"))
        (process_claimed id_hash no_fault alone (worker false) (job 1 (codes "1")) 0 db)).tables
    ≡ some (2, codes "2")
newer_intent_outlives_retry_example =
    newer_intent_outlives_retry id_hash no_fault alone (worker false) (job 1 (codes "1")) 0 db
      (codes "w") (codes "a") 2 (codes "2") wanted (inl (omega arith)) (λ m d e. e)

abbrev failed_build : Processed
failed_build = record {
  outcome = transient;
  endpoint = endpoint_failed;
  cause = none;
  tables = db;
  clock = 0;
}

row_there : IsRowOf (job 2 (codes "2")) row db
unfolding find_where job_at same db
row_there = (refl, refl, refl)

transient-RetriedOrDead_example :
    RetriedOrDead
      (worker false)
      (job 2 (codes "2"))
      row
      db
      (settle_outcome id_hash no_fault alone
        (worker false)
        (job 2 (codes "2"))
        transient
        failed_build).tables
transient-RetriedOrDead_example =
    transient-RetriedOrDead id_hash (worker false) (job 2 (codes "2")) row failed_build row_there

abbrev cfg : Config
cfg = record { quiet = 1; max_latency = 10; poll_interval = 300; safety_net = 3600 }

abbrev one_hint : List Move
one_hint = takes hint ∷ waits 1 ∷ []

hinted : (run cfg one_hint (start cfg false 0)).dirty ≡ true
unfolding run move handle ready mark_dirty
hinted = refl

run_latency_example :
    (run cfg one_hint (start cfg false 0)).now
    ≤ (run cfg one_hint (start cfg false 0)).since + cfg.quiet + cfg.max_latency
run_latency_example = run_latency cfg false 0 one_hint hinted

abbrev key : ArtifactKey
key = record {
  repository_id = codes "r";
  relative_path = codes "a";
  source_hash = codes "2";
  fingerprint = codes "f";
}

abbrev info : ChunkInfo
info = record {
  id = codes "a_0";
  file_path = codes "a";
  start_line = 1;
  end_line = 1;
  content = codes "x";
  embed_content = codes "x";
  hash = [];
  content_hash = [];
}

abbrev chunker : Text → Text → List ChunkInfo
chunker path content = info ∷ info ∷ []

abbrev embed : Text → List ℕ
embed t = length t ∷ []

abbrev embed_batch : List Text → Option (List (List ℕ))
embed_batch ts = some (map embed ts)

abbrev slots : List Slot
unfolding chunk_id
slots =
    pending 0 (chunk_id id_hash (codes "f") (codes "x")) info
    ∷ pending 1 (chunk_id id_hash (codes "f") (codes "x")) info
    ∷ []

abbrev art : Artifact
unfolding artifact_with fill_all slots
art =
    artifact_with id_hash no_fault 1 embed_batch chunker key
      (fill_all ((chunk_id id_hash (codes "f") (codes "x"), 0) ∷ []) ((1 ∷ []) ∷ []) slots)

built_once : (build id_hash no_fault 1 embed_batch chunker key (codes "x") 0 db).result ≡ built art
unfolding build is_binary valid_after scan of_scan note_miss index_of with_vectors fill_all fill
    all_of_length artifact_with db get_chunk_vector stored_vector find_where read empty_database art
    slots same chunk_id chunk_bytes write_string
built_once = refl

build-AreChunksOf_example :
    AreChunksOf id_hash 1 embed db
      (codes "f")
      0
      (if is_binary (codes "x") then [] else chunker (codes "a") (codes "x"))
      art.chunks
build-AreChunksOf_example =
    build-AreChunksOf id_hash no_fault 1 embed_batch chunker embed key (codes "x") 0 db art
      (λ ts. inr refl) built_once

claim_round_robin_lem_example :
    claim_round_robin no_fault (codes "r") 0 db
    ≡ claim_among no_fault (codes "r") (repositories_with_pending_jobs no_fault 0 db)
claim_round_robin_lem_example = claim_round_robin_lem no_fault (codes "r") 0 db
