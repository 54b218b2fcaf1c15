-- ===== src/Engine/Worker/Holds.antt =====
-- What holds of the tables through ProcessClaimed (internal/enginev2/worker/worker.go).
use grepai.Base.{
  ℕ, Bool, true, false, ◌&&◌, List, [], ◌∷◌, Option, none, some, if◌then◌else◌, arith,
}
use grepai.Base.Text.{Text}
use grepai.Core.Identity.{ArtifactKey}
use grepai.Core.Job.{Job, Operation, op_upsert, op_delete, Artifact, ArtifactChunk}
use grepai.Catalog.Tables.{Database}
use grepai.Catalog.Tx.{Faults, Op, Result, ok, err, read}
use grepai.Catalog.Settle.{current_job}
use grepai.Catalog.Generations.{generation_fingerprint}
use grepai.Catalog.Artifacts.{get_artifact, put_chunk_vector}
use grepai.Catalog.Commit.{commit_update, commit_delete, worktree_info}
use grepai.Catalog.Reads.{artifact_symbols_current}
use grepai.Engine.Worker.{
  EndpointResult, endpoint_not_contacted, BuildResult, built, dimension_mismatch, build_failed,
  CrashPoint, Symbols, Worker, is_superseded, Run, next, done, Step, continue, after_claim,
  after_build, after_chunks,
}
use grepai.Engine.Worker.Steps.{
  of_outcome, call, try_call, found, unless_crash, unless_superseded, of_load, load_content,
  of_build, build_artifact, artifact_for, put_chunk_vectors, symbols_for, request_of, key_of,
  chunks_to_put, is_hit, commit_built, update, delete, by_operation, process, has_extractor,
}

-- P of the tables at a return, and Q of those of a step that goes on.
abbrev pub Holds : {A : Type 0} → (Database → Type 0) → (Database → Type 0) → Run A → Type 0
Holds P Q (next a n db) = Q db
Holds P Q (done p) = P p.tables

-- An operation that leaves P as it is, and one that leaves the tables as they are.
abbrev pub Keeps : {A : Type 0} → (Database → Type 0) → Faults → Op A → Type 0
Keeps P fault op = (n : ℕ) (db : Database) → P db → P (op fault n db).tables

read-Keeps :
    {A : Type 0} (P : Database → Type 0) (fault : Faults) (q : Database → Result A)
    → Keeps P fault (read q)
unfolding read
read-Keeps P fault q n db p = ground (arith, p)

bind_keeps :
    {A B : Type 0} (P Q R : Database → Type 0) (r : Run A) (f : A → Step B)
    → Holds P Q r
    → ((a : A) (n : ℕ) (db : Database) → Q db → Holds P R (f a n db))
    → Holds P R (continue r f)
bind_keeps P Q R (next a n db) f h k = k a n db h
bind_keeps P Q R (done p) f h k = h

if_keeps :
    {A : Type 0} (P Q : Database → Type 0) (b : Bool) (x y : Step A) (n : ℕ) (db : Database)
    → Holds P Q (x n db)
    → Holds P Q (y n db)
    → Holds P Q ((if b then x else y) n db)
if_keeps P Q true x y n db h k = h
if_keeps P Q false x y n db h k = k

module _ (sha256_hex : Text → Text) (fault : Faults) (others : ℕ → Database → Database) (w : Worker)
    (P : Database → Type 0) (others_keep : (n : ℕ) (db : Database) → P db → P (others n db)) where
  of_outcome-Holds :
      {A : Type 0} (endpoint : EndpointResult) (r : Result A) (db : Database) (n : ℕ)
      → P db
      → Holds P P (
          of_outcome sha256_hex fault others w endpoint
            (record { result = r; tables = db; clock = n }))
  of_outcome-Holds endpoint (ok a) db n h = h
  of_outcome-Holds endpoint (err e) db n h = h

  pub call-Holds :
      {A : Type 0} (endpoint : EndpointResult) (op : Op A) (n : ℕ) (db : Database)
      → Keeps P fault op
      → P db
      → Holds P P (call sha256_hex fault others w endpoint op n db)
  unfolding call
  call-Holds endpoint op n db keep h =
      let o = op fault n (others n db) in
      of_outcome-Holds endpoint o.result o.tables o.clock
        (keep n (others n db) (others_keep n db h))

  found-Holds :
      {A : Type 0} (a : A) (r : Result A) (db : Database) (n : ℕ)
      → P db
      → Holds P P
          (found sha256_hex fault others w a (record { result = r; tables = db; clock = n }))
  found-Holds a (ok b) db n h = h
  found-Holds a (err e) db n h = h

  try_call-Holds :
      {A : Type 0} (a : A) (op : Op A) (n : ℕ) (db : Database)
      → Keeps P fault op
      → P db
      → Holds P P (try_call sha256_hex fault others w a op n db)
  unfolding try_call
  try_call-Holds a op n db keep h =
      let o = op fault n (others n db) in
      found-Holds a o.result o.tables o.clock (keep n (others n db) (others_keep n db h))

  unless_crash-Holds :
      (point : CrashPoint) (endpoint : EndpointResult) (n : ℕ) (db : Database)
      → P db
      → Holds P P (unless_crash sha256_hex fault others w point endpoint n db)
  unfolding unless_crash
  unless_crash-Holds point endpoint n db h = if_keeps P P (w.crash point) _ _ n db h h

  unless_superseded-Holds :
      (job : Job) (endpoint : EndpointResult) (n : ℕ) (db : Database)
      → P db
      → Holds P P (unless_superseded sha256_hex fault others w job endpoint n db)
  unfolding unless_superseded current_job
  unless_superseded-Holds job endpoint n db h =
      bind_keeps P P P
        (call sha256_hex fault others w endpoint (current_job job.worktree_id job.path) n db) _
        (call-Holds endpoint (current_job job.worktree_id job.path) n db (read-Keeps P fault _) h)
        (λ current m d k. if_keeps P P (is_superseded current job) _ _ m d k k)

  of_load-Holds :
      (o : Option Text) (n : ℕ) (db : Database)
      → P db
      → Holds P P (of_load sha256_hex fault others w o n db)
  of_load-Holds none n db h = h
  of_load-Holds (some content) n db h = h

  load_content-Holds :
      (job : Job) (root repo : Text) (n : ℕ) (db : Database)
      → P db
      → Holds P P (load_content sha256_hex fault others w job root repo n db)
  unfolding load_content
  load_content-Holds job root repo n db h =
      of_load-Holds (w.load repo root job.path job.desired_hash) n db h

  of_build-Holds :
      (r : BuildResult) (endpoint : EndpointResult) (c n : ℕ) (db : Database)
      → P db
      → Holds P P (
          of_build sha256_hex fault others w
            (record { result = r; endpoint = endpoint; clock = c })
            n
            db)
  of_build-Holds (built art) endpoint c n db h = h
  of_build-Holds dimension_mismatch endpoint c n db h = h
  of_build-Holds build_failed endpoint c n db h = h

  artifact_for-Holds :
      (key : ArtifactKey) (content : Text) (existing : Option Artifact) (n : ℕ) (db : Database)
      → P db
      → Holds P P (artifact_for sha256_hex fault others w key content existing n db)
  unfolding artifact_for build_artifact
  artifact_for-Holds key content none n db h =
      let b = w.build key content n (others n db) in
      of_build-Holds b.result b.endpoint b.clock b.clock (others n db) (others_keep n db h)
  artifact_for-Holds key content (some existing) n db h = h

  symbols_for-Holds :
      (key : ArtifactKey) (job : Job) (content : Text) (whole_hit : Bool) (n : ℕ) (db : Database)
      → P db
      → Holds P P (symbols_for sha256_hex fault others w key job content whole_hit n db)
  unfolding symbols_for artifact_symbols_current
  symbols_for-Holds key job content whole_hit n db h =
      if_keeps P P (has_extractor sha256_hex fault others w w.extract && whole_hit) _ _ n db
        (bind_keeps P P P
          (try_call sha256_hex fault others w false (artifact_symbols_current sha256_hex key) n db)
          _
          (try_call-Holds false (artifact_symbols_current sha256_hex key) n db
            (read-Keeps P fault _) h)
          (λ current m d k. if_keeps P P current _ _ m d k k))
        h

  module _
      (chunks_keep : (id repo fp : Text) (vector : List ℕ) (content : Text)
        → Keeps P fault (put_chunk_vector id repo fp vector content)) where
    put_chunk_vectors-Holds :
        (repo fp : Text) (endpoint : EndpointResult) (chs : List ArtifactChunk) (n : ℕ)
        (db : Database)
        → P db
        → Holds P P (put_chunk_vectors sha256_hex fault others w repo fp endpoint chs n db)
    unfolding put_chunk_vectors
    put_chunk_vectors-Holds repo fp endpoint [] n db h = h
    put_chunk_vectors-Holds repo fp endpoint (ch ∷ chs) n db h =
        bind_keeps P P P
          (call sha256_hex fault others w endpoint
            (put_chunk_vector ch.chunk_id repo fp ch.vector ch.content) n db)
          _
          (call-Holds endpoint (put_chunk_vector ch.chunk_id repo fp ch.vector ch.content) n db
            (chunks_keep ch.chunk_id repo fp ch.vector ch.content) h)
          (λ u m d k. put_chunk_vectors-Holds repo fp endpoint chs m d k)

    module _ (job : Job) (Q : Database → Type 0)
        (commit_ends : (art : Artifact) (symbols : Option Symbols) (endpoint : EndpointResult)
            (n : ℕ) (db : Database)
          → P db
          → Holds P Q (
              call sha256_hex fault others w endpoint
                (commit_update (request_of sha256_hex fault others w job art symbols) job)
                n
                db))
        (delete_ends : (endpoint : EndpointResult) (n : ℕ) (db : Database)
          → P db
          → Holds P Q (
              call sha256_hex fault others w endpoint
                (commit_delete job.worktree_id job.path job.generation job)
                n
                db)) where
      commit_built-Holds :
          (repo fp content : Text) (whole_hit : Bool) (art : Artifact) (endpoint : EndpointResult)
          (n : ℕ) (db : Database)
          → P db
          → Holds P Q (
              commit_built sha256_hex fault others w job repo fp content whole_hit art endpoint n
                db)
      unfolding commit_built
      commit_built-Holds repo fp content whole_hit art endpoint n db h =
          bind_keeps P P Q (unless_crash sha256_hex fault others w after_build endpoint n db) _
            (unless_crash-Holds after_build endpoint n db h)
            (λ u n1 d1 h1.
              bind_keeps P P Q
                (put_chunk_vectors sha256_hex fault others w repo fp endpoint
                  (chunks_to_put sha256_hex fault others w whole_hit art) n1 d1)
                _
                (put_chunk_vectors-Holds repo fp endpoint
                  (chunks_to_put sha256_hex fault others w whole_hit art) n1 d1 h1)
                (λ u n2 d2 h2.
                  bind_keeps P P Q
                    (unless_crash sha256_hex fault others w after_chunks endpoint n2 d2) _
                    (unless_crash-Holds after_chunks endpoint n2 d2 h2)
                    (λ u n3 d3 h3.
                      bind_keeps P P Q
                        (unless_superseded sha256_hex fault others w job endpoint n3 d3) _
                        (unless_superseded-Holds job endpoint n3 d3 h3)
                        (λ u n4 d4 h4.
                          bind_keeps P P Q
                            (symbols_for sha256_hex fault others w
                              (key_of sha256_hex fault others w repo fp job) job content whole_hit
                              n4 d4)
                            _
                            (symbols_for-Holds (key_of sha256_hex fault others w repo fp job) job
                              content whole_hit n4 d4 h4)
                            (λ symbols n5 d5 h5.
                              bind_keeps P Q Q
                                (call sha256_hex fault others w endpoint
                                  (commit_update
                                    (request_of sha256_hex fault others w job art symbols) job)
                                  n5 d5)
                                _ (commit_ends art symbols endpoint n5 d5 h5)
                                (λ u n6 d6 h6. h6))))))

      update-Holds :
          (n : ℕ) (db : Database) → P db → Holds P Q (update sha256_hex fault others w job n db)
      unfolding update worktree_info generation_fingerprint get_artifact
      update-Holds n db h =
          bind_keeps P P Q
            (call sha256_hex fault others w endpoint_not_contacted (worktree_info job.worktree_id) n
              db)
            _
            (call-Holds endpoint_not_contacted (worktree_info job.worktree_id) n db
              (read-Keeps P fault _) h)
            (λ info n1 d1 h1.
              bind_keeps P P Q
                (call sha256_hex fault others w endpoint_not_contacted
                  (generation_fingerprint info.1 job.generation) n1 d1)
                _
                (call-Holds endpoint_not_contacted (generation_fingerprint info.1 job.generation) n1
                  d1 (read-Keeps P fault _) h1)
                (λ fp n2 d2 h2.
                  bind_keeps P P Q (load_content sha256_hex fault others w job info.0 info.1 n2 d2)
                    _ (load_content-Holds job info.0 info.1 n2 d2 h2)
                    (λ content n3 d3 h3.
                      bind_keeps P P Q
                        (try_call sha256_hex fault others w none
                          (get_artifact (key_of sha256_hex fault others w info.1 fp job)) n3 d3)
                        _
                        (try_call-Holds none
                          (get_artifact (key_of sha256_hex fault others w info.1 fp job)) n3 d3
                          (read-Keeps P fault _) h3)
                        (λ existing n4 d4 h4.
                          bind_keeps P P Q
                            (artifact_for sha256_hex fault others w
                              (key_of sha256_hex fault others w info.1 fp job) content existing n4
                              d4)
                            _
                            (artifact_for-Holds (key_of sha256_hex fault others w info.1 fp job)
                              content existing n4 d4 h4)
                            (λ art n5 d5 h5.
                              commit_built-Holds info.1 fp content
                                (is_hit sha256_hex fault others w existing) art.0 art.1 n5 d5
                                h5)))))

      delete-Holds :
          (n : ℕ) (db : Database) → P db → Holds P Q (delete sha256_hex fault others w job n db)
      unfolding delete
      delete-Holds n db h =
          bind_keeps P Q Q
            (call sha256_hex fault others w endpoint_not_contacted
              (commit_delete job.worktree_id job.path job.generation job) n db)
            _ (delete_ends endpoint_not_contacted n db h) (λ u n1 d1 h1. h1)

      by_operation-Holds :
          (operation : Operation) (n : ℕ) (db : Database)
          → P db
          → Holds P Q (by_operation sha256_hex fault others w operation job n db)
      unfolding by_operation
      by_operation-Holds op_delete n db h = delete-Holds n db h
      by_operation-Holds op_upsert n db h = update-Holds n db h

      pub process-Holds :
          (n : ℕ) (db : Database) → P db → Holds P Q (process sha256_hex fault others w job n db)
      unfolding process
      process-Holds n db h =
          bind_keeps P P Q
            (unless_crash sha256_hex fault others w after_claim endpoint_not_contacted n db) _
            (unless_crash-Holds after_claim endpoint_not_contacted n db h)
            (λ u n1 d1 h1.
              bind_keeps P P Q
                (unless_superseded sha256_hex fault others w job endpoint_not_contacted n1 d1) _
                (unless_superseded-Holds job endpoint_not_contacted n1 d1 h1)
                (λ u n2 d2 h2. by_operation-Holds job.operation n2 d2 h2))
