-- ===== src/Lib.antt =====
-- grepai indexes source trees for semantic search. This library is about its indexing engine
-- (internal/enginev2), the chunker of its indexer (indexer/chunker.go), the batching and rate limiting of
-- its embedding calls (embedder), its graph of a repository (rpg) and its store of symbols and calls (trace).
--
-- The engine keeps one SQLite catalog per repository. A reconciler and a watcher write the wanted state of
-- each path into a durable job queue; workers claim jobs under the admission of a scheduler, build an
-- immutable, content-addressed artifact, and commit it: the artifact is stored, the worktree's view is
-- switched to it and the fulfilled job leaves the queue in one transaction. A change of the indexing
-- configuration gives a new generation, to which a worktree is rolled over.
--
-- Parts, by file:
--
-- Base: shared names, lists over the native numbers, integers, byte strings.
--
-- Core: internal/enginev2/core. Core/StateMachine is statemachine.go; Core/Encoding and Core/Fingerprint
-- are fingerprint.go (writeCanonicalString, Canonical); Core/Identity is ArtifactID of artifact.go and
-- ChunkID of chunk.go, with SHA-256 in hexadecimal as a parameter; Core/Job holds the records of job.go,
-- artifact.go and chunk.go. A Go map is a list of entries in its order of iteration.
--
-- Catalog: internal/enginev2/catalog/sqlite. Catalog/Tables is schema.go at version 4, a record of lists
-- of rows, without the stamps of time. Catalog/Tx is withWriteTx of catalog.go: a transaction's body is a
-- function of a schedule of driver failures, the number of the next statement and the tables; it
-- succeeds or leaves the tables as they were. Each SQL statement is a function of the tables that
-- refuses where a key or a reference would be violated. Catalog/Jobs and Catalog/Settle are the queue
-- (views.go, jobs.go, queue.go); Catalog/Generations is registry.go and the rollover of jobs.go;
-- Catalog/Artifacts is artifacts.go and vector.go; Catalog/Symbols the writes of symbols;
-- Catalog/Commit is the commits of views.go and WorktreeInfo of reader.go; Catalog/Reads
-- is the listings and counts of queue.go, jobs.go, query.go, reader.go and symbols.go.
--
-- Scheduler: internal/enginev2/scheduler. Scheduler/Circuit is circuit.go, a step relation over the tokens
-- in flight (Circuit/Tokens); Scheduler/Backoff is backoff.go, with int64 durations that wrap and a record
-- of functions for the floats; Scheduler/Config is config.go. The clock is an argument.
--
-- Embedder: embedder. Embedder/Batch and Embedder/Results are batch.go; Embedder/Limiter is the AdaptiveRateLimiter of
-- rate_limiter.go, with its int32 counters; Embedder/Bucket is the TokenBucket there, with the time as an
-- argument.
--
-- Indexer: indexer/chunker.go. Indexer/Lines is buildLineStarts and getLineNumber; Indexer/Chunker is
-- NewChunker, Chunk and ChunkWithContext, and Indexer/ReChunk is ReChunk, which cuts with the same loop.
-- Sizes and the sums of the loop are 64-bit ints that wrap, with `none` for a panic; Chunker/Ideal is the same
-- loop without wrapping, which Chunker/Agrees compares with it. The loop is on fuel, one more than the bytes of
-- the text, since every round moves on by a byte at least where no sum wraps; the binary search is on fuel, one
-- more than the lines. Strings are their bytes, also where they are not valid UTF-8.
--
-- Engine: the parts of internal/enginev2 that drive the catalog. Engine/Reconcile is
-- reconcile/reconciler.go, with the truth as a parameter. Engine/Worker is worker/worker.go: the steps of
-- ProcessClaimed (Worker/Steps) either go on or return an outcome, and ProcessOne (Worker/Drive) retries or
-- buries the job; between any two calls other processes may change the tables, as a function says. The
-- builder, the loader, the extractor and the crash hook are fields of the worker. Engine/Builder is
-- artifacts/builder.go, with the chunker and the embedder as parameters; Indexer/Chunker has the chunker that
-- the daemon passes. Engine/Watch is the loop of watch/manager.go, a function of the events that its select
-- takes, each with the time that the reconcile takes. Engine/Pacing is claimRoundRobin of
-- scheduler/engine.go, and Engine/Dispatch the Engine there with its goroutines: the loop of Run, the
-- dispatch of a job, the delayed retries and terminal writes, and the callers that ask for slots are
-- threads, and an event is a step of one of them, in any order, or the time, the cancellation, a submitted
-- job or another writer of the catalog. The worker is a parameter of it, as Engine/Worker has it;
-- Dispatch/Admissions ties its breaker to the tokens of Scheduler/Circuit/Tokens. A send or a receive that
-- blocks is a step that changes nothing. Engine/Service is traceGraph of service/server.go, whose levels
-- are as many as the depth, with the catalog's SymbolEdges as a parameter.
--
-- Rpg: rpg. Rpg/Graph is model.go: the graph with its indexes. Rpg/Explore is
-- Explore of query.go. Its loop is on fuel, two more than the nodes of the graph: each entry of the queue
-- but the first is a node that had not been visited before.
--
-- Trace: trace and internal/enginev2/traceview. Trace/Store is the index in memory of trace/store.go, whose
-- abstract view is the files as they were last saved (Store/Files); Trace/View is traceview.go, which makes a
-- result from the answer of the daemon.
--
-- Examples: tests of the above at concrete inputs.
--
-- Transactions of one catalog are serialized by its single connection, so concurrent callers are
-- sequences of whole calls in any order. All recursion is structural: loops run over lists or on fuel, and
-- the doubling loop over the number of rounds. Row identifiers, generations and epochs are natural
-- numbers.
--
-- Not modelled: processes, sockets, files and migrations; the shutdown of the engine, which waits for its
-- goroutines; searches over floating-point vectors, and those of rpg/query.go by words; the extraction of
-- features and the hierarchy of rpg; the parsers of source code, and how trace follows calls to a depth;
-- the command line and the MCP server.
pub mod Base
pub mod Core
pub mod Scheduler
pub mod Catalog
pub mod Embedder
pub mod Indexer
pub mod Engine
pub mod Rpg
pub mod Trace
pub mod Examples
