-- ===== src/Engine/Reconcile.antt =====
-- internal/enginev2/reconcile/reconciler.go: the jobs that bring a worktree's view to the truth. A map is
-- its pairs in the order of iteration, which Go leaves open. No writer comes between the catalog's reads.
mod Sorted
pub mod Converges
use grepai.Base.{
  ℕ, Bool, true, false, ◌&&◌, ◌||◌, List, [], ◌∷◌, ◌++◌, Option, none, some, if◌then◌else◌, ltb,
  ◌==◌,
}
use grepai.Base.Text.{Text, same, text_lt}
use grepai.Core.Job.{Job, Operation, op_upsert, op_delete, priority_reconcile}
use grepai.Catalog.Tables.{Database}
use grepai.Catalog.Tx.{DbError, Faults, Outcome, Result, ok, err}
use grepai.Catalog.Generations.{active_generation}
use grepai.Catalog.Commit.{worktree_info}
use grepai.Catalog.Reads.{sort_by, worktree_indexed_hashes}

-- path -> source hash
abbrev pub Hashes : Type 0
Hashes = List (Text × Text)

unfoldable pub lookup : Text → Hashes → Option Text
lookup path [] = none
lookup path ((p, h) ∷ rest) = if same p path then some h else lookup path rest

abbrev pub is_unchanged : Text → Option Text → Bool
is_unchanged dh none = false
is_unchanged dh (some ih) = same ih dh

abbrev pub upsert_for : Text → ℕ → Text → Text → Job
upsert_for wt gen path dh = record {
  worktree_id = wt;
  path = path;
  desired_hash = dh;
  generation = gen;
  operation = op_upsert;
  priority = priority_reconcile;
  attempts = 0;
}

abbrev pub delete_for : Text → ℕ → Text → Job
delete_for wt gen path = record {
  worktree_id = wt;
  path = path;
  desired_hash = [];
  generation = gen;
  operation = op_delete;
  priority = priority_reconcile;
  attempts = 0;
}

unfoldable pub upserts : Text → ℕ → Hashes → Hashes → List Job
unfolding lookup
upserts wt gen indexed [] = []
upserts wt gen indexed ((path, dh) ∷ rest) =
    let jobs = upserts wt gen indexed rest in
    if is_unchanged dh (lookup path indexed) then jobs else upsert_for wt gen path dh ∷ jobs

abbrev pub unless_some : Option Text → Job → List Job → List Job
unless_some none job jobs = job ∷ jobs
unless_some (some h) job jobs = jobs

unfoldable pub deletes : Text → ℕ → Hashes → Hashes → List Job
unfolding lookup
deletes wt gen desired [] = []
deletes wt gen desired ((path, ih) ∷ rest) =
    unless_some (lookup path desired) (delete_for wt gen path) (deletes wt gen desired rest)

abbrev pub rank : Operation → ℕ
rank op_upsert = 1
rank op_delete = 2

unfoldable pub job_before : Job → Job → Bool
unfolding text_lt
job_before a b =
    ltb (rank a.operation) (rank b.operation)
    || ((rank a.operation == rank b.operation) && text_lt a.path b.path)

unfoldable pub plan : Text → ℕ → Hashes → Hashes → List Job
unfolding upserts deletes sort_by job_before
plan wt gen indexed desired =
    sort_by job_before (upserts wt gen indexed desired ++ deletes wt gen desired indexed)

abbrev pub bootstrap : ℕ → ℕ
bootstrap gen = if gen == 0 then 1 else gen

pub data ReconcileResult : Type 0 where
  planned : List Job → ReconcileResult
  catalog_failed : DbError → ReconcileResult
  truth_failed : ReconcileResult

-- A catalog call, and what follows where it succeeds.
abbrev on_success : {A : Type 0} → Outcome A → (A → ℕ → ReconcileResult) → ReconcileResult
on_success o f = elim o.result [ ok a ↦ f a o.clock | err e ↦ catalog_failed e ]

abbrev with_truth : Option Hashes → (Hashes → List Job) → ReconcileResult
with_truth none f = truth_failed
with_truth (some desired) f = planned (f desired)

-- `truth` is the engine's TruthFunc: Git's, or the file system's.
unfoldable pub reconcile : (Text → Option Hashes) → Text → Faults → ℕ → Database → ReconcileResult
unfolding worktree_info active_generation worktree_indexed_hashes plan
reconcile truth wt fault n db = on_success (worktree_info wt fault n db) (λ info n1.
    on_success (active_generation info.1 fault n1 db) (λ gen n2.
      on_success (worktree_indexed_hashes wt fault n2 db)
        (λ indexed n3. with_truth (truth info.0) (plan wt (bootstrap gen) indexed))))
