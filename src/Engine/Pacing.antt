-- ===== src/Engine/Pacing.antt =====
-- internal/enginev2/scheduler/engine.go: how a job is claimed in turn among the repositories (claimRoundRobin).
-- The queue is a catalog; the repository of a claim is the next lastRepo.
pub mod Order
pub mod Rotation
use grepai.Base.{
  ℕ, zero, suc, ◌+◌, ◌%◌, Bool, true, false, List, [], ◌∷◌, ◌++◌, Option, none, some, if◌then◌else◌,
  leb, length, get_elem?,
}
use grepai.Base.Text.{Text, codes, same, text_lt}
use grepai.Core.Job.{Job, priority_bootstrap}
use grepai.Catalog.Tables.{Database}
use grepai.Catalog.Tx.{DbError, Faults, Outcome, ok, err}
use grepai.Catalog.Jobs.{claim_next_job_in_repo}
use grepai.Catalog.Reads.{repositories_with_pending_jobs}

pub data Claimed : Type 0 where
  claimed : Text → Job → Claimed
  nothing_pending : Claimed
  claim_failed : DbError → Claimed

-- What a claim returns, and what it leaves.
pub record Turn : Type 0 where
  pub result : Claimed
  pub tables : Database
  pub clock : ℕ

-- The first repository that comes after the last one served; the first of all where there is none.
unfoldable pub first_after : Text → ℕ → List Text → ℕ
unfolding text_lt
first_after last i [] = 0
first_after last i (r ∷ repos) =
    let rest = first_after last (i + 1) repos in if text_lt last r then i else rest

module _ (fault : Faults) where
  -- A claim in one repository; `rest` goes on where it has no job.
  abbrev pub or_next : Text → Outcome (Option Job) → (ℕ → Database → Turn) → Turn
  or_next r o rest = elim o.result [
    | err e ↦ record { result = claim_failed e; tables = o.tables; clock = o.clock }
    | ok none ↦ rest o.clock o.tables
    | ok (some job) ↦ record { result = claimed r job; tables = o.tables; clock = o.clock }
  ]

  unfoldable pub claim_at : Option Text → (ℕ → Database → Turn) → ℕ → Database → Turn
  unfolding claim_next_job_in_repo
  claim_at none rest n db = record { result = nothing_pending; tables = db; clock = n }
  claim_at (some r) rest n db =
      or_next r (claim_next_job_in_repo r priority_bootstrap fault n db) rest

  -- The loop over i, with as many rounds as are left.
  unfoldable pub claim_from : List Text → ℕ → ℕ → ℕ → ℕ → Database → Turn
  unfolding claim_at
  claim_from repos start zero i n db = record { result = nothing_pending; tables = db; clock = n }
  claim_from repos start (suc left) i n db =
      claim_at (get_elem? repos ((start + i) % length repos)) (claim_from repos start left (i + 1))
        n db

  unfoldable pub among : Text → Outcome (List Text) → Turn
  unfolding first_after claim_from
  among last o = elim o.result [
    | err e ↦ record { result = claim_failed e; tables = o.tables; clock = o.clock }
    | ok repos ↦ claim_from repos (first_after last 0 repos) (length repos) 0 o.clock o.tables
  ]

  unfoldable pub claim_round_robin : Text → ℕ → Database → Turn
  unfolding among repositories_with_pending_jobs
  claim_round_robin last n db = among last (repositories_with_pending_jobs fault n db)
