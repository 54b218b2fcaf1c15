-- ===== src/Engine/Worker/Drive.antt =====
-- internal/enginev2/worker/worker.go: ProcessOne and retryOrDeadLetter.
use grepai.Base.{ℕ, Bool, true, false, [], ◌++◌, Option, none, some, if◌then◌else◌, leb}
use grepai.Base.Text.{Text, codes}
use grepai.Core.Job.{Job, priority_bootstrap}
use grepai.Catalog.Tables.{Database}
use grepai.Catalog.Tx.{Faults, Outcome, ok, err}
use grepai.Catalog.Jobs.{claim_next_job}
use grepai.Catalog.Settle.{dead_letter_job, fail_job_attempt}
use grepai.Engine.Worker.{
  Cause, catalog_error, Worker, unclassified, committed, superseded, transient, permanent,
  WorkerOutcome, Processed,
}
use grepai.Engine.Worker.Steps.{process_claimed}

-- How ProcessOne ends: its flag, its error, and what it leaves.
pub record Handled : Type 0 where
  pub did : Bool
  pub error : Option Cause
  pub tables : Database
  pub clock : ℕ

module _ (sha256_hex : Text → Text) (fault : Faults) (others : ℕ → Database → Database)
    (w : Worker) where
  abbrev pub cause_text : Option Cause → Text
  cause_text none = []
  cause_text (some c) = w.describe c

  abbrev pub handled : Outcome (Unit {0}) → Handled
  handled o = elim o.result [
    | ok u ↦ record { did = true; error = none; tables = o.tables; clock = o.clock }
    | err e ↦ record {
      did = true;
      error = some (catalog_error e);
      tables = o.tables;
      clock = o.clock;
    }
  ]

  unfoldable pub dead_letter : Job → Text → Option Cause → ℕ → Database → Handled
  unfolding dead_letter_job
  dead_letter job prefix cause n db =
      handled (dead_letter_job job (prefix ++ cause_text cause) fault n (others n db))

  unfoldable pub after_attempt : Job → Option Cause → Outcome ℕ → Handled
  unfolding dead_letter
  after_attempt job cause o = elim o.result [
    | err e ↦ record {
      did = true;
      error = some (catalog_error e);
      tables = o.tables;
      clock = o.clock;
    }
    | ok attempts ↦
        if leb w.max_attempts attempts
        then dead_letter job (codes "attempts exhausted: ") cause o.clock o.tables
        else record { did = true; error = none; tables = o.tables; clock = o.clock }
  ]

  -- retryOrDeadLetter, and the ends that call neither.
  unfoldable pub settle_outcome : Job → WorkerOutcome → Processed → Handled
  unfolding dead_letter fail_job_attempt after_attempt
  settle_outcome job committed p = record {
    did = true;
    error = none;
    tables = p.tables;
    clock = p.clock;
  }
  settle_outcome job superseded p = record {
    did = true;
    error = none;
    tables = p.tables;
    clock = p.clock;
  }
  settle_outcome job permanent p = dead_letter job (codes "permanent: ") p.cause p.clock p.tables
  settle_outcome job transient p =
      after_attempt job p.cause (fail_job_attempt job fault p.clock (others p.clock p.tables))
  settle_outcome job unclassified p = record {
    did = false;
    error = p.cause;
    tables = p.tables;
    clock = p.clock;
  }

  unfoldable pub settle_processed : Job → Processed → Handled
  unfolding settle_outcome
  settle_processed job p = settle_outcome job p.outcome p

  unfoldable pub process_claim : Outcome (Option Job) → Handled
  unfolding process_claimed settle_processed
  process_claim o = elim o.result [
    | err e ↦ record {
      did = false;
      error = some (catalog_error e);
      tables = o.tables;
      clock = o.clock;
    }
    | ok none ↦ record { did = false; error = none; tables = o.tables; clock = o.clock }
    | ok (some job) ↦
        settle_processed job (process_claimed sha256_hex fault others w job o.clock o.tables)
  ]

  unfoldable pub process_one : ℕ → Database → Handled
  unfolding claim_next_job process_claim
  process_one n db = process_claim (claim_next_job priority_bootstrap fault n (others n db))
