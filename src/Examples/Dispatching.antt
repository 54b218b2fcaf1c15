-- ===== src/Examples/Dispatching.antt =====
-- Tests of the goroutines of the scheduler (internal/enginev2/scheduler/engine.go).
use grepai.Base.{ℕ, true, false, List, [], ◌∷◌, ◌++◌, none, ◌≡◌, refl, inl, ◌⊎◌, arith, ltb}
use grepai.Base.Int.{pos}
use grepai.Base.Text.{codes, same, text_lt}
use grepai.Core.Job.{Job, op_upsert, priority_live_change}
use grepai.Catalog.Tables.{Database, JobRow, empty_database}
use grepai.Engine.Worker.{endpoint_failed, transient, Processed}
use grepai.Scheduler.Circuit.{half_open, Admission, new_circuit_breaker, record_result, allow}
use grepai.Scheduler.Circuit.Tokens.{Reach, start}
use grepai.Scheduler.Config.{Config, validate}
use grepai.Scheduler.Backoff.{Sample}
use grepai.Engine.Pacing.{claim_round_robin, among, claim_from, claim_at, first_after}
use grepai.Catalog.Jobs.{
  claim_next_job_in_repo, claim_in_repo_tx, claimable_in, claimable, repository_of, first_row,
  claim_selected,
}
use grepai.Catalog.Reads.{
  repositories_with_pending_jobs, queue_depth_by_priority, sort_by, distinct, pending_repositories,
}
use grepai.Catalog.Tx.{with_write_tx, query, read}
use grepai.Engine.Dispatch.{
  finish_dispatch, refresh_depth, acquire_index, wait_until, gate, claim_next, dispose,
  schedule_retry, after_claim, act, Setup, dispatching, on_slot, job_key, attempts_of, account,
}
use grepai.Engine.Dispatch.System.{System, pick, Event, runs, ticks, run, step, new_engine}
use grepai.Engine.Dispatch.Bounded.{IsPaced, run-IsPaced}
use grepai.Engine.Dispatch.Admissions.{host, run-Reach}
use grepai.Engine.Dispatch.Probe.{HasProbe, half_open-HasProbe}
use grepai.Engine.Dispatch.Held.{IsHeld, LetsGo}
use grepai.Engine.Dispatch.Kept.{run-IsHeld}
use grepai.Engine.Dispatch.Keys.{HasPlainNames, SameIntent}
use grepai.Engine.Dispatch.Attempts.{account_keeps_others}

-- Samples are 0.
abbrev zeros : Sample
zeros = record {
  Float = ℕ;
  negative = λ _. false;
  at_least_one = λ u. ltb 0 u;
  zero_float = 0;
  almost_one = 0;
  scale = λ u d. pos 0;
}

-- Jobs of any generation, at one path.
abbrev job : ℕ → Job
job generation = record {
  worktree_id = codes "w";
  path = codes "a";
  desired_hash = codes "1";
  generation = generation;
  operation = op_upsert;
  priority = priority_live_change;
  attempts = 0;
}

abbrev failing : Job → ℕ → Database → Processed
failing j n db = record {
  outcome = transient;
  endpoint = endpoint_failed;
  cause = none;
  tables = db;
  clock = n;
}

abbrev config : Config
config = record {
  max_index_inflight = pos 1;
  reserved_query_inflight = pos 1;
  max_job_attempts = pos 2;
  base_retry_delay = pos 10;
  max_retry_delay = pos 100;
  circuit_open_after = pos 1;
  circuit_probe_interval = pos 60;
}

abbrev setup : Setup
setup = record {
  fault = λ n. false;
  cfg = config;
  sample = zeros;
  unit_at = λ n. 0;
  process = failing;
  describe = λ c. [];
}

config-valid : validate config ≡ none
unfolding validate
config-valid = refl

abbrev row : ℕ → JobRow
row generation = record {
  job_id = 1;
  worktree_id = codes "w";
  relative_path = codes "a";
  desired_hash = codes "1";
  generation = generation;
  operation = op_upsert;
  priority = priority_live_change;
  attempts = 0;
  claimed = false;
}

abbrev db : Database
unfolding empty_database
db = record empty_database {
  worktrees =
      record {
        worktree_id = codes "w";
        repository_id = codes "r";
        root_path = [];
        registration_generation = 1;
      }
      ∷ [];
  index_jobs = row 1 ∷ [];
}

-- The job is claimed and fails, and the circuit that it opens admits a probe.
abbrev events : List Event
events =
    runs 0 on_slot
    ∷ runs 0 on_slot
    ∷ runs 0 on_slot
    ∷ runs 0 on_slot
    ∷ runs 1 on_slot
    ∷ runs 1 on_slot
    ∷ ticks 60
    ∷ runs 0 on_slot
    ∷ runs 0 on_slot
    ∷ runs 0 on_slot
    ∷ []

run-IsPaced_example : IsPaced setup (run setup events (new_engine setup db))
run-IsPaced_example = run-IsPaced setup db events

run-Reach_example : Reach (start 0 60) (host (run setup events (new_engine setup db)))
run-Reach_example = run-Reach setup db events config-valid

abbrev a_call : Admission
a_call = record { epoch = 0; probe = false; granted = true }

abbrev in_flight : System
unfolding new_engine
in_flight = record {
  shared = (new_engine setup db).shared;
  threads = dispatching (job 1) a_call true ∷ [];
}

run-IsHeld_example :
    IsHeld (job 1) (run setup (runs 0 on_slot ∷ []) in_flight).threads
    ⊎ ((done : List Event) × (e : Event) × (rest : List Event) × (runs 0 on_slot ∷ []
          ≡ done ++ (e ∷ rest))
        × LetsGo setup
            (job 1)
            (run setup done in_flight).shared
            (step setup e (run setup done in_flight)).shared)
unfolding in_flight
run-IsHeld_example = run-IsHeld setup (runs 0 on_slot ∷ []) in_flight (job 1) (inl refl)

job-HasPlainNames : (n : ℕ) → HasPlainNames (job n)
job-HasPlainNames n = ((omega arith, tt), (omega arith, tt), (omega arith, tt))

job-not-SameIntent : ¬ (SameIntent (job 1) (job 2))
job-not-SameIntent h = omega (arith, h.2)

account_keeps_others_example :
    attempts_of
      (job_key (job 2))
      (account setup (job 1) (failing (job 1) 0 db) a_call in_flight.shared).0.attempts
    ≡ attempts_of (job_key (job 2)) in_flight.shared.attempts
account_keeps_others_example =
    account_keeps_others setup (job 1) (job 2) (failing (job 1) 0 db) a_call in_flight.shared
      (job-HasPlainNames 1) (job-HasPlainNames 2) job-not-SameIntent

tripped : (run setup events (new_engine setup db)).shared.breaker.state ≡ half_open
unfolding run step pick act new_engine new_circuit_breaker finish_dispatch refresh_depth
    acquire_index wait_until gate claim_next account dispose schedule_retry record_result allow
    after_claim claim_round_robin among claim_from claim_at first_after claim_next_job_in_repo
    repositories_with_pending_jobs claim_in_repo_tx with_write_tx claimable_in claimable
    repository_of first_row claim_selected query read db queue_depth_by_priority sort_by distinct
    pending_repositories text_lt same job_key
tripped = refl

half_open-HasProbe_example : HasProbe (run setup events (new_engine setup db)).threads
half_open-HasProbe_example = half_open-HasProbe setup db events config-valid tripped
