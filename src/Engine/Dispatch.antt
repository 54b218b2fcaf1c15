-- ===== src/Engine/Dispatch.antt =====
-- internal/enginev2/scheduler/engine.go: the Engine and its goroutines. A goroutine is a `Thread`, what it
-- does next with the values it holds; `act` is its next step up to the next lock, channel or call, and a
-- choice says which case of a select is taken. The account of a finished job is one step, and so is a claim
-- in turn, with its calls of the catalog. A thread whose choice cannot be taken stays where it is.
pub mod System
pub mod Slots
pub mod Bounded
pub mod Admissions
pub mod Probe
pub mod Held
pub mod Kept
pub mod Keys
pub mod Attempts
use grepai.Base.{
  ℕ, ◌+◌, ◌-◌, Bool, true, false, not, List, [], ◌∷◌, ◌++◌, Option, none, some, if◌then◌else◌, ltb,
}
use grepai.Base.Int.{ℤ, pos, pos_part, ltb_ℤ, ◌+ℤ◌}
use grepai.Base.Text.{Text, codes, same}
use grepai.Core.Job.{Job, Priority, Operation, op_upsert, op_delete}
use grepai.Scheduler.Circuit.{
  CircuitBreaker, Admission, BreakerResult, success, failure, abort, allow, record_result,
}
use grepai.Scheduler.Config.{Config}
use grepai.Scheduler.Backoff.{Sample, full_jitter_delay}
use grepai.Catalog.Tables.{Database}
use grepai.Catalog.Tx.{Faults, Outcome, ok, err}
use grepai.Catalog.Settle.{dead_letter_job}
use grepai.Catalog.Reads.{queue_depth_by_priority}
use grepai.Indexer.Chunker.{decimal}
use grepai.Engine.Worker.{
  Cause, EndpointResult, endpoint_not_contacted, endpoint_succeeded, endpoint_failed, WorkerOutcome,
  unclassified, committed, superseded, transient, permanent, Processed,
}
use grepai.Engine.Pacing.{Turn, Claimed, claimed, nothing_pending, claim_failed, claim_round_robin}

-- What New is given; `unit_at n` is the n-th sample of the seeded rng, `process` is ProcessClaimed, and
-- `describe` the text of an error.
pub record Setup : Type 1 where
  pub fault : Faults
  pub cfg : Config
  pub sample : Sample
  pub unit_at : ℕ → sample.Float
  pub process : Job → ℕ → Database → Processed
  pub describe : Cause → Text

-- The fields of Engine (`index_slots` and `query_slots` are the slots taken, `draws` the samples drawn),
-- with the context, the time, and the catalog.
pub record Shared : Type 0 where
  pub breaker : CircuitBreaker
  pub index_slots : ℕ
  pub query_slots : ℕ
  pub signal : Bool
  pub attempts : List (Text × ℕ)
  pub depth : List (Priority × ℕ)
  pub in_flight : ℕ
  pub last_repo : Text
  pub draws : ℕ
  pub cancelled : Bool
  pub now : ℕ
  pub tables : Database
  pub clock : ℕ

-- A time is when a timer fires; the flag of `dispatching` says whether the job has been counted.
pub data Thread : Type 0 where
  loop_top loop_acquiring loop_admitting : Thread
  loop_claiming : Admission → Thread
  loop_backing_off loop_waiting : ℤ → Thread
  dispatching : Job → Admission → Bool → Thread
  retry_delayed retry_backing_off : Job → ℤ → Thread
  retry_top retry_acquiring retry_admitting : Job → Thread
  terminating : Job → Text → ℕ → ℤ → Thread
  asking_index using_index asking_query using_query : Thread

-- The case of a select: ctx.Done, a free slot, the timer, the signal.
pub data Choice : Type 0 where
  on_done on_slot on_timer on_signal : Choice

abbrev pub Stepped : Type 0
Stepped = Shared × List Thread

abbrev pub operation_number : Operation → ℕ
operation_number op_upsert = 1
operation_number op_delete = 2

-- strings.Join with a NUL between the parts.
unfoldable pub job_key : Job → Text
unfolding decimal
job_key j =
    j.worktree_id
    ++ (0
        ∷ (j.path
            ++ (0
                ∷ (decimal j.generation
                    ++ (0 ∷ (j.desired_hash ++ (0 ∷ decimal (operation_number j.operation))))))))

unfoldable pub err_msg : (Cause → Text) → Option Cause → Text
err_msg describe none = codes "unknown"
err_msg describe (some c) = describe c

unfoldable pub attempts_of : Text → List (Text × ℕ) → ℕ
attempts_of key [] = 0
attempts_of key ((k, n) ∷ rest) = if same k key then n else attempts_of key rest

unfoldable pub clear_attempts : Text → List (Text × ℕ) → List (Text × ℕ)
clear_attempts key [] = []
clear_attempts key ((k, n) ∷ rest) =
    let others = clear_attempts key rest in if same k key then others else (k, n) ∷ others

unfoldable pub inc_attempts : Text → List (Text × ℕ) → List (Text × ℕ)
unfolding attempts_of clear_attempts
inc_attempts key m = (key, attempts_of key m + 1) ∷ clear_attempts key m

unfoldable pub breaker_result : EndpointResult → BreakerResult
breaker_result endpoint_failed = failure
breaker_result endpoint_succeeded = success
breaker_result endpoint_not_contacted = abort

abbrev pub release : Shared → Shared
release s = record s { index_slots = s.index_slots - 1 }

abbrev pub wake : Shared → Shared
wake s = record s { signal = true }

abbrev due_in : ℤ → Shared → ℤ
due_in d s = pos s.now +ℤ d

abbrev passed : ℤ → Shared → Bool
passed due s = not (ltb_ℤ (pos s.now) due)

abbrev forget : Job → Shared → Shared
forget job s = record s { attempts = clear_attempts (job_key job) s.attempts }

module _ (u : Setup) where
  -- The delay of a 1-based attempt, with the next sample.
  unfoldable pub next_due : ℕ → Shared → ℤ
  unfolding full_jitter_delay ◌+ℤ◌
  next_due attempt s = due_in (full_jitter_delay u.sample (pos attempt) u.cfg (u.unit_at s.draws)) s

  unfoldable pub schedule_retry : Job → ℕ → Shared → Stepped
  unfolding next_due
  schedule_retry job attempt s =
      (record s { draws = s.draws + 1 }, retry_delayed job (next_due attempt s) ∷ [])

  unfoldable pub schedule_terminate : Job → Text → ℕ → Shared → Stepped
  unfolding next_due
  schedule_terminate job reason attempt s =
      (record s { draws = s.draws + 1 }, terminating job reason attempt (next_due attempt s) ∷ [])

  abbrev pub after_write : Job → Text → ℕ → Shared → Outcome (Unit {0}) → Stepped
  after_write job reason attempt s o = elim o.result [
    | err e ↦
        schedule_terminate job reason attempt (record s { tables = o.tables; clock = o.clock })
    | ok done ↦ (forget job (record s { tables = o.tables; clock = o.clock }), [])
  ]

  -- The terminal write; `attempt` is the attempt to schedule where the store fails.
  unfoldable pub terminate : Job → Text → ℕ → Shared → Stepped
  unfolding schedule_terminate clear_attempts dead_letter_job
  terminate job reason attempt s =
      after_write job reason attempt s (dead_letter_job job reason u.fault s.clock s.tables)

  -- How account disposes of the job.
  unfoldable pub dispose : Job → WorkerOutcome → Option Cause → Shared → Stepped
  unfolding terminate schedule_retry inc_attempts attempts_of clear_attempts err_msg
  dispose job committed cause s = (forget job s, [])
  dispose job superseded cause s = (forget job s, [])
  dispose job permanent cause s =
      terminate job (codes "permanent: " ++ err_msg u.describe cause) 1 s
  dispose job transient cause s =
      let s' = record s { attempts = inc_attempts (job_key job) s.attempts } in
      let n = attempts_of (job_key job) s'.attempts in
      if ltb_ℤ (pos n) u.cfg.max_job_attempts
      then schedule_retry job n s'
      else terminate job (codes "attempts exhausted: " ++ err_msg u.describe cause) 1 s'
  dispose job unclassified cause s = (s, [])

  unfoldable pub account : Job → Processed → Admission → Shared → Stepped
  unfolding dispose breaker_result record_result
  account job p a s =
      dispose job p.outcome p.cause
        (record s { breaker = record_result s.breaker a (breaker_result p.endpoint) s.now })

  -- The deferred calls of dispatch.
  abbrev leave : Stepped → Stepped
  leave r = (wake (release (record r.0 { in_flight = r.0.in_flight - 1 })), r.1)

  -- The rest of dispatch, from ProcessClaimed on.
  unfoldable pub finish_dispatch : Job → Admission → Shared → Stepped
  unfolding account
  finish_dispatch job a s =
      let p = u.process job s.clock s.tables in
      leave (account job p a (record s { tables = p.tables; clock = p.clock }))

  abbrev pub after_depth : Shared → Outcome (List (Priority × ℕ)) → Shared
  after_depth s o = elim o.result [
    | err e ↦ record s { tables = o.tables; clock = o.clock }
    | ok d ↦ record s { depth = d; tables = o.tables; clock = o.clock }
  ]

  unfoldable pub refresh_depth : Shared → Shared
  unfolding queue_depth_by_priority
  refresh_depth s = after_depth s (queue_depth_by_priority u.fault s.clock s.tables)

  -- Sending on indexSlots, or giving up; `blocked` is the thread as it is.
  unfoldable pub acquire_index : Choice → Thread → Thread → Shared → Stepped
  acquire_index on_done blocked next s = if s.cancelled then (s, []) else (s, blocked ∷ [])
  acquire_index on_slot blocked next s =
      if ltb s.index_slots (pos_part u.cfg.max_index_inflight)
      then (record s { index_slots = s.index_slots + 1 }, next ∷ [])
      else (s, blocked ∷ [])
  acquire_index _ blocked next s = (s, blocked ∷ [])

  -- waitBackoff and waitForWork, once the timer is set.
  unfoldable pub wait_until : ℤ → Choice → Thread → Thread → Shared → Stepped
  wait_until due on_done blocked next s = if s.cancelled then (s, []) else (s, blocked ∷ [])
  wait_until due on_timer blocked next s =
      if passed due s then (s, next ∷ []) else (s, blocked ∷ [])
  wait_until due on_signal blocked next s =
      if s.signal then (record s { signal = false }, next ∷ []) else (s, blocked ∷ [])
  wait_until due on_slot blocked next s = (s, blocked ∷ [])

  -- The circuit gate; the slot is given back where the breaker does not admit.
  unfoldable pub gate : (Admission → Thread) → (ℤ → Thread) → Shared → Stepped
  unfolding allow ◌+ℤ◌
  gate admitted denied s =
      let (b, a) = allow s.breaker s.now in
      if a.granted
      then (record s { breaker = b }, admitted a ∷ [])
      else (release (record s { breaker = b }), denied (due_in u.cfg.circuit_probe_interval s) ∷ [])

  -- An admission that found no work.
  abbrev give_up : Admission → Shared → Shared
  give_up a s = release (record s { breaker = record_result s.breaker a abort s.now })

  -- pollInterval, in nanoseconds.
  abbrev pub poll_interval : ℤ
  poll_interval = pos 1_000_000_000

  unfoldable pub after_claim : Admission → Claimed → Shared → Stepped
  unfolding record_result ◌+ℤ◌
  after_claim a (claimed r job) s =
      (record s { last_repo = r }, loop_top ∷ dispatching job a false ∷ [])
  after_claim a nothing_pending s = (give_up a s, loop_waiting (due_in poll_interval s) ∷ [])
  after_claim a (claim_failed e) s =
      (give_up a s, loop_backing_off (due_in u.cfg.circuit_probe_interval s) ∷ [])

  unfoldable pub claim_next : Admission → Shared → Stepped
  unfolding after_claim claim_round_robin
  claim_next a s =
      let t = claim_round_robin u.fault s.last_repo s.clock s.tables in
      after_claim a t.result (record s { tables = t.tables; clock = t.clock })

  unfoldable pub act : Choice → Thread → Shared → Stepped
  unfolding finish_dispatch refresh_depth acquire_index wait_until gate claim_next terminate
  act c loop_top s = if s.cancelled then (s, []) else (refresh_depth s, loop_acquiring ∷ [])
  act c loop_acquiring s = acquire_index c loop_acquiring loop_admitting s
  act c loop_admitting s = gate loop_claiming loop_backing_off s
  act c (loop_claiming a) s = claim_next a s
  act c (loop_backing_off due) s = wait_until due c (loop_backing_off due) loop_top s
  act c (loop_waiting due) s = wait_until due c (loop_waiting due) loop_top s
  act c (dispatching job a false) s =
      (record s { in_flight = s.in_flight + 1 }, dispatching job a true ∷ [])
  act c (dispatching job a true) s = finish_dispatch job a s
  act on_done (retry_delayed job due) s =
      if s.cancelled then (s, []) else (s, retry_delayed job due ∷ [])
  act on_timer (retry_delayed job due) s =
      (s, (if passed due s then retry_top job else retry_delayed job due) ∷ [])
  act _ (retry_delayed job due) s = (s, retry_delayed job due ∷ [])
  act c (retry_top job) s = if s.cancelled then (s, []) else (s, retry_acquiring job ∷ [])
  act c (retry_acquiring job) s = acquire_index c (retry_acquiring job) (retry_admitting job) s
  act c (retry_admitting job) s = gate (λ a. dispatching job a false) (retry_backing_off job) s
  act c (retry_backing_off job due) s =
      wait_until due c (retry_backing_off job due) (retry_top job) s
  act on_done (terminating job reason attempt due) s =
      if s.cancelled then (s, []) else (s, terminating job reason attempt due ∷ [])
  act on_timer (terminating job reason attempt due) s =
      let written = terminate job reason (attempt + 1) s in
      if passed due s
      then (if s.cancelled then (s, []) else written)
      else (s, terminating job reason attempt due ∷ [])
  act _ (terminating job reason attempt due) s = (s, terminating job reason attempt due ∷ [])
  act on_done asking_index s = (s, [])
  act c asking_index s = acquire_index c asking_index using_index s
  act c using_index s = (release s, [])
  act on_done asking_query s = (s, [])
  act on_slot asking_query s =
      if ltb s.query_slots (pos_part u.cfg.reserved_query_inflight)
      then (record s { query_slots = s.query_slots + 1 }, using_query ∷ [])
      else (s, asking_query ∷ [])
  act _ asking_query s = (s, asking_query ∷ [])
  act c using_query s = (record s { query_slots = s.query_slots - 1 }, [])
