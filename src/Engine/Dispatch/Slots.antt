-- ===== src/Engine/Dispatch/Slots.antt =====
-- The slots of the Engine and its count of jobs in flight (internal/enginev2/scheduler/engine.go).
use grepai.Base.{ℕ, ◌+◌, ◌≤◌, true, false, List, [], ◌∷◌, ◌++◌, Option, ◌≡◌, arith}
use grepai.Base.Int.{pos_part}
use grepai.Base.Text.{Text}
use grepai.Core.Job.{Job}
use grepai.Scheduler.Circuit.{Admission, record_result}
use grepai.Engine.Worker.{
  Cause, WorkerOutcome, unclassified, committed, superseded, transient, permanent,
}
use grepai.Engine.Pacing.{Claimed, claimed, nothing_pending, claim_failed, claim_round_robin}
use grepai.Engine.Dispatch.{
  Setup, Shared, Thread, loop_top, loop_acquiring, loop_admitting, loop_claiming, loop_backing_off,
  loop_waiting, dispatching, retry_delayed, retry_backing_off, retry_top, retry_acquiring,
  retry_admitting, terminating, asking_index, using_index, asking_query, using_query, Choice,
  on_done, on_slot, on_timer, on_signal, Stepped, schedule_retry, schedule_terminate, terminate,
  dispose, account, finish_dispatch, refresh_depth, acquire_index, wait_until, gate, claim_next,
  act, after_claim, breaker_result,
}

-- The threads that hold an index slot, that are counted in flight, and that hold a query slot.
abbrev pub index_held : Thread → ℕ
index_held loop_admitting = 1
index_held (loop_claiming a) = 1
index_held (dispatching job a entered) = 1
index_held (retry_admitting job) = 1
index_held using_index = 1
index_held _ = 0

abbrev pub counted : Thread → ℕ
counted (dispatching job a true) = 1
counted _ = 0

abbrev pub query_held : Thread → ℕ
query_held using_query = 1
query_held _ = 0

abbrev pub token : Thread → List Admission
token (loop_claiming a) = a ∷ []
token (dispatching job a entered) = a ∷ []
token _ = []

abbrev pub tokens : List Thread → List Admission
tokens [] = []
tokens (t ∷ ts) = token t ++ tokens ts

abbrev pub total : (Thread → ℕ) → List Thread → ℕ
total f [] = 0
total f (t ∷ ts) = f t + total f ts

-- A step that leaves the slots, the count and the breaker alone, and whose threads hold none of them.
pub record IsQuiet (s : Shared) (r : Stepped) : Type 0 where
  pub index : r.0.index_slots ≡ s.index_slots
  pub query : r.0.query_slots ≡ s.query_slots
  pub flight : r.0.in_flight ≡ s.in_flight
  pub same_breaker : r.0.breaker ≡ s.breaker
  pub no_index : total index_held r.1 ≡ 0
  pub no_query : total query_held r.1 ≡ 0
  pub no_count : total counted r.1 ≡ 0
  pub no_token : tokens r.1 ≡ []

terminate-IsQuiet :
    (u : Setup) (job : Job) (reason : Text) (attempt : ℕ) (s : Shared)
    → IsQuiet s (terminate u job reason attempt s)
unfolding terminate schedule_terminate
terminate-IsQuiet u job reason attempt s = ground arith

pub dispose-IsQuiet :
    (u : Setup) (job : Job) (outcome : WorkerOutcome) (cause : Option Cause) (s : Shared)
    → IsQuiet s (dispose u job outcome cause s)
unfolding dispose schedule_retry
dispose-IsQuiet u job committed cause s = ground arith
dispose-IsQuiet u job superseded cause s = ground arith
dispose-IsQuiet u job permanent cause s = terminate-IsQuiet u job _ 1 s
dispose-IsQuiet u job transient cause s = ground (arith, terminate-IsQuiet u job)
dispose-IsQuiet u job unclassified cause s = ground arith

abbrev pub index_cap : Setup → ℕ
index_cap u = pos_part u.cfg.max_index_inflight

abbrev pub query_cap : Setup → ℕ
query_cap u = pos_part u.cfg.reserved_query_inflight

-- The counters follow what the thread held and what its next threads hold.
pub record Balances (u : Setup) (t : Thread) (s : Shared) (r : Stepped) : Type 0 where
  pub index :
      index_held t ≤ s.index_slots
      → r.0.index_slots + index_held t ≡ s.index_slots + total index_held r.1
  pub query :
      query_held t ≤ s.query_slots
      → r.0.query_slots + query_held t ≡ s.query_slots + total query_held r.1
  pub flight : counted t ≤ s.in_flight → r.0.in_flight + counted t ≡ s.in_flight + total counted r.1
  pub index_bound : s.index_slots ≤ index_cap u → r.0.index_slots ≤ index_cap u
  pub query_bound : s.query_slots ≤ query_cap u → r.0.query_slots ≤ query_cap u

finish_dispatch-Balances :
    (u : Setup) (job : Job) (a : Admission) (s : Shared)
    → Balances u (dispatching job a true) s (finish_dispatch u job a s)
unfolding finish_dispatch account
finish_dispatch-Balances u job a s =
    let p = u.process job s.clock s.tables in
    let s' = record s {
      breaker = record_result s.breaker a (breaker_result p.endpoint) s.now;
      tables = p.tables;
      clock = p.clock;
    } in
    let q = dispose-IsQuiet u job p.outcome p.cause s' in
    record {
      index = λ h. omega (arith, q.index, q.no_index);
      query = λ h. omega (arith, q.query, q.no_query);
      flight = λ h. omega (arith, q.flight, q.no_count);
      index_bound = λ h. omega (arith, q.index);
      query_bound = λ h. omega (arith, q.query);
    }

after_claim-Balances :
    (u : Setup) (a : Admission) (c : Claimed) (s : Shared)
    → Balances u (loop_claiming a) s (after_claim u a c s)
unfolding after_claim
after_claim-Balances u a (claimed r job) s = ground arith
after_claim-Balances u a nothing_pending s = ground arith
after_claim-Balances u a (claim_failed e) s = ground arith

pub act-Balances : (u : Setup) (c : Choice) (t : Thread) (s : Shared) → Balances u t s (act u c t s)
unfolding act refresh_depth acquire_index wait_until gate claim_next
act-Balances u c loop_top s = ground arith
act-Balances u on_done loop_acquiring s = ground arith
act-Balances u on_slot loop_acquiring s = ground arith
act-Balances u on_timer loop_acquiring s = ground arith
act-Balances u on_signal loop_acquiring s = ground arith
act-Balances u c loop_admitting s = ground arith
act-Balances u c (loop_claiming a) s =
    let t = claim_round_robin u.fault s.last_repo s.clock s.tables in
    let b = after_claim-Balances u a t.result (record s { tables = t.tables; clock = t.clock }) in
    record {
      index = b.index;
      query = b.query;
      flight = b.flight;
      index_bound = b.index_bound;
      query_bound = b.query_bound;
    }
act-Balances u on_done (loop_backing_off due) s = ground arith
act-Balances u on_slot (loop_backing_off due) s = ground arith
act-Balances u on_timer (loop_backing_off due) s = ground arith
act-Balances u on_signal (loop_backing_off due) s = ground arith
act-Balances u on_done (loop_waiting due) s = ground arith
act-Balances u on_slot (loop_waiting due) s = ground arith
act-Balances u on_timer (loop_waiting due) s = ground arith
act-Balances u on_signal (loop_waiting due) s = ground arith
act-Balances u c (dispatching job a false) s = ground arith
act-Balances u c (dispatching job a true) s = finish_dispatch-Balances u job a s
act-Balances u c (retry_top job) s = ground arith
act-Balances u on_done (retry_acquiring job) s = ground arith
act-Balances u on_slot (retry_acquiring job) s = ground arith
act-Balances u on_timer (retry_acquiring job) s = ground arith
act-Balances u on_signal (retry_acquiring job) s = ground arith
act-Balances u c (retry_admitting job) s = ground arith
act-Balances u on_done (retry_backing_off job due) s = ground arith
act-Balances u on_slot (retry_backing_off job due) s = ground arith
act-Balances u on_timer (retry_backing_off job due) s = ground arith
act-Balances u on_signal (retry_backing_off job due) s = ground arith
act-Balances u on_done (retry_delayed job due) s = ground arith
act-Balances u on_slot (retry_delayed job due) s = ground arith
act-Balances u on_timer (retry_delayed job due) s = ground arith
act-Balances u on_signal (retry_delayed job due) s = ground arith
act-Balances u on_done (terminating job reason attempt due) s = ground arith
act-Balances u on_slot (terminating job reason attempt due) s = ground arith
act-Balances u on_timer (terminating job reason attempt due) s = ground arith
act-Balances u on_signal (terminating job reason attempt due) s = ground arith
act-Balances u on_done asking_index s = ground arith
act-Balances u on_slot asking_index s = ground arith
act-Balances u on_timer asking_index s = ground arith
act-Balances u on_signal asking_index s = ground arith
act-Balances u on_done asking_query s = ground arith
act-Balances u on_slot asking_query s = ground arith
act-Balances u on_timer asking_query s = ground arith
act-Balances u on_signal asking_query s = ground arith
act-Balances u c using_index s = ground arith
act-Balances u c using_query s = ground arith
