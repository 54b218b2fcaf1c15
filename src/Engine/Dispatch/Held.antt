-- ===== src/Engine/Dispatch/Held.antt =====
-- A claimed job is not lost (internal/enginev2/scheduler/engine.go): it stays with one goroutine after another
-- until it is settled.
use grepai.Base.{
  ℕ, ◌+◌, Bool, true, false, List, [], ◌∷◌, ◌++◌, Option, none, some, ◌≡◌, refl, sym, ap, ◌∙◌, ◌⊎◌,
  inl, inr, if◌then◌else◌, Bool-cases, some_inj,
}
use grepai.Base.Int.{ℤ, pos, ltb_ℤ}
use grepai.Base.Text.{Text, codes}
use grepai.Core.Job.{Job}
use grepai.Catalog.Tables.{Database}
use grepai.Catalog.Tx.{Result, ok, err}
use grepai.Catalog.Settle.{dead_letter_job}
use grepai.Scheduler.Circuit.{Admission, record_result}
use grepai.Engine.Worker.{
  Cause, WorkerOutcome, unclassified, committed, superseded, transient, permanent,
}
use grepai.Engine.Dispatch.{
  Setup, Shared, Thread, loop_top, loop_acquiring, loop_admitting, loop_claiming, loop_backing_off,
  loop_waiting, dispatching, retry_delayed, retry_backing_off, retry_top, retry_acquiring,
  retry_admitting, terminating, asking_index, using_index, asking_query, using_query, Choice,
  on_done, on_slot, on_timer, on_signal, Stepped, schedule_retry, schedule_terminate, terminate,
  dispose, account, finish_dispatch, acquire_index, wait_until, gate, act, after_write,
  breaker_result, inc_attempts, attempts_of, job_key, err_msg, passed,
}

-- The job that a thread holds.
abbrev pub held : Thread → Option Job
held (dispatching job a entered) = some job
held (retry_delayed job due) = some job
held (retry_backing_off job due) = some job
held (retry_top job) = some job
held (retry_acquiring job) = some job
held (retry_admitting job) = some job
held (terminating job reason attempt due) = some job
held _ = none

-- Some thread holds the job.
abbrev pub IsHeld : Job → List Thread → Type 0
IsHeld job [] = ⊥
IsHeld job (t ∷ ts) = (held t ≡ some job) ⊎ IsHeld job ts

abbrev pub is_settled : WorkerOutcome → Bool
is_settled committed = true
is_settled superseded = true
is_settled unclassified = true
is_settled _ = false

-- The tables that a step of a job's goroutine starts from, or those that its worker leaves.
abbrev pub InStep : Setup → Job → Shared → ℕ → Database → Type 0
InStep u job s n db =
    ((n ≡ s.clock) × (db ≡ s.tables))
    ⊎ ((n ≡ (u.process job s.clock s.tables).clock)
        × (db ≡ (u.process job s.clock s.tables).tables))

-- Why a goroutine may let go of a job, in a step from s to s': the context is cancelled, the worker has
-- settled the job or crashed in it, or the step has dead-lettered it.
abbrev pub LetsGo : Setup → Job → Shared → Shared → Type 0
LetsGo u job s s' =
    (s.cancelled ≡ true)
    ⊎ ((is_settled (u.process job s.clock s.tables).outcome ≡ true)
        ⊎ ((reason : Text) × (n : ℕ) × (db : Database) × InStep u job s n db
            × ((dead_letter_job job reason u.fault n db).result ≡ ok tt)
            × (s'.tables ≡ (dead_letter_job job reason u.fault n db).tables)))

-- The job is with one of the next threads, or is let go.
abbrev pub Passes : Setup → Job → Shared → Stepped → Type 0
Passes u job s r = IsHeld job r.1 ⊎ LetsGo u job s r.0

after_write-Passes :
    (u : Setup) (job : Job) (reason : Text) (attempt : ℕ) (s s' : Shared) (r : Result (Unit {0}))
    → InStep u job s' s.clock s.tables
    → let o = dead_letter_job job reason u.fault s.clock s.tables in
      o.result ≡ r → Passes u job s' (after_write u job reason attempt s (record o { result = r }))
unfolding schedule_terminate
after_write-Passes u job reason attempt s s' (ok done) w e =
    inr (inr (inr (reason, s.clock, s.tables, w, e, refl)))
after_write-Passes u job reason attempt s s' (err fault) w e = inl (inl refl)

terminate-Passes :
    (u : Setup) (job : Job) (reason : Text) (attempt : ℕ) (s s' : Shared)
    → InStep u job s' s.clock s.tables
    → Passes u job s' (terminate u job reason attempt s)
unfolding terminate
terminate-Passes u job reason attempt s s' w = after_write-Passes u job reason attempt s s' _ w refl

either-Passes :
    (u : Setup) (job : Job) (s : Shared) (b : Bool) (x y : Stepped)
    → Passes u job s x
    → Passes u job s y
    → Passes u job s (if b then x else y)
either-Passes u job s true x y h k = h
either-Passes u job s false x y h k = k

dispose-Passes :
    (u : Setup) (job : Job) (o : WorkerOutcome) (cause : Option Cause) (s s' : Shared)
    → (u.process job s'.clock s'.tables).outcome ≡ o
    → InStep u job s' s.clock s.tables
    → Passes u job s' (dispose u job o cause s)
unfolding dispose schedule_retry
dispose-Passes u job committed cause s s' e w = inr (inr (inl (ap is_settled e)))
dispose-Passes u job superseded cause s s' e w = inr (inr (inl (ap is_settled e)))
dispose-Passes u job permanent cause s s' e w = terminate-Passes u job _ 1 s s' w
dispose-Passes u job transient cause s s' e w =
    let s1 = record s { attempts = inc_attempts (job_key job) s.attempts } in
    let n = attempts_of (job_key job) s1.attempts in
    let reason = codes "attempts exhausted: " ++ err_msg u.describe cause in
    either-Passes u job s' (ltb_ℤ (pos n) u.cfg.max_job_attempts) (schedule_retry u job n s1)
      (terminate u job reason 1 s1) (inl (inl refl)) (terminate-Passes u job reason 1 s1 s' w)
dispose-Passes u job unclassified cause s s' e w = inr (inr (inl (ap is_settled e)))

finish_dispatch-Passes :
    (u : Setup) (job : Job) (a : Admission) (s : Shared)
    → Passes u job s (finish_dispatch u job a s)
unfolding finish_dispatch account
finish_dispatch-Passes u job a s =
    let p = u.process job s.clock s.tables in
    let s' = record s {
      breaker = record_result s.breaker a (breaker_result p.endpoint) s.now;
      tables = p.tables;
      clock = p.clock;
    } in
    elim (dispose-Passes u job p.outcome p.cause s' s refl (inr (refl, refl))) [
      | inl h ↦ inl h
      | inr h ↦ inr h
    ]

-- A goroutine ends only when the context is cancelled.
unless_cancelled-Passes :
    (u : Setup) (job : Job) (s s' : Shared) (r : Stepped)
    → s'.cancelled ≡ s.cancelled
    → Passes u job s r
    → Passes u job s (if s'.cancelled then (s', []) else r)
unless_cancelled-Passes u job s s' r e h = elim (Bool-cases s'.cancelled) [
  | inl c ↦ rw c (inr (inl (sym e ∙ c)))
  | inr c ↦ rw c h
]

acquire_index-Passes :
    (u : Setup) (job : Job) (c : Choice) (blocked next : Thread) (s : Shared)
    → held blocked ≡ some job
    → held next ≡ some job
    → Passes u job s (acquire_index u c blocked next s)
unfolding acquire_index
acquire_index-Passes u job on_done blocked next s h k =
    unless_cancelled-Passes u job s s (s, blocked ∷ []) refl (inl (inl h))
acquire_index-Passes u job on_slot blocked next s h k =
    either-Passes u job s _ (record s { index_slots = s.index_slots + 1 }, next ∷ [])
      (s, blocked ∷ []) (inl (inl k)) (inl (inl h))
acquire_index-Passes u job on_timer blocked next s h k = inl (inl h)
acquire_index-Passes u job on_signal blocked next s h k = inl (inl h)

wait_until-Passes :
    (u : Setup) (job : Job) (due : ℤ) (c : Choice) (blocked next : Thread) (s : Shared)
    → held blocked ≡ some job
    → held next ≡ some job
    → Passes u job s (wait_until u due c blocked next s)
unfolding wait_until
wait_until-Passes u job due on_done blocked next s h k =
    unless_cancelled-Passes u job s s (s, blocked ∷ []) refl (inl (inl h))
wait_until-Passes u job due on_slot blocked next s h k = inl (inl h)
wait_until-Passes u job due on_timer blocked next s h k =
    either-Passes u job s _ (s, next ∷ []) (s, blocked ∷ []) (inl (inl k)) (inl (inl h))
wait_until-Passes u job due on_signal blocked next s h k =
    either-Passes u job s _ (record s { signal = false }, next ∷ []) (s, blocked ∷ []) (inl (inl k))
      (inl (inl h))

gate-Passes :
    (u : Setup) (job : Job) (admitted : Admission → Thread) (denied : ℤ → Thread) (s : Shared)
    → ((a : Admission) → held (admitted a) ≡ some job)
    → ((due : ℤ) → held (denied due) ≡ some job)
    → Passes u job s (gate u admitted denied s)
unfolding gate
gate-Passes u job admitted denied s h k =
    either-Passes u job s _ (_, _ ∷ []) (_, _ ∷ []) (inl (inl (h _))) (inl (inl (k _)))

held_either :
    (job : Job) (b : Bool) (t p : Thread)
    → held t ≡ some job
    → held p ≡ some job
    → held (if b then t else p) ≡ some job
held_either job true t p h k = h
held_either job false t p h k = k

-- A thread that holds no job.
idle : (t : Thread) (job : Job) → held t ≡ none → held t ≡ some job → ⊥
idle t job e h = let clash = sym e ∙ h in cc

pub act-Passes :
    (u : Setup) (c : Choice) (t : Thread) (s : Shared) (job : Job)
    → held t ≡ some job
    → Passes u job s (act u c t s)
unfolding act
act-Passes u c loop_top s job h = absurd (idle loop_top job refl h)
act-Passes u c loop_acquiring s job h = absurd (idle loop_acquiring job refl h)
act-Passes u c loop_admitting s job h = absurd (idle loop_admitting job refl h)
act-Passes u c (loop_claiming a) s job h = absurd (idle (loop_claiming a) job refl h)
act-Passes u c (loop_backing_off due) s job h = absurd (idle (loop_backing_off due) job refl h)
act-Passes u c (loop_waiting due) s job h = absurd (idle (loop_waiting due) job refl h)
act-Passes u c asking_index s job h = absurd (idle asking_index job refl h)
act-Passes u c using_index s job h = absurd (idle using_index job refl h)
act-Passes u c asking_query s job h = absurd (idle asking_query job refl h)
act-Passes u c using_query s job h = absurd (idle using_query job refl h)
act-Passes u c (dispatching j a false) s job h = inl (inl h)
act-Passes u c (dispatching j a true) s job h =
    rw (sym (some_inj h)) (finish_dispatch-Passes u j a s)
act-Passes u on_done (retry_delayed j due) s job h =
    unless_cancelled-Passes u job s s (s, retry_delayed j due ∷ []) refl (inl (inl h))
act-Passes u on_slot (retry_delayed j due) s job h = inl (inl h)
act-Passes u on_timer (retry_delayed j due) s job h =
    inl (inl (held_either job (passed due s) (retry_top j) (retry_delayed j due) h h))
act-Passes u on_signal (retry_delayed j due) s job h = inl (inl h)
act-Passes u c (retry_top j) s job h =
    unless_cancelled-Passes u job s s (s, retry_acquiring j ∷ []) refl (inl (inl h))
act-Passes u c (retry_acquiring j) s job h =
    acquire_index-Passes u job c (retry_acquiring j) (retry_admitting j) s h h
act-Passes u c (retry_admitting j) s job h =
    gate-Passes u job (λ a. dispatching j a false) (retry_backing_off j) s (λ a. h) (λ due. h)
act-Passes u c (retry_backing_off j due) s job h =
    wait_until-Passes u job due c (retry_backing_off j due) (retry_top j) s h h
act-Passes u on_done (terminating j reason attempt due) s job h =
    unless_cancelled-Passes u job s s (s, terminating j reason attempt due ∷ []) refl (inl (inl h))
act-Passes u on_slot (terminating j reason attempt due) s job h = inl (inl h)
act-Passes u on_timer (terminating j reason attempt due) s job h =
    let written : Passes u job s (terminate u j reason (attempt + 1) s) =
      rw (sym (some_inj h)) (terminate-Passes u j reason (attempt + 1) s s (inl (refl, refl))) in
    either-Passes u job s _ _ (s, terminating j reason attempt due ∷ [])
      (unless_cancelled-Passes u job s s (terminate u j reason (attempt + 1) s) refl written)
      (inl (inl h))
act-Passes u on_signal (terminating j reason attempt due) s job h = inl (inl h)
