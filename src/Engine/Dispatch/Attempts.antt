-- ===== src/Engine/Dispatch/Attempts.antt =====
-- What the account of a job does to the attempts that are counted (internal/enginev2/scheduler/engine.go).
use grepai.Base.{
  ℕ, Bool, true, false, ◌++◌, Option, ◌≡◌, refl, ◌∙◌, inl, inr, if◌then◌else◌, Bool-cases,
}
use grepai.Base.Int.{pos, ltb_ℤ}
use grepai.Base.Text.{Text, codes, same, same→eq}
use grepai.Core.Job.{Job}
use grepai.Catalog.Tx.{Result, ok, err}
use grepai.Catalog.Settle.{dead_letter_job}
use grepai.Scheduler.Circuit.{Admission}
use grepai.Engine.Worker.{
  Cause, WorkerOutcome, unclassified, committed, superseded, transient, permanent, Processed,
}
use grepai.Engine.Dispatch.{
  Setup, Shared, Stepped, schedule_retry, schedule_terminate, terminate, dispose, account,
  after_write, inc_attempts, attempts_of, job_key, err_msg,
}
use grepai.Engine.Dispatch.Keys.{
  SameIntent, HasPlainNames, job_key_inj, attempts_of-clear, attempts_of-inc,
}

abbrev Keeps : Text → Shared → Stepped → Type 0
Keeps key s r = attempts_of key r.0.attempts ≡ attempts_of key s.attempts

module _ (u : Setup) (job : Job) (key : Text) (apart : same (job_key job) key ≡ false) where
  after_write-Keeps :
      (reason : Text) (attempt : ℕ) (s : Shared) (r : Result (Unit {0}))
      → let o = dead_letter_job job reason u.fault s.clock s.tables in
        Keeps key s (after_write u job reason attempt s (record o { result = r }))
  unfolding schedule_terminate
  after_write-Keeps reason attempt s (ok done) =
      attempts_of-clear (job_key job) key s.attempts apart
  after_write-Keeps reason attempt s (err e) = refl

  terminate-Keeps :
      (reason : Text) (attempt : ℕ) (s : Shared) → Keeps key s (terminate u job reason attempt s)
  unfolding terminate
  terminate-Keeps reason attempt s = after_write-Keeps reason attempt s _

  either-Keeps :
      (s : Shared) (b : Bool) (x y : Stepped)
      → Keeps key s x
      → Keeps key s y
      → Keeps key s (if b then x else y)
  either-Keeps s true x y h k = h
  either-Keeps s false x y h k = k

  dispose-Keeps :
      (o : WorkerOutcome) (cause : Option Cause) (s : Shared)
      → Keeps key s (dispose u job o cause s)
  unfolding dispose schedule_retry
  dispose-Keeps committed cause s = attempts_of-clear (job_key job) key s.attempts apart
  dispose-Keeps superseded cause s = attempts_of-clear (job_key job) key s.attempts apart
  dispose-Keeps permanent cause s =
      terminate-Keeps (codes "permanent: " ++ err_msg u.describe cause) 1 s
  dispose-Keeps transient cause s =
      let s1 = record s { attempts = inc_attempts (job_key job) s.attempts } in
      let n = attempts_of (job_key job) s1.attempts in
      let reason = codes "attempts exhausted: " ++ err_msg u.describe cause in
      let kept = attempts_of-inc (job_key job) key s.attempts apart in
      either-Keeps s (ltb_ℤ (pos n) u.cfg.max_job_attempts) (schedule_retry u job n s1)
        (terminate u job reason 1 s1) kept (terminate-Keeps reason 1 s1 ∙ kept)
  dispose-Keeps unclassified cause s = refl

keys_apart :
    (j k : Job)
    → HasPlainNames j
    → HasPlainNames k
    → ¬ (SameIntent j k)
    → same (job_key j) (job_key k) ≡ false
keys_apart j k hj hk d = elim (Bool-cases (same (job_key j) (job_key k))) [
  | inl e ↦ absurd (d (job_key_inj j k hj hk (same→eq _ _ e)))
  | inr e ↦ e
]

-- The account of one job leaves the attempts counted for every other intent as they are, where the
-- names in both have no NUL: a job of the same path that supersedes it neither inherits its
-- attempts nor erases them.
pub account_keeps_others :
    (u : Setup) (j k : Job) (p : Processed) (a : Admission) (s : Shared)
    → HasPlainNames j
    → HasPlainNames k
    → ¬ (SameIntent j k)
    → attempts_of (job_key k) (account u j p a s).0.attempts ≡ attempts_of (job_key k) s.attempts
unfolding account
account_keeps_others u j k p a s hj hk d =
    dispose-Keeps u j (job_key k) (keys_apart j k hj hk d) p.outcome p.cause _
