-- ===== src/Engine/Dispatch/Admissions.antt =====
-- Every admission of the Engine is resolved exactly once (internal/enginev2/scheduler/engine.go with circuit.go):
-- the goroutines, seen as the tokens they hold, are the breaker's host.
use mathlib.Core.List.{append_assoc, append-nil}
use grepai.Base.{
  ◌-◌, Bool, true, false, List, [], ◌∷◌, ◌++◌, none, if◌then◌else◌, ◌≡◌, refl, sym, ap, ap₂, ◌∙◌,
  subst, inl, inr, arith, Option-cases,
}
use grepai.Base.Int.{ℤ, pos, pos_part, ◌+ℤ◌}
use grepai.Core.Job.{Job}
use grepai.Catalog.Tables.{Database}
use grepai.Scheduler.Circuit.{
  new_circuit_breaker, Admission, BreakerResult, abort, allow, record_result,
}
use grepai.Scheduler.Config.{validate, validate_iff}
use grepai.Scheduler.Circuit.Tokens.{
  Host, admit, resolve, admits, resolves, Reach, here, next, start,
}
use grepai.Engine.Pacing.{Claimed, claimed, nothing_pending, claim_failed, claim_round_robin}
use grepai.Engine.Dispatch.{
  Setup, Shared, Thread, loop_top, loop_acquiring, loop_admitting, loop_claiming, loop_backing_off,
  loop_waiting, dispatching, retry_delayed, retry_backing_off, retry_top, retry_acquiring,
  retry_admitting, terminating, asking_index, using_index, asking_query, using_query, Choice,
  on_done, on_slot, on_timer, on_signal, Stepped, account, finish_dispatch, refresh_depth,
  acquire_index, wait_until, gate, claim_next, act, after_claim, breaker_result,
}
use grepai.Engine.Dispatch.System.{
  System, Event, runs, submits, asks_index, asks_query, cancels, ticks, writes, pick, pick-append,
  put_back, step, run, new_engine, submit,
}
use grepai.Engine.Dispatch.Slots.{token, tokens, dispose-IsQuiet}

-- The breaker with the admissions that the goroutines hold.
abbrev pub host : System → Host
host y = record { breaker = y.shared.breaker; outstanding = tokens y.threads }

-- What a step does to the admission of its thread.
data Uses (t : Thread) (s : Shared) (r : Stepped) : Type 0 where
  keeps_it : r.0.breaker ≡ s.breaker → tokens r.1 ≡ token t → Uses t s r
  gets_one :
      token t ≡ []
      → r.0.breaker ≡ (allow s.breaker s.now).0
      → (let a = (allow s.breaker s.now).1 in tokens r.1 ≡ (if a.granted then a ∷ [] else []))
      → Uses t s r
  resolves_it :
      (a : Admission) (b : BreakerResult)
      → token t ≡ a ∷ []
      → r.0.breaker ≡ record_result s.breaker a b s.now
      → tokens r.1 ≡ []
      → Uses t s r

finish_dispatch-Uses :
    (u : Setup) (job : Job) (a : Admission) (s : Shared)
    → Uses (dispatching job a true) s (finish_dispatch u job a s)
unfolding finish_dispatch account
finish_dispatch-Uses u job a s =
    let p = u.process job s.clock s.tables in
    let s' = record s {
      breaker = record_result s.breaker a (breaker_result p.endpoint) s.now;
      tables = p.tables;
      clock = p.clock;
    } in
    let q = dispose-IsQuiet u job p.outcome p.cause s' in
    resolves_it a (breaker_result p.endpoint) refl q.same_breaker q.no_token

after_claim-Uses :
    (u : Setup) (a : Admission) (c : Claimed) (s : Shared)
    → Uses (loop_claiming a) s (after_claim u a c s)
unfolding after_claim
after_claim-Uses u a (claimed r job) s = keeps_it refl refl
after_claim-Uses u a nothing_pending s = resolves_it a abort refl refl refl
after_claim-Uses u a (claim_failed e) s = resolves_it a abort refl refl refl

claim_next-Uses :
    (u : Setup) (a : Admission) (s : Shared) → Uses (loop_claiming a) s (claim_next u a s)
unfolding claim_next
claim_next-Uses u a s =
    let t = claim_round_robin u.fault s.last_repo s.clock s.tables in
    elim (after_claim-Uses u a t.result (record s { tables = t.tables; clock = t.clock })) [
      | keeps_it b ts ↦ keeps_it b ts
      | gets_one e b ts ↦ gets_one e b ts
      | resolves_it a' b e c ts ↦ resolves_it a' b e c ts
    ]

gate-Uses :
    (u : Setup) (admitted : Admission → Thread) (denied : ℤ → Thread) (t : Thread) (s : Shared)
    → token t ≡ []
    → ((a : Admission) → token (admitted a) ≡ a ∷ [])
    → ((due : ℤ) → token (denied due) ≡ [])
    → Uses t s (gate u admitted denied s)
unfolding gate
gate-Uses u admitted denied t s e f g =
    let hit = f (allow s.breaker s.now).1 in
    let miss = g (pos s.now +ℤ u.cfg.circuit_probe_interval) in
    gets_one e (ground arith) (ground arith)

act-Uses : (u : Setup) (c : Choice) (t : Thread) (s : Shared) → Uses t s (act u c t s)
unfolding act refresh_depth acquire_index wait_until
act-Uses u c loop_top s = keeps_it (ground arith) (ground arith)
act-Uses u on_done loop_acquiring s = keeps_it (ground arith) (ground arith)
act-Uses u on_slot loop_acquiring s = keeps_it (ground arith) (ground arith)
act-Uses u on_timer loop_acquiring s = keeps_it (ground arith) (ground arith)
act-Uses u on_signal loop_acquiring s = keeps_it (ground arith) (ground arith)
act-Uses u c loop_admitting s =
    gate-Uses u loop_claiming loop_backing_off loop_admitting s refl (λ a. refl) (λ due. refl)
act-Uses u c (loop_claiming a) s = claim_next-Uses u a s
act-Uses u on_done (loop_backing_off due) s = keeps_it (ground arith) (ground arith)
act-Uses u on_slot (loop_backing_off due) s = keeps_it (ground arith) (ground arith)
act-Uses u on_timer (loop_backing_off due) s = keeps_it (ground arith) (ground arith)
act-Uses u on_signal (loop_backing_off due) s = keeps_it (ground arith) (ground arith)
act-Uses u on_done (loop_waiting due) s = keeps_it (ground arith) (ground arith)
act-Uses u on_slot (loop_waiting due) s = keeps_it (ground arith) (ground arith)
act-Uses u on_timer (loop_waiting due) s = keeps_it (ground arith) (ground arith)
act-Uses u on_signal (loop_waiting due) s = keeps_it (ground arith) (ground arith)
act-Uses u c (dispatching job a false) s = keeps_it (ground arith) (ground arith)
act-Uses u c (dispatching job a true) s = finish_dispatch-Uses u job a s
act-Uses u c (retry_top job) s = keeps_it (ground arith) (ground arith)
act-Uses u on_done (retry_acquiring job) s = keeps_it (ground arith) (ground arith)
act-Uses u on_slot (retry_acquiring job) s = keeps_it (ground arith) (ground arith)
act-Uses u on_timer (retry_acquiring job) s = keeps_it (ground arith) (ground arith)
act-Uses u on_signal (retry_acquiring job) s = keeps_it (ground arith) (ground arith)
act-Uses u c (retry_admitting job) s =
    gate-Uses u (λ a. dispatching job a false) (retry_backing_off job) (retry_admitting job) s refl
      (λ a. refl) (λ due. refl)
act-Uses u on_done (retry_backing_off job due) s = keeps_it (ground arith) (ground arith)
act-Uses u on_slot (retry_backing_off job due) s = keeps_it (ground arith) (ground arith)
act-Uses u on_timer (retry_backing_off job due) s = keeps_it (ground arith) (ground arith)
act-Uses u on_signal (retry_backing_off job due) s = keeps_it (ground arith) (ground arith)
act-Uses u on_done (retry_delayed job due) s = keeps_it (ground arith) (ground arith)
act-Uses u on_slot (retry_delayed job due) s = keeps_it (ground arith) (ground arith)
act-Uses u on_timer (retry_delayed job due) s = keeps_it (ground arith) (ground arith)
act-Uses u on_signal (retry_delayed job due) s = keeps_it (ground arith) (ground arith)
act-Uses u on_done (terminating job reason attempt due) s = keeps_it (ground arith) (ground arith)
act-Uses u on_slot (terminating job reason attempt due) s = keeps_it (ground arith) (ground arith)
act-Uses u on_timer (terminating job reason attempt due) s = keeps_it (ground arith) (ground arith)
act-Uses u on_signal (terminating job reason attempt due) s = keeps_it (ground arith) (ground arith)
act-Uses u on_done asking_index s = keeps_it (ground arith) (ground arith)
act-Uses u on_slot asking_index s = keeps_it (ground arith) (ground arith)
act-Uses u on_timer asking_index s = keeps_it (ground arith) (ground arith)
act-Uses u on_signal asking_index s = keeps_it (ground arith) (ground arith)
act-Uses u on_done asking_query s = keeps_it (ground arith) (ground arith)
act-Uses u on_slot asking_query s = keeps_it (ground arith) (ground arith)
act-Uses u on_timer asking_query s = keeps_it (ground arith) (ground arith)
act-Uses u on_signal asking_query s = keeps_it (ground arith) (ground arith)
act-Uses u c using_index s = keeps_it (ground arith) (ground arith)
act-Uses u c using_query s = keeps_it (ground arith) (ground arith)

tokens-append : (xs ys : List Thread) → tokens (xs ++ ys) ≡ tokens xs ++ tokens ys
tokens-append [] ys = refl
tokens-append (x ∷ xs) ys =
    ap (λ l. token x ++ l) (tokens-append xs ys)
    ∙ sym (append_assoc (token x) (tokens xs) (tokens ys))

host_eq : (g h : Host) → g.breaker ≡ h.breaker → g.outstanding ≡ h.outstanding → g ≡ h
host_eq g h e f = ap₂ (λ x m. record { breaker = x; outstanding = m }) e f

granted_among :
    (g : Bool) (a : Admission) (us vs : List Admission)
    → us ++ ((if g then a ∷ [] else []) ++ vs) ≡ (if g then us ++ (a ∷ vs) else us ++ vs)
granted_among true a us vs = refl
granted_among false a us vs = refl

-- A thread's step, among the tokens of the others.
put_back-Reach :
    (h : Host) (u : Setup) (c : Choice) (xs : List Thread) (t : Thread) (ys : List Thread)
    (y : System)
    → y.threads ≡ xs ++ (t ∷ ys)
    → Reach h (host y)
    → Reach h (host (put_back xs (act u c t y.shared) ys))
unfolding admit resolve
put_back-Reach h u c xs t ys y e reach =
    let r = act u c t y.shared in
    let before : tokens y.threads ≡ tokens xs ++ (token t ++ tokens ys) =
      ap tokens e ∙ tokens-append xs (t ∷ ys) in
    let after : tokens (xs ++ (r.1 ++ ys)) ≡ tokens xs ++ (tokens r.1 ++ tokens ys) =
      tokens-append xs (r.1 ++ ys) ∙ ap (λ l. tokens xs ++ l) (tokens-append r.1 ys) in
    elim (act-Uses u c t y.shared) [
      | keeps_it b k ↦
          subst (Reach h)
            (host_eq _ _ (sym b)
              (before ∙ ap (λ l. tokens xs ++ (l ++ tokens ys)) (sym k) ∙ sym after))
            reach
      | gets_one n b k ↦
          let a = (allow y.shared.breaker y.shared.now).1 in
          next reach (
            admits (tokens xs) (tokens ys) y.shared.now
              (before ∙ ap (λ l. tokens xs ++ (l ++ tokens ys)) n)
              (host_eq _ _ b (
                after
                ∙ ap (λ l. tokens xs ++ (l ++ tokens ys)) k
                ∙ granted_among a.granted a (tokens xs) (tokens ys))))
      | resolves_it a res n b k ↦ next reach (
          resolves (tokens xs) a (tokens ys) res y.shared.now
            (before ∙ ap (λ l. tokens xs ++ (l ++ tokens ys)) n)
            (host_eq _ _ b (after ∙ ap (λ l. tokens xs ++ (l ++ tokens ys)) k)))
    ]

step-Reach :
    (h : Host) (u : Setup) (e : Event) (y : System) → Reach h (host y) → Reach h (host (step u e y))
unfolding step submit
step-Reach h u (runs i c) y reach = elim (Option-cases (pick i y.threads)) [
  | inl e ↦ rw e reach
  | inr ((xs, t, ys), e) ↦ rw e (put_back-Reach h u c xs t ys y (pick-append i _ xs t ys e) reach)
]
step-Reach h u (submits job) y reach = subst (Reach h) (ground arith) reach
step-Reach h u asks_index y reach =
    subst (Reach h)
      (host_eq _ _ refl (sym (tokens-append y.threads (asking_index ∷ []) ∙ append-nil _))) reach
step-Reach h u asks_query y reach =
    subst (Reach h)
      (host_eq _ _ refl (sym (tokens-append y.threads (asking_query ∷ []) ∙ append-nil _))) reach
step-Reach h u cancels y reach = reach
step-Reach h u (ticks d) y reach = reach
step-Reach h u (writes db) y reach = reach

keeps_Reach :
    (h : Host) (u : Setup) (es : List Event) (y : System)
    → Reach h (host y)
    → Reach h (host (run u es y))
unfolding run
keeps_Reach h u [] y reach = reach
keeps_Reach h u (e ∷ es) y reach = keeps_Reach h u es (step u e y) (step-Reach h u e y reach)

-- Whatever happens to an engine of a valid configuration, in whatever order its goroutines run,
-- its breaker together with the admissions that its goroutines hold is a state that the breaker
-- reaches when every admission it grants is resolved once.
pub run-Reach :
    (u : Setup) (db : Database) (es : List Event)
    → validate u.cfg ≡ none
    → Reach
        (start (pos_part u.cfg.circuit_open_after - 1) (pos_part u.cfg.circuit_probe_interval))
        (host (run u es (new_engine u db)))
unfolding new_engine new_circuit_breaker
run-Reach u db es valid =
    let usable = ((validate_iff u.cfg).0 valid).open_after in
    let same : host (new_engine u db)
        ≡ start (pos_part u.cfg.circuit_open_after - 1) (pos_part u.cfg.circuit_probe_interval) =
      host_eq _ _ (ground (arith, usable)) refl in
    keeps_Reach _ u es (new_engine u db) (subst (Reach _) (sym same) here)
