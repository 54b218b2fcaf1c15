-- ===== src/Engine/Dispatch/Probe.antt =====
-- The probe of a half-open circuit is with a goroutine (internal/enginev2/scheduler/engine.go with circuit.go).
use grepai.Base.{
  Bool, true, List, [], ◌∷◌, ◌++◌, none, ◌≡◌, refl, sym, ap, ◌∙◌, ◌⊎◌, inl, inr, arith, Bool-cases,
}
use grepai.Core.Job.{Job}
use grepai.Catalog.Tables.{Database}
use grepai.Scheduler.Config.{validate}
use grepai.Scheduler.Circuit.{half_open, Admission}
use grepai.Scheduler.Circuit.Tokens.{probes, breaker-IsSound}
use grepai.Engine.Dispatch.{Setup, Thread, loop_claiming, dispatching}
use grepai.Engine.Dispatch.System.{Event, run, new_engine}
use grepai.Engine.Dispatch.Slots.{token, tokens}
use grepai.Engine.Dispatch.Admissions.{run-Reach}

-- A goroutine that is about to claim a job, or dispatches one, with the admission.
abbrev pub Holds : Admission → Thread → Type 0
Holds a t =
    (t ≡ loop_claiming a) ⊎ ((job : Job) × (entered : Bool) × (t ≡ dispatching job a entered))

-- Some thread holds a probe.
abbrev pub HasProbe : List Thread → Type 0
HasProbe ts =
    (xs : List Thread) × (t : Thread) × (ys : List Thread) × (a : Admission) × (ts ≡ xs ++ (t ∷ ys))
    × (a.probe ≡ true)
    × Holds a t

token-cases : (t : Thread) → (token t ≡ []) ⊎ ((a : Admission) × (token t ≡ a ∷ []) × Holds a t)
token-cases (loop_claiming a) = inr (a, refl, inl refl)
token-cases (dispatching job a entered) = inr (a, refl, inr (job, entered, refl))
token-cases _ = inl refl

probes-cons :
    (t : Thread) (ts : List Thread) (l : List Admission)
    → token t ≡ l
    → probes (tokens (t ∷ ts)) ≡ probes (l ++ tokens ts)
probes-cons t ts l e = ap (λ m. probes (m ++ tokens ts)) e

under : (t : Thread) (ts : List Thread) → HasProbe ts → HasProbe (t ∷ ts)
under t ts (xs, p, ys, a, e, hit, m) = (t ∷ xs, p, ys, a, ap (◌∷◌ t) e, hit, m)

probes-HasProbe : (ts : List Thread) → probes (tokens ts) ≡ 1 → HasProbe ts
probes-HasProbe [] h = absurd (omega arith)
probes-HasProbe (t ∷ ts) h = elim (token-cases t) [
  | inl e ↦ under t ts (probes-HasProbe ts (sym (probes-cons t ts [] e) ∙ h))
  | inr (a, e, k) ↦ elim (Bool-cases a.probe) [
    | inl hit ↦ ([], t, ts, a, refl, hit, k)
    | inr miss ↦
        let count = probes-cons t ts (a ∷ []) e in under t ts (probes-HasProbe ts (ground arith))
  ]
]

-- While the circuit of a valid engine is half-open, one of its goroutines is about to claim a job
-- with the probe, or dispatches one with it: the probe is never lost.
pub half_open-HasProbe :
    (u : Setup) (db : Database) (es : List Event)
    → validate u.cfg ≡ none
    → (run u es (new_engine u db)).shared.breaker.state ≡ half_open
    → HasProbe (run u es (new_engine u db)).threads
half_open-HasProbe u db es valid h =
    let v = breaker-IsSound _ _ (run-Reach u db es valid) in
    probes-HasProbe (run u es (new_engine u db)).threads (ground (arith, v.one_probe))
