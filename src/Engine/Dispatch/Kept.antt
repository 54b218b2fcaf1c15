-- ===== src/Engine/Dispatch/Kept.antt =====
-- A claimed job is not lost whatever happens around its goroutine (internal/enginev2/scheduler/engine.go).
use grepai.Base.{List, [], ◌∷◌, ◌++◌, some, ◌≡◌, refl, ap, subst, ◌⊎◌, inl, inr, Option-cases}
use grepai.Core.Job.{Job}
use grepai.Engine.Dispatch.{Setup, Thread, asking_index, asking_query, Choice, act}
use grepai.Engine.Dispatch.System.{
  System, Event, runs, submits, asks_index, asks_query, cancels, ticks, writes, pick, pick-append,
  put_back, step, run,
}
use grepai.Engine.Dispatch.Held.{held, IsHeld, LetsGo, act-Passes}

IsHeld-split :
    (job : Job) (xs : List Thread) (t : Thread) (ys : List Thread)
    → IsHeld job (xs ++ (t ∷ ys))
    → (held t ≡ some job) ⊎ IsHeld job (xs ++ ys)
IsHeld-split job [] t ys h = h
IsHeld-split job (x ∷ xs) t ys (inl h) = inr (inl h)
IsHeld-split job (x ∷ xs) t ys (inr h) = elim (IsHeld-split job xs t ys h) [
  | inl k ↦ inl k
  | inr k ↦ inr (inr k)
]

IsHeld-among :
    (job : Job) (xs new ys : List Thread)
    → IsHeld job new ⊎ IsHeld job (xs ++ ys)
    → IsHeld job (xs ++ (new ++ ys))
IsHeld-among job [] [] ys (inl h) = absurd h
IsHeld-among job [] [] ys (inr h) = h
IsHeld-among job [] (t ∷ new) ys (inl (inl h)) = inl h
IsHeld-among job [] (t ∷ new) ys (inl (inr h)) = inr (IsHeld-among job [] new ys (inl h))
IsHeld-among job [] (t ∷ new) ys (inr h) = inr (IsHeld-among job [] new ys (inr h))
IsHeld-among job (x ∷ xs) new ys (inl h) = inr (IsHeld-among job xs new ys (inl h))
IsHeld-among job (x ∷ xs) new ys (inr (inl h)) = inl h
IsHeld-among job (x ∷ xs) new ys (inr (inr h)) = inr (IsHeld-among job xs new ys (inr h))

IsHeld-left : (job : Job) (xs ys : List Thread) → IsHeld job xs → IsHeld job (xs ++ ys)
IsHeld-left job [] ys h = absurd h
IsHeld-left job (x ∷ xs) ys (inl h) = inl h
IsHeld-left job (x ∷ xs) ys (inr h) = inr (IsHeld-left job xs ys h)

-- A thread's step, for a job that some thread holds.
put_back-Passes :
    (u : Setup) (c : Choice) (xs : List Thread) (t : Thread) (ys : List Thread) (y : System)
    (job : Job)
    → IsHeld job (xs ++ (t ∷ ys))
    → let z = put_back xs (act u c t y.shared) ys in
      IsHeld job z.threads ⊎ LetsGo u job y.shared z.shared
put_back-Passes u c xs t ys y job h = elim (IsHeld-split job xs t ys h) [
  | inl k ↦ elim (act-Passes u c t y.shared job k) [
    | inl m ↦ inl (IsHeld-among job xs (act u c t y.shared).1 ys (inl m))
    | inr m ↦ inr m
  ]
  | inr k ↦ inl (IsHeld-among job xs (act u c t y.shared).1 ys (inr k))
]

step-Passes :
    (u : Setup) (e : Event) (y : System) (job : Job)
    → IsHeld job y.threads
    → IsHeld job (step u e y).threads ⊎ LetsGo u job y.shared (step u e y).shared
unfolding step
step-Passes u (runs i c) y job h = elim (Option-cases (pick i y.threads)) [
  | inl e ↦ rw e (inl h)
  | inr ((xs, t, ys), e) ↦
      rw e (put_back-Passes u c xs t ys y job (subst (IsHeld job) (pick-append i _ xs t ys e) h))
]
step-Passes u (submits j) y job h = inl h
step-Passes u asks_index y job h = inl (IsHeld-left job y.threads (asking_index ∷ []) h)
step-Passes u asks_query y job h = inl (IsHeld-left job y.threads (asking_query ∷ []) h)
step-Passes u cancels y job h = inl h
step-Passes u (ticks d) y job h = inl h
step-Passes u (writes db) y job h = inl h

-- A job that a goroutine of the engine holds is still held after any events, or one of the events
-- let go of it: a step while the context was cancelled, or one at which the worker had committed
-- the job, found it superseded or crashed in it, or one that dead-lettered it, in the tables as
-- the step found them or as its worker left them.
pub run-IsHeld :
    (u : Setup) (es : List Event) (y : System) (job : Job)
    → IsHeld job y.threads
    → IsHeld job (run u es y).threads
      ⊎ ((done : List Event) × (e : Event) × (rest : List Event) × (es ≡ done ++ (e ∷ rest))
          × LetsGo u job (run u done y).shared (step u e (run u done y)).shared)
unfolding run
run-IsHeld u [] y job h = inl h
run-IsHeld u (e ∷ es) y job h = elim (step-Passes u e y job h) [
  | inr k ↦ inr ([], e, es, refl, k)
  | inl k ↦ elim (run-IsHeld u es (step u e y) job k) [
    | inl m ↦ inl m
    | inr (done, e', rest, split, m) ↦ inr (e ∷ done, e', rest, ap (◌∷◌ e) split, m)
  ]
]
