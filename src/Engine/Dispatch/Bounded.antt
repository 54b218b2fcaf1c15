-- ===== src/Engine/Dispatch/Bounded.antt =====
-- The pools of the Engine (internal/enginev2/scheduler/engine.go): acquireIndex, AcquireQuerySlot, addInFlight.
use grepai.Base.{
  ℕ, ◌+◌, ◌≤◌, List, [], ◌∷◌, ◌++◌, ◌≡◌, refl, ◌∙◌, ap, inl, inr, arith, Option-cases,
}
use grepai.Catalog.Tables.{Database}
use grepai.Engine.Dispatch.{Setup, Thread, asking_index, asking_query, Choice, act}
use grepai.Engine.Dispatch.System.{
  System, Event, runs, submits, asks_index, asks_query, cancels, ticks, writes, pick, pick-append,
  put_back, step, run, new_engine, submit,
}
use grepai.Engine.Dispatch.Slots.{
  index_held, counted, query_held, total, index_cap, query_cap, act-Balances,
}

-- The slots taken and the count in flight are those of the goroutines, and within their bounds.
pub record IsPaced (u : Setup) (y : System) : Type 0 where
  pub index : y.shared.index_slots ≡ total index_held y.threads
  pub query : y.shared.query_slots ≡ total query_held y.threads
  pub flight : y.shared.in_flight ≡ total counted y.threads
  pub index_bound : y.shared.index_slots ≤ index_cap u
  pub query_bound : y.shared.query_slots ≤ query_cap u

total-append : (f : Thread → ℕ) (xs ys : List Thread) → total f (xs ++ ys) ≡ total f xs + total f ys
total-append f [] ys = omega arith
total-append f (x ∷ xs) ys = omega (arith, total-append f xs ys)

-- A count of the threads, where one of them is replaced.
total_replace :
    (f : Thread → ℕ) (xs : List Thread) (t : Thread) (ys new : List Thread) (n n' : ℕ)
    → n ≡ total f (xs ++ (t ∷ ys))
    → (f t ≤ n → n' + f t ≡ n + total f new)
    → n' ≡ total f (xs ++ (new ++ ys))
total_replace f xs t ys new n n' e h =
    let before = total-append f xs (t ∷ ys) in
    let after = total-append f xs (new ++ ys) in
    let inner = total-append f new ys in let moved = h (omega arith) in omega arith

put_back-IsPaced :
    (u : Setup) (c : Choice) (xs : List Thread) (t : Thread) (ys : List Thread) (y : System)
    → y.threads ≡ xs ++ (t ∷ ys)
    → IsPaced u y
    → IsPaced u (put_back xs (act u c t y.shared) ys)
put_back-IsPaced u c xs t ys y e v =
    let new = (act u c t y.shared).1 in
    let b = act-Balances u c t y.shared in
    record {
      index = total_replace index_held xs t ys new _ _ (v.index ∙ ap (total index_held) e) b.index;
      query = total_replace query_held xs t ys new _ _ (v.query ∙ ap (total query_held) e) b.query;
      flight = total_replace counted xs t ys new _ _ (v.flight ∙ ap (total counted) e) b.flight;
      index_bound = b.index_bound v.index_bound;
      query_bound = b.query_bound v.query_bound;
    }

-- A thread that holds nothing yet.
asking-IsPaced :
    (u : Setup) (y : System) (t : Thread)
    → index_held t ≡ 0
    → query_held t ≡ 0
    → counted t ≡ 0
    → IsPaced u y
    → IsPaced u (record y { threads = y.threads ++ (t ∷ []) })
asking-IsPaced u y t hi hq hc v = record {
  index = omega (arith, total-append index_held y.threads (t ∷ []), v.index);
  query = omega (arith, total-append query_held y.threads (t ∷ []), v.query);
  flight = omega (arith, total-append counted y.threads (t ∷ []), v.flight);
  index_bound = v.index_bound;
  query_bound = v.query_bound;
}

step-IsPaced : (u : Setup) (e : Event) (y : System) → IsPaced u y → IsPaced u (step u e y)
unfolding step submit
step-IsPaced u (runs i c) y v = elim (Option-cases (pick i y.threads)) [
  | inl e ↦ rw e v
  | inr ((xs, t, ys), e) ↦ rw e (put_back-IsPaced u c xs t ys y (pick-append i _ xs t ys e) v)
]
step-IsPaced u (submits job) y v =
    ground (arith, v.index, v.query, v.flight, v.index_bound, v.query_bound)
step-IsPaced u asks_index y v = asking-IsPaced u y asking_index refl refl refl v
step-IsPaced u asks_query y v = asking-IsPaced u y asking_query refl refl refl v
step-IsPaced u cancels y v =
    ground (arith, v.index, v.query, v.flight, v.index_bound, v.query_bound)
step-IsPaced u (ticks d) y v =
    ground (arith, v.index, v.query, v.flight, v.index_bound, v.query_bound)
step-IsPaced u (writes db) y v =
    ground (arith, v.index, v.query, v.flight, v.index_bound, v.query_bound)

run_keeps : (u : Setup) (es : List Event) (y : System) → IsPaced u y → IsPaced u (run u es y)
unfolding run
run_keeps u [] y v = v
run_keeps u (e ∷ es) y v = run_keeps u es (step u e y) (step-IsPaced u e y v)

-- Whatever happens to an engine that has just been built, in whatever order its goroutines run:
-- the index slots taken, the query slots taken and the count of jobs in flight are those that its
-- goroutines hold, and neither pool exceeds its bound.
pub run-IsPaced :
    (u : Setup) (db : Database) (es : List Event) → IsPaced u (run u es (new_engine u db))
unfolding new_engine
run-IsPaced u db es = run_keeps u es (new_engine u db) (record {
  index = refl;
  query = refl;
  flight = refl;
  index_bound = omega arith;
  query_bound = omega arith;
})
