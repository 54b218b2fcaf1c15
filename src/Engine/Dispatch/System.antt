-- ===== src/Engine/Dispatch/System.antt =====
-- The goroutines of an Engine together (internal/enginev2/scheduler/engine.go): New, Run and Submit. An event is
-- a step of one goroutine, or something that comes from outside.
use grepai.Base.{
  ℕ, zero, suc, ◌+◌, true, false, List, [], ◌∷◌, ◌++◌, Option, none, some, ◌≡◌, inl, inr, arith,
  Option-cases,
}
use grepai.Base.Int.{pos_part}
use grepai.Core.Job.{Job}
use grepai.Scheduler.Circuit.{new_circuit_breaker}
use grepai.Catalog.Tables.{Database}
use grepai.Catalog.Tx.{Outcome, ok, err}
use grepai.Catalog.Jobs.{upsert_job}
use grepai.Engine.Dispatch.{
  Setup, Shared, Thread, loop_top, asking_index, asking_query, Choice, Stepped, act, wake,
}

pub record System : Type 0 where
  pub shared : Shared
  pub threads : List Thread

-- `runs i c` is a step of the goroutine at place i; `writes` is what other processes do to the catalog.
pub data Event : Type 0 where
  runs : ℕ → Choice → Event
  submits : Job → Event
  asks_index asks_query cancels : Event
  ticks : ℕ → Event
  writes : Database → Event

-- What stands before a place, at it, and after it.
unfoldable pub pick : ℕ → List Thread → Option (List Thread × Thread × List Thread)
pick i [] = none
pick zero (t ∷ ts) = some ([], t, ts)
pick (suc i) (t ∷ ts) = elim (pick i ts) [ none ↦ none | some (xs, p, ys) ↦ some (t ∷ xs, p, ys) ]

abbrev pub put_back : List Thread → Stepped → List Thread → System
put_back xs r ys = record { shared = r.0; threads = xs ++ (r.1 ++ ys) }

module _ (u : Setup) where
  abbrev after_submit : Shared → Outcome (Unit {0}) → Shared
  after_submit s o = elim o.result [
    | err e ↦ record s { tables = o.tables; clock = o.clock }
    | ok done ↦ wake (record s { tables = o.tables; clock = o.clock })
  ]

  unfoldable pub submit : Job → Shared → Shared
  unfolding upsert_job
  submit job s = after_submit s (upsert_job job u.fault s.clock s.tables)

  abbrev pub run_at : Choice → Option (List Thread × Thread × List Thread) → System → System
  run_at c none y = y
  run_at c (some (xs, t, ys)) y = put_back xs (act u c t y.shared) ys

  unfoldable pub step : Event → System → System
  unfolding act submit pick
  step (runs i c) y = run_at c (pick i y.threads) y
  step (submits job) y = record y { shared = submit job y.shared }
  step asks_index y = record y { threads = y.threads ++ (asking_index ∷ []) }
  step asks_query y = record y { threads = y.threads ++ (asking_query ∷ []) }
  step cancels y = record y { shared = record y.shared { cancelled = true } }
  step (ticks d) y = record y { shared = record y.shared { now = y.shared.now + d } }
  step (writes db) y = record y { shared = record y.shared { tables = db } }

  unfoldable pub run : List Event → System → System
  unfolding step
  run [] y = y
  run (e ∷ es) y = run es (step e y)

  -- New, with the goroutine of Run.
  unfoldable pub new_engine : Database → System
  unfolding new_circuit_breaker
  new_engine db = record {
    shared = record {
      breaker =
          new_circuit_breaker (pos_part u.cfg.circuit_open_after)
            (pos_part u.cfg.circuit_probe_interval);
      index_slots = 0;
      query_slots = 0;
      signal = false;
      attempts = [];
      depth = [];
      in_flight = 0;
      last_repo = [];
      draws = 0;
      cancelled = false;
      now = 0;
      tables = db;
      clock = 0;
    };
    threads = loop_top ∷ [];
  }

pub pick-append :
    (i : ℕ) (ts xs : List Thread) (t : Thread) (ys : List Thread)
    → pick i ts ≡ some (xs, t, ys)
    → ts ≡ xs ++ (t ∷ ys)
unfolding pick
pick-append i [] xs t ys h = ground arith
pick-append zero (p ∷ ts) xs t ys h = ground arith
pick-append (suc i) (p ∷ ts) xs t ys h = elim (Option-cases (pick i ts)) [
  | inl e ↦ ground arith
  | inr ((us, q, vs), e) ↦ let ih = pick-append i ts us q vs e in ground arith
]
