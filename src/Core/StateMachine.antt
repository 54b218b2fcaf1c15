-- ===== src/Core/StateMachine.antt =====
-- internal/enginev2/core/statemachine.go: the life cycle of a durable index job.
pub mod Lives
use grepai.Base.{Bool, true, false, Option, none, some, List, [], ◌∷◌}

pub data JobState : Type 0 where
  pending running backoff dead_letter committed superseded : JobState

pub data JobEvent : Type 0 where
  claim work_complete transient_failure permanent_failure supersede retry_ready : JobEvent
  attempts_exhausted input_changed : JobEvent

unfoldable pub terminal : JobState → Bool
terminal committed = true
terminal superseded = true
terminal _ = false

-- The table `transitions`; `none` is a missing entry.
unfoldable pub transitions : JobState → JobEvent → Option JobState
transitions pending claim = some running
transitions pending supersede = some superseded
transitions running work_complete = some committed
transitions running transient_failure = some backoff
transitions running permanent_failure = some dead_letter
transitions running supersede = some superseded
transitions backoff retry_ready = some pending
transitions backoff attempts_exhausted = some dead_letter
transitions backoff supersede = some superseded
transitions dead_letter input_changed = some pending
transitions _ _ = none

pub data TransitionError : Type 0 where
  invalid_transition : TransitionError

abbrev or_stay : JobState → Option JobState → JobState × Option TransitionError
or_stay s none = (s, some invalid_transition)
or_stay s (some next) = (next, none)

unfoldable pub transition : JobState → JobEvent → JobState × Option TransitionError
unfolding transitions
transition s e = or_stay s (transitions s e)

-- A history of events; a refused one leaves the state as it was.
unfoldable pub after : JobState → List JobEvent → JobState
after s [] = s
after s (e ∷ es) = after (transition s e).0 es
