-- ===== src/Engine/Watch.antt =====
-- internal/enginev2/watch/manager.go: the debounce loop of one worktree. Times are in nanoseconds; a timer is
-- the time at which it fires, and the loop takes what is due before time goes past an armed quiet or latency
-- timer. `since` is for the proofs: when the loop last became dirty or last failed to reconcile.
pub mod Latency
use grepai.Base.{
  ℕ, ◌+◌, ◌*◌, ◌^◌, Bool, true, false, ◌&&◌, ◌||◌, not, List, [], ◌∷◌, Option, none, some,
  if◌then◌else◌, leb, ◌==◌,
}
use grepai.Base.Int.{ℤ, pos, negsuc}

pub record Config : Type 0 where
  pub quiet : ℕ
  pub max_latency : ℕ
  pub poll_interval : ℕ
  pub safety_net : ℕ

abbrev second : ℕ
second = 1000000000

abbrev positive_or : ℕ → ℤ → ℕ
positive_or d (pos n) = if n == 0 then d else n
positive_or d (negsuc n) = d

unfoldable pub with_defaults : ℤ → ℤ → ℤ → ℤ → Config
with_defaults quiet max_latency poll_interval safety_net = record {
  quiet = positive_or second quiet;
  max_latency = positive_or (10 * second) max_latency;
  poll_interval = positive_or (300 * second) poll_interval;
  safety_net = positive_or (3600 * second) safety_net;
}

-- The variables of the loop. `hints` and `errors` say that the channel is not nil, `running` that the loop has
-- not returned.
pub record Loop : Type 0 where
  pub dirty : Bool
  pub quiet : Option ℕ
  pub max_latency : Option ℕ
  pub poll : Option ℕ
  pub safety : ℕ
  pub hints : Bool
  pub errors : Bool
  pub backend : Bool
  pub running : Bool
  pub now : ℕ
  pub since : ℕ

-- How a reconcile ends: well, with an error, or with an error because the manager shuts down.
pub data RecResult : Type 0 where
  reconciled rec_failed shutting_down : RecResult

pub data BackendError : Type 0 where
  overflow exhausted root_gone other_error : BackendError

-- What the select takes. Where it fires, the reconcile's result and how long it took.
pub data Event : Type 0 where
  context_done hint hints_closed errors_closed : Event
  quiet_due max_latency_due safety_due poll_due : RecResult → ℕ → Event
  backend_error : BackendError → Event

abbrev pub start : Config → Bool → ℕ → Loop
start cfg poll_mode now = record {
  dirty = false;
  quiet = none;
  max_latency = none;
  poll = if poll_mode then some (now + cfg.poll_interval) else none;
  safety = now + cfg.safety_net;
  hints = not poll_mode;
  errors = not poll_mode;
  backend = not poll_mode;
  running = true;
  now = now;
  since = now;
}

-- The part of fire that runs where the loop is dirty.
unfoldable pub fire_dirty : Config → RecResult → ℕ → Loop → Loop
fire_dirty cfg reconciled took s = record s {
  dirty = false;
  quiet = none;
  max_latency = none;
  now = s.now + took;
}
fire_dirty cfg shutting_down took s = record s {
  dirty = false;
  quiet = none;
  max_latency = none;
  now = s.now + took;
}
fire_dirty cfg rec_failed took s = record s {
  dirty = true;
  quiet = some (s.now + took + cfg.quiet);
  max_latency = none;
  now = s.now + took;
  since = s.now + took;
}

unfoldable pub fire : Config → RecResult → ℕ → Loop → Loop
unfolding fire_dirty
fire cfg r took s = if s.dirty then fire_dirty cfg r took s else s

abbrev pub arm : ℕ → Option ℕ → Option ℕ
arm t none = some t
arm t (some d) = some d

-- A hint, or the loss of some.
unfoldable pub mark_dirty : Config → Loop → Loop
mark_dirty cfg s = record s {
  dirty = true;
  quiet = some (s.now + cfg.quiet);
  max_latency = arm (s.now + cfg.max_latency) s.max_latency;
  since = if s.dirty then s.since else s.now;
}

unfoldable pub on_error : Config → BackendError → Loop → Loop
unfolding mark_dirty
on_error cfg overflow s = mark_dirty cfg s
on_error cfg exhausted s = record s {
  backend = false;
  hints = false;
  errors = false;
  poll = some (s.now + cfg.poll_interval);
}
on_error cfg root_gone s = record s { running = false; backend = false }
on_error cfg other_error s = s

unfoldable pub handle : Config → Event → Loop → Loop
unfolding fire mark_dirty on_error
handle cfg context_done s = record s { running = false; backend = false }
handle cfg hint s = mark_dirty cfg s
handle cfg hints_closed s = record s { hints = false }
handle cfg errors_closed s = record s { errors = false }
handle cfg (quiet_due r took) s = fire cfg r took s
handle cfg (max_latency_due r took) s = fire cfg r took s
handle cfg (safety_due r took) s =
    fire cfg r took (record s { safety = s.now + cfg.safety_net; dirty = true })
handle cfg (poll_due r took) s =
    fire cfg r took (record s { poll = some (s.now + cfg.poll_interval); dirty = true })
handle cfg (backend_error e) s = on_error cfg e s

abbrev pub due : ℕ → Option ℕ → Bool
due now none = false
due now (some t) = leb t now

-- Which cases of the select are open.
unfoldable pub ready : Event → Loop → Bool
ready context_done s = s.running
ready hint s = s.running && s.hints
ready hints_closed s = s.running && s.hints
ready errors_closed s = s.running && s.errors
ready (quiet_due r took) s = s.running && due s.now s.quiet
ready (max_latency_due r took) s = s.running && due s.now s.max_latency
ready (safety_due r took) s = s.running && leb s.safety s.now
ready (poll_due r took) s = s.running && due s.now s.poll
ready (backend_error e) s = s.running && s.errors

abbrev pub not_past : ℕ → Option ℕ → Bool
not_past t none = true
not_past t (some d) = leb t d

pub data Move : Type 0 where
  waits : ℕ → Move
  takes : Event → Move

-- Time goes on, or the select takes an event. A move that is not open is no move.
unfoldable pub move : Config → Move → Loop → Loop
unfolding handle ready
move cfg (waits d) s =
    if not_past (s.now + d) s.quiet && not_past (s.now + d) s.max_latency
    then record s { now = s.now + d }
    else s
move cfg (takes e) s = if ready e s then handle cfg e s else s

unfoldable pub run : Config → List Move → Loop → Loop
unfolding move
run cfg [] s = s
run cfg (m ∷ ms) s = run cfg ms (move cfg m s)
