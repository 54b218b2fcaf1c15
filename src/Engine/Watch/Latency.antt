-- ===== src/Engine/Watch/Latency.antt =====
-- A hint is not forgotten, and its reconcile is not put off without bound (internal/enginev2/watch/manager.go).
use grepai.Base.{
  ℕ, ◌+◌, ◌≤◌, Bool, true, false, ◌&&◌, List, [], ◌∷◌, Option, none, some, if◌then◌else◌, ◌≡◌, refl,
  arith,
}
use grepai.Engine.Watch.{
  Config, Loop, RecResult, reconciled, rec_failed, shutting_down, BackendError, overflow, exhausted,
  root_gone, other_error, Event, context_done, hint, hints_closed, errors_closed, quiet_due,
  max_latency_due, safety_due, poll_due, backend_error, start, fire_dirty, fire, mark_dirty, arm,
  on_error, handle, ready, Move, waits, takes, move, run, not_past,
}

-- A latency timer ends within both windows from `since`; without one, the quiet timer ends within its own.
abbrev pub LatencyArmed : Config → ℕ → ℕ → ℕ → Option ℕ → Type 0
LatencyArmed cfg now since q none = q ≤ since + cfg.quiet
LatencyArmed cfg now since q (some m) = (now ≤ m) × (m ≤ since + cfg.quiet + cfg.max_latency)

abbrev pub QuietArmed : Config → ℕ → ℕ → Option ℕ → Option ℕ → Type 0
QuietArmed cfg now since none latency = ⊥
QuietArmed cfg now since (some q) latency = (now ≤ q) × LatencyArmed cfg now since q latency

abbrev pub Timers : Config → Bool → ℕ → ℕ → Option ℕ → Option ℕ → Type 0
Timers cfg false now since quiet latency = (quiet ≡ none) × (latency ≡ none)
Timers cfg true now since quiet latency = QuietArmed cfg now since quiet latency

-- A dirty loop has its timers armed, and a clean one has none.
abbrev pub IsArmed : Config → Loop → Type 0
IsArmed cfg s = Timers cfg s.dirty s.now s.since s.quiet s.max_latency

fire_dirty-IsArmed :
    (cfg : Config) (r : RecResult) (took : ℕ) (s : Loop) → IsArmed cfg (fire_dirty cfg r took s)
unfolding fire_dirty
fire_dirty-IsArmed cfg reconciled took s = (refl, refl)
fire_dirty-IsArmed cfg shutting_down took s = (refl, refl)
fire_dirty-IsArmed cfg rec_failed took s = (omega arith, omega arith)

marked :
    (cfg : Config) (dirty : Bool) (now since : ℕ) (quiet latency : Option ℕ)
    → Timers cfg dirty now since quiet latency
    → Timers cfg true now
        (if dirty then since else now)
        (some (now + cfg.quiet))
        (arm (now + cfg.max_latency) latency)
marked cfg false now since quiet none h = (omega arith, (omega arith, omega arith))
marked cfg false now since quiet (some m) h = absurd (cc)
marked cfg true now since none latency h = absurd h
marked cfg true now since (some q) none h = (omega arith, (omega arith, omega (arith, h)))
marked cfg true now since (some q) (some m) h = (omega arith, h.1)

later :
    (cfg : Config) (dirty : Bool) (now since d : ℕ) (quiet latency : Option ℕ)
    → (not_past (now + d) quiet && not_past (now + d) latency) ≡ true
    → Timers cfg dirty now since quiet latency
    → Timers cfg dirty (now + d) since quiet latency
later cfg false now since d quiet latency g h = h
later cfg true now since d none latency g h = absurd h
later cfg true now since d (some q) none g h = (ground arith, h.1)
later cfg true now since d (some q) (some m) g h = (ground arith, (ground arith, h.1.1))

waited :
    (cfg : Config) (d : ℕ) (s : Loop) (test : Bool)
    → (test ≡ true → IsArmed cfg (record s { now = s.now + d }))
    → IsArmed cfg s
    → IsArmed cfg (if test then record s { now = s.now + d } else s)
waited cfg d s true go h = go refl
waited cfg d s false go h = h

fire-IsArmed :
    (cfg : Config) (r : RecResult) (took : ℕ) (s : Loop)
    → IsArmed cfg s
    → IsArmed cfg (fire cfg r took s)
unfolding fire
fire-IsArmed cfg r took s h =
    elim s.dirty as (λ b. IsArmed cfg (if b then fire_dirty cfg r took s else s)) [
      | true ↦ fire_dirty-IsArmed cfg r took s
      | false ↦ h
    ]

fire_now-IsArmed :
    (cfg : Config) (r : RecResult) (took : ℕ) (s : Loop)
    → IsArmed cfg (fire cfg r took (record s { dirty = true }))
unfolding fire
fire_now-IsArmed cfg r took s = fire_dirty-IsArmed cfg r took (record s { dirty = true })

mark_dirty-IsArmed : (cfg : Config) (s : Loop) → IsArmed cfg s → IsArmed cfg (mark_dirty cfg s)
unfolding mark_dirty
mark_dirty-IsArmed cfg s h = marked cfg s.dirty s.now s.since s.quiet s.max_latency h

on_error-IsArmed :
    (cfg : Config) (e : BackendError) (s : Loop) → IsArmed cfg s → IsArmed cfg (on_error cfg e s)
unfolding on_error
on_error-IsArmed cfg overflow s h = mark_dirty-IsArmed cfg s h
on_error-IsArmed cfg exhausted s h = h
on_error-IsArmed cfg root_gone s h = h
on_error-IsArmed cfg other_error s h = h

handle-IsArmed :
    (cfg : Config) (e : Event) (s : Loop) → IsArmed cfg s → IsArmed cfg (handle cfg e s)
unfolding handle
handle-IsArmed cfg context_done s h = h
handle-IsArmed cfg hint s h = mark_dirty-IsArmed cfg s h
handle-IsArmed cfg hints_closed s h = h
handle-IsArmed cfg errors_closed s h = h
handle-IsArmed cfg (quiet_due r took) s h = fire-IsArmed cfg r took s h
handle-IsArmed cfg (max_latency_due r took) s h = fire-IsArmed cfg r took s h
handle-IsArmed cfg (safety_due r took) s h =
    fire_now-IsArmed cfg r took (record s { safety = s.now + cfg.safety_net })
handle-IsArmed cfg (poll_due r took) s h =
    fire_now-IsArmed cfg r took (record s { poll = some (s.now + cfg.poll_interval) })
handle-IsArmed cfg (backend_error e) s h = on_error-IsArmed cfg e s h

-- Every move, whatever the event and the reconcile's result, keeps a dirty loop's timers armed and within their
-- windows, and a clean loop's timers off.
pub move-IsArmed : (cfg : Config) (m : Move) (s : Loop) → IsArmed cfg s → IsArmed cfg (move cfg m s)
unfolding move
move-IsArmed cfg (waits d) s h =
    let test = not_past (s.now + d) s.quiet && not_past (s.now + d) s.max_latency in
    let go = λ (allowed : test ≡ true).
      later cfg s.dirty s.now s.since d s.quiet s.max_latency allowed h in
    waited cfg d s test go h
move-IsArmed cfg (takes e) s h =
    elim (ready e s) as (λ b. IsArmed cfg (if b then handle cfg e s else s)) [
      | true ↦ handle-IsArmed cfg e s h
      | false ↦ h
    ]

run-IsArmed :
    (cfg : Config) (ms : List Move) (s : Loop) → IsArmed cfg s → IsArmed cfg (run cfg ms s)
unfolding run
run-IsArmed cfg [] s h = h
run-IsArmed cfg (m ∷ ms) s h = run-IsArmed cfg ms (move cfg m s) (move-IsArmed cfg m s h)

dirty_bound :
    (cfg : Config) (dirty : Bool) (now since : ℕ) (quiet latency : Option ℕ)
    → dirty ≡ true
    → Timers cfg dirty now since quiet latency
    → now ≤ since + cfg.quiet + cfg.max_latency
dirty_bound cfg false now since quiet latency e h = absurd (cc)
dirty_bound cfg true now since none latency e h = absurd h
dirty_bound cfg true now since (some q) none e h = omega (arith, h)
dirty_bound cfg true now since (some q) (some m) e h = omega (arith, h.1)

-- Where the loop takes what is due before time passes its quiet and latency timers: whatever it
-- has gone through since it started, it is dirty no longer than the quiet window and the latency
-- window together, from when it last became dirty or last failed to reconcile.
pub run_latency :
    (cfg : Config) (poll_mode : Bool) (now : ℕ) (ms : List Move)
    → (run cfg ms (start cfg poll_mode now)).dirty ≡ true
    → (run cfg ms (start cfg poll_mode now)).now
      ≤ (run cfg ms (start cfg poll_mode now)).since + cfg.quiet + cfg.max_latency
run_latency cfg poll_mode now ms e =
    let s = run cfg ms (start cfg poll_mode now) in
    dirty_bound cfg s.dirty s.now s.since s.quiet s.max_latency e
      (run-IsArmed cfg ms (start cfg poll_mode now) (refl, refl))
