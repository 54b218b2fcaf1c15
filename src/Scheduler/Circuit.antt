-- ===== src/Scheduler/Circuit.antt =====
-- internal/enginev2/scheduler/circuit.go: the circuit breaker. The clock is an argument: the time
-- that Now() returns, in the unit of `probe_interval`; epochs and times are left unbounded.
pub mod Tokens
pub mod Trip
use grepai.Base.{ℕ, suc, ◌+◌, Bool, true, false, leb, ◌==◌, if◌then◌else◌}

pub data CircuitState : Type 0 where
  closed open_circuit half_open : CircuitState

pub data BreakerResult : Type 0 where
  success failure abort : BreakerResult

pub record Admission : Type 0 where
  pub epoch : ℕ
  pub probe : Bool
  pub granted : Bool  -- the field `ok`

pub record CircuitBreaker : Type 0 where
  pub open_after : ℕ
  pub probe_interval : ℕ
  pub state : CircuitState
  pub failures : ℕ
  pub epoch : ℕ
  pub opened_at : ℕ

unfoldable pub new_circuit_breaker : ℕ → ℕ → CircuitBreaker
new_circuit_breaker open_after probe_interval = record {
  open_after = open_after;
  probe_interval = probe_interval;
  state = closed;
  failures = 0;
  epoch = 0;
  opened_at = 0;
}

abbrev pub denied : Admission
denied = record { epoch = 0; probe = false; granted = false }

-- `Allow`, by the state.
allow_in : CircuitState → CircuitBreaker → ℕ → CircuitBreaker × Admission
allow_in closed b now = (b, record { epoch = b.epoch; probe = false; granted = true })
allow_in open_circuit b now =
    if leb (b.opened_at + b.probe_interval) now
    then (record b { state = half_open }, record { epoch = b.epoch; probe = true; granted = true })
    else (b, denied)
allow_in half_open b now = (b, denied)

unfoldable pub allow : CircuitBreaker → ℕ → CircuitBreaker × Admission
unfolding allow_in
allow b now = allow_in b.state b now

reopen : CircuitBreaker → ℕ → CircuitBreaker
reopen b now = record b { state = open_circuit; epoch = b.epoch + 1; opened_at = now }

abbrev pub is_half_open : CircuitState → Bool
is_half_open half_open = true
is_half_open _ = false

-- The probe's branch of `record`.
resolve_probe : CircuitBreaker → BreakerResult → ℕ → CircuitBreaker
unfolding reopen
resolve_probe b success now = record b { state = closed; failures = 0 }
resolve_probe b failure now = reopen b now
resolve_probe b abort now = reopen b now

-- The branch of a call that was admitted while closed.
resolve_call : CircuitBreaker → BreakerResult → ℕ → CircuitBreaker
unfolding reopen
resolve_call b success now = record b { failures = 0 }
resolve_call b failure now =
    let n = b.failures + 1 in
    if leb b.open_after n then reopen (record b { failures = n }) now else record b { failures = n }
resolve_call b abort now = b

-- `record`.
unfoldable pub record_result : CircuitBreaker → Admission → BreakerResult → ℕ → CircuitBreaker
unfolding resolve_probe resolve_call
record_result b a r now =
    if a.granted
    then (if a.probe
        then (if is_half_open b.state then resolve_probe b r now else b)
        else (if a.epoch == b.epoch then resolve_call b r now else b))
    else b
