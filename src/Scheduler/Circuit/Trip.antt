-- ===== src/Scheduler/Circuit/Trip.antt =====
-- When the breaker trips and what it then admits (internal/enginev2/scheduler/circuit.go).
use grepai.Base.{
  ℕ, ◌+◌, ◌≤◌, ◌<◌, ◌≡◌, refl, ◌∙◌, ◌++◌, List, [], ◌∷◌, arith, length, if◌then◌else◌, All,
}
use grepai.Scheduler.Circuit.{
  closed, open_circuit, half_open, failure, CircuitBreaker, allow, record_result,
}

-- One call after another, each admitted and failing at the given time.
unfoldable pub failing : CircuitBreaker → List ℕ → CircuitBreaker
failing b [] = b
failing b (now ∷ nows) = let (b', a) = allow b now in failing (record_result b' a failure now) nows

failing_step :
    (b : CircuitBreaker) (now : ℕ)
    → b.state ≡ closed
    → b.failures + 1 < b.open_after
    → (record_result (allow b now).0 (allow b now).1 failure now)
      ≡ record b { failures = b.failures + 1 }
unfolding allow record_result
failing_step b now s h = ground arith

-- A closed breaker that sees fewer failures in a row than complete its threshold stays closed and
-- counts them.
pub closed_below_threshold :
    (nows : List ℕ) (b : CircuitBreaker)
    → b.state ≡ closed
    → b.failures + length nows < b.open_after
    → failing b nows ≡ record b { failures = b.failures + length nows }
unfolding failing
closed_below_threshold [] b s h = ground arith
closed_below_threshold (now ∷ nows) b s h = rw (failing_step b now s (omega arith)) (
    closed_below_threshold nows (record b { failures = b.failures + 1 }) s (omega arith)
    ∙ ground arith)

trip_step :
    (b : CircuitBreaker) (now : ℕ)
    → b.state ≡ closed
    → b.failures + 1 ≡ b.open_after
    → (record_result (allow b now).0 (allow b now).1 failure now) ≡ record b {
      state = open_circuit;
      failures = b.open_after;
      epoch = b.epoch + 1;
      opened_at = now;
    }
unfolding allow record_result
trip_step b now s h = ground arith

failing_append :
    (xs : List ℕ) (now : ℕ) (b : CircuitBreaker)
    → failing b (xs ++ (now ∷ []))
      ≡ record_result (allow (failing b xs) now).0 (allow (failing b xs) now).1 failure now
unfolding failing
failing_append [] now b = refl
failing_append (x ∷ xs) now b =
    failing_append xs now (record_result (allow b x).0 (allow b x).1 failure x)

-- From a closed breaker, the failure in a row that completes the threshold opens it at the
-- failure's own time, in a new epoch.
pub opens_at_threshold :
    (nows : List ℕ) (now : ℕ) (b : CircuitBreaker)
    → b.state ≡ closed
    → b.failures + length nows + 1 ≡ b.open_after
    → failing b (nows ++ (now ∷ [])) ≡ record b {
      state = open_circuit;
      failures = b.open_after;
      epoch = b.epoch + 1;
      opened_at = now;
    }
opens_at_threshold nows now b s h =
    rw (failing_append nows now b, closed_below_threshold nows b s (omega arith))
      (trip_step (record b { failures = b.failures + length nows }) now s h)

-- How many of the calls asking at these times are admitted, with no result recorded between them.
unfoldable pub grants : CircuitBreaker → List ℕ → ℕ
grants b [] = 0
grants b (now ∷ nows) = let (b', a) = allow b now in (if a.granted then 1 else 0) + grants b' nows

half_open_denies : (b : CircuitBreaker) (nows : List ℕ) → b.state ≡ half_open → grants b nows ≡ 0
unfolding grants allow
half_open_denies b [] s = refl
half_open_denies b (now ∷ nows) s = ground (arith, half_open_denies b nows s)

-- An open breaker admits one call at most, however many ask, and none before the probe interval
-- has passed.
pub one_probe_when_open :
    (b : CircuitBreaker) (nows : List ℕ)
    → b.state ≡ open_circuit
    → (grants b nows ≤ 1)
      × (All (λ now. now < b.opened_at + b.probe_interval) nows → grants b nows ≡ 0)
unfolding grants allow
one_probe_when_open b [] s = (omega arith, λ _. refl)
one_probe_when_open b (now ∷ nows) s =
    let rest = one_probe_when_open b nows s in
    let half = half_open_denies (record b { state = half_open }) nows refl in
    (ground (arith, rest.0, half), λ h. ground (arith, rest.1 h.1, half))
