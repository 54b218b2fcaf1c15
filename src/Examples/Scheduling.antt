-- ===== src/Examples/Scheduling.antt =====
-- Tests of internal/enginev2/scheduler.
use grepai.Base.{
  ℕ, zero, suc, ◌+◌, ◌-◌, ◌*◌, ◌/◌, ◌^◌, ◌≤◌, ◌≡◌, refl, ◌≢◌, true, false, [], ◌∷◌, ◌++◌, arith,
  ltb,
}
use grepai.Base.Int.{ℤ, pos, negsuc}
use grepai.Scheduler.Circuit.{
  closed, half_open, failure, Admission, new_circuit_breaker, record_result,
}
use grepai.Scheduler.Circuit.Tokens.{
  Host, admit, resolve, admits, resolves, Reach, here, next, start, stale_completion_ignored,
}
use grepai.Scheduler.Config.{Config}
use grepai.Scheduler.Backoff.{delay_limit, Sample, full_jitter_delay}
use grepai.Scheduler.Backoff.Limit.{delay_limit_wraps, IsSample, full_jitter_delay_bounds}

abbrev config : ℕ → ℕ → Config
config base most = record {
  max_index_inflight = pos 1;
  reserved_query_inflight = pos 1;
  max_job_attempts = pos 5;
  base_retry_delay = pos base;
  max_retry_delay = pos most;
  circuit_open_after = pos 5;
  circuit_probe_interval = pos 60;
}

delay_limit_wraps_example :
    delay_limit (pos 2) (config 4611686018427387904 9223372036854775807)
    ≡ negsuc (18446744073709551615 - (4611686018427387904 + 4611686018427387904))
delay_limit_wraps_example =
    delay_limit_wraps (config 4611686018427387904 9223372036854775807) 4611686018427387904
      9223372036854775807 (omega arith) (omega arith) (omega arith) refl refl

-- Samples in quarters: 0, 1/4, 1/2, 3/4, and what is not below 1.
abbrev scale_quarters : ℕ → ℤ → ℤ
scale_quarters u (pos n) = pos (u * n / 4)
scale_quarters u (negsuc n) = negsuc n

abbrev quarters : Sample
quarters = record {
  Float = ℕ;
  negative = λ _. false;
  at_least_one = λ u. ltb 3 u;
  zero_float = 0;
  almost_one = 3;
  scale = scale_quarters;
}

scale_quarters_within : (u n : ℕ) → ltb 3 u ≡ false → u * n / 4 ≤ n
scale_quarters_within zero n h = omega arith
scale_quarters_within (suc zero) n h = omega arith
scale_quarters_within (suc (suc zero)) n h = omega arith
scale_quarters_within (suc (suc (suc zero))) n h = omega arith
scale_quarters_within (suc (suc (suc (suc u)))) n h = ground arith

quarters-IsSample : IsSample quarters
quarters-IsSample = record {
  zero_not_negative = refl;
  almost_not_negative = refl;
  almost_below_one = refl;
  scale_within = λ u n low high. (u * n / 4, refl, scale_quarters_within u n high);
}

full_jitter_delay_bounds_example :
    (m : ℕ) × (full_jitter_delay quarters (pos 4) (config 10 300) 2 ≡ pos m)
    × (m ≤ 10 * 2 ^ (4 - 1))
    × (m ≤ 300)
full_jitter_delay_bounds_example =
    full_jitter_delay_bounds quarters quarters-IsSample (config 10 300) 4 10 300 2 (omega arith)
      (omega arith) refl refl

-- Two calls are admitted, the first fails and trips the breaker, and the probe is admitted later.
abbrev plain : Admission
plain = record { epoch = 0; probe = false; granted = true }

abbrev probe : Admission
probe = record { epoch = 1; probe = true; granted = true }

abbrev two_calls : Host
two_calls = admit (admit (start 0 60) [] [] 1) [] (plain ∷ []) 2

abbrev tripped : Host
tripped = resolve two_calls [] plain (plain ∷ []) failure 3

abbrev probing : Host
probing = admit tripped [] (plain ∷ []) 70

two_calls-outstanding : two_calls.outstanding ≡ plain ∷ plain ∷ []
unfolding admit new_circuit_breaker
two_calls-outstanding = refl

probing-Reach : Reach (start 0 60) probing
unfolding admit new_circuit_breaker resolve
probing-Reach =
    next
      (next (next (next here (admits [] [] 1 refl refl)) (admits [] (plain ∷ []) 2 refl refl))
        (resolves [] plain (plain ∷ []) failure 3 two_calls-outstanding refl))
      (admits [] (plain ∷ []) 70 refl refl)

probing-half_open : probing.breaker.state ≡ half_open
unfolding admit resolve new_circuit_breaker record_result
probing-half_open = refl

probing-not-closed : probing.breaker.state ≢ closed
probing-not-closed h = ground (arith, probing-half_open)

probing-outstanding : probing.outstanding ≡ (probe ∷ []) ++ (plain ∷ [])
unfolding admit resolve new_circuit_breaker record_result
probing-outstanding = refl

stale_completion_ignored_example :
    (resolve probing (probe ∷ []) plain [] failure 80).breaker ≡ probing.breaker
stale_completion_ignored_example =
    stale_completion_ignored 0 60 probing-Reach probing-not-closed (probe ∷ []) plain []
      probing-outstanding refl failure 80
