-- ===== src/Scheduler/Backoff/Limit.antt =====
-- How long a retry can wait (internal/enginev2/scheduler/backoff.go).
use native.Mathlib.Nat.{pow-suc}
use native.Mathlib.Decide.{dec_lt}
use grepai.Base.{
  ℕ, zero, suc, ◌+◌, ◌-◌, ◌*◌, ◌^◌, ◌<◌, ◌≤◌, ◌≡◌, refl, sym, ap, ◌∙◌, min, false, arith,
}
use grepai.Base.Int.{pos, negsuc, ◌+ℤ◌, wrap64}
use grepai.Scheduler.Config.{Config}
use grepai.Scheduler.Backoff.{doubled, delay_limit, Sample, clamp_unit, full_jitter_delay}

wrap64_double : (d : ℕ) → d < 4611686018427387904 → wrap64 (pos d +ℤ pos d) ≡ pos (d + d)
unfolding wrap64 ◌+ℤ◌
wrap64_double d h = ground arith

pow_pos : (r : ℕ) → 1 ≤ 2 ^ r
pow_pos zero = omega arith
pow_pos (suc r) = rw (pow-suc 2 r) (omega (arith, pow_pos r))

mul_pow_suc : (d r : ℕ) → d * 2 ^ suc r ≡ (d + d) * 2 ^ r
mul_pow_suc d r = rw (pow-suc 2 r) (grind arith)

le_mul_pow : (d r : ℕ) → d ≤ d * 2 ^ r
le_mul_pow d r = let h = pow_pos r in grind arith

-- The loop is the exact power, up to the cap, while the cap is at most 2^62.
doubled-min :
    (rounds d most : ℕ)
    → most ≤ 4611686018427387904
    → (n : ℕ) × (doubled rounds (pos most) (pos d) ≡ pos n)
      × (min n most ≡ min (d * 2 ^ rounds) most)
unfolding doubled
doubled-min zero d most h = (d, refl, omega arith)
doubled-min (suc rounds) d most h = elim (dec_lt d most) [
  | yes below ↦
      let (n, e, m) = doubled-min rounds (d + d) most h in
      (
        n,
        rw (wrap64_double d (omega arith)) (ground arith),
        m ∙ ap (λ t. min t most) (sym (mul_pow_suc d rounds)),
      )
  | no above ↦ (most, ground arith, omega (arith, le_mul_pow d (suc rounds)))
]

-- When the base and the cap are not negative and the cap is at most 2^62 ns, the limit of the n-th
-- attempt, counted from 1, is the base times 2^(n-1), or the cap where that is less.
pub delay_limit_exact :
    (cfg : Config) (n base most : ℕ)
    → 1 ≤ n
    → most ≤ 4611686018427387904
    → cfg.base_retry_delay ≡ pos base
    → cfg.max_retry_delay ≡ pos most
    → delay_limit (pos n) cfg ≡ pos (min (base * 2 ^ (n - 1)) most)
unfolding delay_limit
delay_limit_exact cfg n base most h k eb ec =
    let (d, e, m) = doubled-min (n - 1) base most k in rw (eb, ec, e) (ground (arith, m))

-- With a base of 2^62 ns or more under a larger cap the doubling wraps: the limit of the second
-- attempt is negative.
pub delay_limit_wraps :
    (cfg : Config) (base most : ℕ)
    → 4611686018427387904 ≤ base
    → base < most
    → most < 9223372036854775808
    → cfg.base_retry_delay ≡ pos base
    → cfg.max_retry_delay ≡ pos most
    → delay_limit (pos 2) cfg ≡ negsuc (18446744073709551615 - (base + base))
unfolding delay_limit doubled wrap64 ◌+ℤ◌
delay_limit_wraps cfg base most h k l eb ec = rw (eb, ec) (ground arith)

-- What IEEE floats give: the tests at the two constants, and a product with a factor in [0, 1),
-- cut to an integer, between 0 and the other factor.
pub record IsSample (s : Sample) : Type 0 where
  pub zero_not_negative : s.negative s.zero_float ≡ false
  pub almost_not_negative : s.negative s.almost_one ≡ false
  pub almost_below_one : s.at_least_one s.almost_one ≡ false
  pub scale_within :
      (u : s.Float) (n : ℕ)
      → s.negative u ≡ false
      → s.at_least_one u ≡ false
      → (m : ℕ) × (s.scale u (pos n) ≡ pos m) × (m ≤ n)

clamp_unit_range :
    (s : Sample)
    → IsSample s
    → (unit : s.Float)
    → (s.negative (clamp_unit s unit) ≡ false) × (s.at_least_one (clamp_unit s unit) ≡ false)
unfolding clamp_unit
clamp_unit_range s v unit =
    (ground (arith, v.zero_not_negative, v.almost_not_negative), ground (arith, v.almost_below_one))

-- When the base and the cap are not negative, the cap is at most 2^62 ns and the floats behave as
-- `IsSample` says, the delay of the n-th attempt, counted from 1, lies between 0 and the lesser of
-- the cap and the base times 2^(n-1), whatever sample is drawn, also one outside [0, 1).
pub full_jitter_delay_bounds :
    (s : Sample)
    → IsSample s
    → (cfg : Config) (n base most : ℕ) (unit : s.Float) → 1 ≤ n
    → most ≤ 4611686018427387904
    → cfg.base_retry_delay ≡ pos base
    → cfg.max_retry_delay ≡ pos most
    → (m : ℕ) × (full_jitter_delay s (pos n) cfg unit ≡ pos m)
      × (m ≤ base * 2 ^ (n - 1))
      × (m ≤ most)
unfolding full_jitter_delay
full_jitter_delay_bounds s v cfg n base most unit h k eb ec =
    let (low, high) = clamp_unit_range s v unit in
    let (m, e, b) = v.scale_within (clamp_unit s unit) (min (base * 2 ^ (n - 1)) most) low high in
    (
      m,
      ap (s.scale (clamp_unit s unit)) (delay_limit_exact cfg n base most h k eb ec) ∙ e,
      omega arith,
      omega arith,
    )
