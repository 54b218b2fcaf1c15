-- ===== src/Scheduler/Backoff.antt =====
-- internal/enginev2/scheduler/backoff.go: the capped exponential delay with full jitter. A
-- time.Duration is an int64, so doubling wraps; floats are the parameter `Sample`.
pub mod Limit
use grepai.Base.{
  ℕ, zero, suc, ◌+◌, ◌-◌, ◌*◌, ◌%◌, ◌<◌, ◌≤◌, ◌≡◌, Bool, true, false, ltb, leb, if◌then◌else◌,
  arith,
}
use grepai.Base.Int.{ℤ, pos, negsuc, ltb_ℤ, ◌+ℤ◌, ◌≤ℤ◌, pos_part, wrap64}
use grepai.Scheduler.Config.{Config}

-- The doubling loop, `rounds` being attempt - 1.
unfoldable pub doubled : ℕ → ℤ → ℤ → ℤ
unfolding wrap64 ◌+ℤ◌
doubled zero max_delay d = d
doubled (suc rounds) max_delay d =
    let rest = doubled rounds max_delay (wrap64 (d +ℤ d)) in
    if ltb_ℤ d max_delay then rest else max_delay

-- attempt - 1, for an attempt that is at least 1 after the clamp.
abbrev pub rounds_of : ℤ → ℕ
rounds_of attempt = pos_part attempt - 1

-- `limit`.
unfoldable pub delay_limit : ℤ → Config → ℤ
unfolding doubled
delay_limit attempt cfg =
    let d = doubled (rounds_of attempt) cfg.max_retry_delay cfg.base_retry_delay in
    if ltb_ℤ d cfg.max_retry_delay then d else cfg.max_retry_delay

-- The float64 samples: their tests and constants, and int64(unit * float64(limit)).
pub record Sample : Type 1 where
  pub Float : Type 0
  pub negative : Float → Bool
  pub at_least_one : Float → Bool
  pub zero_float : Float
  pub almost_one : Float
  pub scale : Float → ℤ → ℤ

module _ (s : Sample) where
  open s use {Float, negative, at_least_one, zero_float, almost_one, scale}

  unfoldable pub clamp_unit : Float → Float
  clamp_unit unit =
      let u = if negative unit then zero_float else unit in if at_least_one u then almost_one else u

  unfoldable pub full_jitter_delay : ℤ → Config → Float → ℤ
  unfolding clamp_unit delay_limit
  full_jitter_delay attempt cfg unit = scale (clamp_unit unit) (delay_limit attempt cfg)
