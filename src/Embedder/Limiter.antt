-- ===== src/Embedder/Limiter.antt =====
-- embedder/rate_limiter.go: the parallelism of the embedding calls, lowered on 429 and raised again.
pub mod Bounds
use grepai.Base.{
  ℕ, zero, suc, ◌+◌, ◌-◌, ◌/◌, ◌%◌, ◌^◌, ◌<◌, ◌≤◌, Bool, true, false, List, [], ◌∷◌, if◌then◌else◌,
  ltb, leb, arith,
}
use grepai.Base.Int.{ℤ, pos, negsuc}

-- The int32 counters and the level are two's complement; the maximum is a Go int that the constructor
-- has made at least 1.
pub record AdaptiveRateLimiter : Type 0 where
  pub current_workers : ℤ
  pub max_workers : ℕ
  pub rate_limit_hits : ℤ
  pub success_streak : ℤ
  pub reduction_threshold : ℕ
  pub restoration_threshold : ℕ

-- int32(n).
unfoldable pub int32 : ℕ → ℤ
int32 n = let low = n % (2 ^ 32) in if ltb low (2 ^ 31) then pos low else negsuc (2 ^ 32 - 1 - low)

-- atomic.Int32.Add(1).
unfoldable pub add_one : ℤ → ℤ
unfolding int32
add_one (pos n) = int32 (n + 1)
add_one (negsuc zero) = pos 0
add_one (negsuc (suc n)) = negsuc n

-- int(v) >= threshold.
unfoldable pub at_least : ℤ → ℕ → Bool
at_least (pos n) threshold = leb threshold n
at_least (negsuc n) threshold = false

-- The test and the default of the constructor.
unfoldable pub usable_workers : ℤ → ℕ
usable_workers (pos n) = if ltb n 1 then 1 else n
usable_workers (negsuc n) = 1

unfoldable pub new_adaptive_rate_limiter : ℤ → AdaptiveRateLimiter
unfolding int32 usable_workers
new_adaptive_rate_limiter max_workers = record {
  current_workers = int32 (usable_workers max_workers);
  max_workers = usable_workers max_workers;
  rate_limit_hits = pos 0;
  success_streak = pos 0;
  reduction_threshold = 3;
  restoration_threshold = 10;
}

-- reduceParallelism past its lock, at the level it has read.
unfoldable pub reduce_from : AdaptiveRateLimiter → ℤ → AdaptiveRateLimiter × Bool
unfolding int32
reduce_from arl (negsuc n) = (record arl { rate_limit_hits = pos 0 }, false)
reduce_from arl (pos n) = if leb n 1 then (record arl { rate_limit_hits = pos 0 }, false) else (
  record arl {
    current_workers = int32 (if ltb (n / 2) 1 then 1 else n / 2);
    rate_limit_hits = pos 0;
  },
  true,
)

unfoldable pub reduce_parallelism : AdaptiveRateLimiter → AdaptiveRateLimiter × Bool
unfolding reduce_from
reduce_parallelism arl = reduce_from arl arl.current_workers

unfoldable pub on_rate_limit_hit : AdaptiveRateLimiter → AdaptiveRateLimiter × Bool
unfolding reduce_parallelism add_one at_least
on_rate_limit_hit arl =
    let hits = add_one arl.rate_limit_hits in
    let counted = record arl { success_streak = pos 0; rate_limit_hits = hits } in
    if at_least hits arl.reduction_threshold then reduce_parallelism counted else (counted, false)

-- restoreParallelism past its lock, at the level it has read.
unfoldable pub restore_from : AdaptiveRateLimiter → ℤ → AdaptiveRateLimiter × Bool
unfolding at_least add_one int32
restore_from arl (negsuc zero) =
    (record arl { current_workers = pos 0; success_streak = pos 0 }, true)
restore_from arl (negsuc (suc n)) =
    (record arl { current_workers = negsuc n; success_streak = pos 0 }, true)
restore_from arl (pos n) =
    if leb arl.max_workers n then (record arl { success_streak = pos 0 }, false) else (
      record arl {
        current_workers = int32 (if ltb arl.max_workers (n + 1) then arl.max_workers else n + 1);
        success_streak = pos 0;
      },
      true,
    )

unfoldable pub restore_parallelism : AdaptiveRateLimiter → AdaptiveRateLimiter × Bool
unfolding restore_from
restore_parallelism arl = restore_from arl arl.current_workers

unfoldable pub on_success : AdaptiveRateLimiter → AdaptiveRateLimiter × Bool
unfolding restore_parallelism add_one at_least
on_success arl =
    let streak = add_one arl.success_streak in
    let counted = record arl { rate_limit_hits = pos 0; success_streak = streak } in
    if at_least streak arl.restoration_threshold
    then restore_parallelism counted
    else (counted, false)
