-- ===== src/Embedder/Bucket.antt =====
-- embedder/rate_limiter.go: the token bucket. The clock, in nanoseconds since 1970, is an argument;
-- token counts are int64.
pub mod Window
use grepai.Base.{ℕ, ◌+◌, ◌-◌, ◌*◌, ◌/◌, Bool, true, false, if◌then◌else◌, leb, arith}
use grepai.Base.Int.{ℤ, pos, negsuc, ltb_ℤ, ◌+ℤ◌, ◌-ℤ◌, wrap64}

pub record TokenBucket : Type 0 where
  pub tokens_used : ℤ
  pub window_start : ℕ
  pub tokens_per_minute : ℤ

abbrev pub second : ℕ
second = 1000000000

-- time.Unix of a time, in seconds.
abbrev pub unix : ℕ → ℕ
unix now = now / second

unfoldable pub new_token_bucket : ℤ → ℕ → TokenBucket
new_token_bucket tokens_per_minute now = record {
  tokens_used = pos 0;
  window_start = unix now;
  tokens_per_minute = if ltb_ℤ (pos 0) tokens_per_minute then tokens_per_minute else pos 1000000;
}

unfoldable pub maybe_reset_window : TokenBucket → ℕ → TokenBucket
maybe_reset_window tb now =
    if leb (tb.window_start + 60) (unix now)
    then record tb { window_start = unix now; tokens_used = pos 0 }
    else tb

abbrev pub at_least_zero : ℤ → ℤ
at_least_zero (pos n) = pos n
at_least_zero (negsuc n) = pos 0

unfoldable pub tokens_available : TokenBucket → ℕ → TokenBucket × ℤ
unfolding maybe_reset_window ◌-ℤ◌ wrap64
tokens_available tb now =
    let tb' = maybe_reset_window tb now in
    (tb', at_least_zero (wrap64 (tb'.tokens_per_minute -ℤ tb'.tokens_used)))

unfoldable pub add_tokens : TokenBucket → ℤ → ℕ → TokenBucket × Bool
unfolding maybe_reset_window ◌+ℤ◌ wrap64
add_tokens tb tokens now =
    let tb' = maybe_reset_window tb now in
    (record tb' { tokens_used = wrap64 (tb'.tokens_used +ℤ tokens) }, true)

-- The nanoseconds to wait; the difference stops at 0.
unfoldable pub wait_for_tokens : TokenBucket → ℤ → ℕ → TokenBucket × ℕ
unfolding maybe_reset_window ◌+ℤ◌ wrap64
wait_for_tokens tb tokens now =
    let tb' = maybe_reset_window tb now in
    if ltb_ℤ tb'.tokens_per_minute (wrap64 (tb'.tokens_used +ℤ tokens))
    then (tb', (tb'.window_start + 60) * second - now)
    else (tb', 0)
