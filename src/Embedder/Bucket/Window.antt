-- ===== src/Embedder/Bucket/Window.antt =====
-- Waiting for the token bucket (embedder/rate_limiter.go).
use grepai.Base.{
  ℕ, ◌+◌, ◌-◌, ◌*◌, ◌<◌, ◌≤◌, ◌≡◌, refl, ap, ◌∙◌, Bool, true, false, if◌then◌else◌, arith,
}
use grepai.Base.Int.{ℤ, pos, ltb_ℤ, ◌+ℤ◌, ◌-ℤ◌, wrap64}
use grepai.Embedder.Bucket.{
  TokenBucket, second, unix, maybe_reset_window, at_least_zero, tokens_available, wait_for_tokens,
}

reset_after :
    (tb : TokenBucket) (now : ℕ)
    → (tb.window_start + 60) * second ≤ now
    → maybe_reset_window tb now ≡ record tb { window_start = unix now; tokens_used = pos 0 }
unfolding maybe_reset_window
reset_after tb now h = ground arith

budget_left :
    (limit : ℕ)
    → limit < 9223372036854775808
    → at_least_zero (wrap64 (pos limit -ℤ pos 0)) ≡ pos limit
unfolding wrap64 ◌-ℤ◌
budget_left limit h = ground arith

full_window :
    (tb : TokenBucket) (now limit : ℕ)
    → tb.tokens_per_minute ≡ pos limit
    → limit < 9223372036854775808
    → (tb.window_start + 60) * second ≤ now
    → (tokens_available tb now).1 ≡ pos limit
unfolding tokens_available
full_window tb now limit e l h = rw (reset_after tb now h, e) (budget_left limit l)

reset_keeps_limit :
    (tb : TokenBucket) (now : ℕ)
    → (maybe_reset_window tb now).tokens_per_minute ≡ tb.tokens_per_minute
unfolding maybe_reset_window
reset_keeps_limit tb now = ground arith

reset_started :
    (tb : TokenBucket) (now : ℕ)
    → tb.window_start * second ≤ now
    → (maybe_reset_window tb now).window_start * second ≤ now
unfolding maybe_reset_window
reset_started tb now h = ground (arith, h)

abbrev answer : Bool → TokenBucket → ℕ → TokenBucket × ℕ
answer b tb wait = if b then (tb, wait) else (tb, 0)

answered :
    (b : Bool) (tb : TokenBucket) (wait : ℕ)
    → 1 ≤ (answer b tb wait).1
    → ((answer b tb wait).0 ≡ tb) × ((answer b tb wait).1 ≡ wait)
answered true tb wait h = (refl, refl)
answered false tb wait h = ground arith

-- What a positive wait says of the window.
waited :
    (tb : TokenBucket) (tokens : ℤ) (now : ℕ)
    → 1 ≤ (wait_for_tokens tb tokens now).1
    → let tb' = maybe_reset_window tb now in
      ((wait_for_tokens tb tokens now).0 ≡ tb')
      × ((wait_for_tokens tb tokens now).1 ≡ (tb'.window_start + 60) * second - now)
unfolding wait_for_tokens
waited tb tokens now h =
    let tb' = maybe_reset_window tb now in
    answered (ltb_ℤ tb'.tokens_per_minute (wrap64 (tb'.tokens_used +ℤ tokens))) tb'
      ((tb'.window_start + 60) * second - now) h

-- A bucket with a budget that is not negative and fits an int64, asked at a time not before its
-- window's start, that tells a caller to wait: its whole budget is available when that time has
-- passed, and at any later time, if no call comes in between; and the wait is a minute at most.
pub wait_for_tokens_lem :
    (tb : TokenBucket) (tokens : ℤ) (now limit : ℕ)
    → tb.tokens_per_minute ≡ pos limit
    → limit < 9223372036854775808
    → tb.window_start * second ≤ now
    → 1 ≤ (wait_for_tokens tb tokens now).1
    → (later : ℕ) → now + (wait_for_tokens tb tokens now).1 ≤ later
    → ((tokens_available (wait_for_tokens tb tokens now).0 later).1 ≡ pos limit)
      × ((wait_for_tokens tb tokens now).1 ≤ 60 * second)
wait_for_tokens_lem tb tokens now limit e l c w later h =
    let tb' = maybe_reset_window tb now in
    let (same_bucket, same_wait) = waited tb tokens now w in
    let started = reset_started tb now c in
    (
      ap (λ t. (tokens_available t later).1) same_bucket
          ∙ full_window tb' later limit (reset_keeps_limit tb now ∙ e) l (omega arith),
      omega arith,
    )
