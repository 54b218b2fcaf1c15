-- ===== src/Examples/Batches.antt =====
-- Tests of embedder.
use grepai.Embedder.Bucket.{TokenBucket, second, tokens_available, wait_for_tokens}
use grepai.Embedder.Bucket.Window.{wait_for_tokens_lem}
use grepai.Base.{ℕ, ◌+◌, ◌*◌, ◌≤◌, ◌<◌, ◌^◌, ◌≡◌, refl, List, [], ◌∷◌, All, arith}
use grepai.Base.Int.{pos}
use grepai.Base.Text.{codes}
use grepai.Embedder.Batch.{FileChunks, all_entries, form_batches_with_size}
use grepai.Embedder.Batch.Building.{concat_entries, WithinLimits, NumberedFrom}
use grepai.Embedder.Batch.Limits.{form_batches_lossless, form_batches-WithinLimits, IsCap}
use grepai.Embedder.Limiter.{new_adaptive_rate_limiter, usable_workers}
use grepai.Embedder.Limiter.Bounds.{
  Response, rate_limited, success, responses, as_limiter, ideal, fresh, InRange, limiter_refines,
}

abbrev two_files : List FileChunks
two_files =
    record { file_index = 0; chunks = codes "package a" ∷ codes "func f() {}" ∷ [] }
    ∷ record { file_index = 1; chunks = codes "package b" ∷ [] }
    ∷ []

form_batches_lossless_example :
    concat_entries (form_batches_with_size two_files (pos 2)) ≡ all_entries two_files
form_batches_lossless_example = form_batches_lossless two_files (pos 2)

form_batches-WithinLimits_example :
    (cap : ℕ) × IsCap (pos 2) cap
    × All (WithinLimits cap) (form_batches_with_size two_files (pos 2))
    × NumberedFrom 0 (form_batches_with_size two_files (pos 2))
form_batches-WithinLimits_example = form_batches-WithinLimits two_files (pos 2)

abbrev throttled : List Response
throttled = rate_limited ∷ rate_limited ∷ rate_limited ∷ success ∷ []

four_fit : usable_workers (pos 4) < 2 ^ 31
unfolding usable_workers
four_fit = omega arith

limiter_refines_example :
    (responses (new_adaptive_rate_limiter (pos 4)) throttled
      ≡ as_limiter
          (usable_workers (pos 4))
          (ideal (usable_workers (pos 4)) (fresh (usable_workers (pos 4))) throttled))
    × InRange
        (usable_workers (pos 4))
        (ideal (usable_workers (pos 4)) (fresh (usable_workers (pos 4))) throttled)
limiter_refines_example = limiter_refines (pos 4) throttled four_fit

-- 90 of 100 tokens are used 10 seconds into the window.
abbrev nearly_full : TokenBucket
nearly_full = record { tokens_used = pos 90; window_start = 100; tokens_per_minute = pos 100 }

abbrev now : ℕ
now = 110000000000

must_wait : 1 ≤ (wait_for_tokens nearly_full (pos 20) now).1
unfolding wait_for_tokens
must_wait = omega arith

minute_over : now + (wait_for_tokens nearly_full (pos 20) now).1 ≤ 160000000000
unfolding wait_for_tokens
minute_over = omega arith

wait_for_tokens_lem_example :
    ((tokens_available (wait_for_tokens nearly_full (pos 20) now).0 160000000000).1 ≡ pos 100)
    × ((wait_for_tokens nearly_full (pos 20) now).1 ≤ 60 * second)
wait_for_tokens_lem_example =
    wait_for_tokens_lem nearly_full (pos 20) now 100 refl (omega arith) (omega arith) must_wait
      160000000000 minute_over
