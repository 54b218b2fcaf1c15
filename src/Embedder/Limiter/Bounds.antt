-- ===== src/Embedder/Limiter/Bounds.antt =====
-- The level of parallelism over a run of responses (embedder/rate_limiter.go).
use grepai.Base.{
  ℕ, ◌+◌, ◌/◌, ◌^◌, ◌<◌, ◌≤◌, ◌≡◌, refl, ap, ◌∙◌, List, [], ◌∷◌, if◌then◌else◌, leb, arith,
}
use grepai.Base.Int.{ℤ, pos, negsuc}
use grepai.Embedder.Limiter.{
  AdaptiveRateLimiter, int32, add_one, at_least, usable_workers, new_adaptive_rate_limiter,
  reduce_from, reduce_parallelism, on_rate_limit_hit, restore_from, restore_parallelism, on_success,
}

-- One answer of the service.
pub data Response : Type 0 where
  rate_limited : Response
  success : Response

respond : AdaptiveRateLimiter → Response → AdaptiveRateLimiter
respond arl rate_limited = (on_rate_limit_hit arl).0
respond arl success = (on_success arl).0

pub responses : AdaptiveRateLimiter → List Response → AdaptiveRateLimiter
responses arl [] = arl
responses arl (r ∷ rs) = responses (respond arl r) rs

-- The limiter without machine integers: the level and the two counters.
pub record Ideal : Type 0 where
  pub level : ℕ
  pub hits : ℕ
  pub streak : ℕ

-- The third 429 in a row halves the level, down to 1.
ideal_hit : Ideal → Ideal
ideal_hit i =
    if leb 3 (i.hits + 1)
    then record { level = if leb i.level 1 then i.level else i.level / 2; hits = 0; streak = 0 }
    else record { level = i.level; hits = i.hits + 1; streak = 0 }

-- The tenth success in a row raises it by 1, up to the maximum.
ideal_success : ℕ → Ideal → Ideal
ideal_success max_workers i =
    if leb 10 (i.streak + 1)
    then record {
      level = if leb max_workers i.level then i.level else i.level + 1;
      hits = 0;
      streak = 0;
    }
    else record { level = i.level; hits = 0; streak = i.streak + 1 }

pub ideal : ℕ → Ideal → List Response → Ideal
ideal max_workers i [] = i
ideal max_workers i (rate_limited ∷ rs) = ideal max_workers (ideal_hit i) rs
ideal max_workers i (success ∷ rs) = ideal max_workers (ideal_success max_workers i) rs

pub as_limiter : ℕ → Ideal → AdaptiveRateLimiter
as_limiter max_workers i = record {
  current_workers = pos i.level;
  max_workers = max_workers;
  rate_limit_hits = pos i.hits;
  success_streak = pos i.streak;
  reduction_threshold = 3;
  restoration_threshold = 10;
}

pub record InRange (max_workers : ℕ) (i : Ideal) : Type 0 where
  pub at_least_one : 1 ≤ i.level
  pub at_most : i.level ≤ max_workers
  pub few_hits : i.hits < 3
  pub short_streak : i.streak < 10

int32_small : (n : ℕ) → n < 2 ^ 31 → int32 n ≡ pos n
unfolding int32
int32_small n h = ground arith

hit-InRange : (m : ℕ) (i : Ideal) → InRange m i → InRange m (ideal_hit i)
unfolding ideal_hit
hit-InRange m i v = record {
  at_least_one = ground (arith, v.at_least_one);
  at_most = ground (arith, v.at_most);
  few_hits = ground (arith, v.few_hits);
  short_streak = ground arith;
}

success-InRange : (m : ℕ) (i : Ideal) → InRange m i → InRange m (ideal_success m i)
unfolding ideal_success
success-InRange m i v = record {
  at_least_one = ground (arith, v.at_least_one);
  at_most = ground (arith, v.at_most);
  few_hits = ground arith;
  short_streak = ground (arith, v.short_streak);
}

hit_refines :
    (m : ℕ) (i : Ideal)
    → m < 2 ^ 31
    → InRange m i
    → (on_rate_limit_hit (as_limiter m i)).0 ≡ as_limiter m (ideal_hit i)
unfolding on_rate_limit_hit as_limiter ideal_hit add_one at_least reduce_parallelism reduce_from
hit_refines m i h v = ground (arith, v.at_least_one, v.at_most, v.few_hits)

success_refines :
    (m : ℕ) (i : Ideal)
    → m < 2 ^ 31
    → InRange m i
    → (on_success (as_limiter m i)).0 ≡ as_limiter m (ideal_success m i)
unfolding on_success as_limiter ideal_success add_one at_least restore_parallelism restore_from
success_refines m i h v = ground (arith, v.at_least_one, v.at_most, v.short_streak)

respond_refines :
    (m : ℕ) (i : Ideal) (rs : List Response)
    → m < 2 ^ 31
    → InRange m i
    → responses (as_limiter m i) rs ≡ as_limiter m (ideal m i rs) × InRange m (ideal m i rs)
unfolding responses respond ideal
respond_refines m i [] h v = (refl, v)
respond_refines m i (rate_limited ∷ rs) h v = (
  ap (λ a. responses a rs) (hit_refines m i h v)
      ∙ (respond_refines m (ideal_hit i) rs h (hit-InRange m i v)).0,
  (respond_refines m (ideal_hit i) rs h (hit-InRange m i v)).1,
)
respond_refines m i (success ∷ rs) h v = (
  ap (λ a. responses a rs) (success_refines m i h v)
      ∙ (respond_refines m (ideal_success m i) rs h (success-InRange m i v)).0,
  (respond_refines m (ideal_success m i) rs h (success-InRange m i v)).1,
)

pub fresh : ℕ → Ideal
fresh max_workers = record { level = max_workers; hits = 0; streak = 0 }

new_refines :
    (n : ℤ)
    → usable_workers n < 2 ^ 31
    → new_adaptive_rate_limiter n ≡ as_limiter (usable_workers n) (fresh (usable_workers n))
unfolding new_adaptive_rate_limiter as_limiter fresh
new_refines n h = rw (int32_small (usable_workers n) h) refl

usable_workers_positive : (n : ℤ) → 1 ≤ usable_workers n
unfolding usable_workers
usable_workers_positive (pos n) = ground arith
usable_workers_positive (negsuc n) = omega arith

fresh-InRange : (m : ℕ) → 1 ≤ m → InRange m (fresh m)
unfolding fresh
fresh-InRange m h = record {
  at_least_one = h;
  at_most = omega arith;
  few_hits = omega arith;
  short_streak = omega arith;
}

-- When the maximum, made at least 1, is below 2^31, then after any sequence of 429s and successes
-- the limiter is the ideal one (unbounded counters, a level halved at the third 429 in a row down
-- to 1, raised by one at the tenth success in a row up to the maximum), and its level is between 1
-- and the maximum.
pub limiter_refines :
    (max_workers : ℤ) (rs : List Response)
    → usable_workers max_workers < 2 ^ 31
    → (responses (new_adaptive_rate_limiter max_workers) rs
        ≡ as_limiter
            (usable_workers max_workers)
            (ideal (usable_workers max_workers) (fresh (usable_workers max_workers)) rs))
      × InRange
          (usable_workers max_workers)
          (ideal (usable_workers max_workers) (fresh (usable_workers max_workers)) rs)
unfolding fresh
limiter_refines max_workers rs h =
    let m = usable_workers max_workers in
    let run =
      respond_refines m (fresh m) rs h (fresh-InRange m (usable_workers_positive max_workers)) in
    (ap (λ a. responses a rs) (new_refines max_workers h) ∙ run.0, run.1)
