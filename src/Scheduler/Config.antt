-- ===== src/Scheduler/Config.antt =====
-- internal/enginev2/scheduler/config.go. Go's ints and durations (nanoseconds) are integers.
use grepai.Base.{Bool, ◌||◌, not, ◌≡◌, ◌↔◌, arith, if◌then◌else◌, Option, none, some}
use grepai.Base.Int.{ℤ, pos, ltb_ℤ, ◌≤ℤ◌}

pub record Config : Type 0 where
  pub max_index_inflight : ℤ
  pub reserved_query_inflight : ℤ
  pub max_job_attempts : ℤ
  pub base_retry_delay : ℤ
  pub max_retry_delay : ℤ
  pub circuit_open_after : ℤ
  pub circuit_probe_interval : ℤ

pub data ConfigError : Type 0 where
  counts_below_one durations_not_positive base_above_max : ConfigError

unfoldable pub default_config : Config
default_config = record {
  max_index_inflight = pos 1;
  reserved_query_inflight = pos 1;
  max_job_attempts = pos 5;
  base_retry_delay = pos 1_000_000_000;
  max_retry_delay = pos 300_000_000_000;
  circuit_open_after = pos 5;
  circuit_probe_interval = pos 60_000_000_000;
}

abbrev not_positive : ℤ → Bool
not_positive d = not (ltb_ℤ (pos 0) d)

-- `none` is a nil error.
unfoldable pub validate : Config → Option ConfigError
validate c =
    if ltb_ℤ c.max_index_inflight (pos 1)
      || (ltb_ℤ c.reserved_query_inflight (pos 1)
          || (ltb_ℤ c.max_job_attempts (pos 1) || ltb_ℤ c.circuit_open_after (pos 1)))
    then some counts_below_one
    else (if not_positive c.base_retry_delay
          || (not_positive c.max_retry_delay || not_positive c.circuit_probe_interval)
        then some durations_not_positive
        else (if ltb_ℤ c.max_retry_delay c.base_retry_delay then some base_above_max else none))

pub record IsUsable (c : Config) : Type 0 where
  pub index_slots : pos 1 ≤ℤ c.max_index_inflight
  pub query_slots : pos 1 ≤ℤ c.reserved_query_inflight
  pub attempts : pos 1 ≤ℤ c.max_job_attempts
  pub open_after : pos 1 ≤ℤ c.circuit_open_after
  pub base_positive : pos 1 ≤ℤ c.base_retry_delay
  pub probe_positive : pos 1 ≤ℤ c.circuit_probe_interval
  pub ordered : c.base_retry_delay ≤ℤ c.max_retry_delay

validate_sound : (c : Config) → validate c ≡ none → IsUsable c
unfolding validate
validate_sound c h = record {
  index_slots = ground arith;
  query_slots = ground arith;
  attempts = ground arith;
  open_after = ground arith;
  base_positive = ground arith;
  probe_positive = ground arith;
  ordered = ground arith;
}

validate_complete : (c : Config) → IsUsable c → validate c ≡ none
unfolding validate
validate_complete c v = ground (
  arith, v.index_slots, v.query_slots, v.attempts, v.open_after, v.base_positive, v.probe_positive,
  v.ordered,
)

-- Validation reports no error exactly for the configurations with at least one slot for indexing and
-- one for queries, at least one attempt and a circuit threshold of at least one, positive delays and
-- probe interval, and a base delay that does not exceed the cap.
pub validate_iff : (c : Config) → (validate c ≡ none) ↔ IsUsable c
validate_iff c = (validate_sound c, validate_complete c)
