-- ===== src/Config/Build.antt =====
-- Which configurations `PolicyGateConfigBuilder::build` of src/lib.rs accepts.
use policy_gate.Prelude.{ℕ, ◌+◌, ◌≤◌, ◌<◌, ◌≡◌, ◌≢◌, ◌⊎◌, arith}
use policy_gate.Decision.{ok}
use policy_gate.Time.{duration_max, instant_max}
use policy_gate.Config.{Config, build, check_durations}

-- What the runtime relies on.
pub record IsValid (now : ℕ) (c : Config) : Type 0 where
  pub unary_within_admission : c.unary_timeout ≤ c.admission_timeout
  pub retry_positive : 0 < c.initial_admission_retry_delay
  pub retry_ordered : c.initial_admission_retry_delay ≤ c.max_admission_retry_delay
  pub reconnect_positive : 0 < c.initial_reconnect_delay
  pub reconnect_ordered : c.initial_reconnect_delay ≤ c.max_reconnect_delay
  pub events_positive : 0 < c.watch_events_per_yield
  pub admission_fits : now + c.admission_timeout ≤ instant_max
  pub retry_fits : now + c.max_admission_retry_delay ≤ instant_max
  pub cooldown_fits : now + c.permanent_failure_cooldown ≤ instant_max
  pub republish_fits : now + c.snapshot_republish_interval ≤ instant_max
  pub reconnect_fits : now + c.max_reconnect_delay ≤ instant_max
  pub enqueue_fits : now + c.refresh_enqueue_timeout ≤ instant_max
  pub capacity_positive : 0 < c.max_subjects
  pub queue_positive : 0 < c.refresh_queue_capacity
  pub enqueue_positive : 0 < c.refresh_enqueue_timeout
  pub window_inside_ttl : c.refresh_before_expiry < c.decision_freshness_ttl
  pub window_needs_finite_ttl :
      (c.refresh_before_expiry ≡ 0) ⊎ (c.decision_freshness_ttl ≢ duration_max)
  pub ttl_fits :
      (c.decision_freshness_ttl ≡ duration_max) ⊎ (now + c.decision_freshness_ttl ≤ instant_max)

-- `build` normalizes no field: it returns only the candidate itself, and only a valid one.
pub build-IsValid : (now : ℕ) (c d : Config) → build now c ≡ ok d → (d ≡ c) × IsValid now c
unfolding build check_durations
build-IsValid now c d h = ground arith

-- Every valid candidate is accepted.
pub build_accepts : (now : ℕ) (c : Config) → IsValid now c → build now c ≡ ok c
unfolding build check_durations
build_accepts now c v = ground arith steps 10000000
