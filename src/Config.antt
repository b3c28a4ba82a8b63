-- ===== src/Config.antt =====
-- `PolicyGateConfig`, its builder and `ConfigError` of src/lib.rs. Durations are nanoseconds.
pub mod Build
pub mod Display
use Prim.Native.String.{String}
use policy_gate.Prelude.{
  ℕ, ◌+◌, ◌*◌, Bool, true, not, ◌&&◌, List, [], ◌∷◌, ltb, leb, ◌==◌, if◌then◌else◌, is_some,
}
use policy_gate.Decision.{Result, ok, err, ◌>>=◌}
use policy_gate.Time.{duration_max, nanos_per_sec, checked_add}

pub record Config : Type 0 where
  pub unary_timeout : ℕ
  pub admission_timeout : ℕ
  pub initial_admission_retry_delay : ℕ
  pub max_admission_retry_delay : ℕ
  pub permanent_failure_cooldown : ℕ
  pub snapshot_republish_interval : ℕ
  pub initial_reconnect_delay : ℕ
  pub max_reconnect_delay : ℕ
  pub watch_events_per_yield : ℕ
  pub max_subjects : ℕ
  pub subject_ttl : ℕ
  pub decision_freshness_ttl : ℕ
  pub refresh_before_expiry : ℕ
  pub refresh_enqueue_timeout : ℕ
  pub refresh_queue_capacity : ℕ

abbrev pub from_secs : ℕ → ℕ
from_secs n = n * nanos_per_sec

abbrev pub from_millis : ℕ → ℕ
from_millis n = n * 1_000_000

abbrev pub default_decision_freshness_ttl : ℕ
default_decision_freshness_ttl = duration_max

abbrev pub default_unary_timeout : ℕ
default_unary_timeout = from_secs 2

abbrev pub default_admission_timeout : ℕ
default_admission_timeout = from_secs 10

abbrev pub default_initial_admission_retry_delay : ℕ
default_initial_admission_retry_delay = from_millis 100

abbrev pub default_max_admission_retry_delay : ℕ
default_max_admission_retry_delay = from_secs 1

abbrev pub default_permanent_failure_cooldown : ℕ
default_permanent_failure_cooldown = from_secs 1

abbrev pub default_snapshot_republish_interval : ℕ
default_snapshot_republish_interval = from_millis 10

abbrev pub default_initial_reconnect_delay : ℕ
default_initial_reconnect_delay = from_millis 100

abbrev pub default_max_reconnect_delay : ℕ
default_max_reconnect_delay = from_secs 5

abbrev pub default_watch_events_per_yield : ℕ
default_watch_events_per_yield = 64

abbrev pub default_max_subjects : ℕ
default_max_subjects = 65_536

abbrev pub default_subject_ttl : ℕ
default_subject_ttl = from_secs 3_600

abbrev pub default_refresh_before_expiry : ℕ
default_refresh_before_expiry = 0

abbrev pub default_refresh_enqueue_timeout : ℕ
default_refresh_enqueue_timeout = from_millis 100

abbrev pub default_refresh_queue_capacity : ℕ
default_refresh_queue_capacity = 1_024

-- `PolicyGateConfig::builder`: the candidate with every default.
abbrev pub builder : Config
builder = record {
  unary_timeout = default_unary_timeout;
  admission_timeout = default_admission_timeout;
  initial_admission_retry_delay = default_initial_admission_retry_delay;
  max_admission_retry_delay = default_max_admission_retry_delay;
  permanent_failure_cooldown = default_permanent_failure_cooldown;
  snapshot_republish_interval = default_snapshot_republish_interval;
  initial_reconnect_delay = default_initial_reconnect_delay;
  max_reconnect_delay = default_max_reconnect_delay;
  watch_events_per_yield = default_watch_events_per_yield;
  max_subjects = default_max_subjects;
  subject_ttl = default_subject_ttl;
  decision_freshness_ttl = default_decision_freshness_ttl;
  refresh_before_expiry = default_refresh_before_expiry;
  refresh_enqueue_timeout = default_refresh_enqueue_timeout;
  refresh_queue_capacity = default_refresh_queue_capacity;
}

-- The builder's setters, one for each field: the value that is set.
pub data Setting : Type 0 where
  unary_timeout admission_timeout initial_admission_retry_delay max_admission_retry_delay
        permanent_failure_cooldown snapshot_republish_interval initial_reconnect_delay
        max_reconnect_delay watch_events_per_yield max_subjects subject_ttl decision_freshness_ttl
        refresh_before_expiry refresh_enqueue_timeout refresh_queue_capacity :
      ℕ → Setting

unfoldable pub set : Config → Setting → Config
set c (unary_timeout v) = record c { unary_timeout = v }
set c (admission_timeout v) = record c { admission_timeout = v }
set c (initial_admission_retry_delay v) = record c { initial_admission_retry_delay = v }
set c (max_admission_retry_delay v) = record c { max_admission_retry_delay = v }
set c (permanent_failure_cooldown v) = record c { permanent_failure_cooldown = v }
set c (snapshot_republish_interval v) = record c { snapshot_republish_interval = v }
set c (initial_reconnect_delay v) = record c { initial_reconnect_delay = v }
set c (max_reconnect_delay v) = record c { max_reconnect_delay = v }
set c (watch_events_per_yield v) = record c { watch_events_per_yield = v }
set c (max_subjects v) = record c { max_subjects = v }
set c (subject_ttl v) = record c { subject_ttl = v }
set c (decision_freshness_ttl v) = record c { decision_freshness_ttl = v }
set c (refresh_before_expiry v) = record c { refresh_before_expiry = v }
set c (refresh_enqueue_timeout v) = record c { refresh_enqueue_timeout = v }
set c (refresh_queue_capacity v) = record c { refresh_queue_capacity = v }

-- A chain of setters.
unfoldable pub configure : Config → List Setting → Config
configure c [] = c
configure c (s ∷ settings) = configure (set c s) settings

pub data ConfigError : Type 0 where
  unary_exceeds_admission initial_admission_retry_delay_zero initial_retry_exceeds_maximum
        initial_reconnect_delay_zero initial_reconnect_exceeds_maximum watch_events_per_yield_zero
        admission_deadline_overflow max_subjects_zero refresh_queue_capacity_zero
        refresh_enqueue_timeout_zero decision_freshness_ttl_zero
        refresh_requires_finite_decision_freshness_ttl
        refresh_window_not_less_than_decision_freshness_ttl :
      ConfigError
  duration_overflow : String → ConfigError

abbrev Check : Type 0
Check = Result ConfigError (Unit {0})

abbrev pub reject_if : Bool → ConfigError → Check
reject_if test e = if test then err e else ok tt

infixl 5 ◌>>◌
abbrev pub ◌>>◌ : {A : Type 0} → Check → Result ConfigError A → Result ConfigError A
m >> k = m >>= λ _. k

-- Whether `now + duration` can be represented.
abbrev pub fits : ℕ → ℕ → Bool
fits now duration = is_some (checked_add now duration)

-- The loop over the named durations.
unfoldable pub check_durations : ℕ → List (String × ℕ) → Check
check_durations now [] = ok tt
check_durations now ((name, duration) ∷ rest) =
    let others = check_durations now rest in
    if not (fits now duration) then err (duration_overflow name) else others

abbrev pub named_durations : Config → List (String × ℕ)
named_durations c =
    ("initial admission retry delay", c.initial_admission_retry_delay)
    ∷ ("maximum admission retry delay", c.max_admission_retry_delay)
    ∷ ("permanent failure cooldown", c.permanent_failure_cooldown)
    ∷ ("snapshot republish interval", c.snapshot_republish_interval)
    ∷ ("initial reconnect delay", c.initial_reconnect_delay)
    ∷ ("maximum reconnect delay", c.max_reconnect_delay)
    ∷ ("refresh enqueue timeout", c.refresh_enqueue_timeout)
    ∷ []

-- `build`, at the instant `now` that it reads from the system's clock.
unfoldable pub build : ℕ → Config → Result ConfigError Config
unfolding check_durations
build now c = do
  reject_if (ltb c.admission_timeout c.unary_timeout) unary_exceeds_admission
  reject_if (c.initial_admission_retry_delay == 0) initial_admission_retry_delay_zero
  reject_if (ltb c.max_admission_retry_delay c.initial_admission_retry_delay)
      initial_retry_exceeds_maximum
  reject_if (c.initial_reconnect_delay == 0) initial_reconnect_delay_zero
  reject_if (ltb c.max_reconnect_delay c.initial_reconnect_delay) initial_reconnect_exceeds_maximum
  reject_if (c.watch_events_per_yield == 0) watch_events_per_yield_zero
  reject_if (not (fits now c.admission_timeout)) admission_deadline_overflow
  check_durations now (named_durations c)
  reject_if (c.max_subjects == 0) max_subjects_zero
  reject_if (c.refresh_queue_capacity == 0) refresh_queue_capacity_zero
  reject_if (c.refresh_enqueue_timeout == 0) refresh_enqueue_timeout_zero
  reject_if (c.decision_freshness_ttl == 0) decision_freshness_ttl_zero
  reject_if (not (c.refresh_before_expiry == 0) && c.decision_freshness_ttl == duration_max)
      refresh_requires_finite_decision_freshness_ttl
  reject_if (leb c.decision_freshness_ttl c.refresh_before_expiry)
      refresh_window_not_less_than_decision_freshness_ttl
  reject_if
      (not (c.decision_freshness_ttl == default_decision_freshness_ttl)
        && not (fits now c.decision_freshness_ttl))
      (duration_overflow "decision freshness TTL")
  ok c
