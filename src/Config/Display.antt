-- ===== src/Config/Display.antt =====
-- The messages of `ConfigError` in src/lib.rs.
use Prim.Native.String.{String, ◌++◌}
use policy_gate.Config.{ConfigError}

unfoldable pub display : ConfigError → String
display ConfigError.unary_exceeds_admission = "unary timeout must not exceed admission timeout"
display ConfigError.initial_admission_retry_delay_zero =
    "initial admission retry delay must be greater than zero"
display ConfigError.initial_retry_exceeds_maximum =
    "initial admission retry delay must not exceed its maximum"
display ConfigError.initial_reconnect_delay_zero =
    "initial reconnect delay must be greater than zero"
display ConfigError.initial_reconnect_exceeds_maximum =
    "initial reconnect delay must not exceed its maximum"
display ConfigError.watch_events_per_yield_zero = "watch events per yield must be greater than zero"
display ConfigError.admission_deadline_overflow =
    "admission timeout is too large to represent as an Instant deadline"
display (ConfigError.duration_overflow name) =
    name ++ " is too large to represent as an Instant deadline"
display ConfigError.max_subjects_zero = "maximum subject count must be greater than zero"
display ConfigError.refresh_queue_capacity_zero = "refresh queue capacity must be greater than zero"
display ConfigError.refresh_enqueue_timeout_zero =
    "refresh enqueue timeout must be greater than zero"
display ConfigError.decision_freshness_ttl_zero = "decision freshness TTL must be greater than zero"
display ConfigError.refresh_requires_finite_decision_freshness_ttl =
    "decision refresh requires a finite decision freshness TTL"
display ConfigError.refresh_window_not_less_than_decision_freshness_ttl =
    "decision refresh window must be less than decision freshness TTL"
