-- ===== src/Metrics.antt =====
-- The events of src/metrics.rs. A caller's metrics are the list of events, newest first.
use policy_gate.Prelude.{Bool}

pub data Metric : Type 0 where
  denial unavailable_rejection snapshot_miss map_hit stream_cutoff snapshot_republish unary_call
        unary_failure admission_retry admission_timeout watch_disconnect watch_open_failure
        watch_event wire_failure missing_subject_rejection :
      Metric
  set_watch_connected : Bool → Metric

-- `PolicyGateMetrics`: what an implementation with the state `M` makes of each event.
abbrev pub PolicyGateMetrics : Type 0 → Type 0
PolicyGateMetrics M = Metric → M → M

-- `NoopPolicyGateMetrics`: every method keeps its default.
abbrev pub noop_policy_gate_metrics : {M : Type 0} → PolicyGateMetrics M
noop_policy_gate_metrics event m = m

-- The implementation for an `Arc`: each method calls the one of the same name.
unfoldable pub arc_metrics : {M : Type 0} → PolicyGateMetrics M → PolicyGateMetrics M
arc_metrics inner denial m = inner denial m
arc_metrics inner unavailable_rejection m = inner unavailable_rejection m
arc_metrics inner snapshot_miss m = inner snapshot_miss m
arc_metrics inner map_hit m = inner map_hit m
arc_metrics inner stream_cutoff m = inner stream_cutoff m
arc_metrics inner snapshot_republish m = inner snapshot_republish m
arc_metrics inner unary_call m = inner unary_call m
arc_metrics inner unary_failure m = inner unary_failure m
arc_metrics inner admission_retry m = inner admission_retry m
arc_metrics inner admission_timeout m = inner admission_timeout m
arc_metrics inner watch_disconnect m = inner watch_disconnect m
arc_metrics inner watch_open_failure m = inner watch_open_failure m
arc_metrics inner watch_event m = inner watch_event m
arc_metrics inner wire_failure m = inner wire_failure m
arc_metrics inner missing_subject_rejection m = inner missing_subject_rejection m
arc_metrics inner (set_watch_connected connected) m = inner (set_watch_connected connected) m
