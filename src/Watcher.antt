-- ===== src/Watcher.antt =====
-- The decision watcher of src/watcher.rs: `watch_source` as a machine over what it waits for,
-- its jittered backoff, and the health that is derived from the connectivity.
pub mod Backoff
pub mod Health
use policy_gate.Prelude.{
  ℕ, suc, ◌+◌, ◌-◌, ◌*◌, ◌/◌, ◌%◌, ◌^◌, min, Bool, true, false, Option, none, some, List, [], ◌∷◌,
  ◌++◌, leb, ◌==◌, if◌then◌else◌,
}
use policy_gate.Decision.{DecisionChange, DecisionSourceError, Result, ok, err, wire_kind}
use policy_gate.Time.{u64_or, saturating_mul}
use policy_gate.Config.{Config, from_millis}
use policy_gate.Metrics.{watch_disconnect, watch_open_failure, watch_event, wire_failure}
use policy_gate.Entry.{PendingFetch}
use policy_gate.Lru.{Lru}
use policy_gate.Subjects.{Slot}
use policy_gate.Gate.{Gate, Lookup, emit}
use policy_gate.Gate.Watch.{watch_connected, watch_stable, watch_disconnected, apply_change}

pub data HealthStatus : Type 0 where
  stable not_yet_stable failed : HealthStatus

-- `DecisionSourceHealth::status`
unfoldable pub status : ℕ → Option ℕ → ℕ → HealthStatus
status admission_timeout none now = stable
status admission_timeout (some since) now =
    if leb admission_timeout (now - since) then failed else not_yet_stable

-- `jitter`, with the random number that it draws. The sum is one of `u64`, which wraps around.
unfoldable pub jitter : ℕ → ℕ → ℕ
jitter random delay =
    let millis = u64_or (2 ^ 64 - 1) (delay / 1_000_000) in
    let spread = millis / 2 in
    if spread == 0 then delay else from_millis ((millis - spread / 2 + random % spread) % 2 ^ 64)

-- Where the loop stands: it opens a watch; it is in the inner loop, with the events since the
-- last yield and the refreshes that it drives; or it sleeps before the next attempt.
pub data WatchPhase (T P : Type 0) : Type 0 where
  opening : WatchPhase T P
  watching : ℕ → List (PendingFetch (Lookup T P)) → WatchPhase T P
  waiting : ℕ → WatchPhase T P

pub record Watcher (T P : Type 0) : Type 0 where
  pub phase : WatchPhase T P
  pub reconnect_delay : ℕ

-- What the loop wakes up for. `failed_open none` is the timeout of the open; a change carries the
-- instants that `apply_change` reads; `refresh_done` names the refresh that ended; `closed_queue`
-- is a batch of none.
pub data Work (T : Type 0) : Type 0 where
  opened : Work T
  failed_open : Option DecisionSourceError → Work T
  stable_timer closed_queue end_of_stream slept : Work T
  refresh_batch : Work T
  refresh_done : ℕ → Work T
  change : DecisionChange T → ℕ → ℕ → Work T
  failed_item : DecisionSourceError → Work T

-- `events_since_yield` after one more event; at the budget the loop yields.
abbrev pub count_event : ℕ → ℕ → ℕ
count_event budget events = if suc events == budget then 0 else suc events

-- The refreshes that are still driven once one has ended.
abbrev pub without {ℓ} : {F : Type ℓ} → ℕ → List (PendingFetch F) → List (PendingFetch F)
without generation [] = []
without generation (f ∷ fs) =
    let rest = without generation fs in if f.generation == generation then rest else f ∷ rest

module _ {T : Type 0} {lru : Lru T Slot} {P : Type 0} where
  abbrev pub report_wire : DecisionSourceError → Gate lru P → Gate lru P
  report_wire e g = if wire_kind e.kind then emit wire_failure g else g

  -- The end of a turn of the outer loop, at `now`: the gate disconnects, the loop sleeps for the
  -- jittered delay, which then doubles up to its maximum.
  unfoldable pub reopen : ℕ → ℕ → Watcher T P → Gate lru P → Watcher T P × Gate lru P
  unfolding watch_disconnected jitter
  reopen random now w g = (
    record {
      phase = waiting (jitter random w.reconnect_delay);
      reconnect_delay = min (saturating_mul w.reconnect_delay 2) g.config.max_reconnect_delay;
    },
    watch_disconnected now g,
  )

  -- The inner loop is left.
  abbrev pub leave : ℕ → ℕ → Watcher T P → Gate lru P → Watcher T P × Gate lru P
  leave random now w g = reopen random now w (emit watch_disconnect g)

  -- One wakeup in the watcher's phase; one that the phase does not wait for changes nothing.
  unfoldable pub wake :
      ℕ → ℕ → Work T → WatchPhase T P → Watcher T P → Gate lru P → Watcher T P × Gate lru P
  unfolding reopen watch_connected watch_stable apply_change
  wake random now opened opening w g = (record w { phase = watching 0 [] }, watch_connected g)
  wake random now (failed_open none) opening w g = reopen random now w (emit watch_open_failure g)
  wake random now (failed_open (some e)) opening w g =
      reopen random now w (emit watch_open_failure (report_wire e g))
  wake random now stable_timer (watching events refreshes) w g = (
    record {
      phase = watching events refreshes;
      reconnect_delay = g.config.initial_reconnect_delay;
    },
    watch_stable g,
  )
  wake random now closed_queue (watching events refreshes) w g = leave random now w g
  wake random now refresh_batch (watching events refreshes) w g =
      (record w { phase = watching events (refreshes ++ g.queue) }, record g { queue = [] })
  wake random now (refresh_done generation) (watching events refreshes) w g =
      (record w { phase = watching events (without generation refreshes) }, g)
  wake random now (change c made_at later) (watching events refreshes) w g = (
    record w { phase = watching (count_event g.config.watch_events_per_yield events) refreshes },
    emit watch_event (apply_change c now made_at later g),
  )
  wake random now (failed_item e) (watching events refreshes) w g =
      leave random now w (report_wire e g)
  wake random now end_of_stream (watching events refreshes) w g = leave random now w g
  wake random now slept (waiting delay) w g = (record w { phase = opening }, g)
  wake random now _ phase w g = (record w { phase = phase }, g)

  -- The start of `watch_source`.
  abbrev pub start : Gate lru P → Watcher T P
  start g = record { phase = opening; reconnect_delay = g.config.initial_reconnect_delay }
