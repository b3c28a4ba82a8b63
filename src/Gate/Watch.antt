-- ===== src/Gate/Watch.antt =====
-- What the watcher does to the gate, src/gate.rs: `watch_connected`, `watch_stable`,
-- `watch_disconnected` and `apply_change`; and the drop of the watcher's lease, src/watcher.rs.
use policy_gate.Prelude.{ℕ, true, false, Option, none, some}
use policy_gate.Decision.{Decision, DecisionResult, DecisionChange}
use policy_gate.Config.{Config}
use policy_gate.Metrics.{set_watch_connected}
use policy_gate.Word.{EntryState, decode_entry_state}
use policy_gate.Entry.{Entry, compare_exchange}
use policy_gate.Lru.{Lru}
use policy_gate.Store.{Store, run, abort_at}
use policy_gate.Subjects.{Slot, update, remove, clear_all}
use policy_gate.Gate.{
  Gate, Lookup, with_subjects, emit, dirty_if, republish_if_due, publish_empty, decision_snapshot,
}

abbrev pub mark_since : ℕ → Option ℕ → Option ℕ
mark_since now none = some now
mark_since now (some since) = some since

module _ {T P : Type 0} where
  -- The exchange from the state that was just read to the snapshot of a result.
  abbrev pub exchange :
      Config
      → DecisionResult P
      → ℕ
      → ℕ
      → Entry P (Lookup T P)
      → Entry P (Lookup T P) × Option EntryState
  exchange config announced now fresh e =
      compare_exchange (decode_entry_state e.current.word)
        (decision_snapshot config fresh now e announced) e

  -- What a watch decision does to the entry at an address. Nothing runs in between, so the
  -- exchange from the state that was just read succeeds at once.
  unfoldable pub decide : Config → Decision → ℕ → ℕ → Store P (Lookup T P) → Store P (Lookup T P)
  unfolding compare_exchange abort_at decision_snapshot
  decide config decision now entry s =
      let announced : DecisionResult P = record {
        decision = decision;
        payload = none;
        valid_until = none;
      } in
      abort_at entry (run (exchange config announced now) entry s).0

module _ {T : Type 0} {lru : Lru T Slot} {P : Type 0} where
  abbrev pub cleared : Gate lru P → Gate lru P
  cleared g = with_subjects g (clear_all g.subjects)

  unfoldable pub watch_connected : Gate lru P → Gate lru P
  unfolding publish_empty clear_all
  watch_connected g =
      emit (set_watch_connected true)
        (record (cleared (publish_empty (λ h. h) g)) { connected = true })

  unfoldable pub watch_stable : Gate lru P → Gate lru P
  watch_stable g = record g { disconnected_since = none }

  unfoldable pub mark_disconnected : ℕ → Gate lru P → Gate lru P
  mark_disconnected now g = record g { disconnected_since = mark_since now g.disconnected_since }

  -- The part that runs under the publish lock.
  abbrev pub go_down : ℕ → Gate lru P → Gate lru P
  go_down now h =
      mark_disconnected now (emit (set_watch_connected false) (record h { connected = false }))

  unfoldable pub watch_disconnected : ℕ → Gate lru P → Gate lru P
  unfolding publish_empty clear_all mark_disconnected
  watch_disconnected now g = cleared (publish_empty (go_down now) g)

  -- The watcher's future is dropped: its lease disconnects, and the sender goes.
  unfoldable pub drop_watcher : ℕ → Gate lru P → Gate lru P
  unfolding watch_disconnected
  drop_watcher now g = record (watch_disconnected now g) { closed = true }

  -- `apply_change`, at the instants of the map's clock, of the new deadline and of the republish.
  unfoldable pub apply_change : DecisionChange T → ℕ → ℕ → ℕ → Gate lru P → Gate lru P
  unfolding update remove decide
  apply_change change now made_at later g = elim change.decision [
    | some decision ↦
        republish_if_due later (
          with_subjects g (update change.subject now (decide g.config decision made_at) g.subjects))
    | none ↦
        let r = remove change.subject now g.subjects in
        republish_if_due later (dirty_if r.1 (with_subjects g r.0))
  ]
