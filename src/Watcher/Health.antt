-- ===== src/Watcher/Health.antt =====
-- The health of src/watcher.rs and the connectivity that it is derived from.
use policy_gate.Prelude.{
  ℕ, ◌+◌, ◌≤◌, ◌≡◌, refl, arith, Bool, true, false, none, some, Option-cases, inl, inr, ◌∙◌,
}
use policy_gate.Lru.{Lru}
use policy_gate.Decision.{DecisionChange}
use policy_gate.Subjects.{Slot, update, remove}
use policy_gate.Gate.{Gate, dirty_if, with_subjects, publish_empty}
use policy_gate.Gate.Publish.{republish_kept}
use policy_gate.Gate.Watch.{
  watch_connected, watch_disconnected, watch_stable, mark_disconnected, apply_change, decide,
}
use policy_gate.Watcher.{
  failed, status, Watcher, WatchPhase, opening, watching, waiting, Work, opened, failed_open,
  change, wake, reopen,
}

abbrev pub is_watching : {T P : Type 0} → WatchPhase T P → Bool
is_watching opening = false
is_watching (watching events refreshes) = true
is_watching (waiting delay) = false

module _ {T : Type 0} {lru : Lru T Slot} {P : Type 0} where
  -- The gate is connected exactly while the loop reads a watch; it is down since some instant
  -- whenever it is not, and reports stable only while it reads one.
  pub record InStep (phase : WatchPhase T P) (g : Gate lru P) : Type 0 where
    pub connectivity : g.connected ≡ is_watching phase
    pub stable_watches : g.disconnected_since ≡ none → is_watching phase ≡ true

  module _ (random now : ℕ) (w : Watcher T P) (g : Gate lru P) where
    apply_change-connectivity :
        (c : DecisionChange T) (made_at later : ℕ)
        → ((apply_change c now made_at later g).connected ≡ g.connected)
          × ((apply_change c now made_at later g).disconnected_since ≡ g.disconnected_since)
    unfolding apply_change
    apply_change-connectivity c made_at later = elim (Option-cases c.decision) [
      | inl e ↦
          let r = remove c.subject now g.subjects in
          let h = dirty_if r.1 (with_subjects g r.0) in
          let kept = republish_kept later h in
          rw (e, apply_change) (ground (arith, kept), ground (arith, kept))
      | inr (d, e) ↦
          let h = with_subjects g (update c.subject now (decide g.config d made_at) g.subjects) in
          rw (e, apply_change) ((republish_kept later h).0, (republish_kept later h).2)
    ]

    -- Whatever the loop wakes up for, in whatever phase, the gate stays connected exactly while
    -- the loop reads a watch, and what the health reports as stable is a watch that is read, if that held before.
    pub wake-InStep :
        (work : Work T) (phase : WatchPhase T P)
        → InStep phase g
        → let r = wake random now work phase w g in InStep r.0.phase r.1
    unfolding wake reopen watch_connected watch_disconnected mark_disconnected watch_stable
        publish_empty
    wake-InStep opened opening s = ground arith
    wake-InStep (failed_open none) opening s = ground arith
    wake-InStep (change c made_at later) (watching events refreshes) s =
        let kept = apply_change-connectivity c made_at later in
        record { connectivity = kept.0 ∙ s.connectivity; stable_watches = λ _. refl }
    wake-InStep _ _ s = ground arith

  -- Flapping does not hide a failure: a watch that opens and drops again before it counts as
  -- stable leaves the health failed once the timeout has passed since the first disconnection.
  pub flapping_fails :
      (g : Gate lru P) (since dropped now timeout : ℕ)
      → g.disconnected_since ≡ some since
      → since + timeout ≤ now
      → let reopened = watch_connected g in
        (status timeout reopened.disconnected_since now ≡ failed)
        × (status timeout (watch_disconnected dropped reopened).disconnected_since now ≡ failed)
  unfolding status watch_connected watch_disconnected mark_disconnected publish_empty
  flapping_fails g since dropped now timeout h late = (ground arith, ground arith)
