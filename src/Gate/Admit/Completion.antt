-- ===== src/Gate/Admit/Completion.antt =====
-- An admission of src/gate.rs that waits for a first lookup, once the lookup has ended.
pub mod Answered
use policy_gate.Prelude.{
  ℕ, ◌≡◌, ◌⊎◌, inl, inr, refl, ◌∙◌, arith, true, false, Option, none, some, is_some,
}
use policy_gate.Decision.{Decision, DecisionResult, ok}
use policy_gate.Metrics.{unary_call}
use policy_gate.Word.{EntryState, same_state, decode_entry_state, from_decision}
use policy_gate.Entry.{
  Entry, Snapshot, PendingFetch, compare_exchange, compare_exchange_loop, replace_pending,
  pending_generation, state_at, observed_at, current_at, current_at_loop, is_expired_at, verdict_at,
}
use policy_gate.Store.{run}
use policy_gate.Lru.{Lru}
use policy_gate.Subjects.{Slot}
use policy_gate.Admission.{is_allowed, admission, state, observe}
use policy_gate.Gate.{Gate, Lookup, entry_at, with_store, emit, decision_snapshot}
use policy_gate.Gate.Freshness.{decision_snapshot_lem}
use policy_gate.Gate.Fetch.{
  Reply, answered, Readings, FetchResult, past, lookup_result, prepare, resolved, apply_first,
  apply_current, apply_fetch_result, run_fetch, report_failure,
}
use policy_gate.Gate.Access.{Access, finished, claiming, access, claim_until, queue_deadline}
use policy_gate.Time.{checked_add}
use policy_gate.Gate.Admit.{Call, result, accessing, settle}
use policy_gate.Gate.Admit.Completion.Answered.{Serves, access-Serves, answered_lem}

module _ {T : Type 0} {lru : Lru T Slot} {P : Type 0} (g : Gate lru P) where
  looked : ℕ → ℕ → Gate lru P
  looked entry now = with_store g (run (λ fresh. state_at fresh now) entry g.store).0

  looked_lem :
      (entry now : ℕ)
      → is_expired_at (entry_at g entry).epoch (entry_at g entry).current.word now ≡ false
      → ((entry_at (looked entry now) entry).current ≡ (entry_at g entry).current)
        × ((entry_at (looked entry now) entry).epoch ≡ (entry_at g entry).epoch)
        × ((run (λ fresh. state_at fresh now) entry g.store).1
            ≡ decode_entry_state (entry_at g entry).current.word)
  unfolding looked state_at current_at current_at_loop
  looked_lem entry now fresh = (ground arith, ground arith, ground arith)

  settle_phase :
      (call : Call T) (entry now later : ℕ) (outcome : FetchResult) (d : Decision)
      → g.connected ≡ true
      → (run (λ fresh. state_at fresh now) entry g.store).1 ≡ from_decision d
      → (settle call entry (result outcome) now later g).1
        ≡ accessing entry false (access entry (some call.deadline) later later (looked entry now)).1
  unfolding settle looked
  settle_phase call entry now later outcome Decision.allowed up reads = ground arith
  settle_phase call entry now later outcome Decision.denied up reads = ground arith

  -- A decision that is in force when the wait ends and still at the access is served.
  settle-Serves :
      (call : Call T) (entry now later : ℕ) (outcome : FetchResult) (d : Decision)
      → let e = entry_at g entry in
        g.connected ≡ true
        → decode_entry_state e.current.word ≡ from_decision d
        → is_expired_at e.epoch e.current.word now ≡ false
        → is_expired_at e.epoch e.current.word later ≡ false
        → (a : Access T P) × ((settle call entry (result outcome) now later g).1
            ≡ accessing entry false a)
          × Serves g entry a
  settle-Serves call entry now later outcome d up reads fresh still =
      let seen = looked_lem entry now fresh in
      (
        (access entry (some call.deadline) later later (looked entry now)).1,
        settle_phase call entry now later outcome d up (seen.2 ∙ reads),
        access-Serves (looked entry now) entry (some call.deadline) later later d
            (rw (seen.0, seen.1) still) (rw (seen.0) reads),
      )

  allowed_lem :
      (entry now : ℕ) (d : Decision)
      → decode_entry_state (entry_at g entry).current.word ≡ from_decision d
      → is_expired_at (entry_at g entry).epoch (entry_at g entry).current.word now ≡ false
      → (is_allowed entry now g.store).1 ≡ some (same_state (from_decision d) EntryState.allowed)
  unfolding is_allowed state observe observed_at current_at current_at_loop
  allowed_lem entry now Decision.allowed reads fresh = ground arith
  allowed_lem entry now Decision.denied reads fresh = ground arith

module _ {T : Type 0} {lru : Lru T Slot} {P : Type 0} (g : Gate lru P) where
  -- An admission that waits for a first lookup is served once the source has answered with a result:
  -- where the watch is up and the result stays valid until the admission has woken up and accessed
  -- its entry, the lookup ends well, the admission goes on to the entry with a handle, at once or by
  -- way of a refresh claim, and the handle is allowed exactly if the result's decision allows.
  pub first_lookup_admits :
      (call : Call T) (fetch : PendingFetch (Lookup T P)) (now woken later : ℕ) (at : Readings)
      (r : DecisionResult P)
      → let entry = fetch.future.entry in
        let e = entry_at g entry in
        let s = decision_snapshot g.config g.store.next at.making e r in
        g.connected ≡ true
        → fetch.future.refresh_from ≡ none
        → decode_entry_state e.current.word ≡ EntryState.pending
        → is_some (pending_generation fetch.generation e) ≡ true
        → past now r.valid_until ≡ false
        → is_expired_at e.epoch s.word at.checking ≡ false
        → is_expired_at e.epoch s.word woken ≡ false
        → is_expired_at e.epoch s.word later ≡ false
        → let h = run_fetch fetch true now at (answered (ok (some r))) g in
          (h.1 ≡ ok tt)
          × ((a : Access T P) × ((settle call entry (result h.1) woken later h.0).1
                ≡ accessing entry false a)
              × Serves h.0 entry a)
          × ((is_allowed entry later h.0.store).1
              ≡ some (same_state (from_decision r.decision) EntryState.allowed))
  first_lookup_admits call fetch now woken later at r up first waits held young valid fresh still =
      let entry = fetch.future.entry in
      let h = run_fetch fetch true now at (answered (ok (some r))) g in
      let taken = answered_lem g fetch now at r first waits held young valid in
      let reads : decode_entry_state (entry_at h.0 entry).current.word ≡ from_decision r.decision =
        rw (taken.1)
          (decision_snapshot_lem g.config g.store.next at.making (entry_at g entry) r).0 in
      (
        taken.0,
        settle-Serves h.0 call entry woken later h.1 r.decision (taken.4 ∙ up) reads
            (rw (taken.1, taken.2) fresh) (rw (taken.1, taken.2) still),
        allowed_lem h.0 entry later r.decision reads (rw (taken.1, taken.2) still),
      )
