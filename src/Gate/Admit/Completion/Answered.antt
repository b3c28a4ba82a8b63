-- ===== src/Gate/Admit/Completion/Answered.antt =====
-- A first lookup of src/gate.rs that the source answers, and the access to its entry afterwards.
use policy_gate.Prelude.{
  ℕ, ◌≡◌, ◌⊎◌, inl, inr, refl, arith, true, false, Option, none, some, is_some,
}
use policy_gate.Decision.{Decision, DecisionResult, ok}
use policy_gate.Metrics.{unary_call}
use policy_gate.Word.{EntryState, decode_entry_state, from_decision}
use policy_gate.Entry.{
  Entry, Snapshot, PendingFetch, compare_exchange, compare_exchange_loop, replace_pending,
  pending_generation, current_at, current_at_loop, is_expired_at, verdict_at,
}
use policy_gate.Lru.{Lru}
use policy_gate.Subjects.{Slot}
use policy_gate.Admission.{admission}
use policy_gate.Gate.{Gate, Lookup, entry_at, emit, decision_snapshot}
use policy_gate.Gate.Fetch.{
  Reply, answered, Readings, past, lookup_result, prepare, resolved, apply_first, apply_current,
  apply_fetch_result, run_fetch, report_failure,
}
use policy_gate.Gate.Access.{Access, finished, claiming, access, claim_until, queue_deadline}
use policy_gate.Time.{checked_add}

module _ {T P : Type 0} where
  -- An entry that waits takes the snapshot of its lookup, and nothing is pending afterwards.
  resolved_lem :
      (generation : ℕ) (s : Snapshot P) (e : Entry P (Lookup T P))
      → decode_entry_state e.current.word ≡ EntryState.pending
      → is_some (pending_generation generation e) ≡ true
      → ((resolved generation s e).current ≡ s)
        × ((resolved generation s e).pending ≡ none)
        × ((resolved generation s e).epoch ≡ e.epoch)
  unfolding resolved compare_exchange compare_exchange_loop replace_pending pending_generation
  resolved_lem generation s e waits held = (ground arith, ground arith, ground arith)

answered-result :
    {P : Type 0} (now : ℕ) (r : DecisionResult P)
    → past now r.valid_until ≡ false
    → lookup_result now (answered (ok (some r))) ≡ ok r
unfolding lookup_result
answered-result now r young = ground arith

module _ {T : Type 0} {lru : Lru T Slot} {P : Type 0} (g : Gate lru P) where
  -- A first lookup's result that is valid throughout: the entry has its snapshot.
  applied_lem :
      (subject : T) (entry generation : ℕ) (at : Readings) (r : DecisionResult P)
      → let e = entry_at g entry in
        let s = decision_snapshot g.config g.store.next at.making e r in
        decode_entry_state e.current.word ≡ EntryState.pending
        → is_some (pending_generation generation e) ≡ true
        → is_expired_at e.epoch s.word at.checking ≡ false
        → let h = apply_fetch_result subject entry generation none at (ok r) g in
          (h.1 ≡ ok tt)
          × ((entry_at h.0 entry).current ≡ s)
          × ((entry_at h.0 entry).epoch ≡ e.epoch)
          × ((entry_at h.0 entry).pending ≡ none)
          × (h.0.connected ≡ g.connected)
  unfolding apply_fetch_result prepare apply_current apply_first
  applied_lem subject entry generation at r waits held valid =
      let e = entry_at g entry in
      let s = decision_snapshot g.config g.store.next at.making e r in
      let taken = resolved_lem generation s e waits held in
      (
        ground arith,
        ground (arith, taken.0),
        ground (arith, taken.2),
        ground (arith, taken.1),
        ground arith,
      )

module _ {T : Type 0} {lru : Lru T Slot} {P : Type 0} (g : Gate lru P) where
  -- What an access gives of an entry with a verdict: the entry, or a claim of a refresh that ends in
  -- the entry as well.
  abbrev pub Serves : ℕ → Access T P → Type 0
  Serves entry a =
      (a ≡ finished (some entry)) ⊎ ((s : Snapshot P) × (deadline : ℕ) × (a ≡ claiming s deadline))

  access_either :
      (entry : ℕ) (outer : Option ℕ) (now access_time : ℕ) (d : Decision)
      → is_expired_at (entry_at g entry).epoch (entry_at g entry).current.word now ≡ false
      → decode_entry_state (entry_at g entry).current.word ≡ from_decision d
      → let own = checked_add access_time g.config.refresh_enqueue_timeout in
        let a = (access entry outer now access_time g).1 in
        (a ≡ finished (some entry))
        ⊎ (a ≡ claim_until entry (entry_at g entry).current (queue_deadline own outer))
  unfolding access admission verdict_at current_at current_at_loop
  access_either entry outer now access_time Decision.allowed fresh reads = ground arith
  access_either entry outer now access_time Decision.denied fresh reads = ground arith

  claim_until-Serves :
      (entry : ℕ) (s : Snapshot P) (deadline : Option ℕ)
      → Serves entry (claim_until {T = T} entry s deadline)
  claim_until-Serves entry s none = inl refl
  claim_until-Serves entry s (some deadline) = inr (s, deadline, refl)

  pub access-Serves :
      (entry : ℕ) (outer : Option ℕ) (now access_time : ℕ) (d : Decision)
      → is_expired_at (entry_at g entry).epoch (entry_at g entry).current.word now ≡ false
      → decode_entry_state (entry_at g entry).current.word ≡ from_decision d
      → Serves entry (access entry outer now access_time g).1
  access-Serves entry outer now access_time d fresh reads =
      elim (access_either entry outer now access_time d fresh reads) [
        | inl e ↦ inl e
        | inr e ↦ rw e (claim_until-Serves entry (entry_at g entry).current _)
      ]

  run_fetch_lem :
      (fetch : PendingFetch (Lookup T P)) (now : ℕ) (at : Readings) (reply : Reply P)
      → let future = fetch.future in
        let applied =
          apply_fetch_result future.subject future.entry fetch.generation future.refresh_from at
            (lookup_result now reply)
            (emit unary_call g) in
        run_fetch fetch true now at reply g ≡ (report_failure applied.1 applied.0, applied.1)
  unfolding run_fetch
  run_fetch_lem fetch now at reply = refl

  -- The gate once a first lookup was answered with a result that is valid throughout.
  pub answered_lem :
      (fetch : PendingFetch (Lookup T P)) (now : ℕ) (at : Readings) (r : DecisionResult P)
      → let entry = fetch.future.entry in
        let e = entry_at g entry in
        let s = decision_snapshot g.config g.store.next at.making e r in
        fetch.future.refresh_from ≡ none
        → decode_entry_state e.current.word ≡ EntryState.pending
        → is_some (pending_generation fetch.generation e) ≡ true
        → past now r.valid_until ≡ false
        → is_expired_at e.epoch s.word at.checking ≡ false
        → let h = run_fetch fetch true now at (answered (ok (some r))) g in
          (h.1 ≡ ok tt)
          × ((entry_at h.0 entry).current ≡ s)
          × ((entry_at h.0 entry).epoch ≡ e.epoch)
          × ((entry_at h.0 entry).pending ≡ none)
          × (h.0.connected ≡ g.connected)
  answered_lem fetch now at r first waits held young valid =
      let future = fetch.future in
      let applied =
        applied_lem (emit unary_call g) future.subject future.entry fetch.generation at r waits held
          valid in
      rw
        (
          run_fetch_lem fetch now at (answered (ok (some r))),
          answered-result now r young,
          first,
          applied.0,
        )
        (refl, applied.1, applied.2, applied.3, applied.4)
