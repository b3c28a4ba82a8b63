-- ===== src/Gate/Fetch/Outcome.antt =====
-- What the result of a lookup leaves behind: `apply_fetch_result` of src/gate.rs.
use policy_gate.Prelude.{
  ℕ, suc, ◌+◌, ◌^◌, ◌≤◌, ◌<◌, ◌≡◌, ◌≢◌, refl, arith, true, Option, none, some, is_some,
}
use policy_gate.Decision.{
  Result, err, DecisionResult, Decision, DecisionSourceError, is_permanent_status,
}
use policy_gate.Config.{Config}
use policy_gate.Word.{EntryState, word, no_expiry}
use policy_gate.Word.Encoding.{word_roundtrip}
use policy_gate.Entry.{
  Snapshot, PendingFetch, tick, pending_generation, replace_pending, refresh_due_at,
  refresh_eligible_at, abort_pending, state_at, current_at, current_at_loop,
}
use policy_gate.Entry.Expiry.{expired-word}
use policy_gate.Store.{Store, abort_at}
use policy_gate.Lru.{Lru}
use policy_gate.Subjects.{Slot}
use policy_gate.Gate.{Gate, Lookup, entry_at, with_store}
use policy_gate.Gate.Watch.{decide}
use policy_gate.Gate.Fetch.{
  Readings, apply_fetch_result, apply_current, apply_first, refreshed, cooled_down, took_address,
  new_fetch_after,
}

decide-pending :
    {T P : Type 0} (config : Config) (decision : Decision) (now entry : ℕ)
    (s : Store P (Lookup T P))
    → ((decide config decision now entry s).entries entry).pending ≡ none
unfolding decide abort_at abort_pending
decide-pending config decision now entry s = ground arith

module _ {T : Type 0} {lru : Lru T Slot} {P : Type 0} (g : Gate lru P) where
  -- A lookup that is not the pending one changes nothing.
  superseded :
      (subject : T) (entry generation : ℕ) (refresh_from : Option (Snapshot P)) (at : Readings)
      (result : Result DecisionSourceError (DecisionResult P))
      → (entry_at g entry).pending ≡ none
      → (apply_fetch_result subject entry generation refresh_from at result g).0 ≡ g
  unfolding apply_fetch_result pending_generation
  superseded subject entry generation refresh_from at result idle = ground arith

module _ {T : Type 0} {lru : Lru T Slot} {P : Type 0} (g : Gate lru P) where
  -- A lookup that is in flight when a watch decision reaches its entry changes nothing any more,
  -- whatever it brings: the watch decision stands.
  pub decide_wins :
      (config : Config) (decision : Decision) (now : ℕ) (subject : T) (entry generation : ℕ)
      (refresh_from : Option (Snapshot P)) (at : Readings)
      (result : Result DecisionSourceError (DecisionResult P))
      → let decided = with_store g (decide config decision now entry g.store) in
        (apply_fetch_result subject entry generation refresh_from at result decided).0 ≡ decided
  decide_wins config decision now subject entry generation refresh_from at result =
      superseded (with_store g (decide config decision now entry g.store)) subject entry generation
        refresh_from at result (decide-pending config decision now entry g.store)

  -- A failed refresh that is still the entry's pending fetch leaves the entry's decision in force,
  -- takes the claim back, and makes no refresh due before the cooldown has passed, for a cooldown
  -- below 2^62 nanoseconds.
  pub refresh_failure_keeps :
      (subject : T) (entry generation later : ℕ) (current : Snapshot P) (at : Readings)
      (e : DecisionSourceError)
      → is_some (pending_generation generation (entry_at g entry)) ≡ true
      → g.config.permanent_failure_cooldown < 2 ^ 62
      → let h = (apply_fetch_result subject entry generation (some current) at (err e) g).0 in
        ((entry_at h entry).current ≡ (entry_at g entry).current)
        × ((entry_at h entry).pending ≡ none)
        × (refresh_due_at (entry_at h entry) (entry_at h entry).current later ≡ true
            → tick (entry_at g entry).epoch at.applying + g.config.permanent_failure_cooldown
              ≤ tick (entry_at g entry).epoch later)
  unfolding apply_fetch_result apply_current refreshed replace_pending pending_generation
      refresh_due_at refresh_eligible_at
  refresh_failure_keeps subject entry generation later current at e claimed h =
      (ground arith, ground arith, λ due. ground arith)

module _ {T P : Type 0} (config : Config) (subject : T) (entry generation now : ℕ) where
  waits_on :
      (s : Store P (Lookup T P))
      → (s.entries entry).current.word ≡ word EntryState.pending no_expiry
      → let r = state_at s.next now (s.entries entry) in
        (r.1 ≡ EntryState.pending) × (r.0 ≡ s.entries entry)
  unfolding state_at current_at current_at_loop
  waits_on s h =
      let expired =
        expired-word (s.entries entry).epoch now no_expiry EntryState.pending (omega arith) in
      let decoded = (word_roundtrip EntryState.pending no_expiry (omega arith)).0 in
      (ground (arith, expired, decoded), ground (arith, expired, decoded))

  cooled_down_lem :
      (s : Store P (Lookup T P))
      → (s.entries entry).current.word ≡ word EntryState.pending no_expiry
      → is_some (pending_generation generation (s.entries entry)) ≡ true
      → let e = (cooled_down config subject entry generation now s).entries entry in
        (e.current ≡ (s.entries entry).current)
        × (e.pending
            ≡ some (record {
              generation = suc s.next;
              future = record {
                subject = subject;
                entry = entry;
                delay = some config.permanent_failure_cooldown;
                refresh_from = none;
              };
            }))
  unfolding cooled_down new_fetch_after replace_pending pending_generation
  cooled_down_lem s waits held =
      let seen = waits_on s waits in (ground (arith, seen), ground (arith, seen))

module _ {T : Type 0} {lru : Lru T Slot} {P : Type 0} (g : Gate lru P) where
  -- A first lookup with a generation that was given out, that is still the pending one of an entry
  -- that waits for it, and that fails for good, leaves the entry waiting: for a lookup of another generation that sleeps the configured
  -- cooldown first. The map keeps the entry.
  pub permanent_failure_cools :
      (subject : T) (entry generation : ℕ) (at : Readings) (e : DecisionSourceError)
      → generation < g.store.next
      → (entry_at g entry).current.word ≡ word EntryState.pending no_expiry
      → is_some (pending_generation generation (entry_at g entry)) ≡ true
      → is_permanent_status e ≡ true
      → let h = (apply_fetch_result subject entry generation none at (err e) g).0 in
        ((entry_at h entry).current ≡ (entry_at g entry).current)
        × ((p : PendingFetch (Lookup T P)) × ((entry_at h entry).pending ≡ some p)
            × (p.generation ≢ generation)
            × (p.future.delay ≡ some g.config.permanent_failure_cooldown)
            × (p.future.subject ≡ subject))
        × (h.cache ≡ g.cache)
  unfolding apply_fetch_result apply_current apply_first
  permanent_failure_cools subject entry generation at e old waits held permanent =
      let cooled =
        cooled_down_lem g.config subject entry generation at.applying (took_address g).store waits
          held in
      (
        ground (arith, cooled),
        (
          record {
            generation = suc (suc g.store.next);
            future = record {
              subject = subject;
              entry = entry;
              delay = some g.config.permanent_failure_cooldown;
              refresh_from = none;
            };
          },
          ground (arith, cooled),
          omega arith,
          refl,
          refl,
        ),
        ground arith,
      )
