-- ===== src/Gate/Fetch.antt =====
-- Lookups of src/gate.rs: `new_fetch_after`, what its future makes of the source's answer, and
-- `apply_fetch_result`.
pub mod Outcome
use Prim.Native.String.{String}
use policy_gate.Prelude.{
  ℕ, suc, ◌+◌, ◌-◌, ◌^◌, min, Bool, false, not, ◌||◌, Option, none, some, leb, ◌==◌, if◌then◌else◌,
  is_some,
}
use policy_gate.Decision.{
  DecisionResult, DecisionSourceError, ErrorKind, Result, ok, err, ◌>>=◌, wire_kind,
  is_permanent_status,
}
use policy_gate.Time.{u64_or}
use policy_gate.Config.{Config}
use policy_gate.Metrics.{unary_call, unary_failure, wire_failure}
use policy_gate.Word.{EntryState, word, no_expiry, same_state}
use policy_gate.Entry.{
  Snapshot, PendingFetch, Entry, tick, is_expired_at, compare_exchange, compare_and_swap, state_at,
  pending_generation, replace_pending,
}
use policy_gate.Lru.{Lru}
use policy_gate.Store.{Store, write, run}
use policy_gate.Subjects.{Slot, remove_if}
use policy_gate.Gate.{
  Gate, Lookup, entry_at, with_store, with_subjects, dirty_if, emit, republish_if_due,
  decision_snapshot,
}

-- What the source gives within the unary timeout. `panicked` stands for a panic of the source.
pub data Reply (P : Type 0) : Type 0 where
  timed_out panicked : Reply P
  answered : Result DecisionSourceError (Option (DecisionResult P)) → Reply P

abbrev pub transient_error : {A : Type 0} → String → Result DecisionSourceError A
transient_error message = err (record { kind = ErrorKind.transient; message = message })

abbrev pub FetchResult : Type 0
FetchResult = Result DecisionSourceError (Unit {0})

abbrev pub forget : {A : Type 0} → Result DecisionSourceError A → FetchResult
forget (ok _) = ok tt
forget (err e) = err e

abbrev pub past : ℕ → Option ℕ → Bool
past now none = false
past now (some deadline) = leb deadline now

module _ {P : Type 0} where
  abbrev pub held : Option (DecisionResult P) → Result DecisionSourceError (DecisionResult P)
  held none = transient_error "decision source holds no decision for the subject"
  held (some r) = ok r

  -- The future's body up to the point where it applies the result, at `now`.
  unfoldable pub lookup_result : ℕ → Reply P → Result DecisionSourceError (DecisionResult P)
  lookup_result now timed_out = transient_error "subject state lookup timed out"
  lookup_result now panicked = transient_error "decision source panicked"
  lookup_result now (answered reply) = do
    r ← (do o ← reply; held o)
    if past now r.valid_until
        then transient_error "decision source returned an expired decision"
        else ok r

  -- The snapshot that a failed first lookup puts in place of `Pending`.
  abbrev pub failed_snapshot : ℕ → Snapshot P
  failed_snapshot fresh = record {
    addr = fresh;
    word = word EntryState.stale no_expiry;
    payload = none;
    refresh_after = 0;
  }

-- `u64::saturating_add`
abbrev pub saturating_add : ℕ → ℕ → ℕ
saturating_add a b = min (a + b) (2 ^ 64 - 1)

-- The three instants at which `apply_fetch_result` reads the clock: for the snapshot's deadline,
-- for its validity, and in the branch that it takes.
pub record Readings : Type 0 where
  pub making : ℕ
  pub checking : ℕ
  pub applying : ℕ

module _ {T : Type 0} {P : Type 0} where
  -- `new_fetch_after`: the fetch gets a generation of its own.
  unfoldable pub new_fetch_after :
      ℕ
      → T
      → Option ℕ
      → Option (Snapshot P)
      → Store P (Lookup T P)
      → Store P (Lookup T P) × PendingFetch (Lookup T P)
  new_fetch_after entry subject delay refresh_from s = (
    record s { next = suc s.next },
    record {
      generation = s.next;
      future = record {
        subject = subject;
        entry = entry;
        delay = delay;
        refresh_from = refresh_from;
      };
    },
  )

  -- A refresh that has ended: the new snapshot replaces the one that it started from, if that is
  -- still in place and has not expired; a failure starts the cooldown.
  unfoldable pub refreshed :
      Config
      → Readings
      → Snapshot P
      → Result DecisionSourceError (Snapshot P)
      → Entry P (Lookup T P)
      → Entry P (Lookup T P)
  unfolding compare_and_swap
  refreshed config at current (ok s) e =
      if not (is_expired_at e.epoch current.word at.checking)
      then record e { current = compare_and_swap e.current current s }
      else e
  refreshed config at current (err _) e = record e {
    refresh_not_before =
        saturating_add (tick e.epoch at.applying)
          (u64_or (2 ^ 64 - 1) config.permanent_failure_cooldown);
  }

  -- A first lookup that gave a snapshot: it stands unless a watch event came first.
  unfoldable pub resolved : ℕ → Snapshot P → Entry P (Lookup T P) → Entry P (Lookup T P)
  unfolding compare_exchange replace_pending
  resolved generation s e =
      let r = compare_exchange EntryState.pending s e in
      elim r.1 [ none ↦ (replace_pending generation none r.0).0 | some _ ↦ r.0 ]

  -- A first lookup that failed for good: an entry that still waits gets a lookup that sleeps first.
  unfoldable pub cooled_down : Config → T → ℕ → ℕ → ℕ → Store P (Lookup T P) → Store P (Lookup T P)
  unfolding state_at new_fetch_after replace_pending
  cooled_down config subject entry generation now s =
      let seen = run (λ fresh. state_at fresh now) entry s in
      let made =
        new_fetch_after entry subject (some config.permanent_failure_cooldown) none seen.0 in
      if same_state seen.1 EntryState.pending
      then record made.0 {
        entries =
            write entry (replace_pending generation (some made.1) (made.0.entries entry)).0
              made.0.entries;
      }
      else seen.0

  -- The predicate of the removal after a failed first lookup.
  unfoldable pub give_up : ℕ → ℕ → ℕ → Store P (Lookup T P) → Store P (Lookup T P) × Bool
  unfolding compare_exchange pending_generation
  give_up entry generation current s =
      if not (current == entry) || not (is_some (pending_generation generation (s.entries current)))
      then (s, false)
      else let r =
          run (λ fresh. compare_exchange EntryState.pending (failed_snapshot fresh)) entry s in
        (r.0, not (is_some r.1))

module _ {T : Type 0} {lru : Lru T Slot} {P : Type 0} where
  -- The prepared snapshot, or why there is none. Its address is the store's next one.
  unfoldable pub prepare :
      ℕ
      → Readings
      → Result DecisionSourceError (DecisionResult P)
      → Gate lru P
      → Result DecisionSourceError (Snapshot P)
  unfolding decision_snapshot
  prepare entry at result g = do
    r ← result
    let s = decision_snapshot g.config g.store.next at.making (entry_at g entry) r
    if is_expired_at (entry_at g entry).epoch s.word at.checking
        then transient_error "decision expired before publication"
        else ok s

  -- The end of `apply_fetch_result`, for a first lookup.
  unfoldable pub apply_first :
      T → ℕ → ℕ → ℕ → Result DecisionSourceError (Snapshot P) → Gate lru P → Gate lru P
  unfolding resolved cooled_down is_permanent_status
  apply_first subject entry generation now (ok s) g = with_store g (record g.store {
    entries = write entry (resolved generation s (entry_at g entry)) g.store.entries;
  })
  apply_first subject entry generation now (err e) g =
      let removal = remove_if subject now (give_up entry generation) g.subjects in
      if is_permanent_status e
      then with_store g (cooled_down g.config subject entry generation now g.store)
      else republish_if_due now (dirty_if removal.1 (with_subjects g removal.0))

  abbrev pub took_address : Gate lru P → Gate lru P
  took_address g = with_store g (record g.store { next = suc g.store.next })

  -- The end of `apply_fetch_result`, for a lookup that is still the pending one.
  unfoldable pub apply_current :
      T
      → ℕ
      → ℕ
      → Option (Snapshot P)
      → Readings
      → Result DecisionSourceError (Snapshot P)
      → Gate lru P
      → Gate lru P
  unfolding refreshed replace_pending apply_first
  apply_current subject entry generation none at prepared g =
      apply_first subject entry generation at.applying prepared g
  apply_current subject entry generation (some current) at prepared g =
      let e = refreshed g.config at current prepared (entry_at g entry) in
      with_store g (record g.store {
        entries = write entry (replace_pending generation none e).0 g.store.entries;
      })

  unfoldable pub apply_fetch_result :
      T
      → ℕ
      → ℕ
      → Option (Snapshot P)
      → Readings
      → Result DecisionSourceError (DecisionResult P)
      → Gate lru P
      → Gate lru P × FetchResult
  unfolding prepare apply_current pending_generation
  apply_fetch_result subject entry generation refresh_from at result g =
      let prepared = prepare entry at result g in
      if is_some (pending_generation generation (entry_at g entry))
      then (
        apply_current subject entry generation refresh_from at prepared (took_address g),
        forget prepared,
      )
      else (g, forget result)

  abbrev pub report_failure : FetchResult → Gate lru P → Gate lru P
  report_failure (ok _) g = g
  report_failure (err e) g =
      emit unary_failure (if wire_kind e.kind then emit wire_failure g else g)

  -- The future of a fetch, from the source's answer on. `held` says whether the gate and the entry
  -- are still there. An aborted future does not get this far.
  unfoldable pub run_fetch :
      PendingFetch (Lookup T P)
      → Bool
      → ℕ
      → Readings
      → Reply P
      → Gate lru P
      → Gate lru P × FetchResult
  unfolding lookup_result apply_fetch_result
  run_fetch fetch alive now at reply g =
      let result = lookup_result now reply in
      let called = emit unary_call g in
      let future = fetch.future in
      let r =
        if alive
        then apply_fetch_result future.subject future.entry fetch.generation future.refresh_from at
            result called
        else (called, forget result) in
      (report_failure r.1 r.0, r.1)
