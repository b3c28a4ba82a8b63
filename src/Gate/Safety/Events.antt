-- ===== src/Gate/Safety/Events.antt =====
-- What runs on a gate of src/gate.rs between two awaits of its callers, of the lookups, of the
-- watcher and of the handles.
use policy_gate.Prelude.{ℕ, ◌≡◌, Bool, some, List, [], ◌∷◌}
use policy_gate.Decision.{DecisionChange}
use policy_gate.Entry.{Snapshot, PendingFetch}
use policy_gate.Lru.{Lru}
use policy_gate.Subjects.{Slot}
use policy_gate.Admission.{observe, invalidate}
use policy_gate.Admission.{check as check_handle}
use policy_gate.Gate.{Gate, Lookup, entry_at, with_store}
use policy_gate.Gate.Fetch.{Reply, Readings, run_fetch}
use policy_gate.Gate.Access.{
  claim, enqueued, cancelled, check, check_without_refresh, refresh_entry,
}
use policy_gate.Gate.Admit.{Call, Wakeup, connect, settle}
use policy_gate.Gate.Watch.{
  watch_connected, watch_stable, watch_disconnected, drop_watcher, apply_change,
}
use policy_gate.Gate.Safety.Origins.Reads.{IsOne}

-- One step, with the instants that it reads. A step of `admit` starts when the watch is up or when
-- its wait for a lookup ends; one of a refresh claims its entry, is queued, or is dropped; a lookup
-- applies its result; the watcher reports its connection or a change; a handle reads its entry or
-- invalidates it.
pub data Event (T P : Type 0) : Type 0 where
  admits : Call T → ℕ → ℕ → ℕ → Event T P
  settles : Call T → ℕ → Wakeup → ℕ → ℕ → Event T P
  checks : T → ℕ → ℕ → ℕ → ℕ → Event T P
  checks_only : T → ℕ → ℕ → ℕ → Event T P
  refreshes : T → ℕ → ℕ → ℕ → ℕ → Event T P
  claims : T → ℕ → Snapshot P → ℕ → ℕ → ℕ → Event T P
  queued : ℕ → PendingFetch (Lookup T P) → Bool → ℕ → Event T P
  cancels : ℕ → PendingFetch (Lookup T P) → Event T P
  fetched : PendingFetch (Lookup T P) → Bool → ℕ → Readings → Reply P → Event T P
  connects stabilises : Event T P
  disconnects drops : ℕ → Event T P
  changes : DecisionChange T → ℕ → ℕ → ℕ → Event T P
  observes reads : ℕ → ℕ → Event T P
  invalidates : ℕ → Event T P

module _ {T : Type 0} {lru : Lru T Slot} {P : Type 0} where
  unfoldable pub react : Event T P → Gate lru P → Gate lru P
  react (admits call now checked later) g = (connect call now checked later g).0
  react (settles call entry wakeup now later) g = (settle call entry wakeup now later g).0
  react (checks subject now touched_at verdict access_time) g =
      (check subject now touched_at verdict access_time g).0
  react (checks_only subject now touched_at verdict) g =
      (check_without_refresh subject now touched_at verdict g).0
  react (refreshes subject entry touched_at verdict access_time) g =
      (refresh_entry subject entry touched_at verdict access_time g).0
  react (claims subject entry current deadline now last) g =
      (claim subject entry current deadline now last g).0
  react (queued entry fetch taken now) g = (enqueued entry fetch taken now g).0
  react (cancels entry fetch) g = cancelled entry fetch g
  react (fetched fetch alive now at reply) g = (run_fetch fetch alive now at reply g).0
  react connects g = watch_connected g
  react stabilises g = watch_stable g
  react (disconnects now) g = watch_disconnected now g
  react (drops now) g = drop_watcher now g
  react (changes change now made_at later) g = apply_change change now made_at later g
  react (observes entry now) g = with_store g (observe entry now g.store).0
  react (reads entry now) g = with_store g (check_handle entry now g.store).0
  react (invalidates entry) g = with_store g (invalidate entry g.store)

  unfoldable pub react_all : List (Event T P) → Gate lru P → Gate lru P
  react_all [] g = g
  react_all (event ∷ events) g = react_all events (react event g)

  -- An `Arc` that a step holds names one snapshot, and one fetch: a claim's snapshot is the entry's
  -- where it has its address, and a lookup is the entry's pending one where it has its generation.
  abbrev pub IsKnown : Event T P → Gate lru P → Type 0
  IsKnown (claims subject entry current deadline now last) g =
      IsOne (entry_at g entry).current current
  IsKnown (fetched fetch alive now at reply) g =
      (p : PendingFetch (Lookup T P))
      → (entry_at g fetch.future.entry).pending ≡ some p
      → p.generation ≡ fetch.generation
      → p ≡ fetch
  IsKnown _ g = Unit {0}

  abbrev pub AllKnown : List (Event T P) → Gate lru P → Type 0
  AllKnown [] g = Unit {0}
  AllKnown (event ∷ events) g = IsKnown event g × AllKnown events (react event g)
