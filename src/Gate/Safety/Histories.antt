-- ===== src/Gate/Safety/Histories.antt =====
-- Whole histories of a gate, src/gate.rs: what runs between two awaits of its callers, of the
-- lookups, of the watcher and of the handles, in any order.
use policy_gate.Prelude.{
  ℕ, ◌≡◌, arith, false, none, some, true, refl, subst, Option, is_some, Option-cases, inl, inr,
  List, [], ◌∷◌,
}
use policy_gate.Entry.{Entry, Snapshot, PendingFetch, observed_at, pending_generation}
use policy_gate.Entry.Liveness.{is_live, current_at-tame, observed_at-tame}
use policy_gate.Store.Liveness.{run-Tame, invalidate_at-tame}
use policy_gate.Lru.{Lru}
use policy_gate.Subjects.{Slot}
use policy_gate.Admission.{AdmissionState, observe, reading, is_allowed, payload, state, admission}
use policy_gate.Admission.Checks.{dead_denies}
use policy_gate.Admission.{check as check_handle}
use policy_gate.Config.{Config}
use policy_gate.Word.{word, decode_entry_state}
use policy_gate.Store.{no_memory}
use policy_gate.Gate.{Gate, Lookup, entry_at, new}
use policy_gate.Gate.Watch.{watch_stable, watch_disconnected}
use policy_gate.Gate.Safety.Reads.{
  AllListed, claim-AllListed, release-AllListed, enqueued-AllListed, check-AllListed,
  check_without_refresh-AllListed, refresh_entry-AllListed,
}
use policy_gate.Gate.Safety.Admits.{connect-AllListed, settle-AllListed}
use policy_gate.Gate.Safety.Events.{
  Event, admits, settles, checks, checks_only, refreshes, claims, queued, cancels, fetched,
  connects, stabilises, disconnects, drops, changes, observes, reads, invalidates, react, react_all,
  IsKnown, AllKnown,
}
use policy_gate.Gate.Safety.Origins.{Traced}
use policy_gate.Gate.Safety.Origins.Histories.{AllTraced, react-AllTraced, new-AllTraced}
use policy_gate.Gate.Safety.Changes.{
  StartsLive, run_fetch-AllListed, apply_change-AllListed, watch_disconnected-silences,
}

pub new-AllListed :
    {T : Type 0} (lru : Lru T Slot) (P : Type 0) (config : Config) (now : ℕ)
    → AllListed (new {lru = lru} {P = P} config now no_memory)
unfolding new word decode_entry_state
new-AllListed lru P config now a live = absurd (ground arith)

started_from :
    {T P : Type 0} (e : Entry P (Lookup T P)) (from : Option (Snapshot P))
    → ((s : Snapshot P) → from ≡ some s → e.current.addr ≡ s.addr → is_live e ≡ true)
    → StartsLive from e
started_from e none live = tt
started_from e (some s) live = live s refl

module _ {T : Type 0} {lru : Lru T Slot} {P : Type 0} where
  -- The pending lookup of an entry started from a snapshot that is not stale if it is in place.
  starts_live :
      (fetch : PendingFetch (Lookup T P)) (g : Gate lru P)
      → ((p : PendingFetch (Lookup T P))
          → (entry_at g fetch.future.entry).pending ≡ some p
          → p.generation ≡ fetch.generation
          → p ≡ fetch)
      → Traced g.store.next (entry_at g fetch.future.entry)
      → is_some (pending_generation fetch.generation (entry_at g fetch.future.entry)) ≡ true
      → StartsLive fetch.future.refresh_from (entry_at g fetch.future.entry)
  unfolding pending_generation
  starts_live fetch g names t claimed = elim (Option-cases e.pending) [
    | inl idle ↦ absurd (ground arith)
    | inr (p, waits) ↦
        let same = names p waits (ground arith) in
        subst (λ (f : PendingFetch (Lookup T P)). StartsLive f.future.refresh_from e) same
          (started_from e p.future.refresh_from (λ s from. (t.1 p s waits from).1))
  ]
    where
      e : Entry P (Lookup T P)
      e = entry_at g fetch.future.entry

  react-AllListed :
      (event : Event T P) (g : Gate lru P)
      → IsKnown event g
      → AllTraced g
      → AllListed g
      → AllListed (react event g)
  unfolding react watch_stable observe check_handle
  react-AllListed (admits call now checked later) g k t c =
      connect-AllListed call now checked later g c
  react-AllListed (settles call entry wakeup now later) g k t c =
      settle-AllListed call entry wakeup now later g c
  react-AllListed (checks subject now touched_at verdict access_time) g k t c =
      check-AllListed subject now touched_at verdict access_time g c
  react-AllListed (checks_only subject now touched_at verdict) g k t c =
      check_without_refresh-AllListed subject now touched_at verdict g c
  react-AllListed (refreshes subject entry touched_at verdict access_time) g k t c =
      refresh_entry-AllListed subject entry touched_at verdict access_time g c
  react-AllListed (claims subject entry current deadline now last) g k t c =
      claim-AllListed subject entry current deadline now last g c
  react-AllListed (queued entry fetch taken now) g k t c =
      enqueued-AllListed entry fetch taken now g c
  react-AllListed (cancels entry fetch) g k t c = release-AllListed entry fetch.generation g c
  react-AllListed (fetched fetch alive now at reply) g k t c =
      run_fetch-AllListed fetch alive now at reply g
        (λ claimed. starts_live fetch g k (t fetch.future.entry) claimed) c
  react-AllListed connects g k t c =
      λ a live. absurd (ground (arith, (watch_disconnected-silences 0 a g c).1.0))
  react-AllListed stabilises g k t c = c
  react-AllListed (disconnects now) g k t c =
      λ a live. absurd (ground (arith, (watch_disconnected-silences now a g c).0.0))
  react-AllListed (drops now) g k t c =
      λ a live. absurd (ground (arith, (watch_disconnected-silences now a g c).2))
  react-AllListed (changes change now made_at later) g k t c =
      apply_change-AllListed change now made_at later g c
  react-AllListed (observes entry now) g k t c = λ a live. c a (
      run-Tame (λ fresh. observed_at fresh now) entry g.store
        (observed_at-tame g.store.next (entry_at g entry) now) a live)
  react-AllListed (reads entry now) g k t c = λ a live. c a (
      run-Tame (reading now) entry g.store (current_at-tame g.store.next (entry_at g entry) now) a
        live)
  react-AllListed (invalidates entry) g k t c =
      λ a live. c a (invalidate_at-tame entry g.store a live).0

  pub react_all-AllListed :
      (events : List (Event T P)) (g : Gate lru P)
      → AllKnown events g
      → AllTraced g
      → AllListed g
      → AllListed (react_all events g)
  unfolding react_all
  react_all-AllListed [] g k t c = c
  react_all-AllListed (event ∷ events) g k t c =
      react_all-AllListed events (react event g) k.1 (react-AllTraced event g k.0 t)
        (react-AllListed event g k.0 t c)

-- However a gate has run since it was made, once its watch fails no handle is left that answers:
-- whatever entry it is on, it is not allowed, has no payload, reads as stale, and no new handle
-- can be made of that entry; no subject is in the map or in the published snapshot. That holds
-- as long as each address names one snapshot and each generation one fetch.
pub disconnection_denies :
    {T : Type 0} (lru : Lru T Slot) (P : Type 0) (events : List (Event T P)) (config : Config)
    (made_at failed_at entry now : ℕ)
    → let g : Gate lru P = new config made_at no_memory in
      AllKnown events g
      → let h = watch_disconnected failed_at (react_all events g) in
        ((is_allowed entry now h.store).1 ≡ some false)
        × ((payload entry now h.store).1 ≡ none)
        × ((state entry now h.store).1 ≡ some AdmissionState.stale)
        × ((admission entry now h.store).1 ≡ none)
        × (lru.items h.cache ≡ [])
        × (h.snapshot ≡ [])
disconnection_denies lru P events config made_at failed_at entry now known =
    let g : Gate lru P = new config made_at no_memory in
    let h = watch_disconnected failed_at (react_all events g) in
    let listed =
      react_all-AllListed events g known (new-AllTraced lru P config made_at)
        (new-AllListed lru P config made_at) in
    let silent = (watch_disconnected-silences failed_at entry (react_all events g) listed).0 in
    let denied = dead_denies entry now h.store silent.0 in
    (denied.1, denied.3, denied.0, denied.4, silent.1, silent.2)
