-- ===== src/Gate/Safety/Changes.antt =====
-- Lookup results, watch events and methods of handles of src/gate.rs keep every entry that is not
-- stale in the map.
use policy_gate.Prelude.{
  ℕ, ◌≡◌, inl, inr, refl, arith, Bool, true, false, Option, none, some, if◌then◌else◌, Option-cases,
  if_branches, is_some, [],
}
use policy_gate.Decision.{Result, ok, err, DecisionResult, DecisionChange, DecisionSourceError}
use policy_gate.Config.{Config}
use policy_gate.Metrics.{unary_call}
use policy_gate.Word.{EntryState}
use policy_gate.Entry.{
  Entry, Snapshot, PendingFetch, compare_exchange, compare_and_swap, pending_generation,
}
use policy_gate.Entry.Liveness.{is_live, compare_exchange-tame, replace_pending-tame}
use policy_gate.Store.Liveness.{live_at}
use policy_gate.Lru.{Lru}
use policy_gate.Subjects.{Slot, remove_if}
use policy_gate.Subjects.Coverage.Operations.{
  remove_if-Covered, remove-Covered, update-Covered, clear_all-silences,
}
use policy_gate.Gate.{Gate, Lookup, entry_at, with_subjects, dirty_if, emit, publish_empty}
use policy_gate.Gate.Fetch.{
  forget, prepare, Reply, Readings, resolved, refreshed, give_up, apply_first, apply_current,
  apply_fetch_result, run_fetch, took_address, lookup_result, report_failure, FetchResult,
}
use policy_gate.Gate.Watch.{decide, watch_connected, watch_disconnected, drop_watcher, apply_change}
use policy_gate.Gate.Safety.{cooled_down-Tame, give_up-Judges, decide-ChangesOne}
use policy_gate.Gate.Safety.Reads.{AllListed, republish-AllListed, dirty_if-AllListed}

module _ {T P : Type 0} where
  resolved-tame :
      (generation : ℕ) (s : Snapshot P) (e : Entry P (Lookup T P))
      → is_live (resolved generation s e) ≡ true
      → is_live e ≡ true
  unfolding resolved
  resolved-tame generation s e live = ground (
    arith,
    compare_exchange-tame e EntryState.pending s refl,
    replace_pending-tame (compare_exchange EntryState.pending s e).0 generation none,
  )

  refreshed-tame :
      (config : Config) (at : Readings) (current : Snapshot P)
      (prepared : Result DecisionSourceError (Snapshot P)) (e : Entry P (Lookup T P))
      → (e.current.addr ≡ current.addr → is_live e ≡ true)
      → is_live (refreshed config at current prepared e) ≡ true
      → is_live e ≡ true
  unfolding refreshed compare_and_swap
  refreshed-tame config at current (ok s) e same live = ground arith
  refreshed-tame config at current (err f) e same live = ground arith

  -- Where an entry still holds the snapshot that a refresh started from, it is not stale.
  abbrev pub StartsLive : Option (Snapshot P) → Entry P (Lookup T P) → Type 0
  StartsLive none e = Unit {0}
  StartsLive (some current) e = e.current.addr ≡ current.addr → is_live e ≡ true

module _ {T : Type 0} {lru : Lru T Slot} {P : Type 0} where
  apply_first-AllListed :
      (subject : T) (entry generation now : ℕ) (prepared : Result DecisionSourceError (Snapshot P))
      (g : Gate lru P)
      → AllListed g
      → AllListed (apply_first subject entry generation now prepared g)
  unfolding apply_first
  apply_first-AllListed subject entry generation now (ok s) g c =
      λ a live. ground (arith, c a, resolved-tame generation s (entry_at g entry))
  apply_first-AllListed subject entry generation now (err e) g c = λ a live.
      let removal = remove_if subject now (give_up entry generation) g.subjects in
      let removed =
        remove_if-Covered subject now (give_up entry generation) g.subjects
          (give_up-Judges entry generation) c in
      let dropped = dirty_if removal.1 (with_subjects g removal.0) in
      ground (
        arith,
        c a,
        cooled_down-Tame g.config subject entry generation now g.store a,
        republish-AllListed now dropped (dirty_if-AllListed removal.1 _ removed) a,
      )

  apply_current-AllListed :
      (subject : T) (entry generation : ℕ) (refresh_from : Option (Snapshot P)) (at : Readings)
      (prepared : Result DecisionSourceError (Snapshot P)) (g : Gate lru P)
      → StartsLive refresh_from (entry_at g entry)
      → AllListed g
      → AllListed (apply_current subject entry generation refresh_from at prepared g)
  unfolding apply_current
  apply_current-AllListed subject entry generation none at prepared g starts c =
      apply_first-AllListed subject entry generation at.applying prepared g c
  apply_current-AllListed subject entry generation (some current) at prepared g starts c = λ a live.
      let e = refreshed g.config at current prepared (entry_at g entry) in
      ground (
        arith,
        c a,
        refreshed-tame g.config at current prepared (entry_at g entry) starts,
        replace_pending-tame e generation none,
      )

  pub apply_fetch_result-AllListed :
      (subject : T) (entry generation : ℕ) (refresh_from : Option (Snapshot P)) (at : Readings)
      (result : Result DecisionSourceError (DecisionResult P)) (g : Gate lru P)
      → (is_some (pending_generation generation (entry_at g entry)) ≡ true
          → StartsLive refresh_from (entry_at g entry))
      → AllListed g
      → AllListed (apply_fetch_result subject entry generation refresh_from at result g).0
  unfolding apply_fetch_result
  apply_fetch_result-AllListed subject entry generation refresh_from at result g starts c =
      let prepared = prepare entry at result g in
      if_branches (λ (r : Gate lru P × FetchResult). AllListed r.0)
        (is_some (pending_generation generation (entry_at g entry)))
        (λ claimed.
          apply_current-AllListed subject entry generation refresh_from at prepared (took_address g)
            (starts claimed) c)
        (λ overtaken. c)

  report_failure-AllListed :
      (outcome : FetchResult) (g : Gate lru P) → AllListed g → AllListed (report_failure outcome g)
  report_failure-AllListed (ok _) g c = c
  report_failure-AllListed (err e) g c = λ a live. ground (arith, c a)

  pub run_fetch-AllListed :
      (fetch : PendingFetch (Lookup T P)) (alive : Bool) (now : ℕ) (at : Readings) (reply : Reply P)
      (g : Gate lru P)
      → (is_some (pending_generation fetch.generation (entry_at g fetch.future.entry)) ≡ true
          → StartsLive fetch.future.refresh_from (entry_at g fetch.future.entry))
      → AllListed g
      → AllListed (run_fetch fetch alive now at reply g).0
  unfolding run_fetch
  run_fetch-AllListed fetch alive now at reply g starts c =
      let called = emit unary_call g in
      let future = fetch.future in
      let result = lookup_result now reply in
      let applied =
        apply_fetch_result-AllListed future.subject future.entry fetch.generation
          future.refresh_from at result called starts c in
      elim alive
        as (λ b.
          let r =
            if b
            then apply_fetch_result future.subject future.entry fetch.generation future.refresh_from
                at result called
            else (called, forget result) in
          AllListed (report_failure r.1 r.0)) [
            | true ↦
                let r =
                  apply_fetch_result future.subject future.entry fetch.generation
                    future.refresh_from at result called in
                report_failure-AllListed r.1 r.0 applied
            | false ↦ report_failure-AllListed (forget result) called c
          ]

  pub apply_change-AllListed :
      (change : DecisionChange T) (now made_at later : ℕ) (g : Gate lru P)
      → AllListed g
      → AllListed (apply_change change now made_at later g)
  unfolding apply_change
  apply_change-AllListed change now made_at later g c = elim (Option-cases change.decision) [
    | inl e ↦
        rw (e, apply_change)
          (republish-AllListed later _
            (dirty_if-AllListed _ _ (remove-Covered change.subject now g.subjects c)))
    | inr (decision, e) ↦
        rw (e, apply_change)
          (republish-AllListed later _ (
            update-Covered change.subject now (decide g.config decision made_at) g.subjects
              (decide-ChangesOne g.config decision made_at) c))
  ]

  -- When the watch opens, when it fails and when the watcher is dropped, no entry in memory is left
  -- that is not stale, whoever holds it; the map and the published snapshot are empty.
  pub watch_disconnected-silences :
      (now a : ℕ) (g : Gate lru P)
      → AllListed g
      → ((live_at (watch_disconnected now g).store a ≡ false)
          × (lru.items (watch_disconnected now g).cache ≡ [])
          × ((watch_disconnected now g).snapshot ≡ []))
        × ((live_at (watch_connected g).store a ≡ false)
            × (lru.items (watch_connected g).cache ≡ [])
            × ((watch_connected g).snapshot ≡ []))
        × (live_at (drop_watcher now g).store a ≡ false)
  unfolding watch_disconnected watch_connected drop_watcher publish_empty
  watch_disconnected-silences now a g c =
      let dead = clear_all-silences g.subjects a c in
      let empty = lru.clear_items g.cache in ((dead, empty, refl), (dead, empty, refl), dead)
