-- ===== src/Gate/Safety/Rebuilds.antt =====
-- The rebuilds of the published snapshot, src/gate.rs, among the other steps of a gate.
use policy_gate.Prelude.{
  ℕ, suc, ◌≤◌, ◌<◌, ◌≡◌, inl, inr, refl, ◌∙◌, arith, Bool, true, false, not, ◌||◌, Option, none,
  some, List, [], ◌∷◌, Option-cases, is_some, if◌then◌else◌, if_branches,
}
use policy_gate.Metrics.{unary_call, map_hit}
use policy_gate.Store.{run}
use policy_gate.Entry.{Snapshot, PendingFetch, state_at}
use policy_gate.Decision.{Result, ok, err, DecisionSourceError, DecisionChange}
use policy_gate.Lru.{Lru}
use policy_gate.Subjects.{Slot, remove_if, remove, update, get_or_insert_with}
use policy_gate.Gate.{
  Gate, Lookup, published, with_subjects, dirty_if, republish_if_due, claim_republish, copy_map,
  store_republish, emit, publish_empty,
}
use policy_gate.Gate.Publish.{republish_kept}
use policy_gate.Gate.Fetch.{
  Reply, Readings, FetchResult, prepare, apply_first, apply_current, apply_fetch_result, run_fetch,
  report_failure, took_address, lookup_result, forget, give_up,
}
use policy_gate.Gate.Access.{
  access, release, claim, enqueued, check, check_without_refresh, refresh_entry, in_store,
}
use policy_gate.Gate.Admit.{
  Call, Wakeup, create, resolve, join, branch, turn, connect, settle, is_same_stale, result,
  aborted, changed, elapsed,
}
use policy_gate.Gate.Watch.{
  watch_connected, watch_stable, watch_disconnected, drop_watcher, mark_disconnected, apply_change,
  decide,
}
use policy_gate.Gate.Safety.Events.{
  Event, admits, settles, checks, checks_only, refreshes, claims, queued, cancels, fetched,
  connects, stabilises, disconnects, drops, changes, observes, reads, invalidates, react, react_all,
}

module _ {T P : Type 0} where
  -- The steps that empty the published snapshot: the watch opens, fails, or is dropped.
  abbrev pub empties : Event T P → Bool
  empties connects = true
  empties (disconnects now) = true
  empties (drops now) = true
  empties _ = false

  abbrev pub any_empties : List (Event T P) → Bool
  any_empties [] = false
  any_empties (event ∷ events) = empties event || any_empties events

module _ {T : Type 0} {lru : Lru T Slot} {P : Type 0} where
  marked-generation :
      (raised : Bool) (now : ℕ) (g : Gate lru P)
      → (republish_if_due now (dirty_if raised g)).generation ≡ g.generation
  marked-generation raised now g = (republish_kept now (dirty_if raised g)).4 ∙ ground arith

  access-generation :
      (entry : ℕ) (outer : Option ℕ) (now access_time : ℕ) (g : Gate lru P)
      → (access entry outer now access_time g).0.generation ≡ g.generation
  unfolding access
  access-generation entry outer now access_time g = ground arith

  resolve-generation :
      (subject : T) (now later : ℕ) (g : Gate lru P)
      → (resolve subject now later g).0.generation ≡ g.generation
  unfolding resolve
  resolve-generation subject now later g =
      let make = create subject now g.config.refresh_before_expiry in
      let r = get_or_insert_with subject now make g.subjects in
      marked-generation (r.2 || not (is_some (published g subject))) later (with_subjects g r.0)

  branch-generation :
      (call : Call T) (entry now later : ℕ) (g : Gate lru P)
      → (branch call entry now later g).0.generation ≡ g.generation
  unfolding branch join
  branch-generation call entry now later g =
      let seen = (in_store g (run (λ fresh. state_at fresh now) entry g.store)).0 in
      let removal = remove_if call.subject later (is_same_stale entry later) seen.subjects in
      ground (
        arith,
        access-generation entry (some call.deadline) later later (emit map_hit seen),
        marked-generation removal.1 later (with_subjects seen removal.0),
      )

  connect-generation :
      (call : Call T) (now checked later : ℕ) (g : Gate lru P)
      → (connect call now checked later g).0.generation ≡ g.generation
  unfolding connect turn
  connect-generation call now checked later g =
      let r = resolve call.subject now checked g in
      ground (
        arith,
        resolve-generation call.subject now checked g,
        branch-generation call r.1 checked later r.0,
      )

  settle-generation :
      (call : Call T) (entry : ℕ) (wakeup : Wakeup) (now later : ℕ) (g : Gate lru P)
      → (settle call entry wakeup now later g).0.generation ≡ g.generation
  unfolding settle access
  settle-generation call entry aborted now later g = refl
  settle-generation call entry changed now later g = refl
  settle-generation call entry elapsed now later g = ground arith
  settle-generation call entry (result (ok _)) now later g = ground arith
  settle-generation call entry (result (err e)) now later g = ground arith

  apply_first-generation :
      (subject : T) (entry generation now : ℕ) (prepared : Result DecisionSourceError (Snapshot P))
      (g : Gate lru P)
      → (apply_first subject entry generation now prepared g).generation ≡ g.generation
  unfolding apply_first
  apply_first-generation subject entry generation now (ok s) g = refl
  apply_first-generation subject entry generation now (err e) g =
      let removal = remove_if subject now (give_up entry generation) g.subjects in
      ground (arith, marked-generation removal.1 now (with_subjects g removal.0))

  apply_current-generation :
      (subject : T) (entry generation : ℕ) (refresh_from : Option (Snapshot P)) (at : Readings)
      (prepared : Result DecisionSourceError (Snapshot P)) (g : Gate lru P)
      → (apply_current subject entry generation refresh_from at prepared g).generation
        ≡ g.generation
  unfolding apply_current
  apply_current-generation subject entry generation none at prepared g =
      apply_first-generation subject entry generation at.applying prepared g
  apply_current-generation subject entry generation (some current) at prepared g = refl

  report_failure-generation :
      (outcome : FetchResult) (g : Gate lru P)
      → (report_failure outcome g).generation ≡ g.generation
  report_failure-generation (ok _) g = refl
  report_failure-generation (err e) g = ground arith

  run_fetch-generation :
      (fetch : PendingFetch (Lookup T P)) (alive : Bool) (now : ℕ) (at : Readings) (reply : Reply P)
      (g : Gate lru P)
      → (run_fetch fetch alive now at reply g).0.generation ≡ g.generation
  unfolding run_fetch apply_fetch_result
  run_fetch-generation fetch alive now at reply g =
      let called = emit unary_call g in
      let future = fetch.future in
      let result = lookup_result now reply in
      let applied =
        apply_fetch_result future.subject future.entry fetch.generation future.refresh_from at
          result called in
      let kept : applied.0.generation ≡ g.generation = ground (
        arith,
        apply_current-generation future.subject future.entry fetch.generation future.refresh_from at
            (prepare future.entry at result called) (took_address called),
      ) in
      if_branches
        (λ (r : Gate lru P × FetchResult). (report_failure r.1 r.0).generation ≡ g.generation) alive
        (λ held. report_failure-generation applied.1 applied.0 ∙ kept)
        (λ dropped. report_failure-generation (forget result) called)

  apply_change-generation :
      (change : DecisionChange T) (now made_at later : ℕ) (g : Gate lru P)
      → (apply_change change now made_at later g).generation ≡ g.generation
  unfolding apply_change
  apply_change-generation change now made_at later g = elim (Option-cases change.decision) [
    | inl e ↦
        let r = remove change.subject now g.subjects in
        rw (e, apply_change) (marked-generation r.1 later (with_subjects g r.0))
    | inr (decision, e) ↦
        let m = update change.subject now (decide g.config decision made_at) g.subjects in
        rw (e, apply_change) (marked-generation false later (with_subjects g m))
  ]

  react-generation :
      (event : Event T P) (g : Gate lru P)
      → (react event g).generation ≡ (if empties event then suc g.generation else g.generation)
  unfolding react watch_connected watch_stable watch_disconnected drop_watcher publish_empty
      mark_disconnected check check_without_refresh refresh_entry claim enqueued release access
  react-generation (admits call now checked later) g = connect-generation call now checked later g
  react-generation (settles call entry wakeup now later) g =
      settle-generation call entry wakeup now later g
  react-generation (checks subject now touched_at verdict access_time) g = ground arith
  react-generation (checks_only subject now touched_at verdict) g = ground arith
  react-generation (refreshes subject entry touched_at verdict access_time) g = ground arith
  react-generation (claims subject entry current deadline now last) g = ground arith
  react-generation (queued entry fetch true now) g = refl
  react-generation (queued entry fetch false now) g = refl
  react-generation (cancels entry fetch) g = refl
  react-generation (fetched fetch alive now at reply) g =
      run_fetch-generation fetch alive now at reply g
  react-generation connects g = refl
  react-generation stabilises g = refl
  react-generation (disconnects now) g = refl
  react-generation (drops now) g = refl
  react-generation (changes change now made_at later) g =
      apply_change-generation change now made_at later g
  react-generation (observes entry now) g = refl
  react-generation (reads entry now) g = refl
  react-generation (invalidates entry) g = refl

  -- Without a step that empties the snapshot, the generation stays; with one, it rises.
  react_all-generation :
      (events : List (Event T P)) (g : Gate lru P)
      → (any_empties events ≡ false → (react_all events g).generation ≡ g.generation)
        × (any_empties events ≡ true → g.generation < (react_all events g).generation)
        × (g.generation ≤ (react_all events g).generation)
  unfolding react_all
  react_all-generation [] g = (λ h. refl, λ h. absurd (ground arith), omega arith)
  react_all-generation (event ∷ events) g =
      let first = react-generation event g in
      let rest = react_all-generation events (react event g) in
      (
        λ h. ground (arith, first, rest.0),
        λ h. ground (arith, first, rest.1, rest.2),
        ground (arith, first, rest.2),
      )

  -- What is left of a rebuild between whose claim, whose copy of the map and whose end other steps
  -- run: the gate before the end, and the entries.
  abbrev pub rebuilt :
      ℕ → List (Event T P) → List (Event T P) → Gate lru P → Gate lru P × List (T × ℕ)
  rebuilt now first second g =
      let copy = copy_map (react_all first (claim_republish now g).0) in
      (react_all second copy.0, copy.1)

  claimed_at :
      (now claimed : ℕ) (g : Gate lru P)
      → (claim_republish now g).1 ≡ some claimed
      → (claimed ≡ g.generation) × ((claim_republish now g).0.generation ≡ g.generation)
  unfolding claim_republish
  claimed_at now claimed g c = (ground arith, ground arith)

  -- A rebuild of the published snapshot runs in three parts, and any steps of the gate may run
  -- between its claim, its copy of the map and its end. If one of those opens, fails or drops the
  -- watch, then the end of the rebuild leaves the gate as it is, and so it does where the watch is
  -- down by then. Otherwise the published snapshot is the map as it was copied.
  pub store_republish_overtaken :
      (now claimed : ℕ) (first second : List (Event T P)) (g : Gate lru P)
      → (claim_republish now g).1 ≡ some claimed
      → let (later, entries) = rebuilt now first second g in
        let stored = store_republish claimed entries later in
        (any_empties first || any_empties second ≡ true → stored ≡ later)
        × (later.connected ≡ false → stored ≡ later)
        × (any_empties first || any_empties second ≡ false
            → later.connected ≡ true
            → stored.snapshot ≡ entries)
  unfolding store_republish copy_map
  store_republish_overtaken now claimed first second g c =
      let claim = claim_republish now g in
      let at = claimed_at now claimed g c in
      let before = react_all-generation first claim.0 in
      let copied = (copy_map (react_all first claim.0)).0 in
      let after = react_all-generation second copied in
      (
        λ emptied. ground (arith, at.0, at.1, before.1, before.2, after.1, after.2),
        λ down. ground arith,
        λ kept up. ground (arith, at.0, at.1, before.0, after.0),
      )
