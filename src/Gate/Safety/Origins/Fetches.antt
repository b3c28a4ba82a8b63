-- ===== src/Gate/Safety/Origins/Fetches.antt =====
-- Whole lookups and watch changes, src/gate.rs, and the origins of what the entries hold.
use policy_gate.Prelude.{
  ℕ, suc, ◌≡◌, inl, inr, refl, ap, ◌∙◌, arith, Bool, true, Option, none, some, Option-cases,
  Bool-cases, ◌⊎◌, false, if_branches, is_some,
}
use policy_gate.Decision.{
  Decision, Result, ok, err, DecisionResult, DecisionChange, DecisionSourceError,
  is_permanent_status,
}
use policy_gate.Metrics.{unary_call}
use policy_gate.Entry.{is_expired_at, Snapshot, PendingFetch, replace_pending, pending_generation}
use policy_gate.Lru.{Lru, find}
use policy_gate.Subjects.{Slot, remove_if, remove}
use policy_gate.Subjects.Journeys.{remove_if-Goes, update-Goes, remove-Goes}
use policy_gate.Gate.{Gate, Lookup, entry_at, with_subjects, emit, decision_snapshot}
use policy_gate.Gate.Freshness.{decision_snapshot_lem}
use policy_gate.Gate.Fetch.{
  forget, prepare, Reply, answered, Readings, resolved, refreshed, give_up, apply_first,
  apply_current, apply_fetch_result, run_fetch, took_address, lookup_result, report_failure,
  FetchResult,
}
use policy_gate.Gate.Watch.{decide, apply_change}
use policy_gate.Gate.Safety.Origins.{
  allowed_word, allowed_at, Turns, Moves, moves, Moves-rests, Moves-joins, write-Moves,
}
use policy_gate.Gate.Safety.Origins.Reads.{republish-Moves, dirty_if-Moves, ages-Moves}
use policy_gate.Gate.Safety.Origins.Lookups.{
  cooled_down-Moves, decide-Moves, give_up-Moves, refreshed-Turns, resolved-Turns,
}

-- The source's answer allows.
abbrev pub Allows : {P : Type 0} → Reply P → Type 0
Allows {P} reply =
    (r : DecisionResult P) × (reply ≡ answered (ok (some r))) × (r.decision ≡ Decision.allowed)

lookup_result-ok :
    {P : Type 0} (now : ℕ) (reply : Reply P) (r : DecisionResult P)
    → lookup_result now reply ≡ ok r
    → reply ≡ answered (ok (some r))
unfolding lookup_result
lookup_result-ok now reply r h = ground arith

-- The result allows, and the snapshot that is made of it has not expired when it is checked.
abbrev pub IsFit :
    {T : Type 0} {lru : Lru T Slot} {P : Type 0}
    → ℕ
    → Readings
    → Result DecisionSourceError (DecisionResult P)
    → Gate lru P
    → DecisionResult P
    → Type 0
IsFit entry at result g r =
    let made = decision_snapshot g.config g.store.next at.making (entry_at g entry) r in
    (result ≡ ok r)
    × (r.decision ≡ Decision.allowed)
    × (is_expired_at (entry_at g entry).epoch made.word at.checking ≡ false)

module _ {T : Type 0} {lru : Lru T Slot} {P : Type 0} (Says : ℕ → Type 0) where
  -- What a prepared snapshot may be.
  abbrev Given : ℕ → Result DecisionSourceError (Snapshot P) → Gate lru P → Type 0
  Given entry prepared g =
      (s : Snapshot P)
      → prepared ≡ ok s
      → (s.addr ≡ g.store.next) × (allowed_word s.word ≡ true → Says entry)

  apply_first-Moves :
      (subject : T) (entry generation now : ℕ) (prepared : Result DecisionSourceError (Snapshot P))
      (g : Gate lru P)
      → Given entry prepared g
      → Moves Says g.store
          (apply_first subject entry generation now prepared (took_address g)).store
  unfolding apply_first
  apply_first-Moves subject entry generation now (ok s) g given =
      let gave = given s refl in
      write-Moves Says entry (resolved generation s (entry_at g entry)) (suc g.store.next)
        g.store.aborted g.store (omega arith)
        (resolved-Turns (Says entry) g.store.next generation s (entry_at g entry) gave.0 gave.1)
  apply_first-Moves subject entry generation now (err e) g given =
      let h = took_address g in
      let aged = ages-Moves Says g.store in
      let removal = remove_if subject now (give_up entry generation) h.subjects in
      let removed = Moves-joins Says g.store h.store _ aged (
        remove_if-Goes (moves Says) subject now (give_up entry generation) h.subjects
          (give_up-Moves Says entry generation)) in
      if_branches (λ (r : Gate lru P). Moves Says g.store r.store) (is_permanent_status e)
        (λ permanent.
          Moves-joins Says g.store h.store _ aged
            (cooled_down-Moves Says h.config subject entry generation now h.store))
        (λ transient.
          republish-Moves Says g.store now _
            (dirty_if-Moves Says g.store removal.1 (with_subjects h removal.0) removed))

  apply_current-Moves :
      (subject : T) (entry generation : ℕ) (refresh_from : Option (Snapshot P)) (at : Readings)
      (prepared : Result DecisionSourceError (Snapshot P)) (g : Gate lru P)
      → is_some (pending_generation generation (entry_at g entry)) ≡ true
      → Given entry prepared g
      → Moves Says g.store
          (apply_current subject entry generation refresh_from at prepared (took_address g)).store
  unfolding apply_current
  apply_current-Moves subject entry generation none at prepared g claimed given =
      apply_first-Moves subject entry generation at.applying prepared g given
  apply_current-Moves subject entry generation (some current) at prepared g claimed given =
      write-Moves Says entry
        (replace_pending generation none
          (refreshed g.config at current prepared (entry_at g entry))).0
        (suc g.store.next) g.store.aborted g.store (omega arith)
        (refreshed-Turns (Says entry) g.store.next generation g.config at current prepared
          (entry_at g entry) claimed given)

  prepare-Given :
      (entry : ℕ) (at : Readings) (result : Result DecisionSourceError (DecisionResult P))
      (g : Gate lru P)
      → ((r : DecisionResult P) → IsFit entry at result g r → Says entry)
      → Given entry (prepare entry at result g) g
  unfolding prepare decision_snapshot
  prepare-Given entry at (err e) g said s made = absurd (ground arith)
  prepare-Given entry at (ok r) g said s made =
      let snapshot = decision_snapshot g.config g.store.next at.making (entry_at g entry) r in
      let same : snapshot ≡ s = ground arith in
      let reads = (decision_snapshot_lem g.config g.store.next at.making (entry_at g entry) r).0 in
      let fresh : is_expired_at (entry_at g entry).epoch snapshot.word at.checking ≡ false =
        ground arith in
      rw (← same) (refl, λ yes. said r (refl, ground (arith, reads), fresh))

  pub apply_fetch_result-Moves :
      (subject : T) (entry generation : ℕ) (refresh_from : Option (Snapshot P)) (at : Readings)
      (result : Result DecisionSourceError (DecisionResult P)) (g : Gate lru P)
      → ((r : DecisionResult P) → IsFit entry at result g r → Says entry)
      → Moves Says g.store
          (apply_fetch_result subject entry generation refresh_from at result g).0.store
  unfolding apply_fetch_result
  apply_fetch_result-Moves subject entry generation refresh_from at result g said =
      if_branches (λ (r : Gate lru P × FetchResult). Moves Says g.store r.0.store)
        (is_some (pending_generation generation (entry_at g entry)))
        (λ claimed.
          apply_current-Moves subject entry generation refresh_from at (prepare entry at result g) g
            claimed (prepare-Given entry at result g said))
        (λ overtaken. Moves-rests Says g.store)

  report_failure-store :
      (outcome : FetchResult) (g : Gate lru P) → (report_failure outcome g).store ≡ g.store
  report_failure-store (ok _) g = refl
  report_failure-store (err e) g = ground arith

  -- A lookup may make its entry allowed, if the source's answer allows.
  pub run_fetch-Moves :
      (fetch : PendingFetch (Lookup T P)) (alive : Bool) (now : ℕ) (at : Readings) (reply : Reply P)
      (g : Gate lru P)
      → (Allows reply → Says fetch.future.entry)
      → Moves Says g.store (run_fetch fetch alive now at reply g).0.store
  unfolding run_fetch
  run_fetch-Moves fetch alive now at reply g said =
      let called = emit unary_call g in
      let future = fetch.future in
      let result = lookup_result now reply in
      let applied =
        apply_fetch_result future.subject future.entry fetch.generation future.refresh_from at
          result called in
      let moved =
        apply_fetch_result-Moves future.subject future.entry fetch.generation future.refresh_from at
          result called (λ r fit. said (r, lookup_result-ok now reply r fit.0, fit.1)) in
      if_branches
        (λ (r : Gate lru P × FetchResult). Moves Says g.store (report_failure r.1 r.0).store) alive
        (λ held. rw (report_failure-store applied.1 applied.0) moved)
        (λ dropped. rw (report_failure-store (forget result) called) (Moves-rests Says g.store))

  -- A change may make the entry allowed that the map has for its subject, if it says so.
  pub apply_change-Moves :
      (change : DecisionChange T) (now made_at later : ℕ) (g : Gate lru P)
      → ((slot : Slot)
          → find lru.dec change.subject (lru.items g.cache) ≡ some slot
          → change.decision ≡ some Decision.allowed
          → Says slot.entry)
      → Moves Says g.store (apply_change change now made_at later g).store
  unfolding apply_change
  apply_change-Moves change now made_at later g said = elim (Option-cases change.decision) [
    | inl e ↦
        let r = remove change.subject now g.subjects in
        rw (e, apply_change)
          (republish-Moves Says g.store later _ (
            dirty_if-Moves Says g.store r.1 (with_subjects g r.0)
              (remove-Goes (moves Says) change.subject now g.subjects)))
    | inr (decision, e) ↦
        rw (e, apply_change)
          (republish-Moves Says g.store later _ (
            update-Goes (moves Says) change.subject now (decide g.config decision made_at)
              g.subjects
              (λ slot s found.
                decide-Moves Says g.config decision made_at slot.entry s
                  (λ yes. said slot found (e ∙ ap some yes)))))
  ]

module _ {T : Type 0} {lru : Lru T Slot} {P : Type 0} where
  -- When the result of a lookup is applied, no entry becomes allowed but the lookup's own: that one
  -- only while the lookup is its pending one, only if the result is an allowing decision, and only if
  -- the snapshot that is made of it has not expired when it is checked.
  pub fetch_allows :
      (subject : T) (entry generation : ℕ) (refresh_from : Option (Snapshot P)) (at : Readings)
      (result : Result DecisionSourceError (DecisionResult P)) (g : Gate lru P) (a : ℕ)
      → let h = (apply_fetch_result subject entry generation refresh_from at result g).0 in
        allowed_at h.store a ≡ true
        → (allowed_at g.store a ≡ true)
          ⊎ ((a ≡ entry)
              × (is_some (pending_generation generation (entry_at g entry)) ≡ true)
              × ((r : DecisionResult P) × IsFit entry at result g r))
  unfolding Moves Turns apply_fetch_result
  fetch_allows subject entry generation refresh_from at result g a allowed =
      let pending = is_some (pending_generation generation (entry_at g entry)) in
      let Says = λ (b : ℕ). (b ≡ entry) × ((r : DecisionResult P) × IsFit entry at result g r) in
      elim (Bool-cases pending) [
        | inl claimed ↦
            let moved =
              apply_fetch_result-Moves Says subject entry generation refresh_from at result g
                (λ r fit. (refl, (r, fit))) in
            elim ((moved.1 a).1 allowed) [
              | inl before ↦ inl before
              | inr said ↦ inr (said.0, claimed, said.1)
            ]
        | inr overtaken ↦ inl (ground (arith, overtaken, allowed))
      ]
