-- ===== src/Gate/Safety/Owners/Fetches.antt =====
-- Lookup results and the watcher's calls of src/gate.rs, and the subjects of the entries.
use policy_gate.Prelude.{
  if_branches, is_some, ℕ, ◌≡◌, inl, inr, refl, sym, ◌∙◌, arith, Bool, Option, none, some,
  Option-cases,
}
use policy_gate.Decision.{DecisionChange, Result, ok, err, DecisionSourceError, is_permanent_status}
use policy_gate.Metrics.{unary_call}
use policy_gate.Entry.{Snapshot, PendingFetch, pending_generation}
use policy_gate.Lru.{Lru}
use policy_gate.Subjects.{Slot, remove, clear_all}
use policy_gate.Subjects.View.Changes.{remove-view, update-view, clear_all-view}
use policy_gate.Gate.{Gate, Lookup, with_subjects, published, publish_empty, emit}
use policy_gate.Gate.Fetch.{
  prepare, Reply, Readings, apply_first, apply_current, apply_fetch_result, run_fetch, took_address,
  lookup_result, report_failure, FetchResult, give_up, forget,
}
use policy_gate.Gate.Watch.{
  decide, apply_change, watch_connected, watch_disconnected, drop_watcher, mark_disconnected,
}
use policy_gate.Gate.Safety.Owners.{Sheds, chains, shrinks, rests, republish-Sheds, dirty_if-Sheds}
use policy_gate.Gate.Safety.Owners.Operations.{removed_if_due-Sheds}

module _ {T : Type 0} {lru : Lru T Slot} {P : Type 0} where
  apply_first-Sheds :
      (subject : T) (entry generation now : ℕ) (prepared : Result DecisionSourceError (Snapshot P))
      (g : Gate lru P)
      → Sheds g (apply_first subject entry generation now prepared g)
  unfolding apply_first
  apply_first-Sheds subject entry generation now (ok s) g = rests g _ refl refl
  apply_first-Sheds subject entry generation now (err e) g =
      if_branches (λ (r : Gate lru P). Sheds g r) (is_permanent_status e)
        (λ permanent. rests g _ refl refl)
        (λ transient. removed_if_due-Sheds subject now now (give_up entry generation) g)

  apply_current-Sheds :
      (subject : T) (entry generation : ℕ) (refresh_from : Option (Snapshot P)) (at : Readings)
      (prepared : Result DecisionSourceError (Snapshot P)) (g : Gate lru P)
      → Sheds g (apply_current subject entry generation refresh_from at prepared g)
  unfolding apply_current
  apply_current-Sheds subject entry generation none at prepared g =
      apply_first-Sheds subject entry generation at.applying prepared g
  apply_current-Sheds subject entry generation (some current) at prepared g = rests g _ refl refl

  report_failure-Sheds :
      (outcome : FetchResult) (g : Gate lru P) → Sheds g (report_failure outcome g)
  report_failure-Sheds (ok _) g = rests g g refl refl
  report_failure-Sheds (err e) g = rests g _ (ground arith) (ground arith)

  pub run_fetch-Sheds :
      (fetch : PendingFetch (Lookup T P)) (alive : Bool) (now : ℕ) (at : Readings) (reply : Reply P)
      (g : Gate lru P)
      → Sheds g (run_fetch fetch alive now at reply g).0
  unfolding run_fetch apply_fetch_result
  run_fetch-Sheds fetch alive now at reply g =
      let called = emit unary_call g in
      let future = fetch.future in
      let result = lookup_result now reply in
      let took = took_address called in
      let applied =
        apply_fetch_result future.subject future.entry fetch.generation future.refresh_from at
          result called in
      let does : Sheds called applied.0 =
        if_branches (λ (r : Gate lru P × FetchResult). Sheds called r.0)
          (is_some (pending_generation fetch.generation (called.store.entries future.entry)))
          (λ claimed. chains called took _ (rests called took refl refl) (
            apply_current-Sheds future.subject future.entry fetch.generation future.refresh_from at
              (prepare future.entry at result called) took))
          (λ overtaken. rests called called refl refl) in
      let begun = rests g called refl refl in
      if_branches (λ (r : Gate lru P × FetchResult). Sheds g (report_failure r.1 r.0)) alive
        (λ held.
          chains g called _ begun
            (chains called applied.0 _ does (report_failure-Sheds applied.1 applied.0)))
        (λ dropped. chains g called _ begun (report_failure-Sheds (forget result) called))

  pub apply_change-Sheds :
      (change : DecisionChange T) (now made_at later : ℕ) (g : Gate lru P)
      → Sheds g (apply_change change now made_at later g)
  unfolding apply_change
  apply_change-Sheds change now made_at later g = elim (Option-cases change.decision) [
    | inl e ↦
        let r = remove change.subject now g.subjects in
        let h = with_subjects g r.0 in
        rw (e, apply_change)
          (chains g _ _
            (chains g h _
              (shrinks g h
                (λ single. let v = remove-view change.subject now g.subjects single in (v.0, v.2))
                refl)
              (dirty_if-Sheds r.1 h))
            (republish-Sheds later _))
    | inr (decision, e) ↦
        rw (e, apply_change)
          (chains g _ _
            (shrinks g _
              (update-view change.subject now (decide g.config decision made_at) g.subjects) refl)
            (republish-Sheds later _))
  ]

  cleared-Sheds :
      (g h : Gate lru P)
      → h.cache ≡ (clear_all g.subjects).cache
      → ((k : T) → published h k ≡ none)
      → Sheds g h
  unfolding Sheds
  cleared-Sheds g h cached empty single =
      let c = clear_all-view g.subjects in
      (
        rw cached (c.0),
        rw cached
            (λ k a e. absurd (let gone : none ≡ some a = sym (c.1 k) ∙ e in ground (arith, gone))),
        (λ k a e. absurd (ground (arith, empty k, e))),
      )

  pub watch_connected-Sheds : (g : Gate lru P) → Sheds g (watch_connected g)
  unfolding watch_connected publish_empty
  watch_connected-Sheds g = cleared-Sheds g _ refl (λ k. refl)

  pub watch_disconnected-Sheds : (now : ℕ) (g : Gate lru P) → Sheds g (watch_disconnected now g)
  unfolding watch_disconnected publish_empty mark_disconnected
  watch_disconnected-Sheds now g = cleared-Sheds g _ refl (λ k. refl)

  pub drop_watcher-Sheds : (now : ℕ) (g : Gate lru P) → Sheds g (drop_watcher now g)
  unfolding drop_watcher
  drop_watcher-Sheds now g = chains g _ _ (watch_disconnected-Sheds now g) (rests _ _ refl refl)
