-- ===== src/Gate/Safety/Owners/Operations.antt =====
-- The reads and the refreshes of src/gate.rs, and the subjects of the entries.
use policy_gate.Prelude.{
  if_branches, ℕ, inl, inr, refl, arith, Bool, true, false, Option, none, Option-cases,
}
use policy_gate.Entry.{Snapshot, PendingFetch, verdict_at}
use policy_gate.Store.{Store, run}
use policy_gate.Lru.{Lru}
use policy_gate.Subjects.{Slot, touch, remove_if}
use policy_gate.Subjects.View.Changes.{remove_if-view, touch-view}
use policy_gate.Gate.{
  Gate, Lookup, with_subjects, with_store, dirty_if, republish_if_due, published,
}
use policy_gate.Gate.Access.{
  Access, access, release, claim, enqueued, check, check_without_refresh, refresh_entry,
}
use policy_gate.Gate.Safety.Owners.{Sheds, chains, shrinks, rests, republish-Sheds, dirty_if-Sheds}

module _ {T : Type 0} {lru : Lru T Slot} {P : Type 0} where
  pub touched-Sheds :
      (subject : T) (entry now : ℕ) (g : Gate lru P)
      → Sheds g (with_subjects g (touch subject entry now g.subjects).0)
  touched-Sheds subject entry now g = shrinks g _ (touch-view subject entry now g.subjects) refl

  pub removed-Sheds :
      (subject : T) (now : ℕ) (predicate : ℕ → Store P (Lookup T P) → Store P (Lookup T P) × Bool)
      (g : Gate lru P)
      → let r = remove_if subject now predicate g.subjects in
        Sheds g (dirty_if r.1 (with_subjects g r.0))
  removed-Sheds subject now predicate g =
      let r = remove_if subject now predicate g.subjects in
      let h = with_subjects g r.0 in
      chains g h _
        (shrinks g h
          (λ single. let v = remove_if-view subject now predicate g.subjects single in (v.0, v.2))
          refl)
        (dirty_if-Sheds r.1 h)

  pub removed_if_due-Sheds :
      (subject : T) (now later : ℕ)
      (predicate : ℕ → Store P (Lookup T P) → Store P (Lookup T P) × Bool) (g : Gate lru P)
      → let r = remove_if subject now predicate g.subjects in
        Sheds g (republish_if_due later (dirty_if r.1 (with_subjects g r.0)))
  removed_if_due-Sheds subject now later predicate g =
      chains g _ _ (removed-Sheds subject now predicate g) (republish-Sheds later _)

  pub access-Sheds :
      (entry : ℕ) (outer : Option ℕ) (now access_time : ℕ) (g : Gate lru P)
      → Sheds g (access entry outer now access_time g).0
  unfolding access
  access-Sheds entry outer now access_time g = rests g _ (ground arith) (ground arith)

  pub release-Sheds : (entry generation : ℕ) (g : Gate lru P) → Sheds g (release entry generation g)
  unfolding release
  release-Sheds entry generation g = rests g _ refl refl

  pub claim-Sheds :
      (subject : T) (entry : ℕ) (current : Snapshot P) (deadline now last : ℕ) (g : Gate lru P)
      → Sheds g (claim subject entry current deadline now last g).0
  unfolding claim release
  claim-Sheds subject entry current deadline now last g = rests g _ (ground arith) (ground arith)

  pub enqueued-Sheds :
      (entry : ℕ) (fetch : PendingFetch (Lookup T P)) (taken : Bool) (now : ℕ) (g : Gate lru P)
      → Sheds g (enqueued entry fetch taken now g).0
  unfolding enqueued release
  enqueued-Sheds entry fetch true now g = rests g _ refl refl
  enqueued-Sheds entry fetch false now g = rests g _ refl refl

  renewed-Sheds :
      (subject : T) (entry touched_at : ℕ) (s : Store P (Lookup T P)) (g : Gate lru P)
      → let read = with_store g s in
        Sheds g (with_subjects read (touch subject entry touched_at read.subjects).0)
  renewed-Sheds subject entry touched_at s g =
      let read = with_store g s in
      chains g read _ (rests g read refl refl) (touched-Sheds subject entry touched_at read)

  pub check-Sheds :
      (subject : T) (now touched_at verdict_time access_time : ℕ) (g : Gate lru P)
      → Sheds g (check subject now touched_at verdict_time access_time g).0
  unfolding check
  check-Sheds subject now touched_at verdict_time access_time g =
      elim (Option-cases (published g subject)) [
        | inl e ↦ rw (e, check) (rests g g refl refl)
        | inr (entry, e) ↦
            let read = run (λ fresh. verdict_at fresh now) entry g.store in
            elim (Option-cases read.1) [
              | inl bare ↦ rw (e, check, bare) (rests g _ refl refl)
              | inr (verdict, full) ↦
                  rw (e, check, full)
                    (chains g _ _ (renewed-Sheds subject entry touched_at read.0 g)
                      (access-Sheds entry none verdict_time access_time _))
            ]
      ]

  pub check_without_refresh-Sheds :
      (subject : T) (now touched_at verdict_time : ℕ) (g : Gate lru P)
      → Sheds g (check_without_refresh subject now touched_at verdict_time g).0
  unfolding check_without_refresh
  check_without_refresh-Sheds subject now touched_at verdict_time g =
      elim (Option-cases (published g subject)) [
        | inl e ↦ rw (e, check_without_refresh) (rests g g refl refl)
        | inr (entry, e) ↦
            let read = run (λ fresh. verdict_at fresh now) entry g.store in
            elim (Option-cases read.1) [
              | inl bare ↦ rw (e, check_without_refresh, bare) (rests g _ refl refl)
              | inr (verdict, full) ↦
                  rw (e, check_without_refresh, full)
                    (chains g _ _ (renewed-Sheds subject entry touched_at read.0 g)
                      (rests _ _ refl refl))
            ]
      ]

  pub refresh_entry-Sheds :
      (subject : T) (entry touched_at verdict_time access_time : ℕ) (g : Gate lru P)
      → Sheds g (refresh_entry subject entry touched_at verdict_time access_time g).0
  unfolding refresh_entry
  refresh_entry-Sheds subject entry touched_at verdict_time access_time g =
      let r = touch subject entry touched_at g.subjects in
      if_branches (λ (r : Gate lru P × Access T P). Sheds g r.0) r.1
        (λ there.
          chains g _ _ (touched-Sheds subject entry touched_at g)
            (access-Sheds entry none verdict_time access_time _))
        (λ other. touched-Sheds subject entry touched_at g)
