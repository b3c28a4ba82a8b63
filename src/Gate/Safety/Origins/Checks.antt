-- ===== src/Gate/Safety/Origins/Checks.antt =====
-- Cached reads, src/gate.rs, and the origins of what the entries hold.
use policy_gate.Prelude.{if_branches, ℕ, inl, inr, none, Option-cases}
use policy_gate.Entry.{verdict_at}
use policy_gate.Store.{run}
use policy_gate.Lru.{Lru}
use policy_gate.Subjects.{Slot, touch}
use policy_gate.Subjects.Journeys.{touch-Goes}
use policy_gate.Gate.{Gate, with_subjects, published}
use policy_gate.Gate.Access.{Access, check, check_without_refresh, refresh_entry, in_store}
use policy_gate.Gate.Safety.Origins.{Moves, moves, Moves-rests, Moves-joins, verdict_at-Moves}
use policy_gate.Gate.Safety.Origins.Reads.{access-Moves, admission-Moves}

module _ {T : Type 0} {lru : Lru T Slot} {P : Type 0} (Says : ℕ → Type 0) where
  -- A touch after the read of a verdict.
  abbrev renewed_by : T → ℕ → ℕ → ℕ → Gate lru P → Gate lru P
  renewed_by subject entry now touched_at g =
      let read = (in_store g (run (λ fresh. verdict_at fresh now) entry g.store)).0 in
      with_subjects read (touch subject entry touched_at read.subjects).0

  renewed-Moves :
      (subject : T) (entry now touched_at : ℕ) (g : Gate lru P)
      → Moves Says g.store (renewed_by subject entry now touched_at g).store
  renewed-Moves subject entry now touched_at g =
      let read = (in_store g (run (λ fresh. verdict_at fresh now) entry g.store)).0 in
      Moves-joins Says g.store read.store _ (verdict_at-Moves Says entry now g.store)
        (touch-Goes (moves Says) subject entry touched_at read.subjects)

  pub check-Moves :
      (subject : T) (now touched_at verdict_time access_time : ℕ) (g : Gate lru P)
      → Moves Says g.store (check subject now touched_at verdict_time access_time g).0.store
  unfolding check
  check-Moves subject now touched_at verdict_time access_time g =
      elim (Option-cases (published g subject)) [
        | inl e ↦ rw (e, check) (Moves-rests Says g.store)
        | inr (entry, e) ↦
            let read = run (λ fresh. verdict_at fresh now) entry g.store in
            let renewed = renewed_by subject entry now touched_at g in
            elim (Option-cases read.1) [
              | inl bare ↦ rw (e, check, bare) (verdict_at-Moves Says entry now g.store)
              | inr (verdict, full) ↦
                  rw (e, check, full)
                    (Moves-joins Says g.store renewed.store _
                      (renewed-Moves subject entry now touched_at g)
                      (access-Moves Says entry none verdict_time access_time renewed))
            ]
      ]

  pub check_without_refresh-Moves :
      (subject : T) (now touched_at verdict_time : ℕ) (g : Gate lru P)
      → Moves Says g.store (check_without_refresh subject now touched_at verdict_time g).0.store
  unfolding check_without_refresh
  check_without_refresh-Moves subject now touched_at verdict_time g =
      elim (Option-cases (published g subject)) [
        | inl e ↦ rw (e, check_without_refresh) (Moves-rests Says g.store)
        | inr (entry, e) ↦
            let read = run (λ fresh. verdict_at fresh now) entry g.store in
            let renewed = renewed_by subject entry now touched_at g in
            elim (Option-cases read.1) [
              | inl bare ↦
                  rw (e, check_without_refresh, bare) (verdict_at-Moves Says entry now g.store)
              | inr (verdict, full) ↦
                  rw (e, check_without_refresh, full)
                    (Moves-joins Says g.store renewed.store _
                      (renewed-Moves subject entry now touched_at g)
                      (admission-Moves Says entry verdict_time renewed.store))
            ]
      ]

  pub refresh_entry-Moves :
      (subject : T) (entry touched_at verdict_time access_time : ℕ) (g : Gate lru P)
      → Moves Says g.store
          (refresh_entry subject entry touched_at verdict_time access_time g).0.store
  unfolding refresh_entry
  refresh_entry-Moves subject entry touched_at verdict_time access_time g =
      let r = touch subject entry touched_at g.subjects in
      let renewed = with_subjects g r.0 in
      let moved = touch-Goes (moves Says) subject entry touched_at g.subjects in
      if_branches (λ (r : Gate lru P × Access T P). Moves Says g.store r.0.store) r.1
        (λ there.
          Moves-joins Says g.store renewed.store _ moved
            (access-Moves Says entry none verdict_time access_time renewed))
        (λ other. moved)
