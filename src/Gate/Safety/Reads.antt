-- ===== src/Gate/Safety/Reads.antt =====
-- The reads through the cache, src/gate.rs, keep every entry that is not stale in the map.
use policy_gate.Prelude.{ℕ, inl, inr, arith, Bool, true, false, Option, none, some, Option-cases}
use policy_gate.Entry.{Snapshot, PendingFetch, verdict_at}
use policy_gate.Entry.Liveness.{replace_pending-tame}
use policy_gate.Store.{run, write}
use policy_gate.Lru.{Lru}
use policy_gate.Subjects.{Slot, touch}
use policy_gate.Subjects.Coverage.{Covered}
use policy_gate.Subjects.Coverage.Operations.{touch-Covered}
use policy_gate.Gate.{
  Gate, Lookup, entry_at, with_store, with_subjects, dirty_if, republish_if_due, published,
}
use policy_gate.Gate.Publish.{republish_kept}
use policy_gate.Gate.Fetch.{new_fetch_after}
use policy_gate.Gate.Access.{
  access, release, claim, enqueued, check, check_without_refresh, refresh_entry, in_store,
}
use policy_gate.Gate.Safety.{admission-Tame, verdict_at-Tame}

module _ {T : Type 0} {lru : Lru T Slot} {P : Type 0} where
  -- Every entry of the gate that is not stale is in its map.
  abbrev pub AllListed : Gate lru P → Type 0
  AllListed g = Covered g.subjects

  pub republish-AllListed :
      (now : ℕ) (g : Gate lru P) → AllListed g → AllListed (republish_if_due now g)
  republish-AllListed now g c a live =
      let kept = republish_kept now g in rw (kept.6) (c a (rw (← kept.5) live))

  pub dirty_if-AllListed : (b : Bool) (g : Gate lru P) → AllListed g → AllListed (dirty_if b g)
  dirty_if-AllListed true g c = c
  dirty_if-AllListed false g c = c

  pub access-AllListed :
      (entry : ℕ) (outer : Option ℕ) (now access_time : ℕ) (g : Gate lru P)
      → AllListed g
      → AllListed (access entry outer now access_time g).0
  unfolding access
  access-AllListed entry outer now access_time g c a live =
      ground (arith, admission-Tame entry now g.store a, c a)

  pub release-AllListed :
      (entry generation : ℕ) (g : Gate lru P) → AllListed g → AllListed (release entry generation g)
  unfolding release
  release-AllListed entry generation g c a live =
      ground (arith, replace_pending-tame (entry_at g entry) generation none, c a)

  pub claim-AllListed :
      (subject : T) (entry : ℕ) (current : Snapshot P) (deadline now last : ℕ) (g : Gate lru P)
      → AllListed g
      → AllListed (claim subject entry current deadline now last g).0
  unfolding claim new_fetch_after
  claim-AllListed subject entry current deadline now last g c a live =
      let made = new_fetch_after entry subject none (some current) g.store in
      let claimed = with_store g (record made.0 {
        entries =
            write entry (record (made.0.entries entry) { pending = some made.1 }) made.0.entries;
      }) in
      let released = release entry made.1.generation claimed in
      let kept : AllListed claimed = λ b alive. ground (arith, c b) in
      ground (
        arith,
        c a,
        kept a,
        release-AllListed entry made.1.generation claimed kept a,
        admission-Tame entry last released.store a,
      )

  pub enqueued-AllListed :
      (entry : ℕ) (fetch : PendingFetch (Lookup T P)) (taken : Bool) (now : ℕ) (g : Gate lru P)
      → AllListed g
      → AllListed (enqueued entry fetch taken now g).0
  unfolding enqueued
  enqueued-AllListed entry fetch true now g c a live = c a (admission-Tame entry now g.store a live)
  enqueued-AllListed entry fetch false now g c a live =
      let released = release entry fetch.generation g in
      release-AllListed entry fetch.generation g c a
        (admission-Tame entry now released.store a live)

  pub check-AllListed :
      (subject : T) (now touched_at verdict_time access_time : ℕ) (g : Gate lru P)
      → AllListed g
      → AllListed (check subject now touched_at verdict_time access_time g).0
  unfolding check
  check-AllListed subject now touched_at verdict_time access_time g c a live =
      elim (Option-cases (published g subject)) [
        | inl e ↦ ground (arith, c a)
        | inr (entry, e) ↦
            let read = (in_store g (run (λ fresh. verdict_at fresh now) entry g.store)).0 in
            let kept : AllListed read =
              λ b alive. c b (verdict_at-Tame entry now g.store b alive) in
            let renewed = with_subjects read (touch subject entry touched_at read.subjects).0 in
            ground (
              arith,
              kept a,
              access-AllListed entry none verdict_time access_time renewed
                  (touch-Covered subject entry touched_at read.subjects kept) a,
            )
      ]

  pub check_without_refresh-AllListed :
      (subject : T) (now touched_at verdict_time : ℕ) (g : Gate lru P)
      → AllListed g
      → AllListed (check_without_refresh subject now touched_at verdict_time g).0
  unfolding check_without_refresh
  check_without_refresh-AllListed subject now touched_at verdict_time g c a live =
      elim (Option-cases (published g subject)) [
        | inl e ↦ ground (arith, c a)
        | inr (entry, e) ↦
            let read = (in_store g (run (λ fresh. verdict_at fresh now) entry g.store)).0 in
            let kept : AllListed read =
              λ b alive. c b (verdict_at-Tame entry now g.store b alive) in
            let renewed = (touch subject entry touched_at read.subjects).0 in
            ground (
              arith,
              kept a,
              touch-Covered subject entry touched_at read.subjects kept a,
              admission-Tame entry verdict_time renewed.store a,
            )
      ]

  pub refresh_entry-AllListed :
      (subject : T) (entry touched_at verdict_time access_time : ℕ) (g : Gate lru P)
      → AllListed g
      → AllListed (refresh_entry subject entry touched_at verdict_time access_time g).0
  unfolding refresh_entry
  refresh_entry-AllListed subject entry touched_at verdict_time access_time g c a live =
      let r = touch subject entry touched_at g.subjects in
      let renewed = with_subjects g r.0 in
      let kept = touch-Covered subject entry touched_at g.subjects c in
      ground (arith, kept a, access-AllListed entry none verdict_time access_time renewed kept a)
