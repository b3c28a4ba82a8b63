-- ===== src/Gate/Access/SingleFlight.antt =====
-- At most one refresh of an entry is claimed at a time: `admission_on_access` of src/gate.rs.
use policy_gate.Prelude.{ℕ, ◌≡◌, arith, true, none, some}
use policy_gate.Entry.{
  Snapshot, PendingFetch, replace_pending, pending_generation, refresh_eligible_at,
}
use policy_gate.Lru.{Lru}
use policy_gate.Subjects.{Slot}
use policy_gate.Gate.{Gate, Lookup, entry_at}
use policy_gate.Gate.Fetch.{new_fetch_after}
use policy_gate.Gate.Access.{enqueuing, claim, release, cancelled}

module _ {T : Type 0} {lru : Lru T Slot} {P : Type 0} (g : Gate lru P) where
  -- A refresh is claimed only for an entry that nothing is pending for, that still has the snapshot
  -- that the access saw, and whose refresh is still due in time; the entry then waits for exactly
  -- that fetch, and takes the claim back if the wait is dropped.
  pub claim_lem :
      (subject : T) (entry : ℕ) (current : Snapshot P) (deadline now last until : ℕ)
      (fetch : PendingFetch (Lookup T P))
      → (claim subject entry current deadline now last g).1 ≡ enqueuing fetch until
      → let h = (claim subject entry current deadline now last g).0 in
        ((entry_at g entry).pending ≡ none)
        × ((entry_at g entry).current.addr ≡ current.addr)
        × (refresh_eligible_at (entry_at g entry) current now ≡ true)
        × ((entry_at h entry).pending ≡ some fetch)
        × (fetch.future.refresh_from ≡ some current)
        × ((entry_at (cancelled entry fetch h) entry).pending ≡ none)
  unfolding claim new_fetch_after release replace_pending pending_generation
  claim_lem subject entry current deadline now last until fetch h =
      (ground arith, ground arith, ground arith, ground arith, ground arith, ground arith)
