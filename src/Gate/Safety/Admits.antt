-- ===== src/Gate/Safety/Admits.antt =====
-- The admission loop of src/gate.rs keeps every entry that is not stale in the map.
use policy_gate.Prelude.{ℕ, arith, some}
use policy_gate.Decision.{Result}
use policy_gate.Metrics.{map_hit}
use policy_gate.Entry.{state_at}
use policy_gate.Store.{run}
use policy_gate.Lru.{Lru}
use policy_gate.Subjects.{Slot, remove_if}
use policy_gate.Subjects.Coverage.Operations.{get_or_insert_with-Covered, remove_if-Covered}
use policy_gate.Gate.{Gate, with_subjects, emit, dirty_if}
use policy_gate.Gate.Fetch.{FetchResult}
use policy_gate.Gate.Access.{in_store}
use policy_gate.Gate.Admit.{
  Call, Wakeup, resolve, join, branch, turn, connect, settle, is_same, is_same_stale, create,
  result, aborted, changed, elapsed, retry_or_fail,
}
use policy_gate.Gate.Safety.{state_at-Tame, create-CreatesOne, is_same-Judges, is_same_stale-Judges}
use policy_gate.Gate.Safety.Reads.{
  AllListed, republish-AllListed, dirty_if-AllListed, access-AllListed,
}

module _ {T : Type 0} {lru : Lru T Slot} {P : Type 0} where
  pub join-AllListed :
      (entry now : ℕ) (g : Gate lru P) → AllListed g → AllListed (join entry now g).0
  unfolding join
  join-AllListed entry now g c a live = ground (arith, state_at-Tame entry now g.store a, c a)

  pub resolve-AllListed :
      (subject : T) (now later : ℕ) (g : Gate lru P)
      → AllListed g
      → AllListed (resolve subject now later g).0
  unfolding resolve
  resolve-AllListed subject now later g c = republish-AllListed later _ (
      dirty_if-AllListed _ _ (
        get_or_insert_with-Covered subject now (create subject now g.config.refresh_before_expiry)
          g.subjects (create-CreatesOne subject now g.config.refresh_before_expiry) c))

  pub branch-AllListed :
      (call : Call T) (entry now later : ℕ) (g : Gate lru P)
      → AllListed g
      → AllListed (branch call entry now later g).0
  unfolding branch
  branch-AllListed call entry now later g c a live =
      let r = in_store g (run (λ fresh. state_at fresh now) entry g.store) in
      let kept : AllListed r.0 = λ b alive. c b (state_at-Tame entry now g.store b alive) in
      let removal = remove_if call.subject later (is_same_stale entry later) r.0.subjects in
      let removed =
        remove_if-Covered call.subject later (is_same_stale entry later) r.0.subjects
          (is_same_stale-Judges entry later) kept in
      let dropped = dirty_if removal.1 (with_subjects r.0 removal.0) in
      ground (
        arith,
        access-AllListed entry (some call.deadline) later later (emit map_hit r.0) kept a,
        join-AllListed entry later r.0 kept a,
        republish-AllListed later dropped (dirty_if-AllListed removal.1 _ removed) a,
      )

  pub turn-AllListed :
      (call : Call T) (now checked later : ℕ) (g : Gate lru P)
      → AllListed g
      → AllListed (turn call now checked later g).0
  unfolding turn
  turn-AllListed call now checked later g c a live =
      let r = resolve call.subject now checked g in
      let kept = resolve-AllListed call.subject now checked g c in
      let removal = remove_if call.subject checked (is_same r.1) r.0.subjects in
      let removed =
        remove_if-Covered call.subject checked (is_same r.1) r.0.subjects (is_same-Judges r.1)
          kept in
      ground (
        arith,
        kept a,
        dirty_if-AllListed removal.1 (with_subjects r.0 removal.0) removed a,
        branch-AllListed call r.1 checked later r.0 kept a,
      )

  pub connect-AllListed :
      (call : Call T) (now checked later : ℕ) (g : Gate lru P)
      → AllListed g
      → AllListed (connect call now checked later g).0
  unfolding connect
  connect-AllListed call now checked later g c a live =
      ground (arith, c a, turn-AllListed call now checked later g c a)

  retry_or_fail-AllListed :
      (outcome : FetchResult) (g : Gate lru P) → AllListed g → AllListed (retry_or_fail outcome g).0
  retry_or_fail-AllListed (Result.ok _) g c = c
  retry_or_fail-AllListed (Result.err e) g c = ground arith

  pub settle-AllListed :
      (call : Call T) (entry : ℕ) (wakeup : Wakeup) (now later : ℕ) (g : Gate lru P)
      → AllListed g
      → AllListed (settle call entry wakeup now later g).0
  unfolding settle
  settle-AllListed call entry aborted now later g c = c
  settle-AllListed call entry changed now later g c = c
  settle-AllListed call entry elapsed now later g c =
      access-AllListed entry (some call.deadline) now later g c
  settle-AllListed call entry (result outcome) now later g c = λ a live.
      let r = in_store g (run (λ fresh. state_at fresh now) entry g.store) in
      let kept : AllListed r.0 = λ b alive. c b (state_at-Tame entry now g.store b alive) in
      ground (
        arith,
        c a,
        kept a,
        retry_or_fail-AllListed outcome r.0 kept a,
        access-AllListed entry (some call.deadline) later later r.0 kept a,
      )
