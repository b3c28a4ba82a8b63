-- ===== src/Gate/Safety/Owners/Admits.antt =====
-- The admission loop of src/gate.rs, and the subjects of the entries.
use policy_gate.Prelude.{if_branches, not, leb, ℕ, ◌≡◌, ◌⊎◌, inl, inr, refl, arith, Bool, some}
use policy_gate.Decision.{Result}
use policy_gate.Metrics.{map_hit}
use policy_gate.Entry.{state_at}
use policy_gate.Store.{run}
use policy_gate.Lru.{Lru}
use policy_gate.Subjects.{Slot, remove_if}
use policy_gate.Subjects.Journeys.{remove_if-Goes}
use policy_gate.Gate.{Gate, with_subjects, dirty_if, republish_if_due, emit}
use policy_gate.Gate.Access.{access, in_store}
use policy_gate.Gate.Admit.{
  Call, Wakeup, Phase, resolve, join, branch, turn, connect, settle, is_same, is_same_stale, result,
  aborted, changed, elapsed, timed_out,
}
use policy_gate.Gate.Safety.Origins.{moves, Moves-rests}
use policy_gate.Gate.Safety.Origins.Reads.{republish-Moves, dirty_if-Moves}
use policy_gate.Gate.Safety.Origins.Admits.{branch-Moves}
use policy_gate.Gate.Safety.Owners.{
  Follows, Sheds, joins, chains, rests, follows, republish-Sheds, dirty_if-Sheds,
}
use policy_gate.Gate.Safety.Owners.Insertions.{Never, Moves-next, inserted-Follows}
use policy_gate.Gate.Safety.Owners.Operations.{access-Sheds, removed-Sheds, removed_if_due-Sheds}

module _ {T : Type 0} {lru : Lru T Slot} {P : Type 0} where
  marked-Follows :
      (raised : Bool) (later : ℕ) (g : Gate lru P)
      → Follows g (republish_if_due later (dirty_if raised g))
  marked-Follows raised later g =
      follows g _
        (chains g _ _ (dirty_if-Sheds raised g) (republish-Sheds later (dirty_if raised g)))
        (Moves-next Never g.store _ (
          republish-Moves Never g.store later _
            (dirty_if-Moves Never g.store raised g (Moves-rests Never g.store))))

  resolve-Follows :
      (subject : T) (now later : ℕ) (g : Gate lru P) → Follows g (resolve subject now later g).0
  unfolding resolve
  resolve-Follows subject now later g =
      joins g _ _ (inserted-Follows subject now g) (marked-Follows _ later _)

  join-Sheds : (entry now : ℕ) (g : Gate lru P) → Sheds g (join entry now g).0
  unfolding join
  join-Sheds entry now g = rests g _ (ground arith) (ground arith)

  branch_either :
      (call : Call T) (entry now later : ℕ) (g : Gate lru P)
      → let seen = (in_store g (run (λ fresh. state_at fresh now) entry g.store)).0 in
        let removal = remove_if call.subject later (is_same_stale entry later) seen.subjects in
        let after = (branch call entry now later g).0 in
        (after ≡ (access entry (some call.deadline) later later (emit map_hit seen)).0)
        ⊎ (after ≡ (join entry later seen).0)
        ⊎ (after ≡ republish_if_due later (dirty_if removal.1 (with_subjects seen removal.0)))
  unfolding branch
  branch_either call entry now later g = ground arith

  branch-Sheds :
      (call : Call T) (entry now later : ℕ) (g : Gate lru P)
      → Sheds g (branch call entry now later g).0
  branch-Sheds call entry now later g =
      let seen = (in_store g (run (λ fresh. state_at fresh now) entry g.store)).0 in
      let saw = rests g seen refl refl in
      elim (branch_either call entry now later g) [
        | inl e ↦ rw e (
            chains g _ _ (rests g (emit map_hit seen) refl refl)
              (access-Sheds entry (some call.deadline) later later (emit map_hit seen)))
        | inr (inl e) ↦ rw e (chains g seen _ saw (join-Sheds entry later seen))
        | inr (inr e) ↦ rw e (
            chains g seen _ saw
              (removed_if_due-Sheds call.subject later later (is_same_stale entry later) seen))
      ]

  turn-Follows :
      (call : Call T) (now checked later : ℕ) (g : Gate lru P)
      → Follows g (turn call now checked later g).0
  unfolding turn
  turn-Follows call now checked later g =
      let Q = λ (r : Gate lru P × Phase T P). Follows g r.0 in
      let r = resolve call.subject now checked g in
      let resolved = resolve-Follows call.subject now checked g in
      let removal = remove_if call.subject checked (is_same r.1) r.0.subjects in
      if_branches Q (leb call.deadline checked)
        (λ late.
          joins g r.0 _ resolved
            (follows r.0 (timed_out r.0).0 (rests r.0 _ refl refl) (omega arith)))
        (λ early.
          if_branches Q (not r.0.connected)
            (λ down. joins g r.0 _ resolved (
              follows r.0 _ (removed-Sheds call.subject checked (is_same r.1) r.0) (
                Moves-next Never r.0.store _ (
                  dirty_if-Moves Never r.0.store removal.1 (with_subjects r.0 removal.0) (
                    remove_if-Goes (moves Never) call.subject checked (is_same r.1) r.0.subjects
                      (λ current s. Moves-rests Never s))))))
            (λ up. joins g r.0 _ resolved (
              follows r.0 _ (branch-Sheds call r.1 checked later r.0)
                (Moves-next Never r.0.store _ (branch-Moves Never call r.1 checked later r.0)))))

  pub connect-Follows :
      (call : Call T) (now checked later : ℕ) (g : Gate lru P)
      → Follows g (connect call now checked later g).0
  unfolding connect
  connect-Follows call now checked later g =
      let Q = λ (r : Gate lru P × Phase T P). Follows g r.0 in
      let same = follows g g (rests g g refl refl) (omega arith) in
      if_branches Q (leb call.deadline now)
        (λ late. follows g _ (rests g _ refl refl) (omega arith))
        (λ early.
          if_branches Q g.connected (λ up. turn-Follows call now checked later g)
            (λ down. if_branches Q g.closed (λ gone. same) (λ waits. same)))

  pub settle-Sheds :
      (call : Call T) (entry : ℕ) (wakeup : Wakeup) (now later : ℕ) (g : Gate lru P)
      → Sheds g (settle call entry wakeup now later g).0
  unfolding settle access
  settle-Sheds call entry aborted now later g = rests g _ refl refl
  settle-Sheds call entry changed now later g = rests g _ refl refl
  settle-Sheds call entry elapsed now later g = rests g _ (ground arith) (ground arith)
  settle-Sheds call entry (result (Result.ok _)) now later g =
      rests g _ (ground arith) (ground arith)
  settle-Sheds call entry (result (Result.err e)) now later g =
      rests g _ (ground arith) (ground arith)
