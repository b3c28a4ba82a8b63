-- ===== src/Gate/Admit/Driver.antt =====
-- `admit` of src/gate.rs as a whole: its loop, turn by turn, with what the rest of the program does
-- to the gate in between.
pub mod Turns
pub mod Termination
use policy_gate.Prelude.{ℕ, Bool, true, false, Option, none, some, List, [], ◌∷◌}
use policy_gate.Entry.{Snapshot, PendingFetch}
use policy_gate.Lru.{Lru}
use policy_gate.Subjects.{Slot}
use policy_gate.Gate.{Gate, Lookup}
use policy_gate.Gate.Access.{Access, finished, claiming, enqueuing, claim, enqueued}
use policy_gate.Gate.Admit.{
  Phase, connecting, accessing, fetching, retrying, Call, Wakeup, start, connect, settle, accessed,
  slept,
}
use policy_gate.Gate.Admit.{finished as returned}

-- How one of the awaits of the loop ends, or what else runs while the call waits: with the instants
-- that the loop reads before its next await. `meanwhile` is whatever others do to the gate.
pub data Turn {T : Type 0} (lru : Lru T Slot) (P : Type 0) : Type 0 where
  at_connection : ℕ → ℕ → ℕ → Turn lru P
  at_claim : ℕ → ℕ → Turn lru P
  at_queue : Bool → ℕ → Turn lru P
  at_lookup : Wakeup → ℕ → ℕ → Turn lru P
  at_retry : ℕ → Bool → Turn lru P
  meanwhile : (Gate lru P → Gate lru P) → Turn lru P

-- What the call returns, once it has.
abbrev pub answer_of : {T P : Type 0} → Phase T P → Option (Option ℕ)
answer_of (returned admission) = some admission
answer_of phase = none

module _ {T : Type 0} {lru : Lru T Slot} {P : Type 0} where
  -- The gate, the phase and what the call carries. An access that has its answer ends the call, or goes back to the loop's head.
  abbrev pub landed : Call T → Gate lru P × Phase T P → Gate lru P × Phase T P × Call T
  landed call (g, accessing entry expiring (finished admission)) =
      let r = accessed expiring admission g in (r.0, r.1, call)
  landed call (g, phase) = (g, phase, call)

  -- One turn; one that the phase does not wait for changes nothing.
  unfoldable pub advance :
      Turn lru P → Phase T P → Call T → Gate lru P → Gate lru P × Phase T P × Call T
  unfolding connect claim enqueued settle accessed slept
  advance (meanwhile others) phase call g = (others g, phase, call)
  advance (at_connection now checked later) connecting call g =
      landed call (connect call now checked later g)
  advance (at_claim now last) (accessing entry expiring (claiming current deadline)) call g =
      let r = claim call.subject entry current deadline now last g in
      landed call (r.0, accessing entry expiring r.1)
  advance (at_queue taken now) (accessing entry expiring (enqueuing fetch deadline)) call g =
      let r = enqueued entry fetch taken now g in
      landed call (r.0, accessing entry expiring (finished r.1))
  advance (at_lookup wakeup now later) (fetching entry fetch) call g =
      landed call (settle call entry wakeup now later g)
  advance (at_retry now woken) retrying call g = slept call g.config now woken g
  advance turn phase call g = (g, phase, call)

  unfoldable pub advance_all :
      List (Turn lru P) → Phase T P → Call T → Gate lru P → Gate lru P × Phase T P × Call T
  advance_all [] phase call g = (g, phase, call)
  advance_all (turn ∷ turns) phase call g =
      let r = advance turn phase call g in advance_all turns r.1 r.2 r.0

  unfoldable pub admit : T → ℕ → List (Turn lru P) → Gate lru P → Gate lru P × Option (Option ℕ)
  unfolding start advance_all
  admit subject now turns g =
      let begun = start subject now g in
      elim begun.1 [
        | none ↦ (begun.0, some none)
        | some call ↦ let r = advance_all turns connecting call begun.0 in (r.0, answer_of r.1)
      ]
