-- ===== src/Gate/Admit/Driver/Termination.antt =====
-- How `admit` of src/gate.rs comes to its end, once its deadline has passed.
use policy_gate.Prelude.{ℕ, ◌+◌, ◌-◌, ◌≤◌, ◌≡◌, refl, arith, Option, List, [], ◌∷◌}
use policy_gate.Lru.{Lru}
use policy_gate.Subjects.{Slot}
use policy_gate.Gate.{Gate}
use policy_gate.Gate.Access.{claiming, enqueuing, claim, enqueued}
use policy_gate.Gate.Admit.{Phase, connecting, accessing, fetching, retrying, Call, connect, settle}
use policy_gate.Gate.Admit.{finished as returned}
use policy_gate.Gate.Admit.Driver.{
  Turn, at_connection, at_claim, at_queue, at_lookup, at_retry, meanwhile, advance, advance_all,
}
use policy_gate.Gate.Admit.Driver.Turns.{
  AllLate, IsLate, accessed-left, claim-left, connect-left, landed-left, landed_deadline, left_none,
  own_turns, settle-left, slept-left, slept_deadline, turns_left, turns_left-le,
}

module _ {T : Type 0} {lru : Lru T Slot} {P : Type 0} where
  -- A late turn of the call leaves fewer turns, and the deadline as it is.
  advance-left :
      (turn : Turn lru P) (phase : Phase T P) (call : Call T) (g : Gate lru P)
      → IsLate call.deadline turn phase
      → let r = advance turn phase call g in
        (turns_left r.1 ≤ turns_left phase - own_turns (turn ∷ [])) × (r.2.deadline ≡ call.deadline)
  unfolding advance
  advance-left (at_connection now checked later) connecting call g late =
      let r = connect call now checked later g in
      (
        omega (arith, landed-left call r.0 r.1, connect-left call now checked later g late),
        landed_deadline call r.0 r.1,
      )
  advance-left (at_claim now last) (accessing entry expiring (claiming current until)) call g late =
      let r = claim call.subject entry current until now last g in
      let phase : Phase T P = accessing entry expiring r.1 in
      (
        omega (
          arith,
          landed-left call r.0 phase,
          claim-left call.subject entry expiring current until now last g,
        ),
        landed_deadline call r.0 phase,
      )
  advance-left (at_queue taken now) (accessing entry expiring (enqueuing fetch until)) call g late =
      let r = enqueued entry fetch taken now g in (accessed-left expiring r.1 r.0, refl)
  advance-left (at_lookup wakeup now later) (fetching entry fetch) call g late =
      let r = settle call entry wakeup now later g in
      (
        omega (arith, landed-left call r.0 r.1, settle-left call entry wakeup now later g),
        landed_deadline call r.0 r.1,
      )
  advance-left (at_retry now woken) retrying call g late =
      (slept-left call now woken g late, slept_deadline call now woken g)
  advance-left (meanwhile others) phase call g late = (omega arith, refl)
  advance-left turn (returned admission) call g late = (omega arith, refl)
  advance-left turn phase call g late = absurd late

  own_turns-split :
      (turn : Turn lru P) (turns : List (Turn lru P))
      → own_turns (turn ∷ turns) ≡ own_turns (turn ∷ []) + own_turns turns
  own_turns-split (meanwhile others) turns = omega arith
  own_turns-split turn turns = omega arith

  ends :
      (turns : List (Turn lru P)) (phase : Phase T P) (call : Call T) (g : Gate lru P)
      → AllLate turns phase call g
      → turns_left phase ≤ own_turns turns
      → (admission : Option ℕ) × ((advance_all turns phase call g).1 ≡ returned admission)
  unfolding advance_all
  ends [] phase call g late enough = left_none phase enough
  ends (turn ∷ turns) phase call g late enough =
      let r = advance turn phase call g in
      let less = advance-left turn phase call g late.0 in
      ends turns r.1 r.2 r.0 late.1 (omega (arith, less.0, own_turns-split turn turns, enough))

  -- An admission returns soon after its deadline, in whatever phase the deadline finds it and
  -- whatever others do to the gate in between: four turns of its own are enough, each of which ends
  -- the await that the call is in, and reads the clock at or after the deadline.
  pub admit_returns :
      (turns : List (Turn lru P)) (phase : Phase T P) (call : Call T) (g : Gate lru P)
      → AllLate turns phase call g
      → 4 ≤ own_turns turns
      → (admission : Option ℕ) × ((advance_all turns phase call g).1 ≡ returned admission)
  admit_returns turns phase call g late enough =
      ends turns phase call g late (omega (arith, turns_left-le phase))
