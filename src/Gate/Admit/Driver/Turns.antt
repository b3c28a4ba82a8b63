-- ===== src/Gate/Admit/Driver/Turns.antt =====
-- The turns of an `admit` call of src/gate.rs after its deadline, and how many are left.
use policy_gate.Prelude.{
  ℕ, suc, ◌≤◌, ◌≡◌, ◌⊎◌, inl, inr, refl, arith, Bool, true, false, Option, none, some, List, [],
  ◌∷◌,
}
use policy_gate.Lru.{Lru}
use policy_gate.Subjects.{Slot}
use policy_gate.Gate.{Gate, with_store}
use policy_gate.Store.{run}
use policy_gate.Decision.{Result}
use policy_gate.Gate.Access.{finished, claiming, enqueuing, claim, access}
use policy_gate.Gate.Fetch.{FetchResult}
use policy_gate.Gate.Admit.{
  Phase, connecting, accessing, fetching, retrying, Call, Wakeup, connect, settle, accessed, slept,
  result, aborted, changed, elapsed, retry_or_fail,
}
use policy_gate.Gate.Admit.{finished as returned}
use policy_gate.Gate.Admit.Driver.{
  Turn, at_connection, at_claim, at_queue, at_lookup, at_retry, meanwhile, landed, advance,
}
use policy_gate.Entry.{Snapshot, state_at}

-- How many turns are left at most, once the deadline has passed.
abbrev pub turns_left : {T P : Type 0} → Phase T P → ℕ
turns_left (returned admission) = 0
turns_left connecting = 1
turns_left retrying = 1
turns_left (accessing entry expiring (finished admission)) = 2
turns_left (accessing entry expiring (enqueuing fetch deadline)) = 2
turns_left (accessing entry expiring (claiming current deadline)) = 3
turns_left (fetching entry fetch) = 4

module _ {T P : Type 0} where
  pub left_none :
      (phase : Phase T P)
      → turns_left phase ≤ 0
      → (admission : Option ℕ) × (phase ≡ returned admission)
  left_none (returned admission) h = (admission, refl)
  left_none connecting h = absurd (omega arith)
  left_none retrying h = absurd (omega arith)
  left_none (fetching entry fetch) h = absurd (omega arith)
  left_none (accessing entry expiring (finished admission)) h = absurd (omega arith)
  left_none (accessing entry expiring (enqueuing fetch until)) h = absurd (omega arith)
  left_none (accessing entry expiring (claiming current until)) h = absurd (omega arith)

  pub turns_left-le : (phase : Phase T P) → turns_left phase ≤ 4
  turns_left-le (returned admission) = omega arith
  turns_left-le connecting = omega arith
  turns_left-le retrying = omega arith
  turns_left-le (fetching entry fetch) = omega arith
  turns_left-le (accessing entry expiring (finished admission)) = omega arith
  turns_left-le (accessing entry expiring (enqueuing fetch until)) = omega arith
  turns_left-le (accessing entry expiring (claiming current until)) = omega arith

module _ {T : Type 0} {lru : Lru T Slot} {P : Type 0} where
  -- The turn ends the await that the phase is in, at or after the deadline where it reads the clock
  -- for it; or others run.
  abbrev pub IsLate : ℕ → Turn lru P → Phase T P → Type 0
  IsLate deadline turn (returned admission) = Unit {0}
  IsLate deadline (meanwhile others) phase = Unit {0}
  IsLate deadline (at_connection now checked later) connecting = deadline ≤ now
  IsLate deadline (at_claim now last) (accessing entry expiring (claiming current until)) = Unit {0}
  IsLate deadline (at_queue taken now) (accessing entry expiring (enqueuing fetch until)) = Unit {0}
  IsLate deadline (at_lookup wakeup now later) (fetching entry fetch) = Unit {0}
  IsLate deadline (at_retry now woken) retrying = deadline ≤ now
  IsLate deadline turn phase = ⊥

  abbrev pub AllLate : List (Turn lru P) → Phase T P → Call T → Gate lru P → Type 0
  AllLate [] phase call g = Unit {0}
  AllLate (turn ∷ turns) phase call g =
      let r = advance turn phase call g in
      IsLate call.deadline turn phase × AllLate turns r.1 r.2 r.0

  -- The turns of the call itself.
  abbrev pub own_turns : List (Turn lru P) → ℕ
  own_turns [] = 0
  own_turns (meanwhile others ∷ turns) = own_turns turns
  own_turns (turn ∷ turns) = suc (own_turns turns)

  pub accessed-left :
      (expiring : Bool) (admission : Option ℕ) (g : Gate lru P)
      → turns_left (accessed expiring admission g).1 ≤ 1
  unfolding accessed
  accessed-left expiring (some entry) g = omega arith
  accessed-left true none g = omega arith
  accessed-left false none g = omega arith

  pub landed-left :
      (call : Call T) (g : Gate lru P) (phase : Phase T P)
      → turns_left (landed call (g, phase)).1 ≤ turns_left phase
  landed-left call g (accessing entry expiring (finished admission)) =
      omega (arith, accessed-left expiring admission g)
  landed-left call g (accessing entry expiring (enqueuing fetch until)) = omega arith
  landed-left call g (accessing entry expiring (claiming current until)) = omega arith
  landed-left call g connecting = omega arith
  landed-left call g retrying = omega arith
  landed-left call g (fetching entry fetch) = omega arith
  landed-left call g (returned admission) = omega arith

  access-left :
      (entry : ℕ) (expiring : Bool) (outer : Option ℕ) (now access_time : ℕ) (g : Gate lru P)
      → turns_left {T = T} {P = P}
          (accessing entry expiring (access entry outer now access_time g).1)
        ≤ 3
  unfolding access
  access-left entry expiring outer now access_time g = ground arith

  retry-left : (outcome : FetchResult) (g : Gate lru P) → turns_left (retry_or_fail outcome g).1 ≤ 1
  retry-left (Result.ok _) g = omega arith
  retry-left (Result.err e) g = ground arith

  settle_result :
      (call : Call T) (entry : ℕ) (outcome : FetchResult) (now later : ℕ) (g : Gate lru P)
      → let seen = with_store g (run (λ fresh. state_at fresh now) entry g.store).0 in
        let phase = (settle call entry (result outcome) now later g).1 in
        (phase ≡ connecting)
        ⊎ (phase ≡ accessing entry false (access entry (some call.deadline) later later seen).1)
        ⊎ (phase ≡ (retry_or_fail outcome seen).1)
  unfolding settle
  settle_result call entry outcome now later g = ground arith

  pub settle-left :
      (call : Call T) (entry : ℕ) (wakeup : Wakeup) (now later : ℕ) (g : Gate lru P)
      → turns_left (settle call entry wakeup now later g).1 ≤ 3
  unfolding settle
  settle-left call entry aborted now later g = omega arith
  settle-left call entry changed now later g = omega arith
  settle-left call entry elapsed now later g =
      access-left entry true (some call.deadline) now later g
  settle-left call entry (result outcome) now later g =
      let seen = with_store g (run (λ fresh. state_at fresh now) entry g.store).0 in
      elim (settle_result call entry outcome now later g) [
        | inl e ↦ rw e (omega arith)
        | inr (inl e) ↦ rw e (access-left entry false (some call.deadline) later later seen)
        | inr (inr e) ↦ rw e (omega (arith, retry-left outcome seen))
      ]

  pub claim-left :
      (subject : T) (entry : ℕ) (expiring : Bool) (current : Snapshot P) (deadline now last : ℕ)
      (g : Gate lru P)
      → turns_left {T = T} {P = P}
          (accessing entry expiring (claim subject entry current deadline now last g).1)
        ≤ 2
  unfolding claim
  claim-left subject entry expiring current deadline now last g = ground arith

  pub connect-left :
      (call : Call T) (now checked later : ℕ) (g : Gate lru P)
      → call.deadline ≤ now
      → turns_left (connect call now checked later g).1 ≤ 0
  unfolding connect
  connect-left call now checked later g late = ground arith

  pub landed_deadline :
      (call : Call T) (g : Gate lru P) (phase : Phase T P)
      → (landed call (g, phase)).2.deadline ≡ call.deadline
  landed_deadline call g (accessing entry expiring (finished admission)) = refl
  landed_deadline call g phase = refl

  pub slept-left :
      (call : Call T) (now : ℕ) (woken : Bool) (g : Gate lru P)
      → call.deadline ≤ now
      → turns_left (slept call g.config now woken g).1 ≤ 0
  unfolding slept
  slept-left call now woken g late = ground arith

  pub slept_deadline :
      (call : Call T) (now : ℕ) (woken : Bool) (g : Gate lru P)
      → (slept call g.config now woken g).2.deadline ≡ call.deadline
  unfolding slept
  slept_deadline call now woken g = ground arith
