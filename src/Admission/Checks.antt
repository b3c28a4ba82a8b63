-- ===== src/Admission/Checks.antt =====
-- What the checks of a handle give, src/gate.rs `Admission`, and that they agree.
use policy_gate.Prelude.{ℕ, ◌≡◌, ◌↔◌, ◌⊎◌, arith, true, false, none, some}
use policy_gate.Word.{EntryState, decode_entry_state}
use policy_gate.Entry.{current_at, current_at_loop, observed_at, verdict_at}
use policy_gate.Entry.Liveness.{live_word}
use policy_gate.Store.{Store}
use policy_gate.Store.Liveness.{live_at}
use policy_gate.Admission.{AdmissionState, observe, state, is_allowed, check, payload, admission}

dead_state : (w : ℕ) → live_word w ≡ false → decode_entry_state w ≡ EntryState.stale
dead_state w dead = ground arith

module _ {P F : Type 0} (entry now : ℕ) (s : Store P F) where
  reading_dead :
      live_at s entry ≡ false
      → let r = current_at s.next now (s.entries entry) in
        (r.2 ≡ true) ⊎ (decode_entry_state r.1.word ≡ EntryState.stale)
  unfolding current_at current_at_loop
  reading_dead dead = ground (arith, dead_state (s.entries entry).current.word)

  -- A handle on a stale entry is denied everything: it reads as stale and is not allowed, it has
  -- no payload, and no new handle is made of its entry.
  pub dead_denies :
      live_at s entry ≡ false
      → ((state entry now s).1 ≡ some AdmissionState.stale)
        × ((is_allowed entry now s).1 ≡ some false)
        × ((check entry now s).1 ≡ some (AdmissionState.stale, false))
        × ((payload entry now s).1 ≡ none)
        × ((admission entry now s).1 ≡ none)
  unfolding observe state is_allowed check payload admission observed_at verdict_at
  dead_denies dead =
      let read = reading_dead dead in
      (
        ground (arith, read),
        ground (arith, read),
        ground (arith, read),
        ground (arith, read),
        ground (arith, read),
      )

  -- The checks of a handle agree at one instant: it is allowed exactly when its state is allowed,
  -- a payload comes only with an allowed state, and its entry gives a new handle exactly when its
  -- state is a decision.
  pub checks_agree :
      ((is_allowed entry now s).1 ≡ some true
        ↔ ((state entry now s).1 ≡ some AdmissionState.allowed))
      × ((v : P) → (payload entry now s).1 ≡ some v → (is_allowed entry now s).1 ≡ some true)
      × ((admission entry now s).1 ≡ some entry
          ↔ ((state entry now s).1 ≡ some AdmissionState.allowed)
            ⊎ ((state entry now s).1 ≡ some AdmissionState.denied))
  unfolding observe state is_allowed payload admission observed_at verdict_at
  checks_agree = (ground arith, λ v h. ground arith, ground arith)
