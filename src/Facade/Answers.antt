-- ===== src/Facade/Answers.antt =====
-- `PolicyGate::admit` of src/gate.rs has an answer soon after its deadline.
use policy_gate.Prelude.{ℕ, ◌≤◌, ◌≡◌, inl, inr, refl, some, List, [], ◌∷◌, ◌++◌, Option-cases}
use policy_gate.Decision.{Result}
use policy_gate.Lru.{Lru}
use policy_gate.Subjects.{Slot}
use policy_gate.Gate.{Gate}
use policy_gate.Gate.Admit.{Phase, Call, start, connecting}
use policy_gate.Gate.Admit.Driver.{Turn, advance, advance_all}
use policy_gate.Gate.Admit.Driver.{admit as admit_within}
use policy_gate.Gate.Admit.Driver.Termination.{admit_returns}
use policy_gate.Gate.Admit.Driver.Turns.{AllLate, own_turns}
use policy_gate.Facade.{AdmissionUnavailable, admission_unavailable, ok_or, admit}

module _ {T : Type 0} {lru : Lru T Slot} {P : Type 0} where
  advance_all-append :
      (early late : List (Turn lru P)) (phase : Phase T P) (call : Call T) (g : Gate lru P)
      → let r = advance_all early phase call g in
        advance_all (early ++ late) phase call g ≡ advance_all late r.1 r.2 r.0
  unfolding advance_all
  advance_all-append [] late phase call g = refl
  advance_all-append (turn ∷ early) late phase call g =
      let r = advance turn phase call g in advance_all-append early late r.1 r.2 r.0

  -- However an admission has come to its deadline, and whatever others do to the gate meanwhile, four
  -- more turns of its own give it an answer, if each ends the await that the call is in and reads the
  -- clock at or after the deadline; an admission whose deadline cannot be represented has its answer
  -- at once.
  pub admit_answers :
      (subject : T) (now : ℕ) (early late : List (Turn lru P)) (g : Gate lru P)
      → ((call : Call T)
          → (start subject now g).1 ≡ some call
          → let r = advance_all early connecting call (start subject now g).0 in
            AllLate late r.1 r.2 r.0)
      → 4 ≤ own_turns late
      → (given : Result AdmissionUnavailable ℕ) × ((admit subject now (early ++ late) g).1
          ≡ some given)
  unfolding admit admit_within
  admit_answers subject now early late g on_time enough =
      elim (Option-cases (start subject now g).1) [
        | inl e ↦ (Result.err admission_unavailable, rw (e, admit, admit_within) refl)
        | inr (call, e) ↦
            let r = advance_all early connecting call (start subject now g).0 in
            let (admission, ended) = admit_returns late r.1 r.2 r.0 (on_time call e) enough in
            (
              ok_or admission_unavailable admission,
              rw
                  (
                    e,
                    admit,
                    admit_within,
                    advance_all-append early late connecting call (start subject now g).0,
                    ended,
                  )
                  refl,
            )
      ]
