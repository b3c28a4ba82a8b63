-- ===== src/Tests/Admissions.antt =====
-- An admission through the facade at concrete inputs.
use policy_gate.Prelude.{ℕ, ◌≡◌, ap, arith, subst, true, Option, none, some, List, [], ◌∷◌, ◌++◌}
use policy_gate.Decision.{Result}
use policy_gate.Config.{from_secs, from_millis}
use policy_gate.Store.{no_memory}
use policy_gate.Gate.{Gate, new}
use policy_gate.Gate.Admit.{Call, start, connecting}
use policy_gate.Gate.Admit.Driver.{Turn, at_connection, at_retry, advance, advance_all}
use policy_gate.Gate.Admit.Driver.Turns.{AllLate}
use policy_gate.Facade.{AdmissionUnavailable, admit}
use policy_gate.Facade.Answers.{admit_answers}
use policy_gate.Tests.Data.{config, lru}

abbrev new_gate : Gate lru ℕ
new_gate = new config (from_secs 50) no_memory

abbrev call : Call ℕ
call = record { subject = 9; deadline = from_secs 60; retry_delay = from_millis 100 }

-- The watch does not come up.
abbrev early : List (Turn lru ℕ)
early = at_connection (from_secs 51) (from_secs 51) (from_secs 51) ∷ []

abbrev late : List (Turn lru ℕ)
late =
    at_connection (from_secs 61) (from_secs 61) (from_secs 61)
    ∷ at_retry 0 true
    ∷ at_retry 0 true
    ∷ at_retry 0 true
    ∷ []

abbrev call_or : Call ℕ → Option (Call ℕ) → Call ℕ
call_or c none = c
call_or c (some d) = d

on_time :
    let r = advance_all early connecting call (start 9 (from_secs 50) new_gate).0 in
    AllLate late r.1 r.2 r.0
unfolding advance_all advance start new
on_time = (omega arith, (tt, (tt, (tt, tt))))

admit_answers_example :
    (given : Result AdmissionUnavailable ℕ) × ((admit 9 (from_secs 50) (early ++ late) new_gate).1
      ≡ some given)
unfolding start new
admit_answers_example =
    admit_answers 9 (from_secs 50) early late new_gate
      (λ c e.
        let same : call ≡ c = ap (call_or call) e in
        subst
          (λ (d : Call ℕ).
            let r = advance_all early connecting d (start 9 (from_secs 50) new_gate).0 in
            AllLate late r.1 r.2 r.0)
          same on_time)
      (omega arith)
