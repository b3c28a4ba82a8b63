-- ===== src/Tests/Histories.antt =====
-- Histories of a gate and the outcome of lookups at concrete inputs.
use policy_gate.Prelude.{
  ◌⊎◌, is_some, inl, ℕ, ◌≡◌, ◌↔◌, refl, arith, true, false, none, some, List, [], ◌∷◌,
}
use policy_gate.Decision.{
  Decision, DecisionSourceError, ErrorKind, err, ok, DecisionResult, is_permanent_status,
}
use policy_gate.Config.{from_secs, from_millis}
use policy_gate.Word.{EntryState, word, decode_entry_state}
use policy_gate.Entry.{
  Entry, PendingFetch, new_pending, Snapshot, pending_generation, deadline_after, is_expired_at,
  tick, refresh_eligible_at,
}
use policy_gate.Gate.Watch.{decide}
use policy_gate.Store.Liveness.{live_at}
use policy_gate.Subjects.{remove, update, get_or_insert_with, clear_all, evict, activity_tick}
use policy_gate.Subjects.History.{perform, Op, lookup, decision, removal, outside, perform_all}
use policy_gate.Subjects.Handles.{perform_all-Covered}
use policy_gate.Admission.{is_allowed, state, AdmissionState}
use policy_gate.Admission.Checks.{checks_agree}
use policy_gate.Gate.{Gate, Lookup, entry_at, with_store, decision_snapshot, new, republish_if_due}
use policy_gate.Gate.Fetch.{answered, run_fetch, Readings, apply_fetch_result}
use policy_gate.Gate.Fetch.Outcome.{decide_wins, refresh_failure_keeps, permanent_failure_cools}
use policy_gate.Gate.Access.{claim}
use policy_gate.Gate.Access.SingleFlight.{claim_lem}
use policy_gate.Gate.Admit.{Call, connect, create}
use policy_gate.Gate.Admit.Completion.{first_lookup_admits}
use policy_gate.Gate.Watch.{watch_disconnected, watch_connected, apply_change}
use policy_gate.Gate.Safety.{create-CreatesOne, decide-ChangesOne}
use policy_gate.Gate.Safety.Reads.{AllListed}
use policy_gate.Gate.Safety.Events.{
  react, Event, admits, changes, connects, observes, react_all, AllKnown,
}
use policy_gate.Gate.Safety.Histories.{disconnection_denies}
use policy_gate.Gate.Safety.Origins.{allowed_at}
use policy_gate.Gate.Safety.Origins.Fetches.{IsFit, fetch_allows}
use policy_gate.Gate.Safety.Origins.Histories.{Said, is_allowed-Said}
use policy_gate.Gate.Safety.Owners.Histories.{Granted, admitted-Granted}
use policy_gate.Store.{no_memory, invalidate_at}
use policy_gate.Tests.Data.{config, lru, no_entry, subjects, gate}

gate-AllListed : AllListed gate
unfolding word decode_entry_state
gate-AllListed a live = absurd (ground arith)

abbrev call : Call ℕ
call = record { subject = 9; deadline = from_secs 60; retry_delay = from_millis 100 }

abbrev events : List (Event ℕ ℕ)
events =
    connects
    ∷ admits call (from_secs 51) (from_secs 51) (from_secs 51)
    ∷ changes (record { subject = 9; decision = some Decision.allowed }) (from_secs 52)
        (from_secs 52) (from_secs 52)
    ∷ observes 1 (from_secs 53)
    ∷ []

abbrev fresh_gate : Gate lru ℕ
fresh_gate = new config (from_secs 50) no_memory

abbrev known : AllKnown events fresh_gate
known = (tt, (tt, (tt, (tt, tt))))

-- The entry that the admission made for subject 9 is at address 1.
disconnection_denies_example :
    (is_allowed 1
      (from_secs 54)
      (watch_disconnected (from_secs 54) (react_all events fresh_gate)).store).1
    ≡ some false
disconnection_denies_example =
    (disconnection_denies lru ℕ events config (from_secs 50) (from_secs 54) 1 (from_secs 54)
      known).0

is_allowed-Said_example : Said events fresh_gate 1
unfolding new react_all is_allowed is_expired_at react apply_change republish_if_due evict connect
    watch_connected activity_tick decode_entry_state native.Mathlib.Decide.ℕ_discrete
is_allowed-Said_example =
    is_allowed-Said lru ℕ events config (from_secs 50) 1 (from_secs 53) known refl

admitted-Granted_example : Granted events 9 1
unfolding new react_all is_allowed is_expired_at react apply_change republish_if_due evict connect
    watch_connected activity_tick decode_entry_state native.Mathlib.Decide.ℕ_discrete
admitted-Granted_example =
    admitted-Granted lru ℕ events config (from_secs 50) 9 1 (from_secs 53) known (inl refl) refl

-- Subject 9 gets an entry, at address 1, which a change allows; then subject 7's goes.
abbrev ops : List (Op ℕ ℕ (Lookup ℕ ℕ))
ops =
    lookup (from_secs 52) 9 (create 9 (from_secs 52) (from_secs 10))
    ∷ decision (from_secs 53) 9 (decide config Decision.allowed (from_secs 53))
    ∷ outside (from_secs 54) (λ s. s)
    ∷ removal (from_secs 58) 7
    ∷ []

-- The entry of subject 9 can answer until the clear.
entry_lives : live_at (perform_all ops subjects).store 1 ≡ true
unfolding perform_all perform remove evict update get_or_insert_with activity_tick invalidate_at
    decide create decode_entry_state native.Mathlib.Decide.ℕ_discrete
entry_lives = refl

perform_all-Covered_example : live_at (clear_all (perform_all ops subjects)).store 1 ≡ false
perform_all-Covered_example =
    (perform_all-Covered ops subjects
        (
          create-CreatesOne 9 (from_secs 52) (from_secs 10),
          (
            decide-ChangesOne config Decision.allowed (from_secs 53),
            ((λ s a live. live), (tt, tt)),
          ),
        )
        gate-AllListed).1
      1

-- A gate whose entry 11 waits for the lookup of generation 5.
abbrev lookup_of : PendingFetch (Lookup ℕ ℕ)
lookup_of = record {
  generation = 5;
  future = record { subject = 7; entry = 11; delay = none; refresh_from = none };
}

abbrev waiting_entry : Entry ℕ (Lookup ℕ ℕ)
waiting_entry = new_pending 3 0 lookup_of (from_secs 10)

abbrev waiting_gate : Gate lru ℕ
waiting_gate = record gate {
  subjects = record subjects {
    store = record { entries = λ _. waiting_entry; next = 20; aborted = [] };
  };
}

abbrev at : Readings
at = record { making = 6; checking = 7; applying = 8 }

abbrev denied_error : DecisionSourceError
denied_error = record { kind = ErrorKind.permanent; message = "gone" }

permanent_failure_cools_example :
    (apply_fetch_result 7 11 5 none at (err denied_error) waiting_gate).0.cache ≡ waiting_gate.cache
unfolding new_pending is_permanent_status pending_generation
permanent_failure_cools_example =
    (permanent_failure_cools waiting_gate 7 11 5 at denied_error (omega arith) refl refl refl).2

refresh_failure_keeps_example :
    (entry_at
      (apply_fetch_result 7 11 5 (some no_entry.current) at (err denied_error) waiting_gate).0
      11).pending
    ≡ none
unfolding new_pending pending_generation
refresh_failure_keeps_example =
    (refresh_failure_keeps waiting_gate 7 11 5 9 no_entry.current at denied_error refl
      (omega arith)).1

decide_wins_example :
    let decided = with_store waiting_gate (decide config Decision.denied 4 11 waiting_gate.store) in
    (apply_fetch_result 7 11 5 none at (err denied_error) decided).0 ≡ decided
decide_wins_example =
    decide_wins waiting_gate config Decision.denied 4 7 11 5 none at (err denied_error)

abbrev good : DecisionResult ℕ
good = record { decision = Decision.allowed; payload = none; valid_until = none }

first_lookup_admits_example :
    (is_allowed 11 8
      (run_fetch lookup_of true 6 at (answered (ok (some good))) waiting_gate).0.store).1
    ≡ some true
unfolding new_pending decision_snapshot word decode_entry_state pending_generation is_expired_at
    deadline_after tick
first_lookup_admits_example =
    (first_lookup_admits waiting_gate call lookup_of 6 8 8 at good refl refl refl refl refl refl
      refl refl).2

fetch_allows_example :
    (allowed_at waiting_gate.store 11 ≡ true)
    ⊎ ((lookup_of.future.entry ≡ lookup_of.future.entry)
        × (is_some (pending_generation 5 waiting_entry) ≡ true)
        × ((r : DecisionResult ℕ) × IsFit 11 at (ok good) waiting_gate r))
unfolding new_pending decision_snapshot word decode_entry_state pending_generation is_expired_at
    deadline_after tick apply_fetch_result
fetch_allows_example = fetch_allows 7 11 5 none at (ok good) waiting_gate 11 refl

-- Entry 11 is allowed until ten seconds, with nothing pending.
abbrev served : Snapshot ℕ
served = record {
  addr = 2;
  word = word EntryState.allowed (from_secs 10);
  payload = none;
  refresh_after = 0;
}

abbrev served_gate : Gate lru ℕ
served_gate = record gate {
  subjects = record subjects {
    store = record { entries = λ _. record no_entry { current = served }; next = 20; aborted = [] };
  };
}

abbrev refresh_of : PendingFetch (Lookup ℕ ℕ)
refresh_of = record {
  generation = 20;
  future = record { subject = 7; entry = 11; delay = none; refresh_from = some served };
}

claim_lem_example : (entry_at served_gate 11).pending ≡ none
unfolding claim refresh_eligible_at tick word decode_entry_state
claim_lem_example = (claim_lem served_gate 7 11 served 90 5 6 90 refresh_of refl).0

checks_agree_example :
    ((is_allowed 11 5 served_gate.store).1 ≡ some true)
    ↔ ((state 11 5 served_gate.store).1 ≡ some AdmissionState.allowed)
checks_agree_example = (checks_agree 11 5 served_gate.store).0
