-- ===== src/Facade.antt =====
-- `PolicyGate` of src/gate.rs: what a server holds, over the gate's state, and its construction
-- together with the watcher and the health handle of src/watcher.rs.
pub mod Answers
use Prim.Native.String.{String}
use policy_gate.Prelude.{ℕ, ◌+◌, Bool, Option, none, some, List}
use policy_gate.Decision.{Decision, DecisionResult, DecisionSourceError, Result, ok, err}
use policy_gate.Config.{Config}
use policy_gate.Time.{Poll, sleep, pending, ready}
use policy_gate.Store.{Store}
use policy_gate.Lru.{Lru}
use policy_gate.Subjects.{Slot}
use policy_gate.Gate.{Gate, Lookup}
use policy_gate.Gate.{new as new_state}
use policy_gate.Gate.Access.{Access, check, refresh_entry}
use policy_gate.Gate.Admit.Driver.{Turn}
use policy_gate.Gate.Admit.Driver.{admit as admit_within}
use policy_gate.Watcher.{Watcher, HealthStatus, status}
use policy_gate.Watcher.{start as start_watch}

-- `AdmissionUnavailable`, and its display.
pub data AdmissionUnavailable : Type 0 where
  admission_unavailable : AdmissionUnavailable

abbrev pub display_unavailable : AdmissionUnavailable → String
display_unavailable admission_unavailable = "policy decision source is unavailable"

-- `Option::ok_or`
abbrev pub ok_or {ℓ κ} : {A : Type ℓ} {E : Type κ} → E → Option A → Result E A
ok_or e none = err e
ok_or e (some a) = ok a

-- A handle or a health handle reads what it shares with the gate when it is asked.
pub record Health : Type 0 where
  pub admission_timeout : ℕ

abbrev pub answer : Option (Option ℕ) → Option (Result AdmissionUnavailable ℕ)
answer none = none
answer (some admission) = some (ok_or admission_unavailable admission)

module _ {T : Type 0} {lru : Lru T Slot} {P : Type 0} where
  -- `DecisionWatcher::new`: the loop at its start, and the health handle.
  abbrev pub new_watcher : Gate lru P → Watcher T P × Health
  new_watcher state =
      (start_watch state, record { admission_timeout = state.config.admission_timeout })

  -- `new_with_metrics_and_time_driver`, at the instant that it reads: the state, the watcher at the
  -- start of its loop, and the health handle.
  unfoldable pub new_with_metrics_and_time_driver :
      Config → ℕ → Store P (Lookup T P) → Gate lru P × Watcher T P × Health
  unfolding new_state
  new_with_metrics_and_time_driver config now s =
      let state = new_state config now s in
      let watcher = new_watcher state in (state, watcher.0, watcher.1)

  -- `DecisionSourceHealth::status` at `now`: it shares the mark of the gate.
  unfoldable pub health_status : Health → ℕ → Gate lru P → HealthStatus
  unfolding status
  health_status health now g = status health.admission_timeout g.disconnected_since now

  -- `try_cached`, up to the claim of a refresh.
  unfoldable pub try_cached : T → ℕ → ℕ → ℕ → ℕ → Gate lru P → Gate lru P × Access T P
  unfolding check
  try_cached subject now touched_at verdict_time access_time g =
      check subject now touched_at verdict_time access_time g

  -- `admit`: the answer, where the turns reach one.
  unfoldable pub admit :
      T → ℕ → List (Turn lru P) → Gate lru P → Gate lru P × Option (Result AdmissionUnavailable ℕ)
  unfolding admit_within
  admit subject now turns g = let r = admit_within subject now turns g in (r.0, answer r.1)

  -- `admit_after`, whose sleep starts at `started` and is polled at `now`: once it has ended, an
  -- admission with a deadline of its own.
  unfoldable pub admit_after :
      T
      → ℕ
      → ℕ
      → ℕ
      → List (Turn lru P)
      → Gate lru P
      → Gate lru P × Option (Result AdmissionUnavailable ℕ)
  unfolding sleep admit
  admit_after subject started delay now turns g = elim (sleep started delay now) [
    | pending ↦ (g, none)
    | ready _ ↦ admit subject now turns g
  ]

  -- `refresh`, up to the claim.
  unfoldable pub refresh : T → ℕ → ℕ → ℕ → ℕ → Gate lru P → Gate lru P × Access T P
  unfolding refresh_entry
  refresh subject admission touched_at verdict_time access_time g =
      refresh_entry subject admission touched_at verdict_time access_time g
