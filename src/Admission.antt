-- ===== src/Admission.antt =====
-- `Admission` of src/gate.rs: a handle on an entry, known by the entry's address. Its checks read
-- the entry's live state, and mark an expired decision stale.
pub mod Checks
use policy_gate.Prelude.{ℕ, Bool, true, false, not, ◌&&◌, Option, none, some, if◌then◌else◌}
use policy_gate.Word.{EntryState, Observed, decode_entry_state, same_state}
use policy_gate.Entry.{Entry, Snapshot, current_at, observed_at, verdict_at, refresh_due_at}
use policy_gate.Store.{Store, run, invalidate_at}

pub data AdmissionState : Type 0 where
  allowed denied stale : AdmissionState

abbrev pub is_allowed_state : AdmissionState → Bool
is_allowed_state AdmissionState.allowed = true
is_allowed_state AdmissionState.denied = false
is_allowed_state AdmissionState.stale = false

-- `none` where the code is unreachable: an admission is made only from a verdict.
abbrev pub admission_state : EntryState → Option AdmissionState
admission_state EntryState.pending = none
admission_state EntryState.allowed = some AdmissionState.allowed
admission_state EntryState.denied = some AdmissionState.denied
admission_state EntryState.stale = some AdmissionState.stale

abbrev pub state_of : Observed → AdmissionState
state_of Observed.allowed = AdmissionState.allowed
state_of Observed.denied = AdmissionState.denied
state_of Observed.expired = AdmissionState.stale
state_of Observed.stale = AdmissionState.stale

abbrev pub map_option {ℓ κ} : {A : Type ℓ} {B : Type κ} → (A → B) → Option A → Option B
map_option f none = none
map_option f (some a) = some (f a)

module _ {P F : Type 0} where
  unfoldable pub observe : ℕ → ℕ → Store P F → Store P F × Option Observed
  unfolding observed_at
  observe entry now s = run (λ fresh. observed_at fresh now) entry s

  unfoldable pub state : ℕ → ℕ → Store P F → Store P F × Option AdmissionState
  unfolding observe
  state entry now s = let r = observe entry now s in (r.0, map_option state_of r.1)

  unfoldable pub is_allowed : ℕ → ℕ → Store P F → Store P F × Option Bool
  unfolding state
  is_allowed entry now s = let r = state entry now s in (r.0, map_option is_allowed_state r.1)

  -- `current_at`, with the snapshot and the flag paired.
  abbrev pub reading : ℕ → ℕ → Entry P F → Entry P F × (Snapshot P × Bool)
  reading now fresh e = let r = current_at fresh now e in (r.0, (r.1, r.2))

  -- The state, and whether a background refresh should start now.
  unfoldable pub check : ℕ → ℕ → Store P F → Store P F × Option (AdmissionState × Bool)
  unfolding current_at refresh_due_at
  check entry now s =
      let r = run (reading now) entry s in
      let due = refresh_due_at (r.0.entries entry) r.1.0 now in
      (
        r.0,
        if r.1.1
            then some (AdmissionState.stale, false)
            else map_option (λ st. (st, due)) (admission_state (decode_entry_state r.1.0.word)),
      )

  unfoldable pub payload : ℕ → ℕ → Store P F → Store P F × Option P
  unfolding current_at
  payload entry now s =
      let r = run (reading now) entry s in
      (
        r.0,
        if not r.1.1 && same_state (decode_entry_state r.1.0.word) EntryState.allowed
            then r.1.0.payload
            else none,
      )

  abbrev pub invalidate : ℕ → Store P F → Store P F
  invalidate entry s = invalidate_at entry s

abbrev pub made_from {ℓ} : {A : Type ℓ} → ℕ → Option A → Option ℕ
made_from entry none = none
made_from entry (some _) = some entry

-- `Entry::admission`: a handle, if the entry has a verdict at `now`.
unfoldable pub admission : {P F : Type 0} → ℕ → ℕ → Store P F → Store P F × Option ℕ
unfolding verdict_at
admission entry now s =
    let r = run (λ fresh. verdict_at fresh now) entry s in (r.0, made_from entry r.1)
