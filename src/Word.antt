-- ===== src/Word.antt =====
-- The 64-bit word of an entry, src/gate.rs: the two low bits hold the state and the upper
-- bits the deadline in nanoseconds since the entry's epoch.
pub mod Encoding
use policy_gate.Prelude.{
  ℕ, ◌+◌, ◌-◌, ◌*◌, ◌/◌, ◌%◌, ◌^◌, Bool, true, false, bit_and, bit_or, ◌==◌, if◌then◌else◌, Option,
  none, some,
}
use policy_gate.Decision.{Decision}

pub data EntryState : Type 0 where
  pending allowed denied stale : EntryState

pub data Observed : Type 0 where
  allowed denied expired stale : Observed

-- The `repr(u8)` of a state.
abbrev pub as_u64 : EntryState → ℕ
as_u64 EntryState.pending = 0
as_u64 EntryState.allowed = 1
as_u64 EntryState.denied = 2
as_u64 EntryState.stale = 3

abbrev pub from_decision : Decision → EntryState
from_decision Decision.allowed = EntryState.allowed
from_decision Decision.denied = EntryState.denied

abbrev pub is_authoritative : EntryState → Bool
is_authoritative EntryState.pending = false
is_authoritative EntryState.allowed = true
is_authoritative EntryState.denied = true
is_authoritative EntryState.stale = false

abbrev pub same_state : EntryState → EntryState → Bool
same_state a b = as_u64 a == as_u64 b

-- What an admission sees of a state that has not expired. `none` where the code is unreachable:
-- an admission is made only from a verdict.
abbrev pub observed_state : EntryState → Option Observed
observed_state EntryState.pending = none
observed_state EntryState.allowed = some Observed.allowed
observed_state EntryState.denied = some Observed.denied
observed_state EntryState.stale = some Observed.stale

-- The decision in force in a state that has not expired.
abbrev pub decided : EntryState → Option Decision
decided EntryState.pending = none
decided EntryState.allowed = some Decision.allowed
decided EntryState.denied = some Decision.denied
decided EntryState.stale = none

abbrev pub state_mask : ℕ
state_mask = 3

abbrev pub no_expiry : ℕ
no_expiry = 2 ^ 62 - 1

abbrev pub max_finite_deadline : ℕ
max_finite_deadline = no_expiry - 1

-- A shift drops what leaves the 64 bits.
unfoldable pub word : EntryState → ℕ → ℕ
word state deadline = bit_or (deadline * 4 % 2 ^ 64) (as_u64 state)

-- The fourth arm of the match; no other value is below four.
unfoldable pub decode_entry_state : ℕ → EntryState
decode_entry_state decision =
    let tag = bit_and decision state_mask in
    if tag == 0
    then EntryState.pending
    else if tag == 1
    then EntryState.allowed
    else if tag == 2
    then EntryState.denied
    else EntryState.stale

abbrev pub deadline_of : ℕ → ℕ
deadline_of decision = decision / 4

-- `(word & !STATE_MASK) | Stale`
unfoldable pub stale_word : ℕ → ℕ
stale_word decision = bit_or (bit_and decision (2 ^ 64 - 1 - state_mask)) (as_u64 EntryState.stale)
