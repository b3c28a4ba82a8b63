-- ===== src/Entry/Refresh.antt =====
-- When a background refresh is due: `refresh_due_at` and `refresh_eligible_at` of src/gate.rs.
use policy_gate.Prelude.{ℕ, ◌-◌, ◌≤◌, ◌<◌, ◌≡◌, arith, true, false, none}
use policy_gate.Word.{is_authoritative, decode_entry_state, deadline_of}
use policy_gate.Entry.{Snapshot, Entry, tick, is_expired_at, refresh_eligible_at, refresh_due_at}

module _ {ℓ} {P F : Type ℓ} (e : Entry P F) (s : Snapshot P) (now : ℕ) where
  -- A refresh is due only for an authoritative decision that has not expired, inside the window
  -- before its deadline, past the cooldown of a failed refresh and the half-life of a capped
  -- result, and only while nothing is pending.
  pub due_lem :
      refresh_due_at e s now ≡ true
      → (is_authoritative (decode_entry_state s.word) ≡ true)
        × (is_expired_at e.epoch s.word now ≡ false)
        × (deadline_of s.word - tick e.epoch now ≤ e.refresh_before)
        × (tick e.epoch now < deadline_of s.word)
        × (s.refresh_after ≤ tick e.epoch now)
        × (e.refresh_not_before ≤ tick e.epoch now)
        × (e.pending ≡ none)
  unfolding refresh_due_at refresh_eligible_at is_expired_at
  due_lem h = (
    ground arith,
    ground arith,
    ground arith,
    ground arith,
    ground arith,
    ground arith,
    ground arith,
  )
