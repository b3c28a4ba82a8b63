-- ===== src/Entry/Liveness.antt =====
-- Which entries of src/gate.rs can still answer: those whose state is not `Stale`. No method of a
-- handle or of the gate's reads brings a stale entry back.
use policy_gate.Prelude.{ℕ, ◌≡◌, refl, arith, Bool, true, false, not, Option}
use policy_gate.Word.{EntryState, decode_entry_state, same_state, stale_word}
use policy_gate.Word.Encoding.{decode-stale_word}
use policy_gate.Entry.{
  Snapshot, PendingFetch, Entry, current_at_loop, current_at, state_at, observed_at, verdict_at,
  compare_exchange_loop, compare_exchange, invalidate_loop, invalidate, abort_pending,
  replace_pending,
}

-- Whether a word is not stale.
abbrev pub live_word : ℕ → Bool
live_word w = not (same_state (decode_entry_state w) EntryState.stale)

abbrev pub is_live {ℓ} : {P F : Type ℓ} → Entry P F → Bool
is_live e = live_word e.current.word

stale_word_dead : (w : ℕ) → live_word (stale_word w) ≡ false
stale_word_dead w = rw (decode-stale_word w) refl

module _ {ℓ} {P F : Type ℓ} (fresh : ℕ) (e : Entry P F) where
  -- `invalidate` leaves the entry stale.
  pub invalidate-dead : is_live (invalidate fresh e).0 ≡ false
  unfolding invalidate invalidate_loop abort_pending
  invalidate-dead = stale_word_dead e.current.word

  pub current_at-tame : (now : ℕ) → is_live (current_at fresh now e).0 ≡ true → is_live e ≡ true
  unfolding current_at current_at_loop
  current_at-tame now h = ground (arith, stale_word_dead e.current.word)

  pub state_at-tame : (now : ℕ) → is_live (state_at fresh now e).0 ≡ true → is_live e ≡ true
  unfolding state_at
  state_at-tame now h = current_at-tame now h

  pub observed_at-tame : (now : ℕ) → is_live (observed_at fresh now e).0 ≡ true → is_live e ≡ true
  unfolding observed_at
  observed_at-tame now h = current_at-tame now h

  pub verdict_at-tame : (now : ℕ) → is_live (verdict_at fresh now e).0 ≡ true → is_live e ≡ true
  unfolding verdict_at
  verdict_at-tame now h = current_at-tame now h

module _ {ℓ} {P F : Type ℓ} (e : Entry P F) where
  -- An exchange from a state that is not `stale` brings no stale entry back.
  pub compare_exchange-tame :
      (expected : EntryState) (next : Snapshot P)
      → same_state expected EntryState.stale ≡ false
      → is_live (compare_exchange expected next e).0 ≡ true
      → is_live e ≡ true
  unfolding compare_exchange compare_exchange_loop
  compare_exchange-tame expected next h live = ground arith

  pub replace_pending-tame :
      (generation : ℕ) (replacement : Option (PendingFetch F))
      → is_live (replace_pending generation replacement e).0 ≡ true
      → is_live e ≡ true
  unfolding replace_pending
  replace_pending-tame generation replacement live = ground arith

  pub abort_pending-tame : is_live (abort_pending e).0 ≡ true → is_live e ≡ true
  unfolding abort_pending
  abort_pending-tame live = live
