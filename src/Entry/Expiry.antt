-- ===== src/Entry/Expiry.antt =====
-- Deadlines and expiry of an entry: `deadline_after`, `is_expired_at` and `current_at` of
-- src/gate.rs.
use policy_gate.Prelude.{
  ℕ, ◌+◌, ◌-◌, ◌^◌, ◌≤◌, ◌<◌, ◌≡◌, ◌≢◌, arith, true, false, leb, List, [], ◌∷◌, ==_iff, ◌==◌, not,
  ◌&&◌,
}
use policy_gate.Time.{duration_max}
use policy_gate.Word.{EntryState, word, decode_entry_state, stale_word, no_expiry}
use policy_gate.Word.Encoding.{word_roundtrip, stale_word_lem}
use policy_gate.Entry.{Snapshot, tick, deadline_after, is_expired_at, current_at_loop}

pub tick-lt : (epoch now : ℕ) → tick epoch now < no_expiry
unfolding tick
tick-lt epoch now = omega arith

pub tick_mono : (epoch now later : ℕ) → now ≤ later → tick epoch now ≤ tick epoch later
unfolding tick
tick_mono epoch now later h = ground arith

-- While less than 2^62 - 2 nanoseconds have passed, a tick is the time since the epoch.
pub tick_exact : (epoch now : ℕ) → now - epoch < no_expiry → tick epoch now ≡ now - epoch
unfolding tick
tick_exact epoch now h = ground arith

-- A word that has expired stays expired.
pub expired_mono :
    (epoch w now later : ℕ)
    → now ≤ later
    → is_expired_at epoch w now ≡ true
    → is_expired_at epoch w later ≡ true
unfolding is_expired_at
expired_mono epoch w now later h e = ground (arith, tick_mono epoch now later)

-- Of a word made of a state and a deadline, only the deadline counts.
pub expired-word :
    (epoch now d : ℕ) (s : EntryState)
    → d ≤ no_expiry
    → is_expired_at epoch (word s d) now ≡ (not (d == no_expiry) && leb d (tick epoch now))
unfolding is_expired_at
expired-word epoch now d s h = rw ((word_roundtrip s d h).1)

deadline_after_fits :
    (epoch now ttl : ℕ)
    → ttl ≢ duration_max
    → tick epoch now + ttl < no_expiry
    → deadline_after epoch now ttl ≡ tick epoch now + ttl
unfolding deadline_after
deadline_after_fits epoch now ttl finite h = ground arith

deadline_after_overflows :
    (epoch now ttl : ℕ)
    → ttl ≢ duration_max
    → no_expiry ≤ tick epoch now + ttl
    → deadline_after epoch now ttl ≡ tick epoch now
unfolding deadline_after
deadline_after_overflows epoch now ttl finite h = ground arith

pub deadline_after-le : (epoch now ttl : ℕ) → deadline_after epoch now ttl ≤ no_expiry
unfolding deadline_after
deadline_after-le epoch now ttl = ground (arith, tick-lt epoch now)

-- A decision published with a finite freshness TTL always gets a finite deadline. It has expired
-- at any later instant whose tick is at least the TTL further on; it is valid at an instant before
-- that, unless its deadline could not be represented, and then it has expired at once.
pub deadline_after_lem :
    (epoch now ttl later : ℕ) (s : EntryState)
    → ttl ≢ duration_max
    → now ≤ later
    → let w = word s (deadline_after epoch now ttl) in
      (tick epoch now + ttl ≤ tick epoch later → is_expired_at epoch w later ≡ true)
      × (tick epoch now + ttl < no_expiry
          → tick epoch later < tick epoch now + ttl
          → is_expired_at epoch w later ≡ false)
      × (no_expiry ≤ tick epoch now + ttl → is_expired_at epoch w now ≡ true)
deadline_after_lem epoch now ttl later s finite h =
    let expires = expired-word epoch later d s (deadline_after-le epoch now ttl) in
    let at_once = expired-word epoch now d s (deadline_after-le epoch now ttl) in
    (
      λ late.
          ground (arith, expires, fits, overflows, tick-lt epoch later, tick_mono epoch now later),
      λ representable early. ground (arith, expires, fits),
      λ unrepresentable. ground (arith, at_once, overflows, tick-lt epoch now),
    )
  where
    d : ℕ
    d = deadline_after epoch now ttl

    fits : tick epoch now + ttl < no_expiry → d ≡ tick epoch now + ttl
    fits = deadline_after_fits epoch now ttl finite

    overflows : no_expiry ≤ tick epoch now + ttl → d ≡ tick epoch now
    overflows = deadline_after_overflows epoch now ttl finite

module _ {ℓ} {P : Type ℓ} where
  abbrev pub AllWords : List (Snapshot P) → Type 0
  AllWords [] = Unit
  AllWords (s ∷ rest) = (s.word < 2 ^ 64) × AllWords rest

module _ {ℓ} {P : Type ℓ} (epoch fresh now : ℕ) where
  -- Whatever 64-bit words other threads store in the cell between the attempts, `current_at` reports a
  -- snapshot as expired exactly when it has expired, and what it returns as expired reads as
  -- stale.
  pub current_at_loop_exact :
      (previous : Snapshot P) (attempts : List (Snapshot P))
      → previous.word < 2 ^ 64
      → AllWords attempts
      → let r = current_at_loop epoch fresh now previous attempts in
        (r.2 ≡ is_expired_at epoch r.1.word now)
        × (r.2 ≡ true → decode_entry_state r.1.word ≡ EntryState.stale)
  unfolding current_at_loop is_expired_at
  current_at_loop_exact previous [] h hs =
      ground
        (arith, stale_word_lem previous.word h, ==_iff previous.word (stale_word previous.word))
  current_at_loop_exact previous (seen ∷ attempts) h hs =
      ground (arith, stale_word_lem previous.word h, current_at_loop_exact seen attempts hs.0 hs.1)
