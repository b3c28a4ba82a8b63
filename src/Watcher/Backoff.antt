-- ===== src/Watcher/Backoff.antt =====
-- The reconnect backoff of src/watcher.rs.
use policy_gate.Prelude.{
  ℕ, ◌+◌, ◌-◌, ◌*◌, ◌/◌, ◌%◌, ◌^◌, ◌≤◌, ◌<◌, ◌≡◌, refl, arith, false, ◌==◌, Bool-cases, inl, inr,
  none,
}
use native.Mathlib.Nat.{mod-lt}
use policy_gate.Time.{duration_max}
use policy_gate.Lru.{Lru}
use policy_gate.Subjects.{Slot}
use policy_gate.Gate.{Gate}
use policy_gate.Watcher.{
  Watcher, WatchPhase, opening, Work, opened, failed_open, jitter, wake, reopen,
}

-- The sum of `u64` does not overflow.
sum_fits : (m r : ℕ) → 5 * m < 2 ^ 66 → r < m / 2 → (m - m / 2 / 2 + r) % 2 ^ 64 ≡ m - m / 2 / 2 + r
sum_fits m r fits h = omega arith

jitter_large :
    (random delay : ℕ)
    → 5 * (delay / 1_000_000) < 2 ^ 66
    → (delay / 1_000_000 / 2 == 0) ≡ false
    → jitter random delay
      ≡ (delay / 1_000_000 - delay / 1_000_000 / 2 / 2 + random % (delay / 1_000_000 / 2))
        * 1_000_000
unfolding jitter
jitter_large random delay fits large =
    let m = delay / 1_000_000 in
    let drawn : random % (m / 2) < m / 2 = mod-lt random (ground arith) in
    let in_range : (m - m / 2 / 2 + random % (m / 2)) % 2 ^ 64 ≡ m - m / 2 / 2 + random % (m / 2) =
      sum_fits m (random % (m / 2)) fits drawn in
    ground (arith, in_range)

spread_bounds :
    (m r j delay : ℕ)
    → m ≡ delay / 1_000_000
    → r < m / 2
    → j ≡ (m - m / 2 / 2 + r) * 1_000_000
    → (0 < j) × (4 * j ≤ 5 * delay) × (3 * delay < 4 * (j + 1_000_000))
spread_bounds m r j delay e h k = omega arith

-- For a delay of less than four fifths of 2^64 milliseconds, the jittered delay is never zero where
-- the delay is not, and stays within a quarter of the delay to both sides, up to the millisecond that
-- the code rounds to.
pub jitter_bounds :
    (random delay : ℕ)
    → 0 < delay
    → 5 * (delay / 1_000_000) < 2 ^ 66
    → (0 < jitter random delay)
      × (4 * jitter random delay ≤ 5 * delay)
      × (3 * delay < 4 * (jitter random delay + 1_000_000))
unfolding jitter
jitter_bounds random delay h fits = elim (Bool-cases (delay / 1_000_000 / 2 == 0)) [
  | inl small ↦ ground arith
  | inr large ↦
      spread_bounds (delay / 1_000_000) (random % (delay / 1_000_000 / 2)) (jitter random delay)
        delay refl (mod-lt random (ground arith)) (jitter_large random delay fits large)
]

module _ {T : Type 0} {lru : Lru T Slot} {P : Type 0} where
  -- What the next reconnect delay must keep to.
  pub record InBounds (g : Gate lru P) (delay : ℕ) : Type 0 where
    pub least : g.config.initial_reconnect_delay ≤ delay
    pub most : delay ≤ g.config.max_reconnect_delay

  module _ (random now : ℕ) (w : Watcher T P) (g : Gate lru P) where
    -- Whatever the loop wakes up for, in whatever phase, its next reconnect delay stays between the
    -- configured initial delay and the configured maximum, if it was and if those are in order and
    -- the maximum is a duration.
    pub wake-InBounds :
        (work : Work T) (phase : WatchPhase T P)
        → g.config.initial_reconnect_delay ≤ g.config.max_reconnect_delay
        → g.config.max_reconnect_delay ≤ duration_max
        → InBounds g w.reconnect_delay
        → InBounds g (wake random now work phase w g).0.reconnect_delay
    unfolding wake reopen
    wake-InBounds opened opening ordered fits b = b
    wake-InBounds (failed_open none) opening ordered fits b = ground arith
    wake-InBounds _ _ ordered fits b = ground arith
