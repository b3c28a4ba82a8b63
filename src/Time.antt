-- ===== src/Time.antt =====
-- The clock of src/time.rs. A duration and an instant are numbers of nanoseconds; the bounds
-- are those of the standard library's `Duration` and of its `Instant` on Unix. A future is
-- known by what it answers to each poll.
pub mod Timeouts
use Prim.Native.String.{String}
use policy_gate.Prelude.{
  ℕ, ◌+◌, ◌-◌, ◌*◌, ◌^◌, min, Bool, Option, none, some, List, [], ◌∷◌, ltb, leb, if◌then◌else◌,
}
use policy_gate.Decision.{Result, ok, err}

abbrev pub nanos_per_sec : ℕ
nanos_per_sec = 1_000_000_000

abbrev pub duration_max : ℕ
duration_max = (2 ^ 64 - 1) * nanos_per_sec + 999_999_999

abbrev pub instant_max : ℕ
instant_max = (2 ^ 63 - 1) * nanos_per_sec + 999_999_999

-- `u64::try_from(n).unwrap_or(default)`
abbrev pub u64_or : ℕ → ℕ → ℕ
u64_or default n = if ltb n (2 ^ 64) then n else default

-- `Instant::checked_add`
abbrev pub checked_add : ℕ → ℕ → Option ℕ
checked_add now duration = if leb (now + duration) instant_max then some (now + duration) else none

-- `Duration::saturating_mul`
abbrev pub saturating_mul : ℕ → ℕ → ℕ
saturating_mul duration k = min (duration * k) duration_max

pub data TimeoutElapsed : Type 0 where
  elapsed : TimeoutElapsed

abbrev pub display_elapsed : TimeoutElapsed → String
display_elapsed elapsed = "deadline elapsed"

pub data Poll {ℓ} (A : Type ℓ) : Type ℓ where
  pending : Poll A
  ready : A → Poll A

-- `sleep_until`: what a poll at `now` answers.
abbrev pub sleep_until : ℕ → ℕ → Poll (Unit {0})
sleep_until deadline now = if leb deadline now then ready tt else pending

-- `sleep`, made at `start`; an instant that cannot be represented never comes.
unfoldable pub sleep : ℕ → ℕ → ℕ → Poll (Unit {0})
sleep start duration now = elim (checked_add start duration) [
  | some deadline ↦ sleep_until deadline now
  | none ↦ pending
]

module _ {ℓ} {A : Type ℓ} where
  abbrev finish : Poll A → Poll (Result TimeoutElapsed A)
  finish pending = pending
  finish (ready a) = ready (ok a)

  -- `timeout_at`: a poll at `now`, where the inner future would answer `inner`. The test of the
  -- first poll and the biased select both give the deadline precedence.
  unfoldable pub timeout_at : ℕ → ℕ → Poll A → Poll (Result TimeoutElapsed A)
  timeout_at deadline now inner = elim (sleep_until deadline now) [
    | ready _ ↦ ready (err elapsed)
    | pending ↦ finish inner
  ]

  -- `timeout`, made at `start`.
  unfoldable pub timeout : ℕ → ℕ → ℕ → Poll A → Poll (Result TimeoutElapsed A)
  unfolding timeout_at
  timeout start duration now inner = elim (checked_add start duration) [
    | some deadline ↦ timeout_at deadline now inner
    | none ↦ finish inner
  ]

  -- A task that polls at the listed instants, until the first answer.
  unfoldable pub drive :
      (ℕ → Poll A → Poll (Result TimeoutElapsed A))
      → List (ℕ × Poll A)
      → Option (ℕ × Result TimeoutElapsed A)
  drive poll [] = none
  drive poll ((now, inner) ∷ polls) =
      let rest = drive poll polls in
      elim (poll now inner) [ ready r ↦ some (now, r) | pending ↦ rest ]
