-- ===== src/Time/Timeouts.antt =====
-- What a deadline guarantees to the caller of `timeout_at` and `timeout` of src/time.rs.
use policy_gate.Prelude.{
  ℕ, ◌≤◌, ◌<◌, ◌≡◌, ◌≢◌, refl, ◌++◌, List, [], ◌∷◌, Option, none, some, arith,
}
use policy_gate.Decision.{Result, ok, err}
use policy_gate.Time.{Poll, pending, ready, TimeoutElapsed, timeout_at, drive}

-- A value comes before the deadline, and the elapsed error from the deadline on.
abbrev pub Timely {ℓ} : {A : Type ℓ} → ℕ → ℕ → Result TimeoutElapsed A → Type 0
Timely deadline at (ok a) = at < deadline
Timely deadline at (err e) = deadline ≤ at

module _ {ℓ} {A : Type ℓ} (deadline : ℕ) where
  timeout_at-Timely :
      (now : ℕ) (inner : Poll A) (r : Result TimeoutElapsed A)
      → timeout_at deadline now inner ≡ ready r
      → Timely deadline now r
  unfolding timeout_at
  timeout_at-Timely now pending (ok a) h = ground arith
  timeout_at-Timely now pending (err e) h = ground arith
  timeout_at-Timely now (ready a) (ok b) h = ground arith
  timeout_at-Timely now (ready a) (err e) h = ground arith

  -- A task that polls `timeout_at` gets the inner future's value only at an instant before the
  -- deadline, and the elapsed error only at or after it.
  pub drive-Timely :
      (polls : List (ℕ × Poll A)) {at : ℕ} {r : Result TimeoutElapsed A}
      → drive (timeout_at deadline) polls ≡ some (at, r)
      → Timely deadline at r
  unfolding drive
  drive-Timely [] h = absurd (ground arith)
  drive-Timely ((now, inner) ∷ polls) {at} {r} h =
      go (timeout_at deadline now inner) refl (drive-Timely polls {at = at} {r = r})
    where
      go :
          (p : Poll (Result TimeoutElapsed A))
          → timeout_at deadline now inner ≡ p
          → (drive (timeout_at deadline) polls ≡ some (at, r) → Timely deadline at r)
          → Timely deadline at r
      go pending e rest = rest (ground arith)
      go (ready s) e rest =
          let same : ◌≡◌ {A = Option (ℕ × Result TimeoutElapsed A)} (some (now, s)) (some (at, r)) =
            ground arith in
          let same_at : now ≡ at = cc in
          let same_r : s ≡ r = cc in rw (← same_at, ← same_r) (timeout_at-Timely now inner s e)

  -- A task that polls `timeout_at` has an answer once it has polled at or after the deadline.
  pub drive_answers :
      (before : List (ℕ × Poll A)) (now : ℕ) (inner : Poll A) (after : List (ℕ × Poll A))
      → deadline ≤ now
      → drive (timeout_at deadline) (before ++ (now, inner) ∷ after) ≢ none
  unfolding drive timeout_at
  drive_answers [] now inner after h = ground arith
  drive_answers ((at, earlier) ∷ before) now inner after h =
      ground (arith, drive_answers before now inner after)
