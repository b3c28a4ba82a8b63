-- ===== src/Stream/Rounds.antt =====
-- The rounds of the loop in `poll_frame`, src/stream.rs, one by one and in a row.
use policy_gate.Prelude.{
  ℕ, ◌≡◌, ◌≢◌, ◌⊎◌, inl, inr, refl, Bool-cases, arith, Bool, true, false, Option, none, some, List,
  ◌∷◌, not, ◌&&◌, ◌==◌,
}
use policy_gate.Metrics.{Metric, stream_cutoff}
use policy_gate.Word.{Observed}
use policy_gate.Stream.{
  BodySide, StreamRejection, Enforced, Handle, waiting, unavailable, admitted, Turn, Inner, idle,
  Polled, pending, end, passed, broken, rejected, Next, again, returned, cut, step, Readmitted,
}

-- A handle that neither lets a body go on nor ends it.
abbrev pub is_undecided : Handle → Bool
is_undecided handle = not handle.allowed && not handle.denied

abbrev is_denied : Handle → Bool
is_denied handle = not handle.allowed && handle.denied

-- Why a round ends a stream: its handle's decision is a denial or has expired; or it is stale, and
-- the gate's cached admission is denied, or the readmission is, which is polled where the cached
-- admission decides nothing.
abbrev pub Denies : ℕ → Turn → Type 0
Denies refresh_before_expiry turn =
    (turn.observed ≡ Observed.denied)
    ⊎ (turn.observed ≡ Observed.expired)
    ⊎ ((turn.observed ≡ Observed.stale)
        × ((handle : Handle) × (turn.cached ≡ some handle) × (is_denied handle ≡ true)))
    ⊎ ((turn.observed ≡ Observed.stale)
        × ((turn.cached ≡ none)
            ⊎ ((handle : Handle) × (turn.cached ≡ some handle)
                × ((is_undecided handle ≡ true)
                    ⊎ ((handle.allowed ≡ true) × ((refresh_before_expiry == 0) ≡ false)))))
        × ((handle : Handle) × (turn.readmitted ≡ admitted handle) × (is_denied handle ≡ true)))

-- A round after which the loop cannot go on: a handle that is not stale, or a stale one with no
-- cached admission and a readmission that gave none.
abbrev pub Decides : Turn → Type 0
Decides turn =
    (turn.observed ≢ Observed.stale)
    ⊎ ((turn.cached ≡ none) × ((turn.readmitted ≡ waiting) ⊎ (turn.readmitted ≡ unavailable)))

-- Nothing comes after it.
abbrev pub is_last : {D H E : Type 0} → Polled D H E → Bool
is_last pending = false
is_last end = true
is_last (passed data_of is_trailers) = is_trailers
is_last (broken e) = false
is_last (rejected r) = true

abbrev pub cutoffs : {D H E : Type 0} → Polled D H E → List Metric → List Metric
cutoffs (rejected r) metrics = stream_cutoff ∷ metrics
cutoffs _ metrics = metrics

module _ {D H E : Type 0} where
  pub Next-cases :
      (n : Next D H E)
      → ((c : Enforced) × (n ≡ again c))
        ⊎ ((c : Enforced) × (p : Polled D H E) × (woken : Bool) × (n ≡ returned c p woken))
  Next-cases (again c) = inl (c, refl)
  Next-cases (returned c p woken) = inr (c, p, woken, refl)

module _ {D H E : Type 0} (stream_denied : BodySide → StreamRejection H E)
    (refresh_before_expiry admission_timeout : ℕ) where
  module _ (inner : Inner D E) where
    abbrev pub round : Turn → Enforced → Next D H E
    round = step stream_denied refresh_before_expiry admission_timeout inner

    pub step_ends :
        (turn : Turn) (b c : Enforced) (p : Polled D H E) (woken : Bool)
        → b.ended ≡ false
        → round turn b ≡ returned c p woken
        → (c.ended ≡ is_last p) × (c.metrics ≡ cutoffs p b.metrics) × (p ≡ pending → inner ≡ idle)
    unfolding step
    step_ends turn b c p woken open_still h = (ground arith, ground arith, λ e. ground arith)

    rejects :
        (observed : Observed) (cached : Option Handle) (readmitted : Readmitted) (armed : Bool)
        (b c : Enforced) (r : StreamRejection H E) (woken : Bool)
        → let turn : Turn = record {
          observed = observed;
          cached = cached;
          readmitted = readmitted;
          armed = armed;
        } in
          round turn b ≡ returned c (rejected r) woken → Denies refresh_before_expiry turn
    unfolding step
    rejects Observed.allowed cached readmitted armed b c r woken h = absurd (ground arith)
    rejects Observed.denied cached readmitted armed b c r woken h = inl refl
    rejects Observed.expired cached readmitted armed b c r woken h = inr (inl refl)
    rejects Observed.stale none waiting armed b c r woken h = absurd (ground arith)
    rejects Observed.stale none unavailable armed b c r woken h = absurd (ground arith)
    rejects Observed.stale none (admitted handle) armed b c r woken h =
        inr (inr (inr (refl, inl refl, (handle, refl, ground arith))))
    rejects Observed.stale (some known) readmitted armed b c r woken h =
        elim (Bool-cases (is_denied known)) [
          | inl over_now ↦ inr (inr (inl (refl, (known, refl, over_now))))
          | inr other ↦ inr (
              inr (
                inr (
                  refl,
                  inr (
                    known,
                    refl,
                    elim (Bool-cases known.allowed) [
                      | inl allows ↦ inr (allows, ground arith)
                      | inr undecided ↦ inl (ground arith)
                    ],
                  ),
                  readmission_rejects known readmitted armed b c r woken other h,
                )))
        ]
      where
        readmission_rejects :
            (known : Handle) (readmitted : Readmitted) (armed : Bool) (b c : Enforced)
            (r : StreamRejection H E) (woken : Bool)
            → is_denied known ≡ false
            → round
                (record {
                  observed = Observed.stale;
                  cached = some known;
                  readmitted = readmitted;
                  armed = armed;
                })
                b
              ≡ returned c (rejected r) woken
            → (handle : Handle) × (readmitted ≡ admitted handle) × (is_denied handle ≡ true)
        readmission_rejects known waiting armed b c r woken other h = absurd (ground arith)
        readmission_rejects known unavailable armed b c r woken other h = absurd (ground arith)
        readmission_rejects known (admitted handle) armed b c r woken other h =
            (handle, refl, ground arith)

    -- A round gives a rejection only if it denies, and that of the body's side.
    pub step_rejects :
        (turn : Turn) (b c : Enforced) (r : StreamRejection H E) (woken : Bool)
        → round turn b ≡ returned c (rejected r) woken
        → Denies refresh_before_expiry turn × (r ≡ stream_denied b.side)
    unfolding step
    step_rejects turn b c r woken h =
        (rejects turn.observed turn.cached turn.readmitted turn.armed b c r woken h, ground arith)

    pub step-Denies :
        (turn : Turn) (b : Enforced)
        → Denies refresh_before_expiry turn
        → round turn b ≡ cut stream_denied b
    unfolding step
    step-Denies turn b why = ground arith

    pub step_goes_on :
        (turn : Turn) (b c : Enforced)
        → round turn b ≡ again c
        → (c.ended ≡ b.ended) × (c.metrics ≡ b.metrics) × (c.side ≡ b.side)
    unfolding step
    step_goes_on turn b c h = (ground arith, ground arith, ground arith)

    pub step-Decides : (turn : Turn) (b c : Enforced) → Decides turn → round turn b ≢ again c
    unfolding step
    step-Decides turn b c why = ground arith
