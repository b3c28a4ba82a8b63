-- ===== src/Stream/Loop.antt =====
-- The loop in `poll_frame`, src/stream.rs, over the rounds that are given.
use policy_gate.Prelude.{
  ℕ, ◌≡◌, ◌≢◌, ◌⊎◌, inl, inr, refl, ap, ◌∙◌, arith, Bool, true, false, Option, none, some, List, [],
  ◌∷◌, ◌++◌,
}
use policy_gate.Metrics.{stream_cutoff}
use policy_gate.Stream.{
  BodySide, StreamRejection, Enforced, Turn, Inner, idle, Polled, pending, rejected, over, cut,
  step, enforce,
}
use policy_gate.Stream.Rounds.{
  Denies, Decides, is_last, cutoffs, Next-cases, step_ends, step_goes_on, step-Decides,
  step_rejects, step-Denies,
}

module _ {D H E : Type 0} (stream_denied : BodySide → StreamRejection H E)
    (refresh_before_expiry admission_timeout : ℕ) (inner : Inner D E) where
  abbrev pub loop : List Turn → Enforced → Option (Enforced × Polled D H E × Bool)
  loop = enforce stream_denied refresh_before_expiry admission_timeout inner

  pub loop_ends :
      (turns : List Turn) (b c : Enforced) (p : Polled D H E) (woken : Bool)
      → b.ended ≡ false
      → loop turns b ≡ some (c, p, woken)
      → (c.ended ≡ is_last p) × (c.metrics ≡ cutoffs p b.metrics) × (p ≡ pending → inner ≡ idle)
  unfolding enforce
  loop_ends [] b c p woken open_still h = absurd (ground arith)
  loop_ends (turn ∷ turns) b c p woken open_still h =
      elim (Next-cases (step stream_denied refresh_before_expiry admission_timeout inner turn b)) [
        | inl (d, e) ↦
            let went =
              step_goes_on stream_denied refresh_before_expiry admission_timeout inner turn b d e in
            rw (← went.1) (loop_ends turns d c p woken (went.0 ∙ open_still) (ground (arith, e)))
        | inr (d, q, w, e) ↦
            step_ends stream_denied refresh_before_expiry admission_timeout inner turn b c p woken
              open_still (ground (arith, e))
      ]

  -- Some round of the list denies.
  abbrev pub AnyDenies : List Turn → Type 0
  AnyDenies [] = ⊥
  AnyDenies (turn ∷ turns) = Denies refresh_before_expiry turn ⊎ AnyDenies turns

  pub loop_rejects :
      (turns : List Turn) (b c : Enforced) (r : StreamRejection H E) (woken : Bool)
      → loop turns b ≡ some (c, rejected r, woken)
      → AnyDenies turns × (r ≡ stream_denied b.side)
  unfolding enforce
  loop_rejects [] b c r woken h = absurd (ground arith)
  loop_rejects (turn ∷ turns) b c r woken h =
      elim (Next-cases (step stream_denied refresh_before_expiry admission_timeout inner turn b)) [
        | inl (d, e) ↦
            let went =
              step_goes_on stream_denied refresh_before_expiry admission_timeout inner turn b d e in
            let rest = loop_rejects turns d c r woken (ground (arith, e)) in
            (inr (rest.0), rest.1 ∙ ap stream_denied (went.2))
        | inr (d, q, w, e) ↦
            let last =
              step_rejects stream_denied refresh_before_expiry admission_timeout inner turn b c r
                woken (ground (arith, e)) in
            (inl (last.0), last.1)
      ]

  -- What a cut gives of a body, whose admission the rounds before may have replaced.
  abbrev pub IsCutOff : Enforced → Option (Enforced × Polled D H E × Bool) → Type 0
  IsCutOff b polled =
      (c : Enforced) × (polled ≡ some (c, rejected (stream_denied b.side), false))
      × (c.ended ≡ true)
      × (c.readmission ≡ none)
      × (c.metrics ≡ stream_cutoff ∷ b.metrics)

  pub loop_cuts :
      (before after : List Turn) (turn : Turn) (b : Enforced)
      → loop before b ≡ none
      → Denies refresh_before_expiry turn
      → IsCutOff b (loop (before ++ turn ∷ after) b)
  unfolding enforce cut
  loop_cuts [] after turn b went why =
      let denied =
        step-Denies stream_denied refresh_before_expiry admission_timeout inner turn b why in
      (
        record (over b) { metrics = stream_cutoff ∷ b.metrics },
        ground (arith, denied),
        refl,
        refl,
        refl,
      )
  loop_cuts (earlier ∷ before) after turn b went why =
      elim (Next-cases
        (step stream_denied refresh_before_expiry admission_timeout inner earlier b)) [
          | inl (d, e) ↦
              let kept =
                step_goes_on stream_denied refresh_before_expiry admission_timeout inner earlier b d
                  e in
              let rest = loop_cuts before after turn d (ground (arith, e)) why in
              (
                rest.0,
                ground (arith, e, rest.1, kept.2),
                rest.2,
                rest.3,
                rest.4 ∙ ap (λ ms. stream_cutoff ∷ ms) (kept.1),
              )
          | inr (d, q, w, e) ↦ absurd (ground (arith, e))
        ]

  pub loop_returns :
      (before after : List Turn) (turn : Turn) (b : Enforced)
      → Decides turn
      → loop (before ++ turn ∷ after) b ≢ none
  unfolding enforce
  loop_returns [] after turn b why =
      elim (Next-cases (step stream_denied refresh_before_expiry admission_timeout inner turn b)) [
        | inl (d, e) ↦ absurd (
            step-Decides stream_denied refresh_before_expiry admission_timeout inner turn b d why e)
        | inr (d, q, w, e) ↦ ground (arith, e)
      ]
  loop_returns (earlier ∷ before) after turn b why =
      elim (Next-cases
        (step stream_denied refresh_before_expiry admission_timeout inner earlier b)) [
          | inl (d, e) ↦ ground (arith, e, loop_returns before after turn d why)
          | inr (d, q, w, e) ↦ ground (arith, e)
        ]
