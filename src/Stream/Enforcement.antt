-- ===== src/Stream/Enforcement.antt =====
-- What a consumer of a body of src/stream.rs can rely on.
use policy_gate.Prelude.{
  ℕ, ◌≡◌, ◌≢◌, inl, inr, refl, Bool-cases, ◌∙◌, arith, Bool, true, false, none, some, List, [], ◌∷◌,
  ◌++◌,
}
use policy_gate.Stream.{
  BodySide, StreamRejection, Enforced, Turn, Inner, idle, Polled, pending, end, rejected, over,
  enforce, poll_frame, size_hint, is_end_stream,
}
use policy_gate.Stream.Rounds.{Decides, Denies, cutoffs, is_last}
use policy_gate.Stream.Loop.{
  loop, loop_ends, loop_rejects, loop_cuts, loop_returns, AnyDenies, IsCutOff,
}

module _ {D H E : Type 0} (stream_denied : BodySide → StreamRejection H E)
    (refresh_before_expiry admission_timeout : ℕ) where
  -- A denial cuts the stream at once: where the rounds before it go on and a round denies, the poll
  -- of a body that has not ended, and whose inner body has not either, gives the rejection of the
  -- body's side and none of the inner body's data, the body is ended with no readmission left, and
  -- the cutoff is counted. If the inner body is already at its end, the poll gives that end instead,
  -- with no rejection and no cutoff.
  pub denial_cuts :
      (inner : Inner D E) (before after : List Turn) (turn : Turn) (b : Enforced)
      → b.ended ≡ false
      → enforce stream_denied refresh_before_expiry admission_timeout inner before b ≡ none
      → Denies refresh_before_expiry turn
      → let poll = λ (inner_ended : Bool).
        poll_frame stream_denied refresh_before_expiry admission_timeout inner inner_ended
          (before ++ turn ∷ after)
          b in
        IsCutOff stream_denied refresh_before_expiry admission_timeout inner b (poll false)
        × (poll true ≡ some (over b, end, false))
  unfolding poll_frame
  denial_cuts inner before after turn b open_still went why =
      let cuts =
        loop_cuts stream_denied refresh_before_expiry admission_timeout inner before after turn b
          went why in
      ((cuts.0, ground (arith, cuts.1), cuts.2, cuts.3, cuts.4), ground arith)

  -- Whatever a body gives when it is polled, it is ended afterwards exactly when that is the last: an
  -- end, trailers, or a rejection. Each rejection is counted once, and nothing else is. A rejection
  -- is that of the body's side, and is given only where one of the poll's rounds denies and neither
  -- the body nor its inner body was at its end. A poll is pending only where the inner body is.
  pub poll_ends :
      (inner : Inner D E) (inner_ended : Bool) (turns : List Turn) (b c : Enforced)
      (p : Polled D H E) (woken : Bool)
      → poll_frame stream_denied refresh_before_expiry admission_timeout inner inner_ended turns b
        ≡ some (c, p, woken)
      → (c.ended ≡ is_last p)
        × (c.metrics ≡ cutoffs p b.metrics)
        × (p ≡ pending → inner ≡ idle)
        × ((r : StreamRejection H E)
            → p ≡ rejected r
            → AnyDenies stream_denied refresh_before_expiry admission_timeout inner turns
              × (r ≡ stream_denied b.side)
              × (is_end_stream inner_ended b ≡ false))
  unfolding poll_frame
  poll_ends inner inner_ended turns b c p woken h =
      elim (Bool-cases (is_end_stream inner_ended b)) [
        | inl ended ↦ (ground arith, ground arith, λ e. ground arith, λ r e. absurd (ground arith))
        | inr goes_on ↦
            let polled : loop stream_denied refresh_before_expiry admission_timeout inner turns b
                ≡ some (c, p, woken) =
              ground arith in
            let ends =
              loop_ends stream_denied refresh_before_expiry admission_timeout inner turns b c p
                woken (ground arith) polled in
            (
              ends.0,
              ends.1,
              ends.2,
              λ r e.
                  let why =
                    loop_rejects stream_denied refresh_before_expiry admission_timeout inner turns b
                      c r woken (ground (arith, polled)) in
                  (why.0, why.1, goes_on),
            )
      ]

  -- Every poll of the sequence gives the end. The flag is the inner body's `is_end_stream`.
  abbrev pub AllEnd : List (Inner D E × Bool × List Turn) → Enforced → Type 0
  AllEnd [] b = Unit {0}
  AllEnd ((inner, inner_ended, turns) ∷ polls) b =
      (poll_frame stream_denied refresh_before_expiry admission_timeout inner inner_ended turns b
        ≡ some (over b, end, false))
      × AllEnd polls (over b)

  -- A body that has ended gives nothing more, whatever its inner body holds, whatever its handle
  -- reads as, and however often it is polled; its exact size is zero.
  ended_for_good :
      (polls : List (Inner D E × Bool × List Turn)) (b : Enforced)
      → b.ended ≡ true
      → AllEnd polls b × (size_hint b ≡ some 0)
  unfolding poll_frame
  ended_for_good [] b h = (tt, ground arith)
  ended_for_good ((inner, inner_ended, turns) ∷ polls) b h =
      ((ground arith, (ended_for_good polls (over b) refl).0), ground arith)

  -- After a poll that gives an end, trailers or a rejection, every further poll gives the end,
  -- whatever the inner body holds and whatever the handle reads as, and the exact size is zero.
  pub nothing_follows :
      (inner : Inner D E) (inner_ended : Bool) (turns : List Turn) (b c : Enforced)
      (p : Polled D H E) (woken : Bool) (polls : List (Inner D E × Bool × List Turn))
      → poll_frame stream_denied refresh_before_expiry admission_timeout inner inner_ended turns b
        ≡ some (c, p, woken)
      → is_last p ≡ true
      → AllEnd polls c × (size_hint c ≡ some 0)
  nothing_follows inner inner_ended turns b c p woken polls h last =
      ended_for_good polls c ((poll_ends inner inner_ended turns b c p woken h).0 ∙ last)

  -- A poll returns if one of its rounds reads a handle that is not stale, or a stale one with no
  -- cached admission and a readmission that has given none.
  pub poll_returns :
      (inner : Inner D E) (inner_ended : Bool) (before after : List Turn) (turn : Turn)
      (b : Enforced)
      → Decides turn
      → poll_frame stream_denied refresh_before_expiry admission_timeout inner inner_ended
          (before ++ turn ∷ after)
          b
        ≢ none
  unfolding poll_frame
  poll_returns inner inner_ended before after turn b why = ground (
    arith,
    loop_returns stream_denied refresh_before_expiry admission_timeout inner before after turn b
        why,
  )
