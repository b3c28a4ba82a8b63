-- ===== src/Layer/Admitting.antt =====
-- What `call` of src/layer.rs lets through.
use policy_gate.Prelude.{
  ◌≡◌, ◌≢◌, ◌⊎◌, inl, inr, refl, ap, arith, true, false, Option, none, some, List, [], ◌∷◌, ◌++◌,
  Option-cases,
}
use policy_gate.Metrics.{
  Metric, denial, unavailable_rejection, snapshot_miss, missing_subject_rejection,
}
use policy_gate.Stream.{Handle}
use policy_gate.Layer.{
  Policy, Outcome, passed, missing_subject, denied, unavailable, pass_through, answer, admit_loop,
  after_miss, cached_answer, call,
}

-- What an outcome rests on: a request is passed on only with a handle that is allowed, for the
-- policy's own subject; it is denied only by a handle that is denied.
abbrev pub RestsOn : {T : Type 0} → Policy T → Handle → Outcome T → Type 0
RestsOn policy handle (passed passing) =
    (policy.subject ≡ some passing.subject)
    × (passing.admission ≡ handle)
    × (handle.allowed ≡ true)
    × (passing.enforce_response_body ≡ policy.enforce_response_body)
RestsOn policy handle denied = (handle.allowed ≡ false) × (handle.denied ≡ true)
RestsOn policy handle missing_subject = ⊥
RestsOn policy handle unavailable = ⊥

-- An answer after which `call` does not ask the gate again.
abbrev pub Final : Option Handle → Type 0
Final none = Unit {0}
Final (some handle) = (handle.allowed ≡ true) ⊎ (handle.denied ≡ true)

-- Whether a handle is one that the gate gave.
abbrev pub Among : Handle → List (Option Handle) → Type 0
Among handle [] = ⊥
Among handle (given ∷ answers) = (given ≡ some handle) ⊎ Among handle answers

-- What an outcome of `call` is justified by.
abbrev pub Justified : {T : Type 0} → Policy T → List (Option Handle) → Outcome T → Type 0
Justified policy given missing_subject = policy.subject ≡ none
Justified policy given unavailable = Unit {0}
Justified policy given outcome =
    (handle : Handle) × Among handle given × RestsOn policy handle outcome

-- The one event that an outcome counts, besides the miss of the snapshot.
abbrev pub counted : {T : Type 0} → Outcome T → List Metric
counted (passed passing) = []
counted missing_subject = missing_subject_rejection ∷ []
counted denied = denial ∷ []
counted unavailable = unavailable_rejection ∷ []

module _ {T : Type 0} (policy : Policy T) where
  RestsOn-Justified :
      (handle : Handle) (given : List (Option Handle)) (outcome : Outcome T)
      → Among handle given
      → RestsOn policy handle outcome
      → Justified policy given outcome
  RestsOn-Justified handle given (passed passing) among rests = (handle, among, rests)
  RestsOn-Justified handle given denied among rests = (handle, among, rests)
  RestsOn-Justified handle given missing_subject among rests = absurd rests
  RestsOn-Justified handle given unavailable among rests = absurd rests

  Justified-more :
      (more : Option Handle) (given : List (Option Handle)) (outcome : Outcome T)
      → Justified policy given outcome
      → Justified policy (more ∷ given) outcome
  Justified-more more given (passed passing) (handle, among, rests) = (handle, inr among, rests)
  Justified-more more given denied (handle, among, rests) = (handle, inr among, rests)
  Justified-more more given missing_subject justified = justified
  Justified-more more given unavailable justified = tt

module _ {T : Type 0} (policy : Policy T) (subject : T)
    (known : policy.subject ≡ some subject) where
  answer-RestsOn :
      (handle : Handle) (outcome : Outcome T) (metrics : List Metric)
      → answer policy subject handle ≡ some (outcome, metrics)
      → RestsOn policy handle outcome × (metrics ≡ counted outcome)
  unfolding answer pass_through
  answer-RestsOn handle (passed passing) metrics h =
      ((ground (arith, known), ground arith, ground arith, ground arith), ground arith)
  answer-RestsOn handle denied metrics h = ((ground arith, ground arith), ground arith)
  answer-RestsOn handle missing_subject metrics h = absurd (ground arith)
  answer-RestsOn handle unavailable metrics h = absurd (ground arith)

  loop-Justified :
      (answers : List (Option Handle)) (outcome : Outcome T) (metrics : List Metric)
      → admit_loop policy subject answers ≡ some (outcome, metrics)
      → Justified policy answers outcome × (metrics ≡ counted outcome)
  unfolding admit_loop
  loop-Justified [] outcome metrics h = absurd (ground arith)
  loop-Justified (none ∷ answers) outcome metrics h =
      let same : unavailable ≡ outcome = ground arith in
      let counts : unavailable_rejection ∷ [] ≡ metrics = ground arith in
      rw (← same, ← counts) (tt, refl)
  loop-Justified (some handle ∷ answers) outcome metrics h =
      elim (Option-cases (answer policy subject handle)) [
        | inl e ↦
            let rest = loop-Justified answers outcome metrics (ground (arith, e)) in
            (Justified-more policy (some handle) answers outcome rest.0, rest.1)
        | inr ((o, m), e) ↦
            let rests = answer-RestsOn handle outcome metrics (ground (arith, e)) in
            (
              RestsOn-Justified policy handle (some handle ∷ answers) outcome (inl refl) rests.0,
              rests.1,
            )
      ]

  loop_returns :
      (before after : List (Option Handle)) (given : Option Handle)
      → Final given
      → admit_loop policy subject (before ++ given ∷ after) ≢ none
  unfolding admit_loop answer
  loop_returns [] after none final = ground arith
  loop_returns [] after (some handle) final = ground arith
  loop_returns (none ∷ before) after given final = ground arith
  loop_returns (some handle ∷ before) after given final =
      ground (arith, loop_returns before after given final)

  -- After a miss of the snapshot.
  missed-Justified :
      (cached : Option Handle) (answers : List (Option Handle)) (outcome : Outcome T)
      (metrics : List Metric)
      → after_miss policy (admit_loop policy subject answers) ≡ some (outcome, metrics)
      → Justified policy (cached ∷ answers) outcome
        × ((metrics ≡ counted outcome) ⊎ (metrics ≡ counted outcome ++ snapshot_miss ∷ []))
  missed-Justified cached answers outcome metrics h =
      elim (Option-cases (admit_loop policy subject answers)) [
        | inl e ↦ absurd (ground (arith, e))
        | inr ((o, m), e) ↦
            let same : o ≡ outcome = ground (arith, e) in
            let counts : m ++ snapshot_miss ∷ [] ≡ metrics = ground (arith, e) in
            let rest = loop-Justified answers o m e in
            rw (← same, ← counts)
              (
                Justified-more policy cached answers o rest.0,
                inr (ap (λ earlier. earlier ++ snapshot_miss ∷ []) rest.1),
              )
      ]

  cached-Justified :
      (cached : Option Handle) (answers : List (Option Handle)) (outcome : Outcome T)
      (metrics : List Metric)
      → cached_answer policy subject cached ≡ some (outcome, metrics)
      → Justified policy (cached ∷ answers) outcome × (metrics ≡ counted outcome)
  cached-Justified none answers outcome metrics h = absurd (ground arith)
  cached-Justified (some handle) answers outcome metrics h =
      let rests = answer-RestsOn handle outcome metrics h in
      (RestsOn-Justified policy handle (some handle ∷ answers) outcome (inl refl) rests.0, rests.1)

module _ {T : Type 0} (policy : Policy T) where
  -- Whatever the gate answers, a request is passed on only for the policy's own subject and with a
  -- handle that the gate gave and that was allowed; it is denied only by a handle that the gate gave
  -- and that was denied; and it counts as without a subject only where the policy names none. Each
  -- outcome is counted once, after at most one miss of the snapshot.
  pub call-Justified :
      (cached : Option Handle) (answers : List (Option Handle)) (outcome : Outcome T)
      (metrics : List Metric)
      → call policy cached answers ≡ some (outcome, metrics)
      → Justified policy (cached ∷ answers) outcome
        × ((metrics ≡ counted outcome) ⊎ (metrics ≡ counted outcome ++ snapshot_miss ∷ []))
  unfolding call
  call-Justified cached answers outcome metrics h = elim (Option-cases policy.subject) [
    | inl e ↦
        let same : missing_subject ≡ outcome = ground (arith, e) in
        let counts : missing_subject_rejection ∷ [] ≡ metrics = ground (arith, e) in
        rw (← same, ← counts) (e, inl refl)
    | inr (subject, e) ↦ elim (Option-cases (cached_answer policy subject cached)) [
      | inl missed ↦
          missed-Justified policy subject e cached answers outcome metrics
            (ground (arith, e, missed))
      | inr ((o, m), hit) ↦
          let found =
            cached-Justified policy subject e cached answers outcome metrics
              (ground (arith, e, hit)) in
          (found.0, inl found.1)
    ]
  ]

  -- A call returns once the gate gives an answer that is final: an allowed or a denied handle, or
  -- none because the admission is unavailable.
  pub call_returns :
      (cached : Option Handle) (before after : List (Option Handle)) (given : Option Handle)
      → Final given
      → call policy cached (before ++ given ∷ after) ≢ none
  unfolding call
  call_returns cached before after given final = elim (Option-cases policy.subject) [
    | inl e ↦ ground (arith, e)
    | inr (subject, e) ↦ ground (arith, e, loop_returns policy subject e before after given final)
  ]
