-- ===== src/Layer/Service/Responses.antt =====
-- What a request gets of the middleware of src/layer.rs with its HTTP rejections.
use Prim.Native.String.{String}
use policy_gate.Prelude.{
  ℕ, ◌≡◌, ◌⊎◌, inl, inr, refl, arith, false, true, Option, none, some, List, ◌∷◌, Option-cases,
}
use policy_gate.Stream.{Handle}
use policy_gate.Layer.{Policy, Outcome, passed, missing_subject, denied, unavailable, call}
use policy_gate.Layer.Admitting.{Among, RestsOn, Justified, call-Justified}
use policy_gate.Layer.Rejections.{Response, http_response, http_rejection_response}
use policy_gate.Layer.Service.{
  LayerConfig, PolicyGateMiddleware, Reply, inner_response, rejected, new, new_with_response, layer,
  deny, respond, handle_request, unavailable_message,
}

abbrev pub Rejects : {B : Type 0} → (String → B) → ℕ → String → Response B → Type 0
Rejects make_body status message response =
    (response.status ≡ status) × (response.body ≡ make_body message)

-- What a reply rests on, of the answers that the gate gave.
abbrev pub Rendered :
    {B T : Type 0}
    → LayerConfig
    → (String → B)
    → Policy T
    → List (Option Handle)
    → Reply T B
    → Type 0
Rendered config make_body policy given (inner_response passing) =
    (handle : Handle) × Among handle given × RestsOn policy handle (passed passing)
Rendered config make_body policy given (rejected response) =
    Rejects make_body 400 config.missing_subject_message response × (policy.subject ≡ none)
    ⊎ Rejects make_body 429 config.denied_message response
      × ((handle : Handle) × Among handle given
          × ((handle.allowed ≡ false) × (handle.denied ≡ true)))
    ⊎ Rejects make_body 503 unavailable_message response

module _ {S G R B : Type 0} (inner : S) (gate : G) (config : LayerConfig) (requests : R)
    (make_body : String → B) where
  -- The middleware that the layer makes of an inner service.
  abbrev pub service : PolicyGateMiddleware S G R B
  service = layer inner (new gate config requests make_body)

  respond-Rendered :
      {T : Type 0} (policy : Policy T) (given : List (Option Handle)) (outcome : Outcome T)
      → Justified policy given outcome
      → Rendered config make_body policy given (respond service outcome)
  unfolding respond deny layer new new_with_response http_rejection_response http_response
  respond-Rendered policy given (passed passing) why = why
  respond-Rendered policy given missing_subject why = inl ((refl, refl), why)
  respond-Rendered policy given denied why = inr (inl ((refl, refl), why))
  respond-Rendered policy given unavailable why = inr (inr (refl, refl))

  -- Whatever the gate answers, a request that is answered reaches the inner service only for the
  -- policy's own subject and with a handle of the gate's that is allowed. A rejection is 400 with the
  -- missing-subject message where the policy names no subject, 429 with the denied message where a
  -- handle of the gate's is denied, or 503 with the unavailable message.
  pub handle_request-Rendered :
      {T : Type 0} (policy : Policy T) (cached : Option Handle) (answers : List (Option Handle))
      (reply : Reply T B)
      → handle_request service policy cached answers ≡ some reply
      → Rendered config make_body policy (cached ∷ answers) reply
  unfolding handle_request
  handle_request-Rendered policy cached answers reply h =
      elim (Option-cases (call policy cached answers)) [
        | inl e ↦ absurd (ground (arith, e))
        | inr ((outcome, metrics), e) ↦
            let same : respond service outcome ≡ reply = ground (arith, e) in
            rw (← same) (
              respond-Rendered policy (cached ∷ answers) outcome
                (call-Justified policy cached answers outcome metrics e).0)
      ]
