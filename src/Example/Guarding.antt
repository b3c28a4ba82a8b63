-- ===== src/Example/Guarding.antt =====
-- What the service of examples/http_middleware.rs serves.
use Prim.Native.String.{String}
use text.Mathlib.Text.{◌==◌ as str_eq}
use policy_gate.Prelude.{
  ◌≡◌, inl, inr, sym, subst, ◌∙◌, arith, true, Option, none, some, List, ◌∷◌, Option-cases,
  Bool-cases,
}
use policy_gate.Stream.{Handle}
use policy_gate.Layer.{Passing}
use policy_gate.Layer.Admitting.{Among}
use policy_gate.Layer.Service.{
  Reply, inner_response, handle_request, new_config, new, new_with_response, layer,
}
use policy_gate.Layer.Service.Responses.{handle_request-Rendered}
use policy_gate.Example.{
  Request, Answer, unauthorized, replied_with, replied, validate_bearer, app, authenticate,
  subject_from_authentication, token_of,
}

validate_bearer_lem :
    (request : Request) (subject : String)
    → validate_bearer request ≡ some subject
    → (subject ≡ "user-123")
      × ((token : String) × (token_of request.authorization ≡ some token)
          × (str_eq token "example-token" ≡ true))
unfolding validate_bearer
validate_bearer_lem request subject h = elim (Option-cases (token_of request.authorization)) [
  | inl e ↦ absurd (ground (arith, e))
  | inr (token, e) ↦ elim (Bool-cases (str_eq token "example-token")) [
    | inl good ↦ (ground (arith, e, good), (token, e, good))
    | inr bad ↦ absurd (ground (arith, e, bad))
  ]
]

module _ {B : Type 0} where
  replied_reply :
      (given : Option (Reply String B)) (reply : Reply String B)
      → replied_with given ≡ replied reply
      → given ≡ some reply
  replied_reply given reply h = ground arith

module _ {G S B : Type 0} (gate : G) (inner : S) (make_body : String → B) where
  -- The handler is reached only by a request whose authorization header holds the bearer token that
  -- stands for a user, for that user and no other subject, and with a handle of the gate's that is
  -- allowed.
  pub authenticate_guards :
      (request : Request) (cached : Option Handle) (answers : List (Option Handle))
      (passing : Passing String)
      → authenticate gate inner make_body request cached answers ≡ replied (inner_response passing)
      → ((token : String) × (token_of request.authorization ≡ some token)
          × (str_eq token "example-token" ≡ true))
        × (passing.subject ≡ "user-123")
        × ((handle : Handle) × Among handle (cached ∷ answers) × (handle.allowed ≡ true))
  unfolding authenticate app layer new new_with_response subject_from_authentication
  authenticate_guards request cached answers passing h =
      elim (Option-cases (validate_bearer request)) [
        | inl e ↦ absurd (ground (arith, e))
        | inr (subject, e) ↦
            let config =
              new_config "the authenticated subject is not allowed"
                "authentication did not provide a subject" in
            let policy =
              subject_from_authentication (record request { extension = some subject }) in
            let reply = handle_request (app gate inner make_body) policy cached answers in
            let answered : reply ≡ some (inner_response passing) =
              replied_reply reply (inner_response passing) (
                subst
                  (λ (o : Option String).
                    elim o as (λ _. Answer B) [
                      | none ↦ unauthorized
                      | some s ↦ replied_with (
                          handle_request (app gate inner make_body)
                            (subject_from_authentication (record request { extension = some s }))
                            cached answers)
                    ]
                    ≡ replied (inner_response passing))
                  e h) in
            let (handle, among, rests) =
              handle_request-Rendered inner gate config subject_from_authentication make_body policy
                cached answers (inner_response passing) answered in
            let valid = validate_bearer_lem request subject e in
            let same : subject ≡ passing.subject = ground (arith, rests.0) in
            (valid.1, sym same ∙ valid.0, (handle, among, rests.2))
      ]
