-- ===== src/Example.antt =====
-- The service of examples/http_middleware.rs: authentication in front of the policy layer.
pub mod Guarding
use Prim.Native.String.{String, len, slice}
use text.Mathlib.Text.{◌==◌ as str_eq}
use policy_gate.Prelude.{ℕ, Bool, true, false, Option, none, some, List, [], ◌∷◌, if◌then◌else◌}
use policy_gate.Decision.{Decision, DecisionSourceError, Result, ok, err}
use policy_gate.Metrics.{Metric}
use policy_gate.Stream.{Handle}
use policy_gate.Layer.{Policy}
use policy_gate.Layer.Service.{
  LayerConfig, new_config, PolicyGateMiddleware, Reply, new, layer, handle_request,
}

-- A request: its authorization header, which is none where its bytes are no visible text, and the
-- subject in its extensions.
pub record Request : Type 0 where
  pub authorization : Option (Option String)
  pub extension : Option String

-- `SubjectFromAuthentication`: the response body is enforced by default.
unfoldable pub subject_from_authentication : Request → Policy String
subject_from_authentication request = record {
  subject = request.extension;
  enforce_request_body = false;
  enforce_response_body = true;
}

-- `ExampleDecisionSource`
unfoldable pub get_subject_decision : String → Result DecisionSourceError (Option Decision)
get_subject_decision subject =
    ok (some (if str_eq subject "user-123" then Decision.allowed else Decision.denied))

-- `str::strip_prefix`
unfoldable pub strip_prefix : String → String → Option String
strip_prefix prefix text =
    if str_eq (slice text 0 (len prefix)) prefix
    then some (slice text (len prefix) (len text))
    else none

abbrev pub authenticated : String → Option String
authenticated token = if str_eq token "example-token" then some "user-123" else none

abbrev pub bearer_of : Option String → Option String
bearer_of none = none
bearer_of (some token) = authenticated token

abbrev pub token_of : Option (Option String) → Option String
token_of none = none
token_of (some none) = none
token_of (some (some text)) = strip_prefix "Bearer " text

unfoldable pub validate_bearer : Request → Option String
unfolding strip_prefix
validate_bearer request = bearer_of (token_of request.authorization)

pub data Answer (B : Type 0) : Type 0 where
  unauthorized : Answer B
  waiting : Answer B
  replied : Reply String B → Answer B

abbrev pub replied_with : {B : Type 0} → Option (Reply String B) → Answer B
replied_with none = waiting
replied_with (some reply) = replied reply

module _ {G S B : Type 0} (gate : G) (inner : S) (make_body : String → B) where
  -- `main`: the layer around the handler.
  unfoldable pub app : PolicyGateMiddleware S G (Request → Policy String) B
  unfolding new layer
  app = layer inner (
      new gate
        (new_config "the authenticated subject is not allowed"
          "authentication did not provide a subject")
        subject_from_authentication make_body)

  -- `authenticate`, with the layer as what runs next.
  unfoldable pub authenticate : Request → Option Handle → List (Option Handle) → Answer B
  unfolding validate_bearer app handle_request
  authenticate request cached answers = elim (validate_bearer request) [
    | none ↦ unauthorized
    | some subject ↦ replied_with (
        handle_request app (app.policy (record request { extension = some subject })) cached
          answers)
  ]
