-- ===== src/Layer/Rejections.antt =====
-- How rejections are rendered: `RejectionResponse` and its implementations in src/layer.rs, and
-- `TonicRejectionResponse` of src/grpc.rs. A gRPC status in headers is the status that tonic encodes
-- there; the body adapter's `make_body` is a parameter.
use Prim.Native.String.{String}
use policy_gate.Prelude.{ℕ, Option, none, some}
use policy_gate.Tonic.{Code, Status}
use policy_gate.Stream.{BodySide, request, response, StreamRejection, trailers, error}

pub record Response (B : Type 0) : Type 0 where
  pub status : ℕ
  pub grpc_status : Option Status
  pub content_type : Option String
  pub body : B

-- A stream fails with the text of a `LimitExceededError`, or with a tonic status.
pub data StreamError : Type 0 where
  limit_exceeded : String → StreamError
  tonic_status : Status → StreamError

-- The display of a `LimitExceededError`; a tonic status displays as tonic does.
abbrev pub display_stream_error : (Status → String) → StreamError → String
display_stream_error display (limit_exceeded message) = message
display_stream_error display (tonic_status status) = display status

-- `RejectionResponse` with `StreamRejectionResponse`.
pub record RejectionResponse (B : Type 0) : Type 0 where
  pub denied : String → Response B
  pub missing_subject : String → Response B
  pub unavailable : String → Response B
  pub stream_denied : BodySide → String → StreamRejection Status StreamError

module _ {B : Type 0} (make_body : String → B) where
  unfoldable pub http_response : ℕ → String → Response B
  http_response status message = record {
    status = status;
    grpc_status = none;
    content_type = none;
    body = make_body message;
  }

  unfoldable pub http_rejection_response : RejectionResponse B
  unfolding http_response
  http_rejection_response = record {
    denied = http_response 429;
    missing_subject = http_response 400;
    unavailable = http_response 503;
    stream_denied = λ side message. error (limit_exceeded message);
  }

  abbrev pub status_of : Code → String → Status
  status_of code message = record { code = code; text = message }

  -- A gRPC rejection is an HTTP 200 with an empty body.
  unfoldable pub status_response : Code → String → Response B
  status_response code message = record {
    status = 200;
    grpc_status = some (status_of code message);
    content_type = some "application/grpc";
    body = make_body "";
  }

  unfoldable pub stream_denied : BodySide → String → StreamRejection Status StreamError
  stream_denied response message = trailers (status_of Code.failed_precondition message)
  stream_denied request message = error (tonic_status (status_of Code.failed_precondition message))

  unfoldable pub tonic_rejection_response : RejectionResponse B
  unfolding status_response stream_denied
  tonic_rejection_response = record {
    denied = status_response Code.failed_precondition;
    missing_subject = status_response Code.failed_precondition;
    unavailable = status_response Code.unavailable;
    stream_denied = stream_denied;
  }

-- `UnavailableResponseAdapter`: only the unavailable admission is rendered otherwise.
unfoldable pub with_unavailable_response :
    {B : Type 0} → Response B → RejectionResponse B → RejectionResponse B
with_unavailable_response replacement inner = record {
  denied = inner.denied;
  missing_subject = inner.missing_subject;
  unavailable = λ message. replacement;
  stream_denied = inner.stream_denied;
}
