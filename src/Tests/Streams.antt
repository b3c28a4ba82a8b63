-- ===== src/Tests/Streams.antt =====
-- Bodies and requests at concrete inputs.
use Prim.Native.String.{String}
use policy_gate.Example.{Request, subject_from_authentication, authenticate, validate_bearer, app}
use policy_gate.Example.Guarding.{authenticate_guards}
use policy_gate.Layer.Service.{
  LayerConfig, new_config, rejected, handle_request, layer, new, new_with_response,
}
use policy_gate.Layer.Service.Responses.{Rendered, handle_request-Rendered}
use policy_gate.Layer.Rejections.{http_response}
use policy_gate.Prelude.{ℕ, ◌≡◌, ◌≢◌, inl, inr, refl, true, false, none, some, List, [], ◌∷◌}
use policy_gate.Metrics.{stream_cutoff, snapshot_miss}
use policy_gate.Word.{Observed}
use policy_gate.Tonic.{Status}
use policy_gate.Stream.{
  BodySide, response, StreamRejection, Enforced, Handle, Turn, waiting, Inner, frame, rejected,
  poll_frame, over, size_hint, admitted, end, enforce, cut,
}
use policy_gate.Stream.Loop.{IsCutOff}
use policy_gate.Stream.Enforcement.{denial_cuts, poll_ends, nothing_follows, poll_returns}
use policy_gate.Layer.{Passing, Policy, passed, call, pass_through}
use policy_gate.Layer.Admitting.{call-Justified, call_returns, Justified}
use policy_gate.Layer.Rejections.{stream_denied, StreamError}

abbrev reject : BodySide → StreamRejection Status StreamError
reject side = stream_denied {B = ℕ} (λ text. 0) side "no longer allowed"

abbrev open_body : Enforced
open_body = record {
  admission = 11;
  readmission = none;
  side = response;
  ended = false;
  metrics = [];
}

abbrev denied_turn : Turn
denied_turn = record {
  observed = Observed.denied;
  cached = none;
  readmitted = waiting;
  armed = true;
}

abbrev stale_turn : Turn
stale_turn = record { observed = Observed.stale; cached = none; readmitted = waiting; armed = true }

abbrev inner : Inner ℕ StreamError
inner = frame 65 false

abbrev allowed_handle : Handle
allowed_handle = record { entry = 11; allowed = true; denied = false }

abbrev denied_handle : Handle
denied_handle = record { entry = 11; allowed = false; denied = true }

-- The first readmission allows, and the next one denies.
abbrev readmitted_turn : Turn
readmitted_turn = record stale_turn { readmitted = admitted allowed_handle }

abbrev turned_down_turn : Turn
turned_down_turn = record stale_turn { readmitted = admitted denied_handle }

abbrev rounds : List Turn
rounds = readmitted_turn ∷ turned_down_turn ∷ stale_turn ∷ []

denial_cuts_example :
    IsCutOff reject 0 10 inner open_body (poll_frame reject 0 10 inner false rounds open_body)
unfolding enforce
denial_cuts_example =
    (denial_cuts reject 0 10 inner (readmitted_turn ∷ []) (stale_turn ∷ []) turned_down_turn
      open_body refl refl (inr (inr (inr (refl, inl refl, (denied_handle, refl, refl)))))).0

abbrev cut_body : Enforced
cut_body = record (over open_body) { metrics = stream_cutoff ∷ [] }

poll_ends_example : cut_body.ended ≡ true
unfolding poll_frame cut
poll_ends_example =
    (poll_ends reject 0 10 inner false (turned_down_turn ∷ []) open_body cut_body
      (rejected (reject response)) false refl).0

nothing_follows_example : size_hint (over open_body) ≡ some 0
unfolding poll_frame
nothing_follows_example =
    (nothing_follows reject 0 10 inner true (stale_turn ∷ []) open_body (over open_body) end false
      ((inner, false, stale_turn ∷ []) ∷ []) refl refl).1

poll_returns_example : poll_frame reject 0 10 inner false (stale_turn ∷ []) open_body ≢ none
poll_returns_example =
    poll_returns reject 0 10 inner false [] [] stale_turn open_body (inr (refl, inl refl))

abbrev policy : Policy ℕ
policy = record { subject = some 7; enforce_request_body = true; enforce_response_body = true }

call-Justified_example :
    Justified policy
      (none ∷ some allowed_handle ∷ [])
      (passed (pass_through policy 7 allowed_handle))
unfolding call
call-Justified_example =
    (call-Justified policy none (some allowed_handle ∷ [])
      (passed (pass_through policy 7 allowed_handle)) (snapshot_miss ∷ []) refl).0

call_returns_example : call policy none (some allowed_handle ∷ []) ≢ none
call_returns_example = call_returns policy none [] [] (some allowed_handle) (inl refl)

abbrev messages : LayerConfig
messages = new_config "not allowed" "no subject"

-- The body of a response is its text.
abbrev as_body : String → String
as_body text = text

handle_request-Rendered_example :
    Rendered messages as_body policy
      (none ∷ some denied_handle ∷ [])
      (rejected (http_response as_body 429 "not allowed"))
unfolding handle_request layer new new_with_response http_response
handle_request-Rendered_example =
    handle_request-Rendered tt tt messages tt as_body policy none (some denied_handle ∷ [])
      (rejected (http_response as_body 429 "not allowed")) refl

abbrev request_of : Request
request_of = record { authorization = some (some "Bearer example-token"); extension = none }

abbrev passing_of : Passing String
passing_of =
    pass_through (subject_from_authentication (record request_of { extension = some "user-123" }))
      "user-123" allowed_handle

authenticate_guards_example : passing_of.subject ≡ "user-123"
unfolding authenticate handle_request call validate_bearer layer app new new_with_response
    subject_from_authentication
authenticate_guards_example =
    (authenticate_guards tt tt as_body request_of none (some allowed_handle ∷ []) passing_of refl).1
