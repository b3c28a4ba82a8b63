-- ===== src/Layer/Service.antt =====
-- The layer and its middleware as they are put together, src/layer.rs: `PolicyGateLayer`,
-- `GateContext`, `PolicyGateMiddleware`, and the response that each outcome of a call is rendered as.
-- `G` stands for the gate, `S` for the inner service.
pub mod Responses
use Prim.Native.String.{String}
use policy_gate.Prelude.{ℕ, ◌≡◌, ◌⊎◌, inl, inr, refl, Option, none, some, List, [], ◌∷◌}
use policy_gate.Metrics.{Metric, denial}
use policy_gate.Stream.{Handle}
use policy_gate.Layer.{Policy, Passing, Outcome, passed, missing_subject, denied, unavailable, call}
use policy_gate.Layer.Rejections.{Response, RejectionResponse, http_rejection_response}
use policy_gate.Layer.Rejections.{with_unavailable_response as unavailable_adapter}

abbrev pub unavailable_message : String
unavailable_message = "Policy decision source is unavailable; retry the request."

-- `PolicyGateLayerConfig`
pub record LayerConfig : Type 0 where
  pub denied_message : String
  pub missing_subject_message : String

abbrev pub new_config : String → String → LayerConfig
new_config denied_message missing_subject_message = record {
  denied_message = denied_message;
  missing_subject_message = missing_subject_message;
}

pub record GateContext (G : Type 0) : Type 0 where
  pub gate : G
  pub rejection_message : String
  pub missing_subject_message : String

-- `PolicyGateLayer`; what it makes of an inner service is the pair of it and the layer.
pub record PolicyGateLayer (G R B : Type 0) : Type 0 where
  pub context : GateContext G
  pub policy : R
  pub make_body : String → B
  pub response : RejectionResponse B

pub record PolicyGateMiddleware (S G R B : Type 0) : Type 0 where
  pub inner : S
  pub context : GateContext G
  pub policy : R
  pub make_body : String → B
  pub response : RejectionResponse B

module _ {G R B : Type 0} where
  unfoldable pub new_with_response :
      G → LayerConfig → R → (String → B) → RejectionResponse B → PolicyGateLayer G R B
  new_with_response gate config policy make_body response = record {
    context = record {
      gate = gate;
      rejection_message = config.denied_message;
      missing_subject_message = config.missing_subject_message;
    };
    policy = policy;
    make_body = make_body;
    response = response;
  }

  unfoldable pub new : G → LayerConfig → R → (String → B) → PolicyGateLayer G R B
  unfolding new_with_response http_rejection_response
  new gate config policy make_body =
      new_with_response gate config policy make_body (http_rejection_response make_body)

  unfoldable pub with_unavailable_response :
      Response B → PolicyGateLayer G R B → PolicyGateLayer G R B
  unfolding unavailable_adapter
  with_unavailable_response replacement l = record l {
    response = unavailable_adapter replacement l.response;
  }

  unfoldable pub layer : {S : Type 0} → S → PolicyGateLayer G R B → PolicyGateMiddleware S G R B
  layer inner l = record {
    inner = inner;
    context = l.context;
    policy = l.policy;
    make_body = l.make_body;
    response = l.response;
  }

-- What a request gets: the inner service, on what is passed on to it, or a rejection.
pub data Reply (T B : Type 0) : Type 0 where
  inner_response : Passing T → Reply T B
  rejected : Response B → Reply T B

-- `deny`, without the event that it counts, which the call's outcome has.
unfoldable pub deny : {G B : Type 0} → GateContext G → RejectionResponse B → Response B
deny context response = response.denied context.rejection_message

module _ {S G R B T : Type 0} where
  -- The response of an outcome.
  unfoldable pub respond : PolicyGateMiddleware S G R B → Outcome T → Reply T B
  unfolding deny
  respond m (passed passing) = inner_response passing
  respond m missing_subject =
      rejected (m.response.missing_subject m.context.missing_subject_message)
  respond m denied = rejected (deny m.context m.response)
  respond m unavailable = rejected (m.response.unavailable unavailable_message)

  abbrev pub respond_to :
      PolicyGateMiddleware S G R B → Option (Outcome T × List Metric) → Option (Reply T B)
  respond_to m none = none
  respond_to m (some (outcome, metrics)) = some (respond m outcome)

  -- The whole of a request: what the middleware answers, once it does.
  unfoldable pub handle_request :
      PolicyGateMiddleware S G R B
      → Policy T
      → Option Handle
      → List (Option Handle)
      → Option (Reply T B)
  unfolding call respond
  handle_request m policy cached answers = respond_to m (call policy cached answers)
