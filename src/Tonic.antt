-- ===== src/Tonic.antt =====
-- The decoding of src/tonic_source.rs: scope echoes, decisions, changes and statuses. The parse of
-- a subject identifier (`FromStr`) is a parameter. The numbers of a proto decision are those of
-- the generated enum in src/policy_proto.rs.
pub mod Decoding
pub mod Source
use Prim.Native.String.{String}
use text.Mathlib.Text.{◌==◌ as str_eq}
use policy_gate.Prelude.{ℕ, ◌==◌, Bool, Option, none, some, if◌then◌else◌}
use policy_gate.Decision.{
  Decision, DecisionResult, DecisionChange, ErrorKind, DecisionSourceError, Result, err, ◌>>=◌,
  map_err,
}

-- `tonic::Code`
pub data Code : Type 0 where
  ok cancelled unknown invalid_argument deadline_exceeded not_found already_exists permission_denied
        resource_exhausted failed_precondition aborted out_of_range unimplemented internal
        unavailable data_loss unauthenticated :
      Code

-- A `tonic::Status`: its code and its display.
pub record Status : Type 0 where
  pub code : Code
  pub text : String

-- The fields of the generated messages that are read. An `i32` that is negative is no decision;
-- it is the number that two's complement reads it as.
pub record GetSubjectDecisionResponse : Type 0 where
  pub decision : ℕ
  pub scope : String
  pub payload : String

pub record SubjectDecisionChange : Type 0 where
  pub subject_id : String
  pub decision : ℕ
  pub scope : String

pub data ProtoDecision : Type 0 where
  unspecified allowed denied : ProtoDecision

-- `ProtoDecision::try_from`
unfoldable pub proto_decision : ℕ → Option ProtoDecision
proto_decision state =
    if state == 0
    then some ProtoDecision.unspecified
    else if state == 1
    then some ProtoDecision.allowed
    else if state == 2
    then some ProtoDecision.denied
    else none

abbrev pub wire_error : {A : Type 0} → String → Result DecisionSourceError A
wire_error message = err (record { kind = ErrorKind.wire; message = message })

unfoldable pub validate_scope_echo : String → String → Result DecisionSourceError (Unit {0})
validate_scope_echo expected actual =
    if str_eq actual expected
    then Result.ok tt
    else wire_error "decision source returned a mismatched scope"

abbrev pub normalized : Option ProtoDecision → Result DecisionSourceError (Option Decision)
normalized (some ProtoDecision.unspecified) = Result.ok none
normalized (some ProtoDecision.allowed) = Result.ok (some Decision.allowed)
normalized (some ProtoDecision.denied) = Result.ok (some Decision.denied)
normalized none = wire_error "decision source returned an unknown decision"

unfoldable pub decode_decision : ℕ → Result DecisionSourceError (Option Decision)
unfolding proto_decision
decode_decision state = normalized (proto_decision state)

unfoldable pub decode_response :
    GetSubjectDecisionResponse → String → Result DecisionSourceError (Option Decision)
unfolding validate_scope_echo decode_decision
decode_response response scope = do
  _ ← validate_scope_echo scope response.scope
  decode_decision response.decision

abbrev pub parsed : {T : Type 0} → Option T → Result DecisionSourceError T
parsed none = wire_error "decision source returned an invalid subject identifier"
parsed (some subject) = Result.ok subject

module _ {T : Type 0} (parse : String → Option T) where
  unfoldable pub decode_change :
      SubjectDecisionChange → String → Result DecisionSourceError (DecisionChange T)
  unfolding validate_scope_echo decode_decision
  decode_change change scope = do
    _ ← validate_scope_echo scope change.scope
    subject ← parsed (parse change.subject_id)
    decision ← decode_decision change.decision
    Result.ok (record { subject = subject; decision = decision })

abbrev pub kind_of : Code → ErrorKind
kind_of Code.not_found = ErrorKind.permanent
kind_of Code.invalid_argument = ErrorKind.permanent
kind_of Code.permission_denied = ErrorKind.permanent
kind_of Code.unauthenticated = ErrorKind.permanent
kind_of Code.unimplemented = ErrorKind.permanent
kind_of Code.data_loss = ErrorKind.permanent
kind_of _ = ErrorKind.transient

unfoldable pub source_error : Status → DecisionSourceError
source_error status = record { kind = kind_of status.code; message = status.text }

module _ {T : Type 0} (parse : String → Option T) where
  -- `poll_next` on an item of the inner stream.
  unfoldable pub decode_item :
      String → Result Status SubjectDecisionChange → Result DecisionSourceError (DecisionChange T)
  unfolding source_error decode_change
  decode_item scope item = do change ← map_err source_error item; decode_change parse change scope

-- `get_subject_decision`, from the client's answer on.
unfoldable pub get_subject_decision :
    String → Result Status GetSubjectDecisionResponse → Result DecisionSourceError (Option Decision)
unfolding source_error decode_response
get_subject_decision scope answer = do
  response ← map_err source_error answer
  decode_response response scope

abbrev pub non_empty : String → Option String
non_empty text = if str_eq text "" then none else some text

abbrev pub with_payload : String → Option Decision → Option (DecisionResult String)
with_payload text none = none
with_payload text (some decision) =
    some (record { decision = decision; payload = non_empty text; valid_until = none })

-- `get_subject_decision_with_payload`, from the client's answer on.
unfoldable pub get_subject_decision_with_payload :
    String
    → Result Status GetSubjectDecisionResponse
    → Result DecisionSourceError (Option (DecisionResult String))
unfolding source_error decode_response
get_subject_decision_with_payload scope answer = do
  response ← map_err source_error answer
  decision ← decode_response response scope
  Result.ok (with_payload response.payload decision)
