-- ===== src/Tonic/Decoding.antt =====
-- What src/tonic_source.rs lets through.
use Prim.Native.String.{String}
use text.Mathlib.Text.{◌==◌ as str_eq}
use text.Mathlib.TextEquality.{eq_iff}
use policy_gate.Prelude.{
  ℕ, ◌≡◌, ◌≢◌, ◌↔◌, ◌<◌, refl, arith, Option, none, some, Bool-cases, inl, inr, ◌⊎◌,
}
use policy_gate.Decision.{Decision, DecisionChange, ErrorKind, DecisionSourceError, Result, err}
use policy_gate.Tonic.{
  GetSubjectDecisionResponse, SubjectDecisionChange, validate_scope_echo, decode_decision,
  decode_response, decode_change, wire_error, get_subject_decision,
  get_subject_decision_with_payload, with_payload,
}

-- The number of a decision on the wire.
abbrev pub wire_number : Option Decision → ℕ
wire_number none = 0
wire_number (some Decision.allowed) = 1
wire_number (some Decision.denied) = 2

-- The kind of a failed decoding.
abbrev pub FailsAs : {A : Type 0} → ErrorKind → Result DecisionSourceError A → Type 0
FailsAs kind (Result.ok a) = ⊥
FailsAs kind (err e) = e.kind ≡ kind

decode_decision_wire : (d : Option Decision) → decode_decision (wire_number d) ≡ Result.ok d
unfolding decode_decision
decode_decision_wire none = refl
decode_decision_wire (some Decision.allowed) = refl
decode_decision_wire (some Decision.denied) = refl

decode_decision_unknown :
    (n : ℕ) → 2 < n → decode_decision n ≡ wire_error "decision source returned an unknown decision"
unfolding decode_decision
decode_decision_unknown n h = ground arith

decode_decision_known :
    (n : ℕ) (d : Option Decision) → decode_decision n ≡ Result.ok d → n ≡ wire_number d
unfolding decode_decision
decode_decision_known n none h = ground arith
decode_decision_known n (some Decision.allowed) h = ground arith
decode_decision_known n (some Decision.denied) h = ground arith

scope_matches :
    (expected actual : String)
    → actual ≡ expected
    → validate_scope_echo expected actual ≡ Result.ok tt
unfolding validate_scope_echo
scope_matches expected actual h = rw ((eq_iff actual expected).1 h)

scope_differs :
    (expected actual : String)
    → actual ≢ expected
    → validate_scope_echo expected actual ≡ wire_error "decision source returned a mismatched scope"
unfolding validate_scope_echo
scope_differs expected actual h = elim (Bool-cases (str_eq actual expected)) [
  | inl same ↦ absurd (h ((eq_iff actual expected).0 same))
  | inr other ↦ rw other
]

scope_cases : (expected actual : String) → (actual ≡ expected) ⊎ (actual ≢ expected)
scope_cases expected actual = elim (Bool-cases (str_eq actual expected)) [
  | inl same ↦ inl ((eq_iff actual expected).0 same)
  | inr other ↦ inr (λ e. absurd (cc ((eq_iff actual expected).1 e, other)))
]

-- A response is accepted only if it echoes the source's scope and carries one of the three known
-- numbers, and then means that number's decision; a mismatched scope or an unknown number fails as
-- a violation of the protocol.
pub decode_response_lem :
    (response : GetSubjectDecisionResponse) (scope : String)
    → ((d : Option Decision)
        → (decode_response response scope ≡ Result.ok d)
          ↔ ((response.scope ≡ scope) × (response.decision ≡ wire_number d)))
      × ((response.scope ≢ scope) ⊎ (2 < response.decision)
          → FailsAs ErrorKind.wire (decode_response response scope))
unfolding decode_response
decode_response_lem response scope = elim (scope_cases scope response.scope) [
  | inl same ↦
      let passed = scope_matches scope response.scope same in
      rw (passed, decode_response)
        (
          λ d. (
            λ h. (same, decode_decision_known response.decision d h),
            λ h. rw (h.1) (decode_decision_wire d),
          ),
          λ why. elim why [
            | inl other ↦ absurd (other same)
            | inr large ↦ rw (decode_decision_unknown response.decision large) refl
          ],
        )
  | inr other ↦
      let refused = scope_differs scope response.scope other in
      rw (refused, decode_response)
        (λ d. (λ h. absurd (cc h), λ h. absurd (other (h.0))), λ why. refl)
]

module _ {T : Type 0} (parse : String → Option T) (display : T → String) where
  -- A change that the authority sends for the source's scope is decoded to itself, where the
  -- subject's display parses back. With another scope it is refused as a violation of the
  -- protocol, whatever else it carries.
  pub decode_change_roundtrip :
      ((t : T) → parse (display t) ≡ some t)
      → (change : DecisionChange T) (scope sent : String)
      → let encoded : SubjectDecisionChange = record {
        subject_id = display change.subject;
        decision = wire_number change.decision;
        scope = sent;
      } in
        (sent ≡ scope → decode_change parse encoded scope ≡ Result.ok change)
        × (sent ≢ scope → FailsAs ErrorKind.wire (decode_change parse encoded scope))
  unfolding decode_change
  decode_change_roundtrip parses change scope sent = (
    λ same. rw (
      scope_matches scope sent same,
      decode_change,
      parses change.subject,
      decode_decision_wire change.decision,
    ),
    λ other. rw (scope_differs scope sent other, decode_change) refl,
  )

-- Where the plain lookup decodes a response, so does the one with a payload, and the payload never
-- makes a decision: a response without one gives none, whatever its payload, and
-- one with a decision keeps a payload that is not empty and sets no deadline.
pub payload_lem :
    (response : GetSubjectDecisionResponse) (scope : String) (d : Option Decision)
    → get_subject_decision scope (Result.ok response) ≡ Result.ok d
    → get_subject_decision_with_payload scope (Result.ok response)
      ≡ Result.ok (with_payload response.payload d)
unfolding get_subject_decision get_subject_decision_with_payload
payload_lem response scope d h = rw (h, get_subject_decision_with_payload)
