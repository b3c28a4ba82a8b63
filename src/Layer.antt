-- ===== src/Layer.antt =====
-- The middleware of src/layer.rs: `call`, `pass_through` and the response's future, and the
-- rejections of src/layer.rs and src/grpc.rs. What the policy says of a request and what the gate
-- answers are arguments, since other threads run in between.
pub mod Admitting
pub mod Rejections
pub mod Service
use policy_gate.Prelude.{
  ℕ, ◌+◌, ◌-◌, ◌^◌, min, Bool, true, false, not, ◌&&◌, Option, none, some, List, [], ◌∷◌, ◌++◌,
  ◌==◌, leb, if◌then◌else◌,
}
use policy_gate.Metrics.{
  Metric, denial, unavailable_rejection, snapshot_miss, missing_subject_rejection,
}
use policy_gate.Stream.{BodySide, Enforced, Handle}

-- What the policy says of a request: its subject, and which of its bodies are enforced.
pub record Policy (T : Type 0) : Type 0 where
  pub subject : Option T
  pub enforce_request_body : Bool
  pub enforce_response_body : Bool

-- What `pass_through` hands over: the wrapper of the request's body, if it has one, and what its
-- future keeps for the response.
pub record Passing (T : Type 0) : Type 0 where
  pub subject : T
  pub admission : Handle
  pub request_body : Option Enforced
  pub enforce_response_body : Bool

pub data Outcome (T : Type 0) : Type 0 where
  passed : Passing T → Outcome T
  missing_subject denied unavailable : Outcome T

-- `EnforcedBody::new`
unfoldable pub new_body : Handle → BodySide → Enforced
new_body handle side = record {
  admission = handle.entry;
  readmission = none;
  side = side;
  ended = false;
  metrics = [];
}

module _ {T : Type 0} (policy : Policy T) where
  unfoldable pub pass_through : T → Handle → Passing T
  unfolding new_body
  pass_through subject handle = record {
    subject = subject;
    admission = handle;
    request_body =
        if policy.enforce_request_body then some (new_body handle BodySide.request) else none;
    enforce_response_body = policy.enforce_response_body;
  }

  -- The answer that a handle gives at once: `none` where it is neither allowed nor denied.
  unfoldable pub answer : T → Handle → Option (Outcome T × List Metric)
  unfolding pass_through
  answer subject handle =
      if handle.allowed
      then some (passed (pass_through subject handle), [])
      else if handle.denied
      then some (denied, denial ∷ [])
      else none

  -- The loop over `admit`, for the answers that are given; an answer of none is an unavailable
  -- admission. `none` where the call still waits.
  unfoldable pub admit_loop : T → List (Option Handle) → Option (Outcome T × List Metric)
  unfolding answer
  admit_loop subject [] = none
  admit_loop subject (none ∷ answers) = some (unavailable, unavailable_rejection ∷ [])
  admit_loop subject (some handle ∷ answers) = elim (answer subject handle) [
    | some outcome ↦ some outcome
    | none ↦ admit_loop subject answers
  ]

  abbrev pub after_miss : Option (Outcome T × List Metric) → Option (Outcome T × List Metric)
  after_miss none = none
  after_miss (some (outcome, metrics)) = some (outcome, metrics ++ snapshot_miss ∷ [])

  -- What the cached handle answers, if there is one.
  abbrev pub cached_answer : T → Option Handle → Option (Outcome T × List Metric)
  cached_answer subject none = none
  cached_answer subject (some handle) = answer subject handle

  -- `call`: the outcome with the events that it reports, newest first. `cached` is the answer of
  -- `check_without_refresh`, where refreshes are off, and of `try_cached` otherwise; both are
  -- used in the same way.
  unfoldable pub call : Option Handle → List (Option Handle) → Option (Outcome T × List Metric)
  unfolding admit_loop
  call cached answers = elim policy.subject [
    | none ↦ some (missing_subject, missing_subject_rejection ∷ [])
    | some subject ↦ elim (cached_answer subject cached) [
      | some outcome ↦ some outcome
      | none ↦ after_miss (admit_loop subject answers)
    ]
  ]

-- A response: its declared length, and the wrapper of its body.
pub record Delivered : Type 0 where
  pub content_length : Option ℕ
  pub body : Option Enforced

-- The future of the response, once the inner service has answered.
unfoldable pub deliver : {T : Type 0} → Passing T → Option ℕ → Delivered
unfolding new_body
deliver passing content_length =
    if passing.enforce_response_body
    then record {
      content_length = none;
      body = some (new_body passing.admission BodySide.response);
    }
    else record { content_length = content_length; body = none }

-- `should_log_missing_subject` at `now` in seconds: the mark that it loads, and what it finds there
-- when it exchanges it.
unfoldable pub should_log_missing_subject : ℕ → ℕ → ℕ → ℕ → ℕ × Bool
should_log_missing_subject interval now next seen =
    if leb next now && seen == next
    then (min (now + interval) (2 ^ 64 - 1), true)
    else (seen, false)
