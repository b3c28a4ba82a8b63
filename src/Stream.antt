-- ===== src/Stream.antt =====
-- `EnforcedBody` of src/stream.rs: a body that is cut when its subject is denied. What the calls of
-- the gate, the readmission's future and the inner body give is an argument, since other threads
-- run in between: one `Turn` for each round of the loop of `poll_frame`.
pub mod Rounds
pub mod Loop
pub mod Enforcement
use Prim.Native.String.{String}
use policy_gate.Prelude.{
  ℕ, Bool, true, false, not, ◌||◌, Option, none, some, List, [], ◌∷◌, ◌==◌, if◌then◌else◌,
}
use policy_gate.Metrics.{Metric, stream_cutoff}
use policy_gate.Word.{Observed}

-- `BodySide` and `StreamRejection` of src/layer.rs. `H` stands for header maps and `E` for errors.
pub data BodySide : Type 0 where
  request response : BodySide

pub data StreamRejection (H E : Type 0) : Type 0 where
  trailers : H → StreamRejection H E
  error : E → StreamRejection H E

-- The future that a stale body waits for: `admit`, or `admit_after` a delay.
pub data Readmission : Type 0 where
  admit : Readmission
  admit_after : ℕ → Readmission

-- The body's own fields, the handle by its entry's address, and the events of its context.
pub record Enforced : Type 0 where
  pub admission : ℕ
  pub readmission : Option Readmission
  pub side : BodySide
  pub ended : Bool
  pub metrics : List Metric

-- A handle that the gate gave, with what `is_allowed` and `state() == Denied` then say of it.
pub record Handle : Type 0 where
  pub entry : ℕ
  pub allowed : Bool
  pub denied : Bool

pub data Readmitted : Type 0 where
  waiting unavailable : Readmitted
  admitted : Handle → Readmitted

-- What one round reads: the handle's state, the gate's cached admission, the poll of the
-- readmission, and whether the poll of its replacement was pending.
pub record Turn : Type 0 where
  pub observed : Observed
  pub cached : Option Handle
  pub readmitted : Readmitted
  pub armed : Bool

-- What the inner body gives to a poll, and what the wrapper gives. A flag tells trailers from data.
pub data Inner (D E : Type 0) : Type 0 where
  idle finished : Inner D E
  frame : D → Bool → Inner D E
  failed : E → Inner D E

pub data Polled (D H E : Type 0) : Type 0 where
  pending end : Polled D H E
  passed : D → Bool → Polled D H E
  broken : E → Polled D H E
  rejected : StreamRejection H E → Polled D H E

-- The loop goes on, or `poll_frame` returns; the flag says whether the task was woken.
pub data Next (D H E : Type 0) : Type 0 where
  again : Enforced → Next D H E
  returned : Enforced → Polled D H E → Bool → Next D H E

abbrev pub over : Enforced → Enforced
over b = record b { ended = true; readmission = none }

module _ {D H E : Type 0} where
  unfoldable pub poll_inner_terminal : Inner D E → Enforced → Enforced × Polled D H E
  poll_inner_terminal idle b = (b, pending)
  poll_inner_terminal finished b = (over b, end)
  poll_inner_terminal (frame data_of true) b = (over b, passed data_of true)
  poll_inner_terminal (frame data_of false) b = (b, passed data_of false)
  poll_inner_terminal (failed e) b = (b, broken e)

  abbrev pub forward : Inner D E → Bool → Enforced → Next D H E
  forward inner woken b = let r = poll_inner_terminal inner b in returned r.0 r.1 woken

module _ {D H E : Type 0} (stream_denied : BodySide → StreamRejection H E) where
  -- The end of `poll_frame`, past the loop.
  unfoldable pub cut : Enforced → Next D H E
  cut b =
      returned (record (over b) { metrics = stream_cutoff ∷ b.metrics })
        (rejected (stream_denied b.side)) false

module _ {D H E : Type 0} (stream_denied : BodySide → StreamRejection H E)
    (refresh_before_expiry admission_timeout : ℕ) (inner : Inner D E) where
  abbrev pub replaced : Handle → Enforced → Next D H E
  replaced handle b = again (record b { readmission = none; admission = handle.entry })

  -- The poll of the readmission.
  unfoldable pub readmit : Turn → Enforced → Next D H E
  unfolding cut poll_inner_terminal
  readmit turn b = elim turn.readmitted [
    | waiting ↦ forward inner false b
    | admitted handle ↦
        if handle.allowed
        then replaced handle b
        else if handle.denied
        then cut stream_denied b
        else again (record b { readmission = none })
    | unavailable ↦
        forward inner (not turn.armed)
          (record b { readmission = some (admit_after admission_timeout) })
  ]

  abbrev pub with_readmission : Option Readmission → Readmission
  with_readmission none = admit
  with_readmission (some readmission) = readmission

  abbrev pub started : Enforced → Enforced
  started b = record b { readmission = some (with_readmission b.readmission) }

  abbrev pub stale_step : Turn → Enforced → Option Handle → Next D H E
  stale_step turn b none = readmit turn (started b)
  stale_step turn b (some handle) =
      if handle.allowed
      then if refresh_before_expiry == 0 then replaced handle b else readmit turn (started b)
      else if handle.denied
      then cut stream_denied b
      else readmit turn (started b)

  -- One round of the loop.
  unfoldable pub step : Turn → Enforced → Next D H E
  unfolding readmit cut poll_inner_terminal
  step turn b = elim turn.observed [
    | Observed.allowed ↦ forward inner false b
    | Observed.denied ↦ cut stream_denied b
    | Observed.expired ↦ cut stream_denied b
    | Observed.stale ↦ stale_step turn b turn.cached
  ]

  -- The loop, for the rounds that are given. `none` where it has not returned by then.
  unfoldable pub enforce : List Turn → Enforced → Option (Enforced × Polled D H E × Bool)
  unfolding step
  enforce [] b = none
  enforce (turn ∷ turns) b = elim (step turn b) [
    | again c ↦ enforce turns c
    | returned c polled woken ↦ some (c, polled, woken)
  ]

  -- `poll_frame`, where `inner_ended` is the inner body's `is_end_stream`.
  unfoldable pub poll_frame : Bool → List Turn → Enforced → Option (Enforced × Polled D H E × Bool)
  unfolding enforce
  poll_frame inner_ended turns b =
      if b.ended || inner_ended then some (over b, end, false) else enforce turns b

abbrev pub is_end_stream : Bool → Enforced → Bool
is_end_stream inner_ended b = b.ended || inner_ended

-- `size_hint`: the exact size, where there is one.
abbrev pub size_hint : Enforced → Option ℕ
size_hint b = if b.ended then some 0 else none
