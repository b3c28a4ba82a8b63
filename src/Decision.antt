-- ===== src/Decision.antt =====
-- The decisions, results, changes and failures of src/lib.rs, and the failures that
-- src/gate.rs treats as permanent.
use Prim.Native.String.{String}
use policy_gate.Prelude.{ℕ, Bool, true, false, Option, none, some}

pub data Decision : Type 0 where
  allowed denied : Decision

-- `valid_until` is an instant of the gate's clock.
pub record DecisionResult {ℓ} (P : Type ℓ) : Type ℓ where
  pub decision : Decision
  pub payload : Option P
  pub valid_until : Option ℕ

pub record DecisionChange {ℓ} (T : Type ℓ) : Type ℓ where
  pub subject : T
  pub decision : Option Decision

pub data ErrorKind : Type 0 where
  transient permanent wire : ErrorKind

pub record DecisionSourceError : Type 0 where
  pub kind : ErrorKind
  pub message : String

pub data Result {ℓ κ} (E : Type ℓ) (A : Type κ) : Type (ℓ ⊔ κ) where
  ok : A → Result E A
  err : E → Result E A

infixl 5 ◌>>=◌
abbrev pub ◌>>=◌ {ℓ κ μ} :
    {E : Type ℓ} {A : Type κ} {B : Type μ} → Result E A → (A → Result E B) → Result E B
ok a >>= f = f a
err e >>= f = err e

abbrev pub map_err {ℓ κ μ} :
    {E : Type ℓ} {F : Type κ} {A : Type μ} → (E → F) → Result E A → Result F A
map_err f (ok a) = ok a
map_err f (err e) = err (f e)

abbrev pub is_ok {ℓ κ} : {E : Type ℓ} {A : Type κ} → Result E A → Bool
is_ok (ok _) = true
is_ok (err _) = false

abbrev pub permanent_kind : ErrorKind → Bool
permanent_kind transient = false
permanent_kind permanent = true
permanent_kind wire = true

unfoldable pub is_permanent_status : DecisionSourceError → Bool
is_permanent_status e = permanent_kind e.kind

-- Whether a failure counts as a violation of the protocol.
abbrev pub wire_kind : ErrorKind → Bool
wire_kind transient = false
wire_kind permanent = false
wire_kind wire = true

-- `DecisionSourceError::new`, and its display.
abbrev pub new_error : ErrorKind → String → DecisionSourceError
new_error kind message = record { kind = kind; message = message }

abbrev pub display_error : DecisionSourceError → String
display_error e = e.message

abbrev pub bare {ℓ} : {P : Type ℓ} → Option Decision → Option (DecisionResult P)
bare none = none
bare (some decision) = some (record { decision = decision; payload = none; valid_until = none })

-- `get_subject_decision_result` where a source does not give its own: the decision alone.
unfoldable pub get_subject_decision_result {ℓ} :
    {P : Type ℓ}
    → Result DecisionSourceError (Option Decision)
    → Result DecisionSourceError (Option (DecisionResult P))
get_subject_decision_result (ok decision) = ok (bare decision)
get_subject_decision_result (err e) = err e
