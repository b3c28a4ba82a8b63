-- ===== src/Tonic/Source.antt =====
-- The Tonic decision source of src/tonic_source.rs: its configuration, its construction, and the
-- opening of a watch. The parse of an endpoint and the channel that it connects are tonic's: `from_shared`
-- is a parameter, and a channel is known by the endpoint that it was made from.
use Prim.Native.String.{String, ◌++◌}
use policy_gate.Prelude.{ℕ, Bool, true, Option, some}
use policy_gate.Decision.{DecisionSourceError, Result, ok, ◌>>=◌, map_err}
use policy_gate.Config.{from_secs}
use policy_gate.Tonic.{Status, source_error}

pub record TonicDecisionSourceConfig : Type 0 where
  pub endpoint : String
  pub scope : String
  pub connect_timeout : ℕ

unfoldable pub new : String → String → TonicDecisionSourceConfig
new endpoint scope = record { endpoint = endpoint; scope = scope; connect_timeout = from_secs 2 }

unfoldable pub with_connect_timeout : ℕ → TonicDecisionSourceConfig → TonicDecisionSourceConfig
with_connect_timeout timeout config = record config { connect_timeout = timeout }

-- `TonicDecisionSourceConfigError`, by the reason that it was given.
pub record TonicDecisionSourceConfigError : Type 0 where
  pub reason : String

abbrev pub display_config_error : TonicDecisionSourceConfigError → String
display_config_error error = "invalid policy authority endpoint: " ++ error.reason

-- What is set on a `tonic::transport::Endpoint`; `U` is its parsed address.
pub record Endpoint (U : Type 0) : Type 0 where
  pub uri : U
  pub http2_keep_alive_interval : ℕ
  pub keep_alive_timeout : ℕ
  pub keep_alive_while_idle : Bool
  pub tcp_keepalive : Option ℕ
  pub connect_timeout : ℕ

-- `TonicDecisionSource`; `C` is the channel.
pub record TonicDecisionSource (C : Type 0) : Type 0 where
  pub client : C
  pub scope : String

unfoldable pub from_channel : {C : Type 0} → C → String → TonicDecisionSource C
from_channel channel scope = record { client = channel; scope = scope }

module _ {U : Type 0} (from_shared : String → Result String U) where
  abbrev pub endpoint_of : ℕ → U → Endpoint U
  endpoint_of timeout uri = record {
    uri = uri;
    http2_keep_alive_interval = from_secs 10;
    keep_alive_timeout = from_secs 5;
    keep_alive_while_idle = true;
    tcp_keepalive = some (from_secs 30);
    connect_timeout = timeout;
  }

  unfoldable pub connect_lazy :
      TonicDecisionSourceConfig
      → Result TonicDecisionSourceConfigError (TonicDecisionSource (Endpoint U))
  unfolding from_channel
  connect_lazy config = do
    uri ← map_err (λ reason. record { reason = reason }) (from_shared config.endpoint)
    ok (from_channel (endpoint_of config.connect_timeout uri) config.scope)

-- `TonicDecisionStream`: the response's stream, and the scope that its items must echo.
pub record TonicDecisionStream (S : Type 0) : Type 0 where
  pub inner : S
  pub scope : String

-- `watch_subject_decisions`, with what the client answers to a request for a scope.
unfoldable pub watch_subject_decisions :
    {C S : Type 0}
    → (C → String → Result Status S)
    → TonicDecisionSource C
    → Result DecisionSourceError (TonicDecisionStream S)
unfolding source_error
watch_subject_decisions request source = do
  inner ← map_err source_error (request source.client source.scope)
  ok (record { inner = inner; scope = source.scope })
