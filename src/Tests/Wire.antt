-- ===== src/Tests/Wire.antt =====
-- The watcher and the decoding at concrete inputs.
use Prim.Native.String.{String}
use policy_gate.Prelude.{ℕ, ◌+◌, ◌*◌, ◌-◌, ◌^◌, ◌≤◌, ◌<◌, ◌≡◌, refl, arith, Option, some, []}
use policy_gate.Decision.{Decision, Result}
use policy_gate.Config.{from_millis}
use policy_gate.Gate.Watch.{watch_connected}
use policy_gate.Watcher.{Watcher, watching, end_of_stream, jitter, wake, failed, status}
use policy_gate.Watcher.Backoff.{jitter_bounds, InBounds, wake-InBounds}
use policy_gate.Watcher.Health.{InStep, wake-InStep, flapping_fails}
use policy_gate.Tonic.{decode_response, decode_change, GetSubjectDecisionResponse}
use policy_gate.Tonic.Decoding.{decode_response_lem, decode_change_roundtrip}
use policy_gate.Tests.Data.{gate}

jitter_bounds_example :
    (0 < jitter 123 (from_millis 100))
    × (4 * jitter 123 (from_millis 100) ≤ 5 * from_millis 100)
    × (3 * from_millis 100 < 4 * (jitter 123 (from_millis 100) + 1_000_000))
jitter_bounds_example = jitter_bounds 123 (from_millis 100) (omega arith) (omega arith)

-- The longest delay in milliseconds wraps around: its jitter can be less than a third of it.
jitter_overflows : 3 * jitter (2 ^ 62) (from_millis (2 ^ 64 - 1)) < from_millis (2 ^ 64 - 1)
unfolding jitter
jitter_overflows = ground arith

abbrev watcher : Watcher ℕ ℕ
watcher = record { phase = watching 3 []; reconnect_delay = from_millis 100 }

wake-InBounds_example :
    InBounds gate (wake 123 5 end_of_stream watcher.phase watcher gate).0.reconnect_delay
wake-InBounds_example =
    wake-InBounds 123 5 watcher gate end_of_stream watcher.phase (omega arith) (omega arith)
      (record { least = omega arith; most = omega arith })

wake-InStep_example :
    let r = wake 123 5 end_of_stream watcher.phase watcher gate in InStep r.0.phase r.1
wake-InStep_example =
    wake-InStep 123 5 watcher gate end_of_stream watcher.phase
      (record { connectivity = refl; stable_watches = λ h. absurd (ground arith) })

flapping_fails_example : status 10 (watch_connected gate).disconnected_since 12 ≡ failed
flapping_fails_example = (flapping_fails gate 0 7 12 10 refl (omega arith)).0

abbrev response : GetSubjectDecisionResponse
response = record { decision = 2; scope = "tenant"; payload = "reason" }

decode_response_lem_example : decode_response response "tenant" ≡ Result.ok (some Decision.denied)
decode_response_lem_example =
    ((decode_response_lem response "tenant").0 (some Decision.denied)).1 (refl, refl)

-- Subjects whose identifier is their text.
abbrev parse : String → Option String
parse text = some text

decode_change_roundtrip_example :
    decode_change parse (record { subject_id = "alice"; decision = 1; scope = "tenant" }) "tenant"
    ≡ Result.ok (record { subject = "alice"; decision = some Decision.allowed })
decode_change_roundtrip_example =
    (decode_change_roundtrip parse (λ t. t) (λ t. refl)
        (record { subject = "alice"; decision = some Decision.allowed }) "tenant" "tenant").0
      refl
