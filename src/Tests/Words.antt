-- ===== src/Tests/Words.antt =====
-- Words, deadlines, polls and configurations at concrete inputs.
use policy_gate.Prelude.{ℕ, ◌^◌, ◌<◌, ◌≡◌, refl, arith, true, false, some, List, [], ◌∷◌}
use policy_gate.Decision.{ok, Decision}
use policy_gate.Time.{Poll, pending, ready, timeout_at, drive}
use policy_gate.Time.Timeouts.{drive-Timely}
use policy_gate.Config.{build, from_secs}
use policy_gate.Config.Build.{IsValid, build-IsValid, build_accepts}
use policy_gate.Word.{EntryState, word, decode_entry_state, deadline_of, stale_word}
use policy_gate.Word.Encoding.{word_roundtrip, stale_word_lem}
use policy_gate.Entry.{
  tick, is_expired_at, deadline_after, current_at_loop, refresh_due_at, Snapshot,
}
use policy_gate.Entry.Expiry.{deadline_after_lem, current_at_loop_exact}
use policy_gate.Gate.{decision_snapshot}
use policy_gate.Gate.Freshness.{decision_snapshot_lem, decision_snapshot_not_due}
use policy_gate.Tests.Data.{config, no_entry}

-- A future that answers at 3 is cut off by a deadline at 5 only if it is polled too late.
abbrev polls : List (ℕ × Poll ℕ)
polls = (1, pending) ∷ (4, ready 9) ∷ []

drive-Timely_example : 4 < 5
unfolding drive timeout_at
drive-Timely_example = drive-Timely 5 polls {at = 4} {r = ok 9} refl

abbrev late_polls : List (ℕ × Poll ℕ)
late_polls = (1, pending) ∷ (6, ready 9) ∷ []

config-IsValid : IsValid 0 config
config-IsValid = ground arith

build-IsValid_example : (config ≡ config) × IsValid 0 config
unfolding build
build-IsValid_example = build-IsValid 0 config config refl

build_accepts_example : build 0 config ≡ ok config
build_accepts_example = build_accepts 0 config config-IsValid

word_roundtrip_example :
    (decode_entry_state (word EntryState.denied 77) ≡ EntryState.denied)
    × (deadline_of (word EntryState.denied 77) ≡ 77)
    × (word EntryState.denied 77 < 2 ^ 64)
word_roundtrip_example = word_roundtrip EntryState.denied 77 (omega arith)

stale_word_lem_example : decode_entry_state (stale_word 309) ≡ EntryState.stale
stale_word_lem_example = (stale_word_lem 309 (omega arith)).0

deadline_after_lem_example :
    is_expired_at 0 (word EntryState.allowed (deadline_after 0 5 (from_secs 60))) (from_secs 61)
    ≡ true
unfolding tick
deadline_after_lem_example =
    (deadline_after_lem 0 5 (from_secs 60) (from_secs 61) EntryState.allowed (omega arith)
        (omega arith)).0
      (omega arith)

-- The allowed decision of `no_entry`'s cell, until ten.
abbrev seen : Snapshot ℕ
seen = record { addr = 2; word = word EntryState.allowed 10; payload = some 5; refresh_after = 0 }

current_at_loop_exact_example :
    let r = current_at_loop 0 4 12 seen (no_entry.current ∷ []) in
    (r.2 ≡ is_expired_at 0 r.1.word 12)
    × (r.2 ≡ true → decode_entry_state r.1.word ≡ EntryState.stale)
unfolding word
current_at_loop_exact_example =
    current_at_loop_exact 0 4 12 seen (no_entry.current ∷ []) (omega arith) (omega arith, tt)

decision_snapshot_lem_example :
    is_expired_at 0
      (decision_snapshot config 4 5 no_entry
        (record { decision = Decision.denied; payload = some 3; valid_until = some 9 })).word
      20
    ≡ true
decision_snapshot_lem_example =
    (decision_snapshot_lem config 4 5 no_entry
        (record { decision = Decision.denied; payload = some 3; valid_until = some 9 })).2
      9 20 refl (omega arith)

decision_snapshot_not_due_example :
    refresh_due_at no_entry
      (decision_snapshot config 4 5 no_entry
        (record { decision = Decision.allowed; payload = some 3; valid_until = some 90 }))
      5
    ≡ false
decision_snapshot_not_due_example =
    (decision_snapshot_not_due config 4 5 no_entry
      (record { decision = Decision.allowed; payload = some 3; valid_until = some 90 }) 30).0
