-- ===== src/Gate/Freshness.antt =====
-- The snapshots that `decision_snapshot` of src/gate.rs makes.
use policy_gate.Prelude.{
  ℕ, ◌+◌, ◌-◌, ◌/◌, ◌≤◌, ◌≡◌, refl, true, false, Option, none, some, arith, leb, ◌==◌, ◌&&◌, not,
}
use policy_gate.Decision.{Decision, DecisionResult}
use policy_gate.Config.{Config}
use policy_gate.Word.{from_decision, decode_entry_state, deadline_of, no_expiry, word}
use policy_gate.Word.Encoding.{word_roundtrip}
use policy_gate.Entry.{Snapshot, Entry, tick, deadline_after, is_expired_at, refresh_due_at}
use policy_gate.Entry.Expiry.{deadline_after-le, tick-lt, tick_mono, expired-word}
use policy_gate.Entry.Refresh.{due_lem}
use policy_gate.Gate.{decision_snapshot, capped}

capped-le :
    (epoch configured : ℕ) (cap : Option ℕ)
    → configured ≤ no_expiry
    → capped epoch configured cap ≤ no_expiry
capped-le epoch configured none h = h
capped-le epoch configured (some cap) h = omega arith

module _ {P F : Type 0} (config : Config) (fresh now : ℕ) (e : Entry P F)
    (result : DecisionResult P) where
  made : Snapshot P
  made = decision_snapshot config fresh now e result

  deadline : ℕ
  deadline =
      capped e.epoch (deadline_after e.epoch now config.decision_freshness_ttl) result.valid_until

  deadline-le : deadline ≤ no_expiry
  unfolding deadline
  deadline-le =
      capped-le e.epoch _ result.valid_until
        (deadline_after-le e.epoch now config.decision_freshness_ttl)

  made_word : made.word ≡ word (from_decision result.decision) deadline
  unfolding made decision_snapshot deadline
  made_word = refl

  made-decode : decode_entry_state made.word ≡ from_decision result.decision
  made-decode = rw made_word (word_roundtrip _ deadline deadline-le).0

  made-deadline : deadline_of made.word ≡ deadline
  made-deadline = rw made_word (word_roundtrip _ deadline deadline-le).1

  deadline-cap : (cap : ℕ) → result.valid_until ≡ some cap → deadline ≤ tick e.epoch cap
  unfolding deadline
  deadline-cap cap h = rw h (omega arith)

  made-expired :
      (later : ℕ)
      → is_expired_at e.epoch made.word later
        ≡ (not (deadline == no_expiry) && leb deadline (tick e.epoch later))
  made-expired later = rw made_word (expired-word e.epoch later deadline _ deadline-le)

  -- The snapshot of a result reads as its decision; a denial carries no payload; and at the
  -- instant of the source's cap, or later, it has expired, whatever the freshness TTL.
  pub decision_snapshot_lem :
      let s = decision_snapshot config fresh now e result in
      (decode_entry_state s.word ≡ from_decision result.decision)
      × (result.decision ≡ Decision.denied → s.payload ≡ none)
      × ((cap later : ℕ)
          → result.valid_until ≡ some cap
          → cap ≤ later
          → is_expired_at e.epoch s.word later ≡ true)
  unfolding made decision_snapshot
  decision_snapshot_lem = (
    made-decode,
    λ denied. rw denied,
    λ cap later capped_by h. ground (
      arith,
      made-expired later,
      deadline-cap cap capped_by,
      tick-lt e.epoch cap,
      tick_mono e.epoch cap later h,
    ),
  )

  made_refresh_after :
      deadline_of made.word - tick e.epoch now ≤ e.refresh_before
      → made.refresh_after ≡ tick e.epoch now + (deadline_of made.word - tick e.epoch now + 1) / 2
  unfolding made decision_snapshot deadline
  made_refresh_after inside = ground (arith, made-deadline)

  -- A refresh never falls due at the instant of publication. Where the new deadline is inside
  -- the refresh window, it falls due only when half of the remaining life has passed.
  pub decision_snapshot_not_due :
      (later : ℕ)
      → let s = decision_snapshot config fresh now e result in
        (refresh_due_at e s now ≡ false)
        × (deadline_of s.word - tick e.epoch now ≤ e.refresh_before
            → refresh_due_at e s later ≡ true
            → deadline_of s.word - tick e.epoch later ≤ tick e.epoch later - tick e.epoch now)
  unfolding refresh_due_at made decision_snapshot deadline
  decision_snapshot_not_due later = (
    ground (arith, made-deadline),
    λ inside due.
        let bounds = due_lem e made later due in omega (arith, bounds.4, made_refresh_after inside),
  )
