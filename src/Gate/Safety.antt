-- ===== src/Gate/Safety.antt =====
-- What src/gate.rs does to entries brings no stale entry back, but for the entry that a lookup
-- creates and the one that a watch decision is about.
pub mod Reads
pub mod Admits
pub mod Changes
pub mod Events
pub mod Histories
pub mod Origins
pub mod Owners
pub mod Rebuilds
use policy_gate.Prelude.{
  ℕ, suc, ◌+◌, ◌≡◌, ◌≢◌, ◌⊎◌, inl, inr, refl, arith, Bool, true, false, not, Option, none, some,
  ◌==◌, if◌then◌else◌, is_some, Bool-cases,
}
use policy_gate.Decision.{Decision, DecisionResult}
use policy_gate.Config.{Config}
use policy_gate.Word.{EntryState, same_state, word, decode_entry_state, no_expiry}
use policy_gate.Entry.{
  Entry, Snapshot, PendingFetch, state_at, verdict_at, compare_exchange, replace_pending,
  new_pending,
}
use policy_gate.Entry.Liveness.{
  is_live, live_word, state_at-tame, verdict_at-tame, observed_at-tame, compare_exchange-tame,
  replace_pending-tame,
}
use policy_gate.Store.{Store, write, run, abort_at}
use policy_gate.Store.Liveness.{
  live_at, Tame, TameBut, CreatesOne, ChangesOne, Judges, run-Tame, run-but, abort_at-Tame,
  write-tame,
}
use policy_gate.Gate.{Lookup}
use policy_gate.Gate.Fetch.{give_up, cooled_down, failed_snapshot, new_fetch_after}
use policy_gate.Gate.Watch.{decide, exchange}
use policy_gate.Gate.Admit.{create, is_same, is_same_stale}
use policy_gate.Admission.{admission}

module _ {T P : Type 0} where
  pub decide-ChangesOne :
      (config : Config) (decision : Decision) (now : ℕ)
      → ChangesOne (decide {T = T} {P = P} config decision now)
  unfolding decide
  decide-ChangesOne config decision now entry s a live =
      let announced : DecisionResult P = record {
        decision = decision;
        payload = none;
        valid_until = none;
      } in
      let exchanged = (run (exchange config announced now) entry s).0 in
      run-but (exchange config announced now) entry s a (abort_at-Tame entry exchanged a live)

  pub create-CreatesOne :
      (subject : T) (now refresh_before : ℕ)
      → CreatesOne {P = P} {F = Lookup T P} (create subject now refresh_before)
  unfolding create
  create-CreatesOne subject now refresh_before s a live = ground arith

  pub is_same-Judges : (entry : ℕ) → Judges {P = P} {F = Lookup T P} (is_same entry)
  is_same-Judges entry current s a live = live

  pub state_at-Tame :
      (entry now : ℕ) (s : Store P (Lookup T P))
      → Tame s (run (λ fresh. state_at fresh now) entry s).0
  state_at-Tame entry now s =
      run-Tame (λ fresh. state_at fresh now) entry s (state_at-tame s.next (s.entries entry) now)

  pub verdict_at-Tame :
      (entry now : ℕ) (s : Store P (Lookup T P))
      → Tame s (run (λ fresh. verdict_at fresh now) entry s).0
  verdict_at-Tame entry now s =
      run-Tame (λ fresh. verdict_at fresh now) entry s
        (verdict_at-tame s.next (s.entries entry) now)

  pub admission-Tame : (entry now : ℕ) (s : Store P (Lookup T P)) → Tame s (admission entry now s).0
  unfolding admission
  admission-Tame entry now s =
      run-Tame (λ fresh. verdict_at fresh now) entry s
        (verdict_at-tame s.next (s.entries entry) now)

  pub is_same_stale-Judges :
      (entry now : ℕ) → Judges {P = P} {F = Lookup T P} (is_same_stale entry now)
  unfolding is_same_stale
  is_same_stale-Judges entry now current s a live = ground (arith, state_at-Tame current now s a)

  pub give_up-Judges :
      (entry generation : ℕ) → Judges {P = P} {F = Lookup T P} (give_up entry generation)
  unfolding give_up
  give_up-Judges entry generation current s a live = ground (
    arith,
    run-Tame (λ fresh. compare_exchange EntryState.pending (failed_snapshot fresh)) entry s
        (compare_exchange-tame (s.entries entry) EntryState.pending (failed_snapshot s.next) refl)
        a,
  )

  pub cooled_down-Tame :
      (config : Config) (subject : T) (entry generation now : ℕ) (s : Store P (Lookup T P))
      → Tame s (cooled_down config subject entry generation now s)
  unfolding cooled_down new_fetch_after
  cooled_down-Tame config subject entry generation now s a live =
      let seen = (run (λ fresh. state_at fresh now) entry s).0 in
      ground (
        arith,
        state_at-Tame entry now s a,
        λ (r : Option (PendingFetch (Lookup T P))).
            replace_pending-tame (seen.entries entry) generation r,
      )
