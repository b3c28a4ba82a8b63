-- ===== src/Gate/Safety/Origins/Lookups.antt =====
-- Lookup results and watch events, src/gate.rs, and the origins of what the entries hold.
use policy_gate.Prelude.{
  ℕ, suc, ◌≡◌, inl, inr, refl, arith, Bool, true, false, none, some, Option-cases, if_branches, not,
  ◌||◌, ◌==◌, is_some,
}
use policy_gate.Decision.{Decision, Result, ok, err, DecisionResult, DecisionSourceError}
use policy_gate.Config.{Config}
use policy_gate.Word.{EntryState, same_state, decode_entry_state, word}
use policy_gate.Entry.{
  Entry, Snapshot, compare_exchange, compare_and_swap, replace_pending, pending_generation,
  state_at,
}
use policy_gate.Store.{Store, run}
use policy_gate.Gate.{Lookup, decision_snapshot}
use policy_gate.Gate.Freshness.{decision_snapshot_lem}
use policy_gate.Gate.Fetch.{
  Readings, resolved, refreshed, give_up, cooled_down, failed_snapshot, new_fetch_after,
}
use policy_gate.Gate.Watch.{decide, exchange}
use policy_gate.Gate.Safety.Origins.{
  allowed_word, Moves, Turns, Turns-later, Turns-joins, Moves-rests, Moves-joins, write-Moves,
  run-Moves, state_at-Moves, abort_at-Moves, compare_exchange-Turns, replace_pending-Turns,
}

module _ {T P : Type 0} (Says : Type 0) where
  pub resolved-Turns :
      (n generation : ℕ) (s : Snapshot P) (e : Entry P (Lookup T P))
      → s.addr ≡ n
      → (allowed_word s.word ≡ true → Says)
      → Turns Says n e (suc n) (resolved generation s e)
  unfolding resolved
  resolved-Turns n generation s e new said =
      let r = compare_exchange EntryState.pending s e in
      let won = compare_exchange-Turns Says n EntryState.pending s e new said in
      elim (Option-cases r.1) [
        | inl free ↦
            rw (free, resolved)
              (Turns-joins Says n (suc n) (suc n) e r.0 _ won (
                replace_pending-Turns Says (suc n) generation none r.0
                  (λ p h. absurd (ground arith))))
        | inr (state, lost) ↦ rw (lost, resolved) won
      ]

  pub refreshed-Turns :
      (n generation : ℕ) (config : Config) (at : Readings) (current : Snapshot P)
      (prepared : Result DecisionSourceError (Snapshot P)) (e : Entry P (Lookup T P))
      → is_some (pending_generation generation e) ≡ true
      → ((s : Snapshot P) → prepared ≡ ok s → (s.addr ≡ n) × (allowed_word s.word ≡ true → Says))
      → Turns Says n e
          (suc n)
          (replace_pending generation none (refreshed config at current prepared e)).0
  unfolding refreshed compare_and_swap replace_pending pending_generation Turns
  refreshed-Turns n generation config at current (ok s) e claimed given =
      let g = given s refl in
      (
        λ t. (ground (arith, t.0, g.0), λ p q h from. absurd (ground arith)),
        λ yes. ground (arith, g.1),
      )
  refreshed-Turns n generation config at current (err f) e claimed given =
      (λ t. (ground (arith, t.0), λ p q h from. absurd (ground arith)), λ yes. ground arith)

failed-denied : (P : Type 0) (fresh : ℕ) → allowed_word (failed_snapshot {P = P} fresh).word ≡ false
unfolding word decode_entry_state
failed-denied P fresh = refl

module _ {T P : Type 0} (Says : ℕ → Type 0) where
  pub cooled_down-Moves :
      (config : Config) (subject : T) (entry generation now : ℕ) (s : Store P (Lookup T P))
      → Moves Says s (cooled_down config subject entry generation now s)
  unfolding cooled_down new_fetch_after
  cooled_down-Moves config subject entry generation now s =
      let seen = run (λ fresh. state_at fresh now) entry s in
      let looked = state_at-Moves Says entry now s in
      let e = seen.0.entries entry in
      let made =
        new_fetch_after entry subject (some config.permanent_failure_cooldown) none seen.0 in
      if_branches (Moves Says s) (same_state seen.1 EntryState.pending)
        (λ waits. Moves-joins Says s seen.0 _ looked (
          write-Moves Says entry (replace_pending generation (some made.1) e).0 (suc seen.0.next)
            seen.0.aborted seen.0 (omega arith)
            (Turns-joins (Says entry) seen.0.next (suc seen.0.next) (suc seen.0.next) e e _
              (Turns-later (Says entry) seen.0.next (suc seen.0.next) e (omega arith))
              (replace_pending-Turns (Says entry) (suc seen.0.next) generation (some made.1) e
                (λ p h. ground arith)))))
        (λ done. looked)

  pub give_up-Moves :
      (entry generation current : ℕ) (s : Store P (Lookup T P))
      → Moves Says s (give_up entry generation current s).0
  unfolding give_up
  give_up-Moves entry generation current s =
      if_branches (λ (r : Store P (Lookup T P) × Bool). Moves Says s r.0)
        (not (current == entry)
          || not (is_some (pending_generation generation (s.entries current))))
        (λ other. Moves-rests Says s)
        (λ mine.
          run-Moves Says (λ fresh. compare_exchange EntryState.pending (failed_snapshot fresh))
            entry s
            (compare_exchange-Turns (Says entry) s.next EntryState.pending (failed_snapshot s.next)
              (s.entries entry) refl (λ h. absurd (ground (arith, failed-denied P s.next)))))

  pub decide-Moves :
      (config : Config) (decision : Decision) (now entry : ℕ) (s : Store P (Lookup T P))
      → (decision ≡ Decision.allowed → Says entry)
      → Moves Says s (decide config decision now entry s)
  unfolding decide decision_snapshot
  decide-Moves config decision now entry s said =
      let announced : DecisionResult P = record {
        decision = decision;
        payload = none;
        valid_until = none;
      } in
      let e = s.entries entry in
      let exchanged = (run (exchange config announced now) entry s).0 in
      Moves-joins Says s exchanged _
        (run-Moves Says (exchange config announced now) entry s (
          compare_exchange-Turns (Says entry) s.next (decode_entry_state e.current.word)
            (decision_snapshot config s.next now e announced) e refl
            (λ yes.
              said (ground (arith, (decision_snapshot_lem config s.next now e announced).0)))))
        (abort_at-Moves Says entry exchanged)
