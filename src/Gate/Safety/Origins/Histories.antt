-- ===== src/Gate/Safety/Origins/Histories.antt =====
-- Whole histories of a gate, src/gate.rs, and the origins of what its entries hold.
use policy_gate.Prelude.{ℕ, ◌≡◌, ◌⊎◌, inl, inr, refl, arith, true, some, List, [], ◌∷◌}
use policy_gate.Decision.{Decision}
use policy_gate.Config.{Config}
use policy_gate.Word.{word, decode_entry_state}
use policy_gate.Entry.{observed_at, current_at, current_at_loop}
use policy_gate.Store.{Store, no_memory}
use policy_gate.Lru.{Lru, find}
use policy_gate.Subjects.{Slot}
use policy_gate.Subjects.Journeys.{clear_all-Goes}
use policy_gate.Admission.{observe, state, reading, is_allowed}
use policy_gate.Admission.{check as check_handle}
use policy_gate.Gate.{Gate, Lookup, entry_at, new, publish_empty}
use policy_gate.Gate.Watch.{watch_connected, watch_stable, watch_disconnected, drop_watcher}
use policy_gate.Gate.Safety.Events.{
  Event, admits, settles, checks, checks_only, refreshes, claims, queued, cancels, fetched,
  connects, stabilises, disconnects, drops, changes, observes, reads, invalidates, react, react_all,
  IsKnown, AllKnown,
}
use policy_gate.Gate.Safety.Origins.{
  Traced, Turns, Moves, moves, Moves-rests, allowed_at, run-Moves, observed_at-Moves,
  current_at-Turns, invalidate_at-Moves,
}
use policy_gate.Gate.Safety.Origins.Reads.{release-Moves, claim-Moves, enqueued-Moves}
use policy_gate.Gate.Safety.Origins.Checks.{
  check-Moves, check_without_refresh-Moves, refresh_entry-Moves,
}
use policy_gate.Gate.Safety.Origins.Fetches.{Allows, run_fetch-Moves, apply_change-Moves}
use policy_gate.Gate.Safety.Origins.Admits.{connect-Moves, settle-Moves}

module _ {T : Type 0} {lru : Lru T Slot} {P : Type 0} where
  -- What a step says of an entry: a lookup's answer allows it, or a change allows the subject that
  -- the map has it for.
  abbrev pub Says : Event T P → Gate lru P → ℕ → Type 0
  Says (fetched fetch alive now at reply) g a = (fetch.future.entry ≡ a) × Allows reply
  Says (changes change now made_at later) g a =
      (slot : Slot) × (find lru.dec change.subject (lru.items g.cache) ≡ some slot)
      × (slot.entry ≡ a)
      × (change.decision ≡ some Decision.allowed)
  Says _ g a = ⊥

  pub react-Moves :
      (event : Event T P) (g : Gate lru P)
      → IsKnown event g
      → Moves (Says event g) g.store (react event g).store
  unfolding react watch_stable observe check_handle watch_connected watch_disconnected drop_watcher
      publish_empty
  react-Moves (admits call now checked later) g k = connect-Moves _ call now checked later g
  react-Moves (settles call entry wakeup now later) g k =
      settle-Moves _ call entry wakeup now later g
  react-Moves (checks subject now touched_at verdict access_time) g k =
      check-Moves _ subject now touched_at verdict access_time g
  react-Moves (checks_only subject now touched_at verdict) g k =
      check_without_refresh-Moves _ subject now touched_at verdict g
  react-Moves (refreshes subject entry touched_at verdict access_time) g k =
      refresh_entry-Moves _ subject entry touched_at verdict access_time g
  react-Moves (claims subject entry current deadline now last) g k =
      claim-Moves _ subject entry current deadline now last g k
  react-Moves (queued entry fetch taken now) g k = enqueued-Moves _ entry fetch taken now g
  react-Moves (cancels entry fetch) g k = release-Moves _ entry fetch.generation g
  react-Moves (fetched fetch alive now at reply) g k =
      run_fetch-Moves _ fetch alive now at reply g (λ said. (refl, said))
  react-Moves connects g k = clear_all-Goes (moves _) g.subjects
  react-Moves stabilises g k = Moves-rests _ g.store
  react-Moves (disconnects now) g k = clear_all-Goes (moves _) g.subjects
  react-Moves (drops now) g k = clear_all-Goes (moves _) g.subjects
  react-Moves (changes change now made_at later) g k =
      apply_change-Moves _ change now made_at later g (λ slot found said. (slot, found, refl, said))
  react-Moves (observes entry now) g k = observed_at-Moves _ entry now g.store
  react-Moves (reads entry now) g k =
      run-Moves _ (reading now) entry g.store
        (current_at-Turns _ g.store.next now (entry_at g entry))
  react-Moves (invalidates entry) g k = invalidate_at-Moves _ entry g.store

  abbrev pub AllTraced : Gate lru P → Type 0
  AllTraced g = (a : ℕ) → Traced g.store.next (entry_at g a)

  pub react-AllTraced :
      (event : Event T P) (g : Gate lru P)
      → IsKnown event g
      → AllTraced g
      → AllTraced (react event g)
  unfolding Moves Turns
  react-AllTraced event g k t a = ((react-Moves event g k).1 a).0 (t a)

pub new-AllTraced :
    {T : Type 0} (lru : Lru T Slot) (P : Type 0) (config : Config) (now : ℕ)
    → AllTraced (new {lru = lru} {P = P} config now no_memory)
unfolding new
new-AllTraced lru P config now a = (omega arith, λ p s at from. absurd (ground arith))

module _ {T : Type 0} {lru : Lru T Slot} {P : Type 0} where
  -- What some step of a history says of an entry.
  abbrev pub Said : List (Event T P) → Gate lru P → ℕ → Type 0
  Said [] g a = ⊥
  Said (event ∷ events) g a = Says event g a ⊎ Said events (react event g) a

  pub react_all-Said :
      (events : List (Event T P)) (g : Gate lru P) (a : ℕ)
      → AllKnown events g
      → allowed_at (react_all events g).store a ≡ true
      → (allowed_at g.store a ≡ true) ⊎ Said events g a
  unfolding react_all Moves Turns
  react_all-Said [] g a k now = inl now
  react_all-Said (event ∷ events) g a k now =
      elim (react_all-Said events (react event g) a k.1 now) [
        | inr said ↦ inr (inr said)
        | inl before ↦ elim (((react-Moves event g k.0).1 a).1 before) [
          | inl earlier ↦ inl earlier
          | inr said ↦ inr (inl said)
        ]
      ]

pub read_allowed :
    {T P : Type 0} (entry now : ℕ) (s : Store P (Lookup T P))
    → (is_allowed entry now s).1 ≡ some true
    → allowed_at s entry ≡ true
unfolding is_allowed state observe observed_at current_at current_at_loop
read_allowed entry now s h = ground arith

-- A handle of a gate reads as allowed only if something has said so of its entry since the gate
-- was made: a lookup of that entry was answered with an allowing decision, or a change with one
-- came for the subject that the map had the entry for at that moment. That holds however the
-- gate, the lookups, the watcher and the handles have run, as long as each address names one
-- snapshot and each generation one fetch.
pub is_allowed-Said :
    {T : Type 0} (lru : Lru T Slot) (P : Type 0) (events : List (Event T P)) (config : Config)
    (made_at entry now : ℕ)
    → let g : Gate lru P = new config made_at no_memory in
      AllKnown events g
      → (is_allowed entry now (react_all events g).store).1 ≡ some true
      → Said events g entry
unfolding new word decode_entry_state
is_allowed-Said lru P events config made_at entry now known allowed =
    let g : Gate lru P = new config made_at no_memory in
    elim (react_all-Said events g entry known
      (read_allowed entry now (react_all events g).store allowed)) [
        | inl at_first ↦ absurd (ground arith)
        | inr said ↦ said
      ]
