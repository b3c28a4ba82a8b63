-- ===== src/Gate/Safety/Origins/Admits.antt =====
-- The admission loop of src/gate.rs, and the origins of what the entries hold: it makes none
-- allowed.
use policy_gate.Prelude.{
  ℕ, ◌≡◌, ◌⊎◌, inl, inr, Bool-cases, arith, true, some, ◌==◌, not, leb, if_branches,
}
use policy_gate.Decision.{Result}
use policy_gate.Metrics.{map_hit}
use policy_gate.Word.{EntryState, word, decode_entry_state}
use policy_gate.Entry.{state_at, new_pending}
use policy_gate.Store.{Store, run}
use policy_gate.Lru.{Lru}
use policy_gate.Subjects.{Slot, remove_if}
use policy_gate.Subjects.Journeys.{remove_if-Goes, get_or_insert_with-Goes}
use policy_gate.Gate.{Gate, Lookup, with_subjects, emit, dirty_if, republish_if_due}
use policy_gate.Gate.Fetch.{FetchResult, new_fetch_after}
use policy_gate.Gate.Access.{in_store, access}
use policy_gate.Gate.Admit.{
  Call, Wakeup, Phase, resolve, join, branch, turn, connect, settle, is_same, is_same_stale, create,
  result, aborted, changed, elapsed,
}
use policy_gate.Gate.Safety.Origins.{Moves, Turns, moves, Moves-rests, Moves-joins, state_at-Moves}
use policy_gate.Gate.Safety.Origins.Reads.{republish-Moves, dirty_if-Moves, access-Moves}

module _ {T P : Type 0} (Says : ℕ → Type 0) where
  pub create-Moves :
      (subject : T) (now refresh_before : ℕ) (s : Store P (Lookup T P))
      → Moves Says s (create subject now refresh_before s).0
  unfolding create new_fetch_after new_pending Moves Turns word decode_entry_state
  create-Moves subject now refresh_before s = (
    omega arith,
    λ a. (
      λ t. (ground (arith, t.0), λ p q at from. let r = t.1 p q in ground (arith, r)),
      λ yes. ground arith,
    ),
  )

  is_same_stale-store :
      (entry now current : ℕ) (s : Store P (Lookup T P))
      → (current == entry) ≡ true
      → (is_same_stale entry now current s).0 ≡ (run (λ fresh. state_at fresh now) current s).0
  unfolding is_same_stale
  is_same_stale-store entry now current s same = ground arith

  pub is_same_stale-Moves :
      (entry now current : ℕ) (s : Store P (Lookup T P))
      → Moves Says s (is_same_stale entry now current s).0
  unfolding is_same_stale
  is_same_stale-Moves entry now current s = elim (Bool-cases (current == entry)) [
    | inl same ↦
        rw (is_same_stale-store entry now current s same) (state_at-Moves Says current now s)
    | inr other ↦ rw (other, is_same_stale) (Moves-rests Says s)
  ]

module _ {T : Type 0} {lru : Lru T Slot} {P : Type 0} (Says : ℕ → Type 0) where
  looked : ℕ → ℕ → Gate lru P → Gate lru P × EntryState
  looked entry now g = in_store g (run (λ fresh. state_at fresh now) entry g.store)

  join-store :
      (entry now : ℕ) (g : Gate lru P)
      → ((join entry now g).0.store ≡ g.store)
        ⊎ ((join entry now g).0.store ≡ (looked entry now g).0.store)
  unfolding join looked
  join-store entry now g = ground arith

  join-Moves : (entry now : ℕ) (g : Gate lru P) → Moves Says g.store (join entry now g).0.store
  unfolding looked
  join-Moves entry now g = elim (join-store entry now g) [
    | inl e ↦ rw e (Moves-rests Says g.store)
    | inr e ↦ rw e (state_at-Moves Says entry now g.store)
  ]

  resolve-Moves :
      (subject : T) (now later : ℕ) (g : Gate lru P)
      → Moves Says g.store (resolve subject now later g).0.store
  unfolding resolve
  resolve-Moves subject now later g = republish-Moves Says g.store later _ (
      dirty_if-Moves Says g.store _ _ (
        get_or_insert_with-Goes (moves Says) subject now
          (create subject now g.config.refresh_before_expiry) g.subjects
          (create-Moves Says subject now g.config.refresh_before_expiry)))

  -- What the branch on a stale entry leaves.
  dropped : Call T → ℕ → ℕ → Gate lru P → Gate lru P
  dropped call entry later g =
      let removal = remove_if call.subject later (is_same_stale entry later) g.subjects in
      republish_if_due later (dirty_if removal.1 (with_subjects g removal.0))

  dropped-Moves :
      (call : Call T) (entry later : ℕ) (g : Gate lru P)
      → Moves Says g.store (dropped call entry later g).store
  unfolding dropped
  dropped-Moves call entry later g =
      let removal = remove_if call.subject later (is_same_stale entry later) g.subjects in
      republish-Moves Says g.store later _ (
        dirty_if-Moves Says g.store removal.1 (with_subjects g removal.0) (
          remove_if-Goes (moves Says) call.subject later (is_same_stale entry later) g.subjects
            (is_same_stale-Moves Says entry later)))

  branch-store :
      (call : Call T) (entry now later : ℕ) (g : Gate lru P)
      → let seen = (looked entry now g).0 in
        let after = (branch call entry now later g).0.store in
        (after ≡ (access entry (some call.deadline) later later (emit map_hit seen)).0.store)
        ⊎ (after ≡ (join entry later seen).0.store)
        ⊎ (after ≡ (dropped call entry later seen).store)
  unfolding branch looked dropped
  branch-store call entry now later g = ground arith

  pub branch-Moves :
      (call : Call T) (entry now later : ℕ) (g : Gate lru P)
      → Moves Says g.store (branch call entry now later g).0.store
  unfolding looked
  branch-Moves call entry now later g =
      let seen = (looked entry now g).0 in
      let saw = state_at-Moves Says entry now g.store in
      elim (branch-store call entry now later g) [
        | inl e ↦ rw e (
            Moves-joins Says g.store seen.store _ saw
              (access-Moves Says entry (some call.deadline) later later (emit map_hit seen)))
        | inr (inl e) ↦
            rw e (Moves-joins Says g.store seen.store _ saw (join-Moves entry later seen))
        | inr (inr e) ↦
            rw e (Moves-joins Says g.store seen.store _ saw (dropped-Moves call entry later seen))
      ]

  turn-Moves :
      (call : Call T) (now checked later : ℕ) (g : Gate lru P)
      → Moves Says g.store (turn call now checked later g).0.store
  unfolding turn
  turn-Moves call now checked later g =
      let Q = λ (r : Gate lru P × Phase T P). Moves Says g.store r.0.store in
      let r = resolve call.subject now checked g in
      let resolved = resolve-Moves call.subject now checked g in
      let removal = remove_if call.subject checked (is_same r.1) r.0.subjects in
      let removed = Moves-joins Says g.store r.0.store _ resolved (
        remove_if-Goes (moves Says) call.subject checked (is_same r.1) r.0.subjects
          (λ current s. Moves-rests Says s)) in
      if_branches Q (leb call.deadline checked) (λ late. resolved)
        (λ early.
          if_branches Q (not r.0.connected)
            (λ down. dirty_if-Moves Says g.store removal.1 (with_subjects r.0 removal.0) removed)
            (λ up.
              Moves-joins Says g.store r.0.store _ resolved
                (branch-Moves call r.1 checked later r.0)))

  pub connect-Moves :
      (call : Call T) (now checked later : ℕ) (g : Gate lru P)
      → Moves Says g.store (connect call now checked later g).0.store
  unfolding connect
  connect-Moves call now checked later g =
      let Q = λ (r : Gate lru P × Phase T P). Moves Says g.store r.0.store in
      let rests = Moves-rests Says g.store in
      if_branches Q (leb call.deadline now) (λ late. rests)
        (λ early.
          if_branches Q g.connected (λ up. turn-Moves call now checked later g)
            (λ down. if_branches Q g.closed (λ gone. rests) (λ waits. rests)))

  settle-store :
      (call : Call T) (entry : ℕ) (outcome : FetchResult) (now later : ℕ) (g : Gate lru P)
      → let seen = (looked entry now g).0 in
        let after = (settle call entry (result outcome) now later g).0.store in
        (after ≡ g.store)
        ⊎ (after ≡ seen.store)
        ⊎ (after ≡ (access entry (some call.deadline) later later seen).0.store)
  unfolding settle looked
  settle-store call entry (Result.ok _) now later g = ground arith
  settle-store call entry (Result.err e) now later g = ground arith

  pub settle-Moves :
      (call : Call T) (entry : ℕ) (wakeup : Wakeup) (now later : ℕ) (g : Gate lru P)
      → Moves Says g.store (settle call entry wakeup now later g).0.store
  unfolding settle looked
  settle-Moves call entry aborted now later g = Moves-rests Says g.store
  settle-Moves call entry changed now later g = Moves-rests Says g.store
  settle-Moves call entry elapsed now later g =
      access-Moves Says entry (some call.deadline) now later g
  settle-Moves call entry (result outcome) now later g =
      let seen = (looked entry now g).0 in
      let saw = state_at-Moves Says entry now g.store in
      elim (settle-store call entry outcome now later g) [
        | inl e ↦ rw e (Moves-rests Says g.store)
        | inr (inl e) ↦ rw e saw
        | inr (inr e) ↦ rw e (
            Moves-joins Says g.store seen.store _ saw
              (access-Moves Says entry (some call.deadline) later later seen))
      ]
