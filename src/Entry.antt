-- ===== src/Entry.antt =====
-- The shared state of one subject: `Entry`, `EntrySnapshot` and `PendingFetch` of src/gate.rs.
-- An `Arc` is known by its address, so pointer equality is equality of addresses. `F` is the
-- future that a pending fetch runs. A method returns the new entry beside its result.
-- A compare-and-swap loop takes the list of what it finds in the cell at its attempts, one
-- entry for each attempt that another thread interferes with; past the end of the list nobody
-- interferes.
pub mod Expiry
pub mod Refresh
pub mod Liveness
use policy_gate.Prelude.{
  ℕ, ◌+◌, ◌-◌, ◌^◌, min, Bool, true, false, not, ◌&&◌, ◌||◌, Option, none, some, List, [], ◌∷◌, ltb,
  leb, ◌==◌, if◌then◌else◌, is_some,
}
use policy_gate.Decision.{Decision}
use policy_gate.Time.{u64_or, duration_max}
use policy_gate.Word.{
  EntryState, Observed, is_authoritative, same_state, observed_state, decided, word,
  decode_entry_state, deadline_of, stale_word, no_expiry, max_finite_deadline,
}

pub record Snapshot {ℓ} (P : Type ℓ) : Type ℓ where
  pub addr : ℕ
  pub word : ℕ
  pub payload : Option P
  pub refresh_after : ℕ

-- The `Arc` of a fetch is made together with its generation, so the generation stands for both.
pub record PendingFetch {ℓ} (F : Type ℓ) : Type ℓ where
  pub generation : ℕ
  pub future : F

pub record Entry {ℓ} (P F : Type ℓ) : Type ℓ where
  pub current : Snapshot P
  pub epoch : ℕ
  pub pending : Option (PendingFetch F)
  pub refresh_before : ℕ
  pub refresh_not_before : ℕ

-- `Entry::tick`: nanoseconds since the epoch, held below the never-expires mark.
unfoldable pub tick : ℕ → ℕ → ℕ
tick epoch now = min (u64_or max_finite_deadline (now - epoch)) max_finite_deadline

unfoldable pub deadline_after : ℕ → ℕ → ℕ → ℕ
deadline_after epoch now ttl =
    if ttl == duration_max
    then no_expiry
    else let at = tick epoch now in
      if ltb ttl (2 ^ 64) && ltb (at + ttl) (2 ^ 64) && ltb (at + ttl) no_expiry
      then at + ttl
      else at

unfoldable pub is_expired_at : ℕ → ℕ → ℕ → Bool
is_expired_at epoch decision now =
    not (deadline_of decision == no_expiry) && leb (deadline_of decision) (tick epoch now)

module _ {ℓ} {P : Type ℓ} where
  -- A snapshot that marks `s` stale.
  abbrev pub staled : ℕ → Snapshot P → Snapshot P
  staled fresh s = record {
    addr = fresh;
    word = stale_word s.word;
    payload = none;
    refresh_after = 0;
  }

  -- `current_at`: the cell afterwards, the snapshot that was read, and whether it had expired.
  -- `epoch` is the entry's, and `previous` the snapshot that was loaded.
  unfoldable pub current_at_loop :
      ℕ → ℕ → ℕ → Snapshot P → List (Snapshot P) → Snapshot P × Snapshot P × Bool
  current_at_loop epoch fresh now previous [] =
      if not (is_expired_at epoch previous.word now)
      then (previous, previous, false)
      else if previous.word == stale_word previous.word
      then (previous, previous, true)
      else (staled fresh previous, staled fresh previous, true)
  current_at_loop epoch fresh now previous (seen ∷ attempts) =
      let again = current_at_loop epoch fresh now seen attempts in
      if not (is_expired_at epoch previous.word now)
      then (seen, previous, false)
      else if previous.word == stale_word previous.word
      then (seen, previous, true)
      else if seen.addr == previous.addr
      then (staled fresh previous, staled fresh previous, true)
      else again

  -- `compare_exchange` by state: the cell afterwards, and the state that refused the exchange.
  unfoldable pub compare_exchange_loop :
      EntryState → Snapshot P → Snapshot P → List (Snapshot P) → Snapshot P × Option EntryState
  compare_exchange_loop expected next previous [] =
      let state = decode_entry_state previous.word in
      if same_state state expected then (next, none) else (previous, some state)
  compare_exchange_loop expected next previous (seen ∷ attempts) =
      let again = compare_exchange_loop expected next seen attempts in
      let state = decode_entry_state previous.word in
      if same_state state expected
      then if seen.addr == previous.addr then (next, none) else again
      else (seen, some state)

  -- The loop of `invalidate`.
  unfoldable pub invalidate_loop : ℕ → Snapshot P → List (Snapshot P) → Snapshot P
  invalidate_loop fresh previous [] = staled fresh previous
  invalidate_loop fresh previous (seen ∷ attempts) =
      let again = invalidate_loop fresh seen attempts in
      if seen.addr == previous.addr then staled fresh previous else again

  -- One compare-and-swap by pointer.
  unfoldable pub compare_and_swap : Snapshot P → Snapshot P → Snapshot P → Snapshot P
  compare_and_swap cell expected next = if cell.addr == expected.addr then next else cell

module _ {ℓ} {P F : Type ℓ} where
  -- `Entry::pending`
  unfoldable pub new_pending : ℕ → ℕ → PendingFetch F → ℕ → Entry P F
  new_pending fresh epoch fetch refresh_before = record {
    current = record {
      addr = fresh;
      word = word EntryState.pending no_expiry;
      payload = none;
      refresh_after = 0;
    };
    epoch = epoch;
    pending = some fetch;
    refresh_before = u64_or (2 ^ 64 - 1) refresh_before;
    refresh_not_before = 0;
  }

  -- `current_at` with nobody interfering: what is read, and whether it had expired.
  unfoldable pub current_at : ℕ → ℕ → Entry P F → Entry P F × Snapshot P × Bool
  unfolding current_at_loop
  current_at fresh now e =
      let r = current_at_loop e.epoch fresh now e.current [] in
      (record e { current = r.0 }, r.1, r.2)

  unfoldable pub state_at : ℕ → ℕ → Entry P F → Entry P F × EntryState
  unfolding current_at
  state_at fresh now e =
      let r = current_at fresh now e in
      (r.0, if r.2 then EntryState.stale else decode_entry_state r.1.word)

  unfoldable pub observed_at : ℕ → ℕ → Entry P F → Entry P F × Option Observed
  unfolding current_at
  observed_at fresh now e =
      let r = current_at fresh now e in
      (r.0, if r.2 then some Observed.expired else observed_state (decode_entry_state r.1.word))

  unfoldable pub verdict_at : ℕ → ℕ → Entry P F → Entry P F × Option Decision
  unfolding current_at
  verdict_at fresh now e =
      let r = current_at fresh now e in
      (r.0, if r.2 then none else decided (decode_entry_state r.1.word))

  unfoldable pub compare_exchange :
      EntryState → Snapshot P → Entry P F → Entry P F × Option EntryState
  unfolding compare_exchange_loop
  compare_exchange expected next e =
      let r = compare_exchange_loop expected next e.current [] in (record e { current = r.0 }, r.1)

  unfoldable pub refresh_eligible_at : Entry P F → Snapshot P → ℕ → Bool
  refresh_eligible_at e current now =
      let deadline = deadline_of current.word in
      let at = tick e.epoch now in
      not (deadline == no_expiry)
      && is_authoritative (decode_entry_state current.word)
      && ltb at deadline
      && leb current.refresh_after at
      && leb (deadline - at) e.refresh_before
      && leb e.refresh_not_before at

  unfoldable pub refresh_due_at : Entry P F → Snapshot P → ℕ → Bool
  unfolding refresh_eligible_at
  refresh_due_at e current now = refresh_eligible_at e current now && not (is_some e.pending)

  -- `pending_generation`: the pending fetch, if it is of this generation.
  unfoldable pub pending_generation : ℕ → Entry P F → Option (PendingFetch F)
  pending_generation generation e = elim e.pending [
    | none ↦ none
    | some p ↦ if p.generation == generation then some p else none
  ]

  unfoldable pub pending_is : PendingFetch F → Entry P F → Bool
  pending_is fetch e = elim e.pending [ none ↦ false | some p ↦ p.generation == fetch.generation ]

  unfoldable pub replace_pending : ℕ → Option (PendingFetch F) → Entry P F → Entry P F × Bool
  unfolding pending_generation
  replace_pending generation replacement e = elim (pending_generation generation e) [
    | none ↦ (e, false)
    | some _ ↦ (record e { pending = replacement }, true)
  ]

  -- The fetch that is told to abort, if there was one.
  unfoldable pub abort_pending : Entry P F → Entry P F × Option (PendingFetch F)
  abort_pending e = (record e { pending = none }, e.pending)

  unfoldable pub invalidate : ℕ → Entry P F → Entry P F × Option (PendingFetch F)
  unfolding invalidate_loop abort_pending
  invalidate fresh e = abort_pending (record e { current = invalidate_loop fresh e.current [] })
