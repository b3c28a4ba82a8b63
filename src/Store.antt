-- ===== src/Store.antt =====
-- The entries that `Arc`s of src/gate.rs point to: memory, by address. Addresses are given out
-- once. A fetch that was told to abort is recorded by its generation.
pub mod Liveness
use policy_gate.Prelude.{ℕ, suc, Option, none, some, List, [], ◌∷◌, ◌==◌, if◌then◌else◌}
use policy_gate.Word.{EntryState, word, no_expiry}
use policy_gate.Entry.{Entry, PendingFetch, invalidate, abort_pending}

pub record Store {ℓ} (P F : Type ℓ) : Type ℓ where
  pub entries : ℕ → Entry P F
  pub next : ℕ
  pub aborted : List ℕ

abbrev pub note_abort {ℓ} : {F : Type ℓ} → Option (PendingFetch F) → List ℕ → List ℕ
note_abort none aborted = aborted
note_abort (some p) aborted = p.generation ∷ aborted

module _ {ℓ} {P F : Type ℓ} where
  -- An address that nothing was allocated at, and the memory before anything is.
  abbrev pub unused : Entry P F
  unused = record {
    current = record {
      addr = 0;
      word = word EntryState.stale no_expiry;
      payload = none;
      refresh_after = 0;
    };
    epoch = 0;
    pending = none;
    refresh_before = 0;
    refresh_not_before = 0;
  }

  abbrev pub no_memory : Store P F
  no_memory = record { entries = λ _. unused; next = 1; aborted = [] }

  abbrev pub write : ℕ → Entry P F → (ℕ → Entry P F) → ℕ → Entry P F
  write at e entries addr = if at == addr then e else entries addr

  -- Runs a method on the entry at an address, with a fresh address for the snapshot it may make.
  abbrev pub run {κ} :
      {R : Type κ} → (ℕ → Entry P F → Entry P F × R) → ℕ → Store P F → Store P F × R
  run method addr s =
      let r = method s.next (s.entries addr) in
      (record s { entries = write addr r.0 s.entries; next = suc s.next }, r.1)

  -- `entry.invalidate()`
  unfoldable pub invalidate_at : ℕ → Store P F → Store P F
  unfolding invalidate
  invalidate_at addr s =
      let r = invalidate s.next (s.entries addr) in
      record s {
        entries = write addr r.0 s.entries;
        next = suc s.next;
        aborted = note_abort r.1 s.aborted;
      }

  -- `entry.abort_pending()`
  unfoldable pub abort_at : ℕ → Store P F → Store P F
  unfolding abort_pending
  abort_at addr s =
      let r = abort_pending (s.entries addr) in
      record s { entries = write addr r.0 s.entries; aborted = note_abort r.1 s.aborted }

  -- `Arc::new`: the entry is made at a fresh address.
  unfoldable pub allocate : (ℕ → Entry P F) → Store P F → Store P F × ℕ
  allocate make s =
      (record s { entries = write s.next (make s.next) s.entries; next = suc s.next }, s.next)
