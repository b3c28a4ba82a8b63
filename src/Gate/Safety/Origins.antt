-- ===== src/Gate/Safety/Origins.antt =====
-- Where what an entry of src/gate.rs holds comes from: what says that it is allowed, and the snapshot
-- that a refresh in flight started from.
pub mod Checks
pub mod Reads
pub mod Fetches
pub mod Lookups
pub mod Admits
pub mod Histories
use policy_gate.Prelude.{
  ℕ, suc, ◌≤◌, ◌<◌, ◌≡◌, ◌⊎◌, inl, inr, refl, arith, Bool, true, false, Option, none, some, List,
  subst, ◌==◌, Bool-cases,
}
use policy_gate.Word.{EntryState, decode_entry_state, same_state, stale_word}
use policy_gate.Word.Encoding.{decode-stale_word}
use policy_gate.Entry.{
  Entry, Snapshot, PendingFetch, current_at, current_at_loop, state_at, observed_at, verdict_at,
  invalidate, invalidate_loop, abort_pending, compare_exchange, compare_exchange_loop,
  replace_pending,
}
use policy_gate.Entry.Liveness.{is_live}
use policy_gate.Store.{Store, write, run, invalidate_at, abort_at, note_abort}
use policy_gate.Subjects.Journeys.{Journey}
use policy_gate.Gate.{Lookup}

abbrev pub allowed_word : ℕ → Bool
allowed_word w = same_state (decode_entry_state w) EntryState.allowed

stale_word-allowed : (w : ℕ) → allowed_word (stale_word w) ≡ false
stale_word-allowed w = rw (decode-stale_word w) refl

module _ {T P : Type 0} where
  abbrev pub allowed_at : Store P (Lookup T P) → ℕ → Bool
  allowed_at s a = allowed_word (s.entries a).current.word

  -- Addresses below `n` are given out. The snapshot is at one of them; so is the one that a refresh
  -- in flight started from, and where it is still in place, the entry is not stale.
  abbrev pub Traced : ℕ → Entry P (Lookup T P) → Type 0
  Traced n e =
      (e.current.addr < n)
      × ((p : PendingFetch (Lookup T P)) (s : Snapshot P)
          → e.pending ≡ some p
          → p.future.refresh_from ≡ some s
          → (s.addr < n) × (e.current.addr ≡ s.addr → is_live e ≡ true))

  -- From `e` to `f`, while the next address goes from `n` to `m`; `Says` is what may make it
  -- allowed.
  unfoldable pub Turns : Type 0 → ℕ → Entry P (Lookup T P) → ℕ → Entry P (Lookup T P) → Type 0
  Turns Says n e m f =
      (Traced n e → Traced m f)
      × (allowed_word f.current.word ≡ true → (allowed_word e.current.word ≡ true) ⊎ Says)

  unfoldable pub Moves : (ℕ → Type 0) → Store P (Lookup T P) → Store P (Lookup T P) → Type 0
  unfolding Turns
  Moves Says s t =
      (s.next ≤ t.next) × ((a : ℕ) → Turns (Says a) s.next (s.entries a) t.next (t.entries a))

  pub Turns-later :
      (Says : Type 0) (n m : ℕ) (e : Entry P (Lookup T P)) → n ≤ m → Turns Says n e m e
  unfolding Turns
  Turns-later Says n m e h = (
    λ t. (omega (arith, t.0), λ p s at from. let r = t.1 p s at from in (omega (arith, r.0), r.1)),
    λ yes. inl yes,
  )

  pub Turns-joins :
      (Says : Type 0) (n m k : ℕ) (e f g : Entry P (Lookup T P))
      → Turns Says n e m f
      → Turns Says m f k g
      → Turns Says n e k g
  unfolding Turns
  Turns-joins Says n m k e f g x y =
      (λ t. y.0 (x.0 t), λ yes. elim (y.1 yes) [ inl before ↦ x.1 before | inr said ↦ inr said ])

  -- Writing one entry.
  pub write-Moves :
      (Says : ℕ → Type 0) (at : ℕ) (f : Entry P (Lookup T P)) (m : ℕ) (aborted : List ℕ)
      (s : Store P (Lookup T P))
      → s.next ≤ m
      → Turns (Says at) s.next (s.entries at) m f
      → Moves Says s (record { entries = write at f s.entries; next = m; aborted = aborted })
  unfolding Moves
  write-Moves Says at f m aborted s h turns = (
    h,
    λ a. elim (Bool-cases (at == a)) [
      | inl same ↦
          let here : at ≡ a = ground arith in
          rw (same, write) (subst (λ b. Turns (Says b) s.next (s.entries b) m f) here turns)
      | inr other ↦ rw (other, write) (Turns-later (Says a) s.next m (s.entries a) h)
    ],
  )

  -- What a handle reads leaves every origin as it is.
  pub current_at-Turns :
      (Says : Type 0) (n now : ℕ) (e : Entry P (Lookup T P))
      → Turns Says n e (suc n) (current_at n now e).0
  unfolding current_at current_at_loop Turns
  current_at-Turns Says n now e = (
    λ t. (ground (arith, t.0), λ p s at from. let r = t.1 p s at from in ground (arith, r.0, r.1)),
    λ yes. ground (arith, stale_word-allowed e.current.word),
  )

  pub compare_exchange-Turns :
      (Says : Type 0) (n : ℕ) (expected : EntryState) (next : Snapshot P) (e : Entry P (Lookup T P))
      → next.addr ≡ n
      → (allowed_word next.word ≡ true → Says)
      → Turns Says n e (suc n) (compare_exchange expected next e).0
  unfolding compare_exchange compare_exchange_loop Turns
  compare_exchange-Turns Says n expected next e new said = (
    λ t. (ground (arith, t.0), λ p s at from. let r = t.1 p s at from in ground (arith, r.0, r.1)),
    λ yes. ground (arith, said),
  )

  pub invalidate-Turns :
      (Says : Type 0) (n : ℕ) (e : Entry P (Lookup T P)) → Turns Says n e (suc n) (invalidate n e).0
  unfolding invalidate invalidate_loop abort_pending Turns
  invalidate-Turns Says n e = (
    λ t. (omega arith, λ p s at from. absurd (ground arith)),
    λ yes. absurd (ground (arith, stale_word-allowed e.current.word)),
  )

  pub abort_pending-Turns :
      (Says : Type 0) (n : ℕ) (e : Entry P (Lookup T P)) → Turns Says n e n (abort_pending e).0
  unfolding abort_pending Turns
  abort_pending-Turns Says n e = (λ t. (t.0, λ p s at from. absurd (ground arith)), λ yes. inl yes)

  -- A pending fetch that is replaced by nothing, or by a first lookup.
  pub replace_pending-Turns :
      (Says : Type 0) (n generation : ℕ) (replacement : Option (PendingFetch (Lookup T P)))
      (e : Entry P (Lookup T P))
      → ((p : PendingFetch (Lookup T P)) → replacement ≡ some p → p.future.refresh_from ≡ none)
      → Turns Says n e n (replace_pending generation replacement e).0
  unfolding replace_pending Turns
  replace_pending-Turns Says n generation replacement e first = (
    λ t. (
      ground (arith, t.0),
      λ p s at from. let r = t.1 p s in let no = first p in ground (arith, r, no),
    ),
    λ yes. ground arith,
  )

  pub run-Moves {κ} :
      {R : Type κ} (Says : ℕ → Type 0)
      (method : ℕ → Entry P (Lookup T P) → Entry P (Lookup T P) × R) (at : ℕ)
      (s : Store P (Lookup T P))
      → Turns (Says at) s.next (s.entries at) (suc s.next) (method s.next (s.entries at)).0
      → Moves Says s (run method at s).0
  run-Moves Says method at s turns =
      write-Moves Says at (method s.next (s.entries at)).0 (suc s.next) s.aborted s (omega arith)
        turns

  pub abort_at-Moves :
      (Says : ℕ → Type 0) (at : ℕ) (s : Store P (Lookup T P)) → Moves Says s (abort_at at s)
  unfolding abort_at
  abort_at-Moves Says at s =
      write-Moves Says at (abort_pending (s.entries at)).0 s.next
        (note_abort (abort_pending (s.entries at)).1 s.aborted) s (omega arith)
        (abort_pending-Turns (Says at) s.next (s.entries at))

  pub state_at-Moves :
      (Says : ℕ → Type 0) (entry now : ℕ) (s : Store P (Lookup T P))
      → Moves Says s (run (λ fresh. state_at fresh now) entry s).0
  unfolding state_at
  state_at-Moves Says entry now s =
      run-Moves Says (λ fresh. state_at fresh now) entry s
        (current_at-Turns (Says entry) s.next now (s.entries entry))

  pub verdict_at-Moves :
      (Says : ℕ → Type 0) (entry now : ℕ) (s : Store P (Lookup T P))
      → Moves Says s (run (λ fresh. verdict_at fresh now) entry s).0
  unfolding verdict_at
  verdict_at-Moves Says entry now s =
      run-Moves Says (λ fresh. verdict_at fresh now) entry s
        (current_at-Turns (Says entry) s.next now (s.entries entry))

  pub observed_at-Moves :
      (Says : ℕ → Type 0) (entry now : ℕ) (s : Store P (Lookup T P))
      → Moves Says s (run (λ fresh. observed_at fresh now) entry s).0
  unfolding observed_at
  observed_at-Moves Says entry now s =
      run-Moves Says (λ fresh. observed_at fresh now) entry s
        (current_at-Turns (Says entry) s.next now (s.entries entry))

  pub invalidate_at-Moves :
      (Says : ℕ → Type 0) (at : ℕ) (s : Store P (Lookup T P)) → Moves Says s (invalidate_at at s)
  unfolding invalidate_at
  invalidate_at-Moves Says at s =
      write-Moves Says at (invalidate s.next (s.entries at)).0 (suc s.next)
        (note_abort (invalidate s.next (s.entries at)).1 s.aborted) s (omega arith)
        (invalidate-Turns (Says at) s.next (s.entries at))

  pub Moves-rests : (Says : ℕ → Type 0) (s : Store P (Lookup T P)) → Moves Says s s
  unfolding Moves
  Moves-rests Says s =
      (omega arith, λ a. Turns-later (Says a) s.next s.next (s.entries a) (omega arith))

  pub Moves-joins :
      (Says : ℕ → Type 0) (s t u : Store P (Lookup T P))
      → Moves Says s t
      → Moves Says t u
      → Moves Says s u
  unfolding Moves Turns
  Moves-joins Says s t u x y = (
    omega (arith, x.0, y.0),
    λ a.
        Turns-joins (Says a) s.next t.next u.next (s.entries a) (t.entries a) (u.entries a) (x.1 a)
          (y.1 a),
  )

  abbrev pub moves : (ℕ → Type 0) → Journey P (Lookup T P)
  moves Says = record {
    Goes = Moves Says;
    rests = Moves-rests Says;
    joins = Moves-joins Says;
    invalidates = invalidate_at-Moves Says;
  }
