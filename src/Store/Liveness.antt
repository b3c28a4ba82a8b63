-- ===== src/Store/Liveness.antt =====
-- Changes of the memory of src/gate.rs that bring no stale entry back.
use policy_gate.Prelude.{ℕ, ◌≡◌, ◌≢◌, ◌⊎◌, arith, Bool, true}
use policy_gate.Entry.{Entry}
use policy_gate.Entry.Liveness.{is_live, invalidate-dead, abort_pending-tame}
use policy_gate.Store.{Store, write, run, invalidate_at, abort_at}

module _ {P F : Type 0} where
  abbrev pub live_at : Store P F → ℕ → Bool
  live_at s a = is_live (s.entries a)

  -- A change that brings no stale entry back.
  abbrev pub Tame : Store P F → Store P F → Type 0
  Tame s t = (a : ℕ) → live_at t a ≡ true → live_at s a ≡ true

  -- A change that does so to the entry at `at` alone, if at all.
  abbrev pub TameBut : ℕ → Store P F → Store P F → Type 0
  TameBut at s t = (a : ℕ) → live_at t a ≡ true → (at ≡ a) ⊎ (live_at s a ≡ true)

  pub invalidate_at-tame :
      (at : ℕ) (s : Store P F) (a : ℕ)
      → live_at (invalidate_at at s) a ≡ true
      → (live_at s a ≡ true) × (at ≢ a)
  unfolding invalidate_at
  invalidate_at-tame at s a live = ground (arith, invalidate-dead s.next (s.entries at))

  pub run-Tame {κ} :
      {R : Type κ} (method : ℕ → Entry P F → Entry P F × R) (at : ℕ) (s : Store P F)
      → (is_live (method s.next (s.entries at)).0 ≡ true → live_at s at ≡ true)
      → Tame s (run method at s).0
  run-Tame method at s tame a live = ground arith

  pub run-but {κ} :
      {R : Type κ} (method : ℕ → Entry P F → Entry P F × R) (at : ℕ) (s : Store P F)
      → TameBut at s (run method at s).0
  run-but method at s a live = ground arith

  pub abort_at-Tame : (at : ℕ) (s : Store P F) → Tame s (abort_at at s)
  unfolding abort_at
  abort_at-Tame at s a live = ground (arith, abort_pending-tame (s.entries at))

  -- Whatever is written to an entry, the others stay as they are.
  pub write-tame :
      (at : ℕ) (e : Entry P F) (entries : ℕ → Entry P F) (a : ℕ)
      → is_live (write at e entries a) ≡ true
      → (at ≡ a) ⊎ (is_live (entries a) ≡ true)
  write-tame at e entries a live = ground arith

  -- What the caller of a lookup makes: at most the entry that it returns is not stale.
  abbrev pub CreatesOne : (Store P F → Store P F × ℕ) → Type 0
  CreatesOne create = (s : Store P F) → TameBut (create s).1 s (create s).0

  -- What a watch decision does: at most the entry that it is given stops being stale.
  abbrev pub ChangesOne : (ℕ → Store P F → Store P F) → Type 0
  ChangesOne change = (entry : ℕ) (s : Store P F) → TameBut entry s (change entry s)

  -- What the predicate of a conditional removal does: it brings no stale entry back.
  abbrev pub Judges : (ℕ → Store P F → Store P F × Bool) → Type 0
  Judges predicate = (entry : ℕ) (s : Store P F) → Tame s (predicate entry s).0
