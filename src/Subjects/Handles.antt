-- ===== src/Subjects/Handles.antt =====
-- Whole histories of `SubjectMap` (src/gate.rs) and the handles of its entries: an entry that can
-- still answer is always in the map.
use policy_gate.Prelude.{◌≡◌, arith, List, [], ◌∷◌, ℕ, false}
use policy_gate.Store.{Store}
use policy_gate.Store.Liveness.{live_at, Tame, CreatesOne, ChangesOne, Judges}
use policy_gate.Lru.{Lru}
use policy_gate.Subjects.{Slot, Subjects, clear_all}
use policy_gate.Subjects.History.{
  Op, lookup, renewal, decision, removal, judgement, clearing, outside, perform, perform_all,
}
use policy_gate.Subjects.Coverage.{Covered}
use policy_gate.Subjects.Coverage.Operations.{
  get_or_insert_with-Covered, touch-Covered, update-Covered, remove-Covered, remove_if-Covered,
  clear_all-silences,
}

module _ {T P F : Type 0} where
  -- What the callers pass: a lookup creates one entry, a decision changes one, and nothing else
  -- brings a stale entry back.
  abbrev pub IsTame : Op T P F → Type 0
  IsTame (lookup now subject create) = CreatesOne create
  IsTame (renewal now subject entry) = Unit {0}
  IsTame (decision now subject change) = ChangesOne change
  IsTame (removal now subject) = Unit {0}
  IsTame (judgement now subject predicate) = Judges predicate
  IsTame (clearing now) = Unit {0}
  IsTame (outside now method) = (s : Store P F) → Tame s (method s)

  abbrev pub AllTame : List (Op T P F) → Type 0
  AllTame [] = Unit {0}
  AllTame (op ∷ ops) = IsTame op × AllTame ops

module _ {T : Type 0} {lru : Lru T Slot} {P F : Type 0} where
  perform-Covered :
      (op : Op T P F) (m : Subjects lru P F) → IsTame op → Covered m → Covered (perform op m)
  unfolding perform
  perform-Covered (lookup now subject create) m tame c =
      get_or_insert_with-Covered subject now create m tame c
  perform-Covered (renewal now subject entry) m tame c = touch-Covered subject entry now m c
  perform-Covered (decision now subject change) m tame c =
      update-Covered subject now change m tame c
  perform-Covered (removal now subject) m tame c = remove-Covered subject now m c
  perform-Covered (judgement now subject predicate) m tame c =
      remove_if-Covered subject now predicate m tame c
  perform-Covered (clearing now) m tame c =
      λ a live. absurd (ground (arith, clear_all-silences m a c))
  perform-Covered (outside now method) m tame c = λ a live. c a (tame m.store a live)

  -- After any history of the map's operations and of methods run through handles, where a lookup
  -- creates one entry, a decision changes one, and nothing else brings a stale entry back, every
  -- entry that is not stale is in the map, if that held before; so a clear leaves none that is not.
  pub perform_all-Covered :
      (ops : List (Op T P F)) (m : Subjects lru P F)
      → AllTame ops
      → Covered m
      → Covered (perform_all ops m)
        × ((a : ℕ) → live_at (clear_all (perform_all ops m)).store a ≡ false)
  unfolding perform_all
  perform_all-Covered [] m tame c = (c, λ a. clear_all-silences m a c)
  perform_all-Covered (op ∷ ops) m tame c =
      perform_all-Covered ops (perform op m) tame.1 (perform-Covered op m tame.0 c)
