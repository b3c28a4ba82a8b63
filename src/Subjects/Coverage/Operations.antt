-- ===== src/Subjects/Coverage/Operations.antt =====
-- The operations of `SubjectMap`, src/gate.rs: each keeps every entry that is not stale in the map.
use policy_gate.Prelude.{
  ℕ, ◌≡◌, inl, inr, refl, sym, ◌∙◌, arith, Bool, true, false, none, some, List, [], ◌∷◌,
  Option-cases, Bool-cases,
}
use policy_gate.Store.{Store, invalidate_at}
use policy_gate.Store.Liveness.{live_at, CreatesOne, ChangesOne, Judges, invalidate_at-tame}
use policy_gate.Lru.{Lru, find}
use policy_gate.Lru.{remove as remove_item}
use policy_gate.Subjects.Eviction.{evict_items}
use policy_gate.Subjects.Order.{find-trim}
use policy_gate.Subjects.{
  Slot, Subjects, touched, tick_of, idle_limit, evict, insert_new, get_or_insert_with, touch,
  update, pop_subject, remove, remove_if, with_cache, matches, invalidate_all, clear_all,
}
use policy_gate.Subjects.Coverage.{
  Covered, holds, holds-remove, holds-remove_none, holds-renewed, found-holds, evict-Covered,
  pushed-Covered,
}

module _ {T P F : Type 0} where
  invalidate_all-dead :
      (xs : List (T × Slot)) (s : Store P F) (a : ℕ)
      → live_at (invalidate_all xs s) a ≡ true
      → (live_at s a ≡ true) × (holds a xs ≡ false)
  unfolding invalidate_all
  invalidate_all-dead [] s a live = (live, refl)
  invalidate_all-dead ((k, slot) ∷ xs) s a live =
      let rest = invalidate_all-dead xs (invalidate_at slot.entry s) a live in
      let was = invalidate_at-tame slot.entry s a rest.0 in (was.0, ground (arith, rest.1, was.1))

module _ {T : Type 0} {lru : Lru T Slot} {P F : Type 0} where
  open lru use {dec, items, peek, get_mut}

  insert_new-Covered :
      (subject : T) (tick : ℕ) (create : Store P F → Store P F × ℕ) (m : Subjects lru P F)
      → CreatesOne create
      → find dec subject (items m.cache) ≡ none
      → Covered m
      → Covered (insert_new subject tick create m).0
  unfolding insert_new
  insert_new-Covered subject tick create m one absent c = evict-Covered tick _ (
      pushed-Covered subject (record { entry = (create m.store).1; last_touched = tick })
        (create m.store).0 m absent (one m.store) c)

  renewed-Covered :
      (k : T) (tick : ℕ) (slot : Slot) (m : Subjects lru P F) (after : lru.Cache)
      → find dec k (items m.cache) ≡ some slot
      → items after ≡ (k, touched tick slot) ∷ remove_item dec k (items m.cache)
      → Covered m
      → Covered (record m { cache = after })
  renewed-Covered k tick slot m after found e c a live =
      rw e (holds-renewed dec k a tick (items m.cache) {slot = slot} found (c a live))

  -- A lookup or insertion keeps every entry that is not stale in the map, and so does each
  -- operation below.
  pub get_or_insert_with-Covered :
      (subject : T) (now : ℕ) (create : Store P F → Store P F × ℕ) (m : Subjects lru P F)
      → CreatesOne create
      → Covered m
      → Covered (get_or_insert_with subject now create m).0
  unfolding get_or_insert_with
  get_or_insert_with-Covered subject now create m one c =
      let tick = tick_of m now in
      elim (Option-cases (find dec subject (items m.cache))) [
        | inl absent ↦
            rw (lru.get_mut_miss subject (touched tick) m.cache absent, get_or_insert_with)
              (insert_new-Covered subject tick create (evict tick m) one
                (rw (evict_items tick m)
                  (find-trim (idle_limit m) tick dec subject (items m.cache) absent))
                (evict-Covered tick m c))
        | inr (slot, found) ↦
            let (after, hit, listed, kept) =
              lru.get_mut_hit subject (touched tick) m.cache slot found in
            rw (hit, get_or_insert_with)
              (evict-Covered tick (record m { cache = after })
                (renewed-Covered subject tick slot m after found listed c))
      ]

  pub touch-Covered :
      (subject : T) (entry now : ℕ) (m : Subjects lru P F)
      → Covered m
      → Covered (touch subject entry now m).0
  unfolding touch
  touch-Covered subject entry now m c = elim (Bool-cases (matches m subject entry)) [
    | inl same ↦ rw (same, touch) (evict-Covered tick _ renewed)
    | inr other ↦ rw (other, touch) (evict-Covered tick m c)
  ]
    where
      tick : ℕ
      tick = tick_of m now

      renewed : Covered (with_cache m (get_mut subject (touched tick) m.cache))
      renewed = elim (Option-cases (find dec subject (items m.cache))) [
        | inl absent ↦ rw (lru.get_mut_miss subject (touched tick) m.cache absent, with_cache) c
        | inr (slot, found) ↦
            let (after, hit, listed, kept) =
              lru.get_mut_hit subject (touched tick) m.cache slot found in
            rw (hit, with_cache) (renewed-Covered subject tick slot m after found listed c)
      ]

  pub update-Covered :
      (subject : T) (now : ℕ) (change : ℕ → Store P F → Store P F) (m : Subjects lru P F)
      → ChangesOne change
      → Covered m
      → Covered (update subject now change m)
  unfolding update
  update-Covered subject now change m one c =
      let kept = evict (tick_of m now) m in
      let w = evict-Covered (tick_of m now) m c in
      elim (Option-cases (peek subject kept.cache)) [
        | inl e ↦ rw (e, update) w
        | inr (slot, e) ↦
            let found = sym (lru.peek_lem subject kept.cache) ∙ e in
            rw (e, update)
              (λ a live. elim (one slot.entry kept.store a live) [
                | inl same ↦ found-holds dec subject a (items kept.cache) {slot = slot} found same
                | inr before ↦ w a before
              ])
      ]

  pop_subject-Covered :
      (subject : T) (m : Subjects lru P F) → Covered m → Covered (pop_subject subject m).0
  unfolding pop_subject
  pop_subject-Covered subject m c = elim (Option-cases (find dec subject (items m.cache))) [
    | inl e ↦
        rw (lru.pop_lem subject m.cache ∙ e, pop_subject, lru.pop_items subject m.cache)
          (λ a live. holds-remove_none dec subject a (items m.cache) e (c a live))
    | inr (slot, e) ↦
        rw (lru.pop_lem subject m.cache ∙ e, pop_subject, lru.pop_items subject m.cache)
          (λ a live.
            let was = invalidate_at-tame slot.entry m.store a live in
            holds-remove dec subject a (items m.cache) {slot = slot} e was.1 (c a was.0))
  ]

  pub remove-Covered :
      (subject : T) (now : ℕ) (m : Subjects lru P F) → Covered m → Covered (remove subject now m).0
  unfolding remove
  remove-Covered subject now m c =
      pop_subject-Covered subject (evict (tick_of m now) m) (evict-Covered (tick_of m now) m c)

  pub remove_if-Covered :
      (subject : T) (now : ℕ) (predicate : ℕ → Store P F → Store P F × Bool) (m : Subjects lru P F)
      → Judges predicate
      → Covered m
      → Covered (remove_if subject now predicate m).0
  unfolding remove_if
  remove_if-Covered subject now predicate m tame c =
      let kept = evict (tick_of m now) m in
      let w = evict-Covered (tick_of m now) m c in
      elim (Option-cases (peek subject kept.cache)) [
        | inl e ↦ rw (e, remove_if) w
        | inr (slot, e) ↦
            let r = predicate slot.entry kept.store in
            let judged =
              λ (a : ℕ) (live : live_at r.0 a ≡ true). w a (tame slot.entry kept.store a live) in
            elim (Bool-cases r.1) [
              | inl gone ↦
                  rw (e, remove_if, gone)
                    (pop_subject-Covered subject (record kept { store = r.0 }) judged)
              | inr stays ↦ rw (e, remove_if, stays) judged
            ]
      ]

  -- A clear of the map leaves no entry in memory that is not stale, whoever holds it, if none was
  -- outside the map before.
  pub clear_all-silences :
      (m : Subjects lru P F) (a : ℕ) → Covered m → live_at (clear_all m).store a ≡ false
  unfolding clear_all
  clear_all-silences m a c = elim (Bool-cases (live_at (clear_all m).store a)) [
    | inl live ↦
        let was = invalidate_all-dead (items m.cache) m.store a live in
        absurd (ground (arith, c a was.0, was.1))
    | inr dead ↦ dead
  ]
