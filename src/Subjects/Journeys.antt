-- ===== src/Subjects/Journeys.antt =====
-- What the operations of `SubjectMap` (src/gate.rs) do to the memory: a chain of invalidations and
-- of what their callers pass. A relation that such chains keep is kept by each operation.
use policy_gate.Prelude.{
  ℕ, zero, suc, ◌-◌, ◌≡◌, inl, inr, refl, arith, true, sym, ◌∙◌, Bool, none, some, List, [], ◌∷◌,
  length, ltb, Option, Option-cases, Bool-cases,
}
use policy_gate.Store.{Store, invalidate_at}
use policy_gate.Lru.{Lru, find}
use policy_gate.Subjects.Eviction.{evict_items}
use policy_gate.Subjects.Order.{found-trim}
use policy_gate.Subjects.{
  Slot, Subjects, touched, tick_of, idle_limit, evict_one, evict_loop, evict, drop_evicted,
  insert_new, get_or_insert_with, touch, update, pop_subject, remove, remove_if, with_cache,
  matches, invalidate_all, clear_all,
}

-- A relation between the memory before and after, for chains that may invalidate.
pub record Journey (P F : Type 0) : Type 1 where
  pub Goes : Store P F → Store P F → Type 0
  pub rests : (s : Store P F) → Goes s s
  pub joins : (s t u : Store P F) → Goes s t → Goes t u → Goes s u
  pub invalidates : (at : ℕ) (s : Store P F) → Goes s (invalidate_at at s)

module _ {T P F : Type 0} (journey : Journey P F) where
  open journey use {Goes, rests, joins, invalidates}

  invalidate_all-Goes : (xs : List (T × Slot)) (s : Store P F) → Goes s (invalidate_all xs s)
  unfolding invalidate_all
  invalidate_all-Goes [] s = rests s
  invalidate_all-Goes ((k, slot) ∷ xs) s =
      joins s (invalidate_at slot.entry s) _ (invalidates slot.entry s)
        (invalidate_all-Goes xs (invalidate_at slot.entry s))

module _ {T : Type 0} {lru : Lru T Slot} {P F : Type 0} (journey : Journey P F) where
  open lru use {dec, items, peek, get_mut, push, pop, peek_lru, pop_lru}
  open journey use {Goes, rests, joins, invalidates}

  evict_one-Goes : (m : Subjects lru P F) → Goes m.store (evict_one m).store
  unfolding evict_one
  evict_one-Goes m = elim (Option-cases (pop_lru m.cache).0) [
    | inl e ↦ rw (e, evict_one) (rests m.store)
    | inr ((k, slot), e) ↦ rw (e, evict_one) (invalidates slot.entry m.store)
  ]

  evict_loop-Goes :
      (rounds tick : ℕ) (m : Subjects lru P F) → Goes m.store (evict_loop rounds tick m).store
  unfolding evict_loop
  evict_loop-Goes zero tick m = rests m.store
  evict_loop-Goes (suc rounds) tick m =
      let rest =
        joins m.store (evict_one m).store _ (evict_one-Goes m)
          (evict_loop-Goes rounds tick (evict_one m)) in
      elim (Option-cases (peek_lru m.cache)) [
        | inl e ↦ rw (e, evict_loop) (rests m.store)
        | inr ((k, slot), e) ↦ elim (Bool-cases (ltb (idle_limit m) (tick - slot.last_touched))) [
          | inl over ↦ rw (e, evict_loop, over) rest
          | inr within ↦ rw (e, evict_loop, within) (rests m.store)
        ]
      ]

  evict-Goes : (tick : ℕ) (m : Subjects lru P F) → Goes m.store (evict tick m).store
  unfolding evict
  evict-Goes tick m = evict_loop-Goes (length (items m.cache)) tick m

  drop_evicted-Goes :
      (dropped : Option (T × Slot)) (m : Subjects lru P F)
      → Goes m.store (drop_evicted dropped m).store
  unfolding drop_evicted
  drop_evicted-Goes none m = rests m.store
  drop_evicted-Goes (some (k, slot)) m = invalidates slot.entry m.store

  insert_new-Goes :
      (subject : T) (tick : ℕ) (create : Store P F → Store P F × ℕ) (m : Subjects lru P F)
      → ((s : Store P F) → Goes s (create s).0)
      → Goes m.store (insert_new subject tick create m).0.store
  unfolding insert_new
  insert_new-Goes subject tick create m goes =
      let made = create m.store in
      let slot : Slot = record { entry = made.1; last_touched = tick } in
      let r = push subject slot m.cache in
      let pushed : Subjects lru P F = record m { cache = r.1; store = made.0 } in
      joins m.store made.0 _ (goes m.store) (
        joins made.0 (drop_evicted r.0 pushed).store _ (drop_evicted-Goes r.0 pushed)
          (evict-Goes tick (drop_evicted r.0 pushed)))

  pub get_or_insert_with-Goes :
      (subject : T) (now : ℕ) (create : Store P F → Store P F × ℕ) (m : Subjects lru P F)
      → ((s : Store P F) → Goes s (create s).0)
      → Goes m.store (get_or_insert_with subject now create m).0.store
  unfolding get_or_insert_with
  get_or_insert_with-Goes subject now create m goes =
      let tick = tick_of m now in
      elim (Option-cases (get_mut subject (touched tick) m.cache)) [
        | inl e ↦
            rw (e, get_or_insert_with)
              (joins m.store (evict tick m).store _ (evict-Goes tick m)
                (insert_new-Goes subject tick create (evict tick m) goes))
        | inr ((slot, after), e) ↦
            rw (e, get_or_insert_with) (evict-Goes tick (record m { cache = after }))
      ]

  insert_new-after :
      (subject : T) (tick : ℕ) (create : Store P F → Store P F × ℕ) (m : Subjects lru P F)
      → Goes (create m.store).0 (insert_new subject tick create m).0.store
  unfolding insert_new
  insert_new-after subject tick create m =
      let made = create m.store in
      let slot : Slot = record { entry = made.1; last_touched = tick } in
      let r = push subject slot m.cache in
      let pushed : Subjects lru P F = record m { cache = r.1; store = made.0 } in
      joins made.0 (drop_evicted r.0 pushed).store _ (drop_evicted-Goes r.0 pushed)
        (evict-Goes tick (drop_evicted r.0 pushed))

  -- An entry that a lookup inserts was made on the way.
  pub get_or_insert_with-made :
      (subject : T) (now : ℕ) (create : Store P F → Store P F × ℕ) (m : Subjects lru P F)
      → let r = get_or_insert_with subject now create m in
        r.2 ≡ true
        → (s : Store P F) × Goes m.store s × (r.1 ≡ (create s).1) × Goes (create s).0 r.0.store
  unfolding get_or_insert_with insert_new
  get_or_insert_with-made subject now create m inserted =
      let tick = tick_of m now in
      elim (Option-cases (get_mut subject (touched tick) m.cache)) [
        | inl e ↦ (
          (evict tick m).store,
          evict-Goes tick m,
          rw (e, get_or_insert_with) refl,
          rw (e, get_or_insert_with) (insert_new-after subject tick create (evict tick m)),
        )
        | inr ((slot, after), e) ↦ absurd (ground (arith, e, inserted))
      ]

  with_cache-Goes :
      (found : Option (Slot × lru.Cache)) (tick : ℕ) (m : Subjects lru P F)
      → Goes m.store (evict tick (with_cache m found)).store
  with_cache-Goes none tick m = evict-Goes tick m
  with_cache-Goes (some (slot, after)) tick m = evict-Goes tick (record m { cache = after })

  pub touch-Goes :
      (subject : T) (entry now : ℕ) (m : Subjects lru P F)
      → Goes m.store (touch subject entry now m).0.store
  unfolding touch
  touch-Goes subject entry now m =
      let tick = tick_of m now in
      elim (Bool-cases (matches m subject entry)) [
        | inl same ↦
            rw (same, touch) (with_cache-Goes (get_mut subject (touched tick) m.cache) tick m)
        | inr other ↦ rw (other, touch) (evict-Goes tick m)
      ]

  -- The change is given the entry that the map had for the subject.
  pub update-Goes :
      (subject : T) (now : ℕ) (change : ℕ → Store P F → Store P F) (m : Subjects lru P F)
      → ((slot : Slot) (s : Store P F)
          → find dec subject (items m.cache) ≡ some slot
          → Goes s (change slot.entry s))
      → Goes m.store (update subject now change m).store
  unfolding update
  update-Goes subject now change m goes =
      let tick = tick_of m now in
      let kept = evict tick m in
      elim (Option-cases (peek subject kept.cache)) [
        | inl e ↦ rw (e, update) (evict-Goes tick m)
        | inr (slot, e) ↦
            let there : find dec subject (items kept.cache) ≡ some slot =
              sym (lru.peek_lem subject kept.cache) ∙ e in
            let found =
              found-trim (idle_limit m) tick dec subject (items m.cache) slot
                (rw (← evict_items tick m) there) in
            rw (e, update)
              (joins m.store kept.store _ (evict-Goes tick m) (goes slot kept.store found))
      ]

  pop_subject-Goes :
      (subject : T) (m : Subjects lru P F) → Goes m.store (pop_subject subject m).0.store
  unfolding pop_subject
  pop_subject-Goes subject m = elim (Option-cases (pop subject m.cache).0) [
    | inl e ↦ rw (e, pop_subject) (rests m.store)
    | inr (slot, e) ↦ rw (e, pop_subject) (invalidates slot.entry m.store)
  ]

  pub remove-Goes :
      (subject : T) (now : ℕ) (m : Subjects lru P F) → Goes m.store (remove subject now m).0.store
  unfolding remove
  remove-Goes subject now m =
      let kept = evict (tick_of m now) m in
      joins m.store kept.store _ (evict-Goes (tick_of m now) m) (pop_subject-Goes subject kept)

  pub remove_if-Goes :
      (subject : T) (now : ℕ) (predicate : ℕ → Store P F → Store P F × Bool) (m : Subjects lru P F)
      → ((entry : ℕ) (s : Store P F) → Goes s (predicate entry s).0)
      → Goes m.store (remove_if subject now predicate m).0.store
  unfolding remove_if
  remove_if-Goes subject now predicate m goes =
      let kept = evict (tick_of m now) m in
      let evicted = evict-Goes (tick_of m now) m in
      elim (Option-cases (peek subject kept.cache)) [
        | inl e ↦ rw (e, remove_if) evicted
        | inr (slot, e) ↦
            let r = predicate slot.entry kept.store in
            let judged = joins m.store kept.store r.0 evicted (goes slot.entry kept.store) in
            let popped = pop_subject-Goes subject (record kept { store = r.0 }) in
            elim (Bool-cases r.1) [
              | inl gone ↦ rw (e, remove_if, gone) (joins m.store r.0 _ judged popped)
              | inr stays ↦ rw (e, remove_if, stays) judged
            ]
      ]

  pub clear_all-Goes : (m : Subjects lru P F) → Goes m.store (clear_all m).store
  unfolding clear_all
  clear_all-Goes m = invalidate_all-Goes journey (items m.cache) m.store
