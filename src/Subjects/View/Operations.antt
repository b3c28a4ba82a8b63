-- ===== src/Subjects/View/Operations.antt =====
-- The operations of `SubjectMap` (src/gate.rs) on the abstract view of the map.
use policy_gate.Prelude.{
  ℕ, ◌-◌, ◌≡◌, ◌⊎◌, inl, inr, refl, arith, true, false, Option, none, some, List, ◌∷◌,
  if◌then◌else◌, Option-cases, length, ◌==◌, if_branches,
}
use policy_gate.Store.{Store}
use policy_gate.Lru.{Lru, init, find}
use policy_gate.Lru.{remove as remove_item}
use policy_gate.Subjects.{
  Slot, Subjects, touched, tick_of, idle_limit, evict, drop_evicted, insert_new, get_or_insert_with,
}
use policy_gate.Subjects.Eviction.{evict_items}
use policy_gate.Subjects.Order.{find-trim}
use policy_gate.Subjects.View.{
  View, Forgets, ForgetsBut, Distinct, seen, find-init, init-Distinct, init-Forgets, find-removed,
  remove-Distinct, renewed-seen, trim-Distinct, trim-Forgets, trim-front,
}

touched-fresh : (tick : ℕ) (slot : Slot) → tick - (touched tick slot).last_touched ≡ 0
unfolding touched
touched-fresh tick slot = omega arith

touched-entry : (tick : ℕ) (slot : Slot) → some slot.entry ≡ some (touched tick slot).entry
unfolding touched
touched-entry tick slot = refl

module _ {T : Type 0} {lru : Lru T Slot} {P F : Type 0} where
  open lru use {dec, items, peek, get_mut, push, pop}

  -- The entry of each subject.
  abbrev pub view : Subjects lru P F → View T
  view m k = seen dec (items m.cache) k

  -- No subject has two entries.
  abbrev pub Single : Subjects lru P F → Type 0
  Single m = Distinct dec (items m.cache)

  pub evict-view :
      (tick : ℕ) (m : Subjects lru P F)
      → Single m
      → Single (evict tick m) × Forgets (view m) (view (evict tick m))
  evict-view tick m d = rw (evict_items tick m) (
    trim-Distinct dec (idle_limit m) tick (items m.cache) d,
    trim-Forgets dec (idle_limit m) tick (items m.cache),
  )

  drop_evicted-cache :
      (o : Option (T × Slot)) (m : Subjects lru P F) → (drop_evicted o m).cache ≡ m.cache
  unfolding drop_evicted
  drop_evicted-cache none m = refl
  drop_evicted-cache (some x) m = refl

  drop_evicted-limit :
      (o : Option (T × Slot)) (m : Subjects lru P F)
      → (drop_evicted o m).subject_ttl ≡ m.subject_ttl
  unfolding drop_evicted
  drop_evicted-limit none m = refl
  drop_evicted-limit (some x) m = refl

  -- The view after a subject's item was put in front at `tick`, and the map evicted.
  fronted-view :
      (subject : T) (slot : Slot) (tick : ℕ) (rest : List (T × Slot)) (m : Subjects lru P F)
      → items m.cache ≡ (subject, slot) ∷ rest
      → tick - slot.last_touched ≡ 0
      → Distinct dec ((subject, slot) ∷ rest)
      → Single (evict tick m)
        × (view (evict tick m) subject ≡ some slot.entry)
        × Forgets (seen dec ((subject, slot) ∷ rest)) (view (evict tick m))
  fronted-view subject slot tick rest m e fresh d =
      let limit = idle_limit m in
      let x : T × Slot = (subject, slot) in
      rw (evict_items tick m, e)
        (
          trim-Distinct dec limit tick (x ∷ rest) d,
          trim-front dec limit tick x rest (ground arith),
          trim-Forgets dec limit tick (x ∷ rest),
        )

  insert_new-view :
      (subject : T) (tick : ℕ) (create : Store P F → Store P F × ℕ) (m : Subjects lru P F)
      → Single m
      → find dec subject (items m.cache) ≡ none
      → let r = insert_new subject tick create m in
        Single r.0 × (view r.0 subject ≡ some r.1) × ForgetsBut subject (view m) (view r.0)
  unfolding insert_new
  insert_new-view subject tick create m d absent =
      let made = create m.store in
      let slot : Slot = record { entry = made.1; last_touched = tick } in
      let r = push subject slot m.cache in
      let pushed : Subjects lru P F = record m { cache = r.1; store = made.0 } in
      let full = length (items m.cache) == lru.capacity m.cache in
      let rest = if full then init (items m.cache) else items m.cache in
      let listed : items (drop_evicted r.0 pushed).cache ≡ (subject, slot) ∷ rest =
        rw (drop_evicted-cache r.0 pushed) (lru.push_items subject slot m.cache absent) in
      let alone : Distinct dec ((subject, slot) ∷ rest) =
        if_branches (λ (xs : List (T × Slot)). Distinct dec ((subject, slot) ∷ xs)) full
          (λ over.
            (find-init dec subject (items m.cache) absent, init-Distinct dec (items m.cache) d))
          (λ room. (absent, d)) in
      let less : Forgets (view m) (seen dec rest) =
        if_branches (λ (xs : List (T × Slot)). Forgets (view m) (seen dec xs)) full
          (λ over. init-Forgets dec (items m.cache)) (λ room k. inl refl) in
      let fronted =
        fronted-view subject slot tick rest (drop_evicted r.0 pushed) listed (ground arith) alone in
      (fronted.0, fronted.1, λ k other. ground (arith, fronted.2 k, less k))

  -- A lookup or insertion gives the entry that the subject has afterwards, which is the one that it
  -- had before if it had one; it says that it inserted exactly where the subject had none; and no
  -- other subject gains an entry or gets another one.
  pub get_or_insert_with-view :
      (subject : T) (now : ℕ) (create : Store P F → Store P F × ℕ) (m : Subjects lru P F)
      → Single m
      → let r = get_or_insert_with subject now create m in
        Single r.0
        × (view r.0 subject ≡ some r.1)
        × ForgetsBut subject (view m) (view r.0)
        × ((view m subject ≡ some r.1) × (r.2 ≡ false) ⊎ (view m subject ≡ none) × (r.2 ≡ true))
  unfolding get_or_insert_with
  get_or_insert_with-view subject now create m d =
      let tick = tick_of m now in
      let limit = idle_limit m in
      elim (Option-cases (find dec subject (items m.cache))) [
        | inl absent ↦
            let evicted = evict-view tick m d in
            let inserted =
              insert_new-view subject tick create (evict tick m) evicted.0 (
                rw (evict_items tick m)
                  (find-trim limit tick dec subject (items m.cache) absent)) in
            rw (lru.get_mut_miss subject (touched tick) m.cache absent, get_or_insert_with)
              (
                inserted.0,
                inserted.1,
                λ k other. ground (arith, evicted.1 k, inserted.2 k),
                inr (rw absent refl, refl),
              )
        | inr (slot, found) ↦
            let (after, hit, listed, kept) =
              lru.get_mut_hit subject (touched tick) m.cache slot found in
            let renewed = touched tick slot in
            let rest = remove_item dec subject (items m.cache) in
            let fronted =
              fronted-view subject renewed tick rest (record m { cache = after }) listed
                (touched-fresh tick slot)
                (
                  find-removed dec subject (items m.cache) d,
                  remove-Distinct dec subject (items m.cache) d,
                ) in
            rw (hit, get_or_insert_with)
              (
                fronted.0,
                fronted.1,
                λ k other. ground (
                  arith,
                  fronted.2 k,
                  renewed-seen dec subject tick (items m.cache) slot found k,
                ),
                inl (rw found (touched-entry tick slot), refl),
              )
      ]
