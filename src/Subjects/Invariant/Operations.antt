-- ===== src/Subjects/Invariant/Operations.antt =====
-- The operations of `SubjectMap`, src/gate.rs: each keeps the map's order and its bound.
use policy_gate.Prelude.{
  ℕ, ◌≤◌, ◌≡◌, refl, arith, Bool, Option, none, some, Option-cases, Bool-cases, inl, inr,
}
use policy_gate.Store.{Store}
use policy_gate.Lru.{Lru, find}
use policy_gate.Subjects.{
  Slot, Subjects, touched, tick_of, idle_limit, evict, drop_evicted, insert_new, get_or_insert_with,
  touch, update, pop_subject, remove, remove_if, with_cache, matches, clear_all,
}
use policy_gate.Subjects.Eviction.{evict_items}
use policy_gate.Subjects.Order.{find-trim, remove-IsOrdered, length-remove-le}
use policy_gate.Subjects.Invariant.{Inv, Inv-mono, evict-Inv, renewed-Inv, pushed-Inv}

module _ {T : Type 0} {lru : Lru T Slot} {P F : Type 0} where
  open lru use {
    dec, items, peek, clear_items, clear_capacity, capacity, push, get_mut, get_mut_hit,
    get_mut_miss, push_items, push_capacity, pop, pop_items, pop_capacity, pop_lem,
  }

  insert_new-Inv :
      (tick : ℕ) (subject : T) (create : Store P F → Store P F × ℕ) (m : Subjects lru P F)
      → Inv tick m
      → find dec subject (items m.cache) ≡ none
      → Inv tick (insert_new subject tick create m).0
  unfolding insert_new drop_evicted
  insert_new-Inv tick subject create m v absent =
      let slot : Slot = record { entry = (create m.store).1; last_touched = tick } in
      let w = pushed-Inv tick m subject slot refl v absent in
      (evict-Inv tick tick _ (
        dropped (push subject slot m.cache).0
          (record m { cache = (push subject slot m.cache).1; store = (create m.store).0 })
          (record { ordered = w.ordered; bounded = w.bounded; positive = w.positive }))).0
    where
      dropped :
          (o : Option (T × Slot)) (n : Subjects lru P F) → Inv tick n → Inv tick (drop_evicted o n)
      dropped none n w = w
      dropped (some x) n w = record {
        ordered = w.ordered;
        bounded = w.bounded;
        positive = w.positive;
      }

  -- A lookup or insertion at a later tick keeps the order and the bound of the map.
  pub get_or_insert_with-Inv :
      (t now : ℕ) (subject : T) (create : Store P F → Store P F × ℕ) (m : Subjects lru P F)
      → t ≤ tick_of m now
      → Inv t m
      → Inv (tick_of m now) (get_or_insert_with subject now create m).0
  unfolding get_or_insert_with
  get_or_insert_with-Inv t now subject create m h v =
      elim (Option-cases (find dec subject (items m.cache))) [
        | inl absent ↦
            rw (get_mut_miss subject (touched tick) m.cache absent, get_or_insert_with)
              (insert_new-Inv tick subject create (evict tick m)
                (evict-Inv tick tick m (Inv-mono t tick m h v)).0
                (rw (evict_items tick m)
                  (find-trim (idle_limit m) tick dec subject (items m.cache) absent)))
        | inr (slot, found) ↦
            let (after, hit, listed, kept) =
              get_mut_hit subject (touched tick) m.cache slot found in
            rw (hit, get_or_insert_with)
              (evict-Inv tick tick (record m { cache = after })
                (renewed-Inv t tick m subject slot after h v found listed kept)).0
      ]
    where
      tick : ℕ
      tick = tick_of m now

  -- So does a touch of an entry.
  pub touch-Inv :
      (t now : ℕ) (subject : T) (entry : ℕ) (m : Subjects lru P F)
      → t ≤ tick_of m now
      → Inv t m
      → Inv (tick_of m now) (touch subject entry now m).0
  unfolding touch
  touch-Inv t now subject entry m h v = elim (Bool-cases (matches m subject entry)) [
    | inl same ↦ rw (same, touch) (evict-Inv tick tick _ renewed).0
    | inr other ↦ rw (other, touch) (evict-Inv tick tick m (Inv-mono t tick m h v)).0
  ]
    where
      tick : ℕ
      tick = tick_of m now

      renewed : Inv tick (with_cache m (get_mut subject (touched tick) m.cache))
      renewed = elim (Option-cases (find dec subject (items m.cache))) [
        | inl absent ↦
            rw (get_mut_miss subject (touched tick) m.cache absent, with_cache)
              (Inv-mono t tick m h v)
        | inr (slot, found) ↦
            let (after, hit, listed, kept) =
              get_mut_hit subject (touched tick) m.cache slot found in
            rw (hit, with_cache) (renewed-Inv t tick m subject slot after h v found listed kept)
      ]

  pub update-Inv :
      (t now : ℕ) (subject : T) (change : ℕ → Store P F → Store P F) (m : Subjects lru P F)
      → t ≤ tick_of m now
      → Inv t m
      → Inv (tick_of m now) (update subject now change m)
  unfolding update
  update-Inv t now subject change m h v =
      let tick = tick_of m now in
      let w = (evict-Inv tick tick m (Inv-mono t tick m h v)).0 in
      elim (peek subject (evict tick m).cache)
        as (λ o. Inv tick (elim o [
          | none ↦ evict tick m
          | some slot ↦ record (evict tick m) { store = change slot.entry (evict tick m).store }
        ])) [
          | none ↦ w
          | some slot ↦ record { ordered = w.ordered; bounded = w.bounded; positive = w.positive }
        ]

  pop_subject-Inv :
      (t : ℕ) (subject : T) (m : Subjects lru P F) → Inv t m → Inv t (pop_subject subject m).0
  unfolding pop_subject
  pop_subject-Inv t subject m v =
      let popped : Inv t (record m { cache = (pop subject m.cache).1 }) = record {
        ordered =
            rw (pop_items subject m.cache)
              (remove-IsOrdered dec subject t (items m.cache) v.ordered);
        bounded =
            rw (pop_items subject m.cache, pop_capacity subject m.cache)
              (omega (arith, length-remove-le dec subject (items m.cache), v.bounded));
        positive = rw (pop_capacity subject m.cache) v.positive;
      } in
      elim (Option-cases (pop subject m.cache).0) [
        | inl e ↦ rw (e, pop_subject) popped
        | inr (slot, e) ↦
            rw (e, pop_subject)
              (record {
                ordered = popped.ordered;
                bounded = popped.bounded;
                positive = popped.positive;
              })
      ]

  pub remove-Inv :
      (t now : ℕ) (subject : T) (m : Subjects lru P F)
      → t ≤ tick_of m now
      → Inv t m
      → Inv (tick_of m now) (remove subject now m).0
  unfolding remove
  remove-Inv t now subject m h v =
      let tick = tick_of m now in
      pop_subject-Inv tick subject (evict tick m) (evict-Inv tick tick m (Inv-mono t tick m h v)).0

  pub remove_if-Inv :
      (t now : ℕ) (subject : T) (predicate : ℕ → Store P F → Store P F × Bool)
      (m : Subjects lru P F)
      → t ≤ tick_of m now
      → Inv t m
      → Inv (tick_of m now) (remove_if subject now predicate m).0
  unfolding remove_if
  remove_if-Inv t now subject predicate m h v = elim (Option-cases (peek subject kept.cache)) [
    | inl e ↦ rw (e, remove_if) w
    | inr (slot, e) ↦
        let r = predicate slot.entry kept.store in
        let judged : Inv tick (record kept { store = r.0 }) = record {
          ordered = w.ordered;
          bounded = w.bounded;
          positive = w.positive;
        } in
        elim (Bool-cases r.1) [
          | inl yes_gone ↦ rw (e, remove_if, yes_gone) (pop_subject-Inv tick subject _ judged)
          | inr stays ↦ rw (e, remove_if, stays) judged
        ]
  ]
    where
      tick : ℕ
      tick = tick_of m now

      kept : Subjects lru P F
      kept = evict tick m

      w : Inv tick kept
      w = (evict-Inv tick tick m (Inv-mono t tick m h v)).0

  pub clear_all-Inv : (t : ℕ) (m : Subjects lru P F) → Inv t m → Inv t (clear_all m)
  unfolding clear_all
  clear_all-Inv t m v = record {
    ordered = rw (clear_items m.cache) tt;
    bounded = rw (clear_items m.cache) (omega arith);
    positive = rw (clear_capacity m.cache) v.positive;
  }
