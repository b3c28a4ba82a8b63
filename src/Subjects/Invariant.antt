-- ===== src/Subjects/Invariant.antt =====
-- What holds of `SubjectMap` (src/gate.rs) between two operations, and that each keeps it.
pub mod Operations
use policy_gate.Prelude.{
  ℕ, suc, ◌-◌, ◌≤◌, ◌<◌, ◌≡◌, refl, arith, Bool, Option, none, some, List, ◌∷◌, length, ◌==◌,
  Option-cases, Bool-cases, inl, inr, max,
}
use policy_gate.Store.{Store}
use policy_gate.Lru.{Lru, init, find}
use policy_gate.Lru.{remove as remove_item}
use policy_gate.Subjects.{
  Slot, Subjects, touched, tick_of, idle_limit, evict_one, evict_loop, evict, drop_evicted,
  insert_new, get_or_insert_with, touch, update, pop_subject, remove, remove_if, with_cache,
  matches, clear_all,
}
use policy_gate.Subjects.Eviction.{evict_one_settings, evict_items, length-init-le}
use policy_gate.Subjects.Order.{
  IsOrdered, IsOrdered-mono, AllWithin, init-IsOrdered, trim-IsOrdered, trim-within, length-trim,
  find-trim, remove-IsOrdered, length-remove, length-remove-le, find-le,
}

module _ {T : Type 0} {lru : Lru T Slot} {P F : Type 0} where
  open lru use {
    dec, items, peek, clear_items, clear_capacity, capacity, push, get_mut, get_mut_hit,
    get_mut_miss, push_items, push_capacity, pop, pop_items, pop_capacity, pop_lem,
  }

  -- The items are in the order of their last touch, the latest at `t` at most, and the map
  -- holds no more of them than its capacity.
  pub record Inv (t : ℕ) (m : Subjects lru P F) : Type 0 where
    pub ordered : IsOrdered t (items m.cache)
    pub bounded : length (items m.cache) ≤ capacity m.cache
    pub positive : 0 < capacity m.cache

  evict_loop_settings :
      (rounds tick : ℕ) (m : Subjects lru P F)
      → ((evict_loop rounds tick m).subject_ttl ≡ m.subject_ttl)
        × ((evict_loop rounds tick m).activity_epoch ≡ m.activity_epoch)
        × (capacity (evict_loop rounds tick m).cache ≡ capacity m.cache)
  unfolding evict_loop
  evict_loop_settings ℕ.zero tick m = (refl, refl, refl)
  evict_loop_settings (suc rounds) tick m =
      ground (arith, evict_one_settings m, evict_loop_settings rounds tick (evict_one m))

  pub evict_settings :
      (tick : ℕ) (m : Subjects lru P F)
      → ((evict tick m).subject_ttl ≡ m.subject_ttl)
        × ((evict tick m).activity_epoch ≡ m.activity_epoch)
        × (capacity (evict tick m).cache ≡ capacity m.cache)
  unfolding evict
  evict_settings tick m = evict_loop_settings (length (items m.cache)) tick m

  -- Eviction keeps the order and the bound, and leaves no subject that has been idle for longer
  -- than the limit.
  pub evict-Inv :
      (t tick : ℕ) (m : Subjects lru P F)
      → Inv t m
      → Inv t (evict tick m) × AllWithin (idle_limit m) tick (items (evict tick m).cache)
  evict-Inv t tick m v =
      let limit = idle_limit m in
      (
        record {
          ordered = rw (evict_items tick m) (trim-IsOrdered limit tick t (items m.cache) v.ordered);
          bounded =
              rw (evict_items tick m, (evict_settings tick m).2)
                (omega (arith, length-trim limit tick (items m.cache), v.bounded));
          positive = rw ((evict_settings tick m).2) v.positive;
        },
        rw (evict_items tick m) (trim-within limit tick t (items m.cache) v.ordered),
      )

  -- Replacing the cache by one whose items are in order and within its capacity.
  abbrev with_items : (m : Subjects lru P F) → lru.Cache → Subjects lru P F
  with_items m c = record m { cache = c }

  pub renewed-Inv :
      (t tick : ℕ) (m : Subjects lru P F) (k : T) (slot : Slot) (after : lru.Cache)
      → t ≤ tick
      → Inv t m
      → find dec k (items m.cache) ≡ some slot
      → items after ≡ (k, touched tick slot) ∷ remove_item dec k (items m.cache)
      → capacity after ≡ capacity m.cache
      → Inv tick (record m { cache = after })
  unfolding touched
  renewed-Inv t tick m k slot after h v found e c =
      let earlier : slot.last_touched ≤ t = find-le dec k t (items m.cache) v.ordered found in
      let latest : max slot.last_touched tick ≡ tick = omega arith in
      record {
        ordered =
            rw (e, latest)
              (
                omega arith,
                IsOrdered-mono t tick (remove_item dec k (items m.cache)) h
                    (remove-IsOrdered dec k t (items m.cache) v.ordered),
              );
        bounded = rw (e, c) (omega (arith, length-remove dec k (items m.cache) found, v.bounded));
        positive = rw c v.positive;
      }

  pub Inv-mono : (t u : ℕ) (m : Subjects lru P F) → t ≤ u → Inv t m → Inv u m
  Inv-mono t u m h v = record {
    ordered = IsOrdered-mono t u (items m.cache) h v.ordered;
    bounded = v.bounded;
    positive = v.positive;
  }

  pub pushed-Inv :
      (tick : ℕ) (m : Subjects lru P F) (k : T) (slot : Slot)
      → slot.last_touched ≡ tick
      → Inv tick m
      → find dec k (items m.cache) ≡ none
      → Inv tick (record m { cache = (push k slot m.cache).1 })
  pushed-Inv tick m k slot now v absent =
      elim (Bool-cases (length (items m.cache) == capacity m.cache)) [
        | inl full ↦ record {
          ordered =
              rw (push_items k slot m.cache absent, full, now)
                (omega arith, init-IsOrdered tick (items m.cache) v.ordered);
          bounded =
              rw (push_items k slot m.cache absent, full, push_capacity k slot m.cache)
                (room (items m.cache) (capacity m.cache) v.bounded v.positive);
          positive = rw (push_capacity k slot m.cache) v.positive;
        }
        | inr free ↦ record {
          ordered = rw (push_items k slot m.cache absent, free, now) (omega arith, v.ordered);
          bounded =
              rw (push_items k slot m.cache absent, free, push_capacity k slot m.cache)
                (ground (arith, v.bounded));
          positive = rw (push_capacity k slot m.cache) v.positive;
        }
      ]
    where
      room : (xs : List (T × Slot)) (n : ℕ) → length xs ≤ n → 0 < n → suc (length (init xs)) ≤ n
      room xs n h p = omega (arith, length-init-le xs (n - 1) (omega arith))
