-- ===== src/Subjects.antt =====
-- `SubjectMap` of src/gate.rs: the bounded map from subjects to entries, with its idle time and
-- the entries that it points to. Each operation runs under the map's lock, so it is one step.
pub mod Eviction
pub mod Order
pub mod Invariant
pub mod History
pub mod Coverage
pub mod Handles
pub mod Journeys
pub mod View
use policy_gate.Prelude.{
  ℕ, zero, suc, ◌-◌, ◌^◌, max, Bool, true, false, Option, none, some, List, [], ◌∷◌, map, length,
  ltb, ◌==◌, if◌then◌else◌,
}
use policy_gate.Time.{u64_or}
use policy_gate.Entry.{Entry}
use policy_gate.Lru.{Lru}
use policy_gate.Store.{Store, invalidate_at, allocate}

-- `SubjectSlot`: the address of the entry, and the tick of the last touch.
pub record Slot : Type 0 where
  pub entry : ℕ
  pub last_touched : ℕ

unfoldable pub touched : ℕ → Slot → Slot
touched tick slot = record slot { last_touched = max slot.last_touched tick }

-- `SubjectMap::tick`
unfoldable pub activity_tick : ℕ → ℕ → ℕ
activity_tick epoch now = u64_or (2 ^ 64 - 1) (now - epoch)

-- The loop of `clear`: every item's entry is invalidated.
unfoldable pub invalidate_all {ℓ} :
    {T : Type ℓ} {P F : Type 0} → List (T × Slot) → Store P F → Store P F
invalidate_all [] s = s
invalidate_all ((_, slot) ∷ slots) s = invalidate_all slots (invalidate_at slot.entry s)

module _ {T : Type 0} (lru : Lru T Slot) (P F : Type 0) where
  pub record Subjects : Type 0 where
    pub cache : lru.Cache
    pub subject_ttl : ℕ
    pub activity_epoch : ℕ
    pub shape_dirty : Bool
    pub store : Store P F

module _ {T : Type 0} {lru : Lru T Slot} {P F : Type 0} where
  open lru use {items, peek, get_mut, push, pop, peek_lru, pop_lru, clear}

  -- `SubjectMap::new` at `now`, over the memory there is.
  unfoldable pub new : ℕ → ℕ → ℕ → Store P F → Subjects lru P F
  new max_subjects subject_ttl now s = record {
    cache = lru.new max_subjects;
    subject_ttl = subject_ttl;
    activity_epoch = now;
    shape_dirty = false;
    store = s;
  }

  abbrev pub tick_of : Subjects lru P F → ℕ → ℕ
  tick_of m now = activity_tick m.activity_epoch now

  abbrev pub idle_limit : Subjects lru P F → ℕ
  idle_limit m = u64_or (2 ^ 64 - 1) m.subject_ttl

  -- Drops the map's least recently used item.
  unfoldable pub evict_one : Subjects lru P F → Subjects lru P F
  evict_one m =
      let r = pop_lru m.cache in
      elim r.0 [
        | none ↦ m
        | some (_, slot) ↦ record m {
          cache = r.1;
          store = invalidate_at slot.entry m.store;
          shape_dirty = true;
        }
      ]

  -- The loop of `evict`, for at most the given number of rounds.
  unfoldable pub evict_loop : ℕ → ℕ → Subjects lru P F → Subjects lru P F
  evict_loop zero tick m = m
  evict_loop (suc rounds) tick m =
      let rest = evict_loop rounds tick (evict_one m) in
      elim (peek_lru m.cache) [
        | none ↦ m
        | some (_, slot) ↦ if ltb (idle_limit m) (tick - slot.last_touched) then rest else m
      ]

  -- As many rounds as there are items are enough.
  unfoldable pub evict : ℕ → Subjects lru P F → Subjects lru P F
  unfolding evict_loop
  evict tick m = evict_loop (length (items m.cache)) tick m

  -- The eviction that a push into a full map makes.
  unfoldable pub drop_evicted : Option (T × Slot) → Subjects lru P F → Subjects lru P F
  drop_evicted none m = m
  drop_evicted (some (_, slot)) m = record m {
    store = invalidate_at slot.entry m.store;
    shape_dirty = true;
  }

  -- The new entry's address, once it is made and pushed.
  unfoldable pub insert_new :
      T → ℕ → (Store P F → Store P F × ℕ) → Subjects lru P F → Subjects lru P F × ℕ
  unfolding drop_evicted
  insert_new subject tick create m =
      let made = create m.store in
      let slot : Slot = record { entry = made.1; last_touched = tick } in
      let r = push subject slot m.cache in
      (evict tick (drop_evicted r.0 (record m { cache = r.1; store = made.0 })), made.1)

  -- The entry's address, and whether it was inserted.
  unfoldable pub get_or_insert_with :
      T → ℕ → (Store P F → Store P F × ℕ) → Subjects lru P F → Subjects lru P F × ℕ × Bool
  unfolding insert_new
  get_or_insert_with subject now create m =
      let tick = tick_of m now in
      elim (get_mut subject (touched tick) m.cache) [
        | some (slot, cache) ↦ (evict tick (record m { cache = cache }), slot.entry, false)
        | none ↦ let r = insert_new subject tick create (evict tick m) in (r.0, r.1, true)
      ]

  -- Whether the subject's entry is the one at `entry`.
  abbrev pub matches : Subjects lru P F → T → ℕ → Bool
  matches m subject entry = elim (peek subject m.cache) [
    | none ↦ false
    | some slot ↦ slot.entry == entry
  ]

  abbrev pub with_cache : Subjects lru P F → Option (Slot × lru.Cache) → Subjects lru P F
  with_cache m none = m
  with_cache m (some (_, cache)) = record m { cache = cache }

  unfoldable pub touch : T → ℕ → ℕ → Subjects lru P F → Subjects lru P F × Bool
  touch subject entry now m =
      let tick = tick_of m now in
      let renewed = with_cache m (get_mut subject (touched tick) m.cache) in
      if matches m subject entry then (evict tick renewed, true) else (evict tick m, false)

  unfoldable pub update : T → ℕ → (ℕ → Store P F → Store P F) → Subjects lru P F → Subjects lru P F
  update subject now change m =
      let kept = evict (tick_of m now) m in
      elim (peek subject kept.cache) [
        | none ↦ kept
        | some slot ↦ record kept { store = change slot.entry kept.store }
      ]

  -- What `remove` and `remove_if` end in.
  unfoldable pub pop_subject : T → Subjects lru P F → Subjects lru P F × Bool
  pop_subject subject m =
      let r = pop subject m.cache in
      elim r.0 [
        | none ↦ (record m { cache = r.1 }, false)
        | some slot ↦ (record m { cache = r.1; store = invalidate_at slot.entry m.store }, true)
      ]

  unfoldable pub remove : T → ℕ → Subjects lru P F → Subjects lru P F × Bool
  unfolding pop_subject
  remove subject now m = pop_subject subject (evict (tick_of m now) m)

  -- The predicate sees the entry's address, and may change the entry.
  unfoldable pub remove_if :
      T → ℕ → (ℕ → Store P F → Store P F × Bool) → Subjects lru P F → Subjects lru P F × Bool
  unfolding pop_subject
  remove_if subject now predicate m =
      let kept = evict (tick_of m now) m in
      elim (peek subject kept.cache) [
        | none ↦ (kept, false)
        | some slot ↦
            let r = predicate slot.entry kept.store in
            let judged = record kept { store = r.0 } in
            if r.1 then pop_subject subject judged else (judged, false)
      ]

  -- What `for_each` visits: each subject with its entry's address.
  unfoldable pub visited : Subjects lru P F → List (T × ℕ)
  visited m = map (λ (item : T × Slot). (item.0, item.1.entry)) (items m.cache)

  -- `clear`
  unfoldable pub clear_all : Subjects lru P F → Subjects lru P F
  unfolding invalidate_all
  clear_all m = record m { cache = clear m.cache; store = invalidate_all (items m.cache) m.store }
