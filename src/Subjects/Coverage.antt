-- ===== src/Subjects/Coverage.antt =====
-- Why no handle outlives its entry's place in `SubjectMap` (src/gate.rs): an entry that is not
-- stale is in the map. Each operation of the map keeps that.
pub mod Operations
use policy_gate.Prelude.{
  ℕ, zero, suc, ◌+◌, ◌-◌, ◌≡◌, ◌≢◌, ◌⊎◌, inl, inr, refl, sym, subst, ◌∙◌, arith, Bool, true, false,
  ◌||◌, Option, none, some, List, [], ◌∷◌, length, ltb, ◌==◌, if◌then◌else◌, Option-cases,
  Bool-cases,
}
use policy_gate.Entry.{Entry}
use policy_gate.Store.{Store, invalidate_at}
use policy_gate.Store.Liveness.{live_at, Tame, TameBut, invalidate_at-tame}
use policy_gate.Lru.{Lru, last?, init, find}
use policy_gate.Lru.{remove as remove_item}
use policy_gate.Subjects.Eviction.{last?-none, evict_items}
use policy_gate.Subjects.Order.{find-trim}
use policy_gate.Subjects.{
  Slot, Subjects, touched, tick_of, idle_limit, evict_one, evict_loop, evict, drop_evicted,
  insert_new, get_or_insert_with, touch, update, pop_subject, remove, remove_if, with_cache,
  matches, invalidate_all, clear_all,
}

module _ {T : Type 0} where
  -- Whether an item points to the entry at an address.
  abbrev pub holds : ℕ → List (T × Slot) → Bool
  holds a [] = false
  holds a (item ∷ items) = item.1.entry == a || holds a items

  holds-init :
      (a : ℕ) (xs : List (T × Slot)) {dropped : T × Slot}
      → last? xs ≡ some dropped
      → dropped.1.entry ≢ a
      → holds a xs ≡ true
      → holds a (init xs) ≡ true
  holds-init a [] e other h = absurd (ground arith)
  holds-init a (x ∷ []) e other h = absurd (ground arith)
  holds-init a (x ∷ y ∷ xs) {dropped} e other h =
      ground (arith, holds-init a (y ∷ xs) {dropped = dropped} e other)

  module _ (dec : Discrete T) (k : T) (a : ℕ) where
    pub holds-remove :
        (xs : List (T × Slot)) {slot : Slot}
        → find dec k xs ≡ some slot
        → slot.entry ≢ a
        → holds a xs ≡ true
        → holds a (remove_item dec k xs) ≡ true
    holds-remove [] e other h = absurd (ground arith)
    holds-remove (x ∷ xs) {slot} e other h = ground (arith, holds-remove xs {slot = slot})

    pub holds-remove_none :
        (xs : List (T × Slot))
        → find dec k xs ≡ none
        → holds a xs ≡ true
        → holds a (remove_item dec k xs) ≡ true
    holds-remove_none [] e h = h
    holds-remove_none (x ∷ xs) e h = ground (arith, holds-remove_none xs)

    -- A renewed item still points to its entry.
    pub holds-renewed :
        (tick : ℕ) (xs : List (T × Slot)) {slot : Slot}
        → find dec k xs ≡ some slot
        → holds a xs ≡ true
        → holds a ((k, touched tick slot) ∷ remove_item dec k xs) ≡ true
    unfolding touched
    holds-renewed tick xs {slot} e h = elim (Bool-cases (slot.entry == a)) [
      | inl same ↦ rw same refl
      | inr other ↦ ground (arith, holds-remove xs {slot = slot} e (ground arith) h)
    ]

    -- The item that is found points to its entry.
    pub found-holds :
        (xs : List (T × Slot)) {slot : Slot}
        → find dec k xs ≡ some slot
        → slot.entry ≡ a
        → holds a xs ≡ true
    found-holds [] e same = absurd (ground arith)
    found-holds (x ∷ xs) {slot} e same = ground (arith, found-holds xs {slot = slot})

module _ {T : Type 0} {lru : Lru T Slot} {P F : Type 0} where
  open lru use {dec, items, peek, get_mut, push, pop, peek_lru, pop_lru, clear}

  -- Every entry that is not stale is in the map.
  abbrev pub Covered : Subjects lru P F → Type 0
  Covered m = (a : ℕ) → live_at m.store a ≡ true → holds a (items m.cache) ≡ true

  evict_one-Covered : (m : Subjects lru P F) → Covered m → Covered (evict_one m)
  unfolding evict_one
  evict_one-Covered m c = elim (Option-cases (last? (items m.cache))) [
    | inl e ↦ rw (lru.pop_lru_lem m.cache ∙ e, evict_one) c
    | inr ((k, slot), e) ↦
        rw (lru.pop_lru_lem m.cache ∙ e, evict_one, lru.pop_lru_items m.cache)
          (λ a live.
            let was = invalidate_at-tame slot.entry m.store a live in
            holds-init a (items m.cache) {dropped = (k, slot)} e was.1 (c a was.0))
  ]

  evict_loop-Covered :
      (rounds tick : ℕ) (m : Subjects lru P F) → Covered m → Covered (evict_loop rounds tick m)
  unfolding evict_loop
  evict_loop-Covered zero tick m c = c
  evict_loop-Covered (suc rounds) tick m c =
      let rest = evict_loop-Covered rounds tick (evict_one m) (evict_one-Covered m c) in
      elim (Option-cases (peek_lru m.cache)) [
        | inl e ↦ rw (e, evict_loop) c
        | inr ((k, slot), e) ↦ elim (Bool-cases (ltb (idle_limit m) (tick - slot.last_touched))) [
          | inl over ↦ rw (e, evict_loop, over) rest
          | inr within ↦ rw (e, evict_loop, within) c
        ]
      ]

  -- An entry that eviction drops from the map is stale afterwards.
  pub evict-Covered : (tick : ℕ) (m : Subjects lru P F) → Covered m → Covered (evict tick m)
  unfolding evict
  evict-Covered tick m c = evict_loop-Covered (length (items m.cache)) tick m c

  -- A push, after a change to the memory that may revive the entry of the pushed item.
  pub pushed-Covered :
      (k : T) (slot : Slot) (after : Store P F) (m : Subjects lru P F)
      → find dec k (items m.cache) ≡ none
      → TameBut slot.entry m.store after
      → Covered m
      → Covered (
          drop_evicted
            (push k slot m.cache).0
            (record m { cache = (push k slot m.cache).1; store = after }))
  unfolding drop_evicted
  pushed-Covered k slot after m absent tame c =
      elim (Bool-cases (length (items m.cache) == lru.capacity m.cache)) [
        | inr free ↦
            rw
              (
                lru.push_evicted k slot m.cache absent,
                free,
                drop_evicted,
                lru.push_items k slot m.cache absent,
              )
              (λ a live. ground (arith, tame a live, c a))
        | inl full ↦ elim (Option-cases (last? (items m.cache))) [
          | inl e ↦
              let empty = last?-none (items m.cache) e in
              rw
                (
                  lru.push_evicted k slot m.cache absent,
                  full,
                  e,
                  drop_evicted,
                  lru.push_items k slot m.cache absent,
                )
                (λ a live. ground (arith, tame a live, c a, empty, full))
          | inr ((j, old), e) ↦
              rw
                (
                  lru.push_evicted k slot m.cache absent,
                  full,
                  e,
                  drop_evicted,
                  lru.push_items k slot m.cache absent,
                )
                (λ a live.
                  let was = invalidate_at-tame old.entry after a live in
                  ground (
                    arith,
                    tame a was.0,
                    c a,
                    was.1,
                    holds-init a (items m.cache) {dropped = (j, old)} e,
                  ))
        ]
      ]
