-- ===== src/Subjects/Eviction.antt =====
-- The eviction loop of `SubjectMap` (src/gate.rs) against a description on the list of items.
use policy_gate.Prelude.{
  ℕ, zero, suc, ◌-◌, ◌≤◌, ◌≡◌, refl, sym, ap, ◌∙◌, arith, Bool, true, false, none, some, List, [],
  ◌∷◌, length, ltb, if◌then◌else◌, Option-cases, Bool-cases, inl, inr,
}
use policy_gate.Lru.{Lru, last?, init}
use policy_gate.Subjects.{Slot, Subjects, idle_limit, evict_one, evict_loop, evict}

module _ {ℓ} {A : Type ℓ} where
  length-init : (x : A) (xs : List A) → length (init (x ∷ xs)) ≡ length xs
  length-init x [] = omega arith
  length-init x (y ∷ xs) = omega (arith, length-init y xs)

  pub length-init-le : (xs : List A) (n : ℕ) → length xs ≤ suc n → length (init xs) ≤ n
  length-init-le [] n h = omega arith
  length-init-le (x ∷ xs) n h = omega (arith, length-init x xs)

  last?-empty : (xs : List A) → length xs ≤ 0 → last? xs ≡ none
  last?-empty [] h = refl
  last?-empty (x ∷ xs) h = absurd (omega arith)

  pub last?-none : (xs : List A) → last? xs ≡ none → xs ≡ []
  last?-none [] h = refl
  last?-none (x ∷ []) h = cc
  last?-none (x ∷ y ∷ xs) h = absurd (ground (arith, last?-none (y ∷ xs)))

module _ {ℓ} {T : Type ℓ} (limit tick : ℕ) where
  -- Whether an item has been idle for longer than the limit.
  abbrev pub over_idle : T × Slot → Bool
  over_idle item = ltb limit (tick - item.1.last_touched)

  -- `item` in front of items that have been trimmed.
  abbrev pub trim_front : T × Slot → List (T × Slot) → List (T × Slot)
  trim_front item [] = if over_idle item then [] else item ∷ []
  trim_front item (y ∷ ys) = item ∷ y ∷ ys

  -- The items without those at the end that have been idle for longer than the limit.
  unfoldable pub trim : List (T × Slot) → List (T × Slot)
  trim [] = []
  trim (item ∷ items) = trim_front item (trim items)

  trim_drops :
      (xs : List (T × Slot)) (a : T × Slot)
      → last? xs ≡ some a
      → over_idle a ≡ true
      → trim xs ≡ trim (init xs)
  unfolding trim
  trim_drops [] a e h = absurd (ground arith)
  trim_drops (x ∷ []) a e h = ground arith
  trim_drops (x ∷ y ∷ xs) a e h = ap (trim_front x) (trim_drops (y ∷ xs) a e h)

  trim_keeps :
      (xs : List (T × Slot)) (a : T × Slot) → last? xs ≡ some a → over_idle a ≡ false → trim xs ≡ xs
  unfolding trim
  trim_keeps [] a e h = absurd (ground arith)
  trim_keeps (x ∷ []) a e h = ground arith
  trim_keeps (x ∷ y ∷ xs) a e h = ap (trim_front x) (trim_keeps (y ∷ xs) a e h)

  trim-none : (xs : List (T × Slot)) → last? xs ≡ none → trim xs ≡ xs
  unfolding trim
  trim-none [] h = refl
  trim-none (x ∷ xs) h = absurd (ground (arith, last?-none (x ∷ xs) h))

  -- An item that is left has not been idle for too long, or a later item is left.
  pub trim_lem :
      (xs : List (T × Slot)) {a : T × Slot} → last? (trim xs) ≡ some a → over_idle a ≡ false
  unfolding trim
  trim_lem [] h = absurd (ground arith)
  trim_lem (x ∷ xs) {a} h = step (trim xs) (λ e. trim_lem xs {a = a} e) h
    where
      step :
          (ys : List (T × Slot))
          → (last? ys ≡ some a → over_idle a ≡ false)
          → last? (trim_front x ys) ≡ some a
          → over_idle a ≡ false
      step [] ih h = ground arith
      step (y ∷ ys) ih h = ih h

module _ {T : Type 0} {lru : Lru T Slot} {P F : Type 0} where
  open lru use {
    items, capacity, pop_lru_capacity, pop_lru, peek_lru, peek_lru_lem, pop_lru_lem, pop_lru_items,
  }

  pub evict_one_items :
      (m : Subjects lru P F) (a : T × Slot)
      → last? (items m.cache) ≡ some a
      → items (evict_one m).cache ≡ init (items m.cache)
  unfolding evict_one
  evict_one_items m a e = rw (pop_lru_lem m.cache ∙ e, evict_one) (pop_lru_items m.cache)

  pub evict_one_settings :
      (m : Subjects lru P F)
      → ((evict_one m).subject_ttl ≡ m.subject_ttl)
        × ((evict_one m).activity_epoch ≡ m.activity_epoch)
        × (capacity (evict_one m).cache ≡ capacity m.cache)
  unfolding evict_one
  evict_one_settings m = ground (arith, pop_lru_capacity m.cache)

  evict_loop_items :
      (rounds tick : ℕ) (m : Subjects lru P F)
      → length (items m.cache) ≤ rounds
      → items (evict_loop rounds tick m).cache ≡ trim (idle_limit m) tick (items m.cache)
  unfolding evict_loop
  evict_loop_items zero tick m h =
      sym (trim-none _ _ (items m.cache) (last?-empty (items m.cache) h))
  evict_loop_items (suc rounds) tick m h = elim (Option-cases (last? (items m.cache))) [
    | inl e ↦ rw (peek_lru_lem m.cache ∙ e, evict_loop) (sym (trim-none _ _ _ e))
    | inr (a, e) ↦ elim (Bool-cases (over_idle (idle_limit m) tick a)) [
      | inl over ↦
          rw (peek_lru_lem m.cache ∙ e, evict_loop, over)
            (evict_loop_items rounds tick (evict_one m)
                (rw (evict_one_items m a e) (length-init-le (items m.cache) rounds h))
              ∙ rw ((evict_one_settings m).0, evict_one_items m a e)
                  (sym (trim_drops _ _ (items m.cache) a e over)))
      | inr within ↦
          rw (peek_lru_lem m.cache ∙ e, evict_loop, within) (sym (trim_keeps _ _ _ a e within))
    ]
  ]

  -- Eviction leaves exactly the items of the map without those at the end that have been idle for
  -- longer than the limit.
  pub evict_items :
      (tick : ℕ) (m : Subjects lru P F)
      → items (evict tick m).cache ≡ trim (idle_limit m) tick (items m.cache)
  unfolding evict
  evict_items tick m = evict_loop_items (length (items m.cache)) tick m (omega arith)
