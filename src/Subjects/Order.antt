-- ===== src/Subjects/Order.antt =====
-- The order of the map's items by their last touch (src/gate.rs, `SubjectMap`), under each change
-- that the operations make to the list of items.
use policy_gate.Prelude.{
  ℕ, suc, ◌-◌, ◌≤◌, ◌≡◌, ◌≢◌, refl, arith, Option, none, some, List, [], ◌∷◌, length,
}
use policy_gate.Lru.{init, remove, find}
use policy_gate.Subjects.{Slot}
use policy_gate.Subjects.Eviction.{trim, trim_front}

module _ {ℓ} {T : Type ℓ} where
  -- The last touches fall along the list, and none is after `t`.
  abbrev pub IsOrdered : ℕ → List (T × Slot) → Type 0
  IsOrdered t [] = Unit {0}
  IsOrdered t (item ∷ items) = (item.1.last_touched ≤ t) × IsOrdered item.1.last_touched items

  pub IsOrdered-mono : (t u : ℕ) (xs : List (T × Slot)) → t ≤ u → IsOrdered t xs → IsOrdered u xs
  IsOrdered-mono t u [] h o = tt
  IsOrdered-mono t u (x ∷ xs) h o = (omega arith, o.1)

  pub init-IsOrdered : (t : ℕ) (xs : List (T × Slot)) → IsOrdered t xs → IsOrdered t (init xs)
  init-IsOrdered t [] o = tt
  init-IsOrdered t (x ∷ []) o = tt
  init-IsOrdered t (x ∷ y ∷ xs) o = (o.0, init-IsOrdered x.1.last_touched (y ∷ xs) o.1)

  -- Every item was touched within the limit.
  abbrev pub AllWithin : ℕ → ℕ → List (T × Slot) → Type 0
  AllWithin limit tick [] = Unit {0}
  AllWithin limit tick (item ∷ items) =
      (tick - item.1.last_touched ≤ limit) × AllWithin limit tick items

module _ {ℓ} {T : Type ℓ} (limit tick : ℕ) where
  trim_front-IsOrdered :
      (t : ℕ) (x : T × Slot) (ys : List (T × Slot))
      → x.1.last_touched ≤ t
      → IsOrdered x.1.last_touched ys
      → IsOrdered t (trim_front limit tick x ys)
  trim_front-IsOrdered t x [] h o = ground arith
  trim_front-IsOrdered t x (y ∷ ys) h o = (h, o)

  pub trim-IsOrdered :
      (t : ℕ) (xs : List (T × Slot)) → IsOrdered t xs → IsOrdered t (trim limit tick xs)
  unfolding trim
  trim-IsOrdered t [] o = tt
  trim-IsOrdered t (x ∷ xs) o =
      trim_front-IsOrdered t x (trim limit tick xs) o.0 (trim-IsOrdered x.1.last_touched xs o.1)

  trim_front-within :
      (x : T × Slot) (ys : List (T × Slot))
      → IsOrdered x.1.last_touched ys
      → AllWithin limit tick ys
      → AllWithin limit tick (trim_front limit tick x ys)
  trim_front-within x [] o w = ground arith
  trim_front-within x (y ∷ ys) o w = (omega arith, w)

  -- Trimming items that are in order leaves only items within the limit, not only at the end.
  pub trim-within :
      (t : ℕ) (xs : List (T × Slot)) → IsOrdered t xs → AllWithin limit tick (trim limit tick xs)
  unfolding trim
  trim-within t [] o = tt
  trim-within t (x ∷ xs) o =
      trim_front-within x (trim limit tick xs) (trim-IsOrdered x.1.last_touched xs o.1)
        (trim-within x.1.last_touched xs o.1)

  trim_front-length :
      (x : T × Slot) (ys : List (T × Slot)) → length (trim_front limit tick x ys) ≤ suc (length ys)
  trim_front-length x [] = ground arith
  trim_front-length x (y ∷ ys) = omega arith

  pub length-trim : (xs : List (T × Slot)) → length (trim limit tick xs) ≤ length xs
  unfolding trim
  length-trim [] = omega arith
  length-trim (x ∷ xs) = omega (arith, trim_front-length x (trim limit tick xs), length-trim xs)

  module _ (dec : Discrete T) (k : T) where
    find-trim_front :
        (x : T × Slot) (ys : List (T × Slot))
        → x.0 ≢ k
        → find dec k ys ≡ none
        → find dec k (trim_front limit tick x ys) ≡ none
    find-trim_front x [] h e = ground arith
    find-trim_front x (y ∷ ys) h e = ground arith

    -- A subject that is not in the map is not in it after trimming.
    pub find-trim :
        (xs : List (T × Slot)) → find dec k xs ≡ none → find dec k (trim limit tick xs) ≡ none
    unfolding trim
    find-trim [] e = refl
    find-trim (x ∷ xs) e = elim (dec x.0 k) [
      | yes p ↦ absurd (ground arith)
      | no p ↦ find-trim_front x (trim limit tick xs) p (find-trim xs (ground arith))
    ]

    found-trim_front :
        (x : T × Slot) (ys zs : List (T × Slot)) (slot : Slot)
        → (find dec k ys ≡ some slot → find dec k zs ≡ some slot)
        → find dec k (trim_front limit tick x ys) ≡ some slot
        → find dec k (x ∷ zs) ≡ some slot
    found-trim_front x [] zs slot rest e = ground arith
    found-trim_front x (y ∷ ys) zs slot rest e = ground (arith, rest)

    -- What is found after trimming was there before.
    pub found-trim :
        (xs : List (T × Slot)) (slot : Slot)
        → find dec k (trim limit tick xs) ≡ some slot
        → find dec k xs ≡ some slot
    unfolding trim
    found-trim [] slot e = e
    found-trim (x ∷ xs) slot e =
        found-trim_front x (trim limit tick xs) xs slot (found-trim xs slot) e

module _ {ℓ} {T : Type ℓ} (dec : Discrete T) (k : T) where
  pub remove-IsOrdered :
      (t : ℕ) (xs : List (T × Slot)) → IsOrdered t xs → IsOrdered t (remove dec k xs)
  remove-IsOrdered t [] o = tt
  remove-IsOrdered t (x ∷ xs) o =
      let rest = remove-IsOrdered x.1.last_touched xs o.1 in
      elim (dec x.0 k) as (λ d. IsOrdered t (elim d [ yes _ ↦ xs | no _ ↦ x ∷ remove dec k xs ])) [
        | yes p ↦ IsOrdered-mono x.1.last_touched t xs o.0 o.1
        | no p ↦ (o.0, rest)
      ]

  pub length-remove-le : (xs : List (T × Slot)) → length (remove dec k xs) ≤ length xs
  length-remove-le [] = omega arith
  length-remove-le (x ∷ xs) = ground (arith, length-remove-le xs)

  pub length-remove :
      (xs : List (T × Slot)) {slot : Slot}
      → find dec k xs ≡ some slot
      → suc (length (remove dec k xs)) ≤ length xs
  length-remove [] h = absurd (ground arith)
  length-remove (x ∷ xs) {slot} h =
      ground (arith, length-remove xs {slot = slot}, length-remove-le xs)

  pub find-le :
      (t : ℕ) (xs : List (T × Slot)) {slot : Slot}
      → IsOrdered t xs
      → find dec k xs ≡ some slot
      → slot.last_touched ≤ t
  find-le t [] o h = absurd (ground arith)
  find-le t (x ∷ xs) {slot} o h = elim (dec x.0 k) [
    | yes p ↦
        let same : ◌≡◌ {A = Option Slot} (some x.1) (some slot) = ground arith in
        let equal : x.1 ≡ slot = cc in rw (← equal) (o.0)
    | no p ↦
        let found : find dec k xs ≡ some slot = ground arith in
        omega (arith, find-le x.1.last_touched xs {slot = slot} o.1 found, o.0)
  ]
