-- ===== src/Subjects/View.antt =====
-- The abstract view of `SubjectMap` (src/gate.rs): which entry each subject has, without the order
-- of the items and their last touches.
pub mod Changes
pub mod Operations
pub mod Refinement
use policy_gate.Prelude.{
  ℕ, ◌-◌, ◌≡◌, ◌≢◌, ◌⊎◌, inl, inr, refl, sym, ◌∙◌, arith, Bool, true, false, Option, none, some,
  List, [], ◌∷◌, if◌then◌else◌, Option-cases,
}
use policy_gate.Lru.{init, find}
use policy_gate.Lru.{remove as remove_item}
use policy_gate.Subjects.{Slot, touched}
use policy_gate.Subjects.Eviction.{trim, trim_front, over_idle}
use policy_gate.Subjects.Order.{find-trim}

abbrev pub View : Type 0 → Type 0
View T = T → Option ℕ

-- A later view has nothing new: each subject has the entry that it had, or none.
abbrev pub Forgets : {T : Type 0} → View T → View T → Type 0
Forgets {T} v w = (k : T) → (w k ≡ v k) ⊎ (w k ≡ none)

-- The same for all subjects but one.
abbrev pub ForgetsBut : {T : Type 0} → T → View T → View T → Type 0
ForgetsBut {T} subject v w = (k : T) → subject ≢ k → (w k ≡ v k) ⊎ (w k ≡ none)

pub Forgets-trans : {T : Type 0} (u v w : View T) → Forgets u v → Forgets v w → Forgets u w
Forgets-trans u v w f g k = elim (g k) [
  | inl same ↦ elim (f k) [ inl before ↦ inl (same ∙ before) | inr gone ↦ inr (same ∙ gone) ]
  | inr gone ↦ inr gone
]

module _ {T : Type 0} (dec : Discrete T) where
  abbrev pub entry_of : Option Slot → Option ℕ
  entry_of none = none
  entry_of (some slot) = some slot.entry

  abbrev pub seen : List (T × Slot) → View T
  seen xs k = entry_of (find dec k xs)

  -- No subject is in two items.
  abbrev pub Distinct : List (T × Slot) → Type 0
  Distinct [] = Unit {0}
  Distinct (x ∷ xs) = (find dec x.0 xs ≡ none) × Distinct xs

  pub find-init :
      (k : T) (xs : List (T × Slot)) → find dec k xs ≡ none → find dec k (init xs) ≡ none
  find-init k [] e = refl
  find-init k (x ∷ []) e = refl
  find-init k (x ∷ y ∷ xs) e = ground (arith, find-init k (y ∷ xs))

  pub init-Distinct : (xs : List (T × Slot)) → Distinct xs → Distinct (init xs)
  init-Distinct [] d = tt
  init-Distinct (x ∷ []) d = tt
  init-Distinct (x ∷ y ∷ xs) d = (find-init x.0 (y ∷ xs) d.0, init-Distinct (y ∷ xs) d.1)

  pub init-Forgets : (xs : List (T × Slot)) → Forgets (seen xs) (seen (init xs))
  init-Forgets [] k = inl refl
  init-Forgets (x ∷ []) k = inr refl
  init-Forgets (x ∷ y ∷ xs) k = ground (arith, init-Forgets (y ∷ xs) k)

  find-remove :
      (j k : T) (xs : List (T × Slot)) → j ≢ k → find dec k (remove_item dec j xs) ≡ find dec k xs
  find-remove j k [] other = refl
  find-remove j k (x ∷ xs) other = ground (arith, find-remove j k xs)

  pub find-removed :
      (k : T) (xs : List (T × Slot)) → Distinct xs → find dec k (remove_item dec k xs) ≡ none
  find-removed k [] d = refl
  find-removed k (x ∷ xs) d = ground (arith, find-removed k xs)

  find-remove_none :
      (j k : T) (xs : List (T × Slot))
      → find dec k xs ≡ none
      → find dec k (remove_item dec j xs) ≡ none
  find-remove_none j k [] e = refl
  find-remove_none j k (x ∷ xs) e = ground (arith, find-remove_none j k xs)

  pub remove-Distinct :
      (k : T) (xs : List (T × Slot)) → Distinct xs → Distinct (remove_item dec k xs)
  remove-Distinct k [] d = tt
  remove-Distinct k (x ∷ xs) d =
      elim (dec x.0 k)
        as (λ d. Distinct (elim d [ yes _ ↦ xs | no _ ↦ x ∷ remove_item dec k xs ])) [
          | yes p ↦ d.1
          | no p ↦ (find-remove_none k x.0 xs d.0, remove-Distinct k xs d.1)
        ]

  pub remove-Forgets :
      (k : T) (xs : List (T × Slot)) → Distinct xs → Forgets (seen xs) (seen (remove_item dec k xs))
  remove-Forgets k xs d j = elim (dec k j) [
    | yes p ↦ inr (rw (← p, find-removed k xs d) refl)
    | no p ↦ inl (rw (find-remove k j xs p) refl)
  ]

  -- A renewed item leaves the view as it was.
  pub renewed-seen :
      (k : T) (tick : ℕ) (xs : List (T × Slot)) (slot : Slot)
      → find dec k xs ≡ some slot
      → (j : T) → seen ((k, touched tick slot) ∷ remove_item dec k xs) j ≡ seen xs j
  unfolding touched
  renewed-seen k tick xs slot e j = ground (arith, find-remove k j xs)

  module _ (limit tick : ℕ) where
    trim_front-Distinct :
        (x : T × Slot) (ys : List (T × Slot))
        → find dec x.0 ys ≡ none
        → Distinct ys
        → Distinct (trim_front limit tick x ys)
    trim_front-Distinct x [] e d = ground arith
    trim_front-Distinct x (y ∷ ys) e d = (e, d)

    pub trim-Distinct : (xs : List (T × Slot)) → Distinct xs → Distinct (trim limit tick xs)
    unfolding trim
    trim-Distinct [] d = tt
    trim-Distinct (x ∷ xs) d =
        trim_front-Distinct x (trim limit tick xs) (find-trim limit tick dec x.0 xs d.0)
          (trim-Distinct xs d.1)

    trim_front-Forgets :
        (x : T × Slot) (ys zs : List (T × Slot)) (k : T)
        → (seen zs k ≡ seen ys k) ⊎ (seen zs k ≡ none)
        → (seen (trim_front limit tick x zs) k ≡ seen (x ∷ ys) k)
          ⊎ (seen (trim_front limit tick x zs) k ≡ none)
    trim_front-Forgets x ys [] k h = ground (arith, h)
    trim_front-Forgets x ys (z ∷ zs) k h = ground (arith, h)

    pub trim-Forgets : (xs : List (T × Slot)) → Forgets (seen xs) (seen (trim limit tick xs))
    unfolding trim
    trim-Forgets [] k = inl refl
    trim-Forgets (x ∷ xs) k = trim_front-Forgets x xs (trim limit tick xs) k (trim-Forgets xs k)

    -- An item in front that has just been touched stays.
    pub trim-front :
        (x : T × Slot) (xs : List (T × Slot))
        → over_idle limit tick x ≡ false
        → seen (trim limit tick (x ∷ xs)) x.0 ≡ some x.1.entry
    unfolding trim
    trim-front x xs fresh = front (trim limit tick xs)
      where
        front : (ys : List (T × Slot)) → seen (trim_front limit tick x ys) x.0 ≡ some x.1.entry
        front [] = ground arith
        front (y ∷ ys) = ground arith
