-- ===== src/Gate/Safety/Owners.antt =====
-- Whose an entry of src/gate.rs is: the subjects that the map and the published snapshot have it for.
pub mod Insertions
pub mod Fetches
pub mod Operations
pub mod Admits
pub mod Histories
use policy_gate.Prelude.{
  ℕ, suc, ◌+◌, ◌≤◌, ◌<◌, ◌≡◌, ◌⊎◌, inl, inr, refl, sym, ◌∙◌, arith, Bool, true, false, not, ◌||◌,
  Option, none, some, List, [], ◌∷◌, map, is_some, Option-cases, Bool-cases, ◌==◌, if◌then◌else◌,
}
use policy_gate.Store.{Store}
use policy_gate.Lru.{Lru, find}
use policy_gate.Subjects.{Slot, Subjects, visited}
use policy_gate.Subjects.View.{View, Forgets, seen}
use policy_gate.Subjects.View.Operations.{view, Single}
use policy_gate.Gate.Publish.{republish_kept}
use policy_gate.Gate.{
  Gate, Lookup, with_subjects, dirty_if, republish_if_due, claim_republish, copy_map,
  store_republish, published,
}

-- The copy of a list of items has each subject's entry.
find-visited :
    {T : Type 0} (dec : Discrete T) (k : T) (xs : List (T × Slot))
    → find dec k (map (λ (item : T × Slot). (item.0, item.1.entry)) xs) ≡ seen dec xs k
find-visited dec k [] = refl
find-visited dec k (x ∷ xs) = ground (arith, find-visited dec k xs)

abbrev pub Extends : {T : Type 0} → (ℕ → Option T) → (ℕ → Option T) → Type 0
Extends {T} own later = (a : ℕ) (k : T) → own a ≡ some k → later a ≡ some k

module _ {T : Type 0} {lru : Lru T Slot} {P : Type 0} where
  -- `own` names the subject of each entry of the map and of the snapshot; it knows of no address that
  -- is still to be given out.
  abbrev pub Binds : (ℕ → Option T) → Gate lru P → Type 0
  Binds own g =
      Single g.subjects
      × ((k : T) (a : ℕ) → view g.subjects k ≡ some a → own a ≡ some k)
      × ((k : T) (a : ℕ) → published g k ≡ some a → own a ≡ some k)
      × ((a : ℕ) (k : T) → own a ≡ some k → a < g.store.next)

  -- From `g` to `h`, the subjects of the entries stay, and new entries get theirs.
  unfoldable pub Follows : Gate lru P → Gate lru P → Type 0
  Follows g h =
      (own : ℕ → Option T)
      → Binds own g
      → (later : ℕ → Option T) × Extends own later × Binds later h

  pub joins : (g h j : Gate lru P) → Follows g h → Follows h j → Follows g j
  unfolding Follows
  joins g h j f e own b =
      let (mid, more, bound) = f own b in
      let (later, still, ends) = e mid bound in (later, (λ a k o. still a k (more a k o)), ends)

  -- A step after which the map and the snapshot have no entry that the map or the snapshot did not
  -- have for the same subject.
  unfoldable pub Sheds : Gate lru P → Gate lru P → Type 0
  Sheds g h =
      Single g.subjects
      → Single h.subjects
        × ((k : T) (a : ℕ) → view h.subjects k ≡ some a → view g.subjects k ≡ some a)
        × ((k : T) (a : ℕ)
            → published h k ≡ some a
            → (view g.subjects k ≡ some a) ⊎ (published g k ≡ some a))

  pub chains : (g h j : Gate lru P) → Sheds g h → Sheds h j → Sheds g j
  unfolding Sheds
  chains g h j f e single =
      let s = f single in
      let t = e s.0 in
      (
        t.0,
        (λ k a had. s.1 k a (t.1 k a had)),
        (λ k a had. elim (t.2 k a had) [
          | inl mapped ↦ inl (s.1 k a mapped)
          | inr shown ↦ s.2 k a shown
        ]),
      )

  -- A step that only forgets.
  pub shrinks :
      (g h : Gate lru P)
      → (Single g.subjects → Single h.subjects × Forgets (view g.subjects) (view h.subjects))
      → h.snapshot ≡ g.snapshot
      → Sheds g h
  unfolding Sheds
  shrinks g h less same single =
      let s = less single in
      (
        s.0,
        (λ k a e. elim (s.1 k) [
          | inl kept ↦ sym kept ∙ e
          | inr gone ↦ absurd (ground (arith, gone, e))
        ]),
        (λ k a e. inr (rw (← same) e)),
      )

  -- A step that leaves the map and the snapshot.
  pub rests : (g h : Gate lru P) → h.cache ≡ g.cache → h.snapshot ≡ g.snapshot → Sheds g h
  rests g h cached same = shrinks g h (λ single. rw cached (single, λ k. inl refl)) same

  pub follows : (g h : Gate lru P) → Sheds g h → g.store.next ≤ h.store.next → Follows g h
  unfolding Follows Sheds
  follows g h sheds more own b =
      let s = sheds b.0 in
      (
        own,
        (λ a k o. o),
        (
          s.0,
          (λ k a e. b.1 k a (s.1 k a e)),
          (λ k a e. elim (s.2 k a e) [ inl mapped ↦ b.1 k a mapped | inr shown ↦ b.2 k a shown ]),
          (λ a k o. let before = b.3 a k o in omega (arith, before, more)),
        ),
      )

  -- What a republish does to the snapshot.
  republish_either :
      (now : ℕ) (g : Gate lru P)
      → ((republish_if_due now g).snapshot ≡ g.snapshot)
        ⊎ ((republish_if_due now g).snapshot ≡ visited g.subjects)
  unfolding republish_if_due claim_republish copy_map store_republish visited
  republish_either now g = ground arith

  pub republish-Sheds : (now : ℕ) (g : Gate lru P) → Sheds g (republish_if_due now g)
  unfolding Sheds visited
  republish-Sheds now g single =
      let kept = republish_kept now g in
      let shown : (k : T) (a : ℕ)
          → published (republish_if_due now g) k ≡ some a
          → (view g.subjects k ≡ some a) ⊎ (published g k ≡ some a) =
        λ k a e. elim (republish_either now g) [
          | inl same ↦ inr (rw (← same) e)
          | inr copied ↦ inl (sym (find-visited lru.dec k (lru.items g.cache)) ∙ rw (← copied) e)
        ] in
      (rw (kept.6) single, rw (kept.6) (λ k a e. e), shown)

  pub dirty_if-Sheds : (raised : Bool) (g : Gate lru P) → Sheds g (dirty_if raised g)
  dirty_if-Sheds true g = rests g (dirty_if true g) refl refl
  dirty_if-Sheds false g = rests g g refl refl
