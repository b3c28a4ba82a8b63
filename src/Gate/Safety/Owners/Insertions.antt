-- ===== src/Gate/Safety/Owners/Insertions.antt =====
-- A lookup or insertion in the map of src/gate.rs, and the subjects of the entries.
use policy_gate.Prelude.{
  ℕ, ◌≤◌, ◌<◌, ◌≡◌, ◌≢◌, ◌⊎◌, inl, inr, refl, sym, ◌∙◌, arith, Option, none, some, ◌==◌,
  if◌then◌else◌,
}
use policy_gate.Store.{Store}
use policy_gate.Lru.{Lru}
use policy_gate.Subjects.{Slot, get_or_insert_with}
use policy_gate.Subjects.Journeys.{get_or_insert_with-Goes, get_or_insert_with-made}
use policy_gate.Subjects.View.Operations.{view, Single, get_or_insert_with-view}
use policy_gate.Gate.{Gate, Lookup, with_subjects}
use policy_gate.Gate.Fetch.{new_fetch_after}
use policy_gate.Gate.Admit.{create}
use policy_gate.Gate.Safety.Origins.{Moves, moves}
use policy_gate.Gate.Safety.Origins.Admits.{create-Moves}
use policy_gate.Gate.Safety.Owners.{Extends, Follows}

-- Nothing.
abbrev pub Never : ℕ → Type 0
Never a = ⊥

module _ {T P : Type 0} where
  pub Moves-next :
      (Says : ℕ → Type 0) (s t : Store P (Lookup T P)) → Moves Says s t → s.next ≤ t.next
  unfolding Moves
  Moves-next Says s t moved = moved.0

  create-fresh :
      (subject : T) (now refresh_before : ℕ) (s : Store P (Lookup T P))
      → ((create subject now refresh_before s).1 ≡ s.next)
        × (s.next < (create subject now refresh_before s).0.next)
  unfolding create new_fetch_after
  create-fresh subject now refresh_before s = (refl, omega arith)

module _ {T : Type 0} where
  -- The owners once an entry is given to a subject.
  given : (ℕ → Option T) → ℕ → T → ℕ → Option T
  given own entry subject a = if entry == a then some subject else own a

module _ {T : Type 0} {lru : Lru T Slot} {P : Type 0} where
  found :
      (subject : T) (g h : Gate lru P) (entry : ℕ)
      → (Single g.subjects
          → Single h.subjects
            × (view h.subjects subject ≡ some entry)
            × ((k : T)
                → subject ≢ k
                → (view h.subjects k ≡ view g.subjects k) ⊎ (view h.subjects k ≡ none)))
      → h.snapshot ≡ g.snapshot
      → g.store.next ≤ h.store.next
      → (view g.subjects subject ≡ some entry) ⊎ ((g.store.next ≤ entry) × (entry < h.store.next))
      → Follows g h
  unfolding Follows given
  found subject g h entry less same more (inl had) own b =
      let s = less b.0 in
      (
        own,
        (λ a k o. o),
        (
          s.0,
          (λ k a e. elim (lru.dec subject k) [
            | yes p ↦ b.1 k a (rw (← p) (had ∙ sym (s.1) ∙ rw p e))
            | no p ↦ elim (s.2 k p) [
              | inl kept ↦ b.1 k a (sym kept ∙ e)
              | inr gone ↦ absurd (ground (arith, gone, e))
            ]
          ]),
          (λ k a e. b.2 k a (rw (← same) e)),
          (λ a k o. let before = b.3 a k o in omega (arith, before, more)),
        ),
      )
  found subject g h entry less same more (inr fresh) own b =
      let s = less b.0 in
      let more_own : Extends own (given own entry subject) =
        λ a k o. let before = b.3 a k o in ground (arith, before, fresh.0, o) in
      (
        given own entry subject,
        more_own,
        (
          s.0,
          (λ k a e. elim (lru.dec subject k) [
            | yes p ↦ let at : some entry ≡ some a = sym (s.1) ∙ rw p e in ground (arith, at, p)
            | no p ↦ elim (s.2 k p) [
              | inl kept ↦ more_own a k (b.1 k a (sym kept ∙ e))
              | inr gone ↦ absurd (ground (arith, gone, e))
            ]
          ]),
          (λ k a e. more_own a k (b.2 k a (rw (← same) e))),
          (λ a k o. let before = b.3 a k in ground (arith, before, more, fresh.1, o)),
        ),
      )

  found-Follows :
      (subject : T) (g h : Gate lru P) (entry : ℕ)
      → (Single g.subjects
          → Single h.subjects
            × (view h.subjects subject ≡ some entry)
            × ((k : T)
                → subject ≢ k
                → (view h.subjects k ≡ view g.subjects k) ⊎ (view h.subjects k ≡ none)))
      → h.snapshot ≡ g.snapshot
      → g.store.next ≤ h.store.next
      → (Single g.subjects
          → (view g.subjects subject ≡ some entry)
            ⊎ ((g.store.next ≤ entry) × (entry < h.store.next)))
      → Follows g h
  unfolding Follows
  found-Follows subject g h entry less same more either own b =
      found subject g h entry less same more (either (b.0)) own b

  pub inserted-Follows :
      (subject : T) (now : ℕ) (g : Gate lru P)
      → Follows g (
          with_subjects g
            (get_or_insert_with subject now
              (create subject now g.config.refresh_before_expiry)
              g.subjects).0)
  inserted-Follows subject now g =
      let make = create subject now g.config.refresh_before_expiry in
      let r = get_or_insert_with subject now make g.subjects in
      let h = with_subjects g r.0 in
      let more = Moves-next Never g.store r.0.store (
        get_or_insert_with-Goes (moves Never) subject now make g.subjects
          (create-Moves Never subject now g.config.refresh_before_expiry)) in
      let fresh : Single g.subjects
          → (view g.subjects subject ≡ some r.1) ⊎ ((g.store.next ≤ r.1) × (r.1 < h.store.next)) =
        λ single. elim ((get_or_insert_with-view subject now make g.subjects single).3) [
          | inl had ↦ inl (had.0)
          | inr absent ↦
              let (s, before, at, after) =
                get_or_insert_with-made (moves Never) subject now make g.subjects (absent.1) in
              let c = create-fresh subject now g.config.refresh_before_expiry s in
              let from = Moves-next Never g.store s before in
              let to = Moves-next Never (make s).0 r.0.store after in
              inr (omega (arith, at, c.0, from), omega (arith, at, c.0, c.1, to))
        ] in
      found-Follows subject g h r.1
        (λ single.
          let v = get_or_insert_with-view subject now make g.subjects single in (v.0, v.1, v.2))
        refl more fresh
