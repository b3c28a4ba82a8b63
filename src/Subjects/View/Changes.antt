-- ===== src/Subjects/View/Changes.antt =====
-- The operations of `SubjectMap` (src/gate.rs) that give no subject an entry, on the abstract view.
use policy_gate.Prelude.{
  ℕ, ◌≡◌, inl, inr, refl, arith, Bool, true, none, Option-cases, Bool-cases, if_branches,
}
use policy_gate.Store.{Store}
use policy_gate.Lru.{Lru, find}
use policy_gate.Subjects.{
  Slot, Subjects, touched, tick_of, evict, touch, update, pop_subject, remove, remove_if,
  with_cache, matches, clear_all,
}
use policy_gate.Subjects.View.{
  Forgets, Forgets-trans, Distinct, seen, find-removed, remove-Distinct, remove-Forgets,
  renewed-seen,
}
use policy_gate.Subjects.View.Operations.{Single, evict-view, view}

module _ {T : Type 0} {lru : Lru T Slot} {P F : Type 0} where
  open lru use {dec, items, peek, get_mut, push, pop}

  renewed-view :
      (subject : T) (tick : ℕ) (m : Subjects lru P F)
      → Single m
      → let after = with_cache m (get_mut subject (touched tick) m.cache) in
        Single after × Forgets (view m) (view after)
  renewed-view subject tick m d = elim (Option-cases (find dec subject (items m.cache))) [
    | inl absent ↦
        rw (lru.get_mut_miss subject (touched tick) m.cache absent, with_cache) (d, λ k. inl refl)
    | inr (slot, found) ↦
        let (after, hit, listed, kept) =
          lru.get_mut_hit subject (touched tick) m.cache slot found in
        rw (hit, with_cache, listed)
          (
            (
              find-removed dec subject (items m.cache) d,
              remove-Distinct dec subject (items m.cache) d,
            ),
            λ k. inl (renewed-seen dec subject tick (items m.cache) slot found k),
          )
  ]

  -- A touch gives no subject an entry or another one.
  pub touch-view :
      (subject : T) (entry now : ℕ) (m : Subjects lru P F)
      → Single m
      → let after = (touch subject entry now m).0 in Single after × Forgets (view m) (view after)
  unfolding touch
  touch-view subject entry now m d =
      let tick = tick_of m now in
      let renewed = with_cache m (get_mut subject (touched tick) m.cache) in
      let r = renewed-view subject tick m d in
      let e = evict-view tick renewed r.0 in
      if_branches (λ (r : Subjects lru P F × Bool). Single r.0 × Forgets (view m) (view r.0))
        (matches m subject entry) (λ same. (e.0, Forgets-trans (view m) (view renewed) _ r.1 e.1))
        (λ other. evict-view tick m d)

  -- Neither does a change of an entry.
  pub update-view :
      (subject : T) (now : ℕ) (change : ℕ → Store P F → Store P F) (m : Subjects lru P F)
      → Single m
      → let after = update subject now change m in Single after × Forgets (view m) (view after)
  unfolding update
  update-view subject now change m d =
      let tick = tick_of m now in
      let e = evict-view tick m d in
      elim (Option-cases (peek subject (evict tick m).cache)) [
        | inl absent ↦ rw (absent, update) e
        | inr (slot, found) ↦ rw (found, update) e
      ]

  pop_subject-view :
      (subject : T) (m : Subjects lru P F)
      → Single m
      → let after = (pop_subject subject m).0 in
        Single after × (view after subject ≡ none) × Forgets (view m) (view after)
  unfolding pop_subject
  pop_subject-view subject m d =
      let gone : Distinct dec (items (pop subject m.cache).1)
          × (seen dec (items (pop subject m.cache).1) subject ≡ none)
          × Forgets (view m) (seen dec (items (pop subject m.cache).1)) =
        rw (lru.pop_items subject m.cache) (
          remove-Distinct dec subject (items m.cache) d,
          rw (find-removed dec subject (items m.cache) d) refl,
          remove-Forgets dec subject (items m.cache) d,
        ) in
      elim (Option-cases (pop subject m.cache).0) [
        | inl absent ↦ rw (absent, pop_subject) gone
        | inr (slot, found) ↦ rw (found, pop_subject) gone
      ]

  -- A removal takes the subject's entry, and gives no subject an entry.
  pub remove-view :
      (subject : T) (now : ℕ) (m : Subjects lru P F)
      → Single m
      → let after = (remove subject now m).0 in
        Single after × (view after subject ≡ none) × Forgets (view m) (view after)
  unfolding remove
  remove-view subject now m d =
      let kept = evict (tick_of m now) m in
      let e = evict-view (tick_of m now) m d in
      let p = pop_subject-view subject kept e.0 in
      (p.0, p.1, Forgets-trans (view m) (view kept) _ e.1 p.2)

  -- A conditional removal gives no subject an entry, and takes the subject's where it says so.
  pub remove_if-view :
      (subject : T) (now : ℕ) (predicate : ℕ → Store P F → Store P F × Bool) (m : Subjects lru P F)
      → Single m
      → let r = remove_if subject now predicate m in
        Single r.0 × (r.1 ≡ true → view r.0 subject ≡ none) × Forgets (view m) (view r.0)
  unfolding remove_if
  remove_if-view subject now predicate m d =
      let kept = evict (tick_of m now) m in
      let e = evict-view (tick_of m now) m d in
      elim (Option-cases (peek subject kept.cache)) [
        | inl absent ↦ rw (absent, remove_if) (e.0, λ h. absurd (ground arith), e.1)
        | inr (slot, found) ↦
            let r = predicate slot.entry kept.store in
            let judged : Subjects lru P F = record kept { store = r.0 } in
            let p = pop_subject-view subject judged e.0 in
            elim (Bool-cases r.1) [
              | inl gone ↦
                  rw (found, remove_if, gone)
                    (p.0, λ h. p.1, Forgets-trans (view m) (view kept) _ e.1 p.2)
              | inr stays ↦ rw (found, remove_if, stays) (e.0, λ h. absurd (ground arith), e.1)
            ]
      ]

  -- A clear leaves no subject an entry.
  pub clear_all-view :
      (m : Subjects lru P F) → Single (clear_all m) × ((k : T) → view (clear_all m) k ≡ none)
  unfolding clear_all
  clear_all-view m = rw (lru.clear_items m.cache) (tt, λ k. refl)
