-- ===== src/Subjects/History.antt =====
-- Whole histories of `SubjectMap` (src/gate.rs): any sequence of its operations, in the order in
-- which they take the map's lock.
use policy_gate.Prelude.{
  ℕ, ◌≤◌, ◌≡◌, refl, ◌∙◌, arith, Bool, Option, none, some, List, [], ◌∷◌, subst, Bool-cases,
  Option-cases, inl, inr,
}
use policy_gate.Store.{Store}
use policy_gate.Lru.{Lru}
use policy_gate.Subjects.{
  Slot, Subjects, activity_tick, evict, tick_of, get_or_insert_with, touch, update, remove,
  remove_if, clear_all, insert_new, drop_evicted, pop_subject, matches, with_cache, touched,
}
use policy_gate.Subjects.Invariant.{Inv, Inv-mono, evict_settings}
use policy_gate.Subjects.Invariant.Operations.{
  get_or_insert_with-Inv, touch-Inv, update-Inv, remove-Inv, remove_if-Inv, clear_all-Inv,
}

-- An operation, with the instant that it reads and what its caller passes; or a method that runs
-- on an entry `outside` the lock, through a handle.
pub data Op (T P F : Type 0) : Type 0 where
  lookup : ℕ → T → (Store P F → Store P F × ℕ) → Op T P F
  renewal : ℕ → T → ℕ → Op T P F
  decision : ℕ → T → (ℕ → Store P F → Store P F) → Op T P F
  removal : ℕ → T → Op T P F
  judgement : ℕ → T → (ℕ → Store P F → Store P F × Bool) → Op T P F
  clearing : ℕ → Op T P F
  outside : ℕ → (Store P F → Store P F) → Op T P F

module _ {T P F : Type 0} where
  abbrev pub instant : Op T P F → ℕ
  instant (lookup now subject create) = now
  instant (renewal now subject entry) = now
  instant (decision now subject change) = now
  instant (removal now subject) = now
  instant (judgement now subject predicate) = now
  instant (clearing now) = now
  instant (outside now method) = now

  -- The ticks of the operations rise from `t`.
  abbrev pub Rising : ℕ → ℕ → List (Op T P F) → Type 0
  Rising epoch t [] = Unit {0}
  Rising epoch t (op ∷ ops) =
      (t ≤ activity_tick epoch (instant op)) × Rising epoch (activity_tick epoch (instant op)) ops

  -- The tick of the last operation.
  abbrev pub last_tick : ℕ → ℕ → List (Op T P F) → ℕ
  last_tick epoch t [] = t
  last_tick epoch t (op ∷ ops) = last_tick epoch (activity_tick epoch (instant op)) ops

module _ {T : Type 0} {lru : Lru T Slot} {P F : Type 0} where
  unfoldable pub perform : Op T P F → Subjects lru P F → Subjects lru P F
  perform (lookup now subject create) m = (get_or_insert_with subject now create m).0
  perform (renewal now subject entry) m = (touch subject entry now m).0
  perform (decision now subject change) m = update subject now change m
  perform (removal now subject) m = (remove subject now m).0
  perform (judgement now subject predicate) m = (remove_if subject now predicate m).0
  perform (clearing now) m = clear_all m
  perform (outside now method) m = record m { store = method m.store }

  unfoldable pub perform_all : List (Op T P F) → Subjects lru P F → Subjects lru P F
  perform_all [] m = m
  perform_all (op ∷ ops) m = perform_all ops (perform op m)

  drop_evicted_epoch :
      (o : Option (T × Slot)) (m : Subjects lru P F)
      → (drop_evicted o m).activity_epoch ≡ m.activity_epoch
  unfolding drop_evicted
  drop_evicted_epoch none m = refl
  drop_evicted_epoch (some x) m = refl

  insert_new_epoch :
      (subject : T) (tick : ℕ) (create : Store P F → Store P F × ℕ) (m : Subjects lru P F)
      → (insert_new subject tick create m).0.activity_epoch ≡ m.activity_epoch
  unfolding insert_new
  insert_new_epoch subject tick create m =
      (evict_settings tick _).1 ∙ drop_evicted_epoch (lru.push subject _ m.cache).0 _

  with_cache_epoch :
      (o : Option (Slot × lru.Cache)) (m : Subjects lru P F)
      → (with_cache m o).activity_epoch ≡ m.activity_epoch
  with_cache_epoch none m = refl
  with_cache_epoch (some x) m = refl

  lookup_epoch :
      (now : ℕ) (subject : T) (create : Store P F → Store P F × ℕ) (m : Subjects lru P F)
      → (get_or_insert_with subject now create m).0.activity_epoch ≡ m.activity_epoch
  unfolding get_or_insert_with
  lookup_epoch now subject create m =
      let tick = tick_of m now in
      elim (Option-cases (lru.get_mut subject (touched tick) m.cache)) [
        | inl missed ↦
            rw (missed, get_or_insert_with)
              (insert_new_epoch subject tick create (evict tick m) ∙ (evict_settings tick m).1)
        | inr ((slot, cache), hit) ↦
            rw (hit, get_or_insert_with) (evict_settings tick (record m { cache = cache })).1
      ]

  touch_epoch :
      (now : ℕ) (subject : T) (entry : ℕ) (m : Subjects lru P F)
      → (touch subject entry now m).0.activity_epoch ≡ m.activity_epoch
  unfolding touch
  touch_epoch now subject entry m =
      let tick = tick_of m now in
      let renewed = lru.get_mut subject (touched tick) m.cache in
      elim (Bool-cases (matches m subject entry)) [
        | inl same ↦
            rw (same, touch)
              ((evict_settings tick (with_cache m renewed)).1 ∙ with_cache_epoch renewed m)
        | inr other ↦ rw (other, touch) (evict_settings tick m).1
      ]

  perform_epoch :
      (op : Op T P F) (m : Subjects lru P F) → (perform op m).activity_epoch ≡ m.activity_epoch
  unfolding perform update remove remove_if pop_subject clear_all
  perform_epoch (lookup now subject create) m = lookup_epoch now subject create m
  perform_epoch (renewal now subject entry) m = touch_epoch now subject entry m
  perform_epoch (decision now subject change) m = ground (arith, evict_settings (tick_of m now) m)
  perform_epoch (removal now subject) m = ground (arith, evict_settings (tick_of m now) m)
  perform_epoch (judgement now subject predicate) m =
      ground (arith, evict_settings (tick_of m now) m)
  perform_epoch (clearing now) m = refl
  perform_epoch (outside now method) m = refl

  perform-Inv :
      (t : ℕ) (op : Op T P F) (m : Subjects lru P F)
      → t ≤ activity_tick m.activity_epoch (instant op)
      → Inv t m
      → Inv (activity_tick m.activity_epoch (instant op)) (perform op m)
  unfolding perform
  perform-Inv t (lookup now subject create) m h v =
      get_or_insert_with-Inv t now subject create m h v
  perform-Inv t (renewal now subject entry) m h v = touch-Inv t now subject entry m h v
  perform-Inv t (decision now subject change) m h v = update-Inv t now subject change m h v
  perform-Inv t (removal now subject) m h v = remove-Inv t now subject m h v
  perform-Inv t (judgement now subject predicate) m h v =
      remove_if-Inv t now subject predicate m h v
  perform-Inv t (clearing now) m h v =
      Inv-mono t (activity_tick m.activity_epoch now) (clear_all m) h (clear_all-Inv t m v)
  perform-Inv t (outside now method) m h v =
      let w = Inv-mono t (activity_tick m.activity_epoch now) m h v in
      record { ordered = w.ordered; bounded = w.bounded; positive = w.positive }

  -- The same, with the epoch that all operations keep.
  perform_all-Inv_from :
      (epoch t : ℕ) (ops : List (Op T P F)) (m : Subjects lru P F)
      → m.activity_epoch ≡ epoch
      → Rising epoch t ops
      → Inv t m
      → Inv (last_tick epoch t ops) (perform_all ops m)
  unfolding perform_all
  perform_all-Inv_from epoch t [] m e h v = v
  perform_all-Inv_from epoch t (op ∷ ops) m e h v =
      perform_all-Inv_from epoch (activity_tick epoch (instant op)) ops (perform op m)
        (perform_epoch op m ∙ e) h.1
        (subst (λ n. Inv (activity_tick n (instant op)) (perform op m)) e
          (perform-Inv t op m (rw e h.0) v))

  -- After any sequence of operations at rising ticks, the map's subjects are in the order of
  -- their last touch and no more than its capacity, if that held before.
  pub perform_all-Inv :
      (t : ℕ) (ops : List (Op T P F)) (m : Subjects lru P F)
      → Rising m.activity_epoch t ops
      → Inv t m
      → Inv (last_tick m.activity_epoch t ops) (perform_all ops m)
  perform_all-Inv t ops m h v = perform_all-Inv_from m.activity_epoch t ops m refl h v
