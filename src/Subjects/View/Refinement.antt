-- ===== src/Subjects/View/Refinement.antt =====
-- What `SubjectMap` (src/gate.rs) promises, as steps between abstract views, and that its
-- operations keep the promise: a bounded map may forget a subject at any operation, but it never
-- makes an entry up, and never gives a subject another one's or another than it has.
use policy_gate.Prelude.{ℕ, ◌≡◌, ◌⊎◌, subst, arith, Bool, none, some, List, [], ◌∷◌}
use policy_gate.Store.{Store}
use policy_gate.Lru.{Lru}
use policy_gate.Subjects.{Slot, Subjects, new, get_or_insert_with}
use policy_gate.Subjects.History.{
  Op, lookup, renewal, decision, removal, judgement, clearing, outside, perform, perform_all,
}
use policy_gate.Subjects.View.{View, seen, Forgets, ForgetsBut}
use policy_gate.Subjects.View.Operations.{view, Single, get_or_insert_with-view}
use policy_gate.Subjects.View.Changes.{
  touch-view, update-view, remove-view, remove_if-view, clear_all-view,
}

-- No subject has an entry.
abbrev pub nothing : {T : Type 0} → View T
nothing k = none

module _ {T P F : Type 0} where
  -- A lookup finds the subject's entry or gives the subject one; a removal and a clear take
  -- entries; everything else only forgets.
  pub data Step : Op T P F → View T → View T → Type 0 where
    finds :
        (now : ℕ) (subject : T) (create : Store P F → Store P F × ℕ) (v w : View T) (entry : ℕ)
        → (v subject ≡ some entry) ⊎ (v subject ≡ none)
        → w subject ≡ some entry
        → ForgetsBut subject v w
        → Step (lookup now subject create) v w
    renews :
        (now : ℕ) (subject : T) (entry : ℕ) (v w : View T)
        → Forgets v w
        → Step (renewal now subject entry) v w
    decides :
        (now : ℕ) (subject : T) (change : ℕ → Store P F → Store P F) (v w : View T)
        → Forgets v w
        → Step (decision now subject change) v w
    removes :
        (now : ℕ) (subject : T) (v w : View T)
        → w subject ≡ none
        → Forgets v w
        → Step (removal now subject) v w
    judges :
        (now : ℕ) (subject : T) (predicate : ℕ → Store P F → Store P F × Bool) (v w : View T)
        → Forgets v w
        → Step (judgement now subject predicate) v w
    clears : (now : ℕ) (v w : View T) → ((k : T) → w k ≡ none) → Step (clearing now) v w
    stays : (now : ℕ) (method : Store P F → Store P F) (v : View T) → Step (outside now method) v v

  pub data Steps : List (Op T P F) → View T → View T → Type 0 where
    done : (v : View T) → Steps [] v v
    next :
        {op : Op T P F} {ops : List (Op T P F)} {u v w : View T}
        → Step op u v
        → Steps ops v w
        → Steps (op ∷ ops) u w

module _ {T : Type 0} {lru : Lru T Slot} {P F : Type 0} where
  perform-Step :
      (op : Op T P F) (m : Subjects lru P F)
      → Single m
      → Single (perform op m) × Step op (view m) (view (perform op m))
  unfolding perform
  perform-Step (lookup now subject create) m d =
      let r = get_or_insert_with-view subject now create m d in
      let entry = (get_or_insert_with subject now create m).1 in
      let was : (view m subject ≡ some entry) ⊎ (view m subject ≡ none) = ground (arith, r.3) in
      (r.0, finds now subject create (view m) _ entry was r.1 r.2)
  perform-Step (renewal now subject entry) m d =
      let r = touch-view subject entry now m d in (r.0, renews now subject entry (view m) _ r.1)
  perform-Step (decision now subject change) m d =
      let r = update-view subject now change m d in (r.0, decides now subject change (view m) _ r.1)
  perform-Step (removal now subject) m d =
      let r = remove-view subject now m d in (r.0, removes now subject (view m) _ r.1 r.2)
  perform-Step (judgement now subject predicate) m d =
      let r = remove_if-view subject now predicate m d in
      (r.0, judges now subject predicate (view m) _ r.2)
  perform-Step (clearing now) m d = let r = clear_all-view m in (r.0, clears now (view m) _ r.1)
  perform-Step (outside now method) m d = (d, stays now method (view m))

  perform_all-Steps_from :
      (ops : List (Op T P F)) (m : Subjects lru P F)
      → Single m
      → Steps ops (view m) (view (perform_all ops m))
  unfolding perform_all
  perform_all-Steps_from [] m d = done (view m)
  perform_all-Steps_from (op ∷ ops) m d =
      let r = perform-Step op m d in next r.1 (perform_all-Steps_from ops (perform op m) r.0)

-- Any sequence of operations on a new map, and of methods run through handles, is a run of the
-- abstract map from the empty view: the view afterwards is what the run ends in.
pub perform_all-Steps :
    {T : Type 0} (lru : Lru T Slot) (P F : Type 0) (ops : List (Op T P F))
    (max_subjects subject_ttl now : ℕ) (s : Store P F)
    → let m : Subjects lru P F = new max_subjects subject_ttl now s in
      Steps ops nothing (view (perform_all ops m))
unfolding new
perform_all-Steps {T = T} lru P F ops max_subjects subject_ttl now s =
    let m : Subjects lru P F = new max_subjects subject_ttl now s in
    let empty : lru.items m.cache ≡ [] = lru.items-new max_subjects in
    subst (λ (xs : List (T × Slot)). Steps ops (λ k. seen lru.dec xs k) (view (perform_all ops m)))
      empty (perform_all-Steps_from ops m (rw empty tt))
