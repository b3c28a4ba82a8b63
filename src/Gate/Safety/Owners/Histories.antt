-- ===== src/Gate/Safety/Owners/Histories.antt =====
-- Whole histories of a gate, src/gate.rs, and the subjects of its entries.
use policy_gate.Prelude.{
  ℕ, ◌≡◌, ◌⊎◌, inl, inr, refl, sym, ap, ◌∙◌, arith, true, Option, none, some, List, [], ◌∷◌,
}
use policy_gate.Decision.{Decision}
use policy_gate.Config.{Config}
use policy_gate.Store.{no_memory}
use policy_gate.Lru.{Lru}
use policy_gate.Subjects.{Slot, new as new_subjects}
use policy_gate.Subjects.View.Operations.{view}
use policy_gate.Admission.{is_allowed}
use policy_gate.Gate.{Gate, new, published}
use policy_gate.Gate.Watch.{watch_stable}
use policy_gate.Gate.Safety.Events.{
  Event, admits, settles, checks, checks_only, refreshes, claims, queued, cancels, fetched,
  connects, stabilises, disconnects, drops, changes, observes, reads, invalidates, react, react_all,
  IsKnown, AllKnown,
}
use policy_gate.Gate.Safety.Origins.Fetches.{Allows}
use policy_gate.Gate.Safety.Origins.Histories.{Says, Said, react-Moves, is_allowed-Said}
use policy_gate.Gate.Safety.Owners.{Binds, Follows, joins, rests, follows}
use policy_gate.Gate.Safety.Owners.Insertions.{Moves-next}
use policy_gate.Gate.Safety.Owners.Operations.{
  release-Sheds, claim-Sheds, enqueued-Sheds, check-Sheds, check_without_refresh-Sheds,
  refresh_entry-Sheds,
}
use policy_gate.Gate.Safety.Owners.Fetches.{
  run_fetch-Sheds, apply_change-Sheds, watch_connected-Sheds, watch_disconnected-Sheds,
  drop_watcher-Sheds,
}
use policy_gate.Gate.Safety.Owners.Admits.{connect-Follows, settle-Sheds}

module _ {T P : Type 0} where
  -- What a step grants a subject with this entry: a lookup of the entry is answered with an allowing
  -- decision, or a change for the subject has one.
  abbrev pub Grants : Event T P → T → ℕ → Type 0
  Grants (fetched fetch alive now at reply) subject entry =
      (fetch.future.entry ≡ entry) × Allows reply
  Grants (changes change now made_at later) subject entry =
      (change.subject ≡ subject) × (change.decision ≡ some Decision.allowed)
  Grants _ subject entry = ⊥

  abbrev pub Granted : List (Event T P) → T → ℕ → Type 0
  Granted [] subject entry = ⊥
  Granted (event ∷ events) subject entry = Grants event subject entry ⊎ Granted events subject entry

module _ {T : Type 0} {lru : Lru T Slot} {P : Type 0} where
  react-Follows : (event : Event T P) (g : Gate lru P) → IsKnown event g → Follows g (react event g)
  unfolding react watch_stable
  react-Follows (admits call now checked later) g k = connect-Follows call now checked later g
  react-Follows (settles call entry wakeup now later) g k =
      follows g _ (settle-Sheds call entry wakeup now later g)
        (Moves-next _ g.store _ (react-Moves (settles call entry wakeup now later) g k))
  react-Follows (checks subject now touched_at verdict access_time) g k =
      follows g _ (check-Sheds subject now touched_at verdict access_time g) (
        Moves-next _ g.store _
          (react-Moves (checks subject now touched_at verdict access_time) g k))
  react-Follows (checks_only subject now touched_at verdict) g k =
      follows g _ (check_without_refresh-Sheds subject now touched_at verdict g)
        (Moves-next _ g.store _ (react-Moves (checks_only subject now touched_at verdict) g k))
  react-Follows (refreshes subject entry touched_at verdict access_time) g k =
      follows g _ (refresh_entry-Sheds subject entry touched_at verdict access_time g) (
        Moves-next _ g.store _
          (react-Moves (refreshes subject entry touched_at verdict access_time) g k))
  react-Follows (claims subject entry current deadline now last) g k =
      follows g _ (claim-Sheds subject entry current deadline now last g)
        (Moves-next _ g.store _ (react-Moves (claims subject entry current deadline now last) g k))
  react-Follows (queued entry fetch taken now) g k =
      follows g _ (enqueued-Sheds entry fetch taken now g)
        (Moves-next _ g.store _ (react-Moves (queued entry fetch taken now) g k))
  react-Follows (cancels entry fetch) g k =
      follows g _ (release-Sheds entry fetch.generation g)
        (Moves-next _ g.store _ (react-Moves (cancels entry fetch) g k))
  react-Follows (fetched fetch alive now at reply) g k =
      follows g _ (run_fetch-Sheds fetch alive now at reply g)
        (Moves-next _ g.store _ (react-Moves (fetched fetch alive now at reply) g k))
  react-Follows connects g k =
      follows g _ (watch_connected-Sheds g) (Moves-next _ g.store _ (react-Moves connects g k))
  react-Follows stabilises g k = follows g _ (rests g _ refl refl) (omega arith)
  react-Follows (disconnects now) g k =
      follows g _ (watch_disconnected-Sheds now g)
        (Moves-next _ g.store _ (react-Moves (disconnects now) g k))
  react-Follows (drops now) g k =
      follows g _ (drop_watcher-Sheds now g) (Moves-next _ g.store _ (react-Moves (drops now) g k))
  react-Follows (changes change now made_at later) g k =
      follows g _ (apply_change-Sheds change now made_at later g)
        (Moves-next _ g.store _ (react-Moves (changes change now made_at later) g k))
  react-Follows (observes entry now) g k =
      follows g _ (rests g _ refl refl)
        (Moves-next _ g.store _ (react-Moves (observes entry now) g k))
  react-Follows (reads entry now) g k =
      follows g _ (rests g _ refl refl) (Moves-next _ g.store _ (react-Moves (reads entry now) g k))
  react-Follows (invalidates entry) g k =
      follows g _ (rests g _ refl refl)
        (Moves-next _ g.store _ (react-Moves (invalidates entry) g k))

  react_all-Follows :
      (events : List (Event T P)) (g : Gate lru P)
      → AllKnown events g
      → Follows g (react_all events g)
  unfolding react_all
  react_all-Follows [] g k = follows g g (rests g g refl refl) (omega arith)
  react_all-Follows (event ∷ events) g k =
      joins g (react event g) _ (react-Follows event g k.0)
        (react_all-Follows events (react event g) k.1)

  -- The gate gives the subject this entry, from its map or from the published snapshot.
  abbrev pub Gives : Gate lru P → T → ℕ → Type 0
  Gives g subject entry =
      (view g.subjects subject ≡ some entry) ⊎ (published g subject ≡ some entry)

  Gives-owner :
      (own : ℕ → Option T) (g : Gate lru P) (subject : T) (entry : ℕ)
      → Binds own g
      → Gives g subject entry
      → own entry ≡ some subject
  Gives-owner own g subject entry b (inl mapped) = b.1 subject entry mapped
  Gives-owner own g subject entry b (inr shown) = b.2 subject entry shown

  -- An entry that the gate gives a subject at the end was no other subject's at the start.
  Gives-same :
      (own : ℕ → Option T) (g h : Gate lru P) (j k : T) (entry : ℕ)
      → Binds own g
      → Follows g h
      → Gives g j entry
      → Gives h k entry
      → j ≡ k
  unfolding Follows
  Gives-same own g h j k entry b f before after =
      let (later, more, bound) = f own b in
      let first = more entry j (Gives-owner own g j entry b before) in
      let last = Gives-owner later h k entry bound after in
      let both : some j ≡ some k = sym first ∙ last in ground (arith, both)

  Says-Grants :
      (event : Event T P) (events : List (Event T P)) (own : ℕ → Option T) (g : Gate lru P)
      (subject : T) (entry : ℕ)
      → Binds own g
      → AllKnown (event ∷ events) g
      → Gives (react_all (event ∷ events) g) subject entry
      → Says event g entry
      → Grants event subject entry
  Says-Grants (fetched fetch alive now at reply) events own g subject entry b k gives says = says
  Says-Grants (changes change now made_at later) events own g subject entry b k gives
        (slot, found, same, allowed) =
      (
        Gives-same own g _ change.subject subject entry b
            (react_all-Follows (changes change now made_at later ∷ events) g k)
            (inl (rw found (ap some same))) gives,
        allowed,
      )
  Says-Grants _ events own g subject entry b k gives says = says

  Said-Granted :
      (events : List (Event T P)) (own : ℕ → Option T) (g : Gate lru P) (subject : T) (entry : ℕ)
      → Binds own g
      → AllKnown events g
      → Gives (react_all events g) subject entry
      → Said events g entry
      → Granted events subject entry
  unfolding Follows react_all
  Said-Granted [] own g subject entry b k gives said = said
  Said-Granted (event ∷ events) own g subject entry b k gives (inl says) =
      inl (Says-Grants event events own g subject entry b k gives says)
  Said-Granted (event ∷ events) own g subject entry b k gives (inr said) =
      let (later, more, bound) = react-Follows event g k.0 own b in
      inr (Said-Granted events later (react event g) subject entry bound k.1 gives said)

new-Binds :
    {T : Type 0} (lru : Lru T Slot) (P : Type 0) (config : Config) (now : ℕ)
    → Binds (λ a. none) (new {lru = lru} {P = P} config now no_memory)
unfolding new new_subjects
new-Binds lru P config now =
    let empty = lru.items-new config.max_subjects in
    rw (empty) (
      tt,
      λ k a e. absurd (ground arith),
      λ k a e. absurd (ground arith),
      λ a k e. absurd (ground arith),
    )

-- A subject that the gate's map or its published snapshot gives an entry is allowed only by what was
-- said of it: if the handle of that entry reads as allowed after any history of a new gate, then
-- within that history a lookup of that entry was answered with an allowing decision, or a change for
-- this very subject came with one. It is asked that each address names one snapshot and each
-- generation one fetch.
pub admitted-Granted :
    {T : Type 0} (lru : Lru T Slot) (P : Type 0) (events : List (Event T P)) (config : Config)
    (made_at : ℕ) (subject : T) (entry now : ℕ)
    → let g : Gate lru P = new config made_at no_memory in
      AllKnown events g
      → Gives (react_all events g) subject entry
      → (is_allowed entry now (react_all events g).store).1 ≡ some true
      → Granted events subject entry
admitted-Granted lru P events config made_at subject entry now known gives allowed =
    let g : Gate lru P = new config made_at no_memory in
    Said-Granted events (λ a. none) g subject entry (new-Binds lru P config made_at) known gives
      (is_allowed-Said lru P events config made_at entry now known allowed)
