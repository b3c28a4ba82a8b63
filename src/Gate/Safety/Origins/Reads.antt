-- ===== src/Gate/Safety/Origins/Reads.antt =====
-- The reads through the cache, src/gate.rs, and the origins of what its entries hold.
use policy_gate.Prelude.{
  if_branches, not, ◌||◌, is_some, ℕ, suc, ◌≡◌, inl, arith, Bool, true, false, Option, none, some,
  ◌==◌,
}
use policy_gate.Entry.{
  Snapshot, PendingFetch, replace_pending, pending_generation, refresh_eligible_at,
}
use policy_gate.Store.{Store, write}
use policy_gate.Lru.{Lru}
use policy_gate.Subjects.{Slot}
use policy_gate.Admission.{admission}
use policy_gate.Gate.{Gate, Lookup, entry_at, with_store, dirty_if, republish_if_due}
use policy_gate.Gate.Publish.{republish_kept}
use policy_gate.Gate.Fetch.{new_fetch_after}
use policy_gate.Gate.Access.{Access, access, release, claim, enqueued}
use policy_gate.Gate.Safety.Origins.{
  Moves, Turns, Turns-later, Moves-joins, write-Moves, verdict_at-Moves, replace_pending-Turns,
}

module _ {T P : Type 0} (Says : ℕ → Type 0) where
  pub admission-Moves :
      (entry now : ℕ) (s : Store P (Lookup T P)) → Moves Says s (admission entry now s).0
  unfolding admission
  admission-Moves entry now s = verdict_at-Moves Says entry now s

  pub ages-Moves : (s : Store P (Lookup T P)) → Moves Says s (record s { next = suc s.next })
  unfolding Moves
  ages-Moves s =
      (omega arith, λ a. Turns-later (Says a) s.next (suc s.next) (s.entries a) (omega arith))

-- An address names one snapshot.
abbrev pub IsOne : {P : Type 0} → Snapshot P → Snapshot P → Type 0
IsOne here current = here.addr ≡ current.addr → here ≡ current

module _ {T P : Type 0} where
  claim-Turns :
      (Says : Type 0) (subject : T) (entry : ℕ) (current : Snapshot P) (now : ℕ)
      (s : Store P (Lookup T P))
      → IsOne (s.entries entry).current current
      → refresh_eligible_at (s.entries entry) current now ≡ true
      → (s.entries entry).current.addr ≡ current.addr
      → Turns Says s.next (s.entries entry) (suc s.next) (record (s.entries entry) {
        pending = some (new_fetch_after entry subject none (some current) s).1;
      })
  unfolding new_fetch_after refresh_eligible_at Turns
  claim-Turns Says subject entry current now s one due same = (
    λ t. (
      omega (arith, t.0),
      λ p q at from.
          let is : current ≡ q = ground arith in
          rw (← is) (omega (arith, t.0, same), λ h. let e = one h in ground arith),
    ),
    λ yes. inl yes,
  )

module _ {T : Type 0} {lru : Lru T Slot} {P : Type 0} (Says : ℕ → Type 0) where
  pub republish-Moves :
      (s : Store P (Lookup T P)) (now : ℕ) (g : Gate lru P)
      → Moves Says s g.store
      → Moves Says s (republish_if_due now g).store
  republish-Moves s now g moved = rw ((republish_kept now g).5) moved

  pub dirty_if-Moves :
      (s : Store P (Lookup T P)) (b : Bool) (g : Gate lru P)
      → Moves Says s g.store
      → Moves Says s (dirty_if b g).store
  dirty_if-Moves s true g moved = moved
  dirty_if-Moves s false g moved = moved

  access-store :
      (entry : ℕ) (outer : Option ℕ) (now access_time : ℕ) (g : Gate lru P)
      → (access entry outer now access_time g).0.store ≡ (admission entry now g.store).0
  unfolding access
  access-store entry outer now access_time g = ground arith

  pub access-Moves :
      (entry : ℕ) (outer : Option ℕ) (now access_time : ℕ) (g : Gate lru P)
      → Moves Says g.store (access entry outer now access_time g).0.store
  access-Moves entry outer now access_time g =
      rw (access-store entry outer now access_time g) (admission-Moves Says entry now g.store)

  pub release-Moves :
      (entry generation : ℕ) (g : Gate lru P)
      → Moves Says g.store (release entry generation g).store
  unfolding release
  release-Moves entry generation g =
      write-Moves Says entry (replace_pending generation none (entry_at g entry)).0 g.store.next
        g.store.aborted g.store (omega arith)
        (replace_pending-Turns (Says entry) g.store.next generation none (entry_at g entry)
          (λ p e. absurd (ground arith)))

  made-Moves :
      (subject : T) (entry : ℕ) (current : Snapshot P) (g : Gate lru P)
      → Moves Says g.store (new_fetch_after entry subject none (some current) g.store).0
  unfolding new_fetch_after
  made-Moves subject entry current g = ages-Moves Says g.store

  -- What the claim leaves while it stands.
  abbrev claim_of : T → ℕ → Snapshot P → Gate lru P → Gate lru P
  claim_of subject entry current g =
      let made = new_fetch_after entry subject none (some current) g.store in
      with_store g (record made.0 {
        entries =
            write entry (record (made.0.entries entry) { pending = some made.1 }) made.0.entries;
      })

  claimed-Moves :
      (subject : T) (entry : ℕ) (current : Snapshot P) (now : ℕ) (g : Gate lru P)
      → IsOne (entry_at g entry).current current
      → refresh_eligible_at (entry_at g entry) current now ≡ true
      → (entry_at g entry).current.addr ≡ current.addr
      → Moves Says g.store (claim_of subject entry current g).store
  unfolding new_fetch_after
  claimed-Moves subject entry current now g one due same =
      write-Moves Says entry _ (suc g.store.next) g.store.aborted g.store (omega arith)
        (claim-Turns (Says entry) subject entry current now g.store one due same)

  released-Moves :
      (subject : T) (entry : ℕ) (current : Snapshot P) (g : Gate lru P)
      → let claimed = claim_of subject entry current g in
        let made = new_fetch_after entry subject none (some current) g.store in
        Moves Says g.store (release entry made.1.generation claimed).store
  unfolding release new_fetch_after replace_pending pending_generation Moves Turns
  released-Moves subject entry current g = (
    omega arith,
    λ a. (
      λ t. (ground (arith, t.0), λ p s at from. let r = t.1 p s in ground (arith, r)),
      λ said. ground arith,
    ),
  )

  pub claim-Moves :
      (subject : T) (entry : ℕ) (current : Snapshot P) (deadline now last : ℕ) (g : Gate lru P)
      → IsOne (entry_at g entry).current current
      → Moves Says g.store (claim subject entry current deadline now last g).0.store
  unfolding claim
  claim-Moves subject entry current deadline now last g one =
      let made = new_fetch_after entry subject none (some current) g.store in
      let e = made.0.entries entry in
      let claimed = with_store g (record made.0 {
        entries = write entry (record e { pending = some made.1 }) made.0.entries;
      }) in
      let released = release entry made.1.generation claimed in
      let Q = λ (r : Gate lru P × Access T P). Moves Says g.store r.0.store in
      if_branches Q (is_some e.pending) (λ busy. made-Moves subject entry current g)
        (λ free.
          if_branches Q
            (not (e.current.addr == current.addr) || not (refresh_eligible_at e current now))
            (λ changed.
              Moves-joins Says g.store released.store _ (released-Moves subject entry current g)
                (admission-Moves Says entry last released.store))
            (λ kept. claimed-Moves subject entry current now g one (ground arith) (ground arith)))

  pub enqueued-Moves :
      (entry : ℕ) (fetch : PendingFetch (Lookup T P)) (taken : Bool) (now : ℕ) (g : Gate lru P)
      → Moves Says g.store (enqueued entry fetch taken now g).0.store
  unfolding enqueued
  enqueued-Moves entry fetch true now g = admission-Moves Says entry now g.store
  enqueued-Moves entry fetch false now g =
      let released = release entry fetch.generation g in
      Moves-joins Says g.store released.store _ (release-Moves entry fetch.generation g)
        (admission-Moves Says entry now released.store)
