-- ===== src/Gate/Access.antt =====
-- Reads through the cache, src/gate.rs: `admission_on_access` with its three steps between awaits
-- and racing claims, `check`, `check_without_refresh` and `refresh_entry`.
pub mod SingleFlight
use policy_gate.Prelude.{
  ℕ, min, Bool, not, ◌||◌, Option, none, some, [], ◌∷◌, ◌++◌, ◌==◌, if◌then◌else◌, is_some,
}
use policy_gate.Time.{checked_add}
use policy_gate.Entry.{
  Snapshot, PendingFetch, verdict_at, refresh_due_at, refresh_eligible_at, replace_pending,
}
use policy_gate.Lru.{Lru}
use policy_gate.Store.{Store, write, run}
use policy_gate.Admission.{admission}
use policy_gate.Subjects.{Slot, touch}
use policy_gate.Gate.{Gate, Lookup, entry_at, with_store, with_subjects, published}
use policy_gate.Gate.Fetch.{new_fetch_after}

-- Where an access stands: it has its answer; it is about to claim the entry for a refresh from a
-- snapshot; or it waits for room in the queue until the deadline.
pub data Access (T P : Type 0) : Type 0 where
  finished : Option ℕ → Access T P
  claiming : Snapshot P → ℕ → Access T P
  enqueuing : PendingFetch (Lookup T P) → ℕ → Access T P

-- The deadline of the wait for the queue: the access's own, within the admission's. `none` means
-- that there is neither.
abbrev pub queue_deadline : Option ℕ → Option ℕ → Option ℕ
queue_deadline none outer = outer
queue_deadline (some deadline) none = some deadline
queue_deadline (some deadline) (some outer) = some (min deadline outer)

abbrev pub claim_until : {T P : Type 0} → ℕ → Snapshot P → Option ℕ → Access T P
claim_until entry current none = finished (some entry)
claim_until entry current (some deadline) = claiming current deadline

module _ {T : Type 0} {lru : Lru T Slot} {P : Type 0} where
  abbrev pub in_store : {R : Type 0} → Gate lru P → Store P (Lookup T P) × R → Gate lru P × R
  in_store g r = (with_store g r.0, r.1)

  abbrev pub finish : Gate lru P × Option ℕ → Gate lru P × Access T P
  finish r = (r.0, finished r.1)

  -- `admission_on_access` up to the claim, at the instants of the verdict and of the access.
  unfoldable pub access : ℕ → Option ℕ → ℕ → ℕ → Gate lru P → Gate lru P × Access T P
  unfolding admission refresh_due_at
  access entry outer now access_time g =
      let r = in_store g (admission entry now g.store) in
      let e = entry_at r.0 entry in
      let own = checked_add access_time g.config.refresh_enqueue_timeout in
      elim r.1 [
        | none ↦ (r.0, finished none)
        | some _ ↦
            if g.config.refresh_before_expiry == 0
            then (r.0, finished (some entry))
            else if refresh_due_at e e.current access_time
            then (r.0, claim_until entry e.current (queue_deadline own outer))
            else (r.0, finished (some entry))
      ]

  -- The guard's drop: the claim is released unless another generation has taken its place.
  unfoldable pub release : ℕ → ℕ → Gate lru P → Gate lru P
  unfolding replace_pending
  release entry generation g = with_store g (record g.store {
    entries = write entry (replace_pending generation none (entry_at g entry)).0 g.store.entries;
  })

  -- The claim and its validation, at the instants of the validation and of the last verdict.
  unfoldable pub claim : T → ℕ → Snapshot P → ℕ → ℕ → ℕ → Gate lru P → Gate lru P × Access T P
  unfolding new_fetch_after refresh_eligible_at admission release
  claim subject entry current deadline now last g =
      let made = new_fetch_after entry subject none (some current) g.store in
      let e = made.0.entries entry in
      let claimed = with_store g (record made.0 {
        entries = write entry (record e { pending = some made.1 }) made.0.entries;
      }) in
      let released = release entry made.1.generation claimed in
      if is_some e.pending
      then (with_store g made.0, finished (some entry))
      else if not (e.current.addr == current.addr) || not (refresh_eligible_at e current now)
      then finish (in_store released (admission entry last released.store))
      else (claimed, enqueuing made.1 deadline)

  -- The end of the wait: whether the queue took the fetch before the deadline.
  unfoldable pub enqueued :
      ℕ → PendingFetch (Lookup T P) → Bool → ℕ → Gate lru P → Gate lru P × Option ℕ
  unfolding admission release
  enqueued entry fetch taken now g =
      let queued = record g { queue = g.queue ++ fetch ∷ [] } in
      let g' = if taken then queued else release entry fetch.generation g in
      in_store g' (admission entry now g'.store)

  -- A wait that is dropped.
  abbrev pub cancelled : ℕ → PendingFetch (Lookup T P) → Gate lru P → Gate lru P
  cancelled entry fetch g = release entry fetch.generation g

  -- `check`, up to the claim of a refresh; all instants in the order in which they are read.
  unfoldable pub check : T → ℕ → ℕ → ℕ → ℕ → Gate lru P → Gate lru P × Access T P
  unfolding verdict_at touch access
  check subject now touched_at verdict_time access_time g = elim (published g subject) [
    | none ↦ (g, finished none)
    | some entry ↦
        let r = in_store g (run (λ fresh. verdict_at fresh now) entry g.store) in
        let renewed = with_subjects r.0 (touch subject entry touched_at r.0.subjects).0 in
        elim r.1 [
          | none ↦ (r.0, finished none)
          | some _ ↦ access entry none verdict_time access_time renewed
        ]
  ]

  unfoldable pub check_without_refresh : T → ℕ → ℕ → ℕ → Gate lru P → Gate lru P × Option ℕ
  unfolding verdict_at touch admission
  check_without_refresh subject now touched_at verdict_time g = elim (published g subject) [
    | none ↦ (g, none)
    | some entry ↦
        let r = in_store g (run (λ fresh. verdict_at fresh now) entry g.store) in
        let renewed = with_subjects r.0 (touch subject entry touched_at r.0.subjects).0 in
        elim r.1 [
          | none ↦ (r.0, none)
          | some _ ↦ in_store renewed (admission entry verdict_time renewed.store)
        ]
  ]

  -- `refresh_entry`: nothing, for an entry that is not the subject's.
  unfoldable pub refresh_entry : T → ℕ → ℕ → ℕ → ℕ → Gate lru P → Gate lru P × Access T P
  unfolding touch access
  refresh_entry subject entry touched_at verdict_time access_time g =
      let r = touch subject entry touched_at g.subjects in
      let renewed = with_subjects g r.0 in
      if r.1 then access entry none verdict_time access_time renewed else (renewed, finished none)
