-- ===== src/Gate.antt =====
-- `GateState` of src/gate.rs: its state, and the operations that run between two awaits, each as
-- one step. An operation takes the instants that it reads from the clock.
pub mod Publish
pub mod Freshness
pub mod Fetch
pub mod Access
pub mod Watch
pub mod Safety
pub mod Admit
use policy_gate.Prelude.{
  ℕ, suc, ◌+◌, ◌-◌, ◌*◌, ◌/◌, ◌<◌, min, Bool, true, false, not, ◌&&◌, Option, none, some, List, [],
  ◌∷◌, ltb, leb, ◌==◌, if◌then◌else◌,
}
use policy_gate.Decision.{Decision, DecisionResult, DecisionChange, DecisionSourceError}
use policy_gate.Config.{Config}
use policy_gate.Metrics.{Metric, snapshot_republish, set_watch_connected}
use policy_gate.Word.{EntryState, from_decision, word}
use policy_gate.Entry.{Snapshot, PendingFetch, Entry, tick, deadline_after, new_pending}
use policy_gate.Lru.{Lru, find}
use policy_gate.Store.{Store}
use policy_gate.Subjects.{Slot, Subjects, visited, new as new_subjects}

-- What a fetch's future runs on: the subject, the entry's address, the cooldown that it sleeps
-- first, and the snapshot that a refresh started from.
pub record Lookup (T P : Type 0) : Type 0 where
  pub subject : T
  pub entry : ℕ
  pub delay : Option ℕ
  pub refresh_from : Option (Snapshot P)

-- `connected` is the watched flag, and `closed` whether its sender is gone. The queue holds the
-- fetches handed to the watcher and not yet taken, the oldest first.
module _ {T : Type 0} (lru : Lru T Slot) (P : Type 0) where
  pub record Gate : Type 0 where
    pub subjects : Subjects lru P (Lookup T P)
    pub open subjects use *
    pub snapshot : List (T × ℕ)
    pub generation : ℕ
    pub next_allowed : ℕ
    pub connected : Bool
    pub closed : Bool
    pub disconnected_since : Option ℕ
    pub queue : List (PendingFetch (Lookup T P))
    pub config : Config
    pub metrics : List Metric

module _ {T : Type 0} {lru : Lru T Slot} {P : Type 0} where
  abbrev pub entry_at : Gate lru P → ℕ → Entry P (Lookup T P)
  entry_at g addr = g.store.entries addr

  abbrev pub with_store : Gate lru P → Store P (Lookup T P) → Gate lru P
  with_store g s = record g { subjects = record g.subjects { store = s } }

  abbrev pub with_subjects : Gate lru P → Subjects lru P (Lookup T P) → Gate lru P
  with_subjects g m = record g { subjects = m }

  abbrev pub emit : Metric → Gate lru P → Gate lru P
  emit event g = record g { metrics = event ∷ g.metrics }

  -- `shape_dirty.store(true)`, where the flag is raised.
  abbrev pub dirty_if : Bool → Gate lru P → Gate lru P
  dirty_if raised g =
      if raised then record g { subjects = record g.subjects { shape_dirty = true } } else g

  -- `GateState::new` at `now`, with the watch down, over the memory there is.
  unfoldable pub new : Config → ℕ → Store P (Lookup T P) → Gate lru P
  unfolding new_subjects
  new config now s = record {
    subjects = new_subjects config.max_subjects config.subject_ttl now s;
    snapshot = [];
    generation = 0;
    next_allowed = now;
    connected = false;
    closed = false;
    disconnected_since = some now;
    queue = [];
    config = config;
    metrics = [];
  }

  -- A snapshot of the published map.
  abbrev pub published : Gate lru P → T → Option ℕ
  published g subject = find lru.dec subject g.snapshot

  -- `republish_if_due` up to the release of its first lock: the generation that the rebuild was
  -- claimed at, if it was.
  unfoldable pub claim_republish : ℕ → Gate lru P → Gate lru P × Option ℕ
  claim_republish now g =
      if not g.shape_dirty then (g, none) else if ltb now g.next_allowed then (g, none) else (
        record g { next_allowed = now + g.config.snapshot_republish_interval },
        some g.generation,
      )

  -- The copy of the map, taken after the flag is lowered.
  unfoldable pub copy_map : Gate lru P → Gate lru P × List (T × ℕ)
  copy_map g =
      (record g { subjects = record g.subjects { shape_dirty = false } }, visited g.subjects)

  -- The rest, under the second lock.
  unfoldable pub store_republish : ℕ → List (T × ℕ) → Gate lru P → Gate lru P
  store_republish claimed entries g =
      if g.generation == claimed && g.connected
      then emit snapshot_republish (record g { snapshot = entries })
      else g

  -- `republish_if_due` with nothing in between.
  unfoldable pub republish_if_due : ℕ → Gate lru P → Gate lru P
  unfolding claim_republish copy_map store_republish
  republish_if_due now g =
      let claim = claim_republish now g in
      elim claim.1 [
        | none ↦ claim.0
        | some generation ↦ let copy = copy_map claim.0 in store_republish generation copy.1 copy.0
      ]

  -- `publish_empty`, with what runs after the empty map is stored.
  unfoldable pub publish_empty : (Gate lru P → Gate lru P) → Gate lru P → Gate lru P
  publish_empty after_publish g =
      after_publish (record g { generation = suc g.generation; snapshot = [] })

-- `valid_until.map_or(configured, …)`
abbrev pub capped : ℕ → ℕ → Option ℕ → ℕ
capped epoch configured none = configured
capped epoch configured (some cap) = min configured (tick epoch cap)

abbrev pub allowed_payload : {P : Type 0} → Decision → Option P → Option P
allowed_payload Decision.allowed payload = payload
allowed_payload Decision.denied payload = none

-- `decision_snapshot`, made at `now` with a fresh address. A deadline inside the refresh window
-- puts the first refresh off by half of what remains.
unfoldable pub decision_snapshot :
    {P F : Type 0} → Config → ℕ → ℕ → Entry P F → DecisionResult P → Snapshot P
unfolding word deadline_after tick
decision_snapshot config fresh now entry result =
    let configured = deadline_after entry.epoch now config.decision_freshness_ttl in
    let deadline = capped entry.epoch configured result.valid_until in
    let at = tick entry.epoch now in
    let remaining = deadline - at in
    record {
      addr = fresh;
      word = word (from_decision result.decision) deadline;
      payload = allowed_payload result.decision result.payload;
      refresh_after = if leb remaining entry.refresh_before then at + (remaining + 1) / 2 else 0;
    }
