-- ===== src/Gate/Admit.antt =====
-- `admit` of src/gate.rs as a machine: what the loop does between two awaits is one step, and the
-- phase says which await it is in.
pub mod Deadlines
pub mod Completion
pub mod Driver
use policy_gate.Prelude.{
  ℕ, ◌+◌, min, Bool, true, false, not, ◌||◌, Option, none, some, leb, ◌==◌, if◌then◌else◌, is_some,
}
use policy_gate.Decision.{ok, err, is_permanent_status}
use policy_gate.Time.{checked_add, saturating_mul}
use policy_gate.Config.{Config}
use policy_gate.Metrics.{map_hit, admission_retry, admission_timeout}
use policy_gate.Word.{EntryState}
use policy_gate.Entry.{PendingFetch, new_pending, state_at, pending_is}
use policy_gate.Lru.{Lru}
use policy_gate.Store.{Store, run, allocate}
use policy_gate.Subjects.{Slot, get_or_insert_with, remove_if}
use policy_gate.Gate.{
  Gate, Lookup, entry_at, with_subjects, emit, dirty_if, republish_if_due, published,
}
use policy_gate.Gate.Fetch.{new_fetch_after, FetchResult}
use policy_gate.Gate.Access.{Access, access, in_store}

-- `connecting`: waits for the watch. `accessing`: in `admission_on_access` of the entry, whose
-- `none` means a return to the loop, or a timeout where the flag is set. `fetching`: waits for the
-- lookup. `retrying`: sleeps. `finished`: returned.
pub data Phase (T P : Type 0) : Type 0 where
  connecting : Phase T P
  accessing : ℕ → Bool → Access T P → Phase T P
  fetching : ℕ → PendingFetch (Lookup T P) → Phase T P
  retrying : Phase T P
  finished : Option ℕ → Phase T P

-- What an `admit` call carries through its loop.
pub record Call (T : Type 0) : Type 0 where
  pub subject : T
  pub deadline : ℕ
  pub retry_delay : ℕ

-- How the wait for a lookup ends: with its result, by its abortion, by a change of the
-- connection, or at the deadline.
pub data Wakeup : Type 0 where
  result : FetchResult → Wakeup
  aborted changed elapsed : Wakeup

module _ {T P : Type 0} where
  -- A fresh entry and its first lookup.
  unfoldable pub create : T → ℕ → ℕ → Store P (Lookup T P) → Store P (Lookup T P) × ℕ
  unfolding new_fetch_after new_pending allocate
  create subject now refresh_before s =
      let made = new_fetch_after s.next subject none none (record s { next = s.next + 2 }) in
      (
        record made.0 {
          entries = λ addr.
              if s.next == addr
              then new_pending (s.next + 1) now made.1 refresh_before
              else s.entries addr;
        },
        s.next,
      )

  -- The removal of the subject's entry, if it is still the one at `entry`.
  abbrev pub is_same : ℕ → ℕ → Store P (Lookup T P) → Store P (Lookup T P) × Bool
  is_same entry current s = (s, current == entry)

  -- The same, if it has gone stale.
  unfoldable pub is_same_stale : ℕ → ℕ → ℕ → Store P (Lookup T P) → Store P (Lookup T P) × Bool
  unfolding state_at
  is_same_stale entry now current s =
      if not (current == entry)
      then (s, false)
      else let r = run (λ fresh. state_at fresh now) current s in
        elim r.1 [ EntryState.stale ↦ (r.0, true) | _ ↦ (r.0, false) ]

module _ {T : Type 0} {lru : Lru T Slot} {P : Type 0} where
  -- The start of `admit` at `now`.
  unfoldable pub start : T → ℕ → Gate lru P → Gate lru P × Option (Call T)
  start subject now g = elim (checked_add now g.config.admission_timeout) [
    | none ↦ (emit admission_timeout g, none)
    | some deadline ↦ (
      g,
      some (record {
        subject = subject;
        deadline = deadline;
        retry_delay = g.config.initial_admission_retry_delay;
      }),
    )
  ]

  abbrev pub timed_out : Gate lru P → Gate lru P × Phase T P
  timed_out g = (emit admission_timeout g, finished none)

  -- The lookup or insertion at the head of the loop, at `now`, and the republish at `later`.
  unfoldable pub resolve : T → ℕ → ℕ → Gate lru P → Gate lru P × ℕ
  unfolding get_or_insert_with create
  resolve subject now later g =
      let r =
        get_or_insert_with subject now (create subject now g.config.refresh_before_expiry)
          g.subjects in
      let drifted = not (is_some (published g subject)) in
      (republish_if_due later (dirty_if (r.2 || drifted) (with_subjects g r.0)), r.1)

  abbrev pub enter : ℕ → Bool → Gate lru P × Access T P → Gate lru P × Phase T P
  enter entry expiring r = (r.0, accessing entry expiring r.1)

  abbrev pub within : ℕ → ℕ → ℕ → ℕ → Bool → Gate lru P → Gate lru P × Phase T P
  within entry deadline now access_time expiring g =
      enter entry expiring (access entry (some deadline) now access_time g)

  -- What the loop does with an entry that waits for its lookup; `now` is the second reading of
  -- its state.
  unfoldable pub join : ℕ → ℕ → Gate lru P → Gate lru P × Phase T P
  unfolding state_at pending_is
  join entry now g = elim (entry_at g entry).pending [
    | none ↦ (g, connecting)
    | some fetch ↦
        let r = in_store g (run (λ fresh. state_at fresh now) entry g.store) in
        elim r.1 [
          | EntryState.pending ↦
              if pending_is fetch (entry_at r.0 entry)
              then (r.0, fetching entry fetch)
              else (r.0, connecting)
          | _ ↦ (r.0, connecting)
        ]
  ]

  -- The branch on the entry's state at `now`; `later` serves what follows.
  unfoldable pub branch : Call T → ℕ → ℕ → ℕ → Gate lru P → Gate lru P × Phase T P
  unfolding state_at access join is_same_stale remove_if
  branch call entry now later g =
      let r = in_store g (run (λ fresh. state_at fresh now) entry g.store) in
      let hit = within entry call.deadline later later false (emit map_hit r.0) in
      let removal = remove_if call.subject later (is_same_stale entry later) r.0.subjects in
      elim r.1 [
        | EntryState.allowed ↦ hit
        | EntryState.denied ↦ hit
        | EntryState.pending ↦ join entry later r.0
        | EntryState.stale ↦
            (republish_if_due later (dirty_if removal.1 (with_subjects r.0 removal.0)), connecting)
      ]

  -- One turn of the loop, once the watch is up: at `now` for the map, `checked` for the deadline.
  unfoldable pub turn : Call T → ℕ → ℕ → ℕ → Gate lru P → Gate lru P × Phase T P
  unfolding resolve branch remove_if
  turn call now checked later g =
      let r = resolve call.subject now checked g in
      let removal = remove_if call.subject checked (is_same r.1) r.0.subjects in
      if leb call.deadline checked
      then timed_out r.0
      else if not r.0.connected
      then (dirty_if removal.1 (with_subjects r.0 removal.0), connecting)
      else branch call r.1 checked later r.0

  -- The wait for the watch, polled at `now`; the deadline has precedence.
  unfoldable pub connect : Call T → ℕ → ℕ → ℕ → Gate lru P → Gate lru P × Phase T P
  unfolding turn
  connect call now checked later g =
      if leb call.deadline now
      then timed_out g
      else if g.connected
      then turn call now checked later g
      else if g.closed
      then (g, finished none)
      else (g, connecting)

  abbrev pub retry_or_fail : FetchResult → Gate lru P → Gate lru P × Phase T P
  retry_or_fail (ok _) g = (g, connecting)
  retry_or_fail (err e) g =
      if is_permanent_status e then (g, finished none) else (emit admission_retry g, retrying)

  -- The end of the wait for a lookup.
  unfoldable pub settle : Call T → ℕ → Wakeup → ℕ → ℕ → Gate lru P → Gate lru P × Phase T P
  unfolding state_at access
  settle call entry aborted now later g = (g, connecting)
  settle call entry changed now later g = (g, connecting)
  settle call entry elapsed now later g = within entry call.deadline now later true g
  settle call entry (result outcome) now later g =
      let r = in_store g (run (λ fresh. state_at fresh now) entry g.store) in
      let hit = within entry call.deadline later later false r.0 in
      if not g.connected then (g, connecting) else elim r.1 [
        | EntryState.allowed ↦ hit
        | EntryState.denied ↦ hit
        | EntryState.pending ↦ retry_or_fail outcome r.0
        | EntryState.stale ↦ retry_or_fail outcome r.0
      ]

  -- The end of `admission_on_access` within `admit`.
  unfoldable pub accessed : Bool → Option ℕ → Gate lru P → Gate lru P × Phase T P
  accessed expiring (some entry) g = (g, finished (some entry))
  accessed true none g = timed_out g
  accessed false none g = (g, connecting)

  -- The sleep before a retry, polled at `now`: the delay has passed or not.
  unfoldable pub slept : Call T → Config → ℕ → Bool → Gate lru P → Gate lru P × Phase T P × Call T
  slept call config now woken g =
      let doubled = record call {
        retry_delay = min (saturating_mul call.retry_delay 2) config.max_admission_retry_delay;
      } in
      if leb call.deadline now
      then (emit admission_timeout g, finished none, call)
      else if woken
      then (g, connecting, doubled)
      else (g, retrying, call)
