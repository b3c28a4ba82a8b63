-- ===== src/Gate/Publish.antt =====
-- The published snapshot of src/gate.rs: `republish_if_due`.
use policy_gate.Prelude.{ℕ, ◌+◌, ◌≤◌, ◌<◌, ◌≡◌, ◌⊎◌, arith, true, false}
use policy_gate.Lru.{Lru}
use policy_gate.Subjects.{Slot, visited}
use policy_gate.Gate.{Gate, republish_if_due}

module _ {T : Type 0} {lru : Lru T Slot} {P : Type 0} where
  -- What a republish leaves as it was.
  pub republish_kept :
      (now : ℕ) (g : Gate lru P)
      → ((republish_if_due now g).connected ≡ g.connected)
        × ((republish_if_due now g).closed ≡ g.closed)
        × ((republish_if_due now g).disconnected_since ≡ g.disconnected_since)
        × ((republish_if_due now g).config ≡ g.config)
        × ((republish_if_due now g).generation ≡ g.generation)
        × ((republish_if_due now g).store ≡ g.store)
        × ((republish_if_due now g).cache ≡ g.cache)
  unfolding republish_if_due
  republish_kept now g = (
    ground arith,
    ground arith,
    ground arith,
    ground arith,
    ground arith,
    ground arith,
    ground arith,
  )

  -- A due republish, while connected, publishes the map as it is and lowers the flag. While the
  -- watch is down, before the interval has passed or with a clean map, the published snapshot
  -- stays.
  pub republish_if_due_lem :
      (now : ℕ) (g : Gate lru P)
      → (g.shape_dirty ≡ true
          → g.next_allowed ≤ now
          → g.connected ≡ true
          → ((republish_if_due now g).snapshot ≡ visited g.subjects)
            × ((republish_if_due now g).shape_dirty ≡ false)
            × ((republish_if_due now g).next_allowed ≡ now + g.config.snapshot_republish_interval))
        × ((g.shape_dirty ≡ false) ⊎ (now < g.next_allowed) ⊎ (g.connected ≡ false)
            → (republish_if_due now g).snapshot ≡ g.snapshot)
  unfolding republish_if_due
  republish_if_due_lem now g =
      (λ dirty due up. (ground arith, ground arith, ground arith), λ why. ground arith)
