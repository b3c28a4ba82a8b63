-- ===== src/Gate/Admit/Deadlines.antt =====
-- The deadline and the backoff of `admit`, src/gate.rs.
use policy_gate.Prelude.{
  ◌∙◌, refl, true, not, ◌||◌, is_some, ℕ, ◌≤◌, ◌≡◌, ◌⊎◌, arith, Bool, false, none,
}
use policy_gate.Time.{duration_max}
use policy_gate.Config.{Config}
use policy_gate.Lru.{Lru}
use policy_gate.Subjects.{get_or_insert_with, Slot}
use policy_gate.Gate.{dirty_if, published, with_subjects, Gate}
use policy_gate.Gate.Publish.{republish_kept}
use policy_gate.Gate.Admit.{create, connecting, finished, Call, connect, turn, slept, resolve}

dirty_if_connected :
    {T : Type 0} {lru : Lru T Slot} {P : Type 0} (raised : Bool) (g : Gate lru P)
    → (dirty_if raised g).connected ≡ g.connected
dirty_if_connected true g = refl
dirty_if_connected false g = refl

module _ {T : Type 0} {lru : Lru T Slot} {P : Type 0} (g : Gate lru P) where
  -- From its deadline on, an admission that waits for the watch, that is about to look at its
  -- entry, or that sleeps before a retry, returns without a handle.
  pub deadline_ends :
      (call : Call T) (config : Config) (now checked later : ℕ) (woken : Bool)
      → (call.deadline ≤ now → (connect call now checked later g).1 ≡ finished none)
        × (call.deadline ≤ checked → (turn call now checked later g).1 ≡ finished none)
        × (call.deadline ≤ now → (slept call config now woken g).1 ≡ finished none)
  unfolding connect turn slept
  deadline_ends call config now checked later woken =
      (λ late. ground arith, λ late. ground arith, λ late. ground arith)

  resolve_connected :
      (subject : T) (now later : ℕ) → (resolve subject now later g).0.connected ≡ g.connected
  unfolding resolve
  resolve_connected subject now later =
      let made =
        get_or_insert_with subject now (create subject now g.config.refresh_before_expiry)
          g.subjects in
      let drifted = not (is_some (published g subject)) in
      let h = dirty_if (made.2 || drifted) (with_subjects g made.0) in
      (republish_kept later h).0 ∙ dirty_if_connected (made.2 || drifted) (with_subjects g made.0)

  -- While the watch is down, no turn of the loop goes on to an entry.
  pub turn_down :
      (call : Call T) (now checked later : ℕ)
      → g.connected ≡ false
      → ((turn call now checked later g).1 ≡ finished none)
        ⊎ ((turn call now checked later g).1 ≡ connecting)
  unfolding turn
  turn_down call now checked later down = ground (arith, resolve_connected call.subject now checked)

  -- The delay before a retry stays between the configured initial delay and the configured maximum,
  -- if it was and if those are in order and the maximum is a duration.
  pub slept-bounds :
      (call : Call T) (now : ℕ) (woken : Bool)
      → g.config.initial_admission_retry_delay ≤ g.config.max_admission_retry_delay
      → g.config.max_admission_retry_delay ≤ duration_max
      → g.config.initial_admission_retry_delay ≤ call.retry_delay
      → call.retry_delay ≤ g.config.max_admission_retry_delay
      → (g.config.initial_admission_retry_delay ≤ (slept call g.config now woken g).2.retry_delay)
        × ((slept call g.config now woken g).2.retry_delay ≤ g.config.max_admission_retry_delay)
  unfolding slept
  slept-bounds call now woken ordered fits least most = (ground arith, ground arith)
