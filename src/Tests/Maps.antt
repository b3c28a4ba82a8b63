-- ===== src/Tests/Maps.antt =====
-- The subject map and the gate at concrete inputs.
use policy_gate.Prelude.{ℕ, ◌≡◌, refl, arith, List, [], ◌∷◌, some}
use policy_gate.Config.{from_secs}
use policy_gate.Lru.{Lru}
use policy_gate.Store.{no_memory}
use policy_gate.Subjects.{evict, activity_tick, new, get_or_insert_with, insert_new}
use policy_gate.Subjects.View.Operations.{view, get_or_insert_with-view}
use policy_gate.Subjects.View.Refinement.{Steps, nothing, perform_all-Steps}
use policy_gate.Subjects.Eviction.{evict_items, trim}
use policy_gate.Subjects.Order.{AllWithin}
use policy_gate.Subjects.Invariant.{Inv, evict-Inv}
use policy_gate.Subjects.History.{Op, lookup, removal, perform_all, perform_all-Inv, last_tick}
use policy_gate.Gate.{Lookup, claim_republish, store_republish}
use policy_gate.Gate.Safety.Events.{connects}
use policy_gate.Gate.Safety.Rebuilds.{rebuilt, store_republish_overtaken}
use policy_gate.Tests.Data.{lru, subjects, gate}

-- At 70 seconds, subject 8 has been idle for 69.
evict_items_example :
    Lru.items lru (evict (from_secs 70) subjects).cache
    ≡ trim (from_secs 60) (from_secs 70) (Lru.items lru subjects.cache)
evict_items_example = evict_items (from_secs 70) subjects

subjects-Inv : Inv (from_secs 50) subjects
subjects-Inv = record { ordered = ground arith; bounded = omega arith; positive = omega arith }

evict-Inv_example :
    AllWithin (from_secs 60) (from_secs 70) (Lru.items lru (evict (from_secs 70) subjects).cache)
evict-Inv_example = (evict-Inv (from_secs 50) (from_secs 70) subjects subjects-Inv).1

abbrev ops : List (Op ℕ ℕ (Lookup ℕ ℕ))
ops = lookup (from_secs 55) 9 (λ s. (s, 4)) ∷ removal (from_secs 58) 7 ∷ []

perform_all-Inv_example : Inv (last_tick 0 (from_secs 50) ops) (perform_all ops subjects)
unfolding activity_tick
perform_all-Inv_example = perform_all-Inv (from_secs 50) ops subjects (ground arith) subjects-Inv

perform_all-Steps_example :
    Steps ops nothing (view (perform_all ops (new {lru = lru} 2 (from_secs 60) 0 no_memory)))
perform_all-Steps_example = perform_all-Steps lru ℕ (Lookup ℕ ℕ) ops 2 (from_secs 60) 0 no_memory

-- Subject 9 is new: the map is full, so it takes the place of subject 8.
get_or_insert_with-view_example :
    view (get_or_insert_with 9 (from_secs 55) (λ s. (s, 4)) subjects).0 9 ≡ some 4
unfolding get_or_insert_with insert_new activity_tick native.Mathlib.Decide.ℕ_discrete
get_or_insert_with-view_example =
    (get_or_insert_with-view 9 (from_secs 55) (λ s. (s, 4)) subjects (refl, (refl, tt))).1

-- The watch opens anew after the map was copied.
store_republish_overtaken_example :
    let (later, entries) = rebuilt 5 [] (connects ∷ []) gate in
    store_republish 0 entries later ≡ later
unfolding claim_republish
store_republish_overtaken_example =
    (store_republish_overtaken 5 0 [] (connects ∷ []) gate refl).0 refl
