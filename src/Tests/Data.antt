-- ===== src/Tests/Data.antt =====
-- The configuration, the cache and the gate that the examples run on.
use policy_gate.Prelude.{ℕ, ◌-◌, ◌^◌, true, false, none, some, [], ◌∷◌}
use native.Mathlib.Decide.{ℕ_discrete}
use policy_gate.Config.{Config, builder, from_secs}
use policy_gate.Word.{EntryState, word}
use policy_gate.Entry.{Entry}
use policy_gate.Lru.{Lru}
use policy_gate.Lru.Listed.{listed}
use policy_gate.Store.{Store}
use policy_gate.Subjects.{Slot, Subjects}
use policy_gate.Gate.{Gate, Lookup}

-- Decisions live a minute, and are refreshed in its last ten seconds.
abbrev pub config : Config
config = record builder {
  decision_freshness_ttl = from_secs 60;
  refresh_before_expiry = from_secs 10;
}

abbrev pub lru : Lru ℕ Slot
lru = listed ℕ_discrete

-- An entry that waits for nothing and has no decision.
abbrev pub no_entry : Entry ℕ (Lookup ℕ ℕ)
no_entry = record {
  current = record {
    addr = 0;
    word = word EntryState.stale (2 ^ 62 - 1);
    payload = none;
    refresh_after = 0;
  };
  epoch = 0;
  pending = none;
  refresh_before = from_secs 10;
  refresh_not_before = 0;
}

abbrev pub store : Store ℕ (Lookup ℕ ℕ)
store = record { entries = λ _. no_entry; next = 1; aborted = [] }

-- Room for two subjects, idle for at most a minute.
abbrev pub subjects : Subjects lru ℕ (Lookup ℕ ℕ)
subjects = record {
  cache = record {
    stored =
        (7, record { entry = 11; last_touched = from_secs 50 })
        ∷ (8, record { entry = 12; last_touched = from_secs 1 })
        ∷ [];
    spare = 1;
  };
  subject_ttl = from_secs 60;
  activity_epoch = 0;
  shape_dirty = true;
  store = store;
}

abbrev pub gate : Gate lru ℕ
gate = record {
  subjects = subjects;
  snapshot = [];
  generation = 0;
  next_allowed = 0;
  connected = true;
  closed = false;
  disconnected_since = some 0;
  queue = [];
  config = config;
  metrics = [];
}
