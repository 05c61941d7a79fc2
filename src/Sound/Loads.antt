-- ===== src/Sound/Loads.antt =====
-- What `RegisterAccess` of src/hawkset.cpp records of a load.
use hawk_set.Backtrace
use hawk_set.Backtrace.{Trace, trace_eq}
use hawk_set.Bitset
use hawk_set.Bitset.{Bitset}
use hawk_set.Cache.{LocksetPtr, deref}
use hawk_set.Heuristic
use hawk_set.Intern
use hawk_set.Lockset.{Lockset, lockset_eq}
use hawk_set.Races.Insert.{Adds}
use hawk_set.TimedLockset
use hawk_set.TimedLockset.{to_lockset}
use hawk_set.Tool
use hawk_set.Tool.{AccessKey, key_eq, LocksetSet, ThreadData, Tool, clock_index}
use hawk_set.Prelude.{false, ℕ, ◌≡◌, ◌≢◌, true, false, some, List, ◌∷◌, get_elem?}

-- The key of the load.
abbrev pub key_of : ThreadData → Trace → ℕ → Bitset → AccessKey
key_of t trace address mask = record {
  address = address;
  backtrace = trace;
  clock_i = clock_index t;
  mask = mask;
}

-- The load is recorded with the frames of the thread and the locks that it holds.
abbrev pub IsRecorded : Tool → ℕ → ℕ → ℕ → Bitset → Tool → Type 0
IsRecorded s tid ip address mask s' =
    let t = s.analysis_data_tls tid in
    ((trace : Trace) × (frames : List ℕ) × (p : LocksetPtr) × (get_elem? s'.backtraces trace
        ≡ some frames)
      × (trace_eq frames (ip ∷ t.stack) ≡ true)
      × (lockset_eq (deref s'.caches p) (to_lockset t.current_timedlockset) ≡ true)
      × Adds (key_of t trace address mask) p t.race_likely_loads
          (s'.analysis_data_tls tid).race_likely_loads)
    × ((u : ℕ) → u ≢ tid → s'.analysis_data_tls u ≡ s.analysis_data_tls u)
