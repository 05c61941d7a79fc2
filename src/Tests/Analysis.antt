-- ===== src/Tests/Analysis.antt =====
-- The analysis and the heuristic at concrete inputs.
use hawk_set.Cache.{Caches, empty_lockset, cached}
use hawk_set.Lockset.{no_locks}
use hawk_set.Races.{loads_opt, Analysed, contains_trace, check_pm_races_per_thread, tls_max_size}
use hawk_set.Races.PerThread
use hawk_set.Races.Loads
use hawk_set.Races.Loads.{in_table, any_load}
use hawk_set.Races.Groups
use hawk_set.Races.Groups.{in_group, any_matches}
use hawk_set.Races.Check
use hawk_set.Races.Reported.{reported}
use hawk_set.Races.Reports.{StoreKey, group_stores, check_pm_races}
use hawk_set.Tool.{AccessKey, StoreFenceData, Tool}
use hawk_set.Tests.States.{idle, clock_of, start}
use hawk_set.Bitset.{Bitset}
use hawk_set.Heuristic.{ignore_access, handle_access, Accesses}
use hawk_set.Heuristic.Width
use hawk_set.Heuristic.Replay
use hawk_set.Heuristic.Replay.{replay, is_ignored}
use hawk_set.Heuristic.Refine.{History}
use hawk_set.Prelude.{
  ℕ, ◌≡◌, ◌||◌, ◌<◌, ◌↔◌, ◌==◌, ltb, not, ◌&&◌, if◌then◌else◌, true, some, [], ◌∷◌, arith,
}

-- Thread 5 initialises address 64, and thread 9 reads it.
abbrev history : History
history = (5, 64) ∷ (5, 64) ∷ []

ignore_access_lem_example :
    (s : Accesses) × (replay 1 history ≡ some s)
    × (s' : Accesses) × (ignore_access 1 9 64 s ≡ some (is_ignored 1 history 9 64, s'))
ignore_access_lem_example =
    Replay.ignore_access_lem 1 (omega arith) (omega arith) 9 64 history (omega arith)

handle_access_lem_example :
    ((s : Accesses) × (replay 1 history ≡ some s)
      × (mask : Bitset) × (s' : Accesses) × (handle_access 1 9 64 8 s ≡ some (mask, s'))
      × ((i : ℕ) → mask i ≡ (ltb i 8 && not (is_ignored 1 history 9 64))))
    × ((s : Accesses)
        → (mask : Bitset) × (handle_access 0 9 64 8 s ≡ some (mask, s))
          × ((i : ℕ) → mask i ≡ ltb i 8))
handle_access_lem_example =
    Width.handle_access_lem 1 9 64 8 history (omega arith) (omega arith) (omega arith) (omega arith)

-- Thread 1 has loaded byte 64 with no lock, as trace 7.
abbrev reader : ℕ → Analysed
reader u =
    if u == 1
    then record {
      thread = record idle { used = true; vector_clocks = clock_of 1 ∷ [] };
      race_likely_loads_opt = (64, ((7, 0), empty_lockset ∷ []) ∷ []) ∷ [];
    }
    else record { thread = idle; race_likely_loads_opt = [] }

abbrev caches : Caches
caches = record { locksets = no_locks ∷ []; timed_locksets = [] }

check_pm_races_per_thread_iff_example :
    (contains_trace 7 (check_pm_races_per_thread caches reader 0 64 (cached 0) (clock_of 0)) ≡ true)
    ↔ ((u : ℕ) × (u < tls_max_size)
        × PerThread.RacyThread caches (cached 0) (clock_of 0) 7 reader 0 64 u)
check_pm_races_per_thread_iff_example =
    PerThread.check_pm_races_per_thread_iff caches (cached 0) (clock_of 0) 7 reader 0 64

-- Thread 0 has stored to byte 64 twice, with one lockset and at one clock.
abbrev store_at : ℕ → StoreFenceData
store_at trace = record {
  common_set = cached 0;
  clock_i = 0;
  write_trace = trace;
  fence_trace = some 9;
  address = 64;
  persisted = true;
  was_flushed = true;
}

abbrev key_64 : StoreKey
key_64 = record { address = 64; persisted = true; was_flushed = true }

in_group-group_stores_example :
    in_group caches key_64
      (cached 0)
      0
      (8, some 9)
      (group_stores caches (store_at 7 ∷ store_at 8 ∷ []) [])
    ≡ (any_matches caches key_64 (cached 0) 0 (8, some 9) (store_at 7 ∷ store_at 8 ∷ [])
        || in_group caches key_64 (cached 0) 0 (8, some 9) [])
in_group-group_stores_example =
    Groups.in_group-group_stores caches key_64 (cached 0) 0 (8, some 9)
      (store_at 7 ∷ store_at 8 ∷ []) []

-- A load of the bytes 64 and 66, by trace 7.
abbrev load_64 : AccessKey
load_64 = record { address = 64; backtrace = 7; clock_i = 0; mask = λ i. (i == 0) || (i == 2) }

in_table-loads_opt_example :
    in_table 66 7 0 empty_lockset (loads_opt ((load_64, empty_lockset ∷ []) ∷ []) []) ≡ (
      any_load 66 7 0 empty_lockset ((load_64, empty_lockset ∷ []) ∷ [])
      || in_table 66 7 0 empty_lockset [])
in_table-loads_opt_example =
    Loads.in_table-loads_opt 66 7 0 empty_lockset ((load_64, empty_lockset ∷ []) ∷ []) []

-- Thread 0 has stored to byte 64, and thread 1 has loaded it as trace 7.
abbrev racy_run : Tool
racy_run = record start {
  caches = caches;
  analysis_data_tls = λ tid.
      if tid == 0
      then record idle {
        used = true;
        vector_clocks = clock_of 0 ∷ [];
        race_likely_stores = store_at 8 ∷ [];
      }
      else if tid == 1
      then record idle {
        used = true;
        vector_clocks = clock_of 1 ∷ [];
        race_likely_loads = (load_64, empty_lockset ∷ []) ∷ [];
      }
      else idle;
}

check_pm_races_iff_example :
    (reported true ((8, some 9), true) 7 (check_pm_races racy_run) ≡ true)
    ↔ ((tid : ℕ) × (tid < tls_max_size) × Check.RacyWriter racy_run true (8, some 9) true 7 tid)
check_pm_races_iff_example = Check.check_pm_races_iff racy_run true (8, some 9) true 7
