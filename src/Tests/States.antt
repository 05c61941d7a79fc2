-- ===== src/Tests/States.antt =====
-- States that the tests share.
use hawk_set.TimedLockset
use hawk_set.Tool.{ThreadData, Tool}
use hawk_set.VectorClock
use hawk_set.VectorClock.{VectorClock}
use hawk_set.Prelude.{ℕ, true, false, none, [], ◌∷◌}

abbrev pub idle : ThreadData
idle = record {
  current_timedlockset = TimedLockset.no_timed_locks;
  cached_timedlockset = none;
  vector_clocks = [];
  race_likely_stores = [];
  race_likely_loads = [];
  mem_state = [];
  flushed_mem_state = [];
  lock_clock = 0;
  try_lock_mutex = 0;
  try_lock_return_address = 0;
  result_address = 0;
  used = false;
  stack = [];
}

-- The clock of a thread that has seen no other.
abbrev pub clock_of : ℕ → VectorClock
clock_of tid = record { clock = (tid, 2) ∷ [] }

-- Threads 0 and 1 run; nothing has been accessed.
abbrev pub start : Tool
start = record {
  use_init_removal_heuristic_n = 1;
  check_unpersisted_stores = false;
  analysis_data_tls = λ tid. record idle { used = true; vector_clocks = clock_of tid ∷ [] };
  caches = record { locksets = []; timed_locksets = [] };
  registry = record { lock_index = []; lock_counter = 0 };
  backtraces = [];
  accesses = record { variable_accessed = []; variable_accessed_map = [] };
  creator_thread_clock = VectorClock.empty;
  exit_threads_clock = [];
  creator_thread_id = none;
  created_thread_id = 0;
  created_pthread_id_address = 0;
  pthread_id_to_tid = [];
  pm = record { pm_mount = []; allocs = []; found_alloc = false };
}
