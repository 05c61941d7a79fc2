-- ===== src/Startup.antt =====
-- The start of the tool: `HandleKnobs` of src/hawkset.cpp, and what the global variables hold before
-- the program runs. What libyaml loads from the configuration files is an argument.
use Prim.Native.String.{String}
use hawk_set.Config.{CInt, Document, Outcome, ok, ◌>>=◌, MutexConfig, mutex_config}
use hawk_set.Heuristic.{no_accesses}
use hawk_set.PmAlloc.{Bytes}
use hawk_set.TimedLockset
use hawk_set.Tool.{ThreadData, Tool}
use hawk_set.VectorClock
use hawk_set.Prelude.{
  ℕ, ℤ, pos, negsuc, ◌-◌, ◌%◌, ◌^◌, Bool, false, Option, none, List, [], ◌∷◌, ◌++◌,
}

-- `(uint64_t)` of an `int`
unfoldable pub to_uint64 : ℤ → ℕ
to_uint64 (pos n) = n % 2 ^ 64
to_uint64 (negsuc n) = 2 ^ 64 - 1 - n % 2 ^ 64

-- The data of a thread that has not started.
abbrev pub new_thread : ThreadData
new_thread = record {
  current_timedlockset = TimedLockset.no_timed_locks;
  cached_timedlockset = none;
  vector_clocks = [];
  race_likely_stores = [];
  race_likely_loads = [];
  mem_state = [];
  flushed_mem_state = [];
  lock_clock = 0;
  try_lock_mutex = 0;
  try_lock_return_address = 0;
  result_address = 0;
  used = false;
  stack = [];
}

-- What the command line gives.
pub record Knobs : Type 0 where
  pub pm_mount : Bytes
  pub init_removal : ℤ
  pub check_unpersisted_writes : Bool
  pub config_files : List (Option Document)

-- The global variables after `HandleKnobs` has set those of the command line.
unfoldable pub initial : Knobs → Tool
unfolding to_uint64
initial knobs = record {
  use_init_removal_heuristic_n = to_uint64 knobs.init_removal;
  check_unpersisted_stores = knobs.check_unpersisted_writes;
  analysis_data_tls = λ tid. new_thread;
  caches = record { locksets = []; timed_locksets = [] };
  registry = record { lock_index = []; lock_counter = 0 };
  backtraces = [];
  accesses = no_accesses;
  creator_thread_clock = VectorClock.empty;
  exit_threads_clock = [];
  creator_thread_id = none;
  created_thread_id = 0;
  created_pthread_id_address = 0;
  pthread_id_to_tid = [];
  pm = record { pm_mount = knobs.pm_mount; allocs = []; found_alloc = false };
}

-- The loop of `HandleKnobs` over the configuration files.
unfoldable pub import_configs :
    (String → CInt) → List (Option Document) → List MutexConfig → Outcome (List MutexConfig)
import_configs atoi [] configs = ok configs
import_configs atoi (file ∷ files) configs =
    mutex_config atoi file >>= λ config. import_configs atoi files (configs ++ config ∷ [])

-- `HandleKnobs`: the state, and the configurations that `ImageLoad` is registered with.
unfoldable pub handle_knobs : (String → CInt) → Knobs → Outcome (Tool × List MutexConfig)
unfolding initial import_configs
handle_knobs atoi knobs =
    import_configs atoi knobs.config_files [] >>= λ configs. ok (initial knobs, configs)
