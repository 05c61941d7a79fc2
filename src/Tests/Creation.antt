-- ===== src/Tests/Creation.antt =====
-- The creation of threads, and routines that try to take a lock, at concrete inputs.
use hawk_set.Handlers.{try_lock_before, try_lock_after, mutex_type, write}
use hawk_set.Handlers.Trace
use hawk_set.Handlers.TryLock
use hawk_set.Handlers.TryLock.{is_known, succeeded}
use hawk_set.Map
use hawk_set.Memory.{line_of}
use hawk_set.Memory.Flush.{byte_at}
use hawk_set.PmAlloc
use hawk_set.Protocol.{
  absent, born, announced, calling, put_pc, running, waiting, System, Reach, here, next, enter,
  spawn, announce, create_enter, start_announce,
}
use hawk_set.Protocol.Invariant.{busy}
use hawk_set.Protocol.Late
use hawk_set.Protocol.Progress
use hawk_set.Protocol.Safety
use hawk_set.Registry.Laws.{IsRegistry}
use hawk_set.Tests.States.{start}
use hawk_set.Threads.{non_temporal_store, process_thread_create, acquire, wrlock, process_lock}
use hawk_set.Threads.Locks
use hawk_set.Threads.Locks.{held, after_action, meaning, Acts}
use hawk_set.Threads.Order.{now, pushed}
use hawk_set.Tool.{StoreData, Tool, ◌>>◌}
use hawk_set.VectorClock
use hawk_set.VectorClock.{update_tid}
use hawk_set.Prelude.{
  ℕ, ◌≡◌, ◌≢◌, ◌⊎◌, refl, true, false, ◌&&◌, none, some, [], ◌∷◌, ◌==◌, if◌then◌else◌, arith,
}

-- Thread 0 runs, and no other.
abbrev alone : System
alone = record {
  tool = start;
  owner = none;
  semaphore = false;
  pc = λ t. if t == 0 then running else absent;
}

calm : Safety.Calm alone
calm = ((λ p. (ground arith, ground arith)), refl)

-- Thread 0 waits for the semaphore, and thread 1 has set it.
abbrev posted : System
posted =
    let tool : Tool = record start {
      creator_thread_id = some 0;
      creator_thread_clock = update_tid (now start 0) 0;
      analysis_data_tls =
          pushed start.analysis_data_tls 0 (update_tid (update_tid (now start 0) 0) 0);
      created_pthread_id_address = 5;
      created_thread_id = 1;
    } in
    record {
      tool = tool;
      owner = some 0;
      semaphore = true;
      pc =
          put_pc (put_pc (put_pc (put_pc alone.pc 0 (calling 5)) 0 (waiting 5 1)) 1 born) 1
            announced;
    }

posted_reached : Reach (λ a. 0) alone posted
unfolding create_enter process_thread_create start_announce
posted_reached =
    next (next (next here (enter 0 5 _ refl refl refl refl)) (spawn 0 5 1 refl refl refl))
      (announce 1 posted.tool refl refl refl)

Reach-created_example :
    (posted.tool.created_thread_id ≡ 1) × ((q : ℕ) → busy (posted.pc q) ≡ true → q ≡ 0)
Reach-created_example = Safety.Reach-created calm posted_reached 0 5 1 refl refl

Reach-Ended_example : (s' : System) × Reach (λ a. 0) posted s' × Progress.Ended (λ a. 0) s' 0 1
Reach-Ended_example = Progress.Reach-Ended calm posted_reached 0 5 1 refl (omega arith)

-- No lock has a number yet.
no_locks_yet : IsRegistry start.registry
unfolding Map.find
no_locks_yet = record { below = λ m i e. cc; distinct = λ m n i e f. cc }

process_lock-Acts_example : Acts acquire 0 700 (process_lock 0 wrlock 700 false) start
unfolding meaning
process_lock-Acts_example = Locks.process_lock-Acts start 0 wrlock 700 (omega arith) no_locks_yet

try_lock_lem_example :
    (s' : Tool) × ((try_lock_before 0 4096 700 0
          >> try_lock_after (λ a. 0) 0 0 0 false false (some mutex_type))
        start
      ≡ some (tt, s'))
    × ((address : ℕ)
        → held s' 0 address ≡ (
            if is_known (some mutex_type) && succeeded (λ a. 0) 0 0 0 false false
            then after_action acquire start 0 700 address
            else held start 0 address))
    × ((u : ℕ) → u ≢ 0 → s'.analysis_data_tls u ≡ start.analysis_data_tls u)
try_lock_lem_example =
    TryLock.try_lock_lem start (λ a. 0) 0 4096 700 0 0 0 false false (some mutex_type) (omega arith)
      no_locks_yet

-- One mapping, of the addresses from 64 to 4160.
abbrev mapped : Tool
mapped = record start {
  pm = record {
    pm_mount = [];
    allocs =
        record {
          size = 4096;
          start = 64;
          end = 4160;
          path = [];
          flags = 1;
          prot = 3;
          unmapped = false;
        }
        ∷ [];
    found_alloc = false;
  };
}

non_temporal-adds-none_example :
    (s' : Tool) × (write 0 4096 128 8 non_temporal_store mapped ≡ some (tt, s'))
    × ((b : ℕ) (stored : StoreData)
        → (byte_at b (s'.analysis_data_tls 0).mem_state ≡ some stored
            → byte_at b (mapped.analysis_data_tls 0).mem_state ≡ some stored)
          × (byte_at b (s'.analysis_data_tls 0).flushed_mem_state ≡ some stored
              → (byte_at b (mapped.analysis_data_tls 0).mem_state ≡ some stored)
                ⊎ (byte_at b (mapped.analysis_data_tls 0).flushed_mem_state ≡ some stored)))
    × ((s'.analysis_data_tls 0).race_likely_stores
        ≡ (mapped.analysis_data_tls 0).race_likely_stores)
    × ((u : ℕ) → u ≢ 0 → s'.analysis_data_tls u ≡ mapped.analysis_data_tls u)
unfolding PmAlloc.is_pm_address line_of Map.find
non_temporal-adds-none_example = Trace.non_temporal-adds-none mapped 0 4096 128 8 refl tt
