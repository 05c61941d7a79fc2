-- ===== src/Threads.antt =====
-- Synchronization: `ProcessLock`, `ProcessThreadCreate`, `ProcessThreadInit`, `ProcessThreadJoin`
-- and `ProcessThreadExit` of src/hawkset.cpp, with `trace::Instruction` of src/trace.hpp.
pub mod Clocks
pub mod Order
pub mod Locks
pub mod Frame
use hawk_set.Map
use hawk_set.Map.{Map}
use hawk_set.Memory.{register_unpersisted_store}
use hawk_set.TimedLockset
use hawk_set.Tool.{
  StoreData, MemState, ThreadData, M, ◌>>=◌, ◌>>◌, pure, get_thread_data, change_thread,
  get_timedlockset, put_thread,
}
use hawk_set.VectorClock
use hawk_set.VectorClock.{VectorClock, update_tid, update_clock}
use hawk_set.Prelude.{
  ℕ, ◌+◌, ◌%◌, ◌^◌, Bool, true, false, Option, none, some, List, [], ◌∷◌, ◌++◌, if◌then◌else◌,
}

-- `trace::Instruction`
pub data Instruction : Type 0 where
  store non_temporal_store clflush clflushopt clwb fence rmw load : Instruction
  lock try_lock unlock : Instruction
  wrlock try_wrlock : Instruction
  rdlock try_rdlock rwunlock : Instruction
  error : Instruction

-- The cases of the `switch` of `ProcessLock`.
pub data LockAction : Type 0 where
  acquire release ignore : LockAction

unfoldable pub lock_action : Instruction → LockAction
lock_action try_lock = acquire
lock_action try_wrlock = acquire
lock_action try_rdlock = acquire
lock_action lock = acquire
lock_action wrlock = acquire
lock_action rdlock = acquire
lock_action rwunlock = release
lock_action unlock = release
lock_action _ = ignore

-- `get_next_id`: the id, and the data with the counter, of 32 bits, moved on.
unfoldable pub get_next_id : ThreadData → ℕ × ThreadData
get_next_id t = (t.lock_clock, record t { lock_clock = (t.lock_clock + 1) % 2 ^ 32 })

unfoldable pub acquire_lock : ℕ → ℕ → Bool → M (Unit {0})
unfolding get_next_id TimedLockset.lock TimedLockset.lock_special
acquire_lock tid mutex special s =
    let (id, t) = get_next_id (s.analysis_data_tls tid) in
    if special
    then some (
      tt,
      record s {
        analysis_data_tls = put_thread s.analysis_data_tls tid (record t {
          current_timedlockset = TimedLockset.lock_special t.current_timedlockset mutex id;
        });
      },
    )
    else (let (tls, r) = TimedLockset.lock s.registry t.current_timedlockset mutex id in
        some (
          tt,
          record s {
            analysis_data_tls =
                put_thread s.analysis_data_tls tid (record t { current_timedlockset = tls });
            registry = r;
          },
        ))

unfoldable pub release_lock : ℕ → ℕ → Bool → M (Unit {0})
unfolding TimedLockset.unlock TimedLockset.unlock_special
release_lock tid mutex special s =
    let t = s.analysis_data_tls tid in
    if special
    then some (
      tt,
      record s {
        analysis_data_tls = put_thread s.analysis_data_tls tid (record t {
          current_timedlockset = TimedLockset.unlock_special t.current_timedlockset mutex;
        });
      },
    )
    else (let (tls, r) = TimedLockset.unlock s.registry t.current_timedlockset mutex in
        some (
          tt,
          record s {
            analysis_data_tls =
                put_thread s.analysis_data_tls tid (record t { current_timedlockset = tls });
            registry = r;
          },
        ))

unfoldable pub process_lock : ℕ → Instruction → ℕ → Bool → M (Unit {0})
unfolding acquire_lock release_lock lock_action
process_lock tid locktype mutex special = do
  change_thread tid (λ t. record t { cached_timedlockset = none })
  elim (lock_action locktype) [
    | acquire ↦ acquire_lock tid mutex special
    | release ↦ release_lock tid mutex special
    | ignore ↦ pure tt
  ]

-- `vector_clocks.back()`, which is undefined for an empty vector: here it is the empty clock.
unfoldable pub last_clock : List VectorClock → VectorClock
last_clock [] = VectorClock.empty
last_clock (vc ∷ []) = vc
last_clock (vc ∷ vd ∷ vcs) = last_clock (vd ∷ vcs)

-- `vector_clocks.push_back(…)`
abbrev pub push_clock : ℕ → VectorClock → M (Unit {0})
push_clock tid vc = change_thread tid (λ t. record t { vector_clocks = t.vector_clocks ++ vc ∷ [] })

unfoldable pub process_thread_create : ℕ → M (Unit {0})
unfolding last_clock
process_thread_create tid = do
  tdata ← get_thread_data tid
  let clock = update_tid (last_clock tdata.vector_clocks) tid
  (λ s. some (tt, record s { creator_thread_clock = clock }))
  push_clock tid (update_tid clock tid)

-- `none` stands for the creator -1, of the first thread.
unfoldable pub process_thread_init : ℕ → Option ℕ → M (Unit {0})
process_thread_init tid creator_tid s =
    let creator_clock : VectorClock = elim creator_tid [
      | none ↦ VectorClock.empty
      | some _ ↦ s.creator_thread_clock
    ] in
    push_clock tid (update_tid (update_tid creator_clock tid) tid) s

-- `exit_threads_clock[exit_tid]`, an empty clock if the thread has none.
unfoldable pub exit_clock : ℕ → Map VectorClock → VectorClock
exit_clock tid m = elim (Map.find tid m) [ none ↦ VectorClock.empty | some vc ↦ vc ]

unfoldable pub process_thread_join : ℕ → ℕ → M (Unit {0})
unfolding last_clock exit_clock
process_thread_join tid exit_tid = do
  tdata ← get_thread_data tid
  let clock = update_tid (last_clock tdata.vector_clocks) tid
  exits ← (λ s. some (s.exit_threads_clock, s))
  let exited = exit_clock exit_tid exits
  (λ s. some (tt, record s { exit_threads_clock = Map.assign exit_tid exited exits }))
  push_clock tid (update_clock clock exited)

-- The inner and outer loops of `ProcessThreadExit` over one of the memory states.
unfoldable pub exit_line : ℕ → Map StoreData → Bool → M (Unit {0})
exit_line tid [] was_flushed = pure tt
exit_line tid ((address, stored) ∷ rest) was_flushed = do
  current ← get_timedlockset tid
  register_unpersisted_store tid address stored current none was_flushed
  exit_line tid rest was_flushed

unfoldable pub exit_loop : ℕ → MemState → Bool → M (Unit {0})
unfolding exit_line
exit_loop tid [] was_flushed = pure tt
exit_loop tid ((cl, line) ∷ rest) was_flushed = do
  exit_line tid line was_flushed
  exit_loop tid rest was_flushed

unfoldable pub unpersisted_at_exit : ℕ → M (Unit {0})
unfolding exit_loop
unpersisted_at_exit tid = do
  tdata ← get_thread_data tid
  exit_loop tid tdata.mem_state false
  exit_loop tid tdata.flushed_mem_state true

unfoldable pub process_thread_exit : ℕ → M (Unit {0})
unfolding unpersisted_at_exit last_clock
process_thread_exit tid = do
  (λ s. if s.check_unpersisted_stores then unpersisted_at_exit tid s else pure tt s)
  tdata ← get_thread_data tid
  let clock = update_tid (last_clock tdata.vector_clocks) tid
  push_clock tid clock
  (λ s. some (tt, record s { exit_threads_clock = Map.assign tid clock s.exit_threads_clock }))
