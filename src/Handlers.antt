-- ===== src/Handlers.antt =====
-- The analysis routines that the instrumented program calls: the `Trace` and `Lock` routines of
-- src/hawkset.cpp. The counters and timers around them are left out.
pub mod TryLock
pub mod Trace
use hawk_set.Memory.{process_flush, process_store, process_fence, process_read}
use hawk_set.Opcodes.{
  Hook, trace_call, trace_ret, trace_rmw, trace_write, trace_flush, trace_fence, trace_read,
}
use hawk_set.PmAlloc
use hawk_set.Threads.{
  Instruction, non_temporal_store, lock, try_lock, unlock, wrlock, try_wrlock, rdlock, try_rdlock,
  rwunlock, process_lock,
}
use hawk_set.Tool.{ThreadData, Tool, M, ◌>>=◌, ◌>>◌, pure, get_thread_data, change_thread}
use hawk_set.Prelude.{
  ℕ, Bool, true, false, not, ◌&&◌, Option, none, some, List, [], ◌∷◌, ◌==◌, if◌then◌else◌,
}

-- `IsPMAddress` on the shared state.
unfoldable pub is_pm_address : ℕ → ℕ → M Bool
unfolding PmAlloc.is_pm_address
is_pm_address address size s = some (PmAlloc.is_pm_address address size s.pm, s)

abbrev pub is_non_temporal : Instruction → Bool
is_non_temporal non_temporal_store = true
is_non_temporal _ = false

-- `TraceWrite`, `TraceFlush`, `TraceFence`, `TraceRMW` and `TraceRead`.
unfoldable pub write : ℕ → ℕ → ℕ → ℕ → Instruction → M (Unit {0})
unfolding is_pm_address
write tid ip address size type = do
  pm ← is_pm_address address size
  (if not pm
      then pure tt
      else if is_non_temporal type
      then process_flush tid address
      else process_store tid ip address size)

unfoldable pub flush : ℕ → ℕ → M (Unit {0})
unfolding is_pm_address
flush tid address = do
  pm ← is_pm_address address 0
  if pm then process_flush tid address else pure tt

unfoldable pub fence : ℕ → ℕ → M (Unit {0})
fence tid ip = process_fence tid ip false 0 0

unfoldable pub rmw : ℕ → ℕ → ℕ → ℕ → M (Unit {0})
unfolding is_pm_address
rmw tid ip address size = do
  pm ← is_pm_address address size
  if pm then process_fence tid ip true address size else process_fence tid ip true 0 0

unfoldable pub read : ℕ → ℕ → ℕ → ℕ → ℕ → M (Unit {0})
unfolding is_pm_address
read tid ip address size address2 = do
  pm ← is_pm_address address size
  pm2 ← is_pm_address address2 size
  (if pm
      then process_read tid ip address size
      else if not (address2 == 0) && pm2
      then process_read tid ip address2 size
      else pure tt)

-- `TraceCall` and `TraceRet`; the head of `stack` is the back of the vector, and `pop_back` of an
-- empty one is undefined.
unfoldable pub call : ℕ → ℕ → M (Unit {0})
call tid address = change_thread tid (λ t. record t { stack = address ∷ t.stack })

abbrev pub pop_stack : ℕ → List ℕ → M (Unit {0})
pop_stack tid [] s = none
pop_stack tid (a ∷ stack) s = change_thread tid (λ t. record t { stack = stack }) s

unfoldable pub ret : ℕ → M (Unit {0})
ret tid = do tdata ← get_thread_data tid; pop_stack tid tdata.stack

-- The values that PIN hands over with the arguments of a call.
pub record Operands : Type 0 where
  pub inst_ptr : ℕ
  pub memorywrite_ea : ℕ
  pub memorywrite_size : ℕ
  pub memoryop_ea : ℕ
  pub memoryread_ea : ℕ
  pub memoryread_size : ℕ
  pub memoryread2_ea : ℕ

-- The call at an instruction, when it is executed.
unfoldable pub run_hook : Hook → ℕ → Operands → M (Unit {0})
unfolding write flush fence rmw read call ret
run_hook (trace_call address) tid o = call tid address
run_hook (trace_ret taken) tid o = ret tid
run_hook trace_rmw tid o = rmw tid o.inst_ptr o.memorywrite_ea o.memorywrite_size
run_hook (trace_write type) tid o = write tid o.inst_ptr o.memorywrite_ea o.memorywrite_size type
run_hook (trace_flush type) tid o = flush tid o.memoryop_ea
run_hook trace_fence tid o = fence tid o.inst_ptr
run_hook (trace_read two) tid o =
    read tid o.inst_ptr o.memoryread_ea o.memoryread_size (if two then o.memoryread2_ea else 0)

-- `LockType` of src/utils.hpp.
pub data LockType : Type 0 where
  mutex_type write_type read_type : LockType

-- `LockBefore`, `WriteLockBefore`, `ReadLockBefore`, `UnlockBefore` and `RWUnlockBefore`.
unfoldable pub lock_before : ℕ → ℕ → M (Unit {0})
lock_before tid mutex = process_lock tid lock mutex false

unfoldable pub write_lock_before : ℕ → ℕ → M (Unit {0})
write_lock_before tid mutex = process_lock tid wrlock mutex false

unfoldable pub read_lock_before : ℕ → ℕ → M (Unit {0})
read_lock_before tid mutex = process_lock tid rdlock mutex false

unfoldable pub unlock_before : ℕ → ℕ → M (Unit {0})
unlock_before tid mutex = process_lock tid unlock mutex false

unfoldable pub rw_unlock_before : ℕ → ℕ → M (Unit {0})
rw_unlock_before tid mutex = process_lock tid rwunlock mutex false

-- `TryLockBefore`
unfoldable pub try_lock_before : ℕ → ℕ → ℕ → ℕ → M (Unit {0})
try_lock_before tid ret_addr mutex result_address = change_thread tid (λ t. record t {
  try_lock_mutex = mutex;
  result_address = result_address;
  try_lock_return_address = ret_addr;
})

unfoldable pub try_instruction : LockType → Instruction
try_instruction mutex_type = try_lock
try_instruction write_type = try_wrlock
try_instruction read_type = try_rdlock

-- Did the routine take the lock? `memory` is that of the program, where a `bool` is a byte.
unfoldable pub taken : (ℕ → ℕ) → ThreadData → ℕ → ℕ → Bool → Bool → Bool
taken memory tdata result success negate use_arg =
    let result' : ℕ =
      if use_arg then (if memory tdata.result_address == 0 then 0 else 1) else result in
    let check = result' == success in if negate then not check else check

-- The `switch` of `TryLockAfter`: `none` is a value that is no enumerator of `LockType`, for which no
-- case matches.
unfoldable pub try_process : ℕ → ℕ → Option LockType → M (Unit {0})
unfolding try_instruction
try_process tid mutex none = pure tt
try_process tid mutex (some locktype) = process_lock tid (try_instruction locktype) mutex false

-- `TryLockAfter`
unfoldable pub try_lock_after : (ℕ → ℕ) → ℕ → ℕ → ℕ → Bool → Bool → Option LockType → M (Unit {0})
unfolding taken try_process
try_lock_after memory tid result success negate use_arg locktype = do
  tdata ← get_thread_data tid
  (if taken memory tdata result success negate use_arg
      then try_process tid tdata.try_lock_mutex locktype
      else pure tt)

-- `TraceAdqRelBefore` and `TraceAdqRelAfter`
unfoldable pub adq_rel_before : ℕ → ℕ → M (Unit {0})
adq_rel_before tid id = process_lock tid lock id true

unfoldable pub adq_rel_after : ℕ → ℕ → M (Unit {0})
adq_rel_after tid id = process_lock tid unlock id true
