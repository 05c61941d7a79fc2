-- ===== src/Sound/Handlers.antt =====
-- The analysis routines of src/hawkset.cpp keep the pointers of the state good.
use hawk_set.Handlers.{
  is_pm_address, write, flush, fence, rmw, read, call, pop_stack, ret, run_hook, Operands, taken,
  try_instruction, try_process, LockType, try_lock_before, try_lock_after, is_non_temporal,
}
use hawk_set.Memory.{process_flush, process_store, process_fence, process_read}
use hawk_set.Opcodes.{
  Hook, trace_call, trace_ret, trace_rmw, trace_write, trace_flush, trace_fence, trace_read,
}
use hawk_set.PmAlloc
use hawk_set.Sound.{IsSound, IsStarted}
use hawk_set.Sound.Actions.{After, Any, After-none, After-pure, After-choose, change_thread-After}
use hawk_set.Sound.Fence.{process_fence-After}
use hawk_set.Sound.Memory.{register_access-After}
use hawk_set.Sound.Lines.{process_flush-After}
use hawk_set.Sound.Store.{process_store-After}
use hawk_set.Sound.Locks.{process_lock-After}
use hawk_set.Threads.{Instruction}
use hawk_set.Tool.{Tool, M, pure, change_thread}
use hawk_set.Prelude.{
  Option, none, some, ℕ, Bool, true, false, not, ◌&&◌, List, [], ◌∷◌, ◌==◌, if◌then◌else◌,
}

-- A change of a thread's data that holds no pointer.
module _ (s : Tool) (tid : ℕ) (sound : IsSound s) where
  stack-After :
      (stack : List ℕ) → After s Any (change_thread tid (λ t. record t { stack = stack }) s)
  stack-After stack =
      let ok = sound tid in
      change_thread-After s tid (λ t. record t { stack = stack }) sound
        (record {
          stores = ok.stores;
          loads = ok.loads;
          written = ok.written;
          flushed = ok.flushed;
          remembered = ok.remembered;
        })
        (λ p x k. k)

  pub try_lock_before-After :
      (ret_addr mutex result_address : ℕ)
      → After s Any (try_lock_before tid ret_addr mutex result_address s)
  unfolding try_lock_before
  try_lock_before-After ret_addr mutex result_address =
      let ok = sound tid in
      change_thread-After s tid
        (λ t. record t {
          try_lock_mutex = mutex;
          result_address = result_address;
          try_lock_return_address = ret_addr;
        })
        sound
        (record {
          stores = ok.stores;
          loads = ok.loads;
          written = ok.written;
          flushed = ok.flushed;
          remembered = ok.remembered;
        })
        (λ p x k. k)

  try_process-After :
      (mutex : ℕ) (locktype : Option LockType) → After s Any (try_process tid mutex locktype s)
  unfolding try_process
  try_process-After mutex none = After-pure s Any tt sound tt
  try_process-After mutex (some locktype) =
      process_lock-After s tid (try_instruction locktype) mutex false sound

  pub try_lock_after-After :
      (memory : ℕ → ℕ) (result success : ℕ) (negate use_arg : Bool) (locktype : Option LockType)
      → After s Any (try_lock_after memory tid result success negate use_arg locktype s)
  unfolding try_lock_after
  try_lock_after-After memory result success negate use_arg locktype =
      let t = s.analysis_data_tls tid in
      After-choose s Any (taken memory t result success negate use_arg)
        (try_process tid t.try_lock_mutex locktype) (pure tt)
        (try_process-After t.try_lock_mutex locktype) (After-pure s Any tt sound tt)

  call-After : (address : ℕ) → After s Any (call tid address s)
  unfolding call
  call-After address = stack-After (address ∷ (s.analysis_data_tls tid).stack)

  ret-After : After s Any (ret tid s)
  unfolding ret
  ret-After = go (s.analysis_data_tls tid).stack
    where
      go : (stack : List ℕ) → After s Any (pop_stack tid stack s)
      go [] = After-none s Any
      go (a ∷ stack) = stack-After stack

  flush-After : (address : ℕ) → After s Any (flush tid address s)
  unfolding flush is_pm_address
  flush-After address =
      After-choose s Any (PmAlloc.is_pm_address address 0 s.pm) (process_flush tid address)
        (pure tt) (process_flush-After s tid address sound) (After-pure s Any tt sound tt)

  module _ (started : IsStarted s tid) where
    write-After :
        (ip address size : ℕ) (type : Instruction) → After s Any (write tid ip address size type s)
    unfolding write is_pm_address
    write-After ip address size type =
        let pm = PmAlloc.is_pm_address address size s.pm in
        let stored : M (Unit {0}) =
          if is_non_temporal type
          then process_flush tid address
          else process_store tid ip address size in
        After-choose s Any (not pm) (pure tt) stored (After-pure s Any tt sound tt) (
          After-choose s Any (is_non_temporal type) (process_flush tid address)
            (process_store tid ip address size) (process_flush-After s tid address sound)
            (process_store-After s tid ip address size sound started))

    fence-After : (ip : ℕ) → After s Any (fence tid ip s)
    unfolding fence
    fence-After ip = process_fence-After s tid ip false 0 0 sound started

    rmw-After : (ip address size : ℕ) → After s Any (rmw tid ip address size s)
    unfolding rmw is_pm_address
    rmw-After ip address size =
        After-choose s Any (PmAlloc.is_pm_address address size s.pm)
          (process_fence tid ip true address size) (process_fence tid ip true 0 0)
          (process_fence-After s tid ip true address size sound started)
          (process_fence-After s tid ip true 0 0 sound started)

    read-After : (ip address size address2 : ℕ) → After s Any (read tid ip address size address2 s)
    unfolding read is_pm_address process_read
    read-After ip address size address2 =
        let pm = PmAlloc.is_pm_address address size s.pm in
        let pm2 = PmAlloc.is_pm_address address2 size s.pm in
        let second : M (Unit {0}) =
          if not (address2 == 0) && pm2 then process_read tid ip address2 size else pure tt in
        After-choose s Any pm (process_read tid ip address size) second
          (register_access-After s tid ip address size sound started)
          (After-choose s Any (not (address2 == 0) && pm2) (process_read tid ip address2 size)
            (pure tt) (register_access-After s tid ip address2 size sound started)
            (After-pure s Any tt sound tt))

    pub run_hook-After : (hook : Hook) (o : Operands) → After s Any (run_hook hook tid o s)
    unfolding run_hook
    run_hook-After (trace_call address) o = call-After address
    run_hook-After (trace_ret taken) o = ret-After
    run_hook-After trace_rmw o = rmw-After o.inst_ptr o.memorywrite_ea o.memorywrite_size
    run_hook-After (trace_write type) o =
        write-After o.inst_ptr o.memorywrite_ea o.memorywrite_size type
    run_hook-After (trace_flush type) o = flush-After o.memoryop_ea
    run_hook-After trace_fence o = fence-After o.inst_ptr
    run_hook-After (trace_read two) o =
        read-After o.inst_ptr o.memoryread_ea o.memoryread_size
          (if two then o.memoryread2_ea else 0)
