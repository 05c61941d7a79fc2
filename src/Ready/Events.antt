-- ===== src/Ready/Events.antt =====
-- When a routine that the program calls stops the process: the analysis routines and the hooks of
-- src/hawkset.cpp.
use hawk_set.Handlers.{
  is_pm_address, write, flush, fence, rmw, read, call, pop_stack, ret, run_hook, Operands, taken,
  try_instruction, try_process, LockType, try_lock_before, try_lock_after, is_non_temporal,
  lock_before, write_lock_before, read_lock_before, unlock_before, rw_unlock_before, adq_rel_before,
  adq_rel_after,
}
use hawk_set.Memory.{process_flush, process_store, process_fence, process_read}
use hawk_set.Opcodes.{
  Hook, trace_call, trace_ret, trace_rmw, trace_write, trace_flush, trace_fence, trace_read,
}
use hawk_set.PmAlloc
use hawk_set.PmAlloc.{Bytes, sys_mmap, is_shared}
use hawk_set.Ready.{
  IsPresent, IsReady, Ends, Ends-some, Ends-none, Ends-choose, Ends-weaken, Ends-inverse,
}
use hawk_set.Ready.Calls.{IsKnown, syscall_entry-Ends, syscall_exit-Ends}
use hawk_set.Ready.Fence.{process_fence-Ends}
use hawk_set.Ready.Memory.{process_store-Ends, register_access-Ends}
use hawk_set.Run.{
  Event, instruction, locks, write_locks, read_locks, unlocks, rw_unlocks, tries, tried, adquires,
  releases, syscall, returns, run_event,
}
use hawk_set.Threads.{
  Instruction, LockAction, acquire, release, ignore, lock_action, acquire_lock, release_lock,
  process_lock,
}
use hawk_set.Tool.{Tool, M, pure}
use hawk_set.Prelude.{
  none, ℕ, ◌≤◌, ◌<◌, ◌≡◌, Bool, true, false, not, ◌&&◌, Option, some, List, [], ◌∷◌, ◌==◌,
  if◌then◌else◌, arith,
}

acquire_lock-Ends :
    (fits : Type 0) (tid mutex : ℕ) (special : Bool) (s : Tool)
    → IsReady s
    → Ends fits (acquire_lock tid mutex special s)
unfolding acquire_lock
acquire_lock-Ends fits tid mutex true s ready = Ends-some fits tt _ ready
acquire_lock-Ends fits tid mutex false s ready = Ends-some fits tt _ ready

release_lock-Ends :
    (fits : Type 0) (tid mutex : ℕ) (special : Bool) (s : Tool)
    → IsReady s
    → Ends fits (release_lock tid mutex special s)
unfolding release_lock
release_lock-Ends fits tid mutex true s ready = Ends-some fits tt _ ready
release_lock-Ends fits tid mutex false s ready = Ends-some fits tt _ ready

-- The changes of the locks do not stop it.
process_lock-Ends :
    (fits : Type 0) (tid : ℕ) (locktype : Instruction) (mutex : ℕ) (special : Bool) (s : Tool)
    → IsReady s
    → Ends fits (process_lock tid locktype mutex special s)
unfolding process_lock
process_lock-Ends fits tid locktype mutex special s ready = go (lock_action locktype) _ ready
  where
    act : LockAction → M (Unit {0})
    act a = elim a [
      | acquire ↦ acquire_lock tid mutex special
      | release ↦ release_lock tid mutex special
      | ignore ↦ pure tt
    ]

    go : (a : LockAction) (s1 : Tool) → IsReady s1 → Ends fits (act a s1)
    go acquire s1 ready1 = acquire_lock-Ends fits tid mutex special s1 ready1
    go release s1 ready1 = release_lock-Ends fits tid mutex special s1 ready1
    go ignore s1 ready1 = Ends-some fits tt s1 ready1

-- What a routine relies on: accesses of at most 64 bytes, a return only after a call, and, for a new
-- shared mapping, a path that `readlink` knows.
abbrev pub Fits : (ℕ → Option Bytes) → Tool → ℕ → Event → Type 0
Fits readlink s tid (instruction trace_rmw o) = o.memorywrite_size ≤ 64
Fits readlink s tid (instruction (trace_write type) o) = o.memorywrite_size ≤ 64
Fits readlink s tid (instruction (trace_read two) o) = o.memoryread_size ≤ 64
Fits readlink s tid (instruction (trace_ret taken) o) = IsPresent (s.analysis_data_tls tid).stack
Fits readlink s tid (syscall num size flags fd prot address) =
    ((num == sys_mmap) && is_shared flags) ≡ true → IsKnown readlink fd
Fits readlink s tid e = Unit {0}

module _ (tid : ℕ) (small : tid < 64) (s : Tool) (ready : IsReady s) where
  ret-Ends : Ends (IsPresent (s.analysis_data_tls tid).stack) (ret tid s)
  unfolding ret
  ret-Ends = go (s.analysis_data_tls tid).stack
    where
      go : (stack : List ℕ) → Ends (IsPresent stack) (pop_stack tid stack s)
      go [] = Ends-none (Unit {0}) ⊥ (λ h. h)
      go (a ∷ stack) = Ends-some (Unit {0}) tt _ ready

  write-Ends :
      (ip address size : ℕ) (type : Instruction)
      → Ends (size ≤ 64) (write tid ip address size type s)
  unfolding write is_pm_address process_flush
  write-Ends ip address size type =
      let stored : M (Unit {0}) =
        if is_non_temporal type
        then process_flush tid address
        else process_store tid ip address size in
      Ends-choose (size ≤ 64) s (not (PmAlloc.is_pm_address address size s.pm)) (pure tt) stored
        (Ends-some (size ≤ 64) tt s ready)
        (Ends-choose (size ≤ 64) s (is_non_temporal type) (process_flush tid address)
          (process_store tid ip address size) (Ends-some (size ≤ 64) tt _ ready)
          (process_store-Ends tid small ip address size s ready))

  rmw-Ends : (ip address size : ℕ) → Ends (size ≤ 64) (rmw tid ip address size s)
  unfolding rmw is_pm_address
  rmw-Ends ip address size =
      Ends-choose (size ≤ 64) s (PmAlloc.is_pm_address address size s.pm)
        (process_fence tid ip true address size) (process_fence tid ip true 0 0)
        (process_fence-Ends tid small ip true address size s ready)
        (Ends-weaken (size ≤ 64) (0 ≤ 64) _ (λ h. omega arith)
          (process_fence-Ends tid small ip true 0 0 s ready))

  read-Ends :
      (ip address size address2 : ℕ) → Ends (size ≤ 64) (read tid ip address size address2 s)
  unfolding read is_pm_address process_read
  read-Ends ip address size address2 =
      let pm2 = PmAlloc.is_pm_address address2 size s.pm in
      let second : M (Unit {0}) =
        if not (address2 == 0) && pm2 then process_read tid ip address2 size else pure tt in
      Ends-choose (size ≤ 64) s (PmAlloc.is_pm_address address size s.pm)
        (process_read tid ip address size) second
        (register_access-Ends tid small ip address size s ready)
        (Ends-choose (size ≤ 64) s (not (address2 == 0) && pm2) (process_read tid ip address2 size)
          (pure tt) (register_access-Ends tid small ip address2 size s ready)
          (Ends-some (size ≤ 64) tt s ready))

  flush-Ends : (address : ℕ) → Ends (Unit {0}) (flush tid address s)
  unfolding flush is_pm_address process_flush
  flush-Ends address =
      Ends-choose (Unit {0}) s (PmAlloc.is_pm_address address 0 s.pm) (process_flush tid address)
        (pure tt) (Ends-some (Unit {0}) tt _ ready) (Ends-some (Unit {0}) tt s ready)

  run_hook-Ends :
      (readlink : ℕ → Option Bytes) (hook : Hook) (o : Operands)
      → Ends (Fits readlink s tid (instruction hook o)) (run_hook hook tid o s)
  unfolding run_hook call fence
  run_hook-Ends readlink (trace_call address) o = Ends-some (Unit {0}) tt _ ready
  run_hook-Ends readlink (trace_ret taken) o = ret-Ends
  run_hook-Ends readlink trace_rmw o = rmw-Ends o.inst_ptr o.memorywrite_ea o.memorywrite_size
  run_hook-Ends readlink (trace_write type) o =
      write-Ends o.inst_ptr o.memorywrite_ea o.memorywrite_size type
  run_hook-Ends readlink (trace_flush type) o = flush-Ends o.memoryop_ea
  run_hook-Ends readlink trace_fence o =
      Ends-weaken (Unit {0}) (0 ≤ 64) _ (λ h. omega arith)
        (process_fence-Ends tid small o.inst_ptr false 0 0 s ready)
  run_hook-Ends readlink (trace_read two) o =
      read-Ends o.inst_ptr o.memoryread_ea o.memoryread_size (if two then o.memoryread2_ea else 0)

  try_process-Ends :
      (mutex : ℕ) (locktype : Option LockType) → Ends (Unit {0}) (try_process tid mutex locktype s)
  unfolding try_process
  try_process-Ends mutex none = Ends-some (Unit {0}) tt s ready
  try_process-Ends mutex (some locktype) =
      process_lock-Ends (Unit {0}) tid (try_instruction locktype) mutex false s ready

  try_lock_after-Ends :
      (memory : ℕ → ℕ) (result success : ℕ) (negate use_arg : Bool) (locktype : Option LockType)
      → Ends (Unit {0}) (try_lock_after memory tid result success negate use_arg locktype s)
  unfolding try_lock_after
  try_lock_after-Ends memory result success negate use_arg locktype =
      let t = s.analysis_data_tls tid in
      Ends-choose (Unit {0}) s (taken memory t result success negate use_arg)
        (try_process tid t.try_lock_mutex locktype) (pure tt)
        (try_process-Ends t.try_lock_mutex locktype) (Ends-some (Unit {0}) tt s ready)

  run_event-Ends :
      (readlink : ℕ → Option Bytes) (e : Event)
      → Ends (Fits readlink s tid e) (run_event readlink tid e s)
  unfolding run_event lock_before write_lock_before read_lock_before unlock_before rw_unlock_before
      adq_rel_before adq_rel_after try_lock_before
  run_event-Ends readlink (instruction hook o) = run_hook-Ends readlink hook o
  run_event-Ends readlink (locks mutex) = process_lock-Ends (Unit {0}) tid _ mutex _ s ready
  run_event-Ends readlink (write_locks mutex) = process_lock-Ends (Unit {0}) tid _ mutex _ s ready
  run_event-Ends readlink (read_locks mutex) = process_lock-Ends (Unit {0}) tid _ mutex _ s ready
  run_event-Ends readlink (unlocks mutex) = process_lock-Ends (Unit {0}) tid _ mutex _ s ready
  run_event-Ends readlink (rw_unlocks mutex) = process_lock-Ends (Unit {0}) tid _ mutex _ s ready
  run_event-Ends readlink (tries ret_addr mutex result_address) = Ends-some (Unit {0}) tt _ ready
  run_event-Ends readlink (tried memory result success negate use_arg locktype) =
      try_lock_after-Ends memory result success negate use_arg locktype
  run_event-Ends readlink (adquires id) = process_lock-Ends (Unit {0}) tid _ id _ s ready
  run_event-Ends readlink (releases id) = process_lock-Ends (Unit {0}) tid _ id _ s ready
  run_event-Ends readlink (syscall num size flags fd prot address) =
      syscall_entry-Ends readlink num size flags fd prot address s ready
  run_event-Ends readlink (returns value) = syscall_exit-Ends s ready (Unit {0}) value

  -- Take a state in which only threads below 64 have a number for the heuristic, each one below 64,
  -- and a mapping that waits for its address is there, and an event of a thread below 64. If the
  -- accesses of an instruction have at most 64 bytes, a return finds the frame of a call, and a new
  -- shared mapping a path that `readlink` knows, of less than 1000 bytes, the routine returns. And
  -- whenever the routine of any event returns, its state is again such a state.
  pub run_event-Returns :
      (readlink : ℕ → Option Bytes) (e : Event)
      → (Fits readlink s tid e → (s' : Tool) × (run_event readlink tid e s ≡ some (tt, s')))
        × ((s' : Tool) → run_event readlink tid e s ≡ some (tt, s') → IsReady s')
  run_event-Returns readlink e =
      let (ready_after, ends) =
        Ends-inverse (Fits readlink s tid e) (run_event readlink tid e s)
          (run_event-Ends readlink e) in
      (λ fits. let (x, s', r) = ends fits in (s', r), λ s' r. ready_after tt s' r)
