-- ===== src/Run.antt =====
-- A whole run of the program under the tool: src/hawkset.cpp. The threads come and go as in
-- `Protocol`, and each one that has started calls the routines that were inserted into its code, in
-- any order. What PIN, the program and the system give a routine is part of its event.
pub mod Sound
pub mod Invariant
use Prim.Native.String.{String}
use hawk_set.Config.{CInt, Outcome, ok, ◌>>=◌}
use hawk_set.Handlers.{
  Operands, run_hook, LockType, lock_before, write_lock_before, read_lock_before, unlock_before,
  rw_unlock_before, try_lock_before, try_lock_after, adq_rel_before, adq_rel_after,
}
use hawk_set.Opcodes.{Hook}
use hawk_set.PmAlloc.{Bytes, sys_before, sys_after}
use hawk_set.Protocol.{
  Pc, absent, born, announced, running, calling, waiting, System, Step, start_announce, start_init,
}
use hawk_set.Startup.{Knobs, handle_knobs}
use hawk_set.Tool.{Tool, M, ◌>>◌}
use hawk_set.Prelude.{ℕ, ◌≡◌, Bool, true, false, Option, none, some, ◌==◌, if◌then◌else◌}

-- `SyscallEntry`
unfoldable pub syscall_entry : (ℕ → Option Bytes) → ℕ → ℕ → ℕ → ℕ → ℕ → ℕ → M (Unit {0})
unfolding sys_before
syscall_entry readlink num size flags fd prot address s =
    elim (sys_before readlink num size flags fd prot address s.pm) [
      | none ↦ none
      | some pm ↦ some (tt, record s { pm = pm })
    ]

-- `SyscallExit`
unfoldable pub syscall_exit : ℕ → M (Unit {0})
unfolding sys_after
syscall_exit return_value s = elim (sys_after return_value s.pm) [
  | none ↦ none
  | some pm ↦ some (tt, record s { pm = pm })
]

-- A routine of the tool that a thread calls. `syscall` has the number of the call, the size, the
-- flags, the descriptor, the protection and the address; `tried` has the program's memory.
pub data Event : Type 0 where
  instruction : Hook → Operands → Event
  locks write_locks read_locks unlocks rw_unlocks : ℕ → Event
  tries : ℕ → ℕ → ℕ → Event
  tried : (ℕ → ℕ) → ℕ → ℕ → Bool → Bool → Option LockType → Event
  adquires releases : ℕ → Event
  syscall : ℕ → ℕ → ℕ → ℕ → ℕ → ℕ → Event
  returns : ℕ → Event

unfoldable pub run_event : (ℕ → Option Bytes) → ℕ → Event → M (Unit {0})
unfolding syscall_entry syscall_exit run_hook
run_event readlink tid (instruction hook o) = run_hook hook tid o
run_event readlink tid (locks mutex) = lock_before tid mutex
run_event readlink tid (write_locks mutex) = write_lock_before tid mutex
run_event readlink tid (read_locks mutex) = read_lock_before tid mutex
run_event readlink tid (unlocks mutex) = unlock_before tid mutex
run_event readlink tid (rw_unlocks mutex) = rw_unlock_before tid mutex
run_event readlink tid (tries ret_addr mutex result_address) =
    try_lock_before tid ret_addr mutex result_address
run_event readlink tid (tried memory result success negate use_arg locktype) =
    try_lock_after memory tid result success negate use_arg locktype
run_event readlink tid (adquires id) = adq_rel_before tid id
run_event readlink tid (releases id) = adq_rel_after tid id
run_event readlink tid (syscall num size flags fd prot address) =
    syscall_entry readlink num size flags fd prot address
run_event readlink tid (returns value) = syscall_exit value

-- Does the thread run code of the program? It also does while the original function creates the new
-- thread.
abbrev pub runs : Pc → Bool
runs running = true
runs (calling pid) = true
runs (waiting pid c) = true
runs _ = false

-- `TraceThreadStart` of the first thread, which sets no semaphore.
unfoldable pub first_start : Tool → Option (Unit {0} × Tool)
unfolding start_announce start_init
first_start = start_announce 0 >> start_init 0

-- `main`: `HandleKnobs`, which ends the process if a configuration file is bad, and then the first
-- thread of the program.
unfoldable pub main_start : (String → CInt) → Knobs → Outcome (Option (Unit {0} × Tool))
unfolding handle_knobs first_start
main_start atoi knobs = handle_knobs atoi knobs >>= λ set_up. ok (first_start set_up.0)

-- Thread 0 runs, and no other.
abbrev pub alone : Tool → System
alone t = record {
  tool = t;
  owner = none;
  semaphore = false;
  pc = λ tid. if tid == 0 then running else absent;
}

module _ (memory : ℕ → ℕ) (readlink : ℕ → Option Bytes) where
  pub data Happens (s : System) (s' : System) : Type 0 where
    protocol : Step memory s s' → Happens s s'
    event :
        (tid : ℕ) (e : Event) (t : Tool)
        → runs (s.pc tid) ≡ true
        → run_event readlink tid e s.tool ≡ some (tt, t)
        → s' ≡ record s { tool = t }
        → Happens s s'

  pub data Run (start : System) : System → Type 0 where
    here : Run start start
    next : {s s' : System} → Run start s → Happens s s' → Run start s'
