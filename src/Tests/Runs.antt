-- ===== src/Tests/Runs.antt =====
-- A run of two threads, from the start of the tool to its report.
use Prim.Native.String.{String}
use hawk_set.Handlers.{Operands}
use hawk_set.Bitset
use hawk_set.Config.{CInt, zero_int, ok}
use hawk_set.Bitset.{Bitset}
use hawk_set.Heuristic
use hawk_set.Map
use hawk_set.Memory.{process_store, process_flush, process_fence, process_read}
use hawk_set.Opcodes.{trace_write, trace_flush, trace_fence, trace_read}
use hawk_set.Output.{output_races}
use hawk_set.Output.Complete
use hawk_set.Output.Complete.{Returns}
use hawk_set.PmAlloc.{Bytes}
use hawk_set.Protocol.{
  Pc, System, born, announced, running, calling, waiting, put_pc, enter, spawn, announce, init,
  finish, create_enter, create_finish, start_announce, start_init,
}
use hawk_set.Races.Reports.{check_pm_races}
use hawk_set.Ready.Events.{Fits}
use hawk_set.Ready.Runs
use hawk_set.Ready.Runs.{AllBelow}
use hawk_set.Run.{
  Event, instruction, syscall, returns, run_event, first_start, main_start, alone, protocol, event,
  Run, runs, here, next,
}
use hawk_set.Run.Invariant
use hawk_set.Run.Invariant.{IsValid}
use hawk_set.Sound.{Extends}
use hawk_set.Sound.Loads
use hawk_set.Startup.{Knobs, initial, handle_knobs, import_configs}
use hawk_set.Threads.{store, clwb, process_thread_init, process_thread_create, process_thread_exit}
use hawk_set.Tool.{Tool, handle_access, handle_access_byte, get_backtrace, get_timedlockset}
use hawk_set.Prelude.{
  ◌<◌, ltb, ==_iff, arith, ℕ, suc, ap, List, map, length, ◌≡◌, refl, pos, true, false, Option, none,
  some, [], ◌∷◌,
}

-- Persistent memory is under `/p`; the heuristic is off.
abbrev knobs : Knobs
knobs = record {
  pm_mount = 47 ∷ 112 ∷ [];
  init_removal = pos 0;
  check_unpersisted_writes = true;
  config_files = [];
}

abbrev link : ℕ → Option Bytes
link fd = some (47 ∷ 112 ∷ 47 ∷ fd ∷ [])

abbrev operands : Operands
operands = record {
  inst_ptr = 77;
  memorywrite_ea = 4100;
  memorywrite_size = 2;
  memoryop_ea = 4100;
  memoryread_ea = 4100;
  memoryread_size = 2;
  memoryread2_ea = 0;
}

-- The state that a step leaves.
abbrev left : Option (Unit {0} × Tool) → Tool → Tool
left none t = t
left (some (x, t)) u = t

set_up : Tool
unfolding first_start initial
set_up = left (first_start (initial knobs)) (initial knobs)

-- Thread 0 maps a page.
entered : Tool
unfolding set_up run_event
entered = left (run_event link 0 (syscall 9 4096 1 3 3 0) set_up) set_up

mapped : Tool
unfolding entered run_event
mapped = left (run_event link 0 (returns 4096) entered) entered

-- It creates thread 1.
creating : Tool
unfolding mapped create_enter
creating = left (create_enter 0 5 mapped) mapped

told : Tool
unfolding creating start_announce
told = left (start_announce 1 creating) creating

created : Tool
unfolding told start_init
created = left (start_init 1 told) told

both : Tool
unfolding created create_finish
both = left (create_finish (λ a. a) created) created

-- It writes, flushes and fences two bytes, and thread 1 reads them.
wrote : Tool
unfolding both run_event
wrote = left (run_event link 0 (instruction (trace_write store) operands) both) both

flushed_it : Tool
unfolding wrote run_event
flushed_it = left (run_event link 0 (instruction (trace_flush clwb) operands) wrote) wrote

fenced : Tool
unfolding flushed_it run_event
fenced = left (run_event link 0 (instruction trace_fence operands) flushed_it) flushed_it

was_read : Tool
unfolding fenced run_event
was_read = left (run_event link 1 (instruction (trace_read false) operands) fenced) fenced

abbrev last : System
last = record {
  tool = was_read;
  owner = none;
  semaphore = false;
  pc =
      put_pc
        (put_pc
          (put_pc (put_pc (put_pc (put_pc (alone set_up).pc 0 (calling 5)) 0 (waiting 5 1)) 1 born)
            1 announced)
          1 running)
        0 running;
}

ran : Run (λ a. a) link (alone set_up) last
unfolding initial set_up entered mapped creating told created both wrote flushed_it fenced was_read
    run_event create_enter start_announce start_init create_finish process_thread_init
    process_thread_create process_store handle_access get_backtrace get_timedlockset Map.find
    Map.assign process_flush process_fence handle_access_byte process_read Bitset.any
ran =
    next
      (next
        (next
          (next
            (next
              (next
                (next
                  (next
                    (next
                      (next (next here (event 0 (syscall 9 4096 1 3 3 0) entered refl refl refl))
                        (event 0 (returns 4096) mapped refl refl refl))
                      (protocol (enter 0 5 creating refl refl refl refl)))
                    (protocol (spawn 0 5 1 refl refl refl)))
                  (protocol (announce 1 told refl refl refl)))
                (protocol (init 1 created refl refl refl)))
              (protocol (finish 0 5 1 both refl refl refl refl)))
            (event 0 (instruction (trace_write store) operands) wrote refl refl refl))
          (event 0 (instruction (trace_flush clwb) operands) flushed_it refl refl refl))
        (event 0 (instruction trace_fence operands) fenced refl refl refl))
      (event 1 (instruction (trace_read false) operands) was_read refl refl refl)

-- There is no configuration file.
abbrev atoi : String → CInt
atoi text = zero_int

begun : main_start atoi knobs ≡ ok (some (tt, set_up))
unfolding initial set_up main_start handle_knobs import_configs first_start process_thread_init
begun = refl

Run-Follows_example : IsValid last × Extends set_up was_read
Run-Follows_example =
    Invariant.Run-Follows (λ a. a) link (alone set_up) last
      (Invariant.started-IsValid atoi knobs set_up begun) ran

abbrev both_bytes : Bitset
both_bytes i = ltb i 2

abbrev line : ℕ → String
line a = "?"

one_line : List ℕ → Option (List String)
one_line addresses = some (map line addresses)

one_line-length :
    (addresses : List ℕ) (strings : List String)
    → one_line addresses ≡ some strings
    → length strings ≡ length addresses
unfolding one_line
one_line-length addresses strings e =
    let same : map line addresses ≡ strings = cc in rw (← same) (go addresses)
  where
    go : (xs : List ℕ) → length (map line xs) ≡ length xs
    go [] = refl
    go (x ∷ xs) = ap suc (go xs)

Run-output_races_example :
    Returns (output_races one_line was_read.backtraces (check_pm_races was_read))
Run-output_races_example =
    Complete.Run-output_races one_line one_line-length (λ a. a) link atoi knobs set_up last begun
      ran

AreBelow : (ℕ → Pc) → Type 0
AreBelow pc = (tid : ℕ) → runs (pc tid) ≡ true → tid < 64

put_pc-AreBelow : (pc : ℕ → Pc) (p : ℕ) (y : Pc) → p < 64 → AreBelow pc → AreBelow (put_pc pc p y)
unfolding AreBelow
put_pc-AreBelow pc p y small below tid h = ground (arith, below tid, ==_iff tid p)

all_below : AllBelow (λ a. a) link (alone set_up) ran
unfolding ran AreBelow
all_below =
    let first : AreBelow (alone set_up).pc = λ tid h. ground (arith, ==_iff tid 0) in
    let calls : AreBelow _ = put_pc-AreBelow _ 0 (calling 5) (omega arith) first in
    let waits : AreBelow _ = put_pc-AreBelow _ 0 (waiting 5 1) (omega arith) calls in
    let is_born : AreBelow _ = put_pc-AreBelow _ 1 born (omega arith) waits in
    let is_announced : AreBelow _ = put_pc-AreBelow _ 1 announced (omega arith) is_born in
    let starts : AreBelow _ = put_pc-AreBelow _ 1 running (omega arith) is_announced in
    let runs_on : AreBelow _ = put_pc-AreBelow _ 0 running (omega arith) starts in
    ((
      (
        (
          (
            (((((((first, first), first), calls), is_born), is_announced), starts), runs_on),
            runs_on,
          ),
          runs_on,
        ),
        runs_on,
      ),
      runs_on,
    ))

Run-Returns_example :
    ((e : Event)
      → Fits link was_read 1 e
      → (s' : Tool) × (run_event link 1 e was_read ≡ some (tt, s')))
    × ((s' : Tool) × (process_thread_exit 1 was_read ≡ some (tt, s')))
Run-Returns_example =
    Runs.Run-Returns (λ a. a) link atoi knobs set_up last begun ran all_below 1 refl
