-- ===== src/Opcodes.antt =====
-- The instructions that the tool looks at, and the analysis call that each one gets: `IsMovnt`,
-- `IsFence` and `GetFlushType` of src/utils.hpp and `TraceInstructions` of src/hawkset.cpp. The
-- numbers of the opcodes and the tests on an instruction are those of the library XED and of PIN.
use hawk_set.Threads.{Instruction, store, non_temporal_store}
use hawk_set.Prelude.{ℕ, Bool, ◌&&◌, ◌||◌, Option, none, some, ◌==◌, if◌then◌else◌}

-- The opcodes `XED_ICLASS_…` of the library.
pub record Xed : Type 0 where
  pub movntdq : ℕ
  pub movntdqa : ℕ
  pub movnti : ℕ
  pub movntpd : ℕ
  pub movntps : ℕ
  pub movntq : ℕ
  pub movntsd : ℕ
  pub movntss : ℕ
  pub vmovntdq : ℕ
  pub vmovntdqa : ℕ
  pub vmovntpd : ℕ
  pub vmovntps : ℕ
  pub sfence : ℕ
  pub mfence : ℕ
  pub clflush : ℕ
  pub clflushopt : ℕ
  pub clwb : ℕ

-- What PIN says of an instruction.
pub record Ins : Type 0 where
  pub opcode : ℕ
  pub address : ℕ
  pub is_call : Bool
  pub is_ret : Bool
  pub is_valid_for_ipoint_taken_branch : Bool
  pub is_atomic_update : Bool
  pub is_memory_write : Bool
  pub is_standard_memop : Bool
  pub is_cache_line_flush : Bool
  pub is_memory_read : Bool
  pub has_memory_read2 : Bool

module _ (xed : Xed) where
  unfoldable pub is_movnt : ℕ → Bool
  is_movnt opcode =
      (opcode == xed.movntdq)
      || (opcode == xed.movntdqa)
      || (opcode == xed.movnti)
      || (opcode == xed.movntpd)
      || (opcode == xed.movntps)
      || (opcode == xed.movntq)
      || (opcode == xed.movntsd)
      || (opcode == xed.movntss)
      || (opcode == xed.vmovntdq)
      || (opcode == xed.vmovntdqa)
      || (opcode == xed.vmovntpd)
      || (opcode == xed.vmovntps)

  unfoldable pub is_fence : ℕ → Bool
  is_fence opcode = (opcode == xed.sfence) || (opcode == xed.mfence)

  unfoldable pub get_flush_type : ℕ → Instruction
  get_flush_type opcode =
      if opcode == xed.clflush
      then Instruction.clflush
      else if opcode == xed.clflushopt
      then Instruction.clflushopt
      else if opcode == xed.clwb
      then Instruction.clwb
      else Instruction.error

-- The analysis call that is inserted at an instruction.
pub data Hook : Type 0 where
  trace_call : ℕ → Hook
  trace_ret : Bool → Hook
  trace_rmw : Hook
  trace_write : Instruction → Hook
  trace_flush : Instruction → Hook
  trace_fence : Hook
  trace_read : Bool → Hook

unfoldable pub trace_instructions : Xed → Ins → Option Hook
unfolding is_movnt is_fence get_flush_type
trace_instructions xed ins =
    if ins.is_call
    then some (trace_call ins.address)
    else if ins.is_ret
    then some (trace_ret ins.is_valid_for_ipoint_taken_branch)
    else if ins.is_atomic_update
    then some trace_rmw
    else if ins.is_memory_write && ins.is_standard_memop
    then some (trace_write (if is_movnt xed ins.opcode then non_temporal_store else store))
    else if ins.is_cache_line_flush
    then some (trace_flush (get_flush_type xed ins.opcode))
    else if is_fence xed ins.opcode
    then some trace_fence
    else if ins.is_memory_read && ins.is_standard_memop
    then some (trace_read ins.has_memory_read2)
    else none
