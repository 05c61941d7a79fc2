-- ===== src/Tests/Memory.antt =====
-- Stores, flushes and fences at concrete inputs.
use hawk_set.Tests.States.{start, idle}
use hawk_set.Backtrace
use hawk_set.Heuristic
use hawk_set.Map
use hawk_set.Memory.{process_flush, process_store, process_fence, line_of}
use hawk_set.Memory.Fence
use hawk_set.Memory.Flush
use hawk_set.Memory.Flush.{byte_at, or_else}
use hawk_set.Memory.Recorded.{done, keep, next, Persisted}
use hawk_set.Memory.Store
use hawk_set.Memory.Store.{Same, written_by}
use hawk_set.Tool.{StoreData, StoreFenceData, Tool, cache_line, clock_index}
use hawk_set.Prelude.{
  ℕ, ◌+◌, ◌≡◌, ◌≢◌, ◌==◌, ◌&&◌, false, none, some, List, [], ◌∷◌, ◌++◌, refl, arith, if◌then◌else◌,
  leb, ltb,
}

abbrev stored : StoreData
stored = record { timed_lockset = 0; backtrace = 7 }

-- Thread 0 has written byte 65 and flushed byte 130; the heuristic is off.
abbrev pending : Tool
pending = record start {
  use_init_removal_heuristic_n = 0;
  analysis_data_tls = λ tid. record idle {
    mem_state = (64, (65, stored) ∷ []) ∷ [];
    flushed_mem_state = (128, (130, stored) ∷ []) ∷ [];
  };
}

process_flush_lem_example :
    (s' : Tool) × (process_flush 0 70 pending ≡ some (tt, s'))
    × ((b : ℕ)
        → (byte_at b (s'.analysis_data_tls 0).mem_state ≡ (
            if cache_line b == cache_line 70
            then none
            else byte_at b (pending.analysis_data_tls 0).mem_state))
          × (byte_at b (s'.analysis_data_tls 0).flushed_mem_state ≡ (
              if cache_line b == cache_line 70
              then or_else
                  (byte_at b (pending.analysis_data_tls 0).mem_state)
                  (byte_at b (pending.analysis_data_tls 0).flushed_mem_state)
              else byte_at b (pending.analysis_data_tls 0).flushed_mem_state)))
    × ((u : ℕ) → u ≢ 0 → s'.analysis_data_tls u ≡ pending.analysis_data_tls u)
unfolding line_of cache_line Map.find
process_flush_lem_example = Flush.process_flush_lem pending 0 70 (tt, tt)

process_store_lem_example :
    (s' : Tool) × (stored : StoreData) × (process_store 0 4096 66 8 pending ≡ some (tt, s'))
    × (stored.backtrace ≡ (Backtrace.get_backtrace [] 4096 []).0)
    × ((b : ℕ)
        → byte_at b (written_by s' 0)
          ≡ (if leb 66 b && ltb b (66 + 8) then some stored else byte_at b (written_by pending 0)))
    × Same pending s' 0
unfolding Heuristic.handle_access
process_store_lem_example =
    Store.process_store_lem pending 0 4096 66 8 (λ i. ltb i 8) pending.accesses refl (omega arith)
      refl

process_fence_lem_example :
    (s' : Tool) × (process_fence 0 4096 false 0 0 pending ≡ some (tt, s'))
    × (rs : List StoreFenceData) × ((s'.analysis_data_tls 0).flushed_mem_state ≡ [])
    × ((s'.analysis_data_tls 0).race_likely_stores ≡ [] ++ rs)
    × Persisted (clock_index (pending.analysis_data_tls 0)) rs ((130, stored) ∷ [])
    × ((s'.analysis_data_tls 0).mem_state ≡ (pending.analysis_data_tls 0).mem_state)
    × ((u : ℕ) → u ≢ 0 → s'.analysis_data_tls u ≡ pending.analysis_data_tls u)
unfolding Heuristic.handle_access_byte
process_fence_lem_example =
    Fence.process_fence_lem pending 0 4096 false 0 0 ((130, stored) ∷ []) pending.accesses refl
      (next (keep refl done) done)
