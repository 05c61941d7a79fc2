-- ===== src/Ready/Fence.antt =====
-- When a fence and the end of a thread stop the process: `ProcessFence` and `ProcessThreadExit` of
-- src/hawkset.cpp.
use hawk_set.Backtrace.{Trace}
use hawk_set.Cache.{TimedPtr}
use hawk_set.Map.{Map}
use hawk_set.Memory.{
  record_store, register_unpersisted_store, process_store, fence_trace, fence_line, fence_loop,
  fence_rest, process_fence,
}
use hawk_set.Ready.{IsReady, Ends, Ends-some, Ends-choose, Ends-if, Ends-bind}
use hawk_set.Ready.Memory.{
  get_timedlockset-Ends, handle_access_byte-Ends, record_store-Ends,
  register_unpersisted_store-Ends, process_store-Ends,
}
use hawk_set.Threads.{exit_line, exit_loop, unpersisted_at_exit, process_thread_exit}
use hawk_set.Tool
use hawk_set.Tool.{
  StoreData, MemState, Tool, M, ◌>>=◌, ◌>>◌, pure, get_thread_data, change_thread, get_backtrace,
  get_timedlockset,
}
use hawk_set.Prelude.{
  ℕ, ◌≤◌, ◌<◌, Bool, true, false, not, ◌&&◌, Option, none, some, [], ◌∷◌, ◌==◌, if◌then◌else◌,
}

module _ (tid : ℕ) (small : tid < 64) (fits : Type 0) where
  fence_trace-Ends :
      (ip : ℕ) (trace : Option Trace) (s : Tool)
      → IsReady s
      → Ends fits (fence_trace tid ip trace s)
  unfolding fence_trace get_backtrace
  fence_trace-Ends ip none s ready = Ends-some fits _ _ ready
  fence_trace-Ends ip (some t) s ready = Ends-some fits t s ready

  fence_line-Ends :
      (ip : ℕ) (current : TimedPtr) (line : Map StoreData) (trace : Option Trace) (s : Tool)
      → IsReady s
      → Ends fits (fence_line tid ip current line trace s)
  unfolding fence_line
  fence_line-Ends ip current [] trace s ready = Ends-some fits trace s ready
  fence_line-Ends ip current ((address, stored) ∷ rest) trace s ready =
      let more : (trace' : Option Trace) (s' : Tool)
          → IsReady s'
          → Ends fits (fence_line tid ip current rest trace' s') =
        λ trace' s' ready'. fence_line-Ends ip current rest trace' s' ready' in
      Ends-bind fits (Tool.handle_access_byte tid address)
        (λ record_it. if not record_it then fence_line tid ip current rest trace else recorded) s
        (handle_access_byte-Ends tid small fits address s ready)
        (λ record_it s1 ready1.
          Ends-choose fits s1 (not record_it) (fence_line tid ip current rest trace) recorded
            (more trace s1 ready1)
            (Ends-bind fits (fence_trace tid ip trace) persist s1
              (fence_trace-Ends ip trace s1 ready1)
              (λ t s2 ready2.
                Ends-bind fits (record_store tid address stored current (some t) true true)
                  (λ x. fence_line tid ip current rest (some t)) s2
                  (record_store-Ends tid small fits address stored current (some t) true true s2
                    ready2)
                  (λ x s3 ready3. more (some t) s3 ready3))))
    where
      persist : Trace → M (Option Trace)
      persist t = do
        record_store tid address stored current (some t) true true
        fence_line tid ip current rest (some t)

      recorded : M (Option Trace)
      recorded = fence_trace tid ip trace >>= persist

  fence_loop-Ends :
      (ip : ℕ) (current : TimedPtr) (m : MemState) (trace : Option Trace) (s : Tool)
      → IsReady s
      → Ends fits (fence_loop tid ip current m trace s)
  unfolding fence_loop
  fence_loop-Ends ip current [] trace s ready = Ends-some fits trace s ready
  fence_loop-Ends ip current ((cl, line) ∷ rest) trace s ready =
      Ends-bind fits (fence_line tid ip current line trace)
        (λ trace'. fence_loop tid ip current rest trace') s
        (fence_line-Ends ip current line trace s ready)
        (λ trace' s1 ready1. fence_loop-Ends ip current rest trace' s1 ready1)

  fence_rest-Ends :
      (ip : ℕ) (current : TimedPtr) (m : MemState) (s : Tool)
      → IsReady s
      → Ends fits (fence_rest tid ip current m s)
  unfolding fence_rest
  fence_rest-Ends ip current [] s ready = Ends-some fits tt s ready
  fence_rest-Ends ip current (line ∷ lines) s ready =
      Ends-bind fits (fence_loop tid ip current (line ∷ lines) none)
        (λ x. change_thread tid (λ t. record t { flushed_mem_state = [] })) s
        (fence_loop-Ends ip current (line ∷ lines) none s ready)
        (λ trace s1 ready1. Ends-some fits tt _ ready1)

  exit_line-Ends :
      (line : Map StoreData) (was_flushed : Bool) (s : Tool)
      → IsReady s
      → Ends fits (exit_line tid line was_flushed s)
  unfolding exit_line
  exit_line-Ends [] was_flushed s ready = Ends-some fits tt s ready
  exit_line-Ends ((address, stored) ∷ rest) was_flushed s ready =
      Ends-bind fits (get_timedlockset tid) store s (get_timedlockset-Ends fits tid s ready)
        (λ current s1 ready1.
          Ends-bind fits (register_unpersisted_store tid address stored current none was_flushed)
            (λ x. exit_line tid rest was_flushed) s1
            (register_unpersisted_store-Ends tid small fits address stored current none was_flushed
              s1 ready1)
            (λ x s2 ready2. exit_line-Ends rest was_flushed s2 ready2))
    where
      store : TimedPtr → M (Unit {0})
      store current = do
        register_unpersisted_store tid address stored current none was_flushed
        exit_line tid rest was_flushed

  exit_loop-Ends :
      (m : MemState) (was_flushed : Bool) (s : Tool)
      → IsReady s
      → Ends fits (exit_loop tid m was_flushed s)
  unfolding exit_loop
  exit_loop-Ends [] was_flushed s ready = Ends-some fits tt s ready
  exit_loop-Ends ((cl, line) ∷ rest) was_flushed s ready =
      Ends-bind fits (exit_line tid line was_flushed) (λ x. exit_loop tid rest was_flushed) s
        (exit_line-Ends line was_flushed s ready)
        (λ x s1 ready1. exit_loop-Ends rest was_flushed s1 ready1)

  pub process_thread_exit-Ends : (s : Tool) → IsReady s → Ends fits (process_thread_exit tid s)
  unfolding process_thread_exit unpersisted_at_exit
  process_thread_exit-Ends s ready =
      Ends-bind fits
        (λ s. if s.check_unpersisted_stores then unpersisted_at_exit tid s else pure tt s) _ s
        (Ends-if fits s.check_unpersisted_stores (unpersisted_at_exit tid s) (pure tt s)
          (Ends-bind fits (exit_loop tid (s.analysis_data_tls tid).mem_state false)
            (λ x. exit_loop tid (s.analysis_data_tls tid).flushed_mem_state true) s
            (exit_loop-Ends (s.analysis_data_tls tid).mem_state false s ready)
            (λ x s1 ready1.
              exit_loop-Ends (s.analysis_data_tls tid).flushed_mem_state true s1 ready1))
          (Ends-some fits tt s ready))
        (λ x s1 ready1. Ends-some fits tt _ ready1)

pub process_fence-Ends :
    (tid : ℕ)
    → tid < 64
    → (ip : ℕ) (is_rmw : Bool) (address size : ℕ) (s : Tool) → IsReady s
    → Ends (size ≤ 64) (process_fence tid ip is_rmw address size s)
unfolding process_fence
process_fence-Ends tid small ip is_rmw address size s ready =
    Ends-bind (size ≤ 64)
      (if is_rmw && not (size == 0) then process_store tid ip address size else pure tt) _ s
      (Ends-choose (size ≤ 64) s (is_rmw && not (size == 0)) (process_store tid ip address size)
        (pure tt) (process_store-Ends tid small ip address size s ready)
        (Ends-some (size ≤ 64) tt s ready))
      (λ x s1 ready1.
        Ends-bind (size ≤ 64) (get_timedlockset tid) _ s1
          (get_timedlockset-Ends (size ≤ 64) tid s1 ready1)
          (λ current s2 ready2.
            fence_rest-Ends tid small (size ≤ 64) ip current
              (s2.analysis_data_tls tid).flushed_mem_state s2 ready2))
