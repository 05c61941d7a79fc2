-- ===== src/Sound/Fence.antt =====
-- `ProcessFence` and `ProcessRead` of src/hawkset.cpp keep the pointers of the state good, and the
-- stores that a fence persists have its trace.
use hawk_set.Backtrace.{Trace}
use hawk_set.Cache.{TimedPtr}
use hawk_set.Map.{Map}
use hawk_set.Memory.{
  record_store, process_store, fence_trace, fence_line, fence_loop, fence_rest, process_fence,
}
use hawk_set.Sound.{Has, IsFenceTrace, IsLine, IsMemory, IsSound, IsStarted, Extends}
use hawk_set.Sound.Actions.{
  After, Any, After-bind, After-pure, After-choose, change_thread-After, Extends-trans,
}
use hawk_set.Sound.Memory.{record_store-After}
use hawk_set.Sound.Pools.{get_backtrace-After, get_timedlockset-After, handle_access_byte-After}
use hawk_set.Sound.Store.{process_store-After}
use hawk_set.Sound.Tables.{
  IsStored-Extends, IsLine-Extends, IsMemory-Extends, IsStarted-Extends, IsFenceTrace-Extends,
}
use hawk_set.Tool.{
  StoreData, MemState, Tool, M, ◌>>=◌, ◌>>◌, pure, handle_access_byte, get_timedlockset,
  get_thread_data, change_thread,
}
use hawk_set.Prelude.{
  ℕ, ◌≡◌, refl, Bool, true, false, not, ◌&&◌, Option, none, some, [], ◌∷◌, get_elem?, ◌==◌,
  if◌then◌else◌,
}

-- The trace that a fence has so far.
abbrev HasTrace : Tool → Option Trace → Type 0
HasTrace s trace = IsFenceTrace s.backtraces false trace

fence_trace-After :
    (s : Tool) (tid ip : ℕ) (trace : Option Trace)
    → IsSound s
    → HasTrace s trace
    → After s (λ s' t. Has s'.backtraces t) (fence_trace tid ip trace s)
unfolding fence_trace
fence_trace-After s tid ip none sound h = get_backtrace-After s tid ip sound
fence_trace-After s tid ip (some t) sound h = After-pure s (λ s' t. Has s'.backtraces t) t sound h

fence_line-After :
    (s : Tool) (tid ip : ℕ) (current : TimedPtr) (line : Map StoreData) (trace : Option Trace)
    → IsSound s
    → IsStarted s tid
    → IsLine s.caches s.backtraces line
    → HasTrace s trace
    → After s HasTrace (fence_line tid ip current line trace s)
unfolding fence_line
fence_line-After s tid ip current [] trace sound started good traced =
    After-pure s HasTrace trace sound traced
fence_line-After s tid ip current ((address, stored) ∷ rest) trace sound started good traced =
    let more : (s' : Tool)
        → Extends s s'
        → IsSound s'
        → (trace' : Option Trace) → HasTrace s' trace'
        → After s' HasTrace (fence_line tid ip current rest trace' s') =
      λ s' e sound' trace' traced'.
        fence_line-After s' tid ip current rest trace' sound' (IsStarted-Extends s s' e tid started)
          (IsLine-Extends s s' e rest good.1) traced' in
    After-bind s Any HasTrace (handle_access_byte tid address)
      (λ record_it. if not record_it then fence_line tid ip current rest trace else recorded)
      (handle_access_byte-After s tid address sound)
      (λ record_it s1 sound1 e1 x.
        After-choose s1 HasTrace (not record_it) (fence_line tid ip current rest trace) recorded
          (more s1 e1 sound1 trace (IsFenceTrace-Extends s s1 e1 false trace traced))
          (After-bind s1 (λ s' t. Has s'.backtraces t) HasTrace (fence_trace tid ip trace) persist
            (fence_trace-After s1 tid ip trace sound1
              (IsFenceTrace-Extends s s1 e1 false trace traced))
            (λ t s2 sound2 e2 known.
              let e12 = Extends-trans s s1 s2 e1 e2 in
              After-bind s2 Any HasTrace
                (record_store tid address stored current (some t) true true)
                (λ x. fence_line tid ip current rest (some t))
                (record_store-After s2 tid address stored current (some t) true true sound2
                  (IsStarted-Extends s s2 e12 tid started) (IsStored-Extends s s2 e12 stored good.0)
                  known)
                (λ x s3 sound3 e3 y.
                  more s3 (Extends-trans s s2 s3 e12 e3) sound3 (some t)
                    (IsFenceTrace-Extends s2 s3 e3 false (some t) known)))))
  where
    persist : Trace → M (Option Trace)
    persist t = do
      record_store tid address stored current (some t) true true
      fence_line tid ip current rest (some t)

    recorded : M (Option Trace)
    recorded = fence_trace tid ip trace >>= persist

fence_loop-After :
    (s : Tool) (tid ip : ℕ) (current : TimedPtr) (m : MemState) (trace : Option Trace)
    → IsSound s
    → IsStarted s tid
    → IsMemory s.caches s.backtraces m
    → HasTrace s trace
    → After s HasTrace (fence_loop tid ip current m trace s)
unfolding fence_loop
fence_loop-After s tid ip current [] trace sound started good traced =
    After-pure s HasTrace trace sound traced
fence_loop-After s tid ip current ((cl, line) ∷ rest) trace sound started good traced =
    After-bind s HasTrace HasTrace (fence_line tid ip current line trace)
      (λ trace'. fence_loop tid ip current rest trace')
      (fence_line-After s tid ip current line trace sound started good.0 traced)
      (λ trace' s1 sound1 e1 traced'.
        fence_loop-After s1 tid ip current rest trace' sound1
          (IsStarted-Extends s s1 e1 tid started) (IsMemory-Extends s s1 e1 rest good.1) traced')

fence_rest-After :
    (s : Tool) (tid ip : ℕ) (current : TimedPtr) (m : MemState)
    → IsSound s
    → IsStarted s tid
    → IsMemory s.caches s.backtraces m
    → After s Any (fence_rest tid ip current m s)
unfolding fence_rest
fence_rest-After s tid ip current [] sound started good = After-pure s Any tt sound tt
fence_rest-After s tid ip current (line ∷ lines) sound started good =
    After-bind s HasTrace Any (fence_loop tid ip current (line ∷ lines) none)
      (λ x. change_thread tid (λ t. record t { flushed_mem_state = [] }))
      (fence_loop-After s tid ip current (line ∷ lines) none sound started good refl)
      (λ trace s1 sound1 e1 traced.
        let ok = sound1 tid in
        change_thread-After s1 tid (λ t. record t { flushed_mem_state = [] }) sound1
          (record {
            stores = ok.stores;
            loads = ok.loads;
            written = ok.written;
            flushed = tt;
            remembered = ok.remembered;
          })
          (λ p x k. k))

pub process_fence-After :
    (s : Tool) (tid ip : ℕ) (is_rmw : Bool) (address size : ℕ)
    → IsSound s
    → IsStarted s tid
    → After s Any (process_fence tid ip is_rmw address size s)
unfolding process_fence
process_fence-After s tid ip is_rmw address size sound started =
    After-bind s Any Any
      (if is_rmw && not (size == 0) then process_store tid ip address size else pure tt)
      (λ x. locks)
      (After-choose s Any (is_rmw && not (size == 0)) (process_store tid ip address size) (pure tt)
        (process_store-After s tid ip address size sound started) (After-pure s Any tt sound tt))
      (λ x s1 sound1 e1 y.
        After-bind s1
          (λ s' p.
            get_elem? s'.caches.timed_locksets p
            ≡ some (s1.analysis_data_tls tid).current_timedlockset)
          Any (get_timedlockset tid) fenced (get_timedlockset-After s1 tid sound1)
          (λ current s2 sound2 e2 held.
            fence_rest-After s2 tid ip current (s2.analysis_data_tls tid).flushed_mem_state sound2
              (IsStarted-Extends s s2 (Extends-trans s s1 s2 e1 e2) tid started)
              (sound2 tid).flushed))
  where
    fenced : TimedPtr → M (Unit {0})
    fenced current = do
      tdata ← get_thread_data tid
      fence_rest tid ip current tdata.flushed_mem_state

    locks : M (Unit {0})
    locks = get_timedlockset tid >>= fenced
