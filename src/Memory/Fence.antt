-- ===== src/Memory/Fence.antt =====
-- A fence on the flushed bytes of the thread: `ProcessFence` of src/hawkset.cpp.
use hawk_set.Memory.Recorded.{
  Heard, HeardLines, done, keep, drop, next, Persisted, Step, append_nil, clock_index_same,
  Step-none, Step-trans, heard_value, Step-heard, record_store-Step,
}
use hawk_set.Backtrace.{Trace}
use hawk_set.Cache.{TimedPtr}
use hawk_set.Heuristic.{Accesses}
use hawk_set.Map.{Map}
use hawk_set.Memory.{
  record_store, fence_trace, fence_line, fence_loop, fence_rest, process_store, process_fence,
}
use hawk_set.Tool.{
  StoreFenceData, StoreData, MemState, ThreadData, Tool, put_thread, put_same, put_other,
  bind_value, pure, change_thread, get_thread_data, ◌>>=◌, then_value, handle_access_byte,
  clock_index, get_backtrace, get_timedlockset, get_timedlockset_lem,
}
use hawk_set.Prelude.{
  ℕ, ◌≡◌, ◌≢◌, refl, sym, subst, ap, ◌∙◌, Bool, true, false, Option, none, some, List, [], ◌∷◌,
  ◌++◌, ◌==◌, ◌&&◌, not, if◌then◌else◌,
}

-- The backtrace of a fence: it is taken when the first store is recorded.
fence_trace-Step :
    (s : Tool) (tid ip : ℕ) (backtrace : Option Trace)
    → (trace : Trace) × (s' : Tool) × (fence_trace tid ip backtrace s ≡ some (trace, s'))
      × Step tid s s' [] s.accesses
unfolding fence_trace get_backtrace
fence_trace-Step s tid ip (some trace) = (trace, s, refl, Step-none tid s)
fence_trace-Step s tid ip none =
    (_, _, refl, ([], sym (append_nil _), tt, refl, refl, (λ u other. refl), refl, refl))

fence_line-Step :
    (s : Tool) (tid ip n : ℕ) (current : TimedPtr) (line kept : Map StoreData) (a b : Accesses)
    (backtrace : Option Trace)
    → Heard n tid a line kept b
    → s.use_init_removal_heuristic_n ≡ n
    → s.accesses ≡ a
    → (out : Option Trace) × (s' : Tool) × (fence_line tid ip current line backtrace s
        ≡ some (out, s'))
      × Step tid s s' kept b
unfolding fence_line
fence_line-Step s tid ip n current [] kept a b backtrace done en ea =
    (backtrace, s, refl, ([], sym (append_nil _), tt, refl, refl, (λ u other. refl), ea, refl))
fence_line-Step s tid ip n current ((address, stored) ∷ rest) kept a c backtrace
      (drop {b = b} answer heard) en ea =
    let s1 : Tool = record s { accesses = b } in
    let (out, s', run, step) =
      fence_line-Step s1 tid ip n current rest kept b c backtrace heard en refl in
    (
      out,
      s',
      bind_value (handle_access_byte tid address) _ s s1 false
            (heard_value s tid address n false a b en ea answer)
          ∙ run,
      Step-trans tid s s1 s' [] kept b c (Step-heard tid s b) step,
    )
fence_line-Step s tid ip n current ((address, stored) ∷ rest) _ a c backtrace
      (keep {b = b} {kept = kept} answer heard) en ea =
    let s1 : Tool = record s { accesses = b } in
    let (trace, s2, run2, step2) = fence_trace-Step s1 tid ip backtrace in
    let (s3, run3, step3) = record_store-Step s2 tid address stored current trace in
    let (out, s', run, step) =
      fence_line-Step s3 tid ip n current rest kept b c (some trace) heard
        (step3.7 ∙ (step2.7 ∙ en)) (step3.6 ∙ step2.6) in
    (
      out,
      s',
      bind_value (handle_access_byte tid address) _ s s1 true
            (heard_value s tid address n true a b en ea answer)
          ∙ (bind_value (fence_trace tid ip backtrace) _ s1 s2 trace run2
              ∙ (then_value (record_store tid address stored current (some trace) true true)
                    (fence_line tid ip current rest (some trace)) s2 s3 run3
                  ∙ run)),
      Step-trans tid s s1 s' [] _ b c (Step-heard tid s b) (
          Step-trans tid s1 s2 s' [] _ b c step2
            (Step-trans tid s2 s3 s' ((address, stored) ∷ []) kept s2.accesses c step3 step)),
    )

fence_loop-Step :
    (s : Tool) (tid ip n : ℕ) (current : TimedPtr) (m : MemState) (kept : Map StoreData)
    (a b : Accesses) (backtrace : Option Trace)
    → HeardLines n tid a m kept b
    → s.use_init_removal_heuristic_n ≡ n
    → s.accesses ≡ a
    → (out : Option Trace) × (s' : Tool) × (fence_loop tid ip current m backtrace s
        ≡ some (out, s'))
      × Step tid s s' kept b
unfolding fence_loop
fence_loop-Step s tid ip n current [] kept a b backtrace done en ea =
    (backtrace, s, refl, ([], sym (append_nil _), tt, refl, refl, (λ u other. refl), ea, refl))
fence_loop-Step s tid ip n current ((cl, line) ∷ rest) _ a c backtrace
      (next {b = b} {kept = kept} {kept' = kept'} heard more) en ea =
    let (trace, s1, run1, step1) =
      fence_line-Step s tid ip n current line kept a b backtrace heard en ea in
    let (out, s', run, step) =
      fence_loop-Step s1 tid ip n current rest kept' b c trace more (step1.7 ∙ en) step1.6 in
    (
      out,
      s',
      bind_value (fence_line tid ip current line backtrace) _ s s1 trace run1 ∙ run,
      Step-trans tid s s1 s' kept kept' b c step1 step,
    )

-- What a fence leaves.
abbrev Fenced : ℕ → Tool → Tool → Map StoreData → Type 0
Fenced tid s s' kept =
    (rs : List StoreFenceData) × ((s'.analysis_data_tls tid).flushed_mem_state ≡ [])
    × ((s'.analysis_data_tls tid).race_likely_stores
        ≡ (s.analysis_data_tls tid).race_likely_stores ++ rs)
    × Persisted (clock_index (s.analysis_data_tls tid)) rs kept
    × ((s'.analysis_data_tls tid).mem_state ≡ (s.analysis_data_tls tid).mem_state)
    × ((u : ℕ) → u ≢ tid → s'.analysis_data_tls u ≡ s.analysis_data_tls u)

fence_rest-Fenced :
    (s : Tool) (tid ip n : ℕ) (current : TimedPtr) (m : MemState) (kept : Map StoreData)
    (a b : Accesses)
    → HeardLines n tid a m kept b
    → (s.analysis_data_tls tid).flushed_mem_state ≡ m
    → s.use_init_removal_heuristic_n ≡ n
    → s.accesses ≡ a
    → (s' : Tool) × (fence_rest tid ip current m s ≡ some (tt, s')) × Fenced tid s s' kept
unfolding fence_rest
fence_rest-Fenced s tid ip n current [] kept a b done em en ea =
    (s, refl, ([], em, sym (append_nil _), tt, refl, (λ u other. refl)))
fence_rest-Fenced s tid ip n current (l ∷ ls) kept a b heard em en ea =
    let (out, s1, run, (rs, r, q, v, m, o, h, k)) =
      fence_loop-Step s tid ip n current (l ∷ ls) kept a b none heard en ea in
    let t : ThreadData = record (s1.analysis_data_tls tid) { flushed_mem_state = [] } in
    let same : put_thread s1.analysis_data_tls tid t tid ≡ t =
      put_same s1.analysis_data_tls tid t in
    (
      record s1 { analysis_data_tls = put_thread s1.analysis_data_tls tid t },
      bind_value (fence_loop tid ip current (l ∷ ls) none)
          (λ _. change_thread tid (λ d. record d { flushed_mem_state = [] })) s s1 out run,
      (
        rs,
        ap (λ d. d.flushed_mem_state) same,
        ap (λ d. d.race_likely_stores) same ∙ r,
        q,
        ap (λ d. d.mem_state) same ∙ m,
        (λ u other. put_other s1.analysis_data_tls tid u t other ∙ o u other),
      ),
    )

fence_steps :
    (s locked s' : Tool) (tid ip : ℕ) (is_rmw : Bool) (address size : ℕ) (p : TimedPtr)
    → (is_rmw && not (size == 0)) ≡ false
    → get_timedlockset tid s ≡ some (p, locked)
    → fence_rest tid ip p (locked.analysis_data_tls tid).flushed_mem_state locked ≡ some (tt, s')
    → process_fence tid ip is_rmw address size s ≡ some (tt, s')
unfolding process_fence
fence_steps s locked s' tid ip is_rmw address size p plain lock run =
    then_value (if is_rmw && not (size == 0) then process_store tid ip address size else pure tt) _
      s s (ap (λ c. (if c then process_store tid ip address size else pure tt) s) plain)
    ∙ (bind_value (get_timedlockset tid)
          (λ ls. get_thread_data tid >>= λ t. fence_rest tid ip ls t.flushed_mem_state) s locked p
          lock
        ∙ run)

-- A fence that is no read-modify-write of some bytes, or is one of no bytes, when the heuristic
-- answers on the flushed bytes: it returns, no byte is flushed any more, each flushed byte that the
-- heuristic keeps, and no other, is recorded as a persisted store, in order, with the backtrace of
-- its store and the clock of the thread at the fence, and the written bytes and the other threads
-- are as before.
pub process_fence_lem :
    (s : Tool) (tid ip : ℕ) (is_rmw : Bool) (address size : ℕ) (kept : Map StoreData) (b : Accesses)
    → (is_rmw && not (size == 0)) ≡ false
    → HeardLines s.use_init_removal_heuristic_n tid s.accesses
        (s.analysis_data_tls tid).flushed_mem_state
        kept
        b
    → (s' : Tool) × (process_fence tid ip is_rmw address size s ≡ some (tt, s'))
      × (rs : List StoreFenceData) × ((s'.analysis_data_tls tid).flushed_mem_state ≡ [])
      × ((s'.analysis_data_tls tid).race_likely_stores
          ≡ (s.analysis_data_tls tid).race_likely_stores ++ rs)
      × Persisted (clock_index (s.analysis_data_tls tid)) rs kept
      × ((s'.analysis_data_tls tid).mem_state ≡ (s.analysis_data_tls tid).mem_state)
      × ((u : ℕ) → u ≢ tid → s'.analysis_data_tls u ≡ s.analysis_data_tls u)
process_fence_lem s tid ip is_rmw address size kept b plain heard =
    let (p, locked, run_lock, own, others, checks, ea, en) = get_timedlockset_lem s tid in
    let em : (locked.analysis_data_tls tid).flushed_mem_state
        ≡ (s.analysis_data_tls tid).flushed_mem_state =
      ap (λ t. t.flushed_mem_state) own in
    let (s', run, (rs, f, r, q, m, o)) =
      fence_rest-Fenced locked tid ip s.use_init_removal_heuristic_n p _ kept s.accesses b heard em
        en ea in
    (
      s',
      fence_steps s locked s' tid ip is_rmw address size p plain run_lock
          (ap (λ l. fence_rest tid ip p l locked) em ∙ run),
      rs,
      f,
      r ∙ ap (λ t. t.race_likely_stores ++ rs) own,
      subst (λ c. Persisted c rs kept)
          (clock_index_same (locked.analysis_data_tls tid) (s.analysis_data_tls tid)
            (ap (λ t. t.vector_clocks) own))
          q,
      m ∙ ap (λ t. t.mem_state) own,
      (λ u other. o u other ∙ others u other),
    )
