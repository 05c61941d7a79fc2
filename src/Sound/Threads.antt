-- ===== src/Sound/Threads.antt =====
-- `ProcessThreadCreate`, `ProcessThreadInit`, `ProcessThreadJoin` and `ProcessThreadExit` of
-- src/hawkset.cpp keep the pointers of the state good.
use hawk_set.Cache.{TimedPtr}
use hawk_set.Map
use hawk_set.Map.{Map}
use hawk_set.Memory.{register_unpersisted_store}
use hawk_set.Sound.{Has, IsLine, IsMemory, IsSound, IsStarted}
use hawk_set.Sound.Actions.{
  After, Any, After-bind, After-pure, After-same, After-if, After-some, After-weaken, put-IsSound,
  put-Extends, Extends-trans,
}
use hawk_set.Sound.Memory.{register_unpersisted_store-After}
use hawk_set.Sound.Pools.{get_timedlockset-After}
use hawk_set.Sound.Tables.{
  IsThread-grow, Grows-append, IsStored-Extends, IsLine-Extends, IsMemory-Extends,
  IsStarted-Extends,
}
use hawk_set.Threads.{
  last_clock, exit_clock, push_clock, process_thread_create, process_thread_init,
  process_thread_join, exit_line, exit_loop, unpersisted_at_exit, process_thread_exit,
}
use hawk_set.Tool.{
  StoreData, MemState, ThreadData, Tool, M, ◌>>=◌, ◌>>◌, pure, get_thread_data, get_timedlockset,
  put_same,
}
use hawk_set.VectorClock.{VectorClock, update_tid, update_clock}
use hawk_set.Prelude.{
  ℕ, refl, sym, subst, Bool, true, false, Option, none, some, List, [], ◌∷◌, ◌++◌, if◌then◌else◌,
}

-- The thread has a clock then.
push_clock-After :
    (s : Tool) (tid : ℕ) (vc : VectorClock)
    → IsSound s
    → After s (λ s' x. IsStarted s' tid) (push_clock tid vc s)
push_clock-After s tid vc sound =
    let t = s.analysis_data_tls tid in
    let u : ThreadData = record t { vector_clocks = t.vector_clocks ++ vc ∷ [] } in
    After-some s (λ s' x. IsStarted s' tid) tt _
      (put-IsSound s tid u sound (
        IsThread-grow s.caches s.caches s.backtraces s.backtraces (λ p x h. h) (λ p x h. h)
          (λ p x h. h) t u.vector_clocks (Grows-append t.vector_clocks (vc ∷ [])) (sound tid)))
      (put-Extends s tid u (Grows-append t.vector_clocks (vc ∷ [])))
      (subst (λ w. Has w.vector_clocks 0) (sym (put_same s.analysis_data_tls tid u))
        (first t.vector_clocks))
  where
    first : (clocks : List VectorClock) → Has (clocks ++ vc ∷ []) 0
    first [] = (vc, refl)
    first (x ∷ clocks) = (x, refl)

pub process_thread_create-After :
    (s : Tool) (tid : ℕ) → IsSound s → After s Any (process_thread_create tid s)
unfolding process_thread_create
process_thread_create-After s tid sound =
    let clock = update_tid (last_clock (s.analysis_data_tls tid).vector_clocks) tid in
    After-bind s Any Any (λ s. some (tt, record s { creator_thread_clock = clock }))
      (λ x. push_clock tid (update_tid clock tid))
      (After-same s (record s { creator_thread_clock = clock }) Any tt refl refl refl sound tt)
      (λ x s1 sound1 e1 y.
        After-weaken s1 (λ s' x. IsStarted s' tid) (push_clock tid (update_tid clock tid) s1)
          (push_clock-After s1 tid (update_tid clock tid) sound1))

pub process_thread_init-After :
    (s : Tool) (tid : ℕ) (creator : Option ℕ)
    → IsSound s
    → After s (λ s' x. IsStarted s' tid) (process_thread_init tid creator s)
unfolding process_thread_init
process_thread_init-After s tid creator sound = push_clock-After s tid _ sound

pub process_thread_join-After :
    (s : Tool) (tid exit_tid : ℕ) → IsSound s → After s Any (process_thread_join tid exit_tid s)
unfolding process_thread_join
process_thread_join-After s tid exit_tid sound =
    let clock = update_tid (last_clock (s.analysis_data_tls tid).vector_clocks) tid in
    let exited = exit_clock exit_tid s.exit_threads_clock in
    let exits = Map.assign exit_tid exited s.exit_threads_clock in
    After-bind s Any Any (λ s. some (tt, record s { exit_threads_clock = exits }))
      (λ x. push_clock tid (update_clock clock exited))
      (After-same s (record s { exit_threads_clock = exits }) Any tt refl refl refl sound tt)
      (λ x s1 sound1 e1 y.
        After-weaken s1 (λ s' x. IsStarted s' tid) (push_clock tid (update_clock clock exited) s1)
          (push_clock-After s1 tid (update_clock clock exited) sound1))

exit_line-After :
    (s : Tool) (tid : ℕ) (line : Map StoreData) (was_flushed : Bool)
    → IsSound s
    → IsStarted s tid
    → IsLine s.caches s.backtraces line
    → After s Any (exit_line tid line was_flushed s)
unfolding exit_line
exit_line-After s tid [] was_flushed sound started good = After-pure s Any tt sound tt
exit_line-After s tid ((address, stored) ∷ rest) was_flushed sound started good =
    After-bind s _ Any (get_timedlockset tid) store (get_timedlockset-After s tid sound)
      (λ current s1 sound1 e1 held.
        After-bind s1 Any Any
          (register_unpersisted_store tid address stored current none was_flushed)
          (λ x. exit_line tid rest was_flushed)
          (register_unpersisted_store-After s1 tid address stored current none was_flushed sound1
            (IsStarted-Extends s s1 e1 tid started) (IsStored-Extends s s1 e1 stored good.0) refl)
          (λ x s2 sound2 e2 y.
            let e = Extends-trans s s1 s2 e1 e2 in
            exit_line-After s2 tid rest was_flushed sound2 (IsStarted-Extends s s2 e tid started)
              (IsLine-Extends s s2 e rest good.1)))
  where
    store : TimedPtr → M (Unit {0})
    store current = do
      register_unpersisted_store tid address stored current none was_flushed
      exit_line tid rest was_flushed

exit_loop-After :
    (s : Tool) (tid : ℕ) (m : MemState) (was_flushed : Bool)
    → IsSound s
    → IsStarted s tid
    → IsMemory s.caches s.backtraces m
    → After s Any (exit_loop tid m was_flushed s)
unfolding exit_loop
exit_loop-After s tid [] was_flushed sound started good = After-pure s Any tt sound tt
exit_loop-After s tid ((cl, line) ∷ rest) was_flushed sound started good =
    After-bind s Any Any (exit_line tid line was_flushed) (λ x. exit_loop tid rest was_flushed)
      (exit_line-After s tid line was_flushed sound started good.0)
      (λ x s1 sound1 e1 y.
        exit_loop-After s1 tid rest was_flushed sound1 (IsStarted-Extends s s1 e1 tid started)
          (IsMemory-Extends s s1 e1 rest good.1))

unpersisted_at_exit-After :
    (s : Tool) (tid : ℕ) → IsSound s → IsStarted s tid → After s Any (unpersisted_at_exit tid s)
unfolding unpersisted_at_exit
unpersisted_at_exit-After s tid sound started =
    let t = s.analysis_data_tls tid in
    After-bind s Any Any (exit_loop tid t.mem_state false)
      (λ x. exit_loop tid t.flushed_mem_state true)
      (exit_loop-After s tid t.mem_state false sound started (sound tid).written)
      (λ x s1 sound1 e1 y.
        exit_loop-After s1 tid t.flushed_mem_state true sound1
          (IsStarted-Extends s s1 e1 tid started)
          (IsMemory-Extends s s1 e1 t.flushed_mem_state (sound tid).flushed))

pub process_thread_exit-After :
    (s : Tool) (tid : ℕ) → IsSound s → IsStarted s tid → After s Any (process_thread_exit tid s)
unfolding process_thread_exit
process_thread_exit-After s tid sound started =
    After-bind s Any Any checks (λ x. clocks)
      (After-if s Any s.check_unpersisted_stores (unpersisted_at_exit tid s) (pure tt s)
        (unpersisted_at_exit-After s tid sound started) (After-pure s Any tt sound tt))
      (λ x s1 sound1 e1 y.
        let clock = update_tid (last_clock (s1.analysis_data_tls tid).vector_clocks) tid in
        After-bind s1 (λ s' x. IsStarted s' tid) Any (push_clock tid clock)
          (λ x s.
            some (tt, record s { exit_threads_clock = Map.assign tid clock s.exit_threads_clock }))
          (push_clock-After s1 tid clock sound1)
          (λ x s2 sound2 e2 y. After-same s2 _ Any tt refl refl refl sound2 tt))
  where
    checks : M (Unit {0})
    checks s = if s.check_unpersisted_stores then unpersisted_at_exit tid s else pure tt s

    clocks : M (Unit {0})
    clocks = do
      tdata ← get_thread_data tid
      let clock = update_tid (last_clock tdata.vector_clocks) tid
      push_clock tid clock
      (λ s. some (tt, record s { exit_threads_clock = Map.assign tid clock s.exit_threads_clock }))
