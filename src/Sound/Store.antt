-- ===== src/Sound/Store.antt =====
-- `CheckOverwrite` and `ProcessStore` of src/hawkset.cpp keep the pointers of the state good.
use hawk_set.Backtrace.{Trace}
use hawk_set.Cache.{TimedPtr}
use hawk_set.Map
use hawk_set.Map.{Map}
use hawk_set.Memory.{
  Which, written, flushed, state_of, with_state, line_of, put_byte, register_unpersisted_store,
  check_overwrite, store_byte, store_loop, process_store,
}
use hawk_set.Sound.{Has, IsStored, IsEntry, IsLine, IsKeyedLine, IsSound, IsStarted, Extends}
use hawk_set.Sound.Actions.{After, Any, After-bind, After-pure, After-if, Extends-trans}
use hawk_set.Sound.Memory.{register_unpersisted_store-After}
use hawk_set.Sound.Pools.{get_backtrace-After, get_timedlockset-After, handle_access-After}
use hawk_set.Sound.Tables.{
  assign-All, erase-All, find-All, IsStored-Extends, IsLine-Extends, IsStarted-Extends, Grows-Has,
}
use hawk_set.Tool.{
  StoreData, MemState, Tool, M, ◌>>=◌, ◌>>◌, pure, handle_access, get_backtrace, get_timedlockset,
  change_thread, cache_line,
}
use hawk_set.Prelude.{
  ℕ, zero, suc, ◌+◌, ◌-◌, ◌%◌, ◌^◌, ◌≡◌, refl, Bool, true, false, Option, none, some, get_elem?,
  if◌then◌else◌,
}
use hawk_set.Sound.Lines.{line_of-IsLine, put_byte-IsMemory, state_of-IsMemory, change_state-After}

check_overwrite-After :
    (s : Tool) (tid address : ℕ) (which : Which) (ls : TimedPtr) (trace : Trace)
    (was_flushed : Bool)
    → IsSound s
    → IsStarted s tid
    → Has s.backtraces trace
    → After s Any (check_overwrite tid address which ls trace was_flushed s)
unfolding check_overwrite
check_overwrite-After s tid address which ls trace was_flushed sound started traced =
    After-bind s Any Any
      (change_thread tid (λ t. with_state which (looked_up (state_of which t)) t))
      (λ x. rest (Map.find address line))
      (change_state-After s tid which looked_up sound
        (λ m h. assign-All (IsKeyedLine s.caches s.backtraces) cl line m line_good h))
      (λ x s1 sound1 e1 y. rest-After (Map.find address line) refl s1 sound1 e1)
  where
    cl : ℕ
    cl = cache_line address

    line : Map StoreData
    line = line_of cl (state_of which (s.analysis_data_tls tid))

    looked_up : MemState → MemState
    looked_up m = Map.assign cl line m

    line_good : IsLine s.caches s.backtraces line
    line_good =
        line_of-IsLine s.caches s.backtraces cl (state_of which (s.analysis_data_tls tid))
          (state_of-IsMemory s.caches s.backtraces which (s.analysis_data_tls tid) (sound tid))

    erased : MemState → MemState
    erased m = Map.assign cl (Map.erase address line) m

    rest : Option StoreData → M (Unit {0})
    rest none = pure tt
    rest (some stored) = do
      register_unpersisted_store tid address stored ls (some trace) was_flushed
      change_thread tid (λ t. with_state which (erased (state_of which t)) t)

    rest-After :
        (o : Option StoreData)
        → Map.find address line ≡ o
        → (s1 : Tool) → IsSound s1
        → Extends s s1
        → After s1 Any (rest o s1)
    rest-After none e s1 sound1 e1 = After-pure s1 Any tt sound1 tt
    rest-After (some stored) e s1 sound1 e1 =
        After-bind s1 Any Any
          (register_unpersisted_store tid address stored ls (some trace) was_flushed)
          (λ x. change_thread tid (λ t. with_state which (erased (state_of which t)) t))
          (register_unpersisted_store-After s1 tid address stored ls (some trace) was_flushed sound1
            (IsStarted-Extends s s1 e1 tid started)
            (IsStored-Extends s s1 e1 stored
              (find-All (IsEntry s.caches s.backtraces) address stored line e line_good))
            (Grows-Has s.backtraces s1.backtraces trace e1.traces traced))
          (λ x s2 sound2 e2 y. change_state-After s2 tid which erased sound2 (λ m h.
            assign-All (IsKeyedLine s2.caches s2.backtraces) cl (Map.erase address line) m
              (erase-All (IsEntry s2.caches s2.backtraces) address line
                (IsLine-Extends s s2 (Extends-trans s s1 s2 e1 e2) line line_good))
              h))

store_byte-After :
    (s : Tool) (tid address : ℕ) (stored : StoreData)
    → IsSound s
    → IsStarted s tid
    → IsStored s.caches s.backtraces stored
    → After s Any (store_byte tid address stored s)
unfolding store_byte
store_byte-After s tid address stored sound started good =
    After-bind s Any Any overwritten
      (λ x. change_thread tid (λ t. with_state written (put (state_of written t)) t)) checks
      (λ x s1 sound1 e1 y. change_state-After s1 tid written put sound1 (λ m.
        put_byte-IsMemory s1.caches s1.backtraces (cache_line address) address stored m
          (IsStored-Extends s s1 e1 stored good)))
  where
    put : MemState → MemState
    put m = put_byte (cache_line address) address stored m

    both : M (Unit {0})
    both = do
      check_overwrite tid address written stored.timed_lockset stored.backtrace false
      check_overwrite tid address flushed stored.timed_lockset stored.backtrace true

    overwritten : M (Unit {0})
    overwritten s = if s.check_unpersisted_stores then both s else pure tt s

    checks : After s Any (overwritten s)
    checks =
        After-if s Any s.check_unpersisted_stores (both s) (pure tt s)
          (After-bind s Any Any
            (check_overwrite tid address written stored.timed_lockset stored.backtrace false)
            (λ x. check_overwrite tid address flushed stored.timed_lockset stored.backtrace true)
            (check_overwrite-After s tid address written stored.timed_lockset stored.backtrace false
              sound started good.1)
            (λ x s1 sound1 e1 y.
              check_overwrite-After s1 tid address flushed stored.timed_lockset stored.backtrace
                true sound1 (IsStarted-Extends s s1 e1 tid started)
                (IsStored-Extends s s1 e1 stored good).1))
          (After-pure s Any tt sound tt)

store_loop-After :
    (rounds : ℕ) (s : Tool) (tid address : ℕ) (stored : StoreData)
    → IsSound s
    → IsStarted s tid
    → IsStored s.caches s.backtraces stored
    → After s Any (store_loop rounds tid address stored s)
unfolding store_loop
store_loop-After zero s tid address stored sound started good = After-pure s Any tt sound tt
store_loop-After (suc rounds) s tid address stored sound started good =
    After-bind s Any Any (store_byte tid address stored)
      (λ x. store_loop rounds tid (address + 1) stored)
      (store_byte-After s tid address stored sound started good)
      (λ x s1 sound1 e1 y.
        store_loop-After rounds s1 tid (address + 1) stored sound1
          (IsStarted-Extends s s1 e1 tid started) (IsStored-Extends s s1 e1 stored good))

pub process_store-After :
    (s : Tool) (tid ip address size : ℕ)
    → IsSound s
    → IsStarted s tid
    → After s Any (process_store tid ip address size s)
unfolding process_store
process_store-After s tid ip address size sound started =
    After-bind s Any Any (handle_access tid address size) (λ x. traces)
      (handle_access-After s tid address size sound)
      (λ mask s1 sound1 e1 x.
        After-bind s1 (λ s' trace. Has s'.backtraces trace) Any (get_backtrace tid ip) locks
          (get_backtrace-After s1 tid ip sound1)
          (λ backtrace s2 sound2 e2 traced.
            After-bind s2
              (λ s' p.
                get_elem? s'.caches.timed_locksets p
                ≡ some (s2.analysis_data_tls tid).current_timedlockset)
              Any (get_timedlockset tid) (loop backtrace) (get_timedlockset-After s2 tid sound2)
              (λ tls s3 sound3 e3 held.
                store_loop-After ((address + size) % 2 ^ 64 - address) s3 tid address _ sound3
                  (IsStarted-Extends s s3 (Extends-trans s s1 s3 e1 (Extends-trans s1 s2 s3 e2 e3))
                    tid started)
                  ((_, held), Grows-Has s2.backtraces s3.backtraces backtrace e3.traces traced))))
  where
    loop : Trace → TimedPtr → M (Unit {0})
    loop backtrace tls =
        store_loop ((address + size) % 2 ^ 64 - address) tid address
          (record { timed_lockset = tls; backtrace = backtrace })

    locks : Trace → M (Unit {0})
    locks backtrace = get_timedlockset tid >>= loop backtrace

    traces : M (Unit {0})
    traces = get_backtrace tid ip >>= locks
