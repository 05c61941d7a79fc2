-- ===== src/Run/Sound.antt =====
-- The pointers of the state are good in every run: src/hawkset.cpp.
use hawk_set.Handlers.{
  lock_before, write_lock_before, read_lock_before, unlock_before, rw_unlock_before, adq_rel_before,
  adq_rel_after,
}
use hawk_set.Map
use hawk_set.PmAlloc.{Bytes, PmAllocs, sys_before, sys_after}
use hawk_set.Protocol.{create_enter, start_init, join_finish, tid_of}
use hawk_set.Races.{tls_max_size}
use hawk_set.Run.{
  Event, instruction, locks, write_locks, read_locks, unlocks, rw_unlocks, tries, tried, adquires,
  releases, syscall, returns, syscall_entry, syscall_exit, run_event,
}
use hawk_set.Sound.{IsSound, IsStarted}
use hawk_set.Sound.Actions.{
  After, Any, After-bind, After-none, After-pure, After-same, After-if, After-choose,
  change_thread-After,
}
use hawk_set.Sound.Handlers.{run_hook-After, try_lock_before-After, try_lock_after-After}
use hawk_set.Sound.Locks.{process_lock-After}
use hawk_set.Sound.Threads.{
  process_thread_create-After, process_thread_init-After, process_thread_join-After,
}
use hawk_set.Threads.{process_thread_create, process_thread_init, process_thread_join}
use hawk_set.Tool.{Tool, M, ◌>>=◌, ◌>>◌, pure, change_thread}
use hawk_set.Prelude.{ℕ, refl, true, not, Option, none, some, ltb, ◌==◌}

syscall_entry-After :
    (s : Tool) (readlink : ℕ → Option Bytes) (num size flags fd prot address : ℕ)
    → IsSound s
    → After s Any (syscall_entry readlink num size flags fd prot address s)
unfolding syscall_entry
syscall_entry-After s readlink num size flags fd prot address sound =
    go (sys_before readlink num size flags fd prot address s.pm)
  where
    go :
        (o : Option PmAllocs)
        → After s Any (elim o [ none ↦ none | some pm ↦ some (tt, record s { pm = pm }) ])
    go none = After-none s Any
    go (some pm) = After-same s (record s { pm = pm }) Any tt refl refl refl sound tt

syscall_exit-After : (s : Tool) (value : ℕ) → IsSound s → After s Any (syscall_exit value s)
unfolding syscall_exit
syscall_exit-After s value sound = go (sys_after value s.pm)
  where
    go :
        (o : Option PmAllocs)
        → After s Any (elim o [ none ↦ none | some pm ↦ some (tt, record s { pm = pm }) ])
    go none = After-none s Any
    go (some pm) = After-same s (record s { pm = pm }) Any tt refl refl refl sound tt

pub run_event-After :
    (readlink : ℕ → Option Bytes) (s : Tool) (tid : ℕ) (e : Event)
    → IsSound s
    → IsStarted s tid
    → After s Any (run_event readlink tid e s)
unfolding run_event lock_before write_lock_before read_lock_before unlock_before rw_unlock_before
    adq_rel_before adq_rel_after
run_event-After readlink s tid (instruction hook o) sound started =
    run_hook-After s tid sound started hook o
run_event-After readlink s tid (locks mutex) sound started =
    process_lock-After s tid _ mutex _ sound
run_event-After readlink s tid (write_locks mutex) sound started =
    process_lock-After s tid _ mutex _ sound
run_event-After readlink s tid (read_locks mutex) sound started =
    process_lock-After s tid _ mutex _ sound
run_event-After readlink s tid (unlocks mutex) sound started =
    process_lock-After s tid _ mutex _ sound
run_event-After readlink s tid (rw_unlocks mutex) sound started =
    process_lock-After s tid _ mutex _ sound
run_event-After readlink s tid (tries ret_addr mutex result_address) sound started =
    try_lock_before-After s tid sound ret_addr mutex result_address
run_event-After readlink s tid (tried memory result success negate use_arg locktype) sound started =
    try_lock_after-After s tid sound memory result success negate use_arg locktype
run_event-After readlink s tid (adquires id) sound started = process_lock-After s tid _ id _ sound
run_event-After readlink s tid (releases id) sound started = process_lock-After s tid _ id _ sound
run_event-After readlink s tid (syscall num size flags fd prot address) sound started =
    syscall_entry-After s readlink num size flags fd prot address sound
run_event-After readlink s tid (returns value) sound started = syscall_exit-After s value sound

pub create_enter-After : (s : Tool) (tid pid : ℕ) → IsSound s → After s Any (create_enter tid pid s)
unfolding create_enter
create_enter-After s tid pid sound =
    After-bind s Any Any (λ s. some (tt, record s { creator_thread_id = some tid })) (λ x. rest)
      (After-same s _ Any tt refl refl refl sound tt)
      (λ x s1 sound1 e1 y.
        After-bind s1 Any Any (process_thread_create tid)
          (λ x s. some (tt, record s { created_pthread_id_address = pid }))
          (process_thread_create-After s1 tid sound1)
          (λ x s2 sound2 e2 y. After-same s2 _ Any tt refl refl refl sound2 tt))
  where
    rest : M (Unit {0})
    rest = do
      process_thread_create tid
      (λ s. some (tt, record s { created_pthread_id_address = pid }))

pub start_init-After :
    (s : Tool) (tid : ℕ) → IsSound s → After s (λ s' x. IsStarted s' tid) (start_init tid s)
unfolding start_init
start_init-After s tid sound =
    let ok = sound tid in
    let creator = s.creator_thread_id in
    After-if s (λ s' x. IsStarted s' tid) (not (ltb tid tls_max_size)) none _
      (After-none s (λ s' x. IsStarted s' tid))
      (After-bind s Any (λ s' x. IsStarted s' tid)
        (change_thread tid (λ t. record t { used = true })) (λ x. process_thread_init tid creator)
        (change_thread-After s tid (λ t. record t { used = true }) sound
          (record {
            stores = ok.stores;
            loads = ok.loads;
            written = ok.written;
            flushed = ok.flushed;
            remembered = ok.remembered;
          })
          (λ p x k. k))
        (λ x s1 sound1 e1 y. process_thread_init-After s1 tid creator sound1))

pub join_finish-After :
    (s : Tool) (tid result pid : ℕ) → IsSound s → After s Any (join_finish tid result pid s)
unfolding join_finish tid_of
join_finish-After s tid result pid sound =
    After-choose s Any (result == 0) (tid_of pid >>= λ exit_tid. process_thread_join tid exit_tid)
      (pure tt)
      (After-bind s Any Any (tid_of pid) (λ exit_tid. process_thread_join tid exit_tid)
        (known (Map.find pid s.pthread_id_to_tid))
        (λ exit_tid s1 sound1 e1 y. process_thread_join-After s1 tid exit_tid sound1))
      (After-pure s Any tt sound tt)
  where
    known :
        (o : Option ℕ)
        → After {A = ℕ} s Any (elim o [
          | none ↦ some (0, record s { pthread_id_to_tid = Map.assign pid 0 s.pthread_id_to_tid })
          | some tid ↦ some (tid, s)
        ])
    known none = After-same s _ Any 0 refl refl refl sound tt
    known (some t) = After-pure s Any t sound tt
