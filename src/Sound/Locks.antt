-- ===== src/Sound/Locks.antt =====
-- `ProcessLock` of src/hawkset.cpp keeps the pointers of the state good: the remembered one is forgotten
-- before the locks change.
use hawk_set.Sound.{IsThread, IsSound}
use hawk_set.Sound.Actions.{
  After, Any, After-bind, After-earlier, After-pure, After-same, After-some, put-IsSound,
  put-Extends,
}
use hawk_set.Threads.{
  Instruction, LockAction, acquire, release, ignore, lock_action, get_next_id, acquire_lock,
  release_lock, process_lock,
}
use hawk_set.Registry.{Registry}
use hawk_set.TimedLockset.{TimedLockset}
use hawk_set.Tool.{ThreadData, Tool, M, pure, change_thread, put_thread, put_same}
use hawk_set.Prelude.{ℕ, ◌≡◌, refl, ap, Bool, true, false, none, some}

-- A thread that remembers no pointer may hold any locks.
abbrev IsFree : Tool → ℕ → Type 0
IsFree s tid = (s.analysis_data_tls tid).cached_timedlockset ≡ none

free-IsThread :
    (s : Tool) (tid : ℕ) (held : TimedLockset) (id : ℕ)
    → IsSound s
    → IsFree s tid
    → IsThread s.caches s.backtraces
        (record (s.analysis_data_tls tid) { current_timedlockset = held; lock_clock = id })
free-IsThread s tid held id sound free =
    let ok = sound tid in
    record {
      stores = ok.stores;
      loads = ok.loads;
      written = ok.written;
      flushed = ok.flushed;
      remembered = rw free tt;
    }

-- The thread takes other locks.
held-After :
    (s : Tool) (tid : ℕ) (held : TimedLockset) (id : ℕ) (r : Registry)
    → IsSound s
    → IsFree s tid
    → After s Any (
        some (
          tt,
          record s {
            analysis_data_tls =
                put_thread s.analysis_data_tls tid (record (s.analysis_data_tls tid) {
                  current_timedlockset = held;
                  lock_clock = id;
                });
            registry = r;
          },
        ))
held-After s tid held id r sound free =
    let t : ThreadData = record (s.analysis_data_tls tid) {
      current_timedlockset = held;
      lock_clock = id;
    } in
    let mid : Tool = record s { analysis_data_tls = put_thread s.analysis_data_tls tid t } in
    After-earlier mid Any s (put-Extends s tid t (λ p x k. k)) _ (
      After-same mid (record mid { registry = r }) Any tt refl refl refl
        (put-IsSound s tid t sound (free-IsThread s tid held id sound free)) tt)

acquire_lock-After :
    (s : Tool) (tid mutex : ℕ) (special : Bool)
    → IsSound s
    → IsFree s tid
    → After s Any (acquire_lock tid mutex special s)
unfolding acquire_lock get_next_id
acquire_lock-After s tid mutex true sound free = held-After s tid _ _ s.registry sound free
acquire_lock-After s tid mutex false sound free = held-After s tid _ _ _ sound free

release_lock-After :
    (s : Tool) (tid mutex : ℕ) (special : Bool)
    → IsSound s
    → IsFree s tid
    → After s Any (release_lock tid mutex special s)
unfolding release_lock
release_lock-After s tid mutex true sound free =
    held-After s tid _ (s.analysis_data_tls tid).lock_clock s.registry sound free
release_lock-After s tid mutex false sound free =
    held-After s tid _ (s.analysis_data_tls tid).lock_clock _ sound free

pub process_lock-After :
    (s : Tool) (tid : ℕ) (locktype : Instruction) (mutex : ℕ) (special : Bool)
    → IsSound s
    → After s Any (process_lock tid locktype mutex special s)
unfolding process_lock
process_lock-After s tid locktype mutex special sound =
    After-bind s IsFreeAfter Any (change_thread tid forget) (λ x. act (lock_action locktype))
      (After-some s IsFreeAfter tt _ (put-IsSound s tid (forget t) sound good)
        (put-Extends s tid (forget t) (λ p x k. k))
        (ap (λ u. u.cached_timedlockset) (put_same s.analysis_data_tls tid (forget t))))
      (λ x s1 sound1 e1 free. act-After (lock_action locktype) s1 sound1 free)
  where
    t : ThreadData
    t = s.analysis_data_tls tid

    forget : ThreadData → ThreadData
    forget u = record u { cached_timedlockset = none }

    good : IsThread s.caches s.backtraces (forget t)
    good =
        let ok = sound tid in
        record {
          stores = ok.stores;
          loads = ok.loads;
          written = ok.written;
          flushed = ok.flushed;
          remembered = tt;
        }

    IsFreeAfter : Tool → Unit {0} → Type 0
    IsFreeAfter s' x = IsFree s' tid

    act : LockAction → M (Unit {0})
    act a = elim a [
      | acquire ↦ acquire_lock tid mutex special
      | release ↦ release_lock tid mutex special
      | ignore ↦ pure tt
    ]

    act-After : (a : LockAction) (s1 : Tool) → IsSound s1 → IsFree s1 tid → After s1 Any (act a s1)
    act-After acquire s1 sound1 free = acquire_lock-After s1 tid mutex special sound1 free
    act-After release s1 sound1 free = release_lock-After s1 tid mutex special sound1 free
    act-After ignore s1 sound1 free = After-pure s1 Any tt sound1 tt
