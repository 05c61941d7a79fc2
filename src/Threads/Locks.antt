-- ===== src/Threads/Locks.antt =====
-- What the locks of a thread become: `ProcessLock` of src/hawkset.cpp.
use hawk_set.Registry.Laws.{IsRegistry}
use hawk_set.Threads.{
  Instruction, store, non_temporal_store, clflush, clflushopt, clwb, fence, rmw, load, lock,
  try_lock, unlock, wrlock, try_wrlock, rdlock, try_rdlock, rwunlock, error, LockAction, acquire,
  release, ignore, lock_action, acquire_lock, release_lock, process_lock,
}
use hawk_set.TimedLockset
use hawk_set.TimedLockset.Locks.{acquired_at, acquired_at-lock, acquired_at-unlock}
use hawk_set.Tool.{ThreadData, Tool, put_thread, put_same, put_other, M, pure}
use hawk_set.Prelude.{
  ℕ, ◌+◌, ◌%◌, ◌^◌, ◌<◌, ◌≡◌, ◌≢◌, refl, ap, subst, ◌∙◌, false, Option, none, some, ◌==◌,
  if◌then◌else◌,
}

-- The acquisition of the lock at an address that the thread still holds.
abbrev pub held : Tool → ℕ → ℕ → Option ℕ
held s tid m = acquired_at s.registry (s.analysis_data_tls tid).current_timedlockset m

-- What each instruction is to do: the six that take a lock, the two that give it back, and the others.
unfoldable pub meaning : Instruction → LockAction
meaning lock = acquire
meaning try_lock = acquire
meaning unlock = release
meaning wrlock = acquire
meaning try_wrlock = acquire
meaning rdlock = acquire
meaning try_rdlock = acquire
meaning rwunlock = release
meaning store = ignore
meaning non_temporal_store = ignore
meaning clflush = ignore
meaning clflushopt = ignore
meaning clwb = ignore
meaning fence = ignore
meaning rmw = ignore
meaning load = ignore
meaning error = ignore

lock_action-meaning : (instruction : Instruction) → lock_action instruction ≡ meaning instruction
unfolding lock_action meaning
lock_action-meaning lock = refl
lock_action-meaning try_lock = refl
lock_action-meaning unlock = refl
lock_action-meaning wrlock = refl
lock_action-meaning try_wrlock = refl
lock_action-meaning rdlock = refl
lock_action-meaning try_rdlock = refl
lock_action-meaning rwunlock = refl
lock_action-meaning store = refl
lock_action-meaning non_temporal_store = refl
lock_action-meaning clflush = refl
lock_action-meaning clflushopt = refl
lock_action-meaning clwb = refl
lock_action-meaning fence = refl
lock_action-meaning rmw = refl
lock_action-meaning load = refl
lock_action-meaning error = refl

-- What an action on a lock leaves of the locks held.
abbrev pub after_action : LockAction → Tool → ℕ → ℕ → ℕ → Option ℕ
after_action acquire s tid mutex m =
    if m == mutex then some (s.analysis_data_tls tid).lock_clock else held s tid m
after_action release s tid mutex m = if m == mutex then none else held s tid m
after_action ignore s tid mutex m = held s tid m

-- An action on the lock at an address, by a thread: it returns, the thread holds what the action
-- leaves, and the other threads have the data that they had.
abbrev pub Acts : LockAction → ℕ → ℕ → M (Unit {0}) → Tool → Type 0
Acts a tid mutex m s =
    (s' : Tool) × (m s ≡ some (tt, s'))
    × ((address : ℕ) → held s' tid address ≡ after_action a s tid mutex address)
    × ((u : ℕ) → u ≢ tid → s'.analysis_data_tls u ≡ s.analysis_data_tls u)

module _ (s : Tool) (tid mutex : ℕ) (room : s.registry.lock_counter + 1 < 2 ^ 64)
    (v : IsRegistry s.registry) where
  acquire_lock-Acts : Acts acquire tid mutex (acquire_lock tid mutex false) s
  unfolding acquire_lock
  acquire_lock-Acts =
      let t : ThreadData = s.analysis_data_tls tid in
      let (tls, r) = TimedLockset.lock s.registry t.current_timedlockset mutex t.lock_clock in
      let t' : ThreadData = record t {
        lock_clock = (t.lock_clock + 1) % 2 ^ 32;
        current_timedlockset = tls;
      } in
      (
        record s { analysis_data_tls = put_thread s.analysis_data_tls tid t'; registry = r },
        refl,
        (λ address.
            ap (λ (d : ThreadData). acquired_at r d.current_timedlockset address)
              (put_same s.analysis_data_tls tid t')
            ∙ acquired_at-lock s.registry t.current_timedlockset mutex address room v t.lock_clock),
        (λ u other. put_other s.analysis_data_tls tid u t' other),
      )

  release_lock-Acts : Acts release tid mutex (release_lock tid mutex false) s
  unfolding release_lock
  release_lock-Acts =
      let t : ThreadData = s.analysis_data_tls tid in
      let (tls, r) = TimedLockset.unlock s.registry t.current_timedlockset mutex in
      let t' : ThreadData = record t { current_timedlockset = tls } in
      (
        record s { analysis_data_tls = put_thread s.analysis_data_tls tid t'; registry = r },
        refl,
        (λ address.
            ap (λ (d : ThreadData). acquired_at r d.current_timedlockset address)
              (put_same s.analysis_data_tls tid t')
            ∙ acquired_at-unlock s.registry t.current_timedlockset mutex address room v),
        (λ u other. put_other s.analysis_data_tls tid u t' other),
      )

  action-Acts :
      (a : LockAction)
      → Acts a tid mutex
          (elim a [
            | acquire ↦ acquire_lock tid mutex false
            | release ↦ release_lock tid mutex false
            | ignore ↦ pure tt
          ])
          s
  action-Acts acquire = acquire_lock-Acts
  action-Acts release = release_lock-Acts
  action-Acts ignore = (s, refl, (λ address. refl), (λ u other. refl))

module _ (s s' : Tool) (tid mutex address : ℕ) (r : s'.registry ≡ s.registry)
    (tls : (s'.analysis_data_tls tid).current_timedlockset
      ≡ (s.analysis_data_tls tid).current_timedlockset)
    (clock : (s'.analysis_data_tls tid).lock_clock ≡ (s.analysis_data_tls tid).lock_clock) where
  pub held-same : held s' tid address ≡ held s tid address
  held-same =
      ap (λ q. acquired_at q (s'.analysis_data_tls tid).current_timedlockset address) r
      ∙ ap (λ l. acquired_at s.registry l address) tls

  pub after_action-same :
      (a : LockAction) → after_action a s' tid mutex address ≡ after_action a s tid mutex address
  after_action-same acquire =
      ap (λ c. if address == mutex then some c else held s' tid address) clock
      ∙ ap (λ h. if address == mutex then some (s.analysis_data_tls tid).lock_clock else h)
          held-same
  after_action-same release = ap (λ h. if address == mutex then none else h) held-same
  after_action-same ignore = held-same

does-Acts :
    (s : Tool) (tid : ℕ) (instruction : Instruction) (mutex : ℕ)
    → s.registry.lock_counter + 1 < 2 ^ 64
    → IsRegistry s.registry
    → Acts (lock_action instruction) tid mutex (process_lock tid instruction mutex false) s
unfolding process_lock
does-Acts s tid instruction mutex room v =
    let t : ThreadData = record (s.analysis_data_tls tid) { cached_timedlockset = none } in
    let forgot : Tool = record s { analysis_data_tls = put_thread s.analysis_data_tls tid t } in
    let same : put_thread s.analysis_data_tls tid t tid ≡ t = put_same s.analysis_data_tls tid t in
    let (s', run, holds, others) = action-Acts forgot tid mutex room v (lock_action instruction) in
    (
      s',
      run,
      (λ address.
          holds address
          ∙ after_action-same s forgot tid mutex address refl
              (ap (λ (d : ThreadData). d.current_timedlockset) same)
              (ap (λ (d : ThreadData). d.lock_clock) same) (lock_action instruction)),
      (λ u other. others u other ∙ put_other s.analysis_data_tls tid u t other),
    )

-- A lock that is no special one, when the numbers of the locks are distinct and below their counter,
-- which does not wrap: the thread comes to hold the lock at the address from the next of
-- its own times, if the instruction is one of `LOCK`, `TRY_LOCK`, `WRLOCK`, `TRY_WRLOCK`, `RDLOCK` and
-- `TRY_RDLOCK`, no longer holds it if it is `UNLOCK` or `RWUNLOCK`, and holds what it held if it is
-- another; every other address is as before, and so is every other thread.
pub process_lock-Acts :
    (s : Tool) (tid : ℕ) (instruction : Instruction) (mutex : ℕ)
    → s.registry.lock_counter + 1 < 2 ^ 64
    → IsRegistry s.registry
    → Acts (meaning instruction) tid mutex (process_lock tid instruction mutex false) s
process_lock-Acts s tid instruction mutex room v =
    subst (λ a. Acts a tid mutex (process_lock tid instruction mutex false) s)
      (lock_action-meaning instruction) (does-Acts s tid instruction mutex room v)
