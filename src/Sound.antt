-- ===== src/Sound.antt =====
-- What the pointers of the tool's state, src/hawkset.cpp, refer to: the locksets and timed locksets
-- of the caches, the traces of `backtraces`, and the clocks of the thread. An action keeps them all
-- good, and nothing that they refer to goes away.
pub mod Tables
pub mod Actions
pub mod Pools
pub mod Memory
pub mod Lines
pub mod Store
pub mod Fence
pub mod Locks
pub mod Threads
pub mod Handlers
pub mod Loads
use hawk_set.Backtrace.{Trace}
use hawk_set.Cache.{LocksetPtr, empty_lockset, cached, TimedPtr, Caches}
use hawk_set.Map.{Map}
use hawk_set.TimedLockset.{TimedLockset}
use hawk_set.Tool.{StoreFenceData, StoreData, AccessKey, MemState, LocksetSet, ThreadData, Tool}
use hawk_set.VectorClock.{VectorClock}
use hawk_set.Prelude.{ℕ, ◌≡◌, Bool, true, false, Option, none, some, List, [], ◌∷◌, get_elem?}

-- The list has an element at the position.
abbrev pub Has : {A : Type 0} → List A → ℕ → Type 0
Has {A} xs p = (x : A) × (get_elem? xs p ≡ some x)

-- The second list has what the first one has, at the same positions.
abbrev pub Grows : {A : Type 0} → List A → List A → Type 0
Grows {A} xs ys = (p : ℕ) (x : A) → get_elem? xs p ≡ some x → get_elem? ys p ≡ some x

abbrev pub All : {A : Type 0} → (A → Type 0) → List A → Type 0
All P [] = Unit {0}
All P (x ∷ xs) = P x × All P xs

-- A `pLockset` is the empty one or in the cache.
abbrev pub IsLocksetPtr : Caches → LocksetPtr → Type 0
IsLocksetPtr c empty_lockset = Unit {0}
IsLocksetPtr c (cached p) = Has c.locksets p

-- The trace of a persisted store's fence is not null.
abbrev pub IsFenceTrace : List (List ℕ) → Bool → Option Trace → Type 0
IsFenceTrace pool persisted (some trace) = Has pool trace
IsFenceTrace pool persisted none = persisted ≡ false

abbrev pub IsStoreRecord : Caches → List (List ℕ) → List VectorClock → StoreFenceData → Type 0
IsStoreRecord c pool clocks d =
    IsLocksetPtr c d.common_set
    × Has clocks d.clock_i
    × Has pool d.write_trace
    × IsFenceTrace pool d.persisted d.fence_trace

abbrev pub IsLoadRecord :
    Caches → List (List ℕ) → List VectorClock → (AccessKey × LocksetSet) → Type 0
IsLoadRecord c pool clocks (key, locksets) =
    Has clocks key.clock_i × Has pool key.backtrace × All (IsLocksetPtr c) locksets

abbrev pub IsStored : Caches → List (List ℕ) → StoreData → Type 0
IsStored c pool d = Has c.timed_locksets d.timed_lockset × Has pool d.backtrace

abbrev pub IsEntry : Caches → List (List ℕ) → (ℕ × StoreData) → Type 0
IsEntry c pool (address, d) = IsStored c pool d

abbrev pub IsLine : Caches → List (List ℕ) → Map StoreData → Type 0
IsLine c pool line = All (IsEntry c pool) line

abbrev pub IsKeyedLine : Caches → List (List ℕ) → (ℕ × Map StoreData) → Type 0
IsKeyedLine c pool (cl, line) = IsLine c pool line

abbrev pub IsMemory : Caches → List (List ℕ) → MemState → Type 0
IsMemory c pool m = All (IsKeyedLine c pool) m

-- The pointer that a thread remembers is that of the locks that it holds.
abbrev pub IsRemembered : List TimedLockset → Option TimedPtr → TimedLockset → Type 0
IsRemembered pool none current = Unit {0}
IsRemembered pool (some p) current = get_elem? pool p ≡ some current

pub record IsThread (c : Caches) (pool : List (List ℕ)) (t : ThreadData) : Type 0 where
  pub stores : All (IsStoreRecord c pool t.vector_clocks) t.race_likely_stores
  pub loads : All (IsLoadRecord c pool t.vector_clocks) t.race_likely_loads
  pub written : IsMemory c pool t.mem_state
  pub flushed : IsMemory c pool t.flushed_mem_state
  pub remembered : IsRemembered c.timed_locksets t.cached_timedlockset t.current_timedlockset

abbrev pub IsSound : Tool → Type 0
IsSound s = (tid : ℕ) → IsThread s.caches s.backtraces (s.analysis_data_tls tid)

-- The thread has a clock.
abbrev pub IsStarted : Tool → ℕ → Type 0
IsStarted s tid = Has (s.analysis_data_tls tid).vector_clocks 0

-- What the first state's pointers refer to is there in the second one.
pub record Extends (s s' : Tool) : Type 0 where
  pub locksets : Grows s.caches.locksets s'.caches.locksets
  pub timed_locksets : Grows s.caches.timed_locksets s'.caches.timed_locksets
  pub traces : Grows s.backtraces s'.backtraces
  pub clocks :
      (tid : ℕ)
      → Grows (s.analysis_data_tls tid).vector_clocks (s'.analysis_data_tls tid).vector_clocks
