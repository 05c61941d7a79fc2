-- ===== src/Tool.antt =====
-- The state of the tool, src/hawkset.cpp: the data of each thread, and what all threads share. A
-- handler is an action on this state; a failed assertion stops it.
use hawk_set.Backtrace
use hawk_set.Backtrace.{Trace}
use hawk_set.Bitset
use hawk_set.Bitset.{Bitset}
use hawk_set.Cache
use hawk_set.Cache.{LocksetPtr, TimedPtr, Caches}
use hawk_set.Heuristic
use hawk_set.Heuristic.{Accesses}
use hawk_set.Map.{Map}
use hawk_set.PmAlloc.{PmAllocs}
use hawk_set.Registry.{Registry}
use hawk_set.TimedLockset.{TimedLockset}
use hawk_set.VectorClock.{VectorClock}
use hawk_set.Prelude.{
  refl, inl, inr, Option-cases, ap, ◌≢◌, ◌≡◌, arith, ==_iff, ℕ, ◌+◌, ◌-◌, ◌*◌, ◌/◌, ◌%◌, ◌^◌, Bool,
  ◌&&◌, Option, none, some, List, ◌==◌, if◌then◌else◌, length,
}

pub record StoreFenceData : Type 0 where
  pub common_set : LocksetPtr
  pub clock_i : ℕ
  pub write_trace : Trace
  pub fence_trace : Option Trace
  pub address : ℕ
  pub persisted : Bool
  pub was_flushed : Bool

pub record StoreData : Type 0 where
  pub timed_lockset : TimedPtr
  pub backtrace : Trace

-- `access_key_t`
pub record AccessKey : Type 0 where
  pub address : ℕ
  pub backtrace : Trace
  pub clock_i : ℕ
  pub mask : Bitset

-- `std::equal_to<access_key_t>`
unfoldable pub key_eq : AccessKey → AccessKey → Bool
key_eq lhs rhs =
    (lhs.address == rhs.address && lhs.backtrace == rhs.backtrace)
    && (lhs.clock_i == rhs.clock_i && Bitset.word_eq lhs.mask rhs.mask)

-- `mem_state_t`: cache line -> address -> state
abbrev pub MemState : Type 0
MemState = Map (Map StoreData)

-- `lockset_set_t`
abbrev pub LocksetSet : Type 0
LocksetSet = List LocksetPtr

pub record ThreadData : Type 0 where
  pub current_timedlockset : TimedLockset
  pub cached_timedlockset : Option TimedPtr
  pub vector_clocks : List VectorClock
  pub race_likely_stores : List StoreFenceData
  pub race_likely_loads : List (AccessKey × LocksetSet)
  pub mem_state : MemState
  pub flushed_mem_state : MemState
  pub lock_clock : ℕ
  pub try_lock_mutex : ℕ
  pub try_lock_return_address : ℕ
  pub result_address : ℕ
  pub used : Bool
  pub stack : List ℕ

pub record Tool : Type 0 where
  pub use_init_removal_heuristic_n : ℕ
  pub check_unpersisted_stores : Bool
  pub analysis_data_tls : ℕ → ThreadData
  pub caches : Caches
  pub registry : Registry
  pub backtraces : List (List ℕ)
  pub accesses : Accesses
  pub creator_thread_clock : VectorClock
  pub exit_threads_clock : Map VectorClock
  pub creator_thread_id : Option ℕ
  pub created_thread_id : ℕ
  pub created_pthread_id_address : ℕ
  pub pthread_id_to_tid : Map ℕ
  pub pm : PmAllocs

abbrev pub M : Type 0 → Type 0
M A = Tool → Option (A × Tool)

infixl 5 ◌>>=◌ ◌>>◌
abbrev pub ◌>>=◌ : {A B : Type 0} → M A → (A → M B) → M B
◌>>=◌ m f s = elim (m s) [ none ↦ none | some (a, s') ↦ f a s' ]

abbrev pub ◌>>◌ : {B : Type 0} → M (Unit {0}) → M B → M B
m >> k = m >>= λ _. k

abbrev pub pure : {A : Type 0} → A → M A
pure a s = some (a, s)

-- A step that returns, and then the rest.
pub then_value :
    {B : Type 0} (m : M (Unit {0})) (k : M B) (s s' : Tool)
    → m s ≡ some (tt, s')
    → (m >> k) s ≡ k s'
then_value m k s s' h = ap (λ o. elim o [ none ↦ none | some (a, t) ↦ k t ]) h

pub bind_value :
    {A B : Type 0} (m : M A) (f : A → M B) (s s' : Tool) (x : A)
    → m s ≡ some (x, s')
    → (m >>= f) s ≡ f x s'
bind_value m f s s' x h = ap (λ o. elim o [ none ↦ none | some (a, t) ↦ f a t ]) h

-- `get_thread_data(tid)`
abbrev pub get_thread_data : ℕ → M ThreadData
get_thread_data tid s = some (s.analysis_data_tls tid, s)

abbrev pub put_thread : (ℕ → ThreadData) → ℕ → ThreadData → ℕ → ThreadData
put_thread tls tid t u = if u == tid then t else tls u

pub put_same : (tls : ℕ → ThreadData) (tid : ℕ) (t : ThreadData) → put_thread tls tid t tid ≡ t
put_same tls tid t = ground (arith, ==_iff tid tid)

pub put_other :
    (tls : ℕ → ThreadData) (tid u : ℕ) (t : ThreadData) → u ≢ tid → put_thread tls tid t u ≡ tls u
put_other tls tid u t h = ground (arith, ==_iff u tid)

-- A change of the thread's own data.
abbrev pub change_thread : ℕ → (ThreadData → ThreadData) → M (Unit {0})
change_thread tid f s = some (
  tt,
  record s { analysis_data_tls = put_thread s.analysis_data_tls tid (f (s.analysis_data_tls tid)) },
)

-- `HandleAccess` and `HandleAccessByte` on the shared state.
unfoldable pub handle_access : ℕ → ℕ → ℕ → M Bitset
unfolding Heuristic.handle_access
handle_access tid address size s =
    elim (Heuristic.handle_access s.use_init_removal_heuristic_n tid address size s.accesses) [
      | none ↦ none
      | some (mask, a) ↦ some (mask, record s { accesses = a })
    ]

unfoldable pub handle_access_byte : ℕ → ℕ → M Bool
unfolding Heuristic.handle_access_byte
handle_access_byte tid address s =
    elim (Heuristic.handle_access_byte s.use_init_removal_heuristic_n tid address s.accesses) [
      | none ↦ none
      | some (record_it, a) ↦ some (record_it, record s { accesses = a })
    ]

-- `GetBacktrace(ctxt, …, tdata->stack)`; `ip` is the context's instruction pointer.
unfoldable pub get_backtrace : ℕ → ℕ → M Trace
unfolding Backtrace.get_backtrace
get_backtrace tid ip s =
    let (trace, pool) = Backtrace.get_backtrace s.backtraces ip (s.analysis_data_tls tid).stack in
    some (trace, record s { backtraces = pool })

-- `ThreadData::get_timedlockset`
unfoldable pub get_timedlockset : ℕ → M TimedPtr
get_timedlockset tid s =
    let t = s.analysis_data_tls tid in
    elim t.cached_timedlockset [
      | some p ↦ some (p, s)
      | none ↦
          let (p, c) = Cache.timedlockset_cache_get s.caches t.current_timedlockset in
          some (
            p,
            record s {
              caches = c;
              analysis_data_tls =
                  put_thread s.analysis_data_tls tid (record t { cached_timedlockset = some p });
            },
          )
    ]

-- The thread's lockset pointer is remembered, and else nothing of the threads changes.
pub get_timedlockset_lem :
    (s : Tool) (tid : ℕ)
    → (p : TimedPtr) × (s' : Tool) × (get_timedlockset tid s ≡ some (p, s'))
      × (s'.analysis_data_tls tid
          ≡ record (s.analysis_data_tls tid) { cached_timedlockset = some p })
      × ((u : ℕ) → u ≢ tid → s'.analysis_data_tls u ≡ s.analysis_data_tls u)
      × (s'.check_unpersisted_stores ≡ s.check_unpersisted_stores)
      × (s'.accesses ≡ s.accesses)
      × (s'.use_init_removal_heuristic_n ≡ s.use_init_removal_heuristic_n)
unfolding get_timedlockset
get_timedlockset_lem s tid = elim (Option-cases (s.analysis_data_tls tid).cached_timedlockset) [
  | inr (p, e) ↦ (
    p,
    s,
    rw (e, get_timedlockset) refl,
    ap (λ c. record (s.analysis_data_tls tid) { cached_timedlockset = c }) e,
    (λ u other. refl),
    refl,
    refl,
    refl,
  )
  | inl e ↦
      let (p, c) =
        Cache.timedlockset_cache_get s.caches (s.analysis_data_tls tid).current_timedlockset in
      let t : ThreadData = record (s.analysis_data_tls tid) { cached_timedlockset = some p } in
      (
        p,
        record s { caches = c; analysis_data_tls = put_thread s.analysis_data_tls tid t },
        rw (e, get_timedlockset) refl,
        put_same s.analysis_data_tls tid t,
        (λ u other. put_other s.analysis_data_tls tid u t other),
        refl,
        refl,
        refl,
      )
]

-- An operation of the caches on the shared state.
abbrev pub with_caches : {A : Type 0} → (Caches → A × Caches) → M A
with_caches f s = let (a, c) = f s.caches in some (a, record s { caches = c })

-- `vector_clocks.size() - 1`, cut to the 16 bits of `clock_i`.
unfoldable pub clock_index : ThreadData → ℕ
clock_index t = (length t.vector_clocks + 2 ^ 64 - 1) % 2 ^ 64 % 2 ^ 16

-- `CACHE_LINE`
unfoldable pub cache_line : ℕ → ℕ
cache_line a = a / 64 * 64
