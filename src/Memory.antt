-- ===== src/Memory.antt =====
-- The simulation of the cache: `RegisterAccess`, `RegisterUnpersistedStore`, `ProcessFlush`,
-- `CheckOverwrite`, `ProcessStore`, `ProcessRead` and `ProcessFence` of src/hawkset.cpp. The `ip` of
-- a handler is the instruction pointer in its context.
pub mod Flush
pub mod Store
pub mod Recorded
pub mod Fence
use hawk_set.Backtrace.{Trace}
use hawk_set.Bitset
use hawk_set.Bitset.{Bitset}
use hawk_set.Cache.{
  LocksetPtr, TimedPtr, lockset_cache_get, intersect_timedlockset, timed_deref, ptr_eq,
}
use hawk_set.Map
use hawk_set.Map.{Map}
use hawk_set.TimedLockset.{to_lockset}
use hawk_set.Tool.{
  StoreFenceData, StoreData, AccessKey, key_eq, MemState, LocksetSet, ThreadData, M, ◌>>=◌, ◌>>◌,
  pure, get_thread_data, change_thread, handle_access, handle_access_byte, get_backtrace,
  get_timedlockset, with_caches, clock_index, cache_line,
}
use hawk_set.Prelude.{
  ℕ, zero, suc, ◌+◌, ◌-◌, ◌%◌, ◌^◌, Bool, true, false, not, ◌&&◌, Option, none, some, List, [], ◌∷◌,
  ◌++◌, ◌==◌, if◌then◌else◌,
}

-- `std::set<pLockset>::insert`
unfoldable pub insert_lockset : LocksetPtr → LocksetSet → LocksetSet
insert_lockset p [] = p ∷ []
insert_lockset p (q ∷ qs) = if ptr_eq p q then q ∷ qs else q ∷ insert_lockset p qs

-- `race_likely_loads[key].insert(p)`
unfoldable pub insert_load :
    AccessKey → LocksetPtr → List (AccessKey × LocksetSet) → List (AccessKey × LocksetSet)
unfolding insert_lockset
insert_load key p [] = (key, insert_lockset p []) ∷ []
insert_load key p ((k, ls) ∷ loads) =
    if key_eq k key then (k, insert_lockset p ls) ∷ loads else (k, ls) ∷ insert_load key p loads

-- The rest of `RegisterAccess`, for a mask with a bit in it.
unfoldable pub record_load : ℕ → ℕ → ℕ → Bitset → M (Unit {0})
unfolding insert_load
record_load tid ip address mask = do
  backtrace ← get_backtrace tid ip
  tdata ← get_thread_data tid
  let clock_i = clock_index tdata
  tls ← get_timedlockset tid
  ls ← with_caches (λ c. lockset_cache_get c (to_lockset (timed_deref c tls)))
  change_thread tid (λ t. record t {
    race_likely_loads =
        insert_load
          (record { address = address; backtrace = backtrace; clock_i = clock_i; mask = mask }) ls
          t.race_likely_loads;
  })

unfoldable pub register_access : ℕ → ℕ → ℕ → ℕ → M (Unit {0})
unfolding record_load
register_access tid ip address size = do
  mask ← handle_access tid address size
  if not (Bitset.any mask) then pure tt else record_load tid ip address mask

-- `race_likely_stores.push_back(…)`
abbrev pub push_store : ℕ → StoreFenceData → M (Unit {0})
push_store tid rlp =
    change_thread tid (λ t. record t { race_likely_stores = t.race_likely_stores ++ rlp ∷ [] })

-- The rest of `RegisterUnpersistedStore`, and of a round of `ProcessFence`: the record of a store.
unfoldable pub record_store :
    ℕ → ℕ → StoreData → TimedPtr → Option Trace → Bool → Bool → M (Unit {0})
record_store tid address stored current trace persisted was_flushed = do
  common_set ← with_caches (λ c. intersect_timedlockset c current stored.timed_lockset)
  tdata ← get_thread_data tid
  push_store tid (record {
    common_set = common_set;
    clock_i = clock_index tdata;
    write_trace = stored.backtrace;
    fence_trace = trace;
    address = address;
    persisted = persisted;
    was_flushed = was_flushed;
  })

unfoldable pub register_unpersisted_store :
    ℕ → ℕ → StoreData → TimedPtr → Option Trace → Bool → M (Unit {0})
unfolding record_store
register_unpersisted_store tid address stored current trace was_flushed = do
  record_it ← handle_access_byte tid address
  if not record_it then pure tt else record_store tid address stored current trace false was_flushed

-- `mem_state[cl]`, which makes an empty line if there is none.
unfoldable pub line_of : ℕ → MemState → Map StoreData
line_of cl m = elim (Map.find cl m) [ none ↦ [] | some line ↦ line ]

-- `mem_state[cl][address] = data`
unfoldable pub put_byte : ℕ → ℕ → StoreData → MemState → MemState
unfolding line_of
put_byte cl address stored m = Map.assign cl (Map.assign address stored (line_of cl m)) m

-- The loop of `ProcessFlush`: the entries of the line go to the flushed line.
unfoldable pub flush_loop : ℕ → Map StoreData → MemState → MemState
unfolding put_byte
flush_loop cl [] flushed = flushed
flush_loop cl ((address, stored) ∷ rest) flushed =
    flush_loop cl rest (put_byte cl address stored flushed)

unfoldable pub flush_line : ℕ → ThreadData → ThreadData
unfolding flush_loop
flush_line cl t = elim (Map.find cl t.mem_state) [
  | none ↦ t
  | some line ↦ record t {
    mem_state = Map.erase cl t.mem_state;
    flushed_mem_state = flush_loop cl line t.flushed_mem_state;
  }
]

unfoldable pub process_flush : ℕ → ℕ → M (Unit {0})
unfolding flush_line cache_line
process_flush tid address = change_thread tid (flush_line (cache_line address))

-- Which of the two memory states of a thread.
pub data Which : Type 0 where
  written flushed : Which

abbrev pub state_of : Which → ThreadData → MemState
state_of written t = t.mem_state
state_of flushed t = t.flushed_mem_state

abbrev pub with_state : Which → MemState → ThreadData → ThreadData
with_state written m t = record t { mem_state = m }
with_state flushed m t = record t { flushed_mem_state = m }

-- A store that is overwritten before it is persisted: the line is looked up, and made, first.
unfoldable pub check_overwrite : ℕ → ℕ → Which → TimedPtr → Trace → Bool → M (Unit {0})
unfolding register_unpersisted_store line_of cache_line
check_overwrite tid address which ls trace was_flushed = do
  let cl = cache_line address
  tdata ← get_thread_data tid
  let line = line_of cl (state_of which tdata)
  change_thread tid (λ t. with_state which (Map.assign cl line (state_of which t)) t)
  elim (Map.find address line) [
    | none ↦ pure tt
    | some stored ↦ do
      register_unpersisted_store tid address stored ls (some trace) was_flushed
      change_thread tid
          (λ t. with_state which (Map.assign cl (Map.erase address line) (state_of which t)) t)
  ]

-- A round of the loop of `ProcessStore`.
unfoldable pub store_byte : ℕ → ℕ → StoreData → M (Unit {0})
unfolding check_overwrite put_byte
store_byte tid address stored = do
  (λ s.
      if s.check_unpersisted_stores
      then (do
        check_overwrite tid address written stored.timed_lockset stored.backtrace false
        check_overwrite tid address flushed stored.timed_lockset stored.backtrace true)
          s
      else pure tt s)
  change_thread tid
      (λ t. record t { mem_state = put_byte (cache_line address) address stored t.mem_state })

unfoldable pub store_loop : ℕ → ℕ → ℕ → StoreData → M (Unit {0})
unfolding store_byte
store_loop zero tid address stored = pure tt
store_loop (suc rounds) tid address stored = do
  store_byte tid address stored
  store_loop rounds tid (address + 1) stored

-- The loop ends at `address + size`, which wraps at 64 bits.
unfoldable pub process_store : ℕ → ℕ → ℕ → ℕ → M (Unit {0})
unfolding store_loop
process_store tid ip address size = do
  _ ← handle_access tid address size
  backtrace ← get_backtrace tid ip
  store_timedlockset ← get_timedlockset tid
  store_loop ((address + size) % 2 ^ 64 - address) tid address
      (record { timed_lockset = store_timedlockset; backtrace = backtrace })

unfoldable pub process_read : ℕ → ℕ → ℕ → ℕ → M (Unit {0})
unfolding register_access
process_read tid ip address size = register_access tid ip address size

-- `backtrace` of `ProcessFence`, which is taken when the first store is recorded.
unfoldable pub fence_trace : ℕ → ℕ → Option Trace → M Trace
fence_trace tid ip none = get_backtrace tid ip
fence_trace tid ip (some trace) = pure trace

-- The inner loop of `ProcessFence`, over the bytes of a line; it returns `backtrace`.
unfoldable pub fence_line : ℕ → ℕ → TimedPtr → Map StoreData → Option Trace → M (Option Trace)
unfolding fence_trace record_store
fence_line tid ip current [] backtrace = pure backtrace
fence_line tid ip current ((address, stored) ∷ rest) backtrace = do
  record_it ← handle_access_byte tid address
  if not record_it then fence_line tid ip current rest backtrace else do
    trace ← fence_trace tid ip backtrace
    record_store tid address stored current (some trace) true true
    fence_line tid ip current rest (some trace)

unfoldable pub fence_loop : ℕ → ℕ → TimedPtr → MemState → Option Trace → M (Option Trace)
unfolding fence_line
fence_loop tid ip current [] backtrace = pure backtrace
fence_loop tid ip current ((cl, line) ∷ rest) backtrace = do
  backtrace' ← fence_line tid ip current line backtrace
  fence_loop tid ip current rest backtrace'

-- `ProcessFence` after the locks are known, on the flushed lines.
unfoldable pub fence_rest : ℕ → ℕ → TimedPtr → MemState → M (Unit {0})
unfolding fence_loop
fence_rest tid ip fence_timedlockset [] = pure tt
fence_rest tid ip fence_timedlockset (line ∷ lines) = do
  _ ← fence_loop tid ip fence_timedlockset (line ∷ lines) none
  change_thread tid (λ t. record t { flushed_mem_state = [] })

unfoldable pub process_fence : ℕ → ℕ → Bool → ℕ → ℕ → M (Unit {0})
unfolding process_store fence_rest
process_fence tid ip is_rmw address size = do
  if is_rmw && not (size == 0) then process_store tid ip address size else pure tt
  fence_timedlockset ← get_timedlockset tid
  tdata ← get_thread_data tid
  fence_rest tid ip fence_timedlockset tdata.flushed_mem_state
