-- ===== src/Races.antt =====
-- The analysis at the end of the run: `CheckPMRacesPerThread` and `CheckPMRaces` of
-- src/hawkset.cpp.
pub mod Loads
pub mod PerThread
pub mod Reports
pub mod Groups
pub mod Reported
pub mod Racing
pub mod Recorded
pub mod Insert
pub mod Check
use hawk_set.Backtrace.{Trace}
use hawk_set.Bitset
use hawk_set.Cache.{LocksetPtr, Caches, deref, ptr_eq}
use hawk_set.Lockset.{Lockset, lockset_eq, short_intersect}
use hawk_set.Map
use hawk_set.Map.{Map}
use hawk_set.Memory.{insert_lockset}
use hawk_set.Tool.{StoreFenceData, AccessKey, LocksetSet, ThreadData, Tool}
use hawk_set.VectorClock
use hawk_set.VectorClock.{VectorClock, is_concurrent}
use hawk_set.Prelude.{
  ℕ, zero, suc, ◌+◌, ◌-◌, ◌%◌, ◌^◌, Bool, true, false, not, ◌&&◌, ◌||◌, Option, none, some, List,
  [], ◌∷◌, ◌++◌, ◌==◌, if◌then◌else◌, get_or,
}

-- `TLS_MAX_SIZE`
abbrev pub tls_max_size : ℕ
tls_max_size = 1000

-- `std::set<backtrace_t>`: `contains` and `insert`.
unfoldable pub contains_trace : Trace → List Trace → Bool
contains_trace t [] = false
contains_trace t (u ∷ us) = if t == u then true else contains_trace t us

unfoldable pub insert_trace : Trace → List Trace → List Trace
unfolding contains_trace
insert_trace t us = if contains_trace t us then us else t ∷ us

-- The loads at one address: (backtrace, clock_i) -> locksets
abbrev pub Loads : Type 0
Loads = List ((Trace × ℕ) × LocksetSet)

-- `race_likely_loads_opt[address][key].insert(locksets…)`, on the loads of the address.
unfoldable pub insert_all : LocksetSet → LocksetSet → LocksetSet
unfolding insert_lockset
insert_all [] set = set
insert_all (p ∷ ps) set = insert_all ps (insert_lockset p set)

unfoldable pub merge_loads : Trace × ℕ → LocksetSet → Loads → Loads
unfolding insert_all
merge_loads (trace, clock_i) locksets [] = ((trace, clock_i), insert_all locksets []) ∷ []
merge_loads (trace, clock_i) locksets (((u, j), set) ∷ loads) =
    if trace == u && clock_i == j
    then ((u, j), insert_all locksets set) ∷ loads
    else ((u, j), set) ∷ merge_loads (trace, clock_i) locksets loads

unfoldable pub loads_at : ℕ → Map Loads → Loads
loads_at address opt = elim (Map.find address opt) [ none ↦ [] | some loads ↦ loads ]

-- The loop over the 64 bits of a mask; the address wraps at 64 bits.
unfoldable pub spread_mask : ℕ → ℕ → AccessKey → LocksetSet → Map Loads → Map Loads
unfolding merge_loads loads_at
spread_mask zero i key locksets opt = opt
spread_mask (suc rounds) i key locksets opt = spread_mask rounds (i + 1) key locksets (
    if Bitset.test key.mask i
    then (let address = (key.address + i) % 2 ^ 64 in
        Map.assign address
          (merge_loads (key.backtrace, key.clock_i) locksets (loads_at address opt)) opt)
    else opt)

-- `race_likely_loads_opt` of a thread, from its `race_likely_loads`.
unfoldable pub loads_opt : List (AccessKey × LocksetSet) → Map Loads → Map Loads
unfolding spread_mask
loads_opt [] opt = opt
loads_opt ((key, locksets) ∷ loads) opt = loads_opt loads (spread_mask 64 0 key locksets opt)

-- The loop over the locksets of a load: is one of them without a lock in common?
unfoldable pub any_disjoint : Caches → LocksetPtr → LocksetSet → Bool
any_disjoint c write_set [] = false
any_disjoint c write_set (ls ∷ set) =
    if not (short_intersect (ptr_eq ls write_set) (deref c ls) (deref c write_set))
    then true
    else any_disjoint c write_set set

-- `vector_clocks[i]`
unfoldable pub clock_at : ThreadData → ℕ → VectorClock
clock_at t i = get_or t.vector_clocks i VectorClock.empty

-- The loop over the loads of one thread at the address of the store.
unfoldable pub load_loop :
    Caches → ThreadData → LocksetPtr → VectorClock → Loads → List Trace → List Trace
unfolding any_disjoint clock_at insert_trace
load_loop c t write_set write_clock [] racy_loads = racy_loads
load_loop c t write_set write_clock (((backtrace, clock_i), set) ∷ loads) racy_loads =
    load_loop c t write_set write_clock loads (
      if contains_trace backtrace racy_loads
      then racy_loads
      else if not (is_concurrent (clock_at t clock_i) write_clock)
      then racy_loads
      else if any_disjoint c write_set set
      then insert_trace backtrace racy_loads
      else racy_loads)

-- A thread's data, with its `race_likely_loads_opt`.
pub record Analysed : Type 0 where
  pub thread : ThreadData
  pub race_likely_loads_opt : Map Loads

-- The loop of `CheckPMRacesPerThread` over the threads from `load_tid` on.
unfoldable pub thread_loop :
    ℕ → ℕ → Caches → (ℕ → Analysed) → ℕ → ℕ → LocksetPtr → VectorClock → List Trace → List Trace
unfolding load_loop
thread_loop zero load_tid c tls tid write_address write_set write_clock racy_loads = racy_loads
thread_loop (suc rounds) load_tid c tls tid write_address write_set write_clock racy_loads =
    thread_loop rounds (load_tid + 1) c tls tid write_address write_set write_clock (
      if not (tls load_tid).thread.used || load_tid == tid
      then racy_loads
      else elim (Map.find write_address (tls load_tid).race_likely_loads_opt) [
        | none ↦ racy_loads
        | some loads ↦ load_loop c (tls load_tid).thread write_set write_clock loads racy_loads
      ])

unfoldable pub check_pm_races_per_thread :
    Caches → (ℕ → Analysed) → ℕ → ℕ → LocksetPtr → VectorClock → List Trace
unfolding thread_loop
check_pm_races_per_thread c tls tid write_address write_set write_clock =
    thread_loop tls_max_size 0 c tls tid write_address write_set write_clock []
