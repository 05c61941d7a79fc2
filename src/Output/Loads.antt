-- ===== src/Output/Loads.antt =====
-- The traces of the loads that `CheckPMRacesPerThread` of src/hawkset.cpp finds are recorded ones.
use hawk_set.Backtrace.{Trace}
use hawk_set.Bitset
use hawk_set.Cache.{LocksetPtr, Caches}
use hawk_set.Map
use hawk_set.Map.{Map}
use hawk_set.Races.{
  contains_trace, insert_trace, Loads, merge_loads, loads_at, spread_mask, loads_opt, any_disjoint,
  clock_at, load_loop, Analysed, thread_loop, check_pm_races_per_thread, tls_max_size,
}
use hawk_set.Races.Reports.{insert_traces_all}
use hawk_set.Sound.{All}
use hawk_set.Sound.Tables.{assign-All, find-All}
use hawk_set.Tool.{AccessKey, LocksetSet, ThreadData}
use hawk_set.VectorClock.{VectorClock, is_concurrent}
use hawk_set.Prelude.{
  if-Is, ℕ, zero, suc, ◌+◌, ◌%◌, ◌^◌, ◌≡◌, refl, not, ◌&&◌, ◌||◌, Option, none, some, List, [], ◌∷◌,
  ◌==◌, Option-cases, inl, inr,
}

module _ (P : Trace → Type 0) where
  abbrev HasTraces : (Trace × ℕ) × LocksetSet → Type 0
  HasTraces ((trace, clock_i), set) = P trace

  abbrev pub HasLoads : ℕ × Loads → Type 0
  HasLoads (address, loads) = All HasTraces loads

  -- The traces of the recorded loads have the property.
  abbrev pub HasKeys : AccessKey × LocksetSet → Type 0
  HasKeys (key, locksets) = P key.backtrace

  merge_loads-All :
      (trace : Trace) (clock_i : ℕ) (locksets : LocksetSet) (loads : Loads)
      → P trace
      → All HasTraces loads
      → All HasTraces (merge_loads (trace, clock_i) locksets loads)
  unfolding merge_loads
  merge_loads-All trace clock_i locksets [] h a = (h, tt)
  merge_loads-All trace clock_i locksets (((u, j), set) ∷ loads) h a =
      if-Is (All HasTraces) (trace == u && clock_i == j) _ _ a
        (a.0, merge_loads-All trace clock_i locksets loads h a.1)

  loads_at-All :
      (address : ℕ) (opt : Map Loads) → All HasLoads opt → All HasTraces (loads_at address opt)
  unfolding loads_at
  loads_at-All address opt a = elim (Option-cases (Map.find address opt)) [
    | inl e ↦ rw (e, loads_at) tt
    | inr (loads, e) ↦ rw (e, loads_at) (find-All HasLoads address loads opt e a)
  ]

  spread_mask-All :
      (rounds i : ℕ) (key : AccessKey) (locksets : LocksetSet) (opt : Map Loads)
      → P key.backtrace
      → All HasLoads opt
      → All HasLoads (spread_mask rounds i key locksets opt)
  unfolding spread_mask
  spread_mask-All zero i key locksets opt h a = a
  spread_mask-All (suc rounds) i key locksets opt h a =
      let address = (key.address + i) % 2 ^ 64 in
      spread_mask-All rounds (i + 1) key locksets _ h (
        if-Is (All HasLoads) (Bitset.test key.mask i) _ _
          (assign-All HasLoads address _ opt
            (merge_loads-All key.backtrace key.clock_i locksets (loads_at address opt) h
              (loads_at-All address opt a))
            a)
          a)

  pub loads_opt-All :
      (loads : List (AccessKey × LocksetSet)) (opt : Map Loads)
      → All HasKeys loads
      → All HasLoads opt
      → All HasLoads (loads_opt loads opt)
  unfolding loads_opt
  loads_opt-All [] opt h a = a
  loads_opt-All ((key, locksets) ∷ loads) opt h a =
      loads_opt-All loads (spread_mask 64 0 key locksets opt) h.1
        (spread_mask-All 64 0 key locksets opt h.0 a)

  insert_trace-All : (t : Trace) (us : List Trace) → P t → All P us → All P (insert_trace t us)
  unfolding insert_trace
  insert_trace-All t us h a = if-Is (All P) (contains_trace t us) us (t ∷ us) a (h, a)

  pub insert_traces_all-All :
      (ts us : List Trace) → All P ts → All P us → All P (insert_traces_all ts us)
  unfolding insert_traces_all
  insert_traces_all-All [] us h a = a
  insert_traces_all-All (t ∷ ts) us h a =
      insert_traces_all-All ts (insert_trace t us) h.1 (insert_trace-All t us h.0 a)

  module _ (c : Caches) (write_set : LocksetPtr) (write_clock : VectorClock) where
    load_loop-All :
        (t : ThreadData) (loads : Loads) (racy_loads : List Trace)
        → All HasTraces loads
        → All P racy_loads
        → All P (load_loop c t write_set write_clock loads racy_loads)
    unfolding load_loop
    load_loop-All t [] racy_loads h a = a
    load_loop-All t (((backtrace, clock_i), set) ∷ loads) racy_loads h a =
        load_loop-All t loads _ h.1 (
          if-Is (All P) (contains_trace backtrace racy_loads) _ _ a (
            if-Is (All P) (not (is_concurrent (clock_at t clock_i) write_clock)) _ _ a (
              if-Is (All P) (any_disjoint c write_set set) _ _
                (insert_trace-All backtrace racy_loads h.0 a) a)))

    thread_loop-All :
        (rounds load_tid : ℕ) (tls : ℕ → Analysed) (tid address : ℕ) (racy_loads : List Trace)
        → ((u : ℕ) → All HasLoads (tls u).race_likely_loads_opt)
        → All P racy_loads
        → All P (thread_loop rounds load_tid c tls tid address write_set write_clock racy_loads)
    unfolding thread_loop
    thread_loop-All zero load_tid tls tid address racy_loads h a = a
    thread_loop-All (suc rounds) load_tid tls tid address racy_loads h a =
        thread_loop-All rounds (load_tid + 1) tls tid address _ h (
          if-Is (All P) (not (tls load_tid).thread.used || load_tid == tid) _ _ a
            (go (Map.find address (tls load_tid).race_likely_loads_opt) refl))
      where
        go :
            (o : Option Loads)
            → Map.find address (tls load_tid).race_likely_loads_opt ≡ o
            → All P (elim o [
              | none ↦ racy_loads
              | some loads ↦
                  load_loop c (tls load_tid).thread write_set write_clock loads racy_loads
            ])
        go none e = a
        go (some loads) e =
            load_loop-All (tls load_tid).thread loads racy_loads
              (find-All HasLoads address loads (tls load_tid).race_likely_loads_opt e (h load_tid))
              a

    pub racy_loads-All :
        (tls : ℕ → Analysed) (tid address : ℕ)
        → ((u : ℕ) → All HasLoads (tls u).race_likely_loads_opt)
        → All P (check_pm_races_per_thread c tls tid address write_set write_clock)
    unfolding check_pm_races_per_thread
    racy_loads-All tls tid address h = thread_loop-All tls_max_size 0 tls tid address [] h tt
