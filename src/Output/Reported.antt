-- ===== src/Output/Reported.antt =====
-- The reports of `CheckPMRaces` of src/hawkset.cpp name recorded traces only, and those of persisted
-- stores the trace of a fence.
use hawk_set.Backtrace.{Trace}
use hawk_set.Cache.{LocksetPtr, Caches}
use hawk_set.Output.Groups.{
  update_at-All, HasTraces, HasClock, HasLockset, HasGroup, HasStore, group_stores-All,
}
use hawk_set.Output.Loads.{HasKeys, HasLoads, loads_opt-All, insert_traces_all-All, racy_loads-All}
use hawk_set.Races.{Analysed, clock_at, check_pm_races_per_thread, loads_opt, tls_max_size}
use hawk_set.Races.Reports.{
  update_at, StoreKey, Traces, Groups, ReportKey, ReportMap, report_key_eq, Reports,
  insert_traces_all, report_traces, report_clocks, report_locksets, report_groups, report_threads,
  analysed, check_pm_races,
}
use hawk_set.Sound.{Has, All, IsSound}
use hawk_set.Sound.Tables.{All-weaken}
use hawk_set.Tool.{Tool}
use hawk_set.Prelude.{
  if-Is, ℕ, zero, suc, ◌+◌, Bool, true, false, not, List, [], ◌∷◌, if◌then◌else◌,
}

module _ (pool : List (List ℕ)) where
  abbrev pub IsReport : Bool → ReportKey × List Trace → Type 0
  IsReport persisted ((t, was_flushed), loads) = HasTraces pool persisted t × All (Has pool) loads

  abbrev pub IsReports : Reports → Type 0
  IsReports r = All (IsReport true) r.races × All (IsReport false) r.unpersisted_races

  report_traces-Is :
      (key : StoreKey) (racy_loads : List Trace) (ts : List Traces) (r : Reports)
      → All (Has pool) racy_loads
      → All (HasTraces pool key.persisted) ts
      → IsReports r
      → IsReports (report_traces key racy_loads ts r)
  unfolding report_traces
  report_traces-Is key racy_loads [] r h g a = a
  report_traces-Is key racy_loads (t ∷ ts) r h g a =
      report_traces-Is key racy_loads ts _ h g.1 (added key.persisted g.0)
    where
      add : ReportMap → ReportMap
      add = update_at report_key_eq (insert_traces_all racy_loads) [] (t, key.was_flushed)

      add-All :
          (persisted : Bool) (m : ReportMap)
          → HasTraces pool persisted t
          → All (IsReport persisted) m
          → All (IsReport persisted) (add m)
      add-All persisted m k b =
          update_at-All (IsReport persisted) report_key_eq (insert_traces_all racy_loads) []
            (t, key.was_flushed) m
            (λ j loads e d. (d.0, insert_traces_all-All (Has pool) racy_loads loads h d.1))
            (k, insert_traces_all-All (Has pool) racy_loads [] h tt) b

      added :
          (persisted : Bool)
          → HasTraces pool persisted t
          → IsReports (
              if persisted
              then record r { races = add r.races }
              else record r { unpersisted_races = add r.unpersisted_races })
      added true k = (add-All true r.races k a.0, a.1)
      added false k = (a.0, add-All false r.unpersisted_races k a.1)

  module _ (c : Caches) (tls : ℕ → Analysed)
      (h : (u : ℕ) → All (HasLoads (Has pool)) (tls u).race_likely_loads_opt) where
    report_clocks-Is :
        (tid : ℕ) (key : StoreKey) (ls : LocksetPtr) (clocks : List (ℕ × List Traces)) (r : Reports)
        → All (HasClock pool key.persisted) clocks
        → IsReports r
        → IsReports (report_clocks c tls tid key ls clocks r)
    unfolding report_clocks
    report_clocks-Is tid key ls [] r g a = a
    report_clocks-Is tid key ls ((clock_i, ts) ∷ rest) r g a =
        report_clocks-Is tid key ls rest _ g.1 (
          found
            (check_pm_races_per_thread c tls tid key.address ls (clock_at (tls tid).thread clock_i))
            (racy_loads-All (Has pool) c ls (clock_at (tls tid).thread clock_i) tls tid key.address
              h))
      where
        found :
            (racy_loads : List Trace)
            → All (Has pool) racy_loads
            → IsReports
                (elim racy_loads [ [] ↦ r | load ∷ loads ↦ report_traces key (load ∷ loads) ts r ])
        found [] k = a
        found (load ∷ loads) k = report_traces-Is key (load ∷ loads) ts r k g.0 a

    report_locksets-Is :
        (tid : ℕ) (key : StoreKey) (locksets : List (LocksetPtr × List (ℕ × List Traces)))
        (r : Reports)
        → All (HasLockset pool key.persisted) locksets
        → IsReports r
        → IsReports (report_locksets c tls tid key locksets r)
    unfolding report_locksets
    report_locksets-Is tid key [] r g a = a
    report_locksets-Is tid key ((ls, clocks) ∷ rest) r g a =
        report_locksets-Is tid key rest _ g.1 (report_clocks-Is tid key ls clocks r g.0 a)

    report_groups-Is :
        (tid : ℕ) (groups : Groups) (r : Reports)
        → All (HasGroup pool) groups
        → IsReports r
        → IsReports (report_groups c tls tid groups r)
    unfolding report_groups
    report_groups-Is tid [] r g a = a
    report_groups-Is tid ((key, locksets) ∷ rest) r g a =
        report_groups-Is tid rest _ g.1 (report_locksets-Is tid key locksets r g.0 a)

    report_threads-Is :
        (rounds tid : ℕ) (r : Reports)
        → ((u : ℕ) → All (HasStore pool) (tls u).thread.race_likely_stores)
        → IsReports r
        → IsReports (report_threads rounds tid c tls r)
    unfolding report_threads
    report_threads-Is zero tid r g a = a
    report_threads-Is (suc rounds) tid r g a = report_threads-Is rounds (tid + 1) _ g (
        if-Is IsReports (not (tls tid).thread.used) _ _ a (
          report_groups-Is tid _ r
            (group_stores-All pool c (tls tid).thread.race_likely_stores [] (g tid) tt) a))

-- What the analysis of a state with good pointers reports.
pub check_pm_races-Is : (s : Tool) → IsSound s → IsReports s.backtraces (check_pm_races s)
unfolding check_pm_races analysed
check_pm_races-Is s sound =
    report_threads-Is s.backtraces s.caches (analysed s) loads tls_max_size 0 _ stores (tt, tt)
  where
    stores : (u : ℕ) → All (HasStore s.backtraces) (analysed s u).thread.race_likely_stores
    stores u =
        All-weaken _ (HasStore s.backtraces) (s.analysis_data_tls u).race_likely_stores
          (λ r h. (h.2, h.3)) (sound u).stores

    loads : (u : ℕ) → All (HasLoads (Has s.backtraces)) (analysed s u).race_likely_loads_opt
    loads u =
        let t = s.analysis_data_tls u in
        if-Is (All (HasLoads (Has s.backtraces))) (not t.used) [] (loads_opt t.race_likely_loads [])
          tt
          (loads_opt-All (Has s.backtraces) t.race_likely_loads []
            (All-weaken _ (HasKeys (Has s.backtraces)) t.race_likely_loads (λ r h. h.1)
              (sound u).loads)
            tt)
