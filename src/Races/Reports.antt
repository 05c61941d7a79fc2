-- ===== src/Races/Reports.antt =====
-- `CheckPMRaces` of src/hawkset.cpp: the stores of a thread grouped, and the reports that the
-- analysis of each group adds to.
use hawk_set.Backtrace.{Trace}
use hawk_set.Cache.{LocksetPtr, Caches, deref}
use hawk_set.Lockset.{lockset_eq}
use hawk_set.Races.{
  Analysed, loads_opt, check_pm_races_per_thread, clock_at, insert_trace, tls_max_size,
}
use hawk_set.Tool.{StoreFenceData, Tool}
use hawk_set.Prelude.{
  ℕ, zero, suc, ◌+◌, Bool, true, false, not, ◌&&◌, Option, none, some, List, [], ◌∷◌, ◌==◌,
  if◌then◌else◌,
}

-- `m[key]` with an update, on an unordered map of any keys; a missing entry starts at `new`.
unfoldable pub update_at :
    {K V : Type 0} → (K → K → Bool) → (V → V) → V → K → List (K × V) → List (K × V)
update_at same f new k [] = (k, f new) ∷ []
update_at same f new k ((j, v) ∷ m) =
    let rest = update_at same f new k m in if same j k then (j, f v) ∷ m else (j, v) ∷ rest

unfoldable pub bool_eq : Bool → Bool → Bool
bool_eq true b = b
bool_eq false b = not b

-- The comparison of two backtraces by address; `none` is the null pointer.
unfoldable pub trace_ptr_eq : Option Trace → Option Trace → Bool
trace_ptr_eq none none = true
trace_ptr_eq (some t) (some u) = t == u
trace_ptr_eq _ _ = false

-- (address, persisted, was_flushed)
pub record StoreKey : Type 0 where
  pub address : ℕ
  pub persisted : Bool
  pub was_flushed : Bool

unfoldable pub store_key_eq : StoreKey → StoreKey → Bool
unfolding bool_eq
store_key_eq j k =
    j.address == k.address
    && (bool_eq j.persisted k.persisted && bool_eq j.was_flushed k.was_flushed)

-- `std::equal_to<pLockset>`
unfoldable pub same_locks : Caches → LocksetPtr → LocksetPtr → Bool
same_locks c p q = lockset_eq (deref c p) (deref c q)

-- (write_trace, fence_trace)
abbrev pub Traces : Type 0
Traces = Trace × Option Trace

unfoldable pub traces_eq : Traces → Traces → Bool
unfolding trace_ptr_eq
traces_eq (w, f) (x, g) = w == x && trace_ptr_eq f g

unfoldable pub insert_traces : Traces → List Traces → List Traces
unfolding traces_eq
insert_traces t [] = t ∷ []
insert_traces t (u ∷ us) =
    let rest = insert_traces t us in if traces_eq u t then u ∷ us else u ∷ rest

-- `race_likely_stores_opt`: StoreKey -> lockset -> clock_i -> traces
abbrev pub Groups : Type 0
Groups = List (StoreKey × List (LocksetPtr × List (ℕ × List Traces)))

unfoldable pub group_store : Caches → StoreFenceData → Groups → Groups
unfolding update_at insert_traces store_key_eq same_locks
group_store c rls =
    update_at store_key_eq
      (update_at (same_locks c)
        (update_at (◌==◌) (insert_traces (rls.write_trace, rls.fence_trace)) [] rls.clock_i) []
        rls.common_set)
      []
      (record { address = rls.address; persisted = rls.persisted; was_flushed = rls.was_flushed })

unfoldable pub group_stores : Caches → List StoreFenceData → Groups → Groups
unfolding group_store
group_stores c [] groups = groups
group_stores c (rls ∷ stores) groups = group_stores c stores (group_store c rls groups)

-- `reports_t`: (write_trace, fence_trace, was_flushed) -> backtraces
abbrev pub ReportKey : Type 0
ReportKey = Traces × Bool

abbrev pub ReportMap : Type 0
ReportMap = List (ReportKey × List Trace)

unfoldable pub report_key_eq : ReportKey → ReportKey → Bool
unfolding traces_eq bool_eq
report_key_eq (t, b) (u, d) = traces_eq t u && bool_eq b d

-- `races_per_rlp` and `unpersisted_races_per_rlp`
pub record Reports : Type 0 where
  pub races : ReportMap
  pub unpersisted_races : ReportMap

-- `insert(racy_loads.cbegin(), racy_loads.cend())`
unfoldable pub insert_traces_all : List Trace → List Trace → List Trace
unfolding insert_trace
insert_traces_all [] set = set
insert_traces_all (t ∷ ts) set = insert_traces_all ts (insert_trace t set)

-- The loop over the traces of a group.
unfoldable pub report_traces : StoreKey → List Trace → List Traces → Reports → Reports
unfolding update_at report_key_eq insert_traces_all
report_traces key racy_loads [] r = r
report_traces key racy_loads (t ∷ ts) r =
    let add : ReportMap → ReportMap =
      update_at report_key_eq (insert_traces_all racy_loads) [] (t, key.was_flushed) in
    report_traces key racy_loads ts (
      if key.persisted
      then record r { races = add r.races }
      else record r { unpersisted_races = add r.unpersisted_races })

-- The loops over the clocks, the locksets and the keys.
unfoldable pub report_clocks :
    Caches → (ℕ → Analysed) → ℕ → StoreKey → LocksetPtr → List (ℕ × List Traces) → Reports → Reports
unfolding report_traces clock_at
report_clocks c tls tid key ls [] r = r
report_clocks c tls tid key ls ((clock_i, ts) ∷ rest) r =
    let racy_loads =
      check_pm_races_per_thread c tls tid key.address ls (clock_at (tls tid).thread clock_i) in
    report_clocks c tls tid key ls rest
      (elim racy_loads [ [] ↦ r | load ∷ loads ↦ report_traces key (load ∷ loads) ts r ])

unfoldable pub report_locksets :
    Caches
    → (ℕ → Analysed)
    → ℕ
    → StoreKey
    → List (LocksetPtr × List (ℕ × List Traces))
    → Reports
    → Reports
unfolding report_clocks
report_locksets c tls tid key [] r = r
report_locksets c tls tid key ((ls, clocks) ∷ rest) r =
    report_locksets c tls tid key rest (report_clocks c tls tid key ls clocks r)

unfoldable pub report_groups : Caches → (ℕ → Analysed) → ℕ → Groups → Reports → Reports
unfolding report_locksets
report_groups c tls tid [] r = r
report_groups c tls tid ((key, locksets) ∷ rest) r =
    report_groups c tls tid rest (report_locksets c tls tid key locksets r)

-- The loop over the threads from `tid` on.
unfoldable pub report_threads : ℕ → ℕ → Caches → (ℕ → Analysed) → Reports → Reports
unfolding report_groups group_stores
report_threads zero tid c tls r = r
report_threads (suc rounds) tid c tls r = report_threads rounds (tid + 1) c tls (
    if not (tls tid).thread.used
    then r
    else report_groups c tls tid (group_stores c (tls tid).thread.race_likely_stores []) r)

-- `race_likely_loads_opt` of every thread that is used.
unfoldable pub analysed : Tool → ℕ → Analysed
analysed s tid =
    let t = s.analysis_data_tls tid in
    record {
      thread = t;
      race_likely_loads_opt = if not t.used then [] else loads_opt t.race_likely_loads [];
    }

-- `CheckPMRaces` up to `OutputRaces`.
unfoldable pub check_pm_races : Tool → Reports
unfolding report_threads analysed
check_pm_races s =
    report_threads tls_max_size 0 s.caches (analysed s)
      (record { races = []; unpersisted_races = [] })
