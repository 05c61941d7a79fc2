-- ===== src/Races/Reported.antt =====
-- What the loops of `CheckPMRaces` of src/hawkset.cpp report for the groups of stores.
use hawk_set.Backtrace.{Trace}
use hawk_set.Cache.{LocksetPtr, Caches}
use hawk_set.Intern.{Comparison}
use hawk_set.Races.{Analysed, contains_trace, insert_trace, check_pm_races_per_thread, clock_at}
use hawk_set.Races.Groups.{look, through, has_traces, bool_eq_iff, traces_eq_iff}
use hawk_set.Races.PerThread.{contains-insert_trace}
use hawk_set.Races.Reports.{
  update_at, bool_eq, StoreKey, Traces, Groups, ReportKey, ReportMap, report_key_eq, Reports,
  insert_traces_all, report_traces, report_clocks, report_locksets, report_groups,
}
use hawk_set.Prelude.{
  ℕ, ◌≡◌, ◌↔◌, refl, sym, ◌∙◌, Bool, true, false, ◌&&◌, ◌||◌, List, [], ◌∷◌, if◌then◌else◌, arith,
}

report_key_eq_iff : (a b : ReportKey) → (report_key_eq a b ≡ true) ↔ (a ≡ b)
unfolding report_key_eq
report_key_eq_iff (t, b) (u, d) = ground (arith, traces_eq_iff t u, bool_eq_iff b d)

abbrev report_comparison : Comparison ReportKey
report_comparison = record {
  same = report_key_eq;
  same_refl = λ a. (report_key_eq_iff a a).1 refl;
  same_sym = λ a b h. (report_key_eq_iff b a).1 (sym ((report_key_eq_iff a b).0 h));
  same_trans = λ a b c h k.
      (report_key_eq_iff a c).1 ((report_key_eq_iff a b).0 h ∙ (report_key_eq_iff b c).0 k);
}

contains-insert_traces_all :
    (load : Trace) (ts set : List Trace)
    → contains_trace load (insert_traces_all ts set)
      ≡ (contains_trace load ts || contains_trace load set)
unfolding insert_traces_all contains_trace
contains-insert_traces_all load [] set = refl
contains-insert_traces_all load (t ∷ ts) set = ground (
  arith,
  contains-insert_traces_all load ts (insert_trace t set),
  contains-insert_trace load t set,
)

-- Does an entry of the map pass the test?
unfoldable pub any_entry : {K V : Type 0} → (K → V → Bool) → List (K × V) → Bool
any_entry test [] = false
any_entry test ((k, v) ∷ m) = test k v || any_entry test m

-- A report: is the load named for these traces, among the persisted stores or among the others?
unfoldable pub reported : Bool → ReportKey → Trace → Reports → Bool
unfolding look contains_trace
reported persisted key load r =
    contains_trace load
      (look report_key_eq [] key (if persisted then r.races else r.unpersisted_races))

-- What is inserted for one pair of traces.
abbrev add_report : Bool → ReportKey → List Trace → Reports → Reports
add_report persisted key racy r =
    let add : ReportMap → ReportMap = update_at report_key_eq (insert_traces_all racy) [] key in
    if persisted
    then record r { races = add r.races }
    else record r { unpersisted_races = add r.unpersisted_races }

module _ (added key : ReportKey) (load : Trace) (racy : List Trace) (r : Reports) where
  contains-update_at :
      (m : ReportMap)
      → contains_trace load
          (look report_key_eq [] key (update_at report_key_eq (insert_traces_all racy) [] added m))
        ≡ ((report_key_eq added key && contains_trace load racy)
            || contains_trace load (look report_key_eq [] key m))
  contains-update_at m =
      through report_comparison (insert_traces_all racy) [] added key m (contains_trace load)
        (contains_trace load racy) (contains-insert_traces_all load racy)

  reported-add_report :
      (wp persisted : Bool)
      → reported persisted key load (add_report wp added racy r) ≡ (
          ((bool_eq wp persisted && report_key_eq added key) && contains_trace load racy)
          || reported persisted key load r)
  unfolding reported bool_eq
  reported-add_report true true = contains-update_at r.races
  reported-add_report true false = refl
  reported-add_report false true = refl
  reported-add_report false false = contains-update_at r.unpersisted_races

-- The loads that race with a store.
abbrev pub racing : Caches → (ℕ → Analysed) → ℕ → ℕ → LocksetPtr → ℕ → List Trace
racing c tls tid address ls clock_i =
    check_pm_races_per_thread c tls tid address ls (clock_at (tls tid).thread clock_i)

module _ (persisted : Bool) (t : Traces) (flushed : Bool) (load : Trace) where
  reported-report_traces :
      (key : StoreKey) (racy : List Trace) (ts : List Traces) (r : Reports)
      → reported persisted (t, flushed) load (report_traces key racy ts r) ≡ (
          ((bool_eq key.persisted persisted && bool_eq key.was_flushed flushed)
            && (has_traces t ts && contains_trace load racy))
          || reported persisted (t, flushed) load r)
  unfolding report_traces has_traces report_key_eq
  reported-report_traces key racy [] r = ground arith
  reported-report_traces key racy (u ∷ ts) r =
      let r' : Reports = add_report key.persisted (u, key.was_flushed) racy r in
      ground (
        arith,
        reported-add_report (u, key.was_flushed) (t, flushed) load racy r key.persisted persisted,
        reported-report_traces key racy ts r',
      )

  module _ (c : Caches) (tls : ℕ → Analysed) (tid : ℕ) where
    abbrev pub of_key : StoreKey → Bool
    of_key key = bool_eq key.persisted persisted && bool_eq key.was_flushed flushed

    -- Does a group have these traces, and the load among those that race with it?
    abbrev pub racy_clock : StoreKey → LocksetPtr → ℕ → List Traces → Bool
    racy_clock key ls clock_i ts =
        of_key key
        && (has_traces t ts && contains_trace load (racing c tls tid key.address ls clock_i))

    abbrev pub racy_lockset : StoreKey → LocksetPtr → List (ℕ × List Traces) → Bool
    racy_lockset key ls clocks = any_entry (racy_clock key ls) clocks

    abbrev pub racy_group : StoreKey → List (LocksetPtr × List (ℕ × List Traces)) → Bool
    racy_group key locksets = any_entry (racy_lockset key) locksets

    -- What a group adds; nothing when no load races.
    abbrev after_clock : StoreKey → List Trace → List Traces → Reports → Reports
    after_clock key racy_loads ts r = elim racy_loads [
      | [] ↦ r
      | l ∷ loads ↦ report_traces key (l ∷ loads) ts r
    ]

    reported-after_clock :
        (key : StoreKey) (racy_loads : List Trace) (ts : List Traces) (r : Reports)
        → reported persisted (t, flushed) load (after_clock key racy_loads ts r) ≡ (
            (of_key key && (has_traces t ts && contains_trace load racy_loads))
            || reported persisted (t, flushed) load r)
    unfolding contains_trace
    reported-after_clock key [] ts r = ground arith
    reported-after_clock key (l ∷ loads) ts r = reported-report_traces key (l ∷ loads) ts r

    reported-report_clocks :
        (key : StoreKey) (ls : LocksetPtr) (clocks : List (ℕ × List Traces)) (r : Reports)
        → reported persisted (t, flushed) load (report_clocks c tls tid key ls clocks r)
          ≡ (racy_lockset key ls clocks || reported persisted (t, flushed) load r)
    unfolding report_clocks any_entry
    reported-report_clocks key ls [] r = refl
    reported-report_clocks key ls ((clock_i, ts) ∷ rest) r =
        let racy_loads = racing c tls tid key.address ls clock_i in
        ground (
          arith,
          reported-report_clocks key ls rest (after_clock key racy_loads ts r),
          reported-after_clock key racy_loads ts r,
        )

    reported-report_locksets :
        (key : StoreKey) (locksets : List (LocksetPtr × List (ℕ × List Traces))) (r : Reports)
        → reported persisted (t, flushed) load (report_locksets c tls tid key locksets r)
          ≡ (racy_group key locksets || reported persisted (t, flushed) load r)
    unfolding report_locksets any_entry
    reported-report_locksets key [] r = refl
    reported-report_locksets key ((ls, clocks) ∷ rest) r = ground (
      arith,
      reported-report_locksets key rest (report_clocks c tls tid key ls clocks r),
      reported-report_clocks key ls clocks r,
    )

    pub reported-report_groups :
        (groups : Groups) (r : Reports)
        → reported persisted (t, flushed) load (report_groups c tls tid groups r)
          ≡ (any_entry racy_group groups || reported persisted (t, flushed) load r)
    unfolding report_groups any_entry
    reported-report_groups [] r = refl
    reported-report_groups ((key, locksets) ∷ rest) r = ground (
      arith,
      reported-report_groups rest (report_locksets c tls tid key locksets r),
      reported-report_locksets key locksets r,
    )
