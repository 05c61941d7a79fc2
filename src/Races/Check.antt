-- ===== src/Races/Check.antt =====
-- `CheckPMRaces` of src/hawkset.cpp from the recorded stores and loads to the reports.
use hawk_set.Backtrace.{Trace}
use hawk_set.Races.{contains_trace, clock_at, tls_max_size}
use hawk_set.Races.Groups.{look, bool_eq_iff, traces_eq_iff}
use hawk_set.Races.PerThread.{check_pm_races_per_thread_iff, RacyThread, Among}
use hawk_set.Races.Recorded.{RacyRecord, RacyThread-iff}
use hawk_set.Races.Racing.{racy_store, any_racy, any_racy-group_stores}
use hawk_set.Races.Reported.{any_entry, reported, reported-report_groups}
use hawk_set.Races.Reports.{
  Traces, Reports, group_stores, report_groups, report_threads, analysed, check_pm_races,
}
use hawk_set.Tool.{StoreFenceData, Tool}
use hawk_set.Prelude.{
  ℕ, zero, suc, ◌+◌, ◌<◌, ◌≤◌, ◌≡◌, ◌↔◌, refl, sym, ap, subst, ◌∙◌, inl, inr, Bool, true, false,
  not, ◌&&◌, ◌||◌, List, [], ◌∷◌, ◌==◌, if◌then◌else◌, Bool-cases, arith,
}

or_false : (a : Bool) {b : Bool} → b ≡ false → (a || b) ≡ a
or_false true e = refl
or_false false e = e

module _ (s : Tool) (persisted : Bool) (t : Traces) (flushed : Bool) (load : Trace) where
  abbrev racy_at : ℕ → StoreFenceData → Bool
  racy_at tid = racy_store persisted t flushed load s.caches (analysed s) tid

  abbrev racy_among : ℕ → List StoreFenceData → Bool
  racy_among tid = any_racy persisted t flushed load s.caches (analysed s) tid

  -- The threads from `tid` on.
  unfoldable any_thread : ℕ → ℕ → Bool
  any_thread zero tid = false
  any_thread (suc rounds) tid =
      ((s.analysis_data_tls tid).used
        && racy_among tid (s.analysis_data_tls tid).race_likely_stores)
      || any_thread rounds (tid + 1)

  reported-report_threads :
      (rounds tid : ℕ) (r : Reports)
      → reported persisted (t, flushed) load (report_threads rounds tid s.caches (analysed s) r)
        ≡ (any_thread rounds tid || reported persisted (t, flushed) load r)
  unfolding report_threads any_thread any_entry analysed
  reported-report_threads zero tid r = refl
  reported-report_threads (suc rounds) tid r =
      let stores = (s.analysis_data_tls tid).race_likely_stores in
      let groups = group_stores s.caches stores [] in
      let r' : Reports =
        if not (s.analysis_data_tls tid).used
        then r
        else report_groups s.caches (analysed s) tid groups r in
      ground (
        arith,
        reported-report_threads rounds (tid + 1) r',
        reported-report_groups persisted t flushed load s.caches (analysed s) tid groups r,
        any_racy-group_stores persisted t flushed load s.caches (analysed s) tid stores [],
      )

  -- A recorded store of the thread with these traces and this state, with which the load races.
  abbrev pub RacyStore : ℕ → StoreFenceData → Type 0
  RacyStore tid rls =
      (rls.persisted ≡ persisted)
      × (rls.was_flushed ≡ flushed)
      × ((rls.write_trace, rls.fence_trace) ≡ t)
      × ((u : ℕ) × (u < tls_max_size)
          × RacyRecord s rls.common_set (clock_at (s.analysis_data_tls tid) rls.clock_i) load tid
              rls.address u)

  RacyStore-iff : (tid : ℕ) (rls : StoreFenceData) → (racy_at tid rls ≡ true) ↔ RacyStore tid rls
  unfolding racy_store analysed
  RacyStore-iff tid rls =
      let clock = clock_at (s.analysis_data_tls tid) rls.clock_i in
      let iff =
        check_pm_races_per_thread_iff s.caches rls.common_set clock load (analysed s) tid
          rls.address in
      let kept : (u : ℕ)
          → RacyThread s.caches rls.common_set clock load (analysed s) tid rls.address u
            ↔ RacyRecord s rls.common_set clock load tid rls.address u =
        RacyThread-iff s rls.common_set clock load tid rls.address in
      let p = bool_eq_iff rls.persisted persisted in
      let f = bool_eq_iff rls.was_flushed flushed in
      let e = traces_eq_iff (rls.write_trace, rls.fence_trace) t in
      (
        λ h.
            let (u, small, racy) = iff.0 (ground arith) in
            (
              p.0 (ground arith),
              f.0 (ground arith),
              e.0 (ground arith),
              (u, small, (kept u).0 racy),
            ),
        λ r.
            let found = iff.1 (r.3.0, r.3.1, (kept r.3.0).1 r.3.2) in
            ground (arith, p.1 r.0, f.1 r.1, e.1 r.2, found),
      )

  any_racy_sound :
      (tid : ℕ) (stores : List StoreFenceData)
      → racy_among tid stores ≡ true
      → (rls : StoreFenceData) × Among rls stores × RacyStore tid rls
  unfolding any_racy
  any_racy_sound tid [] h = cc
  any_racy_sound tid (rls ∷ stores) h = elim (Bool-cases (racy_at tid rls)) [
    | inl e ↦ (rls, inl refl, (RacyStore-iff tid rls).0 e)
    | inr e ↦ let (rls', a, r) = any_racy_sound tid stores (ground arith) in (rls', inr a, r)
  ]

  any_racy_complete :
      (tid : ℕ) (stores : List StoreFenceData) (rls : StoreFenceData)
      → Among rls stores
      → RacyStore tid rls
      → racy_among tid stores ≡ true
  unfolding any_racy
  any_racy_complete tid [] rls a r = absurd a
  any_racy_complete tid (x ∷ stores) rls (inl e) r =
      ground (arith, ap (racy_at tid) (sym e) ∙ (RacyStore-iff tid rls).1 r)
  any_racy_complete tid (x ∷ stores) rls (inr a) r =
      ground (arith, any_racy_complete tid stores rls a r)

  -- One of the stores that the thread recorded.
  abbrev pub RacyWriter : ℕ → Type 0
  RacyWriter tid =
      ((s.analysis_data_tls tid).used ≡ true)
      × (rls : StoreFenceData) × Among rls (s.analysis_data_tls tid).race_likely_stores
      × RacyStore tid rls

  any_thread_sound :
      (rounds tid : ℕ) → any_thread rounds tid ≡ true → (v : ℕ) × (v < tid + rounds) × RacyWriter v
  unfolding any_thread
  any_thread_sound zero tid h = cc
  any_thread_sound (suc rounds) tid h =
      elim (Bool-cases (
        (s.analysis_data_tls tid).used
        && racy_among tid (s.analysis_data_tls tid).race_likely_stores)) [
          | inl e ↦
              let found =
                any_racy_sound tid (s.analysis_data_tls tid).race_likely_stores (ground arith) in
              (tid, omega arith, (ground arith, found.0, found.1, found.2))
          | inr e ↦
              let (v, bound, w) = any_thread_sound rounds (tid + 1) (ground arith) in
              (v, omega arith, w)
        ]

  any_thread_complete :
      (rounds tid v : ℕ) → tid ≤ v → v < tid + rounds → RacyWriter v → any_thread rounds tid ≡ true
  unfolding any_thread
  any_thread_complete zero tid v low high w = absurd (omega arith)
  any_thread_complete (suc rounds) tid v low high w = elim (Bool-cases (tid == v)) [
    | inl e ↦
        let p : v ≡ tid = ground arith in
        let (used, rls, among, racy) = subst RacyWriter p w in
        ground (
          arith,
          used,
          any_racy_complete tid (s.analysis_data_tls tid).race_likely_stores rls among racy,
        )
    | inr e ↦ ground (arith, any_thread_complete rounds (tid + 1) v (ground arith) (omega arith) w)
  ]

  abbrev nothing : Reports
  nothing = record { races = []; unpersisted_races = [] }

  reported-nothing : reported persisted (t, flushed) load nothing ≡ false
  unfolding reported contains_trace look
  reported-nothing = elim (Bool-cases persisted) [ inl e ↦ rw e refl | inr e ↦ rw e refl ]

  reported-check_pm_races :
      reported persisted (t, flushed) load (check_pm_races s) ≡ any_thread tls_max_size 0
  unfolding check_pm_races
  reported-check_pm_races =
      reported-report_threads tls_max_size 0 nothing
      ∙ or_false (any_thread tls_max_size 0) reported-nothing

  -- The analysis reports a load for a pair of traces, under the persisted stores or under the others
  -- and with the given flush state, exactly when a thread that is used has recorded such a store and
  -- another used one a load with that trace, whose mask covers the byte of the store, whose clock is
  -- concurrent and one of whose locksets shares no lock with that of the store.
  pub check_pm_races_iff :
      (reported persisted (t, flushed) load (check_pm_races s) ≡ true)
      ↔ ((tid : ℕ) × (tid < tls_max_size) × RacyWriter tid)
  check_pm_races_iff = (
    λ h. any_thread_sound tls_max_size 0 (sym reported-check_pm_races ∙ h),
    λ w.
        reported-check_pm_races
        ∙ any_thread_complete tls_max_size 0 w.0 (omega arith) (omega (arith, w.1)) w.2,
  )
