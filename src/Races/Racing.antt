-- ===== src/Races/Racing.antt =====
-- The groups of stores that race, and the recorded stores that race: `CheckPMRaces` of src/hawkset.cpp.
use hawk_set.Backtrace.{Trace}
use hawk_set.Cache.{LocksetPtr, Caches, deref}
use hawk_set.Intern.{Comparison}
use hawk_set.Lockset.Sets.{lockset_eq_iff}
use hawk_set.Races.{Analysed, contains_trace, clock_at}
use hawk_set.Races.Groups.{
  has_traces, bool_eq_iff, key_comparison, locks_comparison, nat_comparison, has_traces-insert,
  same_locks_sym,
}
use hawk_set.Races.PerThread.{check_pm_races_per_thread_iff}
use hawk_set.Races.Reported.{any_entry, racing, racy_clock, racy_lockset, racy_group}
use hawk_set.Races.Reports.{
  update_at, bool_eq, StoreKey, store_key_eq, same_locks, Traces, traces_eq, insert_traces, Groups,
  group_store, group_stores,
}
use hawk_set.Tool.{StoreFenceData}
use hawk_set.Prelude.{
  ℕ, ◌≡◌, refl, sym, ap, ◌∙◌, inl, inr, Bool, true, false, ◌&&◌, ◌||◌, List, [], ◌∷◌, ◌==◌,
  Bool-cases, arith,
}

-- An update of an entry, seen through a test of the entries that it extends by `x`.
any_entry-update_at :
    {K V : Type 0} (cmp : Comparison K) (f : V → V) (d : V) (k : K) (test : K → V → Bool) (x : Bool)
    → ((j : K) (v : V) → cmp.same j k ≡ true → test j (f v) ≡ (x || test j v))
    → test k d ≡ false
    → (m : List (K × V)) → any_entry test (update_at cmp.same f d k m) ≡ (x || any_entry test m)
unfolding any_entry update_at
any_entry-update_at cmp f d k test x extends fresh [] =
    ground (arith, extends k d (cmp.same_refl k), fresh)
any_entry-update_at cmp f d k test x extends fresh ((j, v) ∷ m) = elim (Bool-cases (cmp.same j k)) [
  | inl e ↦ ground (arith, e, extends j v e)
  | inr e ↦ ground (arith, e, any_entry-update_at cmp f d k test x extends fresh m)
]

-- The loads that race depend on which locks are held, not on where they are kept.
module _ (c : Caches) (tls : ℕ → Analysed) (tid address clock_i : ℕ) (load : Trace) where
  racing_sound :
      (p q : LocksetPtr)
      → same_locks c p q ≡ true
      → contains_trace load (racing c tls tid address p clock_i) ≡ true
      → contains_trace load (racing c tls tid address q clock_i) ≡ true
  unfolding same_locks
  racing_sound p q same h =
      let held = (lockset_eq_iff (deref c p) (deref c q)).0 same in
      let (
        u,
        bound,
        (used, other, loads, at, (i, set, among, concurrent, (ls, in_set, disjoint))),
      ) =
        (check_pm_races_per_thread_iff c p (clock_at (tls tid).thread clock_i) load tls tid
            address).0
          h in
      (check_pm_races_per_thread_iff c q (clock_at (tls tid).thread clock_i) load tls tid address).1
        (
          u,
          bound,
          (
            used,
            other,
            loads,
            at,
            (i, set, among, concurrent, (ls, in_set, λ m. disjoint (m.0, m.1, held m.0 ∙ m.2))),
          ),
        )

  racing-same_locks :
      (p q : LocksetPtr)
      → same_locks c p q ≡ true
      → contains_trace load (racing c tls tid address p clock_i)
        ≡ contains_trace load (racing c tls tid address q clock_i)
  racing-same_locks p q same =
      elim (Bool-cases (contains_trace load (racing c tls tid address p clock_i))) [
        | inl e ↦ e ∙ sym (racing_sound p q same e)
        | inr e ↦ elim (Bool-cases (contains_trace load (racing c tls tid address q clock_i))) [
          | inl f ↦ racing_sound q p (same_locks_sym c p q same) f ∙ sym f
          | inr f ↦ e ∙ sym f
        ]
      ]

module _ (persisted : Bool) (t : Traces) (flushed : Bool) (load : Trace) (c : Caches)
    (tls : ℕ → Analysed) (tid : ℕ) where
  -- Does the store have these traces and this state, and the load among those that race with it?
  unfoldable pub racy_store : StoreFenceData → Bool
  racy_store rls =
      (bool_eq rls.persisted persisted && bool_eq rls.was_flushed flushed)
      && (traces_eq (rls.write_trace, rls.fence_trace) t
          && contains_trace load (racing c tls tid rls.address rls.common_set rls.clock_i))

  unfoldable pub any_racy : List StoreFenceData → Bool
  unfolding racy_store
  any_racy [] = false
  any_racy (rls ∷ stores) = racy_store rls || any_racy stores

  module _ (rls : StoreFenceData) where
    abbrev key_of : StoreKey
    key_of = record {
      address = rls.address;
      persisted = rls.persisted;
      was_flushed = rls.was_flushed;
    }

    racy_clock-insert_traces :
        (key : StoreKey) (ls : LocksetPtr) (clock_i : ℕ) (ts : List Traces)
        → store_key_eq key key_of ≡ true
        → same_locks c ls rls.common_set ≡ true
        → (clock_i == rls.clock_i) ≡ true
        → racy_clock persisted t flushed load c tls tid key ls clock_i
            (insert_traces (rls.write_trace, rls.fence_trace) ts)
          ≡ (racy_store rls || racy_clock persisted t flushed load c tls tid key ls clock_i ts)
    unfolding racy_store store_key_eq
    racy_clock-insert_traces key ls clock_i ts same_key same_ls same_clock =
        let address : key.address ≡ rls.address = ground arith in
        let p : key.persisted ≡ rls.persisted =
          (bool_eq_iff key.persisted rls.persisted).0 (ground arith) in
        let f : key.was_flushed ≡ rls.was_flushed =
          (bool_eq_iff key.was_flushed rls.was_flushed).0 (ground arith) in
        let i : clock_i ≡ rls.clock_i = ground arith in
        ground (
          arith,
          ap (λ x. bool_eq x persisted) p,
          ap (λ x. bool_eq x flushed) f,
          ap (λ x. contains_trace load (racing c tls tid x ls clock_i)) address
              ∙ ap (λ x. contains_trace load (racing c tls tid rls.address ls x)) i
              ∙ racing-same_locks c tls tid rls.address rls.clock_i load ls rls.common_set same_ls,
          has_traces-insert t (rls.write_trace, rls.fence_trace) ts,
        )

    -- What the group of the store becomes, level by level.
    abbrev put_clock : List (ℕ × List Traces) → List (ℕ × List Traces)
    put_clock = update_at (◌==◌) (insert_traces (rls.write_trace, rls.fence_trace)) [] rls.clock_i

    abbrev put_lockset :
        List (LocksetPtr × List (ℕ × List Traces)) → List (LocksetPtr × List (ℕ × List Traces))
    put_lockset = update_at (same_locks c) put_clock [] rls.common_set

    racy_lockset-put_clock :
        (key : StoreKey) (ls : LocksetPtr) (clocks : List (ℕ × List Traces))
        → store_key_eq key key_of ≡ true
        → same_locks c ls rls.common_set ≡ true
        → racy_lockset persisted t flushed load c tls tid key ls (put_clock clocks)
          ≡ (racy_store rls || racy_lockset persisted t flushed load c tls tid key ls clocks)
    unfolding has_traces
    racy_lockset-put_clock key ls clocks same_key same_ls =
        any_entry-update_at nat_comparison (insert_traces (rls.write_trace, rls.fence_trace)) []
          rls.clock_i (racy_clock persisted t flushed load c tls tid key ls) (racy_store rls)
          (λ i ts same_clock. racy_clock-insert_traces key ls i ts same_key same_ls same_clock)
          (ground arith) clocks

    racy_group-put_lockset :
        (key : StoreKey) (locksets : List (LocksetPtr × List (ℕ × List Traces)))
        → store_key_eq key key_of ≡ true
        → racy_group persisted t flushed load c tls tid key (put_lockset locksets)
          ≡ (racy_store rls || racy_group persisted t flushed load c tls tid key locksets)
    unfolding any_entry
    racy_group-put_lockset key locksets same_key =
        any_entry-update_at (locks_comparison c) put_clock [] rls.common_set
          (racy_lockset persisted t flushed load c tls tid key) (racy_store rls)
          (λ ls clocks same_ls. racy_lockset-put_clock key ls clocks same_key same_ls) refl locksets

    racy_group-group_store :
        (groups : Groups)
        → any_entry (racy_group persisted t flushed load c tls tid) (group_store c rls groups)
          ≡ (racy_store rls || any_entry (racy_group persisted t flushed load c tls tid) groups)
    unfolding group_store any_entry
    racy_group-group_store groups =
        any_entry-update_at key_comparison put_lockset [] key_of
          (racy_group persisted t flushed load c tls tid) (racy_store rls)
          (λ key locksets same_key. racy_group-put_lockset key locksets same_key) refl groups

  pub any_racy-group_stores :
      (stores : List StoreFenceData) (groups : Groups)
      → any_entry (racy_group persisted t flushed load c tls tid) (group_stores c stores groups)
        ≡ (any_racy stores || any_entry (racy_group persisted t flushed load c tls tid) groups)
  unfolding group_stores any_racy
  any_racy-group_stores [] groups = refl
  any_racy-group_stores (rls ∷ stores) groups = ground (
    arith,
    any_racy-group_stores stores (group_store c rls groups),
    racy_group-group_store rls groups,
  )
