-- ===== src/Output/Groups.antt =====
-- The traces in the groups and the reports of `CheckPMRaces` of src/hawkset.cpp are recorded ones,
-- and a report of a persisted store has the trace of its fence.
use hawk_set.Cache.{LocksetPtr, Caches}
use hawk_set.Races.Reports.{
  update_at, bool_eq, StoreKey, store_key_eq, same_locks, Traces, traces_eq, insert_traces, Groups,
  group_store, group_stores,
}
use hawk_set.Sound.{Has, All, IsFenceTrace}
use hawk_set.Tool.{StoreFenceData}
use hawk_set.Prelude.{
  if-Is, ℕ, ◌≡◌, refl, Bool, true, false, List, [], ◌∷◌, ◌==◌, Bool-cases, inl, inr, arith,
}

-- A property of the entries, when one of them is changed or added.
pub update_at-All :
    {K V : Type 0} (P : K × V → Type 0) (same : K → K → Bool) (f : V → V) (new : V) (k : K)
    (m : List (K × V))
    → ((j : K) (v : V) → same j k ≡ true → P (j, v) → P (j, f v))
    → P (k, f new)
    → All P m
    → All P (update_at same f new k m)
unfolding update_at
update_at-All P same f new k [] change fresh a = (fresh, tt)
update_at-All P same f new k ((j, v) ∷ m) change fresh a =
    let rest = update_at-All P same f new k m change fresh a.1 in
    elim (Bool-cases (same j k)) [
      | inl e ↦ rw (e, update_at) (change j v e a.0, a.1)
      | inr e ↦ rw (e, update_at) (a.0, rest)
    ]

module _ (pool : List (List ℕ)) where
  -- The traces of a store, which may be persisted.
  abbrev pub HasTraces : Bool → Traces → Type 0
  HasTraces persisted (write_trace, fence_trace) =
      Has pool write_trace × IsFenceTrace pool persisted fence_trace

  abbrev pub HasClock : Bool → ℕ × List Traces → Type 0
  HasClock persisted (clock_i, ts) = All (HasTraces persisted) ts

  abbrev pub HasLockset : Bool → LocksetPtr × List (ℕ × List Traces) → Type 0
  HasLockset persisted (ls, clocks) = All (HasClock persisted) clocks

  abbrev pub HasGroup : StoreKey × List (LocksetPtr × List (ℕ × List Traces)) → Type 0
  HasGroup (key, locksets) = All (HasLockset key.persisted) locksets

  -- A recorded store.
  abbrev pub HasStore : StoreFenceData → Type 0
  HasStore rls = HasTraces rls.persisted (rls.write_trace, rls.fence_trace)

  insert_traces-All :
      (persisted : Bool) (t : Traces) (ts : List Traces)
      → HasTraces persisted t
      → All (HasTraces persisted) ts
      → All (HasTraces persisted) (insert_traces t ts)
  unfolding insert_traces
  insert_traces-All persisted t [] h a = (h, tt)
  insert_traces-All persisted t (u ∷ us) h a =
      if-Is (All (HasTraces persisted)) (traces_eq u t) _ _ a
        (a.0, insert_traces-All persisted t us h a.1)

  same_persisted : (j k : StoreKey) → store_key_eq j k ≡ true → j.persisted ≡ k.persisted
  unfolding store_key_eq bool_eq
  same_persisted j k e = go j.persisted k.persisted (ground arith)
    where
      go : (a b : Bool) → bool_eq a b ≡ true → a ≡ b
      go true true e = refl
      go true false e = cc
      go false true e = cc
      go false false e = refl

  group_store-All :
      (c : Caches) (rls : StoreFenceData) (groups : Groups)
      → HasStore rls
      → All HasGroup groups
      → All HasGroup (group_store c rls groups)
  unfolding group_store
  group_store-All c rls groups h a =
      update_at-All HasGroup store_key_eq by_lockset [] key groups
        (λ j locksets e b.
          let same : j.persisted ≡ rls.persisted = same_persisted j key e in
          in_locksets j.persisted locksets (rw same h) b)
        (in_locksets rls.persisted [] h tt) a
    where
      t : Traces
      t = (rls.write_trace, rls.fence_trace)

      key : StoreKey
      key = record {
        address = rls.address;
        persisted = rls.persisted;
        was_flushed = rls.was_flushed;
      }

      by_clock : List (ℕ × List Traces) → List (ℕ × List Traces)
      by_clock = update_at (◌==◌) (insert_traces t) [] rls.clock_i

      by_lockset :
          List (LocksetPtr × List (ℕ × List Traces)) → List (LocksetPtr × List (ℕ × List Traces))
      by_lockset = update_at (same_locks c) by_clock [] rls.common_set

      in_clocks :
          (persisted : Bool) (clocks : List (ℕ × List Traces))
          → HasTraces persisted t
          → All (HasClock persisted) clocks
          → All (HasClock persisted) (by_clock clocks)
      in_clocks persisted clocks k b =
          update_at-All (HasClock persisted) (◌==◌) (insert_traces t) [] rls.clock_i clocks
            (λ j ts e d. insert_traces-All persisted t ts k d)
            (insert_traces-All persisted t [] k tt) b

      in_locksets :
          (persisted : Bool) (locksets : List (LocksetPtr × List (ℕ × List Traces)))
          → HasTraces persisted t
          → All (HasLockset persisted) locksets
          → All (HasLockset persisted) (by_lockset locksets)
      in_locksets persisted locksets k b =
          update_at-All (HasLockset persisted) (same_locks c) by_clock [] rls.common_set locksets
            (λ j clocks e d. in_clocks persisted clocks k d) (in_clocks persisted [] k tt) b

  pub group_stores-All :
      (c : Caches) (stores : List StoreFenceData) (groups : Groups)
      → All HasStore stores
      → All HasGroup groups
      → All HasGroup (group_stores c stores groups)
  unfolding group_stores
  group_stores-All c [] groups h a = a
  group_stores-All c (rls ∷ stores) groups h a =
      group_stores-All c stores (group_store c rls groups) h.1 (group_store-All c rls groups h.0 a)
