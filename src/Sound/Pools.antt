-- ===== src/Sound/Pools.antt =====
-- The requests to the pools of src/cache.hpp and src/utils.hpp and to the heuristic keep the
-- pointers of the state good, and the pointers that they return are good.
use hawk_set.Backtrace
use hawk_set.Backtrace.{Trace, trace_comparison}
use hawk_set.Cache
use hawk_set.Cache.{
  LocksetPtr, empty_lockset, cached, TimedPtr, Caches, deref, timed_deref, ptr_eq,
  lockset_comparison, timed_comparison, lockset_cache_get, timedlockset_cache_get,
  intersect_timedlockset,
}
use hawk_set.Bitset.{Bitset}
use hawk_set.Heuristic
use hawk_set.Heuristic.{Accesses}
use hawk_set.Intern
use hawk_set.Lockset.{Lockset}
use hawk_set.Sound.{Has, Grows, IsLocksetPtr, IsSound, IsRemembered, Extends}
use hawk_set.Sound.Actions.{
  After, Any, Extends-trans, After-some, After-none, After-pure, put-IsSound, put-Extends,
}
use hawk_set.Sound.Tables.{IsThread-grow}
use hawk_set.TimedLockset
use hawk_set.TimedLockset.{TimedLockset}
use hawk_set.TimedLockset.Sets.{timed_lockset_eq_iff}
use hawk_set.Tool
use hawk_set.Tool.{
  ThreadData, Tool, M, get_backtrace, get_timedlockset, with_caches, put_thread, put_same,
  put_other,
}
use hawk_set.Prelude.{
  ℕ, ◌≡◌, ◌∙◌, ap, Bool, Option, none, some, List, ◌∷◌, get_elem?, Option-cases, Bool-cases, inl,
  inr, ◌==◌,
}

-- The pools grow, and else nothing changes.
module _ (s : Tool) (c : Caches) (pool : List (List ℕ)) (sound : IsSound s)
    (locksets : Grows s.caches.locksets c.locksets)
    (timed_locksets : Grows s.caches.timed_locksets c.timed_locksets)
    (traces : Grows s.backtraces pool) where
  pools-IsSound : IsSound (record s { caches = c; backtraces = pool })
  pools-IsSound tid =
      let t = s.analysis_data_tls tid in
      IsThread-grow s.caches c s.backtraces pool locksets timed_locksets traces t t.vector_clocks
        (λ p x h. h) (sound tid)

  pools-Extends : Extends s (record s { caches = c; backtraces = pool })
  pools-Extends = record {
    locksets = locksets;
    timed_locksets = timed_locksets;
    traces = traces;
    clocks = λ tid p x h. h;
  }

pub get_backtrace-After :
    (s : Tool) (tid ip : ℕ)
    → IsSound s
    → After s (λ s' trace. Has s'.backtraces trace) (get_backtrace tid ip s)
unfolding get_backtrace Backtrace.get_backtrace
get_backtrace-After s tid ip sound =
    let frames = ip ∷ (s.analysis_data_tls tid).stack in
    let (x, found, same) = Intern.get-same trace_comparison s.backtraces frames in
    let stable = Intern.get-stable trace_comparison s.backtraces frames in
    After-some s _ _ _ (pools-IsSound s s.caches _ sound (λ p x h. h) (λ p x h. h) stable)
      (pools-Extends s s.caches _ sound (λ p x h. h) (λ p x h. h) stable) (x, found)

-- What a request to the caches does: they grow, and the result has the property.
abbrev pub Requests : {A : Type 0} → (Caches → A → Type 0) → Caches → A × Caches → Type 0
Requests Q c (a, d) = Grows c.locksets d.locksets × Grows c.timed_locksets d.timed_locksets × Q d a

pub with_caches-After :
    {A : Type 0} (s : Tool) (f : Caches → A × Caches) (Q : Caches → A → Type 0)
    → IsSound s
    → Requests Q s.caches (f s.caches)
    → After s (λ s' a. Q s'.caches a) (with_caches f s)
with_caches-After s f Q sound (g, h, q) =
    let d = (f s.caches).1 in
    After-some s _ _ _ (pools-IsSound s d s.backtraces sound g h (λ p x k. k))
      (pools-Extends s d s.backtraces sound g h (λ p x k. k)) q

pub lockset_cache_get-Requests :
    (c : Caches) (ls : Lockset) → Requests IsLocksetPtr c (lockset_cache_get c ls)
unfolding lockset_cache_get
lockset_cache_get-Requests c ls =
    let (x, found, same) = Intern.get-same lockset_comparison c.locksets ls in
    (Intern.get-stable lockset_comparison c.locksets ls, (λ p y h. h), (x, found))

pub intersect_timedlockset-Requests :
    (c : Caches) (tls1 tls2 : TimedPtr)
    → Requests IsLocksetPtr c (intersect_timedlockset c tls1 tls2)
unfolding intersect_timedlockset
intersect_timedlockset-Requests c tls1 tls2 =
    elim (Bool-cases (TimedLockset.is_empty (timed_deref c tls1))) [
      | inl e ↦ rw (e, intersect_timedlockset) kept
      | inr e ↦ elim (Bool-cases (TimedLockset.is_empty (timed_deref c tls2))) [
        | inl f ↦ rw (e, f, intersect_timedlockset) kept
        | inr f ↦ elim (Bool-cases (tls1 == tls2)) [
          | inl g ↦ rw (e, f, g, intersect_timedlockset) (lockset_cache_get-Requests c _)
          | inr g ↦ rw (e, f, g, intersect_timedlockset) (lockset_cache_get-Requests c _)
        ]
      ]
    ]
  where
    kept : Requests IsLocksetPtr c (empty_lockset, c)
    kept = ((λ p x h. h), (λ p x h. h), tt)

timedlockset_cache_get-Requests :
    (c : Caches) (tls : TimedLockset)
    → Requests (λ d p. get_elem? d.timed_locksets p ≡ some tls) c (timedlockset_cache_get c tls)
unfolding timedlockset_cache_get
timedlockset_cache_get-Requests c tls =
    let (x, found, same) = Intern.get-same timed_comparison c.timed_locksets tls in
    let equal : x ≡ tls = (timed_lockset_eq_iff x tls).0 same in
    ((λ p y h. h), Intern.get-stable timed_comparison c.timed_locksets tls, found ∙ ap some equal)

-- The pointer is that of the locks that the thread holds.
pub get_timedlockset-After :
    (s : Tool) (tid : ℕ)
    → IsSound s
    → After s
        (λ s' p.
          get_elem? s'.caches.timed_locksets p
          ≡ some (s.analysis_data_tls tid).current_timedlockset)
        (get_timedlockset tid s)
unfolding get_timedlockset
get_timedlockset-After s tid sound =
    elim (Option-cases (s.analysis_data_tls tid).cached_timedlockset) [
      | inr (p, e) ↦
          rw (e, get_timedlockset) (After-pure s _ p sound (held p e (sound tid).remembered))
      | inl e ↦ rw (e, get_timedlockset) asked
    ]
  where
    t : ThreadData
    t = s.analysis_data_tls tid

    held :
        (p : TimedPtr)
        → t.cached_timedlockset ≡ some p
        → IsRemembered s.caches.timed_locksets t.cached_timedlockset t.current_timedlockset
        → get_elem? s.caches.timed_locksets p ≡ some t.current_timedlockset
    held p e h = rw e at h

    asked :
        After s
          (λ s' p. get_elem? s'.caches.timed_locksets p ≡ some t.current_timedlockset)
          (let (p, c) = Cache.timedlockset_cache_get s.caches t.current_timedlockset in
            some (
              p,
              record s {
                caches = c;
                analysis_data_tls =
                    put_thread s.analysis_data_tls tid (record t { cached_timedlockset = some p });
              },
            ))
    asked =
        let (g, h, q) = timedlockset_cache_get-Requests s.caches t.current_timedlockset in
        let c = (timedlockset_cache_get s.caches t.current_timedlockset).1 in
        let grown = pools-IsSound s c s.backtraces sound g h (λ p x k. k) in
        let ok = grown tid in
        let mid : Tool = record s { caches = c } in
        let u : ThreadData = record t {
          cached_timedlockset = some (timedlockset_cache_get s.caches t.current_timedlockset).0;
        } in
        After-some s _ _ _
          (put-IsSound mid tid u grown (record {
            stores = ok.stores;
            loads = ok.loads;
            written = ok.written;
            flushed = ok.flushed;
            remembered = q;
          }))
          (Extends-trans s mid _ (pools-Extends s c s.backtraces sound g h (λ p x k. k))
            (put-Extends mid tid u (λ p x k. k)))
          q

-- The heuristic's accesses are no pointers.
same_pools : (s : Tool) (a : Accesses) → Extends s (record s { accesses = a })
same_pools s a = record {
  locksets = λ p x h. h;
  timed_locksets = λ p x h. h;
  traces = λ p x h. h;
  clocks = λ tid p x h. h;
}

pub handle_access-After :
    (s : Tool) (tid address size : ℕ)
    → IsSound s
    → After s Any (Tool.handle_access tid address size s)
unfolding Tool.handle_access
handle_access-After s tid address size sound =
    go (Heuristic.handle_access s.use_init_removal_heuristic_n tid address size s.accesses)
  where
    go :
        (o : Option (Bitset × Accesses))
        → After s Any
            (elim o [ none ↦ none | some (mask, a) ↦ some (mask, record s { accesses = a }) ])
    go none = After-none s Any
    go (some (mask, a)) = After-some s Any mask _ sound (same_pools s a) tt

pub handle_access_byte-After :
    (s : Tool) (tid address : ℕ) → IsSound s → After s Any (Tool.handle_access_byte tid address s)
unfolding Tool.handle_access_byte
handle_access_byte-After s tid address sound =
    go (Heuristic.handle_access_byte s.use_init_removal_heuristic_n tid address s.accesses)
  where
    go :
        (o : Option (Bool × Accesses))
        → After s Any (elim o [
          | none ↦ none
          | some (record_it, a) ↦ some (record_it, record s { accesses = a })
        ])
    go none = After-none s Any
    go (some (record_it, a)) = After-some s Any record_it _ sound (same_pools s a) tt
