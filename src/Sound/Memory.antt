-- ===== src/Sound/Memory.antt =====
-- The cache simulation of src/hawkset.cpp keeps the pointers of the state good.
use hawk_set.Backtrace.{Trace}
use hawk_set.Bitset
use hawk_set.Bitset.{Bitset}
use hawk_set.Cache.{
  LocksetPtr, Caches, TimedPtr, lockset_cache_get, intersect_timedlockset, ptr_eq, timed_deref,
}
use hawk_set.Memory.{
  push_store, insert_lockset, insert_load, record_load, register_access, record_store,
  register_unpersisted_store,
}
use hawk_set.Sound.{
  Has, All, IsLocksetPtr, IsFenceTrace, IsStoreRecord, IsLoadRecord, IsStored, IsSound, IsStarted,
}
use hawk_set.Sound.Actions.{
  After, Extends-trans, Any, After-bind, After-pure, After-choose, change_thread-After,
}
use hawk_set.Sound.Pools.{
  get_backtrace-After, get_timedlockset-After, with_caches-After, lockset_cache_get-Requests,
  intersect_timedlockset-Requests, handle_access-After, handle_access_byte-After,
}
use hawk_set.Sound.Tables.{
  All-append, Grows-Has, IsFenceTrace-Extends, IsStored-Extends, IsStarted-Extends,
}
use hawk_set.TimedLockset.{to_lockset}
use hawk_set.Tool.{
  StoreFenceData, StoreData, AccessKey, key_eq, LocksetSet, ThreadData, Tool, handle_access,
  handle_access_byte, get_backtrace, get_timedlockset, with_caches, change_thread, clock_index,
  pure,
}
use hawk_set.VectorClock.{VectorClock}
use hawk_set.Prelude.{
  ℕ, zero, suc, ◌+◌, ◌-◌, ◌%◌, ◌^◌, ◌≡◌, ◌<◌, refl, Bool, false, not, Option, some, List, [], ◌∷◌,
  ◌++◌, length, get_elem?, Bool-cases, inl, inr, arith, if◌then◌else◌,
}

pub get_elem?-below : {A : Type 0} (xs : List A) (p : ℕ) → p < length xs → Has xs p
get_elem?-below [] p h = absurd (omega arith)
get_elem?-below (x ∷ xs) zero h = (x, refl)
get_elem?-below (x ∷ xs) (suc p) h = get_elem?-below xs p (omega arith)

-- The clock that an access is recorded with is one of the thread's.
pub clock_index-Has : (t : ThreadData) → Has t.vector_clocks 0 → Has t.vector_clocks (clock_index t)
unfolding clock_index
clock_index-Has t (vc, h) =
    get_elem?-below t.vector_clocks (clock_index t) (below t.vector_clocks h)
  where
    below :
        (clocks : List VectorClock)
        → get_elem? clocks 0 ≡ some vc
        → (length clocks + 2 ^ 64 - 1) % 2 ^ 64 % 2 ^ 16 < length clocks
    below [] h = cc
    below (x ∷ xs) h = omega arith

insert_lockset-All :
    (P : LocksetPtr → Type 0) (p : LocksetPtr) (ls : LocksetSet)
    → P p
    → All P ls
    → All P (insert_lockset p ls)
unfolding insert_lockset
insert_lockset-All P p [] h a = (h, tt)
insert_lockset-All P p (q ∷ qs) h a =
    let rest = insert_lockset-All P p qs h a.1 in
    elim (Bool-cases (ptr_eq p q)) [
      | inl e ↦ rw (e, insert_lockset) a
      | inr e ↦ rw (e, insert_lockset) (a.0, rest)
    ]

insert_load-All :
    (s : Tool) (clocks : List VectorClock) (key : AccessKey) (p : LocksetPtr)
    (loads : List (AccessKey × LocksetSet))
    → Has clocks key.clock_i
    → Has s.backtraces key.backtrace
    → IsLocksetPtr s.caches p
    → All (IsLoadRecord s.caches s.backtraces clocks) loads
    → All (IsLoadRecord s.caches s.backtraces clocks) (insert_load key p loads)
unfolding insert_load
insert_load-All s clocks key p [] h k l a =
    ((h, k, insert_lockset-All (IsLocksetPtr s.caches) p [] l tt), tt)
insert_load-All s clocks key p ((j, ls) ∷ loads) h k l a =
    let rest = insert_load-All s clocks key p loads h k l a.1 in
    elim (Bool-cases (key_eq j key)) [
      | inl e ↦
          rw (e, insert_load)
            ((a.0.0, a.0.1, insert_lockset-All (IsLocksetPtr s.caches) p ls l a.0.2), a.1)
      | inr e ↦ rw (e, insert_load) (a.0, rest)
    ]

record_load-After :
    (s : Tool) (tid ip address : ℕ) (mask : Bitset)
    → IsSound s
    → IsStarted s tid
    → After s Any (record_load tid ip address mask s)
unfolding record_load
record_load-After s tid ip address mask sound started =
    After-bind s _ Any (get_backtrace tid ip) _ (get_backtrace-After s tid ip sound)
      (λ backtrace s1 sound1 e1 traced.
        After-bind s1 _ Any (get_timedlockset tid) _ (get_timedlockset-After s1 tid sound1)
          (λ tls s2 sound2 e2 held.
            let request : Caches → LocksetPtr × Caches =
              λ c. lockset_cache_get c (to_lockset (timed_deref c tls)) in
            let key : AccessKey = record {
              address = address;
              backtrace = backtrace;
              clock_i = clock_index (s1.analysis_data_tls tid);
              mask = mask;
            } in
            let add : LocksetPtr → ThreadData → ThreadData =
              λ ls t. record t { race_likely_loads = insert_load key ls t.race_likely_loads } in
            After-bind s2 (λ s' ls. IsLocksetPtr s'.caches ls) Any (with_caches request)
              (λ ls. change_thread tid (add ls))
              (with_caches-After s2 request IsLocksetPtr sound2
                (lockset_cache_get-Requests s2.caches (to_lockset (timed_deref s2.caches tls))))
              (λ ls s3 sound3 e3 in_cache.
                let e = Extends-trans s1 s2 s3 e2 e3 in
                let t = s3.analysis_data_tls tid in
                let ok = sound3 tid in
                change_thread-After s3 tid (add ls) sound3
                  (record {
                    stores = ok.stores;
                    loads =
                        insert_load-All s3 t.vector_clocks key ls t.race_likely_loads
                          (Grows-Has (s1.analysis_data_tls tid).vector_clocks t.vector_clocks
                            key.clock_i (e.clocks tid)
                            (clock_index-Has (s1.analysis_data_tls tid)
                              (IsStarted-Extends s s1 e1 tid started)))
                          (Grows-Has s1.backtraces s3.backtraces backtrace e.traces traced) in_cache
                          ok.loads;
                    written = ok.written;
                    flushed = ok.flushed;
                    remembered = ok.remembered;
                  })
                  (λ p x k. k))))

pub register_access-After :
    (s : Tool) (tid ip address size : ℕ)
    → IsSound s
    → IsStarted s tid
    → After s Any (register_access tid ip address size s)
unfolding register_access
register_access-After s tid ip address size sound started =
    After-bind s Any Any (handle_access tid address size)
      (λ mask. if not (Bitset.any mask) then pure tt else record_load tid ip address mask)
      (handle_access-After s tid address size sound)
      (λ mask s1 sound1 e1 x.
        After-choose s1 Any (not (Bitset.any mask)) (pure tt) (record_load tid ip address mask)
          (After-pure s1 Any tt sound1 tt)
          (record_load-After s1 tid ip address mask sound1 (IsStarted-Extends s s1 e1 tid started)))

pub record_store-After :
    (s : Tool) (tid address : ℕ) (stored : StoreData) (current : TimedPtr) (trace : Option Trace)
    (persisted was_flushed : Bool)
    → IsSound s
    → IsStarted s tid
    → IsStored s.caches s.backtraces stored
    → IsFenceTrace s.backtraces persisted trace
    → After s Any (record_store tid address stored current trace persisted was_flushed s)
unfolding record_store
record_store-After s tid address stored current trace persisted was_flushed sound started good
      fenced =
    let request : Caches → LocksetPtr × Caches =
      λ c. intersect_timedlockset c current stored.timed_lockset in
    let rlp : LocksetPtr → ThreadData → StoreFenceData = λ common_set t. record {
      common_set = common_set;
      clock_i = clock_index t;
      write_trace = stored.backtrace;
      fence_trace = trace;
      address = address;
      persisted = persisted;
      was_flushed = was_flushed;
    } in
    After-bind s (λ s' ls. IsLocksetPtr s'.caches ls) Any (with_caches request)
      (λ common_set s'. push_store tid (rlp common_set (s'.analysis_data_tls tid)) s')
      (with_caches-After s request IsLocksetPtr sound
        (intersect_timedlockset-Requests s.caches current stored.timed_lockset))
      (λ common_set s1 sound1 e1 in_cache.
        let t = s1.analysis_data_tls tid in
        let ok = sound1 tid in
        change_thread-After s1 tid
          (λ u. record u { race_likely_stores = u.race_likely_stores ++ rlp common_set t ∷ [] })
          sound1
          (record {
            stores =
                All-append (IsStoreRecord s1.caches s1.backtraces t.vector_clocks)
                  t.race_likely_stores (rlp common_set t ∷ []) ok.stores
                  (
                    (
                      in_cache,
                      clock_index-Has t (IsStarted-Extends s s1 e1 tid started),
                      (IsStored-Extends s s1 e1 stored good).1,
                      IsFenceTrace-Extends s s1 e1 persisted trace fenced,
                    ),
                    tt,
                  );
            loads = ok.loads;
            written = ok.written;
            flushed = ok.flushed;
            remembered = ok.remembered;
          })
          (λ p x k. k))

pub register_unpersisted_store-After :
    (s : Tool) (tid address : ℕ) (stored : StoreData) (current : TimedPtr) (trace : Option Trace)
    (was_flushed : Bool)
    → IsSound s
    → IsStarted s tid
    → IsStored s.caches s.backtraces stored
    → IsFenceTrace s.backtraces false trace
    → After s Any (register_unpersisted_store tid address stored current trace was_flushed s)
unfolding register_unpersisted_store
register_unpersisted_store-After s tid address stored current trace was_flushed sound started good
      fenced =
    After-bind s Any Any (handle_access_byte tid address)
      (λ record_it.
        if not record_it
        then pure tt
        else record_store tid address stored current trace false was_flushed)
      (handle_access_byte-After s tid address sound)
      (λ record_it s1 sound1 e1 x.
        After-choose s1 Any (not record_it) (pure tt)
          (record_store tid address stored current trace false was_flushed)
          (After-pure s1 Any tt sound1 tt)
          (record_store-After s1 tid address stored current trace false was_flushed sound1
            (IsStarted-Extends s s1 e1 tid started) (IsStored-Extends s s1 e1 stored good)
            (IsFenceTrace-Extends s s1 e1 false trace fenced)))
