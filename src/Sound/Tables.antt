-- ===== src/Sound/Tables.antt =====
-- The predicates on the pointers, when lists and maps change and when what they refer to grows.
use hawk_set.Backtrace.{Trace}
use hawk_set.Cache.{LocksetPtr, empty_lockset, cached, Caches}
use hawk_set.Map
use hawk_set.Map.{Map}
use hawk_set.Sound.{
  Has, Grows, All, IsLocksetPtr, IsFenceTrace, IsStoreRecord, IsLoadRecord, IsEntry, IsKeyedLine,
  IsThread, IsRemembered, Extends, IsStarted, IsStored, IsLine, IsMemory,
}
use hawk_set.TimedLockset.{TimedLockset}
use hawk_set.Tool.{StoreFenceData, StoreData, AccessKey, LocksetSet, ThreadData, Tool, MemState}
use hawk_set.VectorClock.{VectorClock}
use hawk_set.Prelude.{
  ℕ, ◌≡◌, Bool, Option, none, some, List, [], ◌∷◌, ◌++◌, ◌==◌, ltb, get_elem?-append, Bool-cases,
  ==_iff, inl, inr, arith,
}

pub All-append :
    {A : Type 0} (P : A → Type 0) (xs ys : List A) → All P xs → All P ys → All P (xs ++ ys)
All-append P [] ys a b = b
All-append P (x ∷ xs) ys a b = (a.0, All-append P xs ys a.1 b)

pub All-weaken :
    {A : Type 0} (P Q : A → Type 0) (xs : List A) → ((x : A) → P x → Q x) → All P xs → All Q xs
All-weaken P Q [] f a = tt
All-weaken P Q (x ∷ xs) f a = (f x a.0, All-weaken P Q xs f a.1)

pub Grows-Has : {A : Type 0} (xs ys : List A) (p : ℕ) → Grows xs ys → Has xs p → Has ys p
Grows-Has xs ys p g (x, h) = (x, g p x h)

pub Grows-append : {A : Type 0} (xs ys : List A) → Grows xs (xs ++ ys)
Grows-append xs ys p x h = get_elem?-append xs ys p x h

-- Entries of a map whose values all have a property.
module _ {V : Type 0} (P : ℕ × V → Type 0) where
  pub assign-All : (k : ℕ) (v : V) (m : Map V) → P (k, v) → All P m → All P (Map.assign k v m)
  unfolding Map.assign
  assign-All k v [] h a = (h, tt)
  assign-All k v ((j, w) ∷ m) h a =
      let rest = assign-All k v m h a.1 in
      elim (Bool-cases (k == j)) [
        | inl e ↦ rw (e, Map.assign) (h, a.1)
        | inr e ↦ elim (Bool-cases (ltb k j)) [
          | inl f ↦ rw (e, f, Map.assign) (h, a)
          | inr f ↦ rw (e, f, Map.assign) (a.0, rest)
        ]
      ]

  pub erase-All : (k : ℕ) (m : Map V) → All P m → All P (Map.erase k m)
  unfolding Map.erase
  erase-All k [] a = tt
  erase-All k ((j, w) ∷ m) a =
      let rest = erase-All k m a.1 in
      elim (Bool-cases (k == j)) [
        | inl e ↦ rw (e, Map.erase) rest
        | inr e ↦ rw (e, Map.erase) (a.0, rest)
      ]

  -- The value that is found has it.
  pub find-All : (k : ℕ) (v : V) (m : Map V) → Map.find k m ≡ some v → All P m → P (k, v)
  unfolding Map.find
  find-All k v [] e a = cc
  find-All k v ((j, w) ∷ m) e a = elim (Bool-cases (k == j)) [
    | inl f ↦
        let key : k ≡ j = (==_iff k j).0 f in
        let same : w ≡ v = ground arith in rw (key, ← same) a.0
    | inr f ↦ find-All k v m (ground (arith, f)) a.1
  ]

module _ (c d : Caches) (pool pool' : List (List ℕ)) (locksets : Grows c.locksets d.locksets)
    (timed_locksets : Grows c.timed_locksets d.timed_locksets) (traces : Grows pool pool') where
  pub IsLocksetPtr-grow : (p : LocksetPtr) → IsLocksetPtr c p → IsLocksetPtr d p
  IsLocksetPtr-grow empty_lockset h = tt
  IsLocksetPtr-grow (cached p) (x, h) = (x, locksets p x h)

  IsFenceTrace-grow :
      (persisted : Bool) (trace : Option Trace)
      → IsFenceTrace pool persisted trace
      → IsFenceTrace pool' persisted trace
  IsFenceTrace-grow persisted none h = h
  IsFenceTrace-grow persisted (some t) (x, h) = (x, traces t x h)

  IsRemembered-grow :
      (p : Option ℕ) (current : TimedLockset)
      → IsRemembered c.timed_locksets p current
      → IsRemembered d.timed_locksets p current
  IsRemembered-grow none current h = tt
  IsRemembered-grow (some p) current h = timed_locksets p current h

  IsKeyedLine-grow : (e : ℕ × Map StoreData) → IsKeyedLine c pool e → IsKeyedLine d pool' e
  IsKeyedLine-grow (cl, line) h =
      All-weaken (IsEntry c pool) (IsEntry d pool') line
        (λ (a, x) k. (
          Grows-Has c.timed_locksets d.timed_locksets x.timed_lockset timed_locksets k.0,
          Grows-Has pool pool' x.backtrace traces k.1,
        ))
        h

  IsStoreRecord-grow :
      (clocks clocks' : List VectorClock)
      → Grows clocks clocks'
      → (r : StoreFenceData) → IsStoreRecord c pool clocks r
      → IsStoreRecord d pool' clocks' r
  IsStoreRecord-grow clocks clocks' g r h = (
    IsLocksetPtr-grow r.common_set h.0,
    Grows-Has clocks clocks' r.clock_i g h.1,
    Grows-Has pool pool' r.write_trace traces h.2,
    IsFenceTrace-grow r.persisted r.fence_trace h.3,
  )

  IsLoadRecord-grow :
      (clocks clocks' : List VectorClock)
      → Grows clocks clocks'
      → (r : AccessKey × LocksetSet) → IsLoadRecord c pool clocks r
      → IsLoadRecord d pool' clocks' r
  IsLoadRecord-grow clocks clocks' g (key, locksets) h = (
    Grows-Has clocks clocks' key.clock_i g h.0,
    Grows-Has pool pool' key.backtrace traces h.1,
    All-weaken (IsLocksetPtr c) (IsLocksetPtr d) locksets IsLocksetPtr-grow h.2,
  )

  -- What a thread's data refers to grows, and the thread's clocks too.
  pub IsThread-grow :
      (t : ThreadData) (clocks : List VectorClock)
      → Grows t.vector_clocks clocks
      → IsThread c pool t
      → IsThread d pool' (record t { vector_clocks = clocks })
  IsThread-grow t clocks g ok = record {
    stores =
        All-weaken _ _ t.race_likely_stores (IsStoreRecord-grow t.vector_clocks clocks g) ok.stores;
    loads =
        All-weaken _ _ t.race_likely_loads (IsLoadRecord-grow t.vector_clocks clocks g) ok.loads;
    written = All-weaken _ _ t.mem_state IsKeyedLine-grow ok.written;
    flushed = All-weaken _ _ t.flushed_mem_state IsKeyedLine-grow ok.flushed;
    remembered = IsRemembered-grow t.cached_timedlockset t.current_timedlockset ok.remembered;
  }

pub IsStored-Extends :
    (s s' : Tool)
    → Extends s s'
    → (d : StoreData) → IsStored s.caches s.backtraces d
    → IsStored s'.caches s'.backtraces d
IsStored-Extends s s' e d h = (
  Grows-Has s.caches.timed_locksets s'.caches.timed_locksets d.timed_lockset e.timed_locksets h.0,
  Grows-Has s.backtraces s'.backtraces d.backtrace e.traces h.1,
)

pub IsLine-Extends :
    (s s' : Tool)
    → Extends s s'
    → (line : Map StoreData) → IsLine s.caches s.backtraces line
    → IsLine s'.caches s'.backtraces line
IsLine-Extends s s' e line h =
    All-weaken (IsEntry s.caches s.backtraces) (IsEntry s'.caches s'.backtraces) line
      (λ (a, d) k. IsStored-Extends s s' e d k) h

pub IsMemory-Extends :
    (s s' : Tool)
    → Extends s s'
    → (m : MemState) → IsMemory s.caches s.backtraces m
    → IsMemory s'.caches s'.backtraces m
IsMemory-Extends s s' e m h =
    All-weaken (IsKeyedLine s.caches s.backtraces) (IsKeyedLine s'.caches s'.backtraces) m
      (λ (cl, line) k. IsLine-Extends s s' e line k) h

pub IsStarted-Extends :
    (s s' : Tool) → Extends s s' → (tid : ℕ) → IsStarted s tid → IsStarted s' tid
IsStarted-Extends s s' e tid (vc, h) = (vc, e.clocks tid 0 vc h)

pub IsFenceTrace-Extends :
    (s s' : Tool)
    → Extends s s'
    → (persisted : Bool) (trace : Option Trace) → IsFenceTrace s.backtraces persisted trace
    → IsFenceTrace s'.backtraces persisted trace
IsFenceTrace-Extends s s' e persisted trace h =
    IsFenceTrace-grow s.caches s'.caches s.backtraces s'.backtraces e.locksets e.timed_locksets
      e.traces persisted trace h
