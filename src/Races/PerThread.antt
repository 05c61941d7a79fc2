-- ===== src/Races/PerThread.antt =====
-- Which loads `CheckPMRacesPerThread` returns for a store.
use hawk_set.Backtrace.{Trace}
use hawk_set.Cache.{LocksetPtr, Caches, deref, ptr_eq}
use hawk_set.Cache.Laws.{ptr_eq_sound}
use hawk_set.Lockset.{short_intersect}
use hawk_set.Lockset.Sets.{short_intersect_iff, Meet}
use hawk_set.Map
use hawk_set.Map.{Map}
use hawk_set.Races.{
  Loads, Analysed, contains_trace, insert_trace, any_disjoint, clock_at, load_loop, thread_loop,
  check_pm_races_per_thread, tls_max_size,
}
use hawk_set.Tool.{LocksetSet, ThreadData}
use hawk_set.VectorClock.{VectorClock, is_concurrent}
use hawk_set.Prelude.{
  ℕ, zero, suc, ◌+◌, ◌<◌, ◌≤◌, ◌≡◌, ◌≢◌, ◌⊎◌, ◌↔◌, refl, sym, ap, ◌∙◌, inl, inr, Bool, true, false,
  not, ◌&&◌, ◌||◌, none, some, List, [], ◌∷◌, arith, ◌==◌, if◌then◌else◌, Bool-cases, Option-cases,
}

-- The value is in the list.
abbrev pub Among : {A : Type 0} → A → List A → Type 0
Among a [] = ⊥
Among a (x ∷ xs) = (a ≡ x) ⊎ Among a xs

pub contains-insert_trace :
    (t u : Trace) (us : List Trace)
    → contains_trace t (insert_trace u us) ≡ ((t == u) || contains_trace t us)
unfolding insert_trace contains_trace
contains-insert_trace t u us = elim (Bool-cases (t == u)) [
  | inl e ↦ let p : t ≡ u = ground arith in rw (p, insert_trace) (ground arith)
  | inr e ↦ ground arith
]

-- A lockset of the load shares no lock with that of the store.
abbrev pub SomeDisjoint : Caches → LocksetPtr → LocksetSet → Type 0
SomeDisjoint c write_set set =
    (ls : LocksetPtr) × Among ls set × ¬ Meet (deref c ls) (deref c write_set)

Meet-iff :
    (c : Caches) (p q : LocksetPtr)
    → (short_intersect (ptr_eq p q) (deref c p) (deref c q) ≡ true) ↔ Meet (deref c p) (deref c q)
Meet-iff c p q =
    short_intersect_iff (ptr_eq p q) (deref c p) (deref c q)
      (λ e. ap (deref c) (ptr_eq_sound p q e))

any_disjoint_sound :
    (c : Caches) (w : LocksetPtr) (set : LocksetSet)
    → any_disjoint c w set ≡ true
    → SomeDisjoint c w set
unfolding any_disjoint
any_disjoint_sound c w [] h = cc
any_disjoint_sound c w (p ∷ set) h =
    elim (Bool-cases (short_intersect (ptr_eq p w) (deref c p) (deref c w))) [
      | inl e ↦ let (ls, a, d) = any_disjoint_sound c w set (rw e at h) in (ls, inr a, d)
      | inr e ↦ (p, inl refl, λ m. let z = (Meet-iff c p w).1 m in cc)
    ]

any_disjoint_complete :
    (c : Caches) (w : LocksetPtr) (set : LocksetSet)
    → SomeDisjoint c w set
    → any_disjoint c w set ≡ true
unfolding any_disjoint
any_disjoint_complete c w [] (ls, a, d) = absurd a
any_disjoint_complete c w (p ∷ set) (ls, inl e, d) =
    elim (Bool-cases (short_intersect (ptr_eq p w) (deref c p) (deref c w))) [
      | inl f ↦ absurd (d (rw e ((Meet-iff c p w).0 f)))
      | inr f ↦ rw f
    ]
any_disjoint_complete c w (p ∷ set) (ls, inr a, d) =
    let z = any_disjoint_complete c w set (ls, a, d) in ground arith

module _ (c : Caches) (w : LocksetPtr) (wc : VectorClock) (t : Trace) where
  any_load : ThreadData → Loads → Bool
  any_load thread [] = false
  any_load thread (((backtrace, clock_i), set) ∷ loads) =
      (t == backtrace && (is_concurrent (clock_at thread clock_i) wc && any_disjoint c w set))
      || any_load thread loads

  contains-load_loop :
      (thread : ThreadData) (loads : Loads) (racy : List Trace)
      → contains_trace t (load_loop c thread w wc loads racy)
        ≡ (contains_trace t racy || any_load thread loads)
  unfolding load_loop any_load
  contains-load_loop thread [] racy = ground arith
  contains-load_loop thread (((b, j), set) ∷ loads) racy =
      contains-load_loop thread loads _ ∙ elim (Bool-cases (t == b)) [
        | inl e ↦
            let p : t ≡ b = ground arith in
            ground (arith, contains-insert_trace t b racy, ap (λ x. contains_trace x racy) p)
        | inr e ↦ ground (arith, contains-insert_trace t b racy)
      ]

  -- A load with this trace that is concurrent and without a common lock.
  abbrev pub RacyLoad : ThreadData → Loads → Type 0
  RacyLoad thread loads =
      (clock_i : ℕ) × (set : LocksetSet) × Among ((t, clock_i), set) loads
      × (is_concurrent (clock_at thread clock_i) wc ≡ true)
      × SomeDisjoint c w set

  any_load_sound :
      (thread : ThreadData) (loads : Loads) → any_load thread loads ≡ true → RacyLoad thread loads
  unfolding any_load
  any_load_sound thread [] h = cc
  any_load_sound thread (((b, j), set) ∷ loads) h = elim (Bool-cases (any_load thread loads)) [
    | inl e ↦ let (i, s, a, k, d) = any_load_sound thread loads e in (i, s, inr a, k, d)
    | inr e ↦
        let p : t ≡ b = ground arith in
        (j, set, inl (rw p), ground arith, any_disjoint_sound c w set (ground arith))
  ]

  any_load_complete :
      (thread : ThreadData) (loads : Loads) → RacyLoad thread loads → any_load thread loads ≡ true
  unfolding any_load
  any_load_complete thread [] (i, s, a, k, d) = absurd a
  any_load_complete thread (((b, j), set) ∷ loads) (i, s, inl e, k, d) =
      let p : t ≡ b = ap (λ (x : (Trace × ℕ) × LocksetSet). x.0.0) e in
      let q : i ≡ j = ap (λ (x : (Trace × ℕ) × LocksetSet). x.0.1) e in
      let r : s ≡ set = ap (λ (x : (Trace × ℕ) × LocksetSet). x.1) e in
      let z = ap (any_disjoint c w) (sym r) ∙ any_disjoint_complete c w s d in
      let y = ap (λ x. is_concurrent (clock_at thread x) wc) (sym q) ∙ k in ground (arith, z, y, p)
  any_load_complete thread (((b, j), set) ∷ loads) (i, s, inr a, k, d) =
      let z = any_load_complete thread loads (i, s, a, k, d) in ground arith

  module _ (tls : ℕ → Analysed) (tid address : ℕ) where
    -- The test for one thread, and for a row of them.
    thread_hit : ℕ → Bool
    unfolding any_load
    thread_hit u =
        if not (tls u).thread.used || u == tid
        then false
        else elim (Map.find address (tls u).race_likely_loads_opt) [
          | none ↦ false
          | some loads ↦ any_load (tls u).thread loads
        ]

    any_thread : ℕ → ℕ → Bool
    unfolding thread_hit
    any_thread zero u = false
    any_thread (suc n) u = thread_hit u || any_thread n (u + 1)

    contains-thread_loop :
        (n u : ℕ) (racy : List Trace)
        → contains_trace t (thread_loop n u c tls tid address w wc racy)
          ≡ (contains_trace t racy || any_thread n u)
    unfolding thread_loop any_thread
    contains-thread_loop zero u racy = ground arith
    contains-thread_loop (suc n) u racy =
        contains-thread_loop n (u + 1) _ ∙ elim (Bool-cases (not (tls u).thread.used || u == tid)) [
          | inl e ↦ rw e (ground arith)
          | inr e ↦ elim (Option-cases (Map.find address (tls u).race_likely_loads_opt)) [
            | inl f ↦ rw (e, f) (ground arith)
            | inr (loads, f) ↦
                rw (e, f) (rw (contains-load_loop (tls u).thread loads racy) (ground arith))
          ]
        ]

    -- Another thread than the writer has loaded the byte, concurrently and with no common lock.
    abbrev pub RacyThread : ℕ → Type 0
    RacyThread u =
        ((tls u).thread.used ≡ true)
        × (u ≢ tid)
        × (loads : Loads) × (Map.find address (tls u).race_likely_loads_opt ≡ some loads)
        × RacyLoad (tls u).thread loads

    thread_hit_sound : (u : ℕ) → thread_hit u ≡ true → RacyThread u
    unfolding thread_hit
    thread_hit_sound u h = elim (Option-cases (Map.find address (tls u).race_likely_loads_opt)) [
      | inl f ↦ absurd (ground arith)
      | inr (loads, f) ↦
          (ground arith, ground arith, loads, f, any_load_sound (tls u).thread loads (ground arith))
    ]

    thread_hit_complete : (u : ℕ) → RacyThread u → thread_hit u ≡ true
    unfolding thread_hit
    thread_hit_complete u (used, other, loads, f, r) =
        let z = any_load_complete (tls u).thread loads r in ground arith

    any_thread_sound : (n u : ℕ) → any_thread n u ≡ true → (v : ℕ) × (v < u + n) × RacyThread v
    unfolding any_thread
    any_thread_sound zero u h = cc
    any_thread_sound (suc n) u h = elim (Bool-cases (thread_hit u)) [
      | inl e ↦ (u, omega arith, thread_hit_sound u e)
      | inr e ↦ let (v, b, r) = any_thread_sound n (u + 1) (rw e at h) in (v, omega arith, r)
    ]

    any_thread_complete : (n u v : ℕ) → u ≤ v → v < u + n → RacyThread v → any_thread n u ≡ true
    unfolding any_thread
    any_thread_complete zero u v a b r = absurd (omega arith)
    any_thread_complete (suc n) u v a b r = elim (Bool-cases (u == v)) [
      | inl e ↦
          let p : v ≡ u = ground arith in
          let z = ap thread_hit (sym p) ∙ thread_hit_complete v r in ground arith
      | inr e ↦
          let z = any_thread_complete n (u + 1) v (ground arith) (omega arith) r in ground arith
    ]

    -- The analysis returns the loads that race with the store, and no other: those of the other
    -- threads at its byte whose clock is concurrent and one of whose locksets shares no lock.
    pub check_pm_races_per_thread_iff :
        (contains_trace t (check_pm_races_per_thread c tls tid address w wc) ≡ true)
        ↔ ((u : ℕ) × (u < tls_max_size) × RacyThread u)
    unfolding check_pm_races_per_thread contains_trace
    check_pm_races_per_thread_iff = (
      λ h. any_thread_sound tls_max_size 0 (sym (contains-thread_loop tls_max_size 0 []) ∙ h),
      λ r.
          contains-thread_loop tls_max_size 0 []
          ∙ any_thread_complete tls_max_size 0 r.0 (omega arith) (omega (arith, r.1)) r.2,
    )
