-- ===== src/TimedLockset/Locks.antt =====
-- Which locks a thread holds, by their addresses: `TimedLockset::lock` and `TimedLockset::unlock` of
-- src/lockset.cpp.
use hawk_set.Map
use hawk_set.Map.{Map}
use hawk_set.Registry.{Registry, register_mutex, get_index}
use hawk_set.Registry.Laws.{IsRegistry, register_mutex-IsRegistry, find-register_mutex, registered}
use hawk_set.TimedLockset.{TimedLockset, lock, unlock}
use hawk_set.Prelude.{
  ℕ, ◌+◌, ◌^◌, ◌<◌, ◌≡◌, ap, ◌∙◌, Option, inl, inr, none, some, arith, ◌==◌, if◌then◌else◌,
  Bool-cases, Option-cases,
}

-- The time of the acquisition of the lock at an address, if the thread holds it.
abbrev pub acquired_at : Registry → TimedLockset → ℕ → Option ℕ
acquired_at r tls m = elim (Map.find m r.lock_index) [
  | none ↦ none
  | some i ↦ Map.find i tls.timestamps
]

module _ (r : Registry) (tls : TimedLockset) (m n : ℕ) (room : r.lock_counter + 1 < 2 ^ 64)
    (v : IsRegistry r) where
  abbrev q : Registry
  q = register_mutex r m

  -- A change of the entry with the number of the lock.
  acquired_at-change :
      (i : ℕ) (o : Option ℕ) (timestamps : Map ℕ)
      → Map.find m q.lock_index ≡ some i
      → ((j : ℕ) → Map.find j timestamps ≡ (if j == i then o else Map.find j tls.timestamps))
      → acquired_at q (record { timestamps = timestamps }) n
        ≡ (if n == m then o else acquired_at r tls n)
  acquired_at-change i o timestamps e h = elim (Bool-cases (n == m)) [
    | inl s ↦
        let p : n ≡ m = ground arith in
        let f : Map.find n q.lock_index ≡ some i = ap (λ k. Map.find k q.lock_index) p ∙ e in
        ground (arith, s, f, h i)
    | inr s ↦ elim (Option-cases (Map.find n r.lock_index)) [
      | inl g ↦ ground (arith, s, g, find-register_mutex r m n)
      | inr (j, g) ↦
          let k : Map.find n q.lock_index ≡ some j = ground (arith, find-register_mutex r m n) in
          ground (
            arith,
            s,
            g,
            k,
            h j,
            λ (a : Map.find n q.lock_index ≡ some i).
                (register_mutex-IsRegistry r m room v).distinct n m i a e,
          )
    ]
  ]

  lock_number : (i : ℕ) → Map.find m q.lock_index ≡ some i → get_index q m ≡ (i, q)
  unfolding get_index
  lock_number i e = rw (e, get_index)

  pub acquired_at-lock :
      (timestamp : ℕ)
      → acquired_at (lock r tls m timestamp).1 (lock r tls m timestamp).0 n
        ≡ (if n == m then some timestamp else acquired_at r tls n)
  unfolding lock
  acquired_at-lock timestamp =
      let (i, e) = registered r m in
      let number : get_index q m ≡ (i, q) = lock_number i e in
      ap
        (λ (k : ℕ × Registry).
          acquired_at k.1 (record { timestamps = Map.assign k.0 timestamp tls.timestamps }) n)
        number
      ∙ acquired_at-change i (some timestamp) (Map.assign i timestamp tls.timestamps) e
          (λ j. Map.find-assign j i timestamp tls.timestamps)

  pub acquired_at-unlock :
      acquired_at (unlock r tls m).1 (unlock r tls m).0 n
      ≡ (if n == m then none else acquired_at r tls n)
  unfolding unlock
  acquired_at-unlock =
      let (i, e) = registered r m in
      let number : get_index q m ≡ (i, q) = lock_number i e in
      ap
        (λ (k : ℕ × Registry).
          acquired_at k.1 (record { timestamps = Map.erase k.0 tls.timestamps }) n)
        number
      ∙ acquired_at-change i none (Map.erase i tls.timestamps) e
          (λ j. Map.find-erase j i tls.timestamps)
