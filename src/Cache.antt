-- ===== src/Cache.antt =====
-- The caches of locksets and timed locksets, and the intersections by address: src/cache.hpp. The
-- mutex of each cache makes a request one step.
pub mod Laws
pub mod Hash
use hawk_set.Intern
use hawk_set.Intern.{Comparison}
use hawk_set.Lockset
use hawk_set.Lockset.{Lockset, no_locks, lockset_eq}
use hawk_set.Lockset.Sets.{lockset_eq_iff}
use hawk_set.TimedLockset
use hawk_set.TimedLockset.{TimedLockset, timed_lockset_eq}
use hawk_set.TimedLockset.Sets.{timed_lockset_eq_iff}
use hawk_set.Prelude.{
  ℕ, ◌≡◌, refl, sym, ◌∙◌, Bool, true, false, Option, none, some, List, ◌==◌, if◌then◌else◌, get_or,
}

pub lockset_eq_refl : (a : Lockset) → lockset_eq a a ≡ true
lockset_eq_refl a = (lockset_eq_iff a a).1 (λ i. refl)

pub lockset_eq_sym : (a b : Lockset) → lockset_eq a b ≡ true → lockset_eq b a ≡ true
lockset_eq_sym a b h = (lockset_eq_iff b a).1 (λ i. sym ((lockset_eq_iff a b).0 h i))

pub lockset_eq_trans :
    (a b c : Lockset) → lockset_eq a b ≡ true → lockset_eq b c ≡ true → lockset_eq a c ≡ true
lockset_eq_trans a b c h k =
    (lockset_eq_iff a c).1 (λ i. (lockset_eq_iff a b).0 h i ∙ (lockset_eq_iff b c).0 k i)

pub timed_refl : (a : TimedLockset) → timed_lockset_eq a a ≡ true
timed_refl a = (timed_lockset_eq_iff a a).1 refl

pub timed_sym : (a b : TimedLockset) → timed_lockset_eq a b ≡ true → timed_lockset_eq b a ≡ true
timed_sym a b h = (timed_lockset_eq_iff b a).1 (sym ((timed_lockset_eq_iff a b).0 h))

pub timed_trans :
    (a b c : TimedLockset)
    → timed_lockset_eq a b ≡ true
    → timed_lockset_eq b c ≡ true
    → timed_lockset_eq a c ≡ true
timed_trans a b c h k =
    (timed_lockset_eq_iff a c).1 ((timed_lockset_eq_iff a b).0 h ∙ (timed_lockset_eq_iff b c).0 k)

-- `std::equal_to<pLockset>`
abbrev pub lockset_comparison : Comparison Lockset
lockset_comparison = record {
  same = lockset_eq;
  same_refl = lockset_eq_refl;
  same_sym = lockset_eq_sym;
  same_trans = lockset_eq_trans;
}

-- `std::equal_to<pTimedLockset>`
abbrev pub timed_comparison : Comparison TimedLockset
timed_comparison = record {
  same = timed_lockset_eq;
  same_refl = timed_refl;
  same_sym = timed_sym;
  same_trans = timed_trans;
}

-- `pLockset`: the object `empty_lockset`, or one of the cache by its position.
pub data LocksetPtr : Type 0 where
  empty_lockset : LocksetPtr
  cached : ℕ → LocksetPtr

-- `pTimedLockset`: always an object of its cache.
abbrev pub TimedPtr : Type 0
TimedPtr = ℕ

-- `locksets_cache` and `timedlocksets_cache`
pub record Caches : Type 0 where
  pub locksets : List Lockset
  pub timed_locksets : List TimedLockset

unfoldable pub deref : Caches → LocksetPtr → Lockset
deref c empty_lockset = no_locks
deref c (cached p) = get_or c.locksets p no_locks

unfoldable pub timed_deref : Caches → TimedPtr → TimedLockset
timed_deref c p = get_or c.timed_locksets p TimedLockset.no_timed_locks

-- The test `==` on two pointers.
unfoldable pub ptr_eq : LocksetPtr → LocksetPtr → Bool
ptr_eq empty_lockset empty_lockset = true
ptr_eq (cached p) (cached q) = p == q
ptr_eq _ _ = false

unfoldable pub lockset_cache_get : Caches → Lockset → LocksetPtr × Caches
lockset_cache_get c ls =
    let (p, pool) = Intern.get lockset_comparison c.locksets ls in
    (cached p, record c { locksets = pool })

unfoldable pub timedlockset_cache_get : Caches → TimedLockset → TimedPtr × Caches
timedlockset_cache_get c tls =
    let (p, pool) = Intern.get timed_comparison c.timed_locksets tls in
    (p, record c { timed_locksets = pool })

unfoldable pub intersect_lockset : Caches → LocksetPtr → LocksetPtr → LocksetPtr × Caches
unfolding deref ptr_eq lockset_cache_get
intersect_lockset c ls1 ls2 =
    if Lockset.is_empty (deref c ls1)
    then (empty_lockset, c)
    else if Lockset.is_empty (deref c ls2)
    then (empty_lockset, c)
    else if ptr_eq ls1 ls2
    then (ls1, c)
    else lockset_cache_get c (Lockset.intersect (deref c ls1) (deref c ls2))

unfoldable pub intersect_timedlockset : Caches → TimedPtr → TimedPtr → LocksetPtr × Caches
unfolding timed_deref lockset_cache_get
intersect_timedlockset c tls1 tls2 =
    if TimedLockset.is_empty (timed_deref c tls1)
    then (empty_lockset, c)
    else if TimedLockset.is_empty (timed_deref c tls2)
    then (empty_lockset, c)
    else if tls1 == tls2
    then lockset_cache_get c (TimedLockset.to_lockset (timed_deref c tls1))
    else lockset_cache_get c
        (TimedLockset.to_lockset (TimedLockset.intersect (timed_deref c tls1) (timed_deref c tls2)))
