-- ===== src/Cache/Laws.antt =====
-- What the intersections by address compute.
use hawk_set.Cache.{
  LocksetPtr, empty_lockset, cached, TimedPtr, Caches, deref, timed_deref, ptr_eq,
  lockset_cache_get, intersect_lockset, intersect_timedlockset, lockset_comparison,
}
use hawk_set.Intern
use hawk_set.Lockset
use hawk_set.Lockset.{Lockset, no_locks, has}
use hawk_set.Lockset.Sets.{lockset_eq_iff, is_empty_iff, has-intersect}
use hawk_set.TimedLockset
use hawk_set.TimedLockset.{TimedLockset}
use hawk_set.TimedLockset.Sets.{common, find-intersect, has-to_lockset, has-no_locks}
use hawk_set.Map
use hawk_set.Prelude.{
  ℕ, zero, suc, ◌≡◌, refl, sym, ap, ◌∙◌, inl, inr, Bool, true, false, ◌&&◌, Option, none, some,
  List, [], ◌∷◌, arith, ◌==◌, is_some, get_or, get_elem?, Bool-cases,
}

pub get_or-get_elem? :
    {A : Type 0} (xs : List A) (p : ℕ) (x d : A) → get_elem? xs p ≡ some x → get_or xs p d ≡ x
get_or-get_elem? [] p x d e = cc
get_or-get_elem? (y ∷ xs) zero x d e = cc
get_or-get_elem? (y ∷ xs) (suc p) x d e = get_or-get_elem? xs p x d e

-- The pointer that the cache returns leads to the locks that were asked for.
pub has-lockset_cache_get :
    (c : Caches) (ls : Lockset) (i : ℕ)
    → has (deref (lockset_cache_get c ls).1 (lockset_cache_get c ls).0) i ≡ has ls i
unfolding deref lockset_cache_get
has-lockset_cache_get c ls i =
    let (x, e, s) = Intern.get-same lockset_comparison c.locksets ls in
    rw
      (get_or-get_elem? (Intern.get lockset_comparison c.locksets ls).1
        (Intern.get lockset_comparison c.locksets ls).0 x no_locks e)
      ((lockset_eq_iff x ls).0 s i)

has_empty_lockset : (c : Caches) (i : ℕ) → has (deref c empty_lockset) i ≡ false
unfolding deref
has_empty_lockset c i = has-no_locks i

has_of_empty : (ls : Lockset) (i : ℕ) → Lockset.is_empty ls ≡ true → has ls i ≡ false
has_of_empty ls i h = (is_empty_iff ls).0 h i

pub ptr_eq_sound : (p q : LocksetPtr) → ptr_eq p q ≡ true → p ≡ q
unfolding ptr_eq
ptr_eq_sound empty_lockset empty_lockset h = refl
ptr_eq_sound empty_lockset (cached q) h = cc
ptr_eq_sound (cached p) empty_lockset h = cc
ptr_eq_sound (cached p) (cached q) h = ground arith

and_self : (b : Bool) → b ≡ (b && b)
and_self b = ground arith

-- `intersect_lockset` gives the locks that both sets hold.
pub has-intersect_lockset :
    (c : Caches) (p q : LocksetPtr) (i : ℕ)
    → has (deref (intersect_lockset c p q).1 (intersect_lockset c p q).0) i
      ≡ (has (deref c p) i && has (deref c q) i)
unfolding intersect_lockset
has-intersect_lockset c p q i = elim (Bool-cases (Lockset.is_empty (deref c p))) [
  | inl e ↦ rw (e, has_empty_lockset c i) (ground (arith, has_of_empty (deref c p) i e))
  | inr e ↦ elim (Bool-cases (Lockset.is_empty (deref c q))) [
    | inl f ↦ rw (e, f, has_empty_lockset c i) (ground (arith, has_of_empty (deref c q) i f))
    | inr f ↦ elim (Bool-cases (ptr_eq p q)) [
      | inl s ↦
          rw (e, f, s)
            (let z = ap (λ r. has (deref c r) i) (ptr_eq_sound p q s) in ground (arith, z))
      | inr s ↦
          rw (e, f, s)
            (has-lockset_cache_get c (Lockset.intersect (deref c p) (deref c q)) i
              ∙ has-intersect (deref c p) (deref c q) i)
    ]
  ]
]

-- Both timed locksets hold the lock, from one acquisition.
pub both_hold : TimedLockset → TimedLockset → ℕ → Bool
both_hold a b i = is_some (common (Map.find i a.timestamps) (Map.find i b.timestamps))

both_hold_empty_left :
    (a b : TimedLockset) (i : ℕ) → TimedLockset.is_empty a ≡ true → both_hold a b i ≡ false
unfolding both_hold TimedLockset.is_empty Map.find
both_hold_empty_left a b i h = go a.timestamps h
  where
    go :
        (m : Map.Map ℕ)
        → TimedLockset.is_empty (record { timestamps = m }) ≡ true
        → is_some (common (Map.find i m) (Map.find i b.timestamps)) ≡ false
    go [] h = refl
    go (x ∷ m) h = cc

common-none : (o : Option ℕ) → common o none ≡ none
common-none none = refl
common-none (some a) = refl

both_hold_empty_right :
    (a b : TimedLockset) (i : ℕ) → TimedLockset.is_empty b ≡ true → both_hold a b i ≡ false
unfolding both_hold TimedLockset.is_empty Map.find
both_hold_empty_right a b i h = go b.timestamps h
  where
    go :
        (m : Map.Map ℕ)
        → TimedLockset.is_empty (record { timestamps = m }) ≡ true
        → is_some (common (Map.find i a.timestamps) (Map.find i m)) ≡ false
    go [] h = rw (common-none (Map.find i a.timestamps))
    go (x ∷ m) h = cc

both_hold_self : (a : TimedLockset) (i : ℕ) → Map.contains i a.timestamps ≡ both_hold a a i
unfolding both_hold
both_hold_self a i = ground (arith, Map.contains-find i a.timestamps)

-- `intersect_timedlockset` gives the locks that both hold, and hold since the same acquisition: one
-- that was given back and taken again in between is not among them.
pub has-intersect_timedlockset :
    (c : Caches) (p q : TimedPtr) (i : ℕ)
    → Map.IsMap (timed_deref c p).timestamps
    → has (deref (intersect_timedlockset c p q).1 (intersect_timedlockset c p q).0) i
      ≡ both_hold (timed_deref c p) (timed_deref c q) i
unfolding intersect_timedlockset both_hold
has-intersect_timedlockset c p q i m = elim (Bool-cases (TimedLockset.is_empty a)) [
  | inl e ↦ rw (e, has_empty_lockset c i) (sym (both_hold_empty_left a b i e))
  | inr e ↦ elim (Bool-cases (TimedLockset.is_empty b)) [
    | inl f ↦ rw (e, f, has_empty_lockset c i) (sym (both_hold_empty_right a b i f))
    | inr f ↦ elim (Bool-cases (p == q)) [
      | inl s ↦
          let z : p ≡ q = ground arith in
          rw (e, f, s)
            (has-lockset_cache_get c (TimedLockset.to_lockset a) i
              ∙ has-to_lockset a i
              ∙ both_hold_self a i
              ∙ ap (λ r. both_hold a (timed_deref c r) i) z)
      | inr s ↦
          rw (e, f, s)
            (has-lockset_cache_get c (TimedLockset.to_lockset (TimedLockset.intersect a b)) i
              ∙ has-to_lockset (TimedLockset.intersect a b) i
              ∙ met)
    ]
  ]
]
  where
    a : TimedLockset
    a = timed_deref c p

    b : TimedLockset
    b = timed_deref c q

    met : Map.contains i (TimedLockset.intersect a b).timestamps ≡ both_hold a b i
    met =
        Map.contains-find i (TimedLockset.intersect a b).timestamps
        ∙ ap is_some (find-intersect a b i m)
