-- ===== src/TimedLockset/Sets.antt =====
-- The operations of a timed lockset on the acquisitions that it stands for.
use hawk_set.Lockset.{no_locks, has}
use hawk_set.Lockset
use hawk_set.Lockset.Sets.{has-set_mutex_internal}
use hawk_set.Bitset
use hawk_set.Map
use hawk_set.Map.{Map}
use hawk_set.TimedLockset.{
  TimedLockset, intersect_loop, intersect, entries_eq, timed_lockset_eq, to_lockset_loop,
  to_lockset,
}
use hawk_set.Prelude.{
  ℕ, zero, suc, ◌/◌, ◌%◌, ◌≡◌, refl, ap, ◌∙◌, ◌↔◌, inl, inr, true, false, ◌||◌, Option, none, some,
  [], ◌∷◌, arith, ◌==◌, if◌then◌else◌, Bool-cases,
}
use hawk_set.Lockset.{Lockset}

-- The time at which both acquired the lock, if it is one acquisition.
abbrev pub common : Option ℕ → Option ℕ → Option ℕ
common (some s) (some t) = if t == s then some s else none
common _ _ = none

find-intersect_loop :
    (i : ℕ) (own other : Map ℕ)
    → Map.IsMap own
    → Map.find i (intersect_loop own other) ≡ common (Map.find i own) (Map.find i other)
unfolding intersect_loop Map.find
find-intersect_loop i [] other s = refl
find-intersect_loop i ((k, t) ∷ own) other s = elim (Bool-cases (i == k)) [
  | inl e ↦
      let p : i ≡ k = ground arith in
      rw p (
        ground
          (arith, find-intersect_loop k own other s.1, Map.find_below k k own (omega arith) s.0))
  | inr e ↦ ground (arith, find-intersect_loop i own other s.1)
]

-- `intersect` keeps a lock only if both hold it from the same acquisition.
pub find-intersect :
    (a b : TimedLockset) (i : ℕ)
    → Map.IsMap a.timestamps
    → Map.find i (intersect a b).timestamps
      ≡ common (Map.find i a.timestamps) (Map.find i b.timestamps)
unfolding intersect
find-intersect a b i s = find-intersect_loop i a.timestamps b.timestamps s

has-to_lockset_loop :
    (ls : Lockset) (m : Map ℕ) (i : ℕ)
    → has (to_lockset_loop ls m) i ≡ (Map.contains i m || has ls i)
unfolding to_lockset_loop Map.contains
has-to_lockset_loop ls [] i = refl
has-to_lockset_loop ls ((k, t) ∷ m) i =
    has-to_lockset_loop (Lockset.lock_special ls k) m i
    ∙ rw (has-set_mutex_internal ls k i true) (ground arith)

word-zeros : (k j : ℕ) → Lockset.word (Bitset.zeros ∷ []) k j ≡ false
word-zeros zero j = refl
word-zeros (suc k) j = refl

pub has-no_locks : (i : ℕ) → has no_locks i ≡ false
has-no_locks i = word-zeros (i / 64) (i % 64)

-- The plain lockset holds the locks that the timed one has an entry for.
pub has-to_lockset :
    (tls : TimedLockset) (i : ℕ) → has (to_lockset tls) i ≡ Map.contains i tls.timestamps
unfolding to_lockset
has-to_lockset tls i =
    has-to_lockset_loop no_locks tls.timestamps i ∙ rw (has-no_locks i) (ground arith)

entries_eq_sound : (m n : Map ℕ) → entries_eq m n ≡ true → m ≡ n
unfolding entries_eq
entries_eq_sound [] [] h = refl
entries_eq_sound [] ((j, t) ∷ n) h = cc
entries_eq_sound ((k, s) ∷ m) [] h = cc
entries_eq_sound ((k, s) ∷ m) ((j, t) ∷ n) h = ground (arith, entries_eq_sound m n)

entries_eq_refl : (m : Map ℕ) → entries_eq m m ≡ true
unfolding entries_eq
entries_eq_refl [] = refl
entries_eq_refl ((k, s) ∷ m) = ground (arith, entries_eq_refl m)

-- Timed locksets compare equal exactly when they are equal.
pub timed_lockset_eq_iff : (a b : TimedLockset) → (timed_lockset_eq a b ≡ true) ↔ (a ≡ b)
unfolding timed_lockset_eq
timed_lockset_eq_iff a b = (
  λ h. ap (λ m. record { timestamps = m }) (entries_eq_sound a.timestamps b.timestamps h),
  λ e. rw e (entries_eq_refl b.timestamps),
)
