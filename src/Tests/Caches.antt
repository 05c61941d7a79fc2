-- ===== src/Tests/Caches.antt =====
-- The numbering of locks, timed locksets and the caches at concrete inputs.
use hawk_set.Backtrace
use hawk_set.Backtrace.Walk
use hawk_set.Backtrace.Walk.{IsWalk, custom_back_trace}
use hawk_set.Bitset
use hawk_set.Backtrace.{trace_eq}
use hawk_set.Cache.{Caches, cached, deref, timed_deref, intersect_timedlockset, lockset_comparison}
use hawk_set.Cache.Laws
use hawk_set.Cache.Hash
use hawk_set.Cache.Hash.{lockset_hash}
use hawk_set.Intern
use hawk_set.Lockset.{Lockset, no_locks, lockset_eq, has, set_mutex_internal}
use hawk_set.Map
use hawk_set.Registry.{Registry, register_mutex, lock, unlock, register_special_mutex}
use hawk_set.Registry.Laws as RegistryLaws
use hawk_set.Registry.Laws.{IsRegistry, holds, register_all}
use hawk_set.TimedLockset.{TimedLockset, to_lockset}
use hawk_set.TimedLockset
use hawk_set.Prelude.{
  ℕ, ◌≡◌, ◌≢◌, refl, ◌↔◌, true, false, some, List, [], ◌∷◌, ◌==◌, if◌then◌else◌, arith,
}

-- Two locks are numbered.
abbrev two_locks : Registry
two_locks = record { lock_index = (4096, 0) ∷ (8192, 1) ∷ []; lock_counter = 2 }

two_locks-IsRegistry : IsRegistry two_locks
unfolding Map.find
two_locks-IsRegistry = record {
  below = λ m i e. ground arith;
  distinct = λ m n i e f. ground arith;
}

register_mutex-IsRegistry_example : IsRegistry (register_mutex two_locks 5000)
register_mutex-IsRegistry_example =
    RegistryLaws.register_mutex-IsRegistry two_locks 5000 (omega arith) two_locks-IsRegistry

abbrev held : Lockset
held = set_mutex_internal no_locks 1 true

holds-lock_example :
    (holds (lock two_locks held 5000).1 (lock two_locks held 5000).0 8192
      ≡ (if 8192 == 5000 then true else holds two_locks held 8192))
    × (holds (unlock two_locks held 5000).1 (unlock two_locks held 5000).0 8192
        ≡ (if 8192 == 5000 then false else holds two_locks held 8192))
holds-lock_example =
    RegistryLaws.holds-lock two_locks held 5000 8192 (omega arith) two_locks-IsRegistry

special_unused_example :
    IsRegistry (register_all (register_special_mutex two_locks).1 (5000 ∷ 6000 ∷ []))
    × (Map.find 6000
          (register_all (register_special_mutex two_locks).1 (5000 ∷ 6000 ∷ [])).lock_index
        ≢ some (register_special_mutex two_locks).0)
special_unused_example =
    RegistryLaws.special_unused two_locks (5000 ∷ 6000 ∷ []) 6000 (omega arith) two_locks-IsRegistry

-- A store under lock 0, of time 4, and a fence after it was given back and taken again.
abbrev at_store : TimedLockset
at_store = record { timestamps = (0, 4) ∷ (1, 2) ∷ [] }

abbrev at_fence : TimedLockset
at_fence = record { timestamps = (0, 6) ∷ (1, 2) ∷ [] }

abbrev caches : Caches
caches = record { locksets = no_locks ∷ held ∷ []; timed_locksets = at_store ∷ at_fence ∷ [] }

has-intersect_timedlockset_example :
    has (deref (intersect_timedlockset caches 1 0).1 (intersect_timedlockset caches 1 0).0) 1
    ≡ Laws.both_hold (timed_deref caches 1) (timed_deref caches 0) 1
unfolding timed_deref
has-intersect_timedlockset_example = Laws.has-intersect_timedlockset caches 1 0 1 (omega arith)

intersect_runs : (intersect_timedlockset caches 1 0).0 ≡ cached 1
unfolding intersect_timedlockset TimedLockset.is_empty TimedLockset.intersect to_lockset
    set_mutex_internal Intern.get Map.find lockset_eq Bitset.word_eq Bitset.any
intersect_runs = refl

abbrev short_trace : List ℕ
short_trace = 256 ∷ 1 ∷ []

trace_eq_iff_example : (trace_eq short_trace (256 ∷ 2 ∷ []) ≡ true) ↔ (short_trace ≡ 256 ∷ 2 ∷ [])
trace_eq_iff_example = Backtrace.trace_eq_iff short_trace (256 ∷ 2 ∷ []) (omega arith) (omega arith)

no_duplicates : Intern.IsDistinct lockset_comparison (Intern.get lockset_comparison [] held).1
no_duplicates = Intern.get-IsDistinct lockset_comparison [] held (λ p q x y e. cc)

get_canonical_example :
    ((Intern.get lockset_comparison [] held).0
      ≡ (Intern.get lockset_comparison (Intern.get lockset_comparison [] held).1 held).0)
    ↔ (lockset_eq held held ≡ true)
get_canonical_example =
    Intern.get_canonical lockset_comparison [] (Intern.get lockset_comparison [] held).1 held held
      no_duplicates (λ p x e. e)

abbrev padded : Lockset
padded = set_mutex_internal (set_mutex_internal held 100 true) 100 false

lockset_hash-eq_example : lockset_hash held ≡ lockset_hash padded
unfolding lockset_eq set_mutex_internal Bitset.word_eq Bitset.any
lockset_hash-eq_example = Hash.lockset_hash-eq held padded refl

-- A frame whose first word is its own address.
abbrev cycle : ℕ → ℕ
cycle a = if a == 160 then 160 else 77

test_cycle : custom_back_trace cycle 5 160 120 4 ≡ (4, 5 ∷ 77 ∷ 77 ∷ 77 ∷ [])
unfolding custom_back_trace
test_cycle = refl

custom_back_trace-IsWalk_example : IsWalk cycle 5 160 120 4 (custom_back_trace cycle 5 160 120 4)
custom_back_trace-IsWalk_example = Walk.custom_back_trace-IsWalk cycle 5 160 120 4 (omega arith)
