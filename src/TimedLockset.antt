-- ===== src/TimedLockset.antt =====
-- Locksets with the time of each acquisition: `TimedLockset` of src/lockset.cpp.
pub mod Sets
pub mod Locks
use hawk_set.Lockset
use hawk_set.Lockset.{Lockset, no_locks}
use hawk_set.Map
use hawk_set.Map.{Map}
use hawk_set.Registry.{Registry, register_mutex, get_index}
use hawk_set.Prelude.{ℕ, Bool, true, false, ◌&&◌, none, some, [], ◌∷◌, ◌==◌, if◌then◌else◌}

-- By the lock's number, as `lock_index` gives it.
pub record TimedLockset : Type 0 where
  pub timestamps : Map ℕ

abbrev pub no_timed_locks : TimedLockset
no_timed_locks = record { timestamps = [] }

unfoldable pub lock_special : TimedLockset → ℕ → ℕ → TimedLockset
lock_special tls mutex timestamp = record { timestamps = Map.assign mutex timestamp tls.timestamps }

unfoldable pub unlock_special : TimedLockset → ℕ → TimedLockset
unlock_special tls mutex = record { timestamps = Map.erase mutex tls.timestamps }

unfoldable pub lock : Registry → TimedLockset → ℕ → ℕ → TimedLockset × Registry
unfolding register_mutex get_index
lock r tls mutex timestamp =
    let (i, r') = get_index (register_mutex r mutex) mutex in
    (record { timestamps = Map.assign i timestamp tls.timestamps }, r')

unfoldable pub unlock : Registry → TimedLockset → ℕ → TimedLockset × Registry
unfolding register_mutex get_index
unlock r tls mutex =
    let (i, r') = get_index (register_mutex r mutex) mutex in
    (record { timestamps = Map.erase i tls.timestamps }, r')

unfoldable pub clear : TimedLockset → TimedLockset
clear tls = record { timestamps = [] }

unfoldable pub is_empty : TimedLockset → Bool
is_empty tls = elim tls.timestamps [ [] ↦ true | _ ∷ _ ↦ false ]

-- The loop of `intersect` over its own entries.
intersect_loop : Map ℕ → Map ℕ → Map ℕ
intersect_loop [] other = []
intersect_loop ((mutex, timestamp) ∷ own) other =
    let rest = intersect_loop own other in
    elim (Map.find mutex other) [
      | none ↦ rest
      | some t ↦ if t == timestamp then (mutex, timestamp) ∷ rest else rest
    ]

unfoldable pub intersect : TimedLockset → TimedLockset → TimedLockset
unfolding intersect_loop
intersect own tls = record { timestamps = intersect_loop own.timestamps tls.timestamps }

-- `operator==` of `std::map`: the same entries in order.
entries_eq : Map ℕ → Map ℕ → Bool
entries_eq [] [] = true
entries_eq ((k, s) ∷ m) ((j, t) ∷ n) = (k == j && s == t) && entries_eq m n
entries_eq _ _ = false

unfoldable pub timed_lockset_eq : TimedLockset → TimedLockset → Bool
unfolding entries_eq
timed_lockset_eq a b = entries_eq a.timestamps b.timestamps

to_lockset_loop : Lockset → Map ℕ → Lockset
to_lockset_loop result [] = result
to_lockset_loop result ((mutex, timestamp) ∷ rest) =
    to_lockset_loop (Lockset.lock_special result mutex) rest

unfoldable pub to_lockset : TimedLockset → Lockset
unfolding to_lockset_loop
to_lockset tls = to_lockset_loop no_locks tls.timestamps
