-- ===== src/Registry.antt =====
-- The numbering of the locks: `lock_index` and `lock_counter` of src/lockset.cpp, and the operations
-- of `Lockset` that go through it. Their mutex makes each registration one step.
pub mod Laws
use hawk_set.Lockset.{Lockset, set_mutex_internal}
use hawk_set.Map
use hawk_set.Map.{Map}
use hawk_set.Prelude.{ℕ, ◌+◌, ◌%◌, ◌^◌, Bool, true, false, not, none, some, if◌then◌else◌}

pub record Registry : Type 0 where
  pub lock_index : Map ℕ
  pub lock_counter : ℕ

-- `lock_counter++`
abbrev count_up : Registry → Registry
count_up r = record r { lock_counter = (r.lock_counter + 1) % 2 ^ 64 }

unfoldable pub register_mutex : Registry → ℕ → Registry
register_mutex r mutex =
    if not (Map.contains mutex r.lock_index)
    then record (count_up r) { lock_index = Map.assign mutex r.lock_counter r.lock_index }
    else r

-- `lock_index[mutex]`, which makes an entry 0 if there is none.
unfoldable pub get_index : Registry → ℕ → ℕ × Registry
get_index r mutex = elim (Map.find mutex r.lock_index) [
  | none ↦ (0, record r { lock_index = Map.assign mutex 0 r.lock_index })
  | some i ↦ (i, r)
]

unfoldable pub register_special_mutex : Registry → ℕ × Registry
register_special_mutex r = (r.lock_counter, count_up r)

unfoldable pub set_mutex : Registry → Lockset → ℕ → Bool → Lockset × Registry
unfolding get_index
set_mutex r ls mutex val = let (i, r') = get_index r mutex in (set_mutex_internal ls i val, r')

unfoldable pub lock : Registry → Lockset → ℕ → Lockset × Registry
unfolding register_mutex set_mutex
lock r ls mutex = set_mutex (register_mutex r mutex) ls mutex true

unfoldable pub unlock : Registry → Lockset → ℕ → Lockset × Registry
unfolding register_mutex set_mutex
unlock r ls mutex = set_mutex (register_mutex r mutex) ls mutex false
