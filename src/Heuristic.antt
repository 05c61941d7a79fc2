-- ===== src/Heuristic.antt =====
-- The initialization removal heuristic: `IgnoreAccess`, `HandleAccessByte` and `HandleAccess` of
-- src/hawkset.cpp. The mutex `variable_accessed_mutex` makes each call one step.
pub mod Refine
pub mod Numbers
pub mod Replay
pub mod Width
pub mod Room
use hawk_set.Bitset
use hawk_set.Bitset.{Bitset}
use hawk_set.Map
use hawk_set.Map.{Map}
use hawk_set.Prelude.{
  ℕ, zero, suc, ◌+◌, ◌%◌, ◌^◌, Bool, true, false, not, Option, none, some, [], ltb, leb, ◌==◌,
  if◌then◌else◌, length,
}

pub record Accesses : Type 0 where
  pub variable_accessed : Map Bitset
  pub variable_accessed_map : Map ℕ

abbrev pub no_accesses : Accesses
no_accesses = record { variable_accessed = []; variable_accessed_map = [] }

-- The number of a thread, `variable_accessed_map[tid]`, and the map with it.
pub number_of : ℕ → Map ℕ → ℕ × Map ℕ
number_of tid ids = elim (Map.find tid ids) [
  | none ↦ (length ids, Map.assign tid (length ids) ids)
  | some id ↦ (id, ids)
]

-- What becomes of the threads noted for an address, and whether the access is ignored. `n` is
-- `use_init_removal_heuristic_n`.
pub note_access : ℕ → ℕ → Option Bitset → Bool × Bitset
note_access n id none = (true, Bitset.set_bit Bitset.zeros id true)
note_access n id (some w) =
    if not (Bitset.any w)
    then (false, w)
    else if Bitset.test w id
    then (true, w)
    else (let w' = Bitset.set_bit w id true in
        if Bitset.count w' == (n + 1) % 2 ^ 64 then (false, Bitset.zeros) else (true, w'))

-- `none` is the failed assertion on the number of threads.
unfoldable pub ignore_access : ℕ → ℕ → ℕ → Accesses → Option (Bool × Accesses)
ignore_access n tid address s =
    let (id, ids) = number_of tid s.variable_accessed_map in
    if not (ltb id 64)
    then none
    else (let (ignored, w) = note_access n id (Map.find address s.variable_accessed) in
        some (
          ignored,
          record {
            variable_accessed = Map.assign address w s.variable_accessed;
            variable_accessed_map = ids;
          },
        ))

-- A single byte: should the access be recorded?
unfoldable pub handle_access_byte : ℕ → ℕ → ℕ → Accesses → Option (Bool × Accesses)
unfolding ignore_access number_of note_access
handle_access_byte n tid address s =
    if n == 0 then some (true, s) else elim (ignore_access n tid address s) [
      | none ↦ none
      | some (ignored, s') ↦ some (not ignored, s')
    ]

-- The loop of `HandleAccess` over the bytes: `i` is the next one, and all ask about `address`.
unfoldable pub handle_loop : ℕ → ℕ → ℕ → ℕ → ℕ → Bitset → Accesses → Option (Bitset × Accesses)
handle_loop zero i n tid address mask s = some (mask, s)
handle_loop (suc rounds) i n tid address mask s = elim (ignore_access n tid address s) [
  | none ↦ none
  | some (ignored, s') ↦
      handle_loop rounds (i + 1) n tid address (Bitset.set_bit mask i (not ignored)) s'
]

-- `size` bytes: the mask of those to record. `(1 << size) - 1` has the bits below `size`.
unfoldable pub handle_access : ℕ → ℕ → ℕ → ℕ → Accesses → Option (Bitset × Accesses)
unfolding handle_loop ignore_access number_of note_access
handle_access n tid address size s =
    if not (leb size 64)
    then none
    else if n == 0
    then some ((λ i. ltb i size), s)
    else handle_loop size 0 n tid address Bitset.zeros s
