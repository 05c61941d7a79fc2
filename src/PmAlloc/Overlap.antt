-- ===== src/PmAlloc/Overlap.antt =====
-- Two calls of `mmap` that overlap: `found_alloc` and the back of `allocs` of src/utils.hpp belong to
-- all threads.
use hawk_set.PmAlloc.{
  Bytes, PmAllocs, new_allocation, set_start, fd_points_to_pm, sys_mmap, is_shared, note_mmap,
  sys_before, start_back, sys_after, is_pm_address, compare_mount,
}
use hawk_set.PmAlloc.Regions.{Call}
use hawk_set.Prelude.{
  ℕ, ◌+◌, ◌%◌, ◌^◌, ◌-◌, ◌<◌, ◌≤◌, ◌≡◌, ◌↔◌, true, false, Option, none, some, [], ◌∷◌, ◌++◌, length,
  arith, ◌⊎◌,
}

-- A shared mapping of a file on the mount.
abbrev pub MapsPm : (ℕ → Option Bytes) → Bytes → Call → Bytes → Type 0
MapsPm readlink pm_mount c path =
    (c.num ≡ sys_mmap)
    × (is_shared c.flags ≡ true)
    × (readlink (c.fd % 2 ^ 32) ≡ some path)
    × (length path < 1000)
    × (compare_mount pm_mount path ≡ true)

abbrev pub enter : (ℕ → Option Bytes) → Call → PmAllocs → Option PmAllocs
enter readlink c p = sys_before readlink c.num c.size c.flags c.fd c.prot c.address p

enter_value :
    (readlink : ℕ → Option Bytes) (c : Call) (p : PmAllocs) (path : Bytes)
    → MapsPm readlink p.pm_mount c path
    → enter readlink c p
      ≡ some (record p {
        allocs = p.allocs ++ new_allocation c.size path c.flags c.prot ∷ [];
        found_alloc = true;
      })
unfolding sys_before note_mmap fd_points_to_pm
enter_value readlink c p path (num, shared, link, fits, there) = ground (arith, shared, link, there)

-- The order in which the tool sees the calls: both enter, and then both return.
abbrev pub overlap : (ℕ → Option Bytes) → Call → Call → PmAllocs → Option PmAllocs
overlap readlink a b p = elim (enter readlink a p) [
  | none ↦ none
  | some p1 ↦ elim (enter readlink b p1) [
    | none ↦ none
    | some p2 ↦ elim (sys_after a.return_value p2) [
      | none ↦ none
      | some p3 ↦ sys_after b.return_value p3
    ]
  ]
]

-- Two shared mappings of files on the mount, from a tool that knows no mapping, the second of which is
-- entered before the first one returns, when the first one does not fail and the sum below does not
-- wrap: the tool does not fail, and a range that does not wrap is taken to be in persistent memory
-- exactly when it ends below the size of the first mapping, or starts at the address of the first
-- mapping or above and ends below the sum of that address and the size of the second mapping.
pub overlap-missed :
    (readlink : ℕ → Option Bytes) (a b : Call) (pm_mount path_a path_b : Bytes)
    → MapsPm readlink pm_mount a path_a
    → MapsPm readlink pm_mount b path_b
    → a.return_value < 2 ^ 64 - 1
    → a.return_value + b.size < 2 ^ 64
    → (p : PmAllocs) × (overlap readlink a b
          (record { pm_mount = pm_mount; allocs = []; found_alloc = false })
        ≡ some p)
      × ((address size : ℕ)
          → address + size < 2 ^ 64
          → (is_pm_address address size p ≡ true) ↔ (
              ((address + size ≤ a.size))
              ⊎ ((a.return_value ≤ address) × (address + size ≤ a.return_value + b.size))))
unfolding sys_after start_back set_start new_allocation is_pm_address
overlap-missed readlink a b pm_mount path_a path_b maps_a maps_b ra fits = (
  record {
    pm_mount = pm_mount;
    allocs =
        new_allocation a.size path_a a.flags a.prot
        ∷ set_start (new_allocation b.size path_b b.flags b.prot) a.return_value
        ∷ [];
    found_alloc = false;
  },
  ground (
    arith,
    enter_value readlink a start path_a maps_a,
    enter_value readlink b entered path_b maps_b,
  ),
  λ address size in_range. ground arith,
)
  where
    start : PmAllocs
    start = record { pm_mount = pm_mount; allocs = []; found_alloc = false }

    entered : PmAllocs
    entered = record {
      pm_mount = pm_mount;
      allocs = new_allocation a.size path_a a.flags a.prot ∷ [];
      found_alloc = true;
    }
