-- ===== src/PmAlloc.antt =====
-- The mappings of persistent memory: `PMAllocation`, `FDPointsToPM`, `SysBefore`, `SysAfter` and
-- `IsPMAddress` of src/utils.hpp. What `readlink` gives for a descriptor is an argument; `none`
-- stands for an access outside of an array.
pub mod Mount
pub mod Regions
pub mod System
pub mod Refine
pub mod Overlap
use hawk_set.Prelude.{
  ℕ, ◌+◌, ◌%◌, ◌^◌, ◌-◌, Bool, true, false, not, ◌&&◌, ◌||◌, Option, none, some, List, [], ◌∷◌,
  ◌++◌, ltb, leb, ◌==◌, if◌then◌else◌, length,
}

-- A text is the list of its bytes, without the 0 at its end.
abbrev pub Bytes : Type 0
Bytes = List ℕ

pub record PmAllocation : Type 0 where
  pub size : ℕ
  pub start : ℕ
  pub end : ℕ
  pub path : Bytes
  pub flags : ℕ
  pub prot : ℕ
  pub unmapped : Bool

-- The constructor of a mapping that has no address yet.
unfoldable pub new_allocation : ℕ → Bytes → ℕ → ℕ → PmAllocation
new_allocation size path flags prot = record {
  size = size;
  start = 0;
  end = size;
  path = path;
  flags = flags;
  prot = prot;
  unmapped = false;
}

unfoldable pub set_start : PmAllocation → ℕ → PmAllocation
set_start a new_start = record a { start = new_start; end = (new_start + a.size) % 2 ^ 64 }

-- `pm_mount`, `allocs` and `found_alloc`.
pub record PmAllocs : Type 0 where
  pub pm_mount : Bytes
  pub allocs : List PmAllocation
  pub found_alloc : Bool

-- The loop of `FDPointsToPM`: the 0 at the end of the path differs from every byte of `pm_mount`.
unfoldable pub compare_mount : Bytes → Bytes → Bool
compare_mount [] file_path = true
compare_mount (c ∷ cs) [] = false
compare_mount (c ∷ cs) (d ∷ ds) = if not (c == d) then false else compare_mount cs ds

-- `FDPointsToPM`, on what `readlink` gives: -1, or at most 1000 bytes. The 0 is written before the
-- size is tested.
unfoldable pub fd_points_to_pm : Bytes → Option Bytes → Option Bool
unfolding compare_mount
fd_points_to_pm pm_mount none = none
fd_points_to_pm pm_mount (some file_path) =
    if not (ltb (length file_path) 1000) then none else some (compare_mount pm_mount file_path)

-- `SYS_mmap` and `SYS_munmap` of <syscall.h>, on the processors that PIN runs on.
abbrev pub sys_mmap : ℕ
sys_mmap = 9

abbrev pub sys_munmap : ℕ
sys_munmap = 11

-- The loop of `SysBefore`.
unfoldable pub mark_unmapped : ℕ → ℕ → List PmAllocation → List PmAllocation
mark_unmapped address size [] = []
mark_unmapped address size (a ∷ allocs) =
    (if a.start == address && a.size == size then record a { unmapped = true } else a)
    ∷ mark_unmapped address size allocs

-- `(flags & 0x01) == 0x01 || (flags & 0x03) == 0x03`
unfoldable pub is_shared : ℕ → Bool
is_shared flags = (flags % 2 == 1) || (flags % 4 == 3)

-- What stands in `file_path` afterwards.
abbrev pub path_of : Option Bytes → Bytes
path_of none = []
path_of (some file_path) = file_path

-- The part of `SysBefore` for `mmap`; the descriptor is cut to an `int`.
unfoldable pub note_mmap : (ℕ → Option Bytes) → ℕ → ℕ → ℕ → ℕ → PmAllocs → Option PmAllocs
unfolding fd_points_to_pm new_allocation
note_mmap readlink size flags fd prot p =
    let link = readlink (fd % 2 ^ 32) in
    elim (fd_points_to_pm p.pm_mount link) [
      | none ↦ none
      | some points ↦
          if not points
          then some p
          else some (record p {
            allocs = p.allocs ++ new_allocation size (path_of link) flags prot ∷ [];
            found_alloc = true;
          })
    ]

unfoldable pub sys_before : (ℕ → Option Bytes) → ℕ → ℕ → ℕ → ℕ → ℕ → ℕ → PmAllocs → Option PmAllocs
unfolding mark_unmapped is_shared note_mmap
sys_before readlink num size flags fd prot address p =
    let p' : PmAllocs =
      if num == sys_munmap then record p { allocs = mark_unmapped address size p.allocs } else p in
    if (num == sys_mmap) && is_shared flags
    then note_mmap readlink size flags fd prot p'
    else some p'

-- `allocs.pop_back()`, and `allocs.back().set_start(…)`.
unfoldable pub pop_back : {A : Type 0} → List A → Option (List A)
pop_back [] = none
pop_back (a ∷ []) = some []
pop_back (a ∷ b ∷ more) = elim (pop_back (b ∷ more)) [ none ↦ none | some rest ↦ some (a ∷ rest) ]

unfoldable pub start_back : ℕ → List PmAllocation → Option (List PmAllocation)
unfolding set_start
start_back start [] = none
start_back start (a ∷ []) = some (set_start a start ∷ [])
start_back start (a ∷ b ∷ more) = elim (start_back start (b ∷ more)) [
  | none ↦ none
  | some rest ↦ some (a ∷ rest)
]

unfoldable pub sys_after : ℕ → PmAllocs → Option PmAllocs
unfolding pop_back start_back
sys_after return_value p =
    if not p.found_alloc
    then some p
    else elim (if return_value == 2 ^ 64 - 1
        then pop_back p.allocs
        else start_back return_value p.allocs) [
          | none ↦ none
          | some allocs ↦ some (record p { allocs = allocs; found_alloc = false })
        ]

-- The test of one mapping in the loop of `IsPMAddress`.
unfoldable pub covers : ℕ → ℕ → PmAllocation → Bool
covers address range_end a = not a.unmapped && (leb a.start address && leb range_end a.end)

unfoldable pub any_covers : ℕ → ℕ → List PmAllocation → Bool
unfolding covers
any_covers address range_end [] = false
any_covers address range_end (a ∷ allocs) =
    if covers address range_end a then true else any_covers address range_end allocs

-- `IsPMAddress`; the end of the range wraps at 64 bits.
unfoldable pub is_pm_address : ℕ → ℕ → PmAllocs → Bool
unfolding any_covers
is_pm_address address size p = any_covers address ((address + size) % 2 ^ 64) p.allocs
