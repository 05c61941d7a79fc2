-- ===== src/PmAlloc/Refine.antt =====
-- The tool's list of mappings implements the set of regions: `SysBefore`, `SysAfter` and
-- `IsPMAddress` of src/utils.hpp.
use hawk_set.PmAlloc.{Bytes, PmAllocs, sys_mmap, is_shared}
use hawk_set.PmAlloc.Regions.{Call, run_call, after_call, live, Ends}
use hawk_set.Prelude.{
  ℕ, ◌%◌, ◌^◌, ◌<◌, ◌≡◌, true, false, ◌&&◌, Option, some, List, [], ◌∷◌, length, ◌==◌,
}

-- Between two calls.
abbrev pub Settled : PmAllocs → Type 0
Settled p = (p.found_alloc ≡ false) × Ends p.allocs

-- A shared mapping is of a file: its descriptor has a link, which fits the array.
abbrev pub IsLinked : (ℕ → Option Bytes) → Call → Type 0
IsLinked readlink c =
    ((c.num == sys_mmap) && is_shared c.flags) ≡ true
    → (path : Bytes) × (readlink (c.fd % 2 ^ 32) ≡ some path) × (length path < 1000)

abbrev pub AreLinked : (ℕ → Option Bytes) → List Call → Type 0
AreLinked readlink [] = Unit {0}
AreLinked readlink (c ∷ cs) = IsLinked readlink c × AreLinked readlink cs

-- What a call is to do, on the tool's data.
abbrev Done : (ℕ → Option Bytes) → Call → PmAllocs → PmAllocs → Type 0
Done readlink c p p' =
    (run_call readlink c p ≡ some p')
    × Settled p'
    × (p'.pm_mount ≡ p.pm_mount)
    × (live p'.allocs ≡ after_call readlink p.pm_mount c (live p.allocs))
