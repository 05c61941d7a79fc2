-- ===== src/Tests/Mappings.antt =====
-- Mappings of persistent memory at concrete inputs.
use hawk_set.PmAlloc.{Bytes, PmAllocs, compare_mount, fd_points_to_pm, is_pm_address, is_shared}
use hawk_set.PmAlloc.Mount
use hawk_set.PmAlloc.Mount.{StartsWith}
use hawk_set.PmAlloc.Overlap
use hawk_set.PmAlloc.Overlap.{overlap}
use hawk_set.PmAlloc.Refine
use hawk_set.PmAlloc.System.{system_calls, overlaps}
use hawk_set.PmAlloc.Regions.{Call}
use hawk_set.Prelude.{
  ℕ, ◌+◌, ◌^◌, ◌<◌, ◌≤◌, ◌≡◌, ◌↔◌, ◌⊎◌, refl, true, false, Option, none, some, [], ◌∷◌, length,
  arith,
}

-- "/p" and "/p/x"
abbrev mount : Bytes
mount = 47 ∷ 112 ∷ []

abbrev file : Bytes
file = 47 ∷ 112 ∷ 47 ∷ 120 ∷ []

abbrev links : ℕ → Option Bytes
links fd = some file

fd_points_to_pm_lem_example :
    ((fd_points_to_pm mount (some file) ≡ some true)
      ↔ ((length file < 1000) × StartsWith mount file))
    × ((fd_points_to_pm mount (some file) ≡ none) ↔ (1000 ≤ length file))
    × (fd_points_to_pm mount none ≡ none)
fd_points_to_pm_lem_example = Mount.fd_points_to_pm_lem mount file

-- A shared `mmap` of descriptor 3.
abbrev map_at : ℕ → ℕ → Call
map_at size start = record {
  num = 9;
  size = size;
  flags = 1;
  fd = 3;
  prot = 3;
  address = 0;
  return_value = start;
}

abbrev unmap_at : ℕ → ℕ → Call
unmap_at size start = record {
  num = 11;
  size = size;
  flags = 0;
  fd = 0;
  prot = 0;
  address = start;
  return_value = 0;
}

-- One region is left.
regions_left :
    system_calls links mount (map_at 8192 65536 ∷ map_at 4096 131072 ∷ unmap_at 8192 65536 ∷ []) []
    ≡ (131072, 4096) ∷ []
unfolding system_calls fd_points_to_pm is_shared overlaps
regions_left = refl

overlap-missed_example :
    (p : PmAllocs) × (overlap links
        (map_at 8192 65536)
        (map_at 4096 131072)
        (record { pm_mount = mount; allocs = []; found_alloc = false })
      ≡ some p)
    × ((address size : ℕ)
        → address + size < 2 ^ 64
        → (is_pm_address address size p ≡ true)
          ↔ ((address + size ≤ 8192) ⊎ ((65536 ≤ address) × (address + size ≤ 65536 + 4096))))
unfolding compare_mount is_shared
overlap-missed_example =
    Overlap.overlap-missed links (map_at 8192 65536) (map_at 4096 131072) mount file file
      (refl, refl, refl, omega arith, refl) (refl, refl, refl, omega arith, refl) (omega arith)
      (omega arith)
