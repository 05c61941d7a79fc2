-- ===== src/PmAlloc/System.antt =====
-- What system calls do to the mappings themselves, next to what `SysBefore` and `SysAfter` of
-- src/utils.hpp make of them.
use hawk_set.PmAlloc.{Bytes, fd_points_to_pm, sys_mmap, sys_munmap, is_shared}
use hawk_set.PmAlloc.Regions.{Region, remove, Call, after_call, after_calls}
use hawk_set.Prelude.{
  ℕ, ◌+◌, ◌^◌, ◌-◌, ◌%◌, ◌≡◌, refl, sym, ap, ◌∙◌, Bool, true, ◌&&◌, Option, some, List, [], ◌∷◌,
  ◌++◌, ltb, ◌==◌, ==_iff, if◌then◌else◌, Bool-cases, inl, inr,
}

-- Do the ranges have an address in common?
unfoldable pub overlaps : Region → Region → Bool
overlaps (start, size) (start', size') = ltb start (start' + size') && ltb start' (start + size)

-- The system takes away what is mapped in the range.
unfoldable pub unmap : Region → List Region → List Region
unfolding overlaps
unmap range [] = []
unmap range (region ∷ regions) =
    let rest = unmap range regions in if overlaps range region then rest else region ∷ rest

-- The mappings of files on the mount as the system keeps them: a `munmap` that succeeds takes away
-- what it overlaps, and one that fails nothing; a shared `mmap` of such a file that succeeds adds one.
unfoldable pub system_call : (ℕ → Option Bytes) → Bytes → Call → List Region → List Region
unfolding unmap
system_call readlink pm_mount c regions =
    if c.num == sys_munmap
    then (if c.return_value == 0 then unmap (c.address, c.size) regions else regions)
    else if (c.num == sys_mmap) && is_shared c.flags
    then elim (fd_points_to_pm pm_mount (readlink (c.fd % 2 ^ 32))) [
      | some true ↦
          if c.return_value == 2 ^ 64 - 1 then regions else regions ++ (c.return_value, c.size) ∷ []
      | _ ↦ regions
    ]
    else regions

unfoldable pub system_calls : (ℕ → Option Bytes) → Bytes → List Call → List Region → List Region
unfolding system_call
system_calls readlink pm_mount [] regions = regions
system_calls readlink pm_mount (c ∷ cs) regions =
    system_calls readlink pm_mount cs (system_call readlink pm_mount c regions)

-- The range overlaps a mapping only when it is that mapping.
abbrev pub AreWhole : Region → List Region → Type 0
AreWhole range [] = Unit {0}
AreWhole (start, size) (region ∷ regions) =
    (overlaps (start, size) region ≡ (region.0 == start && region.1 == size))
    × AreWhole (start, size) regions

-- Each `munmap` succeeds and is of whole mappings.
abbrev pub UnmapWhole : (ℕ → Option Bytes) → Bytes → List Call → List Region → Type 0
UnmapWhole readlink pm_mount [] regions = Unit {0}
UnmapWhole readlink pm_mount (c ∷ cs) regions =
    ((c.num == sys_munmap) ≡ true → (c.return_value ≡ 0) × AreWhole (c.address, c.size) regions)
    × UnmapWhole readlink pm_mount cs (system_call readlink pm_mount c regions)

remove-unmap :
    (start size : ℕ) (regions : List Region)
    → AreWhole (start, size) regions
    → remove (start, size) regions ≡ unmap (start, size) regions
unfolding remove unmap
remove-unmap start size [] whole = refl
remove-unmap start size ((start', size') ∷ regions) (same, whole) = (λ i.
    if sym same i
    then remove-unmap start size regions whole i
    else (start', size') ∷ remove-unmap start size regions whole i)

after_call-system_call :
    (readlink : ℕ → Option Bytes) (pm_mount : Bytes) (c : Call) (regions : List Region)
    → ((c.num == sys_munmap) ≡ true → (c.return_value ≡ 0) × AreWhole (c.address, c.size) regions)
    → after_call readlink pm_mount c regions ≡ system_call readlink pm_mount c regions
unfolding after_call system_call
after_call-system_call readlink pm_mount c regions whole = elim (Bool-cases (c.num == sys_munmap)) [
  | inr e ↦ rw (e, after_call, system_call) refl
  | inl e ↦
      let (zero_there, parts) = whole e in
      let done : (c.return_value == 0) ≡ true = (==_iff c.return_value 0).1 zero_there in
      rw (e, done, after_call, system_call) (remove-unmap c.address c.size regions parts)
]

pub after_calls-system_calls :
    (readlink : ℕ → Option Bytes) (pm_mount : Bytes) (cs : List Call) (regions : List Region)
    → UnmapWhole readlink pm_mount cs regions
    → after_calls readlink pm_mount cs regions ≡ system_calls readlink pm_mount cs regions
unfolding after_calls system_calls
after_calls-system_calls readlink pm_mount [] regions whole = refl
after_calls-system_calls readlink pm_mount (c ∷ cs) regions (whole, rest) =
    ap (after_calls readlink pm_mount cs) (after_call-system_call readlink pm_mount c regions whole)
    ∙ after_calls-system_calls readlink pm_mount cs (system_call readlink pm_mount c regions) rest
