-- ===== src/PmAlloc/Regions.antt =====
-- The mappings as a set of regions: `SysBefore`, `SysAfter` and `IsPMAddress` of src/utils.hpp on a
-- sequence of system calls, each of which returns before the next one starts.
use hawk_set.PmAlloc.{
  Bytes, PmAllocation, PmAllocs, set_start, fd_points_to_pm, sys_mmap, sys_munmap, mark_unmapped,
  is_shared, sys_before, pop_back, start_back, sys_after, any_covers,
}
use hawk_set.Prelude.{
  ℕ, ◌+◌, ◌%◌, ◌^◌, ◌-◌, ◌≡◌, refl, Bool, true, false, ◌&&◌, Option, none, some, List, [], ◌∷◌,
  ◌++◌, leb, arith, ◌==◌, if◌then◌else◌,
}

-- A region by its first address and its size.
abbrev pub Region : Type 0
Region = ℕ × ℕ

-- Is the range inside one of the regions?
unfoldable pub in_region : ℕ → ℕ → List Region → Bool
in_region address range_end [] = false
in_region address range_end ((start, size) ∷ regions) =
    if leb start address && leb range_end ((start + size) % 2 ^ 64)
    then true
    else in_region address range_end regions

unfoldable pub remove : Region → List Region → List Region
remove (start, size) [] = []
remove (start, size) ((start', size') ∷ regions) =
    let rest = remove (start, size) regions in
    if start' == start && size' == size then rest else (start', size') ∷ rest

-- A system call with its arguments and what it returns.
pub record Call : Type 0 where
  pub num : ℕ
  pub size : ℕ
  pub flags : ℕ
  pub fd : ℕ
  pub prot : ℕ
  pub address : ℕ
  pub return_value : ℕ

module _ (readlink : ℕ → Option Bytes) where
  -- The calls as the tool sees them.
  unfoldable pub run_call : Call → PmAllocs → Option PmAllocs
  unfolding sys_before sys_after
  run_call c p = elim (sys_before readlink c.num c.size c.flags c.fd c.prot c.address p) [
    | none ↦ none
    | some p' ↦ sys_after c.return_value p'
  ]

  unfoldable pub run_calls : List Call → PmAllocs → Option PmAllocs
  unfolding run_call
  run_calls [] p = some p
  run_calls (c ∷ cs) p = elim (run_call c p) [ none ↦ none | some p' ↦ run_calls cs p' ]

  -- What the tool makes of them: a `munmap`, whether it fails or not, takes away the regions that are
  -- the same range, and a shared `mmap` of a file on the mount that returns adds one.
  unfoldable pub after_call : Bytes → Call → List Region → List Region
  unfolding remove
  after_call pm_mount c regions =
      if c.num == sys_munmap
      then remove (c.address, c.size) regions
      else if (c.num == sys_mmap) && is_shared c.flags
      then elim (fd_points_to_pm pm_mount (readlink (c.fd % 2 ^ 32))) [
        | some true ↦
            if c.return_value == 2 ^ 64 - 1
            then regions
            else regions ++ (c.return_value, c.size) ∷ []
        | _ ↦ regions
      ]
      else regions

  unfoldable pub after_calls : Bytes → List Call → List Region → List Region
  unfolding after_call
  after_calls pm_mount [] regions = regions
  after_calls pm_mount (c ∷ cs) regions = after_calls pm_mount cs (after_call pm_mount c regions)

-- The regions that the tool knows.
unfoldable pub live : List PmAllocation → List Region
live [] = []
live (a ∷ allocs) = let rest = live allocs in if a.unmapped then rest else (a.start, a.size) ∷ rest

-- Each mapping ends where its size says.
abbrev pub Ends : List PmAllocation → Type 0
Ends [] = Unit {0}
Ends (a ∷ allocs) = (a.end ≡ (a.start + a.size) % 2 ^ 64) × Ends allocs

pub any_covers-live :
    (address range_end : ℕ) (allocs : List PmAllocation)
    → Ends allocs
    → any_covers address range_end allocs ≡ in_region address range_end (live allocs)
unfolding any_covers live in_region
any_covers-live address range_end [] h = refl
any_covers-live address range_end (a ∷ allocs) h =
    ground (arith, h.0, any_covers-live address range_end allocs h.1)

pub live-mark_unmapped :
    (address size : ℕ) (allocs : List PmAllocation)
    → live (mark_unmapped address size allocs) ≡ remove (address, size) (live allocs)
unfolding live mark_unmapped remove
live-mark_unmapped address size [] = refl
live-mark_unmapped address size (a ∷ allocs) =
    ground (arith, live-mark_unmapped address size allocs)

pub mark_unmapped-Ends :
    (address size : ℕ) (allocs : List PmAllocation)
    → Ends allocs
    → Ends (mark_unmapped address size allocs)
unfolding mark_unmapped
mark_unmapped-Ends address size [] h = tt
mark_unmapped-Ends address size (a ∷ allocs) h =
    (ground (arith, h.0), mark_unmapped-Ends address size allocs h.1)

pub live-append : (ms bs : List PmAllocation) → live (ms ++ bs) ≡ live ms ++ live bs
unfolding live
live-append [] bs = refl
live-append (a ∷ ms) bs = ground (arith, live-append ms bs)

pub Ends-append :
    (ms : List PmAllocation) (a : PmAllocation)
    → Ends ms
    → a.end ≡ (a.start + a.size) % 2 ^ 64
    → Ends (ms ++ a ∷ [])
Ends-append [] a h e = (e, tt)
Ends-append (b ∷ ms) a h e = (h.0, Ends-append ms a h.1 e)

pub pop_back-append :
    (ms : List PmAllocation) (a : PmAllocation) → pop_back (ms ++ a ∷ []) ≡ some ms
unfolding pop_back
pop_back-append [] a = refl
pop_back-append (b ∷ []) a = refl
pop_back-append (b ∷ c ∷ ms) a = ground (arith, pop_back-append (c ∷ ms) a)

pub start_back-append :
    (start : ℕ) (ms : List PmAllocation) (a : PmAllocation)
    → start_back start (ms ++ a ∷ []) ≡ some (ms ++ set_start a start ∷ [])
unfolding start_back
start_back-append start [] a = refl
start_back-append start (b ∷ []) a = refl
start_back-append start (b ∷ c ∷ ms) a = ground (arith, start_back-append start (c ∷ ms) a)
