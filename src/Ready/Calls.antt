-- ===== src/Ready/Calls.antt =====
-- When the hooks of the system calls of src/utils.hpp stop the process.
use hawk_set.PmAlloc.{
  Bytes, PmAllocation, PmAllocs, sys_mmap, sys_munmap, is_shared, mark_unmapped, fd_points_to_pm,
  new_allocation, path_of, compare_mount, note_mmap, sys_before, sys_after, pop_back, start_back,
}
use hawk_set.Ready.{IsPresent, IsAwaited, IsReady, Ends, Ends-some, Ends-none}
use hawk_set.Run.{syscall_entry, syscall_exit}
use hawk_set.Tool.{Tool}
use hawk_set.Prelude.{
  ℕ, ◌%◌, ◌^◌, ◌-◌, ◌<◌, ◌≡◌, refl, Bool, true, false, not, ◌&&◌, Option, none, some, List, [], ◌∷◌,
  ◌++◌, if-Is, length, ltb, ◌==◌, if◌then◌else◌, Bool-cases, inl, inr, arith,
}

-- A hook that returns leaves a mapping for an address that is waited for.
abbrev Leaves : Type 0 → Option PmAllocs → Type 0
Leaves fits none = ¬ fits
Leaves fits (some p) = IsAwaited p

Leaves-if :
    (fits : Type 0) (b : Bool) (o p : Option PmAllocs)
    → (b ≡ true → Leaves fits o)
    → (b ≡ false → Leaves fits p)
    → Leaves fits (if b then o else p)
Leaves-if fits true o p h k = h refl
Leaves-if fits false o p h k = k refl

Leaves-weaken :
    (less fits : Type 0) (o : Option PmAllocs) → (fits → less) → Leaves less o → Leaves fits o
Leaves-weaken less fits none f h = λ x. h (f x)
Leaves-weaken less fits (some p) f h = h

append-IsPresent : {A : Type 0} (xs : List A) (x : A) → IsPresent (xs ++ x ∷ [])
append-IsPresent [] x = tt
append-IsPresent (y ∷ xs) x = tt

mark_unmapped-IsAwaited :
    (address size : ℕ) (p : PmAllocs)
    → IsAwaited p
    → IsAwaited (record p { allocs = mark_unmapped address size p.allocs })
unfolding mark_unmapped
mark_unmapped-IsAwaited address size p h e = go p.allocs (h e)
  where
    go :
        (allocs : List PmAllocation)
        → IsPresent allocs
        → IsPresent (mark_unmapped address size allocs)
    go [] k = k
    go (a ∷ allocs) k = tt

-- The path of a descriptor is known and shorter than the array.
abbrev pub IsKnown : (ℕ → Option Bytes) → ℕ → Type 0
IsKnown readlink fd = (path : Bytes) × (readlink (fd % 2 ^ 32) ≡ some path) × (length path < 1000)

note_mmap-Leaves :
    (readlink : ℕ → Option Bytes) (size flags fd prot : ℕ) (p : PmAllocs)
    → IsAwaited p
    → Leaves (IsKnown readlink fd) (note_mmap readlink size flags fd prot p)
unfolding note_mmap fd_points_to_pm
note_mmap-Leaves readlink size flags fd prot p h = go (readlink (fd % 2 ^ 32)) refl
  where
    Noted : Option Bytes → Type 0
    Noted link = Leaves (IsKnown readlink fd) (elim (fd_points_to_pm p.pm_mount link) [
      | none ↦ none
      | some points ↦
          if not points
          then some p
          else some (record p {
            allocs = p.allocs ++ new_allocation size (path_of link) flags prot ∷ [];
            found_alloc = true;
          })
    ])

    go : (link : Option Bytes) → readlink (fd % 2 ^ 32) ≡ link → Noted link
    go none e = λ (path, f, short). cc
    go (some path) e = elim (Bool-cases (ltb (length path) 1000)) [
      | inl f ↦ rw f (
          Leaves-if (IsKnown readlink fd) (not (compare_mount p.pm_mount path)) (some p) _ (λ x. h)
            (λ x y. append-IsPresent p.allocs _))
      | inr f ↦ rw f (λ (other, g, short). let same : path ≡ other = cc in ground (arith, same))
    ]

sys_before-Leaves :
    (readlink : ℕ → Option Bytes) (num size flags fd prot address : ℕ) (p : PmAllocs)
    → IsAwaited p
    → Leaves
        (((num == sys_mmap) && is_shared flags) ≡ true → IsKnown readlink fd)
        (sys_before readlink num size flags fd prot address p)
unfolding sys_before
sys_before-Leaves readlink num size flags fd prot address p h =
    let fits : Type 0 = ((num == sys_mmap) && is_shared flags) ≡ true → IsKnown readlink fd in
    let q : PmAllocs =
      if num == sys_munmap then record p { allocs = mark_unmapped address size p.allocs } else p in
    let kept : IsAwaited q =
      if-Is IsAwaited (num == sys_munmap) _ p (mark_unmapped-IsAwaited address size p h) h in
    Leaves-if fits ((num == sys_mmap) && is_shared flags) (note_mmap readlink size flags fd prot q)
      (some q)
      (λ e.
        Leaves-weaken (IsKnown readlink fd) fits (note_mmap readlink size flags fd prot q)
          (λ k. k e) (note_mmap-Leaves readlink size flags fd prot q kept))
      (λ e. kept)

-- The return of a system call does not stop the process.
sys_after-Leaves :
    (fits : Type 0) (value : ℕ) (p : PmAllocs) → IsAwaited p → Leaves fits (sys_after value p)
unfolding sys_after
sys_after-Leaves fits value p h =
    Leaves-if fits (not p.found_alloc) (some p) _ (λ e. h)
      (λ e. placed (if value == 2 ^ 64 - 1 then pop_back p.allocs else start_back value p.allocs) (
        if-Is Returned (value == 2 ^ 64 - 1) (pop_back p.allocs) (start_back value p.allocs)
          (popped p.allocs (h (ground arith))) (started p.allocs (h (ground arith)))))
  where
    Returned : Option (List PmAllocation) → Type 0
    Returned none = ⊥
    Returned (some allocs) = Unit {0}

    placed :
        (o : Option (List PmAllocation))
        → Returned o
        → Leaves fits (elim o [
          | none ↦ none
          | some allocs ↦ some (record p { allocs = allocs; found_alloc = false })
        ])
    placed none r = elim r [ ]
    placed (some allocs) r = λ e. cc

    popped : (allocs : List PmAllocation) → IsPresent allocs → Returned (pop_back allocs)
    popped [] k = elim k [ ]
    popped (a ∷ []) k = tt
    popped (a ∷ b ∷ more) k = after (pop_back (b ∷ more)) (popped (b ∷ more) tt)
      where
        after :
            (o : Option (List PmAllocation))
            → Returned o
            → Returned (elim o [ none ↦ none | some rest ↦ some (a ∷ rest) ])
        after none r = elim r [ ]
        after (some rest) r = tt

    started : (allocs : List PmAllocation) → IsPresent allocs → Returned (start_back value allocs)
    started [] k = elim k [ ]
    started (a ∷ []) k = tt
    started (a ∷ b ∷ more) k = after (start_back value (b ∷ more)) (started (b ∷ more) tt)
      where
        after :
            (o : Option (List PmAllocation))
            → Returned o
            → Returned (elim o [ none ↦ none | some rest ↦ some (a ∷ rest) ])
        after none r = elim r [ ]
        after (some rest) r = tt

module _ (s : Tool) (ready : IsReady s) (fits : Type 0) where
  hook-Ends :
      (o : Option PmAllocs)
      → Leaves fits o
      → Ends fits (elim o [ none ↦ none | some pm ↦ some (tt, record s { pm = pm }) ])
  hook-Ends none h = Ends-none (Unit {0}) fits h
  hook-Ends (some pm) h = Ends-some fits tt (record s { pm = pm }) (ready.0, h)

  pub syscall_exit-Ends : (value : ℕ) → Ends fits (syscall_exit value s)
  unfolding syscall_exit
  syscall_exit-Ends value =
      hook-Ends (sys_after value s.pm) (sys_after-Leaves fits value s.pm ready.1)

pub syscall_entry-Ends :
    (readlink : ℕ → Option Bytes) (num size flags fd prot address : ℕ) (s : Tool)
    → IsReady s
    → Ends
        (((num == sys_mmap) && is_shared flags) ≡ true → IsKnown readlink fd)
        (syscall_entry readlink num size flags fd prot address s)
unfolding syscall_entry
syscall_entry-Ends readlink num size flags fd prot address s ready =
    hook-Ends s ready (((num == sys_mmap) && is_shared flags) ≡ true → IsKnown readlink fd)
      (sys_before readlink num size flags fd prot address s.pm)
      (sys_before-Leaves readlink num size flags fd prot address s.pm ready.1)
