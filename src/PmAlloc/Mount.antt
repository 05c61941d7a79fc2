-- ===== src/PmAlloc/Mount.antt =====
-- Which files are on the mount of persistent memory: `FDPointsToPM` of src/utils.hpp.
use hawk_set.PmAlloc.{Bytes, compare_mount, fd_points_to_pm}
use hawk_set.Prelude.{
  ◌≤◌, ◌<◌, ◌≡◌, ◌↔◌, refl, ap, true, none, some, [], ◌∷◌, ◌++◌, length, ==_iff, arith, inl, inr,
  Bool-cases, ◌==◌,
}

-- The path begins with the bytes of the mount, and may go on with anything.
abbrev pub StartsWith : Bytes → Bytes → Type 0
StartsWith pm_mount file_path = (rest : Bytes) × (file_path ≡ pm_mount ++ rest)

compare_mount_sound : (m p : Bytes) → compare_mount m p ≡ true → StartsWith m p
unfolding compare_mount
compare_mount_sound [] p h = (p, refl)
compare_mount_sound (c ∷ cs) [] h = absurd (ground arith)
compare_mount_sound (c ∷ cs) (d ∷ ds) h = elim (Bool-cases (c == d)) [
  | inl e ↦
      let (rest, eq) = compare_mount_sound cs ds (ground arith) in
      (rest, ground (arith, ==_iff c d))
  | inr e ↦ absurd (ground arith)
]

compare_mount_complete : (m rest : Bytes) → compare_mount m (m ++ rest) ≡ true
unfolding compare_mount
compare_mount_complete [] rest = refl
compare_mount_complete (c ∷ cs) rest = ground (arith, compare_mount_complete cs rest, ==_iff c c)

-- A descriptor whose link has fewer than 1000 bytes is on the mount exactly when its path starts
-- with that of the mount; a link of 1000 bytes or more, and a `readlink` that fails, make the
-- function write outside of its array.
pub fd_points_to_pm_lem :
    (m p : Bytes)
    → ((fd_points_to_pm m (some p) ≡ some true) ↔ ((length p < 1000) × StartsWith m p))
      × ((fd_points_to_pm m (some p) ≡ none) ↔ (1000 ≤ length p))
      × (fd_points_to_pm m none ≡ none)
unfolding fd_points_to_pm
fd_points_to_pm_lem m p = (
  (
    λ h. (ground arith, compare_mount_sound m p (ground arith)),
    λ (lt, (rest, e)). ground (arith, e, compare_mount_complete m rest, ap (compare_mount m) e),
  ),
  ground arith,
  refl,
)
