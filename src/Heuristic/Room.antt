-- ===== src/Heuristic/Room.antt =====
-- The assertions of `IgnoreAccess` and `HandleAccess` of src/hawkset.cpp hold for the threads below 64
-- and the accesses of at most 64 bytes.
use hawk_set.Bitset
use hawk_set.Bitset.{Bitset}
use hawk_set.Heuristic.{
  Accesses, number_of, note_access, ignore_access, handle_access_byte, handle_loop, handle_access,
}
use hawk_set.Map
use hawk_set.Map.{Map, Above, IsMap, assign-IsMap, length-assign}
use hawk_set.Sound.{All}
use hawk_set.Sound.Tables.{assign-All, find-All}
use hawk_set.Prelude.{
  ℕ, zero, suc, ◌+◌, ◌≤◌, ◌<◌, ◌≡◌, refl, ap, ◌∙◌, inl, inr, Bool, true, false, not, Option, none,
  some, [], ◌∷◌, arith, ltb, leb, lt→ltb, ◌==◌, length, Bool-cases, Option-cases,
}

-- A thread below 64 has a number below 64.
abbrev pub IsRow : ℕ × ℕ → Type 0
IsRow (tid, id) = (tid < 64) × (id < 64)

-- `variable_accessed_map` of threads below 64.
abbrev pub IsSmall : Map ℕ → Type 0
IsSmall ids = IsMap ids × All IsRow ids

length-Above :
    (k : ℕ) (ids : Map ℕ) → k < 64 → Above k ids → IsMap ids → All IsRow ids → length ids + k < 64
length-Above k [] small a v h = omega arith
length-Above k ((j, i) ∷ ids) small a v h =
    let rest = length-Above j ids h.0.0 v.0 v.1 h.1 in omega arith

length-IsSmall : (ids : Map ℕ) → IsSmall ids → length ids ≤ 64
length-IsSmall [] v = omega arith
length-IsSmall ((j, i) ∷ ids) (v, h) =
    let rest = length-Above j ids h.0.0 v.0 v.1 h.1 in omega arith

-- A thread that has no number yet finds one.
room : (tid : ℕ) (ids : Map ℕ) → tid < 64 → IsSmall ids → Map.find tid ids ≡ none → length ids < 64
room tid ids small (v, h) e =
    let grown : IsSmall (Map.assign tid 0 ids) =
      (assign-IsMap tid 0 ids v, assign-All IsRow tid 0 ids (small, omega arith) h) in
    omega (arith, length-IsSmall (Map.assign tid 0 ids) grown, length-assign tid 0 ids e)

abbrev Numbers : ℕ × Map ℕ → Type 0
Numbers (id, ids) = (id < 64) × IsSmall ids

number_of-Numbers : (tid : ℕ) (ids : Map ℕ) → tid < 64 → IsSmall ids → Numbers (number_of tid ids)
unfolding number_of
number_of-Numbers tid ids small (v, h) = elim (Option-cases (Map.find tid ids)) [
  | inl e ↦
      let free = room tid ids small (v, h) e in
      rw (e, number_of)
        (
          free,
          (
            assign-IsMap tid (length ids) ids v,
            assign-All IsRow tid (length ids) ids (small, free) h,
          ),
        )
  | inr (id, e) ↦ rw (e, number_of) ((find-All IsRow tid id ids e h).1, (v, h))
]

-- There is a result, and the numbers stay small.
abbrev pub Small : {A : Type 0} → Option (A × Accesses) → Type 0
Small {A} o = (a : A) × (s : Accesses) × (o ≡ some (a, s)) × IsSmall s.variable_accessed_map

module _ (n tid address : ℕ) (small : tid < 64) where
  ignore_access-Small :
      (s : Accesses) → IsSmall s.variable_accessed_map → Small (ignore_access n tid address s)
  unfolding ignore_access
  ignore_access-Small s v =
      let r = number_of tid s.variable_accessed_map in
      let (below, kept) = number_of-Numbers tid s.variable_accessed_map small v in
      let noted = note_access n r.0 (Map.find address s.variable_accessed) in
      (
        noted.0,
        record {
          variable_accessed = Map.assign address noted.1 s.variable_accessed;
          variable_accessed_map = r.1;
        },
        rw (lt→ltb r.0 64 below) refl,
        kept,
      )

  pub handle_access_byte-Small :
      (s : Accesses) → IsSmall s.variable_accessed_map → Small (handle_access_byte n tid address s)
  unfolding handle_access_byte
  handle_access_byte-Small s v = elim (Bool-cases (n == 0)) [
    | inl e ↦ (true, s, rw (e, handle_access_byte) refl, v)
    | inr e ↦
        let (ignored, s', f, kept) = ignore_access-Small s v in
        (not ignored, s', rw (e, f, handle_access_byte) refl, kept)
  ]

  handle_loop-Small :
      (rounds i : ℕ) (mask : Bitset) (s : Accesses)
      → IsSmall s.variable_accessed_map
      → Small (handle_loop rounds i n tid address mask s)
  unfolding handle_loop
  handle_loop-Small zero i mask s v = (mask, s, refl, v)
  handle_loop-Small (suc rounds) i mask s v =
      let (ignored, s', f, kept) = ignore_access-Small s v in
      let (mask', t, g, kept') =
        handle_loop-Small rounds (i + 1) (Bitset.set_bit mask i (not ignored)) s' kept in
      (mask', t, ap next f ∙ g, kept')
    where
      next : Option (Bool × Accesses) → Option (Bitset × Accesses)
      next o = elim o [
        | none ↦ none
        | some (ignored, s') ↦
            handle_loop rounds (i + 1) n tid address (Bitset.set_bit mask i (not ignored)) s'
      ]

  pub handle_access-Small :
      (size : ℕ) (s : Accesses)
      → size ≤ 64
      → IsSmall s.variable_accessed_map
      → Small (handle_access n tid address size s)
  unfolding handle_access
  handle_access-Small size s fits v =
      let t : leb size 64 ≡ true = ground arith in
      elim (Bool-cases (n == 0)) [
        | inl e ↦ ((λ i. ltb i size), s, rw (t, e, handle_access) refl, v)
        | inr e ↦
            let (mask, s', f, kept) = handle_loop-Small size 0 Bitset.zeros s v in
            (mask, s', rw (t, e, handle_access) f, kept)
      ]

-- More bytes fail the assertion.
pub handle_access-wide :
    (n tid address size : ℕ) (s : Accesses)
    → leb size 64 ≡ false
    → handle_access n tid address size s ≡ none
unfolding handle_access
handle_access-wide n tid address size s e = rw (e, handle_access) refl
