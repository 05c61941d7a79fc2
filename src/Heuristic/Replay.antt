-- ===== src/Heuristic/Replay.antt =====
-- The heuristic over whole histories.
use hawk_set.Bitset.{Bitset}
use hawk_set.Heuristic.{Accesses, no_accesses, number_of, note_access, ignore_access}
use hawk_set.Heuristic.Refine.{add, History, threads, all_threads, Entry, Tracks, note_access_lem}
use hawk_set.Heuristic.Numbers.{Numbered, Numbered-old, Numbered-new, grown}
use hawk_set.Map
use hawk_set.Map.{Map}
use hawk_set.Prelude.{
  ℕ, ◌+◌, ◌^◌, ◌<◌, ◌≤◌, ◌≡◌, refl, sym, ap, inl, inr, Bool, true, false, Option, none, some, List,
  [], ◌∷◌, arith, leb, lt→ltb, subst, ◌==◌, if◌then◌else◌, length, Bool-cases, Option-cases,
}

-- The accesses of a history, one after the other; `none` if one of them failed the assertion.
pub replay : ℕ → History → Option Accesses
replay n [] = some no_accesses
replay n ((tid, a) ∷ h) = elim (replay n h) [
  | none ↦ none
  | some s ↦ elim (ignore_access n tid a s) [ none ↦ none | some (ignored, s') ↦ some s' ]
]

-- The specification: an access is ignored while at most `n` threads have accessed the address.
abbrev pub is_ignored : ℕ → History → ℕ → ℕ → Bool
is_ignored n h tid a = leb (length (add tid (threads a h))) n

unfoldable pub Step : ℕ → History → ℕ → ℕ → Accesses → Type 0
Step n h tid a s =
    (s' : Accesses) × (ignore_access n tid a s ≡ some (is_ignored n h tid a, s'))
    × Tracks n ((tid, a) ∷ h) s'

pub length-add : (t : ℕ) (us : List ℕ) → length us ≤ length (add t us)
length-add t us = ground arith

module _ (n : ℕ) (positive : 0 < n) (fits : n + 1 < 2 ^ 64) where
  Step-Numbered :
      (tid a : ℕ) (h : History) (s : Accesses) (id : ℕ) (ids : Map ℕ)
      → Numbered n tid h s id ids
      → number_of tid s.variable_accessed_map ≡ (id, ids)
      → length (all_threads ((tid, a) ∷ h)) ≤ 64
      → Step n h tid a s
  unfolding Step ignore_access
  Step-Numbered tid a h s id ids v e few =
      let small : id < 64 = omega (arith, v.numbering.below tid id v.found, v.size) in
      (
        after,
        rw (e, lt→ltb id 64 small) (ap (λ b. some (b, after)) noted.0),
        record {
          known = v.known;
          size = v.size;
          numbering = v.numbering;
          entries = λ b.
              subst (Entry n ids (threads b ((tid, a) ∷ h)))
                (sym (Map.find-assign b a w s.variable_accessed)) (entry b);
        },
      )
    where
      w : Bitset
      w = (note_access n id (Map.find a s.variable_accessed)).1

      after : Accesses
      after = record {
        variable_accessed = Map.assign a w s.variable_accessed;
        variable_accessed_map = ids;
      }

      noted :
          ((note_access n id (Map.find a s.variable_accessed)).0 ≡ is_ignored n h tid a)
          × Entry n ids (add tid (threads a h)) (some w)
      noted =
          note_access_lem n tid id ids positive fits v.numbering v.found
            (omega (arith, v.numbering.below tid id v.found, v.size)) (threads a h)
            (Map.find a s.variable_accessed) (v.entries a)

      Noted : ℕ → Type 0
      Noted x =
          Entry n ids (if a == x then add tid (threads x h) else threads x h)
            (if x == a then some w else Map.find x s.variable_accessed)

      entry :
          (b : ℕ)
          → Entry n ids
              (threads b ((tid, a) ∷ h))
              (if b == a then some w else Map.find b s.variable_accessed)
      entry b = elim (Bool-cases (a == b)) [
        | inl p ↦
            let q : a ≡ b = ground arith in
            let z : (a == a) ≡ true = ground arith in subst Noted q (rw z noted.1)
        | inr p ↦ let z : (b == a) ≡ false = ground arith in rw (p, z) (v.entries b)
      ]

  pub step_lem :
      (tid a : ℕ) (h : History) (s : Accesses)
      → Tracks n h s
      → length (all_threads ((tid, a) ∷ h)) ≤ 64
      → Step n h tid a s
  unfolding number_of grown
  step_lem tid a h s v few = elim (Option-cases (Map.find tid s.variable_accessed_map)) [
    | inr (id, e) ↦
        Step-Numbered tid a h s id s.variable_accessed_map (Numbered-old n tid h s v id e)
          (rw (e, number_of)) few
    | inl e ↦
        Step-Numbered tid a h s (length s.variable_accessed_map) (grown n tid h s v e)
          (Numbered-new n tid h s v e) (rw (e, number_of)) few
  ]

  -- Within 64 threads no assertion fails, and the state stands for the history.
  pub replay-Tracks :
      (h : History)
      → length (all_threads h) ≤ 64
      → (s : Accesses) × (replay n h ≡ some s) × Tracks n h s
  unfolding replay Step Map.find Map.contains
  replay-Tracks [] few = (
    no_accesses,
    refl,
    record {
      known = λ t. refl;
      size = refl;
      numbering = record { below = λ t i e. cc; distinct = λ t u i e f. cc };
      entries = λ a. refl;
    },
  )
  replay-Tracks ((tid, a) ∷ h) few =
      let (s, e, v) = replay-Tracks h (omega (arith, length-add tid (all_threads h))) in
      let (s', f, v') = step_lem tid a h s v few in (s', rw (e, f), v')

  -- An access is ignored exactly while at most `n` distinct threads, this one included, have
  -- accessed the address; no assertion fails as long as there are at most 64 threads.
  pub ignore_access_lem :
      (tid a : ℕ) (h : History)
      → length (all_threads ((tid, a) ∷ h)) ≤ 64
      → (s : Accesses) × (replay n h ≡ some s)
        × (s' : Accesses) × (ignore_access n tid a s ≡ some (is_ignored n h tid a, s'))
  unfolding Step
  ignore_access_lem tid a h few =
      let (s, e, v) = replay-Tracks h (omega (arith, length-add tid (all_threads h))) in
      let (s', f, _) = step_lem tid a h s v few in (s, e, s', f)
