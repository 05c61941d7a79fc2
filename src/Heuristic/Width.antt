-- ===== src/Heuristic/Width.antt =====
-- Accesses of more than one byte: `HandleAccess` of src/hawkset.cpp.
use hawk_set.Bitset
use hawk_set.Bitset.{Bitset}
use hawk_set.Heuristic.{Accesses, handle_loop, handle_access}
use hawk_set.Heuristic.Refine.{add, mem, History, threads, all_threads, Tracks}
use hawk_set.Heuristic.Replay.{replay, is_ignored, Step, step_lem, replay-Tracks, length-add}
use hawk_set.Prelude.{
  ℕ, zero, suc, ◌+◌, ◌^◌, ◌<◌, ◌≤◌, ◌≡◌, refl, sym, ap, ◌∙◌, inl, inr, Bool, not, ◌&&◌, some, List,
  ◌∷◌, arith, leb, ltb, if◌then◌else◌, length, Bool-cases, subst, none, ==_iff,
}

-- A thread that is there is not added again.
add_twice : (t : ℕ) (us : List ℕ) → add t (add t us) ≡ add t us
add_twice t us = elim (Bool-cases (mem t us)) [
  | inl e ↦ ground (arith, e)
  | inr e ↦ ground (arith, e)
]

module _ (n : ℕ) (positive : 0 < n) (fits : n + 1 < 2 ^ 64) (tid a : ℕ) where
  still_ignored : (h : History) → is_ignored n ((tid, a) ∷ h) tid a ≡ is_ignored n h tid a
  still_ignored h =
      ground (arith, ==_iff a a, ap (λ ts. leb (length ts) n) (add_twice tid (threads a h)))

  -- The bits from `i` on, as many as there are rounds, tell whether the access is recorded.
  handle_loop_lem :
      (rounds i : ℕ) (h : History) (s : Accesses) (mask : Bitset) (ignored : Bool)
      → Tracks n h s
      → length (all_threads ((tid, a) ∷ h)) ≤ 64
      → is_ignored n h tid a ≡ ignored
      → (mask' : Bitset) × (s' : Accesses) × (handle_loop rounds i n tid a mask s
          ≡ some (mask', s'))
        × ((j : ℕ) → mask' j ≡ (if leb i j && ltb j (i + rounds) then not ignored else mask j))
  unfolding handle_loop Step
  handle_loop_lem zero i h s mask ignored v few e = (mask, s, refl, λ j. ground arith)
  handle_loop_lem (suc rounds) i h s mask ignored v few e =
      let (s1, f, v1) = step_lem n positive fits tid a h s v few in
      let few1 : length (all_threads ((tid, a) ∷ (tid, a) ∷ h)) ≤ 64 =
        subst (λ ts. length ts ≤ 64) (sym (add_twice tid (all_threads h))) few in
      let next : (mask' : Bitset) × (s' : Accesses) × (handle_loop rounds (i + 1) n tid a
              (Bitset.set_bit mask i (not (is_ignored n h tid a))) s1
            ≡ some (mask', s'))
          × ((j : ℕ)
              → mask' j ≡ (
                  if leb (i + 1) j && ltb j (i + 1 + rounds)
                  then not ignored
                  else Bitset.set_bit mask i (not (is_ignored n h tid a)) j)) =
        handle_loop_lem rounds (i + 1) ((tid, a) ∷ h) s1
          (Bitset.set_bit mask i (not (is_ignored n h tid a))) ignored v1 few1
          (still_ignored h ∙ e) in
      let (mask', s', run, bits) = next in
      (
        mask',
        s',
        ap
              (λ o. elim o [
                | none ↦ none
                | some x ↦ handle_loop rounds (i + 1) n tid a (Bitset.set_bit mask i (not x.0)) x.1
              ])
              f
            ∙ run,
        λ j. bits j ∙ ground (arith, e),
      )

  -- With the heuristic, after a history.
  handled :
      (size : ℕ) (h : History)
      → size ≤ 64
      → length (all_threads ((tid, a) ∷ h)) ≤ 64
      → (s : Accesses) × (replay n h ≡ some s)
        × (mask : Bitset) × (s' : Accesses) × (handle_access n tid a size s ≡ some (mask, s'))
        × ((i : ℕ) → mask i ≡ (ltb i size && not (is_ignored n h tid a)))
  unfolding handle_access
  handled size h small few =
      let (s, e, v) =
        replay-Tracks n positive fits h (omega (arith, length-add tid (all_threads h))) in
      let (mask, s', run, bits) =
        handle_loop_lem size 0 h s Bitset.zeros (is_ignored n h tid a) v few refl in
      (s, e, mask, s', ground (arith, small, positive, run), λ j. bits j ∙ ground arith)

-- An access of at most 64 bytes. When the heuristic ignores the accesses up to the `n`-th thread, where
-- `n` is at least 1 and `n + 1` fits 64 bits, after a history of accesses by at most 64 threads with
-- this one: no assertion fails, and the mask has the bits below the size if a single byte at the
-- address would be recorded, and none if it would be ignored. When the heuristic is off, with 0
-- threads, in any state: the mask has the bits below the size, and nothing is noted.
pub handle_access_lem :
    (n tid a size : ℕ) (h : History)
    → 0 < n
    → n + 1 < 2 ^ 64
    → size ≤ 64
    → length (all_threads ((tid, a) ∷ h)) ≤ 64
    → ((s : Accesses) × (replay n h ≡ some s)
        × (mask : Bitset) × (s' : Accesses) × (handle_access n tid a size s ≡ some (mask, s'))
        × ((i : ℕ) → mask i ≡ (ltb i size && not (is_ignored n h tid a))))
      × ((s : Accesses)
          → (mask : Bitset) × (handle_access 0 tid a size s ≡ some (mask, s))
            × ((i : ℕ) → mask i ≡ ltb i size))
unfolding handle_access
handle_access_lem n tid a size h positive fits small few = (
  handled n positive fits tid a size h small few,
  λ s. ((λ i. ltb i size), ground (arith, small), (λ i. refl)),
)
