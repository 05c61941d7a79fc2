-- ===== src/Heuristic/Refine.antt =====
-- The heuristic against the history of the accesses: the bit sets count the distinct threads.
use hawk_set.Bitset
use hawk_set.Bitset.{Bitset}
use hawk_set.Heuristic.{Accesses, note_access}
use hawk_set.Map
use hawk_set.Map.{Map}
use hawk_set.Prelude.{
  ℕ, suc, ◌+◌, ◌^◌, ◌<◌, ◌≤◌, ◌≡◌, ◌⊎◌, refl, sym, ap, ◌∙◌, inl, inr, Bool, true, false, Option,
  none, some, List, [], ◌∷◌, arith, leb, ◌==◌, if◌then◌else◌, length, Bool-cases,
}
use native.Mathlib.Nat.{mod-eq_of_lt}

abbrev pub mem : ℕ → List ℕ → Bool
mem t [] = false
mem t (u ∷ us) = if t == u then true else mem t us

abbrev pub add : ℕ → List ℕ → List ℕ
add t us = if mem t us then us else t ∷ us

-- A history lists the accesses, thread and address, the latest first.
abbrev pub History : Type 0
History = List (ℕ × ℕ)

-- The distinct threads that accessed the address, and those that accessed any.
abbrev pub threads : ℕ → History → List ℕ
threads a [] = []
threads a ((t, b) ∷ h) = if b == a then add t (threads a h) else threads a h

abbrev pub all_threads : History → List ℕ
all_threads [] = []
all_threads ((t, b) ∷ h) = add t (all_threads h)

mem-add : (t u : ℕ) (us : List ℕ) → mem t (add u us) ≡ (if t == u then true else mem t us)
mem-add t u us = elim (Bool-cases (t == u)) [
  | inl e ↦ let p : t ≡ u = ground arith in rw p (ground arith)
  | inr e ↦ ground arith
]

pub mem-threads :
    (t a : ℕ) (h : History) → mem t (threads a h) ≡ true → mem t (all_threads h) ≡ true
mem-threads t a [] e = e
mem-threads t a ((u, b) ∷ h) e =
    ground (arith, mem-add t u (threads a h), mem-add t u (all_threads h), mem-threads t a h)

-- The bits of an entry stand for the threads in the list.
pub record Open (n : ℕ) (ids : Map ℕ) (ts : List ℕ) (w : Bitset) : Type 0 where
  pub some_bit : Bitset.any w ≡ true
  pub within : length ts ≤ n
  pub counted : Bitset.count w ≡ length ts
  pub bits : (t i : ℕ) → Map.find t ids ≡ some i → w i ≡ mem t ts
  pub spare : (i : ℕ) → length ids ≤ i → w i ≡ false

-- No entry before the first access; open up to `n` threads, and then closed.
abbrev pub Entry : ℕ → Map ℕ → List ℕ → Option Bitset → Type 0
Entry n ids ts none = ts ≡ []
Entry n ids ts (some w) = Open n ids ts w ⊎ ((Bitset.any w ≡ false) × (n < length ts))

pub record IsNumbering (ids : Map ℕ) : Type 0 where
  pub below : (t i : ℕ) → Map.find t ids ≡ some i → i < length ids
  pub distinct : (t u i : ℕ) → Map.find t ids ≡ some i → Map.find u ids ≡ some i → t ≡ u

pub record Tracks (n : ℕ) (h : History) (s : Accesses) : Type 0 where
  pub known : (t : ℕ) → Map.contains t s.variable_accessed_map ≡ mem t (all_threads h)
  pub size : length s.variable_accessed_map ≡ length (all_threads h)
  pub numbering : IsNumbering s.variable_accessed_map
  pub entries :
      (a : ℕ) → Entry n s.variable_accessed_map (threads a h) (Map.find a s.variable_accessed)

module _ (n tid id : ℕ) (ids : Map ℕ) (positive : 0 < n) (fits : n + 1 < 2 ^ 64)
    (numbering : IsNumbering ids) (found : Map.find tid ids ≡ some id) (small : id < 64) where
  -- A new bit for this thread.
  bits-set :
      (ts : List ℕ) (w : Bitset)
      → ((t i : ℕ) → Map.find t ids ≡ some i → w i ≡ mem t ts)
      → (t i : ℕ) → Map.find t ids ≡ some i
      → Bitset.set_bit w id true i ≡ (if t == tid then true else mem t ts)
  bits-set ts w h t i e = elim (Bool-cases (t == tid)) [
    | inl s ↦
        let p : t ≡ tid = ground arith in
        let q : some i ≡ some id = sym e ∙ ap (λ x. Map.find x ids) p ∙ found in ground arith
    | inr s ↦
        ground
          (arith, h t i e, λ (q : Map.find t ids ≡ some id). numbering.distinct t tid id q found)
  ]

  Open-new :
      (ts : List ℕ) (w : Bitset)
      → length ts < n
      → mem tid ts ≡ false
      → Bitset.count w ≡ length ts
      → ((t i : ℕ) → Map.find t ids ≡ some i → w i ≡ mem t ts)
      → ((i : ℕ) → length ids ≤ i → w i ≡ false)
      → Open n ids (tid ∷ ts) (Bitset.set_bit w id true)
  Open-new ts w room new counted bits spare = record {
    some_bit = Bitset.any_intro (Bitset.set_bit w id true) id small (ground arith);
    within = room;
    counted = Bitset.count-set id w small (bits tid id found ∙ new) ∙ ap suc counted;
    bits = bits-set ts w bits;
    spare = λ i b. ground (arith, numbering.below tid id found, spare i b);
  }

  abbrev pub Noted : List ℕ → Bool × Bitset → Type 0
  Noted ts r = (r.0 ≡ leb (length (add tid ts)) n) × Entry n ids (add tid ts) (some r.1)

  note-Open : (ts : List ℕ) (w : Bitset) → Open n ids ts w → Noted ts (note_access n id (some w))
  unfolding note_access
  note-Open ts w o = elim (Bool-cases (mem tid ts)) [
    | inl old ↦
        rw (o.some_bit, note_access, o.bits tid id found, old, add)
          (ground (arith, o.within), inl o)
    | inr new ↦ elim (Bool-cases (length ts == n)) [
      | inl full ↦
          rw
            (
              o.some_bit,
              note_access,
              o.bits tid id found,
              new,
              add,
              Bitset.count-set id w small (o.bits tid id found ∙ new),
              o.counted,
              mod-eq_of_lt fits,
            )
            (let c : (suc (length ts) == (n + 1)) ≡ true = ground arith in
              rw c (ground arith, inr (Bitset.any-zeros, ground arith)))
      | inr room ↦
          rw
            (
              o.some_bit,
              note_access,
              o.bits tid id found,
              new,
              add,
              Bitset.count-set id w small (o.bits tid id found ∙ new),
              o.counted,
              mod-eq_of_lt fits,
            )
            (let c : (suc (length ts) == (n + 1)) ≡ false = ground (arith, o.within) in
              rw c (
                ground (arith, o.within),
                inl (Open-new ts w (ground (arith, o.within)) new o.counted o.bits o.spare),
              ))
    ]
  ]

  pub note_access_lem :
      (ts : List ℕ) (o : Option Bitset) → Entry n ids ts o → Noted ts (note_access n id o)
  unfolding note_access
  note_access_lem ts none e =
      rw (e, add)
        (
          ground arith,
          inl (
              Open-new [] Bitset.zeros positive refl Bitset.count-zeros (λ t i f. refl)
                (λ i b. refl)),
        )
  note_access_lem ts (some w) (inl o) = note-Open ts w o
  note_access_lem ts (some w) (inr (a, b)) =
      let l : n < length (add tid ts) = ground arith in
      rw (a, note_access) (ground arith, inr (a, l))
