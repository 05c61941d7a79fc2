-- ===== src/Races/Loads.antt =====
-- The table of loads that the analysis looks in, from the loads that the run recorded: the first
-- loop of `CheckPMRaces` of src/hawkset.cpp.
use hawk_set.Backtrace.{Trace}
use hawk_set.Bitset
use hawk_set.Cache.{LocksetPtr, cached, empty_lockset, ptr_eq}
use hawk_set.Map
use hawk_set.Map.{Map}
use hawk_set.Memory.{insert_lockset}
use hawk_set.Races.{Loads, insert_all, merge_loads, loads_at, spread_mask, loads_opt}
use hawk_set.Tool.{AccessKey, LocksetSet}
use hawk_set.Prelude.{
  ℕ, zero, suc, ◌+◌, ◌%◌, ◌^◌, ◌≡◌, ◌↔◌, refl, ap, ◌∙◌, inl, inr, Bool, true, false, ◌&&◌, ◌||◌,
  List, [], ◌∷◌, ◌==◌, ==_iff, if◌then◌else◌, Bool-cases, arith,
}

-- Is the lockset in the set?
unfoldable pub in_set : LocksetPtr → LocksetSet → Bool
in_set p [] = false
in_set p (q ∷ qs) = if ptr_eq q p then true else in_set p qs

pub ptr_eq_iff : (p q : LocksetPtr) → (ptr_eq p q ≡ true) ↔ (p ≡ q)
unfolding ptr_eq
ptr_eq_iff empty_lockset empty_lockset = ground arith
ptr_eq_iff empty_lockset (cached q) = ground arith
ptr_eq_iff (cached p) empty_lockset = ground arith
ptr_eq_iff (cached p) (cached q) = ground (arith, ==_iff p q)

pub in_set-insert :
    (p q : LocksetPtr) (set : LocksetSet)
    → in_set p (insert_lockset q set) ≡ (ptr_eq q p || in_set p set)
unfolding in_set insert_lockset
in_set-insert p q [] = ground arith
in_set-insert p q (r ∷ set) = elim (Bool-cases (ptr_eq q r)) [
  | inl e ↦ let same : q ≡ r = (ptr_eq_iff q r).0 e in ground (arith, e, ap (λ x. ptr_eq x p) same)
  | inr e ↦ ground (arith, e, in_set-insert p q set)
]

in_set-insert_all :
    (p : LocksetPtr) (ls set : LocksetSet)
    → in_set p (insert_all ls set) ≡ (in_set p ls || in_set p set)
unfolding in_set insert_all
in_set-insert_all p [] set = refl
in_set-insert_all p (q ∷ ls) set =
    ground (arith, in_set-insert_all p ls (insert_lockset q set), in_set-insert p q set)

-- Is there a load with this trace and this clock that had the lockset?
unfoldable pub in_loads : Trace → ℕ → LocksetPtr → Loads → Bool
unfolding in_set
in_loads trace clock_i p [] = false
in_loads trace clock_i p (((u, j), set) ∷ loads) =
    if (trace == u && clock_i == j) && in_set p set then true else in_loads trace clock_i p loads

in_loads-merge :
    (t u : Trace) (i j : ℕ) (p : LocksetPtr) (ls : LocksetSet) (loads : Loads)
    → in_loads t i p (merge_loads (u, j) ls loads)
      ≡ (((t == u && i == j) && in_set p ls) || in_loads t i p loads)
unfolding in_loads merge_loads in_set
in_loads-merge t u i j p ls [] = ground (arith, in_set-insert_all p ls [])
in_loads-merge t u i j p ls (((v, k), set) ∷ loads) = ground (
  arith,
  in_set-insert_all p ls set,
  in_loads-merge t u i j p ls loads,
  ==_iff t u,
  ==_iff i j,
  ==_iff u v,
  ==_iff j k,
  ==_iff t v,
  ==_iff i k,
)

-- The same in the table, at one byte.
unfoldable pub in_table : ℕ → Trace → ℕ → LocksetPtr → Map Loads → Bool
unfolding in_loads
in_table b trace clock_i p opt = in_loads trace clock_i p (loads_at b opt)

in_table-assign :
    (a b : ℕ) (t u : Trace) (i j : ℕ) (p : LocksetPtr) (ls : LocksetSet) (opt : Map Loads)
    → in_table b t i p (Map.assign a (merge_loads (u, j) ls (loads_at a opt)) opt)
      ≡ ((a == b && ((t == u && i == j) && in_set p ls)) || in_table b t i p opt)
unfolding in_table loads_at
in_table-assign a b t u i j p ls opt = elim (Bool-cases (a == b)) [
  | inl e ↦
      let same : a ≡ b = (==_iff a b).0 e in
      ground (
        arith,
        e,
        Map.find-assign b a (merge_loads (u, j) ls (loads_at a opt)) opt,
        ==_iff b a,
        in_loads-merge t u i j p ls (loads_at a opt),
        ap (λ x. in_loads t i p (loads_at x opt)) same,
      )
  | inr e ↦ ground (
    arith,
    e,
    Map.find-assign b a (merge_loads (u, j) ls (loads_at a opt)) opt,
    ==_iff b a,
    ==_iff a b,
  )
]

-- Does the access cover the byte, with one of the bits from `i` on?
unfoldable pub covers : ℕ → ℕ → AccessKey → ℕ → Bool
covers zero i key b = false
covers (suc n) i key b =
    if Bitset.test key.mask i && ((key.address + i) % 2 ^ 64 == b)
    then true
    else covers n (i + 1) key b

in_table-spread :
    (n k : ℕ) (key : AccessKey) (ls : LocksetSet) (b : ℕ) (t : Trace) (i : ℕ) (p : LocksetPtr)
    (opt : Map Loads)
    → in_table b t i p (spread_mask n k key ls opt) ≡ (
        (covers n k key b && ((t == key.backtrace && i == key.clock_i) && in_set p ls))
        || in_table b t i p opt)
unfolding spread_mask covers
in_table-spread zero k key ls b t i p opt = refl
in_table-spread (suc n) k key ls b t i p opt = elim (Bool-cases (Bitset.test key.mask k)) [
  | inl e ↦
      let a : ℕ = (key.address + k) % 2 ^ 64 in
      ground (
        arith,
        e,
        in_table-spread n (k + 1) key ls b t i p
            (Map.assign a (merge_loads (key.backtrace, key.clock_i) ls (loads_at a opt)) opt),
        in_table-assign a b t key.backtrace i key.clock_i p ls opt,
      )
  | inr e ↦ ground (arith, e, in_table-spread n (k + 1) key ls b t i p opt)
]

-- Did one of the recorded loads have this trace, this clock and this lockset, and cover the byte?
unfoldable pub any_load : ℕ → Trace → ℕ → LocksetPtr → List (AccessKey × LocksetSet) → Bool
unfolding covers in_set
any_load b t i p [] = false
any_load b t i p ((key, ls) ∷ loads) =
    if covers 64 0 key b && ((t == key.backtrace && i == key.clock_i) && in_set p ls)
    then true
    else any_load b t i p loads

or_first : (a b c : Bool) → (b || (a || c)) ≡ ((if a then true else b) || c)
or_first true true c = refl
or_first true false c = refl
or_first false b c = refl

-- The table has, at a byte, the loads that were recorded for an access whose mask covers the byte,
-- with their traces, clocks and locksets, and nothing else but what it had.
pub in_table-loads_opt :
    (b : ℕ) (t : Trace) (i : ℕ) (p : LocksetPtr) (loads : List (AccessKey × LocksetSet))
    (opt : Map Loads)
    → in_table b t i p (loads_opt loads opt) ≡ (any_load b t i p loads || in_table b t i p opt)
unfolding loads_opt any_load
in_table-loads_opt b t i p [] opt = refl
in_table-loads_opt b t i p ((key, ls) ∷ loads) opt =
    in_table-loads_opt b t i p loads (spread_mask 64 0 key ls opt)
    ∙ (ap (λ x. any_load b t i p loads || x) (in_table-spread 64 0 key ls b t i p opt)
        ∙ or_first (covers 64 0 key b && ((t == key.backtrace && i == key.clock_i) && in_set p ls))
            (any_load b t i p loads) (in_table b t i p opt))
