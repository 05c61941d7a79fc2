-- ===== src/VectorClock/Loops.antt =====
-- What the loops of `is_concurrent` and `update` compute, for the proofs in `VectorClock.Order`.
use hawk_set.Map
use hawk_set.Map.{Map}
use hawk_set.Prelude.{
  ℕ, ◌<◌, ◌≡◌, refl, ap, Bool, true, false, ◌||◌, Option, none, some, [], ◌∷◌, arith, ltb, ◌==◌,
  Option-cases, Bool-cases, inl, inr,
}
use hawk_set.VectorClock.{Flags, compare_loop, extra_loop, LeAt}

-- `clock` is behind at some entry of the map.
pub any_behind : Map ℕ → Map ℕ → Bool
any_behind clock [] = false
any_behind clock ((tid, t) ∷ rest) =
    elim (Map.find tid clock) [ none ↦ true | some own ↦ ltb own t ] || any_behind clock rest

-- `clock` is ahead at some entry of the map.
pub any_ahead : Map ℕ → Map ℕ → Bool
any_ahead clock [] = false
any_ahead clock ((tid, t) ∷ rest) =
    elim (Map.find tid clock) [ none ↦ false | some own ↦ ltb t own ] || any_ahead clock rest

pub compare_loop_lem :
    (clock m : Map ℕ) (f : Flags)
    → compare_loop clock m f
      ≡ record { greater = f.greater || any_ahead clock m; lesser = f.lesser || any_behind clock m }
unfolding compare_loop any_ahead any_behind
compare_loop_lem clock [] f = ground arith
compare_loop_lem clock ((tid, t) ∷ rest) f = ground (
  arith,
  compare_loop_lem clock rest (record f { lesser = true }),
  compare_loop_lem clock rest (record f { greater = true }),
  compare_loop_lem clock rest f,
)

LeAt-none : (o : Option ℕ) → LeAt o none → o ≡ none
LeAt-none none h = refl
LeAt-none (some a) h = absurd h

-- A map is below the clock when no entry is ahead.
pub not-any_behind :
    (clock m : Map ℕ)
    → any_behind clock m ≡ false
    → (t : ℕ) → LeAt (Map.find t m) (Map.find t clock)
unfolding any_behind Map.find
not-any_behind clock [] h t = tt
not-any_behind clock ((j, w) ∷ rest) h t = elim (Bool-cases (t == j)) [
  | inl same ↦ let e : t ≡ j = ground arith in rw e (ground arith)
  | inr other ↦ rw other (not-any_behind clock rest (ground arith) t)
]

abbrev Below : Map ℕ → Map ℕ → Type 0
Below m clock = (t : ℕ) → LeAt (Map.find t m) (Map.find t clock)

Below-tail :
    (clock rest : Map ℕ) (j w : ℕ)
    → Map.Above j rest
    → Below ((j, w) ∷ rest) clock
    → Below rest clock
unfolding Map.find
Below-tail clock rest j w s le t = elim (Bool-cases (t == j)) [
  | inl same ↦ rw (Map.find_below t j rest (ground arith) s) tt
  | inr other ↦ rw other at (le t)
]

pub any_behind_lem : (clock m : Map ℕ) → Map.IsMap m → any_behind clock m ≡ true → ¬ Below m clock
unfolding any_behind Map.find
any_behind_lem clock [] s h le = cc
any_behind_lem clock ((j, w) ∷ rest) s h le = ground (
  arith,
  le j,
  λ (p : any_behind clock rest ≡ true).
      any_behind_lem clock rest s.1 p (Below-tail clock rest j w s.0 le),
)

-- No entry of the map is behind the clock, and the clock has no other: it is below the map.
pub not-any_ahead :
    (clock m : Map ℕ)
    → any_ahead clock m ≡ false
    → (t own : ℕ) → Map.find t clock ≡ some own
    → Map.contains t m ≡ true
    → LeAt (some own) (Map.find t m)
unfolding any_ahead Map.find Map.contains
not-any_ahead clock [] h t own e c = cc
not-any_ahead clock ((j, w) ∷ rest) h t own e c = elim (Bool-cases (t == j)) [
  | inl same ↦
      let p : t ≡ j = ground arith in rw same (ground (arith, ap (λ i. Map.find i clock) p))
  | inr other ↦ rw other (not-any_ahead clock rest (ground arith) t own e (rw other at c))
]

Ahead : Map ℕ → Map ℕ → Type 0
Ahead clock m =
    (t : ℕ) × (own : ℕ) × (w : ℕ) × (Map.find t clock ≡ some own)
    × (Map.find t m ≡ some w)
    × (w < own)

find_head : (t w : ℕ) (m : Map ℕ) → Map.find t ((t, w) ∷ m) ≡ some w
unfolding Map.find
find_head t w m = ground arith

find_tail :
    (t j w v : ℕ) (m : Map ℕ)
    → Map.Above j m
    → Map.find t m ≡ some v
    → Map.find t ((j, w) ∷ m) ≡ some v
unfolding Map.find
find_tail t j w v m a e = elim (Bool-cases (t == j)) [
  | inl same ↦ let none_there = Map.find_below t j m (ground arith) a in cc
  | inr other ↦ rw other e
]

any_ahead_witness : (clock m : Map ℕ) → Map.IsMap m → any_ahead clock m ≡ true → Ahead clock m
unfolding any_ahead Ahead
any_ahead_witness clock [] s h = cc
any_ahead_witness clock ((j, w) ∷ rest) s h = elim (Bool-cases (any_ahead clock rest)) [
  | inl p ↦
      let (t, own, v, e, f, lt) = any_ahead_witness clock rest s.1 p in
      (t, own, v, e, find_tail t j w v rest s.0 f, lt)
  | inr p ↦ elim (Option-cases (Map.find j clock)) [
    | inl e ↦ absurd (ground arith)
    | inr (own, e) ↦ (j, own, w, e, find_head j w rest, ground arith)
  ]
]

pub any_ahead_lem : (clock m : Map ℕ) → Map.IsMap m → any_ahead clock m ≡ true → ¬ Below clock m
unfolding Ahead
any_ahead_lem clock m s h le =
    let (t, own, w, e, f, lt) = any_ahead_witness clock m s h in ground (arith, le t)

pub not-extra_loop :
    (clock m : Map ℕ)
    → extra_loop clock m ≡ false
    → (t own : ℕ) → Map.find t clock ≡ some own
    → Map.contains t m ≡ true
unfolding extra_loop Map.find
not-extra_loop [] m h t own e = cc
not-extra_loop ((j, w) ∷ rest) m h t own e = elim (Bool-cases (t == j)) [
  | inl same ↦ let p : t ≡ j = ground arith in rw p (ground arith)
  | inr other ↦ not-extra_loop rest m (ground arith) t own (rw other at e)
]

pub extra_loop_lem :
    (clock m : Map ℕ) → Map.IsMap clock → extra_loop clock m ≡ true → ¬ Below clock m
unfolding extra_loop Map.find
extra_loop_lem [] m s h le = cc
extra_loop_lem ((j, w) ∷ rest) m s h le = ground (
  arith,
  le j,
  Map.contains-find j m,
  λ (p : extra_loop rest m ≡ true). extra_loop_lem rest m s.1 p (Below-tail m rest j w s.0 le),
)
