-- ===== src/VectorClock.antt =====
-- Vector clocks: src/vector_clock.hpp. A thread that is missing from a clock is before its time 0.
mod Loops
pub mod Order
use hawk_set.Map
use hawk_set.Map.{Map}
use hawk_set.Prelude.{
  ℕ, ◌+◌, ◌%◌, ◌^◌, ◌≤◌, Bool, true, false, not, ◌&&◌, ◌||◌, Option, none, some, List, [], ◌∷◌, ltb,
  if◌then◌else◌,
}

pub record VectorClock : Type 0 where
  pub clock : Map ℕ

abbrev pub empty : VectorClock
empty = record { clock = [] }

-- `clock[tid]`, which makes an entry 0 if there is none.
unfoldable pub value : ℕ → Map ℕ → ℕ
value tid m = elim (Map.find tid m) [ none ↦ 0 | some t ↦ t ]

-- `update(uint64_t tid)`
unfoldable pub update_tid : VectorClock → ℕ → VectorClock
unfolding value
update_tid vc tid =
    let clock = if not (Map.contains tid vc.clock) then Map.assign tid 0 vc.clock else vc.clock in
    record { clock = Map.assign tid ((value tid clock + 1) % 2 ^ 64) clock }

-- The loop of `update(const VectorClock&)`.
unfoldable pub update_loop : Map ℕ → Map ℕ → Map ℕ
unfolding value
update_loop clock [] = clock
update_loop clock ((tid, timestamp) ∷ rest) =
    update_loop
      (if not (Map.contains tid clock) || ltb (value tid clock) timestamp
        then Map.assign tid timestamp clock
        else clock)
      rest

unfoldable pub update_clock : VectorClock → VectorClock → VectorClock
unfolding update_loop
update_clock own vc = record { clock = update_loop own.clock vc.clock }

pub record Flags : Type 0 where
  pub greater : Bool
  pub lesser : Bool

-- The first loop of `is_concurrent`, over the entries of the other clock.
unfoldable pub compare_loop : Map ℕ → Map ℕ → Flags → Flags
compare_loop clock [] f = f
compare_loop clock ((tid, timestamp) ∷ rest) f =
    compare_loop clock rest (elim (Map.find tid clock) [
      | none ↦ record f { lesser = true }
      | some own ↦
          if ltb own timestamp
          then record f { lesser = true }
          else if ltb timestamp own
          then record f { greater = true }
          else f
    ])

-- The second loop: does the clock have a thread that the other lacks?
unfoldable pub extra_loop : Map ℕ → Map ℕ → Bool
extra_loop [] other = false
extra_loop ((tid, timestamp) ∷ rest) other =
    if not (Map.contains tid other) then true else extra_loop rest other

unfoldable pub is_concurrent : VectorClock → VectorClock → Bool
unfolding compare_loop extra_loop
is_concurrent own vc =
    let f = compare_loop own.clock vc.clock (record { greater = false; lesser = false }) in
    if not f.lesser
    then false
    else if f.greater
    then true
    else (extra_loop own.clock vc.clock && f.lesser)

-- The order that the clocks stand for: an event happens before what its clock is below.
abbrev pub LeAt : Option ℕ → Option ℕ → Type 0
LeAt none s = Unit {0}
LeAt (some a) none = ⊥
LeAt (some a) (some b) = a ≤ b

abbrev pub Le : VectorClock → VectorClock → Type 0
Le a b = (t : ℕ) → LeAt (Map.find t a.clock) (Map.find t b.clock)

abbrev pub IsClock : VectorClock → Type 0
IsClock vc = Map.IsMap vc.clock
