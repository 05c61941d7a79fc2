-- ===== src/VectorClock/Order.antt =====
-- The order of the vector clocks: what `update` and `is_concurrent` mean.
use native.Mathlib.Nat.{mod-eq_of_lt}
use hawk_set.Map
use hawk_set.Map.{Map}
use hawk_set.Prelude.{
  ℕ, ◌+◌, ◌%◌, ◌^◌, ◌<◌, ◌≡◌, sym, ◌∙◌, ◌↔◌, inl, inr, true, false, Option, none, some, [], ◌∷◌,
  arith, ltb, ◌==◌, if◌then◌else◌, Bool-cases, Option-cases,
}
use hawk_set.VectorClock.{
  VectorClock, value, update_tid, update_loop, update_clock, is_concurrent, LeAt, Le, IsClock,
}
use hawk_set.VectorClock.Loops.{
  any_behind, any_ahead, compare_loop_lem, not-any_behind, any_behind_lem, not-any_ahead,
  any_ahead_lem, not-extra_loop, extra_loop_lem,
}
use hawk_set.VectorClock.{extra_loop}

-- The value of `is_concurrent` in terms of its loops.
is_concurrent_value :
    (a b : VectorClock)
    → is_concurrent a b ≡ (
        if any_behind a.clock b.clock
        then (if any_ahead a.clock b.clock then true else extra_loop a.clock b.clock)
        else false)
unfolding is_concurrent
is_concurrent_value a b = rw compare_loop_lem (ground arith)

not-Le_of_behind : (a b : VectorClock) → IsClock b → any_behind a.clock b.clock ≡ true → ¬ Le b a
not-Le_of_behind a b s h = any_behind_lem a.clock b.clock s h

Le_of_not-ahead :
    (a b : VectorClock)
    → any_ahead a.clock b.clock ≡ false
    → extra_loop a.clock b.clock ≡ false
    → Le a b
Le_of_not-ahead a b h k t = elim (Option-cases (Map.find t a.clock)) [
  | inl e ↦ rw e tt
  | inr (own, e) ↦
      rw e (not-any_ahead a.clock b.clock h t own e (not-extra_loop a.clock b.clock k t own e))
]

-- When the other clock is not below, the last loop and the flag agree on `¬ Le`.
ahead_or_extra : (a b : VectorClock) → IsClock a → IsClock b → is_concurrent a b ≡ true → ¬ Le a b
ahead_or_extra a b sa sb h = elim (Bool-cases (any_ahead a.clock b.clock)) [
  | inl e ↦ any_ahead_lem a.clock b.clock sb e
  | inr e ↦ extra_loop_lem a.clock b.clock sa (ground (arith, is_concurrent_value a b))
]

-- Two clocks are concurrent exactly when neither is below the other.
pub is_concurrent_iff :
    (a b : VectorClock) → IsClock a → IsClock b → (is_concurrent a b ≡ true) ↔ (¬ Le a b × ¬ Le b a)
is_concurrent_iff a b sa sb = (there, back)
  where
    there : is_concurrent a b ≡ true → ¬ Le a b × ¬ Le b a
    there h = (
      ahead_or_extra a b sa sb h,
      not-Le_of_behind a b sb (ground (arith, is_concurrent_value a b)),
    )

    back : ¬ Le a b × ¬ Le b a → is_concurrent a b ≡ true
    back (p, q) = elim (Bool-cases (any_behind a.clock b.clock)) [
      | inl e ↦ elim (Bool-cases (any_ahead a.clock b.clock)) [
        | inl f ↦ rw (is_concurrent_value a b, e, f)
        | inr f ↦ elim (Bool-cases (extra_loop a.clock b.clock)) [
          | inl g ↦ rw (is_concurrent_value a b, e, f, g)
          | inr g ↦ absurd (p (Le_of_not-ahead a b f g))
        ]
      ]
      | inr e ↦ absurd (q (not-any_behind a.clock b.clock e))
    ]

-- It does not matter which of the two clocks is asked.
pub is_concurrent_comm :
    (a b : VectorClock) → IsClock a → IsClock b → is_concurrent a b ≡ is_concurrent b a
is_concurrent_comm a b sa sb = elim (Bool-cases (is_concurrent a b)) [
  | inl e ↦ e ∙ sym (swapped a b sa sb e)
  | inr e ↦ elim (Bool-cases (is_concurrent b a)) [
    | inl f ↦ swapped b a sb sa f ∙ sym f
    | inr f ↦ e ∙ sym f
  ]
]
  where
    swapped :
        (c d : VectorClock)
        → IsClock c
        → IsClock d
        → is_concurrent c d ≡ true
        → is_concurrent d c ≡ true
    swapped c d sc sd h =
        let (p, q) = (is_concurrent_iff c d sc sd).0 h in (is_concurrent_iff d c sd sc).1 (q, p)

-- What a thread's own event does to its clock.
pub find-update_tid :
    (vc : VectorClock) (tid t : ℕ)
    → Map.find t (update_tid vc tid).clock
      ≡ (if t == tid then some ((value tid vc.clock + 1) % 2 ^ 64) else Map.find t vc.clock)
unfolding update_tid
find-update_tid vc tid t = ground (
  arith,
  Map.contains-find tid vc.clock,
  Map.find-assign t tid ((value tid vc.clock + 1) % 2 ^ 64) vc.clock,
  Map.find-assign tid tid 0 vc.clock,
  Map.find-assign t tid 0 vc.clock,
  Map.find-assign t tid ((value tid (Map.assign tid 0 vc.clock) + 1) % 2 ^ 64)
      (Map.assign tid 0 vc.clock),
)

pub update_tid-IsClock : (vc : VectorClock) (tid : ℕ) → IsClock vc → IsClock (update_tid vc tid)
unfolding update_tid
update_tid-IsClock vc tid s = elim (Bool-cases (Map.contains tid vc.clock)) [
  | inl e ↦ rw e (Map.assign-IsMap tid _ vc.clock s)
  | inr e ↦ rw e (Map.assign-IsMap tid _ _ (Map.assign-IsMap tid 0 vc.clock s))
]

LeAt-refl : (o : Option ℕ) → LeAt o o
LeAt-refl none = tt
LeAt-refl (some a) = omega arith

-- Unless the 64-bit counter wraps, an event moves the clock strictly up.
pub update_tid-lt :
    (vc : VectorClock) (tid : ℕ)
    → value tid vc.clock + 1 < 2 ^ 64
    → Le vc (update_tid vc tid) × ¬ Le (update_tid vc tid) vc
unfolding value
update_tid-lt vc tid h = (λ t. up t, λ le. strict (le tid))
  where
    up : (t : ℕ) → LeAt (Map.find t vc.clock) (Map.find t (update_tid vc tid).clock)
    up t = elim (Bool-cases (t == tid)) [
      | inl e ↦
          let p : t ≡ tid = ground arith in
          rw (find-update_tid vc tid t, e, p) (ground (arith, mod-eq_of_lt h))
      | inr e ↦ rw (find-update_tid vc tid t, e) (LeAt-refl (Map.find t vc.clock))
    ]

    strict : ¬ LeAt (Map.find tid (update_tid vc tid).clock) (Map.find tid vc.clock)
    strict l = ground (arith, find-update_tid vc tid tid, mod-eq_of_lt h)

-- The later of two times of one thread.
pub later : Option ℕ → Option ℕ → Option ℕ
later none s = s
later (some a) none = some a
later (some a) (some b) = some (if ltb a b then b else a)

find-update_loop :
    (t : ℕ) (own m : Map ℕ)
    → Map.IsMap m
    → Map.find t (update_loop own m) ≡ later (Map.find t own) (Map.find t m)
unfolding update_loop later Map.find
find-update_loop t own [] s = ground arith
find-update_loop t own ((j, w) ∷ rest) s = elim (Bool-cases (t == j)) [
  | inl e ↦
      let p : t ≡ j = ground arith in
      rw p (
        ground (
          arith,
          find-update_loop j own rest s.1,
          find-update_loop j (Map.assign j w own) rest s.1,
          Map.find_below j j rest (omega arith) s.0,
          Map.find-assign j j w own,
          Map.contains-find j own,
        ))
  | inr e ↦ ground (
    arith,
    find-update_loop t own rest s.1,
    find-update_loop t (Map.assign j w own) rest s.1,
    Map.find-assign t j w own,
  )
]

-- A join is entry by entry the later time.
pub find-update_clock :
    (a b : VectorClock) (t : ℕ)
    → IsClock b
    → Map.find t (update_clock a b).clock ≡ later (Map.find t a.clock) (Map.find t b.clock)
unfolding update_clock
find-update_clock a b t s = find-update_loop t a.clock b.clock s

update_loop-IsMap : (own m : Map ℕ) → Map.IsMap own → Map.IsMap (update_loop own m)
unfolding update_loop
update_loop-IsMap own [] s = s
update_loop-IsMap own ((j, w) ∷ rest) s = ground (
  arith,
  update_loop-IsMap own rest s,
  update_loop-IsMap (Map.assign j w own) rest (Map.assign-IsMap j w own s),
)

pub update_clock-IsClock : (a b : VectorClock) → IsClock a → IsClock (update_clock a b)
unfolding update_clock
update_clock-IsClock a b s = update_loop-IsMap a.clock b.clock s

LeAt-later_left : (o p : Option ℕ) → LeAt o (later o p)
unfolding later
LeAt-later_left none p = tt
LeAt-later_left (some a) none = omega arith
LeAt-later_left (some a) (some b) = ground arith

LeAt-later_right : (o p : Option ℕ) → LeAt p (later o p)
unfolding later
LeAt-later_right none p = LeAt-refl p
LeAt-later_right (some a) none = tt
LeAt-later_right (some a) (some b) = ground arith

LeAt-later_least : (o p q : Option ℕ) → LeAt o q → LeAt p q → LeAt (later o p) q
unfolding later
LeAt-later_least none p q h k = k
LeAt-later_least (some a) none q h k = h
LeAt-later_least (some a) (some b) none h k = h
LeAt-later_least (some a) (some b) (some c) h k = ground arith

-- A join is the least clock above both.
pub update_clock_lub :
    (a b : VectorClock)
    → IsClock b
    → Le a (update_clock a b)
      × Le b (update_clock a b)
      × ((c : VectorClock) → Le a c → Le b c → Le (update_clock a b) c)
update_clock_lub a b s = (
  λ t. rw (find-update_clock a b t s) (LeAt-later_left (Map.find t a.clock) (Map.find t b.clock)),
  λ t. rw (find-update_clock a b t s) (LeAt-later_right (Map.find t a.clock) (Map.find t b.clock)),
  λ c p q t.
      rw (find-update_clock a b t s) (
        LeAt-later_least (Map.find t a.clock) (Map.find t b.clock) (Map.find t c.clock) (p t)
          (q t)),
)

LeAt-trans : (o p q : Option ℕ) → LeAt o p → LeAt p q → LeAt o q
LeAt-trans none p q h k = tt
LeAt-trans (some a) none q h k = absurd h
LeAt-trans (some a) (some b) none h k = absurd k
LeAt-trans (some a) (some b) (some c) h k = omega arith

pub Le-refl : (a : VectorClock) → Le a a
Le-refl a t = LeAt-refl (Map.find t a.clock)

pub Le-trans : (a b c : VectorClock) → Le a b → Le b c → Le a c
Le-trans a b c p q t =
    LeAt-trans (Map.find t a.clock) (Map.find t b.clock) (Map.find t c.clock) (p t) (q t)
