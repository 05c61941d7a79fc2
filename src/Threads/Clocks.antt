-- ===== src/Threads/Clocks.antt =====
-- The clocks that a creation of a thread makes, for `ProcessThreadCreate` and `ProcessThreadInit`
-- of src/hawkset.cpp.
use native.Mathlib.Nat.{mod-eq_of_lt}
use hawk_set.VectorClock.{VectorClock, value, update_tid, is_concurrent, LeAt, Le, IsClock}
use hawk_set.VectorClock.Order.{
  is_concurrent_iff, find-update_tid, update_tid-IsClock, update_tid-lt, Le-trans,
}
use hawk_set.Prelude.{
  ℕ, ◌+◌, ◌^◌, ◌<◌, ◌≤◌, ◌≡◌, ◌≢◌, sym, ◌∙◌, inl, inr, true, false, Option, none, some, arith,
  Bool-cases,
}

pub not_concurrent :
    (a b : VectorClock) → IsClock a → IsClock b → Le a b → is_concurrent a b ≡ false
not_concurrent a b sa sb le = elim (Bool-cases (is_concurrent a b)) [
  | inl e ↦ absurd (((is_concurrent_iff a b sa sb).0 e).0 le)
  | inr e ↦ e
]

-- The counter of the thread does not wrap in its next two events.
abbrev pub HasRoom : VectorClock → ℕ → Type 0
HasRoom vc tid = value tid vc.clock + 2 < 2 ^ 64

pub value-update_self :
    (vc : VectorClock) (tid : ℕ)
    → value tid vc.clock + 1 < 2 ^ 64
    → value tid (update_tid vc tid).clock ≡ value tid vc.clock + 1
unfolding value
value-update_self vc tid h =
    ground
      (arith, find-update_tid vc tid tid, mod-eq_of_lt {n = value tid vc.clock + 1} {m = 2 ^ 64})

pub value-update_ne :
    (vc : VectorClock) (tid t : ℕ) → t ≢ tid → value t (update_tid vc tid).clock ≡ value t vc.clock
unfolding value
value-update_ne vc tid t h = ground (arith, find-update_tid vc tid t)

-- One event, or two, of a thread that has room.
pub Le-update : (vc : VectorClock) (tid : ℕ) → HasRoom vc tid → Le vc (update_tid vc tid)
Le-update vc tid h = (update_tid-lt vc tid (omega arith)).0

LeAt-value :
    (o s : Option ℕ)
    → LeAt o s
    → (elim o [ none ↦ 0 | some t ↦ t ]) ≤ (elim s [ none ↦ 0 | some t ↦ t ])
LeAt-value none s le = omega arith
LeAt-value (some a) none le = absurd le
LeAt-value (some a) (some b) le = le

-- A clock that is ahead at some thread is not below.
value-Le : (a b : VectorClock) (t : ℕ) → value t b.clock < value t a.clock → ¬ Le a b
unfolding value
value-Le a b t lt le = omega (arith, lt, LeAt-value _ _ (le t))

module _ (c : VectorClock) (p child : ℕ) (clock : IsClock c) (other : child ≢ p)
    (room : HasRoom c p) (child_room : HasRoom c child) where
  -- The clock that the creator hands over, the creator's new one, and the child's first.
  abbrev handed : VectorClock
  handed = update_tid c p

  abbrev creator : VectorClock
  creator = update_tid handed p

  abbrev born : VectorClock
  born = update_tid (update_tid handed child) child

  room_handed : value child handed.clock ≡ value child c.clock
  room_handed = value-update_ne c p child other

  room_child : value child (update_tid handed child).clock ≡ value child c.clock + 1
  room_child =
      omega (
        arith,
        room_handed,
        child_room,
        value-update_self handed child (omega (arith, room_handed)),
      )

  room_born : value child born.clock ≡ value child c.clock + 2
  room_born = omega (
    arith,
    room_child,
    value-update_self (update_tid handed child) child (omega (arith, room_child)),
  )

  -- The child does not count for its creator, nor the creator for its child.
  child_creator : value child creator.clock ≡ value child c.clock
  child_creator = value-update_ne handed p child other ∙ room_handed

  creator_handed : value p handed.clock ≡ value p c.clock + 1
  creator_handed = value-update_self c p (omega (arith, room))

  creator_creator : value p creator.clock ≡ value p c.clock + 2
  creator_creator =
      omega (arith, creator_handed, value-update_self handed p (omega (arith, creator_handed)))

  creator_born : value p born.clock ≡ value p c.clock + 1
  creator_born =
      value-update_ne (update_tid handed child) child p (λ e. other (sym e))
      ∙ (value-update_ne handed child p (λ e. other (sym e)) ∙ creator_handed)

  handed-IsClock : IsClock handed
  handed-IsClock = update_tid-IsClock c p clock

  born-IsClock : IsClock born
  born-IsClock = update_tid-IsClock _ child (update_tid-IsClock _ child handed-IsClock)

  -- Below: what the creator did before is ordered before the child.
  born_above : Le c born
  born_above = Le-trans c handed born (update_tid-lt c p (omega (arith, room))).0 (
      Le-trans handed (update_tid handed child) born
        (update_tid-lt handed child (omega (arith, room_handed))).0
        (update_tid-lt (update_tid handed child) child (omega (arith, room_child))).0)

  pub before_child : is_concurrent c born ≡ false
  before_child = not_concurrent c born clock born-IsClock born_above

  pub after_child : is_concurrent creator born ≡ true
  after_child =
      (is_concurrent_iff creator born (update_tid-IsClock handed p handed-IsClock) born-IsClock).1 (
        value-Le creator born p (omega (arith, creator_creator, creator_born)),
        value-Le born creator child (omega (arith, room_born, child_creator)),
      )
